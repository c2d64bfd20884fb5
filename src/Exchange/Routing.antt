-- ===== src/Exchange/Routing.antt =====
-- Which messages the two modes pass on to each other, and for how long.
use flashptpd.Prelude.{
  ℕ, zero, suc, ◌≡◌, ◌≢◌, refl, inl, inr, Bool, true, false, ◌&&◌, ◌==◌, if◌then◌else◌, List,
  Option, none, some, Bool-cases, Option-cases, ◌∙◌, sym, drop,
}
use flashptpd.Wire.Tlv.{validate, resp_rx_restore, req_rx_restore, message_size}
use flashptpd.Wire.Message.{Message, read_message, response_period}
use flashptpd.Exchange.{Mode, Verdict, route, dispatch, other, settle, take_response, take_request}

-- The period in the message and the kind of its TLV say the same: a response or a request.
pub data Agrees (m : Message) : Option Bool → Type 0 where
  no_tlv : Agrees m none
  a_request : m.log_msg_period == response_period ≡ false → Agrees m (some true)
  a_response : m.log_msg_period == response_period ≡ true → Agrees m (some false)

-- They contradict each other.
pub data Contradicts (m : Message) : Option Bool → Type 0 where
  timed_request : m.log_msg_period == response_period ≡ true → Contradicts m (some true)
  untimed_response : m.log_msg_period == response_period ≡ false → Contradicts m (some false)

abbrev pub always_active : Mode → Bool
always_active mode = true

route-Contradicts :
    (mode : Mode) (bytes : List ℕ) (m : Message) (rest : List ℕ) (v : Option Bool)
    → read_message bytes ≡ some (m, rest)
    → validate bytes ≡ v
    → Contradicts m v
    → route mode bytes ≡ Verdict.passed_on
unfolding route
route-Contradicts Mode.client_mode bytes m rest v e k (timed_request p) = cc (e, k, p)
route-Contradicts Mode.client_mode bytes m rest v e k (untimed_response p) = cc (e, k, p)
route-Contradicts Mode.server_mode bytes m rest v e k (timed_request p) = cc (e, k, p)
route-Contradicts Mode.server_mode bytes m rest v e k (untimed_response p) = cc (e, k, p)

dispatch-zero : (mode : Mode) (bytes : List ℕ) → dispatch zero always_active mode bytes ≡ none
unfolding dispatch
dispatch-zero mode bytes = refl

dispatch-passed :
    (n : ℕ) (mode : Mode) (bytes : List ℕ)
    → route mode bytes ≡ Verdict.passed_on
    → dispatch (suc n) always_active mode bytes ≡ dispatch n always_active (other mode) bytes
unfolding dispatch settle
dispatch-passed n mode bytes e = rw e refl

-- A message whose period and TLV contradict each other, be it the period of a response with the TLV of
-- a request or the other way round, is passed on for ever: where both modes run, however many calls of
-- `onMsgReceived` are allowed, it is never done with.
pub dispatch-forever :
    (fuel : ℕ) (mode : Mode) (bytes : List ℕ) (m : Message) (rest : List ℕ) (v : Option Bool)
    → read_message bytes ≡ some (m, rest)
    → validate bytes ≡ v
    → Contradicts m v
    → dispatch fuel always_active mode bytes ≡ none
dispatch-forever zero mode bytes m rest v e k c = dispatch-zero mode bytes
dispatch-forever (suc fuel) mode bytes m rest v e k c =
    dispatch-passed fuel mode bytes (route-Contradicts mode bytes m rest v e k c)
    ∙ dispatch-forever fuel (other mode) bytes m rest v e k c

-- The mode that a message belongs to by its period.
abbrev pub owner : Message → Mode
owner m = if m.log_msg_period == response_period then Mode.client_mode else Mode.server_mode

take_response-kept :
    (m : Message) (bytes : List ℕ) (v : Option Bool)
    → v ≢ some true
    → take_response m bytes v ≢ Verdict.passed_on
unfolding take_response
take_response-kept m bytes none h g = cc
take_response-kept m bytes (some true) h g = h refl
take_response-kept m bytes (some false) h g =
    elim (Option-cases (resp_rx_restore (drop message_size bytes))) [ inl e ↦ cc | inr (t, e) ↦ cc ]

take_request-kept :
    (m : Message) (bytes : List ℕ) (v : Option Bool)
    → v ≢ some false
    → take_request m bytes v ≢ Verdict.passed_on
unfolding take_request
take_request-kept m bytes none h g = cc
take_request-kept m bytes (some false) h g = h refl
take_request-kept m bytes (some true) h g =
    elim (Option-cases (req_rx_restore (drop message_size bytes))) [ inl e ↦ cc | inr (t, e) ↦ cc ]

pub route-client :
    (bytes : List ℕ) (m : Message) (rest : List ℕ)
    → read_message bytes ≡ some (m, rest)
    → route Mode.client_mode bytes ≡ (
        if m.log_msg_period == response_period
        then take_response m bytes (validate bytes)
        else Verdict.passed_on)
unfolding route
route-client bytes m rest e = cc e

pub route-server :
    (bytes : List ℕ) (m : Message) (rest : List ℕ)
    → read_message bytes ≡ some (m, rest)
    → route Mode.server_mode bytes ≡ (
        if m.log_msg_period == response_period
        then Verdict.passed_on
        else take_request m bytes (validate bytes))
unfolding route
route-server bytes m rest e = cc e

Agrees-response :
    (m : Message) (v : Option Bool)
    → Agrees m v
    → m.log_msg_period == response_period ≡ true
    → v ≢ some true
Agrees-response m v no_tlv p g = cc
Agrees-response m v (a_request q) p g = cc
Agrees-response m v (a_response q) p g = cc

Agrees-request :
    (m : Message) (v : Option Bool)
    → Agrees m v
    → m.log_msg_period == response_period ≡ false
    → v ≢ some false
Agrees-request m v no_tlv p g = cc
Agrees-request m v (a_request q) p g = cc
Agrees-request m v (a_response q) p g = cc

route-owner :
    (bytes : List ℕ) (m : Message) (rest : List ℕ) (v : Option Bool)
    → read_message bytes ≡ some (m, rest)
    → validate bytes ≡ v
    → Agrees m v
    → (route (owner m) bytes ≢ Verdict.passed_on)
      × (route (other (owner m)) bytes ≡ Verdict.passed_on)
route-owner bytes m rest v e k a = elim (Bool-cases (m.log_msg_period == response_period)) [
  | inl p ↦ rw p (
    λ g.
        take_response-kept m bytes v (Agrees-response m v a p)
          (sym (route-client bytes m rest e ∙ cc (p, k)) ∙ g),
    route-server bytes m rest e ∙ cc p,
  )
  | inr p ↦ rw p (
    λ g.
        take_request-kept m bytes v (Agrees-request m v a p)
          (sym (route-server bytes m rest e ∙ cc (p, k)) ∙ g),
    route-client bytes m rest e ∙ cc p,
  )
]

settle-kept : (v : Verdict) (rest : Option Verdict) → v ≢ Verdict.passed_on → settle v rest ≡ some v
unfolding settle
settle-kept Verdict.passed_on rest h = absurd (h refl)
settle-kept Verdict.dropped rest h = refl
settle-kept (Verdict.response m tlv) rest h = refl
settle-kept (Verdict.request m hdr) rest h = refl

-- What becomes of a message of the mode `mine`, which both modes must be active for if it is passed on.
abbrev pub outcome : (Mode → Bool) → Mode → Mode → Verdict → Verdict
outcome active mode mine v = if active mode && active mine then v else Verdict.dropped

dispatch-inactive :
    (n : ℕ) (active : Mode → Bool) (mode : Mode) (bytes : List ℕ)
    → active mode ≡ false
    → dispatch (suc n) active mode bytes ≡ some Verdict.dropped
unfolding dispatch
dispatch-inactive n active mode bytes h = rw h refl

dispatch-kept :
    (n : ℕ) (active : Mode → Bool) (mode : Mode) (bytes : List ℕ)
    → active mode ≡ true
    → route mode bytes ≢ Verdict.passed_on
    → dispatch (suc n) active mode bytes ≡ some (route mode bytes)
unfolding dispatch
dispatch-kept n active mode bytes g h =
    rw g (settle-kept (route mode bytes) (dispatch n active (other mode) bytes) h)

dispatch-handed :
    (n : ℕ) (active : Mode → Bool) (mode : Mode) (bytes : List ℕ)
    → active mode ≡ true
    → route mode bytes ≡ Verdict.passed_on
    → dispatch (suc n) active mode bytes ≡ dispatch n active (other mode) bytes
unfolding dispatch settle
dispatch-handed n active mode bytes g e = rw (g, e) refl

-- The mode itself takes the message.
dispatch-own :
    (n : ℕ) (active : Mode → Bool) (mode : Mode) (bytes : List ℕ)
    → route mode bytes ≢ Verdict.passed_on
    → dispatch (suc n) active mode bytes ≡ some (outcome active mode mode (route mode bytes))
dispatch-own n active mode bytes h = elim (Bool-cases (active mode)) [
  | inl g ↦ dispatch-kept n active mode bytes g h ∙ sym (rw g refl)
  | inr g ↦ dispatch-inactive n active mode bytes g ∙ sym (rw g refl)
]

-- The mode passes the message on to the other.
dispatch-other :
    (active : Mode → Bool) (mode : Mode) (bytes : List ℕ)
    → route (other mode) bytes ≢ Verdict.passed_on
    → route mode bytes ≡ Verdict.passed_on
    → dispatch 2 active mode bytes
      ≡ some (outcome active mode (other mode) (route (other mode) bytes))
dispatch-other active mode bytes h p = elim (Bool-cases (active mode)) [
  | inr g ↦ dispatch-inactive 1 active mode bytes g ∙ sym (rw g refl)
  | inl g ↦ elim (Bool-cases (active (other mode))) [
    | inl f ↦
        dispatch-handed 1 active mode bytes g p
        ∙ dispatch-kept 0 active (other mode) bytes f h
        ∙ sym (rw (g, f) refl)
    | inr f ↦
        dispatch-handed 1 active mode bytes g p
        ∙ dispatch-inactive 0 active (other mode) bytes f
        ∙ sym (rw (g, f) refl)
  ]
]

dispatch-two :
    (active : Mode → Bool) (mode mine : Mode) (bytes : List ℕ)
    → route mine bytes ≢ Verdict.passed_on
    → route (other mine) bytes ≡ Verdict.passed_on
    → dispatch 2 active mode bytes ≡ some (outcome active mode mine (route mine bytes))
dispatch-two active Mode.client_mode Mode.client_mode bytes h p =
    dispatch-own 1 active Mode.client_mode bytes h
dispatch-two active Mode.server_mode Mode.server_mode bytes h p =
    dispatch-own 1 active Mode.server_mode bytes h
dispatch-two active Mode.client_mode Mode.server_mode bytes h p =
    dispatch-other active Mode.client_mode bytes h p
dispatch-two active Mode.server_mode Mode.client_mode bytes h p =
    dispatch-other active Mode.server_mode bytes h p

-- A message whose period and TLV agree, or that has no TLV, is done with after at most two calls of
-- `onMsgReceived`, whichever of the two modes receives it and whichever are enabled and run. If both the
-- mode that receives it and the one to which it belongs by its period are, the latter takes it in or drops
-- it, and does not pass it on; otherwise it is dropped.
pub dispatch-ends :
    (active : Mode → Bool) (mode : Mode) (bytes : List ℕ) (m : Message) (rest : List ℕ)
    (v : Option Bool)
    → read_message bytes ≡ some (m, rest)
    → validate bytes ≡ v
    → Agrees m v
    → (dispatch 2 active mode bytes ≡ some (outcome active mode (owner m) (route (owner m) bytes)))
      × (route (owner m) bytes ≢ Verdict.passed_on)
dispatch-ends active mode bytes m rest v e k a =
    let (kept, passed) = route-owner bytes m rest v e k a in
    (dispatch-two active mode (owner m) bytes kept passed, kept)
