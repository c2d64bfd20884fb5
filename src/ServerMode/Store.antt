-- ===== src/ServerMode/Store.antt =====
-- The store of requests (src/flashptp/server/serverMode.cpp).
use mathlib.Core.List.{append-nil, append_assoc}
use flashptpd.Prelude.{
  ℕ, sym, arith, All-mono, ◌≡◌, refl, ◌∙◌, ap, true, false, not, inl, inr, Bool-cases, List, [],
  ◌∷◌, ◌++◌, Option, none, some, All, ◌==◌,
}
use flashptpd.Wire.Timestamp.{Timespec, of_timespec}
use flashptpd.Wire.Interval.{add_interval}
use flashptpd.Wire.Tlv.{TlvHdr}
use flashptpd.Wire.Message.{Message, two_step, sync, follow_up}
use flashptpd.Client.Sequence.{TimestampLevel, is_valid_level}
use flashptpd.ServerMode.{
  is_there, SockAddr, Request, complete, timed_out, matches, merge, merge_message, merge_tlv,
  merge_correction, new_request, obtain, obtain_request,
}

-- Requests that still wait for a part.
abbrev pub AllOpen : List Request → Type 0
AllOpen requests = All (λ q. complete q ≡ false) requests

All-append {κ} :
    (P : Request → Type κ) (xs ys : List Request) → All P xs → All P ys → All P (xs ++ ys)
All-append P [] ys h k = k
All-append P (x ∷ xs) ys h k = (h.0, All-append P xs ys h.1 k)

module _ (now : Timespec) (msg : Message) (tlv : Option TlvHdr) (src dst : SockAddr)
    (level : TimestampLevel) (timestamp : Option Timespec) where
  obtain-AllOpen :
      (rest done : List Request)
      → AllOpen done
      → AllOpen rest
      → AllOpen (obtain now msg tlv src dst level timestamp done rest).0
  unfolding obtain
  obtain-AllOpen [] done h k =
      let q = new_request now msg tlv src dst level timestamp in
      elim (Bool-cases (complete q)) [
        | inl e ↦ rw e h
        | inr e ↦ rw e (All-append _ done (q ∷ []) h (e, tt))
      ]
  obtain-AllOpen (q ∷ rest) done h k =
      let merged = merge msg tlv src dst level timestamp q in
      elim (Bool-cases (matches src msg.seq_id q)) [
        | inr e ↦
            rw (e, obtain)
              (obtain-AllOpen rest (done ++ q ∷ []) (All-append _ done (q ∷ []) h (k.0, tt)) k.1)
        | inl e ↦ elim (Bool-cases (timed_out now q)) [
          | inl t ↦ rw (e, obtain) (rw t (All-append _ done rest h k.1))
          | inr t ↦ elim (Bool-cases (complete merged)) [
            | inl c ↦ rw (e, obtain) (rw t (rw c (All-append _ done rest h k.1)))
            | inr c ↦ rw (e, obtain) (rw t (rw c (All-append _ done (merged ∷ rest) h (c, k.1))))
          ]
        ]
      ]

  -- No message leaves a complete request in the store, where each request waits for a part.
  obtain_request-AllOpen :
      (requests : List Request)
      → AllOpen requests
      → AllOpen (obtain_request now msg tlv src dst level timestamp requests).0
  unfolding obtain_request
  obtain_request-AllOpen requests h = obtain-AllOpen requests [] tt h

-- What is left of a two-step Sync without TLV: a request that waits for the Follow Up.
abbrev pub waiting : Timespec → Message → SockAddr → SockAddr → TimestampLevel → Timespec → Request
waiting now sy src dst level t = record {
  ts = now;
  src_address = src;
  src_event_port = src.port;
  src_general_port = 0;
  dst_address = dst;
  dst_event_port = dst.port;
  dst_general_port = 0;
  sequence_id = sy.seq_id;
  sync_correction = sy.correction;
  follow_up_correction = 0;
  correction = 0;
  ptp_version = sy.version;
  timestamp_level = level;
  ingress_timestamp = of_timespec t;
  flags = 0;
  sync_tlv = false;
  one_step = false;
  sync_received = true;
  follow_up_received = false;
  tlv_received = false;
}

merge_message-sync :
    (msg : Message) (tlv : Option TlvHdr) (src dst : SockAddr) (level : TimestampLevel)
    (t : Timespec) (q : Request)
    → msg.msg_type ≡ sync
    → is_valid_level level ≡ true
    → merge_message msg tlv src dst level (some t) q
      ≡ some (record q {
        src_event_port = src.port;
        dst_event_port = dst.port;
        ptp_version = msg.version;
        timestamp_level = level;
        ingress_timestamp = of_timespec t;
        one_step = not (two_step msg);
        sync_correction = msg.correction;
        sync_tlv = is_there tlv;
        sync_received = true;
      })
unfolding merge_message
merge_message-sync msg tlv src dst level t q e g = rw (e, g, merge_message)

new_request-waiting :
    (now : Timespec) (sy : Message) (src dst : SockAddr) (level : TimestampLevel) (t : Timespec)
    → sy.msg_type ≡ sync
    → two_step sy ≡ true
    → is_valid_level level ≡ true
    → new_request now sy none src dst level (some t) ≡ waiting now sy src dst level t
unfolding new_request merge merge_tlv merge_correction
new_request-waiting now sy src dst level t e f g =
    rw (merge_message-sync sy none src dst level t _ e g, merge) (rw f)

-- No request of the store is of that host and has that number.
abbrev pub NoneMatch : SockAddr → ℕ → List Request → Type 0
NoneMatch src id requests = All (λ q. matches src id q ≡ false) requests

-- The search passes the requests that do not match.
obtain-miss :
    (now : Timespec) (msg : Message) (tlv : Option TlvHdr) (src dst : SockAddr)
    (level : TimestampLevel) (timestamp : Option Timespec) (done : List Request) (q : Request)
    (rest : List Request)
    → matches src msg.seq_id q ≡ false
    → obtain now msg tlv src dst level timestamp done (q ∷ rest)
      ≡ obtain now msg tlv src dst level timestamp (done ++ q ∷ []) rest
unfolding obtain
obtain-miss now msg tlv src dst level timestamp done q rest h = rw (h, obtain) refl

obtain-new :
    (now : Timespec) (sy : Message) (src dst : SockAddr) (level : TimestampLevel) (t : Timespec)
    (done : List Request)
    → new_request now sy none src dst level (some t) ≡ waiting now sy src dst level t
    → obtain now sy none src dst level (some t) done []
      ≡ (done ++ waiting now sy src dst level t ∷ [], some (waiting now sy src dst level t))
unfolding obtain
obtain-new now sy src dst level t done e = rw e refl

obtain-skip :
    (now : Timespec) (msg : Message) (tlv : Option TlvHdr) (src dst : SockAddr)
    (level : TimestampLevel) (timestamp : Option Timespec) (done rest tail : List Request)
    → NoneMatch src msg.seq_id rest
    → obtain now msg tlv src dst level timestamp done (rest ++ tail)
      ≡ obtain now msg tlv src dst level timestamp (done ++ rest) tail
unfolding obtain
obtain-skip now msg tlv src dst level timestamp done [] tail h =
    ap (λ d. obtain now msg tlv src dst level timestamp d tail) (sym (append-nil done))
obtain-skip now msg tlv src dst level timestamp done (q ∷ rest) tail h =
    obtain-miss now msg tlv src dst level timestamp done q (rest ++ tail) h.0
    ∙ obtain-skip now msg tlv src dst level timestamp (done ++ q ∷ []) rest tail h.1
    ∙ ap (λ d. obtain now msg tlv src dst level timestamp d tail) (append_assoc done (q ∷ []) rest)

obtain_request-waiting :
    (now : Timespec) (sy : Message) (src dst : SockAddr) (level : TimestampLevel) (t : Timespec)
    (requests : List Request)
    → sy.msg_type ≡ sync
    → two_step sy ≡ true
    → is_valid_level level ≡ true
    → NoneMatch src sy.seq_id requests
    → obtain_request now sy none src dst level (some t) requests
      ≡ (requests ++ waiting now sy src dst level t ∷ [], some (waiting now sy src dst level t))
unfolding obtain_request
obtain_request-waiting now sy src dst level t requests e f g h =
    ap (obtain now sy none src dst level (some t) []) (sym (append-nil requests))
    ∙ obtain-skip now sy none src dst level (some t) [] requests [] h
    ∙ obtain-new now sy src dst level t requests (new_request-waiting now sy src dst level t e f g)

merge_message-follow_up :
    (msg : Message) (tlv : Option TlvHdr) (src dst : SockAddr) (fl : TimestampLevel)
    (ft : Option Timespec) (q : Request)
    → msg.msg_type ≡ follow_up
    → merge_message msg tlv src dst fl ft q
      ≡ some (record q {
        src_general_port = src.port;
        dst_general_port = dst.port;
        follow_up_correction = msg.correction;
        follow_up_received = true;
      })
unfolding merge_message
merge_message-follow_up msg tlv src dst fl ft q e = rw (e, merge_message)

obtain-hit :
    (now : Timespec) (fu : Message) (hdr : TlvHdr) (src dst : SockAddr) (fl : TimestampLevel)
    (ft : Option Timespec) (done : List Request) (q : Request)
    → matches src fu.seq_id q ≡ true
    → timed_out now q ≡ false
    → complete (merge fu (some hdr) src dst fl ft q) ≡ true
    → obtain now fu (some hdr) src dst fl ft done (q ∷ [])
      ≡ (done, some (merge fu (some hdr) src dst fl ft q))
unfolding obtain
obtain-hit now fu hdr src dst fl ft done q m t c =
    rw (m, obtain) (rw t (rw c (rw (append-nil done) refl)))

follow_up-eq :
    (now : Timespec) (fu : Message) (hdr : TlvHdr) (src dst : SockAddr) (fl : TimestampLevel)
    (ft : Option Timespec) (requests : List Request) (q : Request)
    → NoneMatch src fu.seq_id requests
    → matches src fu.seq_id q ≡ true
    → timed_out now q ≡ false
    → complete (merge fu (some hdr) src dst fl ft q) ≡ true
    → obtain_request now fu (some hdr) src dst fl ft (requests ++ q ∷ [])
      ≡ (requests, some (merge fu (some hdr) src dst fl ft q))
unfolding obtain_request
follow_up-eq now fu hdr src dst fl ft requests q h m t c =
    obtain-skip now fu (some hdr) src dst fl ft [] requests (q ∷ []) h
    ∙ obtain-hit now fu hdr src dst fl ft requests q m t c

-- The request that the two messages make up, the second one received at the level `fl` and the time `ft`.
abbrev pub collected :
    Timespec
    → Message
    → Message
    → TlvHdr
    → SockAddr
    → SockAddr
    → SockAddr
    → SockAddr
    → TimestampLevel
    → TimestampLevel
    → Timespec
    → Option Timespec
    → Request
collected now sy fu hdr src dst src' dst' level fl t ft =
    merge fu (some hdr) src' dst' fl ft (waiting now sy src dst level t)

same_host : (a b : ℕ) → (a == b) ≡ true → a ≡ b
same_host a b h = ground arith

-- The other address of the host and the same number match the same requests.
NoneMatch-same :
    (src src' : SockAddr) (n m : ℕ) (requests : List Request)
    → (src.host == src'.host) ≡ true
    → (n == m) ≡ true
    → NoneMatch src n requests
    → NoneMatch src' m requests
NoneMatch-same src src' n m requests h i v =
    All-mono requests (λ q k. rw (← same_host src.host src'.host h, ← same_host n m i) k) v

pub obtain_request-collected :
    (now later t : Timespec) (sy fu : Message) (hdr : TlvHdr) (src dst src' dst' : SockAddr)
    (level fl : TimestampLevel) (ft : Option Timespec) (requests : List Request)
    → sy.msg_type ≡ sync
    → two_step sy ≡ true
    → is_valid_level level ≡ true
    → fu.msg_type ≡ follow_up
    → (sy.seq_id == fu.seq_id) ≡ true
    → (src.host == src'.host) ≡ true
    → timed_out later (waiting now sy src dst level t) ≡ false
    → NoneMatch src sy.seq_id requests
    → let one = obtain_request now sy none src dst level (some t) requests in
      (obtain_request later fu (some hdr) src' dst' fl ft one.0
        ≡ (requests, some (collected now sy fu hdr src dst src' dst' level fl t ft)))
      × (complete (collected now sy fu hdr src dst src' dst' level fl t ft) ≡ true)
unfolding merge merge_tlv merge_correction
obtain_request-collected now later t sy fu hdr src dst src' dst' level fl ft requests e f g e' i h
      late apart =
    let q = waiting now sy src dst level t in
    let step = merge_message-follow_up fu (some hdr) src' dst' fl ft q e' in
    let whole : complete (collected now sy fu hdr src dst src' dst' level fl t ft) ≡ true =
      rw (step, merge) refl in
    (
      ap
            (λ (r : List Request × Option Request).
              obtain_request later fu (some hdr) src' dst' fl ft r.0)
            (obtain_request-waiting now sy src dst level t requests e f g apart)
          ∙ follow_up-eq later fu hdr src' dst' fl ft requests q
              (NoneMatch-same src src' sy.seq_id fu.seq_id requests h i apart) (rw (h, i) refl) late
              whole,
      whole,
    )

-- What the collected request says.
pub collected-fields :
    (now t : Timespec) (sy fu : Message) (hdr : TlvHdr) (src dst src' dst' : SockAddr)
    (level fl : TimestampLevel) (ft : Option Timespec)
    → fu.msg_type ≡ follow_up
    → let q = collected now sy fu hdr src dst src' dst' level fl t ft in
      (q.ingress_timestamp ≡ of_timespec t)
      × (q.correction ≡ add_interval sy.correction fu.correction)
      × (q.flags ≡ hdr.flags)
      × (q.sync_tlv ≡ false)
      × (q.one_step ≡ false)
      × (q.sequence_id ≡ sy.seq_id)
      × (q.dst_address ≡ dst)
      × (q.timestamp_level ≡ level)
unfolding merge merge_tlv merge_correction
collected-fields now t sy fu hdr src dst src' dst' level fl ft e =
    let step =
      merge_message-follow_up fu (some hdr) src' dst' fl ft (waiting now sy src dst level t) e in
    (
      rw (step, merge) refl,
      rw (step, merge) refl,
      rw (step, merge) refl,
      rw (step, merge) refl,
      rw (step, merge) refl,
      rw (step, merge) refl,
      rw (step, merge) refl,
      rw (step, merge) refl,
    )
