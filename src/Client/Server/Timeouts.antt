-- ===== src/Client/Server/Timeouts.antt =====
-- How `_reach` loses a server that no longer answers (src/flashptp/client/server.cpp).
use flashptpd.Prelude.{
  ℕ, zero, suc, ◌+◌, ◌-◌, ◌*◌, ◌/◌, ◌%◌, ◌^◌, ◌≡◌, ◌≢◌, ◌≤◌, ◌<◌, refl, inl, inr, false, ◌==◌, List,
  [], ◌∷◌, arith, length, Bool-cases, sym, ◌∙◌, ap,
}
use native.Mathlib.Nat.{add-mul-mod_self_right, one-le-pow, mul-div_cancel, mul-mod_left, pow-succ'}
use flashptpd.Prelude.Doubles.{Doubles}
use flashptpd.Client.Sequence.{Sequence}
use flashptpd.Calculation.{Calculation, reset, remove, remove_first}
use flashptpd.Client.Server.{
  Server, ServerState, on_sequence_timeout, shift_zero, blank_entry, lose, thin_out, some_filled,
  calc_std_dev,
}

-- The multiples of 2 ^ 16 that are shifted out do not matter.
distribute : (r q p : ℕ) → (r + q * 65536) * p ≡ r * p + q * p * 65536
distribute r q p = grind arith

mod-mul : (x p : ℕ) → x * 2 % 65536 * p % 65536 ≡ x * (2 * p) % 65536
mod-mul x p =
    let r = x * 2 % 65536 in
    let q = x * 2 / 65536 in
    let parts : x * 2 ≡ r + q * 65536 = omega arith in
    let split : x * (2 * p) ≡ r * p + q * p * 65536 =
      let twice : x * (2 * p) ≡ x * 2 * p = grind arith in
      let apart : (r + q * 65536) * p ≡ r * p + q * p * 65536 = distribute r q p in
      twice ∙ ap (λ n. n * p) parts ∙ apart in
    sym (ap (λ n. n % 65536) split ∙ add-mul-mod_self_right (r * p) (q * p) 65536)

remove_first-nil : (D : Doubles) (xs : List Sequence) → xs ≡ [] → remove_first D xs ≡ []
unfolding remove_first
remove_first-nil D [] e = refl
remove_first-nil D (x ∷ xs) e = absurd (cc)

pow-add : (a b : ℕ) → 2 ^ (a + b) ≡ 2 ^ a * 2 ^ b
pow-add a zero = grind arith
pow-add a (suc b) = grind (arith, pow-add a b, pow-succ' 2 (a + b), pow-succ' 2 b)

shifted_out : (r n : ℕ) → 16 ≤ n → r * 2 ^ n % 65536 ≡ 0
shifted_out r n h =
    let k = n - 16 in
    let split : r * 2 ^ n ≡ r * 2 ^ k * 65536 =
      let sum : n ≡ k + 16 = omega arith in
      let power : 2 ^ n ≡ 2 ^ k * 65536 = ap (λ m. 2 ^ m) sum ∙ pow-add k 16 in
      let regroup : r * (2 ^ k * 65536) ≡ r * 2 ^ k * 65536 = grind arith in
      ap (λ m. r * m) power ∙ regroup in
    ap (λ m. m % 65536) split ∙ mul-mod_left (r * 2 ^ k) 65536

kept_bit : (r n : ℕ) → r % 2 ≡ 1 → n < 16 → r * 2 ^ n % 65536 ≢ 0
kept_bit r n odd h e =
    let k = 15 - n in
    let q = r * 2 ^ n / 65536 in
    let power : 2 ^ n * 2 ^ suc k ≡ 65536 =
      sym (pow-add n (suc k)) ∙ ap (λ m. 2 ^ m) (let sum : n + suc k ≡ 16 = omega arith in sum) in
    let whole : r * 2 ^ n ≡ q * 65536 = omega (arith, e) in
    let p = 2 ^ n in
    let t = 2 ^ k in
    let regroup : q * (p * (2 * t)) ≡ q * t * 2 * p = grind arith in
    let same : r * p ≡ q * t * 2 * p =
      whole ∙ ap (λ m. q * m) (sym power ∙ ap (λ m. p * m) (pow-succ' 2 k)) ∙ regroup in
    let pos = one-le-pow n 2 (omega arith) in
    let even : r ≡ q * t * 2 =
      sym (mul-div_cancel r pos) ∙ ap (λ m. m / p) same ∙ mul-div_cancel (q * t * 2) pos in
    omega (arith, even, odd)

module _ (D : Doubles) where
  open D use {Double}

  -- The timeouts of `seqs`, one after the other.
  abbrev pub time_out_all : List Sequence → Server Double → Server Double
  time_out_all [] srv = srv
  time_out_all (s ∷ seqs) srv = time_out_all seqs (on_sequence_timeout D s srv)

  calc_std_dev-keeps :
      (srv : Server Double)
      → ((calc_std_dev D srv).reach ≡ srv.reach)
        × ((calc_std_dev D srv).state ≡ srv.state)
        × ((calc_std_dev D srv).calculation ≡ srv.calculation)
  unfolding calc_std_dev
  calc_std_dev-keeps srv = ground arith

  thin_out-keeps :
      (srv : Server Double)
      → ((thin_out D srv).reach ≡ srv.reach) × ((thin_out D srv).state ≡ srv.state)
  unfolding thin_out
  thin_out-keeps srv = ground arith

  lose-keeps : (srv : Server Double) → (lose D srv).reach ≡ srv.reach
  unfolding lose
  lose-keeps srv = ground arith

  timeout-reach :
      (s : Sequence) (srv : Server Double)
      → (on_sequence_timeout D s srv).reach ≡ (srv.reach * 2) % 2 ^ 16
  unfolding on_sequence_timeout
  timeout-reach s srv =
      let lost = lose D (shift_zero D s srv) in
      (calc_std_dev-keeps (blank_entry D (thin_out D lost))).0
      ∙ (thin_out-keeps lost).0
      ∙ lose-keeps (shift_zero D s srv)

  timeouts-reach :
      (seqs : List Sequence) (srv : Server Double)
      → srv.reach < 2 ^ 16
      → (time_out_all seqs srv).reach ≡ (srv.reach * 2 ^ length seqs) % 2 ^ 16
  timeouts-reach [] srv h = grind arith
  timeouts-reach (s ∷ seqs) srv h =
      timeouts-reach seqs (on_sequence_timeout D s srv) (omega (arith, timeout-reach s srv))
      ∙ ap (λ r. r * 2 ^ length seqs % 65536) (timeout-reach s srv)
      ∙ mod-mul srv.reach (2 ^ length seqs)
      ∙ ap (λ n. srv.reach * n % 65536) (sym (pow-succ' 2 (length seqs)))

  -- A server whose reach is 0 is lost.
  abbrev pub IsLost : Server Double → Type 0
  IsLost srv =
      (srv.state ≡ ServerState.unreachable)
      × (srv.calculation.sequences ≡ [])
      × (srv.calculation.is_valid ≡ false)

  remove-IsReset :
      (c : Calculation Double)
      → c.sequences ≡ []
      → c.is_valid ≡ false
      → ((remove D c).sequences ≡ []) × ((remove D c).is_valid ≡ false)
  unfolding remove reset
  remove-IsReset c e v = rw (remove_first-nil D c.sequences e) (refl, refl)

  thin_out-IsLost : (srv : Server Double) → IsLost srv → IsLost (thin_out D srv)
  unfolding thin_out
  thin_out-IsLost srv h =
      let r = remove-IsReset srv.calculation h.1 h.2 in
      elim (Bool-cases (srv.reach % 2 ^ 4 == 0)) [
        | inr e ↦ rw e (h.0, r.0, r.1)
        | inl e ↦ elim (Bool-cases (some_filled srv.filters)) [
          | inl p ↦ rw (e, p) h
          | inr p ↦ rw (e, p) (h.0, r.0, r.1)
        ]
      ]

  lose-IsLost : (srv : Server Double) → srv.reach ≡ 0 → IsLost (lose D srv)
  unfolding lose reset
  lose-IsLost srv e = rw e (refl, refl, refl)

  timeout-IsLost :
      (s : Sequence) (srv : Server Double)
      → (srv.reach * 2) % 2 ^ 16 ≡ 0
      → IsLost (on_sequence_timeout D s srv)
  unfolding on_sequence_timeout
  timeout-IsLost s srv e =
      let lost = lose D (shift_zero D s srv) in
      let h = thin_out-IsLost lost (lose-IsLost (shift_zero D s srv) e) in
      let k = calc_std_dev-keeps (blank_entry D (thin_out D lost)) in
      (
        k.1 ∙ h.0,
        ap (λ (c : Calculation Double). c.sequences) k.2 ∙ h.1,
        ap (λ (c : Calculation Double). c.is_valid) k.2 ∙ h.2,
      )

  timeouts-IsLost :
      (s : Sequence) (seqs : List Sequence) (srv : Server Double)
      → (time_out_all (s ∷ seqs) srv).reach ≡ 0
      → IsLost (time_out_all (s ∷ seqs) srv)
  timeouts-IsLost s [] srv e = timeout-IsLost s srv (sym (timeout-reach s srv) ∙ e)
  timeouts-IsLost s (t ∷ seqs) srv e = timeouts-IsLost t seqs (on_sequence_timeout D s srv) e

  -- Sixteen timeouts in a row, or more, leave `_reach` 0 whatever it was: the server is unreachable
  -- then, and its calculation is invalid and empty.
  pub time_out_all-IsLost :
      (seqs : List Sequence) (srv : Server Double)
      → srv.reach < 2 ^ 16
      → 16 ≤ length seqs
      → ((time_out_all seqs srv).reach ≡ 0) × IsLost (time_out_all seqs srv)
  time_out_all-IsLost [] srv h n = absurd (omega arith)
  time_out_all-IsLost (s ∷ seqs) srv h n =
      let e = timeouts-reach (s ∷ seqs) srv h ∙ shifted_out srv.reach (length (s ∷ seqs)) n in
      (e, timeouts-IsLost s seqs srv e)

  -- Fewer than sixteen timeouts after an answer, which has set the lowest bit, leave `_reach` not 0.
  time_out_all-reached :
      (seqs : List Sequence) (srv : Server Double)
      → srv.reach < 2 ^ 16
      → srv.reach % 2 ≡ 1
      → length seqs < 16
      → (time_out_all seqs srv).reach ≢ 0
  time_out_all-reached seqs srv h odd n e =
      kept_bit srv.reach (length seqs) odd n (sym (timeouts-reach seqs srv h) ∙ e)
