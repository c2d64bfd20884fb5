-- ===== src/Client/Schedule/Recurs.antt =====
-- How often requests for the server's state are sent (src/flashptp/client/server.cpp).
use flashptpd.Prelude.{
  ℕ, zero, suc, ◌+◌, ◌-◌, ◌*◌, ◌^◌, ◌≡◌, ◌≢◌, ◌≤◌, ◌<◌, ap, sym, ◌∙◌, true, false, arith,
}
use flashptpd.Prelude.Int.{ℤ, pos, ◌-ℤ◌}
use flashptpd.Config.{to_signed}
use flashptpd.Client.Schedule.Wrap.{wrap-sub, difference_zero, wrapped_difference}
use flashptpd.Client.Schedule.{Timer, period, requests_state, passes, naps, rounds}
use flashptpd.Client.Schedule.Passes.{sub_sub, passes-period, round-plain, round-asks}

first_turn : (n p : ℕ) → suc n * p ≡ p + n * p
first_turn n p = grind arith

suc_times : (m p : ℕ) → suc m * p ≡ m * p + p
suc_times m p = grind arith

-- What `stateUsec` is when `n` microseconds of the state interval are over.
abbrev pub left : ℤ → ℕ → ℤ
left s n = to_signed 32 (pos (period s) -ℤ pos n)

left-sub : (s : ℤ) (m p : ℕ) → to_signed 32 (left s (m * p) -ℤ pos p) ≡ left s (suc m * p)
left-sub s m p =
    wrap-sub (pos (period s) -ℤ pos (m * p)) p
    ∙ ap (to_signed 32) (
        sub_sub (pos (period s)) (m * p) p
        ∙ ap (λ (n : ℕ). pos (period s) -ℤ pos n) (sym (suc_times m p)))

-- `k` rounds after the one with the number `m`, if `stateUsec` does not meet zero before.
rounds-go :
    (i s : ℤ) (k m : ℕ) (t : Timer)
    → t.usec ≡ 0
    → 0 < period i
    → t.state_usec ≡ left s (m * period i)
    → ((j : ℕ) → j < k → left s ((m + j) * period i) ≢ pos 0)
    → (rounds i s k t).state_usec ≡ left s ((m + k) * period i)
unfolding rounds
rounds-go i s zero m t e h z f = z ∙ ap (λ (n : ℕ). left s (n * period i)) (omega arith)
rounds-go i s (suc k) m t e h z f =
    let early : t.state_usec ≢ pos 0 =
      λ g. f 0 (omega arith) (ap (λ (n : ℕ). left s (n * period i)) (omega arith) ∙ sym z ∙ g) in
    let one = round-plain i s t e h early in
    rounds-go i s k (suc m) (passes i s (naps (period i)) t) one.0 h
      (one.1 ∙ ap (λ (v : ℤ). to_signed 32 (v -ℤ pos (period i))) z ∙ left-sub s m (period i))
      (λ j l g. f (suc j) (omega arith) (ap (λ (n : ℕ). left s (n * period i)) (omega arith) ∙ g))
    ∙ ap (λ (n : ℕ). left s (n * period i)) (omega arith)

one_times : (p : ℕ) → p ≡ 1 * p
one_times p = omega arith

-- From a request for the state on, `stateUsec` counts the intervals down.
pub rounds-state :
    (i s : ℤ) (k : ℕ) (t : Timer)
    → t.usec ≡ 0
    → 0 < period i
    → s ≢ pos 0x7f
    → t.state_usec ≡ pos 0
    → ((j : ℕ) → j < k → left s (suc j * period i) ≢ pos 0)
    → (rounds i s (suc k) t).state_usec ≡ left s (suc k * period i)
unfolding rounds
rounds-state i s k t e h r z f =
    let one = round-asks i s t e h r z in
    rounds-go i s k 1 (passes i s (naps (period i)) t) one.0 h
      (one.1 ∙ ap (left s) (one_times (period i)))
      (λ j l g. f j l (ap (λ (n : ℕ). left s (n * period i)) (omega arith) ∙ g))
    ∙ ap (λ (n : ℕ). left s (n * period i)) (omega arith)

rounds-usec : (i s : ℤ) (k : ℕ) (t : Timer) → t.usec ≡ 0 → 0 < period i → (rounds i s k t).usec ≡ 0
unfolding rounds
rounds-usec i s zero t e h = e
rounds-usec i s (suc k) t e h =
    rounds-usec i s k (passes i s (naps (period i)) t)
      (ap (λ (u : Timer). u.usec) (passes-period i s t e h)) h

suc_sum : (m n : ℕ) → suc m + n ≡ suc (m + n)
suc_sum m n = omega arith

zero_sum : (n : ℕ) → 0 + n ≡ n
zero_sum n = omega arith

zero_times : (n : ℕ) → 0 * n ≡ 0
zero_times n = omega arith

rounds-add : (i s : ℤ) (m n : ℕ) (t : Timer) → rounds i s (m + n) t ≡ rounds i s n (rounds i s m t)
unfolding rounds
rounds-add i s zero n t = ap (λ (k : ℕ). rounds i s k t) (zero_sum n)
rounds-add i s (suc m) n t =
    ap (λ (k : ℕ). rounds i s k t) (suc_sum m n)
    ∙ rounds-add i s m n (passes i s (naps (period i)) t)

times_split : (j d p : ℕ) → (suc j + suc d) * p ≡ suc j * p + (d * p + p)
times_split j d p = grind arith

asks : (s : ℤ) (t : Timer) → s ≢ pos 0x7f → t.state_usec ≡ pos 0 → requests_state s t ≡ true
asks s t r z = ground arith

pub asks_not : (s : ℤ) (t : Timer) → t.state_usec ≢ pos 0 → requests_state s t ≡ false
asks_not s t z = ground arith

times_less : (p j q : ℕ) → 0 < p → j < q → suc j * p ≡ suc q * p → ⊥
times_less p j q h l e =
    let d = q - suc j in
    let same : suc q * p ≡ (suc j + suc d) * p = ap (λ (n : ℕ). n * p) (omega arith) in
    omega (arith, e, same, times_split j d p)

module _ (i s : ℤ) (q : ℕ) (real : s ≢ pos 0x7f) (some_time : 0 < period i)
    (fits : period s < 2 ^ 31) (multiple : period s ≡ suc q * period i) where
  times_at_most : (j p : ℕ) → j < q → suc j * p ≤ suc q * p
  times_at_most j p l =
      let d = q - suc j in
      let same : suc q * p ≡ (suc j + suc d) * p = ap (λ (n : ℕ). n * p) (omega arith) in
      omega (arith, same, times_split j d p)

  not_yet : (j : ℕ) → j < q → left s (suc j * period i) ≢ pos 0
  not_yet j l g = times_less (period i) j q some_time l (
      difference_zero (period s) (suc j * period i) g (omega arith)
        (omega (arith, times_at_most j (period i) l, multiple))
      ∙ multiple)

  -- The first recurrence, and none before.
  recurs-once :
      (t : Timer)
      → t.usec ≡ 0
      → t.state_usec ≡ pos 0
      → ((rounds i s (suc q) t).state_usec ≡ pos 0)
        × ((k : ℕ) → k < q → (rounds i s (suc k) t).state_usec ≢ pos 0)
  recurs-once t e z = (
    rounds-state i s q t e some_time real z (λ j l. not_yet j l)
        ∙ wrapped_difference (period s) (suc q * period i) multiple,
    λ k l g.
        not_yet k l
          (sym (rounds-state i s k t e some_time real z (λ j n. not_yet j (omega arith))) ∙ g),
  )

  recurs-zero :
      (n : ℕ) (t : Timer)
      → t.usec ≡ 0
      → t.state_usec ≡ pos 0
      → (rounds i s (n * suc q) t).state_usec ≡ pos 0
  unfolding rounds
  recurs-zero zero t e z = ap (λ (k : ℕ). (rounds i s k t).state_usec) (zero_times (suc q)) ∙ z
  recurs-zero (suc n) t e z =
      ap (λ (u : Timer). u.state_usec)
        (ap (λ (k : ℕ). rounds i s k t) (first_turn n (suc q))
          ∙ rounds-add i s (suc q) (n * suc q) t)
      ∙ recurs-zero n (rounds i s (suc q) t) (rounds-usec i s (suc q) t e some_time)
          (recurs-once t e z).0

  -- Where the state interval is a multiple of the request interval and fits the counter, and a request is
  -- due together with one for the state, the state is requested with every so many requests, for ever, and
  -- with no others.
  pub rounds-recurs :
      (n : ℕ) (t : Timer)
      → t.usec ≡ 0
      → t.state_usec ≡ pos 0
      → (requests_state s (rounds i s (n * suc q) t) ≡ true)
        × ((k : ℕ) → k < q → requests_state s (rounds i s (n * suc q + suc k) t) ≡ false)
  rounds-recurs n t e z =
      let u = rounds i s (n * suc q) t in
      let zero_ = recurs-zero n t e z in
      let next = recurs-once u (rounds-usec i s (n * suc q) t e some_time) zero_ in
      (
        asks s u real zero_,
        λ k l.
            ap (requests_state s) (rounds-add i s (n * suc q) (suc k) t)
            ∙ asks_not s (rounds i s (suc k) u) (next.1 k l),
      )
