-- ===== src/Client/Schedule/Late.antt =====
-- Requests for the server's state at the shortest request interval (src/flashptp/client/server.cpp).
use flashptpd.Prelude.{ℕ, zero, suc, ◌+◌, ◌*◌, ◌%◌, ◌^◌, ◌≡◌, ◌≢◌, ◌≤◌, ◌<◌, sym, ◌∙◌, false, arith}
use flashptpd.Prelude.Int.{ℤ, pos, negsuc, ◌<ℤ◌, ◌≤ℤ◌}
use flashptpd.Client.Schedule.Wrap.{difference_zero}
use flashptpd.Client.Schedule.{Timer, period, requests_state, rounds}
use flashptpd.Client.Schedule.Recurs.{left, asks_not, rounds-state}

rest_7812 : (n : ℕ) → n % 7812 ≢ 0 → (j : ℕ) → suc j * 7812 ≢ n
rest_7812 n h j e = h (omega (arith, e))

long_rest : (n : ℕ) → n ≤ 7 → (period (pos n) % 7812 ≢ 0) × (period (pos n) < 2 ^ 32)
unfolding period
long_rest zero h = (λ e. absurd (omega (arith, e)), omega arith)
long_rest (suc zero) h = (λ e. absurd (omega (arith, e)), omega arith)
long_rest (suc (suc zero)) h = (λ e. absurd (omega (arith, e)), omega arith)
long_rest (suc (suc (suc zero))) h = (λ e. absurd (omega (arith, e)), omega arith)
long_rest (suc (suc (suc (suc zero)))) h = (λ e. absurd (omega (arith, e)), omega arith)
long_rest (suc (suc (suc (suc (suc zero))))) h = (λ e. absurd (omega (arith, e)), omega arith)
long_rest (suc (suc (suc (suc (suc (suc zero)))))) h = (λ e. absurd (omega (arith, e)), omega arith)
long_rest (suc (suc (suc (suc (suc (suc (suc zero))))))) h =
    (λ e. absurd (omega (arith, e)), omega arith)
long_rest (suc (suc (suc (suc (suc (suc (suc (suc n)))))))) h = omega arith

short_rest : (n : ℕ) → n < 6 → (period (negsuc n) % 7812 ≢ 0) × (period (negsuc n) < 2 ^ 32)
unfolding period
short_rest zero h = (λ e. absurd (omega (arith, e)), omega arith)
short_rest (suc zero) h = (λ e. absurd (omega (arith, e)), omega arith)
short_rest (suc (suc zero)) h = (λ e. absurd (omega (arith, e)), omega arith)
short_rest (suc (suc (suc zero))) h = (λ e. absurd (omega (arith, e)), omega arith)
short_rest (suc (suc (suc (suc zero)))) h = (λ e. absurd (omega (arith, e)), omega arith)
short_rest (suc (suc (suc (suc (suc zero))))) h = (λ e. absurd (omega (arith, e)), omega arith)
short_rest (suc (suc (suc (suc (suc (suc n)))))) h = omega arith

not_multiple : (s : ℤ) → negsuc 6 <ℤ s → s ≤ℤ pos 7 → (j : ℕ) → suc j * 7812 ≢ period s
not_multiple (pos n) lo hi = rest_7812 (period (pos n)) (long_rest n (omega arith)).0
not_multiple (negsuc n) lo hi = rest_7812 (period (negsuc n)) (short_rest n (omega arith)).0

fits_below : (s : ℤ) → negsuc 6 <ℤ s → s ≤ℤ pos 7 → period s < 2 ^ 32
fits_below (pos n) lo hi = (long_rest n (omega arith)).1
fits_below (negsuc n) lo hi = (short_rest n (omega arith)).1

not_left :
    (s : ℤ) (j : ℕ)
    → negsuc 6 <ℤ s
    → s ≤ℤ pos 7
    → suc j * 7812 < period s + 2 ^ 32
    → left s (suc j * period (negsuc 6)) ≢ pos 0
unfolding period
not_left s j lo hi l g =
    not_multiple s lo hi j (difference_zero (period s) (suc j * 7812) g (fits_below s lo hi) l)

-- At the shortest interval, 2 ^ -7 s, a period is 7812 microseconds and not 7812.5. No longer state
-- interval is a multiple of it: once the state has been requested, it is not requested again before
-- `stateUsec`, whose overflow is taken to wrap around, has run once round its type, 2 ^ 32 microseconds
-- (72 minutes) after the end of the state interval.
pub rounds-late :
    (s : ℤ) (k : ℕ) (t : Timer)
    → t.usec ≡ 0
    → t.state_usec ≡ pos 0
    → negsuc 6 <ℤ s
    → s ≤ℤ pos 7
    → suc k * 7812 < period s + 2 ^ 32
    → requests_state s (rounds (negsuc 6) s (suc k) t) ≡ false
rounds-late s k t e z lo hi l =
    let never = λ (j : ℕ) (m : j ≤ k). not_left s j lo hi (omega arith) in
    asks_not s (rounds (negsuc 6) s (suc k) t) (λ g. never k (omega arith) (
      sym (
        rounds-state (negsuc 6) s k t e (unfold period in omega arith) (λ h. ground arith) z
          (λ j m. never j (omega arith)))
      ∙ g))
