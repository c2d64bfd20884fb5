-- ===== src/Client/Schedule/Passes.antt =====
-- What the passes of one request interval do to the counters (src/flashptp/client/server.cpp).
use flashptpd.Prelude.{
  ℕ, zero, suc, ◌+◌, ◌-◌, ◌*◌, ◌%◌, ◌^◌, ◌≡◌, ◌≢◌, ◌≤◌, ◌<◌, refl, ap, ◌∙◌, if◌then◌else◌, arith,
}
use flashptpd.Prelude.Int.{ℤ, pos, ◌-ℤ◌, int_laws}
use flashptpd.Config.{to_signed}
use flashptpd.Client.Schedule.Wrap.{wrap-sub}
use flashptpd.Client.Schedule.{Timer, period, requests_state, arm, nap, pass, passes, naps}

-- The counters when a request interval is over.
abbrev over : Timer → Timer
over t = record t {
  usec = 0;
  state_usec = to_signed 32 (t.state_usec -ℤ pos t.usec);
  sequence_id = (t.sequence_id + 1) % 2 ^ 16;
}

pub sub_sub : (z : ℤ) (a b : ℕ) → z -ℤ pos a -ℤ pos b ≡ z -ℤ pos (a + b)
sub_sub z a b = omega int_laws

nap-last : (t : Timer) → t.usec ≤ 100000 → nap t ≡ over t
unfolding nap
nap-last t h = ground arith

nap-long :
    (t : Timer)
    → 100000 < t.usec
    → nap t
      ≡ record t { usec = t.usec - 100000; state_usec = to_signed 32 (t.state_usec -ℤ pos 100000) }
unfolding nap
nap-long t h = ground arith

pass-busy : (i s : ℤ) (t : Timer) → 0 < t.usec → pass i s t ≡ nap t
unfolding pass
pass-busy i s t h = ground arith

-- The counters after 100 ms of a longer interval.
abbrev later : Timer → Timer
later t = record t {
  usec = t.usec - 100000;
  state_usec = to_signed 32 (t.state_usec -ℤ pos 100000);
}

rest_of : (z : ℤ) (u : ℕ) → 100000 < u → z -ℤ pos 100000 -ℤ pos (u - 100000) ≡ z -ℤ pos u
rest_of z u h = omega int_laws

over-later : (t : Timer) → 100000 < t.usec → over (later t) ≡ over t
over-later t h =
    ap
      (λ (z : ℤ). record t { usec = 0; state_usec = z; sequence_id = (t.sequence_id + 1) % 2 ^ 16 })
      (wrap-sub (t.state_usec -ℤ pos 100000) (t.usec - 100000)
        ∙ ap (to_signed 32) (rest_of t.state_usec t.usec h))

-- While an interval lasts, the passes only sleep.
passes-over :
    (i s : ℤ) (n : ℕ) (t : Timer)
    → n * 100000 < t.usec
    → t.usec ≤ (n + 1) * 100000
    → passes i s (suc n) t ≡ over t
unfolding passes
passes-over i s zero t lo hi = pass-busy i s t (omega arith) ∙ nap-last t (omega arith)
passes-over i s (suc n) t lo hi =
    ap (passes i s (suc n)) (pass-busy i s t (omega arith) ∙ nap-long t (omega arith))
    ∙ passes-over i s n (later t) (omega arith) (omega arith)
    ∙ over-later t (omega arith)

first-pass : (i s : ℤ) (t : Timer) → t.usec ≡ 0 → 0 < period i → pass i s t ≡ pass i s (arm i s t)
unfolding pass arm
first-pass i s t e h = ground arith

-- The first pass of an interval sends.
passes-arm :
    (i s : ℤ) (n : ℕ) (t : Timer)
    → t.usec ≡ 0
    → 0 < period i
    → passes i s (suc n) t ≡ passes i s (suc n) (arm i s t)
unfolding passes
passes-arm i s n t e h = ap (passes i s n) (first-pass i s t e h)

-- A request interval ends after exactly as many passes as it has sleeps of at most 100 ms: the next
-- request has the next number, modulo 2 ^ 16, and the interval has been taken off what is left of the
-- state interval, which starts anew if the request has asked for the state.
pub passes-period :
    (i s : ℤ) (t : Timer)
    → t.usec ≡ 0
    → 0 < period i
    → passes i s (naps (period i)) t ≡ record {
      usec = 0;
      state_usec =
          to_signed 32
            ((if requests_state s t then pos (period s) else t.state_usec) -ℤ pos (period i));
      sequence_id = (t.sequence_id + 1) % 2 ^ 16;
    }
unfolding arm
passes-period i s t e h =
    let n = naps (period i) - 1 in
    let m : naps (period i) ≡ suc n = omega arith in
    rw m (passes-arm i s n t e h ∙ passes-over i s n (arm i s t) (omega arith) (omega arith))

-- A round without a request for the state, and one with it.
pub round-plain :
    (i s : ℤ) (t : Timer)
    → t.usec ≡ 0
    → 0 < period i
    → t.state_usec ≢ pos 0
    → ((passes i s (naps (period i)) t).usec ≡ 0)
      × ((passes i s (naps (period i)) t).state_usec
          ≡ to_signed 32 (t.state_usec -ℤ pos (period i)))
round-plain i s t e h z = rw (passes-period i s t e h) (refl, ground arith)

pub round-asks :
    (i s : ℤ) (t : Timer)
    → t.usec ≡ 0
    → 0 < period i
    → s ≢ pos 0x7f
    → t.state_usec ≡ pos 0
    → ((passes i s (naps (period i)) t).usec ≡ 0)
      × ((passes i s (naps (period i)) t).state_usec
          ≡ to_signed 32 (pos (period s) -ℤ pos (period i)))
round-asks i s t e h r z = rw (passes-period i s t e h) (refl, ground arith)
