-- ===== src/Client/Schedule.antt =====
-- When a client's server object sends: the loop of `Server::threadFunc` (src/flashptp/client/server.cpp),
-- its counters `usec`, `stateUsec` and `sequenceID`. The sleeping itself is left out. `stateUsec`, an
-- `int32_t`, wraps around.
pub mod Wrap
pub mod Passes
pub mod Recurs
pub mod Late
use flashptpd.Prelude.{
  ℕ, zero, suc, ◌+◌, ◌-◌, ◌*◌, ◌/◌, ◌%◌, ◌^◌, Bool, true, false, not, ◌&&◌, ltb, ◌==◌,
  if◌then◌else◌,
}
use flashptpd.Prelude.Int.{ℤ, pos, negsuc, ◌-ℤ◌, eqb_ℤ}
use flashptpd.Config.{to_signed}

pub record Timer : Type 0 where
  pub usec : ℕ
  pub state_usec : ℤ
  pub sequence_id : ℕ

-- `(int32_t)(pow(2, interval) * 1000000L)`
unfoldable pub period : ℤ → ℕ
period (pos n) = 2 ^ n * 1000000
period (negsuc n) = 1000000 / 2 ^ (n + 1)

-- `_stateInterval != 0x7f && stateUsec == 0`
abbrev pub requests_state : ℤ → Timer → Bool
requests_state state_interval t =
    not (eqb_ℤ state_interval (pos 0x7f)) && eqb_ℤ t.state_usec (pos 0)

-- What the part of the loop that sends does to the counters.
unfoldable pub arm : ℤ → ℤ → Timer → Timer
arm interval state_interval t = record t {
  usec = period interval;
  state_usec =
      if requests_state state_interval t then pos (period state_interval) else t.state_usec;
}

-- The part behind the label `interval_sleep`.
unfoldable pub nap : Timer → Timer
nap t =
    if ltb 100000 t.usec
    then record t { usec = t.usec - 100000; state_usec = to_signed 32 (t.state_usec -ℤ pos 100000) }
    else record t {
      usec = 0;
      state_usec = to_signed 32 (t.state_usec -ℤ pos t.usec);
      sequence_id = (t.sequence_id + 1) % 2 ^ 16;
    }

-- One pass of the loop, and `n` passes.
unfoldable pub pass : ℤ → ℤ → Timer → Timer
pass interval state_interval t = nap (if t.usec == 0 then arm interval state_interval t else t)

unfoldable pub passes : ℤ → ℤ → ℕ → Timer → Timer
passes interval state_interval zero t = t
passes interval state_interval (suc n) t =
    passes interval state_interval n (pass interval state_interval t)

-- The passes that an interval takes, of at most 100 ms each.
abbrev pub naps : ℕ → ℕ
naps usec = (usec + 99999) / 100000

-- From one request to the next, `k` times.
unfoldable pub rounds : ℤ → ℤ → ℕ → Timer → Timer
rounds interval state_interval zero t = t
rounds interval state_interval (suc k) t =
    rounds interval state_interval k (passes interval state_interval (naps (period interval)) t)
