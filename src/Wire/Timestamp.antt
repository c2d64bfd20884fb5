-- ===== src/Wire/Timestamp.antt =====
-- `PTP2Timestamp` and `subtractTimespecs` (include/flashptp/common/defines.h): 48-bit seconds in six
-- bytes and nanoseconds. `int64_t` sums are taken in ℤ; `nanos_range` says when they fit.
use flashptpd.Prelude.{ℕ, ◌+◌, ◌*◌, ◌%◌, ◌^◌, ◌<◌, ◌≡◌, arith, Bool, true, ◌&&◌, ◌==◌, ◌↔◌}
use flashptpd.Prelude.Int.{ℤ, pos, ◌-ℤ◌, IsInt64, -ℤ_parts}
use flashptpd.Wire.Words.{byte}

-- `struct timespec` of a clock that shows a time after its epoch.
pub record Timespec : Type 0 where
  pub tv_sec : ℕ
  pub tv_nsec : ℕ

pub record Timestamp : Type 0 where
  pub sec0 : ℕ
  pub sec1 : ℕ
  pub sec2 : ℕ
  pub sec3 : ℕ
  pub sec4 : ℕ
  pub sec5 : ℕ
  pub ns : ℕ

-- What the types `uint8_t sec[6]` and `uint32_t ns` hold.
pub record IsTimestamp (t : Timestamp) : Type 0 where
  pub sec0_lt : t.sec0 < 256
  pub sec1_lt : t.sec1 < 256
  pub sec2_lt : t.sec2 < 256
  pub sec3_lt : t.sec3 < 256
  pub sec4_lt : t.sec4 < 256
  pub sec5_lt : t.sec5 < 256
  pub ns_lt : t.ns < 2 ^ 32

-- The value that `PTP2Timestamp{}` and `reset` leave.
abbrev pub zero_timestamp : Timestamp
zero_timestamp = record { sec0 = 0; sec1 = 0; sec2 = 0; sec3 = 0; sec4 = 0; sec5 = 0; ns = 0 }

unfoldable pub empty : Timestamp → Bool
empty t =
    t.sec0 == 0
    && t.sec1 == 0
    && t.sec2 == 0
    && t.sec3 == 0
    && t.sec4 == 0
    && t.sec5 == 0
    && t.ns == 0

-- The shifted bytes share no bit, so `|=` adds; the loop over the six bytes is written out.
unfoldable pub seconds : Timestamp → ℕ
seconds t =
    t.sec0 * 2 ^ 40 + t.sec1 * 2 ^ 32 + t.sec2 * 2 ^ 24 + t.sec3 * 2 ^ 16 + t.sec4 * 2 ^ 8 + t.sec5

-- `operator=(const struct timespec&)`
unfoldable pub of_timespec : Timespec → Timestamp
of_timespec ts = record {
  sec0 = byte 40 ts.tv_sec;
  sec1 = byte 32 ts.tv_sec;
  sec2 = byte 24 ts.tv_sec;
  sec3 = byte 16 ts.tv_sec;
  sec4 = byte 8 ts.tv_sec;
  sec5 = byte 0 ts.tv_sec;
  ns = ts.tv_nsec % 2 ^ 32;
}

-- `operator timespec()`
unfoldable pub to_timespec : Timestamp → Timespec
to_timespec t = record { tv_sec = seconds t; tv_nsec = t.ns }

-- `l.seconds() * 1000000000LL + (int64_t)l.ns`
unfoldable pub nanos : Timestamp → ℕ
nanos t = seconds t * 1000000000 + t.ns

-- `operator-(const PTP2Timestamp&, const PTP2Timestamp&)`
infixl 65 ◌-ₜ◌
abbrev pub ◌-ₜ◌ : Timestamp → Timestamp → ℤ
l -ₜ r = pos (nanos l) -ℤ pos (nanos r)

-- `operator+(const PTP2Timestamp&, const PTP2Timestamp&)`
infixl 65 ◌+ₜ◌
abbrev pub ◌+ₜ◌ : Timestamp → Timestamp → ℤ
l +ₜ r = pos (nanos l + nanos r)

-- `subtractTimespecs`
unfoldable pub subtract_timespecs : Timespec → Timespec → ℤ
subtract_timespecs ts1 ts2 =
    pos (ts1.tv_sec * 1000000000 + ts1.tv_nsec) -ℤ pos (ts2.tv_sec * 1000000000 + ts2.tv_nsec)

seconds-of_timespec : (ts : Timespec) → ts.tv_sec < 2 ^ 48 → seconds (of_timespec ts) ≡ ts.tv_sec
unfolding seconds of_timespec
seconds-of_timespec ts h = omega arith

pub of_timespec-IsTimestamp : (ts : Timespec) → IsTimestamp (of_timespec ts)
unfolding of_timespec
of_timespec-IsTimestamp ts = omega arith

-- A clock reading whose seconds fit 48 bits and whose nanoseconds fit 32 survives the way into the
-- six bytes and back.
to_timespec-of_timespec :
    (ts : Timespec) → ts.tv_sec < 2 ^ 48 → ts.tv_nsec < 2 ^ 32 → to_timespec (of_timespec ts) ≡ ts
unfolding to_timespec of_timespec
to_timespec-of_timespec ts h k = ground (arith, seconds-of_timespec ts h)

seconds-lt : (t : Timestamp) → IsTimestamp t → seconds t < 2 ^ 48
unfolding seconds
seconds-lt t v = omega arith

pub of_timespec-to_timespec : (t : Timestamp) → IsTimestamp t → of_timespec (to_timespec t) ≡ t
unfolding to_timespec of_timespec seconds
of_timespec-to_timespec t v = ground arith

-- A timestamp is empty exactly when it stands for the zero time.
pub empty_iff : (t : Timestamp) → IsTimestamp t → (empty t ≡ true) ↔ (nanos t ≡ 0)
unfolding empty nanos seconds
empty_iff t v = ground arith

-- Times whose seconds are below 2 ^ 32 (the year 2106) have nanosecond counts, differences
-- and sums that fit an `int64_t`.
nanos_range :
    (l r : Timestamp)
    → seconds l < 2 ^ 32
    → seconds r < 2 ^ 32
    → l.ns < 2 ^ 32
    → r.ns < 2 ^ 32
    → IsInt64 (pos (nanos l)) × IsInt64 (l -ₜ r) × IsInt64 (l +ₜ r)
unfolding nanos
nanos_range l r p q s t = omega (arith, -ℤ_parts)
