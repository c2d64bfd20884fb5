-- ===== src/Wire/Interval.antt =====
-- `PTP2TimeInterval` (include/flashptp/common/defines.h): nanoseconds scaled by 2 ^ 16 in an
-- `int64_t`, kept here as its 64-bit pattern.
use flashptpd.Prelude.{ℕ, ◌+◌, ◌-◌, ◌/◌, ◌%◌, ◌^◌, ◌≤◌, ◌<◌, ◌≡◌, arith, leb, ltb, if◌then◌else◌}
use flashptpd.Prelude.Int.{ℤ, pos, negsuc, ◌+ℤ◌, ◌≤ℤ◌, ◌<ℤ◌}
use flashptpd.Wire.Words.{signed64}
use Prim.Native.Nat.{bit_or}

-- `scaledNanoseconds >> 16` on an `int64_t`: the sign bit is shifted in.
abbrev arithmetic_shift16 : ℕ → ℕ
arithmetic_shift16 w = if ltb w (2 ^ 63) then w / 2 ^ 16 else w / 2 ^ 16 + (2 ^ 64 - 2 ^ 48)

-- `nanoseconds()`, with its test for a negative value of `ns`.
unfoldable pub nanoseconds : ℕ → ℤ
nanoseconds w =
    let ns = arithmetic_shift16 w % 2 ^ 48 in
    signed64 (if leb (2 ^ 63) ns then (bit_or ns 0xffff000000000000 + 1) % 2 ^ 64 else ns)

-- `operator+=`
unfoldable pub add_interval : ℕ → ℕ → ℕ
add_interval l r = (l + r) % 2 ^ 64

-- A correction that is not negative is read as its whole nanoseconds.
pub nanoseconds_nonneg : (w : ℕ) → w < 2 ^ 63 → nanoseconds w ≡ pos (w / 2 ^ 16)
unfolding nanoseconds
nanoseconds_nonneg w h = ground arith

-- Whole nanoseconds, rounded down, of any scaled value.
abbrev pub floor_nanoseconds : ℕ → ℤ
floor_nanoseconds w =
    if ltb w (2 ^ 63) then pos (w / 2 ^ 16) else negsuc ((2 ^ 64 - w - 1) / 2 ^ 16)

-- A negative correction is never read as negative: the mask has cleared the sign before it is
-- tested, so the result is 2 ^ 48 ns too large.
pub nanoseconds_negative :
    (w : ℕ)
    → 2 ^ 63 ≤ w
    → w < 2 ^ 64
    → (nanoseconds w ≡ floor_nanoseconds w +ℤ pos (2 ^ 48))
      × (pos 0 ≤ℤ nanoseconds w)
      × (signed64 w <ℤ pos 0)
unfolding nanoseconds ◌+ℤ◌
nanoseconds_negative w h k = ground arith
