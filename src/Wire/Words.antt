-- ===== src/Wire/Words.antt =====
-- 64-bit words as native numbers: `swap64` (include/flashptp/common/defines.h) and the reading of a
-- word as an `int64_t`.
use flashptpd.Prelude.{ℕ, ◌+◌, ◌-◌, ◌*◌, ◌/◌, ◌%◌, ◌^◌, ◌<◌, ◌≡◌, arith, ltb, if◌then◌else◌}
use flashptpd.Prelude.Int.{ℤ, pos, negsuc}

-- `(uint8_t)((w >> k) & 0xff)`
abbrev pub byte : ℕ → ℕ → ℕ
byte k w = w / 2 ^ k % 256

-- The bytes `b[0]` to `b[7]` are written in the order of memory, so on the little-endian hosts that
-- the function is meant for `b[0]` is the lowest byte of the result.
unfoldable pub swap64 : ℕ → ℕ
swap64 w =
    byte 56 w
    + byte 48 w * 2 ^ 8
    + byte 40 w * 2 ^ 16
    + byte 32 w * 2 ^ 24
    + byte 24 w * 2 ^ 32
    + byte 16 w * 2 ^ 40
    + byte 8 w * 2 ^ 48
    + byte 0 w * 2 ^ 56

-- The number that a 64-bit pattern stands for as an `int64_t`.
abbrev pub signed64 : ℕ → ℤ
signed64 w = if ltb w (2 ^ 63) then pos w else negsuc (2 ^ 64 - w - 1)

split_word :
    (w : ℕ)
    → w < 2 ^ 64
    → w
      ≡ byte 0 w
        + byte 8 w * 2 ^ 8
        + byte 16 w * 2 ^ 16
        + byte 24 w * 2 ^ 24
        + byte 32 w * 2 ^ 32
        + byte 40 w * 2 ^ 40
        + byte 48 w * 2 ^ 48
        + byte 56 w * 2 ^ 56
split_word w h = omega arith

-- Bytes that are assembled into a word are read back.
bytes_of_sum :
    (a b c d e f g h : ℕ)
    → a < 256
    → b < 256
    → c < 256
    → d < 256
    → e < 256
    → f < 256
    → g < 256
    → h < 256
    → let w =
        a
        + b * 2 ^ 8
        + c * 2 ^ 16
        + d * 2 ^ 24
        + e * 2 ^ 32
        + f * 2 ^ 40
        + g * 2 ^ 48
        + h * 2 ^ 56 in
      (byte 0 w ≡ a)
      × (byte 8 w ≡ b)
      × (byte 16 w ≡ c)
      × (byte 24 w ≡ d)
      × (byte 32 w ≡ e)
      × (byte 40 w ≡ f)
      × (byte 48 w ≡ g)
      × (byte 56 w ≡ h)
bytes_of_sum a b c d e f g h p q r s t u v x = omega arith

-- Swapping the bytes of a 64-bit word twice gives the word back.
swap64-swap64 : (w : ℕ) → w < 2 ^ 64 → swap64 (swap64 w) ≡ w
unfolding swap64
swap64-swap64 w h = omega (
  arith,
  split_word w h,
  bytes_of_sum (byte 56 w) (byte 48 w) (byte 40 w) (byte 32 w) (byte 24 w) (byte 16 w) (byte 8 w)
      (byte 0 w) (omega arith) (omega arith) (omega arith) (omega arith) (omega arith) (omega arith)
      (omega arith) (omega arith),
)
