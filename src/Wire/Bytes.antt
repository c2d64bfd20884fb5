-- ===== src/Wire/Bytes.antt =====
-- Reading and writing big-endian fields. A struct that is laid over a received buffer and put into
-- host order by `ntohs`, `ntohl` and `swap64` is read field by field; a reader fails where the bytes
-- run out, as the length tests of the callers do.
use flashptpd.Prelude.{ℕ, ◌+◌, ◌*◌, ◌^◌, ◌<◌, ◌≡◌, List, [], ◌∷◌, ◌++◌, Option, none, some, arith}
use flashptpd.Wire.Words.{byte}

abbrev pub Reader {ℓ} : Type ℓ → Type ℓ
Reader A = List ℕ → Option (A × List ℕ)

infixl 5 ◌>>=◌
abbrev pub ◌>>=◌ {ℓ κ} : {A : Type ℓ} {B : Type κ} → Reader A → (A → Reader B) → Reader B
◌>>=◌ m f bs = elim (m bs) [ none ↦ none | some (a, rest) ↦ f a rest ]

abbrev pub return {ℓ} : {A : Type ℓ} → A → Reader A
return a bs = some (a, bs)

unfoldable pub read8 : Reader ℕ
read8 (a ∷ r) = some (a, r)
read8 [] = none

-- `ntohs`
unfoldable pub read16 : Reader ℕ
read16 (a ∷ b ∷ r) = some (a * 256 + b, r)
read16 _ = none

-- `ntohl`
unfoldable pub read32 : Reader ℕ
read32 (a ∷ b ∷ c ∷ d ∷ r) = some (a * 2 ^ 24 + b * 2 ^ 16 + c * 256 + d, r)
read32 _ = none

-- `swap64`
unfoldable pub read64 : Reader ℕ
read64 (a ∷ b ∷ c ∷ d ∷ e ∷ f ∷ g ∷ h ∷ r) =
    some (
      a * 2 ^ 56 + b * 2 ^ 48 + c * 2 ^ 40 + d * 2 ^ 32 + e * 2 ^ 24 + f * 2 ^ 16 + g * 2 ^ 8 + h,
      r,
    )
read64 _ = none

abbrev pub write16 : ℕ → List ℕ
write16 v = byte 8 v ∷ byte 0 v ∷ []

abbrev pub write32 : ℕ → List ℕ
write32 v = byte 24 v ∷ byte 16 v ∷ byte 8 v ∷ byte 0 v ∷ []

abbrev pub write64 : ℕ → List ℕ
write64 v =
    byte 56 v ∷ byte 48 v ∷ byte 40 v ∷ byte 32 v ∷ byte 24 v ∷ byte 16 v ∷ byte 8 v ∷ byte 0 v ∷ []

pub read16-write16 : (v : ℕ) (r : List ℕ) → v < 2 ^ 16 → read16 (write16 v ++ r) ≡ some (v, r)
unfolding read16
read16-write16 v r h = ground arith

pub read32-write32 : (v : ℕ) (r : List ℕ) → v < 2 ^ 32 → read32 (write32 v ++ r) ≡ some (v, r)
unfolding read32
read32-write32 v r h = ground arith

pub read64-write64 : (v : ℕ) (r : List ℕ) → v < 2 ^ 64 → read64 (write64 v ++ r) ≡ some (v, r)
unfolding read64
read64-write64 v r h = ground arith
