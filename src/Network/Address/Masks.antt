-- ===== src/Network/Address/Masks.antt =====
-- What the prefix of a netmask comes out as (include/flashptp/network/address.h), and that the text of a
-- MAC address names it.
use flashptpd.Prelude.{
  ℕ, zero, suc, ◌+◌, ◌-◌, ◌*◌, ◌/◌, ◌%◌, ◌^◌, ◌≤◌, ◌<◌, ◌≡◌, refl, Bool, true, ltb, leb, ◌==◌, ◌&&◌,
  if◌then◌else◌, List, [], ◌∷◌, arith, All, inl, inr, Bool-cases, leb→le, leb→gt,
}
use flashptpd.Network.Address.{Family, bit_at, leading_bits, saddr_to_prefix, mac_to_str}

-- The netmask of a prefix `p` in `n` bytes, of which `k` come before.
unfoldable pub netmask : ℕ → ℕ → ℕ → List ℕ
netmask zero k p = []
netmask (suc n) k p =
    (if leb (8 * (k + 1)) p then 255 else if leb p (8 * k) then 0 else 256 - 2 ^ (8 * (k + 1) - p))
    ∷ netmask n (k + 1) p

-- The prefix counted in a netmask of `n` bytes is cut to whole bytes.
is_cut : ℕ → ℕ → Bool
is_cut n p = leading_bits (8 * n) 0 (netmask n 0 p) == p / 8 * 8

all_cut : ℕ → ℕ → Bool
all_cut n zero = is_cut n 0
all_cut n (suc p) = is_cut n (suc p) && all_cut n p

all_cut4 : all_cut 4 32 ≡ true
unfolding all_cut is_cut leading_bits netmask bit_at
all_cut4 = refl

all_cut16 : all_cut 16 128 ≡ true
unfolding all_cut is_cut leading_bits netmask bit_at
all_cut16 = refl

both : (a b : Bool) → a && b ≡ true → (a ≡ true) × (b ≡ true)
both a b h = ground arith

all_cut-is_cut : (n m p : ℕ) → all_cut n m ≡ true → p ≤ m → is_cut n p ≡ true
unfolding all_cut
all_cut-is_cut n zero p h l = let e : p ≡ 0 = omega arith in rw e h
all_cut-is_cut n (suc m) p h l =
    let parts = both (is_cut n (suc m)) (all_cut n m) h in
    elim (Bool-cases (leb p m)) [
      | inl e ↦ all_cut-is_cut n m p parts.1 (leb→le p m e)
      | inr e ↦ let last : p ≡ suc m = omega (arith, leb→gt p m e) in rw last parts.0
    ]

cut : (n p : ℕ) → is_cut n p ≡ true → leading_bits (8 * n) 0 (netmask n 0 p) ≡ p / 8 * 8
unfolding is_cut
cut n p h = ground arith

-- The prefix that is read off a netmask of at most 32, for IPv6 128, bits is that of its whole
-- bytes: 20 becomes 16, since the bits of a byte are counted from its least one.
pub saddr_to_prefix-netmask :
    (p q : ℕ)
    → p ≤ 32
    → q ≤ 128
    → (saddr_to_prefix (record { family = Family.ip4; bytes = netmask 4 0 p }) ≡ p / 8 * 8)
      × (saddr_to_prefix (record { family = Family.ip6; bytes = netmask 16 0 q }) ≡ q / 8 * 8)
unfolding saddr_to_prefix
saddr_to_prefix-netmask p q l m =
    (cut 4 p (all_cut-is_cut 4 32 p all_cut4 l), cut 16 q (all_cut-is_cut 16 128 q all_cut16 m))

abbrev hex : ℕ → ℕ
hex d = if ltb d 10 then b'0' + d else b'a' + (d - 10)

hex-injective : (d e : ℕ) → d < 16 → e < 16 → hex d ≡ hex e → d ≡ e
hex-injective d e h k f = ground arith

byte-injective :
    (b c : ℕ)
    → b < 256
    → c < 256
    → hex (b / 16) ≡ hex (c / 16)
    → hex (b % 16) ≡ hex (c % 16)
    → b ≡ c
byte-injective b c h k f g =
    let high = hex-injective (b / 16) (c / 16) (omega arith) (omega arith) f in
    let low = hex-injective (b % 16) (c % 16) (omega arith) (omega arith) g in
    omega (arith, high, low)

cons-injective : {A : Type 0} {x y : A} {xs ys : List A} → x ∷ xs ≡ y ∷ ys → (x ≡ y) × (xs ≡ ys)
cons-injective e = (cc e, cc e)

abbrev pub AreBytes : List ℕ → Type 0
AreBytes = All (λ b. b < 256)

-- The text of a MAC address determines its bytes.
mac_to_str-injective :
    (a b : List ℕ) → AreBytes a → AreBytes b → mac_to_str a ≡ mac_to_str b → a ≡ b
unfolding mac_to_str
mac_to_str-injective [] [] h k e = refl
mac_to_str-injective [] (c ∷ []) h k e = absurd (cc e)
mac_to_str-injective [] (c ∷ d ∷ b) h k e = absurd (cc e)
mac_to_str-injective (x ∷ []) [] h k e = absurd (cc e)
mac_to_str-injective (x ∷ y ∷ a) [] h k e = absurd (cc e)
mac_to_str-injective (x ∷ []) (c ∷ []) h k e =
    let one = cons-injective e in
    let two = cons-injective one.1 in cc (byte-injective x c h.0 k.0 one.0 two.0)
mac_to_str-injective (x ∷ []) (c ∷ d ∷ b) h k e =
    absurd (cc (cons-injective (cons-injective e).1).1)
mac_to_str-injective (x ∷ y ∷ a) (c ∷ []) h k e =
    absurd (cc (cons-injective (cons-injective e).1).1)
mac_to_str-injective (x ∷ y ∷ a) (c ∷ d ∷ b) h k e =
    let one = cons-injective e in
    let two = cons-injective one.1 in
    let three = cons-injective two.1 in
    let rest = mac_to_str-injective (y ∷ a) (d ∷ b) h.1 k.1 three.1 in
    cc (byte-injective x c h.0 k.0 one.0 two.0, rest)
