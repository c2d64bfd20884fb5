-- ===== src/Network/Address.antt =====
-- Class Address (include/flashptp/network/address.h). A `sockaddr_storage` is its family and the bytes of
-- its address as they lie in memory, `unspec` standing for each family that the program does not know.
-- `inet_ntop` is a parameter. A host of little endian is assumed.
pub mod Masks
use flashptpd.Prelude.{
  ℕ, zero, suc, ◌+◌, ◌-◌, ◌*◌, ◌/◌, ◌%◌, ◌^◌, Bool, true, false, ltb, ◌==◌, if◌then◌else◌, List, [],
  ◌∷◌, ◌++◌, Option, none, some, get_elem?,
}
use flashptpd.Prelude.Texts.{Text, same_codes}

pub data Family : Type 0 where
  unspec packet ip4 ip6 : Family

-- `AF_UNSPEC` and the others are told apart by their numbers.
abbrev pub family_number : Family → ℕ
family_number Family.unspec = 0
family_number Family.packet = 1
family_number Family.ip4 = 2
family_number Family.ip6 = 3

abbrev pub same_family : Family → Family → Bool
same_family a b = family_number a == family_number b

pub record Saddr : Type 0 where
  pub family : Family
  pub bytes : List ℕ

-- `Address()`'s `_saddr`.
abbrev pub no_saddr : Saddr
no_saddr = record { family = Family.unspec; bytes = [] }

pub record Address : Type 0 where
  pub saddr : Saddr
  pub prefix : ℕ
  pub short_str : Text
  pub str : Text

abbrev pub family_of : Address → Family
family_of a = a.saddr.family

-- `Address::equals`
unfoldable pub equals : Address → Saddr → Bool
equals a s =
    if same_family s.family (family_of a)
    then (elim s.family [ Family.unspec ↦ false | _ ↦ same_codes s.bytes a.saddr.bytes ])
    else false

byte_at : List ℕ → ℕ → ℕ
byte_at bytes i = elim (get_elem? bytes i) [ none ↦ 0 | some b ↦ b ]

-- The bit `i`, counted from the least bit of the first byte.
unfoldable pub bit_at : List ℕ → ℕ → Bool
unfolding byte_at
bit_at bytes i = byte_at bytes (i / 8) / 2 ^ (i % 8) % 2 == 1

-- The loop of `saddrToPrefix` from `i`, with `n` rounds left.
unfoldable pub leading_bits : ℕ → ℕ → List ℕ → ℕ
leading_bits zero i bytes = 0
leading_bits (suc n) i bytes =
    let rest = leading_bits n (i + 1) bytes in if bit_at bytes i then rest + 1 else 0

unfoldable pub saddr_to_prefix : Saddr → ℕ
saddr_to_prefix s = elim s.family [
  | Family.ip4 ↦ leading_bits 32 0 s.bytes
  | Family.ip6 ↦ leading_bits 128 0 s.bytes
  | _ ↦ 0
]

-- `%02x`
hex_digit : ℕ → ℕ
hex_digit d = if ltb d 10 then b'0' + d else b'a' + (d - 10)

unfoldable pub mac_to_str : List ℕ → Text
unfolding hex_digit
mac_to_str [] = []
mac_to_str (b ∷ []) = hex_digit (b / 16) ∷ hex_digit (b % 16) ∷ []
mac_to_str (b ∷ c ∷ bytes) = hex_digit (b / 16) ∷ hex_digit (b % 16) ∷ b':' ∷ mac_to_str (c ∷ bytes)

-- `std::to_string` of a number below 1000.
unfoldable pub to_string : ℕ → Text
to_string n =
    if ltb n 10
    then (b'0' + n) ∷ []
    else if ltb n 100
    then (b'0' + n / 10) ∷ (b'0' + n % 10) ∷ []
    else (b'0' + n / 100) ∷ (b'0' + n / 10 % 10) ∷ (b'0' + n % 10) ∷ []

-- "Unknown"
abbrev pub unknown : Text
unknown = b'U' ∷ b'n' ∷ b'k' ∷ b'n' ∷ b'o' ∷ b'w' ∷ b'n' ∷ []

-- `inet_ntop` for the two families.
pub record InetNtop : Type 0 where
  pub of_ip4 : List ℕ → Text
  pub of_ip6 : List ℕ → Text

module _ (N : InetNtop) where
  unfoldable pub saddr_to_str : Saddr → Text
  saddr_to_str s = elim s.family [
    | Family.packet ↦ mac_to_str s.bytes
    | Family.ip4 ↦ N.of_ip4 s.bytes
    | Family.ip6 ↦ N.of_ip6 s.bytes
    | Family.unspec ↦ unknown
  ]

  -- `Address(saddr, saddrPrefix)`
  unfoldable pub new_address : Saddr → Option Saddr → Address
  new_address s netmask =
      let n : ℕ = elim netmask [ none ↦ 0 | some mask ↦ saddr_to_prefix mask ] in
      let short = saddr_to_str s in
      record {
        saddr = s;
        prefix = n;
        short_str = short;
        str = if ltb 0 n then short ++ b'/' ∷ to_string n else short;
      }
