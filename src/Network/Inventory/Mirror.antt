-- ===== src/Network/Inventory/Mirror.antt =====
-- After an update an interface has the addresses that the system lists (src/flashptp/network/inventory.cpp).
use flashptpd.Prelude.{
  ℕ, zero, suc, ◌+◌, ◌≡◌, refl, sym, ap, ◌∙◌, inl, inr, Bool, true, false, ◌&&◌, ◌||◌,
  if◌then◌else◌, List, [], ◌∷◌, ◌++◌, none, some, arith, Bool-cases, Option-cases, length,
  get_elem?, erase_idx, length-append,
}
use flashptpd.Prelude.Texts.{Text, same_codes, same_codes→≡}
use flashptpd.Network.Address.{Address, InetNtop, family_of}
use flashptpd.Network.Interface.{Interface, erase_ip_addr, is_some, get_family_addr}
use flashptpd.Network.Inventory.{Ifaddr, has_str, add_missing, erase_missing, collect, refresh}

has_str-append :
    (t : Text) (xs ys : List Address) → has_str t (xs ++ ys) ≡ has_str t xs || has_str t ys
unfolding has_str
has_str-append t [] ys = refl
has_str-append t (x ∷ xs) ys = elim (Bool-cases (same_codes t x.str)) [
  | inl e ↦ rw e refl
  | inr e ↦ rw e (has_str-append t xs ys)
]

-- Of texts that are equal both are there or neither.
has_str_same :
    (t u : Text) (xs : List Address) → same_codes t u ≡ true → has_str t xs ≡ has_str u xs
has_str_same t u xs e = ap (λ x. has_str x xs) (same_codes→≡ t u e)

or_assoc : (a s l : Bool) → (a || s) || l ≡ a || (if s then true else l)
or_assoc true s l = refl
or_assoc false true l = refl
or_assoc false false l = refl

or_false : (a : Bool) → a || false ≡ a
or_false true = refl
or_false false = refl

added : Address → Interface → Interface
added a i = if has_str a.str i.ip_addrs then i else record i { ip_addrs = i.ip_addrs ++ a ∷ [] }

added-has_str :
    (t : Text) (a : Address) (i : Interface)
    → has_str t (added a i).ip_addrs ≡ has_str t i.ip_addrs || same_codes t a.str
unfolding added has_str
added-has_str t a i = elim (Bool-cases (has_str a.str i.ip_addrs)) [
  | inr e ↦ elim (Bool-cases (same_codes t a.str)) [
    | inl f ↦ rw e (has_str-append t i.ip_addrs (a ∷ []) ∙ rw f refl)
    | inr f ↦ rw e (has_str-append t i.ip_addrs (a ∷ []) ∙ rw f refl)
  ]
  | inl e ↦ elim (Bool-cases (same_codes t a.str)) [
    | inl f ↦
        let there : has_str t i.ip_addrs ≡ true = has_str_same t a.str i.ip_addrs f ∙ e in
        rw e (rw there refl)
    | inr f ↦ rw e (rw f (sym (or_false (has_str t i.ip_addrs))))
  ]
]

add_missing-has_str :
    (t : Text) (listed : List Address) (i : Interface)
    → has_str t (add_missing listed i).ip_addrs ≡ has_str t i.ip_addrs || has_str t listed
unfolding add_missing has_str added
add_missing-has_str t [] i = sym (or_false (has_str t i.ip_addrs))
add_missing-has_str t (a ∷ listed) i =
    add_missing-has_str t listed (added a i)
    ∙ ap (λ b. b || has_str t listed) (added-has_str t a i)
    ∙ or_assoc (has_str t i.ip_addrs) (same_codes t a.str) (has_str t listed)

-- The same loop on the list of addresses.
erase_list : List Address → ℕ → ℕ → List Address → List Address
erase_list listed zero k xs = xs
erase_list listed (suc n) k xs = elim (get_elem? xs k) [
  | none ↦ xs
  | some a ↦ elim (has_str a.str listed) [
    | true ↦ erase_list listed n (k + 1) xs
    | false ↦ erase_list listed n k (erase_idx xs k)
  ]
]

erase_ip_addr-ip_addrs :
    (k : ℕ) (i : Interface) (a : Address)
    → get_elem? i.ip_addrs k ≡ some a
    → (erase_ip_addr k i).ip_addrs ≡ erase_idx i.ip_addrs k
unfolding erase_ip_addr
erase_ip_addr-ip_addrs k i a e =
    elim (Bool-cases
      (is_some (get_family_addr (family_of a) (record i { ip_addrs = erase_idx i.ip_addrs k })))) [
        | inl g ↦ cc (e, g)
        | inr g ↦ cc (e, g)
      ]

erase_missing-erase_list :
    (listed : List Address) (n k : ℕ) (i : Interface)
    → (erase_missing listed n k i).ip_addrs ≡ erase_list listed n k i.ip_addrs
unfolding erase_missing erase_list
erase_missing-erase_list listed zero k i = refl
erase_missing-erase_list listed (suc n) k i = elim (Option-cases (get_elem? i.ip_addrs k)) [
  | inl e ↦ rw (e, erase_missing, erase_list) refl
  | inr (a, e) ↦ elim (Bool-cases (has_str a.str listed)) [
    | inl f ↦ rw (e, f, erase_missing, erase_list) (erase_missing-erase_list listed n (k + 1) i)
    | inr f ↦
        rw (e, f, erase_missing, erase_list)
          (erase_missing-erase_list listed n k (erase_ip_addr k i)
            ∙ ap (erase_list listed n k) (erase_ip_addr-ip_addrs k i a e))
  ]
]

-- What is left: the addresses that are listed, in their order.
keep : List Address → List Address → List Address
keep listed [] = []
keep listed (a ∷ xs) = let rest = keep listed xs in if has_str a.str listed then a ∷ rest else rest

and_false : (a : Bool) → a && false ≡ false
and_false true = refl
and_false false = refl

keep-has_str :
    (t : Text) (listed xs : List Address)
    → has_str t (keep listed xs) ≡ has_str t xs && has_str t listed
unfolding keep has_str
keep-has_str t listed [] = refl
keep-has_str t listed (a ∷ xs) = elim (Bool-cases (has_str a.str listed)) [
  | inl e ↦ elim (Bool-cases (same_codes t a.str)) [
    | inl f ↦
        let there : has_str t listed ≡ true = has_str_same t a.str listed f ∙ e in
        rw (e, f, there) refl
    | inr f ↦ rw (e, f) (keep-has_str t listed xs)
  ]
  | inr e ↦ elim (Bool-cases (same_codes t a.str)) [
    | inl f ↦
        let gone : has_str t listed ≡ false = has_str_same t a.str listed f ∙ e in
        rw (e, f, gone) (keep-has_str t listed xs ∙ rw gone (and_false (has_str t xs)))
    | inr f ↦ rw (e, f) (keep-has_str t listed xs)
  ]
]

get_elem?-append :
    (ys : List Address) (x : Address) (xs : List Address)
    → get_elem? (ys ++ x ∷ xs) (length ys) ≡ some x
get_elem?-append [] x xs = refl
get_elem?-append (y ∷ ys) x xs = get_elem?-append ys x xs

erase_idx-append :
    (ys : List Address) (x : Address) (xs : List Address)
    → erase_idx (ys ++ x ∷ xs) (length ys) ≡ ys ++ xs
erase_idx-append [] x xs = refl
erase_idx-append (y ∷ ys) x xs = ap (λ zs. y ∷ zs) (erase_idx-append ys x xs)

snoc-append :
    (ys : List Address) (x : Address) (xs : List Address) → (ys ++ x ∷ []) ++ xs ≡ ys ++ x ∷ xs
snoc-append [] x xs = refl
snoc-append (y ∷ ys) x xs = ap (λ zs. y ∷ zs) (snoc-append ys x xs)

-- Where `ys` has been kept and `xs` is left.
erase_list-keep :
    (listed ys xs zs : List Address) (k : ℕ)
    → zs ≡ ys ++ xs
    → k ≡ length ys
    → erase_list listed (length xs) k zs ≡ ys ++ keep listed xs
unfolding erase_list keep
erase_list-keep listed ys [] zs k h l = h
erase_list-keep listed ys (x ∷ xs) zs k h l =
    let here : get_elem? zs k ≡ some x = rw (h, l) (get_elem?-append ys x xs) in
    elim (Bool-cases (has_str x.str listed)) [
      | inl e ↦
          rw (here, e, erase_list)
            (erase_list-keep listed (ys ++ x ∷ []) xs zs (k + 1) (h ∙ sym (snoc-append ys x xs))
                (omega (arith, l, length-append ys (x ∷ [])))
              ∙ snoc-append ys x (keep listed xs))
      | inr e ↦
          rw (here, e, erase_list)
            (erase_list-keep listed ys xs (erase_idx zs k) k (rw (h, l) (erase_idx-append ys x xs))
              l)
    ]

refresh-keep :
    (N : InetNtop) (listing : List Ifaddr) (i : Interface)
    → let listed = collect N i.name listing in
      (refresh N true listing i).ip_addrs ≡ keep listed (add_missing listed i).ip_addrs
unfolding refresh
refresh-keep N listing i =
    let listed = collect N i.name listing in
    let j = add_missing listed i in
    erase_missing-erase_list listed (length j.ip_addrs) 0 j
    ∙ erase_list-keep listed [] j.ip_addrs j.ip_addrs 0 refl refl

absorb : (a l : Bool) → (a || l) && l ≡ l
absorb true l = refl
absorb false true = refl
absorb false false = refl

-- An update of an inventory that is initialized gives an interface exactly the addresses, by their
-- texts, that the system lists for it.
pub refresh-collect :
    (N : InetNtop) (listing : List Ifaddr) (i : Interface) (t : Text)
    → has_str t (refresh N true listing i).ip_addrs ≡ has_str t (collect N i.name listing)
refresh-collect N listing i t =
    let listed = collect N i.name listing in
    ap (has_str t) (refresh-keep N listing i)
    ∙ keep-has_str t listed (add_missing listed i).ip_addrs
    ∙ ap (λ b. b && has_str t listed) (add_missing-has_str t listed i)
    ∙ absorb (has_str t i.ip_addrs) (has_str t listed)
