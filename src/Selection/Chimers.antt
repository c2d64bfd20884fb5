-- ===== src/Selection/Chimers.antt =====
-- Which servers `detectTruechimers` chooses (src/flashptp/selection/selection.cpp).
use flashptpd.Prelude.{
  ℕ, zero, suc, ◌+◌, ◌-◌, ◌≡◌, ◌<◌, refl, true, arith, ltb, leb, ◌==◌, inl, inr, Bool-cases,
  Option-cases, List, [], ◌∷◌, ◌++◌, All, All-mono, length, length-append, get_elem?, erase_idx,
  All-erase_idx,
}
use flashptpd.Prelude.Int.{ℤ, ltb_ℤ, ◌-ℤ◌}
use flashptpd.Prelude.Doubles.{Doubles}
use flashptpd.Calculation.{min_offset, max_offset, offset}
use flashptpd.Client.Server.{Server}
use flashptpd.Selection.{
  Selection, Group, is_member, contains, pad, add_server, new_group, join_groups, largest, narrow,
  narrow_by, find_groups, best_groups, front_servers, truechimers, abs_ℤ,
}

pub All-append {κ ℓ} :
    {A : Type ℓ} (P : A → Type κ) (xs ys : List A) → All P xs → All P ys → All P (xs ++ ys)
All-append P [] ys h k = k
All-append P (x ∷ xs) ys h k = (h.0, All-append P xs ys h.1 k)

-- A group has servers, and all of them come from where `P` holds.
unfoldable pub IsGroup : (ℕ → Type 0) → Group → Type 0
IsGroup P g = (0 < length g.servers) × All P g.servers

pad-servers : (g : Group) → (pad g).servers ≡ g.servers
unfolding pad
pad-servers g = elim (Bool-cases (ltb_ℤ (abs_ℤ (g.max -ℤ g.min)) g.padsize)) [
  | inl e ↦ rw e refl
  | inr e ↦ rw e refl
]

module _ (P : ℕ → Type 0) where
  add_server-IsGroup :
      (i : ℕ) (offs lo hi : ℤ) (g : Group)
      → P i
      → All P g.servers
      → IsGroup P (add_server i offs lo hi g)
  unfolding add_server IsGroup
  add_server-IsGroup i offs lo hi g p h = rw (pad-servers _) (
    omega (arith, length-append {0} g.servers (i ∷ [])),
    All-append P g.servers (i ∷ []) h (p, tt),
  )

  join_groups-IsGroup :
      (i : ℕ) (offs lo hi : ℤ) (gs : List Group)
      → P i
      → All (IsGroup P) gs
      → All (IsGroup P) (join_groups i offs lo hi gs).0
  unfolding join_groups IsGroup
  join_groups-IsGroup i offs lo hi [] p h = tt
  join_groups-IsGroup i offs lo hi (g ∷ gs) p h = elim (Bool-cases (contains lo hi offs g)) [
    | inl e ↦
        rw e (add_server-IsGroup i offs lo hi g p h.0.1, join_groups-IsGroup i offs lo hi gs p h.1)
    | inr e ↦ rw e (h.0, join_groups-IsGroup i offs lo hi gs p h.1)
  ]

  pub largest-IsGroup :
      (n : ℕ) (gs best : List Group)
      → All (IsGroup P) gs
      → All (IsGroup P) best
      → All (IsGroup P) (largest n best gs)
  unfolding largest
  largest-IsGroup n [] best h k = k
  largest-IsGroup n (g ∷ gs) best h k = elim (Bool-cases (ltb n (length g.servers))) [
    | inl e ↦ rw e (largest-IsGroup (length g.servers) gs (g ∷ []) h.1 (h.0, tt))
    | inr e ↦ elim (Bool-cases (length g.servers == n)) [
      | inl b ↦
          rw (e, b)
            (largest-IsGroup n gs (best ++ g ∷ []) h.1
              (All-append (IsGroup P) best (g ∷ []) k (h.0, tt)))
      | inr b ↦ rw (e, b) (largest-IsGroup n gs best h.1 k)
    ]
  ]

  narrow-IsGroup :
      (metric : Group → ℤ) (padding m : ℤ) (k i j : ℕ) (best : List Group)
      → All (IsGroup P) best
      → All (IsGroup P) (narrow metric padding m k i j best)
  unfolding narrow
  narrow-IsGroup metric padding m zero i j best h = h
  narrow-IsGroup metric padding m (suc k) i j best h = elim (Option-cases (get_elem? best i)) [
    | inl e ↦ rw (e, narrow) h
    | inr e ↦ elim (Bool-cases (ltb_ℤ padding (abs_ℤ (metric e.0 -ℤ m)))) [
      | inr c ↦ rw (e.1, narrow) (rw c (narrow-IsGroup metric padding m k (i + 1) j best h))
      | inl c ↦ elim (Bool-cases (ltb_ℤ (metric e.0) m)) [
        | inl d ↦
            rw (e.1, narrow)
              (rw c (
                rw d (
                  narrow-IsGroup metric padding m k i (i - 1) (erase_idx best j)
                    (All-erase_idx _ best j h))))
        | inr d ↦
            rw (e.1, narrow)
              (rw c (
                rw d (
                  narrow-IsGroup metric padding m k i j (erase_idx best i)
                    (All-erase_idx _ best i h))))
      ]
    ]
  ]

  pub narrow_by-IsGroup :
      (metric : Group → ℤ) (padding : ℤ) (best : List Group)
      → All (IsGroup P) best
      → All (IsGroup P) (narrow_by metric padding best)
  unfolding narrow_by
  narrow_by-IsGroup metric padding [] h = h
  narrow_by-IsGroup metric padding (g ∷ gs) h =
      narrow-IsGroup metric padding (metric g) (length gs) 1 0 (g ∷ gs) h

  module _ (D : Doubles) where
    pub find_groups-IsGroup :
        (servers : List (Server D.Double)) (padding difference : ℤ) (v : List ℕ) (gs : List Group)
        → All P v
        → All (IsGroup P) gs
        → All (IsGroup P) (find_groups D servers padding difference v gs)
    unfolding find_groups new_group
    find_groups-IsGroup servers padding difference [] gs p h = h
    find_groups-IsGroup servers padding difference (i ∷ is) gs p h =
        elim (Option-cases (get_elem? servers i)) [
          | inl e ↦ rw (e, find_groups) (find_groups-IsGroup servers padding difference is gs p.1 h)
          | inr e ↦
              let c = e.0.calculation in
              let joined = join_groups i (offset c) (min_offset c) (max_offset c) gs in
              let h' = join_groups-IsGroup i (offset c) (min_offset c) (max_offset c) gs p.0 h in
              rw (e.1, find_groups)
                (find_groups-IsGroup servers padding difference is _ p.1
                  (elim (Bool-cases joined.1) [
                    | inl b ↦ rw b h'
                    | inr b ↦ rw b (
                        All-append (IsGroup P) joined.0 _ h'
                          (add_server-IsGroup i _ _ _ _ p.0 tt, tt))
                  ]))
        ]

    front-All : (gs : List Group) → All (IsGroup P) gs → All P (front_servers D gs)
    unfolding front_servers IsGroup
    front-All [] h = tt
    front-All (g ∷ gs) h = h.0.1

    pub truechimers-All :
        (s : Selection) (clock : ℤ) (servers : List (Server D.Double)) (v : List ℕ)
        → All P v
        → All P (truechimers D s clock servers v)
    unfolding truechimers best_groups
    truechimers-All s clock servers v p = elim (Bool-cases (leb (length v) 2)) [
      | inl e ↦ rw e p
      | inr e ↦ rw e (
          front-All _ (
            narrow_by-IsGroup _ _ _ (
              narrow_by-IsGroup _ _ _ (
                narrow_by-IsGroup _ _ _
                  (largest-IsGroup 0 _ [] (find_groups-IsGroup servers _ _ v [] p tt) tt)))))
    ]

is_member-cons : (i j : ℕ) (v : List ℕ) → is_member i v ≡ true → is_member i (j ∷ v) ≡ true
unfolding is_member
is_member-cons i j v h = elim (Bool-cases (i == j)) [ inl e ↦ rw e refl | inr e ↦ rw e h ]

is_member-head : (i : ℕ) (v : List ℕ) → is_member i (i ∷ v) ≡ true
unfolding is_member
is_member-head i v = ground arith

pub members : (v : List ℕ) → All (λ i. is_member i v ≡ true) v
members [] = tt
members (j ∷ v) = (is_member-head j v, All-mono v (λ i h. is_member-cons i j v h) (members v))
