-- ===== src/Selection/Left.antt =====
-- `detectTruechimers` never drops the last group (src/flashptp/selection/selection.cpp).
use flashptpd.Prelude.{
  ℕ, zero, suc, ◌+◌, ◌-◌, ◌≡◌, ◌<◌, refl, ap, true, arith, ltb, leb, ◌==◌, if◌then◌else◌, inl, inr,
  Bool-cases, Option-cases, List, [], ◌∷◌, ◌++◌, All, length, length-append, get_elem?, erase_idx,
  length-erase_idx, lt→ltb, get_elem?_lem,
}
use flashptpd.Prelude.Int.{ℤ, ltb_ℤ, ◌-ℤ◌}
use flashptpd.Prelude.Doubles.{Doubles}
use flashptpd.Calculation.{min_offset, max_offset, offset}
use flashptpd.Client.Server.{Server}
use flashptpd.Selection.{
  Selection, Group, is_member, contains, new_group, join_groups, largest, narrow, narrow_by,
  find_groups, best_groups, front_servers, truechimers, abs_ℤ,
}
use flashptpd.Selection.Chimers.{
  IsGroup, largest-IsGroup, narrow_by-IsGroup, find_groups-IsGroup, members,
}

narrow-left :
    (metric : Group → ℤ) (padding m : ℤ) (k i j : ℕ) (best : List Group)
    → j < i
    → length best ≡ i + k
    → 0 < length (narrow metric padding m k i j best)
unfolding narrow
narrow-left metric padding m zero i j best h l = omega (arith, l)
narrow-left metric padding m (suc k) i j best h l = elim (Option-cases (get_elem? best i)) [
  | inl e ↦ rw (e, narrow) (omega (arith, l))
  | inr e ↦ elim (Bool-cases (ltb_ℤ padding (abs_ℤ (metric e.0 -ℤ m)))) [
    | inr c ↦
        rw (e.1, narrow)
          (rw c (narrow-left metric padding m k (i + 1) j best (omega arith) (omega (arith, l))))
    | inl c ↦ elim (Bool-cases (ltb_ℤ (metric e.0) m)) [
      | inl d ↦
          rw (e.1, narrow)
            (rw c (
              rw d (
                narrow-left metric padding m k i (i - 1) (erase_idx best j) (omega arith)
                  (omega (arith, l, length-erase_idx best j (omega (arith, l)))))))
      | inr d ↦
          rw (e.1, narrow)
            (rw c (
              rw d (
                narrow-left metric padding m k i j (erase_idx best i) h
                  (omega (arith, l, length-erase_idx best i (omega (arith, l)))))))
    ]
  ]
]

narrow_by-left :
    (metric : Group → ℤ) (padding : ℤ) (best : List Group)
    → 0 < length best
    → 0 < length (narrow_by metric padding best)
unfolding narrow_by
narrow_by-left metric padding [] h = h
narrow_by-left metric padding (g ∷ gs) h =
    narrow-left metric padding (metric g) (length gs) 1 0 (g ∷ gs) (omega arith) (omega arith)

largest-left : (n : ℕ) (gs best : List Group) → 0 < length best → 0 < length (largest n best gs)
unfolding largest
largest-left n [] best h = h
largest-left n (g ∷ gs) best h = elim (Bool-cases (ltb n (length g.servers))) [
  | inl e ↦ rw e (largest-left (length g.servers) gs (g ∷ []) (omega arith))
  | inr e ↦ elim (Bool-cases (length g.servers == n)) [
    | inl b ↦
        rw (e, b)
          (largest-left n gs (best ++ g ∷ []) (omega (arith, length-append {0} best (g ∷ []))))
    | inr b ↦ rw (e, b) (largest-left n gs best h)
  ]
]

largest-some :
    (P : ℕ → Type 0) (gs : List Group)
    → All (IsGroup P) gs
    → 0 < length gs
    → 0 < length (largest 0 [] gs)
unfolding largest IsGroup
largest-some P [] h k = k
largest-some P (g ∷ gs) h k =
    rw (lt→ltb 0 (length g.servers) h.0.0)
      (largest-left (length g.servers) gs (g ∷ []) (omega arith))

join_groups-length :
    (i : ℕ) (offs lo hi : ℤ) (gs : List Group) → length (join_groups i offs lo hi gs).0 ≡ length gs
unfolding join_groups
join_groups-length i offs lo hi [] = refl
join_groups-length i offs lo hi (g ∷ gs) = elim (Bool-cases (contains lo hi offs g)) [
  | inl e ↦ rw e (ap suc (join_groups-length i offs lo hi gs))
  | inr e ↦ rw e (ap suc (join_groups-length i offs lo hi gs))
]

-- A server that joins no group starts one.
entered-left :
    (i : ℕ) (offs lo hi : ℤ) (new : Group) (gs : List Group)
    → let joined = join_groups i offs lo hi gs in
      0 < length (if joined.1 then joined.0 else joined.0 ++ new ∷ [])
unfolding join_groups
entered-left i offs lo hi new [] = omega arith
entered-left i offs lo hi new (g ∷ gs) =
    let joined = join_groups i offs lo hi (g ∷ gs) in
    let len = join_groups-length i offs lo hi (g ∷ gs) in
    elim (Bool-cases joined.1) [
      | inl e ↦ rw e (omega (arith, len))
      | inr e ↦ rw e (omega (arith, len, length-append {0} joined.0 (new ∷ [])))
    ]

module _ (D : Doubles) where
  find_groups-left :
      (servers : List (Server D.Double)) (padding difference : ℤ) (v : List ℕ) (gs : List Group)
      → All (λ i. i < length servers) v
      → 0 < length v + length gs
      → 0 < length (find_groups D servers padding difference v gs)
  unfolding find_groups
  find_groups-left servers padding difference [] gs p h = omega (arith, h)
  find_groups-left servers padding difference (i ∷ is) gs p h =
      let srv = get_elem?_lem servers i p.0 in
      let c = srv.0.calculation in
      rw (srv.1, find_groups)
        (find_groups-left servers padding difference is _ p.1 (
          omega (
            arith,
            entered-left i (offset c) (min_offset c) (max_offset c)
                (new_group i padding difference (offset c) (min_offset c) (max_offset c)) gs,
          )))

  front-left :
      (P : ℕ → Type 0) (gs : List Group)
      → All (IsGroup P) gs
      → 0 < length gs
      → 0 < length (front_servers D gs)
  unfolding front_servers IsGroup
  front-left P [] h k = k
  front-left P (g ∷ gs) h k = h.0.0

  -- Where there are servers `v` to choose from, all of them in the list, there are truechimers: the
  -- comparisons of the groups never drop the last group.
  truechimers-left :
      (s : Selection) (clock : ℤ) (servers : List (Server D.Double)) (v : List ℕ)
      → 0 < length v
      → All (λ i. i < length servers) v
      → 0 < length (truechimers D s clock servers v)
  unfolding truechimers best_groups
  truechimers-left s clock servers v some_v p = elim (Bool-cases (leb (length v) 2)) [
    | inl e ↦ rw e some_v
    | inr e ↦
        let Q : ℕ → Type 0 = λ i. is_member i v ≡ true in
        let found = find_groups-IsGroup Q D servers _ _ v [] (members v) tt in
        let some_found = find_groups-left servers _ _ v [] p (omega (arith, some_v)) in
        rw e (
          front-left Q _
            (narrow_by-IsGroup Q _ _ _ (
              narrow_by-IsGroup Q _ _ _
                (narrow_by-IsGroup Q _ _ _ (largest-IsGroup Q 0 _ [] found tt))))
            (narrow_by-left _ _ _
              (narrow_by-left _ _ _ (narrow_by-left _ _ _ (largest-some Q _ found some_found)))))
  ]
