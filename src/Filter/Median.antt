-- ===== src/Filter/Median.antt =====
-- `MedianOffset::filter` picks from the middle of the sequences sorted by offset
-- (src/flashptp/filter/medianOffset.cpp).
use flashptpd.Prelude.{
  ℕ, zero, suc, ◌-◌, ◌/◌, ◌≤◌, ◌<◌, ◌≡◌, ap, sym, ◌∙◌, inl, inr, min, true, false, ltb, List, [],
  ◌∷◌, ◌++◌, some, arith, length, get_elem?, erase_idx, All, Perm, erase_idx-perm, length-erase_idx,
  Bool-cases, All-mono, All-get_elem?, ltb→lt, ltb→ge, lt→ltb, get_elem?-lt, get_elem?_lem,
  le→ltb-false, take, drop, perm-length,
}
use mathlib.Core.List.{append_assoc, append-nil}
use mathlib.Core.List.Perm
use mathlib.Core.Option.{some-injective}
use flashptpd.Prelude.Int.{◌≤ℤ◌}
use flashptpd.Client.Sequence.{Sequence}
use flashptpd.Filter.{Filter, pick_median, median_filter}

-- Each offset is at most every later one.
abbrev pub IsAscending : List Sequence → Type 0
IsAscending [] = Unit {0}
IsAscending (x ∷ xs) = All (λ y. x.offset ≤ℤ y.offset) xs × IsAscending xs

-- What `std::sort` by offset promises: the same elements in ascending order.
pub record SortByOffset : Type 0 where
  pub sort : List Sequence → List Sequence
  pub sort-perm : (xs : List Sequence) → Perm xs (sort xs)
  pub sort-IsAscending : (xs : List Sequence) → IsAscending (sort xs)

data PickedBy (k : ℕ) (out xs : List Sequence) (r : List Sequence × List Sequence) : Type 0 where
  picked :
      (ps : List Sequence)
      → r.0 ≡ out ++ ps
      → length ps ≡ min k (length xs - 2)
      → Perm xs (ps ++ r.1)
      → PickedBy k out xs r

pick_median-step :
    (k : ℕ) (out xs : List Sequence) (x : Sequence)
    → ltb 2 (length xs) ≡ true
    → get_elem? xs (length xs / 2) ≡ some x
    → pick_median (suc k) out xs ≡ pick_median k (out ++ x ∷ []) (erase_idx xs (length xs / 2))
unfolding pick_median
pick_median-step k out xs x h e = rw (h, pick_median) (rw (e, pick_median))

pick_median-stop :
    (k : ℕ) (out xs : List Sequence)
    → ltb 2 (length xs) ≡ false
    → pick_median (suc k) out xs ≡ (out, xs)
unfolding pick_median
pick_median-stop k out xs h = rw (h, pick_median)

PickedBy-step :
    (k : ℕ) (out xs : List Sequence) (n : ℕ) (x : Sequence) (r : List Sequence × List Sequence)
    → 2 < length xs
    → get_elem? xs n ≡ some x
    → PickedBy k (out ++ x ∷ []) (erase_idx xs n) r
    → PickedBy (suc k) out xs r
PickedBy-step k out xs n x r h e (picked ps p l q) =
    picked (x ∷ ps) (p ∙ append_assoc out (x ∷ []) ps)
      (omega (arith, length-erase_idx xs n (get_elem?-lt xs n e)))
      (Perm.trans (erase_idx-perm xs n x e) (Perm.cons x q))

pick_median-PickedBy : (k : ℕ) (out xs : List Sequence) → PickedBy k out xs (pick_median k out xs)
unfolding pick_median
pick_median-PickedBy zero out xs = picked [] (sym (append-nil out)) (omega arith) Perm.rfl
pick_median-PickedBy (suc k) out xs = elim (Bool-cases (ltb 2 (length xs))) [
  | inr h ↦
      rw (pick_median-stop k out xs h)
        (picked [] (sym (append-nil out)) (omega (arith, ltb→ge _ _ h)) Perm.rfl)
  | inl h ↦
      let mid = get_elem?_lem xs (length xs / 2) (omega (arith, ltb→lt _ _ h)) in
      rw (pick_median-step k out xs mid.0 h mid.1) (
        PickedBy-step k out xs (length xs / 2) mid.0 _ (ltb→lt _ _ h) mid.1
          (pick_median-PickedBy k (out ++ mid.0 ∷ []) (erase_idx xs (length xs / 2))))
]

median_filter-full :
    (sort : List Sequence → List Sequence) (f : Filter) (filtered : List Sequence)
    → f.size ≤ length f.unfiltered
    → median_filter sort f filtered
      ≡ (record f { unfiltered = [] }, filtered ++ (pick_median f.pick [] (sort f.unfiltered)).0)
unfolding median_filter
median_filter-full sort f filtered h = rw (le→ltb-false (length f.unfiltered) f.size h)

pick_median-starts :
    (k : ℕ) (xs : List Sequence) (x : Sequence)
    → 0 < k
    → 2 < length xs
    → get_elem? xs (length xs / 2) ≡ some x
    → (ps : List Sequence) × ((pick_median k [] xs).0 ≡ x ∷ ps)
pick_median-starts zero xs x h more e = absurd (omega arith)
pick_median-starts (suc k) xs x h more e =
    elim (pick_median-PickedBy k (x ∷ []) (erase_idx xs (length xs / 2))) [
      | picked ps p l q ↦ (
        ps,
        ap (λ (r : List Sequence × List Sequence). r.0)
              (pick_median-step k [] xs x (lt→ltb _ _ more) e)
            ∙ p,
      )
    ]

-- In an ascending list everything before an element is at most, everything after it at least it.
IsAscending-split :
    (xs : List Sequence) (n : ℕ) (x : Sequence)
    → IsAscending xs
    → get_elem? xs n ≡ some x
    → All (λ y. y.offset ≤ℤ x.offset) (take n xs)
      × All (λ y. x.offset ≤ℤ y.offset) (drop (suc n) xs)
IsAscending-split [] n x a e = absurd (cc)
IsAscending-split (y ∷ xs) zero x a e =
    (tt, All-mono xs (λ z h. ground (arith, some-injective y x e)) a.0)
IsAscending-split (y ∷ xs) (suc n) x a e =
    let rest = IsAscending-split xs n x a.1 e in
    ((All-get_elem? (λ z. y.offset ≤ℤ z.offset) xs n e a.0, rest.0), rest.1)

module _ (S : SortByOffset) (f : Filter) (filtered : List Sequence) where
  open S use {sort, sort-perm, sort-IsAscending}

  -- A full filter empties itself and appends a choice of its sequences: `_pick` of them, but never
  -- the last two, so that a filter that holds at most two sequences passes none on.
  pub median_filter-count :
      f.size ≤ length f.unfiltered
      → (ps : List Sequence) × (rest : List Sequence) × (median_filter sort f filtered
          ≡ (record f { unfiltered = [] }, filtered ++ ps))
        × Perm f.unfiltered (ps ++ rest)
        × (length ps ≡ min f.pick (length f.unfiltered - 2))
  median_filter-count h = elim (pick_median-PickedBy f.pick [] (sort f.unfiltered)) [
    | picked ps p l q ↦ (
      ps,
      (pick_median f.pick [] (sort f.unfiltered)).1,
      median_filter-full sort f filtered h
          ∙ ap (λ out. (record f { unfiltered = [] }, filtered ++ out)) p,
      Perm.trans (sort-perm f.unfiltered) q,
      omega (arith, perm-length f.unfiltered (sort f.unfiltered) (sort-perm f.unfiltered)),
    )
  ]

  -- The first sequence that a full filter of more than two passes on is a median of the offsets: it
  -- stands in the middle of the sorted sequences, with no larger offset before it and no smaller
  -- one behind it.
  median_filter-median :
      f.size ≤ length f.unfiltered
      → 2 < length f.unfiltered
      → 0 < f.pick
      → (x : Sequence) × (ps : List Sequence) × (median_filter sort f filtered
          ≡ (record f { unfiltered = [] }, filtered ++ x ∷ ps))
        × (get_elem? (sort f.unfiltered) (length f.unfiltered / 2) ≡ some x)
        × All (λ y. y.offset ≤ℤ x.offset) (take (length f.unfiltered / 2) (sort f.unfiltered))
        × All (λ y. x.offset ≤ℤ y.offset) (drop (suc (length f.unfiltered / 2)) (sort f.unfiltered))
  median_filter-median h more some_pick =
      let n = length f.unfiltered / 2 in
      let xs = sort f.unfiltered in
      let len = perm-length f.unfiltered xs (sort-perm f.unfiltered) in
      let mid = get_elem?_lem xs n (omega arith) in
      let halves = IsAscending-split xs n mid.0 (sort-IsAscending f.unfiltered) mid.1 in
      let rest =
        pick_median-starts f.pick xs mid.0 some_pick (omega arith)
          (ap (λ m. get_elem? xs (m / 2)) (sym len) ∙ mid.1) in
      (
        mid.0,
        rest.0,
        median_filter-full sort f filtered h
            ∙ ap (λ out. (record f { unfiltered = [] }, filtered ++ out)) rest.1,
        mid.1,
        halves.0,
        halves.1,
      )
