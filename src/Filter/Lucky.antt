-- ===== src/Filter/Lucky.antt =====
-- `LuckyPacket::filter` picks the sequences with the least delays
-- (src/flashptp/filter/luckyPacket.cpp).
use flashptpd.Prelude.{
  ℕ, zero, suc, ◌+◌, ◌≤◌, ◌<◌, ◌≡◌, refl, ap, sym, ◌∙◌, inl, inr, min, false, ltb, ◌==◌, List, [],
  ◌∷◌, ◌++◌, some, arith, length, get_elem?, erase_idx, All, Perm, erase_idx-perm, length-erase_idx,
  Bool-cases, All-mono, All-get_elem?, All-erase_idx, ltb→lt, ltb→ge, get_elem?-lt, le→ltb-false,
}
use mathlib.Core.List.{append_assoc, append-nil}
use mathlib.Core.List.Perm
use flashptpd.Prelude.Int.{int64_max}
use flashptpd.Client.Sequence.{Sequence}
use flashptpd.Filter.{Filter, delay_of, find_lucky, pick_lucky, lucky_filter}

-- What the inner loop has found among `xs`, from index `i` on, when it started with the delay `d` at
-- the index `j`.
data Found (i d j : ℕ) (xs : List Sequence) (r : ℕ × ℕ) : Type 0 where
  nothing : r.0 ≡ d → r.1 ≡ j → All (λ y. d ≤ delay_of y) xs → Found i d j xs r
  found :
      (n : ℕ) (x : Sequence)
      → r.1 ≡ i + n
      → get_elem? xs n ≡ some x
      → delay_of x ≡ r.0
      → r.0 < d
      → All (λ y. r.0 ≤ delay_of y) xs
      → Found i d j xs r

module _ (i d j : ℕ) (x : Sequence) (xs : List Sequence) (r : ℕ × ℕ) where
  Found-better : delay_of x < d → Found (i + 1) (delay_of x) i xs r → Found i d j (x ∷ xs) r
  Found-better h (nothing p q a) =
      found 0 x (omega arith) refl (omega arith) (omega arith)
        (omega arith, All-mono xs (λ y k. omega arith) a)
  Found-better h (found n y p q e l a) =
      found (suc n) y (omega arith) q e (omega arith) (omega arith, a)

  Found-worse : d ≤ delay_of x → Found (i + 1) d j xs r → Found i d j (x ∷ xs) r
  Found-worse h (nothing p q a) = nothing p q (h, a)
  Found-worse h (found n y p q e l a) = found (suc n) y (omega arith) q e l (omega arith, a)

find_lucky-Found : (i d j : ℕ) (xs : List Sequence) → Found i d j xs (find_lucky i d j xs)
unfolding find_lucky
find_lucky-Found i d j [] = nothing refl refl tt
find_lucky-Found i d j (x ∷ xs) = elim (Bool-cases (ltb (delay_of x) d)) [
  | inl e ↦
      rw e (Found-better i d j x xs _ (ltb→lt _ _ e) (find_lucky-Found (i + 1) (delay_of x) i xs))
  | inr e ↦ rw e (Found-worse i d j x xs _ (ltb→ge _ _ e) (find_lucky-Found (i + 1) d j xs))
]

-- `ps` are taken out of `xs` one after the other, each with the least delay of those left, and `rest`
-- is what remains.
data Picks : List Sequence → List Sequence → List Sequence → Type 0 where
  done : {xs : List Sequence} → Picks xs [] xs
  pick :
      {xs ps rest : List Sequence} (j : ℕ) (x : Sequence)
      → get_elem? xs j ≡ some x
      → All (λ y. delay_of x ≤ delay_of y) xs
      → Picks (erase_idx xs j) ps rest
      → Picks xs (x ∷ ps) rest

-- No delay is so large that the search would pass over it.
abbrev pub IsPickable : List Sequence → Type 0
IsPickable xs = All (λ y. delay_of y < int64_max) xs

data PickedBy (k : ℕ) (out xs : List Sequence) (r : List Sequence × List Sequence) : Type 0 where
  picked :
      (ps : List Sequence)
      → r.0 ≡ out ++ ps
      → length ps ≡ min k (length xs)
      → Picks xs ps r.1
      → PickedBy k out xs r

PickedBy-step :
    (k : ℕ) (out xs : List Sequence) (n : ℕ) (x : Sequence) (r : List Sequence × List Sequence)
    → get_elem? xs n ≡ some x
    → All (λ y. delay_of x ≤ delay_of y) xs
    → PickedBy k (out ++ x ∷ []) (erase_idx xs n) r
    → PickedBy (suc k) out xs r
PickedBy-step k out xs n x r e a (picked ps p l q) =
    picked (x ∷ ps) (p ∙ append_assoc out (x ∷ []) ps)
      (omega (arith, length-erase_idx xs n (get_elem?-lt xs n e))) (pick n x e a q)

-- A round that has found the index `n` goes on with `n` taken out.
pick_lucky-found :
    (k : ℕ) (out xs : List Sequence) (n : ℕ) (x : Sequence)
    → (find_lucky 0 int64_max 0 xs).1 ≡ n
    → get_elem? xs n ≡ some x
    → (find_lucky 0 int64_max 0 xs).0 < int64_max
    → pick_lucky (suc k) out xs ≡ pick_lucky k (out ++ x ∷ []) (erase_idx xs n)
unfolding pick_lucky
pick_lucky-found k out xs n x p q l = rw (not_max, pick_lucky) (rw (p, q, pick_lucky) (rw p))
  where
    not_max : ((find_lucky 0 int64_max 0 xs).0 == int64_max) ≡ false
    not_max = ground arith

pick_lucky-PickedBy :
    (k : ℕ) (out xs : List Sequence) → IsPickable xs → PickedBy k out xs (pick_lucky k out xs)
unfolding pick_lucky
pick_lucky-PickedBy zero out xs v = picked [] (sym (append-nil out)) (omega arith) done
pick_lucky-PickedBy (suc k) out [] v =
    unfold find_lucky in picked [] (sym (append-nil out)) (omega arith) done
pick_lucky-PickedBy (suc k) out (x ∷ xs) v = elim (find_lucky-Found 0 int64_max 0 (x ∷ xs)) [
  | nothing p q a ↦ absurd (omega arith)
  | found n y p q e l a ↦ rw (pick_lucky-found k out (x ∷ xs) n y (p ∙ omega arith) q l) (
      PickedBy-step k out (x ∷ xs) n y _ q (All-mono (x ∷ xs) (λ z h. omega arith) a) (
        pick_lucky-PickedBy k (out ++ y ∷ []) (erase_idx (x ∷ xs) n)
          (All-erase_idx _ (x ∷ xs) n v)))
]

Picks-perm : {xs ps rest : List Sequence} → Picks xs ps rest → Perm xs (ps ++ rest)
Picks-perm done = Perm.rfl
Picks-perm (pick {xs = xs} j x e a p) =
    Perm.trans (erase_idx-perm xs j x e) (Perm.cons x (Picks-perm p))

Picks-All {κ} :
    (P : Sequence → Type κ) {xs ps rest : List Sequence}
    → Picks xs ps rest
    → All P xs
    → All P ps × All P rest
Picks-All P done h = (tt, h)
Picks-All P (pick {xs = xs} j x e a p) h =
    let both = Picks-All P p (All-erase_idx P xs j h) in
    ((All-get_elem? P xs j e h, both.0), both.1)

abbrev pub IsAscending : List Sequence → Type 0
IsAscending [] = Unit {0}
IsAscending (x ∷ xs) = All (λ y. delay_of x ≤ delay_of y) xs × IsAscending xs

Picks-IsAscending :
    {xs ps rest : List Sequence}
    → Picks xs ps rest
    → IsAscending ps × All (λ p. All (λ q. delay_of p ≤ delay_of q) rest) ps
Picks-IsAscending done = (tt, tt)
Picks-IsAscending (pick {xs = xs} j x e a p) =
    let rest = Picks-IsAscending p in
    let least = Picks-All (λ y. delay_of x ≤ delay_of y) p (All-erase_idx _ xs j a) in
    ((least.0, rest.0), (least.1, rest.1))

lucky_filter-full :
    (f : Filter) (filtered : List Sequence)
    → f.size ≤ length f.unfiltered
    → lucky_filter f filtered
      ≡ (record f { unfiltered = [] }, filtered ++ (pick_lucky f.pick [] f.unfiltered).0)
unfolding lucky_filter
lucky_filter-full f filtered h = rw (le→ltb-false (length f.unfiltered) f.size h)

-- A full filter, all of whose delays are below INT64_MAX, appends `ps` to the output and empties
-- itself: `ps` has `_pick` sequences, or all if there are fewer, in ascending order of the absolute
-- delay, and none that is left out has a smaller delay than one in `ps`.
pub lucky_filter-least :
    (f : Filter) (filtered : List Sequence)
    → f.size ≤ length f.unfiltered
    → IsPickable f.unfiltered
    → (ps : List Sequence) × (rest : List Sequence) × (lucky_filter f filtered
        ≡ (record f { unfiltered = [] }, filtered ++ ps))
      × Perm f.unfiltered (ps ++ rest)
      × (length ps ≡ min f.pick (length f.unfiltered))
      × IsAscending ps
      × All (λ p. All (λ q. delay_of p ≤ delay_of q) rest) ps
lucky_filter-least f filtered h v = elim (pick_lucky-PickedBy f.pick [] f.unfiltered v) [
  | picked ps p l q ↦ (
    ps,
    (pick_lucky f.pick [] f.unfiltered).1,
    lucky_filter-full f filtered h ∙ ap (λ out. (record f { unfiltered = [] }, filtered ++ out)) p,
    Picks-perm q,
    l,
    (Picks-IsAscending q).0,
    (Picks-IsAscending q).1,
  )
]
