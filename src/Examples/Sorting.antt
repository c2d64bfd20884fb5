-- ===== src/Examples/Sorting.antt =====
-- Sorting by insertion keeps the promises of `std::sort` that the median filter relies on.
use flashptpd.Prelude.{
  ◌≡◌, inl, inr, true, false, List, [], ◌∷◌, All, All-mono, Bool-cases, Perm, if◌then◌else◌,
}
use mathlib.Core.List.Perm
use flashptpd.Prelude.Int.{ℤ, ◌≤ℤ◌, ltb_ℤ, int_laws}
use flashptpd.Prelude.{arith}
use flashptpd.Client.Sequence.{Sequence}
use flashptpd.Filter.Median.{SortByOffset, IsAscending}

abbrev insert : Sequence → List Sequence → List Sequence
insert x [] = x ∷ []
insert x (y ∷ ys) =
    let rest = insert x ys in if ltb_ℤ y.offset x.offset then y ∷ rest else x ∷ y ∷ ys

abbrev sort : List Sequence → List Sequence
sort [] = []
sort (x ∷ xs) = insert x (sort xs)

insert-perm : (x : Sequence) (ys : List Sequence) → Perm (x ∷ ys) (insert x ys)
insert-perm x [] = Perm.rfl
insert-perm x (y ∷ ys) = elim (Bool-cases (ltb_ℤ y.offset x.offset)) [
  | inl e ↦ rw e (Perm.trans (Perm.swap y x ys) (Perm.cons y (insert-perm x ys)))
  | inr e ↦ rw e Perm.rfl
]

pub sort-perm : (xs : List Sequence) → Perm xs (sort xs)
sort-perm [] = Perm.rfl
sort-perm (x ∷ xs) = Perm.trans (Perm.cons x (sort-perm xs)) (insert-perm x (sort xs))

insert-All :
    (P : Sequence → Type 0) (x : Sequence) (ys : List Sequence)
    → P x
    → All P ys
    → All P (insert x ys)
insert-All P x [] h k = (h, tt)
insert-All P x (y ∷ ys) h k = elim (Bool-cases (ltb_ℤ y.offset x.offset)) [
  | inl e ↦ rw e (k.0, insert-All P x ys h k.1)
  | inr e ↦ rw e (h, k)
]

ltb_ℤ→le : (a b : ℤ) → ltb_ℤ a b ≡ true → a ≤ℤ b
ltb_ℤ→le a b h = ground arith

ltb_ℤ→ge : (a b : ℤ) → ltb_ℤ a b ≡ false → b ≤ℤ a
ltb_ℤ→ge a b h = ground arith

insert-IsAscending :
    (x : Sequence) (ys : List Sequence) → IsAscending ys → IsAscending (insert x ys)
insert-IsAscending x [] h = (tt, tt)
insert-IsAscending x (y ∷ ys) h = elim (Bool-cases (ltb_ℤ y.offset x.offset)) [
  | inl e ↦ rw e (
    insert-All (λ z. y.offset ≤ℤ z.offset) x ys (ltb_ℤ→le y.offset x.offset e) h.0,
    insert-IsAscending x ys h.1,
  )
  | inr e ↦
      let below : x.offset ≤ℤ y.offset = ltb_ℤ→ge y.offset x.offset e in
      rw e ((below, All-mono ys (λ z k. omega int_laws) h.0), h)
]

pub sort-IsAscending : (xs : List Sequence) → IsAscending (sort xs)
sort-IsAscending [] = tt
sort-IsAscending (x ∷ xs) = insert-IsAscending x (sort xs) (sort-IsAscending xs)

abbrev pub insertion_sort : SortByOffset
insertion_sort = record { sort = sort; sort-perm = sort-perm; sort-IsAscending = sort-IsAscending }
