-- ===== src/Adjustment/Once.antt =====
-- A measurement adjusts a clock once: after `finalize` the servers that were used are not used again
-- (src/flashptp/adjustment).
use flashptpd.Prelude.{
  ℕ, zero, suc, ◌<◌, ◌≡◌, refl, inl, inr, true, false, not, ◌&&◌, ◌==◌, List, [], ◌∷◌, some, arith,
  ap, Bool-cases, Option-cases, length, get_elem?,
}
use mathlib.Core.Path.{subst}
use flashptpd.Prelude.Int.{ℤ, eqb_ℤ, pos}
use flashptpd.Prelude.Doubles.{Doubles}
use flashptpd.Calculation.{has_adjustment, set_adjustment, clear}
use flashptpd.Client.Server.{Server}
use flashptpd.Selection.{is_member}
use flashptpd.Adjustment.{
  Adjustment, PidController, Clocks, modify, for_each, chosen, used, cleared, cleared_larger,
  finalize_adjtimex, finalize_pid, finalize, all_adjustable, init_adj, adjust_pid, adjust_adjtimex,
  adjust,
}

same_index : (i j : ℕ) → i == j ≡ true → i ≡ j
same_index i j h = ground arith

module _ {A : Type 0} where
  -- The index names an element with the property.
  abbrev pub Has : (A → Type 0) → List A → ℕ → Type 0
  Has P xs i = (x : A) × (get_elem? xs i ≡ some x) × P x

  modify-length : (f : A → A) (j : ℕ) (xs : List A) → length (modify f j xs) ≡ length xs
  unfolding modify
  modify-length f j [] = refl
  modify-length f zero (x ∷ xs) = refl
  modify-length f (suc j) (x ∷ xs) = ap suc (modify-length f j xs)

  modify-keeps :
      (P : A → Type 0) (f : A → A) (i j : ℕ) (xs : List A)
      → ((x : A) → P x → P (f x))
      → Has P xs i
      → Has P (modify f j xs) i
  unfolding modify
  modify-keeps P f i j [] k (x, e, h) = absurd (cc)
  modify-keeps P f zero zero (x ∷ xs) k (y, e, h) = (f y, cc, k y h)
  modify-keeps P f (suc i) zero (x ∷ xs) k h = h
  modify-keeps P f zero (suc j) (x ∷ xs) k h = h
  modify-keeps P f (suc i) (suc j) (x ∷ xs) k h = modify-keeps P f i j xs k h

  modify-makes :
      (P : A → Type 0) (f : A → A) (i : ℕ) (xs : List A)
      → ((x : A) → P (f x))
      → i < length xs
      → Has P (modify f i xs) i
  unfolding modify
  modify-makes P f i [] k h = absurd (omega arith)
  modify-makes P f zero (x ∷ xs) k h = (f x, refl, k x)
  modify-makes P f (suc i) (x ∷ xs) k h = modify-makes P f i xs k (omega arith)

  for_each-keeps :
      (P : A → Type 0) (f : A → A) (i : ℕ) (r : List ℕ) (xs : List A)
      → ((x : A) → P x → P (f x))
      → Has P xs i
      → Has P (for_each f r xs) i
  unfolding for_each
  for_each-keeps P f i [] xs k h = h
  for_each-keeps P f i (j ∷ r) xs k h =
      for_each-keeps P f i r (modify f j xs) k (modify-keeps P f i j xs k h)

  for_each-makes :
      (P : A → Type 0) (f : A → A) (i : ℕ) (r : List ℕ) (xs : List A)
      → ((x : A) → P (f x))
      → is_member i r ≡ true
      → i < length xs
      → Has P (for_each f r xs) i
  unfolding for_each is_member
  for_each-makes P f i [] xs k m h = absurd (cc)
  for_each-makes P f i (j ∷ r) xs k m h = elim (Bool-cases (i == j)) [
    | inl e ↦
        for_each-keeps P f i r (modify f j xs) (λ x p. k x)
          (subst (λ n. Has P (modify f n xs) i) (same_index i j e) (modify-makes P f i xs k h))
    | inr e ↦ for_each-makes P f i r (modify f j xs) k (ground arith) (rw (modify-length f j xs) h)
  ]

module _ (D : Doubles) where
  open D use {Double}

  -- A server without an adjustment to offer.
  abbrev pub IsUnused : Server Double → Type 0
  IsUnused srv = has_adjustment srv.calculation ≡ false

  used-IsUnused : (srv : Server Double) → IsUnused (used D srv)
  unfolding has_adjustment set_adjustment
  used-IsUnused srv = ground arith

  cleared-IsUnused : (srv : Server Double) → IsUnused srv → IsUnused (cleared D srv)
  unfolding has_adjustment clear
  cleared-IsUnused srv h = h

  cleared_larger-IsUnused : (srv : Server Double) → IsUnused srv → IsUnused (cleared_larger D srv)
  unfolding has_adjustment clear
  cleared_larger-IsUnused srv h = ground arith

  finalize_pid-IsUnused :
      (p : PidController Double) (a : Adjustment Double) (i : ℕ) (r : List ℕ)
      (servers : List (Server Double))
      → Has IsUnused (for_each (used D) r servers) i
      → Has IsUnused (finalize_pid D p a r servers) i
  unfolding finalize_pid
  finalize_pid-IsUnused p a i r servers h =
      elim (Bool-cases (not (D.is_zero p.ki) && eqb_ℤ a.time_addend (pos 0))) [
        | inl e ↦ rw e h
        | inr e ↦ rw e (for_each-keeps IsUnused (cleared_larger D) i r _ cleared_larger-IsUnused h)
      ]

  -- Whatever the adjustment, `finalize` leaves each server that was used without an adjustment.
  pub finalize-IsUnused :
      (a : Adjustment Double) (i : ℕ) (r : List ℕ) (servers : List (Server Double))
      → is_member i r ≡ true
      → i < length servers
      → Has IsUnused (finalize D a r servers) i
  unfolding finalize finalize_adjtimex
  finalize-IsUnused a i r servers m h =
      let base = for_each-makes IsUnused (used D) i r servers used-IsUnused m h in
      elim (Option-cases a.pid) [
        | inl e ↦ rw (e, finalize) (for_each-keeps IsUnused (cleared D) i r _ cleared-IsUnused base)
        | inr (p, e) ↦ rw (e, finalize) (finalize_pid-IsUnused p a i r servers base)
      ]

  all_adjustable-first :
      (clock : ℤ) (srv : Server Double) (servers : List (Server Double))
      → IsUnused srv
      → all_adjustable D clock (srv ∷ servers) ≡ false
  unfolding all_adjustable
  all_adjustable-first clock srv servers h = ground arith

  all_adjustable-cons :
      (clock : ℤ) (srv : Server Double) (servers : List (Server Double))
      → all_adjustable D clock servers ≡ false
      → all_adjustable D clock (srv ∷ servers) ≡ false
  unfolding all_adjustable
  all_adjustable-cons clock srv servers h = ground arith

  all_adjustable-unused :
      (clock : ℤ) (i : ℕ) (q : List ℕ) (servers : List (Server Double))
      → is_member i q ≡ true
      → Has IsUnused servers i
      → all_adjustable D clock (chosen servers q) ≡ false
  unfolding chosen is_member
  all_adjustable-unused clock i [] servers m h = absurd (cc)
  all_adjustable-unused clock i (j ∷ q) servers m (x, e, u) = elim (Bool-cases (i == j)) [
    | inl g ↦
        let f = subst (λ n. get_elem? servers n ≡ some x) (same_index i j g) e in
        rw (f, chosen) (all_adjustable-first clock x (chosen servers q) u)
    | inr g ↦
        let rest = all_adjustable-unused clock i q servers (ground arith) (x, e, u) in
        elim (Option-cases (get_elem? servers j)) [
          | inl f ↦ rw (f, chosen) rest
          | inr (y, f) ↦ rw (f, chosen) (all_adjustable-cons clock y (chosen servers q) rest)
        ]
  ]

  init_adj-unused :
      (b : Adjustment Double) (l : List (Server Double))
      → all_adjustable D b.clock_id l ≡ false
      → init_adj D b l ≡ false
  unfolding init_adj
  init_adj-unused b l h = ground arith

  adjtimex-unready :
      (C : Clocks) (l : List (Server Double)) (b : Adjustment Double) (k : C.Kernel)
      → init_adj D b l ≡ false
      → adjust_adjtimex D C l b k ≡ (b, k, false)
  unfolding adjust_adjtimex
  adjtimex-unready C l b k h = rw h refl

  pid-unready :
      (C : Clocks) (p : PidController Double) (l : List (Server Double)) (b : Adjustment Double)
      (k : C.Kernel)
      → init_adj D b l ≡ false
      → adjust_pid D C p l b k ≡ (b, k, false)
  unfolding adjust_pid
  pid-unready C p l b k h = rw h refl

  -- A measurement adjusts a clock once: after `finalize` of a successful adjustment by the servers `r`,
  -- any adjustment of any clock by servers `q`, one of which is among them, changes nothing: no call of
  -- the kernel is made, and the result is false.
  finalize-once :
      (C : Clocks) (a b : Adjustment Double) (i : ℕ) (r q : List ℕ) (servers : List (Server Double))
      (k : C.Kernel)
      → is_member i r ≡ true
      → i < length servers
      → is_member i q ≡ true
      → adjust D C (chosen (finalize D a r servers) q) b k ≡ (b, k, false)
  unfolding adjust
  finalize-once C a b i r q servers k m h n =
      let l = chosen (finalize D a r servers) q in
      let none_ready = init_adj-unused b l (
        all_adjustable-unused b.clock_id i q (finalize D a r servers) n
          (finalize-IsUnused a i r servers m h)) in
      elim (Option-cases b.pid) [
        | inl e ↦ cc (e, adjtimex-unready C l b k none_ready)
        | inr (p, e) ↦ cc (e, pid-unready C p l b k none_ready)
      ]
