-- ===== src/Selection/Best.antt =====
-- What both `select` pick (src/flashptp/selection/stdDev.cpp and btca.cpp).
use flashptpd.Prelude.{
  ℕ, zero, suc, ◌≡◌, refl, sym, ◌∙◌, Bool, true, false, arith, ◌==◌, inl, inr, Bool-cases,
  Option-cases, List, [], ◌∷◌, ◌++◌, Option, none, some, All, All-mono,
}
use mathlib.Core.Path.{subst}
use mathlib.Core.List.{append_assoc, append-nil}
use mathlib.Core.Option.{some-injective}
use flashptpd.Prelude.Int.{ℤ}
use flashptpd.Prelude.Doubles.{Doubles}
use flashptpd.Client.Server.{Server}
use flashptpd.Selection.{
  Selection, is_member, improve, find_best, pick_best, better_dev, better_ds, preprocess, dev_of,
  ds_of, select_std_dev, select_btca,
}
use flashptpd.Selection.Order.{better_ds_trans, better_ds-irreflexive}

-- `i` may still be picked, with the value `k`.
pub record IsEligible {K : Type 0} (key : ℕ → Option K) (r : List ℕ) (i : ℕ) (k : K) : Type 0 where
  pub value : key i ≡ some k
  pub unpicked : is_member i r ≡ false

module _ {K : Type 0} (key : ℕ → Option K) (better : K → K → Bool) where
  abbrev pub AllOthers : List ℕ → K → List ℕ → Type 0
  AllOthers r k p = All (λ j. (l : K) → IsEligible key r j l → better l k ≡ false) p

  -- `i` may be picked, and no server of `p` that may be is better.
  pub record IsBest (r : List ℕ) (i : ℕ) (k : K) (p : List ℕ) : Type 0 where
    pub among : is_member i p ≡ true
    pub eligible : IsEligible key r i k
    pub least : AllOthers r k p

module _ {K : Type 0} (key : ℕ → Option K) where
  abbrev pub NoneLeft : List ℕ → List ℕ → Type 0
  NoneLeft r p = All (λ j. (l : K) → IsEligible key r j l → ⊥) p

-- One after the other the best of those that are left, up to `n` of them; fewer only when none that
-- may be picked is left.
pub data Picks {K : Type 0} (key : ℕ → Option K) (better : K → K → Bool) (p : List ℕ)
    : ℕ → List ℕ → List ℕ → Type 0 where
  done : (r : List ℕ) → Picks key better p 0 r r
  exhausted : (n : ℕ) (r : List ℕ) → NoneLeft key r p → Picks key better p (suc n) r r
  next :
      (n : ℕ) (r res : List ℕ) (i : ℕ) (k : K)
      → IsBest key better r i k p
      → Picks key better p n (r ++ i ∷ []) res
      → Picks key better p (suc n) r res

All-snoc {κ} : (P : ℕ → Type κ) (xs : List ℕ) (x : ℕ) → All P xs → P x → All P (xs ++ x ∷ [])
All-snoc P [] x h q = (q, tt)
All-snoc P (y ∷ ys) x h q = (h.0, All-snoc P ys x h.1 q)

is_member-snoc : (i x : ℕ) (xs : List ℕ) → is_member i xs ≡ true → is_member i (xs ++ x ∷ []) ≡ true
unfolding is_member
is_member-snoc i x [] h = absurd (cc)
is_member-snoc i x (y ∷ ys) h = elim (Bool-cases (i == y)) [
  | inl e ↦ rw e refl
  | inr e ↦ rw e (is_member-snoc i x ys (rw e at h))
]

is_member-last : (i : ℕ) (xs : List ℕ) → is_member i (xs ++ i ∷ []) ≡ true
unfolding is_member
is_member-last i [] = ground arith
is_member-last i (y ∷ ys) = elim (Bool-cases (i == y)) [
  | inl e ↦ rw e refl
  | inr e ↦ rw e (is_member-last i ys)
]

module _ {K : Type 0} (key : ℕ → Option K) (better : K → K → Bool)
    (irreflexive : (a : K) → better a a ≡ false)
    (trans : (a b c : K) → better a b ≡ true → better b c ≡ true → better a c ≡ true)
    (r : List ℕ) where
  -- `best` is the best of the servers seen so far.
  abbrev Seen : List ℕ → Option (ℕ × K) → Type 0
  Seen xs none = NoneLeft key r xs
  Seen xs (some b) = IsBest key better r b.0 b.1 xs

  value-eq : (i : ℕ) (k l : K) → key i ≡ some k → IsEligible key r i l → better l k ≡ false
  value-eq i k l e h =
      subst (λ x. better l x ≡ false) (some-injective l k (sym h.value ∙ e)) (irreflexive l)

  not_better : (l k b : K) → better k b ≡ true → better l b ≡ false → better l k ≡ false
  not_better l k b e never = elim (Bool-cases (better l k)) [
    | inl p ↦ absurd (let t : true ≡ false = sym (trans l k b p e) ∙ never in cc)
    | inr p ↦ p
  ]

  Seen-skip :
      (xs : List ℕ) (i : ℕ) (best : Option (ℕ × K))
      → ((l : K) → IsEligible key r i l → ⊥)
      → Seen xs best
      → Seen (xs ++ i ∷ []) best
  Seen-skip xs i none never h = All-snoc _ xs i h never
  Seen-skip xs i (some b) never h = record {
    among = is_member-snoc b.0 i xs h.among;
    eligible = h.eligible;
    least = All-snoc _ xs i h.least (λ l q. absurd (never l q));
  }

  Seen-improve :
      (xs : List ℕ) (i : ℕ) (k : K) (best : Option (ℕ × K))
      → IsEligible key r i k
      → Seen xs best
      → Seen (xs ++ i ∷ []) (improve better i k best)
  unfolding improve
  Seen-improve xs i k none q h = record {
    among = is_member-last i xs;
    eligible = q;
    least =
        All-snoc _ xs i (All-mono xs (λ j never l m. absurd (never l m)) h)
          (λ l. value-eq i k l q.value);
  }
  Seen-improve xs i k (some b) q h = elim (Bool-cases (better k b.1)) [
    | inl e ↦ rw e (record {
      among = is_member-last i xs;
      eligible = q;
      least =
          All-snoc _ xs i (All-mono xs (λ j never l m. not_better l k b.1 e (never l m)) h.least)
            (λ l. value-eq i k l q.value);
    })
    | inr e ↦ rw e (record {
      among = is_member-snoc b.0 i xs h.among;
      eligible = h.eligible;
      least =
          All-snoc _ xs i h.least (λ l m.
            subst (λ x. better x b.1 ≡ false) (some-injective k l (sym q.value ∙ m.value)) e);
    })
  ]

  find_best-Seen :
      (p seen : List ℕ) (best : Option (ℕ × K))
      → Seen seen best
      → Seen (seen ++ p) (find_best key better r best p)
  unfolding find_best
  find_best-Seen [] seen best h = subst (λ xs. Seen xs best) (sym (append-nil seen)) h
  find_best-Seen (i ∷ p) seen best h =
      let step : (b : Option (ℕ × K))
          → Seen (seen ++ i ∷ []) b
          → Seen (seen ++ i ∷ p) (find_best key better r b p) =
        λ b q.
          subst (λ xs. Seen xs (find_best key better r b p)) (append_assoc seen (i ∷ []) p)
            (find_best-Seen p (seen ++ i ∷ []) b q) in
      elim (Option-cases (key i)) [
        | inl e ↦ rw e (step best (Seen-skip seen i best (λ l q. let t = sym e ∙ q.value in cc) h))
        | inr e ↦ elim (Bool-cases (is_member i r)) [
          | inl m ↦
              rw (e.1, m)
                (step best (Seen-skip seen i best (λ l q. let t = sym m ∙ q.unpicked in cc) h))
          | inr m ↦
              rw (e.1, m)
                (step (improve better i e.0 best)
                  (Seen-improve seen i e.0 best (record { value = e.1; unpicked = m }) h))
        ]
      ]

module _ {K : Type 0} (key : ℕ → Option K) (better : K → K → Bool)
    (irreflexive : (a : K) → better a a ≡ false)
    (trans : (a b c : K) → better a b ≡ true → better b c ≡ true → better a c ≡ true)
    (p : List ℕ) where
  pick_best-Picks : (n : ℕ) (r : List ℕ) → Picks key better p n r (pick_best key better n p r)
  unfolding pick_best
  pick_best-Picks zero r = done r
  pick_best-Picks (suc n) r =
      let seen = find_best-Seen key better irreflexive trans r p [] none tt in
      elim (Option-cases (find_best key better r none p)) [
        | inl e ↦
            rw (e, pick_best) (exhausted n r (subst (Seen key better irreflexive trans r p) e seen))
        | inr e ↦
            rw (e.1, pick_best)
              (next n r _ e.0.0 e.0.1 (subst (Seen key better irreflexive trans r p) e.1 seen)
                (pick_best-Picks n (r ++ e.0.0 ∷ [])))
      ]

better_dev-irreflexive : (a : ℤ) → better_dev a a ≡ false
better_dev-irreflexive a = ground arith

better_dev_trans :
    (a b c : ℤ) → better_dev a b ≡ true → better_dev b c ≡ true → better_dev a c ≡ true
better_dev_trans a b c h k = ground arith

module _ (D : Doubles) (s : Selection) (clock : ℤ) (servers : List (Server D.Double)) where
  -- What `StdDev::select` returns are `_pick` of the servers that `preprocess` leaves, fewer only if no
  -- more have a standard deviation: each has the least standard deviation of those not yet picked.
  pub select_std_dev-Picks :
      let pre = preprocess D s clock servers in
      Picks (dev_of D pre.0) better_dev pre.1 s.pick [] (select_std_dev D s clock servers).1
  unfolding select_std_dev
  select_std_dev-Picks =
      let pre = preprocess D s clock servers in
      pick_best-Picks (dev_of D pre.0) better_dev better_dev-irreflexive better_dev_trans pre.1
        s.pick []

  -- What `BTCA::select` returns are `_pick` of the servers that `preprocess` leaves, fewer only if no
  -- more have a valid data set: none of those not yet picked has a better data set than the one picked.
  pub select_btca-Picks :
      let pre = preprocess D s clock servers in
      Picks (ds_of D pre.0) better_ds pre.1 s.pick [] (select_btca D s clock servers).1
  unfolding select_btca
  select_btca-Picks =
      let pre = preprocess D s clock servers in
      pick_best-Picks (ds_of D pre.0) better_ds better_ds-irreflexive better_ds_trans pre.1 s.pick
        []
