-- ===== src/Window/Laws.antt =====
-- What a window keeps when a sequence is inserted.
use flashptpd.Prelude.{
  ℕ, suc, ◌-◌, ◌≤◌, ◌<◌, ◌≡◌, refl, sym, ◌∙◌, inl, inr, Bool, true, false, leb, List, [], ◌∷◌, ◌++◌,
  some, arith, length, All, length-append, Bool-cases, get_last?, All-mono, min, if◌then◌else◌,
  leb→le, not,
}
use mathlib.Core.Path.{subst}
use mathlib.Core.Option.{some-injective}
use flashptpd.Client.Sequence.{Sequence, TimestampLevel}
use flashptpd.Window.{same_level, level_changed, trim, kept}

-- The loop leaves the last `n - 1` elements, or all of them.
length-trim : (n : ℕ) (xs : List Sequence) → 0 < n → length (trim n xs) ≡ min (length xs) (n - 1)
unfolding trim
length-trim n [] h = omega arith
length-trim n (x ∷ xs) h = elim (Bool-cases (leb n (length (x ∷ xs)))) [
  | inl e ↦ rw e (omega (arith, length-trim n xs h, leb→le _ _ e))
  | inr e ↦ rw e (ground arith)
]

trim-All {κ} : (P : Sequence → Type κ) (n : ℕ) (xs : List Sequence) → All P xs → All P (trim n xs)
unfolding trim
trim-All P n [] h = tt
trim-All P n (x ∷ xs) h = elim (Bool-cases (leb n (length (x ∷ xs)))) [
  | inl e ↦ rw e (trim-All P n xs h.1)
  | inr e ↦ rw e h
]

get_last?-append : (xs : List Sequence) (x : Sequence) → get_last? (xs ++ x ∷ []) ≡ some x
get_last?-append [] x = refl
get_last?-append (y ∷ []) x = refl
get_last?-append (y ∷ z ∷ xs) x = get_last?-append (z ∷ xs) x

All-append {κ} :
    (P : Sequence → Type κ) (xs ys : List Sequence) → All P xs → All P ys → All P (xs ++ ys)
All-append P [] ys h k = k
All-append P (x ∷ xs) ys h k = (h.0, All-append P xs ys h.1 k)

All-get_last? {κ} :
    (P : Sequence → Type κ) (xs : List Sequence) {x : Sequence}
    → get_last? xs ≡ some x
    → All P xs
    → P x
All-get_last? P [] e h = absurd (cc)
All-get_last? P (y ∷ []) {x} e h = subst P (some-injective y x e) h.0
All-get_last? P (y ∷ z ∷ xs) e h = All-get_last? P (z ∷ xs) e h.1

same_level-eq : (a b : TimestampLevel) → same_level a b ≡ true → a ≡ b
same_level-eq a b h = ground arith

not-injective : (b : Bool) → not b ≡ false → b ≡ true
not-injective true h = refl
not-injective false h = absurd (cc)

get_last?-cons :
    (x : Sequence) (xs : List Sequence) → (l : Sequence) × (get_last? (x ∷ xs) ≡ some l)
get_last?-cons x [] = (x, refl)
get_last?-cons x (y ∷ xs) = get_last?-cons y xs

last-same :
    (xs : List Sequence) (seq last : Sequence)
    → get_last? xs ≡ some last
    → level_changed xs seq ≡ false
    → last.timestamp_level ≡ seq.timestamp_level
unfolding level_changed
last-same xs seq last p e = same_level-eq last.timestamp_level seq.timestamp_level (
    not-injective (same_level last.timestamp_level seq.timestamp_level)
      (rw (p, level_changed) at e))

kept-level :
    (xs : List Sequence) (seq : Sequence) (l : TimestampLevel)
    → level_changed xs seq ≡ false
    → All (λ y. y.timestamp_level ≡ l) xs
    → All (λ y. y.timestamp_level ≡ seq.timestamp_level) xs
kept-level [] seq l e h = tt
kept-level (x ∷ xs) seq l e h =
    let last = get_last?-cons x xs in
    let here : last.0.timestamp_level ≡ l =
      All-get_last? (λ y. y.timestamp_level ≡ l) (x ∷ xs) last.1 h in
    All-mono (x ∷ xs) (λ y k. k ∙ sym here ∙ last-same (x ∷ xs) seq last.0 last.1 e) h

-- A window never holds more than `n` sequences, all of one time stamp level.
pub record IsWindow (n : ℕ) (xs : List Sequence) : Type 0 where
  pub size_pos : 0 < n
  pub bounded : length xs ≤ n
  pub level : TimestampLevel
  pub uniform : All (λ y. y.timestamp_level ≡ level) xs

pub IsWindow-nil : (n : ℕ) → 0 < n → IsWindow n []
IsWindow-nil n h = record {
  size_pos = h;
  bounded = omega arith;
  level = TimestampLevel.invalid;
  uniform = tt;
}

-- The new window holds the new sequence last, and only sequences of its level. Unless the level has
-- changed nothing is lost but what exceeds `n`; if it has, the new sequence alone is left.
pub record IsPushed (n : ℕ) (xs : List Sequence) (seq : Sequence) (ys : List Sequence)
    : Type 0 where
  pub window : IsWindow n ys
  pub newest : get_last? ys ≡ some seq
  pub same : All (λ y. y.timestamp_level ≡ seq.timestamp_level) ys
  pub count : length ys ≡ (if level_changed xs seq then 1 else min (suc (length xs)) n)

push-IsPushed_kept :
    (n : ℕ) (xs : List Sequence) (seq : Sequence)
    → IsWindow n xs
    → level_changed xs seq ≡ false
    → IsPushed n xs seq (trim n xs ++ seq ∷ [])
push-IsPushed_kept n xs seq v e =
    let uniform =
      All-append _ (trim n xs) (seq ∷ []) (trim-All _ n xs (kept-level xs seq v.level e v.uniform))
        (refl, tt) in
    let len : length (trim n xs ++ seq ∷ []) ≡ min (suc (length xs)) n =
      omega (
        arith,
        length-append {0} (trim n xs) (seq ∷ []),
        length-trim n xs v.size_pos,
        v.size_pos,
      ) in
    record {
      window = record {
        size_pos = v.size_pos;
        bounded = omega (arith, len);
        level = seq.timestamp_level;
        uniform = uniform;
      };
      newest = get_last?-append (trim n xs) seq;
      same = uniform;
      count = rw e len;
    }

pub push-IsPushed :
    (n : ℕ) (xs : List Sequence) (seq : Sequence)
    → IsWindow n xs
    → IsPushed n xs seq (trim n (kept xs seq) ++ seq ∷ [])
unfolding trim
push-IsPushed n xs seq v = elim (Bool-cases (level_changed xs seq)) [
  | inl e ↦ rw e (record {
    window = record {
      size_pos = v.size_pos;
      bounded = v.size_pos;
      level = seq.timestamp_level;
      uniform = (refl, tt);
    };
    newest = refl;
    same = (refl, tt);
    count = rw e;
  })
  | inr e ↦ rw e (push-IsPushed_kept n xs seq v e)
]
