-- ===== src/Calculation/Insert.antt =====
-- What `Calculation::insert` keeps, and what `PassThrough` makes of it
-- (src/flashptp/calculation/calculation.cpp, include/flashptp/calculation/passThrough.h).
use flashptpd.Prelude.{
  ◌≡◌, refl, sym, inl, inr, true, false, List, [], ◌∷◌, ◌++◌, some, arith, Bool-cases, get_last?,
  ap, ◌∙◌, if◌then◌else◌,
}
use mathlib.Core.Path.{subst}
use flashptpd.Prelude.Int.{◌-ℤ◌}
use flashptpd.Prelude.Doubles.{Doubles}
use flashptpd.Wire.Timestamp.{◌-ₜ◌}
use flashptpd.Client.Sequence.{Sequence, mean_path_delay}
use flashptpd.Window.{level_changed, trim, kept}
use flashptpd.Window.Laws.{IsWindow, IsPushed, push-IsPushed}
use flashptpd.Calculation.{
  Calculation, insert, clear, note_previous, pass_through_calculate, pass_last, slope,
}

note_previous-keeps :
    {F : Type 0} (c : Calculation F)
    → ((note_previous c).sequences ≡ c.sequences) × ((note_previous c).size ≡ c.size)
unfolding note_previous
note_previous-keeps c = ground arith

insert-push :
    {F : Type 0} (seq : Sequence) (c : Calculation F)
    → (insert seq c).sequences ≡ trim c.size (kept c.sequences seq) ++ seq ∷ []
unfolding insert clear
insert-push {F} seq c =
    let cleared : Calculation F = if level_changed c.sequences seq then clear c else c in
    let keeps = note_previous-keeps cleared in
    rw (keeps.0, keeps.1)
      (elim (Bool-cases (level_changed c.sequences seq)) [ inl e ↦ rw e | inr e ↦ rw e ])

-- `insert` keeps the calculation's window: at most `_size` sequences of one level, the new one last;
-- a change of level leaves the new one alone, and else only what exceeds `_size` is lost.
pub insert-IsPushed :
    {F : Type 0} (seq : Sequence) (c : Calculation F)
    → IsWindow c.size c.sequences
    → IsPushed c.size c.sequences seq (insert seq c).sequences
insert-IsPushed seq c v =
    subst (IsPushed c.size c.sequences seq) (sym (insert-push seq c))
      (push-IsPushed c.size c.sequences seq v)

pub insert-keeps_size :
    {F : Type 0} (seq : Sequence) (c : Calculation F) → (insert seq c).size ≡ c.size
unfolding insert clear
insert-keeps_size {F} seq c =
    let cleared : Calculation F = if level_changed c.sequences seq then clear c else c in
    (note_previous-keeps cleared).1
    ∙ elim (Bool-cases (level_changed c.sequences seq)) [ inl e ↦ rw e refl | inr e ↦ rw e refl ]

get_last?-push : (xs : List Sequence) (x : Sequence) → get_last? (xs ++ x ∷ []) ≡ some x
get_last?-push [] x = refl
get_last?-push (y ∷ []) x = refl
get_last?-push (y ∷ z ∷ xs) x = get_last?-push (z ∷ xs) x

insert-newest :
    {F : Type 0} (seq : Sequence) (c : Calculation F)
    → get_last? (insert seq c).sequences ≡ some seq
insert-newest seq c =
    ap get_last? (insert-push seq c) ∙ get_last?-push (trim c.size (kept c.sequences seq)) seq

insert-previous :
    {F : Type 0} (seq last : Sequence) (c : Calculation F)
    → level_changed c.sequences seq ≡ false
    → get_last? c.sequences ≡ some last
    → ((insert seq c).prev_seq_valid ≡ true)
      × ((insert seq c).prev_seq_timestamp ≡ last.t1)
      × ((insert seq c).prev_seq_offset ≡ last.offset)
unfolding insert note_previous
insert-previous seq last c e p = rw e (rw (p, note_previous) (refl, refl, refl))

insert_changed-previous :
    {F : Type 0} (seq : Sequence) (c : Calculation F)
    → level_changed c.sequences seq ≡ true
    → (insert seq c).prev_seq_valid ≡ false
unfolding insert note_previous clear
insert_changed-previous seq c e = rw e

module _ (D : Doubles) where
  open D use {Double, of_int, div}

  pass_through-last :
      (c : Calculation Double) (s : Sequence)
      → get_last? c.sequences ≡ some s
      → let r = pass_through_calculate D c in
        (r.is_valid ≡ true)
        × (r.offset_value ≡ s.offset)
        × (r.delay_value ≡ mean_path_delay s)
        × (r.adjustment ≡ c.prev_seq_valid)
        × (c.prev_seq_valid ≡ true
            → r.drift_value
              ≡ div
                  (of_int (s.offset -ℤ c.prev_seq_offset))
                  (of_int (s.t1 -ₜ c.prev_seq_timestamp)))
  unfolding pass_through_calculate pass_last slope
  pass_through-last c s e =
      rw (e, pass_through_calculate)
        (elim (Bool-cases c.prev_seq_valid) [
          | inl h ↦ rw h (refl, refl, refl, refl, λ q. refl)
          | inr h ↦ rw h (refl, refl, refl, refl, λ q. absurd (cc))
        ])

  -- Passing through a sequence that follows `last` on the same level: its own offset and delay, the
  -- slope from `last` to it as the drift, and an adjustment is asked for.
  pass_through-insert :
      (seq last : Sequence) (c : Calculation Double)
      → level_changed c.sequences seq ≡ false
      → get_last? c.sequences ≡ some last
      → let r = pass_through_calculate D (insert seq c) in
        (r.is_valid ≡ true)
        × (r.offset_value ≡ seq.offset)
        × (r.delay_value ≡ mean_path_delay seq)
        × (r.adjustment ≡ true)
        × (r.drift_value ≡ div (of_int (seq.offset -ℤ last.offset)) (of_int (seq.t1 -ₜ last.t1)))
  pass_through-insert seq last c e p =
      let r = pass_through-last (insert seq c) seq (insert-newest seq c) in
      let prev = insert-previous seq last c e p in
      (r.0, r.1, r.2, r.3 ∙ prev.0, r.4 prev.0 ∙ rw (prev.1, prev.2))

  -- After a change of level no adjustment is asked for, since there is no slope yet.
  pass_through-insert_changed :
      (seq : Sequence) (c : Calculation Double)
      → level_changed c.sequences seq ≡ true
      → let r = pass_through_calculate D (insert seq c) in
        (r.is_valid ≡ true) × (r.offset_value ≡ seq.offset) × (r.adjustment ≡ false)
  pass_through-insert_changed seq c e =
      let r = pass_through-last (insert seq c) seq (insert-newest seq c) in
      (r.0, r.1, r.3 ∙ insert_changed-previous seq c e)
