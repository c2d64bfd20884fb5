-- ===== src/Filter/Insert.antt =====
-- What `Filter::insert` keeps (src/flashptp/filter/filter.cpp).
use flashptpd.Prelude.{
  List, ◌≢◌, ◌≤◌, length, le→ltb-false, ◌≡◌, refl, sym, Bool-cases, inl, inr, ◌++◌, ◌∷◌, [],
}
use mathlib.Core.Path.{subst}
use native.Mathlib.Omega.{arith}
use flashptpd.Client.Sequence.{Sequence}
use flashptpd.Filter.{Filter, FilterType, insert, clear, filter, lucky_filter, median_filter}
use flashptpd.Window.{level_changed, trim, kept}
use flashptpd.Window.Laws.{IsWindow, IsPushed, push-IsPushed}

insert-push :
    (seq : Sequence) (f : Filter)
    → (insert seq f).unfiltered ≡ trim f.size (kept f.unfiltered seq) ++ seq ∷ []
unfolding insert clear
insert-push seq f = elim (Bool-cases (level_changed f.unfiltered seq)) [
  | inl e ↦ rw e
  | inr e ↦ rw e
]

-- `insert` keeps a filter a window of at most `_size` sequences of one level, with the new one last:
-- if the level has changed it alone is left, and else only what exceeds `_size` is lost. The
-- filter's size and pick stay.
pub insert-IsPushed :
    (seq : Sequence) (f : Filter)
    → IsWindow f.size f.unfiltered
    → IsPushed f.size f.unfiltered seq (insert seq f).unfiltered
      × ((insert seq f).size ≡ f.size)
      × ((insert seq f).pick ≡ f.pick)
unfolding insert clear
insert-IsPushed seq f v = (
  subst (IsPushed f.size f.unfiltered seq) (sym (insert-push seq f))
      (push-IsPushed f.size f.unfiltered seq v),
  ground arith,
  ground arith,
)

pub insert-keeps_type : (seq : Sequence) (f : Filter) → (insert seq f).type_ ≡ f.type_
unfolding insert clear
insert-keeps_type seq f = ground arith

filter-empties_at :
    (sort : List Sequence → List Sequence) (t : FilterType) (f : Filter) (next : List Sequence)
    → t ≢ FilterType.invalid
    → f.size ≤ length f.unfiltered
    → (filter sort t f next).0 ≡ record f { unfiltered = [] }
unfolding filter lucky_filter median_filter
filter-empties_at sort FilterType.invalid f next r h = absurd (r refl)
filter-empties_at sort FilterType.lucky_packet f next r h =
    rw (le→ltb-false (length f.unfiltered) f.size h)
filter-empties_at sort FilterType.median_offset f next r h =
    rw (le→ltb-false (length f.unfiltered) f.size h)

-- A full filter is empty after the call.
pub filter-empties :
    (sort : List Sequence → List Sequence) (f : Filter) (next : List Sequence)
    → f.type_ ≢ FilterType.invalid
    → f.size ≤ length f.unfiltered
    → (filter sort f.type_ f next).0 ≡ record f { unfiltered = [] }
filter-empties sort f next r h = filter-empties_at sort f.type_ f next r h
