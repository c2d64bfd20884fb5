-- ===== src/Client/Server/Filters.antt =====
-- What the loops of `Server` over its filters keep (src/flashptp/client/server.cpp).
use flashptpd.Prelude.{
  ◌≢◌, ◌<◌, inl, inr, List, [], ◌∷◌, Bool-cases, length, All, sym, ◌∙◌, if◌then◌else◌, leb→le,
  leb→gt,
}
use mathlib.Core.Path.{subst}
use flashptpd.Window.Laws.{IsWindow, IsWindow-nil}
use flashptpd.Client.Sequence.{Sequence}
use flashptpd.Filter as filters
use flashptpd.Filter.{Filter, FilterType, full, filter}
use flashptpd.Filter.Insert as filter_insert
use flashptpd.Client.Server.{feed, run_filters, clear_filters}

-- A filter keeps a window and is not full between two calls.
pub record IsFilter (f : Filter) : Type 0 where
  pub real : f.type_ ≢ FilterType.invalid
  pub window : IsWindow f.size f.unfiltered
  pub waits : length f.unfiltered < f.size

IsFilter-offer :
    (sort : List Sequence → List Sequence) (f : Filter) (next : List Sequence)
    → f.type_ ≢ FilterType.invalid
    → IsWindow f.size f.unfiltered
    → IsFilter (if full f then filter sort f.type_ f next else (f, next)).0
unfolding full
IsFilter-offer sort f next r w = elim (Bool-cases (full f)) [
  | inl e ↦
      let step = filter_insert.filter-empties sort f next r (leb→le _ _ e) in
      rw e (
        subst IsFilter (sym step)
          (record { real = r; window = IsWindow-nil f.size w.size_pos; waits = w.size_pos }))
  | inr e ↦ rw e (record { real = r; window = w; waits = leb→gt _ _ e })
]

feed-IsFilter :
    (sort : List Sequence → List Sequence) (seqs : List Sequence) (f : Filter)
    (next : List Sequence)
    → IsFilter f
    → IsFilter (feed sort f seqs next).0
unfolding feed
feed-IsFilter sort [] f next h = h
feed-IsFilter sort (s ∷ seqs) f next h =
    let g = filters.insert s f in
    let pushed = filter_insert.insert-IsPushed s f h.window in
    let window : IsWindow g.size g.unfiltered =
      subst (λ n. IsWindow n g.unfiltered) (sym pushed.1) pushed.0.window in
    let real : g.type_ ≢ FilterType.invalid =
      λ e. h.real (sym (filter_insert.insert-keeps_type s f) ∙ e) in
    let r = if full g then filter sort g.type_ g next else (g, next) in
    feed-IsFilter sort seqs r.0 r.1 (IsFilter-offer sort g next real window)

pub run_filters-IsFilter :
    (sort : List Sequence → List Sequence) (fs : List Filter) (seqs : List Sequence)
    → All IsFilter fs
    → All IsFilter (run_filters sort fs seqs).0
unfolding run_filters
run_filters-IsFilter sort [] seqs h = tt
run_filters-IsFilter sort (f ∷ fs) seqs h =
    (feed-IsFilter sort seqs f [] h.0, run_filters-IsFilter sort fs (feed sort f seqs []).1 h.1)

pub clear_filters-IsFilter : (fs : List Filter) → All IsFilter fs → All IsFilter (clear_filters fs)
unfolding clear_filters filters.clear
clear_filters-IsFilter [] h = tt
clear_filters-IsFilter (f ∷ fs) h = (
  elim (Bool-cases (filters.empty f)) [
    | inl e ↦ rw e h.0
    | inr e ↦ rw e (record {
      real = h.0.real;
      window = IsWindow-nil f.size h.0.window.size_pos;
      waits = h.0.window.size_pos;
    })
  ],
  clear_filters-IsFilter fs h.1,
)
