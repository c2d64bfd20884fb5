-- ===== src/Filter.antt =====
-- The filters: include/flashptp/filter and src/flashptp/filter. A `std::deque` of pointers is a list
-- of sequences with the front first; what the code deletes is dropped.
pub mod Lucky
pub mod Median
pub mod Insert
use flashptpd.Prelude.{
  ℕ, zero, suc, ◌+◌, ◌/◌, Bool, true, false, not, ◌==◌, ltb, leb, if◌then◌else◌, List, [], ◌∷◌,
  ◌++◌, Option, none, some, length, get_elem?, erase_idx, get_last?,
}
use flashptpd.Prelude.Int.{abs, int64_max}
use flashptpd.Client.Sequence.{Sequence, mean_path_delay}
use flashptpd.Window.{level_changed, trim}

pub data FilterType : Type 0 where
  invalid lucky_packet median_offset : FilterType

pub record Filter : Type 0 where
  pub type_ : FilterType
  pub size : ℕ
  pub pick : ℕ
  pub unfiltered : List Sequence

unfoldable pub clear : Filter → Filter
clear f = record f { unfiltered = [] }

unfoldable pub empty : Filter → Bool
empty f = length f.unfiltered == 0

unfoldable pub full : Filter → Bool
full f = leb f.size (length f.unfiltered)

unfoldable pub insert : Sequence → Filter → Filter
unfolding clear
insert seq f =
    let g = if level_changed f.unfiltered seq then clear f else f in
    record g { unfiltered = trim g.size g.unfiltered ++ seq ∷ [] }

-- `llabs(seq->meanPathDelay())`
unfoldable pub delay_of : Sequence → ℕ
delay_of s = abs (mean_path_delay s)

-- The loop over `i` in `LuckyPacket::filter`: the least delay and its index.
unfoldable pub find_lucky : ℕ → ℕ → ℕ → List Sequence → ℕ × ℕ
find_lucky i delay j [] = (delay, j)
find_lucky i delay j (x ∷ xs) =
    find_lucky (i + 1) (if ltb (delay_of x) delay then delay_of x else delay)
      (if ltb (delay_of x) delay then i else j) xs

-- The loop of `LuckyPacket::filter`, with `_pick - output.size()` rounds left.
unfoldable pub pick_lucky : ℕ → List Sequence → List Sequence → List Sequence × List Sequence
pick_lucky zero output unfiltered = (output, unfiltered)
pick_lucky (suc k) output unfiltered =
    let (delay, j) = find_lucky 0 int64_max 0 unfiltered in
    elim (delay == int64_max) [
      | true ↦ (output, unfiltered)
      | false ↦ elim (get_elem? unfiltered j) [
        | none ↦ (output, unfiltered)
        | some x ↦ pick_lucky k (output ++ x ∷ []) (erase_idx unfiltered j)
      ]
    ]

-- `LuckyPacket::filter`: the filter and `filtered` after the call.
unfoldable pub lucky_filter : Filter → List Sequence → Filter × List Sequence
lucky_filter f filtered =
    if ltb (length f.unfiltered) f.size
    then (f, filtered)
    else (record f { unfiltered = [] }, filtered ++ (pick_lucky f.pick [] f.unfiltered).0)

-- The loop of `MedianOffset::filter`, with `_pick - output.size()` rounds left.
unfoldable pub pick_median : ℕ → List Sequence → List Sequence → List Sequence × List Sequence
pick_median zero output unfiltered = (output, unfiltered)
pick_median (suc k) output unfiltered = elim (ltb 2 (length unfiltered)) [
  | false ↦ (output, unfiltered)
  | true ↦ elim (get_elem? unfiltered (length unfiltered / 2)) [
    | none ↦ (output, unfiltered)
    | some x ↦ pick_median k (output ++ x ∷ []) (erase_idx unfiltered (length unfiltered / 2))
  ]
]

-- `MedianOffset::filter` over a `std::sort` by offset.
unfoldable pub median_filter :
    (List Sequence → List Sequence) → Filter → List Sequence → Filter × List Sequence
median_filter sort f filtered =
    if ltb (length f.unfiltered) f.size
    then (f, filtered)
    else (record f { unfiltered = [] }, filtered ++ (pick_median f.pick [] (sort f.unfiltered)).0)

-- The virtual call `filt->filter(nextseqs)`; no filter of the type `invalid` is ever made.
unfoldable pub filter :
    (List Sequence → List Sequence) → FilterType → Filter → List Sequence → Filter × List Sequence
unfolding lucky_filter median_filter
filter sort FilterType.invalid f filtered = (f, filtered)
filter sort FilterType.lucky_packet f filtered = lucky_filter f filtered
filter sort FilterType.median_offset f filtered = median_filter sort f filtered
