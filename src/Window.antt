-- ===== src/Window.antt =====
-- The window of sequences that a filter and a calculation keep: `Filter::insert`
-- (src/flashptp/filter/filter.cpp) and `Calculation::insert`
-- (src/flashptp/calculation/calculation.cpp) clear it when the time stamp level changes, drop the
-- oldest entries and push the new one.
pub mod Laws
use flashptpd.Prelude.{
  ℕ, Bool, true, false, not, ◌==◌, leb, if◌then◌else◌, List, [], ◌∷◌, none, some, length, get_last?,
}
use flashptpd.Client.Sequence.{Sequence, TimestampLevel}

-- The numbers of the enumerators of `PTPTimestampLevel`.
abbrev pub level_number : TimestampLevel → ℕ
level_number TimestampLevel.invalid = 0
level_number TimestampLevel.user = 1
level_number TimestampLevel.socket = 2
level_number TimestampLevel.hardware = 3

abbrev pub same_level : TimestampLevel → TimestampLevel → Bool
same_level a b = level_number a == level_number b

-- The last sequence has another time stamp level: the test that `insert` clears on.
unfoldable pub level_changed : List Sequence → Sequence → Bool
level_changed xs seq = elim (get_last? xs) [
  | none ↦ false
  | some last ↦ not (same_level last.timestamp_level seq.timestamp_level)
]

-- `while (size() >= _size) pop_front()`. A `_size` of 0, at which the loop would not stop, is refused
-- by `validateConfig`.
unfoldable pub trim : ℕ → List Sequence → List Sequence
trim n [] = []
trim n (x ∷ xs) = if leb n (length (x ∷ xs)) then trim n xs else x ∷ xs

-- What is left of a window before a sequence is inserted.
abbrev pub kept : List Sequence → Sequence → List Sequence
kept xs seq = if level_changed xs seq then [] else xs
