-- ===== src/Config/Accepted.antt =====
-- What validation promises: from a configuration that is accepted, setConfig makes objects that are well
-- formed, and meets no null pointer.
pub mod Parts
pub mod Served
use flashptpd.Prelude.{
  ℕ, suc, sym, ◌⊎◌, inl, inr, ◌+◌, ◌%◌, ◌^◌, ◌≤◌, ◌<◌, Bool, true, false, not, ◌&&◌, ◌≡◌, ◌≢◌, refl,
  List, [], ◌∷◌, Option, none, some, arith, if◌then◌else◌, All, All-mono, ltb, ◌==◌,
}
use flashptpd.Prelude.Int.{ℤ, pos, negsuc, ◌≤ℤ◌, ltb_ℤ}
use flashptpd.Prelude.Doubles.{Doubles}
use flashptpd.Window.Laws.{IsWindow-nil}
use flashptpd.Filter.{Filter, FilterType}
use flashptpd.Calculation.{Calculation, CalculationType}
use flashptpd.Calculation.Keeps.{HasWindow}
use flashptpd.Client.Server.Filters.{IsFilter}
use flashptpd.Config.{
  JsonApi, value_or, make_all, an_unsigned, an_integer, a_string, a_port, to_unsigned, to_signed,
}
use flashptpd.Config.Names.{
  is_filter, is_calculation, filter_type_from_str, calculation_type_from_str,
}
use flashptpd.Client.Sequence.{TimestampLevel, is_valid_level}
use flashptpd.Client.Server.{reset_state}
use flashptpd.Client.Server.Invariant.{IsServer}
use flashptpd.Client.Server.Messages.{reset_state-IsServer}
use flashptpd.Config.Names.{Version, is_version_2, version_from_str, level_from_short_str}
use flashptpd.Config.Peers.{
  Peer, NetworkApi, validate_server, set_server, set_parts, set_filters, find_calculation, peer_of,
  new_server,
}
use flashptpd.Config.{first_of}
use flashptpd.Config.Sound.{
  Passes, Accepts, AcceptsItems, AcceptsNested, check-valid, check_nested-valid, check_items-valid,
  object-valid, Passes-value_or, Passes-required,
}
use flashptpd.Config.Limits.{
  Each, Each-All, IsPort, accepted-IsPort, IsStateInterval, accepted-IsStateInterval, lowest,
  typed-both,
}
use flashptpd.Config.Parts.{
  validate_filter, validate_calculation, make_filter, make_calculation, new_calculation, set_filter,
  set_calculation,
}

-- A filter of a real type and a positive size that passes something on.
abbrev pub IsUsable : Filter → Type 0
IsUsable f = IsFilter f × (0 < f.pick)

-- Objects are made of all elements, if one is made of each.
pub make_all-makes :
    {A B : Type 0} (P : A → B → Type 0) (make : A → Option B) (xs : List A)
    → All (λ x. (y : B) × (make x ≡ some y) × P x y) xs
    → (ys : List B) × (make_all make xs ≡ some ys) × Each P xs ys
unfolding make_all
make_all-makes P make [] h = ([], refl, tt)
make_all-makes P make (x ∷ xs) ((y, e, p), h) =
    let (ys, es, ps) = make_all-makes P make xs h in
    (y ∷ ys, rw (e, make_all) (rw es refl), (p, ps))

module _ (D : Doubles) (J : JsonApi D) where
  open D use {Double}
  open J use {Json, find, get_string, get_integer, is_string, is_number_unsigned}

  real_filter : (t : FilterType) → is_filter t ≡ true → t ≢ FilterType.invalid
  real_filter t h = ground arith

  size_positive : (n : ℕ) → not (n == 0) ≡ true → 0 < n
  size_positive n h = ground arith

  -- An accepted filter is made, of a real type and a positive size.
  make_filter-IsFilter :
      (j : Json)
      → Accepts (validate_filter D J) j
      → (f : Filter) × (make_filter D J j ≡ some f) × IsUsable f
  unfolding validate_filter make_filter
  make_filter-IsFilter j (e, h) =
      let picked = check-valid _ _ _ (find "pick" j) _ (object-valid D J _ _ j e h) in
      let sized = check-valid _ _ _ (find "size" j) _ picked.0 in
      let named = check-valid _ _ _ (find "type" j) _ sized.0 in
      let real =
        Passes-required is_string get_string (λ s. is_filter (filter_type_from_str s)) ""
          (find "type" j) named.1 in
      let positive =
        Passes-value_or is_number_unsigned (λ i. to_unsigned 32 (get_integer i)) (λ n. not (n == 0))
          16 (find "size" j) refl sized.1 in
      let picks =
        Passes-value_or is_number_unsigned (λ i. to_unsigned 32 (get_integer i)) (λ n. not (n == 0))
          1 (find "pick" j) refl picked.1 in
      (
        set_filter D J _ j,
        rw real refl,
        (
          record {
            real = real_filter _ real;
            window = IsWindow-nil _ (size_positive _ positive);
            waits = size_positive _ positive;
          },
          size_positive _ picks,
        ),
      )

  real_calculation : (t : CalculationType) → is_calculation t ≡ true → t ≢ CalculationType.invalid
  real_calculation t h = ground arith

  new_size : (t : CalculationType) → (n : ℕ) × ((new_calculation D t).size ≡ suc n)
  new_size CalculationType.invalid = (7, refl)
  new_size CalculationType.pass_through = (0, refl)
  new_size CalculationType.arithmetic_mean = (7, refl)

  size_or_new : (n : ℕ) (m : ℕ) → n ≡ suc m → 0 < (if n == 0 then 8 else n)
  size_or_new n m h = ground arith

  -- The size of an accepted calculation is positive, whether it is given or not.
  sized_calculation :
      (t : CalculationType) (found : Option Json)
      → Passes false (an_unsigned D J (λ n. not (ltb n 2))) found
      → 0
        < value_or
            (λ i. to_unsigned 32 (get_integer i))
            (let c = new_calculation D t in if c.size == 0 then 8 else c.size)
            found
  sized_calculation t none h = let (m, e) = new_size t in size_or_new (new_calculation D t).size m e
  sized_calculation t (some i) h = ground arith

  -- A size of at least 2, except for the default of a PassThrough.
  abbrev pub IsSized : Calculation Double → Type 0
  IsSized c = (2 ≤ c.size) ⊎ (c.type_ ≡ CalculationType.pass_through)

  least_size :
      (t : CalculationType) (found : Option Json)
      → is_calculation t ≡ true
      → Passes false (an_unsigned D J (λ n. not (ltb n 2))) found
      → (2
          ≤ value_or
              (λ i. to_unsigned 32 (get_integer i))
              (let c = new_calculation D t in if c.size == 0 then 8 else c.size)
              found)
        ⊎ (t ≡ CalculationType.pass_through)
  least_size t (some i) r h = inl (ground arith)
  least_size CalculationType.invalid none r h = absurd (cc)
  least_size CalculationType.pass_through none r h = inr refl
  least_size CalculationType.arithmetic_mean none r h = inl (omega arith)

  -- An accepted calculation is made, with an empty window of a positive size.
  make_calculation-HasWindow :
      (j : Json)
      → Accepts (validate_calculation D J) j
      → (c : Calculation Double) × (make_calculation D J j ≡ some c) × (HasWindow D c × IsSized c)
  unfolding validate_calculation make_calculation
  make_calculation-HasWindow j (e, h) =
      let compensated =
        check-valid _ _ _ (find "compensationValue" j) _ (object-valid D J _ _ j e h) in
      let sized = check-valid _ _ _ (find "size" j) _ compensated.0 in
      let named = check-valid _ _ _ (find "type" j) _ sized.0 in
      let real =
        Passes-required is_string get_string (λ s. is_calculation (calculation_type_from_str s)) ""
          (find "type" j) named.1 in
      let type = calculation_type_from_str (value_or get_string "" (find "type" j)) in
      (
        set_calculation D J (new_calculation D type) j,
        rw real refl,
        (
          IsWindow-nil _ (sized_calculation _ (find "size" j) sized.1),
          least_size _ (find "size" j) real sized.1,
        ),
      )

module _ (D : Doubles) (J : JsonApi D) (N : NetworkApi) where
  open D use {Double}
  open J use {
    Json, find, items, get_string, get_integer, is_string, is_number_unsigned, is_number_integer,
  }

  pub set_filters-IsFilter :
      (found : Option Json)
      → AcceptsItems items (validate_filter D J) found
      → (fs : List Filter) × (set_filters D J N found ≡ some fs) × All IsUsable fs
  unfolding set_filters
  set_filters-IsFilter none h = ([], refl, tt)
  set_filters-IsFilter (some a) h =
      let (fs, e, good) =
        make_all-makes (λ (j : Json) (f : Filter). IsUsable f) (make_filter D J) (items a)
          (All-mono (items a) (λ j k. make_filter-IsFilter D J j k) h) in
      (fs, e, Each-All IsUsable (items a) fs good)

  pub find_calculation-HasWindow :
      (found : Option Json)
      → AcceptsNested (validate_calculation D J) found
      → (c : Calculation Double) × (find_calculation D J N found ≡ some c)
        × (HasWindow D c × IsSized D J c)
  unfolding find_calculation
  find_calculation-HasWindow none h = (_, refl, (IsWindow-nil 8 (omega arith), inl (omega arith)))
  find_calculation-HasWindow (some j) h = make_calculation-HasWindow D J j h
