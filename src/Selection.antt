-- ===== src/Selection.antt =====
-- Which servers adjust a clock: include/flashptp/selection and src/flashptp/selection. The servers are a
-- list, and a pointer to one is its index in it; `setState` writes into the list.
pub mod Best
pub mod Order
pub mod Chimers
pub mod Left
pub mod Ready
use flashptpd.Prelude.{
  ℕ, zero, suc, ◌+◌, ◌-◌, ◌/◌, Bool, true, false, not, ◌&&◌, ◌||◌, ◌==◌, ltb, leb, if◌then◌else◌,
  List, [], ◌∷◌, ◌++◌, Option, none, some, length, get_elem?, set, erase_idx, map,
}
use flashptpd.Prelude.Int.{ℤ, pos, negsuc, ◌+ℤ◌, ◌-ℤ◌, ltb_ℤ, eqb_ℤ, quot, abs, max_ℤ, min_ℤ}
use flashptpd.Prelude.Doubles.{Doubles}
use flashptpd.Wire.Tlv.{ServerStateDs}
use flashptpd.Client.Sequence.{TimestampLevel}
use flashptpd.Window.{level_number}
use flashptpd.Calculation.{Calculation, min_offset, max_offset, offset, has_adjustment}
use flashptpd.Client.Server.{Server, ServerState, state_number}

-- The configured values.
pub record Selection : Type 0 where
  pub pick : ℕ
  pub delay_threshold : ℕ
  pub intersection_padding : ℕ
  pub max_offset_difference : ℕ

abbrev pub clock_realtime : ℤ
clock_realtime = pos 0

unfoldable pub is_member : ℕ → List ℕ → Bool
is_member i [] = false
is_member i (j ∷ js) = if i == j then true else is_member i js

-- `BTCA::compare`; of what `memcmp` returns only the sign is kept, and a clock identity, read in network
-- order, compares as its bytes do.
unfoldable pub compare : ServerStateDs → ServerStateDs → ℤ
compare a b =
    if not (a.gm_priority1 == b.gm_priority1)
    then pos a.gm_priority1 -ℤ pos b.gm_priority1
    else if not (a.gm_clock_class == b.gm_clock_class)
    then pos a.gm_clock_class -ℤ pos b.gm_clock_class
    else if not (a.gm_clock_accuracy == b.gm_clock_accuracy)
    then pos a.gm_clock_accuracy -ℤ pos b.gm_clock_accuracy
    else if not (a.gm_clock_variance == b.gm_clock_variance)
    then pos a.gm_clock_variance -ℤ pos b.gm_clock_variance
    else if not (a.gm_priority2 == b.gm_priority2)
    then pos a.gm_priority2 -ℤ pos b.gm_priority2
    else if not (a.gm_clock_id == b.gm_clock_id)
    then if ltb a.gm_clock_id b.gm_clock_id then negsuc 0 else pos 1
    else pos a.steps_removed -ℤ pos b.steps_removed

-- `j == p.size()`, or a better value.
unfoldable pub improve : {K : Type 0} → (K → K → Bool) → ℕ → K → Option (ℕ × K) → Option (ℕ × K)
improve better i k none = some (i, k)
improve better i k (some b) = if better k b.1 then some (i, k) else some b

-- The loop over `i` in both `select`: `best` is the index `j` with its value, `none` while
-- `j == p.size()`; `key` is `none` for a server that is passed over.
unfoldable pub find_best :
    {K : Type 0}
    → (ℕ → Option K)
    → (K → K → Bool)
    → List ℕ
    → Option (ℕ × K)
    → List ℕ
    → Option (ℕ × K)
find_best key better r best [] = best
find_best key better r best (i ∷ p) =
    find_best key better r
      (elim (key i) [
        | none ↦ best
        | some k ↦ if is_member i r then best else improve better i k best
      ])
      p

-- `while (r.size() < _pick)`, with that many rounds left.
unfoldable pub pick_best :
    {K : Type 0} → (ℕ → Option K) → (K → K → Bool) → ℕ → List ℕ → List ℕ → List ℕ
pick_best key better zero p r = r
pick_best key better (suc n) p r = elim (find_best key better r none p) [
  | none ↦ r
  | some b ↦ pick_best key better n p (r ++ b.0 ∷ [])
]

-- `csd < bsd`, and `compare(bsds, cds) > 0`
abbrev pub better_dev : ℤ → ℤ → Bool
better_dev c b = ltb_ℤ c b

unfoldable pub better_ds : ServerStateDs → ServerStateDs → Bool
better_ds c b = ltb_ℤ (pos 0) (compare b c)

-- `IntersectionGroup`
pub record Group : Type 0 where
  pub servers : List ℕ
  pub padsize : ℤ
  pub max_difference : ℤ
  pub cumulated_min : ℤ
  pub cumulated_max : ℤ
  pub cumulated_offset : ℤ
  pub min : ℤ
  pub max : ℤ
  pub offset : ℤ

abbrev pub abs_ℤ : ℤ → ℤ
abs_ℤ a = pos (abs a)

unfoldable pub contains : ℤ → ℤ → ℤ → Group → Bool
contains min max offs g =
    if ltb_ℤ (pos 0) g.max_difference && ltb_ℤ g.max_difference (abs_ℤ (g.offset -ℤ offs))
    then false
    else ltb_ℤ min g.max && ltb_ℤ g.min max

unfoldable pub pad : Group → Group
pad g =
    if not (ltb_ℤ (abs_ℤ (g.max -ℤ g.min)) g.padsize)
    then g
    else (let mean = quot (g.max +ℤ g.min) 2 in
        record g { min = mean -ℤ quot g.padsize 2; max = mean +ℤ quot g.padsize 2 })

-- `addServer` for the server `i` with the given offset, `min` and `max`. For INT64_MIN and INT64_MAX the
-- source asks the calculation, whose values all callers pass.
unfoldable pub add_server : ℕ → ℤ → ℤ → ℤ → Group → Group
add_server i offs min max g =
    let n = length g.servers + 1 in
    pad (record g {
      servers = g.servers ++ i ∷ [];
      cumulated_min = g.cumulated_min +ℤ min;
      cumulated_max = g.cumulated_max +ℤ max;
      cumulated_offset = g.cumulated_offset +ℤ offs;
      min = quot (g.cumulated_min +ℤ min) n;
      max = quot (g.cumulated_max +ℤ max) n;
      offset = quot (g.cumulated_offset +ℤ offs) n;
    })

-- The constructor; the sums start at 0.
unfoldable pub new_group : ℕ → ℤ → ℤ → ℤ → ℤ → ℤ → Group
new_group i padsize difference offs min max = add_server i offs min max (record {
  servers = [];
  padsize = padsize;
  max_difference = difference;
  cumulated_min = pos 0;
  cumulated_max = pos 0;
  cumulated_offset = pos 0;
  min = pos 0;
  max = pos 0;
  offset = pos 0;
})

-- The loop over `j`: every group that contains the server takes it in; the test says whether one did.
unfoldable pub join_groups : ℕ → ℤ → ℤ → ℤ → List Group → List Group × Bool
join_groups i offs min max [] = ([], false)
join_groups i offs min max (g ∷ gs) =
    let rest = join_groups i offs min max gs in
    if contains min max offs g
    then (add_server i offs min max g ∷ rest.0, true)
    else (g ∷ rest.0, rest.1)

-- The groups of the largest size, in order.
unfoldable pub largest : ℕ → List Group → List Group → List Group
largest n best [] = best
largest n best (g ∷ gs) =
    if ltb n (length g.servers)
    then largest (length g.servers) (g ∷ []) gs
    else if length g.servers == n
    then largest n (best ++ g ∷ []) gs
    else largest n best gs

-- The loops that drop groups, with `bestGroups.size() - i` rounds left; `min` is never changed.
unfoldable pub narrow : (Group → ℤ) → ℤ → ℤ → ℕ → ℕ → ℕ → List Group → List Group
narrow metric padding min zero i j best = best
narrow metric padding min (suc k) i j best = elim (get_elem? best i) [
  | none ↦ best
  | some g ↦ elim (ltb_ℤ padding (abs_ℤ (metric g -ℤ min))) [
    | false ↦ narrow metric padding min k (i + 1) j best
    | true ↦ elim (ltb_ℤ (metric g) min) [
      | true ↦ narrow metric padding min k i (i - 1) (erase_idx best j)
      | false ↦ narrow metric padding min k i j (erase_idx best i)
    ]
  ]
]

-- One criterion: groups that differ by more than the padding from the first are compared with it.
unfoldable pub narrow_by : (Group → ℤ) → ℤ → List Group → List Group
narrow_by metric padding [] = []
narrow_by metric padding (g ∷ gs) = narrow metric padding (metric g) (length gs) 1 0 (g ∷ gs)

module _ (D : Doubles) where
  open D use {Double}

  unfoldable pub set_state : ServerState → ℕ → List (Server Double) → List (Server Double)
  set_state state i servers = elim (get_elem? servers i) [
    | none ↦ servers
    | some srv ↦ set servers i (record srv { state = state })
  ]

  unfoldable pub set_states : ServerState → List ℕ → List (Server Double) → List (Server Double)
  set_states state [] servers = servers
  set_states state (i ∷ is) servers = set_states state is (set_state state i servers)

  -- `Server::clockID()`
  unfoldable pub clock_of : Server Double → ℤ
  clock_of srv =
      let level = level_number srv.calculation.timestamp_level in
      if level == 0 then negsuc 0 else if leb level 2 then clock_realtime else srv.clock_id

  -- `paddingSize` and `maxOffsDiff`
  unfoldable pub padding_of : Selection → ℤ → ℕ
  padding_of s clock =
      if s.intersection_padding == 0
      then if eqb_ℤ clock clock_realtime then 1000000 else 1000
      else s.intersection_padding

  unfoldable pub difference_of : Selection → ℤ → ℕ
  difference_of s clock =
      if s.max_offset_difference == 0
      then if eqb_ℤ clock clock_realtime then 500000 else 500
      else s.max_offset_difference

  -- The loop that finds the groups, over the indices that are left.
  unfoldable pub find_groups : List (Server Double) → ℤ → ℤ → List ℕ → List Group → List Group
  find_groups servers padding difference [] groups = groups
  find_groups servers padding difference (i ∷ is) groups = elim (get_elem? servers i) [
    | none ↦ find_groups servers padding difference is groups
    | some srv ↦
        let c = srv.calculation in
        let lo = min_offset c in
        let hi = max_offset c in
        let joined = join_groups i (offset c) lo hi groups in
        find_groups servers padding difference is (
          if joined.1
          then joined.0
          else joined.0 ++ new_group i padding difference (offset c) lo hi ∷ [])
  ]

  -- The three values by which groups are compared.
  abbrev pub interval : Group → ℤ
  interval g = g.max -ℤ g.min

  unfoldable pub sum_of : (Server Double → ℤ) → List (Server Double) → List ℕ → ℤ
  sum_of f servers [] = pos 0
  sum_of f servers (i ∷ is) = elim (get_elem? servers i) [
    | none ↦ sum_of f servers is
    | some srv ↦ f srv +ℤ sum_of f servers is
  ]

  unfoldable pub mean_over : (Server Double → ℤ) → List (Server Double) → Group → ℤ
  mean_over f servers g = quot (sum_of f servers g.servers) (length g.servers)

  -- The groups that are left after the three criteria; one that is left alone is not compared further,
  -- and `narrow_by` leaves it.
  unfoldable pub best_groups : List (Server Double) → ℤ → List Group → List Group
  best_groups servers padding groups =
      narrow_by (mean_over (λ srv. srv.calculation.delay_value) servers) padding (
        narrow_by (mean_over (λ srv. srv.std_dev) servers) padding
          (narrow_by interval padding (largest 0 [] groups)))

  unfoldable pub front_servers : List Group → List ℕ
  front_servers [] = []
  front_servers (g ∷ gs) = g.servers

  -- The truechimers among the servers `v`, before their states are set.
  unfoldable pub truechimers : Selection → ℤ → List (Server Double) → List ℕ → List ℕ
  truechimers s clock servers v =
      if leb (length v) 2
      then v
      else (let padding = pos (padding_of s clock) in
          front_servers (
            best_groups servers padding
              (find_groups servers padding (pos (difference_of s clock)) v [])))

  unfoldable pub others : List ℕ → List ℕ → List ℕ
  others chosen [] = []
  others chosen (i ∷ v) = if is_member i chosen then others chosen v else i ∷ others chosen v

  -- `detectTruechimers`
  unfoldable pub detect_truechimers :
      Selection → ℤ → List (Server Double) → List ℕ → List (Server Double) × List ℕ
  detect_truechimers s clock servers v =
      let chosen = truechimers s clock servers v in
      (
        set_states ServerState.candidate chosen
            (set_states ServerState.falseticker (others chosen v) servers),
        chosen,
      )

  -- The first loop of `preprocess` for one server: its state, and whether it goes on.
  unfoldable pub preselect : Selection → ℤ → Server Double → Server Double × Bool
  preselect s clock srv =
      if ltb (state_number srv.state) 4 || not (eqb_ℤ (clock_of srv) clock)
      then (srv, false)
      else if srv.no_select || ltb s.delay_threshold (abs srv.calculation.delay_value)
      then (record srv { state = ServerState.falseticker }, false)
      else (srv, true)

  unfoldable pub preselect_all :
      Selection → ℤ → ℕ → List (Server Double) → List (Server Double) × List ℕ
  preselect_all s clock i [] = ([], [])
  preselect_all s clock i (srv ∷ servers) =
      let one = preselect s clock srv in
      let rest = preselect_all s clock (i + 1) servers in
      (one.0 ∷ rest.0, if one.1 then i ∷ rest.1 else rest.1)

  unfoldable pub all_adjustable : List (Server Double) → List ℕ → Bool
  all_adjustable servers [] = true
  all_adjustable servers (i ∷ is) = elim (get_elem? servers i) [
    | none ↦ all_adjustable servers is
    | some srv ↦ has_adjustment srv.calculation && all_adjustable servers is
  ]

  -- `preprocess`
  unfoldable pub preprocess : Selection → ℤ → List (Server Double) → List (Server Double) × List ℕ
  preprocess s clock servers =
      let pre = preselect_all s clock 0 servers in
      if all_adjustable pre.0 pre.1
      then detect_truechimers s clock (set_states ServerState.ready pre.1 pre.0) pre.1
      else (pre.0, [])

  -- What `StdDev::select` and `BTCA::select` look at.
  unfoldable pub dev_of : List (Server Double) → ℕ → Option ℤ
  dev_of servers i = elim (get_elem? servers i) [
    | none ↦ none
    | some srv ↦ if eqb_ℤ srv.std_dev max_ℤ then none else some srv.std_dev
  ]

  unfoldable pub ds_of : List (Server Double) → ℕ → Option ServerStateDs
  ds_of servers i = elim (get_elem? servers i) [
    | none ↦ none
    | some srv ↦ if srv.server_state_ds_valid then some srv.server_state_ds else none
  ]

  -- `StdDev::select`
  unfoldable pub select_std_dev :
      Selection → ℤ → List (Server Double) → List (Server Double) × List ℕ
  select_std_dev s clock servers =
      let pre = preprocess s clock servers in
      let r = pick_best (dev_of pre.0) better_dev s.pick pre.1 [] in
      (set_states ServerState.selected r pre.0, r)

  -- `BTCA::select`
  unfoldable pub select_btca : Selection → ℤ → List (Server Double) → List (Server Double) × List ℕ
  select_btca s clock servers =
      let pre = preprocess s clock servers in
      let r = pick_best (ds_of pre.0) better_ds s.pick pre.1 [] in
      (set_states ServerState.selected r pre.0, r)
