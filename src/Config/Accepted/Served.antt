-- ===== src/Config/Accepted/Served.antt =====
-- What validation promises of a server that the client asks: `Server::validateConfig` and
-- `Server::setConfig` (src/flashptp/client/server.cpp).
use flashptpd.Prelude.{
  ℕ, sym, ◌+◌, ◌%◌, ◌^◌, ◌≤◌, ◌<◌, Bool, true, false, not, ◌&&◌, ◌≡◌, refl, List, Option, none,
  some, arith, if◌then◌else◌, All, All-mono, ltb,
}
use flashptpd.Prelude.Int.{ℤ, pos, negsuc, ◌≤ℤ◌, ltb_ℤ}
use flashptpd.Prelude.Doubles.{Doubles}
use flashptpd.Filter.{Filter}
use flashptpd.Calculation.{Calculation}
use flashptpd.Calculation.Keeps.{HasWindow}
use flashptpd.Client.Server.Filters.{IsFilter}
use flashptpd.Config.{
  JsonApi, value_or, an_unsigned, an_integer, a_string, a_port, to_unsigned, to_signed,
}
use flashptpd.Client.Sequence.{TimestampLevel, is_valid_level}
use flashptpd.Client.Server.{reset_state}
use flashptpd.Client.Server.Invariant.{IsServer}
use flashptpd.Client.Server.Messages.{reset_state-IsServer}
use flashptpd.Config.Names.{Version, is_version_2, version_from_str, level_from_short_str}
use flashptpd.Config.Peers.{
  Peer, NetworkApi, validate_server, set_server, set_parts, set_filters, find_calculation, peer_of,
  new_server,
}
use flashptpd.Config.{first_of}
use flashptpd.Config.Sound.{
  Passes, Accepts, AcceptsItems, AcceptsNested, check-valid, check_nested-valid, check_items-valid,
  object-valid, Passes-value_or,
}
use flashptpd.Config.Limits.{
  IsPort, accepted-IsPort, IsStateInterval, accepted-IsStateInterval, lowest, typed-both,
}
use flashptpd.Config.Parts.{validate_filter, validate_calculation}
use flashptpd.Config.Accepted.{IsSized, set_filters-IsFilter, find_calculation-HasWindow}

module _ (D : Doubles) (J : JsonApi D) (N : NetworkApi) where
  open D use {Double}
  open J use {
    Json, find, items, get_string, get_integer, is_string, is_number_unsigned, is_number_integer,
  }

  -- The configured server: its ports are the numbers that are given, not cut, or the defaults, its timing
  -- is within the limits, the version and the level are real ones, its filters pick something, its
  -- calculation is over at least two sequences (or a PassThrough of one), and once its thread has reset it, it
  -- keeps the invariant of all that follows. `garbage` is the lower limit of the state interval where no
  -- request interval is given.
  pub record IsPeer (garbage : ℤ) (j : Json) (p : Peer Double) : Type 0 where
    pub dst_event :
        IsPort D J (first_of (find "dstEventPort" j) (find "dstPort" j)) 319 p.dst_event_port
    pub dst_general :
        IsPort D J (find "dstGeneralPort" j) ((p.dst_event_port + 1) % 2 ^ 16) p.dst_general_port
    pub src_event :
        IsPort D J (first_of (find "srcEventPort" j) (find "srcPort" j)) 319 p.src_event_port
    pub src_general :
        IsPort D J (find "srcGeneralPort" j) ((p.src_event_port + 1) % 2 ^ 16) p.src_general_port
    pub interval_ge : negsuc 6 ≤ℤ p.interval
    pub interval_le : p.interval ≤ℤ pos 7
    pub state_interval_ :
        IsStateInterval D J
          (find "stateInterval" j)
          (lowest garbage (first_of (find "requestInterval" j) (find "interval" j)) p.interval)
          p.state_interval
    pub timeout_ge : 10 ≤ p.ms_timeout
    pub timeout_le : p.ms_timeout ≤ 10000
    pub version : is_version_2 p.ptp_version ≡ true
    pub level : is_valid_level p.timestamp_level ≡ true
    pub picks : All (λ f. 0 < f.pick) p.server.filters
    pub size : IsSized D J p.server.calculation
    pub server_ : IsServer D (reset_state D p.server)

  in_range : (lo hi z : ℤ) → not (ltb_ℤ z lo) && not (ltb_ℤ hi z) ≡ true → (lo ≤ℤ z) × (z ≤ℤ hi)
  in_range lo hi z h = ground arith

  in_limits : (n : ℕ) → not (ltb n 10) && not (ltb 10000 n) ≡ true → (10 ≤ n) × (n ≤ 10000)
  in_limits n h = ground arith

  -- The lower limit of the state interval as the validation finds it.
  abbrev read_interval : ℤ → Option Json → ℤ
  read_interval garbage none = garbage
  read_interval garbage (some i) =
      if is_number_integer i then to_signed 8 (get_integer i) else garbage

  abbrev requested : ℤ → Json → ℤ
  requested garbage j =
      read_interval garbage (first_of (find "requestInterval" j) (find "interval" j))

  requested-lowest :
      (garbage : ℤ) (found : Option Json)
      → Passes false (an_integer D J 8 (negsuc 6) (pos 7)) found
      → read_interval garbage found
        ≡ lowest garbage found (value_or (λ i. to_signed 8 (get_integer i)) (pos 0) found)
  requested-lowest garbage none h = refl
  requested-lowest garbage (some i) h = rw (typed-both (is_number_integer i) _ h).0 refl

  set_server-made :
      (j : Json) (fs : List Filter) (c : Calculation Double)
      → set_filters D J N (find "filters" j) ≡ some fs
      → find_calculation D J N (find "calculation" j) ≡ some c
      → set_server D J N j ≡ some (peer_of D J N j fs c)
  unfolding set_server set_parts
  set_server-made j fs c e k = cc (e, k)

  reset_new-IsServer :
      (no_select : Bool) (fs : List Filter) (c : Calculation Double)
      → All IsFilter fs
      → HasWindow D c
      → IsServer D (reset_state D (new_server D no_select fs c))
  reset_new-IsServer no_select fs c good fits = reset_state-IsServer D _ (record {
    reach16 = omega arith;
    errors = omega arith;
    filters_ = good;
    calculation_ = fits;
    history = refl;
    index = omega arith;
  })

  -- The tests that an accepted server has passed.
  record Passed (garbage : ℤ) (j : Json) : Type 0 where
    calculation : AcceptsNested (validate_calculation D J) (find "calculation" j)
    filters : AcceptsItems items (validate_filter D J) (find "filters" j)
    level :
        Passes false
          (a_string D J (λ s. is_valid_level (level_from_short_str s)))
          (find "timestampLevel" j)
    version :
        Passes false (a_string D J (λ s. is_version_2 (version_from_str s))) (find "ptpVersion" j)
    timeout :
        Passes false
          (an_unsigned D J (λ n. not (ltb n 10) && not (ltb 10000 n)))
          (find "msTimeout" j)
    state : Passes false (an_integer D J 8 (requested garbage j) (pos 7)) (find "stateInterval" j)
    interval :
        Passes false
          (an_integer D J 8 (negsuc 6) (pos 7))
          (first_of (find "requestInterval" j) (find "interval" j))
    src_general : Passes false (a_port D J) (find "srcGeneralPort" j)
    src_event : Passes false (a_port D J) (first_of (find "srcEventPort" j) (find "srcPort" j))
    dst_general : Passes false (a_port D J) (find "dstGeneralPort" j)
    dst_event : Passes false (a_port D J) (first_of (find "dstEventPort" j) (find "dstPort" j))

  validate_server-Passed :
      (garbage : ℤ) (j : Json) → Accepts (validate_server D J N garbage) j → Passed garbage j
  unfolding validate_server
  validate_server-Passed garbage j (e, h) =
      let calculated = check_nested-valid _ (find "calculation" j) _ (object-valid D J _ _ j e h) in
      let filtered = check_items-valid D J _ _ (find "filters" j) _ calculated.0 in
      let levelled = check-valid _ _ _ (find "timestampLevel" j) _ filtered.0 in
      let versioned = check-valid _ _ _ (find "ptpVersion" j) _ levelled.0 in
      let selected = check-valid _ _ _ (find "noSelect" j) _ versioned.0 in
      let timed = check-valid _ _ _ (find "msTimeout" j) _ selected.0 in
      let stated = check-valid _ _ _ (find "stateInterval" j) _ timed.0 in
      let paced =
        check-valid _ _ _ (first_of (find "requestInterval" j) (find "interval" j)) _ stated.0 in
      let synced = check-valid _ _ _ (find "syncTLV" j) _ paced.0 in
      let stepped = check-valid _ _ _ (find "oneStep" j) _ synced.0 in
      let from_general = check-valid _ _ _ (find "srcGeneralPort" j) _ stepped.0 in
      let from_event =
        check-valid _ _ _ (first_of (find "srcEventPort" j) (find "srcPort" j)) _ from_general.0 in
      let placed = check-valid _ _ _ (find "srcInterface" j) _ from_event.0 in
      let to_general = check-valid _ _ _ (find "dstGeneralPort" j) _ placed.0 in
      let to_event =
        check-valid _ _ _ (first_of (find "dstEventPort" j) (find "dstPort" j)) _ to_general.0 in
      record {
        calculation = calculated.1;
        filters = filtered.1;
        level = levelled.1;
        version = versioned.1;
        timeout = timed.1;
        state = stated.1;
        interval = paced.1;
        src_general = from_general.1;
        src_event = from_event.1;
        dst_general = to_general.1;
        dst_event = to_event.1;
      }

  -- An accepted server is made, and is one that works.
  pub set_server-IsPeer :
      (garbage : ℤ) (j : Json)
      → Accepts (validate_server D J N garbage) j
      → (p : Peer Double) × (set_server D J N j ≡ some p) × IsPeer garbage j p
  set_server-IsPeer garbage j ok =
      let passed = validate_server-Passed garbage j ok in
      let (fs, made, good) = set_filters-IsFilter D J N (find "filters" j) passed.filters in
      let (c, counted, fits) =
        find_calculation-HasWindow D J N (find "calculation" j) passed.calculation in
      let asked = first_of (find "requestInterval" j) (find "interval" j) in
      let interval = in_range (negsuc 6) (pos 7) _ (
        Passes-value_or is_number_integer (λ i. to_signed 8 (get_integer i))
          (λ z. not (ltb_ℤ z (negsuc 6)) && not (ltb_ℤ (pos 7) z)) (pos 0) asked refl
          passed.interval) in
      let timeout = in_limits _ (
        Passes-value_or is_number_unsigned (λ i. to_unsigned 32 (get_integer i))
          (λ n. not (ltb n 10) && not (ltb 10000 n)) 2000 (find "msTimeout" j) refl
          passed.timeout) in
      (
        peer_of D J N j fs c,
        set_server-made j fs c made counted,
        record {
          dst_event = accepted-IsPort D J 319 _ passed.dst_event;
          dst_general = accepted-IsPort D J _ (find "dstGeneralPort" j) passed.dst_general;
          src_event = accepted-IsPort D J 319 _ passed.src_event;
          src_general = accepted-IsPort D J _ (find "srcGeneralPort" j) passed.src_general;
          interval_ge = interval.0;
          interval_le = interval.1;
          state_interval_ =
              accepted-IsStateInterval D J _ (find "stateInterval" j)
                (rw (sym (requested-lowest garbage asked passed.interval)) passed.state);
          timeout_ge = timeout.0;
          timeout_le = timeout.1;
          version =
              Passes-value_or is_string (λ i. version_from_str (get_string i)) is_version_2
                Version.v2_1 (find "ptpVersion" j) refl passed.version;
          level =
              Passes-value_or is_string (λ i. level_from_short_str (get_string i)) is_valid_level
                TimestampLevel.hardware (find "timestampLevel" j) refl passed.level;
          picks = All-mono fs (λ f k. k.1) good;
          size = fits.1;
          server_ = reset_new-IsServer _ fs c (All-mono fs (λ f k. k.0) good) fits.0;
        },
      )
