-- ===== src/MarketEngine.antt =====
-- src/apps/market_engine.cpp: the command line, the configuration and the choice of the mode. Live is
-- the live run itself. What the program prints is left out, also the JSON report.
pub mod Words
pub mod Start
pub mod Limits
use lob_market_maker.Prelude.{
  ℕ, Bool, true, false, ◌||◌, ◌&&◌, Option, none, some, List, [], ◌∷◌, ◌==◌, ℤ, pos, if◌then◌else◌,
}
use lob_market_maker.Types.{Timestamp, symbol_of, same_text}
use lob_market_maker.Events.{MarketEvent}
use lob_market_maker.Double.{Double, Rng}
use lob_market_maker.Risk.{RiskLimits, default_limits}
use lob_market_maker.Strategy.{StrategyConfig, default_config}
use lob_market_maker.Execution.{FillAssumptions}
use lob_market_maker.Pipeline
use lob_market_maker.Pipeline.{Pipeline, PipelineConfig, ClockReads}
use lob_market_maker.CliArgs
use lob_market_maker.CliArgs.{Text, CliArgs, get_or, get_number_or}
use lob_market_maker.Codec.{read_file}
use lob_market_maker.Replay.{ReplaySummary, replay}
use lob_market_maker.MarketEngine.Words.{
  max_word, mode_key, replay_word, live_word, symbol_key, aapl, config_key, data_key, speed_key,
  profile_stages_key, duration_key, spread_key, api_key_key, set_via, local_config, example_config,
  risk_key, strategy_key, key_max_position, key_max_order_size, key_max_notional,
  key_max_daily_loss, key_max_open_orders, key_base_half_spread_bps, key_quote_size,
  key_inventory_skew_bps_per_unit, key_max_inventory_for_skew, key_requote_threshold_bps,
  key_volatility_spread_multiplier,
}
use lob_market_maker.Live.{Live, Happening, started, run_live}

-- Exceptions that nothing catches are `none`.
infixl 5 ◌>>=◌
abbrev pub ◌>>=◌ : {A B : Type 0} → Option A → (A → Option B) → Option B
◌>>=◌ none f = none
◌>>=◌ (some a) f = f a

-- `nlohmann::json`, as the configuration uses it; a conversion gives nothing where it throws.
pub record ConfigLibrary (J F : Type 0) : Type 0 where
  pub read : List ℕ → Option J
  pub empty_object : J
  pub is_empty : J → Bool
  pub is_object : J → Bool
  pub find : J → Text → Option J
  pub as_quantity : J → Option ℤ
  pub as_double : J → Option F
  pub as_size : J → Option ℕ
  pub as_string : J → Option Text

-- What the program asks of the system: files, the environment, and the conversions of strings.
pub record Environment (F : Type 0) : Type 0 where
  pub file : Text → Option (List ℕ)
  pub api_key_variable : Option Text
  pub stod : Text → Option F
  pub stol : Text → Option ℤ

abbrev pub ends_in_x : Text → Bool
ends_in_x [] = false
ends_in_x (c ∷ []) = c == 120 || c == 88
ends_in_x (c ∷ d ∷ text) = ends_in_x (d ∷ text)

abbrev pub without_last : Text → Text
without_last [] = []
without_last (c ∷ []) = []
without_last (c ∷ d ∷ text) = c ∷ without_last (d ∷ text)

-- `FillAssumptions{}`.
abbrev pub default_assumptions : {F : Type 0} → ⦃d : Double F⦄ → FillAssumptions F
default_assumptions ⦃d⦄ = record {
  partial_fill_probability = d.decimal (pos 3) 1;
  min_partial_fill_ratio = d.decimal (pos 2) 1;
  max_partial_fill_ratio = d.decimal (pos 9) 1;
  simulated_ack_latency = pos 50_000;
  rng_seed = 42;
}

-- `starts with`, as `rfind(prefix, 0) == 0` says.
abbrev pub starts_with : Text → Text → Bool
starts_with [] text = true
starts_with (c ∷ prefix) [] = false
starts_with (c ∷ prefix) (d ∷ text) = (c == d) && starts_with prefix text

abbrev pub is_empty_text : Text → Bool
is_empty_text [] = true
is_empty_text (c ∷ text) = false

-- How a run of the program ends: an exception that nothing catches, the exit code 1, or the exit code
-- 0 after a replay or a live run.
pub data Exit (F R : Type 0) : Type 0 where
  thrown : Exit F R
  without_data without_api_key unknown_mode : Exit F R
  replayed : ReplaySummary F → Pipeline F R → Exit F R
  ran_live : Live F R → Exit F R

abbrev pub or_thrown : {F R : Type 0} → Option (Exit F R) → Exit F R
or_thrown none = thrown
or_thrown (some e) = e

module _ {J F : Type 0} ⦃d : Double F⦄ (lib : ConfigLibrary J F) (env : Environment F) where
  open d use {of_int}

  -- The exceptions of `std::stod` are caught here.
  unfoldable pub parse_speed : Text → F
  parse_speed s =
      let trimmed = if ends_in_x s then without_last s else s in
      if same_text s max_word
      then of_int (pos 0)
      else elim (env.stod trimmed) [ some v ↦ v | none ↦ of_int (pos 1) ]

  unfoldable pub load_config : Text → Option J
  load_config path = elim (env.file path) [
    | none ↦ some lib.empty_object
    | some bytes ↦ lib.read bytes
  ]

  -- `if (j.contains(key)) field = j[key].get<A>();`
  abbrev pub setting : {A : Type 0} → J → Text → (J → Option A) → A → Option A
  setting j key convert field = elim (lib.find j key) [ none ↦ some field | some v ↦ convert v ]

  unfoldable pub risk_limits_of : J → RiskLimits F → Option (RiskLimits F)
  risk_limits_of r limits = do
    max_position ← setting r key_max_position lib.as_quantity limits.max_position
    max_order_size ← setting r key_max_order_size lib.as_quantity limits.max_order_size
    max_notional ← setting r key_max_notional lib.as_double limits.max_notional
    max_daily_loss ← setting r key_max_daily_loss lib.as_double limits.max_daily_loss
    max_open_orders ← setting r key_max_open_orders lib.as_size limits.max_open_orders
    some record {
      max_position = max_position;
      max_order_size = max_order_size;
      max_notional = max_notional;
      max_daily_loss = max_daily_loss;
      max_open_orders = max_open_orders;
    }

  unfoldable pub strategy_of : J → StrategyConfig F → Option (StrategyConfig F)
  strategy_of s cfg = do
    base ← setting s key_base_half_spread_bps lib.as_double cfg.base_half_spread_bps
    size ← setting s key_quote_size lib.as_quantity cfg.quote_size
    skew ← setting s key_inventory_skew_bps_per_unit lib.as_double cfg.inventory_skew_bps_per_unit
    most ← setting s key_max_inventory_for_skew lib.as_quantity cfg.max_inventory_for_skew
    threshold ← setting s key_requote_threshold_bps lib.as_double cfg.requote_threshold_bps
    volatility ←
        setting s key_volatility_spread_multiplier lib.as_double cfg.volatility_spread_multiplier
    some (record cfg {
      base_half_spread_bps = base;
      quote_size = size;
      inventory_skew_bps_per_unit = skew;
      max_inventory_for_skew = most;
      requote_threshold_bps = threshold;
      volatility_spread_multiplier = volatility;
    })

  unfoldable pub build_pipeline_config : J → Option (PipelineConfig F)
  unfolding risk_limits_of strategy_of
  build_pipeline_config cfg = do
    risk_limits ← elim (lib.find cfg risk_key) [
      | none ↦ some default_limits
      | some r ↦ risk_limits_of r default_limits
    ]
    strategy ← elim (lib.find cfg strategy_key) [
      | none ↦ some default_config
      | some s ↦ strategy_of s default_config
    ]
    some record {
      risk_limits = risk_limits;
      strategy = strategy;
      fill_assumptions = default_assumptions;
      profile_stages = false;
    }

  unfoldable pub make_config : CliArgs → J → Option (PipelineConfig F)
  unfolding build_pipeline_config
  make_config args cfg = do
    pcfg ← build_pipeline_config cfg
    some (record pcfg { profile_stages = CliArgs.has args profile_stages_key })

  -- The key in the configuration, or the one in the environment.
  unfoldable pub api_key_of : J → Option Text
  api_key_of cfg = do
    given ←
        if lib.is_object cfg
        then elim (lib.find cfg api_key_key) [ none ↦ some [] | some v ↦ lib.as_string v ]
        else none
    some (
        if is_empty_text given || starts_with set_via given
        then elim env.api_key_variable [ none ↦ given | some v ↦ v ]
        else given)

-- `clocks` are the readings in the calls of the pipeline, `start` and `end` those around a replay, and
-- `happened` is what a live run meets.
module _ {J F R : Type 0} ⦃d : Double F⦄ ⦃g : Rng F R⦄ (lib : ConfigLibrary J F)
    (env : Environment F) (clocks : ℕ → ClockReads) (start end : Timestamp)
    (moved : MarketEvent → MarketEvent) (fresh : MarketEvent) (happened : List Happening) where
  unfoldable pub run_replay : CliArgs → J → Text → Exit F R
  unfolding make_config parse_speed
  run_replay args cfg symbol =
      let path = get_or args data_key [] in
      let speed = parse_speed lib env (get_or args speed_key max_word) in
      if is_empty_text path
      then without_data
      else or_thrown (do
        bytes ← env.file path
        events ← read_file bytes
        pcfg ← make_config lib env args cfg
        (let (p, summary) =
              replay speed clocks start end events (Pipeline.create (symbol_of symbol) pcfg) in
            some (replayed summary p)))

  -- `run_live` after the test of the key. The duration and the spread only go to the clock and the
  -- client, but reading them may throw.
  unfoldable pub feed_live : CliArgs → J → Text → Option (Exit F R)
  unfolding make_config
  feed_live args cfg symbol = do
    duration_sec ← get_number_or env.stol args duration_key (pos 60)
    synthetic_spread ← get_number_or env.stod args spread_key (d.decimal (pos 2) 2)
    pcfg ← make_config lib env args cfg
    some (
        ran_live (
          run_live moved clocks happened (started (Pipeline.create (symbol_of symbol) pcfg) fresh)))

  -- In a build with the live feed.
  unfoldable pub run_live_mode : CliArgs → J → Text → Exit F R
  unfolding feed_live api_key_of
  run_live_mode args cfg symbol = or_thrown (do
    api_key ← api_key_of lib env cfg
    (if is_empty_text api_key then some without_api_key else feed_live args cfg symbol))

  unfoldable pub dispatch : CliArgs → J → Exit F R
  unfolding run_replay run_live_mode
  dispatch args cfg =
      let mode = get_or args mode_key replay_word in
      let symbol = get_or args symbol_key aapl in
      if same_text mode replay_word
      then run_replay args cfg symbol
      else (if same_text mode live_word then run_live_mode args cfg symbol else unknown_mode)

  -- The arguments are those after the program's name.
  unfoldable pub main : List Text → Exit F R
  unfolding load_config dispatch
  main argv =
      let args = CliArgs.parse argv [] in
      or_thrown (do
        cfg ← load_config lib env (get_or args config_key local_config)
        chosen ← if lib.is_empty cfg then load_config lib env example_config else some cfg
        some (dispatch args chosen))
