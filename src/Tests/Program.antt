-- ===== src/Tests/Program.antt =====
-- The program on a command line that names a log of two events, with a small configuration.
use lob_market_maker.Prelude.{
  ℕ, ◌≡◌, refl, ap, ◌&&◌, ◌||◌, ◌+◌, ◌*◌, ◌^◌, ◌<◌, Bool-cases, inl, inr, false, none, some, List,
  [], ◌∷◌, ℤ, pos, length, ◌==◌, if◌then◌else◌, arith, All,
}
use lob_market_maker.Types.{symbol_of, same_text}
use lob_market_maker.Events.{MarketEvent}
use lob_market_maker.Risk.{default_limits}
use lob_market_maker.Strategy.{default_config}
use lob_market_maker.Codec.Files.{read_file-write_file}
use lob_market_maker.Codec.{write_file, read_file}
use lob_market_maker.Pipeline
use lob_market_maker.Pipeline.{PipelineConfig, ClockReads}
use lob_market_maker.Pipeline.Run.{run}
use lob_market_maker.CliArgs.{split_at_eq, parse}
use lob_market_maker.CliArgs.Render.{Setting, joined, spaced, render, last_value, IsWritable}
use lob_market_maker.Replay.{ReplaySummary}
use lob_market_maker.Replay.Pace.{calls_of}
use lob_market_maker.MarketEngine.Words.{
  data_key, speed_key, risk_key, key_max_position, local_config, aapl,
}
use lob_market_maker.MarketEngine.{
  ConfigLibrary, Environment, replayed, default_assumptions, build_pipeline_config, load_config,
  main, dispatch,
}
use lob_market_maker.MarketEngine.Start.{with_profile, main-replayed}
use lob_market_maker.MarketEngine.Limits.{KeepsLimit, dispatch-KeepsLimit}
use lob_market_maker.Tests.Fixed.{fixed_double, fixed_rng, fixed-ExactInts}
use lob_market_maker.Tests.Inputs.{print, withdrawal}
use lob_market_maker.Tests.Log.{print-IsLoggable, withdrawal-IsLoggable}

-- The configuration is 1, with 2 under "risk" and 3 under "max_position" of it.
abbrev toy_library : ConfigLibrary ℕ ℤ
toy_library = record {
  read = λ bytes. some 1;
  empty_object = 0;
  is_empty = λ v. v == 0;
  is_object = λ v. v == 1 || v == 2;
  find = λ v key.
      if (v == 1) && same_text key risk_key
      then some 2
      else (if (v == 2) && same_text key key_max_position then some 3 else none);
  as_quantity = λ v. some (pos 500);
  as_double = λ v. none;
  as_size = λ v. none;
  as_string = λ v. none;
}

abbrev log_name : List ℕ
log_name = 108 ∷ 111 ∷ 103 ∷ []

abbrev log : List MarketEvent
log = print ∷ withdrawal ∷ []

abbrev toy_environment : Environment ℤ
toy_environment = record {
  file = λ path.
      if same_text path log_name
      then some (write_file log)
      else (if same_text path local_config then some [] else none);
  api_key_variable = none;
  stod = λ text. some (pos 2_000_000);
  stol = λ text. none;
}

abbrev small_risk : PipelineConfig ℤ
small_risk = record {
  risk_limits = record default_limits { max_position = pos 500 };
  strategy = default_config;
  fill_assumptions = default_assumptions;
  profile_stages = false;
}

-- --data=log --speed 2x
abbrev options : List Setting
options = joined data_key log_name ∷ spaced speed_key (50 ∷ 120 ∷ []) ∷ []

options-IsWritable : All IsWritable options
unfolding split_at_eq
options-IsWritable = (refl, ((refl, refl), tt))

small_risk_built : build_pipeline_config toy_library toy_environment 1 ≡ some small_risk
unfolding build_pipeline_config default_limits default_config
small_risk_built = refl

abbrev no_clock : ℕ → ClockReads
no_clock n = record {
  t0 = pos 0;
  t1 = pos 0;
  t2 = pos 0;
  requote_start = pos 0;
  requote_end = pos 0;
}

main-replayed_example :
    (summary : ReplaySummary ℤ) × (main {R = ℕ} toy_library toy_environment no_clock
        (pos 0)
        (pos 5)
        (λ ev. ev)
        print
        []
        (render options)
      ≡ replayed summary (
          run
            (calls_of no_clock 0 log)
            (Pipeline.create (symbol_of aapl) (with_profile small_risk options))))
    × (summary.events_replayed ≡ length log)
unfolding last_value load_config
main-replayed_example =
    main-replayed toy_library toy_environment no_clock (pos 0) (pos 5) (λ ev. ev) print [] options
      log 1 small_risk options-IsWritable refl refl refl
      (print-IsLoggable, (withdrawal-IsLoggable, tt)) (omega arith) refl refl small_risk_built

readable_log :
    (path bytes : List ℕ) (evs : List MarketEvent)
    → toy_environment.file path ≡ some bytes
    → read_file bytes ≡ some evs
    → 2 * length evs + 1 < 2 ^ 64
unfolding read_file
readable_log path bytes evs stored readable = elim (Bool-cases (same_text path log_name)) [
  | inl e ↦
      let there : some (write_file log) ≡ some bytes = rw e at stored in
      let back : read_file (write_file log) ≡ some log =
        read_file-write_file log (print-IsLoggable, (withdrawal-IsLoggable, tt)) in
      let same : evs ≡ log = cc in omega (arith, ap length same)
  | inr e ↦ elim (Bool-cases (same_text path local_config)) [
    | inl e' ↦
        let there : some [] ≡ some bytes = rw (e, e') at stored in
        let nothing : read_file [] ≡ none = refl in absurd cc
    | inr e' ↦ let missing : none ≡ some bytes = rw (e, e') at stored in absurd cc
  ]
]

dispatch-KeepsLimit_example : KeepsLimit (pos 500) (
    dispatch {R = ℕ} toy_library toy_environment no_clock
      (pos 0)
      (pos 5)
      (λ ev. ev)
      print
      []
      (parse (render options) [])
      1)
dispatch-KeepsLimit_example =
    dispatch-KeepsLimit ℕ toy_library toy_environment no_clock (pos 0) (pos 5) (λ ev. ev) print []
      fixed-ExactInts 1 small_risk small_risk_built (omega arith) (omega arith)
      (parse (render options) []) readable_log (omega arith)
