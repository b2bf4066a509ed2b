-- ===== src/MarketEngine/Start.antt =====
-- The program from its command line to the pipeline that a replay leaves.
use lob_market_maker.Prelude.{
  ℕ, ◌^◌, ◌<◌, ◌≡◌, refl, ap, ◌∙◌, false, none, some, List, [], length, is_some, All,
}
use lob_market_maker.Types.{Timestamp, symbol_of}
use lob_market_maker.Events.{MarketEvent}
use lob_market_maker.Double.{Double, Rng}
use lob_market_maker.Pipeline
use lob_market_maker.Pipeline.{PipelineConfig, ClockReads}
use lob_market_maker.Pipeline.Run.{run}
use lob_market_maker.CliArgs.{Text, CliArgs, get_or, parse}
use lob_market_maker.CliArgs.Render.{Setting, render, last_value, IsWritable, get-parse}
use lob_market_maker.Codec.{write_file}
use lob_market_maker.Codec.Roundtrip.{IsLoggable}
use lob_market_maker.Codec.Files.{read_file-write_file}
use lob_market_maker.Replay.{ReplaySummary, replay}
use lob_market_maker.Replay.Pace.{calls_of, replay-run}
use lob_market_maker.Live.{Happening}
use lob_market_maker.MarketEngine.Words.{
  max_word, mode_key, replay_word, symbol_key, aapl, config_key, local_config, data_key, speed_key,
  profile_stages_key,
}
use lob_market_maker.MarketEngine.{
  ConfigLibrary, Environment, Exit, replayed, is_empty_text, parse_speed, load_config,
  build_pipeline_config, make_config, run_replay, dispatch, main,
}

-- The value of the last setting with a key, or a default.
abbrev pub chosen : Text → Text → List Setting → Text
chosen key default_value xs = elim (last_value key xs) [ none ↦ default_value | some v ↦ v ]

get_or-parse :
    (xs : List Setting) (key default_value : Text)
    → All IsWritable xs
    → get_or (parse (render xs) []) key default_value ≡ chosen key default_value xs
unfolding get_or
get_or-parse xs key default_value h = rw (get-parse xs key h, get_or) refl

-- The configuration with what the command line adds.
abbrev pub with_profile : {F : Type 0} → PipelineConfig F → List Setting → PipelineConfig F
with_profile pcfg xs = record pcfg { profile_stages = is_some (last_value profile_stages_key xs) }

module _ {J F : Type 0} ⦃d : Double F⦄ (lib : ConfigLibrary J F) (env : Environment F) where
  make_config-parse :
      (xs : List Setting) (cfg : J) (pcfg : PipelineConfig F)
      → All IsWritable xs
      → build_pipeline_config lib env cfg ≡ some pcfg
      → make_config lib env (parse (render xs) []) cfg ≡ some (with_profile pcfg xs)
  unfolding make_config
  make_config-parse xs cfg pcfg h built = rw (built, get-parse xs profile_stages_key h) refl

module _ {J F R : Type 0} ⦃d : Double F⦄ ⦃g : Rng F R⦄ (lib : ConfigLibrary J F)
    (env : Environment F) (clocks : ℕ → ClockReads) (start end : Timestamp)
    (moved : MarketEvent → MarketEvent) (fresh : MarketEvent) (happened : List Happening) where
  run_replay-replayed :
      (args : CliArgs) (cfg : J) (symbol : Text) (evs : List MarketEvent) (pcfg : PipelineConfig F)
      → is_empty_text (get_or args data_key []) ≡ false
      → env.file (get_or args data_key []) ≡ some (write_file evs)
      → All IsLoggable evs
      → make_config lib env args cfg ≡ some pcfg
      → length evs < 2 ^ 64
      → (summary : ReplaySummary F) × (run_replay {R = R} lib env clocks start end moved fresh
            happened args cfg symbol
          ≡ replayed summary
              (run (calls_of clocks 0 evs) (Pipeline.create (symbol_of symbol) pcfg)))
        × (summary.events_replayed ≡ length evs)
  unfolding run_replay
  run_replay-replayed args cfg symbol evs pcfg named stored loggable built small =
      let speed = parse_speed lib env (get_or args speed_key max_word) in
      let p = Pipeline.create {F = F} {R = R} (symbol_of symbol) pcfg in
      let same = replay-run speed clocks start end evs p small in
      (
        (replay speed clocks start end evs p).1,
        rw (named, stored, read_file-write_file evs loggable, built)
            (ap (replayed (replay speed clocks start end evs p).1) same.0),
        same.1,
      )

  dispatch-replay :
      (args : CliArgs) (cfg : J)
      → get_or args mode_key replay_word ≡ replay_word
      → dispatch {R = R} lib env clocks start end moved fresh happened args cfg
        ≡ run_replay lib env clocks start end moved fresh happened args cfg
            (get_or args symbol_key aapl)
  unfolding dispatch
  dispatch-replay args cfg mode = rw mode refl

  main-dispatch :
      (argv : List Text) (cfg : J)
      → load_config lib env (get_or (parse argv []) config_key local_config) ≡ some cfg
      → lib.is_empty cfg ≡ false
      → main {R = R} lib env clocks start end moved fresh happened argv
        ≡ dispatch lib env clocks start end moved fresh happened (parse argv []) cfg
  unfolding main
  main-dispatch argv cfg loaded filled = rw (loaded, filled) refl

  -- If the options say replay mode (or no mode), name an event log that was written for fewer than
  -- 2 ^ 64 events (with integers and types that fit and symbols made from some text), and a
  -- configuration that loads, is not empty and has readable values, the program ends with exit code 0,
  -- reports as many events as were written, and its pipeline is the one that the calls of `process`
  -- for these events leave, started with that configuration and symbol, whatever the speed.
  pub main-replayed :
      (xs : List Setting) (evs : List MarketEvent) (cfg : J) (pcfg : PipelineConfig F)
      → All IsWritable xs
      → chosen mode_key replay_word xs ≡ replay_word
      → is_empty_text (chosen data_key [] xs) ≡ false
      → env.file (chosen data_key [] xs) ≡ some (write_file evs)
      → All IsLoggable evs
      → length evs < 2 ^ 64
      → load_config lib env (chosen config_key local_config xs) ≡ some cfg
      → lib.is_empty cfg ≡ false
      → build_pipeline_config lib env cfg ≡ some pcfg
      → (summary : ReplaySummary F) × (main {R = R} lib env clocks start end moved fresh happened
            (render xs)
          ≡ replayed summary (
              run
                (calls_of clocks 0 evs)
                (Pipeline.create (symbol_of (chosen symbol_key aapl xs)) (with_profile pcfg xs))))
        × (summary.events_replayed ≡ length evs)
  main-replayed xs evs cfg pcfg writable mode named stored loggable small loaded filled built =
      let args = parse (render xs) [] in
      let read : (key default_value : Text)
          → get_or args key default_value ≡ chosen key default_value xs =
        λ key default_value. get_or-parse xs key default_value writable in
      let start_of =
        main-dispatch (render xs) cfg (rw (read config_key local_config) loaded) filled
        ∙ dispatch-replay args cfg (read mode_key replay_word ∙ mode) in
      let (summary, ran, counted) =
        run_replay-replayed args cfg (get_or args symbol_key aapl) evs (with_profile pcfg xs)
          (rw (read data_key []) named) (rw (read data_key []) stored) loggable
          (make_config-parse lib env xs cfg pcfg writable built) small in
      let ended : Text → Exit F R = λ symbol.
        replayed summary (
          run (calls_of clocks 0 evs)
            (Pipeline.create (symbol_of symbol) (with_profile pcfg xs))) in
      (summary, start_of ∙ ran ∙ ap ended (read symbol_key aapl), counted)
