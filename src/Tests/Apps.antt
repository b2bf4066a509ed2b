-- ===== src/Tests/Apps.antt =====
-- The command line, a replay and a live run, at small inputs.
use lob_market_maker.Prelude.{ℕ, ◌≡◌, refl, none, some, false, List, [], ◌∷◌, ℤ, pos, All, arith}
use lob_market_maker.Events.{MarketEvent}
use lob_market_maker.CliArgs.{parse, get, lookup, split_at_eq, set_flag}
use lob_market_maker.CliArgs.Render.{
  Setting, joined, spaced, flag, render, last_value, IsWritable, get-parse,
}
use lob_market_maker.Replay.{replay, replay_events, before_replay}
use lob_market_maker.Replay.Pace.{calls_of, replay-run}
use lob_market_maker.Pipeline
use lob_market_maker.Pipeline.{Pipeline, ClockReads}
use lob_market_maker.Pipeline.Run.{run, LimitHolds}
use lob_market_maker.Live.{Happening, arrives, turn_of_loop, started, run_live}
use lob_market_maker.Live.Arrivals.{arrivals}
use lob_market_maker.Live.Outcome.{Outcome, run_live-Outcome, run_live-Within}
use lob_market_maker.Tests.Fixed.{fixed_double, fixed_rng, fixed-ExactInts}
use lob_market_maker.Tests.Inputs.{abc, print, withdrawal}
use lob_market_maker.Tests.Trading.{config}

-- --a=1 --b 2 --c --a=3
abbrev settings : List Setting
settings =
    joined (97 ∷ []) (49 ∷ [])
    ∷ spaced (98 ∷ []) (50 ∷ [])
    ∷ flag (99 ∷ [])
    ∷ joined (97 ∷ []) (51 ∷ [])
    ∷ []

parse_runs :
    (get (parse (render settings) []) (97 ∷ []) ≡ some (51 ∷ []))
    × (get (parse (render settings) []) (99 ∷ []) ≡ some set_flag)
    × (get (parse (render settings) []) (100 ∷ []) ≡ none)
unfolding parse render get lookup
parse_runs = (refl, refl, refl)

settings-IsWritable : All IsWritable settings
unfolding split_at_eq
settings-IsWritable = (refl, ((refl, refl), (refl, (refl, tt))))

get-parse_example : get (parse (render settings) []) (97 ∷ []) ≡ last_value (97 ∷ []) settings
get-parse_example = get-parse settings (97 ∷ []) settings-IsWritable

abbrev no_time : ClockReads
no_time = record { t0 = pos 0; t1 = pos 0; t2 = pos 0; requote_start = pos 0; requote_end = pos 0 }

abbrev clocks : ℕ → ClockReads
clocks n = no_time

abbrev tape : List MarketEvent
tape = print ∷ withdrawal ∷ []

abbrev fresh_pipeline : Pipeline ℤ ℕ
fresh_pipeline = Pipeline.create abc config

replay-run_example :
    ((replay (pos 1_000_000) clocks (pos 0) (pos 5) tape fresh_pipeline).0
      ≡ run (calls_of clocks 0 tape) fresh_pipeline)
    × ((replay (pos 1_000_000) clocks (pos 0) (pos 5) tape fresh_pipeline).1.events_replayed ≡ 2)
    × (fixed_double.lt (fixed_double.of_int (pos 0)) (pos 1_000_000) ≡ false
        → (replay_events (pos 1_000_000) clocks 0 tape (before_replay fresh_pipeline)).slept ≡ [])
replay-run_example =
    replay-run (pos 1_000_000) clocks (pos 0) (pos 5) tape fresh_pipeline (omega arith)

abbrev evening : List Happening
evening =
    arrives print
    ∷ turn_of_loop (pos 8)
    ∷ turn_of_loop (pos 9)
    ∷ arrives withdrawal
    ∷ arrives print
    ∷ []

abbrev same_event : MarketEvent → MarketEvent
same_event ev = ev

run_live-Outcome_example :
    Outcome evening fresh_pipeline
      (run_live same_event clocks evening (started fresh_pipeline print))
unfolding arrivals
run_live-Outcome_example =
    run_live-Outcome same_event clocks evening fresh_pipeline print (omega arith)

run_live-Within_example :
    LimitHolds
      (pos 1000)
      (run_live same_event clocks evening
        (started (Pipeline.create {F = ℤ} {R = ℕ} abc config) print)).pipeline
run_live-Within_example =
    run_live-Within same_event clocks fixed-ExactInts abc config evening print (omega arith)
      (omega arith) (omega arith)
