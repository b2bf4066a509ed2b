-- ===== src/Replay.antt =====
-- src/replay/replay_engine.hpp: a replay of recorded events at some pace. What the run sleeps and the
-- readings of the clocks are visible in the model, so that theorems can speak of them.
pub mod Pace
use lob_market_maker.Prelude.{
  ℕ, suc, ◌+◌, Bool, true, false, ◌&&◌, Option, none, some, List, [], ◌∷◌, ◌++◌, ℤ, pos, ◌-ℤ◌,
  ltb_ℤ, inc, if◌then◌else◌,
}
use lob_market_maker.Types.{Timestamp}
use lob_market_maker.Events.{MarketEvent}
use lob_market_maker.Double.{Double, Rng}
use lob_market_maker.Pipeline.{Pipeline, ClockReads}
use lob_market_maker.Pipeline.Process.{process}

pub record ReplaySummary (F : Type 0) : Type 0 where
  pub events_replayed : ℕ
  pub wall_clock_duration : ℤ
  pub events_per_second : F

-- The local variables of `run`, the pipeline, and the durations slept so far.
pub record Replaying (F R : Type 0) : Type 0 where
  pub pipeline : Pipeline F R
  pub events_replayed : ℕ
  pub last_event_ts : Option Timestamp
  pub slept : List ℤ

module _ {F : Type 0} ⦃d : Double F⦄ where
  open d use {of_int, to_int, div, lt}

  -- What is slept before an event.
  unfoldable pub pause : F → Option Timestamp → Timestamp → List ℤ
  pause speed none ts = []
  pause speed (some last) ts =
      let delta = ts -ℤ last in
      if lt (of_int (pos 0)) speed && ltb_ℤ (pos 0) delta
      then to_int (div (of_int delta) speed) ∷ []
      else []

module _ {F R : Type 0} ⦃d : Double F⦄ ⦃g : Rng F R⦄ where
  open d use {of_int, div, lt}

  -- The body of the loop.
  unfoldable pub replay_event : F → ClockReads → MarketEvent → Replaying F R → Replaying F R
  unfolding pause
  replay_event speed c ev st = record {
    pipeline = process c ev st.pipeline;
    events_replayed = inc st.events_replayed;
    last_event_ts = some ev.timestamp;
    slept = st.slept ++ pause speed st.last_event_ts ev.timestamp;
  }

  -- The loop; `clocks i` are the readings in the call for event `i`.
  unfoldable pub replay_events :
      F → (ℕ → ClockReads) → ℕ → List MarketEvent → Replaying F R → Replaying F R
  unfolding replay_event
  replay_events speed clocks i [] st = st
  replay_events speed clocks i (ev ∷ evs) st =
      replay_events speed clocks (suc i) evs (replay_event speed (clocks i) ev st)

  abbrev pub before_replay : Pipeline F R → Replaying F R
  before_replay p = record { pipeline = p; events_replayed = 0; last_event_ts = none; slept = [] }

  -- The summary, for the readings of the clock before and after the loop.
  unfoldable pub summarize : Timestamp → Timestamp → Replaying F R → ReplaySummary F
  summarize start end st =
      let secs = div (of_int (end -ℤ start)) (of_int (pos 1_000_000_000)) in
      record {
        events_replayed = st.events_replayed;
        wall_clock_duration = end -ℤ start;
        events_per_second =
            if lt (of_int (pos 0)) secs
            then div (of_int (pos st.events_replayed)) secs
            else of_int (pos 0);
      }

  unfoldable pub replay :
      F
      → (ℕ → ClockReads)
      → Timestamp
      → Timestamp
      → List MarketEvent
      → Pipeline F R
      → Pipeline F R × ReplaySummary F
  unfolding replay_events summarize
  replay speed clocks start end evs p =
      let st = replay_events speed clocks 0 evs (before_replay p) in
      (st.pipeline, summarize start end st)
