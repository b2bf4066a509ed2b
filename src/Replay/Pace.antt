-- ===== src/Replay/Pace.antt =====
-- The pace of a replay has no part in what it decides.
use mathlib.Core.List.{append-nil}
use lob_market_maker.Prelude.{
  ℕ, suc, ◌+◌, ◌^◌, ◌<◌, ◌≡◌, refl, ap, ◌∙◌, false, Option, none, some, List, [], ◌∷◌, ◌++◌, length,
  arith, pos,
}
use lob_market_maker.Types.{Timestamp}
use lob_market_maker.Events.{MarketEvent}
use lob_market_maker.Double.{Double, Rng}
use lob_market_maker.Pipeline.{Pipeline, ClockReads}
use lob_market_maker.Pipeline.Run.{Call, event, run}
use lob_market_maker.Replay.{
  Replaying, pause, replay_event, replay_events, before_replay, summarize, replay,
}

-- The calls of `process` in order.
unfoldable pub calls_of : (ℕ → ClockReads) → ℕ → List MarketEvent → List Call
calls_of clocks i [] = []
calls_of clocks i (ev ∷ evs) = event (clocks i) ev ∷ calls_of clocks (suc i) evs

module _ {F : Type 0} ⦃d : Double F⦄ where
  open d use {of_int, lt}

  pause-max :
      (speed : F) (last : Option Timestamp) (ts : Timestamp)
      → lt (of_int (pos 0)) speed ≡ false
      → pause speed last ts ≡ []
  unfolding pause
  pause-max speed none ts h = refl
  pause-max speed (some last) ts h = rw h refl

module _ {F R : Type 0} ⦃d : Double F⦄ ⦃g : Rng F R⦄ where
  open d use {of_int, lt}

  pipeline-replay_events :
      (speed : F) (clocks : ℕ → ClockReads) (i : ℕ) (evs : List MarketEvent) (st : Replaying F R)
      → (replay_events speed clocks i evs st).pipeline ≡ run (calls_of clocks i evs) st.pipeline
  unfolding replay_events replay_event calls_of run
  pipeline-replay_events speed clocks i [] st = refl
  pipeline-replay_events speed clocks i (ev ∷ evs) st =
      pipeline-replay_events speed clocks (suc i) evs (replay_event speed (clocks i) ev st)

  count-replay_events :
      (speed : F) (clocks : ℕ → ClockReads) (i : ℕ) (evs : List MarketEvent) (st : Replaying F R)
      → st.events_replayed + length evs < 2 ^ 64
      → (replay_events speed clocks i evs st).events_replayed ≡ st.events_replayed + length evs
  unfolding replay_events replay_event
  count-replay_events speed clocks i [] st h = omega arith
  count-replay_events speed clocks i (ev ∷ evs) st h = omega (
    arith,
    count-replay_events speed clocks (suc i) evs (replay_event speed (clocks i) ev st)
        (omega arith),
  )

  slept-replay_events :
      (speed : F) (clocks : ℕ → ClockReads) (i : ℕ) (evs : List MarketEvent) (st : Replaying F R)
      → lt (of_int (pos 0)) speed ≡ false
      → (replay_events speed clocks i evs st).slept ≡ st.slept
  unfolding replay_events replay_event
  slept-replay_events speed clocks i [] st h = refl
  slept-replay_events speed clocks i (ev ∷ evs) st h =
      slept-replay_events speed clocks (suc i) evs (replay_event speed (clocks i) ev st) h
      ∙ ap (λ xs. st.slept ++ xs) (pause-max speed st.last_event_ts ev.timestamp h)
      ∙ append-nil st.slept

  -- A replay of fewer than 2 ^ 64 events makes exactly the calls of `process` for the events in their
  -- order, and counts them, whatever the speed and the readings of the clock around the loop; and if
  -- the speed is not above 0, it never sleeps.
  pub replay-run :
      (speed : F) (clocks : ℕ → ClockReads) (start end : Timestamp) (evs : List MarketEvent)
      (p : Pipeline F R)
      → length evs < 2 ^ 64
      → ((replay speed clocks start end evs p).0 ≡ run (calls_of clocks 0 evs) p)
        × ((replay speed clocks start end evs p).1.events_replayed ≡ length evs)
        × (lt (of_int (pos 0)) speed ≡ false
            → (replay_events speed clocks 0 evs (before_replay p)).slept ≡ [])
  unfolding replay summarize
  replay-run speed clocks start end evs p small = (
    pipeline-replay_events speed clocks 0 evs (before_replay p),
    omega (arith, count-replay_events speed clocks 0 evs (before_replay p) (omega (arith, small))),
    slept-replay_events speed clocks 0 evs (before_replay p),
  )
