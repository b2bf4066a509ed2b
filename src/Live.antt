-- ===== src/Live.antt =====
-- src/apps/market_engine.cpp: the live run. The feed pushes events into the ring buffer, and a loop
-- takes them out for the pipeline. Pushes and pops come in any order, each as one step; Ring/Threads
-- shows what the two threads do to the ring in between.
pub mod Arrivals
pub mod Feed
pub mod Outcome
use lob_market_maker.Prelude.{
  ℕ, zero, suc, ◌+◌, ◌^◌, Bool, true, false, Option, none, some, List, [], ◌∷◌, inc, if◌then◌else◌,
}
use lob_market_maker.Types.{Timestamp}
use lob_market_maker.Events.{MarketEvent}
use lob_market_maker.Double.{Double, Rng}
use lob_market_maker.Ring
use lob_market_maker.Ring.{SpscRingBuffer, push, pop}
use lob_market_maker.Pipeline.{Pipeline, ClockReads}
use lob_market_maker.Pipeline.Process.{process, on_clock}

-- `SpscRingBuffer<MarketEvent, 1 << 16>`.
abbrev pub ring_bits : ℕ
ring_bits = 16

-- `handled` counts the events taken out so far; it picks the clock readings of their calls.
pub record Live (F R : Type 0) : Type 0 where
  pub pipeline : Pipeline F R
  pub ring : SpscRingBuffer MarketEvent
  pub dropped : ℕ
  pub handled : ℕ

abbrev pub started : {F R : Type 0} → Pipeline F R → MarketEvent → Live F R
started p fresh = record { pipeline = p; ring = Ring.create fresh; dropped = 0; handled = 0 }

-- The feed passes on an event, or the loop asks the ring for one; the time is what `now_ns` gives if
-- there is none.
pub data Happening : Type 0 where
  arrives : MarketEvent → Happening
  turn_of_loop : Timestamp → Happening

module _ {F R : Type 0} ⦃d : Double F⦄ ⦃g : Rng F R⦄ (moved : MarketEvent → MarketEvent)
    (clocks : ℕ → ClockReads) where
  -- The callback of the client.
  unfoldable pub receive : MarketEvent → Live F R → Live F R
  receive ev st =
      let (ring, accepted) = push moved ring_bits st.ring ev in
      if accepted
      then record st { ring = ring }
      else record st { ring = ring; dropped = inc st.dropped }

  -- `pipeline.process(*ev)`, with the ring after the pop.
  abbrev pub handle : SpscRingBuffer MarketEvent → MarketEvent → Live F R → Live F R
  handle ring ev st = record st {
    ring = ring;
    pipeline = process (clocks st.handled) ev st.pipeline;
    handled = suc st.handled;
  }

  -- One pop of the loop: the event is processed, and without one the pipeline is passed the time.
  unfoldable pub turn : Timestamp → Live F R → Live F R
  turn now st =
      let (ring, popped) = pop moved ring_bits st.ring in
      elim popped [
        | none ↦ record st { ring = ring; pipeline = on_clock now st.pipeline }
        | some ev ↦ handle ring ev st
      ]

  -- The last `while (auto ev = ring.pop()) pipeline.process(*ev);`, for at most so many rounds.
  unfoldable pub drain : ℕ → Live F R → Live F R
  drain zero st = st
  drain (suc fuel) st =
      let (ring, popped) = pop moved ring_bits st.ring in
      elim popped [ none ↦ record st { ring = ring } | some ev ↦ drain fuel (handle ring ev st) ]

  -- As many rounds as the ring has elements are enough.
  abbrev pub drain_all : Live F R → Live F R
  drain_all st = drain (2 ^ ring_bits) st

  unfoldable pub happen : Happening → Live F R → Live F R
  unfolding receive turn
  happen (arrives ev) st = receive ev st
  happen (turn_of_loop now) st = turn now st

  unfoldable pub happen_all : List Happening → Live F R → Live F R
  unfolding happen
  happen_all [] st = st
  happen_all (h ∷ hs) st = happen_all hs (happen h st)

  -- The whole run, with what is left in the ring processed at the end.
  unfoldable pub run_live : List Happening → Live F R → Live F R
  unfolding happen_all drain
  run_live hs st = drain_all (happen_all hs st)
