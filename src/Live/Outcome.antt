-- ===== src/Live/Outcome.antt =====
-- A live run as a whole: no event is lost or reordered silently, and the limits hold.
use mathlib.Core.List.{append-nil}
use lob_market_maker.Prelude.{
  ℕ, ◌+◌, ◌*◌, ◌^◌, ◌≤◌, ◌<◌, ◌≡◌, true, refl, ap, subst, List, [], ◌∷◌, length, arith, pos, ◌≤ℤ◌,
}
use lob_market_maker.Types.{Symbol}
use lob_market_maker.Events.{MarketEvent}
use lob_market_maker.Double.{Double, Rng, ExactInts}
use lob_market_maker.Ring.{is_empty}
use lob_market_maker.Ring.Refine.{Holds-create, is_empty-Holds}
use lob_market_maker.Pipeline.{Pipeline, PipelineConfig, ClockReads}
use lob_market_maker.Pipeline
use lob_market_maker.Pipeline.Run.{Call, run, LimitHolds, run-Within}
use lob_market_maker.Live.{
  Live, started, Happening, arrives, turn_of_loop, ring_bits, happen_all, run_live,
}
use lob_market_maker.Live.Arrivals.{Thinned, none_left, events_of_calls, arrivals}
use lob_market_maker.Live.Feed.{sixteen, Fed, Fed-drain_all, Fed-happen_all}

length-arrivals : (hs : List Happening) → length (arrivals hs) ≤ length hs
unfolding arrivals
length-arrivals [] = omega arith
length-arrivals (arrives ev ∷ hs) = omega (arith, length-arrivals hs)
length-arrivals (turn_of_loop now ∷ hs) = omega (arith, length-arrivals hs)

module _ {F R : Type 0} ⦃d : Double F⦄ ⦃g : Rng F R⦄ where
  -- The ring is empty, the pipeline has been called for some of the events that came, in their order,
  -- and each of the others has been counted as dropped.
  pub record Outcome (hs : List Happening) (p : Pipeline F R) (st : Live F R) : Type 0 where
    pub emptied : is_empty st.ring ≡ true
    pub calls : List Call
    pub called : st.pipeline ≡ run calls p
    pub from_feed : Thinned (events_of_calls calls) (arrivals hs)
    pub counted : length (events_of_calls calls) + st.dropped ≡ length (arrivals hs)
    pub few : length calls ≤ length hs

  module _ (moved : MarketEvent → MarketEvent) (clocks : ℕ → ClockReads) where
    Fed-started :
        (p : Pipeline F R) (fresh : MarketEvent) → Fed moved clocks p (started p fresh) [] [] 0
    unfolding events_of_calls run
    Fed-started p fresh = record {
      calls = [];
      held = Holds-create moved ring_bits sixteen fresh;
      called = refl;
      from_feed = none_left;
      counted = refl;
      few = omega arith;
    }

    Outcome-Fed :
        (hs : List Happening) (p : Pipeline F R) (st : Live F R)
        → Fed moved clocks p st (arrivals hs) [] (0 + length hs)
        → Outcome hs p st
    Outcome-Fed hs p st h = record {
      emptied = is_empty-Holds moved ring_bits sixteen h.held;
      calls = h.calls;
      called = h.called;
      from_feed =
          subst (λ xs. Thinned xs (arrivals hs)) (append-nil (events_of_calls h.calls)) h.from_feed;
      counted = omega (arith, h.counted, ap length (append-nil (events_of_calls h.calls)));
      few = omega (arith, h.few);
    }

    -- For any order in which fewer than 2 ^ 64 events arrive and the loop pops, the run ends with the
    -- ring empty, with a pipeline that has been called for some of the arrived events, in their order,
    -- and with each of the others counted as dropped.
    pub run_live-Outcome :
        (hs : List Happening) (p : Pipeline F R) (fresh : MarketEvent)
        → length (arrivals hs) < 2 ^ 64
        → Outcome hs p (run_live moved clocks hs (started p fresh))
    unfolding run_live
    run_live-Outcome hs p fresh small =
        let (waiting, fed) =
          Fed-happen_all moved clocks p hs (started p fresh) [] [] 0 (omega (arith, small))
            (Fed-started p fresh) in
        Outcome-Fed hs p (run_live moved clocks hs (started p fresh)) (
          Fed-drain_all moved clocks p (happen_all moved clocks hs (started p fresh)) (arrivals hs)
            waiting (0 + length hs) fed)

    -- In a live run of fewer than 2 ^ 63 - 1 arrivals and pops of the loop, under the conditions of
    -- the position limit, the position stays within the configured limit even if all that is open on
    -- one side were filled and nothing on the other, however many events the ring has to drop.
    pub run_live-Within :
        ExactInts F
        → (symbol : Symbol) (cfg : PipelineConfig F) (hs : List Happening) (fresh : MarketEvent)
        → pos 0 ≤ℤ cfg.risk_limits.max_position
        → cfg.risk_limits.max_position ≤ℤ pos (2 ^ 52)
        → 2 * length hs + 1 < 2 ^ 64
        → LimitHolds {F = F} {R = R} cfg.risk_limits.max_position
            (run_live moved clocks hs (started (Pipeline.create symbol cfg) fresh)).pipeline
    run_live-Within exact symbol cfg hs fresh least most small =
        let out =
          run_live-Outcome hs (Pipeline.create symbol cfg) fresh
            (omega (arith, length-arrivals hs)) in
        rw out.called (run-Within R exact symbol cfg out.calls least most (omega (arith, out.few)))
