-- ===== src/Tests/Trading.antt =====
-- The theorems on risk, portfolio, execution and pipeline, applied.
use lob_market_maker.Prelude.{
  ℕ, ◌≤◌, ◌≡◌, refl, ◌∷◌, [], List, true, false, ℤ, pos, neg, ◌+ℤ◌, ◌-ℤ◌, ◌++◌, int_laws, arith,
}
use lob_market_maker.Types.{buy, sell}
use lob_market_maker.Events.{MarketEvent}
use lob_market_maker.Risk.{RiskLimits, RiskCheckInput, check, approved}
use lob_market_maker.Risk.Checks.{Reason, Sound, check-Reason, check-Sound}
use lob_market_maker.Strategy.{default_config}
use lob_market_maker.Portfolio.{Portfolio, flat, on_fill}
use lob_market_maker.Portfolio.Position.{position-on_fill}
use lob_market_maker.Execution.{FillAssumptions, Engine, Orders, remaining_quantity, put_order}
use lob_market_maker.Execution.Operations
use lob_market_maker.Execution.Operations.{submit_limit, on_market_event, erase_all}
use lob_market_maker.Execution.Fills.{Fills, on_market_event_trade}
use lob_market_maker.Execution.Conservation.{Conserves, on_market_event-Conserves}
use lob_market_maker.Pipeline.{Pipeline, PipelineConfig, ClockReads}
use lob_market_maker.Pipeline
use lob_market_maker.Pipeline.Process.{process, count_event, count_drop}
use lob_market_maker.Pipeline.Run.{
  Call, event, clock, run, LimitHolds, QuotesAgree, run-Within, run-Coherent,
}
use lob_market_maker.Pipeline.Count.{open_order_count-run}
use lob_market_maker.Execution.Operations.{open_order_count}
use lob_market_maker.Pipeline.Replay.{process_again}
use lob_market_maker.Tests.Fixed.{of_int, fixed_double, fixed_rng, fixed-ExactInts}
use lob_market_maker.Tests.Inputs.{abc, dollars, quotes, print}

abbrev pub limits : RiskLimits ℤ
limits = record {
  max_position = pos 1000;
  max_order_size = pos 100;
  max_notional = pos 100_000_000_000;
  max_daily_loss = pos 2_000_000_000;
  max_open_orders = 20;
}

-- Six bought at 100 dollars.
abbrev request : RiskCheckInput ℤ
request = record {
  order_quantity = pos 6;
  order_side = buy;
  reference_price = pos 100_000_000;
  current_position = pos 10;
  current_daily_pnl = pos 0;
  current_open_orders = 1;
  market_data_stale = false;
}

request-Sound : Sound limits request
unfolding neg of_int
request-Sound = record {
  fresh = refl;
  some_quantity = omega arith;
  small = omega arith;
  few = omega arith;
  gaining = refl;
  affordable = refl;
  not_above = omega int_laws;
  not_below = omega int_laws;
}

check-Reason_example : Reason limits request (check limits request)
check-Reason_example = check-Reason limits request

check-Sound_example : check limits request ≡ approved
check-Sound_example = check-Sound limits request request-Sound

abbrev nothing_yet : Portfolio ℤ
nothing_yet = flat

position-on_fill_example :
    (on_fill nothing_yet sell (dollars 100) (pos 6)).state.position ≡ ℤ.negsuc 5
unfolding flat ◌+ℤ◌ neg
position-on_fill_example =
    position-on_fill fixed-ExactInts nothing_yet sell (dollars 100) (pos 6) (omega arith)
      (omega arith, omega arith) (omega arith, omega arith) (omega arith, omega arith)

abbrev assumptions : FillAssumptions ℤ
assumptions = record {
  partial_fill_probability = pos 350_000;
  min_partial_fill_ratio = pos 200_000;
  max_partial_fill_ratio = pos 800_000;
  simulated_ack_latency = pos 250_000;
  rng_seed = 42;
}

-- A bid for 6 at 99 dollars is open.
abbrev engine : Engine ℤ ℕ
engine = (submit_limit (Operations.create assumptions) 1 abc buy (dollars 99) (pos 6) (pos 1)).1

on_market_event_trade_example :
    (after : Orders) × (ks : List ℕ) × Fills print
      (pos 250_000)
      engine.open_orders
      after
      (on_market_event engine print).0
      ks
    × ((on_market_event engine print).1.open_orders ≡ erase_all ks after)
unfolding submit_limit Operations.create
on_market_event_trade_example = on_market_event_trade engine print refl

on_market_event-Conserves_example : Conserves engine (on_market_event engine print).1 print
unfolding submit_limit Operations.create remaining_quantity put_order ◌-ℤ◌
on_market_event-Conserves_example =
    on_market_event-Conserves engine print (tt, tt) (omega arith, tt)

abbrev pub config : PipelineConfig ℤ
config = record {
  risk_limits = limits;
  strategy = default_config;
  fill_assumptions = assumptions;
  profile_stages = true;
}

abbrev reads : ClockReads
reads = record {
  t0 = pos 0;
  t1 = pos 40;
  t2 = pos 90;
  requote_start = pos 100;
  requote_end = pos 900;
}

abbrev calls_of : List MarketEvent → List Call
calls_of [] = []
calls_of (ev ∷ evs) = event reads ev ∷ calls_of evs

-- Quotes, a reading of the clock, and a trade against the resting bid.
abbrev calls : List Call
calls = calls_of quotes ++ (clock (pos 4) ∷ event reads print ∷ [])

abbrev started : Pipeline ℤ ℕ
started = Pipeline.create abc config

run-Within_example : LimitHolds (pos 1000) (run calls started)
run-Within_example =
    run-Within ℕ fixed-ExactInts abc config calls (omega arith) (omega arith) (omega arith)

run-Coherent_example : QuotesAgree (run calls started)
run-Coherent_example =
    run-Coherent ℕ fixed-ExactInts abc config calls (omega arith) (omega arith) (omega arith)

open_order_count-run_example : open_order_count (run calls started).exec ≤ 2
open_order_count-run_example =
    open_order_count-run ℕ fixed-ExactInts abc config calls (omega arith) (omega arith)
      (omega arith)

process_again_example :
    process reads print (run calls (process reads print started))
    ≡ count_drop (count_event (run calls (process reads print started)))
process_again_example = process_again reads reads print calls started
