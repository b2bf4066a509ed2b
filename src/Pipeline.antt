-- ===== src/Pipeline.antt =====
-- src/common/pipeline.hpp: the state of the pipeline. A timestamp of the process's own clock is an
-- input: `ClockReads` holds the readings that one call of `process` takes.
pub mod Quotes
pub mod Slots
pub mod Placing
pub mod Passing
pub mod Kept
pub mod Limits
pub mod Reports
pub mod Safety
pub mod Untouched
pub mod Executing
pub mod Stages
pub mod Run
pub mod Replay
pub mod Count
pub mod Process
use lob_market_maker.Prelude.{ℕ, Bool, true, false, Option, none, some, ℤ, pos}
use lob_market_maker.Types.{
  Price, Quantity, OrderId, SequenceNumber, Timestamp, Side, buy, sell, Symbol,
}
use lob_market_maker.OrderBook
use lob_market_maker.OrderBook.{OrderBook}
use lob_market_maker.Micro
use lob_market_maker.Micro.{Microstructure}
use lob_market_maker.Risk.{RiskLimits}
use lob_market_maker.Strategy.{StrategyConfig}
use lob_market_maker.Execution.{FillAssumptions, Engine}
use lob_market_maker.Execution.Operations
use lob_market_maker.Portfolio.{Portfolio, flat}
use lob_market_maker.Latency.{LatencyStats, no_latency}
use lob_market_maker.Double.{Double, Rng}

pub record PipelineConfig (F : Type 0) : Type 0 where
  pub risk_limits : RiskLimits F
  pub strategy : StrategyConfig F
  pub fill_assumptions : FillAssumptions F
  pub profile_stages : Bool

pub record PipelineStats (F : Type 0) : Type 0 where
  pub events_processed : ℕ
  pub out_of_order_dropped : ℕ
  pub sequence_gaps : ℕ
  pub stale_resets : ℕ
  pub clock_stale_events : ℕ
  pub crossed_book_events : ℕ
  pub quotes_submitted : ℕ
  pub quotes_canceled : ℕ
  pub fills : ℕ
  pub partial_fills : ℕ
  pub risk_rejects : ℕ
  pub decision_latency : LatencyStats F
  pub book_update_latency : LatencyStats F
  pub execution_latency : LatencyStats F

pub record RestingQuote : Type 0 where
  pub id : OrderId
  pub price : Price
  pub size : Quantity

pub record Pipeline (F R : Type 0) : Type 0 where
  pub book : OrderBook
  pub micro : Microstructure F
  pub limits : RiskLimits F
  pub strategy : StrategyConfig F
  pub exec : Engine F R
  pub portfolio : Portfolio F
  pub stale_threshold : Timestamp
  pub requote_threshold_bps : F
  pub profile_stages : Bool
  pub market_data_stale : Bool
  pub next_order_id : OrderId
  pub last_sequence : Option SequenceNumber
  pub last_event_ts : Option Timestamp
  pub resting_bid : Option RestingQuote
  pub resting_ask : Option RestingQuote
  pub stats : PipelineStats F

-- The readings of `steady_clock` in one call of `process`: three around its stages, two in `requote`.
pub record ClockReads : Type 0 where
  pub t0 : Timestamp
  pub t1 : Timestamp
  pub t2 : Timestamp
  pub requote_start : Timestamp
  pub requote_end : Timestamp

module _ {F R : Type 0} where
  -- The optional that stands for the resting quote of a side.
  abbrev pub slot : Side → Pipeline F R → Option RestingQuote
  slot buy p = p.resting_bid
  slot sell p = p.resting_ask

  abbrev pub set_slot : Side → Option RestingQuote → Pipeline F R → Pipeline F R
  set_slot buy q p = record p { resting_bid = q }
  set_slot sell q p = record p { resting_ask = q }

module _ {F : Type 0} ⦃d : Double F⦄ where
  open d use {of_int, to_int, mul}

  abbrev pub no_stats : PipelineStats F
  no_stats = record {
    events_processed = 0;
    out_of_order_dropped = 0;
    sequence_gaps = 0;
    stale_resets = 0;
    clock_stale_events = 0;
    crossed_book_events = 0;
    quotes_submitted = 0;
    quotes_canceled = 0;
    fills = 0;
    partial_fills = 0;
    risk_rejects = 0;
    decision_latency = no_latency;
    book_update_latency = no_latency;
    execution_latency = no_latency;
  }

  -- `duration_cast<Timestamp>` of a number of seconds.
  abbrev pub nanoseconds : F → Timestamp
  nanoseconds sec = to_int (mul sec (of_int (pos 1_000_000_000)))

module _ {F R : Type 0} ⦃d : Double F⦄ ⦃g : Rng F R⦄ where
  unfoldable pub create : Symbol → PipelineConfig F → Pipeline F R
  create sym cfg = record {
    book = OrderBook.create sym;
    micro = Micro.fresh 50 200;
    limits = cfg.risk_limits;
    strategy = cfg.strategy;
    exec = Operations.create cfg.fill_assumptions;
    portfolio = flat;
    stale_threshold = nanoseconds cfg.strategy.max_staleness_sec;
    requote_threshold_bps = cfg.strategy.requote_threshold_bps;
    profile_stages = cfg.profile_stages;
    market_data_stale = false;
    next_order_id = 1;
    last_sequence = none;
    last_event_ts = none;
    resting_bid = none;
    resting_ask = none;
    stats = no_stats;
  }
