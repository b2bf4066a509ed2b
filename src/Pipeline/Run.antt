-- ===== src/Pipeline/Run.antt =====
-- src/common/pipeline.hpp: any sequence of calls of `process` and `on_clock` from construction on.
use lob_market_maker.Prelude.{
  ℕ, suc, ◌+◌, ◌*◌, ◌<◌, ◌^◌, ◌≡◌, refl, ap, ◌∙◌, List, [], ◌∷◌, pos, neg, ◌+ℤ◌, ◌-ℤ◌, ◌≤ℤ◌, arith,
  int_laws, length,
}
use lob_market_maker.Types.{Quantity, Timestamp, Symbol, buy, sell}
use lob_market_maker.Events.{MarketEvent}
use lob_market_maker.Double.{Double, Rng, ExactInts}
use lob_market_maker.Execution.Operations
use lob_market_maker.Portfolio.{flat}
use lob_market_maker.Execution.Exposure.{open_on}
use lob_market_maker.Pipeline.{Pipeline, PipelineConfig, ClockReads, create}
use lob_market_maker.Pipeline.Process.{process, on_clock}
use lob_market_maker.Pipeline.Slots.{Coherent}
use lob_market_maker.Pipeline.Limits.{SafeParts-weaken}
use lob_market_maker.Pipeline.Reports.{slots_of}
use lob_market_maker.Pipeline.Untouched.{limits-process, on_clock-Marks}
use lob_market_maker.Pipeline.Safety.{IsSafe}
use lob_market_maker.Pipeline.Stages.{process-IsSafe, on_clock-IsSafe}

-- A call from outside, with the readings of the clock that it takes.
pub data Call : Type 0 where
  event : ClockReads → MarketEvent → Call
  clock : Timestamp → Call

-- The position limit `max`, counting all that is open on one side.
pub record LimitHolds {F R : Type 0} (max : Quantity) (p : Pipeline F R) : Type 0 where
  pub bought_pos : pos 0 ≤ℤ open_on buy p.exec.open_orders
  pub sold_pos : pos 0 ≤ℤ open_on sell p.exec.open_orders
  pub not_above : p.portfolio.state.position +ℤ open_on buy p.exec.open_orders ≤ℤ max
  pub not_below : neg max ≤ℤ p.portfolio.state.position -ℤ open_on sell p.exec.open_orders

abbrev pub QuotesAgree : {F R : Type 0} → Pipeline F R → Type 0
QuotesAgree p = Coherent (slots_of p) p.next_order_id p.exec.open_orders

module _ {F R : Type 0} ⦃d : Double F⦄ ⦃g : Rng F R⦄ where
  abbrev pub step : Call → Pipeline F R → Pipeline F R
  step (event c ev) p = process c ev p
  step (clock now) p = on_clock now p

  unfoldable pub run : List Call → Pipeline F R → Pipeline F R
  run [] p = p
  run (x ∷ xs) p = run xs (step x p)

  limits-step : (x : Call) (p : Pipeline F R) → (step x p).limits ≡ p.limits
  limits-step (event c ev) p = limits-process c ev p
  limits-step (clock now) p = (on_clock-Marks now p).limits_eq

  step-IsSafe :
      ExactInts F
      → (x : Call) (spare : ℕ) (p : Pipeline F R) → IsSafe (suc (suc spare)) p
      → IsSafe spare (step x p)
  step-IsSafe exact (event c ev) spare p v = process-IsSafe exact c ev spare p v
  step-IsSafe exact (clock now) spare p v =
      on_clock-IsSafe now spare p (SafeParts-weaken spare (omega arith) v)

  run-IsSafe :
      ExactInts F
      → (xs : List Call) (p : Pipeline F R) → IsSafe (2 * length xs) p
      → IsSafe 0 (run xs p)
  unfolding run
  run-IsSafe exact [] p v = v
  run-IsSafe exact (x ∷ xs) p v =
      run-IsSafe exact xs (step x p)
        (step-IsSafe exact x (2 * length xs) p (SafeParts-weaken _ (omega arith) v))

  limits-run : (xs : List Call) (p : Pipeline F R) → (run xs p).limits ≡ p.limits
  unfolding run
  limits-run [] p = refl
  limits-run (x ∷ xs) p = limits-run xs (step x p) ∙ limits-step x p

-- `R` is the state of the random generator.
module _ {F : Type 0} (R : Type 0) ⦃d : Double F⦄ ⦃g : Rng F R⦄ where
  create-IsSafe :
      (sym : Symbol) (cfg : PipelineConfig F) (spare : ℕ)
      → pos 0 ≤ℤ cfg.risk_limits.max_position
      → cfg.risk_limits.max_position ≤ℤ pos (2 ^ 52)
      → spare + 1 < 2 ^ 64
      → IsSafe {F = F} {R = R} spare (create sym cfg)
  unfolding create open_on Operations.create flat
  create-IsSafe sym cfg spare h k n = record {
    coherent = record {
      owned = tt;
      distinct = tt;
      positive = tt;
      bid_backed = tt;
      ask_backed = tt;
    };
    within = record {
      small = k;
      bought_pos = omega int_laws;
      sold_pos = omega int_laws;
      not_above = omega int_laws;
      not_below = omega int_laws;
    };
    numbers = omega (arith, n);
  }

  -- From construction on, after any calls of process and on_clock, the position stays within the
  -- configured limit even if all that is open on one side were filled and nothing on the other, and
  -- what is open on a side is never negative. The limit is between 0 and 2^52, the doubles are exact
  -- on whole numbers up to 2^53, and the calls are too few to wrap the order numbers.
  pub run-Within :
      ExactInts F
      → (sym : Symbol) (cfg : PipelineConfig F) (xs : List Call)
      → pos 0 ≤ℤ cfg.risk_limits.max_position
      → cfg.risk_limits.max_position ≤ℤ pos (2 ^ 52)
      → 2 * length xs + 1 < 2 ^ 64
      → LimitHolds {F = F} {R = R} cfg.risk_limits.max_position (run xs (create sym cfg))
  unfolding create
  run-Within exact sym cfg xs h k n =
      let p : Pipeline F R = create sym cfg in
      let v = run-IsSafe exact xs p (create-IsSafe sym cfg (2 * length xs) h k n) in
      let same = ap (λ x. x.max_position) (limits-run xs p) in
      record {
        not_above = rw same at v.within.not_above;
        not_below = rw same at v.within.not_below;
        bought_pos = v.within.bought_pos;
        sold_pos = v.within.sold_pos;
      }

  -- From construction on, under the conditions of the position limit, after any calls of process and
  -- on_clock the open orders and the resting quotes agree: every open order has something left, is
  -- kept under its own id, an id already given out and held by no other open order, and is the resting
  -- quote of its side; and every resting quote is an open order of its side.
  pub run-Coherent :
      ExactInts F
      → (sym : Symbol) (cfg : PipelineConfig F) (xs : List Call)
      → pos 0 ≤ℤ cfg.risk_limits.max_position
      → cfg.risk_limits.max_position ≤ℤ pos (2 ^ 52)
      → 2 * length xs + 1 < 2 ^ 64
      → QuotesAgree {F = F} {R = R} (run xs (create sym cfg))
  run-Coherent exact sym cfg xs h k n =
      (run-IsSafe exact xs (create sym cfg) (create-IsSafe sym cfg (2 * length xs) h k n)).coherent
