-- ===== src/Pipeline/Count.antt =====
-- src/common/pipeline.hpp: how many orders can be open.
use lob_market_maker.Prelude.{
  ℕ, ◌+◌, ◌*◌, ◌<◌, ◌≤◌, ◌^◌, ◌≡◌, false, Option, none, some, List, [], ◌∷◌, pos, ◌≤ℤ◌, arith, All,
  length, ◌==◌,
}
use lob_market_maker.Types.{OrderId, Symbol, Side, buy, sell}
use lob_market_maker.Double.{Double, Rng, ExactInts}
use lob_market_maker.Execution.{Orders}
use lob_market_maker.Execution.Operations.{open_order_count}
use lob_market_maker.Execution.Keys.{Distinct}
use lob_market_maker.Pipeline.{Pipeline, PipelineConfig, RestingQuote, create}
use lob_market_maker.Pipeline.Slots.{Slots, at_side, HasKey, Owned}
use lob_market_maker.Pipeline.Reports.{slots_of}
use lob_market_maker.Pipeline.Run.{Call, run, run-Coherent}

-- One slot does not hold two keys.
two_keys :
    (k j : OrderId) (slot : Option RestingQuote)
    → HasKey k slot
    → HasKey j slot
    → (j == k) ≡ false
    → ⊥
two_keys k j none a b h = a
two_keys k j (some q) a b h = ground arith

-- Two slots do not hold three keys.
three_keys :
    (s t u : Side) (k j i : OrderId) (c : Slots)
    → HasKey k (at_side s c)
    → HasKey j (at_side t c)
    → HasKey i (at_side u c)
    → (j == k) ≡ false
    → (i == k) ≡ false
    → (i == j) ≡ false
    → ⊥
three_keys buy buy u k j i c a b d x y z = two_keys k j c.bid a b x
three_keys sell sell u k j i c a b d x y z = two_keys k j c.ask a b x
three_keys buy sell buy k j i c a b d x y z = two_keys k i c.bid a d y
three_keys buy sell sell k j i c a b d x y z = two_keys j i c.ask b d z
three_keys sell buy sell k j i c a b d x y z = two_keys k i c.ask a d y
three_keys sell buy buy k j i c a b d x y z = two_keys j i c.bid b d z

two_at_most :
    (c : Slots) (next : ℕ) (os : Orders) → All (Owned c next) os → Distinct os → length os ≤ 2
two_at_most c next [] v u = omega arith
two_at_most c next (a ∷ []) v u = omega arith
two_at_most c next (a ∷ b ∷ []) v u = omega arith
two_at_most c next ((k, o) ∷ (j, x) ∷ (i, y) ∷ os) v u = absurd (
    three_keys o.side x.side y.side k j i c v.0.quoted v.1.0.quoted v.1.1.0.quoted u.0.0 u.0.1.0
      u.1.0.0)

module _ {F : Type 0} (R : Type 0) ⦃d : Double F⦄ ⦃g : Rng F R⦄ where
  -- From construction on, after any calls of process and on_clock, at most two orders are open. The
  -- limit is between 0 and 2^52, the doubles are exact on whole numbers up to 2^53, and the calls are
  -- too few to wrap the order numbers.
  pub open_order_count-run :
      ExactInts F
      → (sym : Symbol) (cfg : PipelineConfig F) (xs : List Call)
      → pos 0 ≤ℤ cfg.risk_limits.max_position
      → cfg.risk_limits.max_position ≤ℤ pos (2 ^ 52)
      → 2 * length xs + 1 < 2 ^ 64
      → let p : Pipeline F R = run xs (create sym cfg) in open_order_count p.exec ≤ 2
  unfolding open_order_count
  open_order_count-run exact sym cfg xs h k n =
      let p : Pipeline F R = run xs (create sym cfg) in
      let v = run-Coherent R exact sym cfg xs h k n in
      two_at_most (slots_of p) p.next_order_id p.exec.open_orders v.owned v.distinct
