-- ===== src/Risk.antt =====
-- src/risk/risk_engine.hpp: the pre-trade checks.
pub mod Checks
use lob_market_maker.Prelude.{ℕ, Bool, ◌||◌, ℤ, pos, neg, ◌+ℤ◌, ltb_ℤ, leb_ℤ, leb, if◌then◌else◌}
use lob_market_maker.Types.{Quantity, Side, is_buy}
use lob_market_maker.Double.{Double}

pub record RiskLimits (F : Type 0) : Type 0 where
  pub max_position : Quantity
  pub max_order_size : Quantity
  pub max_notional : F
  pub max_daily_loss : F
  pub max_open_orders : ℕ

pub data RiskDecision : Type 0 where
  approved rejected_max_order_size rejected_max_position rejected_max_notional : RiskDecision
  rejected_max_daily_loss rejected_max_open_orders rejected_stale_market_data : RiskDecision

pub record RiskCheckInput (F : Type 0) : Type 0 where
  pub order_quantity : Quantity
  pub order_side : Side
  pub reference_price : F
  pub current_position : Quantity
  pub current_daily_pnl : F
  pub current_open_orders : ℕ
  pub market_data_stale : Bool

-- `(in.order_side == Side::Buy) ? q : -q`
abbrev pub signed_delta : Side → Quantity → Quantity
signed_delta s q = if is_buy s then q else neg q

module _ {F : Type 0} ⦃d : Double F⦄ where
  open d use {of_int, mul, negate, lt, le}

  unfoldable pub default_limits : RiskLimits F
  default_limits = record {
    max_position = pos 1000;
    max_order_size = pos 100;
    max_notional = of_int (pos 100_000);
    max_daily_loss = of_int (pos 2_000);
    max_open_orders = 20;
  }

  -- `RiskEngine::check`.
  unfoldable pub check : RiskLimits F → RiskCheckInput F → RiskDecision
  check limits i =
      if i.market_data_stale
      then rejected_stale_market_data
      else (if leb_ℤ i.order_quantity (pos 0) || ltb_ℤ limits.max_order_size i.order_quantity
          then rejected_max_order_size
          else (if leb limits.max_open_orders i.current_open_orders
              then rejected_max_open_orders
              else (if le i.current_daily_pnl (negate limits.max_daily_loss)
                  then rejected_max_daily_loss
                  else (if lt limits.max_notional (mul (of_int i.order_quantity) i.reference_price)
                      then rejected_max_notional
                      else (let resulting =
                            i.current_position +ℤ signed_delta i.order_side i.order_quantity in
                          if ltb_ℤ limits.max_position resulting
                            || ltb_ℤ resulting (neg limits.max_position)
                          then rejected_max_position
                          else approved)))))
