-- ===== src/Risk/Checks.antt =====
-- What an approval by the risk engine guarantees, and what each rejection means.
use lob_market_maker.Prelude.{◌≡◌, ◌⊎◌, ◌≤◌, ◌<◌, true, false, pos, neg, ◌+ℤ◌, ◌≤ℤ◌, ◌<ℤ◌, arith}
use lob_market_maker.Double.{Double}
use lob_market_maker.Risk.{
  RiskLimits, RiskCheckInput, RiskDecision, approved, rejected_max_order_size,
  rejected_max_position, rejected_max_notional, rejected_max_daily_loss, rejected_max_open_orders,
  rejected_stale_market_data, signed_delta, check,
}

module _ {F : Type 0} ⦃d : Double F⦄ (limits : RiskLimits F) (i : RiskCheckInput F) where
  open d use {of_int, mul, negate, lt, le}

  -- Every limit of the engine is kept.
  pub record Sound : Type 0 where
    pub fresh : i.market_data_stale ≡ false
    pub some_quantity : pos 0 <ℤ i.order_quantity
    pub small : i.order_quantity ≤ℤ limits.max_order_size
    pub few : i.current_open_orders < limits.max_open_orders
    pub gaining : le i.current_daily_pnl (negate limits.max_daily_loss) ≡ false
    pub affordable :
        lt limits.max_notional (mul (of_int i.order_quantity) i.reference_price) ≡ false
    pub not_above :
        i.current_position +ℤ signed_delta i.order_side i.order_quantity ≤ℤ limits.max_position
    pub not_below :
        neg limits.max_position ≤ℤ i.current_position +ℤ signed_delta i.order_side i.order_quantity

  -- The reason that a decision gives.
  abbrev pub Reason : RiskDecision → Type 0
  Reason approved = Sound
  Reason rejected_stale_market_data = i.market_data_stale ≡ true
  Reason rejected_max_order_size =
      (i.order_quantity ≤ℤ pos 0) ⊎ (limits.max_order_size <ℤ i.order_quantity)
  Reason rejected_max_open_orders = limits.max_open_orders ≤ i.current_open_orders
  Reason rejected_max_daily_loss = le i.current_daily_pnl (negate limits.max_daily_loss) ≡ true
  Reason rejected_max_notional =
      lt limits.max_notional (mul (of_int i.order_quantity) i.reference_price) ≡ true
  Reason rejected_max_position =
      (limits.max_position <ℤ i.current_position +ℤ signed_delta i.order_side i.order_quantity)
      ⊎ (i.current_position +ℤ signed_delta i.order_side i.order_quantity
          <ℤ neg limits.max_position)

  -- Whatever the engine decides, the reason of its decision holds: an approved order comes on fresh
  -- market data and keeps every limit, and a rejected one breaks the limit that the rejection names.
  pub check-Reason : Reason (check limits i)
  unfolding check
  check-Reason = ground arith

  -- An order on fresh market data that keeps every limit is approved.
  pub check-Sound : Sound → check limits i ≡ approved
  unfolding check
  check-Sound s = ground arith
