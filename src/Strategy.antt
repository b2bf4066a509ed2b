-- ===== src/Strategy.antt =====
-- src/strategy/market_maker.hpp: the quotes of the market-making strategy.
use lob_market_maker.Prelude.{
  Bool, false, ◌||◌, Option, none, some, pos, ◌-ℤ◌, ltb_ℤ, if◌then◌else◌,
}
use lob_market_maker.Types.{Price, no_price, from_double, Quantity, Timestamp}
use lob_market_maker.OrderBook.{OrderBook, mid_price}
use lob_market_maker.Micro.{Microstructure, short_term_volatility}
use lob_market_maker.Double.{Double}

pub record StrategyConfig (F : Type 0) : Type 0 where
  pub base_half_spread_bps : F
  pub quote_size : Quantity
  pub inventory_skew_bps_per_unit : F
  pub max_inventory_for_skew : Quantity
  pub volatility_spread_multiplier : F
  pub max_staleness_sec : F
  pub requote_threshold_bps : F

pub record QuoteDecision : Type 0 where
  pub quote_bid : Bool
  pub quote_ask : Bool
  pub bid_price : Price
  pub ask_price : Price
  pub bid_size : Quantity
  pub ask_size : Quantity

-- `QuoteDecision{}`: no quote on either side.
abbrev pub no_quotes : QuoteDecision
no_quotes = record {
  quote_bid = false;
  quote_ask = false;
  bid_price = no_price;
  ask_price = no_price;
  bid_size = pos 0;
  ask_size = pos 0;
}

module _ {F : Type 0} ⦃d : Double F⦄ where
  open d use {of_int, to_int, decimal, add, sub, mul, div, negate, lt, le}

  unfoldable pub default_config : StrategyConfig F
  default_config = record {
    base_half_spread_bps = of_int (pos 5);
    quote_size = pos 10;
    inventory_skew_bps_per_unit = decimal (pos 5) 1;
    max_inventory_for_skew = pos 200;
    volatility_spread_multiplier = decimal (pos 15) 1;
    max_staleness_sec = of_int (pos 5);
    requote_threshold_bps = of_int (pos 1);
  }

  abbrev bps : F
  bps = of_int (pos 10_000)

  abbrev one : F
  one = of_int (pos 1)

  abbrev pub nought : F
  nought = of_int (pos 0)

  abbrev pub value_or : Option F → F → F
  value_or none x = x
  value_or (some y) x = y

  -- `std::clamp`.
  abbrev pub clamp : F → F → F → F
  clamp v lo hi = if lt v lo then lo else (if lt hi v then hi else v)

  -- `std::max(0.0, x)`.
  abbrev pub max_nought : F → F
  max_nought x = if lt nought x then x else nought

  unfoldable pub half_spread_dollars : StrategyConfig F → Microstructure F → F → F
  half_spread_dollars cfg micro mid =
      let vol = value_or (short_term_volatility micro) nought in
      let normalized = mul vol bps in
      let half_spread_bps =
        mul cfg.base_half_spread_bps (add one (mul cfg.volatility_spread_multiplier normalized)) in
      div (mul mid half_spread_bps) bps

  unfoldable pub clamped_inventory : StrategyConfig F → Quantity → F
  clamped_inventory cfg inventory =
      clamp (of_int inventory) (negate (of_int cfg.max_inventory_for_skew))
        (of_int cfg.max_inventory_for_skew)

  unfoldable pub inv_ratio : StrategyConfig F → Quantity → F
  unfolding clamped_inventory
  inv_ratio cfg inventory =
      if ltb_ℤ (pos 0) cfg.max_inventory_for_skew
      then div (clamped_inventory cfg inventory) (of_int cfg.max_inventory_for_skew)
      else nought

  unfoldable pub bid_taper : F → F
  bid_taper ratio = if lt nought ratio then max_nought (sub one ratio) else one

  unfoldable pub ask_taper : F → F
  ask_taper ratio = if lt ratio nought then max_nought (add one ratio) else one

  unfoldable pub tapered_size : StrategyConfig F → F → Quantity
  tapered_size cfg taper = to_int (mul (of_int cfg.quote_size) taper)

  -- The last part of `decide`, once bid and ask are known to be sound.
  unfoldable pub quotes_at : StrategyConfig F → Quantity → F → F → QuoteDecision
  unfolding inv_ratio bid_taper ask_taper tapered_size
  quotes_at cfg inventory bid ask =
      let ratio = inv_ratio cfg inventory in
      let bid_size = tapered_size cfg (bid_taper ratio) in
      let ask_size = tapered_size cfg (ask_taper ratio) in
      record {
        quote_bid = ltb_ℤ (pos 0) bid_size;
        quote_ask = ltb_ℤ (pos 0) ask_size;
        bid_price = from_double bid;
        ask_price = from_double ask;
        bid_size = bid_size;
        ask_size = ask_size;
      }

  -- `decide` for a book with a mid price that is not stale.
  unfoldable pub quotes_around : StrategyConfig F → Microstructure F → Quantity → F → QuoteDecision
  unfolding half_spread_dollars quotes_at clamped_inventory
  quotes_around cfg micro inventory mid =
      let half = half_spread_dollars cfg micro mid in
      let skew =
        mul (mul (div cfg.inventory_skew_bps_per_unit bps) (clamped_inventory cfg inventory)) mid in
      let bid = sub (sub mid half) skew in
      let ask = sub (add mid half) skew in
      if le bid nought || le ask bid then no_quotes else quotes_at cfg inventory bid ask

  unfoldable pub is_stale : StrategyConfig F → OrderBook → Timestamp → Bool
  is_stale cfg b now =
      lt cfg.max_staleness_sec (div (of_int (now -ℤ b.last_update)) (of_int (pos 1_000_000_000)))

  unfoldable pub decide :
      StrategyConfig F → OrderBook → Microstructure F → Quantity → Timestamp → QuoteDecision
  unfolding is_stale quotes_around
  decide cfg b micro inventory now = elim (mid_price b) [
    | none ↦ no_quotes
    | some mid ↦ if is_stale cfg b now then no_quotes else quotes_around cfg micro inventory mid
  ]
