-- ===== src/Execution.antt =====
-- src/execution: orders, reports and the paper execution engine. `open_orders_` is an association
-- list in the map's order of iteration, which the standard leaves open: a new key goes to the front,
-- and the theorems about a pass over the orders hold for a list in any order.
pub mod Operations
pub mod Fills
pub mod Keys
pub mod Exposure
pub mod Conservation
use Prim.Native.String.{String}
use lob_market_maker.Prelude.{
  ℕ, Bool, true, false, not, ◌&&◌, ◌||◌, Option, none, some, List, [], ◌∷◌, ◌++◌, map, ℤ, pos, ◌+ℤ◌,
  ◌-ℤ◌, ltb_ℤ, leb_ℤ, eqb_ℤ, min_ℤ, max_ℤ, ◌==◌, inc, if◌then◌else◌, length,
}
use lob_market_maker.Types.{
  Price, no_price, price_le, from_double, to_double, Quantity, OrderId, Timestamp, Side, buy, sell,
  is_buy, Symbol, symbol_of, view, same_text, OrderType, limit, market, TimeInForce, gtc,
  OrderStatus, new, partially_filled, filled, canceled, rejected,
}
use lob_market_maker.Events.{MarketEvent, EventType}
use lob_market_maker.OrderBook.{OrderBook, BookLevel, bid_depth, ask_depth}
use lob_market_maker.Double.{Double, Rng}

pub record Order : Type 0 where
  pub id : OrderId
  pub symbol : Symbol
  pub side : Side
  pub type : OrderType
  pub tif : TimeInForce
  pub price : Price
  pub quantity : Quantity
  pub filled_quantity : Quantity
  pub status : OrderStatus
  pub created_time : Timestamp
  pub last_update_time : Timestamp

unfoldable pub remaining_quantity : Order → Quantity
remaining_quantity o = o.quantity -ℤ o.filled_quantity

pub record ExecutionReport : Type 0 where
  pub order_id : OrderId
  pub symbol : Symbol
  pub side : Side
  pub status : OrderStatus
  pub fill_price : Price
  pub fill_quantity : Quantity
  pub remaining : Quantity
  pub timestamp : Timestamp
  pub submit_to_ack_latency : Timestamp
  pub reason : String

pub record FillAssumptions (F : Type 0) : Type 0 where
  pub partial_fill_probability : F
  pub min_partial_fill_ratio : F
  pub max_partial_fill_ratio : F
  pub simulated_ack_latency : Timestamp
  pub rng_seed : ℕ

abbrev pub Orders : Type 0
Orders = List (OrderId × Order)

-- `find`, `operator[]` with an assignment, and `erase` by key.
unfoldable pub find_order : OrderId → Orders → Option Order
find_order k [] = none
find_order k ((j, o) ∷ os) = if j == k then some o else find_order k os

unfoldable pub replace_order : OrderId → Order → Orders → Orders
replace_order k o [] = []
replace_order k o ((j, x) ∷ os) = if j == k then (j, o) ∷ os else (j, x) ∷ replace_order k o os

unfoldable pub put_order : OrderId → Order → Orders → Orders
unfolding find_order replace_order
put_order k o os = elim (find_order k os) [ none ↦ (k, o) ∷ os | some x ↦ replace_order k o os ]

unfoldable pub erase_order : OrderId → Orders → Orders
erase_order k [] = []
erase_order k ((j, o) ∷ os) = if j == k then os else (j, o) ∷ erase_order k os

pub record Engine (F R : Type 0) : Type 0 where
  pub assumptions : FillAssumptions F
  pub rng : R
  pub open_orders : Orders
  pub total_submitted : ℕ
  pub total_canceled : ℕ
  pub total_filled : ℕ
  pub total_partial_fills : ℕ

-- The loop over the opposite depth: what is filled and its notional value.
module _ {F : Type 0} ⦃d : Double F⦄ where
  open d use {of_int, add, mul}

  unfoldable pub sweep : List BookLevel → Quantity → Quantity → F → Quantity × F
  sweep [] remaining done notional = (done, notional)
  sweep (l ∷ ls) remaining done notional =
      let take = min_ℤ remaining l.quantity in
      let rest =
        sweep ls (remaining -ℤ take) (done +ℤ take)
          (add notional (mul (of_int take) (to_double l.price))) in
      if leb_ℤ remaining (pos 0) then (done, notional) else rest

-- Status of a market order by the quantity filled.
abbrev pub sweep_status : Quantity → Quantity → OrderStatus
sweep_status done quantity =
    if eqb_ℤ done quantity
    then filled
    else (if ltb_ℤ (pos 0) done then partially_filled else rejected)

abbrev pub levels_needed : ℕ
levels_needed = 64

-- The order after a fill: `make_fill_report` up to the report.
unfoldable pub fill_order : Order → Quantity → Timestamp → Order
unfolding remaining_quantity
fill_order o qty now =
    let done = record o { filled_quantity = o.filled_quantity +ℤ qty; last_update_time = now } in
    record done {
      status = if eqb_ℤ (remaining_quantity done) (pos 0) then filled else partially_filled;
    }

unfoldable pub fill_report : Order → Price → Quantity → Timestamp → Timestamp → ExecutionReport
fill_report o price qty now ack = record {
  order_id = o.id;
  symbol = o.symbol;
  side = o.side;
  status = o.status;
  fill_price = price;
  fill_quantity = qty;
  remaining = remaining_quantity o;
  timestamp = now;
  submit_to_ack_latency = ack;
  reason = "";
}

abbrev pub is_partial : OrderStatus → Bool
is_partial partially_filled = true
is_partial _ = false

abbrev pub is_limit : OrderType → Bool
is_limit limit = true
is_limit market = false

abbrev pub is_trade : EventType → Bool
is_trade EventType.trade = true
is_trade _ = false

-- `(order.side == Side::Buy) ? (ev.price <= order.price) : (ev.price >= order.price)`
abbrev pub crosses : Order → MarketEvent → Bool
crosses o ev = if is_buy o.side then price_le ev.price o.price else price_le o.price ev.price

-- The three tests at the head of the loop body.
unfoldable pub eligible : Order → MarketEvent → Bool
eligible o ev = same_text (view o.symbol) (view ev.symbol) && is_limit o.type && crosses o ev
