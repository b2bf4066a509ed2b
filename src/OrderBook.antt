-- ===== src/OrderBook.antt =====
-- src/orderbook/order_book.hpp: the limit order book, one sorted vector of levels for each side.
-- A vector is a list, and an iterator is its index.
pub mod Sides
pub mod Sorted
pub mod Lookup
pub mod View
pub mod Best
pub mod Canonical
use lob_market_maker.Prelude.{
  ℕ, zero, suc, ◌+◌, Bool, true, false, not, ◌&&◌, Option, none, some, List, [], ◌∷◌, ℤ, pos, eqb_ℤ,
  if◌then◌else◌, length, get_elem?, set, take, head?, insert_at, erase_at,
}
use mathlib.Core.Option
use lob_market_maker.Types.{
  Price, price_lt, price_le, price_eq, Quantity, SequenceNumber, Timestamp, Side, buy, sell, Symbol,
  to_double,
}
use lob_market_maker.Double.{Double}
use lob_market_maker.Events.{MarketEvent, EventType}

pub record BookLevel : Type 0 where
  pub price : Price
  pub quantity : Quantity

pub record OrderBook : Type 0 where
  pub symbol : Symbol
  pub bids : List BookLevel
  pub asks : List BookLevel
  pub last_sequence : SequenceNumber
  pub last_update : Timestamp
  pub last_trade_price : Option Price
  pub last_trade_qty : Option Quantity
  pub last_trade_time : Option Timestamp

unfoldable pub create : Symbol → OrderBook
create sym = record {
  symbol = sym;
  bids = [];
  asks = [];
  last_sequence = 0;
  last_update = pos 0;
  last_trade_price = none;
  last_trade_qty = none;
  last_trade_time = none;
}

-- The comparators of `find_position`: price p stands strictly before price q on that side.
abbrev pub before : Side → Price → Price → Bool
before buy p q = price_lt q p
before sell p q = price_lt p q

-- `std::lower_bound` on a vector that the test partitions: the first index at which it fails.
unfoldable pub lower_bound : (BookLevel → Bool) → List BookLevel → ℕ
lower_bound test [] = 0
lower_bound test (l ∷ ls) = if test l then suc (lower_bound test ls) else 0

unfoldable pub find_position : List BookLevel → Side → Price → ℕ
unfolding lower_bound
find_position levels side price = lower_bound (λ lvl. before side lvl.price price) levels

-- `it != levels.end() && it->price == price`
unfoldable pub is_at : List BookLevel → ℕ → Price → Bool
is_at levels i price = elim (get_elem? levels i) [
  | none ↦ false
  | some lvl ↦ price_eq lvl.price price
]

abbrev pub is_zero : Quantity → Bool
is_zero qty = eqb_ℤ qty (pos 0)

unfoldable pub upsert_levels : List BookLevel → Side → Price → Quantity → List BookLevel
unfolding find_position is_at
upsert_levels levels side price qty =
    let it = find_position levels side price in
    if is_at levels it price
    then (if is_zero qty
        then erase_at it levels
        else set levels it (record { price = price; quantity = qty }))
    else (if not (is_zero qty)
        then insert_at it (record { price = price; quantity = qty }) levels
        else levels)

unfoldable pub erase_levels : List BookLevel → Side → Price → List BookLevel
unfolding find_position is_at
erase_levels levels side price =
    let it = find_position levels side price in
    if is_at levels it price then erase_at it levels else levels

unfoldable pub upsert : OrderBook → Side → Price → Quantity → OrderBook
upsert b buy price qty = record b { bids = upsert_levels b.bids buy price qty }
upsert b sell price qty = record b { asks = upsert_levels b.asks sell price qty }

unfoldable pub erase : OrderBook → Side → Price → OrderBook
erase b buy price = record b { bids = erase_levels b.bids buy price }
erase b sell price = record b { asks = erase_levels b.asks sell price }

unfoldable pub clear : OrderBook → OrderBook
clear b = record b { bids = []; asks = [] }

-- The switch of `apply`, after `last_sequence_` and `last_update_` are set.
unfoldable pub dispatch : OrderBook → MarketEvent → EventType → OrderBook
unfolding upsert erase clear
dispatch b ev EventType.quote = upsert b ev.side ev.price ev.quantity
dispatch b ev EventType.book_delete = erase b ev.side ev.price
dispatch b ev EventType.trade = record b {
  last_trade_price = some ev.price;
  last_trade_qty = some ev.quantity;
  last_trade_time = some ev.timestamp;
}
dispatch b ev EventType.snapshot = clear b
dispatch b ev EventType.heartbeat = b
dispatch b ev (EventType.unnamed n) = b

unfoldable pub apply : OrderBook → MarketEvent → OrderBook
unfolding dispatch
apply b ev =
    dispatch (record b { last_sequence = ev.sequence; last_update = ev.timestamp }) ev ev.type

abbrev pub front_price : List BookLevel → Option Price
front_price [] = none
front_price (l ∷ ls) = some l.price

abbrev pub front_quantity : List BookLevel → Option Quantity
front_quantity [] = none
front_quantity (l ∷ ls) = some l.quantity

unfoldable pub best_bid : OrderBook → Option Price
best_bid b = front_price b.bids

unfoldable pub best_ask : OrderBook → Option Price
best_ask b = front_price b.asks

unfoldable pub best_bid_quantity : OrderBook → Option Quantity
best_bid_quantity b = front_quantity b.bids

unfoldable pub best_ask_quantity : OrderBook → Option Quantity
best_ask_quantity b = front_quantity b.asks

module _ {F : Type 0} ⦃d : Double F⦄ where
  open d use {add, sub, div, of_int}

  unfoldable pub mid_price : OrderBook → Option F
  unfolding best_bid best_ask
  mid_price b = elim (best_bid b) [
    | none ↦ none
    | some bb ↦ elim (best_ask b) [
      | none ↦ none
      | some ba ↦ some (div (add (to_double bb) (to_double ba)) (of_int (pos 2)))
    ]
  ]

  unfoldable pub spread : OrderBook → Option F
  unfolding best_bid best_ask
  spread b = elim (best_bid b) [
    | none ↦ none
    | some bb ↦ elim (best_ask b) [
      | none ↦ none
      | some ba ↦ some (sub (to_double ba) (to_double bb))
    ]
  ]

unfoldable pub crossed : OrderBook → Bool
unfolding best_bid best_ask
crossed b = elim (best_bid b) [
  | none ↦ false
  | some bb ↦ elim (best_ask b) [ none ↦ false | some ba ↦ price_le ba bb ]
]

-- `std::min(levels, size)` elements from the front.
unfoldable pub bid_depth : OrderBook → ℕ → List BookLevel
bid_depth b levels = take levels b.bids

unfoldable pub ask_depth : OrderBook → ℕ → List BookLevel
ask_depth b levels = take levels b.asks

pub record Snapshot : Type 0 where
  pub symbol : Symbol
  pub sequence : SequenceNumber
  pub timestamp : Timestamp
  pub bids : List BookLevel
  pub asks : List BookLevel

unfoldable pub snapshot : OrderBook → Snapshot
snapshot b = record {
  symbol = b.symbol;
  sequence = b.last_sequence;
  timestamp = b.last_update;
  bids = b.bids;
  asks = b.asks;
}
