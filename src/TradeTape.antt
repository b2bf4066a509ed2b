-- ===== src/TradeTape.antt =====
-- src/marketdata/trade_tape_adapter.hpp: trades turned into events, with a synthetic book around each.
pub mod Overlay
pub mod Numbers
use lob_market_maker.Prelude.{
  ℕ, not, Bool, Option, none, some, List, [], ◌∷◌, ◌++◌, ℤ, pos, ◌*ℤ◌, max_ℤ, inc, if◌then◌else◌,
}
use lob_market_maker.Types.{
  Price, price_eq, from_double, Quantity, SequenceNumber, Timestamp, Side, buy, sell, Symbol,
  symbol_of,
}
use lob_market_maker.Events.{MarketEvent, make_trade, make_quote, make_delete}
use lob_market_maker.Double.{Double}

-- `FinnhubTrade` of src/marketdata/finnhub_parser.hpp.
pub record FinnhubTrade (F : Type 0) : Type 0 where
  pub symbol : List ℕ
  pub price : F
  pub volume : F
  pub timestamp_ms : ℤ

pub record TradeTapeAdapter (F : Type 0) : Type 0 where
  pub half_spread : F
  pub seq : SequenceNumber
  pub last_price : Option F
  pub last_side : Side
  pub bid : Option Price
  pub ask : Option Price

-- `push_back` of events whose sequence number is `seq_++`, one after the other.
unfoldable pub number :
    SequenceNumber → List (SequenceNumber → MarketEvent) → SequenceNumber × List MarketEvent
number n [] = (n, [])
number n (f ∷ fs) = let (m, evs) = number (inc n) fs in (m, f n ∷ evs)

-- `old && *old != new`, and the old price.
abbrev pub moved_from : Option Price → Price → Option Price
moved_from none new = none
moved_from (some old) new = if price_eq old new then none else some old

-- The deletion of the synthetic level that moved, if it did.
abbrev pub deletion : Timestamp → Symbol → Side → Option Price → List (SequenceNumber → MarketEvent)
deletion ts sym s none = []
deletion ts sym s (some old) = (λ n. make_delete ts n sym s old) ∷ []

-- All events of one trade, the trade first.
unfoldable pub events_of :
    Timestamp
    → Symbol
    → Side
    → Price
    → Quantity
    → Option Price
    → Option Price
    → Price
    → Price
    → List (SequenceNumber → MarketEvent)
events_of ts sym side price qty old_bid old_ask new_bid new_ask =
    (λ n. make_trade ts n sym side price qty)
    ∷ (deletion ts sym buy old_bid
        ++ (deletion ts sym sell old_ask
            ++ ((λ n. make_quote ts n sym buy new_bid qty)
                ∷ (λ n. make_quote ts n sym sell new_ask qty)
                ∷ [])))

module _ {F : Type 0} ⦃d : Double F⦄ where
  open d use {of_int, add, sub, div, lt, llround}

  unfoldable pub create : F → TradeTapeAdapter F
  create synthetic_spread = record {
    half_spread = div synthetic_spread (of_int (pos 2));
    seq = 1;
    last_price = none;
    last_side = buy;
    bid = none;
    ask = none;
  }

  -- The tick rule.
  unfoldable pub tick_side : TradeTapeAdapter F → F → Side
  tick_side a price = elim a.last_price [
    | none ↦ a.last_side
    | some last ↦ if lt last price then buy else (if lt price last then sell else a.last_side)
  ]

  unfoldable pub quantity_of : FinnhubTrade F → Quantity
  quantity_of t = max_ℤ (pos 1) (llround t.volume)

  abbrev pub bid_of : TradeTapeAdapter F → FinnhubTrade F → Price
  bid_of a t = from_double (sub t.price a.half_spread)

  abbrev pub ask_of : TradeTapeAdapter F → FinnhubTrade F → Price
  ask_of a t = from_double (add t.price a.half_spread)

  -- The events of a trade, without their numbers.
  unfoldable pub events_for :
      TradeTapeAdapter F → FinnhubTrade F → List (SequenceNumber → MarketEvent)
  unfolding events_of tick_side quantity_of
  events_for a t =
      events_of (t.timestamp_ms *ℤ pos 1_000_000) (symbol_of t.symbol) (tick_side a t.price)
        (from_double t.price) (quantity_of t) (moved_from a.bid (bid_of a t))
        (moved_from a.ask (ask_of a t)) (bid_of a t) (ask_of a t)

  unfoldable pub on_trade :
      TradeTapeAdapter F → FinnhubTrade F → List MarketEvent → TradeTapeAdapter F × List MarketEvent
  unfolding number events_for
  on_trade a t out =
      let (seq, evs) = number a.seq (events_for a t) in
      (
        record a {
          seq = seq;
          last_price = some t.price;
          last_side = tick_side a t.price;
          bid = some (bid_of a t);
          ask = some (ask_of a t);
        },
        out ++ evs,
      )

  -- A tape of trades, with one output vector for all.
  unfoldable pub on_tape :
      TradeTapeAdapter F
      → List (FinnhubTrade F)
      → List MarketEvent
      → TradeTapeAdapter F × List MarketEvent
  unfolding on_trade
  on_tape a [] out = (a, out)
  on_tape a (t ∷ ts) out = let (a', out') = on_trade a t out in on_tape a' ts out'
