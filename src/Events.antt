-- ===== src/Events.antt =====
-- src/marketdata/events.hpp: the market event and its constructors.
use lob_market_maker.Prelude.{ℕ, pos}
use lob_market_maker.Types.{Price, no_price, Quantity, SequenceNumber, Timestamp, Side, buy, Symbol}

-- The last constructor is a value without enumerator, which a cast of a byte can give.
pub data EventType : Type 0 where
  quote trade book_delete snapshot heartbeat : EventType
  unnamed : ℕ → EventType

pub record MarketEvent : Type 0 where
  pub timestamp : Timestamp
  pub sequence : SequenceNumber
  pub symbol : Symbol
  pub type : EventType
  pub price : Price
  pub quantity : Quantity
  pub side : Side

abbrev pub make_quote : Timestamp → SequenceNumber → Symbol → Side → Price → Quantity → MarketEvent
make_quote ts seq sym sd px qty = record {
  timestamp = ts;
  sequence = seq;
  symbol = sym;
  type = quote;
  price = px;
  quantity = qty;
  side = sd;
}

abbrev pub make_trade : Timestamp → SequenceNumber → Symbol → Side → Price → Quantity → MarketEvent
make_trade ts seq sym aggressor px qty = record {
  timestamp = ts;
  sequence = seq;
  symbol = sym;
  type = trade;
  price = px;
  quantity = qty;
  side = aggressor;
}

abbrev pub make_delete : Timestamp → SequenceNumber → Symbol → Side → Price → MarketEvent
make_delete ts seq sym sd px = record {
  timestamp = ts;
  sequence = seq;
  symbol = sym;
  type = book_delete;
  price = px;
  quantity = pos 0;
  side = sd;
}

abbrev pub make_heartbeat : Timestamp → SequenceNumber → Symbol → MarketEvent
make_heartbeat ts seq sym = record {
  timestamp = ts;
  sequence = seq;
  symbol = sym;
  type = heartbeat;
  price = no_price;
  quantity = pos 0;
  side = buy;
}
