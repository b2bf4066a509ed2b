-- ===== src/Finnhub.antt =====
-- src/marketdata/finnhub_parser.cpp and finnhub_client.cpp: messages of the feed turned into trades
-- and events. The JSON library is an interface: its parser and the accessors that the code calls.
pub mod Messages
pub mod Ticks
pub mod Client
use lob_market_maker.Prelude.{
  ℕ, ◌+◌, ◌%◌, ◌^◌, Bool, true, false, not, ◌&&◌, ◌||◌, Option, none, some, List, [], ◌∷◌, ◌++◌, ℤ,
  pos, inc, if◌then◌else◌,
}
use lob_market_maker.Types.{same_text}
use lob_market_maker.Events.{MarketEvent}
use lob_market_maker.Double.{Double}
use lob_market_maker.TradeTape
use lob_market_maker.TradeTape.{FinnhubTrade, TradeTapeAdapter, on_tape}

-- `nlohmann::json`; `parse` gives nothing for a discarded document.
pub record Json (J F : Type 0) : Type 0 where
  pub parse : List ℕ → Option J
  pub is_object : J → Bool
  pub is_array : J → Bool
  pub is_string : J → Bool
  pub is_number : J → Bool
  pub is_number_integer : J → Bool
  pub find : J → List ℕ → Option J
  pub elements : J → List J
  pub get_string : J → List ℕ
  pub get_double : J → F
  pub get_int : J → ℤ

pub data FinnhubParseStatus : Type 0 where
  trades_message ignored malformed : FinnhubParseStatus

pub record FinnhubParseResult (F : Type 0) : Type 0 where
  pub status : FinnhubParseStatus
  pub trades : List (FinnhubTrade F)
  pub malformed_ticks : ℕ

abbrev pub no_result : {F : Type 0} → FinnhubParseResult F
no_result = record { status = malformed; trades = []; malformed_ticks = 0 }

-- The keys and the type of message that the parser looks for.
abbrev pub key_type : List ℕ
key_type = 116 ∷ 121 ∷ 112 ∷ 101 ∷ []

abbrev pub key_data : List ℕ
key_data = 100 ∷ 97 ∷ 116 ∷ 97 ∷ []

abbrev pub trade_text : List ℕ
trade_text = 116 ∷ 114 ∷ 97 ∷ 100 ∷ 101 ∷ []

module _ {J F : Type 0} ⦃d : Double F⦄ (json : Json J F) where
  open d use {of_int, lt}
  open json use {
    parse, is_object, is_array, is_string, is_number, is_number_integer, find, elements, get_string,
    get_double, get_int,
  }

  -- The member under a key, if it passes a test.
  abbrev pub member : J → ℕ → (J → Bool) → Option J
  member j key test = elim (find j (key ∷ [])) [
    | none ↦ none
    | some v ↦ if test v then some v else none
  ]

  -- The trade that a tick is, if all its fields are there and its price is positive.
  unfoldable pub trade_of_fields :
      Option J → Option J → Option J → Option J → Option (FinnhubTrade F)
  trade_of_fields (some s) (some p) (some v) (some t) =
      if lt (of_int (pos 0)) (get_double p)
      then some record {
        symbol = get_string s;
        price = get_double p;
        volume = get_double v;
        timestamp_ms = get_int t;
      }
      else none
  trade_of_fields s p v t = none

  unfoldable pub trade_of_tick : J → Option (FinnhubTrade F)
  unfolding trade_of_fields
  trade_of_tick tick =
      if is_object tick
      then trade_of_fields (member tick 115 is_string) (member tick 112 is_number)
          (member tick 118 is_number) (member tick 116 is_number_integer)
      else none

  -- The loop over the ticks, and its body for the trade that a tick is, if any.
  unfoldable pub add_tick : Option (FinnhubTrade F) → FinnhubParseResult F → FinnhubParseResult F
  add_tick none result = record result { malformed_ticks = inc result.malformed_ticks }
  add_tick (some t) result = record result { trades = result.trades ++ (t ∷ []) }

  unfoldable pub read_ticks : List J → FinnhubParseResult F → FinnhubParseResult F
  unfolding trade_of_tick add_tick
  read_ticks [] result = result
  read_ticks (tick ∷ ticks) result = read_ticks ticks (add_tick (trade_of_tick tick) result)

  unfoldable pub parse_data : Option J → FinnhubParseResult F
  unfolding read_ticks
  parse_data none = no_result
  parse_data (some data_it) =
      if is_array data_it
      then read_ticks (elements data_it) (record no_result { status = trades_message })
      else no_result

  unfoldable pub parse_document : J → Option J → FinnhubParseResult F
  unfolding parse_data
  parse_document doc none = no_result
  parse_document doc (some type_it) =
      if not (is_string type_it)
      then no_result
      else if not (same_text (get_string type_it) trade_text)
      then record no_result { status = ignored }
      else parse_data (find doc key_data)

  unfoldable pub parse_parsed : Option J → FinnhubParseResult F
  unfolding parse_document
  parse_parsed none = no_result
  parse_parsed (some doc) =
      if is_object doc then parse_document doc (find doc key_type) else no_result

  unfoldable pub parse_finnhub_message : List ℕ → FinnhubParseResult F
  unfolding parse_parsed
  parse_finnhub_message payload = parse_parsed (parse payload)

-- `FinnhubClient`, with the events passed to its callback so far.
pub record FinnhubClient (F : Type 0) : Type 0 where
  pub connected : Bool
  pub ever_connected : Bool
  pub reconnect_count : ℕ
  pub messages_received : ℕ
  pub malformed_messages : ℕ
  pub adapter : TradeTapeAdapter F
  pub delivered : List MarketEvent

-- The messages of the web socket library to which the client reacts.
pub data WebSocketMessage : Type 0 where
  open_message close_message error_message : WebSocketMessage
  text_message : List ℕ → WebSocketMessage

module _ {J F : Type 0} ⦃d : Double F⦄ (json : Json J F) where
  unfoldable pub create : F → FinnhubClient F
  create synthetic_spread = record {
    connected = false;
    ever_connected = false;
    reconnect_count = 0;
    messages_received = 0;
    malformed_messages = 0;
    adapter = TradeTape.create synthetic_spread;
    delivered = [];
  }

  -- A message that is no trade message of the right form has no trades, so that its batch is empty.
  unfoldable pub handle_result :
      FinnhubParseStatus → FinnhubParseResult F → FinnhubClient F → FinnhubClient F
  unfolding on_tape
  handle_result malformed parsed c = record c { malformed_messages = inc c.malformed_messages }
  handle_result _ parsed c =
      let (adapter, batch) = on_tape c.adapter parsed.trades [] in
      record c {
        malformed_messages = (c.malformed_messages + parsed.malformed_ticks) % 2 ^ 64;
        adapter = adapter;
        delivered = c.delivered ++ batch;
      }

  unfoldable pub handle_text_message : List ℕ → FinnhubClient F → FinnhubClient F
  unfolding handle_result parse_finnhub_message
  handle_text_message payload c =
      let parsed = parse_finnhub_message json payload in handle_result parsed.status parsed c

  -- The callback set in `start`.
  unfoldable pub on_message : WebSocketMessage → FinnhubClient F → FinnhubClient F
  unfolding handle_text_message
  on_message open_message c = record c {
    connected = true;
    ever_connected = true;
    reconnect_count = if c.ever_connected then inc c.reconnect_count else c.reconnect_count;
  }
  on_message close_message c = record c { connected = false }
  on_message error_message c = record c { connected = false }
  on_message (text_message payload) c =
      handle_text_message payload (record c { messages_received = inc c.messages_received })

  unfoldable pub on_messages : List WebSocketMessage → FinnhubClient F → FinnhubClient F
  unfolding on_message
  on_messages [] c = c
  on_messages (m ∷ ms) c = on_messages ms (on_message m c)

  unfoldable pub stop : FinnhubClient F → FinnhubClient F
  stop c = record c { connected = false }
