-- ===== src/Tests/Feed.antt =====
-- The parser and the client on a message with one good tick and one bad tick, for a small stand-in of
-- the JSON library: its values are numbers, 0 the document, 2 the list of ticks, 3 and 7 the ticks.
use lob_market_maker.Prelude.{
  ℕ, ◌+◌, ◌≡◌, refl, ◌||◌, not, Option, none, some, List, [], ◌∷◌, ℤ, pos, length, ◌==◌,
  if◌then◌else◌, arith,
}
use lob_market_maker.Types.{same_text}
use lob_market_maker.Finnhub.{
  Json, key_type, key_data, trade_text, FinnhubClient, create, WebSocketMessage, open_message,
  close_message, text_message, parse_finnhub_message, on_messages, read_ticks, no_result,
}
use lob_market_maker.Finnhub.Messages.{Means}
use lob_market_maker.Finnhub.Ticks.{parse_finnhub_message-Means, read_ticks-counts}
use lob_market_maker.Finnhub.Client.{trades_of, on_messages-tape}
use lob_market_maker.TradeTape.{on_tape}
use lob_market_maker.Tests.Fixed.{fixed_double, of_int}

abbrev field_of : ℕ → ℕ → Option ℕ
field_of v key =
    if not (v == 3)
    then none
    else (if key == 115
        then some 4
        else (if key == 112 || key == 118 then some 5 else (if key == 116 then some 6 else none)))

abbrev find_in : ℕ → List ℕ → Option ℕ
find_in v (c ∷ []) = field_of v c
find_in v key =
    if same_text key key_type then some 1 else (if same_text key key_data then some 2 else none)

abbrev toy : Json ℕ ℤ
toy = record {
  parse = λ text. some 0;
  is_object = λ v. v == 0 || v == 3 || v == 7;
  is_array = λ v. v == 2;
  is_string = λ v. v == 1 || v == 4;
  is_number = λ v. v == 5 || v == 6;
  is_number_integer = λ v. v == 6;
  find = find_in;
  elements = λ v. 3 ∷ 7 ∷ [];
  get_string = λ v. if v == 1 then trade_text else 65 ∷ [];
  get_double = λ v. pos 190_000_000;
  get_int = λ v. pos 1_700_000_000_000;
}

message_runs :
    (length (parse_finnhub_message toy []).trades ≡ 1)
    × ((parse_finnhub_message toy []).malformed_ticks ≡ 1)
unfolding parse_finnhub_message of_int
message_runs = (refl, refl)

parse_finnhub_message-Means_example : Means toy (some 0) (parse_finnhub_message toy [])
parse_finnhub_message-Means_example = parse_finnhub_message-Means toy []

read_ticks-counts_example :
    length (read_ticks toy (3 ∷ 7 ∷ []) no_result).trades
      + (read_ticks toy (3 ∷ 7 ∷ []) no_result).malformed_ticks
    ≡ 0 + 0 + 2
read_ticks-counts_example = read_ticks-counts toy (3 ∷ 7 ∷ []) no_result (omega arith)

abbrev messages : List WebSocketMessage
messages = open_message ∷ text_message [] ∷ close_message ∷ open_message ∷ text_message [] ∷ []

abbrev client : FinnhubClient ℤ
client = create toy (pos 20_000)

on_messages-tape_example :
    ((on_messages toy messages client).adapter, (on_messages toy messages client).delivered)
    ≡ on_tape client.adapter (trades_of toy messages) client.delivered
on_messages-tape_example = on_messages-tape toy messages client
