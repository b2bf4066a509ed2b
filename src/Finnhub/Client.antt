-- ===== src/Finnhub/Client.antt =====
-- The events that the client passes on, over all its messages.
use mathlib.Core.List.{append-nil, append_assoc}
use lob_market_maker.Prelude.{ℕ, inc, ◌≡◌, Option, refl, sym, ap, ◌∙◌, List, [], ◌∷◌, ◌++◌}
use lob_market_maker.Events.{MarketEvent}
use lob_market_maker.Double.{Double}
use lob_market_maker.TradeTape.{FinnhubTrade, TradeTapeAdapter, on_trade, on_tape}
use lob_market_maker.Finnhub.{
  Json, FinnhubParseStatus, trades_message, ignored, malformed, FinnhubParseResult, FinnhubClient,
  WebSocketMessage, open_message, close_message, error_message, text_message, parse_finnhub_message,
  handle_result, handle_text_message, on_message, on_messages,
}
use lob_market_maker.Finnhub.Messages.{
  Means, of_trades, of_other, of_unread, of_untyped, of_no_data,
}
use lob_market_maker.Finnhub.Ticks.{parse_finnhub_message-Means}

module _ {F : Type 0} ⦃d : Double F⦄ where
  -- The output vector only grows, and what is put there does not depend on it.
  on_tape-out :
      (a : TradeTapeAdapter F) (ts : List (FinnhubTrade F)) (out : List MarketEvent)
      → on_tape a ts out ≡ ((on_tape a ts []).0, out ++ (on_tape a ts []).1)
  unfolding on_tape on_trade
  on_tape-out a [] out = ap (λ xs. (a, xs)) (sym (append-nil out))
  on_tape-out a (t ∷ ts) out =
      let a' = (on_trade a t out).0 in
      let evs = (on_trade a t []).1 in
      on_tape-out a' ts (out ++ evs)
      ∙ ap (λ xs. ((on_tape a' ts []).0, xs)) (append_assoc out evs (on_tape a' ts []).1)
      ∙ sym (ap (λ r. (r.0, out ++ r.1)) (on_tape-out a' ts evs))

  on_tape-append :
      (a : TradeTapeAdapter F) (xs ys : List (FinnhubTrade F)) (out : List MarketEvent)
      → on_tape a (xs ++ ys) out ≡ on_tape (on_tape a xs out).0 ys (on_tape a xs out).1
  unfolding on_tape
  on_tape-append a [] ys out = refl
  on_tape-append a (t ∷ xs) ys out = on_tape-append (on_trade a t out).0 xs ys (on_trade a t out).1

module _ {J F : Type 0} ⦃d : Double F⦄ (json : Json J F) where
  trades-Means :
      (o : Option J) (r : FinnhubParseResult F)
      → Means json o r
      → r.status ≡ malformed
      → r.trades ≡ []
  trades-Means o r (of_trades typed there amounts) e = absurd (cc e)
  trades-Means o r (of_other typed other) e = refl
  trades-Means o r of_unread e = refl
  trades-Means o r (of_untyped none_there) e = refl
  trades-Means o r (of_no_data typed none_there) e = refl

  -- The trades of all text messages.
  pub trades_of : List WebSocketMessage → List (FinnhubTrade F)
  trades_of [] = []
  trades_of (text_message payload ∷ ms) =
      (parse_finnhub_message json payload).trades ++ trades_of ms
  trades_of (m ∷ ms) = trades_of ms

  abbrev adapted : FinnhubClient F → TradeTapeAdapter F × List MarketEvent
  adapted c = (c.adapter, c.delivered)

  handle_result-tape :
      (status : FinnhubParseStatus) (r : FinnhubParseResult F) (c : FinnhubClient F)
      → (status ≡ malformed → r.trades ≡ [])
      → adapted (handle_result json status r c) ≡ on_tape c.adapter r.trades c.delivered
  unfolding handle_result on_tape
  handle_result-tape malformed r c none_there = rw (none_there refl) refl
  handle_result-tape ignored r c none_there = sym (on_tape-out c.adapter r.trades c.delivered)
  handle_result-tape trades_message r c none_there =
      sym (on_tape-out c.adapter r.trades c.delivered)

  handle_text_message-tape :
      (payload : List ℕ) (c : FinnhubClient F)
      → adapted (handle_text_message json payload c)
        ≡ on_tape c.adapter (parse_finnhub_message json payload).trades c.delivered
  unfolding handle_text_message
  handle_text_message-tape payload c =
      let parsed = parse_finnhub_message json payload in
      handle_result-tape parsed.status parsed c
        (trades-Means (json.parse payload) parsed (parse_finnhub_message-Means json payload))

  -- Whatever messages of the web socket come, opened and closed connections between them, the adapter
  -- and the events passed on are those of one tape with the trades of all text messages, in order.
  pub on_messages-tape :
      (ms : List WebSocketMessage) (c : FinnhubClient F)
      → ((on_messages json ms c).adapter, (on_messages json ms c).delivered)
        ≡ on_tape c.adapter (trades_of ms) c.delivered
  unfolding on_messages on_message trades_of on_tape
  on_messages-tape [] c = refl
  on_messages-tape (text_message payload ∷ ms) c =
      let c' : FinnhubClient F = record c { messages_received = inc c.messages_received } in
      let parsed = parse_finnhub_message json payload in
      on_messages-tape ms (handle_text_message json payload c')
      ∙ ap (λ r. on_tape r.0 (trades_of ms) r.1) (handle_text_message-tape payload c')
      ∙ sym (on_tape-append c.adapter parsed.trades (trades_of ms) c.delivered)
  on_messages-tape (open_message ∷ ms) c = on_messages-tape ms (on_message json open_message c)
  on_messages-tape (close_message ∷ ms) c = on_messages-tape ms (on_message json close_message c)
  on_messages-tape (error_message ∷ ms) c = on_messages-tape ms (on_message json error_message c)
