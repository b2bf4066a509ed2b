-- ===== src/TradeTape/Overlay.antt =====
-- The synthetic book of the adapter: one level on each side, at the prices that it remembers.
use lob_market_maker.Prelude.{
  ◌≡◌, refl, sym, ap, ◌∙◌, true, false, Option, none, some, List, [], ◌∷◌, ◌++◌, arith, Bool-cases,
  inl, inr,
}
use lob_market_maker.Types.{
  Price, price_eq, Quantity, SequenceNumber, Timestamp, Side, buy, sell, Symbol,
}
use lob_market_maker.Events.{MarketEvent}
use lob_market_maker.Double.{Double}
use lob_market_maker.OrderBook.{
  OrderBook, BookLevel, apply, dispatch, upsert, erase, upsert_levels, erase_levels, find_position,
  lower_bound, is_at, is_zero,
}
use lob_market_maker.OrderBook.View.{apply_all}
use lob_market_maker.TradeTape.{
  FinnhubTrade, TradeTapeAdapter, number, events_of, moved_from, events_for, quantity_of, bid_of,
  ask_of, on_trade, on_tape,
}

abbrev level : Price → Quantity → BookLevel
level p q = record { price = p; quantity = q }

-- The side of the book shows exactly this price, or nothing.
abbrev pub Shows : Option Price → List BookLevel → Type 0
Shows none ls = ls ≡ []
Shows (some p) ls = (q : Quantity) × (ls ≡ level p q ∷ [])

-- What the events of a trade do to one side.
abbrev after_deletion : Side → Option Price → List BookLevel → List BookLevel
after_deletion s none ls = ls
after_deletion s (some old) ls = erase_levels ls s old

abbrev after_events : Side → Option Price → Price → Quantity → List BookLevel → List BookLevel
after_events s old new q ls = upsert_levels (after_deletion s old ls) s new q

upsert-empty :
    (s : Side) (p : Price) (q : Quantity)
    → is_zero q ≡ false
    → upsert_levels [] s p q ≡ level p q ∷ []
unfolding upsert_levels find_position lower_bound is_at
upsert-empty s p q h = rw h

upsert-same :
    (s : Side) (p r : Price) (q x : Quantity)
    → is_zero q ≡ false
    → price_eq r p ≡ true
    → upsert_levels (level r x ∷ []) s p q ≡ level p q ∷ []
unfolding upsert_levels find_position lower_bound is_at
upsert-same buy p r q x h e = ground arith
upsert-same sell p r q x h e = ground arith

erase-only : (s : Side) (p : Price) (x : Quantity) → erase_levels (level p x ∷ []) s p ≡ []
unfolding erase_levels find_position lower_bound is_at
erase-only buy p x = ground arith
erase-only sell p x = ground arith

after_events_lem :
    (s : Side) (old : Option Price) (new : Price) (q : Quantity) (ls : List BookLevel)
    → is_zero q ≡ false
    → Shows old ls
    → after_events s (moved_from old new) new q ls ≡ level new q ∷ []
after_events_lem s none new q ls h e = rw e (upsert-empty s new q h)
after_events_lem s (some old) new q ls h (x, e) = elim (Bool-cases (price_eq old new)) [
  | inl same ↦ rw (same, e) (upsert-same s new old q x h same)
  | inr moved ↦ rw (moved, e, erase-only s old x) (upsert-empty s new q h)
]

-- The events of a trade act on each side by itself.
apply_all-events_of :
    (b : OrderBook) (n : SequenceNumber) (ts : Timestamp) (sym : Symbol) (side : Side)
    (price : Price) (qty : Quantity) (old_bid old_ask : Option Price) (new_bid new_ask : Price)
    → let evs = (number n (events_of ts sym side price qty old_bid old_ask new_bid new_ask)).1 in
      ((apply_all b evs).bids ≡ after_events buy old_bid new_bid qty b.bids)
      × ((apply_all b evs).asks ≡ after_events sell old_ask new_ask qty b.asks)
unfolding apply_all number events_of apply dispatch upsert erase
apply_all-events_of b n ts sym side price qty none none new_bid new_ask = (refl, refl)
apply_all-events_of b n ts sym side price qty none (some y) new_bid new_ask = (refl, refl)
apply_all-events_of b n ts sym side price qty (some x) none new_bid new_ask = (refl, refl)
apply_all-events_of b n ts sym side price qty (some x) (some y) new_bid new_ask = (refl, refl)

apply_all-append :
    (b : OrderBook) (xs ys : List MarketEvent)
    → apply_all b (xs ++ ys) ≡ apply_all (apply_all b xs) ys
unfolding apply_all
apply_all-append b [] ys = refl
apply_all-append b (x ∷ xs) ys = apply_all-append (apply b x) xs ys

module _ {F : Type 0} ⦃d : Double F⦄ where
  -- The book shows on each side just the price that the adapter remembers, or nothing if it remembers
  -- none.
  pub record Overlaid (a : TradeTapeAdapter F) (b : OrderBook) : Type 0 where
    pub bid_shown : Shows a.bid b.bids
    pub ask_shown : Shows a.ask b.asks

  quantity_of-some : (t : FinnhubTrade F) → is_zero (quantity_of t) ≡ false
  unfolding quantity_of
  quantity_of-some t = ground arith

  on_trade-Overlaid :
      (a : TradeTapeAdapter F) (t : FinnhubTrade F) (out : List MarketEvent) (b : OrderBook)
      → Overlaid a (apply_all b out)
      → Overlaid (on_trade a t out).0 (apply_all b (on_trade a t out).1)
  unfolding on_trade events_for
  on_trade-Overlaid a t out b v =
      let (bids, asks) =
        apply_all-events_of (apply_all b out) a.seq _ _ _ _ (quantity_of t)
          (moved_from a.bid (bid_of a t)) (moved_from a.ask (ask_of a t)) (bid_of a t)
          (ask_of a t) in
      let some_quantity = quantity_of-some t in
      let here = apply_all-append b out (number a.seq (events_for a t)).1 in
      record {
        bid_shown = (
          quantity_of t,
          ap (λ x. x.bids) here
              ∙ bids
              ∙ after_events_lem buy a.bid (bid_of a t) (quantity_of t) (apply_all b out).bids
                  some_quantity v.bid_shown,
        );
        ask_shown = (
          quantity_of t,
          ap (λ x. x.asks) here
              ∙ asks
              ∙ after_events_lem sell a.ask (ask_of a t) (quantity_of t) (apply_all b out).asks
                  some_quantity v.ask_shown,
        );
      }

  -- If a book with the events so far shows just the remembered prices, then with the events of any
  -- further trades it shows just the prices remembered after them: one bid and one ask.
  pub on_tape-Overlaid :
      (a : TradeTapeAdapter F) (ts : List (FinnhubTrade F)) (out : List MarketEvent) (b : OrderBook)
      → Overlaid a (apply_all b out)
      → Overlaid (on_tape a ts out).0 (apply_all b (on_tape a ts out).1)
  unfolding on_tape
  on_tape-Overlaid a [] out b v = v
  on_tape-Overlaid a (t ∷ ts) out b v =
      on_tape-Overlaid (on_trade a t out).0 ts (on_trade a t out).1 b
        (on_trade-Overlaid a t out b v)
