-- ===== src/TradeTape/Numbers.antt =====
-- The sequence numbers of the adapter are consecutive.
use lob_market_maker.Prelude.{◌≡◌, refl, Option, none, some, List, [], ◌∷◌, ◌++◌, inc, All}
use lob_market_maker.Types.{Price, from_double, Quantity, SequenceNumber, Timestamp, Side, Symbol}
use lob_market_maker.Events.{MarketEvent}
use lob_market_maker.Double.{Double}
use lob_market_maker.TradeTape.{
  FinnhubTrade, TradeTapeAdapter, number, events_of, events_for, moved_from, bid_of, ask_of,
  tick_side, on_trade, on_tape,
}

-- The events are numbered from n on without a gap, and k is the next number.
abbrev pub Numbered : SequenceNumber → List MarketEvent → SequenceNumber → Type 0
Numbered n [] k = n ≡ k
Numbered n (e ∷ es) k = (e.sequence ≡ n) × Numbered (inc n) es k

abbrev Stamped : List (SequenceNumber → MarketEvent) → Type 0
Stamped = All λ f. (n : SequenceNumber) → (f n).sequence ≡ n

number-Numbered :
    (n : SequenceNumber) (fs : List (SequenceNumber → MarketEvent))
    → Stamped fs
    → Numbered n (number n fs).1 (number n fs).0
unfolding number
number-Numbered n [] s = refl
number-Numbered n (f ∷ fs) s = (s.0 n, number-Numbered (inc n) fs s.1)

events_of-Stamped :
    (ts : Timestamp) (symbol : Symbol) (side : Side) (price : Price) (qty : Quantity)
    (old_bid old_ask : Option Price) (new_bid new_ask : Price)
    → Stamped (events_of ts symbol side price qty old_bid old_ask new_bid new_ask)
unfolding events_of
events_of-Stamped ts symbol side price qty none none nb na =
    (λ n. refl, (λ n. refl, (λ n. refl, tt)))
events_of-Stamped ts symbol side price qty none (some y) nb na =
    (λ n. refl, (λ n. refl, (λ n. refl, (λ n. refl, tt))))
events_of-Stamped ts symbol side price qty (some x) none nb na =
    (λ n. refl, (λ n. refl, (λ n. refl, (λ n. refl, tt))))
events_of-Stamped ts symbol side price qty (some x) (some y) nb na =
    (λ n. refl, (λ n. refl, (λ n. refl, (λ n. refl, (λ n. refl, tt)))))

Numbered-append :
    (n m k : SequenceNumber) (xs ys : List MarketEvent)
    → Numbered n xs m
    → Numbered m ys k
    → Numbered n (xs ++ ys) k
Numbered-append n m k [] ys e h = rw e h
Numbered-append n m k (x ∷ xs) ys h g = (h.0, Numbered-append (inc n) m k xs ys h.1 g)

module _ {F : Type 0} ⦃d : Double F⦄ where
  events_for-Stamped : (a : TradeTapeAdapter F) (t : FinnhubTrade F) → Stamped (events_for a t)
  unfolding events_for
  events_for-Stamped a t =
      events_of-Stamped _ _ (tick_side a t.price) (from_double t.price) _
        (moved_from a.bid (bid_of a t)) (moved_from a.ask (ask_of a t)) _ _

  on_trade-Numbered :
      (n : SequenceNumber) (a : TradeTapeAdapter F) (t : FinnhubTrade F) (out : List MarketEvent)
      → Numbered n out a.seq
      → Numbered n (on_trade a t out).1 (on_trade a t out).0.seq
  unfolding on_trade
  on_trade-Numbered n a t out h =
      let evs = number a.seq (events_for a t) in
      Numbered-append n a.seq evs.0 out evs.1 h
        (number-Numbered a.seq (events_for a t) (events_for-Stamped a t))

  -- If the events so far are numbered consecutively from n on up to the adapter's next number, so are
  -- all events after any further trades.
  pub on_tape-Numbered :
      (n : SequenceNumber) (a : TradeTapeAdapter F) (ts : List (FinnhubTrade F))
      (out : List MarketEvent)
      → Numbered n out a.seq
      → Numbered n (on_tape a ts out).1 (on_tape a ts out).0.seq
  unfolding on_tape
  on_tape-Numbered n a [] out h = h
  on_tape-Numbered n a (t ∷ ts) out h =
      on_tape-Numbered n (on_trade a t out).0 ts (on_trade a t out).1
        (on_trade-Numbered n a t out h)
