-- ===== src/OrderBook/View.antt =====
-- The book as a map: the resting quantity at each side and price.
use mathlib.Core.Path.{fun_ext}
use lob_market_maker.Prelude.{
  ◌≡◌, refl, ap, ◌∙◌, Bool, true, false, ◌&&◌, Option, none, some, List, [], ◌∷◌, if◌then◌else◌,
}
use lob_market_maker.Types.{Price, price_eq, Quantity, Side, buy, sell}
use lob_market_maker.Events.{MarketEvent, EventType}
use lob_market_maker.OrderBook.{OrderBook, upsert, erase, clear, dispatch, apply, is_zero}
use lob_market_maker.OrderBook.Sorted.{IsValid, apply-IsValid}
use lob_market_maker.OrderBook.Lookup.{quantity_at, quantity_at-upsert, quantity_at-erase}

abbrev pub Depth : Type 0
Depth = Side → Price → Option Quantity

unfoldable pub depth_of : OrderBook → Depth
depth_of b buy p = quantity_at p b.bids
depth_of b sell p = quantity_at p b.asks

abbrev pub same_side : Side → Side → Bool
same_side buy buy = true
same_side sell sell = true
same_side _ _ = false

-- One entry of the map overwritten, `none` for no entry.
abbrev pub put : Depth → Side → Price → Option Quantity → Depth
put m s p q t r = if same_side s t && price_eq p r then q else m t r

-- What an event means for the map.
abbrev pub meaning : Depth → MarketEvent → EventType → Depth
meaning m ev EventType.quote =
    put m ev.side ev.price (if is_zero ev.quantity then none else some ev.quantity)
meaning m ev EventType.book_delete = put m ev.side ev.price none
meaning m ev EventType.trade = m
meaning m ev EventType.snapshot = λ _ _. none
meaning m ev EventType.heartbeat = m
meaning m ev (EventType.unnamed n) = m

abbrev pub meaning_of_all : Depth → List MarketEvent → Depth
meaning_of_all m [] = m
meaning_of_all m (ev ∷ evs) = meaning_of_all (meaning m ev ev.type) evs

unfoldable pub apply_all : OrderBook → List MarketEvent → OrderBook
apply_all b [] = b
apply_all b (ev ∷ evs) = apply_all (apply b ev) evs

depth_of-upsert :
    (b : OrderBook) (s t : Side) (p r : Price) (q : Quantity)
    → IsValid b
    → depth_of (upsert b s p q) t r ≡ put (depth_of b) s p (if is_zero q then none else some q) t r
unfolding depth_of upsert
depth_of-upsert b buy buy p r q v = quantity_at-upsert buy p r q b.bids v.bids_sorted
depth_of-upsert b buy sell p r q v = refl
depth_of-upsert b sell buy p r q v = refl
depth_of-upsert b sell sell p r q v = quantity_at-upsert sell p r q b.asks v.asks_sorted

depth_of-erase :
    (b : OrderBook) (s t : Side) (p r : Price)
    → IsValid b
    → depth_of (erase b s p) t r ≡ put (depth_of b) s p none t r
unfolding depth_of erase
depth_of-erase b buy buy p r v = quantity_at-erase buy p r b.bids v.bids_sorted
depth_of-erase b buy sell p r v = refl
depth_of-erase b sell buy p r v = refl
depth_of-erase b sell sell p r v = quantity_at-erase sell p r b.asks v.asks_sorted

depth_of-clear : (b : OrderBook) (t : Side) (r : Price) → depth_of (clear b) t r ≡ none
unfolding depth_of clear quantity_at
depth_of-clear b buy r = refl
depth_of-clear b sell r = refl

depth_of-stamps :
    (b c : OrderBook) (t : Side) (r : Price)
    → b.bids ≡ c.bids
    → b.asks ≡ c.asks
    → depth_of b t r ≡ depth_of c t r
unfolding depth_of
depth_of-stamps b c buy r h k = rw h
depth_of-stamps b c sell r h k = rw k

depth_of-dispatch :
    (b : OrderBook) (ev : MarketEvent) (e : EventType) (t : Side) (r : Price)
    → IsValid b
    → depth_of (dispatch b ev e) t r ≡ meaning (depth_of b) ev e t r
unfolding dispatch
depth_of-dispatch b ev EventType.quote t r v = depth_of-upsert b ev.side t ev.price r ev.quantity v
depth_of-dispatch b ev EventType.book_delete t r v = depth_of-erase b ev.side t ev.price r v
depth_of-dispatch b ev EventType.trade t r v = depth_of-stamps _ b t r refl refl
depth_of-dispatch b ev EventType.snapshot t r v = depth_of-clear b t r
depth_of-dispatch b ev EventType.heartbeat t r v = refl
depth_of-dispatch b ev (EventType.unnamed n) t r v = refl

-- The two assignments at the head of `apply`.
abbrev stamp : OrderBook → MarketEvent → OrderBook
stamp b ev = record b { last_sequence = ev.sequence; last_update = ev.timestamp }

depth_of-stamp : (b : OrderBook) (ev : MarketEvent) → depth_of (stamp b ev) ≡ depth_of b
depth_of-stamp b ev = fun_ext λ t. fun_ext λ r. depth_of-stamps (stamp b ev) b t r refl refl

stamp-IsValid : (b : OrderBook) (ev : MarketEvent) → IsValid b → IsValid (stamp b ev)
stamp-IsValid b ev v = record {
  bids_sorted = v.bids_sorted;
  asks_sorted = v.asks_sorted;
  bids_full = v.bids_full;
  asks_full = v.asks_full;
}

-- On a valid book every event changes the map as its meaning says: a quote overwrites one entry or
-- removes it, a delete removes one, a snapshot removes all, and all else changes none.
pub apply_refines :
    (b : OrderBook) (ev : MarketEvent) (t : Side) (r : Price)
    → IsValid b
    → depth_of (apply b ev) t r ≡ meaning (depth_of b) ev ev.type t r
unfolding apply
apply_refines b ev t r v =
    depth_of-dispatch (stamp b ev) ev ev.type t r (stamp-IsValid b ev v)
    ∙ ap (λ m. meaning m ev ev.type t r) (depth_of-stamp b ev)

-- After any sequence of events a book that started valid is valid, and its map is the one it started
-- with changed as the events mean, one after the other.
pub apply_all_refines :
    (b : OrderBook) (evs : List MarketEvent)
    → IsValid b
    → IsValid (apply_all b evs) × (depth_of (apply_all b evs) ≡ meaning_of_all (depth_of b) evs)
unfolding apply_all
apply_all_refines b [] v = (v, refl)
apply_all_refines b (ev ∷ evs) v =
    let (w, e) = apply_all_refines (apply b ev) evs (apply-IsValid b ev v) in
    (w, e ∙ ap (λ m. meaning_of_all m evs) (fun_ext λ t. fun_ext λ r. apply_refines b ev t r v))
