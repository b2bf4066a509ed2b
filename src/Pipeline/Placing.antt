-- ===== src/Pipeline/Placing.antt =====
-- A new quote and its order, and what a side without a quote has open.
use lob_market_maker.Prelude.{
  ℕ, ◌+◌, ◌≡◌, refl, Option, none, some, [], ◌∷◌, pos, ◌<ℤ◌, ◌+ℤ◌, arith, All,
}
use lob_market_maker.Types.{OrderId, Quantity, Side, buy, sell}
use lob_market_maker.Execution.{Order, Orders, remaining_quantity, find_order}
use lob_market_maker.Execution.Keys.{Fresh}
use lob_market_maker.Execution.Exposure.{open_on, on_side}
use lob_market_maker.Pipeline.{RestingQuote}
use lob_market_maker.Pipeline.Slots.{Slots, at_side, filled_with, HasKey, Owned, Backed, Coherent}

on_side-other :
    (s t : Side) (c : Slots) (k : OrderId) (q : Quantity)
    → at_side s c ≡ none
    → HasKey k (at_side t c)
    → on_side s t q ≡ pos 0
unfolding on_side
on_side-other buy buy c k q e h = absurd (rw e at h)
on_side-other buy sell c k q e h = refl
on_side-other sell buy c k q e h = refl
on_side-other sell sell c k q e h = absurd (rw e at h)

-- A side without a quote has nothing open.
pub open_on-emptied :
    (s : Side) (c : Slots) (next : ℕ) (os : Orders)
    → at_side s c ≡ none
    → All (Owned c next) os
    → open_on s os ≡ pos 0
unfolding open_on ◌+ℤ◌
open_on-emptied s c next [] e h = refl
open_on-emptied s c next ((k, o) ∷ os) e h = rw (
  open_on-emptied s c next os e h.1,
  on_side-other s o.side c k (remaining_quantity o) e h.0.quoted,
)

-- Placing a quote on an empty side.
Owned-filled :
    (s : Side) (c : Slots) (next : ℕ) (q : RestingQuote) (os : Orders)
    → at_side s c ≡ none
    → All (Owned c next) os
    → All (Owned (filled_with s q c) (next + 1)) os
Owned-filled s c next q [] e h = tt
Owned-filled s c next q ((k, o) ∷ os) e h = (
  record {
    own_id = h.0.own_id;
    issued = omega (arith, h.0.issued);
    quoted = kept s o.side c k e h.0.quoted;
  },
  Owned-filled s c next q os e h.1,
)
  where
    kept :
        (t u : Side) (b : Slots) (j : OrderId)
        → at_side t b ≡ none
        → HasKey j (at_side u b)
        → HasKey j (at_side u (filled_with t q b))
    kept buy buy b j e h = absurd (rw e at h)
    kept buy sell b j e h = h
    kept sell buy b j e h = h
    kept sell sell b j e h = absurd (rw e at h)

pub Fresh-Owned : (c : Slots) (next : ℕ) (os : Orders) → All (Owned c next) os → Fresh next os
Fresh-Owned c next [] h = tt
Fresh-Owned c next ((k, o) ∷ os) h = (ground (arith, h.0.issued), Fresh-Owned c next os h.1)

find_order-cons_self : (k : OrderId) (o : Order) (os : Orders) → find_order k ((k, o) ∷ os) ≡ some o
unfolding find_order
find_order-cons_self k o os = ground arith

Backed-cons :
    (s : Side) (next : ℕ) (o : Order) (os : Orders) (slot : Option RestingQuote)
    → Backed s next os slot
    → Backed s (next + 1) ((next, o) ∷ os) slot
unfolding find_order
Backed-cons s next o os none h = tt
Backed-cons s next o os (some r) (x, e, a, l) = (x, ground (arith, e), a, omega arith)

quoted_self :
    (s : Side) (c : Slots) (q : RestingQuote) (k : OrderId)
    → q.id ≡ k
    → HasKey k (at_side s (filled_with s q c))
quoted_self buy c q k e = e
quoted_self sell c q k e = e

Backed-bid :
    (s : Side) (c : Slots) (next : ℕ) (os : Orders) (q : RestingQuote) (o : Order)
    → Backed s (next + 1) ((next, o) ∷ os) (some q)
    → Backed buy (next + 1) ((next, o) ∷ os) c.bid
    → Backed buy (next + 1) ((next, o) ∷ os) (filled_with s q c).bid
Backed-bid buy c next os q o new old = new
Backed-bid sell c next os q o new old = old

Backed-ask :
    (s : Side) (c : Slots) (next : ℕ) (os : Orders) (q : RestingQuote) (o : Order)
    → Backed s (next + 1) ((next, o) ∷ os) (some q)
    → Backed sell (next + 1) ((next, o) ∷ os) c.ask
    → Backed sell (next + 1) ((next, o) ∷ os) (filled_with s q c).ask
Backed-ask buy c next os q o new old = old
Backed-ask sell c next os q o new old = new

-- Placing a quote under a new id on an empty side keeps quotes and orders together.
pub Coherent-place :
    (s : Side) (c : Slots) (next : ℕ) (os : Orders) (q : RestingQuote) (o : Order)
    → at_side s c ≡ none
    → q.id ≡ next
    → o.id ≡ next
    → o.side ≡ s
    → pos 0 <ℤ remaining_quantity o
    → Coherent c next os
    → Coherent (filled_with s q c) (next + 1) ((next, o) ∷ os)
Coherent-place s c next os q o e qi oi side left v =
    let own : Owned (filled_with s q c) (next + 1) (next, o) = record {
      own_id = oi;
      issued = omega arith;
      quoted = rw side (quoted_self s c q next qi);
    } in
    let backed : Backed s (next + 1) ((next, o) ∷ os) (some q) =
      (o, rw qi (find_order-cons_self next o os), side, omega (arith, qi)) in
    record {
      owned = (own, Owned-filled s c next q os e v.owned);
      distinct = (Fresh-Owned c next os v.owned, v.distinct);
      positive = (left, v.positive);
      bid_backed = Backed-bid s c next os q o backed (Backed-cons buy next o os c.bid v.bid_backed);
      ask_backed =
          Backed-ask s c next os q o backed (Backed-cons sell next o os c.ask v.ask_backed);
    }
