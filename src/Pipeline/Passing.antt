-- ===== src/Pipeline/Passing.antt =====
-- The resting quotes after a pass over the open orders: those whose orders are used up are reset.
use lob_market_maker.Prelude.{
  ℕ, ◌≡◌, refl, Option, none, some, List, [], ◌∷◌, if◌then◌else◌, arith, Bool-cases, inl, inr, ◌⊎◌,
  All,
}
use lob_market_maker.Types.{OrderId, Quantity, Timestamp, Side, buy, sell}
use lob_market_maker.Events.{MarketEvent}
use lob_market_maker.Execution.{Order, Orders, ExecutionReport, fill_order, fill_report}
use lob_market_maker.Execution.Fills.{Fills}
use lob_market_maker.Execution.Keys.{Fresh, Without, Distinct, live, is_used_up, Fresh-Fills}
use lob_market_maker.Pipeline.{RestingQuote}
use lob_market_maker.Pipeline.Quotes.{reset_if, is_filled}
use lob_market_maker.Pipeline.Slots.{Slots, at_side, HasKey, Owned}

-- `reset_if` for each key in turn.
abbrev pub reset_all : List OrderId → Option RestingQuote → Option RestingQuote
reset_all [] q = q
reset_all (k ∷ ks) q = reset_all ks (reset_if k q)

abbrev pub reset_slots : List OrderId → Slots → Slots
reset_slots ks c = record { bid = reset_all ks c.bid; ask = reset_all ks c.ask }

-- The ids of the reports that say Filled.
abbrev pub filled_ids : List ExecutionReport → List OrderId
filled_ids [] = []
filled_ids (r ∷ rs) = if is_filled r.status then r.order_id ∷ filled_ids rs else filled_ids rs

pub reset_all-none : (ks : List OrderId) → reset_all ks none ≡ none
reset_all-none [] = refl
reset_all-none (k ∷ ks) = reset_all-none ks

-- A quote is either reset or untouched.
pub reset_all-cases :
    (ks : List OrderId) (q : RestingQuote)
    → (reset_all ks (some q) ≡ none) ⊎ (Without q.id ks × (reset_all ks (some q) ≡ some q))
reset_all-cases [] q = inr (tt, refl)
reset_all-cases (k ∷ ks) q = ground (arith, reset_all-cases ks q, reset_all-none ks)

reset_all-Without :
    (ks : List OrderId) (q : RestingQuote) → Without q.id ks → reset_all ks (some q) ≡ some q
reset_all-Without [] q w = refl
reset_all-Without (k ∷ ks) q w = ground (arith, reset_all-Without ks q w.1)

HasKey-reset_all :
    (ks : List OrderId) (k : OrderId) (slot : Option RestingQuote)
    → Without k ks
    → HasKey k slot
    → HasKey k (reset_all ks slot)
HasKey-reset_all ks k none w h = absurd h
HasKey-reset_all ks k (some q) w h = rw (reset_all-Without ks q (rw h w)) h

pub HasKey-reset_slots :
    (s : Side) (ks : List OrderId) (k : OrderId) (c : Slots)
    → Without k ks
    → HasKey k (at_side s c)
    → HasKey k (at_side s (reset_slots ks c))
HasKey-reset_slots buy ks k c w h = HasKey-reset_all ks k c.bid w h
HasKey-reset_slots sell ks k c w h = HasKey-reset_all ks k c.ask w h

is_filled-fill_order :
    (o : Order) (q : Quantity) (now : Timestamp)
    → is_filled (fill_order o q now).status ≡ is_used_up (fill_order o q now)
unfolding fill_order
is_filled-fill_order o q now = ground arith

pub fill_order_id : (o : Order) (q : Quantity) (now : Timestamp) → (fill_order o q now).id ≡ o.id
unfolding fill_order
fill_order_id o q now = refl

pub fill_order_side :
    (o : Order) (q : Quantity) (now : Timestamp) → (fill_order o q now).side ≡ o.side
unfolding fill_order
fill_order_side o q now = refl

pub Fresh-live : (k : OrderId) (os : Orders) → Fresh k os → Fresh k (live os)
unfolding live
Fresh-live k [] f = tt
Fresh-live k ((j, o) ∷ os) f = ground (arith, Fresh-live k os f.1)

Without-cons :
    (k : OrderId) (ks : List OrderId) (os : Orders)
    → Fresh k os
    → All (λ e. Without e.0 ks) os
    → All (λ e. Without e.0 (k ∷ ks)) os
Without-cons k ks [] f h = tt
Without-cons k ks ((j, o) ∷ os) f h = ((ground arith, h.0), Without-cons k ks os f.1 h.1)

module _ {ev : MarketEvent} {ack : Timestamp} where
  -- The reports that say Filled are those of the orders that the pass removes.
  pub filled_ids-Fills :
      {os os' : Orders} {rs : List ExecutionReport} {ks : List OrderId} (c : Slots) (next : ℕ)
      → Fills ev ack os os' rs ks
      → All (Owned c next) os
      → filled_ids rs ≡ ks
  unfolding fill_report
  filled_ids-Fills c next Fills.done h = refl
  filled_ids-Fills c next (Fills.keep x r) h = filled_ids-Fills c next r h.1
  filled_ids-Fills c next (Fills.fill {k} {o} {ks} qty x r) h = rw (
    is_filled-fill_order o qty ev.timestamp,
    fill_order_id o qty ev.timestamp,
    h.0.own_id,
    filled_ids-Fills c next r h.1,
  )

  -- No key that is removed is among those that stay.
  pub Without-live :
      {os os' : Orders} {rs : List ExecutionReport} {ks : List OrderId}
      → Fills ev ack os os' rs ks
      → Distinct os
      → All (λ e. Without e.0 ks) (live os')
  unfolding live
  Without-live Fills.done u = tt
  Without-live (Fills.keep {k} x r) u = ground (arith, (Fresh-Fills k r u.0).1, Without-live r u.1)
  Without-live (Fills.fill {k} {o} {os' = after} {ks} qty x r) u =
      let o' = fill_order o qty ev.timestamp in
      let ih = Without-live r u.1 in
      let (fresh, without) = Fresh-Fills k r u.0 in
      elim (Bool-cases (is_used_up o')) [
        | inl e ↦ rw e (Without-cons k ks (live after) (Fresh-live k after fresh) ih)
        | inr e ↦ rw e (without, ih)
      ]
