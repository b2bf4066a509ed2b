-- ===== src/Pipeline/Kept.antt =====
-- A pass over the open orders, and the resets for its reports, keep quotes and orders together.
use lob_market_maker.Prelude.{
  ℕ, ◌≡◌, ◌∙◌, Option, none, some, List, [], ◌∷◌, ◌==◌, arith, Bool-cases, inl, inr, All,
}
use lob_market_maker.Types.{OrderId, Timestamp, Side, buy, sell}
use lob_market_maker.Events.{MarketEvent}
use lob_market_maker.Execution.{Order, Orders, ExecutionReport, find_order, fill_order}
use lob_market_maker.Execution.Fills.{Fills, closes}
use lob_market_maker.Execution.Keys.{Without, Distinct, live, is_used_up, Distinct-Fills}
use lob_market_maker.Execution.Exposure.{Positive, Positive-live}
use lob_market_maker.Pipeline.{RestingQuote}
use lob_market_maker.Pipeline.Slots.{Slots, Owned, Backed, Coherent}
use lob_market_maker.Pipeline.Passing.{
  reset_all, reset_slots, reset_all-cases, reset_all-none, HasKey-reset_slots, fill_order_id,
  fill_order_side, Fresh-live, Without-live,
}

All-live {κ} : (P : OrderId × Order → Type κ) (os : Orders) → All P os → All P (live os)
unfolding live
All-live P [] h = tt
All-live P ((k, o) ∷ os) h = elim (Bool-cases (is_used_up o)) [
  | inl e ↦ rw e (All-live P os h.1)
  | inr e ↦ rw e (h.0, All-live P os h.1)
]

Distinct-live : (os : Orders) → Distinct os → Distinct (live os)
unfolding live
Distinct-live [] u = tt
Distinct-live ((k, o) ∷ os) u = ground (arith, Distinct-live os u.1, Fresh-live k os u.0)

Owned-reset :
    (c : Slots) (next : ℕ) (ks : List OrderId) (os : Orders)
    → All (λ e. Without e.0 ks) os
    → All (Owned c next) os
    → All (Owned (reset_slots ks c) next) os
Owned-reset c next ks [] w h = tt
Owned-reset c next ks ((k, o) ∷ os) w h = (
  record {
    own_id = h.0.own_id;
    issued = h.0.issued;
    quoted = HasKey-reset_slots o.side ks k c w.0 h.0.quoted;
  },
  Owned-reset c next ks os w.1 h.1,
)

Without-closes :
    (j k : OrderId) (o : Order) (ks : List OrderId) → Without j (closes k o ks) → Without j ks
Without-closes j k o ks w = ground arith

module _ {ev : MarketEvent} {ack : Timestamp} where
  Owned-Fills :
      {os os' : Orders} {rs : List ExecutionReport} {ks : List OrderId} (c : Slots) (next : ℕ)
      → Fills ev ack os os' rs ks
      → All (Owned c next) os
      → All (Owned c next) os'
  Owned-Fills c next Fills.done h = tt
  Owned-Fills c next (Fills.keep x r) h = (h.0, Owned-Fills c next r h.1)
  Owned-Fills c next (Fills.fill {k} {o} qty x r) h = (
    record {
      own_id = rw (fill_order_id o qty ev.timestamp) h.0.own_id;
      issued = h.0.issued;
      quoted = rw (fill_order_side o qty ev.timestamp) h.0.quoted;
    },
    Owned-Fills c next r h.1,
  )

  -- An order whose key is not removed is still found, on its side.
  find_order-Fills :
      {os os' : Orders} {rs : List ExecutionReport} {ks : List OrderId} (j : OrderId) (o : Order)
      → Fills ev ack os os' rs ks
      → Without j ks
      → Positive os
      → find_order j os ≡ some o
      → (o' : Order) × (find_order j (live os') ≡ some o') × (o'.side ≡ o.side)
  unfolding find_order live
  find_order-Fills j o Fills.done w p e = cc
  find_order-Fills j o (Fills.keep {k} {o = x} h r) w p e = elim (Bool-cases (k == j)) [
    | inl hit ↦ (x, ground arith, ground arith)
    | inr miss ↦
        let (o', f, s) = find_order-Fills j o r w p.1 (rw miss at e) in (o', ground arith, s)
  ]
  find_order-Fills j o (Fills.fill {k} {o = x} qty h r) w p e = elim (Bool-cases (k == j)) [
    | inl hit ↦ (
      fill_order x qty ev.timestamp,
      ground arith,
      ground (arith, fill_order_side x qty ev.timestamp),
    )
    | inr miss ↦
        let (o', f, s) =
          find_order-Fills j o r (Without-closes j k (fill_order x qty ev.timestamp) _ w) p.1
            (rw miss at e) in
        (o', ground arith, s)
  ]

  Backed-Fills :
      {os os' : Orders} {rs : List ExecutionReport} {ks : List OrderId} (s : Side) (next : ℕ)
      (slot : Option RestingQuote)
      → Fills ev ack os os' rs ks
      → Positive os
      → Backed s next os slot
      → Backed s next (live os') (reset_all ks slot)
  Backed-Fills {ks} s next none r p h = rw (reset_all-none ks) tt
  Backed-Fills {ks} s next (some q) r p (o, e, side, l) = elim (reset_all-cases ks q) [
    | inl gone ↦ rw gone tt
    | inr (w, same) ↦
        let (o', f, t) = find_order-Fills q.id o r w p e in rw same (o', f, t ∙ side, l)
  ]

  pub Coherent-Fills :
      {os os' : Orders} {rs : List ExecutionReport} {ks : List OrderId} (c : Slots) (next : ℕ)
      → Fills ev ack os os' rs ks
      → Coherent c next os
      → Coherent (reset_slots ks c) next (live os')
  Coherent-Fills {os' = after} {ks} c next r v = record {
    owned =
        Owned-reset c next ks (live after) (Without-live r v.distinct)
          (All-live (Owned c next) after (Owned-Fills c next r v.owned));
    distinct = Distinct-live after (Distinct-Fills r v.distinct);
    positive = Positive-live r v.positive;
    bid_backed = Backed-Fills buy next c.bid r v.positive v.bid_backed;
    ask_backed = Backed-Fills sell next c.ask r v.positive v.ask_backed;
  }
