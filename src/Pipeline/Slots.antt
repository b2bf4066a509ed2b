-- ===== src/Pipeline/Slots.antt =====
-- Resting quotes against open orders: every open order is the quote of its side, and every quote is
-- an open order.
use mathlib.Core.Option.{some-injective}
use lob_market_maker.Prelude.{
  ℕ, ◌<◌, ◌≡◌, sym, ap, ◌∙◌, true, false, Option, none, some, [], ◌∷◌, pos, ◌<ℤ◌, ◌==◌, arith,
  Bool-cases, inl, inr, ◌≢◌, ==_iff, All,
}
use lob_market_maker.Types.{OrderId, Side, buy, sell}
use lob_market_maker.Execution.{Order, Orders, remaining_quantity, find_order, erase_order}
use lob_market_maker.Execution.Keys.{
  Fresh, Distinct, find_order-erase_ne, erase_order-Fresh, All-erase_order, Distinct-erase_order,
}
use lob_market_maker.Execution.Exposure.{Positive}
use lob_market_maker.Pipeline.{RestingQuote}

-- The two optionals of the pipeline.
pub record Slots : Type 0 where
  pub bid : Option RestingQuote
  pub ask : Option RestingQuote

abbrev pub at_side : Side → Slots → Option RestingQuote
at_side buy c = c.bid
at_side sell c = c.ask

abbrev pub emptied : Side → Slots → Slots
emptied buy c = record c { bid = none }
emptied sell c = record c { ask = none }

abbrev pub filled_with : Side → RestingQuote → Slots → Slots
filled_with buy q c = record c { bid = some q }
filled_with sell q c = record c { ask = some q }

abbrev pub HasKey : OrderId → Option RestingQuote → Type 0
HasKey k none = ⊥
HasKey k (some q) = q.id ≡ k

-- An open order is filed under its own id, which is below the next one, and is the quote of its side.
pub record Owned (c : Slots) (next : ℕ) (e : OrderId × Order) : Type 0 where
  pub own_id : e.1.id ≡ e.0
  pub issued : e.0 < next
  pub quoted : HasKey e.0 (at_side e.1.side c)

-- A resting quote is an open order of its side.
abbrev pub Backed : Side → ℕ → Orders → Option RestingQuote → Type 0
Backed s next os none = Unit {0}
Backed s next os (some q) =
    (o : Order) × (find_order q.id os ≡ some o) × (o.side ≡ s) × (q.id < next)

pub record Coherent (c : Slots) (next : ℕ) (os : Orders) : Type 0 where
  pub owned : All (Owned c next) os
  pub distinct : Distinct os
  pub positive : Positive os
  pub bid_backed : Backed buy next os c.bid
  pub ask_backed : Backed sell next os c.ask

key_of :
    (k : OrderId) (q : RestingQuote) (slot : Option RestingQuote)
    → slot ≡ some q
    → HasKey k slot
    → q.id ≡ k
key_of k q slot e h = rw e at h

HasKey-emptied :
    (s t : Side) (c : Slots) (q : RestingQuote) (k : OrderId)
    → at_side s c ≡ some q
    → (k == q.id) ≡ false
    → HasKey k (at_side t c)
    → HasKey k (at_side t (emptied s c))
HasKey-emptied buy buy c q k e ne h = ground (arith, key_of k q c.bid e h)
HasKey-emptied buy sell c q k e ne h = h
HasKey-emptied sell buy c q k e ne h = h
HasKey-emptied sell sell c q k e ne h = ground (arith, key_of k q c.ask e h)

-- Emptying a slot whose key no open order has.
Owned-emptied :
    (s : Side) (c : Slots) (next : ℕ) (q : RestingQuote) (os : Orders)
    → at_side s c ≡ some q
    → Fresh q.id os
    → All (Owned c next) os
    → All (Owned (emptied s c) next) os
Owned-emptied s c next q [] e f h = tt
Owned-emptied s c next q ((k, o) ∷ os) e f h = (
  record {
    own_id = h.0.own_id;
    issued = h.0.issued;
    quoted = HasKey-emptied s o.side c q k e f.0 h.0.quoted;
  },
  Owned-emptied s c next q os e f.1 h.1,
)

-- The quotes of the two sides are different orders.
other_key :
    (s t : Side) (next : ℕ) (os : Orders) (q r : RestingQuote)
    → s ≢ t
    → Backed s next os (some q)
    → Backed t next os (some r)
    → (r.id == q.id) ≡ false
other_key s t next os q r ne (o, e, a, _) (x, f, b, _) = elim (Bool-cases (r.id == q.id)) [
  | inr h ↦ h
  | inl h ↦ absurd (ne (sym a ∙ ap (λ y. y.side) (some-injective _ _ (sym e ∙ same h ∙ f)) ∙ b))
]
  where
    same : (r.id == q.id) ≡ true → find_order q.id os ≡ find_order r.id os
    same h = ap (λ j. find_order j os) (sym ((==_iff r.id q.id).0 h))

Backed-erase :
    (s t : Side) (next : ℕ) (os : Orders) (q : RestingQuote) (slot : Option RestingQuote)
    → s ≢ t
    → Backed s next os (some q)
    → Backed t next os slot
    → Backed t next (erase_order q.id os) slot
Backed-erase s t next os q none ne b h = tt
Backed-erase s t next os q (some r) ne b (o, e, a, l) =
    (o, find_order-erase_ne r.id q.id os (other_key s t next os q r ne b (o, e, a, l)) ∙ e, a, l)

-- Canceling the quote of a side keeps quotes and orders together.
pub Coherent-cancel :
    (s : Side) (c : Slots) (next : ℕ) (os : Orders) (q : RestingQuote)
    → at_side s c ≡ some q
    → Coherent c next os
    → Coherent (emptied s c) next (erase_order q.id os)
Coherent-cancel buy c next os q e v = record {
  owned =
      Owned-emptied buy c next q (erase_order q.id os) e (erase_order-Fresh q.id os v.distinct)
        (All-erase_order (Owned c next) q.id os v.owned);
  distinct = Distinct-erase_order q.id os v.distinct;
  positive = All-erase_order (λ x. pos 0 <ℤ remaining_quantity x.1) q.id os v.positive;
  bid_backed = tt;
  ask_backed = Backed-erase buy sell next os q c.ask (λ x. cc) (rw e at v.bid_backed) v.ask_backed;
}
Coherent-cancel sell c next os q e v = record {
  owned =
      Owned-emptied sell c next q (erase_order q.id os) e (erase_order-Fresh q.id os v.distinct)
        (All-erase_order (Owned c next) q.id os v.owned);
  distinct = Distinct-erase_order q.id os v.distinct;
  positive = All-erase_order (λ x. pos 0 <ℤ remaining_quantity x.1) q.id os v.positive;
  bid_backed = Backed-erase sell buy next os q c.bid (λ x. cc) (rw e at v.ask_backed) v.bid_backed;
  ask_backed = tt;
}
