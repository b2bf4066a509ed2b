-- ===== src/Execution/Keys.antt =====
-- Keys of the open orders: lookups after the map operations, and what a pass leaves open.
use lob_market_maker.Prelude.{
  ℕ, ◌≡◌, refl, ap, ◌∙◌, Bool, true, false, none, List, [], ◌∷◌, pos, eqb_ℤ, ◌==◌, if◌then◌else◌,
  arith, Bool-cases, inl, inr, All,
}
use lob_market_maker.Types.{OrderId, Timestamp}
use lob_market_maker.Events.{MarketEvent}
use lob_market_maker.Execution.{
  Order, Orders, ExecutionReport, remaining_quantity, fill_order, find_order, put_order,
  erase_order,
}
use lob_market_maker.Execution.Operations.{erase_all}
use lob_market_maker.Execution.Fills.{Fills}

-- No open order has the key.
abbrev pub Fresh : OrderId → Orders → Type 0
Fresh k = All λ e. (e.0 == k) ≡ false

abbrev pub Distinct : Orders → Type 0
Distinct [] = Unit {0}
Distinct ((k, o) ∷ os) = Fresh k os × Distinct os

-- A list of keys without k.
abbrev pub Without : OrderId → List OrderId → Type 0
Without k = All λ j. (j == k) ≡ false

pub find_order-Fresh : (k : OrderId) (os : Orders) → Fresh k os → find_order k os ≡ none
unfolding find_order
find_order-Fresh k [] f = refl
find_order-Fresh k ((j, o) ∷ os) f = rw f.0 (find_order-Fresh k os f.1)

pub put_order-Fresh :
    (k : OrderId) (o : Order) (os : Orders) → Fresh k os → put_order k o os ≡ (k, o) ∷ os
unfolding put_order
put_order-Fresh k o os f = rw (find_order-Fresh k os f, put_order)

pub Fresh-erase_order : (j k : OrderId) (os : Orders) → Fresh j os → Fresh j (erase_order k os)
unfolding erase_order
Fresh-erase_order j k [] f = tt
Fresh-erase_order j k ((i, o) ∷ os) f = ground (arith, Fresh-erase_order j k os f.1)

pub Distinct-erase_order : (k : OrderId) (os : Orders) → Distinct os → Distinct (erase_order k os)
unfolding erase_order
Distinct-erase_order k [] u = tt
Distinct-erase_order k ((j, o) ∷ os) u =
    ground (arith, Distinct-erase_order k os u.1, Fresh-erase_order j k os u.0)

Fresh-eq : (j k : OrderId) (os : Orders) → (j == k) ≡ true → Fresh j os → Fresh k os
Fresh-eq j k [] e f = tt
Fresh-eq j k ((i, o) ∷ os) e f = (ground arith, Fresh-eq j k os e f.1)

-- An erased key is gone.
pub erase_order-Fresh : (k : OrderId) (os : Orders) → Distinct os → Fresh k (erase_order k os)
unfolding erase_order
erase_order-Fresh k [] u = tt
erase_order-Fresh k ((j, o) ∷ os) u = ground (arith, erase_order-Fresh k os u.1, Fresh-eq j k os)

pub find_order-erase_ne :
    (j k : OrderId) (os : Orders)
    → (j == k) ≡ false
    → find_order j (erase_order k os) ≡ find_order j os
unfolding find_order erase_order
find_order-erase_ne j k [] h = refl
find_order-erase_ne j k ((i, o) ∷ os) h = ground (arith, find_order-erase_ne j k os h)

pub All-erase_order {κ} :
    (P : OrderId × Order → Type κ) (k : OrderId) (os : Orders) → All P os → All P (erase_order k os)
unfolding erase_order
All-erase_order P k [] h = tt
All-erase_order P k ((j, o) ∷ os) h = elim (Bool-cases (j == k)) [
  | inl e ↦ rw e h.1
  | inr e ↦ rw e (h.0, All-erase_order P k os h.1)
]

-- Orders that still have something left.
abbrev pub is_used_up : Order → Bool
is_used_up o = eqb_ℤ (remaining_quantity o) (pos 0)

unfoldable pub live : Orders → Orders
live [] = []
live ((k, o) ∷ os) = if is_used_up o then live os else (k, o) ∷ live os

erase_all-nil : (os : Orders) → erase_all [] os ≡ os
unfolding erase_all
erase_all-nil os = refl

erase_all-cons :
    (k : OrderId) (o : Order) (os : Orders) (ks : List OrderId)
    → Without k ks
    → erase_all ks ((k, o) ∷ os) ≡ (k, o) ∷ erase_all ks os
unfolding erase_all erase_order
erase_all-cons k o os [] w = refl
erase_all-cons k o os (j ∷ ks) w = rw (flip j k w.0) (erase_all-cons k o (erase_order j os) ks w.1)
  where
    flip : (a b : ℕ) → (a == b) ≡ false → (b == a) ≡ false
    flip a b h = ground arith

erase_all-hit :
    (k : OrderId) (o : Order) (os : Orders) (ks : List OrderId)
    → erase_all (k ∷ ks) ((k, o) ∷ os) ≡ erase_all ks os
unfolding erase_all erase_order
erase_all-hit k o os ks = rw (same k)
  where
    same : (a : ℕ) → (a == a) ≡ true
    same a = ground arith

module _ {ev : MarketEvent} {ack : Timestamp} where
  -- A pass keeps the keys, in their order.
  pub Fresh-Fills :
      {os os' : Orders} {rs : List ExecutionReport} {ks : List OrderId} (k : OrderId)
      → Fills ev ack os os' rs ks
      → Fresh k os
      → Fresh k os' × Without k ks
  Fresh-Fills k Fills.done f = (tt, tt)
  Fresh-Fills k (Fills.keep h r) f = let (a, b) = Fresh-Fills k r f.1 in ((f.0, a), b)
  Fresh-Fills k (Fills.fill qty h r) f =
      let (a, b) = Fresh-Fills k r f.1 in ((f.0, a), ground arith)

  pub Distinct-Fills :
      {os os' : Orders} {rs : List ExecutionReport} {ks : List OrderId}
      → Fills ev ack os os' rs ks
      → Distinct os
      → Distinct os'
  Distinct-Fills Fills.done u = tt
  Distinct-Fills (Fills.keep {k} h r) u = ((Fresh-Fills k r u.0).0, Distinct-Fills r u.1)
  Distinct-Fills (Fills.fill {k} qty h r) u = ((Fresh-Fills k r u.0).0, Distinct-Fills r u.1)

  -- If every open order had something left before the pass, then what the pass removes is just what it
  -- used up.
  pub erase_all-Fills :
      {os os' : Orders} {rs : List ExecutionReport} {ks : List OrderId}
      → Fills ev ack os os' rs ks
      → Distinct os
      → All (λ e. is_used_up e.1 ≡ false) os
      → erase_all ks os' ≡ live os'
  unfolding live
  erase_all-Fills Fills.done u l = erase_all-nil []
  erase_all-Fills (Fills.keep {k} {o} h r) u l = rw l.0 (
      erase_all-cons k o _ _ (Fresh-Fills k r u.0).1
      ∙ ap (λ t. (k, o) ∷ t) (erase_all-Fills r u.1 l.1))
  erase_all-Fills (Fills.fill {k} {o} {os' = after} {ks} qty h r) u l =
      let o' = fill_order o qty ev.timestamp in
      let ih = erase_all-Fills r u.1 l.1 in
      elim (Bool-cases (is_used_up o')) [
        | inl e ↦ rw e (erase_all-hit k o' after ks ∙ ih)
        | inr e ↦
            rw e (erase_all-cons k o' after ks (Fresh-Fills k r u.0).1 ∙ ap (λ t. (k, o') ∷ t) ih)
      ]
