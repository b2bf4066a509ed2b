-- ===== src/Execution/Fills.antt =====
-- What one pass over the open orders may do: a relation between the orders before and after it, the
-- reports and the keys to remove, whatever the random draws are.
use mathlib.Core.List.{append-nil, append_assoc}
use lob_market_maker.Prelude.{
  ◌≡◌, sym, ◌∙◌, ◌⊎◌, inl, inr, true, false, List, [], ◌∷◌, ◌++◌, pos, ◌≤ℤ◌, ◌<ℤ◌, leb_ℤ, eqb_ℤ,
  if◌then◌else◌, arith, Bool-cases,
}
use lob_market_maker.Types.{Quantity, OrderId, Timestamp}
use lob_market_maker.Events.{MarketEvent}
use lob_market_maker.Double.{Double, Rng}
use lob_market_maker.Execution.{
  Order, remaining_quantity, ExecutionReport, FillAssumptions, Orders, Engine, fill_order,
  fill_report, eligible, is_trade,
}
use lob_market_maker.Execution.Operations.{
  Pass, pass_by, start_pass, pass_fill, capped, drawn_quantity, visit, pass_over, erase_all,
  on_market_event,
}

-- The key of an order that has nothing left is noted for removal.
abbrev pub closes : OrderId → Order → List OrderId → List OrderId
closes k o ks = if eqb_ℤ (remaining_quantity o) (pos 0) then k ∷ ks else ks

-- Why an order may be passed by: it is not eligible, the trade printed nothing, or nothing is left.
abbrev pub Spared : MarketEvent → Order → Type 0
Spared ev o = (eligible o ev ≡ false) ⊎ ((ev.quantity ≤ℤ pos 0) ⊎ (remaining_quantity o ≤ℤ pos 0))

-- A fill is positive, and at most what was printed and what was left.
pub record IsFill (ev : MarketEvent) (o : Order) (qty : Quantity) : Type 0 where
  pub fits : eligible o ev ≡ true
  pub positive : pos 0 <ℤ qty
  pub printed : qty ≤ℤ ev.quantity
  pub left : qty ≤ℤ remaining_quantity o

pub data Fills (ev : MarketEvent) (ack : Timestamp)
    : Orders → Orders → List ExecutionReport → List OrderId → Type 0 where
  done : Fills ev ack [] [] [] []
  keep :
      {k : OrderId} {o : Order} {os os' : Orders} {rs : List ExecutionReport} {ks : List OrderId}
      → Spared ev o
      → Fills ev ack os os' rs ks
      → Fills ev ack ((k, o) ∷ os) ((k, o) ∷ os') rs ks
  fill :
      {k : OrderId} {o : Order} {os os' : Orders} {rs : List ExecutionReport} {ks : List OrderId}
      (qty : Quantity)
      → IsFill ev o qty
      → Fills ev ack os os' rs ks
      → Fills ev ack
          ((k, o) ∷ os)
          ((k, fill_order o qty ev.timestamp) ∷ os')
          (fill_report (fill_order o qty ev.timestamp) o.price qty ev.timestamp ack ∷ rs)
          (closes k (fill_order o qty ev.timestamp) ks)

closes-append :
    (k : OrderId) (o : Order) (xs ys : List OrderId)
    → (if eqb_ℤ (remaining_quantity o) (pos 0) then xs ++ (k ∷ []) else xs) ++ ys
      ≡ xs ++ closes k o ys
closes-append k o xs ys = elim (Bool-cases (eqb_ℤ (remaining_quantity o) (pos 0))) [
  | inl e ↦ rw e (append_assoc xs (k ∷ []) ys)
  | inr e ↦ rw e
]

capped_bounds :
    (drawn printed rest : Quantity)
    → leb_ℤ (capped drawn printed rest) (pos 0) ≡ false
    → (pos 0 <ℤ capped drawn printed rest)
      × (capped drawn printed rest ≤ℤ printed)
      × (capped drawn printed rest ≤ℤ rest)
capped_bounds drawn printed rest h = ground arith

module _ {F R : Type 0} ⦃d : Double F⦄ ⦃g : Rng F R⦄ where
  -- What a pass adds to its state.
  pub record Adds (a : FillAssumptions F) (ev : MarketEvent) (os : Orders) (st st' : Pass R)
      : Type 0 where
    pub after : Orders
    pub reported : List ExecutionReport
    pub closed : List OrderId
    pub fills : Fills ev a.simulated_ack_latency os after reported closed
    pub orders_eq : st'.orders ≡ st.orders ++ after
    pub reports_eq : st'.reports ≡ st.reports ++ reported
    pub closed_eq : st'.to_remove ≡ st.to_remove ++ closed

  Adds-keep :
      (a : FillAssumptions F) (ev : MarketEvent) (k : OrderId) (o : Order) (os : Orders)
      (st st' : Pass R)
      → Spared ev o
      → Adds a ev os (pass_by k o st) st'
      → Adds a ev ((k, o) ∷ os) st st'
  Adds-keep a ev k o os st st' h r = record {
    after = (k, o) ∷ r.after;
    reported = r.reported;
    closed = r.closed;
    fills = keep h r.fills;
    orders_eq = r.orders_eq ∙ append_assoc st.orders ((k, o) ∷ []) r.after;
    reports_eq = r.reports_eq;
    closed_eq = r.closed_eq;
  }

  Adds-fill :
      (a : FillAssumptions F) (ev : MarketEvent) (k : OrderId) (o : Order) (os : Orders)
      (qty : Quantity) (st st' : Pass R)
      → IsFill ev o qty
      → Adds a ev os (pass_fill a.simulated_ack_latency ev.timestamp k o qty st) st'
      → Adds a ev ((k, o) ∷ os) st st'
  unfolding pass_fill
  Adds-fill a ev k o os qty st st' h r =
      let o' = fill_order o qty ev.timestamp in
      record {
        after = (k, o') ∷ r.after;
        reported = fill_report o' o.price qty ev.timestamp a.simulated_ack_latency ∷ r.reported;
        closed = closes k o' r.closed;
        fills = fill qty h r.fills;
        orders_eq = r.orders_eq ∙ append_assoc st.orders ((k, o') ∷ []) r.after;
        reports_eq = r.reports_eq ∙ append_assoc st.reports (_ ∷ []) r.reported;
        closed_eq = r.closed_eq ∙ closes-append k o' st.to_remove r.closed;
      }

  -- The generator of the first state does not matter.
  moved :
      (a : FillAssumptions F) (ev : MarketEvent) (os : Orders) (st : Pass R) (rng : R)
      (st' : Pass R)
      → Adds a ev os (record st { rng = rng }) st'
      → Adds a ev os st st'
  moved a ev os st rng st' r = record {
    after = r.after;
    reported = r.reported;
    closed = r.closed;
    fills = r.fills;
    orders_eq = r.orders_eq;
    reports_eq = r.reports_eq;
    closed_eq = r.closed_eq;
  }

  -- A draw for an order with something left is at least one.
  drawn_quantity-pos :
      (a : FillAssumptions F) (rng : R) (rest : Quantity)
      → pos 1 ≤ℤ rest
      → pos 1 ≤ℤ (drawn_quantity a rng rest).0
  unfolding drawn_quantity
  drawn_quantity-pos a rng rest h = ground arith

  Spared-of_capped :
      (a : FillAssumptions F) (ev : MarketEvent) (o : Order) (rng : R)
      → leb_ℤ
          (capped
            (drawn_quantity a rng (remaining_quantity o)).0
            ev.quantity
            (remaining_quantity o))
          (pos 0)
        ≡ true
      → Spared ev o
  Spared-of_capped a ev o rng h = ground (arith, drawn_quantity-pos a rng (remaining_quantity o))

  abbrev asked : FillAssumptions F → MarketEvent → Order → R → Quantity
  asked a ev o rng =
      capped (drawn_quantity a rng (remaining_quantity o)).0 ev.quantity (remaining_quantity o)

  IsFill-of_asked :
      (a : FillAssumptions F) (ev : MarketEvent) (o : Order) (rng : R)
      → eligible o ev ≡ true
      → leb_ℤ (asked a ev o rng) (pos 0) ≡ false
      → IsFill ev o (asked a ev o rng)
  IsFill-of_asked a ev o rng e h =
      let (positive, printed, left) =
        capped_bounds (drawn_quantity a rng (remaining_quantity o)).0 ev.quantity
          (remaining_quantity o) h in
      record { fits = e; positive = positive; printed = printed; left = left }

  pass_over-visit :
      (a : FillAssumptions F) (ev : MarketEvent) (k : OrderId) (o : Order) (os : Orders)
      (st : Pass R)
      → ((st' : Pass R) → Adds a ev os st' (pass_over a ev os st'))
      → eligible o ev ≡ true
      → Adds a ev ((k, o) ∷ os) st (pass_over a ev os (visit a ev k o st))
  unfolding visit
  pass_over-visit a ev k o os st ih e =
      let drew = record st { rng = (drawn_quantity a st.rng (remaining_quantity o)).1 } in
      elim (Bool-cases (leb_ℤ (asked a ev o st.rng) (pos 0))) [
        | inl small ↦
            let rest = Adds-keep a ev k o os drew _ (Spared-of_capped a ev o st.rng small) (ih _) in
            rw small (moved a ev ((k, o) ∷ os) st drew.rng _ rest)
        | inr some_left ↦
            let rest =
              Adds-fill a ev k o os (asked a ev o st.rng) drew _
                (IsFill-of_asked a ev o st.rng e some_left) (ih _) in
            rw some_left (moved a ev ((k, o) ∷ os) st drew.rng _ rest)
      ]

  pass_over_lem :
      (a : FillAssumptions F) (ev : MarketEvent) (os : Orders) (st : Pass R)
      → Adds a ev os st (pass_over a ev os st)
  unfolding pass_over
  pass_over_lem a ev [] st = record {
    after = [];
    reported = [];
    closed = [];
    fills = done;
    orders_eq = sym (append-nil _);
    reports_eq = sym (append-nil _);
    closed_eq = sym (append-nil _);
  }
  pass_over_lem a ev ((k, o) ∷ os) st =
      let ih = pass_over_lem a ev os in
      elim (Bool-cases (eligible o ev)) [
        | inl e ↦ rw e (pass_over-visit a ev k o os st ih e)
        | inr e ↦ rw e (Adds-keep a ev k o os st _ (inl e) (ih _))
      ]

  -- On a trade, whatever the random draws are, the engine makes one pass over the open orders in the
  -- relation Fills: an order is filled only if it is eligible, by a positive quantity of at most what
  -- was printed and what was left, with one report for each fill; an order is passed by only if it is
  -- not eligible, nothing was printed or nothing was left. After the pass the orders with nothing left
  -- after their fill are removed.
  pub on_market_event_trade :
      (e : Engine F R) (ev : MarketEvent)
      → is_trade ev.type ≡ true
      → (after : Orders) × (ks : List OrderId) × Fills ev e.assumptions.simulated_ack_latency
          e.open_orders after
          (on_market_event e ev).0
          ks
        × ((on_market_event e ev).1.open_orders ≡ erase_all ks after)
  unfolding on_market_event
  on_market_event_trade e ev t =
      let r = pass_over_lem e.assumptions ev e.open_orders (start_pass e) in
      rw t (r.after, r.closed, rw r.reports_eq r.fills, rw (r.orders_eq, r.closed_eq))

  -- An event that is no trade fills nothing and changes nothing.
  pub on_market_event_quiet :
      (e : Engine F R) (ev : MarketEvent)
      → is_trade ev.type ≡ false
      → on_market_event e ev ≡ ([], e)
  unfolding on_market_event
  on_market_event_quiet e ev t = rw t
