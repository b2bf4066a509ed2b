-- ===== src/Execution/Operations.antt =====
-- src/execution/paper_execution_engine.cpp: the operations of the engine.
use lob_market_maker.Prelude.{
  ℕ, ◌&&◌, Option, none, some, List, [], ◌∷◌, ◌++◌, map, pos, ltb_ℤ, leb_ℤ, eqb_ℤ, min_ℤ, max_ℤ,
  inc, if◌then◌else◌, length,
}
use lob_market_maker.Types.{
  Price, no_price, from_double, Quantity, OrderId, Timestamp, Side, is_buy, Symbol, limit, gtc, new,
  canceled,
}
use lob_market_maker.Events.{MarketEvent}
use lob_market_maker.OrderBook.{OrderBook, bid_depth, ask_depth}
use lob_market_maker.Double.{Double, Rng}
use lob_market_maker.Execution.{
  Order, remaining_quantity, ExecutionReport, FillAssumptions, Orders, find_order, put_order,
  erase_order, Engine, sweep, sweep_status, levels_needed, fill_order, fill_report, is_partial,
  is_trade, eligible,
}

abbrev pub capped : Quantity → Quantity → Quantity → Quantity
capped drawn printed remaining = min_ℤ (min_ℤ drawn printed) remaining

-- What the loop over the open orders carries: the orders passed, the reports, the keys to remove,
-- the generator and the two counters.
pub record Pass (R : Type 0) : Type 0 where
  pub orders : Orders
  pub reports : List ExecutionReport
  pub to_remove : List OrderId
  pub rng : R
  pub total_filled : ℕ
  pub total_partial_fills : ℕ

-- `continue`: the order stays as it is.
abbrev pub pass_by : {R : Type 0} → OrderId → Order → Pass R → Pass R
pass_by k o st = record st { orders = st.orders ++ ((k, o) ∷ []) }

-- `make_fill_report`, and what the loop does with the report.
unfoldable pub pass_fill :
    {R : Type 0} → Timestamp → Timestamp → OrderId → Order → Quantity → Pass R → Pass R
pass_fill ack now k o qty st =
    let o' = fill_order o qty now in
    record st {
      orders = st.orders ++ ((k, o') ∷ []);
      reports = st.reports ++ (fill_report o' o.price qty now ack ∷ []);
      to_remove =
          if eqb_ℤ (remaining_quantity o') (pos 0) then st.to_remove ++ (k ∷ []) else st.to_remove;
      total_filled = inc st.total_filled;
      total_partial_fills =
          if is_partial o'.status then inc st.total_partial_fills else st.total_partial_fills;
    }

unfoldable pub erase_all : List OrderId → Orders → Orders
erase_all [] os = os
erase_all (k ∷ ks) os = erase_all ks (erase_order k os)

abbrev pub new_order : OrderId → Symbol → Side → Price → Quantity → Timestamp → Order
new_order oid sym sd px qty now = record {
  id = oid;
  symbol = sym;
  side = sd;
  type = limit;
  tif = gtc;
  price = px;
  quantity = qty;
  filled_quantity = pos 0;
  status = new;
  created_time = now;
  last_update_time = now;
}

module _ {F R : Type 0} ⦃d : Double F⦄ ⦃g : Rng F R⦄ where
  open d use {of_int, to_int, div, mul, lt}
  open g use {seed, uniform_real}

  unfoldable pub create : FillAssumptions F → Engine F R
  create a = record {
    assumptions = a;
    rng = seed a.rng_seed;
    open_orders = [];
    total_submitted = 0;
    total_canceled = 0;
    total_filled = 0;
    total_partial_fills = 0;
  }

  unfoldable pub submit_limit :
      Engine F R
      → OrderId
      → Symbol
      → Side
      → Price
      → Quantity
      → Timestamp
      → ExecutionReport × Engine F R
  submit_limit e oid sym sd px qty now =
      let o = new_order oid sym sd px qty now in
      (
        record (fill_report o px (pos 0) now e.assumptions.simulated_ack_latency) {
          remaining = qty;
        },
        record e {
          total_submitted = inc e.total_submitted;
          open_orders = put_order oid o e.open_orders;
        },
      )

  unfoldable pub market_report :
      Engine F R → OrderId → Symbol → Side → Quantity → Timestamp → Quantity → F → ExecutionReport
  market_report e oid sym sd qty now done notional = record {
    order_id = oid;
    symbol = sym;
    side = sd;
    status = sweep_status done qty;
    fill_price = if ltb_ℤ (pos 0) done then from_double (div notional (of_int done)) else no_price;
    fill_quantity = done;
    remaining = pos 0;
    timestamp = now;
    submit_to_ack_latency = e.assumptions.simulated_ack_latency;
    reason = if eqb_ℤ done (pos 0) then "no opposite-side liquidity available" else "";
  }

  unfoldable pub submit_market :
      Engine F R
      → OrderId
      → Symbol
      → Side
      → Quantity
      → OrderBook
      → Timestamp
      → ExecutionReport × Engine F R
  unfolding market_report
  submit_market e oid sym sd qty b now =
      let depth = if is_buy sd then ask_depth b levels_needed else bid_depth b levels_needed in
      let (done, notional) = sweep depth qty (pos 0) (of_int (pos 0)) in
      let counted = ltb_ℤ (pos 0) done in
      (
        market_report e oid sym sd qty now done notional,
        record e {
          total_submitted = inc e.total_submitted;
          total_filled = if counted then inc e.total_filled else e.total_filled;
          total_partial_fills =
              if counted && ltb_ℤ done qty
              then inc e.total_partial_fills
              else e.total_partial_fills;
        },
      )

  abbrev pub cancel_report : Engine F R → OrderId → Order → Timestamp → ExecutionReport
  cancel_report e oid o now = record {
    order_id = oid;
    symbol = o.symbol;
    side = o.side;
    status = canceled;
    fill_price = no_price;
    fill_quantity = pos 0;
    remaining = remaining_quantity o;
    timestamp = now;
    submit_to_ack_latency = e.assumptions.simulated_ack_latency;
    reason = "";
  }

  unfoldable pub cancel : Engine F R → OrderId → Timestamp → Option ExecutionReport × Engine F R
  cancel e oid now = elim (find_order oid e.open_orders) [
    | none ↦ (none, e)
    | some o ↦ (
      some (cancel_report e oid o now),
      record e {
        open_orders = erase_order oid e.open_orders;
        total_canceled = inc e.total_canceled;
      },
    )
  ]

  -- The fill quantity before the two caps, and the generator after the draws.
  unfoldable pub drawn_quantity : FillAssumptions F → R → Quantity → Quantity × R
  drawn_quantity a rng remaining =
      let (p, rng') = uniform_real (of_int (pos 0)) (of_int (pos 1)) rng in
      let (ratio, rng'') = uniform_real a.min_partial_fill_ratio a.max_partial_fill_ratio rng' in
      if lt p a.partial_fill_probability && ltb_ℤ (pos 1) remaining
      then (max_ℤ (pos 1) (to_int (mul (of_int remaining) ratio)), rng'')
      else (remaining, rng')

  -- The loop body for an order that passes the three tests.
  unfoldable pub visit : FillAssumptions F → MarketEvent → OrderId → Order → Pass R → Pass R
  visit a ev k o st =
      let (drawn, rng') = drawn_quantity a st.rng (remaining_quantity o) in
      let qty = capped drawn ev.quantity (remaining_quantity o) in
      if leb_ℤ qty (pos 0)
      then pass_by k o (record st { rng = rng' })
      else pass_fill a.simulated_ack_latency ev.timestamp k o qty (record st { rng = rng' })

  unfoldable pub pass_over : FillAssumptions F → MarketEvent → Orders → Pass R → Pass R
  unfolding visit
  pass_over a ev [] st = st
  pass_over a ev ((k, o) ∷ os) st =
      pass_over a ev os (if eligible o ev then visit a ev k o st else pass_by k o st)

  abbrev pub start_pass : Engine F R → Pass R
  start_pass e = record {
    orders = [];
    reports = [];
    to_remove = [];
    rng = e.rng;
    total_filled = e.total_filled;
    total_partial_fills = e.total_partial_fills;
  }

  abbrev pub end_pass : Engine F R → Pass R → Engine F R
  end_pass e st = record e {
    open_orders = erase_all st.to_remove st.orders;
    rng = st.rng;
    total_filled = st.total_filled;
    total_partial_fills = st.total_partial_fills;
  }

  unfoldable pub on_market_event : Engine F R → MarketEvent → List ExecutionReport × Engine F R
  unfolding pass_over erase_all
  on_market_event e ev =
      let st = pass_over e.assumptions ev e.open_orders (start_pass e) in
      if is_trade ev.type then (st.reports, end_pass e st) else ([], e)

  unfoldable pub open_order_count : Engine F R → ℕ
  open_order_count e = length e.open_orders

  unfoldable pub get_order : Engine F R → OrderId → Option Order
  get_order e oid = find_order oid e.open_orders

  unfoldable pub open_orders_of : Engine F R → List Order
  open_orders_of e = map (λ (k : OrderId × Order). k.1) e.open_orders
