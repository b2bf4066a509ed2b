-- ===== src/Pipeline/Quotes.antt =====
-- src/common/pipeline.hpp: the private operations on resting quotes.
use lob_market_maker.Prelude.{
  Bool, true, false, not, ◌&&◌, Option, none, some, List, [], ◌∷◌, ℤ, pos, neg, ◌-ℤ◌, ltb_ℤ, eqb_ℤ,
  ◌==◌, inc, if◌then◌else◌,
}
use lob_market_maker.Types.{
  Price, scale, Quantity, OrderId, Timestamp, Side, buy, sell, OrderStatus, filled,
}
use lob_market_maker.OrderBook.{mid_price, clear}
use lob_market_maker.Micro.{reset_price_history}
use lob_market_maker.Risk.{RiskCheckInput, RiskDecision, approved, check}
use lob_market_maker.Strategy.{QuoteDecision, decide, value_or, nought}
use lob_market_maker.Execution.{ExecutionReport, is_partial}
use lob_market_maker.Execution.Operations.{submit_limit, cancel, open_order_count}
use lob_market_maker.Portfolio.{on_fill}
use lob_market_maker.Latency.{add_ns}
use lob_market_maker.Double.{Double, Rng}
use lob_market_maker.Pipeline.{Pipeline, RestingQuote, slot, set_slot}

abbrev pub is_filled : OrderStatus → Bool
is_filled filled = true
is_filled _ = false

abbrev pub is_approved : RiskDecision → Bool
is_approved approved = true
is_approved _ = false

-- `if (quote && quote->id == id) quote.reset();`
abbrev pub reset_if : OrderId → Option RestingQuote → Option RestingQuote
reset_if k none = none
reset_if k (some q) = if q.id == k then none else some q

unfoldable pub needs_replace : Option RestingQuote → Price → Quantity → ℤ → Bool
needs_replace none target size threshold = true
needs_replace (some q) target size threshold =
    let move = q.price.ticks -ℤ target.ticks in
    if not (eqb_ℤ q.size size)
    then true
    else ltb_ℤ threshold (if ltb_ℤ move (pos 0) then neg move else move)

module _ {F : Type 0} ⦃d : Double F⦄ where
  open d use {of_int, to_int, mul, div}

  abbrev pub threshold_ticks : F → F → ℤ
  threshold_ticks reference bps =
      to_int (mul (div (mul reference bps) (of_int (pos 10_000))) (of_int (pos scale)))

module _ {F R : Type 0} ⦃d : Double F⦄ ⦃g : Rng F R⦄ where
  -- The branch of `apply_report` for a positive fill.
  abbrev pub count_fill : ExecutionReport → Pipeline F R → Pipeline F R
  count_fill r p = record p {
    portfolio = on_fill p.portfolio r.side r.fill_price r.fill_quantity;
    stats = record p.stats {
      fills = inc p.stats.fills;
      partial_fills =
          if is_partial r.status then inc p.stats.partial_fills else p.stats.partial_fills;
    };
  }

  unfoldable pub apply_report : Pipeline F R → ExecutionReport → Pipeline F R
  apply_report p r =
      let p' = if ltb_ℤ (pos 0) r.fill_quantity then count_fill r p else p in
      if is_filled r.status
      then record p' {
        resting_bid = reset_if r.order_id p'.resting_bid;
        resting_ask = reset_if r.order_id p'.resting_ask;
      }
      else p'

  unfoldable pub apply_reports : Pipeline F R → List ExecutionReport → Pipeline F R
  unfolding apply_report
  apply_reports p [] = p
  apply_reports p (r ∷ rs) = apply_reports (apply_report p r) rs

  -- `cancel_side` once the slot is known to hold a quote.
  abbrev pub cancel_quote : Side → RestingQuote → Timestamp → Pipeline F R → Pipeline F R
  cancel_quote s q now p = set_slot s none (record p {
    exec = (cancel p.exec q.id now).1;
    stats = record p.stats { quotes_canceled = inc p.stats.quotes_canceled };
  })

  unfoldable pub cancel_side : Side → Timestamp → Pipeline F R → Pipeline F R
  cancel_side s now p = elim (slot s p) [ none ↦ p | some q ↦ cancel_quote s q now p ]

  unfoldable pub cancel_resting_quotes : Timestamp → Pipeline F R → Pipeline F R
  unfolding cancel_side
  cancel_resting_quotes now p = cancel_side sell now (cancel_side buy now p)

  unfoldable pub resync : Timestamp → Pipeline F R → Pipeline F R
  unfolding cancel_resting_quotes
  resync now p =
      let p' = cancel_resting_quotes now p in
      record p' { book = clear p'.book; micro = reset_price_history p'.micro }

  abbrev pub risk_input : Side → Quantity → F → Pipeline F R → RiskCheckInput F
  risk_input s size reference p = record {
    order_quantity = size;
    order_side = s;
    reference_price = reference;
    current_position = p.portfolio.state.position;
    current_daily_pnl = p.portfolio.state.total_pnl;
    current_open_orders = open_order_count p.exec;
    market_data_stale = p.market_data_stale;
  }

  -- `submit` after the approval.
  abbrev pub place : Side → Price → Quantity → Timestamp → Pipeline F R → Pipeline F R
  place s price size now p =
      let quote : RestingQuote = record { id = p.next_order_id; price = price; size = size } in
      set_slot s (some quote) (record p {
        next_order_id = inc p.next_order_id;
        exec = (submit_limit p.exec p.next_order_id p.book.symbol s price size now).1;
        stats = record p.stats { quotes_submitted = inc p.stats.quotes_submitted };
      })

  abbrev pub count_reject : Pipeline F R → Pipeline F R
  count_reject p = record p { stats = record p.stats { risk_rejects = inc p.stats.risk_rejects } }

  unfoldable pub submit : Side → Price → Quantity → F → Timestamp → Pipeline F R → Pipeline F R
  submit s price size reference now p =
      if is_approved (check p.limits (risk_input s size reference p))
      then place s price size now p
      else count_reject p

  -- `if (!qd.quote_bid) cancel_side(...)`
  unfoldable pub withdraw : Side → Bool → Timestamp → Pipeline F R → Pipeline F R
  unfolding cancel_side
  withdraw s quoted now p = if quoted then p else cancel_side s now p

  -- `if (qd.quote_bid && needs_replace(...)) { cancel_side(...); submit(...); }`
  unfoldable pub replace :
      Side → Bool → Price → Quantity → ℤ → F → Timestamp → Pipeline F R → Pipeline F R
  unfolding cancel_side submit
  replace s quoted price size threshold reference now p =
      if quoted && needs_replace (slot s p) price size threshold
      then submit s price size reference now (cancel_side s now p)
      else p

  -- `requote` between its two clock readings.
  unfoldable pub place_quotes : QuoteDecision → F → Timestamp → Pipeline F R → Pipeline F R
  unfolding withdraw replace
  place_quotes qd reference now p =
      let threshold = threshold_ticks reference p.requote_threshold_bps in
      replace sell qd.quote_ask qd.ask_price qd.ask_size threshold reference now (
        replace buy qd.quote_bid qd.bid_price qd.bid_size threshold reference now
          (withdraw sell qd.quote_ask now (withdraw buy qd.quote_bid now p)))

  unfoldable pub decision_of : Pipeline F R → Timestamp → QuoteDecision
  decision_of p now = decide p.strategy p.book p.micro p.portfolio.state.position now

  unfoldable pub reference_of : Pipeline F R → F
  reference_of p = value_or (mid_price p.book) nought

  unfoldable pub requote : Timestamp → Timestamp → Timestamp → Pipeline F R → Pipeline F R
  unfolding place_quotes decision_of reference_of
  requote start stop now p =
      let p' = place_quotes (decision_of p now) (reference_of p) now p in
      record p' {
        stats = record p'.stats {
          decision_latency = add_ns p'.stats.decision_latency (stop -ℤ start);
        };
      }
