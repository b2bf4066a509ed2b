-- ===== src/Pipeline/Executing.antt =====
-- src/common/pipeline.hpp: the stage of `process` that fills resting orders keeps the pipeline safe.
use lob_market_maker.Prelude.{
  ℕ, ◌≡◌, ap, ◌∙◌, Option, none, some, List, ℤ, ◌+ℤ◌, Bool-cases, inl, inr,
}
use lob_market_maker.Types.{Quantity, OrderId, buy, sell}
use lob_market_maker.Events.{MarketEvent}
use lob_market_maker.Double.{Double, Rng, ExactInts}
use lob_market_maker.OrderBook.{mid_price}
use lob_market_maker.Portfolio.{mark_to_market}
use lob_market_maker.Execution.{Orders, Engine, ExecutionReport, is_trade}
use lob_market_maker.Execution.Operations.{on_market_event, erase_all}
use lob_market_maker.Execution.Fills.{Fills, on_market_event_trade, on_market_event_quiet}
use lob_market_maker.Execution.Keys.{live, erase_all-Fills}
use lob_market_maker.Execution.Exposure.{
  Positive-live, AllFilled-Fills, open_on, filled_on, open_on-Fills, open_on-live, open_on-nonneg,
}
use lob_market_maker.Execution.Conservation.{unspent}
use lob_market_maker.Pipeline.{Pipeline}
use lob_market_maker.Pipeline.Quotes.{apply_reports}
use lob_market_maker.Pipeline.Process.{execute, mark_at}
use lob_market_maker.Pipeline.Slots.{Slots}
use lob_market_maker.Pipeline.Passing.{filled_ids-Fills, reset_slots}
use lob_market_maker.Pipeline.Kept.{Coherent-Fills}
use lob_market_maker.Pipeline.Limits.{Within, SafeParts}
use lob_market_maker.Pipeline.Reports.{
  slots_of, apply_reports-Framed, apply_reports-slots, apply_reports-Within,
}
use lob_market_maker.Pipeline.Safety.{IsSafe}

-- The limit, with what the pass moved from the open orders into the reports.
Within-Fills :
    {ev : MarketEvent} {ack : ℤ} {os os' : Orders} {rs : List ExecutionReport} {ks : List OrderId}
    {max position : Quantity}
    → Fills ev ack os os' rs ks
    → Within max (open_on buy os) (open_on sell os) position
    → Within max
        (open_on buy (live os') +ℤ filled_on buy rs)
        (open_on sell (live os') +ℤ filled_on sell rs)
        position
Within-Fills {os' = after} r w =
    rw (open_on-live buy after, open_on-live sell after)
      (rw (open_on-Fills buy r, open_on-Fills sell r) at w)

SafeParts-eq :
    {max max' : Quantity} {spare next next' : ℕ} {c c' : Slots} {os os' : Orders}
    {position : Quantity}
    → max' ≡ max
    → next' ≡ next
    → c' ≡ c
    → os' ≡ os
    → SafeParts max spare next c os position
    → SafeParts max' spare next' c' os' position
SafeParts-eq a b c d v = rw (a, b, c, d) v

module _ {F R : Type 0} ⦃d : Double F⦄ ⦃g : Rng F R⦄ where
  mark_at-IsSafe :
      (mid : Option F) (spare : ℕ) (p : Pipeline F R)
      → IsSafe spare p
      → IsSafe spare (mark_at mid p)
  unfolding mark_to_market
  mark_at-IsSafe none spare p v = v
  mark_at-IsSafe (some m) spare p v = record {
    coherent = v.coherent;
    within = v.within;
    numbers = v.numbers;
  }

  abbrev with_exec : Engine F R → Pipeline F R → Pipeline F R
  with_exec e p = record p { exec = e }

  -- The reports of a pass, applied to the pipeline whose engine has made the pass.
  reports-IsSafe :
      ExactInts F
      → {ev : MarketEvent} {ack : ℤ} {after : Orders} {ks : List OrderId}
      → (rs : List ExecutionReport) (e : Engine F R) (spare : ℕ) (p : Pipeline F R)
      → Fills ev ack p.exec.open_orders after rs ks
      → e.open_orders ≡ erase_all ks after
      → IsSafe spare p
      → IsSafe spare (apply_reports (with_exec e p) rs)
  reports-IsSafe exact {after} {ks} rs e spare p fills opened v =
      let v_c = v.coherent in
      let left =
        opened ∙ erase_all-Fills fills v_c.distinct (unspent p.exec.open_orders v_c.positive) in
      let frame = apply_reports-Framed (with_exec e p) rs in
      let ids = filled_ids-Fills (slots_of p) p.next_order_id fills v_c.owned in
      let slots =
        apply_reports-slots (with_exec e p) rs ∙ ap (λ x. reset_slots x (slots_of p)) ids in
      let some_left = Positive-live fills v_c.positive in
      let within =
        apply_reports-Within exact (with_exec e p) rs {max = p.limits.max_position}
          (open_on buy (live after)) (open_on sell (live after)) (AllFilled-Fills fills)
          (open_on-nonneg buy (live after) some_left) (open_on-nonneg sell (live after) some_left)
          (Within-Fills fills v.within) in
      SafeParts-eq (ap (λ x. x.max_position) frame.limits_eq) frame.next_eq slots
        (ap (λ x. x.open_orders) frame.exec_eq ∙ left)
        (record {
          coherent = Coherent-Fills (slots_of p) p.next_order_id fills v_c;
          within = within;
          numbers = v.numbers;
        })

  pub execute-IsSafe :
      ExactInts F
      → (ev : MarketEvent) (spare : ℕ) (p : Pipeline F R) → IsSafe spare p
      → IsSafe spare (execute ev p)
  unfolding execute
  execute-IsSafe exact ev spare p v =
      let rs = (on_market_event p.exec ev).0 in
      let e = (on_market_event p.exec ev).1 in
      let marked = mark_at-IsSafe (mid_price p.book) spare in
      elim (Bool-cases (is_trade ev.type)) [
        | inl t ↦
            let (after, ks, fills, opened) = on_market_event_trade p.exec ev t in
            mark_at-IsSafe _ spare (apply_reports (with_exec e p) rs)
              (reports-IsSafe exact rs e spare p fills opened v)
        | inr t ↦ rw (on_market_event_quiet p.exec ev t, apply_reports) (marked p v)
      ]
