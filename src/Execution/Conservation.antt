-- ===== src/Execution/Conservation.antt =====
-- src/execution/paper_execution_engine.cpp: what is open is either still open after an event or filled.
use lob_market_maker.Prelude.{
  ◌≡◌, sym, ◌∙◌, false, [], ◌∷◌, ◌+ℤ◌, arith, All, Bool-cases, inl, inr, add_zero,
}
use lob_market_maker.Types.{Side}
use lob_market_maker.Events.{MarketEvent}
use lob_market_maker.Double.{Double, Rng}
use lob_market_maker.Execution.{Orders, Engine, is_trade}
use lob_market_maker.Execution.Operations.{on_market_event}
use lob_market_maker.Execution.Fills.{on_market_event_trade, on_market_event_quiet}
use lob_market_maker.Execution.Keys.{Distinct, is_used_up, erase_all-Fills}
use lob_market_maker.Execution.Exposure.{
  Positive, Positive-live, AllFilled, AllFilled-Fills, open_on, filled_on, open_on-Fills,
  open_on-live,
}

pub unspent : (os : Orders) → Positive os → All (λ e. is_used_up e.1 ≡ false) os
unspent [] p = tt
unspent ((k, o) ∷ os) p = (ground arith, unspent os p.1)

module _ {F R : Type 0} ⦃d : Double F⦄ ⦃g : Rng F R⦄ where
  -- An event after which nothing is lost: every open order still has something left, every report is of
  -- a positive quantity, and what was open on a side is what is open on it now and what the reports
  -- fill on it.
  pub record Conserves (e e' : Engine F R) (ev : MarketEvent) : Type 0 where
    pub some_left : Positive e'.open_orders
    pub all_filled : AllFilled (on_market_event e ev).0
    pub kept :
        (s : Side)
        → open_on s e.open_orders ≡ open_on s e'.open_orders +ℤ filled_on s (on_market_event e ev).0

  -- If the ids of the open orders are distinct and each has something left, then after any event, and
  -- whatever the random draws are, each order still open has something left, each report is of a
  -- positive quantity, and what was open on a side is the sum of what is open and what the reports fill.
  pub on_market_event-Conserves :
      (e : Engine F R) (ev : MarketEvent)
      → Distinct e.open_orders
      → Positive e.open_orders
      → Conserves e (on_market_event e ev).1 ev
  unfolding filled_on
  on_market_event-Conserves e ev u p = elim (Bool-cases (is_trade ev.type)) [
    | inl t ↦
        let (after, ks, fills, opened) = on_market_event_trade e ev t in
        let left = opened ∙ erase_all-Fills fills u (unspent e.open_orders p) in
        record {
          some_left = rw left (Positive-live fills p);
          all_filled = AllFilled-Fills fills;
          kept = λ s. rw (left, open_on-live s after) (open_on-Fills s fills);
        }
    | inr t ↦ record {
      some_left = rw (on_market_event_quiet e ev t) p;
      all_filled = rw (on_market_event_quiet e ev t) tt;
      kept = λ s. rw (on_market_event_quiet e ev t) (sym (add_zero (open_on s e.open_orders)));
    }
  ]
