-- ===== src/Execution/Exposure.antt =====
-- What the open orders of a side can still fill, and how a pass moves it into reports.
use lob_market_maker.Prelude.{
  ◌≡◌, refl, Bool, true, List, [], ◌∷◌, pos, ◌+ℤ◌, ◌-ℤ◌, ◌≤ℤ◌, ◌<ℤ◌, if◌then◌else◌, arith, int_laws,
  zero_add, parts_of_eq, -ℤ_parts, eqb_ℤ_iff, Bool-cases, inl, inr, All, beq,
}
use lob_market_maker.Types.{Side, buy, sell, is_buy, Quantity, OrderId, Timestamp}
use lob_market_maker.Events.{MarketEvent}
use lob_market_maker.Execution.{
  Order, Orders, ExecutionReport, remaining_quantity, fill_order, fill_report,
}
use lob_market_maker.Execution.Fills.{Fills}
use lob_market_maker.Execution.Keys.{live, is_used_up}

abbrev pub same_side : Side → Side → Bool
same_side s t = beq (is_buy s) (is_buy t)

-- The quantity if the sides agree, else zero.
unfoldable pub on_side : Side → Side → Quantity → Quantity
on_side s t q = if same_side s t then q else pos 0

unfoldable pub open_on : Side → Orders → Quantity
open_on s [] = pos 0
open_on s ((k, o) ∷ os) = on_side s o.side (remaining_quantity o) +ℤ open_on s os

unfoldable pub filled_on : Side → List ExecutionReport → Quantity
filled_on s [] = pos 0
filled_on s (r ∷ rs) = on_side s r.side r.fill_quantity +ℤ filled_on s rs

-- Something is left of every order.
abbrev pub Positive : Orders → Type 0
Positive = All λ e. pos 0 <ℤ remaining_quantity e.1

abbrev pub AllFilled : List ExecutionReport → Type 0
AllFilled = All λ r. pos 0 <ℤ r.fill_quantity

pub remaining_quantity-fill_order :
    (o : Order) (q : Quantity) (now : Timestamp)
    → remaining_quantity (fill_order o q now) ≡ remaining_quantity o -ℤ q
unfolding fill_order remaining_quantity
remaining_quantity-fill_order o q now = omega int_laws

on_side_sub : (s t : Side) (a b : Quantity) → on_side s t a ≡ on_side s t (a -ℤ b) +ℤ on_side s t b
unfolding on_side
on_side_sub buy buy a b = omega int_laws
on_side_sub buy sell a b = omega int_laws
on_side_sub sell buy a b = omega int_laws
on_side_sub sell sell a b = omega int_laws

pub on_side-nonneg : (s t : Side) (a : Quantity) → pos 0 <ℤ a → pos 0 ≤ℤ on_side s t a
unfolding on_side
on_side-nonneg s t a h = ground arith

pub open_on-nonneg : (s : Side) (os : Orders) → Positive os → pos 0 ≤ℤ open_on s os
unfolding open_on
open_on-nonneg s [] p = omega arith
open_on-nonneg s ((k, o) ∷ os) p =
    omega (int_laws, open_on-nonneg s os p.1, on_side-nonneg s o.side (remaining_quantity o) p.0)

pub filled_on-nonneg :
    (s : Side) (rs : List ExecutionReport) → AllFilled rs → pos 0 ≤ℤ filled_on s rs
unfolding filled_on
filled_on-nonneg s [] p = omega arith
filled_on-nonneg s (r ∷ rs) p =
    omega (int_laws, filled_on-nonneg s rs p.1, on_side-nonneg s r.side r.fill_quantity p.0)

module _ {ev : MarketEvent} {ack : Timestamp} where
  -- What a pass takes out of the open quantity of a side is what its reports fill on that side.
  pub open_on-Fills :
      {os os' : Orders} {rs : List ExecutionReport} {ks : List OrderId} (s : Side)
      → Fills ev ack os os' rs ks
      → open_on s os ≡ open_on s os' +ℤ filled_on s rs
  unfolding open_on filled_on fill_order fill_report
  open_on-Fills s Fills.done = omega int_laws
  open_on-Fills s (Fills.keep h r) = omega (int_laws, parts_of_eq (open_on-Fills s r))
  open_on-Fills s (Fills.fill {o} qty h r) = rw (remaining_quantity-fill_order o qty ev.timestamp) (
      omega (
        int_laws,
        parts_of_eq (open_on-Fills s r),
        parts_of_eq (on_side_sub s o.side (remaining_quantity o) qty),
      ))

  pub AllFilled-Fills :
      {os os' : Orders} {rs : List ExecutionReport} {ks : List OrderId}
      → Fills ev ack os os' rs ks
      → AllFilled rs
  unfolding fill_report
  AllFilled-Fills Fills.done = tt
  AllFilled-Fills (Fills.keep h r) = AllFilled-Fills r
  AllFilled-Fills (Fills.fill qty h r) = (h.positive, AllFilled-Fills r)

  pub Positive-live :
      {os os' : Orders} {rs : List ExecutionReport} {ks : List OrderId}
      → Fills ev ack os os' rs ks
      → Positive os
      → Positive (live os')
  unfolding live
  Positive-live Fills.done p = tt
  Positive-live (Fills.keep h r) p = ground (arith, Positive-live r p.1)
  Positive-live (Fills.fill {o} qty h r) p = ground (
    arith,
    Positive-live r p.1,
    parts_of_eq (remaining_quantity-fill_order o qty ev.timestamp),
    -ℤ_parts (remaining_quantity o) qty,
  )

used_up :
    (s : Side) (o : Order) (os : Orders)
    → is_used_up o ≡ true
    → open_on s os ≡ on_side s o.side (remaining_quantity o) +ℤ open_on s os
unfolding on_side
used_up s o os h =
    rw ((eqb_ℤ_iff (remaining_quantity o) (pos 0)).0 h) (ground (arith, zero_add (open_on s os)))

pub open_on-live : (s : Side) (os : Orders) → open_on s (live os) ≡ open_on s os
unfolding live open_on
open_on-live s [] = refl
open_on-live s ((k, o) ∷ os) = elim (Bool-cases (is_used_up o)) [
  | inl e ↦ rw (e, open_on-live s os) (used_up s o os e)
  | inr e ↦ rw (e, open_on-live s os)
]
