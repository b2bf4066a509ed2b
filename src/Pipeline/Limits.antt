-- ===== src/Pipeline/Limits.antt =====
-- The position limit, with all that the open orders can still fill: the invariant behind the safety
-- of the pipeline, on the parts of its state that it speaks of.
use lob_market_maker.Prelude.{
  ℕ, ◌+◌, ◌<◌, ◌≤◌, ◌^◌, ◌≡◌, suc, none, some, [], ◌∷◌, pos, neg, ◌+ℤ◌, ◌-ℤ◌, ◌<ℤ◌, ◌≤ℤ◌, arith,
  int_laws, parts_of_eq, zero_add, add_zero, parts_disjoint, Bool-cases, inl, inr, ◌==◌,
}
use lob_market_maker.Types.{OrderId, Quantity, Side, buy, sell}
use lob_market_maker.Double.{Fits}
use lob_market_maker.Risk.{signed_delta}
use lob_market_maker.Execution.{Order, Orders, remaining_quantity, erase_order}
use lob_market_maker.Execution.Exposure.{Positive, open_on, on_side, on_side-nonneg, open_on-nonneg}
use lob_market_maker.Pipeline.{RestingQuote}
use lob_market_maker.Pipeline.Slots.{
  Slots, at_side, emptied, filled_with, Coherent, Coherent-cancel,
}
use lob_market_maker.Pipeline.Placing.{open_on-emptied, Coherent-place}

-- If all the open buys and no sale were filled, the position would not exceed the limit; likewise
-- for the sales.
pub record Within (max : Quantity) (bought sold : Quantity) (position : Quantity) : Type 0 where
  pub small : max ≤ℤ pos (2 ^ 52)
  pub bought_pos : pos 0 ≤ℤ bought
  pub sold_pos : pos 0 ≤ℤ sold
  pub not_above : position +ℤ bought ≤ℤ max
  pub not_below : neg max ≤ℤ position -ℤ sold

-- `spare` more orders can be numbered before the 64-bit counter wraps.
pub record SafeParts (max : Quantity) (spare next : ℕ) (c : Slots) (os : Orders)
    (position : Quantity) : Type 0 where
  pub coherent : Coherent c next os
  pub within : Within max (open_on buy os) (open_on sell os) position
  pub numbers : next + spare < 2 ^ 64

pub Within-Fits :
    {max bought sold position : Quantity} → Within max bought sold position → Fits position
Within-Fits {max} {bought} {sold} {position} w = omega (int_laws, parts_disjoint position)

open_on-erase_order :
    (s : Side) (k : OrderId) (os : Orders)
    → Positive os
    → open_on s (erase_order k os) ≤ℤ open_on s os
unfolding open_on erase_order
open_on-erase_order s k [] p = omega arith
open_on-erase_order s k ((j, o) ∷ os) p = elim (Bool-cases (j == k)) [
  | inl e ↦ rw e (omega (int_laws, on_side-nonneg s o.side (remaining_quantity o) p.0))
  | inr e ↦ rw e (omega (int_laws, open_on-erase_order s k os p.1))
]

Within-less :
    {max bought sold bought' sold' position : Quantity}
    → Within max bought sold position
    → bought' ≤ℤ bought
    → sold' ≤ℤ sold
    → pos 0 ≤ℤ bought'
    → pos 0 ≤ℤ sold'
    → Within max bought' sold' position
Within-less w b s p q = omega int_laws

-- The open quantities when a side that had none gets an order for q.
abbrev Added : Side → Quantity → Quantity → Quantity → Quantity → Quantity → Type 0
Added buy q bought sold bought' sold' = (bought ≡ pos 0) × (bought' ≡ q) × (sold' ≡ sold)
Added sell q bought sold bought' sold' = (sold ≡ pos 0) × (sold' ≡ q) × (bought' ≡ bought)

-- A new order that the risk check let through.
Within-more :
    {max bought sold position : Quantity} (s : Side) (q : Quantity)
    → Within max bought sold position
    → pos 0 <ℤ q
    → position +ℤ signed_delta s q ≤ℤ max
    → neg max ≤ℤ position +ℤ signed_delta s q
    → (bought' sold' : Quantity) → Added s q bought sold bought' sold'
    → Within max bought' sold' position
Within-more buy q w p h k bought' sold' (e, f, g) = rw (f, g) (omega (int_laws, parts_of_eq e))
Within-more sell q w p h k bought' sold' (e, f, g) = rw (f, g) (omega (int_laws, parts_of_eq e))

open_on-Added :
    (s : Side) (c : Slots) (next : ℕ) (os : Orders) (o : Order) (q : Quantity)
    → at_side s c ≡ none
    → o.side ≡ s
    → remaining_quantity o ≡ q
    → Coherent c next os
    → Added s q
        (open_on buy os)
        (open_on sell os)
        (open_on buy ((next, o) ∷ os))
        (open_on sell ((next, o) ∷ os))
unfolding open_on on_side
open_on-Added buy c next os o q e side left v =
    let empty = open_on-emptied buy c next os e v.owned in
    (empty, rw (left, side, empty) (add_zero q), rw side (zero_add _))
open_on-Added sell c next os o q e side left v =
    let empty = open_on-emptied sell c next os e v.owned in
    (empty, rw (left, side, empty) (add_zero q), rw side (zero_add _))

module _ {max : Quantity} {spare next : ℕ} {c : Slots} {os : Orders} {position : Quantity} where
  pub SafeParts-cancel :
      (s : Side) (q : RestingQuote)
      → at_side s c ≡ some q
      → SafeParts max spare next c os position
      → SafeParts max spare next (emptied s c) (erase_order q.id os) position
  SafeParts-cancel s q e v =
      let kept = Coherent-cancel s c next os q e v.coherent in
      let left = kept.positive in
      record {
        coherent = kept;
        within =
            Within-less v.within (open_on-erase_order buy q.id os v.coherent.positive)
              (open_on-erase_order sell q.id os v.coherent.positive)
              (open_on-nonneg buy (erase_order q.id os) left)
              (open_on-nonneg sell (erase_order q.id os) left);
        numbers = v.numbers;
      }

  pub SafeParts-weaken :
      (fewer : ℕ)
      → fewer ≤ spare
      → SafeParts max spare next c os position
      → SafeParts max fewer next c os position
  SafeParts-weaken fewer h v = record {
    coherent = v.coherent;
    within = v.within;
    numbers = omega (arith, v.numbers);
  }

  -- A new quote on an empty side, for a quantity that the risk check let through.
  pub SafeParts-place :
      (s : Side) (q : RestingQuote) (o : Order)
      → at_side s c ≡ none
      → q.id ≡ next
      → o.id ≡ next
      → o.side ≡ s
      → remaining_quantity o ≡ q.size
      → pos 0 <ℤ q.size
      → position +ℤ signed_delta s q.size ≤ℤ max
      → neg max ≤ℤ position +ℤ signed_delta s q.size
      → SafeParts max (suc spare) next c os position
      → SafeParts max spare (next + 1) (filled_with s q c) ((next, o) ∷ os) position
  SafeParts-place s q o e qi oi side left p h k v = record {
    coherent = Coherent-place s c next os q o e qi oi side (rw left p) v.coherent;
    within =
        Within-more s q.size v.within p h k _ _
          (open_on-Added s c next os o q.size e side left v.coherent);
    numbers = omega (arith, v.numbers);
  }
