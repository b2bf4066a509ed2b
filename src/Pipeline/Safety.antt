-- ===== src/Pipeline/Safety.antt =====
-- Every operation of the pipeline keeps it safe: quotes and orders agree, and the position limit
-- holds even if everything open on one side were filled.
use lob_market_maker.Prelude.{
  ℕ, suc, ◌+◌, ◌<◌, ◌^◌, ◌≡◌, refl, true, none, some, pos, neg, ◌+ℤ◌, ◌<ℤ◌, ◌≤ℤ◌, inc, arith,
  int_laws, Bool-cases, Option-cases, inl, inr, subst,
}
use lob_market_maker.Types.{Price, OrderId, Quantity, Timestamp, Side, buy, sell}
use lob_market_maker.Double.{Double, Rng}
use lob_market_maker.Risk.{check, approved, signed_delta, RiskDecision}
use lob_market_maker.Risk.Checks.{Sound, Reason, check-Reason}
use lob_market_maker.Execution.{Order, Engine, find_order, erase_order, remaining_quantity}
use lob_market_maker.Execution.Operations.{cancel, submit_limit, new_order}
use lob_market_maker.Execution.Keys.{put_order-Fresh}
use lob_market_maker.Pipeline.{Pipeline, RestingQuote, slot}
use lob_market_maker.Pipeline.Quotes.{
  cancel_side, cancel_quote, risk_input, place, submit, is_approved,
}
use lob_market_maker.Pipeline.Placing.{Fresh-Owned}
use lob_market_maker.Pipeline.Limits.{
  SafeParts, SafeParts-cancel, SafeParts-place, SafeParts-weaken,
}
use lob_market_maker.Pipeline.Reports.{slots_of, position_of}

-- The numbering has room for `spare` more orders.
abbrev pub IsSafe : {F R : Type 0} → ℕ → Pipeline F R → Type 0
IsSafe spare p =
    SafeParts p.limits.max_position spare p.next_order_id (slots_of p) p.exec.open_orders
      (position_of p)

is_approved_lem : (r : RiskDecision) → is_approved r ≡ true → r ≡ approved
is_approved_lem r h = ground arith

inc_lem : (n k : ℕ) → n + k < 2 ^ 64 → 0 < k → inc n ≡ n + 1
inc_lem n k h p = omega arith

remaining-new_order : (o : Order) → o.filled_quantity ≡ pos 0 → remaining_quantity o ≡ o.quantity
unfolding remaining_quantity
remaining-new_order o e = rw e (omega int_laws)

abbrev quote_of : OrderId → Price → Quantity → RestingQuote
quote_of k price size = record { id = k; price = price; size = size }

module _ {F R : Type 0} ⦃d : Double F⦄ ⦃g : Rng F R⦄ where
  cancel-found :
      (e : Engine F R) (k : OrderId) (now : Timestamp) (o : Order)
      → find_order k e.open_orders ≡ some o
      → (cancel e k now).1.open_orders ≡ erase_order k e.open_orders
  unfolding cancel
  cancel-found e k now o h = rw (h, cancel)

  cancel_quote-IsSafe :
      (s : Side) (q : RestingQuote) (now : Timestamp) (spare : ℕ) (p : Pipeline F R)
      → slot s p ≡ some q
      → IsSafe spare p
      → IsSafe spare (cancel_quote s q now p)
  cancel_quote-IsSafe buy q now spare p e v =
      let (o, found, _, _) = rw e at v.coherent.bid_backed in
      rw (cancel-found p.exec q.id now o found) (SafeParts-cancel buy q e v)
  cancel_quote-IsSafe sell q now spare p e v =
      let (o, found, _, _) = rw e at v.coherent.ask_backed in
      rw (cancel-found p.exec q.id now o found) (SafeParts-cancel sell q e v)

  pub cancel_side-IsSafe :
      (s : Side) (now : Timestamp) (spare : ℕ) (p : Pipeline F R)
      → IsSafe spare p
      → IsSafe spare (cancel_side s now p)
  unfolding cancel_side
  cancel_side-IsSafe s now spare p v = elim (Option-cases (slot s p)) [
    | inl e ↦ rw (e, cancel_side) v
    | inr (q, e) ↦ rw (e, cancel_side) (cancel_quote-IsSafe s q now spare p e v)
  ]

  pub slot-cancel_side :
      (s : Side) (now : Timestamp) (p : Pipeline F R) → slot s (cancel_side s now p) ≡ none
  unfolding cancel_side
  slot-cancel_side buy now p = ground arith
  slot-cancel_side sell now p = ground arith

  place-IsSafe :
      (s : Side) (price : Price) (size : Quantity) (now : Timestamp) (spare : ℕ) (p : Pipeline F R)
      → slot s p ≡ none
      → pos 0 <ℤ size
      → position_of p +ℤ signed_delta s size ≤ℤ p.limits.max_position
      → neg p.limits.max_position ≤ℤ position_of p +ℤ signed_delta s size
      → IsSafe (suc spare) p
      → IsSafe spare (place s price size now p)
  unfolding submit_limit
  place-IsSafe buy price size now spare p e h a b v =
      let q = quote_of p.next_order_id price size in
      let o = new_order p.next_order_id p.book.symbol buy price size now in
      let fresh = Fresh-Owned (slots_of p) p.next_order_id p.exec.open_orders v.coherent.owned in
      rw
        (
          put_order-Fresh p.next_order_id o p.exec.open_orders fresh,
          inc_lem p.next_order_id (suc spare) v.numbers (omega arith),
        )
        (SafeParts-place buy q o e refl refl refl (remaining-new_order o refl) h a b v)
  place-IsSafe sell price size now spare p e h a b v =
      let q = quote_of p.next_order_id price size in
      let o = new_order p.next_order_id p.book.symbol sell price size now in
      let fresh = Fresh-Owned (slots_of p) p.next_order_id p.exec.open_orders v.coherent.owned in
      rw
        (
          put_order-Fresh p.next_order_id o p.exec.open_orders fresh,
          inc_lem p.next_order_id (suc spare) v.numbers (omega arith),
        )
        (SafeParts-place sell q o e refl refl refl (remaining-new_order o refl) h a b v)

  -- Only what the risk engine approves is placed, so a submission keeps the pipeline safe.
  pub submit-IsSafe :
      (s : Side) (price : Price) (size : Quantity) (reference : F) (now : Timestamp) (spare : ℕ)
      (p : Pipeline F R)
      → slot s p ≡ none
      → IsSafe (suc spare) p
      → IsSafe spare (submit s price size reference now p)
  unfolding submit
  submit-IsSafe s price size reference now spare p e v =
      let i = risk_input s size reference p in
      elim (Bool-cases (is_approved (check p.limits i))) [
        | inl ok ↦
            let sound : Sound p.limits i =
              subst (Reason p.limits i) (is_approved_lem (check p.limits i) ok)
                (check-Reason p.limits i) in
            rw ok (
              place-IsSafe s price size now spare p e sound.some_quantity sound.not_above
                sound.not_below v)
        | inr refused ↦ rw refused (SafeParts-weaken spare (omega arith) v)
      ]
