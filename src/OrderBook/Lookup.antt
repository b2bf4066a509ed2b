-- ===== src/OrderBook/Lookup.antt =====
-- What a side holds at a price, and how `upsert` and `erase` change it.
use lob_market_maker.Prelude.{
  ◌≡◌, refl, true, Option, none, some, List, [], ◌∷◌, arith, Bool-cases, inl, inr, if◌then◌else◌,
}
use lob_market_maker.Types.{Price, price_eq, Quantity, Side}
use lob_market_maker.OrderBook.{BookLevel, before, is_zero, upsert_levels, erase_levels}
use lob_market_maker.OrderBook.Sides.{
  before_ne, before_total, eq_of_price_eq, price_eq_sym, upsert-cons_before, upsert-cons_here,
  erase-cons_before, erase-cons_here,
}
use lob_market_maker.OrderBook.Sorted.{After, After-before, IsSorted}

-- A search of the whole side, in no particular order.
unfoldable pub quantity_at : Price → List BookLevel → Option Quantity
quantity_at p [] = none
quantity_at p (l ∷ ls) = if price_eq l.price p then some l.quantity else quantity_at p ls

-- A price that comes before all levels is not among them.
pub quantity_at-After :
    (s : Side) (p : Price) (ls : List BookLevel) → After s p ls → quantity_at p ls ≡ none
unfolding quantity_at
quantity_at-After s p [] a = refl
quantity_at-After s p (l ∷ ls) a =
    rw (price_eq_sym l.price p, before_ne s p l.price a.0) (quantity_at-After s p ls a.1)

quantity_at-eq :
    (p r : Price) (ls : List BookLevel) → price_eq p r ≡ true → quantity_at r ls ≡ quantity_at p ls
quantity_at-eq p r ls e = rw (eq_of_price_eq p r e)

module _ (s : Side) (p r : Price) (q : Quantity) where
  -- After `upsert` a side that was sorted holds the new quantity at its price (none if it is zero), and what it held
  -- before at every other price.
  pub quantity_at-upsert :
      (ls : List BookLevel)
      → IsSorted s ls
      → quantity_at r (upsert_levels ls s p q)
        ≡ (if price_eq p r then (if is_zero q then none else some q) else quantity_at r ls)
  unfolding upsert_levels quantity_at
  quantity_at-upsert [] h = ground arith
  quantity_at-upsert (l ∷ ls) h = elim (Bool-cases (before s l.price p)) [
    | inl e ↦
        rw (upsert-cons_before s l ls p q e, quantity_at-upsert ls h.1)
          (ground (arith, before_ne s l.price p e))
    | inr e ↦ rw (upsert-cons_here s l ls p q e) (
        ground (
          arith,
          eq_of_price_eq l.price p,
          before_total s l.price p e,
          quantity_at-eq p r ls,
          quantity_at-After s p ls,
          quantity_at-After s l.price ls h.0,
          After-before s p l.price ls,
          before_ne s p l.price,
        ))
  ]

module _ (s : Side) (p r : Price) where
  -- After `erase` a side that was sorted holds nothing at that price, and what it held before at every other price.
  pub quantity_at-erase :
      (ls : List BookLevel)
      → IsSorted s ls
      → quantity_at r (erase_levels ls s p) ≡ (if price_eq p r then none else quantity_at r ls)
  unfolding erase_levels quantity_at
  quantity_at-erase [] h = ground arith
  quantity_at-erase (l ∷ ls) h = elim (Bool-cases (before s l.price p)) [
    | inl e ↦
        rw (erase-cons_before s l ls p e, quantity_at-erase ls h.1)
          (ground (arith, before_ne s l.price p e))
    | inr e ↦ rw (erase-cons_here s l ls p e) (
        ground (
          arith,
          eq_of_price_eq l.price p,
          before_total s l.price p e,
          quantity_at-eq p r ls,
          quantity_at-After s p ls,
          quantity_at-After s l.price ls h.0,
          After-before s p l.price ls,
          before_ne s p l.price,
        ))
  ]
