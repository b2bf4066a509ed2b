-- ===== src/OrderBook/Sides.antt =====
-- The comparators of `find_position` order the prices of a side strictly and totally, and one step
-- of the level operations at the front of the vector.
use lob_market_maker.Prelude.{◌≡◌, true, false, List, ◌∷◌, arith, eq_of_parts, if◌then◌else◌}
use lob_market_maker.Types.{Price, price_eq, Quantity, Side, buy, sell}
use lob_market_maker.OrderBook.{BookLevel, before, is_zero, upsert_levels, erase_levels}

pub before_trans :
    (s : Side) (p q r : Price) → before s p q ≡ true → before s q r ≡ true → before s p r ≡ true
before_trans buy p q r h k = ground arith
before_trans sell p q r h k = ground arith

pub before_asym : (s : Side) (p q : Price) → before s p q ≡ true → before s q p ≡ false
before_asym buy p q h = ground arith
before_asym sell p q h = ground arith

pub before_ne : (s : Side) (p q : Price) → before s p q ≡ true → price_eq p q ≡ false
before_ne buy p q h = ground arith
before_ne sell p q h = ground arith

pub before_total :
    (s : Side) (p q : Price) → before s p q ≡ false → price_eq p q ≡ false → before s q p ≡ true
before_total buy p q h k = ground arith
before_total sell p q h k = ground arith

pub price_eq_sym : (p q : Price) → price_eq p q ≡ price_eq q p
price_eq_sym p q = ground arith

pub eq_of_price_eq : (p q : Price) → price_eq p q ≡ true → p ≡ q
eq_of_price_eq p q h = ground (arith, eq_of_parts p.ticks q.ticks)

pub price_eq_refl : (p : Price) → price_eq p p ≡ true
price_eq_refl p = ground arith

module _ (s : Side) (l : BookLevel) (ls : List BookLevel) (p : Price) (q : Quantity) where
  pub upsert-cons_before :
      before s l.price p ≡ true → upsert_levels (l ∷ ls) s p q ≡ l ∷ upsert_levels ls s p q
  unfolding upsert_levels
  upsert-cons_before h = rw h (ground arith)

  pub upsert-cons_here :
      before s l.price p ≡ false
      → upsert_levels (l ∷ ls) s p q ≡ (
          if price_eq l.price p
          then (if is_zero q then ls else record { price = p; quantity = q } ∷ ls)
          else (if is_zero q then l ∷ ls else record { price = p; quantity = q } ∷ l ∷ ls))
  unfolding upsert_levels
  upsert-cons_here h = rw h (ground arith)

module _ (s : Side) (l : BookLevel) (ls : List BookLevel) (p : Price) where
  pub erase-cons_before :
      before s l.price p ≡ true → erase_levels (l ∷ ls) s p ≡ l ∷ erase_levels ls s p
  unfolding erase_levels
  erase-cons_before h = rw h (ground arith)

  pub erase-cons_here :
      before s l.price p ≡ false
      → erase_levels (l ∷ ls) s p ≡ (if price_eq l.price p then ls else l ∷ ls)
  unfolding erase_levels
  erase-cons_here h = rw h (ground arith)
