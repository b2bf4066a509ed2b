-- ===== src/OrderBook/Canonical.antt =====
-- The vectors are a canonical form: the map that a side stands for determines its vector.
use lob_market_maker.Prelude.{◌≡◌, refl, sym, ap, ap₂, ◌∙◌, List, [], ◌∷◌, arith}
use lob_market_maker.Types.{Price, Side, buy, sell}
use lob_market_maker.Events.{MarketEvent}
use lob_market_maker.OrderBook.{OrderBook, BookLevel}
use lob_market_maker.OrderBook.Sides.{
  before_asym, before_total, eq_of_price_eq, price_eq_refl, price_eq_sym,
}
use lob_market_maker.OrderBook.Sorted.{After, After-before, IsSorted, IsValid}
use lob_market_maker.OrderBook.Lookup.{quantity_at, quantity_at-After}
use lob_market_maker.OrderBook.View.{depth_of, apply_all, meaning_of_all, apply_all_refines}

nil_differs :
    (l : BookLevel) (ls : List BookLevel)
    → ((p : Price) → quantity_at p [] ≡ quantity_at p (l ∷ ls))
    → ⊥
unfolding quantity_at
nil_differs l ls h = ground (arith, h l.price, price_eq_refl l.price)

module _ (s : Side) where
  -- The same map has the same best price.
  fronts_agree :
      (l m : BookLevel) (ls ms : List BookLevel)
      → After s l.price ls
      → After s m.price ms
      → ((p : Price) → quantity_at p (l ∷ ls) ≡ quantity_at p (m ∷ ms))
      → l ≡ m
  unfolding quantity_at
  fronts_agree l m ls ms a b h = ground (
    arith,
    h l.price,
    h m.price,
    price_eq_refl l.price,
    price_eq_refl m.price,
    price_eq_sym l.price m.price,
    eq_of_price_eq l.price m.price,
    before_total s l.price m.price,
    before_asym s m.price l.price,
    quantity_at-After s l.price ms,
    After-before s l.price m.price ms,
    quantity_at-After s m.price ls,
    After-before s m.price l.price ls,
  )

  tails_agree :
      (l : BookLevel) (ls ms : List BookLevel)
      → After s l.price ls
      → After s l.price ms
      → ((p : Price) → quantity_at p (l ∷ ls) ≡ quantity_at p (l ∷ ms))
      → (p : Price) → quantity_at p ls ≡ quantity_at p ms
  unfolding quantity_at
  tails_agree l ls ms a b h p = ground (
    arith,
    h p,
    eq_of_price_eq l.price p,
    quantity_at-After s l.price ls,
    quantity_at-After s l.price ms,
  )

  levels_ext :
      (ls ms : List BookLevel)
      → IsSorted s ls
      → IsSorted s ms
      → ((p : Price) → quantity_at p ls ≡ quantity_at p ms)
      → ls ≡ ms
  levels_ext [] [] a b h = refl
  levels_ext [] (m ∷ ms) a b h = absurd (nil_differs m ms h)
  levels_ext (l ∷ ls) [] a b h = absurd (nil_differs l ls (λ p. sym (h p)))
  levels_ext (l ∷ ls) (m ∷ ms) a b h =
      let e = fronts_agree l m ls ms a.0 b.0 h in
      ap₂ ◌∷◌ e
        (levels_ext ls ms a.1 b.1 (tails_agree l ls ms a.0 (rw e b.0) (λ p. rw (sym e) at (h p))))

depth_ext :
    (b c : OrderBook)
    → IsValid b
    → IsValid c
    → depth_of b ≡ depth_of c
    → (b.bids ≡ c.bids) × (b.asks ≡ c.asks)
unfolding depth_of
depth_ext b c v w e = (
  levels_ext buy b.bids c.bids v.bids_sorted w.bids_sorted (λ p. ap (λ m. m buy p) e),
  levels_ext sell b.asks c.asks v.asks_sorted w.asks_sorted (λ p. ap (λ m. m sell p) e),
)

-- If two sequences of events, each from a valid book, mean the same map of quantities in the end, then
-- the books have the same vectors: how the levels came about, in which order and through which
-- overwritten or deleted quotes, leaves no trace in them.
pub apply_all_ext :
    (b c : OrderBook) (xs ys : List MarketEvent)
    → IsValid b
    → IsValid c
    → meaning_of_all (depth_of b) xs ≡ meaning_of_all (depth_of c) ys
    → ((apply_all b xs).bids ≡ (apply_all c ys).bids)
      × ((apply_all b xs).asks ≡ (apply_all c ys).asks)
apply_all_ext b c xs ys v w e =
    let (v', f) = apply_all_refines b xs v in
    let (w', g) = apply_all_refines c ys w in
    depth_ext (apply_all b xs) (apply_all c ys) v' w' (f ∙ e ∙ sym g)
