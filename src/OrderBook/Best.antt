-- ===== src/OrderBook/Best.antt =====
-- The front of a side is its best price, and `crossed` is read off the two fronts.
use lob_market_maker.Prelude.{
  ◌≡◌, refl, ◌↔◌, true, false, Option, none, some, List, [], ◌∷◌, arith, is_some, All,
}
use lob_market_maker.Types.{Price, price_le, Side, buy, sell}
use lob_market_maker.OrderBook.{
  OrderBook, BookLevel, before, front_price, best_bid, best_ask, crossed,
}
use lob_market_maker.OrderBook.Sides.{before_asym, eq_of_price_eq, price_eq_refl}
use lob_market_maker.OrderBook.Sorted.{After, IsSorted, IsValid}
use lob_market_maker.OrderBook.Lookup.{quantity_at}

-- Some level of the side stands at the price.
abbrev pub Holds : List BookLevel → Price → Type 0
Holds ls p = is_some (quantity_at p ls) ≡ true

not-before-Holds :
    (s : Side) (p r : Price) (ls : List BookLevel) → After s p ls → Holds ls r → before s p r ≡ true
unfolding quantity_at
not-before-Holds s p r [] a h = cc
not-before-Holds s p r (l ∷ ls) a h =
    ground (arith, eq_of_price_eq l.price r, not-before-Holds s p r ls a.1)

-- What a best price must be: none for an empty side; else a price that is held, and that no price
-- of the side comes before.
abbrev pub IsBest : Side → List BookLevel → Option Price → Type 0
IsBest s ls none = ls ≡ []
IsBest s ls (some p) = Holds ls p × All (λ l. before s l.price p ≡ false) ls

All-not-before :
    (s : Side) (p : Price) (ls : List BookLevel)
    → After s p ls
    → All (λ l. before s l.price p ≡ false) ls
All-not-before s p [] a = tt
All-not-before s p (l ∷ ls) a = (before_asym s p l.price a.0, All-not-before s p ls a.1)

before_irrefl : (s : Side) (p : Price) → before s p p ≡ false
before_irrefl buy p = ground arith
before_irrefl sell p = ground arith

front_price-IsBest : (s : Side) (ls : List BookLevel) → IsSorted s ls → IsBest s ls (front_price ls)
unfolding quantity_at
front_price-IsBest s [] h = refl
front_price-IsBest s (l ∷ ls) h =
    (rw (price_eq_refl l.price), (before_irrefl s l.price, All-not-before s l.price ls h.0))

-- On a valid book `best_bid` is the highest price among the bids and `best_ask` the lowest among the
-- asks; each is missing exactly on an empty side.
pub IsBest-prices :
    (b : OrderBook) → IsValid b → IsBest buy b.bids (best_bid b) × IsBest sell b.asks (best_ask b)
unfolding best_bid best_ask
IsBest-prices b v =
    (front_price-IsBest buy b.bids v.bids_sorted, front_price-IsBest sell b.asks v.asks_sorted)

-- A bid price and an ask price that the book holds, the ask not above the bid.
abbrev pub Overlap : OrderBook → Type 0
Overlap b = (p : Price) × (r : Price) × Holds b.bids p × Holds b.asks r × (price_le r p ≡ true)

crossed_of_fronts :
    (s : Side) (p : Price) (ls : List BookLevel)
    → All (λ l. before s l.price p ≡ false) ls
    → (r : Price) → Holds ls r
    → before s r p ≡ false
unfolding quantity_at
crossed_of_fronts s p [] a r h = cc
crossed_of_fronts s p (l ∷ ls) a r h =
    ground (arith, eq_of_price_eq l.price r, crossed_of_fronts s p ls a.1 r)

Holds-nil : (p : Price) → Holds [] p → ⊥
unfolding quantity_at
Holds-nil p h = cc

abbrev with_levels : OrderBook → List BookLevel → List BookLevel → OrderBook
with_levels b xs ys = record b { bids = xs; asks = ys }

Overlap-of_crossed :
    (b : OrderBook) (xs ys : List BookLevel)
    → crossed (with_levels b xs ys) ≡ true
    → Overlap (with_levels b xs ys)
unfolding crossed quantity_at
Overlap-of_crossed b [] ys h = cc
Overlap-of_crossed b (x ∷ xs) [] h = cc
Overlap-of_crossed b (x ∷ xs) (y ∷ ys) h =
    (x.price, y.price, rw (price_eq_refl x.price), rw (price_eq_refl y.price), h)

crossed_of_Overlap :
    (b : OrderBook) (xs ys : List BookLevel)
    → IsSorted buy xs
    → IsSorted sell ys
    → Overlap (with_levels b xs ys)
    → crossed (with_levels b xs ys) ≡ true
unfolding crossed
crossed_of_Overlap b [] ys sx sy (p, r, hp, hr, le) = absurd (Holds-nil p hp)
crossed_of_Overlap b (x ∷ xs) [] sx sy (p, r, hp, hr, le) = absurd (Holds-nil r hr)
crossed_of_Overlap b (x ∷ xs) (y ∷ ys) sx sy (p, r, hp, hr, le) = ground (
  arith,
  crossed_of_fronts buy x.price (x ∷ xs) (front_price-IsBest buy (x ∷ xs) sx).1 p hp,
  crossed_of_fronts sell y.price (y ∷ ys) (front_price-IsBest sell (y ∷ ys) sy).1 r hr,
)

-- On a valid book `crossed` answers true exactly when the book holds a bid price and an ask
-- price that is not above it.
pub crossed_iff : (b : OrderBook) → IsValid b → (crossed b ≡ true) ↔ Overlap b
crossed_iff b v = (
  Overlap-of_crossed b b.bids b.asks,
  crossed_of_Overlap b b.bids b.asks v.bids_sorted v.asks_sorted,
)
