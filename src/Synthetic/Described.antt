-- ===== src/Synthetic/Described.antt =====
-- The levels that the generator tracks against a book that has taken its events.
use lob_market_maker.Prelude.{
  ◌≡◌, Bool, true, ◌||◌, Option, none, List, [], ◌∷◌, ◌++◌, ℤ, ◌+ℤ◌, ◌-ℤ◌, ◌*ℤ◌, ◌≤ℤ◌, ◌<ℤ◌,
  is_some, arith,
}
use lob_market_maker.Types.{from_ticks, Quantity, Side, buy, sell}
use lob_market_maker.OrderBook.View.{Depth, put}
use lob_market_maker.Synthetic.{has, levels_per_side, set_insert, set_erase}
use lob_market_maker.Synthetic.Sets.{
  pends, has-set_insert, has-set_erase, has_before-set_erase, pends-append,
}

abbrev pub shown : Depth → Side → ℤ → Bool
shown d s x = is_some (d s (from_ticks x))

abbrev pub of_side : List ℤ → List ℤ → Side → List ℤ
of_side bids asks buy = bids
of_side bids asks sell = asks

-- Where a level of a side may stand: within ten ticks of the reference price, and not on it.
abbrev pub InWindow : ℤ → ℤ → Side → ℤ → Type 0
InWindow ref tick buy x = (ref -ℤ (levels_per_side *ℤ tick) ≤ℤ x) × (x <ℤ ref)
InWindow ref tick sell x = (ref <ℤ x) × (x ≤ℤ ref +ℤ (levels_per_side *ℤ tick))

-- Every level of the book is tracked or about to be deleted, every tracked level stands in the
-- window, and some price lies between the bids and the asks of the book.
pub record Described (ref tick : ℤ) (bids asks : List ℤ) (pending : List (Side × ℤ)) (d : Depth)
    : Type 0 where
  pub known :
      (s : Side) (x : ℤ)
      → shown d s x ≡ true
      → (has x (of_side bids asks s) || pends s x pending) ≡ true
  pub window : (s : Side) (x : ℤ) → has x (of_side bids asks s) ≡ true → InWindow ref tick s x
  pub middle : ℤ
  pub below : (x : ℤ) → shown d buy x ≡ true → x <ℤ middle
  pub above : (x : ℤ) → shown d sell x ≡ true → middle <ℤ x

module _ {ref tick : ℤ} {bids asks : List ℤ} {d : Depth} where
  -- The deletion of the first level that is queued.
  pub Described-pending :
      (s : Side) (y : ℤ) (pending : List (Side × ℤ))
      → Described ref tick bids asks ((s, y) ∷ pending) d
      → Described ref tick bids asks pending (put d s (from_ticks y) none)
  Described-pending s y pending h = record {
    known = λ t x e. ground (arith, h.known t x);
    window = h.window;
    middle = h.middle;
    below = λ x e. ground (arith, h.below x);
    above = λ x e. ground (arith, h.above x);
  }

  -- A level that goes from its set to the queue.
  pub Described-bid_out :
      (y : ℤ) (pending : List (Side × ℤ))
      → Described ref tick bids asks pending d
      → Described ref tick (set_erase y bids) asks (pending ++ ((buy, y) ∷ [])) d
  Described-bid_out y pending h = record {
    known = λ t x e.
        ground
          (arith, h.known t x e, has-set_erase x y bids, pends-append t x pending ((buy, y) ∷ []));
    window = λ s x e. ground (arith, h.window s x, has_before-set_erase x y bids);
    middle = h.middle;
    below = h.below;
    above = h.above;
  }

  pub Described-ask_out :
      (y : ℤ) (pending : List (Side × ℤ))
      → Described ref tick bids asks pending d
      → Described ref tick bids (set_erase y asks) (pending ++ ((sell, y) ∷ [])) d
  Described-ask_out y pending h = record {
    known = λ t x e.
        ground
          (arith, h.known t x e, has-set_erase x y asks, pends-append t x pending ((sell, y) ∷ []));
    window = λ s x e. ground (arith, h.window s x, has_before-set_erase x y asks);
    middle = h.middle;
    below = h.below;
    above = h.above;
  }

  -- While nothing is queued, the reference price itself lies between the bids and the asks.
  pub Described-centred :
      Described ref tick bids asks [] d
      → ((x : ℤ) → shown d buy x ≡ true → x <ℤ ref) × ((x : ℤ) → shown d sell x ≡ true → ref <ℤ x)
  Described-centred h = (
    λ x e. ground (arith, h.known buy x e, h.window buy x),
    λ x e. ground (arith, h.known sell x e, h.window sell x),
  )

  module _ (h : Described ref tick bids asks [] d) (y : ℤ) where
    -- A level that is deleted at once.
    pub Described-bid_cancel :
        Described ref tick (set_erase y bids) asks [] (put d buy (from_ticks y) none)
    Described-bid_cancel = record {
      known = λ t x e. ground (arith, h.known t x, has-set_erase x y bids);
      window = λ s x e. ground (arith, h.window s x, has_before-set_erase x y bids);
      middle = h.middle;
      below = λ x e. ground (arith, h.below x);
      above = λ x e. ground (arith, h.above x);
    }

    pub Described-ask_cancel :
        Described ref tick bids (set_erase y asks) [] (put d sell (from_ticks y) none)
    Described-ask_cancel = record {
      known = λ t x e. ground (arith, h.known t x, has-set_erase x y asks);
      window = λ s x e. ground (arith, h.window s x, has_before-set_erase x y asks);
      middle = h.middle;
      below = λ x e. ground (arith, h.below x);
      above = λ x e. ground (arith, h.above x);
    }

    -- A level that is quoted inside the window.
    pub Described-bid_quote :
        (q : Option Quantity)
        → InWindow ref tick buy y
        → Described ref tick (set_insert y bids) asks [] (put d buy (from_ticks y) q)
    Described-bid_quote q in_window = record {
      known = λ t x e. ground (arith, h.known t x, has-set_insert x y bids);
      window = λ s x e. ground (arith, h.window s x, has-set_insert x y bids);
      middle = ref;
      below = λ x e. ground (arith, (Described-centred h).0 x);
      above = λ x e. ground (arith, (Described-centred h).1 x);
    }

    pub Described-ask_quote :
        (q : Option Quantity)
        → InWindow ref tick sell y
        → Described ref tick bids (set_insert y asks) [] (put d sell (from_ticks y) q)
    Described-ask_quote q in_window = record {
      known = λ t x e. ground (arith, h.known t x, has-set_insert x y asks);
      window = λ s x e. ground (arith, h.window s x, has-set_insert x y asks);
      middle = ref;
      below = λ x e. ground (arith, (Described-centred h).0 x);
      above = λ x e. ground (arith, (Described-centred h).1 x);
    }
