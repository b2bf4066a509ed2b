-- ===== src/Synthetic.antt =====
-- src/tools/synthetic_book.hpp: the seeded generator of synthetic order book events.
pub mod Sets
pub mod Next
pub mod Described
pub mod Book
pub mod Steps
pub mod Uncrossed
pub mod Numbers
use lob_market_maker.Prelude.{
  ℕ, zero, suc, ◌+◌, Bool, true, false, ◌&&◌, ◌||◌, Option, none, some, List, [], ◌∷◌, ◌++◌, map, ℤ,
  pos, ◌+ℤ◌, ◌-ℤ◌, ◌*ℤ◌, neg, ltb_ℤ, leb_ℤ, eqb_ℤ, min_ℤ, pos_part, inc, if◌then◌else◌, length,
  take, get_elem?,
}
use lob_market_maker.Types.{
  Price, from_ticks, from_double, Quantity, SequenceNumber, Timestamp, Side, buy, sell, Symbol,
}
use lob_market_maker.Events.{MarketEvent, make_delete}
use lob_market_maker.Double.{Double, Draws}

-- `std::set<int64_t>`: an increasing list.
abbrev pub has : ℤ → List ℤ → Bool
has x [] = false
has x (y ∷ ys) = eqb_ℤ y x || has x ys

unfoldable pub set_insert : ℤ → List ℤ → List ℤ
set_insert x [] = x ∷ []
set_insert x (y ∷ ys) =
    let rest = set_insert x ys in
    if ltb_ℤ x y then x ∷ y ∷ ys else (if ltb_ℤ y x then y ∷ rest else y ∷ ys)

unfoldable pub set_erase : ℤ → List ℤ → List ℤ
set_erase x [] = []
set_erase x (y ∷ ys) = let rest = set_erase x ys in if eqb_ℤ y x then ys else y ∷ rest

-- `rbegin` onwards.
unfoldable pub backwards : List ℤ → List ℤ → List ℤ
backwards [] done = done
backwards (x ∷ xs) done = backwards xs (x ∷ done)

-- `pending_` holds the levels whose deletion is to be emitted, the next one first.
pub record SyntheticBookGenerator (R : Type 0) : Type 0 where
  pub rng : R
  pub ref : ℤ
  pub tick : ℤ
  pub symbol : Symbol
  pub seq : SequenceNumber
  pub t : Timestamp
  pub bids : List ℤ
  pub asks : List ℤ
  pub pending : List (Side × ℤ)

abbrev pub levels_per_side : ℤ
levels_per_side = pos 10

-- The loop over one set: what stays, and what is moved to the end of `pending_`.
unfoldable pub still_valid : (ℤ → Bool) → List ℤ → List ℤ
still_valid invalid [] = []
still_valid invalid (x ∷ xs) =
    let rest = still_valid invalid xs in if invalid x then rest else x ∷ rest

unfoldable pub queued : Side → (ℤ → Bool) → List ℤ → List (Side × ℤ)
queued s invalid [] = []
queued s invalid (x ∷ xs) =
    let rest = queued s invalid xs in if invalid x then (s, x) ∷ rest else rest

-- The levels of one side, and a generator with others.
abbrev pub levels : {R : Type 0} → SyntheticBookGenerator R → Side → List ℤ
levels g buy = g.bids
levels g sell = g.asks

abbrev pub with_levels :
    {R : Type 0} → SyntheticBookGenerator R → Side → List ℤ → SyntheticBookGenerator R
with_levels g buy xs = record g { bids = xs }
with_levels g sell xs = record g { asks = xs }

module _ {R : Type 0} where
  unfoldable pub invalid_bid : SyntheticBookGenerator R → ℤ → Bool
  invalid_bid g x = leb_ℤ g.ref x || ltb_ℤ x (g.ref -ℤ (levels_per_side *ℤ g.tick))

  unfoldable pub invalid_ask : SyntheticBookGenerator R → ℤ → Bool
  invalid_ask g x = leb_ℤ x g.ref || ltb_ℤ (g.ref +ℤ (levels_per_side *ℤ g.tick)) x

  unfoldable pub queue_invalid_levels : SyntheticBookGenerator R → SyntheticBookGenerator R
  unfolding still_valid queued invalid_bid invalid_ask
  queue_invalid_levels g = record g {
    bids = still_valid (invalid_bid g) g.bids;
    asks = still_valid (invalid_ask g) g.asks;
    pending =
        g.pending ++ (queued buy (invalid_bid g) g.bids ++ queued sell (invalid_ask g) g.asks);
  }

  -- The loop over `swept` but its last element: each level erased and queued.
  unfoldable pub consume : Side → List ℤ → SyntheticBookGenerator R → SyntheticBookGenerator R
  unfolding set_erase
  consume s [] g = g
  consume s (x ∷ []) g = g
  consume s (x ∷ y ∷ ys) g =
      consume s (y ∷ ys) (record (with_levels g s (set_erase x (levels g s))) {
        pending = g.pending ++ ((s, x) ∷ []);
      })

-- `swept.back()`, of a vector with a first element.
unfoldable pub back : ℤ → List ℤ → ℤ
back x [] = x
back x (y ∷ ys) = back y ys

abbrev pub side_of : Bool → Side
side_of heads = if heads then buy else sell

abbrev pub other : Side → Side
other buy = sell
other sell = buy

module _ {R : Type 0} where
  unfoldable pub price_at : SyntheticBookGenerator R → Side → ℤ → ℤ
  price_at g buy level = g.ref -ℤ (g.tick *ℤ (level +ℤ pos 1))
  price_at g sell level = g.ref +ℤ (g.tick *ℤ (level +ℤ pos 1))

  -- The levels of a side from the touch on.
  unfoldable pub from_touch : SyntheticBookGenerator R → Side → List ℤ
  unfolding backwards
  from_touch g buy = backwards g.bids []
  from_touch g sell = g.asks

  -- The level at the index that was drawn, if there is one, deleted.
  unfoldable pub cancel_at :
      SyntheticBookGenerator R → Side → Option ℤ → SyntheticBookGenerator R × Option MarketEvent
  unfolding set_erase
  cancel_at g s none = (g, none)
  cancel_at g s (some px) = (
    with_levels g s (set_erase px (levels g s)),
    some (make_delete g.t g.seq g.symbol s (from_ticks px)),
  )
