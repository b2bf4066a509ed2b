-- ===== src/Synthetic/Book.antt =====
-- The operations without random draws keep the sets of the generator in step with the book.
use lob_market_maker.Prelude.{
  ℕ, ◌*◌, ◌≤◌, ◌≡◌, refl, subst, Bool, Option, none, some, List, [], ◌∷◌, ℤ, pos, ◌+ℤ◌, ◌*ℤ◌, ◌≤ℤ◌,
  ◌<ℤ◌, arith, int_laws,
}
use lob_market_maker.Types.{Side, buy, sell}
use lob_market_maker.Events.{MarketEvent}
use lob_market_maker.OrderBook.View.{Depth, meaning}
use lob_market_maker.Synthetic.{
  SyntheticBookGenerator, levels_per_side, queued, queue_invalid_levels, invalid_bid, invalid_ask,
  consume, price_at, cancel_at,
}
use lob_market_maker.Synthetic.Sets.{pends-append, has-still_valid, has_or-queued}
use lob_market_maker.Synthetic.Described.{
  Described, InWindow, Described-bid_out, Described-ask_out, Described-bid_cancel,
  Described-ask_cancel,
}

times-le : (a c : ℕ) → 1 ≤ c → c ≤ 10 → (a ≤ a * c) × (a * c ≤ 10 * a)
times-le a c least most = grind arith

-- One to ten steps of a positive size are at least one step and at most ten.
times_range :
    (t k : ℤ)
    → pos 0 <ℤ t
    → pos 1 ≤ℤ k
    → k ≤ℤ pos 10
    → (pos 0 <ℤ t *ℤ k) × (t *ℤ k ≤ℤ levels_per_side *ℤ t)
unfolding ◌*ℤ◌
times_range (ℤ.pos a) (ℤ.pos c) positive least most = ground (arith, times-le a c)
times_range (ℤ.pos a) (ℤ.negsuc c) positive least most = absurd (omega arith)
times_range (ℤ.negsuc a) k positive least most = absurd (omega arith)

module _ {R : Type 0} where
  abbrev pub Describes : SyntheticBookGenerator R → Depth → Type 0
  Describes g d = Described g.ref g.tick g.bids g.asks g.pending d

  -- What holds after an operation that may have made an event: the generator describes the book that
  -- has taken it, and the tick is the same.
  abbrev pub Tells : SyntheticBookGenerator R × MarketEvent → ℤ → Depth → Type 0
  Tells (g, ev) tick d = Describes g (meaning d ev ev.type) × (g.tick ≡ tick)

  abbrev pub After : SyntheticBookGenerator R × Option MarketEvent → ℤ → Depth → Type 0
  After (g, none) tick d = Describes g d × (g.tick ≡ tick) × (g.pending ≡ [])
  After (g, some ev) tick d = Tells (g, ev) tick d

  pub calmed :
      (g : SyntheticBookGenerator R) (d : Depth)
      → g.pending ≡ []
      → Describes g d
      → Described g.ref g.tick g.bids g.asks [] d
  calmed g d calm h = subst (λ ps. Described g.ref g.tick g.bids g.asks ps d) calm h

  pub price_at-InWindow :
      (g : SyntheticBookGenerator R) (s : Side) (level : ℤ)
      → pos 0 <ℤ g.tick
      → pos 0 ≤ℤ level
      → level ≤ℤ pos 9
      → InWindow g.ref g.tick s (price_at g s level)
  unfolding price_at
  price_at-InWindow g buy level positive least most =
      omega
        (int_laws, times_range g.tick (level +ℤ pos 1) positive (omega int_laws) (omega int_laws))
  price_at-InWindow g sell level positive least most =
      omega
        (int_laws, times_range g.tick (level +ℤ pos 1) positive (omega int_laws) (omega int_laws))

  -- A move of the reference price queues the levels that are no longer in the window.
  pub Describes-queue_invalid :
      (g : SyntheticBookGenerator R) (ref : ℤ) (d : Depth)
      → g.pending ≡ []
      → Describes g d
      → Describes (queue_invalid_levels (record g { ref = ref })) d
  unfolding queue_invalid_levels invalid_bid invalid_ask
  Describes-queue_invalid g ref d none_queued h = record {
    known = λ t x e. ground (
      arith,
      h.known t x e,
      none_queued,
      has_or-queued buy bid x g.bids,
      has_or-queued sell ask x g.asks,
      pends-append t x (queued buy bid g.bids) (queued sell ask g.asks),
    );
    window = λ t x e.
        ground (arith, has-still_valid buy bid x g.bids, has-still_valid sell ask x g.asks);
    middle = h.middle;
    below = h.below;
    above = h.above;
  }
    where
      bid : ℤ → Bool
      bid = invalid_bid (record g { ref = ref })

      ask : ℤ → Bool
      ask = invalid_ask (record g { ref = ref })

  -- The levels that a trade has swept go to the queue; the book keeps them for now.
  pub Describes-consume :
      (s : Side) (xs : List ℤ) (g : SyntheticBookGenerator R) (d : Depth)
      → Describes g d
      → Describes (consume s xs g) d × ((consume s xs g).tick ≡ g.tick)
  unfolding consume
  Describes-consume s [] g d h = (h, refl)
  Describes-consume s (x ∷ []) g d h = (h, refl)
  Describes-consume buy (x ∷ y ∷ ys) g d h =
      Describes-consume buy (y ∷ ys) _ d (Described-bid_out x g.pending h)
  Describes-consume sell (x ∷ y ∷ ys) g d h =
      Describes-consume sell (y ∷ ys) _ d (Described-ask_out x g.pending h)

  pub Describes-cancel_at :
      (g : SyntheticBookGenerator R) (s : Side) (px : Option ℤ) (d : Depth)
      → g.pending ≡ []
      → Describes g d
      → After (cancel_at g s px) g.tick d
  unfolding cancel_at
  Describes-cancel_at g s none d calm h = (h, refl, calm)
  Describes-cancel_at g buy (some px) d calm h =
      (rw calm (Described-bid_cancel (calmed g d calm h) px), refl)
  Describes-cancel_at g sell (some px) d calm h =
      (rw calm (Described-ask_cancel (calmed g d calm h) px), refl)
