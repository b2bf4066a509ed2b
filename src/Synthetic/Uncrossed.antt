-- ===== src/Synthetic/Uncrossed.antt =====
-- The order book that takes the events of the generator.
use mathlib.Core.Path.{fun_ext}
use lob_market_maker.Prelude.{
  ℕ, zero, suc, ◌≡◌, refl, sym, subst, Bool, true, false, [], ℤ, pos, ◌<ℤ◌, leb_ℤ_iff, is_some,
  arith, int_laws,
}
use lob_market_maker.Types.{Price, from_double, Side, Symbol}
use lob_market_maker.Double.{Double, Draws}
use lob_market_maker.OrderBook
use lob_market_maker.OrderBook.{OrderBook, apply, crossed}
use lob_market_maker.OrderBook.Sorted.{IsValid, create-IsValid, apply-IsValid}
use lob_market_maker.OrderBook.Lookup.{quantity_at}
use lob_market_maker.OrderBook.View.{Depth, depth_of, apply_all, apply_refines}
use lob_market_maker.OrderBook.Best.{Overlap, crossed_iff}
use lob_market_maker.Synthetic.{SyntheticBookGenerator}
use lob_market_maker.Synthetic.Next.{create, next, generate}
use lob_market_maker.Synthetic.Described.{InWindow, shown}
use lob_market_maker.Synthetic.Book.{Describes}
use lob_market_maker.Synthetic.Steps.{UnitLaws, Describes-next}

not_true : (b : Bool) → (b ≡ true → ⊥) → b ≡ false
not_true true h = absurd (h refl)
not_true false h = refl

-- While nothing is pending, every level of the book is tracked.
Describes-window :
    {R : Type 0} (g : SyntheticBookGenerator R) (m : Depth)
    → g.pending ≡ []
    → Describes g m
    → (s : Side) (x : ℤ) → shown m s x ≡ true
    → InWindow g.ref g.tick s x
Describes-window g m calm h s x e = ground (arith, h.known s x e, h.window s x, calm)

module _ {F R : Type 0} ⦃d : Double F⦄ (draws : Draws F R) (laws : UnitLaws draws) where
  record Follows (g : SyntheticBookGenerator R) (b : OrderBook) : Type 0 where
    valid : IsValid b
    described : Describes g (depth_of b)
    positive : pos 0 <ℤ g.tick

  next-Follows :
      (g : SyntheticBookGenerator R) (b : OrderBook)
      → Follows g b
      → Follows (next draws g).0 (apply b (next draws g).1)
  next-Follows g b h =
      let (told, same) = Describes-next draws laws (depth_of b) g h.positive h.described in
      record {
        valid = apply-IsValid b (next draws g).1 h.valid;
        described =
            subst (Describes (next draws g).0)
              (fun_ext λ s. fun_ext λ p. sym (apply_refines b (next draws g).1 s p h.valid)) told;
        positive = subst (λ t. pos 0 <ℤ t) (sym same) h.positive;
      }

  generate-Follows :
      (n : ℕ) (g : SyntheticBookGenerator R) (b : OrderBook)
      → Follows g b
      → Follows (generate draws n g).0 (apply_all b (generate draws n g).1)
  unfolding generate apply_all
  generate-Follows zero g b h = h
  generate-Follows (suc n) g b h =
      generate-Follows n (next draws g).0 (apply b (next draws g).1) (next-Follows g b h)

  apart : (g : SyntheticBookGenerator R) (b : OrderBook) → Follows g b → Overlap b → ⊥
  unfolding depth_of
  apart g b h (p, r, bid, ask, over) = omega (
    int_laws,
    h.described.below p.ticks bid,
    h.described.above r.ticks ask,
    (leb_ℤ_iff r.ticks p.ticks).0 over,
  )

  Follows-create :
      (seed : ℕ) (start tick_size : F) (symbol : Symbol)
      → pos 0 <ℤ (from_double tick_size).ticks
      → Follows (create draws seed start tick_size symbol) (OrderBook.create symbol)
  unfolding create depth_of OrderBook.create quantity_at
  Follows-create seed start tick_size symbol positive = record {
    valid = create-IsValid symbol;
    described = record {
      known = λ s x e. ground arith;
      window = λ s x e. ground arith;
      middle = pos 0;
      below = λ x e. cc;
      above = λ x e. cc;
    };
    positive = positive;
  }

  -- For any seed, start price and number of calls of `next`, if the tick size is at least one step of
  -- the price grid, draws from 0 to 1 stay in that range, their squares too, ten times such a number
  -- is from 0 to 10, and the integer part of a number from 0 to 10 is too: an empty book that takes
  -- all the events is valid and not crossed, and if no deletion is pending each of its levels stands
  -- on its own side of the reference price, at most ten ticks away.
  pub generate-Uncrossed :
      (seed : ℕ) (start tick_size : F) (symbol : Symbol) (n : ℕ)
      → pos 0 <ℤ (from_double tick_size).ticks
      → let (g, evs) = generate draws n (create draws seed start tick_size symbol) in
        let b = apply_all (OrderBook.create symbol) evs in
        IsValid b
        × (crossed b ≡ false)
        × (g.pending ≡ []
            → (s : Side) (p : Price) → is_some (depth_of b s p) ≡ true
            → InWindow g.ref g.tick s p.ticks)
  generate-Uncrossed seed start tick_size symbol n positive =
      let g0 = create draws seed start tick_size symbol in
      let follows =
        generate-Follows n g0 (OrderBook.create symbol)
          (Follows-create seed start tick_size symbol positive) in
      let g = (generate draws n g0).0 in
      let b = apply_all (OrderBook.create symbol) (generate draws n g0).1 in
      (
        follows.valid,
        not_true (crossed b) (λ over. apart g b follows ((crossed_iff b follows.valid).0 over)),
        λ calm s p shown. Describes-window g (depth_of b) calm follows.described s p.ticks shown,
      )
