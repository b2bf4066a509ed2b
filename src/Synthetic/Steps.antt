-- ===== src/Synthetic/Steps.antt =====
-- Every call of `next` keeps the sets of the generator in step with the book that takes its event.
use lob_market_maker.Prelude.{
  ℕ, zero, suc, ◌+◌, ◌≡◌, refl, sym, ◌∙◌, subst, true, false, Option, none, some, List, [], ◌∷◌, ℤ,
  pos, pos_part, ◌≤ℤ◌, ◌<ℤ◌, take, arith, if◌then◌else◌, length, get_elem?, if_both,
}
use lob_market_maker.Types.{Side, buy, sell}
use lob_market_maker.Events.{MarketEvent}
use lob_market_maker.Double.{Double, Draws}
use lob_market_maker.OrderBook.View.{Depth}
use lob_market_maker.Synthetic.{SyntheticBookGenerator, side_of, price_at}
use lob_market_maker.Synthetic.Next.{
  unit, qty, coin, level_of, add_quote, quote, sweep_more, sweep_side, trade_on, cancel_on,
  try_trade, try_cancel, move_ref, move_if, or_quote, activity, emit, tick_clock, next,
}
use lob_market_maker.Synthetic.Described.{
  Described, InWindow, Described-pending, Described-bid_quote, Described-ask_quote,
}
use lob_market_maker.Synthetic.Book.{
  Describes, Tells, After, calmed, price_at-InWindow, Describes-queue_invalid, Describes-consume,
  Describes-cancel_at,
}

module _ {F R : Type 0} ⦃d : Double F⦄ (draws : Draws F R) where
  open d use {of_int, to_int, decimal, mul, pow, lt, le}

  -- The number lies between two integers; so it is not NaN.
  abbrev pub Between : ℤ → ℤ → F → Type 0
  Between low high x = (le (of_int low) x ≡ true) × (le x (of_int high) ≡ true)

  -- What the standard says of a draw between 0 and 1, of its square, of ten times that, and of the
  -- integer part of a number that small: each stays within its range.
  pub record UnitLaws : Type 0 where
    pub unit_range :
        (r : R)
        → Between (pos 0) (pos 1) (draws.rng.uniform_real (of_int (pos 0)) (of_int (pos 1)) r).0
    pub square_range :
        (x : F) → Between (pos 0) (pos 1) x → Between (pos 0) (pos 1) (pow x (of_int (pos 2)))
    pub ten_times_range :
        (x : F) → Between (pos 0) (pos 1) x → Between (pos 0) (pos 10) (mul x (of_int (pos 10)))
    pub to_int_range :
        (x : F) → Between (pos 0) (pos 10) x → (pos 0 ≤ℤ to_int x) × (to_int x ≤ℤ pos 10)

  level_of_range :
      (g : SyntheticBookGenerator R)
      → UnitLaws
      → (pos 0 ≤ℤ level_of draws (unit draws g).0) × (level_of draws (unit draws g).0 ≤ℤ pos 9)
  unfolding level_of unit
  level_of_range g laws =
      let u = (draws.rng.uniform_real (of_int (pos 0)) (of_int (pos 1)) g.rng).0 in
      let square = laws.square_range u (laws.unit_range g.rng) in
      let raw = (laws.to_int_range _ (laws.ten_times_range (pow u (of_int (pos 2))) square)).0 in
      ground (arith, raw)

  Describes-add_quote :
      (g : SyntheticBookGenerator R) (s : Side) (px : ℤ) (m : Depth)
      → g.pending ≡ []
      → InWindow g.ref g.tick s px
      → Describes g m
      → Tells (add_quote draws g s px) g.tick m
  unfolding add_quote qty
  Describes-add_quote g buy px m calm in_window h =
      (rw calm (Described-bid_quote (calmed g m calm h) px _ in_window), refl)
  Describes-add_quote g sell px m calm in_window h =
      (rw calm (Described-ask_quote (calmed g m calm h) px _ in_window), refl)

  module _ (laws : UnitLaws) (g : SyntheticBookGenerator R) (m : Depth) (positive : pos 0 <ℤ g.tick)
      (calm : g.pending ≡ []) (h : Describes g m) where
    Describes-quote : Tells (quote draws g) g.tick m
    unfolding quote unit
    Describes-quote =
        let (heads, g1) = coin draws g in
        let (u, g2) = unit draws g1 in
        let (least, most) = level_of_range g1 laws in
        Describes-add_quote g2 (side_of heads) (price_at g2 (side_of heads) (level_of draws u)) m
          calm (price_at-InWindow g2 (side_of heads) (level_of draws u) positive least most) h

    Describes-sweep_more :
        (n k : ℕ) (rng : R)
        → Describes (sweep_more draws n k (record g { rng = rng })).1 m
          × ((sweep_more draws n k (record g { rng = rng })).1.tick ≡ g.tick)
    unfolding sweep_more unit
    Describes-sweep_more zero k rng = (h, refl)
    Describes-sweep_more (suc n) k rng =
        let (again, g1) = coin draws (record g { rng = rng }) in
        elim again
          as (λ b.
            Describes (if b then sweep_more draws n (k + 1) g1 else (k, g1)).1 m
            × ((if b then sweep_more draws n (k + 1) g1 else (k, g1)).1.tick ≡ g.tick)) [
              | true ↦ Describes-sweep_more n (k + 1) g1.rng
              | false ↦ (h, refl)
            ]

    Describes-sweep_side :
        (s : Side) (x : ℤ) (xs : List ℤ) → Tells (sweep_side draws g s x xs) g.tick m
    unfolding sweep_side qty
    Describes-sweep_side s x xs =
        let (told, same) = Describes-sweep_more (length xs) 1 g.rng in
        let (after, tick) =
          Describes-consume s (take (sweep_more draws (length xs) 1 g).0 (x ∷ xs))
            (sweep_more draws (length xs) 1 g).1 m told in
        (after, tick ∙ same)

  module _ (laws : UnitLaws) (g : SyntheticBookGenerator R) (m : Depth) (positive : pos 0 <ℤ g.tick)
      (calm : g.pending ≡ []) (h : Describes g m) where
    Describes-trade_on : (s : Side) (xs : List ℤ) → After (trade_on draws g s xs) g.tick m
    unfolding trade_on
    Describes-trade_on s [] = (h, refl, calm)
    Describes-trade_on s (x ∷ xs) = Describes-sweep_side laws g m positive calm h s x xs

    Describes-cancel_on : (s : Side) (xs : List ℤ) → After (cancel_on draws g s xs) g.tick m
    unfolding cancel_on
    Describes-cancel_on s [] = (h, refl, calm)
    Describes-cancel_on s (x ∷ xs) =
        let (i, rng) = draws.uniform_int (pos 0) (pos (length xs)) g.rng in
        Describes-cancel_at (record g { rng = rng }) s (get_elem? (x ∷ xs) (pos_part i)) m calm h

  module _ (laws : UnitLaws) (m : Depth) where
    Describes-or_quote :
        (r : SyntheticBookGenerator R × Option MarketEvent) (tick : ℤ)
        → pos 0 <ℤ tick
        → After r tick m
        → Tells (or_quote draws r) tick m
    Describes-or_quote (g, none) tick positive (h, same, calm) =
        let (told, same') =
          Describes-quote laws g m (subst (λ t. pos 0 <ℤ t) (sym same) positive) calm h in
        (told, same' ∙ same)
    Describes-or_quote (g, some ev) tick positive told = told

    Describes-activity :
        (g : SyntheticBookGenerator R)
        → pos 0 <ℤ g.tick
        → g.pending ≡ []
        → Describes g m
        → Tells (activity draws g) g.tick m
    unfolding activity unit try_trade try_cancel
    Describes-activity g positive calm h =
        let (roll, g1) = unit draws g in
        let P : SyntheticBookGenerator R × MarketEvent → Type 0 = λ r. Tells r g.tick m in
        if_both P (lt roll (decimal (pos 5) 2)) _ _ (h, refl)
          (if_both P (lt roll (decimal (pos 30) 2)) _ _
            (Describes-or_quote (try_trade draws g1) g.tick positive
              (Describes-trade_on laws _ m positive calm h _ _))
            (if_both P (lt roll (decimal (pos 38) 2)) _ _
              (Describes-or_quote (try_cancel draws g1) g.tick positive
                (Describes-cancel_on laws _ m positive calm h _ _))
              (Describes-quote laws g1 m positive calm h)))

    Describes-emit :
        (ps : List (Side × ℤ)) (g : SyntheticBookGenerator R)
        → pos 0 <ℤ g.tick
        → g.pending ≡ ps
        → Describes g m
        → Tells (emit draws ps g) g.tick m
    unfolding emit
    Describes-emit [] g positive calm h = Describes-activity g positive calm h
    Describes-emit ((s, px) ∷ ps) g positive some_queued h = (
      Described-pending s px ps
          (subst (λ ps. Described g.ref g.tick g.bids g.asks ps m) some_queued h),
      refl,
    )

    Describes-move_if :
        (ps : List (Side × ℤ)) (g : SyntheticBookGenerator R)
        → g.pending ≡ ps
        → Describes g m
        → Describes (move_if draws ps g) m × ((move_if draws ps g).tick ≡ g.tick)
    unfolding move_if move_ref unit
    Describes-move_if (p ∷ ps) g some_queued h = (h, refl)
    Describes-move_if [] g calm h =
        let (u, g1) = unit draws g in
        if_both (λ (r : SyntheticBookGenerator R). Describes r m × (r.tick ≡ g.tick))
          (lt u (decimal (pos 10) 2)) _ _
          (Describes-queue_invalid (coin draws g1).1 _ m calm h, refl) (h, refl)

    pub Describes-next :
        (g : SyntheticBookGenerator R)
        → pos 0 <ℤ g.tick
        → Describes g m
        → Tells (next draws g) g.tick m
    unfolding next tick_clock
    Describes-next g positive h =
        let g1 = tick_clock draws g in
        let (moved, same) = Describes-move_if g1.pending g1 refl h in
        let g2 = move_if draws g1.pending g1 in
        let (told, same') =
          Describes-emit g2.pending g2 (subst (λ t. pos 0 <ℤ t) (sym same) positive) refl moved in
        (told, same' ∙ same)
