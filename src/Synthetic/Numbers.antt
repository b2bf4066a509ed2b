-- ===== src/Synthetic/Numbers.antt =====
-- The sequence numbers and the times of the generated events.
use lob_market_maker.Prelude.{
  ℕ, zero, suc, ◌+◌, ◌≡◌, refl, ap, subst, ◌∙◌, Option, none, some, List, [], ◌∷◌, ℤ, pos, pos_part,
  inc, ◌+ℤ◌, ◌*ℤ◌, ◌≤ℤ◌, take, arith, int_laws, length, get_elem?, if_both,
}
use lob_market_maker.Types.{SequenceNumber, Timestamp, Side, buy, sell, Symbol}
use lob_market_maker.Events.{MarketEvent}
use lob_market_maker.Double.{Double, Draws}
use lob_market_maker.Synthetic.{
  SyntheticBookGenerator, with_levels, queue_invalid_levels, consume, cancel_at,
}
use lob_market_maker.Synthetic.Next.{
  create, unit, qty, coin, add_quote, quote, sweep_more, sweep_side, trade_on, cancel_on, try_trade,
  try_cancel, move_ref, move_if, or_quote, activity, emit, tick_clock, next, generate,
}

-- Each event has the next sequence number and the symbol, and comes 50 to 2000 microseconds after the
-- one before it. The first number and time are those before the first event.
abbrev pub IsStamped : Symbol → SequenceNumber → Timestamp → List MarketEvent → Type 0
IsStamped symbol n t [] = Unit
IsStamped symbol n t (ev ∷ evs) =
    (ev.sequence ≡ inc n)
    × (ev.symbol ≡ symbol)
    × (t +ℤ pos 50_000 ≤ℤ ev.timestamp)
    × (ev.timestamp ≤ℤ t +ℤ pos 2_000_000)
    × IsStamped symbol (inc n) ev.timestamp evs

-- Microseconds in nanoseconds.
thousand_range :
    (us : ℤ)
    → pos 50 ≤ℤ us
    → us ≤ℤ pos 2000
    → (pos 50_000 ≤ℤ us *ℤ pos 1000) × (us *ℤ pos 1000 ≤ℤ pos 2_000_000)
unfolding ◌*ℤ◌
thousand_range (ℤ.pos a) least most = ground arith
thousand_range (ℤ.negsuc a) least most = absurd (omega arith)

abbrev Stamp : Type 0
Stamp = SequenceNumber × Timestamp × Symbol

abbrev stamp_on : MarketEvent → Stamp
stamp_on ev = (ev.sequence, ev.timestamp, ev.symbol)

module _ {R : Type 0} where
  abbrev stamp_of : SyntheticBookGenerator R → Stamp
  stamp_of g = (g.seq, g.t, g.symbol)

  -- The generator keeps its stamp, and the event bears it.
  abbrev Bears : SyntheticBookGenerator R × MarketEvent → Stamp → Type 0
  Bears (g, ev) c = (stamp_of g ≡ c) × (stamp_on ev ≡ c)

  abbrev MayBear : SyntheticBookGenerator R × Option MarketEvent → Stamp → Type 0
  MayBear (g, none) c = stamp_of g ≡ c
  MayBear (g, some ev) c = Bears (g, ev) c

  stamp_of-with_levels :
      (g : SyntheticBookGenerator R) (s : Side) (xs : List ℤ)
      → stamp_of (with_levels g s xs) ≡ stamp_of g
  stamp_of-with_levels g buy xs = refl
  stamp_of-with_levels g sell xs = refl

  stamp_of-consume :
      (s : Side) (xs : List ℤ) (g : SyntheticBookGenerator R)
      → stamp_of (consume s xs g) ≡ stamp_of g
  unfolding consume
  stamp_of-consume s [] g = refl
  stamp_of-consume s (x ∷ []) g = refl
  stamp_of-consume buy (x ∷ y ∷ ys) g = stamp_of-consume buy (y ∷ ys) _
  stamp_of-consume sell (x ∷ y ∷ ys) g = stamp_of-consume sell (y ∷ ys) _

  cancel_at-MayBear :
      (g : SyntheticBookGenerator R) (s : Side) (px : Option ℤ)
      → MayBear (cancel_at g s px) (stamp_of g)
  unfolding cancel_at
  cancel_at-MayBear g s none = refl
  cancel_at-MayBear g buy (some px) = (refl, refl)
  cancel_at-MayBear g sell (some px) = (refl, refl)

module _ {F R : Type 0} ⦃d : Double F⦄ (draws : Draws F R) where
  open d use {decimal, lt}

  add_quote-Bears :
      (g : SyntheticBookGenerator R) (s : Side) (px : ℤ)
      → Bears (add_quote draws g s px) (stamp_of g)
  unfolding add_quote qty
  add_quote-Bears g buy px = (refl, refl)
  add_quote-Bears g sell px = (refl, refl)

  quote-Bears : (g : SyntheticBookGenerator R) → Bears (quote draws g) (stamp_of g)
  unfolding quote unit
  quote-Bears g = add_quote-Bears _ _ _

  stamp_of-sweep_more :
      (n k : ℕ) (g : SyntheticBookGenerator R) → stamp_of (sweep_more draws n k g).1 ≡ stamp_of g
  unfolding sweep_more unit
  stamp_of-sweep_more zero k g = refl
  stamp_of-sweep_more (suc n) k g =
      let (again, g1) = coin draws g in
      if_both (λ (r : ℕ × SyntheticBookGenerator R). stamp_of r.1 ≡ stamp_of g) again _ _
        (stamp_of-sweep_more n (k + 1) g1) refl

  sweep_side-Bears :
      (g : SyntheticBookGenerator R) (s : Side) (x : ℤ) (xs : List ℤ)
      → Bears (sweep_side draws g s x xs) (stamp_of g)
  unfolding sweep_side qty
  sweep_side-Bears g s x xs =
      let g1 = (sweep_more draws (length xs) 1 g).1 in
      (
        stamp_of-consume s (take (sweep_more draws (length xs) 1 g).0 (x ∷ xs)) g1
            ∙ stamp_of-sweep_more (length xs) 1 g,
        refl,
      )

  trade_on-MayBear :
      (g : SyntheticBookGenerator R) (s : Side) (xs : List ℤ)
      → MayBear (trade_on draws g s xs) (stamp_of g)
  unfolding trade_on
  trade_on-MayBear g s [] = refl
  trade_on-MayBear g s (x ∷ xs) = sweep_side-Bears g s x xs

  cancel_on-MayBear :
      (g : SyntheticBookGenerator R) (s : Side) (xs : List ℤ)
      → MayBear (cancel_on draws g s xs) (stamp_of g)
  unfolding cancel_on
  cancel_on-MayBear g s [] = refl
  cancel_on-MayBear g s (x ∷ xs) =
      let (i, rng) = draws.uniform_int (pos 0) (pos (length xs)) g.rng in
      cancel_at-MayBear (record g { rng = rng }) s (get_elem? (x ∷ xs) (pos_part i))

  or_quote-Bears :
      (r : SyntheticBookGenerator R × Option MarketEvent) (c : Stamp)
      → MayBear r c
      → Bears (or_quote draws r) c
  or_quote-Bears (g, none) c e = let (a, b) = quote-Bears g in (a ∙ e, b ∙ e)
  or_quote-Bears (g, some ev) c h = h

  activity-Bears : (g : SyntheticBookGenerator R) → Bears (activity draws g) (stamp_of g)
  unfolding activity unit try_trade try_cancel
  activity-Bears g =
      let (roll, g1) = unit draws g in
      let P : SyntheticBookGenerator R × MarketEvent → Type 0 = λ r. Bears r (stamp_of g) in
      if_both P (lt roll (decimal (pos 5) 2)) _ _ (refl, refl)
        (if_both P (lt roll (decimal (pos 30) 2)) _ _
          (or_quote-Bears (try_trade draws g1) (stamp_of g) (trade_on-MayBear _ _ _))
          (if_both P (lt roll (decimal (pos 38) 2)) _ _
            (or_quote-Bears (try_cancel draws g1) (stamp_of g) (cancel_on-MayBear _ _ _))
            (quote-Bears g1)))

  emit-Bears :
      (ps : List (Side × ℤ)) (g : SyntheticBookGenerator R) → Bears (emit draws ps g) (stamp_of g)
  unfolding emit
  emit-Bears [] g = activity-Bears g
  emit-Bears ((s, px) ∷ ps) g = (refl, refl)

  stamp_of-move_if :
      (ps : List (Side × ℤ)) (g : SyntheticBookGenerator R)
      → stamp_of (move_if draws ps g) ≡ stamp_of g
  unfolding move_if move_ref unit queue_invalid_levels
  stamp_of-move_if (p ∷ ps) g = refl
  stamp_of-move_if [] g =
      let (u, g1) = unit draws g in
      if_both (λ (r : SyntheticBookGenerator R). stamp_of r ≡ stamp_of g)
        (lt u (decimal (pos 10) 2)) _ _ refl refl

  next-Bears : (g : SyntheticBookGenerator R) → Bears (next draws g) (stamp_of (tick_clock draws g))
  unfolding next
  next-Bears g =
      let g1 = tick_clock draws g in
      let g2 = move_if draws g1.pending g1 in
      let same = stamp_of-move_if g1.pending g1 in
      let (a, b) = emit-Bears g2.pending g2 in (a ∙ same, b ∙ same)

  module _
      (paced : (r : R)
        → (pos 50 ≤ℤ (draws.uniform_int (pos 50) (pos 2000) r).0)
          × ((draws.uniform_int (pos 50) (pos 2000) r).0 ≤ℤ pos 2000)) where
    tick_clock-paced :
        (g : SyntheticBookGenerator R)
        → (g.t +ℤ pos 50_000 ≤ℤ (tick_clock draws g).t)
          × ((tick_clock draws g).t ≤ℤ g.t +ℤ pos 2_000_000)
    unfolding tick_clock
    tick_clock-paced g =
        let (least, most) = paced g.rng in
        omega (int_laws, thousand_range (draws.uniform_int (pos 50) (pos 2000) g.rng).0 least most)

    generate-IsStamped :
        (n : ℕ) (g : SyntheticBookGenerator R)
        → IsStamped g.symbol g.seq g.t (generate draws n g).1 × (length (generate draws n g).1 ≡ n)
    unfolding generate tick_clock
    generate-IsStamped zero g = (tt, refl)
    generate-IsStamped (suc n) g =
        let (kept, borne) = next-Bears g in
        let (later, count) = generate-IsStamped n (next draws g).0 in
        let evs = (generate draws n (next draws g).0).1 in
        let time = ap (λ (c : Stamp). c.1) borne in
        let (slow, fast) = tick_clock-paced g in
        (
          (
            ap (λ (c : Stamp). c.0) borne,
            ap (λ (c : Stamp). c.2) borne,
            rw time slow,
            rw time fast,
            rw time (subst (λ (c : Stamp). IsStamped c.2 c.0 c.1 evs) kept later),
          ),
          omega (arith, count),
        )

    -- If every draw between 50 and 2000 is in that range, then for any seed, prices and number of calls
    -- of `next` there is one event for each call, the events bear the symbol and are numbered from 1 on
    -- without a gap, the number wrapping in 64 bits, and each comes 50 to 2000 microseconds after the
    -- one before it, the first one after the start of the clock at 1.7 * 10 ^ 9 seconds.
    pub generate-stamps :
        (n seed : ℕ) (start_price tick_size : F) (symbol : Symbol)
        → IsStamped symbol 0
            (pos 1_700_000_000_000_000_000)
            (generate draws n (create draws seed start_price tick_size symbol)).1
          × (length (generate draws n (create draws seed start_price tick_size symbol)).1 ≡ n)
    unfolding create
    generate-stamps n seed start_price tick_size symbol =
        generate-IsStamped n (create draws seed start_price tick_size symbol)
