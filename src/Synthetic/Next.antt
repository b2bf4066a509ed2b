-- ===== src/Synthetic/Next.antt =====
-- src/tools/synthetic_book.hpp: the operations that draw random numbers, and `next`.
use lob_market_maker.Prelude.{
  ℕ, zero, suc, ◌+◌, Bool, Option, none, some, List, [], ◌∷◌, ℤ, pos, ◌+ℤ◌, ◌*ℤ◌, neg, min_ℤ,
  pos_part, inc, if◌then◌else◌, length, take, get_elem?,
}
use lob_market_maker.Types.{from_ticks, from_double, Quantity, Side, Symbol}
use lob_market_maker.Events.{MarketEvent, make_quote, make_trade, make_delete, make_heartbeat}
use lob_market_maker.Double.{Double, Draws}
use lob_market_maker.Synthetic.{
  SyntheticBookGenerator, levels_per_side, levels, with_levels, queue_invalid_levels, consume, back,
  side_of, price_at, from_touch, other, cancel_at, set_insert,
}

module _ {F R : Type 0} ⦃d : Double F⦄ (draws : Draws F R) where
  open d use {of_int, to_int, decimal, mul, pow, lt}

  unfoldable pub create : ℕ → F → F → Symbol → SyntheticBookGenerator R
  create seed start_price tick_size symbol = record {
    rng = draws.rng.seed seed;
    ref = (from_double start_price).ticks;
    tick = (from_double tick_size).ticks;
    symbol = symbol;
    seq = 0;
    t = pos 1_700_000_000_000_000_000;
    bids = [];
    asks = [];
    pending = [];
  }

  unfoldable pub unit : SyntheticBookGenerator R → F × SyntheticBookGenerator R
  unit g =
      let (u, rng) = draws.rng.uniform_real (of_int (pos 0)) (of_int (pos 1)) g.rng in
      (u, record g { rng = rng })

  unfoldable pub qty : SyntheticBookGenerator R → Quantity × SyntheticBookGenerator R
  qty g = let (q, rng) = draws.uniform_int (pos 1) (pos 500) g.rng in (q, record g { rng = rng })

  -- `unit() < 0.5`.
  abbrev pub coin : SyntheticBookGenerator R → Bool × SyntheticBookGenerator R
  coin g = let (u, g') = unit g in (lt u (decimal (pos 5) 1), g')

  -- `min(int(pow(unit(), 2.0) * kLevelsPerSide), kLevelsPerSide - 1)` of a number drawn.
  unfoldable pub level_of : F → ℤ
  level_of u = min_ℤ (to_int (mul (pow u (of_int (pos 2))) (of_int levels_per_side))) (pos 9)

  -- The level put into the set of its side, and the event.
  unfoldable pub add_quote :
      SyntheticBookGenerator R → Side → ℤ → SyntheticBookGenerator R × MarketEvent
  unfolding qty set_insert
  add_quote g s px =
      let (q, g') = qty (with_levels g s (set_insert px (levels g s))) in
      (g', make_quote g.t g.seq g.symbol s (from_ticks px) q)

  unfoldable pub quote : SyntheticBookGenerator R → SyntheticBookGenerator R × MarketEvent
  unfolding unit level_of price_at add_quote
  quote g =
      let (heads, g1) = coin g in
      let (u, g2) = unit g1 in
      add_quote g2 (side_of heads) (price_at g2 (side_of heads) (level_of u))

  -- `while (sweep < book_side.size() && unit() < 0.5) ++sweep`, with the levels beyond `sweep`.
  unfoldable pub sweep_more : ℕ → ℕ → SyntheticBookGenerator R → ℕ × SyntheticBookGenerator R
  unfolding unit
  sweep_more zero sweep g = (sweep, g)
  sweep_more (suc beyond) sweep g =
      let (again, g') = coin g in
      let more = sweep_more beyond (sweep + 1) g' in if again then more else (sweep, g')

  -- The trade that sweeps this side of the book, whose touch is `x`.
  unfoldable pub sweep_side :
      SyntheticBookGenerator R → Side → ℤ → List ℤ → SyntheticBookGenerator R × MarketEvent
  unfolding sweep_more consume back qty
  sweep_side g s x xs =
      let (sweep, g1) = sweep_more (length xs) 1 g in
      let swept = take sweep (x ∷ xs) in
      let (q, g2) = qty (consume s swept g1) in
      (g2, make_trade g.t g.seq g.symbol (other s) (from_ticks (back x swept)) q)

  -- The rest of `try_trade`, and of `try_cancel`, for the levels of the side chosen.
  unfoldable pub trade_on :
      SyntheticBookGenerator R → Side → List ℤ → SyntheticBookGenerator R × Option MarketEvent
  unfolding sweep_side
  trade_on g s [] = (g, none)
  trade_on g s (x ∷ xs) = let (g', ev) = sweep_side g s x xs in (g', some ev)

  unfoldable pub try_trade :
      SyntheticBookGenerator R → SyntheticBookGenerator R × Option MarketEvent
  unfolding unit from_touch trade_on
  try_trade g =
      let (buy_aggressor, g1) = coin g in
      let s = other (side_of buy_aggressor) in trade_on g1 s (from_touch g1 s)

  unfoldable pub cancel_on :
      SyntheticBookGenerator R → Side → List ℤ → SyntheticBookGenerator R × Option MarketEvent
  unfolding cancel_at
  cancel_on g s [] = (g, none)
  cancel_on g s (x ∷ xs) =
      let (i, rng) = draws.uniform_int (pos 0) (pos (length xs)) g.rng in
      cancel_at (record g { rng = rng }) s (get_elem? (x ∷ xs) (pos_part i))

  unfoldable pub try_cancel :
      SyntheticBookGenerator R → SyntheticBookGenerator R × Option MarketEvent
  unfolding unit cancel_on
  try_cancel g =
      let (heads, g1) = coin g in cancel_on g1 (side_of heads) (levels g1 (side_of heads))

  -- The reference price moved by one tick, up or down.
  unfoldable pub move_ref : SyntheticBookGenerator R → SyntheticBookGenerator R
  unfolding unit queue_invalid_levels
  move_ref g =
      let (down, g1) = coin g in
      queue_invalid_levels
        (record g1 { ref = g1.ref +ℤ ((if down then neg (pos 1) else pos 1) *ℤ g1.tick) })

  -- The draw for a move, made only while nothing is pending.
  unfoldable pub move_if : List (Side × ℤ) → SyntheticBookGenerator R → SyntheticBookGenerator R
  unfolding unit move_ref
  move_if (p ∷ ps) g = g
  move_if [] g = let (u, g1) = unit g in if lt u (decimal (pos 10) 2) then move_ref g1 else g1

  -- `if (auto x = ...) return *x;`, else a quote.
  abbrev pub or_quote :
      SyntheticBookGenerator R × Option MarketEvent → SyntheticBookGenerator R × MarketEvent
  or_quote (g, none) = quote g
  or_quote (g, some ev) = (g, ev)

  unfoldable pub activity : SyntheticBookGenerator R → SyntheticBookGenerator R × MarketEvent
  unfolding unit quote try_trade try_cancel
  activity g =
      let (roll, g1) = unit g in
      if lt roll (decimal (pos 5) 2)
      then (g1, make_heartbeat g1.t g1.seq g1.symbol)
      else if lt roll (decimal (pos 30) 2)
      then or_quote (try_trade g1)
      else if lt roll (decimal (pos 38) 2)
      then or_quote (try_cancel g1)
      else quote g1

  -- The event, for what is pending.
  unfoldable pub emit :
      List (Side × ℤ) → SyntheticBookGenerator R → SyntheticBookGenerator R × MarketEvent
  unfolding activity
  emit [] g = activity g
  emit ((s, px) ∷ ps) g =
      (record g { pending = ps }, make_delete g.t g.seq g.symbol s (from_ticks px))

  -- The time and the sequence number of the next event.
  unfoldable pub tick_clock : SyntheticBookGenerator R → SyntheticBookGenerator R
  tick_clock g =
      let (us, rng) = draws.uniform_int (pos 50) (pos 2000) g.rng in
      record g { rng = rng; t = g.t +ℤ (us *ℤ pos 1000); seq = inc g.seq }

  unfoldable pub next : SyntheticBookGenerator R → SyntheticBookGenerator R × MarketEvent
  unfolding tick_clock move_if emit
  next g = let g1 = tick_clock g in let g2 = move_if g1.pending g1 in emit g2.pending g2

  -- The calls of `next` one after the other.
  unfoldable pub generate :
      ℕ → SyntheticBookGenerator R → SyntheticBookGenerator R × List MarketEvent
  unfolding next
  generate zero g = (g, [])
  generate (suc n) g = let (g1, ev) = next g in let (g2, evs) = generate n g1 in (g2, ev ∷ evs)
