-- ===== src/Tests/Synthetic.antt =====
-- A short run of the synthetic generator, with draws that take turns.
use lob_market_maker.Prelude.{
  ℕ, ◌+◌, ◌%◌, ◌*◌, ◌≡◌, refl, true, false, List, [], ◌∷◌, ℤ, pos, ◌<ℤ◌, ◌+ℤ◌, ◌-ℤ◌, ◌*ℤ◌, neg,
  is_some, arith, map, length,
}
use lob_market_maker.Types.{Price, Side, Symbol, symbol_of, from_double}
use lob_market_maker.Events.{MarketEvent, EventType}
use lob_market_maker.Double.{Draws}
use lob_market_maker.OrderBook
use lob_market_maker.OrderBook.{crossed}
use lob_market_maker.OrderBook.Sorted.{IsValid}
use lob_market_maker.OrderBook.View.{depth_of, apply_all}
use lob_market_maker.Synthetic.{SyntheticBookGenerator}
use lob_market_maker.Synthetic.Next.{create, generate}
use lob_market_maker.Synthetic.Described.{InWindow}
use lob_market_maker.Synthetic.Steps.{UnitLaws}
use lob_market_maker.Synthetic.Numbers.{IsStamped, generate-stamps}
use lob_market_maker.Synthetic.Uncrossed.{generate-Uncrossed}
use lob_market_maker.Tests.Fixed.{fixed_double, of_int, to_int}

-- The state counts the draws; real numbers go round 0, 0.1 to 0.9, integers are the least allowed.
abbrev turns : Draws ℤ ℕ
turns = record {
  rng = record { seed = λ n. n; uniform_real = λ low high n. (pos (n % 10 * 100_000), n + 1) };
  uniform_int = λ low high n. (low, n + 1);
}

turns-UnitLaws : UnitLaws turns
unfolding of_int to_int
turns-UnitLaws = record {
  unit_range = λ r. ground arith;
  square_range = λ x e. e;
  ten_times_range = λ x e. ground arith;
  to_int_range = λ x e. ground arith;
}

abbrev sym : Symbol
sym = symbol_of (65 ∷ [])

abbrev start : SyntheticBookGenerator ℕ
start = create turns 3 (pos 100_000_000) (pos 10_000) sym

positive : pos 0 <ℤ (from_double (pos 10_000)).ticks
unfolding from_double of_int to_int ◌+ℤ◌
positive = omega arith

-- A quote, a trade that leaves the level in place, and another quote.
abbrev kinds : List MarketEvent → List (EventType × ℤ)
kinds = map (λ ev. (ev.type, ev.price.ticks))

start_runs :
    kinds (generate turns 3 start).1
    ≡ (EventType.quote, pos 1_000_800)
      ∷ (EventType.trade, pos 1_000_800)
      ∷ (EventType.quote, pos 1_000_900)
      ∷ []
unfolding generate create from_double of_int to_int ◌+ℤ◌ ◌-ℤ◌ ◌*ℤ◌ neg
start_runs = refl

generate-Uncrossed_example :
    let (g, evs) = generate turns 12 start in
    let b = apply_all (OrderBook.create sym) evs in
    IsValid b
    × (crossed b ≡ false)
    × (g.pending ≡ []
        → (s : Side) (p : Price) → is_some (depth_of b s p) ≡ true
        → InWindow g.ref g.tick s p.ticks)
generate-Uncrossed_example =
    generate-Uncrossed turns turns-UnitLaws 3 (pos 100_000_000) (pos 10_000) sym 12 positive

generate-stamps_example :
    IsStamped sym 0 (pos 1_700_000_000_000_000_000) (generate turns 12 start).1
    × (length (generate turns 12 start).1 ≡ 12)
generate-stamps_example =
    generate-stamps turns (λ r. (omega arith, omega arith)) 12 3 (pos 100_000_000) (pos 10_000) sym
