-- ===== src/Tests/Book.antt =====
-- The theorems on the order book, applied.
use mathlib.Core.Path.{fun_ext}
use lob_market_maker.Prelude.{◌≡◌, refl, ◌↔◌, List, [], ◌∷◌, arith, true, pos, none, some}
use lob_market_maker.Types.{Price, Side, buy, sell}
use lob_market_maker.Events.{MarketEvent, make_quote}
use lob_market_maker.OrderBook.{best_bid, best_ask, crossed, upsert_levels, erase_levels}
use lob_market_maker.OrderBook.Sorted.{IsValid, create-IsValid}
use lob_market_maker.OrderBook.Lookup.{quantity_at, quantity_at-upsert, quantity_at-erase}
use lob_market_maker.OrderBook.View.{depth_of, meaning_of_all, apply_all, apply_all_refines}
use lob_market_maker.OrderBook.Best.{IsBest, IsBest-prices, Overlap, crossed_iff}
use lob_market_maker.OrderBook.Canonical.{apply_all_ext}
use lob_market_maker.Tests.Inputs.{
  abc, dollars, empty_book, quotes, withdrawal, two_sided, two_sided-IsValid,
}

quantity_at-upsert_example :
    quantity_at (dollars 101) (upsert_levels two_sided.asks sell (dollars 101) (pos 9))
    ≡ some (pos 9)
quantity_at-upsert_example =
    quantity_at-upsert sell (dollars 101) (dollars 101) (pos 9) two_sided.asks
      two_sided-IsValid.asks_sorted

quantity_at-erase_example :
    quantity_at (dollars 101) (erase_levels two_sided.asks sell (dollars 101)) ≡ none
quantity_at-erase_example =
    quantity_at-erase sell (dollars 101) (dollars 101) two_sided.asks two_sided-IsValid.asks_sorted

apply_all_refines_example :
    IsValid (apply_all two_sided (withdrawal ∷ quotes))
    × (depth_of (apply_all two_sided (withdrawal ∷ quotes))
        ≡ meaning_of_all (depth_of two_sided) (withdrawal ∷ quotes))
apply_all_refines_example = apply_all_refines two_sided (withdrawal ∷ quotes) two_sided-IsValid

IsBest-prices_example :
    IsBest buy two_sided.bids (best_bid two_sided) × IsBest sell two_sided.asks (best_ask two_sided)
IsBest-prices_example = IsBest-prices two_sided two_sided-IsValid

crossed_iff_example : (crossed two_sided ≡ true) ↔ Overlap two_sided
crossed_iff_example = crossed_iff two_sided two_sided-IsValid

-- The same levels come about in another order, with a bid that is overwritten.
abbrev other_quotes : List MarketEvent
other_quotes =
    make_quote (pos 1) 1 abc buy (dollars 99) (pos 8)
    ∷ make_quote (pos 2) 2 abc sell (dollars 102) (pos 7)
    ∷ make_quote (pos 3) 3 abc sell (dollars 101) (pos 4)
    ∷ make_quote (pos 4) 4 abc buy (dollars 99) (pos 5)
    ∷ []

same_levels :
    (s : Side) (p : Price)
    → meaning_of_all (depth_of empty_book) quotes s p
      ≡ meaning_of_all (depth_of empty_book) other_quotes s p
same_levels buy p = ground arith
same_levels sell p = refl

apply_all_ext_example :
    ((apply_all empty_book quotes).bids ≡ (apply_all empty_book other_quotes).bids)
    × ((apply_all empty_book quotes).asks ≡ (apply_all empty_book other_quotes).asks)
apply_all_ext_example =
    apply_all_ext empty_book empty_book quotes other_quotes (create-IsValid abc)
      (create-IsValid abc) (fun_ext λ s. fun_ext λ p. same_levels s p)
