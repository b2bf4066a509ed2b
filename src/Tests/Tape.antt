-- ===== src/Tests/Tape.antt =====
-- The theorems on the trade tape adapter, applied to two trades.
use lob_market_maker.Prelude.{refl, List, [], ◌∷◌, ℤ, pos}
use lob_market_maker.OrderBook
use lob_market_maker.OrderBook.{OrderBook}
use lob_market_maker.OrderBook.View.{apply_all}
use lob_market_maker.TradeTape
use lob_market_maker.TradeTape.{FinnhubTrade, TradeTapeAdapter, on_tape}
use lob_market_maker.TradeTape.Overlay.{Overlaid, on_tape-Overlaid}
use lob_market_maker.TradeTape.Numbers.{Numbered, on_tape-Numbered}
use lob_market_maker.Tests.Fixed.{fixed_double}
use lob_market_maker.Tests.Inputs.{empty_book}

-- 7.5 at 100 dollars, then 2 at 101 dollars.
abbrev trades : List (FinnhubTrade ℤ)
trades =
    record {
      symbol = 65 ∷ [];
      price = pos 100_000_000;
      volume = pos 7_500_000;
      timestamp_ms = pos 5;
    }
    ∷ record {
      symbol = 65 ∷ [];
      price = pos 101_000_000;
      volume = pos 2_000_000;
      timestamp_ms = pos 6;
    }
    ∷ []

-- A synthetic spread of two cents.
abbrev adapter : TradeTapeAdapter ℤ
adapter = TradeTape.create (pos 20_000)

on_tape-Overlaid_example :
    Overlaid (on_tape adapter trades []).0 (apply_all empty_book (on_tape adapter trades []).1)
unfolding TradeTape.create OrderBook.create apply_all
on_tape-Overlaid_example =
    on_tape-Overlaid adapter trades [] empty_book (record { bid_shown = refl; ask_shown = refl })

on_tape-Numbered_example :
    Numbered 1 (on_tape adapter trades []).1 (on_tape adapter trades []).0.seq
unfolding TradeTape.create
on_tape-Numbered_example = on_tape-Numbered 1 adapter trades [] refl
