-- ===== src/Tests/Inputs.antt =====
-- A symbol, events and books to run the model on.
use lob_market_maker.Prelude.{ℕ, ◌*◌, List, [], ◌∷◌, pos}
use lob_market_maker.Types.{Price, Symbol, symbol_of, from_ticks, buy, sell}
use lob_market_maker.Events.{MarketEvent, make_quote, make_trade, make_delete}
use lob_market_maker.OrderBook
use lob_market_maker.OrderBook.{OrderBook, apply}
use lob_market_maker.OrderBook.View.{apply_all, apply_all_refines}
use lob_market_maker.OrderBook.Sorted.{IsValid, create-IsValid}

-- "ABC"
abbrev pub abc : Symbol
abc = symbol_of (65 ∷ 66 ∷ 67 ∷ [])

abbrev pub dollars : ℕ → Price
dollars n = from_ticks (pos (n * 10_000))

abbrev pub empty_book : OrderBook
empty_book = OrderBook.create abc

-- A bid at 99 and asks at 101 and 102.
abbrev pub quotes : List MarketEvent
quotes =
    make_quote (pos 1) 1 abc sell (dollars 102) (pos 7)
    ∷ make_quote (pos 2) 2 abc buy (dollars 99) (pos 5)
    ∷ make_quote (pos 3) 3 abc sell (dollars 101) (pos 4)
    ∷ []

-- The ask at 101 goes.
abbrev pub withdrawal : MarketEvent
withdrawal = make_delete (pos 4) 4 abc sell (dollars 101)

-- A sale of 8 at 95.
abbrev pub print : MarketEvent
print = make_trade (pos 5) 4 abc sell (dollars 95) (pos 8)

abbrev pub two_sided : OrderBook
two_sided = apply_all empty_book quotes

pub two_sided-IsValid : IsValid two_sided
two_sided-IsValid = (apply_all_refines empty_book quotes (create-IsValid abc)).0
