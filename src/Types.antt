-- ===== src/Types.antt =====
-- src/common/types.hpp: prices in ticks, sides, symbols and the enumerations.
use lob_market_maker.Prelude.{
  ℕ, zero, suc, ◌-◌, ◌≡◌, refl, arith, Bool, true, false, List, [], ◌∷◌, ◌++◌, ℤ, pos, ◌+ℤ◌, ◌-ℤ◌,
  ltb_ℤ, leb_ℤ, eqb_ℤ, ltb, ◌==◌, ◌&&◌, if◌then◌else◌, length, take,
}
use lob_market_maker.Double.{Double}

-- `class Price`: an integer number of ticks.
pub record Price : Type 0 where
  pub ticks : ℤ

abbrev pub scale : ℕ
scale = 10_000

abbrev pub from_ticks : ℤ → Price
from_ticks t = record { ticks = t }

-- `Price{}`.
abbrev pub no_price : Price
no_price = from_ticks (pos 0)

module _ {F : Type 0} ⦃d : Double F⦄ where
  open d use {add, mul, div, le, of_int, to_int, decimal}

  -- `dollars * kScale + (dollars >= 0 ? 0.5 : -0.5)`, cast to `int64_t`.
  unfoldable pub from_double : F → Price
  from_double dollars = from_ticks (
      to_int (
        add (mul dollars (of_int (pos scale)))
          (if le (of_int (pos 0)) dollars then decimal (pos 5) 1 else decimal (ℤ.negsuc 4) 1)))

  unfoldable pub to_double : Price → F
  to_double p = div (of_int p.ticks) (of_int (pos scale))

-- The comparisons that `operator<=>` gives, and the two sums.
abbrev pub price_lt : Price → Price → Bool
price_lt p q = ltb_ℤ p.ticks q.ticks

abbrev pub price_le : Price → Price → Bool
price_le p q = leb_ℤ p.ticks q.ticks

abbrev pub price_eq : Price → Price → Bool
price_eq p q = eqb_ℤ p.ticks q.ticks

unfoldable pub price_add : Price → Price → Price
price_add p q = from_ticks (p.ticks +ℤ q.ticks)

unfoldable pub price_sub : Price → Price → Price
price_sub p q = from_ticks (p.ticks -ℤ q.ticks)

abbrev pub Quantity : Type 0
Quantity = ℤ

-- A `uint64_t`.
abbrev pub OrderId : Type 0
OrderId = ℕ

-- A `uint64_t`.
abbrev pub SequenceNumber : Type 0
SequenceNumber = ℕ

-- Nanoseconds in an `int64_t`.
abbrev pub Timestamp : Type 0
Timestamp = ℤ

pub data Side : Type 0 where
  buy sell : Side

abbrev pub is_buy : Side → Bool
is_buy buy = true
is_buy sell = false

unfoldable pub opposite : Side → Side
opposite buy = sell
opposite sell = buy

abbrev pub max_len : ℕ
max_len = 15

-- `class Symbol`: fifteen characters, of which the first `len` count.
pub record Symbol : Type 0 where
  pub chars : List ℕ
  pub len : ℕ

abbrev pub zeros : ℕ → List ℕ
zeros zero = []
zeros (suc n) = 0 ∷ zeros n

-- `Symbol(std::string_view)`: what does not fit is cut off, the rest of the array is zero.
unfoldable pub symbol_of : List ℕ → Symbol
symbol_of sv =
    let n = if ltb (length sv) max_len then length sv else max_len in
    record { chars = take n sv ++ zeros (max_len - n); len = n }

abbrev pub view : Symbol → List ℕ
view s = take s.len s.chars

abbrev pub same_text : List ℕ → List ℕ → Bool
same_text [] [] = true
same_text [] (y ∷ ys) = false
same_text (x ∷ xs) [] = false
same_text (x ∷ xs) (y ∷ ys) = (x == y) && same_text xs ys

pub same_text_self : (text : List ℕ) → same_text text text ≡ true
same_text_self [] = refl
same_text_self (c ∷ text) = ground (arith, same_text_self text)

pub eq_of_same_text : (a b : List ℕ) → same_text a b ≡ true → a ≡ b
eq_of_same_text [] [] e = refl
eq_of_same_text [] (y ∷ ys) e = cc
eq_of_same_text (x ∷ xs) [] e = cc
eq_of_same_text (x ∷ xs) (y ∷ ys) e = ground (arith, eq_of_same_text xs ys)

-- `operator==` of two symbols.
abbrev pub same_symbol : Symbol → Symbol → Bool
same_symbol a b = same_text (view a) (view b)

pub data OrderType : Type 0 where
  limit market : OrderType

pub data TimeInForce : Type 0 where
  gtc ioc fok : TimeInForce

pub data OrderStatus : Type 0 where
  new partially_filled filled canceled rejected : OrderStatus
