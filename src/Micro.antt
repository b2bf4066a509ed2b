-- ===== src/Micro.antt =====
-- src/metrics/microstructure.hpp: rolling windows over mid prices and trades, and book metrics.
pub mod Windows
use lob_market_maker.Prelude.{
  ℕ, ◌-◌, Bool, true, false, Option, none, some, List, [], ◌∷◌, ◌++◌, pos, ◌+ℤ◌, ◌-ℤ◌, leb_ℤ, ltb,
  if◌then◌else◌, length, ◌||◌,
}
use lob_market_maker.Types.{Price, Quantity, Timestamp, to_double}
use lob_market_maker.OrderBook.{
  OrderBook, BookLevel, mid_price, spread, best_bid, best_ask, best_bid_quantity, best_ask_quantity,
  bid_depth, ask_depth,
}
use lob_market_maker.Double.{Double}

pub record TradeSample : Type 0 where
  pub quantity : Quantity
  pub timestamp : Timestamp

-- The front of a deque is the head of its list.
pub record Microstructure (F : Type 0) : Type 0 where
  pub volatility_window : ℕ
  pub trade_window : ℕ
  pub last_mid : Option F
  pub returns : List F
  pub trades : List TradeSample

abbrev pub pop_front {ℓ} : {A : Type ℓ} → List A → List A
pop_front [] = []
pop_front (x ∷ xs) = xs

abbrev pub is_nil {ℓ} : {A : Type ℓ} → List A → Bool
is_nil [] = true
is_nil (x ∷ xs) = false

-- `while (xs.size() > window) xs.pop_front();`
unfoldable pub trim {ℓ} : {A : Type ℓ} → ℕ → List A → List A
trim w [] = []
trim w (x ∷ xs) = let rest = trim w xs in if ltb w (length (x ∷ xs)) then rest else x ∷ xs

abbrev pub sum_levels : Quantity → List BookLevel → Quantity
sum_levels acc [] = acc
sum_levels acc (l ∷ ls) = sum_levels (acc +ℤ l.quantity) ls

abbrev pub sum_trades : Quantity → List TradeSample → Quantity
sum_trades acc [] = acc
sum_trades acc (t ∷ ts) = sum_trades (acc +ℤ t.quantity) ts

abbrev pub last_time : TradeSample → List TradeSample → Timestamp
last_time t [] = t.timestamp
last_time t (u ∷ us) = last_time u us

-- `trades_.back()` minus `trades_.front()`, in nanoseconds.
abbrev pub time_span : List TradeSample → Timestamp
time_span [] = pos 0
time_span (t ∷ ts) = last_time t ts -ℤ t.timestamp

module _ {F : Type 0} where
  unfoldable pub fresh : ℕ → ℕ → Microstructure F
  fresh vw tw = record {
    volatility_window = vw;
    trade_window = tw;
    last_mid = none;
    returns = [];
    trades = [];
  }

  unfoldable pub reset_price_history : Microstructure F → Microstructure F
  reset_price_history m = record m { last_mid = none; returns = [] }

  unfoldable pub on_trade : Microstructure F → Quantity → Timestamp → Microstructure F
  unfolding trim
  on_trade m qty ts =
      let pushed = m.trades ++ (record { quantity = qty; timestamp = ts } ∷ []) in
      record m { trades = trim m.trade_window pushed }

  unfoldable pub rolling_trade_volume : Microstructure F → Quantity
  rolling_trade_volume m = sum_trades (pos 0) m.trades

module _ {F : Type 0} ⦃d : Double F⦄ where
  open d use {of_int, add, sub, mul, div, log, sqrt, eq}

  -- `returns_.push_back(r)`, then one `pop_front` if the deque is over its window.
  abbrev pub push_return : ℕ → List F → F → List F
  push_return w rs r =
      let pushed = rs ++ (r ∷ []) in if ltb w (length pushed) then pop_front pushed else pushed

  unfoldable pub on_book_update : Microstructure F → OrderBook → Microstructure F
  on_book_update m b = elim (mid_price b) [
    | none ↦ m
    | some mid ↦ elim m.last_mid [
      | none ↦ record m { last_mid = some mid }
      | some last ↦ record m {
        returns = push_return m.volatility_window m.returns (log (div mid last));
        last_mid = some mid;
      }
    ]
  ]

  abbrev pub sum_doubles : F → List F → F
  sum_doubles acc [] = acc
  sum_doubles acc (r ∷ rs) = sum_doubles (add acc r) rs

  abbrev pub sum_squares : F → F → List F → F
  sum_squares mean acc [] = acc
  sum_squares mean acc (r ∷ rs) = sum_squares mean (add acc (mul (sub r mean) (sub r mean))) rs

  unfoldable pub short_term_volatility : Microstructure F → Option F
  short_term_volatility m =
      let n = length m.returns in
      let mean = div (sum_doubles (of_int (pos 0)) m.returns) (of_int (pos n)) in
      let var = div (sum_squares mean (of_int (pos 0)) m.returns) (of_int (pos (n - 1))) in
      if ltb n 2 then none else some (sqrt var)

  unfoldable pub spread_bps : OrderBook → Option F
  spread_bps b = elim (spread b) [
    | none ↦ none
    | some sp ↦ elim (mid_price b) [
      | none ↦ none
      | some mid ↦
          if eq mid (of_int (pos 0)) then none else some (mul (div sp mid) (of_int (pos 10_000)))
    ]
  ]

  unfoldable pub microprice : OrderBook → Option F
  microprice b = elim (best_bid b) [
    | none ↦ none
    | some bb ↦ elim (best_ask b) [
      | none ↦ none
      | some ba ↦ elim (best_bid_quantity b) [
        | none ↦ none
        | some bq ↦ elim (best_ask_quantity b) [ none ↦ none | some aq ↦ weighted bb ba bq aq ]
      ]
    ]
  ]
    where
      weighted : Price → Price → Quantity → Quantity → Option F
      weighted bb ba bq aq =
          let denom = of_int (bq +ℤ aq) in
          if eq denom (of_int (pos 0))
          then none
          else some
              (div (add (mul (to_double bb) (of_int aq)) (mul (to_double ba) (of_int bq))) denom)

  -- `(a - b) / (a + b)` of two volumes, unless the sum is zero.
  unfoldable pub imbalance : Quantity → Quantity → Option F
  imbalance bq aq =
      let denom = of_int (bq +ℤ aq) in
      if eq denom (of_int (pos 0)) then none else some (div (of_int (bq -ℤ aq)) denom)

  unfoldable pub top_of_book_imbalance : OrderBook → Option F
  unfolding imbalance
  top_of_book_imbalance b = elim (best_bid_quantity b) [
    | none ↦ none
    | some bq ↦ elim (best_ask_quantity b) [ none ↦ none | some aq ↦ imbalance bq aq ]
  ]

  unfoldable pub depth_imbalance : OrderBook → ℕ → Option F
  unfolding imbalance
  depth_imbalance b levels =
      let bids = bid_depth b levels in
      let asks = ask_depth b levels in
      if is_nil bids || is_nil asks
      then none
      else imbalance (sum_levels (pos 0) bids) (sum_levels (pos 0) asks)

  unfoldable pub trade_intensity : Microstructure F → Option F
  trade_intensity m =
      let dt = time_span m.trades in
      let rate =
        div (of_int (pos (length m.trades))) (div (of_int dt) (of_int (pos 1_000_000_000))) in
      if ltb (length m.trades) 2 then none else (if leb_ℤ dt (pos 0) then none else some rate)
