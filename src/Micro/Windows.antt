-- ===== src/Micro/Windows.antt =====
-- src/metrics/microstructure.hpp: the rolling windows.
use lob_market_maker.Prelude.{
  ℕ, suc, ◌≤◌, List, [], ◌∷◌, ◌++◌, length, length-append, ltb, arith, Bool-cases, Option-cases,
  inl, inr,
}
use lob_market_maker.Types.{Quantity, Timestamp}
use lob_market_maker.OrderBook.{OrderBook, mid_price}
use lob_market_maker.Double.{Double}
use lob_market_maker.Micro.{
  Microstructure, trim, on_trade, on_book_update, push_return, pop_front, reset_price_history,
}

length-trim : {A : Type 0} (w : ℕ) (xs : List A) → length (trim w xs) ≤ w
unfolding trim
length-trim w [] = omega arith
length-trim w (x ∷ xs) = ground (arith, length-trim w xs)

length-pop_front :
    {A : Type 0} (w : ℕ) (xs : List A) → length xs ≤ suc w → length (pop_front xs) ≤ w
length-pop_front w [] h = omega arith
length-pop_front w (x ∷ xs) h = omega (arith, h)

module _ {F : Type 0} where
  -- Neither window holds more than it should.
  pub record IsBounded (m : Microstructure F) : Type 0 where
    pub returns_bound : length m.returns ≤ m.volatility_window
    pub trades_bound : length m.trades ≤ m.trade_window

module _ {F : Type 0} ⦃d : Double F⦄ where
  length-push_return :
      (w : ℕ) (rs : List F) (r : F) → length rs ≤ w → length (push_return w rs r) ≤ w
  length-push_return w rs r h =
      let long = length-append rs (r ∷ []) in
      elim (Bool-cases (ltb w (length (rs ++ (r ∷ []))))) [
        | inl e ↦ rw e (length-pop_front w (rs ++ (r ∷ [])) (omega (arith, long)))
        | inr e ↦ rw e (ground arith)
      ]

  on_trade-IsBounded :
      (m : Microstructure F) (qty : Quantity) (ts : Timestamp)
      → IsBounded m
      → IsBounded (on_trade m qty ts)
  unfolding on_trade
  on_trade-IsBounded m qty ts v = record {
    returns_bound = v.returns_bound;
    trades_bound = length-trim m.trade_window _;
  }

  on_book_update-IsBounded :
      (m : Microstructure F) (b : OrderBook) → IsBounded m → IsBounded (on_book_update m b)
  unfolding on_book_update
  on_book_update-IsBounded m b v = elim (Option-cases (mid_price {F = F} b)) [
    | inl e ↦ rw (e, on_book_update) v
    | inr (mid, e) ↦ elim (Option-cases m.last_mid) [
      | inl l ↦
          rw (e, l, on_book_update)
            (record { returns_bound = v.returns_bound; trades_bound = v.trades_bound })
      | inr (last, l) ↦
          rw (e, l, on_book_update)
            (record {
              returns_bound = length-push_return m.volatility_window m.returns _ v.returns_bound;
              trades_bound = v.trades_bound;
            })
    ]
  ]

  -- If neither window holds more elements than its size, then the same is so after a trade, after an
  -- update of the book, and after the price history is forgotten.
  pub windows-IsBounded :
      (m : Microstructure F) (qty : Quantity) (ts : Timestamp) (b : OrderBook)
      → IsBounded m
      → IsBounded (on_trade m qty ts)
        × IsBounded (on_book_update m b)
        × IsBounded (reset_price_history m)
  unfolding reset_price_history
  windows-IsBounded m qty ts b v = (
    on_trade-IsBounded m qty ts v,
    on_book_update-IsBounded m b v,
    record { returns_bound = omega arith; trades_bound = v.trades_bound },
  )
