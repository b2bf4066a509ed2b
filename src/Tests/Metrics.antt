-- ===== src/Tests/Metrics.antt =====
-- The theorems on the latency histogram and the rolling windows, applied.
use lob_market_maker.Prelude.{some, [], ◌∷◌, ℤ, pos, ◌*◌, ◌≤◌, ◌<◌, arith}
use lob_market_maker.Micro.{Microstructure, on_trade, on_book_update, reset_price_history}
use lob_market_maker.Micro.Windows.{IsBounded, windows-IsBounded}
use lob_market_maker.Tests.Fixed.{fixed_double}
use lob_market_maker.Tests.Inputs.{two_sided}
use lob_market_maker.Latency.{bucket_of, lower_bound_of, bucket_count}
use lob_market_maker.Latency.Buckets.{lower_bound_of-bucket_of}

lower_bound_of-bucket_of_example :
    (lower_bound_of (bucket_of 123_457) ≤ 123_457)
    × (16 * 123_457 ≤ 17 * lower_bound_of (bucket_of 123_457))
    × (bucket_of 123_457 < bucket_count)
lower_bound_of-bucket_of_example = lower_bound_of-bucket_of 123_457 (omega arith)

-- A window of two returns, full, and of one trade, full.
abbrev full : Microstructure ℤ
full = record {
  volatility_window = 2;
  trade_window = 1;
  last_mid = some (pos 100_000_000);
  returns = pos 5 ∷ pos 7 ∷ [];
  trades = record { quantity = pos 3; timestamp = pos 1 } ∷ [];
}

windows-IsBounded_example :
    IsBounded (on_trade full (pos 4) (pos 2))
    × IsBounded (on_book_update full two_sided)
    × IsBounded (reset_price_history full)
windows-IsBounded_example =
    windows-IsBounded full (pos 4) (pos 2) two_sided
      (record { returns_bound = omega arith; trades_bound = omega arith })
