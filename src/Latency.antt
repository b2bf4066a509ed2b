-- ===== src/Latency.antt =====
-- src/metrics/latency_stats.hpp: the histogram of latencies.
pub mod Buckets
use Prim.Native.Nat.{min}
use lob_market_maker.Prelude.{
  ℕ, zero, suc, ◌+◌, ◌-◌, ◌*◌, ◌/◌, ◌%◌, ◌^◌, Bool, List, [], ◌∷◌, ℤ, pos, pos_part, ltb_ℤ, ltb,
  leb, inc, ◌==◌, if◌then◌else◌, get_elem?, set, Option, none, some,
}
use lob_market_maker.Double.{Double}

abbrev pub bucket_count : ℕ
bucket_count = 976

-- `63 - std::countl_zero(v)`: the place of the highest bit of a positive number, by halving. The
-- first argument is fuel; 64 is enough for a `uint64_t`.
unfoldable pub highest_bit : ℕ → ℕ → ℕ
highest_bit zero v = 0
highest_bit (suc f) v = let rest = highest_bit f (v / 2) in if ltb v 2 then 0 else suc rest

-- `(v >> (m - 4)) & 15` is division and remainder.
unfoldable pub bucket_of : ℕ → ℕ
unfolding highest_bit
bucket_of v =
    if ltb v 32
    then v
    else (let m = highest_bit 64 v in let sub = v / 2 ^ (m - 4) % 16 in 32 + (m - 5) * 16 + sub)

unfoldable pub lower_bound_of : ℕ → ℕ
lower_bound_of idx =
    if ltb idx 32
    then idx
    else (let k = idx - 32 in
        let m = 5 + k / 16 in let sub = k % 16 in (16 + sub) * 2 ^ (m - 4) % 2 ^ 64)

abbrev pub zero_counts : ℕ → List ℕ
zero_counts zero = []
zero_counts (suc n) = 0 ∷ zero_counts n

pub record LatencyStats (F : Type 0) : Type 0 where
  pub buckets : List ℕ
  pub count : ℕ
  pub sum : F
  pub max : ℕ

-- `++buckets_[i]`
unfoldable pub bump : List ℕ → ℕ → List ℕ
bump bs i = elim (get_elem? bs i) [ none ↦ bs | some n ↦ set bs i (inc n) ]

-- `ns < 0 ? 0 : static_cast<uint64_t>(ns)`
abbrev pub clip : ℤ → ℕ
clip ns = if ltb_ℤ ns (pos 0) then 0 else pos_part ns

-- The first bucket at which the running total reaches the target, if there is one.
unfoldable pub find_bucket : List ℕ → ℕ → ℕ → ℕ → Option ℕ
find_bucket [] i cumulative target = none
find_bucket (b ∷ bs) i cumulative target =
    let total = (cumulative + b) % 2 ^ 64 in
    let rest = find_bucket bs (i + 1) total target in if leb target total then some i else rest

module _ {F : Type 0} ⦃d : Double F⦄ where
  open d use {of_int, to_int, decimal, add, mul, div}

  -- `LatencyStats{}` and `clear`.
  unfoldable pub no_latency : LatencyStats F
  no_latency = record {
    buckets = zero_counts bucket_count;
    count = 0;
    sum = of_int (pos 0);
    max = 0;
  }

  unfoldable pub add_ns : LatencyStats F → ℤ → LatencyStats F
  unfolding bump bucket_of
  add_ns s ns =
      let v = clip ns in
      record {
        buckets = bump s.buckets (bucket_of v);
        count = inc s.count;
        sum = add s.sum (of_int (pos v));
        max = if ltb s.max v then v else s.max;
      }

  -- The rank `target`, between 1 and the count.
  unfoldable pub target_rank : F → ℕ → ℕ
  target_rank p n =
      let raw = pos_part (
        to_int (add (mul (div p (of_int (pos 100))) (of_int (pos n))) (decimal (pos 999_999) 6))) in
      let low = if ltb raw 1 then 1 else raw in if ltb n low then n else low

  unfoldable pub percentile : LatencyStats F → F → F
  unfolding target_rank find_bucket lower_bound_of
  percentile s p =
      if s.count == 0
      then of_int (pos 0)
      else elim (find_bucket s.buckets 0 0 (target_rank p s.count)) [
        | none ↦ of_int (pos s.max)
        | some i ↦ of_int (pos (lower_bound_of i))
      ]

  unfoldable pub mean_ns : LatencyStats F → F
  mean_ns s = if s.count == 0 then of_int (pos 0) else div s.sum (of_int (pos s.count))
