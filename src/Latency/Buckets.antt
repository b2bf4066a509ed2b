-- ===== src/Latency/Buckets.antt =====
-- src/metrics/latency_stats.hpp: buckets and their lower bounds.
use lob_market_maker.Prelude.{
  ℕ, zero, suc, ◌+◌, ◌-◌, ◌*◌, ◌/◌, ◌%◌, ◌^◌, ◌≤◌, ◌<◌, ◌≡◌, ap, ◌∙◌, true, false, ltb, arith,
  Bool-cases, inl, inr,
}
use native.Mathlib.Nat.{
  le-div_iff_mul-le, div-lt_iff_lt-mul, div-mul-le_self, lt-div-mul-add, mul-le-mul_right,
  pow-le-pow_right,
}
use lob_market_maker.Latency.{highest_bit, bucket_of, lower_bound_of, bucket_count}

half : (v k : ℕ) → v < 2 * k → v / 2 < k
half v k h = omega arith

-- One step of the halving: the bounds of half a number double.
doubled : (k v : ℕ) → 2 ^ k ≤ v / 2 → v / 2 < 2 * 2 ^ k → (2 ^ suc k ≤ v) × (v < 2 * 2 ^ suc k)
doubled k v a b = (omega arith, omega arith)

highest_bit-one : (f v : ℕ) → ltb v 2 ≡ true → highest_bit (suc f) v ≡ 0
unfolding highest_bit
highest_bit-one f v e = rw e

highest_bit-more : (f v : ℕ) → ltb v 2 ≡ false → highest_bit (suc f) v ≡ suc (highest_bit f (v / 2))
unfolding highest_bit
highest_bit-more f v e = rw e

-- With fuel beyond its size a positive number stands between the power of two at its highest bit and
-- the next.
highest_bit_bounds :
    (f v : ℕ)
    → 0 < v
    → v < 2 ^ f
    → (2 ^ highest_bit f v ≤ v) × (v < 2 * 2 ^ highest_bit f v) × (highest_bit f v < f)
highest_bit_bounds zero v p h = absurd (omega arith)
highest_bit_bounds (suc f) v p h = elim (Bool-cases (ltb v 2)) [
  | inl e ↦ rw (highest_bit-one f v e) (ground arith)
  | inr e ↦
      let small : 2 ≤ v = ground arith in
      let (a, b, c) =
        highest_bit_bounds f (v / 2) (omega arith) (half v (2 ^ f) (omega (arith, h))) in
      let (low, high) = doubled (highest_bit f (v / 2)) v a b in
      rw (highest_bit-more f v e) (low, high, omega arith)
]

small_power : (m : ℕ) → m ≤ 4 → 2 ^ m ≤ 16
small_power m h = pow-le-pow_right (omega arith) h

-- Above 32 the highest bit is the fifth at least.
highest_bit-large : (m v : ℕ) → 32 ≤ v → v < 2 * 2 ^ m → 5 ≤ m
highest_bit-large m v h k = elim (Bool-cases (ltb m 5)) [
  | inl e ↦ absurd (omega (arith, small_power m (ground arith)))
  | inr e ↦ ground arith
]

lower_bound_of-index :
    (m sub : ℕ)
    → 5 ≤ m
    → sub < 16
    → lower_bound_of (32 + (m - 5) * 16 + sub) ≡ (16 + sub) * 2 ^ (m - 4) % 2 ^ 64
unfolding lower_bound_of
lower_bound_of-index m sub h k =
    let above : ltb (32 + (m - 5) * 16 + sub) 32 ≡ false = ground arith in
    let q : 5 + (32 + (m - 5) * 16 + sub - 32) / 16 ≡ m = omega arith in
    let r : (32 + (m - 5) * 16 + sub - 32) % 16 ≡ sub = omega arith in rw (above, q, r)

bucket_of-large :
    (v : ℕ)
    → 32 ≤ v
    → bucket_of v ≡ 32 + (highest_bit 64 v - 5) * 16 + v / 2 ^ (highest_bit 64 v - 4) % 16
unfolding bucket_of
bucket_of-large v h = let above : ltb v 32 ≡ false = ground arith in rw above

-- A number between 16 and 31 times b, cut to a multiple of b.
cut :
    (b v : ℕ)
    → 0 < b
    → 16 * b ≤ v
    → v < 32 * b
    → ((16 + v / b % 16) * b ≤ v) × (16 * v ≤ 17 * ((16 + v / b % 16) * b))
cut b v p h k =
    let q = v / b in
    let low : 16 ≤ q = (le-div_iff_mul-le p).1 h in
    let high : q < 32 = (div-lt_iff_lt-mul p).1 k in
    let same : 16 + q % 16 ≡ q = omega arith in
    let below = div-mul-le_self v b in
    let above : v < q * b + b = lt-div-mul-add p in
    let wide : 16 * b ≤ q * b = mul-le-mul_right b low in rw same (below, omega arith)

sixteenfold : (k : ℕ) → 2 ^ suc (suc (suc (suc k))) ≡ 16 * 2 ^ k
sixteenfold k = omega arith

power_split : (m : ℕ) → 5 ≤ m → 2 ^ m ≡ 16 * 2 ^ (m - 4)
power_split m h =
    let e : m ≡ suc (suc (suc (suc (m - 4)))) = omega arith in
    ap (λ x. 2 ^ x) e ∙ sixteenfold (m - 4)

small_buckets : (v : ℕ) → ltb v 32 ≡ true → (bucket_of v ≡ v) × (lower_bound_of v ≡ v)
unfolding bucket_of lower_bound_of
small_buckets v e = (rw e, rw e)

-- A bucket's lower bound against its value.
abbrev Bounded : ℕ → ℕ → Type 0
Bounded low v = (low ≤ v) × (16 * v ≤ 17 * low)

Bounded-mod : (low v : ℕ) → v < 2 ^ 64 → Bounded low v → Bounded (low % 2 ^ 64) v
Bounded-mod low v h b = let e : low % 2 ^ 64 ≡ low = omega arith in rw e b

large_buckets :
    (m v : ℕ)
    → 32 ≤ v
    → v < 2 ^ 64
    → 2 ^ m ≤ v
    → v < 2 * 2 ^ m
    → m < 64
    → Bounded (lower_bound_of (32 + (m - 5) * 16 + v / 2 ^ (m - 4) % 16)) v
      × (32 + (m - 5) * 16 + v / 2 ^ (m - 4) % 16 < bucket_count)
large_buckets m v h small low high few =
    let five = highest_bit-large m v h high in
    let split = power_split m five in
    let b = 2 ^ (m - 4) in
    let sub : v / b % 16 < 16 = omega arith in
    let bounded = cut b v (omega (arith, split)) (omega (arith, split)) (omega (arith, split)) in
    (rw (lower_bound_of-index m (v / b % 16) five sub) (Bounded-mod _ v small bounded), omega arith)

-- Every value of 64 bits has a bucket, and the bucket's lower bound is at most the value and short of
-- it by at most a sixteenth of the bound.
pub lower_bound_of-bucket_of :
    (v : ℕ)
    → v < 2 ^ 64
    → (lower_bound_of (bucket_of v) ≤ v)
      × (16 * v ≤ 17 * lower_bound_of (bucket_of v))
      × (bucket_of v < bucket_count)
lower_bound_of-bucket_of v h = elim (Bool-cases (ltb v 32)) [
  | inl e ↦
      let small : v < 32 = ground arith in
      let (here, back) = small_buckets v e in
      rw (here, back) (omega arith, omega arith, omega arith)
  | inr e ↦
      let large : 32 ≤ v = ground arith in
      let (low, high, few) = highest_bit_bounds 64 v (omega arith) h in
      let ((a, b), c) = large_buckets (highest_bit 64 v) v large h low high few in
      rw (bucket_of-large v large) (a, b, c)
]
