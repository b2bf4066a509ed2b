-- ===== src/Tests/Fixed.antt =====
-- A concrete arithmetic for the tests: a number of millionths stands for a double, rounded toward
-- zero, and the random numbers are the lower bounds of their ranges.
use lob_market_maker.Prelude.{
  ℕ, suc, ◌*◌, ◌/◌, ◌≡◌, ℤ, pos, neg, ◌+ℤ◌, ◌-ℤ◌, ltb_ℤ, leb_ℤ, eqb_ℤ, arith, int_laws,
  if◌then◌else◌, parts_disjoint, pos_part, neg_part, ◌^◌, ◌==◌,
}
use lob_market_maker.Double.{Double, Rng, ExactInts}

abbrev one_unit : ℕ
one_unit = 1_000_000

-- The sign of the first number, or the opposite of it, on a size.
abbrev with_sign : ℤ → ℕ → ℤ
with_sign (ℤ.pos n) m = pos m
with_sign (ℤ.negsuc n) m = neg (pos m)

abbrev size : ℤ → ℕ
size (ℤ.pos n) = n
size (ℤ.negsuc n) = suc n

abbrev times_sign : ℤ → ℤ → ℤ
times_sign (ℤ.pos n) z = z
times_sign (ℤ.negsuc n) z = neg z

abbrev divided : ℕ → ℕ → ℕ
divided a b = if b == 0 then 0 else a / b

unfoldable pub of_int : ℤ → ℤ
of_int a = with_sign a (size a * one_unit)

unfoldable pub to_int : ℤ → ℤ
to_int x = with_sign x (size x / one_unit)

instance abbrev pub fixed_double : Double ℤ
fixed_double = record {
  of_int = of_int;
  to_int = to_int;
  decimal = λ m k. with_sign m (size m * one_unit / 10 ^ k);
  add = λ x y. x +ℤ y;
  sub = λ x y. x -ℤ y;
  mul = λ x y. times_sign x (with_sign y (size x * size y / one_unit));
  div = λ x y. times_sign x (with_sign y (divided (size x * one_unit) (size y)));
  negate = neg;
  abs = λ x. pos (size x);
  lt = ltb_ℤ;
  le = leb_ℤ;
  eq = eqb_ℤ;
  log = λ x. pos 0;
  sqrt = λ x. x;
  pow = λ x y. x;
  llround = to_int;
}

instance abbrev pub fixed_rng : Rng ℤ ℕ
fixed_rng = record { seed = λ n. n; uniform_real = λ low high n. (low, n) }

of_int_parts :
    (a : ℤ)
    → (pos_part (of_int a) ≡ pos_part a * one_unit) × (neg_part (of_int a) ≡ neg_part a * one_unit)
unfolding of_int neg
of_int_parts a = ground arith

add-of_int : (a b : ℤ) → of_int a +ℤ of_int b ≡ of_int (a +ℤ b)
add-of_int a b = omega (
  int_laws,
  of_int_parts a,
  of_int_parts b,
  of_int_parts (a +ℤ b),
  parts_disjoint (a +ℤ b),
  parts_disjoint a,
  parts_disjoint b,
)

pub fixed-ExactInts : ExactInts ℤ
unfolding of_int to_int neg
fixed-ExactInts = record {
  to_int-of_int = λ a f. ground arith;
  add-of_int = λ a b f h k. add-of_int a b;
  negate-of_int = λ a f n. ground arith;
  lt-of_int = λ a b f h. ground arith;
}
