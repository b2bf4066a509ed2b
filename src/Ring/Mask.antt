-- ===== src/Ring/Mask.antt =====
-- `& kMask`: the bits of an index below a power of two are its remainder.
use Prim.Native.Nat.{min, bit_and, bit_and-bitwise, digits}
use native.Mathlib.Nat.{
  add-mul-mod_self_left, mod-eq_of_lt, mod-add-div, mod-one, two-pow-succ, mod-lt, zero-mod,
}
use lob_market_maker.Prelude.{
  ℕ, zero, suc, ◌+◌, ◌-◌, ◌*◌, ◌/◌, ◌%◌, ◌^◌, ◌≤◌, ◌<◌, ◌≡◌, refl, sym, ◌∙◌, ap, arith,
}

-- The conjunction of binary digits, on as many of them as the first argument counts.
abbrev conjunction : ℕ → ℕ → ℕ → ℕ
conjunction n a b = digits (λ b. zero) min n a b

conjunction-zero : (n a : ℕ) → conjunction n a 0 ≡ 0
conjunction-zero zero a = refl
conjunction-zero (suc n) zero = refl
conjunction-zero (suc n) (suc a) = omega (arith, conjunction-zero n (suc a / 2))

pub pow-pos : (k : ℕ) → 0 < 2 ^ k
pow-pos zero = omega arith
pow-pos (suc k) = omega (arith, pow-pos k, two-pow-succ k)

-- The remainder by 2 m from that by m.
mod-double : (a m : ℕ) → 0 < m → a % (2 * m) ≡ a / 2 % m * 2 + a % 2
mod-double a m h =
    ap (λ x. x % (2 * m)) split
    ∙ add-mul-mod_self_left (a / 2 % m * 2 + a % 2) (2 * m) (a / 2 / m)
    ∙ mod-eq_of_lt small
  where
    split : a ≡ a / 2 % m * 2 + a % 2 + 2 * m * (a / 2 / m)
    split = sym (omega (arith, mod-add-div (a / 2) m, distribute))
      where
        distribute : 2 * m * (a / 2 / m) ≡ 2 * (m * (a / 2 / m))
        distribute = grind arith

    small : a / 2 % m * 2 + a % 2 < 2 * m
    small = omega (arith, mod-lt (a / 2) h)

double : (m : ℕ) → m + m ≡ 2 * m
double m = omega arith

half : (m : ℕ) → 0 < m → (2 * m - 1) / 2 ≡ m - 1
half m h = omega arith

odd : (m : ℕ) → 0 < m → (2 * m - 1) % 2 ≡ 1
odd m h = omega arith

conjunction-mask : (k n a : ℕ) → a ≤ n → conjunction n a (2 ^ k - 1) ≡ a % 2 ^ k
conjunction-mask zero n a h = conjunction-zero n a ∙ sym (mod-one a)
conjunction-mask (suc k) zero zero h = sym (zero-mod (2 ^ suc k))
conjunction-mask (suc k) zero (suc a) h = absurd (omega arith)
conjunction-mask (suc k) (suc n) zero h = sym (zero-mod (2 ^ suc k))
conjunction-mask (suc k) (suc n) (suc a) h =
    rw
      (
        two-pow-succ k,
        double,
        half (2 ^ k) (pow-pos k),
        odd (2 ^ k) (pow-pos k),
        mod-double (suc a) (2 ^ k) (pow-pos k),
      )
      (omega (arith, conjunction-mask k n (suc a / 2) (omega arith)))

pub bit_and-mask : (k a : ℕ) → bit_and a (2 ^ k - 1) ≡ a % 2 ^ k
bit_and-mask k a = bit_and-bitwise a (2 ^ k - 1) ∙ conjunction-mask k a a (omega arith)
