-- ===== src/Double.antt =====
-- The `double` of the source: a type with the operations that the code calls. The arithmetic of
-- IEEE 754 is no part of the repository, so it is an interface; what a theorem needs of it stands in
-- the record of laws below, facts about exact results.
use lob_market_maker.Prelude.{
  ℕ, ◌≡◌, ◌≢◌, ◌≤◌, ◌^◌, Bool, ℤ, pos, ◌+ℤ◌, neg, ltb_ℤ, pos_part, neg_part,
}

pub record Double (F : Type 0) : Type 0 where
  pub of_int : ℤ → F
  pub to_int : F → ℤ
  -- The double that the literal m * 10 ^ -k denotes.
  pub decimal : ℤ → ℕ → F
  pub add : F → F → F
  pub sub : F → F → F
  pub mul : F → F → F
  pub div : F → F → F
  pub negate : F → F
  pub abs : F → F
  pub lt : F → F → Bool
  pub le : F → F → Bool
  pub eq : F → F → Bool
  pub log : F → F
  pub sqrt : F → F
  pub pow : F → F → F
  pub llround : F → ℤ

-- Pseudo-random numbers, for `std::mt19937_64` and `std::uniform_real_distribution<double>`: a state
-- for each seed, and a draw between two bounds that gives a number and the next state.
pub record Rng (F R : Type 0) : Type 0 where
  pub seed : ℕ → R
  pub uniform_real : F → F → R → F × R

-- The same with `std::uniform_int_distribution`, which draws an integer between two bounds.
pub record Draws (F R : Type 0) : Type 0 where
  pub rng : Rng F R
  pub uniform_int : ℤ → ℤ → R → ℤ × R

-- The integers up to 2 ^ 53 in absolute value: a double holds each of them exactly.
abbrev pub Fits : ℤ → Type 0
Fits a = (pos_part a ≤ 2 ^ 53) × (neg_part a ≤ 2 ^ 53)

-- Integer arithmetic in doubles is exact within that range.
pub record ExactInts (F : Type 0) ⦃d : Double F⦄ : Type 0 where
  pub to_int-of_int : (a : ℤ) → Fits a → d.to_int (d.of_int a) ≡ a
  pub add-of_int :
      (a b : ℤ)
      → Fits a
      → Fits b
      → Fits (a +ℤ b)
      → d.add (d.of_int a) (d.of_int b) ≡ d.of_int (a +ℤ b)
  -- Not at 0, whose negative is another double.
  pub negate-of_int : (a : ℤ) → Fits a → a ≢ pos 0 → d.negate (d.of_int a) ≡ d.of_int (neg a)
  pub lt-of_int : (a b : ℤ) → Fits a → Fits b → d.lt (d.of_int a) (d.of_int b) ≡ ltb_ℤ a b
