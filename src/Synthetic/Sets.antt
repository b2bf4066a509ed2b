-- ===== src/Synthetic/Sets.antt =====
-- Membership in the sets and in the queue of the generator.
use lob_market_maker.Prelude.{
  ◌≡◌, refl, Bool, true, false, ◌&&◌, ◌||◌, List, [], ◌∷◌, ◌++◌, ℤ, eqb_ℤ, eqb_ℤ_iff, arith,
}
use lob_market_maker.Types.{Side}
use lob_market_maker.OrderBook.View.{same_side}
use lob_market_maker.Synthetic.{has, set_insert, set_erase, still_valid, queued}

abbrev pub pends : Side → ℤ → List (Side × ℤ) → Bool
pends s x [] = false
pends s x ((t, y) ∷ ps) = same_side t s && eqb_ℤ y x || pends s x ps

pub has-set_insert : (x y : ℤ) (ys : List ℤ) → has x (set_insert y ys) ≡ (eqb_ℤ y x || has x ys)
unfolding set_insert
has-set_insert x y [] = refl
has-set_insert x y (z ∷ ys) = ground (arith, has-set_insert x y ys)

pub has-set_erase :
    (x y : ℤ) (ys : List ℤ) → has x ys ≡ true → (eqb_ℤ y x || has x (set_erase y ys)) ≡ true
unfolding set_erase
has-set_erase x y [] h = cc
has-set_erase x y (z ∷ ys) h = ground (arith, has-set_erase x y ys)

pub has_before-set_erase : (x y : ℤ) (ys : List ℤ) → has x (set_erase y ys) ≡ true → has x ys ≡ true
unfolding set_erase
has_before-set_erase x y [] h = cc
has_before-set_erase x y (z ∷ ys) h = ground (arith, has_before-set_erase x y ys)

pub pends-append :
    (s : Side) (x : ℤ) (ps qs : List (Side × ℤ))
    → pends s x (ps ++ qs) ≡ (pends s x ps || pends s x qs)
pends-append s x [] qs = refl
pends-append s x ((t, y) ∷ ps) qs = ground (arith, pends-append s x ps qs)

module _ (s : Side) (invalid : ℤ → Bool) where
  -- What stays in the set was there, and is valid.
  pub has-still_valid :
      (x : ℤ) (ys : List ℤ)
      → has x (still_valid invalid ys) ≡ true
      → (has x ys ≡ true) × (invalid x ≡ false)
  unfolding still_valid
  has-still_valid x [] h = cc
  has-still_valid x (y ∷ ys) h = ground (arith, has-still_valid x ys, eqb_ℤ_iff y x)

  same_side_refl : same_side s s ≡ true
  same_side_refl = ground arith

  -- Every element is either still there or queued.
  pub has_or-queued :
      (x : ℤ) (ys : List ℤ)
      → has x ys ≡ true
      → (has x (still_valid invalid ys) || pends s x (queued s invalid ys)) ≡ true
  unfolding still_valid queued
  has_or-queued x [] h = cc
  has_or-queued x (y ∷ ys) h = ground (arith, has_or-queued x ys, same_side_refl)
