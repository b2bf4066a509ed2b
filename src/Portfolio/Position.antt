-- ===== src/Portfolio/Position.antt =====
-- The position after a fill.
use lob_market_maker.Prelude.{◌≡◌, refl, pos, neg, ◌+ℤ◌, ◌<ℤ◌, arith, ◌∙◌, ap, parts_of_eq}
use lob_market_maker.Types.{Price, Quantity, Side, buy, sell}
use lob_market_maker.Double.{Double, ExactInts, Fits}
use lob_market_maker.Risk.{signed_delta}
use lob_market_maker.Portfolio.{PositionState, Portfolio, signed_fill_of, fill_state, on_fill}

pub signed_delta-Fits : (sd : Side) (q : Quantity) → Fits q → Fits (signed_delta sd q)
unfolding neg
signed_delta-Fits buy q f = f
signed_delta-Fits sell q f = ground arith

module _ {F : Type 0} ⦃d : Double F⦄ where
  -- Whichever branch is taken, the position is the cast of the sum in doubles.
  position_of_sum :
      (s : PositionState F) (sd : Side) (px : Price) (q : Quantity)
      → (fill_state s sd px q).position
        ≡ d.to_int (d.add (d.of_int s.position) (signed_fill_of sd q))
  unfolding fill_state
  position_of_sum s sd px q = ground arith

  module _ (exact : ExactInts F) where
    signed_fill_exact :
        (sd : Side) (q : Quantity)
        → pos 0 <ℤ q
        → Fits q
        → signed_fill_of sd q ≡ d.of_int (signed_delta sd q)
    signed_fill_exact buy q p f = refl
    signed_fill_exact sell q p f = exact.negate-of_int q f (λ e. omega (arith, parts_of_eq e))

    -- With a positive quantity, and integers that a double holds exactly, a buy raises the position by its quantity and a sale
    -- lowers it by its quantity, whether the position is opened, extended, reduced or flipped.
    pub position-on_fill :
        (p : Portfolio F) (sd : Side) (px : Price) (q : Quantity)
        → pos 0 <ℤ q
        → Fits q
        → Fits p.state.position
        → Fits (p.state.position +ℤ signed_delta sd q)
        → (on_fill p sd px q).state.position ≡ p.state.position +ℤ signed_delta sd q
    unfolding on_fill
    position-on_fill p sd px q h fq fp fr =
        position_of_sum p.state sd px q
        ∙ ap (λ x. d.to_int (d.add (d.of_int p.state.position) x)) (signed_fill_exact sd q h fq)
        ∙ ap d.to_int (exact.add-of_int _ _ fp (signed_delta-Fits sd q fq) fr)
        ∙ exact.to_int-of_int _ fr
