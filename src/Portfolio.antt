-- ===== src/Portfolio.antt =====
-- src/portfolio/portfolio.hpp: position and profit from fills and marks.
pub mod Position
use lob_market_maker.Prelude.{
  Bool, true, false, not, ◌&&◌, ◌||◌, List, [], ◌∷◌, ◌++◌, ℤ, pos, negsuc, ◌+ℤ◌, ltb_ℤ, eqb_ℤ, beq,
  if◌then◌else◌,
}
use lob_market_maker.Types.{Price, Quantity, Side, is_buy, to_double}
use lob_market_maker.Double.{Double}

pub record PositionState (F : Type 0) : Type 0 where
  pub position : Quantity
  pub avg_entry_price : F
  pub realized_pnl : F
  pub unrealized_pnl : F
  pub total_pnl : F
  pub total_volume_traded : Quantity
  pub turnover : F

pub record Portfolio (F : Type 0) : Type 0 where
  pub state : PositionState F
  pub history : List (PositionState F)

-- `(position > 0) == (signed_fill > 0)` and the like compare two tests.
abbrev pub is_long : Quantity → Bool
is_long p = ltb_ℤ (pos 0) p

module _ {F : Type 0} ⦃d : Double F⦄ where
  open d use {of_int, to_int, add, sub, mul, div, negate, abs, lt, eq}

  unfoldable pub flat : Portfolio F
  flat = record {
    state = record {
      position = pos 0;
      avg_entry_price = of_int (pos 0);
      realized_pnl = of_int (pos 0);
      unrealized_pnl = of_int (pos 0);
      total_pnl = of_int (pos 0);
      total_volume_traded = pos 0;
      turnover = of_int (pos 0);
    };
    history = [];
  }

  -- Extending or opening a position.
  unfoldable pub extend : PositionState F → F → F → PositionState F
  extend s price signed_fill =
      let old_notional = mul (of_int s.position) s.avg_entry_price in
      let new_position = add (of_int s.position) signed_fill in
      let new_notional = add old_notional (mul signed_fill price) in
      record s {
        avg_entry_price =
            if not (eq new_position (of_int (pos 0)))
            then div new_notional new_position
            else of_int (pos 0);
        position = to_int new_position;
      }

  -- Reducing or flipping it.
  unfoldable pub reduce : PositionState F → F → F → PositionState F
  reduce s price signed_fill =
      let held = abs (of_int s.position) in
      let filled = abs signed_fill in
      let closing = if lt held filled then held else filled in
      let sign = if is_long s.position then pos 1 else negsuc 0 in
      let position = to_int (add (of_int s.position) signed_fill) in
      record s {
        realized_pnl =
            add s.realized_pnl (mul (mul closing (sub price s.avg_entry_price)) (of_int sign));
        position = position;
        avg_entry_price =
            if not (beq (is_long position) (is_long sign)) && not (eqb_ℤ position (pos 0))
            then price
            else (if eqb_ℤ position (pos 0) then of_int (pos 0) else s.avg_entry_price);
      }

  -- Volume and turnover, counted before the two cases.
  unfoldable pub count_volume : PositionState F → F → Quantity → PositionState F
  count_volume s price qty = record s {
    total_volume_traded = s.total_volume_traded +ℤ qty;
    turnover = add s.turnover (mul (of_int qty) price);
  }

  -- `(side == Side::Buy) ? qty : -qty`
  abbrev pub signed_fill_of : Side → Quantity → F
  signed_fill_of s q = if is_buy s then of_int q else negate (of_int q)

  unfoldable pub fill_state : PositionState F → Side → Price → Quantity → PositionState F
  unfolding extend reduce count_volume
  fill_state s sd fill_price fill_qty =
      let price = to_double fill_price in
      let signed_fill = signed_fill_of sd fill_qty in
      let counted = count_volume s price fill_qty in
      if eqb_ℤ s.position (pos 0) || beq (is_long s.position) (lt (of_int (pos 0)) signed_fill)
      then extend counted price signed_fill
      else reduce counted price signed_fill

  unfoldable pub on_fill : Portfolio F → Side → Price → Quantity → Portfolio F
  unfolding fill_state
  on_fill p sd fill_price fill_qty =
      let s = fill_state p.state sd fill_price fill_qty in
      record { state = s; history = p.history ++ (s ∷ []) }

  unfoldable pub mark_to_market : Portfolio F → F → Portfolio F
  mark_to_market p mark =
      let unrealized = mul (of_int p.state.position) (sub mark p.state.avg_entry_price) in
      record p {
        state = record p.state {
          unrealized_pnl = unrealized;
          total_pnl = add p.state.realized_pnl unrealized;
        };
      }
