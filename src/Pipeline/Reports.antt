-- ===== src/Pipeline/Reports.antt =====
-- What the loop over the reports does to the pipeline.
use lob_market_maker.Prelude.{
  ◌≡◌, refl, ap, ◌∙◌, List, [], ◌∷◌, pos, neg, ◌+ℤ◌, ◌<ℤ◌, ◌≤ℤ◌, arith, int_laws, add_zero,
  Bool-cases, inl, inr, parts_disjoint,
}
use lob_market_maker.Types.{Quantity, Side, buy, sell}
use lob_market_maker.Double.{Double, Rng, ExactInts, Fits}
use lob_market_maker.Risk.{signed_delta}
use lob_market_maker.Portfolio.{on_fill}
use lob_market_maker.Portfolio.Position.{position-on_fill}
use lob_market_maker.Execution.{ExecutionReport}
use lob_market_maker.Execution.Exposure.{on_side, filled_on, AllFilled, filled_on-nonneg}
use lob_market_maker.Pipeline.{Pipeline}
use lob_market_maker.Pipeline.Quotes.{apply_report, apply_reports, is_filled}
use lob_market_maker.Pipeline.Slots.{Slots}
use lob_market_maker.Pipeline.Passing.{reset_slots, filled_ids}
use lob_market_maker.Pipeline.Limits.{Within, Within-Fits}

module _ {F R : Type 0} where
  abbrev pub slots_of : Pipeline F R → Slots
  slots_of p = record { bid = p.resting_bid; ask = p.resting_ask }

  abbrev pub position_of : Pipeline F R → Quantity
  position_of p = p.portfolio.state.position

  -- What the loop leaves alone.
  pub record Framed (p p' : Pipeline F R) : Type 0 where
    pub exec_eq : p'.exec ≡ p.exec
    pub limits_eq : p'.limits ≡ p.limits
    pub next_eq : p'.next_order_id ≡ p.next_order_id

reset_slots-cons :
    (r : ExecutionReport) (rs : List ExecutionReport) (c : Slots)
    → reset_slots (filled_ids rs) (reset_slots (filled_ids (r ∷ [])) c)
      ≡ reset_slots (filled_ids (r ∷ rs)) c
reset_slots-cons r rs c = elim (Bool-cases (is_filled r.status)) [ inl e ↦ rw e | inr e ↦ rw e ]

-- One fill of a report, at the position that it finds: the numbers stay exact in doubles, and what was
-- counted as open is now counted in the position.
Within-fill :
    {max : Quantity} (s : Side) (q bought sold fb fs position : Quantity)
    → pos 0 <ℤ q
    → pos 0 ≤ℤ bought
    → pos 0 ≤ℤ sold
    → pos 0 ≤ℤ fb
    → pos 0 ≤ℤ fs
    → Within max (bought +ℤ (on_side buy s q +ℤ fb)) (sold +ℤ (on_side sell s q +ℤ fs)) position
    → Fits q
      × Fits (position +ℤ signed_delta s q)
      × Within max (bought +ℤ fb) (sold +ℤ fs) (position +ℤ signed_delta s q)
unfolding on_side
Within-fill {max} buy q bought sold fb fs position h b s x y w = (
  omega (int_laws, parts_disjoint q),
  omega (int_laws, parts_disjoint (position +ℤ q)),
  omega int_laws,
)
Within-fill {max} sell q bought sold fb fs position h b s x y w = (
  omega (int_laws, parts_disjoint q),
  omega (int_laws, parts_disjoint (position +ℤ neg q)),
  omega int_laws,
)

module _ {F R : Type 0} ⦃d : Double F⦄ ⦃g : Rng F R⦄ where
  apply_report-Framed : (p : Pipeline F R) (r : ExecutionReport) → Framed p (apply_report p r)
  unfolding apply_report
  apply_report-Framed p r = ground arith

  apply_report-slots :
      (p : Pipeline F R) (r : ExecutionReport)
      → slots_of (apply_report p r) ≡ reset_slots (filled_ids (r ∷ [])) (slots_of p)
  unfolding apply_report
  apply_report-slots p r = ground arith

  apply_report-portfolio :
      (p : Pipeline F R) (r : ExecutionReport)
      → pos 0 <ℤ r.fill_quantity
      → (apply_report p r).portfolio ≡ on_fill p.portfolio r.side r.fill_price r.fill_quantity
  unfolding apply_report
  apply_report-portfolio p r h = ground arith

  pub apply_reports-Framed :
      (p : Pipeline F R) (rs : List ExecutionReport) → Framed p (apply_reports p rs)
  unfolding apply_reports
  apply_reports-Framed p [] = record { exec_eq = refl; limits_eq = refl; next_eq = refl }
  apply_reports-Framed p (r ∷ rs) =
      let a = apply_report-Framed p r in
      let b = apply_reports-Framed (apply_report p r) rs in
      record {
        exec_eq = b.exec_eq ∙ a.exec_eq;
        limits_eq = b.limits_eq ∙ a.limits_eq;
        next_eq = b.next_eq ∙ a.next_eq;
      }

  -- The slots lose the quotes whose orders the reports say are filled.
  pub apply_reports-slots :
      (p : Pipeline F R) (rs : List ExecutionReport)
      → slots_of (apply_reports p rs) ≡ reset_slots (filled_ids rs) (slots_of p)
  unfolding apply_reports
  apply_reports-slots p [] = refl
  apply_reports-slots p (r ∷ rs) =
      apply_reports-slots (apply_report p r) rs
      ∙ ap (reset_slots (filled_ids rs)) (apply_report-slots p r)
      ∙ reset_slots-cons r rs (slots_of p)

  module _ (exact : ExactInts F) where
    -- Within the limit before the loop, counting what the reports fill, is within it after.
    pub apply_reports-Within :
        (p : Pipeline F R) (rs : List ExecutionReport) {max : Quantity} (bought sold : Quantity)
        → AllFilled rs
        → pos 0 ≤ℤ bought
        → pos 0 ≤ℤ sold
        → Within max (bought +ℤ filled_on buy rs) (sold +ℤ filled_on sell rs) (position_of p)
        → Within max bought sold (position_of (apply_reports p rs))
    unfolding apply_reports filled_on
    apply_reports-Within p [] bought sold f b s w = rw (add_zero, add_zero) at w
    apply_reports-Within p (r ∷ rs) {max} bought sold f b s w =
        let fb = filled_on-nonneg buy rs f.1 in
        let fs = filled_on-nonneg sell rs f.1 in
        let (fq, fr, w') =
          Within-fill {max = max} r.side r.fill_quantity bought sold (filled_on buy rs)
            (filled_on sell rs) (position_of p) f.0 b s fb fs w in
        let e =
          ap (λ x. x.state.position) (apply_report-portfolio p r f.0)
          ∙ position-on_fill exact p.portfolio r.side r.fill_price r.fill_quantity f.0 fq
              (Within-Fits w) fr in
        apply_reports-Within (apply_report p r) rs bought sold f.1 b s (rw e w')
