-- ===== src/Pipeline/Untouched.antt =====
-- src/common/pipeline.hpp: what the operations leave alone: the limits, and outside `arrive` the last
-- sequence number.
use lob_market_maker.Prelude.{
  ◌≡◌, refl, Bool, true, false, Option, none, some, List, [], ◌∷◌, ℤ, arith,
}
use lob_market_maker.Types.{Price, Quantity, SequenceNumber, Timestamp, Side, buy, sell}
use lob_market_maker.Double.{Double, Rng}
use lob_market_maker.Events.{MarketEvent}
use lob_market_maker.Risk.{RiskLimits}
use lob_market_maker.Execution.{ExecutionReport}
use lob_market_maker.Execution.Operations.{on_market_event}
use lob_market_maker.Pipeline.{Pipeline, ClockReads}
use lob_market_maker.Pipeline.Quotes.{
  apply_report, apply_reports, cancel_side, cancel_resting_quotes, resync, submit, withdraw,
  replace, place_quotes, requote, threshold_ticks, decision_of, reference_of,
}
use lob_market_maker.Pipeline.Process.{
  mark_arrival, arrive, update_book, mark_at, execute, profile, count_crossed, quote_stage, accept,
  count_event, process, mark_stale, on_clock,
}

-- The limits and the last sequence number are these.
pub record Marks {F R : Type 0} (l : RiskLimits F) (n : Option SequenceNumber) (p : Pipeline F R)
    : Type 0 where
  pub limits_eq : p.limits ≡ l
  pub sequence_eq : p.last_sequence ≡ n

module _ {F R : Type 0} ⦃d : Double F⦄ ⦃g : Rng F R⦄ {l : RiskLimits F}
    {n : Option SequenceNumber} where
  apply_report-Marks :
      (r : ExecutionReport) (p : Pipeline F R) → Marks l n p → Marks l n (apply_report p r)
  unfolding apply_report
  apply_report-Marks r p m = ground arith

  apply_reports-Marks :
      (rs : List ExecutionReport) (p : Pipeline F R) → Marks l n p → Marks l n (apply_reports p rs)
  unfolding apply_reports
  apply_reports-Marks [] p m = m
  apply_reports-Marks (r ∷ rs) p m =
      apply_reports-Marks rs (apply_report p r) (apply_report-Marks r p m)

  cancel_side-Marks :
      (s : Side) (now : Timestamp) (p : Pipeline F R)
      → Marks l n p
      → Marks l n (cancel_side s now p)
  unfolding cancel_side
  cancel_side-Marks buy now p m = ground arith
  cancel_side-Marks sell now p m = ground arith

  cancel_resting_quotes-Marks :
      (now : Timestamp) (p : Pipeline F R) → Marks l n p → Marks l n (cancel_resting_quotes now p)
  unfolding cancel_resting_quotes
  cancel_resting_quotes-Marks now p m =
      cancel_side-Marks sell now (cancel_side buy now p) (cancel_side-Marks buy now p m)

  resync-Marks : (now : Timestamp) (p : Pipeline F R) → Marks l n p → Marks l n (resync now p)
  unfolding resync
  resync-Marks now p m =
      let w = cancel_resting_quotes-Marks now p m in
      record { limits_eq = w.limits_eq; sequence_eq = w.sequence_eq }

  submit-Marks :
      (s : Side) (price : Price) (size : Quantity) (reference : F) (now : Timestamp)
      (p : Pipeline F R)
      → Marks l n p
      → Marks l n (submit s price size reference now p)
  unfolding submit
  submit-Marks buy price size reference now p m = ground arith
  submit-Marks sell price size reference now p m = ground arith

  withdraw-Marks :
      (s : Side) (quoted : Bool) (now : Timestamp) (p : Pipeline F R)
      → Marks l n p
      → Marks l n (withdraw s quoted now p)
  unfolding withdraw
  withdraw-Marks s true now p m = m
  withdraw-Marks s false now p m = cancel_side-Marks s now p m

  replace-Marks :
      (s : Side) (quoted : Bool) (price : Price) (size : Quantity) (threshold : ℤ) (reference : F)
      (now : Timestamp) (p : Pipeline F R)
      → Marks l n p
      → Marks l n (replace s quoted price size threshold reference now p)
  unfolding replace
  replace-Marks s quoted price size threshold reference now p m = ground (
    arith,
    submit-Marks s price size reference now (cancel_side s now p) (cancel_side-Marks s now p m),
  )

  requote-Marks :
      (start stop now : Timestamp) (p : Pipeline F R)
      → Marks l n p
      → Marks l n (requote start stop now p)
  unfolding requote place_quotes
  requote-Marks start stop now p m =
      let qd = decision_of p now in
      let r = reference_of p in
      let t = threshold_ticks r p.requote_threshold_bps in
      let a = withdraw buy qd.quote_bid now p in
      let b = withdraw sell qd.quote_ask now a in
      let mb = withdraw-Marks sell qd.quote_ask now a (withdraw-Marks buy qd.quote_bid now p m) in
      let c = replace buy qd.quote_bid qd.bid_price qd.bid_size t r now b in
      let mc = replace-Marks buy qd.quote_bid qd.bid_price qd.bid_size t r now b mb in
      let w = replace-Marks sell qd.quote_ask qd.ask_price qd.ask_size t r now c mc in
      record { limits_eq = w.limits_eq; sequence_eq = w.sequence_eq }

  mark_at-Marks : (mid : Option F) (p : Pipeline F R) → Marks l n p → Marks l n (mark_at mid p)
  mark_at-Marks none p m = m
  mark_at-Marks (some x) p m = record { limits_eq = m.limits_eq; sequence_eq = m.sequence_eq }

  pub execute-Marks : (ev : MarketEvent) (p : Pipeline F R) → Marks l n p → Marks l n (execute ev p)
  unfolding execute
  execute-Marks ev p m =
      let (rs, e) = on_market_event p.exec ev in
      let q : Pipeline F R = record p { exec = e } in
      let w =
        apply_reports-Marks rs q
          (record { limits_eq = m.limits_eq; sequence_eq = m.sequence_eq }) in
      mark_at-Marks _ (apply_reports q rs) w

  quote_stage-Marks :
      (c : ClockReads) (ev : MarketEvent) (p : Pipeline F R)
      → Marks l n p
      → Marks l n (quote_stage c ev p)
  unfolding quote_stage
  quote_stage-Marks c ev p m =
      let counted : Marks l n (count_crossed p) = record {
        limits_eq = m.limits_eq;
        sequence_eq = m.sequence_eq;
      } in
      ground (
        arith,
        cancel_resting_quotes-Marks ev.timestamp (count_crossed p) counted,
        requote-Marks c.requote_start c.requote_end ev.timestamp p m,
      )

  profile-Marks : (c : ClockReads) (p : Pipeline F R) → Marks l n p → Marks l n (profile c p)
  unfolding profile
  profile-Marks c p m = ground arith

module _ {F R : Type 0} ⦃d : Double F⦄ ⦃g : Rng F R⦄ where
  arrive-Marks :
      (ev : MarketEvent) (p : Pipeline F R) → Marks p.limits (some ev.sequence) (arrive ev p)
  unfolding arrive
  arrive-Marks ev p =
      let marked : Marks p.limits (some ev.sequence) (mark_arrival ev p) = record {
        limits_eq = refl;
        sequence_eq = refl;
      } in
      ground (arith, marked, resync-Marks ev.timestamp (mark_arrival ev p) marked)

  pub accept-Marks :
      (c : ClockReads) (ev : MarketEvent) (p : Pipeline F R)
      → Marks p.limits (some ev.sequence) (accept c ev p)
  unfolding accept update_book
  accept-Marks c ev p =
      let a = arrive-Marks ev p in
      let q = update_book ev (arrive ev p) in
      let b : Marks p.limits (some ev.sequence) q = record {
        limits_eq = a.limits_eq;
        sequence_eq = a.sequence_eq;
      } in
      quote_stage-Marks c ev (profile c (execute ev q))
        (profile-Marks c (execute ev q) (execute-Marks ev q b))

  pub limits-process :
      (c : ClockReads) (ev : MarketEvent) (p : Pipeline F R) → (process c ev p).limits ≡ p.limits
  unfolding process
  limits-process c ev p = ground (arith, (accept-Marks c ev (count_event p)).limits_eq)

  pub on_clock-Marks :
      (now : Timestamp) (p : Pipeline F R) → Marks p.limits p.last_sequence (on_clock now p)
  unfolding on_clock
  on_clock-Marks now p =
      let here : Marks p.limits p.last_sequence p = record {
        limits_eq = refl;
        sequence_eq = refl;
      } in
      let stale : Marks p.limits p.last_sequence (mark_stale p) = record {
        limits_eq = refl;
        sequence_eq = refl;
      } in
      ground (arith, here, cancel_resting_quotes-Marks now (mark_stale p) stale)
