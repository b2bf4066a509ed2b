-- ===== src/Pipeline/Stages.antt =====
-- The stages of `process` keep the pipeline safe.
use lob_market_maker.Prelude.{
  ℕ, suc, Bool, true, false, ◌&&◌, ◌||◌, ℤ, not, arith, Bool-cases, inl, inr,
}
use lob_market_maker.Types.{Price, Quantity, Timestamp, Side, buy, sell}
use lob_market_maker.Double.{Double, Rng, ExactInts}
use lob_market_maker.Events.{MarketEvent}
use lob_market_maker.OrderBook.{crossed}
use lob_market_maker.Strategy.{QuoteDecision}
use lob_market_maker.Pipeline.{Pipeline, slot, ClockReads}
use lob_market_maker.Pipeline.Quotes.{
  cancel_side, cancel_resting_quotes, resync, withdraw, replace, needs_replace, place_quotes,
  requote, threshold_ticks, decision_of, reference_of,
}
use lob_market_maker.Pipeline.Process.{
  mark_arrival, count_crossed, mark_stale, arrive, update_book, execute, profile, quote_stage,
  accept, process, on_clock, is_gap, is_late, is_old, changes_book, count_event, count_drop,
}
use lob_market_maker.Pipeline.Limits.{SafeParts-weaken}
use lob_market_maker.Pipeline.Executing.{execute-IsSafe}
use lob_market_maker.Pipeline.Safety.{IsSafe, cancel_side-IsSafe, slot-cancel_side, submit-IsSafe}

module _ {F R : Type 0} ⦃d : Double F⦄ ⦃g : Rng F R⦄ where
  withdraw-IsSafe :
      (s : Side) (quoted : Bool) (now : Timestamp) (spare : ℕ) (p : Pipeline F R)
      → IsSafe spare p
      → IsSafe spare (withdraw s quoted now p)
  unfolding withdraw
  withdraw-IsSafe s true now spare p v = v
  withdraw-IsSafe s false now spare p v = cancel_side-IsSafe s now spare p v

  replace-IsSafe :
      (s : Side) (quoted : Bool) (price : Price) (size : Quantity) (threshold : ℤ) (reference : F)
      (now : Timestamp) (spare : ℕ) (p : Pipeline F R)
      → IsSafe (suc spare) p
      → IsSafe spare (replace s quoted price size threshold reference now p)
  unfolding replace
  replace-IsSafe s quoted price size threshold reference now spare p v =
      elim (Bool-cases (quoted && needs_replace (slot s p) price size threshold)) [
        | inl e ↦ rw e (
            submit-IsSafe s price size reference now spare (cancel_side s now p)
              (slot-cancel_side s now p) (cancel_side-IsSafe s now (suc spare) p v))
        | inr e ↦ rw e (SafeParts-weaken spare (omega arith) v)
      ]

  place_quotes-IsSafe :
      (qd : QuoteDecision) (reference : F) (now : Timestamp) (spare : ℕ) (p : Pipeline F R)
      → IsSafe (suc (suc spare)) p
      → IsSafe spare (place_quotes qd reference now p)
  unfolding place_quotes
  place_quotes-IsSafe qd reference now spare p v =
      let t = threshold_ticks reference p.requote_threshold_bps in
      let a = withdraw buy qd.quote_bid now p in
      let b = withdraw sell qd.quote_ask now a in
      let c = replace buy qd.quote_bid qd.bid_price qd.bid_size t reference now b in
      let va = withdraw-IsSafe buy qd.quote_bid now (suc (suc spare)) p v in
      let vb = withdraw-IsSafe sell qd.quote_ask now (suc (suc spare)) a va in
      let vc =
        replace-IsSafe buy qd.quote_bid qd.bid_price qd.bid_size t reference now (suc spare) b vb in
      replace-IsSafe sell qd.quote_ask qd.ask_price qd.ask_size t reference now spare c vc

  requote-IsSafe :
      (start stop now : Timestamp) (spare : ℕ) (p : Pipeline F R)
      → IsSafe (suc (suc spare)) p
      → IsSafe spare (requote start stop now p)
  unfolding requote
  requote-IsSafe start stop now spare p v =
      let w = place_quotes-IsSafe (decision_of p now) (reference_of p) now spare p v in
      record { coherent = w.coherent; within = w.within; numbers = w.numbers }

  pub cancel_resting_quotes-IsSafe :
      (now : Timestamp) (spare : ℕ) (p : Pipeline F R)
      → IsSafe spare p
      → IsSafe spare (cancel_resting_quotes now p)
  unfolding cancel_resting_quotes
  cancel_resting_quotes-IsSafe now spare p v =
      cancel_side-IsSafe sell now spare _ (cancel_side-IsSafe buy now spare p v)

  resync-IsSafe :
      (now : Timestamp) (spare : ℕ) (p : Pipeline F R)
      → IsSafe spare p
      → IsSafe spare (resync now p)
  unfolding resync
  resync-IsSafe now spare p v =
      let w = cancel_resting_quotes-IsSafe now spare p v in
      record { coherent = w.coherent; within = w.within; numbers = w.numbers }

  mark_arrival-IsSafe :
      (ev : MarketEvent) (spare : ℕ) (p : Pipeline F R)
      → IsSafe spare p
      → IsSafe spare (mark_arrival ev p)
  mark_arrival-IsSafe ev spare p v = record {
    coherent = v.coherent;
    within = v.within;
    numbers = v.numbers;
  }

  arrive-IsSafe :
      (ev : MarketEvent) (spare : ℕ) (p : Pipeline F R)
      → IsSafe spare p
      → IsSafe spare (arrive ev p)
  unfolding arrive
  arrive-IsSafe ev spare p v =
      let w = mark_arrival-IsSafe ev spare p v in
      elim (Bool-cases (
        is_gap p.last_sequence ev.sequence
        || is_late p.last_event_ts ev.timestamp p.stale_threshold)) [
          | inl e ↦ rw e (resync-IsSafe ev.timestamp spare (mark_arrival ev p) w)
          | inr e ↦ rw e w
        ]

  update_book-IsSafe :
      (ev : MarketEvent) (spare : ℕ) (p : Pipeline F R)
      → IsSafe spare p
      → IsSafe spare (update_book ev p)
  unfolding update_book
  update_book-IsSafe ev spare p v = record {
    coherent = v.coherent;
    within = v.within;
    numbers = v.numbers;
  }

  profile-IsSafe :
      (c : ClockReads) (spare : ℕ) (p : Pipeline F R) → IsSafe spare p → IsSafe spare (profile c p)
  unfolding profile
  profile-IsSafe c spare p v = elim (Bool-cases p.profile_stages) [
    | inl e ↦ rw e (record { coherent = v.coherent; within = v.within; numbers = v.numbers })
    | inr e ↦ rw e v
  ]

  quote_stage-IsSafe :
      (c : ClockReads) (ev : MarketEvent) (spare : ℕ) (p : Pipeline F R)
      → IsSafe (suc (suc spare)) p
      → IsSafe spare (quote_stage c ev p)
  unfolding quote_stage
  quote_stage-IsSafe c ev spare p v =
      let w = SafeParts-weaken spare (omega arith) v in
      let counted : IsSafe spare (count_crossed p) = record {
        coherent = w.coherent;
        within = w.within;
        numbers = w.numbers;
      } in
      elim (Bool-cases (crossed p.book)) [
        | inl x ↦ rw x (cancel_resting_quotes-IsSafe ev.timestamp spare (count_crossed p) counted)
        | inr x ↦ elim (Bool-cases (changes_book ev.type)) [
          | inl y ↦ rw (x, y) (requote-IsSafe c.requote_start c.requote_end ev.timestamp spare p v)
          | inr y ↦ rw (x, y) w
        ]
      ]

  accept-IsSafe :
      ExactInts F
      → (c : ClockReads) (ev : MarketEvent) (spare : ℕ) (p : Pipeline F R)
      → IsSafe (suc (suc spare)) p
      → IsSafe spare (accept c ev p)
  unfolding accept
  accept-IsSafe exact c ev spare p v =
      let more = suc (suc spare) in
      let p1 = arrive ev p in
      let p2 = update_book ev p1 in
      let p3 = execute ev p2 in
      let v2 = update_book-IsSafe ev more p1 (arrive-IsSafe ev more p v) in
      let v3 = execute-IsSafe exact ev more p2 v2 in
      quote_stage-IsSafe c ev spare (profile c p3) (profile-IsSafe c more p3 v3)

  count_event-IsSafe :
      (spare : ℕ) (p : Pipeline F R) → IsSafe spare p → IsSafe spare (count_event p)
  count_event-IsSafe spare p v = record {
    coherent = v.coherent;
    within = v.within;
    numbers = v.numbers;
  }

  count_drop-IsSafe : (spare : ℕ) (p : Pipeline F R) → IsSafe spare p → IsSafe spare (count_drop p)
  count_drop-IsSafe spare p v = record {
    coherent = v.coherent;
    within = v.within;
    numbers = v.numbers;
  }

  -- One event.
  pub process-IsSafe :
      ExactInts F
      → (c : ClockReads) (ev : MarketEvent) (spare : ℕ) (p : Pipeline F R)
      → IsSafe (suc (suc spare)) p
      → IsSafe spare (process c ev p)
  unfolding process
  process-IsSafe exact c ev spare p v =
      let more = suc (suc spare) in
      let w = count_event-IsSafe more p v in
      elim (Bool-cases (is_old p.last_sequence ev.sequence)) [
        | inl e ↦
            rw e (SafeParts-weaken spare (omega arith) (count_drop-IsSafe more (count_event p) w))
        | inr e ↦ rw e (accept-IsSafe exact c ev spare (count_event p) w)
      ]

  mark_stale-IsSafe : (spare : ℕ) (p : Pipeline F R) → IsSafe spare p → IsSafe spare (mark_stale p)
  mark_stale-IsSafe spare p v = record {
    coherent = v.coherent;
    within = v.within;
    numbers = v.numbers;
  }

  -- One reading of the clock.
  pub on_clock-IsSafe :
      (now : Timestamp) (spare : ℕ) (p : Pipeline F R)
      → IsSafe spare p
      → IsSafe spare (on_clock now p)
  unfolding on_clock
  on_clock-IsSafe now spare p v =
      elim (Bool-cases (not p.market_data_stale && is_late p.last_event_ts now p.stale_threshold)) [
        | inl e ↦
            rw e
              (cancel_resting_quotes-IsSafe now spare (mark_stale p) (mark_stale-IsSafe spare p v))
        | inr e ↦ rw e v
      ]
