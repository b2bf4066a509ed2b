-- ===== src/Pipeline/Process.antt =====
-- src/common/pipeline.hpp: `process` and `on_clock`.
use lob_market_maker.Prelude.{
  Bool, true, false, not, ◌&&◌, ◌||◌, Option, none, some, ◌-ℤ◌, ltb_ℤ, leb, ◌==◌, inc,
  if◌then◌else◌,
}
use lob_market_maker.Types.{SequenceNumber, Timestamp}
use lob_market_maker.Events.{MarketEvent, EventType}
use lob_market_maker.OrderBook.{apply, crossed, mid_price}
use lob_market_maker.Micro.{on_book_update, on_trade}
use lob_market_maker.Execution.{is_trade}
use lob_market_maker.Execution.Operations.{on_market_event}
use lob_market_maker.Portfolio.{mark_to_market}
use lob_market_maker.Latency.{add_ns}
use lob_market_maker.Double.{Double, Rng}
use lob_market_maker.Pipeline.{Pipeline, ClockReads}
use lob_market_maker.Pipeline.Quotes.{apply_reports, cancel_resting_quotes, resync, requote}

-- `last_sequence_ && ev.sequence <= *last_sequence_`
abbrev pub is_old : Option SequenceNumber → SequenceNumber → Bool
is_old none sequence = false
is_old (some last) sequence = leb sequence last

-- `last_sequence_ && ev.sequence != *last_sequence_ + 1`
abbrev pub is_gap : Option SequenceNumber → SequenceNumber → Bool
is_gap none sequence = false
is_gap (some last) sequence = not (sequence == inc last)

-- `last && (now - *last) > threshold`
abbrev pub is_late : Option Timestamp → Timestamp → Timestamp → Bool
is_late none now threshold = false
is_late (some last) now threshold = ltb_ℤ threshold (now -ℤ last)

-- `book_changed`
abbrev pub changes_book : EventType → Bool
changes_book EventType.quote = true
changes_book EventType.book_delete = true
changes_book EventType.snapshot = true
changes_book _ = false

module _ {F R : Type 0} ⦃d : Double F⦄ ⦃g : Rng F R⦄ where
  -- The counters and marks up to the resync.
  abbrev pub mark_arrival : MarketEvent → Pipeline F R → Pipeline F R
  mark_arrival ev p =
      let gap = is_gap p.last_sequence ev.sequence in
      let stale = is_late p.last_event_ts ev.timestamp p.stale_threshold in
      record p {
        last_sequence = some ev.sequence;
        last_event_ts = some ev.timestamp;
        market_data_stale = false;
        stats = record p.stats {
          sequence_gaps = if gap then inc p.stats.sequence_gaps else p.stats.sequence_gaps;
          stale_resets = if stale then inc p.stats.stale_resets else p.stats.stale_resets;
        };
      }

  unfoldable pub arrive : MarketEvent → Pipeline F R → Pipeline F R
  unfolding resync
  arrive ev p =
      if is_gap p.last_sequence ev.sequence
        || is_late p.last_event_ts ev.timestamp p.stale_threshold
      then resync ev.timestamp (mark_arrival ev p)
      else mark_arrival ev p

  -- Book and microstructure.
  unfoldable pub update_book : MarketEvent → Pipeline F R → Pipeline F R
  update_book ev p =
      let b = apply p.book ev in
      let m = on_book_update p.micro b in
      record p {
        book = b;
        micro = if is_trade ev.type then on_trade m ev.quantity ev.timestamp else m;
      }

  -- `if (auto mid = book_.mid_price()) portfolio_.mark_to_market(*mid);`
  abbrev pub mark_at : Option F → Pipeline F R → Pipeline F R
  mark_at none p = p
  mark_at (some mid) p = record p { portfolio = mark_to_market p.portfolio mid }

  -- Fills of resting orders, and the mark to the mid price.
  unfoldable pub execute : MarketEvent → Pipeline F R → Pipeline F R
  unfolding apply_reports
  execute ev p =
      let (reports, e) = on_market_event p.exec ev in
      let p' = apply_reports (record p { exec = e }) reports in mark_at (mid_price p'.book) p'

  unfoldable pub profile : ClockReads → Pipeline F R → Pipeline F R
  profile c p =
      if p.profile_stages
      then record p {
        stats = record p.stats {
          book_update_latency = add_ns p.stats.book_update_latency (c.t1 -ℤ c.t0);
          execution_latency = add_ns p.stats.execution_latency (c.t2 -ℤ c.t1);
        };
      }
      else p

  abbrev pub count_crossed : Pipeline F R → Pipeline F R
  count_crossed p = record p {
    stats = record p.stats { crossed_book_events = inc p.stats.crossed_book_events };
  }

  -- The end of `process`: the quotes after the event.
  unfoldable pub quote_stage : ClockReads → MarketEvent → Pipeline F R → Pipeline F R
  unfolding cancel_resting_quotes requote
  quote_stage c ev p =
      if crossed p.book
      then cancel_resting_quotes ev.timestamp (count_crossed p)
      else (if changes_book ev.type
          then requote c.requote_start c.requote_end ev.timestamp p
          else p)

  unfoldable pub accept : ClockReads → MarketEvent → Pipeline F R → Pipeline F R
  unfolding arrive update_book execute profile quote_stage
  accept c ev p = quote_stage c ev (profile c (execute ev (update_book ev (arrive ev p))))

  abbrev pub count_event : Pipeline F R → Pipeline F R
  count_event p = record p {
    stats = record p.stats { events_processed = inc p.stats.events_processed };
  }

  abbrev pub count_drop : Pipeline F R → Pipeline F R
  count_drop p = record p {
    stats = record p.stats { out_of_order_dropped = inc p.stats.out_of_order_dropped };
  }

  unfoldable pub process : ClockReads → MarketEvent → Pipeline F R → Pipeline F R
  unfolding accept
  process c ev p =
      if is_old p.last_sequence ev.sequence
      then count_drop (count_event p)
      else accept c ev (count_event p)

  -- The branch of `on_clock` for silence beyond the threshold.
  abbrev pub mark_stale : Pipeline F R → Pipeline F R
  mark_stale p = record p {
    market_data_stale = true;
    stats = record p.stats { clock_stale_events = inc p.stats.clock_stale_events };
  }

  unfoldable pub on_clock : Timestamp → Pipeline F R → Pipeline F R
  unfolding cancel_resting_quotes
  on_clock now p =
      if not p.market_data_stale && is_late p.last_event_ts now p.stale_threshold
      then cancel_resting_quotes now (mark_stale p)
      else p
