-- ===== src/Pipeline/Replay.antt =====
-- src/common/pipeline.hpp: events that come again.
use lob_market_maker.Prelude.{◌≡◌, true, List, [], ◌∷◌, arith}
use lob_market_maker.Types.{SequenceNumber}
use lob_market_maker.Double.{Double, Rng}
use lob_market_maker.Events.{MarketEvent}
use lob_market_maker.Pipeline.{Pipeline, ClockReads}
use lob_market_maker.Pipeline.Process.{process, is_old, count_event, count_drop}
use lob_market_maker.Pipeline.Untouched.{accept-Marks, on_clock-Marks}
use lob_market_maker.Pipeline.Run.{Call, event, clock, step, run}

module _ {F R : Type 0} ⦃d : Double F⦄ ⦃g : Rng F R⦄ where
  process-old :
      (c : ClockReads) (ev : MarketEvent) (p : Pipeline F R)
      → is_old p.last_sequence ev.sequence ≡ true
      → process c ev p ≡ count_drop (count_event p)
  unfolding process
  process-old c ev p h = rw h

  process-is_old :
      (c : ClockReads) (ev : MarketEvent) (p : Pipeline F R)
      → is_old (process c ev p).last_sequence ev.sequence ≡ true
  unfolding process
  process-is_old c ev p = ground (arith, (accept-Marks c ev (count_event p)).sequence_eq)

  -- Once a sequence number is old, it stays old.
  process-keeps_old :
      (c : ClockReads) (ev : MarketEvent) (n : SequenceNumber) (p : Pipeline F R)
      → is_old p.last_sequence n ≡ true
      → is_old (process c ev p).last_sequence n ≡ true
  unfolding process
  process-keeps_old c ev n p h = ground (arith, (accept-Marks c ev (count_event p)).sequence_eq)

  step-keeps_old :
      (x : Call) (n : SequenceNumber) (p : Pipeline F R)
      → is_old p.last_sequence n ≡ true
      → is_old (step x p).last_sequence n ≡ true
  step-keeps_old (event c ev) n p h = process-keeps_old c ev n p h
  step-keeps_old (clock now) n p h = rw (on_clock-Marks now p).sequence_eq h

  run-keeps_old :
      (xs : List Call) (n : SequenceNumber) (p : Pipeline F R)
      → is_old p.last_sequence n ≡ true
      → is_old (run xs p).last_sequence n ≡ true
  unfolding run
  run-keeps_old [] n p h = h
  run-keeps_old (x ∷ xs) n p h = run-keeps_old xs n (step x p) (step-keeps_old x n p h)

  -- An event that has been processed is dropped when it comes again, after whatever other calls: it
  -- then changes nothing but the counters of events seen and of events dropped.
  pub process_again :
      (c c' : ClockReads) (ev : MarketEvent) (xs : List Call) (p : Pipeline F R)
      → process c' ev (run xs (process c ev p)) ≡ count_drop (count_event (run xs (process c ev p)))
  process_again c c' ev xs p =
      process-old c' ev (run xs (process c ev p))
        (run-keeps_old xs ev.sequence (process c ev p) (process-is_old c ev p))
