-- ===== src/Codec/Files.antt =====
-- A log file that is written is read back.
use lob_market_maker.Prelude.{
  ℕ, zero, suc, ◌≤◌, ◌≡◌, refl, true, some, List, [], ◌∷◌, length, length-append, arith, All,
}
use lob_market_maker.Events.{MarketEvent}
use lob_market_maker.Codec.{
  little, write_event, read_event, write_events, write_file, read_events, read_and_check_magic,
  read_file, get_bytes, get_u64, ◌>>=◌,
}
use lob_market_maker.Codec.Roundtrip.{IsLoggable, read_event-write_event}

read_events-nil : (f : ℕ) → read_events f [] ≡ []
unfolding read_events read_event get_u64 get_bytes ◌>>=◌
read_events-nil zero = refl
read_events-nil (suc f) = refl

-- With fuel for as many events, the loop reads all that were written.
read_events-write_events :
    (f : ℕ) (evs : List MarketEvent)
    → All IsLoggable evs
    → length evs ≤ f
    → read_events f (write_events evs) ≡ evs
unfolding read_events write_events
read_events-write_events f [] v h = read_events-nil f
read_events-write_events zero (ev ∷ evs) v h = absurd (omega (arith, h))
read_events-write_events (suc f) (ev ∷ evs) v h = rw (
  read_event-write_event ev (write_events evs) v.0,
  read_events-write_events f evs v.1 (omega (arith, h)),
  read_events,
)

some_bytes : (ev : MarketEvent) → 1 ≤ length (write_event ev)
unfolding write_event little
some_bytes ev = omega arith

length-write_events : (evs : List MarketEvent) → length evs ≤ length (write_events evs)
unfolding write_events
length-write_events [] = omega arith
length-write_events (ev ∷ evs) = omega (
  arith,
  length-append (write_event ev) (write_events evs),
  some_bytes ev,
  length-write_events evs,
)

read_and_check_magic-write_file :
    (evs : List MarketEvent) → read_and_check_magic (write_file evs) ≡ some (true, write_events evs)
unfolding read_and_check_magic write_file get_bytes ◌>>=◌
read_and_check_magic-write_file evs = refl

-- If every event has its integers in the range of their 64-bit types, a type that fits its byte and a
-- symbol made from some text, then reading the file that was written for them gives the same events.
pub read_file-write_file :
    (evs : List MarketEvent) → All IsLoggable evs → read_file (write_file evs) ≡ some evs
unfolding read_file
read_file-write_file evs v = rw (
  read_and_check_magic-write_file evs,
  read_events-write_events (length (write_events evs)) evs v (length-write_events evs),
  read_file,
)
