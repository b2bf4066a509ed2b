-- ===== src/Live/Feed.antt =====
-- What the pipeline of a live run has been called with.
use mathlib.Core.List.{append_assoc, append-nil}
use lob_market_maker.Prelude.{
  ℕ, zero, suc, ◌+◌, ◌^◌, ◌≤◌, ◌<◌, ◌≡◌, refl, sym, ap, ◌∙◌, subst, true, false, none, some, List,
  [], ◌∷◌, ◌++◌, length, length-append, arith, Bool-cases, inl, inr, ltb,
}
use lob_market_maker.Types.{Timestamp}
use lob_market_maker.Events.{MarketEvent}
use lob_market_maker.Double.{Double, Rng}
use lob_market_maker.Ring.{SpscRingBuffer, IsCapacity, push, pop, capacity}
use lob_market_maker.Ring.Refine.{Holds, Holds-le, push-Holds, pop-Holds}
use lob_market_maker.Pipeline.{Pipeline, ClockReads}
use lob_market_maker.Pipeline.Process.{process, on_clock}
use lob_market_maker.Pipeline.Run.{Call, event, clock, step, run}
use lob_market_maker.Live.{
  ring_bits, Live, Happening, arrives, turn_of_loop, receive, handle, turn, drain, drain_all,
  happen, happen_all,
}
use lob_market_maker.Live.Arrivals.{
  Thinned, Thinned-kept_last, Thinned-without_last, events_of_calls, arrivals,
  events_of_calls-event, events_of_calls-clock,
}

pub sixteen : IsCapacity ring_bits
sixteen = record { more_than_one = omega arith; size = omega arith }

module _ {F R : Type 0} ⦃d : Double F⦄ ⦃g : Rng F R⦄ where
  run-last :
      (xs : List Call) (x : Call) (p : Pipeline F R) → run (xs ++ (x ∷ [])) p ≡ step x (run xs p)
  unfolding run
  run-last [] x p = refl
  run-last (y ∷ xs) x p = run-last xs x (step y p)

  module _ (moved : MarketEvent → MarketEvent) (clocks : ℕ → ClockReads) (p0 : Pipeline F R) where
    -- The calls made so far and the events in the ring, for what has come and how often something has
    -- happened.
    pub record Fed (st : Live F R) (came waiting : List MarketEvent) (happened : ℕ) : Type 0 where
      pub calls : List Call
      pub held : Holds moved ring_bits sixteen st.ring waiting
      pub called : st.pipeline ≡ run calls p0
      pub from_feed : Thinned (events_of_calls calls ++ waiting) came
      pub counted : length (events_of_calls calls ++ waiting) + st.dropped ≡ length came
      pub few : length calls + length waiting ≤ happened

    Fed-receive :
        (ev : MarketEvent) (st : Live F R) (came waiting : List MarketEvent) (n : ℕ)
        → length came + 1 < 2 ^ 64
        → Fed st came waiting n
        → (waiting' : List MarketEvent) × Fed
            (receive moved clocks ev st)
            (came ++ (ev ∷ []))
            waiting'
            (suc n)
    unfolding receive
    Fed-receive ev st came waiting n small h =
        let (next, answer) = push-Holds moved ring_bits sixteen h.held ev in
        elim (Bool-cases (ltb (length waiting) (capacity ring_bits))) [
          | inl room ↦
              let done : (push moved ring_bits st.ring ev).1 ≡ true = rw room at answer in
              let longer = append_assoc (events_of_calls h.calls) waiting (ev ∷ []) in
              (
                waiting ++ (ev ∷ []),
                rw done record {
                  calls = h.calls;
                  held = rw room at next;
                  called = h.called;
                  from_feed =
                      subst (λ xs. Thinned xs (came ++ (ev ∷ []))) longer
                        (Thinned-kept_last ev h.from_feed);
                  counted = omega (
                    arith,
                    h.counted,
                    ap length longer,
                    length-append came (ev ∷ []),
                    length-append (events_of_calls h.calls ++ waiting) (ev ∷ []),
                  );
                  few = omega (arith, h.few, length-append waiting (ev ∷ []));
                },
              )
          | inr full ↦
              let refused : (push moved ring_bits st.ring ev).1 ≡ false = rw full at answer in
              (
                waiting,
                rw refused record {
                  calls = h.calls;
                  held = rw full at next;
                  called = h.called;
                  from_feed = Thinned-without_last ev h.from_feed;
                  counted = omega (arith, h.counted, small, length-append came (ev ∷ []));
                  few = omega (arith, h.few);
                },
              )
        ]

    abbrev ring_after : Live F R → SpscRingBuffer MarketEvent
    ring_after st = (pop moved ring_bits st.ring).0

    drain-none :
        (fuel : ℕ) (st : Live F R)
        → (pop moved ring_bits st.ring).1 ≡ none
        → drain moved clocks (suc fuel) st ≡ record st { ring = ring_after st }
    unfolding drain
    drain-none fuel st e = rw (e, drain) refl

    drain-some :
        (fuel : ℕ) (st : Live F R) (ev : MarketEvent)
        → (pop moved ring_bits st.ring).1 ≡ some ev
        → drain moved clocks (suc fuel) st
          ≡ drain moved clocks fuel (handle moved clocks (ring_after st) ev st)
    unfolding drain
    drain-some fuel st ev e = rw (e, drain) refl

    turn-none :
        (now : Timestamp) (st : Live F R)
        → (pop moved ring_bits st.ring).1 ≡ none
        → turn moved clocks now st
          ≡ record st { ring = ring_after st; pipeline = on_clock now st.pipeline }
    unfolding turn
    turn-none now st e = rw (e, turn) refl

    turn-some :
        (now : Timestamp) (st : Live F R) (ev : MarketEvent)
        → (pop moved ring_bits st.ring).1 ≡ some ev
        → turn moved clocks now st ≡ handle moved clocks (ring_after st) ev st
    unfolding turn
    turn-some now st ev e = rw (e, turn) refl

    Fed-handle :
        (ev : MarketEvent) (st : Live F R) (came waiting : List MarketEvent) (n : ℕ)
        → Fed st came (ev ∷ waiting) n
        → Fed (handle moved clocks (ring_after st) ev st) came waiting n
    Fed-handle ev st came waiting n h =
        let call = event (clocks st.handled) ev in
        let more = h.calls ++ (call ∷ []) in
        let same : events_of_calls more ++ waiting ≡ events_of_calls h.calls ++ (ev ∷ waiting) =
          events_of_calls-event h.calls (clocks st.handled) ev waiting in
        record {
          calls = more;
          held = (pop-Holds moved ring_bits sixteen h.held).0;
          called = ap (process (clocks st.handled) ev) h.called ∙ sym (run-last h.calls call p0);
          from_feed = subst (λ xs. Thinned xs came) (sym same) h.from_feed;
          counted = omega (arith, h.counted, ap length same);
          few = omega (arith, h.few, length-append h.calls (call ∷ []));
        }

    Fed-drain :
        (fuel : ℕ) (st : Live F R) (came waiting : List MarketEvent) (n : ℕ)
        → length waiting < fuel
        → Fed st came waiting n
        → Fed (drain moved clocks fuel st) came [] n
    Fed-drain zero st came waiting n enough h = absurd (omega arith)
    Fed-drain (suc fuel) st came [] n enough h =
        let (next, answer) = pop-Holds moved ring_bits sixteen h.held in
        rw (drain-none fuel st answer) record {
          calls = h.calls;
          held = next;
          called = h.called;
          from_feed = h.from_feed;
          counted = h.counted;
          few = h.few;
        }
    Fed-drain (suc fuel) st came (ev ∷ waiting) n enough h =
        rw (drain-some fuel st ev (pop-Holds moved ring_bits sixteen h.held).1) (
          Fed-drain fuel (handle moved clocks (ring_after st) ev st) came waiting n (omega arith)
            (Fed-handle ev st came waiting n h))

    pub Fed-drain_all :
        (st : Live F R) (came waiting : List MarketEvent) (n : ℕ)
        → Fed st came waiting n
        → Fed (drain_all moved clocks st) came [] n
    Fed-drain_all st came waiting n h =
        Fed-drain (2 ^ ring_bits) st came waiting n
          (omega (arith, Holds-le moved ring_bits sixteen h.held)) h

    Fed-later :
        (st : Live F R) (came waiting : List MarketEvent) (n : ℕ)
        → Fed st came waiting n
        → Fed st came waiting (suc n)
    Fed-later st came waiting n h = record {
      calls = h.calls;
      held = h.held;
      called = h.called;
      from_feed = h.from_feed;
      counted = h.counted;
      few = omega (arith, h.few);
    }

    Fed-turn :
        (now : Timestamp) (st : Live F R) (came waiting : List MarketEvent) (n : ℕ)
        → Fed st came waiting n
        → (waiting' : List MarketEvent) × Fed (turn moved clocks now st) came waiting' (suc n)
    Fed-turn now st came [] n h =
        let (next, answer) = pop-Holds moved ring_bits sixteen h.held in
        let same = ap (λ xs. xs ++ []) (events_of_calls-clock h.calls now) in
        (
          [],
          rw (turn-none now st answer) record {
            calls = h.calls ++ (clock now ∷ []);
            held = next;
            called = ap (on_clock now) h.called ∙ sym (run-last h.calls (clock now) p0);
            from_feed = subst (λ xs. Thinned xs came) (sym same) h.from_feed;
            counted = omega (arith, h.counted, ap length same);
            few = omega (arith, h.few, length-append h.calls (clock now ∷ []));
          },
        )
    Fed-turn now st came (ev ∷ waiting) n h = (
      waiting,
      rw (turn-some now st ev (pop-Holds moved ring_bits sixteen h.held).1) (
          Fed-later (handle moved clocks (ring_after st) ev st) came waiting n
            (Fed-handle ev st came waiting n h)),
    )

    abbrev after : MarketEvent → List Happening → Live F R → Live F R
    after ev hs st = happen_all moved clocks hs (receive moved clocks ev st)

    pub Fed-happen_all :
        (hs : List Happening) (st : Live F R) (came waiting : List MarketEvent) (n : ℕ)
        → length came + length (arrivals hs) < 2 ^ 64
        → Fed st came waiting n
        → (waiting' : List MarketEvent) × Fed
            (happen_all moved clocks hs st)
            (came ++ arrivals hs)
            waiting'
            (n + length hs)
    unfolding happen_all arrivals happen
    Fed-happen_all [] st came waiting n small h = (
      waiting,
      subst (λ m. Fed st (came ++ []) waiting m) (omega arith)
          (subst (λ xs. Fed st xs waiting n) (sym (append-nil came)) h),
    )
    Fed-happen_all (arrives ev ∷ hs) st came waiting n small h =
        let (w, h') = Fed-receive ev st came waiting n (omega arith) h in
        let (w', last) =
          Fed-happen_all hs (receive moved clocks ev st) (came ++ (ev ∷ [])) w (suc n)
            (omega (arith, length-append came (ev ∷ []))) h' in
        (
          w',
          subst (λ m. Fed (after ev hs st) (came ++ (ev ∷ arrivals hs)) w' m) (omega arith)
              (subst (λ xs. Fed (after ev hs st) xs w' (suc n + length hs))
                (append_assoc came (ev ∷ []) (arrivals hs)) last),
        )
    Fed-happen_all (turn_of_loop now ∷ hs) st came waiting n small h =
        let (w, h') = Fed-turn now st came waiting n h in
        let (w', last) = Fed-happen_all hs (turn moved clocks now st) came w (suc n) small h' in
        (
          w',
          subst
              (λ m.
                Fed (happen_all moved clocks hs (turn moved clocks now st)) (came ++ arrivals hs) w'
                  m)
              (omega arith) last,
        )
