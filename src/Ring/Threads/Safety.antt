-- ===== src/Ring/Threads/Safety.antt =====
-- What every state of the two threads satisfies, from a new ring on.
use native.Mathlib.Nat.{zero-mod, mod-lt}
use lob_market_maker.Prelude.{
  ℕ, ◌+◌, ◌-◌, ◌^◌, ◌≤◌, ◌<◌, ◌≡◌, ◌≢◌, refl, List, [], ◌∷◌, ◌++◌, length, length-append, arith,
}
use lob_market_maker.Ring.{IsCapacity, capacity}
use lob_market_maker.Ring.Mask.{pow-pos}
use lob_market_maker.Ring.Window.{length-window, window-empty, mod-apart, room_of_together}
use lob_market_maker.Ring.Threads.{
  outside, push_fill, PopPc, pop_publish, pop_take, System, start, Thread, producing, Step,
  load_full, publish, release, Steps, here, later,
}
use lob_market_maker.Ring.Threads.Invariant.{Inv, Consuming, unread}
use lob_market_maker.Ring.Threads.Kept.{Step-Inv}

length-unread :
    {T : Type 0} (bits : ℕ) (consumer : PopPc T) (buffer : ℕ → T) (read seen written : ℕ)
    → Consuming bits consumer read seen
    → seen ≤ written
    → length (unread bits consumer buffer read written) ≡ written - read
unfolding unread
length-unread bits (pop_publish x t) buffer read seen written at old =
    omega (arith, length-window (2 ^ bits) buffer (read + 1) (written - (read + 1)))
length-unread bits consumer buffer read seen written at old =
    length-window (2 ^ bits) buffer read (written - read)

module _ {T : Type 0} (moved : T → T) (bits : ℕ) (v : IsCapacity bits) (fresh : T) where
  Inv-start : Inv bits (start fresh)
  unfolding unread
  Inv-start =
      ground (arith, zero-mod (2 ^ bits), pow-pos bits, window-empty (2 ^ bits) (λ i. fresh) 0 refl)

  pub Steps-Inv : {s : System T} → Steps moved bits (start fresh) s → Inv bits s
  Steps-Inv here = Inv-start
  Steps-Inv (later who before step) = Step-Inv moved bits v step (Steps-Inv before)

  -- The stores of the two indices count the successful calls.
  record Counts (s : System T) : Type 0 where
    pushes : length s.accepted ≡ s.head.latest
    pops : length s.returned ≡ s.tail.latest

  Step-Counts : {who : Thread} {s t : System T} → Step moved bits s who t → Counts s → Counts t
  Step-Counts {s} (publish {value} e) h = ground (arith, length-append s.accepted (value ∷ []))
  Step-Counts {s} (release {value} e) h = ground (arith, length-append s.returned (value ∷ []))
  Step-Counts step h = ground arith

  Steps-Counts : {s : System T} → Steps moved bits (start fresh) s → Counts s
  Steps-Counts here = record { pushes = refl; pops = refl }
  Steps-Counts (later who before step) = Step-Counts step (Steps-Counts before)

  -- For a capacity of 2 ^ bits elements, with 0 < bits < 64: whatever steps the two threads take from
  -- a new ring on, in any order, the values of the pushes that returned true are, in their order,
  -- those that the pops have returned, followed by at most 2 ^ bits - 1 others. So no value is lost,
  -- doubled, overwritten or reordered.
  pub Steps-fifo :
      {s : System T}
      → Steps moved bits (start fresh) s
      → (left : List T) × (s.accepted ≡ s.returned ++ left) × (length left ≤ capacity bits)
  Steps-fifo {s} run =
      let inv = Steps-Inv run in
      (
        unread bits s.consumer s.buffer s.tail.latest s.head.latest,
        inv.content,
        omega (
          arith,
          inv.round,
          inv.tail_old,
          length-unread bits s.consumer s.buffer s.tail.latest s.head_seen s.head.latest
              inv.consumer_at inv.head_old,
        ),
      )

  -- In every such state, if the producer is about to write an element and the consumer about to read
  -- one, they are two different elements, both inside the vector.
  pub Steps-no_race :
      {s : System T} {value : T} {head next tail : ℕ}
      → Steps moved bits (start fresh) s
      → s.producer ≡ push_fill value head next
      → s.consumer ≡ pop_take tail
      → (head ≢ tail) × (head < 2 ^ bits) × (tail < 2 ^ bits)
  Steps-no_race {s} run p c =
      let inv = Steps-Inv run in
      ground (
        arith,
        inv,
        mod-apart (2 ^ bits) s.tail.latest s.head.latest,
        mod-lt s.head.latest (pow-pos bits),
        mod-lt s.tail.latest (pow-pos bits),
      )

  -- In every such state, if a step of the producer ends a push without accepting its value, then
  -- 2 ^ bits - 1 more values have been accepted than pops had returned one at the store of the tail
  -- that the step has read.
  pub refused-full :
      {s t : System T}
      → Steps moved bits (start fresh) s
      → Step moved bits s producing t
      → t.producer ≡ outside
      → length t.accepted ≡ length s.accepted
      → (length s.accepted ≡ t.tail_seen + capacity bits) × (t.tail_seen ≤ length s.returned)
  refused-full {s} run (load_full n e old new full) out same =
      let inv = Steps-Inv run in
      let counts = Steps-Counts run in
      ground (arith, inv, counts, inv.tails n new, room_of_together (2 ^ bits) n s.head.latest)
  refused-full {s} run (publish {value} e) out same =
      absurd (omega (arith, length-append s.accepted (value ∷ [])))
  refused-full run step out same = ground arith
