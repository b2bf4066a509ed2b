-- ===== src/Tests/Ring.antt =====
-- Runs of the ring buffer, and the results about it at these runs.
use lob_market_maker.Prelude.{
  ℕ, ◌≤◌, ◌<◌, ◌≡◌, ◌≢◌, refl, true, false, none, some, List, [], ◌∷◌, length, arith, ◌+◌, ◌^◌,
}
use lob_market_maker.Ring.{
  IsCapacity, create, Call, push_of, pop_of, empty_of, pushed, popped, emptiness, run, next_index,
  capacity,
}
use lob_market_maker.Ring.Refine.{queue_run, run_refines}
use lob_market_maker.Ring.Threads.{
  System, start, producing, consuming, Step, Steps, here, later, call_push, see_room, see_full,
  load_full, fill, publish, call_pop, see_none, load_some,
}
use lob_market_maker.Ring.Threads.Safety.{Steps-fifo, Steps-no_race, refused-full}
use lob_market_maker.Ring.Threads.Progress.{During, steps_left, wait_free}

abbrev keep : ℕ → ℕ
keep n = n

abbrev four_slots : IsCapacity 2
four_slots = record { more_than_one = omega arith; size = omega arith }

abbrev two_slots : IsCapacity 1
two_slots = record { more_than_one = omega arith; size = omega arith }

-- The third push into a ring of four elements still fits, the fourth does not.
abbrev calls : List (Call ℕ)
calls =
    push_of 5
    ∷ push_of 6
    ∷ push_of 7
    ∷ push_of 8
    ∷ pop_of
    ∷ push_of 9
    ∷ pop_of
    ∷ pop_of
    ∷ pop_of
    ∷ pop_of
    ∷ empty_of
    ∷ []

ring_runs :
    run keep 2 (create 0) calls
    ≡ pushed true
      ∷ pushed true
      ∷ pushed true
      ∷ pushed false
      ∷ popped (some 5)
      ∷ pushed true
      ∷ popped (some 6)
      ∷ popped (some 7)
      ∷ popped (some 9)
      ∷ popped none
      ∷ emptiness true
      ∷ []
unfolding run next_index create
ring_runs = refl

run_refines_example : run keep 2 (create 0) calls ≡ queue_run (capacity 2) [] calls
run_refines_example = run_refines keep 2 four_slots 0 calls

-- Some steps, with the state that they lead to.
record Reached (bits : ℕ) : Type 0 where
  last : System ℕ
  steps : Steps keep bits (start 0) last

-- A whole push of a value.
abbrev one_push : (bits : ℕ) → next_index bits 0 ≢ 0 → Reached bits
one_push bits differ = record {
  last = _;
  steps =
      later producing
        (later producing
          (later producing (later producing here (call_push 7 refl)) (see_room refl differ))
          (fill refl))
        (publish refl);
}

Steps-fifo_example : (left : List ℕ) × (7 ∷ [] ≡ left) × (length left ≤ capacity 2)
unfolding next_index
Steps-fifo_example = Steps-fifo keep 2 four_slots 0 (one_push 2 (omega arith)).steps

-- The producer is about to write a second value while the consumer is about to read the first.
abbrev both : Reached 2
unfolding next_index
both = record {
  last = _;
  steps =
      later consuming
        (later consuming
          (later consuming
            (later producing (later producing (one_push 2 (omega arith)).steps (call_push 8 refl))
              (see_room refl (omega arith)))
            (call_pop refl))
          (see_none refl refl))
        (load_some 1 refl (omega arith) (omega arith) (omega arith));
}

Steps-no_race_example : (◌≢◌ {A = ℕ} 1 0) × (1 < 2 ^ 2) × (0 < 2 ^ 2)
unfolding next_index
Steps-no_race_example =
    Steps-no_race keep 2 four_slots 0 {value = 8} {head = 1} {next = 2} {tail = 0} both.steps refl
      refl

-- With two elements a second push finds the ring full.
abbrev second_push : Reached 1
unfolding next_index
second_push = record {
  last = _;
  steps =
      later producing (later producing (one_push 1 (omega arith)).steps (call_push 8 refl))
        (see_full refl refl);
}

refused-full_example : (length {A = ℕ} (7 ∷ []) ≡ 0 + capacity 1) × (0 ≤ length {A = ℕ} [])
unfolding next_index
refused-full_example =
    refused-full keep 1 two_slots 0 second_push.steps
      (load_full 0 refl (omega arith) (omega arith) refl) refl refl

wait_free_example :
    ((t : System ℕ) × Step keep 1 second_push.last producing t)
    × ((n : ℕ) (t : System ℕ)
        → During keep 1 producing second_push.last n t
        → n + steps_left producing t ≤ 4)
unfolding next_index steps_left
wait_free_example = wait_free keep 1 two_slots 0 producing second_push.steps (omega arith)
