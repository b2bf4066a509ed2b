-- ===== src/Ring/Refine.antt =====
-- A ring whose calls do not overlap behaves as the bounded queue of the values that it holds.
use native.Mathlib.Nat.{zero-mod}
use lob_market_maker.Ring.Mask.{pow-pos}
use lob_market_maker.Prelude.{
  ℕ, ◌+◌, ◌-◌, ◌%◌, ◌^◌, ◌≤◌, ◌<◌, ◌≡◌, refl, sym, ap, ap₂, ◌∙◌, subst, Bool, true, false, Option,
  none, some, List, [], ◌∷◌, ◌++◌, length, ltb, ◌==◌, Bool-cases, inl, inr, if◌then◌else◌, arith,
}
use lob_market_maker.Ring.{
  IsCapacity, SpscRingBuffer, write, next_index, capacity, create, push, pop, is_empty, Call,
  push_of, pop_of, empty_of, Reply, pushed, popped, emptiness, run,
}
use lob_market_maker.Ring.Window.{
  window, window-empty, length-window, window-publish, window-consume, write_self,
  window-write_after, window-write_before, next_index_lem, round_test, empty_test,
}

-- The queue that a ring stands for: at most as many values as its capacity, first in, first out.
module _ {T : Type 0} where
  abbrev pub enqueue : ℕ → List T → T → List T × Bool
  enqueue room q v = if ltb (length q) room then (q ++ (v ∷ []), true) else (q, false)

  abbrev pub dequeue : List T → List T × Option T
  dequeue [] = ([], none)
  dequeue (v ∷ q) = (q, some v)

  abbrev is_nil : List T → Bool
  is_nil [] = true
  is_nil (v ∷ q) = false

  -- The replies of the queue to calls one after the other.
  unfoldable pub queue_run : ℕ → List T → List (Call T) → List (Reply T)
  queue_run room q [] = []
  queue_run room q (push_of v ∷ calls) =
      let (q', done) = enqueue room q v in pushed done ∷ queue_run room q' calls
  queue_run room q (pop_of ∷ calls) = let (q', v) = dequeue q in popped v ∷ queue_run room q' calls
  queue_run room q (empty_of ∷ calls) = emptiness (is_nil q) ∷ queue_run room q calls

module _ {T : Type 0} (moved : T → T) (bits : ℕ) (v : IsCapacity bits) where
  -- The ring holds the values of `q`: its indices stand at positions in this order, at most one round
  -- apart, and `q` are the elements between the reading and the writing position.
  pub record Holds (r : SpscRingBuffer T) (q : List T) : Type 0 where
    pub tail_seen : ℕ
    pub read : ℕ
    pub head_seen : ℕ
    pub written : ℕ
    pub head_at : r.head ≡ written % 2 ^ bits
    pub tail_at : r.tail ≡ read % 2 ^ bits
    pub cached_tail_at : r.cached_tail ≡ tail_seen % 2 ^ bits
    pub cached_head_at : r.cached_head ≡ head_seen % 2 ^ bits
    pub tail_old : tail_seen ≤ read
    pub not_ahead : read ≤ head_seen
    pub head_old : head_seen ≤ written
    pub round : written < tail_seen + 2 ^ bits
    pub content : q ≡ window (2 ^ bits) r.buffer read (written - read)

  module _ {r : SpscRingBuffer T} {q : List T} (h : Holds r q) where
    open h use {
      tail_seen, read, head_seen, written, head_at, tail_at, cached_tail_at, cached_head_at,
      tail_old, not_ahead, head_old, round, content,
    }

    length-content : length q ≡ written - read
    length-content = ap length content ∙ length-window (2 ^ bits) r.buffer read (written - read)

    -- The queue is never longer than the capacity.
    pub Holds-le : length q ≤ capacity bits
    Holds-le = omega (arith, length-content, round, tail_old)

    next_at : next_index bits r.head ≡ (written + 1) % 2 ^ bits
    next_at = ap (next_index bits) head_at ∙ next_index_lem bits written v

    cached_test : (next_index bits r.head == r.cached_tail) ≡ (written + 1 == tail_seen + 2 ^ bits)
    cached_test =
        rw (next_at, cached_tail_at)
          (round_test (2 ^ bits) tail_seen (written + 1) (omega arith) (omega arith))

    full_test : (next_index bits r.head == r.tail) ≡ (written + 1 == read + 2 ^ bits)
    full_test =
        rw (next_at, tail_at) (round_test (2 ^ bits) read (written + 1) (omega arith) (omega arith))

    -- The state after a successful push, with any cached index that leaves room.
    stored :
        (value : T) (seen cached : ℕ)
        → cached ≡ seen % 2 ^ bits
        → tail_seen ≤ seen
        → seen ≤ read
        → written + 1 < seen + 2 ^ bits
        → Holds
            (record r {
              buffer = write r.buffer r.head value;
              head = next_index bits r.head;
              cached_tail = cached;
            })
            (q ++ (value ∷ []))
    stored value seen cached at newer old room = record {
      tail_seen = seen;
      read = read;
      head_seen = head_seen;
      written = written + 1;
      head_at = next_at;
      tail_at = tail_at;
      cached_tail_at = at;
      cached_head_at = cached_head_at;
      tail_old = old;
      not_ahead = not_ahead;
      head_old = omega arith;
      round = room;
      content =
          ap (λ xs. xs ++ (value ∷ [])) content
          ∙ ap (λ xs. xs ++ (value ∷ [])) (sym untouched)
          ∙ sym (
              window-publish (2 ^ bits) (write r.buffer r.head value) read written value order
                here);
    }
      where
        order : read ≤ written
        order = omega arith

        here : write r.buffer r.head value (written % 2 ^ bits) ≡ value
        here = rw head_at (write_self r.buffer (written % 2 ^ bits) value)

        untouched :
            window (2 ^ bits) (write r.buffer r.head value) read (written - read)
            ≡ window (2 ^ bits) r.buffer read (written - read)
        untouched = rw head_at (
            window-write_after (2 ^ bits) r.buffer read (written - read) written value (omega arith)
              (omega arith))

    refreshed :
        (seen cached : ℕ)
        → cached ≡ seen % 2 ^ bits
        → tail_seen ≤ seen
        → seen ≤ read
        → Holds (record r { cached_tail = cached }) q
    refreshed seen cached at newer old = record {
      tail_seen = seen;
      read = read;
      head_seen = head_seen;
      written = written;
      head_at = head_at;
      tail_at = tail_at;
      cached_tail_at = at;
      cached_head_at = cached_head_at;
      tail_old = old;
      not_ahead = not_ahead;
      head_old = head_old;
      round = omega arith;
      content = content;
    }

    -- `push` appends the value to the queue and returns true, or leaves a full queue and returns false.
    pub push-Holds :
        (value : T)
        → Holds (push moved bits r value).0 (enqueue (capacity bits) q value).0
          × ((push moved bits r value).1 ≡ (enqueue (capacity bits) q value).1)
    unfolding push
    push-Holds value = elim (Bool-cases (written + 1 == tail_seen + 2 ^ bits)) [
      | inl round ↦ elim (Bool-cases (written + 1 == read + 2 ^ bits)) [
        | inl full ↦
            let refused : ltb (length q) (capacity bits) ≡ false = ground (arith, length-content) in
            rw (cached_test, round, full_test, full, refused)
              (refreshed read r.tail tail_at tail_old (omega arith), refl)
        | inr room ↦
            let accepted : ltb (length q) (capacity bits) ≡ true = ground (arith, length-content) in
            rw (cached_test, round, full_test, room, accepted)
              (stored value read r.tail tail_at tail_old (omega arith) (ground arith), refl)
      ]
      | inr room ↦
          let accepted : ltb (length q) (capacity bits) ≡ true = ground (arith, length-content) in
          rw (cached_test, room, accepted)
            (
              stored value tail_seen r.cached_tail cached_tail_at (omega arith) tail_old
                  (ground arith),
              refl,
            )
    ]

    cached_empty_test : (r.tail == r.cached_head) ≡ (read == head_seen)
    cached_empty_test =
        rw (tail_at, cached_head_at) (empty_test (2 ^ bits) read head_seen not_ahead (omega arith))

    empty_now_test : (r.tail == r.head) ≡ (read == written)
    empty_now_test =
        rw (tail_at, head_at) (empty_test (2 ^ bits) read written (omega arith) (omega arith))

    -- The state after a successful pop.
    taken :
        (seen cached : ℕ)
        → cached ≡ seen % 2 ^ bits
        → read < seen
        → seen ≤ written
        → Holds
            (record r {
              buffer = write r.buffer r.tail (moved (r.buffer r.tail));
              tail = next_index bits r.tail;
              cached_head = cached;
            })
            (dequeue q).0
          × (some (r.buffer r.tail) ≡ (dequeue q).1)
    taken seen cached at more old = (
      record {
        tail_seen = tail_seen;
        read = read + 1;
        head_seen = seen;
        written = written;
        head_at = head_at;
        tail_at = ap (next_index bits) tail_at ∙ next_index_lem bits read v;
        cached_tail_at = cached_tail_at;
        cached_head_at = at;
        tail_old = omega arith;
        not_ahead = omega arith;
        head_old = old;
        round = round;
        content = ap (λ xs. (dequeue xs).0) parts ∙ sym untouched;
      },
      ap (λ i. some (r.buffer i)) tail_at ∙ sym (ap (λ xs. (dequeue xs).1) parts),
    )
      where
        parts :
            q
            ≡ r.buffer (read % 2 ^ bits)
              ∷ window (2 ^ bits) r.buffer (read + 1) (written - (read + 1))
        parts = content ∙ window-consume (2 ^ bits) r.buffer read written (omega arith)

        untouched :
            window
              (2 ^ bits)
              (write r.buffer r.tail (moved (r.buffer r.tail)))
              (read + 1)
              (written - (read + 1))
            ≡ window (2 ^ bits) r.buffer (read + 1) (written - (read + 1))
        untouched = rw tail_at (
            window-write_before (2 ^ bits) r.buffer (read + 1) (written - (read + 1)) read
              (moved (r.buffer (read % 2 ^ bits))) (omega arith) (omega arith))

    looked : Holds (record r { cached_head = r.head }) q
    looked = record {
      tail_seen = tail_seen;
      read = read;
      head_seen = written;
      written = written;
      head_at = head_at;
      tail_at = tail_at;
      cached_tail_at = cached_tail_at;
      cached_head_at = head_at;
      tail_old = tail_old;
      not_ahead = omega arith;
      head_old = omega arith;
      round = round;
      content = content;
    }

    -- `pop` takes the first value of the queue, or returns nothing on an empty one.
    pub pop-Holds :
        Holds (pop moved bits r).0 (dequeue q).0 × ((pop moved bits r).1 ≡ (dequeue q).1)
    unfolding pop
    pop-Holds = elim (Bool-cases (read == head_seen)) [
      | inl same ↦ elim (Bool-cases (read == written)) [
        | inl empty ↦
            let nothing : q ≡ [] = content ∙ window-empty (2 ^ bits) r.buffer read (ground arith) in
            rw (cached_empty_test, same, empty_now_test, empty)
              (rw nothing (subst (Holds (record r { cached_head = r.head })) nothing looked, refl))
        | inr some_left ↦
            rw (cached_empty_test, same, empty_now_test, some_left)
              (taken written r.head head_at (ground arith) (omega arith))
      ]
      | inr some_seen ↦
          rw (cached_empty_test, some_seen)
            (taken head_seen r.cached_head cached_head_at (ground arith) head_old)
    ]

    same_test : (r.head == r.tail) ≡ (r.tail == r.head)
    same_test = ground arith

    -- `empty` says whether the queue has no value.
    pub is_empty-Holds : is_empty r ≡ is_nil q
    is_empty-Holds = elim (Bool-cases (read == written)) [
      | inl none_left ↦
          same_test
          ∙ empty_now_test
          ∙ none_left
          ∙ ap is_nil (sym (content ∙ window-empty (2 ^ bits) r.buffer read (ground arith)))
      | inr some_left ↦
          same_test
          ∙ empty_now_test
          ∙ some_left
          ∙ ap is_nil
              (sym (content ∙ window-consume (2 ^ bits) r.buffer read written (ground arith)))
    ]

  pub Holds-create : (fresh : T) → Holds (create fresh) []
  unfolding create
  Holds-create fresh = record {
    tail_seen = 0;
    read = 0;
    head_seen = 0;
    written = 0;
    head_at = sym (zero-mod (2 ^ bits));
    tail_at = sym (zero-mod (2 ^ bits));
    cached_tail_at = sym (zero-mod (2 ^ bits));
    cached_head_at = sym (zero-mod (2 ^ bits));
    tail_old = omega arith;
    not_ahead = omega arith;
    head_old = omega arith;
    round = omega (arith, pow-pos bits);
    content = sym (window-empty (2 ^ bits) (λ i. fresh) 0 refl);
  }

  run-Holds :
      (calls : List (Call T)) {r : SpscRingBuffer T} {q : List T}
      → Holds r q
      → run moved bits r calls ≡ queue_run (capacity bits) q calls
  unfolding run queue_run
  run-Holds [] h = refl
  run-Holds (push_of value ∷ calls) h =
      let (next, same) = push-Holds h value in ap₂ ◌∷◌ (ap pushed same) (run-Holds calls next)
  run-Holds (pop_of ∷ calls) h =
      let (next, same) = pop-Holds h in ap₂ ◌∷◌ (ap popped same) (run-Holds calls next)
  run-Holds (empty_of ∷ calls) h = ap₂ ◌∷◌ (ap emptiness (is_empty-Holds h)) (run-Holds calls h)

  -- For a capacity of 2 ^ bits elements, with 0 < bits < 64, the replies of a new ring to any pushes,
  -- pops and tests of emptiness that do not overlap are those of an empty first-in-first-out queue that takes at most
  -- 2 ^ bits - 1 values, whatever moving out of an element leaves in it.
  pub run_refines :
      (fresh : T) (calls : List (Call T))
      → run moved bits (create fresh) calls ≡ queue_run (capacity bits) [] calls
  run_refines fresh calls = run-Holds calls (Holds-create fresh)
