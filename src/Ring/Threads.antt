-- ===== src/Ring/Threads.antt =====
-- src/concurrency/spsc_ring_buffer.hpp with its two threads: every access to a shared variable is one
-- step, and the steps of the producer and the consumer come in any order. Each atomic index has one
-- thread that stores it. An acquire load of the other thread's index may return an old value, but
-- none older than the one that this thread has read before; by release and acquire, the elements
-- written before the store that it read are visible, and no newer ones are needed.
pub mod Invariant
mod Kept
pub mod Safety
pub mod Progress
use lob_market_maker.Prelude.{ℕ, ◌+◌, ◌≤◌, ◌≡◌, ◌≢◌, List, [], ◌∷◌, ◌++◌}
use lob_market_maker.Ring.{write, next_index}

-- `std::atomic<size_t>`: its values in the order in which they were stored, the initial one at 0.
pub record Atomic : Type 0 where
  pub value_at : ℕ → ℕ
  pub latest : ℕ

abbrev pub atomic_zero : Atomic
atomic_zero = record { value_at = λ n. 0; latest = 0 }

-- What the only thread that stores the variable loads from it.
abbrev pub own_load : Atomic → ℕ
own_load a = a.value_at a.latest

abbrev pub store : Atomic → ℕ → Atomic
store a v = record { value_at = write a.value_at (a.latest + 1) v; latest = a.latest + 1 }

-- Where the producer stands in `push`, with its local variables.
pub data PushPc (T : Type 0) : Type 0 where
  outside : PushPc T
  push_test : (value : T) (head next : ℕ) → PushPc T  -- before `next == cached_tail_`
  push_refresh : (value : T) (head next : ℕ) → PushPc T  -- before the load of `tail_`
  push_fill : (value : T) (head next : ℕ) → PushPc T  -- before the write of the element
  push_publish : (value : T) (head next : ℕ) → PushPc T  -- before the store of `head_`

-- Where the consumer stands in `pop`.
pub data PopPc (T : Type 0) : Type 0 where
  away : PopPc T
  pop_test : (tail : ℕ) → PopPc T  -- before `tail == cached_head_`
  pop_refresh : (tail : ℕ) → PopPc T  -- before the load of `head_`
  pop_take : (tail : ℕ) → PopPc T  -- before the read of the element
  pop_publish : (value : T) (tail : ℕ) → PopPc T  -- before the store of `tail_`

-- The ring, the two threads, and what their calls have returned: the values of the pushes that
-- returned true, and the values of the pops. `tail_seen` and `head_seen` say which store of the other
-- thread a thread has read last.
pub record System (T : Type 0) : Type 0 where
  pub buffer : ℕ → T
  pub head : Atomic
  pub cached_tail : ℕ
  pub tail : Atomic
  pub cached_head : ℕ
  pub tail_seen : ℕ
  pub head_seen : ℕ
  pub producer : PushPc T
  pub consumer : PopPc T
  pub accepted : List T
  pub returned : List T

abbrev pub start : {T : Type 0} → T → System T
start fresh = record {
  buffer = λ i. fresh;
  head = atomic_zero;
  cached_tail = 0;
  tail = atomic_zero;
  cached_head = 0;
  tail_seen = 0;
  head_seen = 0;
  producer = outside;
  consumer = away;
  accepted = [];
  returned = [];
}

pub data Thread : Type 0 where
  producing : Thread
  consuming : Thread

module _ {T : Type 0} (moved : T → T) (bits : ℕ) where
  pub data Step (s : System T) : Thread → System T → Type 0 where
    call_push :
        (value : T)
        → s.producer ≡ outside
        → Step s producing (record s {
          producer = push_test value (own_load s.head) (next_index bits (own_load s.head));
        })
    see_room :
        {value : T} {head next : ℕ}
        → s.producer ≡ push_test value head next
        → next ≢ s.cached_tail
        → Step s producing (record s { producer = push_fill value head next })
    see_full :
        {value : T} {head next : ℕ}
        → s.producer ≡ push_test value head next
        → next ≡ s.cached_tail
        → Step s producing (record s { producer = push_refresh value head next })
    load_room :
        {value : T} {head next : ℕ} (n : ℕ)
        → s.producer ≡ push_refresh value head next
        → s.tail_seen ≤ n
        → n ≤ s.tail.latest
        → next ≢ s.tail.value_at n
        → Step s producing (record s {
          cached_tail = s.tail.value_at n;
          tail_seen = n;
          producer = push_fill value head next;
        })
    -- `return false`
    load_full :
        {value : T} {head next : ℕ} (n : ℕ)
        → s.producer ≡ push_refresh value head next
        → s.tail_seen ≤ n
        → n ≤ s.tail.latest
        → next ≡ s.tail.value_at n
        → Step s producing
            (record s { cached_tail = s.tail.value_at n; tail_seen = n; producer = outside })
    fill :
        {value : T} {head next : ℕ}
        → s.producer ≡ push_fill value head next
        → Step s producing (record s {
          buffer = write s.buffer head value;
          producer = push_publish value head next;
        })
    -- `return true`
    publish :
        {value : T} {head next : ℕ}
        → s.producer ≡ push_publish value head next
        → Step s producing (record s {
          head = store s.head next;
          producer = outside;
          accepted = s.accepted ++ (value ∷ []);
        })
    call_pop :
        s.consumer ≡ away → Step s consuming (record s { consumer = pop_test (own_load s.tail) })
    see_some :
        {tail : ℕ}
        → s.consumer ≡ pop_test tail
        → tail ≢ s.cached_head
        → Step s consuming (record s { consumer = pop_take tail })
    see_none :
        {tail : ℕ}
        → s.consumer ≡ pop_test tail
        → tail ≡ s.cached_head
        → Step s consuming (record s { consumer = pop_refresh tail })
    load_some :
        {tail : ℕ} (n : ℕ)
        → s.consumer ≡ pop_refresh tail
        → s.head_seen ≤ n
        → n ≤ s.head.latest
        → tail ≢ s.head.value_at n
        → Step s consuming
            (record s { cached_head = s.head.value_at n; head_seen = n; consumer = pop_take tail })
    -- `return std::nullopt`
    load_none :
        {tail : ℕ} (n : ℕ)
        → s.consumer ≡ pop_refresh tail
        → s.head_seen ≤ n
        → n ≤ s.head.latest
        → tail ≡ s.head.value_at n
        → Step s consuming
            (record s { cached_head = s.head.value_at n; head_seen = n; consumer = away })
    take :
        {tail : ℕ}
        → s.consumer ≡ pop_take tail
        → Step s consuming (record s {
          buffer = write s.buffer tail (moved (s.buffer tail));
          consumer = pop_publish (s.buffer tail) tail;
        })
    -- `return value`
    release :
        {value : T} {tail : ℕ}
        → s.consumer ≡ pop_publish value tail
        → Step s consuming (record s {
          tail = store s.tail (next_index bits tail);
          consumer = away;
          returned = s.returned ++ (value ∷ []);
        })

  -- Any number of steps of the two threads, in any order.
  pub data Steps (s : System T) : System T → Type 0 where
    here : Steps s s
    later : {t u : System T} (who : Thread) → Steps s t → Step t who u → Steps s u
