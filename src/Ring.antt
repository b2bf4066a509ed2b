-- ===== src/Ring.antt =====
-- src/concurrency/spsc_ring_buffer.hpp: the ring buffer, with each call taken as one step. The
-- interleaving of the two threads is in Ring/Threads.
mod Mask
mod Window
pub mod Refine
pub mod Threads
use Prim.Native.Nat.{bit_and}
use lob_market_maker.Prelude.{
  ℕ, ◌+◌, ◌-◌, ◌^◌, ◌<◌, Bool, true, false, Option, none, some, List, [], ◌∷◌, ◌==◌, inc,
  if◌then◌else◌,
}

-- The `static_assert` on the capacity, a `size_t`: it is 2 ^ bits, and more than 1.
pub record IsCapacity (bits : ℕ) : Type 0 where
  pub more_than_one : 0 < bits
  pub size : bits < 64

-- The vector of `Capacity` elements is a function of the index, the atomic indices are numbers.
pub record SpscRingBuffer (T : Type 0) : Type 0 where
  pub buffer : ℕ → T
  pub head : ℕ
  pub cached_tail : ℕ
  pub tail : ℕ
  pub cached_head : ℕ

-- An assignment to one element.
abbrev pub write {ℓ} : {T : Type ℓ} → (ℕ → T) → ℕ → T → ℕ → T
write buffer i v j = if i == j then v else buffer j

abbrev pub mask : ℕ → ℕ
mask bits = 2 ^ bits - 1

-- `(i + 1) & kMask`.
unfoldable pub next_index : ℕ → ℕ → ℕ
next_index bits i = bit_and (inc i) (mask bits)

-- `capacity()`.
abbrev pub capacity : ℕ → ℕ
capacity bits = 2 ^ bits - 1

module _ {T : Type 0} where
  -- `fresh` is a default-constructed element.
  unfoldable pub create : T → SpscRingBuffer T
  create fresh = record {
    buffer = λ i. fresh;
    head = 0;
    cached_tail = 0;
    tail = 0;
    cached_head = 0;
  }

  abbrev pub is_empty : SpscRingBuffer T → Bool
  is_empty r = r.head == r.tail

-- `moved v` is what an element holds once `v` has been moved out of it.
module _ {T : Type 0} (moved : T → T) (bits : ℕ) where
  -- `push(const T&)`, and `push(T&&)` of the value that the argument refers to.
  unfoldable pub push : SpscRingBuffer T → T → SpscRingBuffer T × Bool
  push r value =
      let next = next_index bits r.head in
      let stored : ℕ → SpscRingBuffer T × Bool = λ cached. (
        record r { buffer = write r.buffer r.head value; head = next; cached_tail = cached },
        true,
      ) in
      if next == r.cached_tail
      then if next == r.tail then (record r { cached_tail = r.tail }, false) else stored r.tail
      else stored r.cached_tail

  unfoldable pub pop : SpscRingBuffer T → SpscRingBuffer T × Option T
  pop r =
      let taken : ℕ → SpscRingBuffer T × Option T = λ cached. (
        record r {
          buffer = write r.buffer r.tail (moved (r.buffer r.tail));
          tail = next_index bits r.tail;
          cached_head = cached;
        },
        some (r.buffer r.tail),
      ) in
      if r.tail == r.cached_head
      then if r.tail == r.head then (record r { cached_head = r.head }, none) else taken r.head
      else taken r.cached_head

-- A call of a client, and what it returns.
pub data Call (T : Type 0) : Type 0 where
  push_of : T → Call T
  pop_of : Call T
  empty_of : Call T

pub data Reply (T : Type 0) : Type 0 where
  pushed : Bool → Reply T
  popped : Option T → Reply T
  emptiness : Bool → Reply T

module _ {T : Type 0} (moved : T → T) (bits : ℕ) where
  -- Calls one after the other.
  unfoldable pub run : SpscRingBuffer T → List (Call T) → List (Reply T)
  unfolding push pop
  run r [] = []
  run r (push_of value ∷ calls) =
      let (r', done) = push moved bits r value in pushed done ∷ run r' calls
  run r (pop_of ∷ calls) = let (r', value) = pop moved bits r in popped value ∷ run r' calls
  run r (empty_of ∷ calls) = emptiness (is_empty r) ∷ run r calls
