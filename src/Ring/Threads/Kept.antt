-- ===== src/Ring/Threads/Kept.antt =====
-- Every step of either thread keeps the invariant.
use mathlib.Core.List.{append_assoc}
use lob_market_maker.Prelude.{
  ℕ, ◌+◌, ◌-◌, ◌%◌, ◌^◌, ◌≤◌, ◌<◌, ◌≡◌, ◌≢◌, sym, ap, subst, ◌∙◌, Bool-cases, inl, inr, ==_iff,
  ◌==◌, [], ◌∷◌, ◌++◌, arith,
}
use lob_market_maker.Ring.{IsCapacity, write, next_index}
use lob_market_maker.Ring.Window.{
  window, window-publish, window-consume, window-write_after, window-write_before, write_self,
  next_index_lem, room_of_apart, mod-apart, write-ne, below_of_apart,
}
use lob_market_maker.Ring.Threads.{
  PushPc, push_fill, push_publish, PopPc, away, pop_take, pop_publish, System, Thread, Atomic,
  store, Step, call_push, see_room, see_full, load_room, load_full, fill, publish, call_pop,
  see_some, see_none, load_some, load_none, take, release,
}
use lob_market_maker.Ring.Threads.Invariant.{Inv, Producing, Consuming, unread}

module _ {T : Type 0} (bits : ℕ) (buffer : ℕ → T) (read seen written : ℕ) where
  -- The element that the producer writes is not among the unread ones.
  unread-fill :
      (consumer : PopPc T) (value : T)
      → read ≤ written
      → written < read + 2 ^ bits
      → Consuming bits consumer read seen
      → seen ≤ written
      → unread bits consumer (write buffer (written % 2 ^ bits) value) read written
        ≡ unread bits consumer buffer read written
  unfolding unread
  unread-fill (pop_publish x t) value order near at seen_old =
      ap (λ xs. x ∷ xs)
        (window-write_after (2 ^ bits) buffer (read + 1) (written - (read + 1)) written value
          (omega arith) (omega arith))
  unread-fill consumer value order near at seen_old =
      window-write_after (2 ^ bits) buffer read (written - read) written value (omega arith) near

  unread-publish :
      (consumer : PopPc T) (value : T)
      → read ≤ written
      → Consuming bits consumer read seen
      → seen ≤ written
      → buffer (written % 2 ^ bits) ≡ value
      → unread bits consumer buffer read (written + 1)
        ≡ unread bits consumer buffer read written ++ (value ∷ [])
  unfolding unread
  unread-publish (pop_publish x t) value order at seen_old here =
      ap (λ xs. x ∷ xs)
        (window-publish (2 ^ bits) buffer (read + 1) written value (omega arith) here)
  unread-publish consumer value order at seen_old here =
      window-publish (2 ^ bits) buffer read written value order here

  -- The value that the consumer reads is the first one, and what it leaves in the element is not
  -- among the others.
  unread-take :
      (value : T) (tail : ℕ)
      → tail ≡ read % 2 ^ bits
      → read < written
      → written ≤ read + 2 ^ bits
      → unread bits (pop_publish (buffer tail) tail) (write buffer tail value) read written
        ≡ unread bits away buffer read written
  unfolding unread
  unread-take value tail e order near = rw e (
      ap (λ xs. buffer (read % 2 ^ bits) ∷ xs)
        (window-write_before (2 ^ bits) buffer (read + 1) (written - (read + 1)) read value
          (omega arith) (omega arith))
      ∙ sym (window-consume (2 ^ bits) buffer read written order))

  -- Nor is it the element that the producer has filled.
  Producing-take :
      (producer : PushPc T) (value : T) (tail : ℕ)
      → tail ≡ read % 2 ^ bits
      → read < written
      → written < read + 2 ^ bits
      → Producing bits producer buffer written seen
      → Producing bits producer (write buffer tail value) written seen
  Producing-take (push_publish x head next) value tail e order near (at, room, here) =
      let apart : tail ≢ written % 2 ^ bits = rw e (mod-apart (2 ^ bits) read written order near) in
      (at, room, write-ne buffer value apart ∙ here)
  Producing-take producer value tail e order near at = ground arith

stored-at :
    (c : ℕ) (a : Atomic) (v : ℕ)
    → ((n : ℕ) → n ≤ a.latest → a.value_at n ≡ n % c)
    → v ≡ (a.latest + 1) % c
    → (n : ℕ) → n ≤ a.latest + 1
    → (store a v).value_at n ≡ n % c
stored-at c a v before now n last = elim (Bool-cases ((a.latest + 1) == n)) [
  | inl same ↦
      let e : a.latest + 1 ≡ n = (==_iff (a.latest + 1) n).0 same in
      rw same (now ∙ ap (λ x. x % c) e)
  | inr other ↦ rw other (before n (ground arith))
]

module _ {T : Type 0} (moved : T → T) (bits : ℕ) (v : IsCapacity bits) where
  pub Step-Inv : {who : Thread} {s t : System T} → Step moved bits s who t → Inv bits s → Inv bits t
  unfolding unread
  Step-Inv {s} (call_push value e) inv =
      let at = inv.heads s.head.latest (omega arith) in
      ground (arith, at, next_index_lem bits s.head.latest v)
  Step-Inv {s} (see_room e room) inv =
      ground (arith, room_of_apart (2 ^ bits) s.tail_seen s.head.latest)
  Step-Inv (see_full e full) inv = ground arith
  Step-Inv {s} (load_room n e old new room) inv =
      ground (arith, inv.tails n new, room_of_apart (2 ^ bits) n s.head.latest)
  Step-Inv (load_full n e old new full) inv = ground (arith, inv.tails n new)
  Step-Inv {s} (fill {value} {head} {next} e) inv =
      let at : Producing bits (push_fill value head next) s.buffer s.head.latest s.tail_seen =
        subst (λ pc. Producing bits pc s.buffer s.head.latest s.tail_seen) e inv.producer_at in
      let same =
        unread-fill bits s.buffer s.tail.latest s.head_seen s.head.latest s.consumer value
          (omega arith) (omega arith) inv.consumer_at inv.head_old in
      rw at.0.0 ground (arith, same, write_self s.buffer (s.head.latest % 2 ^ bits) value)
  Step-Inv {s} (publish {value} {head} {next} e) inv =
      let at : Producing bits (push_publish value head next) s.buffer s.head.latest s.tail_seen =
        subst (λ pc. Producing bits pc s.buffer s.head.latest s.tail_seen) e inv.producer_at in
      let joined =
        unread-publish bits s.buffer s.tail.latest s.head_seen s.head.latest s.consumer value
          (omega arith) inv.consumer_at inv.head_old at.2 in
      let next_at = stored-at (2 ^ bits) s.head next inv.heads at.0.1 in
      ground (
        arith,
        joined,
        next_at,
        append_assoc s.returned (unread bits s.consumer s.buffer s.tail.latest s.head.latest)
            (value ∷ []),
      )
  Step-Inv {s} (call_pop e) inv = ground (arith, inv.tails s.tail.latest (omega arith))
  Step-Inv {s} (see_some e some) inv =
      ground (arith, below_of_apart (2 ^ bits) s.tail.latest s.head_seen)
  Step-Inv (see_none e none) inv = ground arith
  Step-Inv {s} (load_some n e old new some) inv =
      ground (arith, inv.heads n new, below_of_apart (2 ^ bits) s.tail.latest n)
  Step-Inv (load_none n e old new none) inv = ground (arith, inv.heads n new)
  Step-Inv {s} (take {tail} e) inv =
      let at : Consuming {T = T} bits (pop_take tail) s.tail.latest s.head_seen =
        subst (λ pc. Consuming bits pc s.tail.latest s.head_seen) e inv.consumer_at in
      let left =
        unread-take bits s.buffer s.tail.latest s.head_seen s.head.latest (moved (s.buffer tail))
          tail at.0 (omega arith) (omega arith) in
      let producer =
        Producing-take bits s.buffer s.tail.latest s.tail_seen s.head.latest s.producer
          (moved (s.buffer tail)) tail at.0 (omega arith) (omega arith) inv.producer_at in
      ground (arith, left, producer)
  Step-Inv {s} (release {value} {tail} e) inv =
      let at : Consuming bits (pop_publish value tail) s.tail.latest s.head_seen =
        subst (λ pc. Consuming bits pc s.tail.latest s.head_seen) e inv.consumer_at in
      let next_at =
        stored-at (2 ^ bits) s.tail (next_index bits tail) inv.tails
          (ap (next_index bits) at.0 ∙ next_index_lem bits s.tail.latest v) in
      ground (
        arith,
        next_at,
        append_assoc s.returned (value ∷ [])
            (window (2 ^ bits) s.buffer (s.tail.latest + 1) (s.head.latest - (s.tail.latest + 1))),
      )
