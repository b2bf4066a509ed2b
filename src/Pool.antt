-- ===== src/Pool.antt =====
-- src/common/object_pool.hpp: a fixed number of slots, the free ones linked into a list. A pointer to
-- a slot is its index, and the null pointer is `none`.
pub mod Free
mod Fresh
pub mod Uses
use lob_market_maker.Prelude.{
  ℕ, zero, suc, ◌+◌, ◌-◌, ◌%◌, ◌^◌, Bool, Option, none, some, List, [], ◌∷◌, ◌==◌, inc,
  if◌then◌else◌, ltb,
}

-- What was written last into the union; `raw` before the first write.
pub data Slot (T : Type 0) : Type 0 where
  raw : Slot T
  value : T → Slot T
  next_free : Option ℕ → Slot T

-- A read of the member `next_free`, which C++ leaves undefined on the other members.
abbrev pub next_of : {T : Type 0} → Slot T → Option ℕ
next_of (next_free next) = next
next_of slot = none

-- The array of slots is a function of the index.
pub record ObjectPool (T : Type 0) : Type 0 where
  pub storage : ℕ → Slot T
  pub capacity : ℕ
  pub free_head : Option ℕ
  pub live_count : ℕ
  pub exhausted_count : ℕ

abbrev pub put : {T : Type 0} → (ℕ → Slot T) → ℕ → Slot T → ℕ → Slot T
put storage i slot j = if i == j then slot else storage j

-- `--x` on a `size_t`.
abbrev pub dec : ℕ → ℕ
dec n = (n + 2 ^ 64 - 1) % 2 ^ 64

module _ {T : Type 0} where
  -- The loop of the constructor, with the number of rounds left.
  unfoldable pub link : ℕ → ℕ → (ℕ → Slot T) → ℕ → Slot T
  link zero i storage = storage
  link (suc n) i storage = link n (i + 1) (put storage i (next_free (some (i + 1))))

  unfoldable pub create : ℕ → ObjectPool T
  unfolding link
  create capacity =
      let linked : ℕ → Slot T = link (capacity - 1) 0 (λ i. raw) in
      if ltb 0 capacity
      then record {
        storage = put linked (capacity - 1) (next_free none);
        capacity = capacity;
        free_head = some 0;
        live_count = 0;
        exhausted_count = 0;
      }
      else record {
        storage = linked;
        capacity = capacity;
        free_head = none;
        live_count = 0;
        exhausted_count = 0;
      }

  -- `object` is what the constructor of `T` makes of the arguments. A constructor that throws, after
  -- which the slot would be lost, is outside the model.
  unfoldable pub acquire : ObjectPool T → T → ObjectPool T × Option ℕ
  acquire p object = elim p.free_head [
    | none ↦ (record p { exhausted_count = inc p.exhausted_count }, none)
    | some slot ↦ (
      record p {
        storage = put p.storage slot (value object);
        free_head = next_of (p.storage slot);
        live_count = inc p.live_count;
      },
      some slot,
    )
  ]

  unfoldable pub release : ObjectPool T → Option ℕ → ObjectPool T
  release p none = p
  release p (some slot) = record p {
    storage = put p.storage slot (next_free p.free_head);
    free_head = some slot;
    live_count = dec p.live_count;
  }
