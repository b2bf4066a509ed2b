-- ===== src/Pool/Uses.antt =====
-- A pool in the hands of an owner who releases only objects that are live.
use lob_market_maker.Prelude.{
  ℕ, inc, ◌^◌, ◌≤◌, ◌<◌, ◌≡◌, ◌↔◌, refl, ◌∙◌, Option, none, some, List, [], ◌∷◌, length, arith,
}
use lob_market_maker.Pool.{value, ObjectPool, create, acquire, release}
use lob_market_maker.Pool.Free.{
  Pooled, holders, find, remove, acquire-Pooled, release-Pooled, found_inside, once_only,
  holders_of_found,
}
use lob_market_maker.Pool.Fresh.{indices, Pooled-create}

capacity-create : (T : Type 0) (capacity : ℕ) → (create {T = T} capacity).capacity ≡ capacity
unfolding create
capacity-create T capacity = ground arith

module _ {T : Type 0} where
  -- A new object is live if the pool gave it a slot.
  abbrev pub joined : Option ℕ → T → List (ℕ × T) → List (ℕ × T)
  joined none object live = live
  joined (some i) object live = (i, object) ∷ live

  -- The pools that come from a new one by calls of its owner, with the objects that are live.
  pub data Used (capacity : ℕ) : ObjectPool T → List (ℕ × T) → Type 0 where
    made : Used capacity (create capacity) []
    acquired :
        {p : ObjectPool T} {live : List (ℕ × T)} (object : T)
        → Used capacity p live
        → Used capacity (acquire p object).0 (joined (acquire p object).1 object live)
    released :
        {p : ObjectPool T} {live : List (ℕ × T)} (i : ℕ) {object : T}
        → Used capacity p live
        → find i live ≡ some object
        → Used capacity (release p (some i)) (remove i live)

  -- What the owner can rely on.
  pub record IsUsable (capacity : ℕ) (p : ObjectPool T) (live : List (ℕ × T)) : Type 0 where
    pub intact :
        (i : ℕ) (object : T)
        → find i live ≡ some object
        → (p.storage i ≡ value object) × (i < capacity)
    pub distinct : (i : ℕ) → holders i live ≤ 1
    pub count : p.live_count ≡ length live
    pub fits : length live ≤ capacity

  record Kept (capacity : ℕ) (p : ObjectPool T) (live : List (ℕ × T)) : Type 0 where
    free : List ℕ
    pooled : Pooled p free live
    size : p.capacity ≡ capacity

  acquire-none :
      (p : ObjectPool T) (object : T)
      → p.free_head ≡ none
      → acquire p object ≡ (record p { exhausted_count = inc p.exhausted_count }, none)
  unfolding acquire
  acquire-none p object e = rw e refl

  capacity-acquire : (p : ObjectPool T) (object : T) → (acquire p object).0.capacity ≡ p.capacity
  unfolding acquire
  capacity-acquire p object = ground arith

  acquire-Kept :
      (capacity : ℕ) (p : ObjectPool T) (live : List (ℕ × T)) (object : T)
      → capacity < 2 ^ 64
      → (free : List ℕ) → Pooled p free live
      → p.capacity ≡ capacity
      → Kept capacity (acquire p object).0 (joined (acquire p object).1 object live)
        × (((acquire p object).1 ≡ none) ↔ (length live ≡ capacity))
  acquire-Kept capacity p live object small [] h e = rw (acquire-none p object h.linked) (
    record {
      free = [];
      pooled = record {
        linked = h.linked;
        held = h.held;
        once = h.once;
        inside = h.inside;
        all_slots = h.all_slots;
        counted = h.counted;
      };
      size = e;
    },
    (λ _. omega (arith, h.all_slots, e), λ _. refl),
  )
  acquire-Kept capacity p live object small (i ∷ free) h e =
      let (pooled, address, fresh) =
        acquire-Pooled p i free live object (omega (arith, small, e)) h in
      rw address (
        record { free = free; pooled = pooled; size = capacity-acquire p object ∙ e },
        (λ x. cc, λ full. absurd (omega (arith, h.all_slots, e))),
      )

  Used-Kept :
      (capacity : ℕ) {p : ObjectPool T} {live : List (ℕ × T)}
      → capacity < 2 ^ 64
      → Used capacity p live
      → Kept capacity p live
  unfolding release
  Used-Kept capacity small made = record {
    free = indices 0 capacity;
    pooled = Pooled-create capacity;
    size = capacity-create T capacity;
  }
  Used-Kept capacity small (acquired {p} {live} object before) =
      let kept = Used-Kept capacity small before in
      (acquire-Kept capacity p live object small kept.free kept.pooled kept.size).0
  Used-Kept capacity small (released {p} {live} i {object} before found) =
      let kept = Used-Kept capacity small before in
      record {
        free = i ∷ kept.free;
        pooled =
            release-Pooled p i kept.free live object (omega (arith, kept.size)) found kept.pooled;
        size = kept.size;
      }

  -- For a pool of fewer than 2 ^ 64 slots, after any calls of an owner who releases only live objects:
  -- every live object is intact in its own slot of the array, no slot holds two of them, live_count
  -- is their number, and the next acquire is refused just if all slots are taken.
  pub Used-IsUsable :
      (capacity : ℕ) {p : ObjectPool T} {live : List (ℕ × T)} (object : T)
      → capacity < 2 ^ 64
      → Used capacity p live
      → IsUsable capacity p live × (((acquire p object).1 ≡ none) ↔ (length live ≡ capacity))
  Used-IsUsable capacity {p} {live} object small u =
      let kept = Used-Kept capacity small u in
      (
        record {
          intact = λ i v found. (
            kept.pooled.held i v found,
            omega (
              arith,
              kept.size,
              found_inside p kept.free live i kept.pooled
                  (omega (arith, holders_of_found i live v found)),
            ),
          );
          distinct = λ i. omega (arith, once_only p kept.free live i kept.pooled);
          count = kept.pooled.counted;
          fits = omega (arith, kept.pooled.all_slots, kept.size);
        },
        (acquire-Kept capacity p live object small kept.free kept.pooled kept.size).1,
      )
