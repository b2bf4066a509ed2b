-- ===== src/Pool/Free.antt =====
-- The list that the free slots form, and the objects that are live.
use native.Mathlib.Decide.{dec_lt, ℕ_discrete}
use lob_market_maker.Prelude.{
  ℕ, Bool-cases, inl, inr, ==_iff, suc, ◌+◌, ◌^◌, ◌≤◌, ◌<◌, ◌≡◌, ◌≢◌, refl, sym, ap, ◌∙◌, Option,
  none, some, List, [], ◌∷◌, ◌==◌, inc, if◌then◌else◌, length, arith,
}
use lob_market_maker.Pool.{Slot, value, next_free, next_of, ObjectPool, put, acquire, release}

-- How often an index stands in a list.
unfoldable pub occurrences : ℕ → List ℕ → ℕ
occurrences i [] = 0
occurrences i (j ∷ js) = let rest = occurrences i js in if i == j then suc rest else rest

occurrences-cons :
    (i j : ℕ) (free : List ℕ)
    → occurrences j (i ∷ free) ≡ (if j == i then 1 else 0) + occurrences j free
unfolding occurrences
occurrences-cons i j free = ground arith

module _ {T : Type 0} where
  -- In a list of the live objects with their slots, how many have this slot.
  unfoldable pub holders : ℕ → List (ℕ × T) → ℕ
  holders i [] = 0
  holders i ((j, v) ∷ live) = let rest = holders i live in if i == j then suc rest else rest

  unfoldable pub find : ℕ → List (ℕ × T) → Option T
  find i [] = none
  find i ((j, v) ∷ live) = if i == j then some v else find i live

  unfoldable pub remove : ℕ → List (ℕ × T) → List (ℕ × T)
  remove i [] = []
  remove i ((j, v) ∷ live) = let rest = remove i live in if i == j then live else (j, v) ∷ rest

  -- The free slots, linked in this order.
  abbrev pub Linked : (ℕ → Slot T) → Option ℕ → List ℕ → Type 0
  Linked storage head [] = head ≡ none
  Linked storage head (i ∷ free) =
      (head ≡ some i)
      × ((next : Option ℕ) × (storage i ≡ next_free next) × Linked storage next free)

  pub record Pooled (p : ObjectPool T) (free : List ℕ) (live : List (ℕ × T)) : Type 0 where
    pub linked : Linked p.storage p.free_head free
    pub held : (i : ℕ) (v : T) → find i live ≡ some v → p.storage i ≡ value v
    pub once : (i : ℕ) → i < p.capacity → occurrences i free + holders i live ≡ 1
    pub inside : (i : ℕ) → p.capacity ≤ i → occurrences i free + holders i live ≡ 0
    pub all_slots : length free + length live ≡ p.capacity
    pub counted : p.live_count ≡ length live

  -- A write to a slot that is not free leaves the links.
  Linked-put :
      (storage : ℕ → Slot T) (head : Option ℕ) (free : List ℕ) (i : ℕ) (s : Slot T)
      → occurrences i free ≡ 0
      → Linked storage head free
      → Linked (put storage i s) head free
  unfolding occurrences
  Linked-put storage head [] i s out h = h
  Linked-put storage head (j ∷ free) i s out (e, (next, at, rest)) =
      (e, (next, ground arith, Linked-put storage next free i s (ground arith) rest))

  pub holders_of_found :
      (i : ℕ) (live : List (ℕ × T)) (v : T) → find i live ≡ some v → 0 < holders i live
  unfolding find holders
  holders_of_found i [] v e = cc
  holders_of_found i ((j, w) ∷ live) v e = ground (arith, holders_of_found i live v)

  holders-remove :
      (i : ℕ) (live : List (ℕ × T)) (v : T)
      → find i live ≡ some v
      → (j : ℕ) → holders j live ≡ (if j == i then 1 else 0) + holders j (remove i live)
  unfolding find holders remove
  holders-remove i [] v e j = cc
  holders-remove i ((k, w) ∷ live) v e j = elim (Bool-cases (i == k)) [
    | inl here ↦ let same : i ≡ k = (==_iff i k).0 here in rw (here, same) (ground arith)
    | inr later ↦
        let found : find i live ≡ some v = ground arith in
        rw later (ground (arith, holders-remove i live v found j))
  ]

  length-remove :
      (i : ℕ) (live : List (ℕ × T)) (v : T)
      → find i live ≡ some v
      → length live ≡ suc (length (remove i live))
  unfolding find remove
  length-remove i [] v e = cc
  length-remove i ((k, w) ∷ live) v e = ground (arith, length-remove i live v)

  find-remove : (i j : ℕ) (live : List (ℕ × T)) → i ≢ j → find j (remove i live) ≡ find j live
  unfolding find remove
  find-remove i j [] differ = refl
  find-remove i j ((k, w) ∷ live) differ = ground (arith, find-remove i j live differ)

  find-none : (i : ℕ) (live : List (ℕ × T)) → holders i live ≡ 0 → find i live ≡ none
  unfolding find holders
  find-none i [] e = refl
  find-none i ((j, w) ∷ live) e = ground (arith, find-none i live)

  -- A slot is free, or has one live object, or is no slot.
  pub once_only :
      (p : ObjectPool T) (free : List ℕ) (live : List (ℕ × T)) (i : ℕ)
      → Pooled p free live
      → occurrences i free + holders i live ≤ 1
  once_only p free live i h = elim (dec_lt i p.capacity) [
    | yes within ↦ omega (arith, h.once i within)
    | no beyond ↦ omega (arith, h.inside i (omega arith))
  ]

  pub found_inside :
      (p : ObjectPool T) (free : List ℕ) (live : List (ℕ × T)) (i : ℕ)
      → Pooled p free live
      → 0 < occurrences i free + holders i live
      → i < p.capacity
  found_inside p free live i h some_there = elim (dec_lt i p.capacity) [
    | yes within ↦ within
    | no beyond ↦ absurd (omega (arith, h.inside i (omega arith)))
  ]

  holders-cons :
      (i j : ℕ) (v : T) (live : List (ℕ × T))
      → holders j ((i, v) ∷ live) ≡ (if j == i then 1 else 0) + holders j live
  unfolding holders
  holders-cons i j v live = ground arith

  pub put-ne : (storage : ℕ → Slot T) {i j : ℕ} (s : Slot T) → i ≢ j → put storage i s j ≡ storage j
  put-ne storage s differ = ground arith

  found_first :
      (storage : ℕ → Slot T) (i j : ℕ) (object w : T) (live : List (ℕ × T))
      → i ≡ j
      → find j ((i, object) ∷ live) ≡ some w
      → put storage i (value object) j ≡ value w
  unfolding find
  found_first storage i j object w live same e = ground arith

  found_later :
      (i j : ℕ) (object w : T) (live : List (ℕ × T))
      → i ≢ j
      → find j ((i, object) ∷ live) ≡ some w
      → find j live ≡ some w
  unfolding find
  found_later i j object w live differ e = ground arith

  acquire-some :
      (p : ObjectPool T) (i : ℕ) (object : T)
      → p.free_head ≡ some i
      → acquire p object ≡ (
        record p {
          storage = put p.storage i (value object);
          free_head = next_of (p.storage i);
          live_count = inc p.live_count;
        },
        some i,
      )
  unfolding acquire
  acquire-some p i object e = rw e refl

  -- `acquire` takes the first free slot, and puts the object there among the live ones.
  pub acquire-Pooled :
      (p : ObjectPool T) (i : ℕ) (free : List ℕ) (live : List (ℕ × T)) (object : T)
      → p.capacity < 2 ^ 64
      → Pooled p (i ∷ free) live
      → Pooled (acquire p object).0 free ((i, object) ∷ live)
        × ((acquire p object).1 ≡ some i)
        × (holders i live ≡ 0)
  acquire-Pooled p i free live object small h =
      let (head, (next, at, rest)) = h.linked in
      let first = occurrences-cons i i free in
      let alone = once_only p (i ∷ free) live i h in
      let out : occurrences i free ≡ 0 = ground arith in
      let no_holder : holders i live ≡ 0 = ground arith in
      rw (acquire-some p i object head, at)
        (
          record {
            linked = Linked-put p.storage next free i (value object) out rest;
            held = λ j w e. elim (ℕ_discrete i j) [
              | yes same ↦ found_first p.storage i j object w live same e
              | no differ ↦
                  put-ne p.storage (value object) differ
                  ∙ h.held j w (found_later i j object w live differ e)
            ];
            once = λ j within.
                omega
                  (arith, h.once j within, occurrences-cons i j free, holders-cons i j object live);
            inside = λ j beyond.
                omega (
                  arith,
                  h.inside j beyond,
                  occurrences-cons i j free,
                  holders-cons i j object live,
                );
            all_slots = omega (arith, h.all_slots);
            counted = omega (arith, h.counted, h.all_slots);
          },
          refl,
          no_holder,
        )

  -- `release` puts the slot of a live object first among the free ones.
  pub release-Pooled :
      (p : ObjectPool T) (i : ℕ) (free : List ℕ) (live : List (ℕ × T)) (v : T)
      → p.capacity < 2 ^ 64
      → find i live ≡ some v
      → Pooled p free live
      → Pooled (release p (some i)) (i ∷ free) (remove i live)
  unfolding release
  release-Pooled p i free live v small found h =
      let alone = once_only p free live i h in
      let holder = holders_of_found i live v found in
      let out : occurrences i free ≡ 0 = omega arith in
      record {
        linked = (
          refl,
          (
            p.free_head,
            ground arith,
            Linked-put p.storage p.free_head free i (next_free p.free_head) out h.linked,
          ),
        );
        held = λ j w e. elim (ℕ_discrete i j) [
          | yes same ↦
              let gone = find-none j (remove i live) (
                ground
                  (arith, alone, ap (λ k. holders k live) same, holders-remove i live v found j)) in
              cc
          | no differ ↦
              put-ne p.storage (next_free p.free_head) differ
              ∙ h.held j w (sym (find-remove i j live differ) ∙ e)
        ];
        once = λ j within.
            omega
              (arith, h.once j within, occurrences-cons i j free, holders-remove i live v found j);
        inside = λ j beyond.
            omega (
              arith,
              h.inside j beyond,
              occurrences-cons i j free,
              holders-remove i live v found j,
            );
        all_slots = omega (arith, length-remove i live v found, h.all_slots);
        counted = omega (arith, length-remove i live v found, h.counted, h.all_slots);
      }
