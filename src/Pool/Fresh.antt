-- ===== src/Pool/Fresh.antt =====
-- The pool as the constructor leaves it: all slots are free, in the order of their indices.
use native.Mathlib.Decide.{ℕ_discrete}
use lob_market_maker.Prelude.{
  ℕ, zero, suc, ◌+◌, ◌-◌, ◌≤◌, ◌<◌, ◌≡◌, refl, ap, ◌∙◌, none, some, List, true, [], ◌∷◌, length,
  arith, ltb,
}
use lob_market_maker.Pool.{Slot, raw, next_free, put, link, create}
use lob_market_maker.Pool.Free.{Pooled, put-ne, Linked, occurrences, holders, find}

-- The indices from `i` on.
pub indices : ℕ → ℕ → List ℕ
indices i zero = []
indices i (suc n) = i ∷ indices (suc i) n

length-indices : (i n : ℕ) → length (indices i n) ≡ n
unfolding indices
length-indices i zero = refl
length-indices i (suc n) = ap suc (length-indices (suc i) n)

occurrences-indices_below : (i n j : ℕ) → j < i → occurrences j (indices i n) ≡ 0
unfolding indices occurrences
occurrences-indices_below i zero j h = refl
occurrences-indices_below i (suc n) j h = ground (arith, occurrences-indices_below (suc i) n j)

occurrences-indices_in : (i n j : ℕ) → i ≤ j → j < i + n → occurrences j (indices i n) ≡ 1
unfolding indices occurrences
occurrences-indices_in i zero j from to = absurd (omega arith)
occurrences-indices_in i (suc n) j from to =
    ground (arith, occurrences-indices_in (suc i) n j, occurrences-indices_below (suc i) n j)

occurrences-indices_above : (i n j : ℕ) → i + n ≤ j → occurrences j (indices i n) ≡ 0
unfolding indices occurrences
occurrences-indices_above i zero j h = refl
occurrences-indices_above i (suc n) j h = ground (arith, occurrences-indices_above (suc i) n j)

positive : (n : ℕ) → ltb 0 (suc n) ≡ true
positive n = ground arith

module _ {T : Type 0} where
  link_before : (n i : ℕ) (storage : ℕ → Slot T) (j : ℕ) → j < i → link n i storage j ≡ storage j
  unfolding link
  link_before zero i storage j h = refl
  link_before (suc n) i storage j h =
      ground (arith, link_before n (i + 1) (put storage i (next_free (some (i + 1)))) j)

  link_at :
      (n i : ℕ) (storage : ℕ → Slot T) (j : ℕ)
      → i ≤ j
      → j < i + n
      → link n i storage j ≡ next_free (some (j + 1))
  unfolding link
  link_at zero i storage j from to = absurd (omega arith)
  link_at (suc n) i storage j from to = elim (ℕ_discrete i j) [
    | yes here ↦
        link_before n (i + 1) (put storage i (next_free (some (i + 1)))) j (omega arith)
        ∙ ground arith
    | no later ↦
        link_at n (i + 1) (put storage i (next_free (some (i + 1)))) j (omega arith) (omega arith)
  ]

  Linked-indices :
      (storage : ℕ → Slot T) (n i l : ℕ)
      → l ≡ i + n
      → ((j : ℕ) → i ≤ j → j < l → storage j ≡ next_free (some (j + 1)))
      → storage l ≡ next_free none
      → Linked storage (some i) (indices i (suc n))
  unfolding indices
  Linked-indices storage zero i l e inner last =
      (refl, (none, ap storage (omega arith) ∙ last, refl))
  Linked-indices storage (suc n) i l e inner last = (
    refl,
    (
      some (suc i),
      inner i (omega arith) (omega arith) ∙ ap (λ k. next_free (some k)) (omega arith),
      Linked-indices storage n (suc i) l (omega arith) (λ j from to. inner j (omega arith) to) last,
    ),
  )

  pub Pooled-create : (capacity : ℕ) → Pooled {T = T} (create capacity) (indices 0 capacity) []
  unfolding create indices find holders occurrences
  Pooled-create zero = record {
    linked = refl;
    held = λ i v e. cc;
    once = λ i h. absurd (omega arith);
    inside = λ i h. omega arith;
    all_slots = refl;
    counted = refl;
  }
  Pooled-create (suc n) = rw (positive n) record {
    linked = Linked-indices chain n 0 (suc n - 1) (omega arith) inner last;
    held = λ i v e. cc;
    once =
        λ i h. omega (arith, occurrences-indices_in 0 (suc n) i (omega arith) (omega (arith, h)));
    inside = λ i h. omega (arith, occurrences-indices_above 0 (suc n) i (omega (arith, h)));
    all_slots = omega (arith, length-indices 0 (suc n));
    counted = refl;
  }
    where
      chain : ℕ → Slot T
      chain = put (link (suc n - 1) 0 (λ i. raw)) (suc n - 1) (next_free none)

      inner : (j : ℕ) → 0 ≤ j → j < suc n - 1 → chain j ≡ next_free (some (j + 1))
      inner j from to =
          put-ne (link (suc n - 1) 0 (λ i. raw)) (next_free none) (omega arith)
          ∙ link_at (suc n - 1) 0 (λ i. raw) j (omega arith) (omega arith)

      last : chain (suc n - 1) ≡ next_free none
      last = ground arith
