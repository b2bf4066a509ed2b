-- ===== src/Ring/Window.antt =====
-- The elements of a ring from one position on, in the order in which they are read. A position counts
-- the calls that have moved an index; its element is at the remainder by the capacity of the vector.
use native.Mathlib.Nat.{
  mod-add-div, mod-eq_of_lt, mod-lt, mod-add-mod, add-mod_right, pow-le-pow_right,
}
use native.Mathlib.Decide.{dec_lt}
use lob_market_maker.Prelude.{
  ℕ, zero, suc, ◌+◌, ◌-◌, ◌*◌, ◌/◌, ◌%◌, ◌^◌, ◌≤◌, ◌<◌, ◌≡◌, ◌≢◌, refl, sym, ap, ap₂, ◌∙◌, List, [],
  ◌∷◌, ◌++◌, length, ==_iff, Bool-cases, inl, inr, inc, ◌==◌, arith,
}
use lob_market_maker.Ring.{write, next_index, IsCapacity}
use lob_market_maker.Ring.Mask.{bit_and-mask, pow-pos}

pub mul-gap : (c a b : ℕ) → a < b → c * a + c ≤ c * b
mul-gap c a b h = grind arith

-- Two positions less than a round apart have different elements.
pub mod-apart : (c i j : ℕ) → i < j → j < i + c → i % c ≢ j % c
mod-apart c i j below near same = elim (dec_lt (i / c) (j / c)) [
  | yes less ↦ omega (arith, mod-add-div i c, mod-add-div j c, mul-gap c (i / c) (j / c) less)
  | no at_least ↦ elim (dec_lt (j / c) (i / c)) [
    | yes more ↦ omega (arith, mod-add-div i c, mod-add-div j c, mul-gap c (j / c) (i / c) more)
    | no at_most ↦
        let equal : i / c ≡ j / c = omega arith in
        let products : c * (i / c) ≡ c * (j / c) = ap (λ q. c * q) equal in
        omega (arith, mod-add-div i c, mod-add-div j c)
  ]
]

pub write-ne : {T : Type 0} (f : ℕ → T) {s j : ℕ} (v : T) → s ≢ j → write f s v j ≡ f j
write-ne f v differ = ground arith

pub write_self : {T : Type 0} (f : ℕ → T) (s : ℕ) (v : T) → write f s v s ≡ v
write_self f s v = ground arith

-- The index of the next position.
pub next_index_lem :
    (bits i : ℕ) → IsCapacity bits → next_index bits (i % 2 ^ bits) ≡ (i + 1) % 2 ^ bits
unfolding next_index
next_index_lem bits i v =
    bit_and-mask bits (inc (i % 2 ^ bits))
    ∙ ap (λ x. x % 2 ^ bits) (mod-eq_of_lt {n = i % 2 ^ bits + 1} {m = 2 ^ 64} fits)
    ∙ mod-add-mod i (2 ^ bits) 1
  where
    fits : i % 2 ^ bits + 1 < 2 ^ 64
    fits = omega (
      arith,
      mod-lt i (pow-pos bits),
      pow-le-pow_right {n = 2} (omega arith) {i = bits} {j = 63} (omega (arith, v.size)),
    )

module _ {T : Type 0} (c : ℕ) where
  pub window : (ℕ → T) → ℕ → ℕ → List T
  window f i zero = []
  window f i (suc n) = f (i % c) ∷ window f (suc i) n

  pub length-window : (f : ℕ → T) (i n : ℕ) → length (window f i n) ≡ n
  unfolding window
  length-window f i zero = refl
  length-window f i (suc n) = ap suc (length-window f (suc i) n)

  pub window-empty : (f : ℕ → T) (i : ℕ) {n : ℕ} → n ≡ 0 → window f i n ≡ []
  unfolding window
  window-empty f i e = rw e refl

  pub window-snoc :
      (f : ℕ → T) (i n : ℕ) → window f i (suc n) ≡ window f i n ++ (f ((i + n) % c) ∷ [])
  unfolding window
  window-snoc f i zero = ap (λ x. f (x % c) ∷ []) (omega arith)
  window-snoc f i (suc n) =
      ap (λ xs. f (i % c) ∷ xs) (window-snoc f (suc i) n)
      ∙ ap (λ x. f (i % c) ∷ (window f (suc i) n ++ (f (x % c) ∷ []))) (omega arith)

  -- A write to an element that is not in the window leaves the window as it is.
  pub window-write :
      (f : ℕ → T) (i n s : ℕ) (v : T)
      → ((k : ℕ) → i ≤ k → k < i + n → s ≢ k % c)
      → window (write f s v) i n ≡ window f i n
  unfolding window
  window-write f i zero s v out = refl
  window-write f i (suc n) s v out =
      ap₂ ◌∷◌ (write-ne f v (out i (omega arith) (omega arith)))
        (window-write f (suc i) n s v λ k from to. out k (omega arith) (omega arith))

  pub window-write_after :
      (f : ℕ → T) (i n j : ℕ) (v : T)
      → i + n ≤ j
      → j < i + c
      → window (write f (j % c) v) i n ≡ window f i n
  window-write_after f i n j v after near =
      window-write f i n (j % c) v
        λ k from to e. mod-apart c k j (omega arith) (omega arith) (sym e)

  pub window-write_before :
      (f : ℕ → T) (i n j : ℕ) (v : T)
      → j < i
      → i + n ≤ j + c
      → window (write f (j % c) v) i n ≡ window f i n
  window-write_before f i n j v before near =
      window-write f i n (j % c) v λ k from to e. mod-apart c j k (omega arith) (omega arith) e

module _ {T : Type 0} (c : ℕ) (f : ℕ → T) (read written : ℕ) where
  -- The value at the writing position joins the window when the position moves on.
  pub window-publish :
      (v : T)
      → read ≤ written
      → f (written % c) ≡ v
      → window c f read (written + 1 - read) ≡ window c f read (written - read) ++ (v ∷ [])
  window-publish v order at =
      ap (window c f read) (omega arith)
      ∙ window-snoc c f read (written - read)
      ∙ ap (λ x. window c f read (written - read) ++ (f (x % c) ∷ [])) (omega arith)
      ∙ ap (λ x. window c f read (written - read) ++ (x ∷ [])) at

  -- The first value leaves the window when the reading position moves on.
  pub window-consume :
      read < written
      → window c f read (written - read)
        ≡ f (read % c) ∷ window c f (read + 1) (written - (read + 1))
  unfolding window
  window-consume order =
      ap (window c f read) count
      ∙ ap (λ i. f (read % c) ∷ window c f i (written - (read + 1))) (omega arith)
    where
      count : written - read ≡ suc (written - (read + 1))
      count = omega arith

-- The test of the producer: the indices agree just if a whole round lies between the positions.
pub round_test : (c i j : ℕ) → i < j → j ≤ i + c → ((j % c) == (i % c)) ≡ (j == (i + c))
round_test c i j more most = elim (Bool-cases (j == (i + c))) [
  | inl full ↦
      let e : j ≡ i + c = (==_iff j (i + c)).0 full in
      ((==_iff (j % c) (i % c)).1 (ap (λ x. x % c) e ∙ add-mod_right i c)) ∙ sym full
  | inr room ↦
      let apart : i % c ≢ j % c = mod-apart c i j more (ground (arith, room)) in ground arith
]

-- The test of the consumer: the indices agree just if the positions do.
pub empty_test : (c i j : ℕ) → i ≤ j → j < i + c → ((i % c) == (j % c)) ≡ (i == j)
empty_test c i j more near = elim (dec_lt i j) [
  | yes below ↦ let apart : i % c ≢ j % c = mod-apart c i j below near in ground arith
  | no equal ↦ let e : i ≡ j = omega arith in ground arith
]

-- What the producer and the consumer learn from indices that differ.
pub room_of_apart : (c i j : ℕ) → j < i + c → (j + 1) % c ≢ i % c → j + 1 < i + c
room_of_apart c i j near apart = elim (dec_lt (j + 1) (i + c)) [
  | yes room ↦ room
  | no full ↦ absurd (apart (ap (λ x. x % c) (omega arith) ∙ add-mod_right i c))
]

pub below_of_apart : (c i j : ℕ) → i ≤ j → i % c ≢ j % c → i < j
below_of_apart c i j order apart = elim (dec_lt i j) [
  | yes below ↦ below
  | no equal ↦ absurd (apart (ap (λ x. x % c) (omega arith)))
]

pub room_of_together : (c i j : ℕ) → i ≤ j → j < i + c → (j + 1) % c ≡ i % c → j + 1 ≡ i + c
room_of_together c i j order near same = elim (dec_lt (j + 1) (i + c)) [
  | yes room ↦ absurd (mod-apart c i (j + 1) (omega arith) room (sym same))
  | no full ↦ omega arith
]
