-- ===== src/Codec/Words.antt =====
-- Words and integers survive being written and read.
use mathlib.Core.List.{append_assoc}
use native.Mathlib.Nat.{pow-succ'}
use lob_market_maker.Prelude.{
  ℕ, zero, suc, ◌/◌, ◌^◌, ◌<◌, ◌≤◌, ◌≡◌, refl, subst, some, List, [], ◌∷◌, ◌++◌, ℤ, length, arith,
  pos_part, neg_part,
}
use lob_market_maker.Codec.{
  little, of_little, to_u64, to_i64, get_bytes, get_u8, get_u64, get_i64, put_u64, put_i64, Reader,
  ◌>>=◌, done,
}

-- The reader takes just these bytes, whatever follows, and gives this value.
unfoldable pub Reads : {A : Type 0} → Reader A → List ℕ → A → Type 0
Reads m bs a = (rest : List ℕ) → m (bs ++ rest) ≡ some (a, rest)

-- The range of an `int64_t`.
abbrev pub IsInt64 : ℤ → Type 0
IsInt64 z = (pos_part z < 2 ^ 63) × (neg_part z ≤ 2 ^ 63)

-- One digit more.
more_digits : (n v : ℕ) → v < 256 ^ suc n → v / 256 < 256 ^ n
more_digits n v h = let h' = rw (pow-succ' 256 n) at h in omega (arith, h')

of_little-little : (n v : ℕ) → v < 256 ^ n → of_little (little n v) ≡ v
unfolding of_little little
of_little-little zero v h = omega (arith, h)
of_little-little (suc n) v h = rw (of_little-little n (v / 256) (more_digits n v h)) (omega arith)

pub to_i64-to_u64 : (z : ℤ) → IsInt64 z → to_i64 (to_u64 z) ≡ z
unfolding to_i64 to_u64
to_i64-to_u64 z h = ground arith

pub to_u64_bound : (z : ℤ) → to_u64 z < 2 ^ 64
unfolding to_u64
to_u64_bound z = ground arith

length-little : (n v : ℕ) → length (little n v) ≡ n
unfolding little
length-little zero v = refl
length-little (suc n) v = rw (length-little n (v / 256)) (omega arith)

-- One reader after another.
pub Reads-bind :
    {A B : Type 0} (m : Reader A) (f : A → Reader B) (xs ys : List ℕ) (a : A) (b : B)
    → Reads m xs a
    → Reads (f a) ys b
    → Reads (m >>= f) (xs ++ ys) b
unfolding Reads ◌>>=◌
Reads-bind m f xs ys a b h g rest = rw (append_assoc xs ys rest, h (ys ++ rest), ◌>>=◌) (g rest)

pub Reads-map :
    {A B : Type 0} (m : Reader A) (f : A → B) (xs : List ℕ) (a : A)
    → Reads m xs a
    → Reads (m >>= λ x. done (f x)) xs (f a)
unfolding Reads ◌>>=◌
Reads-map m f xs a h rest = rw (h rest, ◌>>=◌)

pub get_bytes-Reads : (n : ℕ) (bs : List ℕ) → length bs ≡ n → Reads (get_bytes n) bs bs
unfolding get_bytes Reads
get_bytes-Reads zero [] h rest = refl
get_bytes-Reads zero (b ∷ bs) h rest = absurd (omega (arith, h))
get_bytes-Reads (suc n) [] h rest = absurd (omega (arith, h))
get_bytes-Reads (suc n) (b ∷ bs) h rest = rw (get_bytes-Reads n bs (omega (arith, h)) rest)

pub get_u64-Reads : (v : ℕ) → v < 2 ^ 64 → Reads get_u64 (put_u64 v) v
unfolding get_u64
get_u64-Reads v h = subst (Reads get_u64 (put_u64 v)) (of_little-little 8 v (omega (arith, h))) (
    Reads-map (get_bytes 8) of_little (put_u64 v) (put_u64 v)
      (get_bytes-Reads 8 (put_u64 v) (length-little 8 v)))

pub get_i64-Reads : (z : ℤ) → IsInt64 z → Reads get_i64 (put_i64 z) z
unfolding get_i64
get_i64-Reads z h =
    subst (Reads get_i64 (put_i64 z)) (to_i64-to_u64 z h)
      (Reads-map get_u64 to_i64 (put_i64 z) (to_u64 z) (get_u64-Reads (to_u64 z) (to_u64_bound z)))

pub get_u8-Reads : (b : ℕ) → Reads get_u8 (b ∷ []) b
unfolding get_u8 Reads
get_u8-Reads b rest = refl
