-- ===== src/Tests/Pool.antt =====
-- A pool of two slots, used up and given back.
use lob_market_maker.Prelude.{ℕ, ◌≡◌, ◌↔◌, refl, none, some, [], ◌∷◌, length, arith}
use lob_market_maker.Pool.{ObjectPool, create, acquire, release, link}
use lob_market_maker.Pool.Free.{find, remove}
use lob_market_maker.Pool.Uses.{Used, made, acquired, released, IsUsable, Used-IsUsable}

-- Two objects acquired, and the first released.
abbrev one_back : ObjectPool ℕ
one_back = release (acquire (acquire (create 2) 40).0 41).0 (some 0)

-- The slot released last is the next one given out, and a third object finds no slot.
pool_runs : ((acquire one_back 42).1 ≡ some 0) × ((acquire (acquire one_back 42).0 43).1 ≡ none)
unfolding create acquire release link
pool_runs = (refl, refl)

one_back-Used : Used 2 one_back ((1, 41) ∷ [])
unfolding create acquire release link find remove
one_back-Used = released 0 (acquired 41 (acquired 40 made)) refl

Used-IsUsable_example :
    IsUsable 2 one_back ((1, 41) ∷ [])
    × (((acquire one_back 42).1 ≡ none) ↔ (length {A = ℕ × ℕ} ((1, 41) ∷ []) ≡ 2))
Used-IsUsable_example = Used-IsUsable 2 42 (omega arith) one_back-Used
