-- ===== src/Ring/Threads/Invariant.antt =====
-- What holds between any two steps of the threads.
use lob_market_maker.Prelude.{ℕ, ◌+◌, ◌-◌, ◌%◌, ◌^◌, ◌≤◌, ◌<◌, ◌≡◌, List, ◌∷◌, ◌++◌}
use lob_market_maker.Ring.Window.{window}
use lob_market_maker.Ring.Threads.{
  PushPc, outside, push_test, push_refresh, push_fill, push_publish, PopPc, away, pop_test,
  pop_refresh, pop_take, pop_publish, System,
}

-- The indices that the producer has in hand are those of the writing position and of the next.
abbrev pub AtHead : ℕ → ℕ → ℕ → ℕ → Type 0
AtHead bits written head next = (head ≡ written % 2 ^ bits) × (next ≡ (written + 1) % 2 ^ bits)

module _ {T : Type 0} (bits : ℕ) where
  abbrev pub Producing : PushPc T → (ℕ → T) → ℕ → ℕ → Type 0
  Producing outside buffer written tail_seen = Unit
  Producing (push_test value head next) buffer written tail_seen = AtHead bits written head next
  Producing (push_refresh value head next) buffer written tail_seen = AtHead bits written head next
  Producing (push_fill value head next) buffer written tail_seen =
      AtHead bits written head next × (written + 1 < tail_seen + 2 ^ bits)
  Producing (push_publish value head next) buffer written tail_seen =
      AtHead bits written head next
      × (written + 1 < tail_seen + 2 ^ bits)
      × (buffer (written % 2 ^ bits) ≡ value)

  abbrev pub Consuming : PopPc T → ℕ → ℕ → Type 0
  Consuming away read head_seen = Unit
  Consuming (pop_test tail) read head_seen = tail ≡ read % 2 ^ bits
  Consuming (pop_refresh tail) read head_seen = tail ≡ read % 2 ^ bits
  Consuming (pop_take tail) read head_seen = (tail ≡ read % 2 ^ bits) × (read < head_seen)
  Consuming (pop_publish value tail) read head_seen = (tail ≡ read % 2 ^ bits) × (read < head_seen)

  -- The values that are published and not yet returned, the one in the consumer's hand first.
  unfoldable pub unread : PopPc T → (ℕ → T) → ℕ → ℕ → List T
  unread (pop_publish value tail) buffer read written =
      value ∷ window (2 ^ bits) buffer (read + 1) (written - (read + 1))
  unread consumer buffer read written = window (2 ^ bits) buffer read (written - read)

  pub record Inv (s : System T) : Type 0 where
    pub heads : (n : ℕ) → n ≤ s.head.latest → s.head.value_at n ≡ n % 2 ^ bits
    pub tails : (n : ℕ) → n ≤ s.tail.latest → s.tail.value_at n ≡ n % 2 ^ bits
    pub tail_old : s.tail_seen ≤ s.tail.latest
    pub not_ahead : s.tail.latest ≤ s.head_seen
    pub head_old : s.head_seen ≤ s.head.latest
    pub round : s.head.latest < s.tail_seen + 2 ^ bits
    pub cached_tail_at : s.cached_tail ≡ s.tail_seen % 2 ^ bits
    pub cached_head_at : s.cached_head ≡ s.head_seen % 2 ^ bits
    pub producer_at : Producing s.producer s.buffer s.head.latest s.tail_seen
    pub consumer_at : Consuming s.consumer s.tail.latest s.head_seen
    pub content : s.accepted ≡ s.returned ++ unread s.consumer s.buffer s.tail.latest s.head.latest
