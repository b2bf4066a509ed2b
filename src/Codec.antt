-- ===== src/Codec.antt =====
-- src/replay/event_codec.hpp, event_codec.cpp: the binary event log. A stream is the list of the bytes
-- written, or still to be read; a failed read of the stream is `none`.
pub mod Words
pub mod Roundtrip
pub mod Files
use lob_market_maker.Prelude.{
  ℕ, zero, suc, Bool, ◌+◌, ◌-◌, ◌*◌, ◌/◌, ◌%◌, ◌^◌, Option, none, some, List, [], ◌∷◌, ◌++◌, ℤ, pos,
  negsuc, ltb, ◌==◌, if◌then◌else◌, length, take,
}
use lob_market_maker.Types.{from_ticks, Side, buy, sell, max_len, zeros, symbol_of, view, same_text}
use lob_market_maker.Events.{
  EventType, quote, trade, book_delete, snapshot, heartbeat, unnamed, MarketEvent,
}

-- The n bytes of a word in memory, the lowest first.
unfoldable pub little : ℕ → ℕ → List ℕ
little zero v = []
little (suc n) v = v % 256 ∷ little n (v / 256)

unfoldable pub of_little : List ℕ → ℕ
of_little [] = 0
of_little (b ∷ bs) = b + 256 * of_little bs

-- The casts between `int64_t` and `uint64_t`.
unfoldable pub to_u64 : ℤ → ℕ
to_u64 (ℤ.pos n) = n % 2 ^ 64
to_u64 (ℤ.negsuc n) = 2 ^ 64 - 1 - n % 2 ^ 64

unfoldable pub to_i64 : ℕ → ℤ
to_i64 v = if ltb v (2 ^ 63) then pos v else negsuc (2 ^ 64 - 1 - v)

abbrev pub put_u64 : ℕ → List ℕ
put_u64 v = little 8 v

abbrev pub put_i64 : ℤ → List ℕ
put_i64 z = little 8 (to_u64 z)

-- The underlying values of the enumerations.
unfoldable pub type_code : EventType → ℕ
type_code quote = 0
type_code trade = 1
type_code book_delete = 2
type_code snapshot = 3
type_code heartbeat = 4
type_code (unnamed n) = n

unfoldable pub type_of_code : ℕ → EventType
type_of_code n =
    if n == 0
    then quote
    else (if n == 1
        then trade
        else (if n == 2
            then book_delete
            else (if n == 3 then snapshot else (if n == 4 then heartbeat else unnamed n))))

unfoldable pub side_code : Side → ℕ
side_code buy = 0
side_code sell = 1

-- The code tests for Buy only, so a byte that is neither 0 nor 1 counts as Sell here; it would be
-- written again as 1.
unfoldable pub side_of_code : ℕ → Side
side_of_code n = if n == 0 then buy else sell

abbrev pub clipped : ℕ → ℕ
clipped n = if ltb max_len n then max_len else n

-- The length byte, and the fifteen bytes of the symbol.
unfoldable pub put_symbol : List ℕ → List ℕ
put_symbol text = let len = clipped (length text) in len ∷ (take len text ++ zeros (max_len - len))

unfoldable pub write_event : MarketEvent → List ℕ
unfolding little to_u64 put_symbol type_code side_code
write_event ev =
    put_u64 (to_u64 ev.timestamp)
    ++ (put_u64 ev.sequence
        ++ (put_symbol (view ev.symbol)
            ++ ((type_code ev.type ∷ [])
                ++ (put_i64 ev.price.ticks ++ (put_i64 ev.quantity ++ (side_code ev.side ∷ []))))))

-- Reading: what was read, and the rest of the stream.
abbrev pub Reader : Type 0 → Type 0
Reader A = List ℕ → Option (A × List ℕ)

infixl 5 ◌>>=◌
unfoldable pub ◌>>=◌ : {A B : Type 0} → Reader A → (A → Reader B) → Reader B
◌>>=◌ m f bs = elim (m bs) [ none ↦ none | some (a, rest) ↦ f a rest ]

abbrev pub done : {A : Type 0} → A → Reader A
done a bs = some (a, bs)

unfoldable pub get_bytes : ℕ → Reader (List ℕ)
get_bytes zero bs = some ([], bs)
get_bytes (suc n) [] = none
get_bytes (suc n) (b ∷ bs) = elim (get_bytes n bs) [
  | none ↦ none
  | some (xs, rest) ↦ some (b ∷ xs, rest)
]

unfoldable pub get_u8 : Reader ℕ
get_u8 [] = none
get_u8 (b ∷ bs) = some (b, bs)

unfoldable pub get_u64 : Reader ℕ
unfolding get_bytes of_little ◌>>=◌
get_u64 = get_bytes 8 >>= λ bs. done (of_little bs)

unfoldable pub get_i64 : Reader ℤ
unfolding get_u64 to_i64 ◌>>=◌
get_i64 = get_u64 >>= λ v. done (to_i64 v)

unfoldable pub read_event : Reader MarketEvent
unfolding ◌>>=◌ get_u8 get_u64 get_i64 type_of_code side_of_code
read_event = do
  ts_ns ← get_u64
  seq ← get_u64
  len ← get_u8
  padded ← get_bytes 15
  type_raw ← get_u8
  price_ticks ← get_i64
  qty ← get_i64
  side_raw ← get_u8
  done (record {
    timestamp = to_i64 ts_ns;
    sequence = seq;
    symbol = symbol_of (take len padded);
    type = type_of_code type_raw;
    price = from_ticks price_ticks;
    quantity = qty;
    side = side_of_code side_raw;
  })

-- "LOBEVT01"
abbrev pub magic : List ℕ
magic = 76 ∷ 79 ∷ 66 ∷ 69 ∷ 86 ∷ 84 ∷ 48 ∷ 49 ∷ []

unfoldable pub write_events : List MarketEvent → List ℕ
unfolding write_event
write_events [] = []
write_events (ev ∷ evs) = write_event ev ++ write_events evs

-- The contents of the file.
unfoldable pub write_file : List MarketEvent → List ℕ
unfolding write_events
write_file evs = magic ++ write_events evs

-- `while (auto ev = read_event(ifs))`. The first argument is fuel: the number of events is enough.
unfoldable pub read_events : ℕ → List ℕ → List MarketEvent
unfolding read_event
read_events zero bs = []
read_events (suc f) bs = elim (read_event bs) [
  | none ↦ []
  | some (ev, rest) ↦ ev ∷ read_events f rest
]

-- Whether the magic was there, and the rest of the stream.
unfoldable pub read_and_check_magic : Reader Bool
unfolding ◌>>=◌ get_bytes
read_and_check_magic = get_bytes 8 >>= λ buf. done (same_text buf magic)

-- The events of a file; `none` is the exception for a missing or wrong magic. Every event takes more
-- than one byte, so the length of the file is enough fuel.
unfoldable pub read_file : List ℕ → Option (List MarketEvent)
unfolding read_and_check_magic read_events
read_file bs = elim (read_and_check_magic bs) [
  | none ↦ none
  | some (ok, rest) ↦ if ok then some (read_events (length rest) rest) else none
]
