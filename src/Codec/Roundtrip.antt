-- ===== src/Codec/Roundtrip.antt =====
-- What is written is read back.
use lob_market_maker.Prelude.{
  ℕ, zero, suc, ◌-◌, ◌<◌, ◌≤◌, ◌^◌, ◌≡◌, refl, sym, ap, ◌∙◌, some, List, [], ◌∷◌, ◌++◌, ℤ, length,
  take, ltb, arith, subst, if◌then◌else◌, length-append, inr, ◌⊎◌,
}
use lob_market_maker.Types.{Side, buy, sell, symbol_of, view, zeros, max_len, Symbol, from_ticks}
use lob_market_maker.Events.{EventType, MarketEvent}
use lob_market_maker.Codec.{
  write_event, read_event, put_symbol, type_code, type_of_code, side_code, side_of_code, get_bytes,
  get_u8, get_u64, get_i64, to_u64, to_i64, clipped,
}
use lob_market_maker.Codec.Words.{
  Reads, IsInt64, Reads-bind, Reads-map, get_bytes-Reads, get_u64-Reads, get_i64-Reads,
  get_u8-Reads, to_i64-to_u64, to_u64_bound,
}

-- A value without enumerator fits into its byte, and is no enumerator.
abbrev pub FitsByte : EventType → Type 0
FitsByte (EventType.unnamed n) = (4 < n) × (n < 256)
FitsByte t = Unit

type_of_code-type_code : (t : EventType) → FitsByte t → type_of_code (type_code t) ≡ t
unfolding type_of_code type_code
type_of_code-type_code EventType.quote fits = refl
type_of_code-type_code EventType.trade fits = refl
type_of_code-type_code EventType.book_delete fits = refl
type_of_code-type_code EventType.snapshot fits = refl
type_of_code-type_code EventType.heartbeat fits = refl
type_of_code-type_code (EventType.unnamed n) fits = ground arith

side_of_code-side_code : (s : Side) → side_of_code (side_code s) ≡ s
unfolding side_of_code side_code
side_of_code-side_code buy = refl
side_of_code-side_code sell = refl

length-zeros : (n : ℕ) → length (zeros n) ≡ n
length-zeros zero = refl
length-zeros (suc n) = rw (length-zeros n) (omega arith)

length-take : (n : ℕ) (xs : List ℕ) → n ≤ length xs → length (take n xs) ≡ n
length-take zero xs h = refl
length-take (suc n) [] h = absurd (omega (arith, h))
length-take (suc n) (x ∷ xs) h = rw (length-take n xs (omega (arith, h))) (omega arith)

take-take_append : (n : ℕ) (xs ys : List ℕ) → n ≤ length xs → take n (take n xs ++ ys) ≡ take n xs
take-take_append zero xs ys h = refl
take-take_append (suc n) [] ys h = absurd (omega (arith, h))
take-take_append (suc n) (x ∷ xs) ys h =
    ap (λ t. x ∷ t) (take-take_append n xs ys (omega (arith, h)))

clipped_bound : (n : ℕ) → (clipped n ≤ n) × (clipped n ≤ max_len)
clipped_bound n = ground arith

-- What can be logged: integers of 64 bits, a type of 8 bits, and a symbol made from some text.
pub record IsLoggable (ev : MarketEvent) : Type 0 where
  pub timestamp_fits : IsInt64 ev.timestamp
  pub sequence_fits : ev.sequence < 2 ^ 64
  pub price_fits : IsInt64 ev.price.ticks
  pub quantity_fits : IsInt64 ev.quantity
  pub type_fits : FitsByte ev.type
  pub text : List ℕ
  pub symbol_eq : ev.symbol ≡ symbol_of text

-- The length that the constructor of a symbol keeps.
abbrev IsKept : ℕ → List ℕ → Type 0
IsKept n text = (n ≤ length text) × (n ≤ max_len) × (max_len ≤ n ⊎ (length text ≤ n))

symbol_of-kept :
    (n : ℕ) (text : List ℕ)
    → IsKept n text
    → symbol_of text ≡ record { chars = take n text ++ zeros (max_len - n); len = n }
unfolding symbol_of
symbol_of-kept n text (a, b, c) =
    let e : (if ltb (length text) max_len then length text else max_len) ≡ n = ground arith in rw e

take_twice : (n : ℕ) (xs : List ℕ) → n ≤ length xs → take n (take n xs) ≡ take n xs
take_twice zero xs h = refl
take_twice (suc n) [] h = refl
take_twice (suc n) (x ∷ xs) h = ap (λ t. x ∷ t) (take_twice n xs (omega (arith, h)))

-- The kept part of a text makes the same symbol.
symbol_of-take : (n : ℕ) (text : List ℕ) → IsKept n text → symbol_of (take n text) ≡ symbol_of text
symbol_of-take n text (a, b, c) =
    let long = length-take n text a in
    symbol_of-kept n (take n text) (omega (arith, long), b, inr (omega (arith, long)))
    ∙ ap (λ (t : List ℕ). record { chars = t ++ zeros (max_len - n); len = n })
        (take_twice n text a)
    ∙ sym (symbol_of-kept n text (a, b, c))

clipped-IsKept : (text : List ℕ) → IsKept (clipped (length text)) text
clipped-IsKept text = ground arith

view-symbol_of : (n : ℕ) (text : List ℕ) → IsKept n text → view (symbol_of text) ≡ take n text
view-symbol_of n text k =
    ap view (symbol_of-kept n text k) ∙ take-take_append n text (zeros (max_len - n)) k.0

-- The symbol that reading makes of the bytes is the symbol that was written.
symbol_back :
    (symbol : Symbol) (text : List ℕ)
    → symbol ≡ symbol_of text
    → let t = view symbol in
      let n = clipped (length t) in symbol_of (take n (take n t ++ zeros (max_len - n))) ≡ symbol
symbol_back symbol text e =
    let t = view symbol in
    let n = clipped (length t) in
    let m = clipped (length text) in
    let kept = clipped-IsKept text in
    ap symbol_of (take-take_append n t (zeros (max_len - n)) (clipped-IsKept t).0)
    ∙ symbol_of-take n t (clipped-IsKept t)
    ∙ ap symbol_of (ap view e ∙ view-symbol_of m text kept)
    ∙ symbol_of-take m text kept
    ∙ sym e

abbrev padded : Symbol → List ℕ
padded symbol = let t = view symbol in let n = clipped (length t) in take n t ++ zeros (max_len - n)

length-padded : (symbol : Symbol) → length (padded symbol) ≡ 15
length-padded symbol =
    let t = view symbol in
    let n = clipped (length t) in
    let (a, b, _) = clipped-IsKept t in
    length-append (take n t) (zeros (max_len - n))
    ∙ omega (arith, length-take n t a, length-zeros (max_len - n))

-- The event that the reader builds.
abbrev built : ℕ → ℕ → ℕ → List ℕ → ℕ → ℤ → ℤ → ℕ → MarketEvent
built ts_ns seq len bytes type_raw price_ticks qty side_raw = record {
  timestamp = to_i64 ts_ns;
  sequence = seq;
  symbol = symbol_of (take len bytes);
  type = type_of_code type_raw;
  price = from_ticks price_ticks;
  quantity = qty;
  side = side_of_code side_raw;
}

built_back :
    (ev : MarketEvent)
    → IsLoggable ev
    → built
        (to_u64 ev.timestamp)
        ev.sequence
        (clipped (length (view ev.symbol)))
        (padded ev.symbol)
        (type_code ev.type)
        ev.price.ticks
        ev.quantity
        (side_code ev.side)
      ≡ ev
built_back ev v = rw (
  to_i64-to_u64 ev.timestamp v.timestamp_fits,
  symbol_back ev.symbol v.text v.symbol_eq,
  type_of_code-type_code ev.type v.type_fits,
  side_of_code-side_code ev.side,
)

Reads-built :
    (ev : MarketEvent)
    → IsLoggable ev
    → Reads read_event (write_event ev) (
        built
          (to_u64 ev.timestamp)
          ev.sequence
          (clipped (length (view ev.symbol)))
          (padded ev.symbol)
          (type_code ev.type)
          ev.price.ticks
          ev.quantity
          (side_code ev.side))
unfolding read_event write_event put_symbol
Reads-built ev v =
    Reads-bind get_u64 _ _ _ _ _ (get_u64-Reads (to_u64 ev.timestamp) (to_u64_bound ev.timestamp)) (
      Reads-bind get_u64 _ _ _ _ _ (get_u64-Reads ev.sequence v.sequence_fits) (
        Reads-bind get_u8 _ _ _ _ _ (get_u8-Reads (clipped (length (view ev.symbol)))) (
          Reads-bind (get_bytes 15) _ _ _ _ _
            (get_bytes-Reads 15 (padded ev.symbol) (length-padded ev.symbol))
            (Reads-bind get_u8 _ _ _ _ _ (get_u8-Reads (type_code ev.type)) (
              Reads-bind get_i64 _ _ _ _ _ (get_i64-Reads ev.price.ticks v.price_fits) (
                Reads-bind get_i64 _ _ _ _ _ (get_i64-Reads ev.quantity v.quantity_fits)
                  (Reads-map get_u8 _ _ _ (get_u8-Reads (side_code ev.side)))))))))

-- If the integers of an event are in the range of their 64-bit types, its type is an enumerator or
-- another value of a byte, and its symbol was made from
-- some text, then reading what was written for it gives it back and leaves the rest of the stream.
pub read_event-write_event :
    (ev : MarketEvent) (rest : List ℕ)
    → IsLoggable ev
    → read_event (write_event ev ++ rest) ≡ some (ev, rest)
unfolding Reads
read_event-write_event ev rest v =
    subst (Reads read_event (write_event ev)) (built_back ev v) (Reads-built ev v) rest
