-- ===== src/Finnhub/Messages.antt =====
-- What a message of the feed says, apart from the parser: which ticks are trades, what a list of ticks
-- amounts to, and when a document is a trade message, another message or malformed.
use lob_market_maker.Prelude.{
  ℕ, suc, zero, ◌%◌, ◌^◌, ◌≡◌, ◌≢◌, Bool, true, Option, none, some, List, [], ◌∷◌, pos,
}
use lob_market_maker.Double.{Double}
use lob_market_maker.TradeTape.{FinnhubTrade}
use lob_market_maker.Finnhub.{
  Json, trades_message, ignored, malformed, FinnhubParseResult, key_type, key_data, trade_text,
}

module _ {J F : Type 0} ⦃d : Double F⦄ (json : Json J F) where
  open d use {of_int, lt}

  -- The member of an object under a key of one letter, of the right kind.
  pub record HasMember (tick : J) (key : ℕ) (test : J → Bool) : Type 0 where
    pub member_value : J
    pub found : json.find tick (key ∷ []) ≡ some member_value
    pub kind : test member_value ≡ true

  -- The tick is an object with a string "s", numbers "p" and "v" and an integer "t", its price is
  -- above 0, and the trade has these four values.
  pub record IsTrade (tick : J) (t : FinnhubTrade F) : Type 0 where
    pub object : json.is_object tick ≡ true
    pub s : HasMember tick 115 json.is_string
    pub p : HasMember tick 112 json.is_number
    pub v : HasMember tick 118 json.is_number
    pub time : HasMember tick 116 json.is_number_integer
    pub symbol_eq : t.symbol ≡ json.get_string s.member_value
    pub price_eq : t.price ≡ json.get_double p.member_value
    pub volume_eq : t.volume ≡ json.get_double v.member_value
    pub timestamp_eq : t.timestamp_ms ≡ json.get_int time.member_value
    pub positive : lt (of_int (pos 0)) t.price ≡ true

  -- The trades of some ticks in order, and how many of the ticks are none.
  pub data Amounts : List J → List (FinnhubTrade F) → ℕ → Type 0 where
    no_tick : Amounts [] [] zero
    good :
        {tick : J} {ticks : List J} {t : FinnhubTrade F} {ts : List (FinnhubTrade F)} {n : ℕ}
        → IsTrade tick t
        → Amounts ticks ts n
        → Amounts (tick ∷ ticks) (t ∷ ts) n
    bad :
        {tick : J} {ticks : List J} {ts : List (FinnhubTrade F)} {n : ℕ}
        → ((t : FinnhubTrade F) → IsTrade tick t → ⊥)
        → Amounts ticks ts n
        → Amounts (tick ∷ ticks) ts (suc n)

  -- The document is an object whose "type" is this string.
  pub record HasType (doc : J) (text : List ℕ) : Type 0 where
    pub object : json.is_object doc ≡ true
    pub type_value : J
    pub found : json.find doc key_type ≡ some type_value
    pub string : json.is_string type_value ≡ true
    pub text_eq : json.get_string type_value ≡ text

  -- Its "data" is this array.
  pub record HasData (doc data_value : J) : Type 0 where
    pub found : json.find doc key_data ≡ some data_value
    pub array : json.is_array data_value ≡ true

  -- What the result is, with its count in 64 bits, for a payload that the library reads as this document, or cannot read.
  pub data Means : Option J → FinnhubParseResult F → Type 0 where
    of_trades :
        {doc data_value : J} {ts : List (FinnhubTrade F)} {n : ℕ}
        → HasType doc trade_text
        → HasData doc data_value
        → Amounts (json.elements data_value) ts n
        → Means
            (some doc)
            (record { status = trades_message; trades = ts; malformed_ticks = n % 2 ^ 64 })
    of_other :
        {doc : J} {text : List ℕ}
        → HasType doc text
        → text ≢ trade_text
        → Means (some doc) (record { status = ignored; trades = []; malformed_ticks = 0 })
    of_unread : Means none (record { status = malformed; trades = []; malformed_ticks = 0 })
    of_untyped :
        {doc : J}
        → ((text : List ℕ) → HasType doc text → ⊥)
        → Means (some doc) (record { status = malformed; trades = []; malformed_ticks = 0 })
    of_no_data :
        {doc : J}
        → HasType doc trade_text
        → ((data_value : J) → HasData doc data_value → ⊥)
        → Means (some doc) (record { status = malformed; trades = []; malformed_ticks = 0 })
