-- ===== src/Finnhub/Ticks.antt =====
-- What the parser makes of a message, whatever the message is.
use mathlib.Core.List.{append-nil, append_assoc}
use lob_market_maker.Prelude.{
  ℕ, suc, ◌+◌, ◌%◌, ◌^◌, ◌<◌, ◌≡◌, refl, sym, ap, ap₂, ◌∙◌, subst, Bool, true, Bool-cases, Option,
  Option-cases, none, some, List, [], ◌∷◌, ◌++◌, pos, length, length-append, arith, inl, inr, ◌⊎◌,
}
use lob_market_maker.Types.{same_text, same_text_self, eq_of_same_text}
use lob_market_maker.Double.{Double}
use lob_market_maker.TradeTape.{FinnhubTrade}
use lob_market_maker.Finnhub.{
  Json, trades_message, FinnhubParseResult, no_result, trade_text, key_type, key_data, member,
  trade_of_fields, trade_of_tick, add_tick, read_ticks, parse_data, parse_document, parse_parsed,
  parse_finnhub_message,
}
use lob_market_maker.Finnhub.Messages.{
  HasMember, IsTrade, Amounts, no_tick, good, bad, HasType, Means, of_trades, of_other, of_unread,
  of_untyped, of_no_data,
}

module _ {J F : Type 0} ⦃d : Double F⦄ (json : Json J F) where
  open d use {of_int, lt}

  member_cases :
      (tick : J) (key : ℕ) (test : J → Bool)
      → ((h : HasMember json tick key test) × (member json tick key test ≡ some h.member_value))
        ⊎ ((member json tick key test ≡ none) × (HasMember json tick key test → ⊥))
  member_cases tick key test = elim (Option-cases (json.find tick (key ∷ []))) [
    | inl e ↦ inr (rw (e, member) refl, λ h. absurd (cc (h.found, e)))
    | inr (v, e) ↦ elim (Bool-cases (test v)) [
      | inl t ↦ inl (record { member_value = v; found = e; kind = t }, rw (e, member, t) refl)
      | inr f ↦ inr (rw (e, member, f) refl, λ h. absurd (cc (h.found, h.kind, e, f)))
    ]
  ]

  -- A tick is turned into the trade that it is, or it is none.
  trade_of_tick_cases :
      (tick : J)
      → ((t : FinnhubTrade F) × (trade_of_tick json tick ≡ some t) × IsTrade json tick t)
        ⊎ ((trade_of_tick json tick ≡ none) × ((t : FinnhubTrade F) → IsTrade json tick t → ⊥))
  unfolding trade_of_tick trade_of_fields
  trade_of_tick_cases tick = elim (Bool-cases (json.is_object tick)) [
    | inr o ↦ inr (rw o refl, λ t h. absurd (cc (h.object, o)))
    | inl o ↦ elim (member_cases tick 115 json.is_string) [
      | inr (e, lacking) ↦ inr (rw (o, e) refl, λ t h. lacking h.s)
      | inl (s, es) ↦ elim (member_cases tick 112 json.is_number) [
        | inr (e, lacking) ↦ inr (rw (o, es, e) refl, λ t h. lacking h.p)
        | inl (p, ep) ↦ elim (member_cases tick 118 json.is_number) [
          | inr (e, lacking) ↦ inr (rw (o, es, ep, e) refl, λ t h. lacking h.v)
          | inl (v, ev) ↦ elim (member_cases tick 116 json.is_number_integer) [
            | inr (e, lacking) ↦ inr (rw (o, es, ep, ev, e) refl, λ t h. lacking h.time)
            | inl (u, eu) ↦
                elim (Bool-cases (lt (of_int (pos 0)) (json.get_double p.member_value))) [
                  | inr low ↦ inr (
                    rw (o, es, ep, ev, eu, low) refl,
                    λ t h. absurd (cc (h.p.found, p.found, h.price_eq, h.positive, low)),
                  )
                  | inl high ↦ inl (
                    _,
                    rw (o, es, ep, ev, eu, high) refl,
                    record {
                      object = o;
                      s = s;
                      p = p;
                      v = v;
                      time = u;
                      symbol_eq = refl;
                      price_eq = refl;
                      volume_eq = refl;
                      timestamp_eq = refl;
                      positive = high;
                    },
                  )
                ]
          ]
        ]
      ]
    ]
  ]

  -- What the loop adds to a result.
  abbrev added : FinnhubParseResult F → List (FinnhubTrade F) → ℕ → FinnhubParseResult F
  added r ts n = record {
    status = r.status;
    trades = r.trades ++ ts;
    malformed_ticks = (r.malformed_ticks + n) % 2 ^ 64;
  }

  added_bad :
      (r : FinnhubParseResult F) (ts : List (FinnhubTrade F)) (n : ℕ)
      → added (add_tick json none r) ts n ≡ added r ts (suc n)
  unfolding add_tick
  added_bad r ts n =
      ap (λ m. record { status = r.status; trades = r.trades ++ ts; malformed_ticks = m })
        (omega arith)

  added_good :
      (r : FinnhubParseResult F) (t : FinnhubTrade F) (ts : List (FinnhubTrade F)) (n : ℕ)
      → added (add_tick json (some t) r) ts n ≡ added r (t ∷ ts) n
  unfolding add_tick
  added_good r t ts n =
      ap
        (λ xs. record {
          status = r.status;
          trades = xs;
          malformed_ticks = (r.malformed_ticks + n) % 2 ^ 64;
        })
        (append_assoc r.trades (t ∷ []) ts)

  add_tick-small : (r : FinnhubParseResult F) → (add_tick json none r).malformed_ticks < 2 ^ 64
  unfolding add_tick
  add_tick-small r = omega arith

  read_ticks-Amounts :
      (ticks : List J) (r : FinnhubParseResult F)
      → r.malformed_ticks < 2 ^ 64
      → (ts : List (FinnhubTrade F)) × (n : ℕ) × Amounts json ticks ts n
        × (read_ticks json ticks r ≡ added r ts n)
  unfolding read_ticks
  read_ticks-Amounts [] r small = (
    [],
    0,
    no_tick,
    sym (
        ap₂ (λ ts m. record { status = r.status; trades = ts; malformed_ticks = m })
          (append-nil r.trades) (omega arith)),
  )
  read_ticks-Amounts (tick ∷ ticks) r small = elim (trade_of_tick_cases tick) [
    | inl (t, e, is_trade) ↦
        let (ts, n, amounts, same) = read_ticks-Amounts ticks (add_tick json (some t) r) small in
        (t ∷ ts, n, good is_trade amounts, rw e (same ∙ added_good r t ts n))
    | inr (e, none_there) ↦
        let (ts, n, amounts, same) =
          read_ticks-Amounts ticks (add_tick json none r) (add_tick-small r) in
        (ts, suc n, bad none_there amounts, rw e (same ∙ added_bad r ts n))
  ]

  added_fresh :
      (ts : List (FinnhubTrade F)) (n : ℕ)
      → added (record no_result { status = trades_message }) ts n
        ≡ record { status = trades_message; trades = ts; malformed_ticks = n % 2 ^ 64 }
  added_fresh ts n =
      ap (λ m. record { status = trades_message; trades = ts; malformed_ticks = m }) (omega arith)

  parse_data-Means :
      (doc : J)
      → HasType json doc trade_text
      → Means json (some doc) (parse_data json (json.find doc key_data))
  unfolding parse_data
  parse_data-Means doc typed = elim (Option-cases (json.find doc key_data)) [
    | inl e ↦ rw e (of_no_data typed λ v h. absurd (cc (h.found, e)))
    | inr (v, e) ↦ elim (Bool-cases (json.is_array v)) [
      | inr f ↦ rw (e, f) (of_no_data typed λ w h. absurd (cc (h.found, h.array, e, f)))
      | inl t ↦
          let (ts, n, amounts, same) =
            read_ticks-Amounts (json.elements v) (record no_result { status = trades_message })
              (omega arith) in
          rw (e, t, same ∙ added_fresh ts n)
            (of_trades typed (record { found = e; array = t }) amounts)
    ]
  ]

  parse_document-Means :
      (doc : J)
      → json.is_object doc ≡ true
      → Means json (some doc) (parse_document json doc (json.find doc key_type))
  unfolding parse_document
  parse_document-Means doc object = elim (Option-cases (json.find doc key_type)) [
    | inl e ↦ rw e (of_untyped λ text h. absurd (cc (h.found, e)))
    | inr (v, e) ↦ elim (Bool-cases (json.is_string v)) [
      | inr f ↦ rw (e, f) (of_untyped λ text h. absurd (cc (h.found, h.string, e, f)))
      | inl t ↦
          let typed : HasType json doc (json.get_string v) = record {
            object = object;
            type_value = v;
            found = e;
            string = t;
            text_eq = refl;
          } in
          elim (Bool-cases (same_text (json.get_string v) trade_text)) [
            | inl same ↦
                rw (e, t, same)
                  (parse_data-Means doc (
                    subst (HasType json doc) (eq_of_same_text (json.get_string v) trade_text same)
                      typed))
            | inr other ↦
                rw (e, t, other)
                  (of_other typed λ eq. absurd (cc (same_text_self trade_text, other, eq)))
          ]
    ]
  ]

  -- Whatever the payload and whatever the JSON library makes of it, the result of the parser is what
  -- the message says: for a trade message with an array of ticks, the trades that the ticks are, in
  -- order and with their symbols, prices, volumes and times, and how many of the ticks are none, in 64
  -- bits; for a message with another type, that it is ignored; and malformed for all else, with no
  -- trades.
  pub parse_finnhub_message-Means :
      (payload : List ℕ) → Means json (json.parse payload) (parse_finnhub_message json payload)
  unfolding parse_finnhub_message parse_parsed
  parse_finnhub_message-Means payload = elim (Option-cases (json.parse payload)) [
    | inl e ↦ rw e of_unread
    | inr (doc, e) ↦ elim (Bool-cases (json.is_object doc)) [
      | inr f ↦ rw (e, f) (of_untyped λ text h. absurd (cc (h.object, f)))
      | inl t ↦ rw (e, t) (parse_document-Means doc t)
    ]
  ]

  add_tick-counts :
      (o : Option (FinnhubTrade F)) (r : FinnhubParseResult F)
      → r.malformed_ticks + 1 < 2 ^ 64
      → length (add_tick json o r).trades + (add_tick json o r).malformed_ticks
        ≡ suc (length r.trades + r.malformed_ticks)
  unfolding add_tick
  add_tick-counts none r small = omega arith
  add_tick-counts (some t) r small = omega (arith, length-append r.trades (t ∷ []))

  -- Of fewer than 2 ^ 64 ticks each is either turned into a trade or counted as malformed.
  pub read_ticks-counts :
      (ticks : List J) (r : FinnhubParseResult F)
      → length r.trades + r.malformed_ticks + length ticks < 2 ^ 64
      → length (read_ticks json ticks r).trades + (read_ticks json ticks r).malformed_ticks
        ≡ length r.trades + r.malformed_ticks + length ticks
  unfolding read_ticks
  read_ticks-counts [] r small = omega arith
  read_ticks-counts (tick ∷ ticks) r small =
      let step = add_tick-counts (trade_of_tick json tick) r (omega arith) in
      omega (
        arith,
        step,
        read_ticks-counts ticks (add_tick json (trade_of_tick json tick) r) (omega (arith, step)),
      )
