-- ===== src/CliArgs/Render.antt =====
-- Settings written out as arguments, and what the parser makes of them.
use lob_market_maker.Prelude.{
  ◌≡◌, refl, ap, ◌∙◌, true, false, Option, none, some, List, [], ◌∷◌, ◌++◌, if◌then◌else◌, All,
  head?, arith,
}
use lob_market_maker.Types.{same_text}
use lob_market_maker.CliArgs.{
  Text, CliArgs, is_flag, split_at_eq, set_flag, assign, parse, lookup, get,
}

-- `--key=value`, `--key value` and `--key`.
pub data Setting : Type 0 where
  joined : (key value : Text) → Setting
  spaced : (key value : Text) → Setting
  flag : (key : Text) → Setting

abbrev dashed : Text → Text
dashed key = 45 ∷ 45 ∷ key

unfoldable pub render : List Setting → List Text
render [] = []
render (joined key value ∷ xs) = dashed (key ++ (61 ∷ value)) ∷ render xs
render (spaced key value ∷ xs) = dashed key ∷ value ∷ render xs
render (flag key ∷ xs) = dashed key ∷ render xs

-- A key has no `=` in it, and a value that stands alone does not look like a flag.
abbrev pub IsWritable : Setting → Type 0
IsWritable (joined key value) = split_at_eq key ≡ none
IsWritable (spaced key value) = (split_at_eq key ≡ none) × (is_flag value ≡ false)
IsWritable (flag key) = split_at_eq key ≡ none

abbrev key_of : Setting → Text
key_of (joined key value) = key
key_of (spaced key value) = key
key_of (flag key) = key

abbrev value_of : Setting → Text
value_of (joined key value) = value
value_of (spaced key value) = value
value_of (flag key) = set_flag

-- The value of the last setting that has the key.
unfoldable pub last_value : Text → List Setting → Option Text
last_value key [] = none
last_value key (x ∷ xs) =
    let later = last_value key xs in
    elim later [
      | some v ↦ some v
      | none ↦ if same_text (key_of x) key then some (value_of x) else none
    ]

assigned : List Setting → CliArgs → CliArgs
assigned [] values = values
assigned (x ∷ xs) values = assigned xs ((key_of x, value_of x) ∷ values)

split_at_eq-joined :
    (key value : Text)
    → split_at_eq key ≡ none
    → split_at_eq (key ++ (61 ∷ value)) ≡ some (key, value)
unfolding split_at_eq
split_at_eq-joined [] value h = refl
split_at_eq-joined (c ∷ key) value h = ground (arith, split_at_eq-joined key value)

-- One flag, which takes the argument after it or not.
parse-settled :
    (arg : Text) (rest : List Text) (values values' : CliArgs)
    → assign arg (head? rest) values ≡ (values', false)
    → parse (dashed arg ∷ rest) values ≡ parse rest values'
unfolding parse
parse-settled arg [] values values' h = ap (λ r. r.0) h
parse-settled arg (next ∷ rest) values values' h =
    ap (λ r. if r.1 then parse rest r.0 else parse (next ∷ rest) r.0) h

parse-taken :
    (arg next : Text) (rest : List Text) (values values' : CliArgs)
    → assign arg (some next) values ≡ (values', true)
    → parse (dashed arg ∷ next ∷ rest) values ≡ parse rest values'
unfolding parse
parse-taken arg next rest values values' h =
    ap (λ r. if r.1 then parse rest r.0 else parse (next ∷ rest) r.0) h

-- What stands before any setting written out is a flag or nothing.
assign-flag :
    (xs : List Setting) (key : Text) (values : CliArgs)
    → split_at_eq key ≡ none
    → assign key (head? (render xs)) values ≡ ((key, set_flag) ∷ values, false)
unfolding assign render
assign-flag [] key values h = rw (h, assign) refl
assign-flag (joined k v ∷ xs) key values h = rw (h, assign) refl
assign-flag (spaced k v ∷ xs) key values h = rw (h, assign) refl
assign-flag (flag k ∷ xs) key values h = rw (h, assign) refl

assign-joined :
    (key value : Text) (next : Option Text) (values : CliArgs)
    → split_at_eq key ≡ none
    → assign (key ++ (61 ∷ value)) next values ≡ ((key, value) ∷ values, false)
unfolding assign
assign-joined key value next values h = rw (split_at_eq-joined key value h, assign) refl

assign-spaced :
    (key value : Text) (values : CliArgs)
    → split_at_eq key ≡ none
    → is_flag value ≡ false
    → assign key (some value) values ≡ ((key, value) ∷ values, true)
unfolding assign
assign-spaced key value values h alone = rw (h, alone, assign) refl

parse-assigned :
    (xs : List Setting) (values : CliArgs)
    → All IsWritable xs
    → parse (render xs) values ≡ assigned xs values
unfolding render assigned parse
parse-assigned [] values h = refl
parse-assigned (joined key value ∷ xs) values h =
    parse-settled (key ++ (61 ∷ value)) (render xs) values ((key, value) ∷ values)
      (assign-joined key value (head? (render xs)) values h.0)
    ∙ parse-assigned xs ((key, value) ∷ values) h.1
parse-assigned (spaced key value ∷ xs) values h =
    parse-taken key value (render xs) values ((key, value) ∷ values)
      (assign-spaced key value values h.0.0 h.0.1)
    ∙ parse-assigned xs ((key, value) ∷ values) h.1
parse-assigned (flag key ∷ xs) values h =
    parse-settled key (render xs) values ((key, set_flag) ∷ values) (assign-flag xs key values h.0)
    ∙ parse-assigned xs ((key, set_flag) ∷ values) h.1

abbrev or_else : Option Text → Option Text → Option Text
or_else (some v) w = some v
or_else none w = w

or_else-none : (v : Option Text) → or_else v none ≡ v
or_else-none v = ground arith

lookup-assigned :
    (key : Text) (xs : List Setting) (values : CliArgs)
    → lookup key (assigned xs values) ≡ or_else (last_value key xs) (lookup key values)
unfolding assigned last_value lookup
lookup-assigned key [] values = refl
lookup-assigned key (x ∷ xs) values =
    lookup-assigned key xs ((key_of x, value_of x) ∷ values) ∙ ground arith

-- If no key contains `=` and no value that stands alone starts with two dashes, the parser gives for
-- every key the value of the last setting with that key, `true` for a setting without a value, and
-- nothing if there is no such setting.
pub get-parse :
    (xs : List Setting) (key : Text)
    → All IsWritable xs
    → get (parse (render xs) []) key ≡ last_value key xs
unfolding get lookup
get-parse xs key h =
    ap (lookup key) (parse-assigned xs [] h)
    ∙ lookup-assigned key xs []
    ∙ or_else-none (last_value key xs)
