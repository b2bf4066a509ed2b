-- ===== src/CliArgs.antt =====
-- src/common/cli_args.hpp: the parser of `--flag value` and `--flag=value`. A string is the list of
-- its characters' codes.
pub mod Render
use lob_market_maker.Prelude.{
  ℕ, Bool, true, false, ◌&&◌, Option, none, some, List, [], ◌∷◌, ◌==◌, is_some, if◌then◌else◌,
}
use lob_market_maker.Types.{same_text}

abbrev pub Text : Type 0
Text = List ℕ

-- `rfind("--", 0) == 0`: the string starts with two dashes.
abbrev pub is_flag : Text → Bool
is_flag (a ∷ b ∷ text) = (a == 45) && (b == 45)
is_flag text = false

-- `substr(2)`.
abbrev pub without_dashes : Text → Text
without_dashes (a ∷ b ∷ text) = text
without_dashes text = []

-- What stands before and after the first `=`.
unfoldable pub split_at_eq : Text → Option (Text × Text)
split_at_eq [] = none
split_at_eq (c ∷ text) =
    let rest = split_at_eq text in
    if c == 61 then some ([], text) else elim rest [ none ↦ none | some kv ↦ some (c ∷ kv.0, kv.1) ]

-- `values_`, the latest assignment first.
abbrev pub CliArgs : Type 0
CliArgs = List (Text × Text)

-- "true"
abbrev pub set_flag : Text
set_flag = 116 ∷ 114 ∷ 117 ∷ 101 ∷ []

unfoldable pub lookup : Text → CliArgs → Option Text
lookup key [] = none
lookup key ((k, v) ∷ values) = if same_text k key then some v else lookup key values

-- What `--arg` does to the values, with the argument after it, and whether it takes that argument.
unfoldable pub assign : Text → Option Text → CliArgs → CliArgs × Bool
unfolding split_at_eq
assign arg next values = elim (split_at_eq arg) [
  | some (k, v) ↦ ((k, v) ∷ values, false)
  | none ↦ elim next [
    | some v ↦ if is_flag v then ((arg, set_flag) ∷ values, false) else ((arg, v) ∷ values, true)
    | none ↦ ((arg, set_flag) ∷ values, false)
  ]
]

-- The loop over the arguments after the program's name.
unfoldable pub parse : List Text → CliArgs → CliArgs
unfolding assign
parse [] values = values
parse (arg ∷ []) values =
    if is_flag arg then (assign (without_dashes arg) none values).0 else values
parse (arg ∷ next ∷ rest) values =
    let skip = parse (next ∷ rest) values in
    let (values', taken) = assign (without_dashes arg) (some next) values in
    let after_next = parse rest values' in
    let after_arg = parse (next ∷ rest) values' in
    if is_flag arg then (if taken then after_next else after_arg) else skip

unfoldable pub get : CliArgs → Text → Option Text
unfolding lookup
get args key = lookup key args

unfoldable pub get_or : CliArgs → Text → Text → Text
unfolding get
get_or args key default_value = elim (get args key) [ none ↦ default_value | some v ↦ v ]

abbrev pub has : CliArgs → Text → Bool
has args key = is_some (get args key)

-- `get_double_or` and `get_long_or`, for `std::stod` or `std::stol`, which may throw.
unfoldable pub get_number_or {ℓ} : {N : Type ℓ} → (Text → Option N) → CliArgs → Text → N → Option N
unfolding get
get_number_or convert args key default_value = elim (get args key) [
  | none ↦ some default_value
  | some v ↦ convert v
]
