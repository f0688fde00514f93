-- ===== src/Eclipse/Deck/Numbers.antt =====
-- The numbers of a text deck: ParseInt to ExpandIntToken of OmniSciGrdeclFileFormat.cpp.
use cae_openusd_plugins.Prelude.{
  ℕ, ◌^◌, Option, none, some, List, [], ◌∷◌, Bytes, map, replicate, ltb, ◌==◌, if◌then◌else◌,
}
use cae_openusd_plugins.Prelude.Decimal.{all_digits, digits_value, negate, in_range}
use cae_openusd_plugins.Prelude.Int.{ℤ, pos}
use cae_openusd_plugins.Prelude.Result.{Result, ok, ◌>>=◌, require}

-- The exceptions of the reader, each for its message; `overflow` stands for an overflow of an int,
-- and `out_of_fuel` for a model that stops before the code does.
pub data DeckError : Type 0 where
  expected_value expected_count expected_repeated : DeckError
  bad_dimensions nonpositive_dimensions : DeckError
  too_deep cannot_open not_resolved no_dimensions no_coord no_zcorn : DeckError
  unexpected_count keyword_not_found overflow out_of_fuel : DeckError

-- The number that a text consists of, without a sign.
unfoldable pub unsigned_number : Bytes → Option ℕ
unsigned_number [] = none
unsigned_number (c ∷ text) =
    if all_digits (c ∷ text) then some (digits_value 0 (c ∷ text)) else none

abbrev pub int_within : (ℕ → ℤ) → Option ℕ → Option ℤ
int_within sign none = none
int_within sign (some n) = if in_range 32 (sign n) then some (sign n) else none

abbrev pub size_within : Option ℕ → Option ℕ
size_within none = none
size_within (some n) = if ltb n (2 ^ 64) then some n else none

-- `ParseInt`: std::from_chars takes a minus, and neither spaces nor a plus.
unfoldable pub parse_int : Bytes → Option ℤ
parse_int [] = none
parse_int (c ∷ text) =
    if c == b'-'
    then int_within negate (unsigned_number text)
    else int_within pos (unsigned_number (c ∷ text))

-- `ParseSize`
unfoldable pub parse_size : Bytes → Option ℕ
parse_size text = size_within (unsigned_number text)

abbrev d_to_e : ℕ → ℕ
d_to_e c = if c == b'D' then b'E' else if c == b'd' then b'e' else c

-- `ParseDouble`, where `strtod` gives the number that the whole of a text stands for.
unfoldable pub parse_double {ℓ} : {D : Type ℓ} → (Bytes → Option D) → Bytes → Option D
parse_double strtod text = strtod (map d_to_e text)

-- The text in front of the first star, and that behind it.
unfoldable pub split_star : Bytes → Option (Bytes × Bytes)
split_star [] = none
split_star (c ∷ text) =
    let later = split_star text in
    if c == b'*'
    then some ([], text)
    else elim later [ none ↦ none | some (count, payload) ↦ some (c ∷ count, payload) ]

module _ {V : Type 0} (default : V) (parse : Bytes → Option V) where
  abbrev pub repeated_value : Bytes → Result DeckError V
  repeated_value [] = ok default
  repeated_value (c ∷ payload) = require (parse (c ∷ payload)) DeckError.expected_repeated

  abbrev pub expand_split : Bytes → Option (Bytes × Bytes) → Result DeckError (List V)
  expand_split token none = do value ← require (parse token) expected_value; ok (value ∷ [])
  expand_split token (some (count, payload)) = do
    copies ← require (parse_size count) expected_count
    value ← repeated_value payload
    ok (replicate copies value)

  -- `ExpandDoubleToken` and `ExpandIntToken`: the values that a token adds.
  unfoldable pub expand_token : Bytes → Result DeckError (List V)
  expand_token token = expand_split token (split_star token)

abbrev pub expand_int_token : Bytes → Result DeckError (List ℤ)
expand_int_token = expand_token (pos 0) parse_int

abbrev pub expand_double_token :
    {D : Type 0} → D → (Bytes → Option D) → Bytes → Result DeckError (List D)
expand_double_token double_zero strtod = expand_token double_zero (parse_double strtod)
