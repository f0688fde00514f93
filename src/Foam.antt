-- ===== src/Foam.antt =====
-- The tokens of an OpenFOAM file and its header: SkipWsAndComments to ParseHeaderInfo of
-- source/file_formats/openfoam/src/OmniSciOpenFoamFileFormat.cpp. The stream is the bytes that it has
-- left; a stream that has failed has none.
pub mod Boundary
pub mod Ends
pub mod Print
mod Tests
use Prim.Native.String.{String}
use cae_openusd_plugins.Prelude.{
  ℕ, zero, suc, Bool, true, false, not, ◌||◌, ◌&&◌, Option, none, some, List, [], ◌∷◌, Bytes,
  length, same, ◌==◌, if◌then◌else◌,
}
use cae_openusd_plugins.Prelude.Chars.{codes, is_space}
use cae_openusd_plugins.Prelude.Decimal.{parse_integer, in_range}
use cae_openusd_plugins.Prelude.Int.{ℤ, pos}
use cae_openusd_plugins.Prelude.Result.{Result, ok, err, ◌>>=◌, ◌>>◌, guard, require}

-- The exceptions, each for its message, those of std::stoi and of `reserve`; `overflow` stands for
-- an overflow of an int, and `out_of_fuel` for a model that stops before the code does.
pub data FoamError : Type 0 where
  unexpected_token expected_integer invalid_argument out_of_range : FoamError
  missing_format missing_arch unsupported_format cannot_open unexpected_eof : FoamError
  length_error overflow out_of_fuel : FoamError

-- Where `SkipWsAndComments` is: the second byte of a delimiter of a block comment is taken with the
-- first one.
pub data Within : Type 0 where
  blanks line_comment block_begin block_comment block_end : Within

abbrev begins : ℕ → Bytes → Bool
begins b [] = false
begins b (c ∷ text) = c == b

abbrev pub is_nil : Bytes → Bool
is_nil [] = true
is_nil (c ∷ text) = false

abbrev pub at_comment : ℕ → Bytes → Bool
at_comment c text = c == b'/' && (begins b'/' text || begins b'*' text)

abbrev pub within_after : Within → ℕ → Bytes → Within
within_after blanks c text =
    if c == b'/' && begins b'/' text
    then line_comment
    else if c == b'/' && begins b'*' text
    then block_begin
    else blanks
within_after line_comment c text = if c == 10 || c == 13 then blanks else line_comment
within_after block_begin c text = block_comment
within_after block_comment c text =
    if c == b'*' && begins b'/' text then block_end else block_comment
within_after block_end c text = blanks

-- A slash that is the last byte is lost: the second `peek` at the end sets failbit.
abbrev pub is_last_slash : ℕ → Bytes → Bool
is_last_slash c text = c == b'/' && is_nil text

abbrev pub is_blank : Within → ℕ → Bytes → Bool
is_blank blanks c text = at_comment c text || is_space c || is_last_slash c text
is_blank _ c text = true

-- `SkipWsAndComments`
unfoldable pub skip_ws_and_comments : Within → Bytes → Bytes
skip_ws_and_comments within [] = []
skip_ws_and_comments within (c ∷ text) =
    let later = skip_ws_and_comments (within_after within c text) text in
    if is_blank within c text then later else c ∷ text

abbrev pub is_punctuation : ℕ → Bool
is_punctuation c = c == b'{' || c == b'}' || c == b'(' || c == b')' || c == b';'

-- The text up to a quote, and what follows the quote.
unfoldable pub take_quoted : ℕ → Bytes → Bytes × Bytes
take_quoted quote [] = ([], [])
take_quoted quote (c ∷ text) =
    let (later, rest) = take_quoted quote text in
    if c == quote then ([], text) else (c ∷ later, rest)

-- The rest of a word, and what follows it.
unfoldable pub take_word : Bytes → Bytes × Bytes
take_word [] = ([], [])
take_word (c ∷ text) =
    let (later, rest) = take_word text in
    if is_space c || is_punctuation c || at_comment c text
    then ([], c ∷ text)
    else (c ∷ later, rest)

abbrev before_word : ℕ → Bytes × Bytes → Bytes × Bytes
before_word c (word, rest) = (c ∷ word, rest)

unfoldable pub token_of : Bytes → Bytes × Bytes
token_of [] = ([], [])
token_of (c ∷ text) =
    if c == 34 || c == 39
    then take_quoted c text
    else if is_punctuation c
    then (c ∷ [], text)
    else before_word c (take_word text)

-- `ReadToken`: the token, empty at the end of the stream, and the text behind it.
unfoldable pub read_token : Bytes → Bytes × Bytes
read_token text = token_of (skip_ws_and_comments blanks text)

abbrev pub is_named : Bytes → String → Bool
is_named token name = same token (codes name)

-- `ExpectToken`
unfoldable pub expect_token : String → Bytes → Result FoamError Bytes
expect_token expected text = do
  let (token, rest) = read_token text
  guard (is_named token expected) unexpected_token
  ok rest

-- `std::stoi`
unfoldable pub stoi : Bytes → Result FoamError ℤ
stoi text = do
  n ← require (parse_integer text) invalid_argument
  guard (in_range 32 n) out_of_range
  ok n

-- `ReadIntToken`
unfoldable pub read_int_token : Bytes → Result FoamError (ℤ × Bytes)
read_int_token text = do
  let (token, rest) = read_token text
  guard (not (is_nil token)) expected_integer
  n ← stoi token
  ok (n, rest)

-- A map of strings, and the entry of a key.
abbrev pub StringMap : Type 0
StringMap = List (Bytes × Bytes)

unfoldable pub set_entry : Bytes → Bytes → StringMap → StringMap
set_entry key value [] = (key, value) ∷ []
set_entry key value ((k, v) ∷ entries) =
    let later = set_entry key value entries in
    if same k key then (k, value) ∷ entries else (k, v) ∷ later

unfoldable pub find_entry : Bytes → StringMap → Option Bytes
find_entry key [] = none
find_entry key ((k, v) ∷ entries) =
    let later = find_entry key entries in if same k key then some v else later

-- The loop of `ReadHeader`. An entry takes a byte or more.
unfoldable pub read_entries : ℕ → StringMap → Bytes → Result FoamError (StringMap × Bytes)
read_entries zero header text = err out_of_fuel
read_entries (suc fuel) header text =
    let (key, behind_key) = read_token text in
    let (value, behind_value) = read_token behind_key in
    if is_nil key || is_named key "}"
    then ok (header, behind_key)
    else (expect_token ";" behind_value >>= λ rest.
        read_entries fuel (set_entry key value header) rest)

-- `ReadHeader`
unfoldable pub read_header : Bytes → Result FoamError (StringMap × Bytes)
read_header text = do
  behind_name ← expect_token "FoamFile" text
  behind_brace ← expect_token "{" behind_name
  read_entries (suc (length behind_brace)) [] behind_brace

pub record FoamHeaderInfo : Type 0 where
  pub entries : StringMap
  pub binary : Bool
  pub little_endian : Bool
  pub label_bits : ℤ
  pub scalar_bits : ℤ
  pub foam_class : Bytes

-- The text behind the first place of a name in a text.
unfoldable pub after_prefix : Bytes → Bytes → Option Bytes
after_prefix [] text = some text
after_prefix (p ∷ name) [] = none
after_prefix (p ∷ name) (c ∷ text) =
    let later = after_prefix name text in if p == c then later else none

unfoldable pub text_after : Bytes → Bytes → Option Bytes
text_after name [] = after_prefix name []
text_after name (c ∷ text) =
    let later = text_after name text in
    elim (after_prefix name (c ∷ text)) [ none ↦ later | some rest ↦ some rest ]

abbrev is_found : Option Bytes → Bool
is_found none = false
is_found (some rest) = true

unfoldable pub remove_spaces : Bytes → Bytes
remove_spaces [] = []
remove_spaces (c ∷ text) = let later = remove_spaces text in if is_space c then later else c ∷ later

-- The bits behind a name, or the default.
abbrev bits_after : Option Bytes → Result FoamError ℤ
bits_after none = ok (pos 32)
bits_after (some rest) = stoi rest

abbrev entry_or_empty : Option Bytes → Bytes
entry_or_empty none = []
entry_or_empty (some value) = value

-- The rest of a header, by its format.
unfoldable pub read_format : FoamHeaderInfo → Bytes → Result FoamError FoamHeaderInfo
read_format info format =
    if is_named format "binary"
    then (require (find_entry (codes "arch") info.entries) missing_arch >>= λ arch_entry.
        bits_after (text_after (codes "label=") (remove_spaces arch_entry)) >>= λ label_bits.
        bits_after (text_after (codes "scalar=") (remove_spaces arch_entry)) >>= λ scalar_bits.
        ok (record info {
          binary = true;
          little_endian = is_found (text_after (codes "LSB") (remove_spaces arch_entry));
          label_bits = label_bits;
          scalar_bits = scalar_bits;
        }))
    else if is_named format "ascii"
    then ok info
    else err unsupported_format

-- `ParseHeaderInfo`
unfoldable pub parse_header_info : StringMap → Result FoamError FoamHeaderInfo
parse_header_info header = do
  let info : FoamHeaderInfo = record {
    entries = header;
    binary = false;
    little_endian = true;
    label_bits = pos 32;
    scalar_bits = pos 32;
    foam_class = entry_or_empty (find_entry (codes "class") header);
  }
  format ← require (find_entry (codes "format") header) missing_format
  read_format info format
