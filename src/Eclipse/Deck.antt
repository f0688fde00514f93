-- ===== src/Eclipse/Deck.antt =====
-- The tokens of a text deck: DeckTokenizer of
-- source/file_formats/eclipse/src/OmniSciGrdeclFileFormat.cpp. Its input is the bytes that the stream
-- has left; a stream that has failed has none.
pub mod Numbers
pub mod Grid
pub mod Parse
pub mod Arrays
pub mod ActiveCells
pub mod Exhaust
pub mod Print
pub mod Repeat
pub mod Keyword
pub mod Sound
mod Tests
use cae_openusd_plugins.Prelude.{
  ℕ, zero, suc, Bool, true, false, not, ◌||◌, ◌&&◌, Option, none, some, List, [], ◌∷◌, Bytes,
  length, same, ◌==◌, if◌then◌else◌,
}
use cae_openusd_plugins.Prelude.Chars.{is_space, codes}

pub record Token : Type 0 where
  pub text : Bytes
  pub quoted : Bool

-- `DeckTokenizer`
pub record DeckTokenizer : Type 0 where
  pub input : Bytes
  pub skip_rest_of_line : Bool

abbrev pub is_line_end : ℕ → Bool
is_line_end c = c == 10 || c == 13

abbrev pub starts_dash : Bytes → Bool
starts_dash [] = false
starts_dash (c ∷ text) = c == b'-'

-- `c == '-' && _input.peek() == '-'`
abbrev pub at_comment : ℕ → Bytes → Bool
at_comment c text = c == b'-' && starts_dash text

-- The skipping of spaces and comments, `in_comment` within the loop to the end of a line. The
-- second dash of a comment is no line end, so that this loop may take it too.
unfoldable pub skip_blanks : Bool → Bytes → Bytes
skip_blanks in_comment [] = []
skip_blanks in_comment (c ∷ text) =
    let comment = if in_comment then not (is_line_end c) else at_comment c text in
    let later = skip_blanks comment text in
    if in_comment || is_space c || at_comment c text then later else c ∷ text

-- The text up to the quote, and what follows the quote.
unfoldable pub split_quoted : ℕ → Bytes → Bytes × Bytes
split_quoted quote [] = ([], [])
split_quoted quote (c ∷ text) =
    let (later, rest) = split_quoted quote text in
    if c == quote then ([], text) else (c ∷ later, rest)

-- The rest of a word, and what follows it: the space that ends it is taken, a comment and a slash
-- are not.
unfoldable pub split_word : Bytes → Bytes × Bytes
split_word [] = ([], [])
split_word (c ∷ text) =
    let (later, rest) = split_word text in
    if is_space c
    then ([], text)
    else if at_comment c text || c == b'/'
    then ([], c ∷ text)
    else (c ∷ later, rest)

abbrev pub is_quote : ℕ → Bool
is_quote c = c == 39 || c == 34

abbrev pub quoted_token : Bytes × Bytes → Token × DeckTokenizer
quoted_token (text, rest) =
    (record { text = text; quoted = true }, record { input = rest; skip_rest_of_line = false })

abbrev pub plain_token : ℕ → Bytes × Bytes → Token × DeckTokenizer
plain_token c (text, rest) =
    (record { text = c ∷ text; quoted = false }, record { input = rest; skip_rest_of_line = false })

abbrev pub slash : Token
slash = record { text = codes "/"; quoted = false }

-- The token at the front of a text without blanks there.
unfoldable pub first_token : Bytes → Option (Token × DeckTokenizer)
first_token [] = none
first_token (c ∷ text) = some (
    if c == b'/'
    then (slash, record { input = text; skip_rest_of_line = true })
    else if is_quote c
    then quoted_token (split_quoted c text)
    else plain_token c (split_word text))

-- `Next`: the rest of the line behind a slash is skipped as a comment is.
unfoldable pub next : DeckTokenizer → Option (Token × DeckTokenizer)
next tokenizer = first_token (skip_blanks tokenizer.skip_rest_of_line tokenizer.input)

-- The token that is given, and those of the tokenizer that it leaves.
abbrev pub tokens_with : (DeckTokenizer → List Token) → Option (Token × DeckTokenizer) → List Token
tokens_with rest none = []
tokens_with rest (some (token, later)) = token ∷ rest later

-- The tokens that `Next` gives until it returns false. Each takes a byte.
unfoldable pub tokens_from : ℕ → DeckTokenizer → List Token
tokens_from zero tokenizer = []
tokens_from (suc fuel) tokenizer = tokens_with (tokens_from fuel) (next tokenizer)

unfoldable pub tokens : DeckTokenizer → List Token
tokens tokenizer = tokens_from (suc (length tokenizer.input)) tokenizer

abbrev pub new_tokenizer : Bytes → DeckTokenizer
new_tokenizer content = record { input = content; skip_rest_of_line = false }

-- The loops below take a tokenizer as the tokens that it has still to give.
abbrev pub is_slash : Token → Bool
is_slash token = same token.text (codes "/")

-- `ReadRecordTokens`: the tokens up to a slash, and those behind it.
unfoldable pub read_record_tokens : List Token → List Token × List Token
read_record_tokens [] = ([], [])
read_record_tokens (token ∷ rest) =
    let (record_tokens, later) = read_record_tokens rest in
    if is_slash token then ([], rest) else (token ∷ record_tokens, later)

-- `SkipSingleRecord`
unfoldable pub skip_single_record : List Token → List Token
skip_single_record [] = []
skip_single_record (token ∷ rest) =
    let later = skip_single_record rest in if is_slash token then rest else later

-- `SkipSlashTerminatedBlock`, with `sawValueSinceSlash`
unfoldable pub skip_block_from : Bool → List Token → List Token
skip_block_from saw_value [] = []
skip_block_from saw_value (token ∷ rest) =
    let later = skip_block_from (not (is_slash token)) rest in
    if is_slash token && not saw_value then rest else later

abbrev pub skip_slash_terminated_block : List Token → List Token
skip_slash_terminated_block = skip_block_from false
