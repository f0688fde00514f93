-- ===== src/Vtk/Scan.antt =====
-- Reading a legacy file from a stream: the functions at the top of LegacyParser.cpp, as actions on
-- the stream. A loop of `get` or `peek` is written over the bytes that the stream has left.
pub mod Position
pub mod Tokens
pub mod Keeps
use cae_openusd_plugins.Prelude.{
  ℕ, zero, suc, ◌+◌, ◌-◌, ◌*◌, ◌/◌, ◌%◌, ◌^◌, Bool, true, false, not, ◌||◌, ◌&&◌, Option, none,
  some, List, [], ◌∷◌, ◌++◌, Bytes, length, drop, reverse, ltb, leb, ◌==◌, if◌then◌else◌,
}
use cae_openusd_plugins.Prelude.Chars.{is_space, tolower}
use cae_openusd_plugins.Prelude.Decimal.{skip_spaces, parse_integer, in_range}
use cae_openusd_plugins.Prelude.Int.{ℤ, to_nat}
use cae_openusd_plugins.Prelude.Result.{Result, ok, err}
use cae_openusd_plugins.Codec.{read_loop}
use cae_openusd_plugins.Stream.{Stream, streamoff_max, read, tellg, seek_cur, seek_beg}
use cae_openusd_plugins.Vtk.Error.{
  Error, overflow, tell_failed, seek_failed, string_header, string_payload, invalid_argument,
  out_of_range, out_of_fuel,
}
use cae_openusd_plugins.Vtk.Action.{
  Action, pure, throw, lift, gets, act, modify, ensure, ◌>>=◌, ◌>>◌, repeat,
}
use cae_openusd_plugins.Vtk.Tokens.{to_lower_token, is_token}

-- The bytes that a stream has left, and a stream that has taken `n` of them.
abbrev pub unread : Stream → Bytes
unread s = drop s.pos s.content

abbrev pub is_bad : Stream → Bool
is_bad s = s.eof || s.fail

-- The bytes in front of the next space.
unfoldable pub word : Bytes → Bytes
word [] = []
word (c ∷ text) = let later = word text in if is_space c then [] else c ∷ later

-- `ReadToken`: the token takes with it the space behind it, or the state of a stream at its end.
unfoldable pub read_token : Stream → Bytes × Stream
read_token s =
    let text = unread s in
    let rest = skip_spaces text in
    let token = word rest in
    if is_bad s
    then ([], record s { fail = true })
    else if length token == length rest
    then (token, record s { pos = s.pos + length text; eof = true; fail = true })
    else (token, record s { pos = s.pos + (length text - length rest) + length token + 1 })

abbrev pub next_token : Action Stream Bytes
next_token = act read_token

-- `input.clear()` and `input.seekg(0, std::ios::end)`
abbrev pub at_end : Stream → Stream
at_end s = record s { pos = length s.content; eof = false; fail = false }

-- `CurrentOffset`
unfoldable pub current_offset : Action Stream ℕ
current_offset s =
    if not (is_bad s)
    then ok (s.pos, s)
    else if s.eof
    then ok (length s.content, at_end s)
    else err tell_failed

-- The line ends at the front of a text.
unfoldable pub line_ends : Bytes → ℕ
line_ends [] = 0
line_ends (c ∷ text) = let later = line_ends text in if c == 13 || c == 10 then suc later else 0

-- The loop of `ConsumeBinaryPreamble`; its last `peek` may meet the end.
unfoldable pub skip_line_ends : Stream → Stream
skip_line_ends s =
    let n = line_ends (unread s) in
    if is_bad s
    then record s { fail = true }
    else record s { pos = s.pos + n; eof = leb (length (unread s)) n }

-- `ConsumeBinaryPreamble`
unfoldable pub consume_preamble : Action Stream ℕ
consume_preamble = do modify skip_line_ends; current_offset

-- `SeekAbsolute`
unfoldable pub seek_absolute : ℕ → Action Stream (Unit {0})
seek_absolute offset = do
  ensure (not (ltb streamoff_max offset)) overflow
  modify (seek_beg offset)
  failed ← gets (λ s. s.fail)
  ensure (not failed) seek_failed

-- The bytes in front of the next line feed.
unfoldable pub line_of : Bytes → Bytes
line_of [] = []
line_of (c ∷ text) = let later = line_of text in if c == 10 then [] else c ∷ later

-- `std::getline`
unfoldable pub get_line : Stream → Bytes × Stream
get_line s =
    let text = unread s in
    let line = line_of text in
    if is_bad s
    then ([], record s { fail = true })
    else if length line == length text
    then (line, record s { pos = s.pos + length text; eof = true; fail = length text == 0 })
    else (line, record s { pos = s.pos + length line + 1 })

-- A carriage return at the end of a line is dropped.
unfoldable pub drop_return : Bytes → Bytes
drop_return [] = []
drop_return (c ∷ []) = if c == 13 then [] else c ∷ []
drop_return (c ∷ d ∷ line) = c ∷ drop_return (d ∷ line)

abbrev pub is_nil : Bytes → Bool
is_nil [] = true
is_nil (b ∷ bs) = false

-- The loop of `SkipOptionalMetadata`, up to an empty line or the end. Each line takes a byte, so
-- that the bytes left are fuel enough.
unfoldable pub skip_lines : ℕ → Stream → Stream
skip_lines zero s = s
skip_lines (suc fuel) s =
    let (line, s') = get_line s in
    let later = skip_lines fuel s' in
    if s'.fail then s' else if is_nil (drop_return line) then s' else later

-- `input.clear()` and `input.seekg(pos)`, where `none` is -1.
unfoldable pub seek_back : Option ℕ → Stream → Stream
seek_back none s = record s { eof = false; fail = true }
seek_back (some p) s = record s { pos = p; eof = false; fail = false }

-- `SkipOptionalMetadata`
unfoldable pub skip_optional_metadata : Stream → Stream
skip_optional_metadata s =
    let (maybe, s') = read_token s in
    let lines = (get_line s').1 in
    if not (is_token (to_lower_token maybe) "metadata")
    then seek_back (tellg s) s'
    else skip_lines (suc (length (unread lines))) lines

abbrev pub skip_metadata : Action Stream (Unit {0})
skip_metadata = modify skip_optional_metadata

-- The header of a binary string, by the two high bits of its first byte: the number of its bytes
-- and of the bits of the length in it.
unfoldable pub header_bytes : ℕ → ℕ
header_bytes kind = if kind == 3 then 1 else if kind == 2 then 2 else if kind == 1 then 4 else 8

-- `encoded <<= 2; encoded >>= 2;` of a word of `bits` bits, except for that of 64 bits
unfoldable pub string_length : ℕ → ℕ → ℕ
string_length kind encoded =
    let bits = 8 * header_bytes kind in
    if kind == 0 then encoded else ((encoded * 4) % 2 ^ bits) / 4

-- `static_cast<uint8_t>(input.peek())`, 255 where there is no byte, and the stream.
abbrev first_or_eof : Bytes → ℕ
first_or_eof [] = 255
first_or_eof (c ∷ text) = c

unfoldable pub peek : Stream → ℕ × Stream
peek s =
    if is_bad s
    then (255, record s { fail = true })
    else (first_or_eof (unread s), record s { eof = leb (length (unread s)) 0 })

-- `SkipBinaryLegacyString`
unfoldable pub skip_binary_string : Action Stream (Unit {0})
skip_binary_string = do
  first ← act peek
  let kind = first / 64
  encoded ← act (read (header_bytes kind))
  header_failed ← gets (λ s. s.fail)
  ensure (not header_failed) string_header
  modify (seek_cur (string_length kind (read_loop 0 encoded)))
  payload_failed ← gets (λ s. s.fail)
  ensure (not payload_failed) string_payload

-- `std::stoll` and `std::stoi`
abbrev number_in : ℕ → Option ℤ → Result Error ℤ
number_in bits none = err invalid_argument
number_in bits (some n) = if in_range bits n then ok n else err out_of_range

unfoldable pub stoll : Bytes → Result Error ℤ
stoll text = number_in 64 (parse_integer text)

unfoldable pub stoi : Bytes → Result Error ℤ
stoi text = number_in 32 (parse_integer text)

-- `std::stoi(ReadToken(input))`, and `static_cast<size_t>(std::stoll(ReadToken(input)))`
unfoldable pub read_int : Action Stream ℤ
read_int = do token ← next_token; lift (stoi token)

unfoldable pub read_size : Action Stream ℕ
read_size = do token ← next_token; n ← lift (stoll token); pure (to_nat n)
