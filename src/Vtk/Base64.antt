-- ===== src/Vtk/Base64.antt =====
-- The base64 decoder of FileHandle.cpp. A shift is a product or a quotient, and a mask a remainder.
pub mod Steps
pub mod Encode
pub mod Quartet
pub mod Ranges
use Prim.Native.Nat.{bit_or}
use cae_openusd_plugins.Prelude.{
  ℕ, zero, suc, ◌+◌, ◌-◌, ◌*◌, ◌/◌, ◌%◌, Bool, true, false, not, ◌&&◌, ◌||◌, Option, none, some,
  Bytes, [], ◌∷◌, ◌++◌, length, take, get_or, ltb, leb, ◌==◌, if◌then◌else◌,
}
use cae_openusd_plugins.Prelude.Chars.{is_space}
use cae_openusd_plugins.Prelude.Result.{Result, ok, err, ◌>>=◌, ◌>>◌, guard, require}
use cae_openusd_plugins.Vtk.Error.{
  Error, not_quartet_aligned, invalid_padding, data_after_padding, embedded_whitespace,
  invalid_character, exceeds_request, padding_before_final, count_mismatch,
}

-- `Base64Value`; `none` is -1.
unfoldable pub base64_value : ℕ → Option ℕ
base64_value c =
    if leb b'A' c && leb c b'Z'
    then some (c - b'A')
    else if leb b'a' c && leb c b'z'
    then some (c - b'a' + 26)
    else if leb b'0' c && leb c b'9'
    then some (c - b'0' + 52)
    else if c == b'+'
    then some 62
    else if c == b'/'
    then some 63
    else none

-- The loop of `DecodeBase64Quartet` from index `i`: the values and the number of padding characters.
unfoldable pub quartet_values : Bool → ℕ → ℕ → Bytes → Result Error (Bytes × ℕ)
quartet_values allow_padding i padding [] = ok ([], padding)
quartet_values allow_padding i padding (c ∷ rest) =
    let padded = quartet_values allow_padding (suc i) (suc padding) rest in
    let plain = quartet_values allow_padding (suc i) padding rest in
    if c == b'='
    then if not allow_padding || ltb i 2
      then err invalid_padding
      else (padded >>= λ p. ok (0 ∷ p.0, p.1))
    else if not (padding == 0)
    then err data_after_padding
    else if is_space c
    then err embedded_whitespace
    else require (base64_value c) invalid_character >>= λ value.
        plain >>= λ p. ok (value ∷ p.0, p.1)

-- The three bytes that four values stand for.
unfoldable pub join_values : ℕ → ℕ → ℕ → ℕ → Bytes
join_values v0 v1 v2 v3 =
    bit_or (4 * v0) (v1 / 16) % 256
    ∷ bit_or (16 * (v1 % 16)) (v2 / 4) % 256
    ∷ bit_or (64 * (v2 % 4)) v3 % 256
    ∷ []

-- `DecodeBase64Quartet`: the three decoded bytes, and how many of them count.
unfoldable pub decode_quartet : Bytes → Bool → Result Error (Bytes × ℕ)
decode_quartet encoded allow_padding = do
  p ← quartet_values allow_padding 0 0 encoded
  let value = λ (i : ℕ). get_or p.0 i 0
  let pad_at = λ (i : ℕ). get_or encoded i 0 == b'='
  guard
      (not (
        ltb 2 p.1
        || (p.1 == 1 && not (pad_at 3))
        || (p.1 == 2 && (not (pad_at 2) || not (pad_at 3)))))
      invalid_padding
  ok (join_values (value 0) (value 1) (value 2) (value 3), 3 - p.1)

abbrev is_empty : Bytes → Bool
is_empty [] = true
is_empty (b ∷ rest) = false

-- The loop of `DecodeBase64Into` after `produced` bytes: the bytes that it stores from there on.
unfoldable pub decode_loop : ℕ → Bool → ℕ → Bytes → Result Error Bytes
decode_loop expected allow_final produced (a ∷ b ∷ c ∷ d ∷ rest) = do
  let is_final = is_empty rest
  guard (allow_final && is_final || not (ltb expected produced || ltb (expected - produced) 3))
      exceeds_request
  q ← decode_quartet (a ∷ b ∷ c ∷ d ∷ []) (allow_final && is_final)
  guard
      (not (allow_final && is_final)
        || not (ltb expected produced || ltb (expected - produced) q.1))
      exceeds_request
  guard (q.1 == 3 || is_final) padding_before_final
  stored ← decode_loop expected allow_final (produced + q.1) rest
  ok (take q.1 q.0 ++ stored)
decode_loop expected allow_final produced _ =
    if produced == expected then ok [] else err count_mismatch

-- `DecodeBase64Into`: the bytes that it stores in the target.
unfoldable pub decode_into : Bytes → ℕ → Bool → Result Error Bytes
decode_into text expected allow_final = do
  guard (length text % 4 == 0) not_quartet_aligned
  decode_loop expected allow_final 0 text
