-- ===== src/Vtk/Base64/Encode.antt =====
-- The decoder against an encoder that is written here from the base64 alphabet.
use Prim.Native.Nat.{bit_or}
use cae_openusd_plugins.Prelude.{
  ℕ, suc, ◌+◌, ◌-◌, ◌*◌, ◌/◌, ◌%◌, ◌<◌, ◌≡◌, refl, ap, ◌∙◌, Bool, true, false, ◌&&◌, some, Bytes,
  [], ◌∷◌, ◌++◌, length, take, ltb, ◌==◌, if◌then◌else◌, arith,
}
use mathlib.Core.Bool.{true≢false}
use cae_openusd_plugins.Prelude.Bits.{shift-bit_or}
use cae_openusd_plugins.Prelude.Chars.{is_space}
use cae_openusd_plugins.Prelude.Result.{ok, ◌>>=◌, ok-bind, true-bind, require}
use cae_openusd_plugins.Codec.{AllBytes}
use cae_openusd_plugins.Vtk.Base64.Steps.{decode_loop_step, decode_loop-nil}
use cae_openusd_plugins.Vtk.Base64.{
  is_empty, base64_value, quartet_values, join_values, decode_quartet, decode_loop, decode_into,
}

-- The character of a value below 64.
abbrev pub encode_char : ℕ → ℕ
encode_char v =
    if ltb v 26
    then v + b'A'
    else if ltb v 52
    then v - 26 + b'a'
    else if ltb v 62
    then v - 52 + b'0'
    else if v == 62
    then b'+'
    else b'/'

unfoldable pub encode : Bytes → Bytes
encode [] = []
encode (a ∷ []) = encode_char (a / 4) ∷ encode_char (a % 4 * 16) ∷ b'=' ∷ b'=' ∷ []
encode (a ∷ b ∷ []) =
    encode_char (a / 4) ∷ encode_char (a % 4 * 16 + b / 16) ∷ encode_char (b % 16 * 4) ∷ b'=' ∷ []
encode (a ∷ b ∷ c ∷ rest) =
    encode_char (a / 4)
    ∷ encode_char (a % 4 * 16 + b / 16)
    ∷ encode_char (b % 16 * 4 + c / 64)
    ∷ encode_char (c % 64)
    ∷ encode rest

base64_value-encode_char : (v : ℕ) → v < 64 → base64_value (encode_char v) ≡ some v
unfolding base64_value
base64_value-encode_char v h = ground arith

encode_char-plain :
    (v : ℕ) → v < 64 → ((encode_char v == b'=') ≡ false) × (is_space (encode_char v) ≡ false)
unfolding is_space
encode_char-plain v h = ground arith

-- A character of the alphabet gives its value.
quartet_values-encode_char :
    (allow : Bool) (i v : ℕ) (rest : Bytes)
    → v < 64
    → quartet_values allow i 0 (encode_char v ∷ rest)
      ≡ (quartet_values allow (suc i) 0 rest >>= λ p. ok (v ∷ p.0, p.1))
unfolding quartet_values require
quartet_values-encode_char allow i v rest h =
    let (plain, no_space) = encode_char-plain v h in
    rw (plain, no_space, base64_value-encode_char v h, ok-bind)

-- The bytes of four values.
first_byte :
    (a b : ℕ) → a < 256 → b < 256 → bit_or (4 * (a / 4)) ((a % 4 * 16 + b / 16) / 16) % 256 ≡ a
first_byte a b h k =
    omega (arith, shift-bit_or 2 (a / 4) ((a % 4 * 16 + b / 16) / 16) (omega arith))

second_byte :
    (a b c : ℕ)
    → b < 256
    → c < 256
    → bit_or (16 * ((a % 4 * 16 + b / 16) % 16)) ((b % 16 * 4 + c / 64) / 4) % 256 ≡ b
second_byte a b c h k =
    omega
      (arith, shift-bit_or 4 ((a % 4 * 16 + b / 16) % 16) ((b % 16 * 4 + c / 64) / 4) (omega arith))

third_byte : (b c : ℕ) → c < 256 → bit_or (64 * ((b % 16 * 4 + c / 64) % 4)) (c % 64) % 256 ≡ c
third_byte b c h = omega (arith, shift-bit_or 6 ((b % 16 * 4 + c / 64) % 4) (c % 64) (omega arith))

no_more : (allow : Bool) (i p : ℕ) → quartet_values allow i p [] ≡ ok ([], p)
unfolding quartet_values
no_more allow i p = refl

module _ (allow : Bool) (v0 v1 v2 v3 : ℕ) (h0 : v0 < 64) (h1 : v1 < 64) (h2 : v2 < 64)
    (h3 : v3 < 64) where
  decode_quartet-full :
      decode_quartet (encode_char v0 ∷ encode_char v1 ∷ encode_char v2 ∷ encode_char v3 ∷ []) allow
      ≡ ok (join_values v0 v1 v2 v3, 3)
  unfolding decode_quartet ◌>>=◌
  decode_quartet-full = rw (
    quartet_values-encode_char allow 0 v0 _ h0,
    quartet_values-encode_char allow 1 v1 _ h1,
    quartet_values-encode_char allow 2 v2 _ h2,
    quartet_values-encode_char allow 3 v3 _ h3,
    no_more allow 4 0,
    true-bind,
  )

one_pad : quartet_values true 3 0 (b'=' ∷ []) ≡ ok (0 ∷ [], 1)
unfolding quartet_values ◌>>=◌
one_pad = refl

two_pads : quartet_values true 2 0 (b'=' ∷ b'=' ∷ []) ≡ ok (0 ∷ 0 ∷ [], 2)
unfolding quartet_values ◌>>=◌
two_pads = refl

decode_quartet-one_pad :
    (v0 v1 v2 : ℕ)
    → v0 < 64
    → v1 < 64
    → v2 < 64
    → decode_quartet (encode_char v0 ∷ encode_char v1 ∷ encode_char v2 ∷ b'=' ∷ []) true
      ≡ ok (join_values v0 v1 v2 0, 2)
unfolding decode_quartet ◌>>=◌
decode_quartet-one_pad v0 v1 v2 h0 h1 h2 = rw (
  quartet_values-encode_char true 0 v0 _ h0,
  quartet_values-encode_char true 1 v1 _ h1,
  quartet_values-encode_char true 2 v2 _ h2,
  one_pad,
  true-bind,
)

decode_quartet-two_pads :
    (v0 v1 : ℕ)
    → v0 < 64
    → v1 < 64
    → decode_quartet (encode_char v0 ∷ encode_char v1 ∷ b'=' ∷ b'=' ∷ []) true
      ≡ ok (join_values v0 v1 0 0, 1)
unfolding decode_quartet ◌>>=◌
decode_quartet-two_pads v0 v1 h0 h1 = rw (
  quartet_values-encode_char true 0 v0 _ h0,
  quartet_values-encode_char true 1 v1 _ h1,
  two_pads,
  true-bind,
)

joined :
    (a b c : ℕ)
    → a < 256
    → b < 256
    → c < 256
    → join_values (a / 4) (a % 4 * 16 + b / 16) (b % 16 * 4 + c / 64) (c % 64) ≡ a ∷ b ∷ c ∷ []
unfolding join_values
joined a b c ha hb hc = rw (first_byte a b ha hb, second_byte a b c hb hc, third_byte b c hc)

joined_two :
    (a b : ℕ)
    → a < 256
    → b < 256
    → take 2 (join_values (a / 4) (a % 4 * 16 + b / 16) (b % 16 * 4) 0) ≡ a ∷ b ∷ []
unfolding join_values
joined_two a b ha hb = rw (first_byte a b ha hb, second_alone) refl
  where
    second_alone : bit_or (16 * ((a % 4 * 16 + b / 16) % 16)) ((b % 16 * 4) / 4) % 256 ≡ b
    second_alone =
        omega (arith, shift-bit_or 4 ((a % 4 * 16 + b / 16) % 16) ((b % 16 * 4) / 4) (omega arith))

joined_one : (a : ℕ) → a < 256 → take 1 (join_values (a / 4) (a % 4 * 16) 0 0) ≡ a ∷ []
unfolding join_values
joined_one a ha = rw first_alone refl
  where
    first_alone : bit_or (4 * (a / 4)) ((a % 4 * 16) / 16) % 256 ≡ a
    first_alone = omega (arith, shift-bit_or 2 (a / 4) ((a % 4 * 16) / 16) (omega arith))

module _ (expected : ℕ) where
  -- From any number of bytes on, the text of bytes that fill the request gives these bytes.
  decode_loop-encode :
      (bs : Bytes) (produced : ℕ)
      → AllBytes bs
      → produced + length bs ≡ expected
      → decode_loop expected true produced (encode bs) ≡ ok bs
  unfolding encode
  decode_loop-encode [] produced bytes h = decode_loop-nil expected true produced (omega (arith, h))
  decode_loop-encode (a ∷ []) produced (ha, _) h =
      decode_loop_step expected true produced _ _ _ _ [] _ [] 1
        (decode_quartet-two_pads (a / 4) (a % 4 * 16) (omega arith) (omega arith))
        (omega (arith, h)) (λ e. absurd (true≢false e)) (λ e. absurd (true≢false e))
        (decode_loop-nil expected true (produced + 1) (omega (arith, h)))
      ∙ ap (λ s. ok (s ++ [])) (joined_one a ha)
  decode_loop-encode (a ∷ b ∷ []) produced (ha, t) h =
      let hb = t.0 in
      decode_loop_step expected true produced _ _ _ _ [] _ [] 2
        (decode_quartet-one_pad (a / 4) (a % 4 * 16 + b / 16) (b % 16 * 4) (omega arith)
          (omega arith) (omega arith))
        (omega (arith, h)) (λ e. absurd (true≢false e)) (λ e. absurd (true≢false e))
        (decode_loop-nil expected true (produced + 2) (omega (arith, h)))
      ∙ ap (λ s. ok (s ++ [])) (joined_two a b ha t.0)
  decode_loop-encode (a ∷ b ∷ c ∷ rest) produced (ha, u) h =
      let (hb, v) = u in
      let (hc, t) = v in
      let whole =
        decode_quartet-full (true && is_empty (encode rest)) (a / 4) (a % 4 * 16 + b / 16)
          (b % 16 * 4 + c / 64) (c % 64) (omega arith) (omega arith) (omega arith) (omega arith) in
      decode_loop_step expected true produced _ _ _ _ (encode rest) _ rest 3 whole
        (omega (arith, h)) (λ _. refl) (λ _. refl)
        (decode_loop-encode rest (produced + 3) t (omega (arith, h)))
      ∙ ap (λ s. ok (take 3 s ++ rest)) (joined a b c ha hb hc)

length-encode : (bs : Bytes) → length (encode bs) % 4 ≡ 0
unfolding encode
length-encode [] = refl
length-encode (a ∷ []) = refl
length-encode (a ∷ b ∷ []) = refl
length-encode (a ∷ b ∷ c ∷ rest) = omega (arith, length-encode rest)

-- The base64 text of any bytes, read into a target of their number, gives these bytes.
pub decode_into-encode :
    (bs : Bytes) → AllBytes bs → decode_into (encode bs) (length bs) true ≡ ok bs
unfolding decode_into
decode_into-encode bs bytes =
    rw (length-encode bs) (true-bind _ _ ∙ decode_loop-encode (length bs) bs 0 bytes (omega arith))
