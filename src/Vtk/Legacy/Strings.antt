-- ===== src/Vtk/Legacy/Strings.antt =====
-- DecodeLegacyString, and a writer that escapes.
use cae_openusd_plugins.Prelude.{
  ℕ, ◌+◌, ◌*◌, ◌/◌, ◌%◌, ◌<◌, ◌≡◌, refl, ap, ◌∙◌, Bool, false, ◌||◌, Bool-cases, inl, inr, some, [],
  ◌∷◌, Bytes, ltb, ◌==◌, if◌then◌else◌, arith,
}
use cae_openusd_plugins.Codec.{AllBytes}
use cae_openusd_plugins.Vtk.Legacy.Sections.{hex_digit, hex_pair, decode_legacy_string}

-- A hexadecimal digit of a number below 16, as a writer prints it.
abbrev pub hex_of : ℕ → ℕ
hex_of n = if ltb n 10 then 48 + n else 55 + n

-- The text of a name: each byte that is chosen, and each percent sign, stands as its number.
abbrev pub encode_legacy_string : (ℕ → Bool) → Bytes → Bytes
encode_legacy_string escapes [] = []
encode_legacy_string escapes (c ∷ text) =
    let later = encode_legacy_string escapes text in
    if c == b'%' || escapes c then b'%' ∷ hex_of (c / 16) ∷ hex_of (c % 16) ∷ later else c ∷ later

hex_digit-hex_of : (n : ℕ) → n < 16 → hex_digit (hex_of n) ≡ some n
hex_digit-hex_of n h = ground arith

hex_pair-hex_of : (c : ℕ) → c < 256 → hex_pair (hex_of (c / 16)) (hex_of (c % 16)) ≡ some c
unfolding hex_pair
hex_pair-hex_of c h =
    let high = hex_digit-hex_of (c / 16) (omega arith) in
    let low = hex_digit-hex_of (c % 16) (omega arith) in
    let whole : 16 * (c / 16) + c % 16 ≡ c = omega arith in rw (high, low) (ap some whole)

-- A byte that is no percent sign stands for itself, whatever follows.
decode_plain :
    (c : ℕ) (text : Bytes)
    → (c == b'%') ≡ false
    → decode_legacy_string (c ∷ text) ≡ c ∷ decode_legacy_string text
unfolding decode_legacy_string
decode_plain c [] h = refl
decode_plain c (a ∷ []) h = refl
decode_plain c (a ∷ b ∷ text) h = rw h refl

decode_nil : decode_legacy_string [] ≡ []
unfolding decode_legacy_string
decode_nil = refl

plain : (a b : Bool) → (a || b) ≡ false → a ≡ false
plain a b h = ground arith

decode_escaped :
    (a b v : ℕ) (text : Bytes)
    → hex_pair a b ≡ some v
    → decode_legacy_string (b'%' ∷ a ∷ b ∷ text) ≡ v ∷ decode_legacy_string text
unfolding decode_legacy_string
decode_escaped a b v text h = rw h refl

-- A name of bytes, in which the percent sign and any chosen bytes are written as a percent sign
-- and two hexadecimal digits, decodes to itself.
pub decode_legacy_string-encode :
    (escapes : ℕ → Bool) (name : Bytes)
    → AllBytes name
    → decode_legacy_string (encode_legacy_string escapes name) ≡ name
decode_legacy_string-encode escapes [] h = decode_nil
decode_legacy_string-encode escapes (c ∷ name) (hc, h) =
    let ih = decode_legacy_string-encode escapes name h in
    elim (Bool-cases (c == b'%' || escapes c)) [
      | inl e ↦ rw e (
          decode_escaped _ _ c (encode_legacy_string escapes name) (hex_pair-hex_of c hc)
          ∙ ap (λ t. c ∷ t) ih)
      | inr e ↦ rw e (
          decode_plain c (encode_legacy_string escapes name) (plain (c == b'%') (escapes c) e)
          ∙ ap (λ t. c ∷ t) ih)
    ]
