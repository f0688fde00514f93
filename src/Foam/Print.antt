-- ===== src/Foam/Print.antt =====
-- Words and numbers as an OpenFOAM file holds them, and the functions that read them.
pub mod Boundary
use Prim.Native.String.{String}
use cae_openusd_plugins.Prelude.{
  ℕ, zero, suc, ◌^◌, ◌<◌, ◌≡◌, ◌≢◌, inl, inr, refl, sym, ap, ◌∙◌, Bool, true, false, not, ◌||◌,
  ◌&&◌, some, List, [], ◌∷◌, ◌++◌, Bytes, length, same, same_iff, ltb, lt→ltb, ◌==◌, if◌then◌else◌,
  arith,
}
use cae_openusd_plugins.Prelude.Chars.{codes, is_space}
use cae_openusd_plugins.Prelude.Decimal.{
  all_digits, all_digits-to_string, to_string-ne-nil, to_string, is_digit, digits_value,
  digits_value-to_string, parse_integer, in_range, skip_spaces, leading_digits,
}
use cae_openusd_plugins.Prelude.Int.{ℤ, pos}
use cae_openusd_plugins.Prelude.Result.{
  Result, ok, err, ◌>>=◌, ◌>>◌, guard, require, ok-bind, true-bind,
}
use cae_openusd_plugins.Foam.{
  at_comment, is_last_slash, skip_ws_and_comments, take_word, token_of, read_token, is_named,
  is_nil, is_punctuation, expect_token, stoi, read_int_token,
}
use cae_openusd_plugins.Foam.Boundary.{
  BoundaryPatchInfo, new_patch, int_entry, parse_patch, parse_patches, parse_boundary_file,
}

-- A byte of a word: no space, no punctuation, no quote and no slash.
abbrev pub is_plain : ℕ → Bool
is_plain c = not (is_space c || is_punctuation c || c == 34 || c == 39 || c == b'/')

abbrev pub ArePlain : Bytes → Type 0
ArePlain [] = Unit {0}
ArePlain (c ∷ word) = (is_plain c ≡ true) × ArePlain word

abbrev pub IsWord : Bytes → Type 0
IsWord word = ArePlain word × (is_nil word ≡ false)

take_word-append :
    (word : Bytes) (c : ℕ) (rest : Bytes)
    → ArePlain word
    → (is_space c || is_punctuation c) ≡ true
    → take_word (word ++ c ∷ rest) ≡ (word, c ∷ rest)
unfolding take_word
take_word-append [] c rest h e = ground (arith, e)
take_word-append (x ∷ word) c rest (hx, h) e =
    let later = take_word-append word c rest h e in
    let goes_on : (is_space x || is_punctuation x || at_comment x (word ++ c ∷ rest)) ≡ false =
      ground (arith, hx) in
    rw goes_on (ap (λ p. (x ∷ p.0, p.1)) later)

pub read_token-word :
    (word : Bytes) (c : ℕ) (rest : Bytes)
    → IsWord word
    → (is_space c || is_punctuation c) ≡ true
    → read_token (word ++ c ∷ rest) ≡ (word, c ∷ rest)
unfolding read_token skip_ws_and_comments token_of
read_token-word [] c rest (_, h) e = cc
read_token-word (x ∷ word) c rest ((hx, h), _) e =
    let stops : (at_comment x (word ++ c ∷ rest)
          || is_space x
          || is_last_slash x (word ++ c ∷ rest))
        ≡ false =
      ground (arith, hx) in
    let no_quote : (x == 34 || x == 39) ≡ false = ground (arith, hx) in
    let no_punctuation : is_punctuation x ≡ false = ground (arith, hx) in
    rw (stops, no_quote, no_punctuation)
      (ap (λ p. (x ∷ p.0, p.1)) (take_word-append word c rest h e))

pub read_token-space : (text : Bytes) → read_token (32 ∷ text) ≡ read_token text
unfolding read_token skip_ws_and_comments is_space
read_token-space text = refl

pub read_token-punctuation :
    (c : ℕ) (text : Bytes) → is_punctuation c ≡ true → read_token (c ∷ text) ≡ (c ∷ [], text)
unfolding read_token skip_ws_and_comments token_of is_space
read_token-punctuation c text h =
    let stops : (at_comment c text || is_space c || is_last_slash c text) ≡ false =
      ground (arith, h) in
    let no_quote : (c == 34 || c == 39) ≡ false = ground (arith, h) in rw (stops, no_quote, h) refl

pub expect_token_lem :
    (name : String) (text rest : Bytes)
    → read_token text ≡ (codes name, rest)
    → expect_token name text ≡ ok rest
unfolding expect_token
expect_token_lem name text rest e =
    rw (e, (same_iff (codes name) (codes name)).1 refl, true-bind) refl

digit-ne-space : (c : ℕ) → is_digit c ≡ true → is_space c ≡ false
unfolding is_space
digit-ne-space c h = ground (arith, h)

leading_digits-all : (s : Bytes) → all_digits s ≡ true → leading_digits s ≡ s
unfolding leading_digits all_digits
leading_digits-all [] h = refl
leading_digits-all (c ∷ s) h =
    let digit : is_digit c ≡ true = ground (arith, h) in
    let later : all_digits s ≡ true = ground (arith, h) in
    rw digit (ap (λ t. c ∷ t) (leading_digits-all s later))

-- The number that digits alone spell.
parse_integer-digits :
    (s : Bytes) (n : ℕ)
    → all_digits s ≡ true
    → is_nil s ≡ false
    → digits_value 0 s ≡ n
    → parse_integer s ≡ some (pos n)
unfolding parse_integer skip_spaces all_digits
parse_integer-digits [] n h k e = cc
parse_integer-digits (c ∷ s) n h k e =
    let digit : is_digit c ≡ true = ground (arith, h) in
    let no_space : is_space c ≡ false = digit-ne-space c digit in
    let no_minus : (c == b'-') ≡ false = ground (arith, digit) in
    let no_plus : (c == b'+') ≡ false = ground (arith, digit) in
    rw (no_space, no_minus, no_plus, leading_digits-all (c ∷ s) h, e) refl

all_digits-ArePlain : (s : Bytes) → all_digits s ≡ true → ArePlain s
unfolding all_digits is_space
all_digits-ArePlain [] h = tt
all_digits-ArePlain (c ∷ s) h =
    let digit : is_digit c ≡ true = ground (arith, h) in
    let later : all_digits s ≡ true = ground (arith, h) in
    (ground (arith, digit), all_digits-ArePlain s later)

is_nil-ne : (s : Bytes) → s ≢ [] → is_nil s ≡ false
is_nil-ne [] h = absurd (h refl)
is_nil-ne (c ∷ s) h = refl

pub to_string-IsWord : (n : ℕ) → IsWord (to_string n)
to_string-IsWord n = (
  all_digits-ArePlain (to_string n) (all_digits-to_string n),
  is_nil-ne (to_string n) (to_string-ne-nil n),
)

pub stoi-to_string : (n : ℕ) → n < 2 ^ 31 → stoi (to_string n) ≡ ok (pos n)
unfolding stoi require
stoi-to_string n h =
    let parsed =
      parse_integer-digits (to_string n) n (all_digits-to_string n) (to_string-IsWord n).1
        (digits_value-to_string n) in
    rw (parsed, ok-bind, lt→ltb n (2 ^ 31) h, true-bind) refl

-- The value of an entry that is an int.
pub int_entry-to_string :
    (n : ℕ) (rest : Bytes)
    → n < 2 ^ 31
    → int_entry (32 ∷ (to_string n ++ b';' ∷ rest)) ≡ ok (pos n, rest)
unfolding int_entry read_int_token is_space
int_entry-to_string n rest h =
    let number =
      read_token-space (to_string n ++ b';' ∷ rest)
      ∙ read_token-word (to_string n) b';' rest (to_string-IsWord n) refl in
    let semicolon =
      expect_token_lem ";" (b';' ∷ rest) rest (read_token-punctuation b';' rest refl) in
    rw
      (
        number,
        (to_string-IsWord n).1,
        true-bind,
        stoi-to_string n h,
        ok-bind,
        ok-bind,
        semicolon,
        ok-bind,
      )
      refl
