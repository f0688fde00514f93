-- ===== src/Foam/Ends.antt =====
-- The loops of the parser of boundary files, and their fuel.
pub mod Boundary
use Prim.Native.String.{String}
use cae_openusd_plugins.Prelude.{
  ℕ, zero, suc, ◌^◌, ◌≤◌, ◌<◌, ◌≡◌, ◌≢◌, ◌⊎◌, inl, inr, refl, sym, ap, ◌∙◌, Bool, true, false, not,
  ◌||◌, ◌&&◌, Option, none, some, List, [], ◌∷◌, Bytes, length, ltb, ◌==◌, same_iff, arith,
}
use cae_openusd_plugins.Prelude.Chars.{codes}
use cae_openusd_plugins.Prelude.Decimal.{parse_integer, in_range}
use cae_openusd_plugins.Prelude.Int.{ℤ, pos, negsuc}
use cae_openusd_plugins.Prelude.Result.{ok, err, ◌>>=◌, require}
use cae_openusd_plugins.Prelude.Post.{
  Post, returns, throws, Post-bind, Post-guard, Post-require, Post-eq-ok, Post-eq-err, Post-weaken,
  Post-value, if_holds,
}
use cae_openusd_plugins.Foam.{
  FoamError, unexpected_token, expected_integer, invalid_argument, out_of_range, missing_format,
  missing_arch, overflow, out_of_fuel, Within, blanks, within_after, skip_ws_and_comments,
  take_quoted, take_word, token_of, read_token, is_named, is_nil, is_punctuation, expect_token,
  stoi, read_int_token, StringMap, find_entry, read_entries, read_header, FoamHeaderInfo,
  bits_after, text_after, remove_spaces, read_format, parse_header_info,
}
use cae_openusd_plugins.Foam.Boundary.{
  BoundaryPatchInfo, new_patch, depth_after, skip_entry, int_entry, parse_patch, parse_patches,
  reserved, parse_boundary_file,
}

-- An exception of the code.
abbrev pub IsThrown : FoamError → Type 0
IsThrown out_of_fuel = true ≡ false
IsThrown _ = Unit {0}

length-skip_ws_and_comments :
    (within : Within) (text : Bytes) → length (skip_ws_and_comments within text) ≤ length text
unfolding skip_ws_and_comments
length-skip_ws_and_comments within [] = omega arith
length-skip_ws_and_comments within (c ∷ text) =
    ground (arith, length-skip_ws_and_comments (within_after within c text) text)

length-take_quoted : (quote : ℕ) (text : Bytes) → length (take_quoted quote text).1 ≤ length text
unfolding take_quoted
length-take_quoted quote [] = omega arith
length-take_quoted quote (c ∷ text) = ground (arith, length-take_quoted quote text)

length-take_word : (text : Bytes) → length (take_word text).1 ≤ length text
unfolding take_word
length-take_word [] = omega arith
length-take_word (c ∷ text) = ground (arith, length-take_word text)

-- A token takes a byte or more, except at the end, where it is empty.
Takes : ℕ → Bytes × Bytes → Type 0
Takes n (token, rest) = (length rest < n) ⊎ ((token ≡ []) × (length rest ≤ n))

Takes-token_of : (text : Bytes) (n : ℕ) → length text ≤ n → Takes n (token_of text)
unfolding token_of Takes
Takes-token_of [] n h = inr (refl, omega (arith, h))
Takes-token_of (c ∷ text) n h =
    if_holds (Takes n) (c == 34 || c == 39) (λ _. inl (omega (arith, h, length-take_quoted c text)))
      (λ _.
        if_holds (Takes n) (is_punctuation c) (λ _. inl (omega (arith, h)))
          (λ _. inl (omega (arith, h, length-take_word text))))

Takes-read_token : (text : Bytes) → Takes (length text) (read_token text)
unfolding read_token
Takes-read_token text =
    Takes-token_of (skip_ws_and_comments blanks text) (length text)
      (length-skip_ws_and_comments blanks text)

pub read_token-le : (text : Bytes) → length (read_token text).1 ≤ length text
unfolding Takes
read_token-le text = elim (Takes-read_token text) [
  | inl h ↦ omega (arith, h)
  | inr h ↦ omega (arith, h.1)
]

-- A token that is not empty takes a byte.
pub read_token-lt :
    (text : Bytes) → is_nil (read_token text).0 ≡ false → length (read_token text).1 < length text
unfolding Takes
read_token-lt text e = elim (Takes-read_token text) [
  | inl h ↦ h
  | inr h ↦ let clash : true ≡ false = sym (ap is_nil h.0) ∙ e in absurd cc
]

pub is_nil-named :
    (token : Bytes) (name : String)
    → is_named token name ≡ true
    → is_nil (codes name) ≡ false
    → is_nil token ≡ false
is_nil-named token name e h = ap is_nil ((same_iff token (codes name)).0 e) ∙ h

pub Post-expect_token :
    (expected : String) (text : Bytes)
    → Post (λ rest. length rest ≤ length text) IsThrown (expect_token expected text)
unfolding expect_token
Post-expect_token expected text =
    Post-guard (is_named (read_token text).0 expected) unexpected_token _ tt
      (λ _. returns (read_token-le text))

Post-stoi : (text : Bytes) → Post (λ n. Unit {0}) IsThrown (stoi text)
unfolding stoi
Post-stoi text =
    Post-require (parse_integer text) invalid_argument _ tt
      (λ n _. Post-guard (in_range 32 n) out_of_range _ tt (λ _. returns tt))

pub Post-read_int_token :
    (text : Bytes) → Post (λ r. length r.1 ≤ length text) IsThrown (read_int_token text)
unfolding read_int_token
Post-read_int_token text = Post-guard (not (is_nil (read_token text).0)) expected_integer _ tt (λ _.
    Post-bind (stoi (read_token text).0) _ (Post-stoi (read_token text).0)
      (λ n _. returns (read_token-le text)))

pub Post-int_entry : (text : Bytes) → Post (λ r. length r.1 ≤ length text) IsThrown (int_entry text)
unfolding int_entry
Post-int_entry text = Post-bind (read_int_token text) _ (Post-read_int_token text) (λ r h.
    Post-bind (expect_token ";" r.1) _ (Post-expect_token ";" r.1)
      (λ rest k. returns (omega (arith, h, k))))

Post-read_entries :
    (fuel : ℕ) (header : StringMap) (text : Bytes)
    → length text < fuel
    → Post (λ r. Unit {0}) IsThrown (read_entries fuel header text)
unfolding read_entries
Post-read_entries zero header text h = absurd (omega arith)
Post-read_entries (suc fuel) header text h =
    let key = (read_token text).0 in
    let behind_key = (read_token text).1 in
    let behind_value = (read_token behind_key).1 in
    if_holds (Post (λ r. Unit {0}) IsThrown) (is_nil key || is_named key "}") (λ _. returns tt)
      (λ e.
        Post-bind (expect_token ";" behind_value) _ (Post-expect_token ";" behind_value) (λ rest k.
          Post-read_entries fuel _ rest (
            let shorter = read_token-lt text (left_false (is_nil key) (is_named key "}") e) in
            omega (arith, h, k, shorter, read_token-le behind_key))))
  where
    left_false : (a b : Bool) → (a || b) ≡ false → a ≡ false
    left_false true b e = e
    left_false false b e = refl

pub Post-read_header : (text : Bytes) → Post (λ r. Unit {0}) IsThrown (read_header text)
unfolding read_header
Post-read_header text =
    Post-bind (expect_token "FoamFile" text) _ (Post-expect_token "FoamFile" text) (λ behind_name _.
      Post-bind (expect_token "{" behind_name) _ (Post-expect_token "{" behind_name)
        (λ behind_brace _.
          Post-read_entries (suc (length behind_brace)) [] behind_brace (omega arith)))

Post-bits_after : (o : Option Bytes) → Post (λ n. Unit {0}) IsThrown (bits_after o)
Post-bits_after none = returns tt
Post-bits_after (some rest) = Post-stoi rest

Post-read_format :
    (info : FoamHeaderInfo) (format : Bytes)
    → Post (λ i. Unit {0}) IsThrown (read_format info format)
unfolding read_format
Post-read_format info format =
    if_holds (Post (λ i. Unit {0}) IsThrown) (is_named format "binary")
      (λ _. Post-require (find_entry (codes "arch") info.entries) missing_arch _ tt (λ arch _.
        Post-bind (bits_after (text_after (codes "label=") (remove_spaces arch))) _
          (Post-bits_after (text_after (codes "label=") (remove_spaces arch)))
          (λ label_bits _.
            Post-bind (bits_after (text_after (codes "scalar=") (remove_spaces arch))) _
              (Post-bits_after (text_after (codes "scalar=") (remove_spaces arch)))
              (λ scalar_bits _. returns tt))))
      (λ _.
        if_holds (Post (λ i. Unit {0}) IsThrown) (is_named format "ascii") (λ _. returns tt)
          (λ _. throws tt))

pub Post-parse_header_info :
    (header : StringMap) → Post (λ i. Unit {0}) IsThrown (parse_header_info header)
unfolding parse_header_info
Post-parse_header_info header =
    Post-require (find_entry (codes "format") header) missing_format _ tt
      (λ format _. Post-read_format _ format)
