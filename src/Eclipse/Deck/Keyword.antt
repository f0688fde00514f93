-- ===== src/Eclipse/Deck/Keyword.antt =====
-- The array under a keyword of a deck, and its loader.
use cae_openusd_plugins.Prelude.{
  ℕ, ◌≡◌, ◌⊎◌, inl, inr, refl, ap, ◌∙◌, true, false, Bool-cases, Option, none, some, List, [], ◌∷◌,
  ◌++◌, Bytes, length, same, same_iff, ◌==◌, arith,
}
use cae_openusd_plugins.Prelude.Result.{Result, ok, ◌>>=◌, ◌>>◌, guard, require, ok-bind}
use cae_openusd_plugins.Eclipse.Text.{to_upper}
use cae_openusd_plugins.Eclipse.Deck.{Token, is_slash, slash, new_tokenizer, tokens}
use cae_openusd_plugins.Eclipse.Deck.Numbers.{DeckError}
use cae_openusd_plugins.Eclipse.Deck.Grid.{ArrayRef}
use cae_openusd_plugins.Eclipse.Deck.Arrays.{
  find_keyword, read_values, check_expected_count, load_keyword_array,
}

-- No slash among the tokens.
abbrev pub HasNoSlash : List Token → Type 0
HasNoSlash [] = Unit {0}
HasNoSlash (token ∷ deck) = (is_slash token ≡ false) × HasNoSlash deck

find_keyword-append :
    (keyword : Bytes) (before rest : List Token) (token : Token)
    → find_keyword keyword before ≡ none
    → to_upper token.text ≡ keyword
    → find_keyword keyword (before ++ token ∷ rest) ≡ some rest
unfolding find_keyword
find_keyword-append keyword [] rest token h e =
    rw ((same_iff (to_upper token.text) keyword).1 e) refl
find_keyword-append keyword (other ∷ before) rest token h e =
    elim (Bool-cases (same (to_upper other.text) keyword)) [
      | inl t ↦ let clash : some before ≡ none = rw t at h in cc
      | inr t ↦
          let h' : find_keyword keyword before ≡ none = rw t at h in
          rw t (find_keyword-append keyword before rest token h' e)
    ]

module _ {V : Type 0} (expand : Bytes → Result DeckError (List V)) where
  -- The values that tokens stand for.
  unfoldable pub expand_all : List Token → Result DeckError (List V)
  expand_all [] = ok []
  expand_all (token ∷ deck) = do
    values ← expand token.text
    later ← expand_all deck
    ok (values ++ later)

  read_values-append :
      (deck rest : List Token)
      → HasNoSlash deck
      → read_values expand (deck ++ slash ∷ rest) ≡ expand_all deck
  unfolding read_values expand_all same
  read_values-append [] rest h = refl
  read_values-append (token ∷ deck) rest (ht, h) = rw ht (
      ap (λ later. expand token.text >>= λ values. later >>= λ more. ok (values ++ more))
        (read_values-append deck rest h))

  check_expected_count-any :
      (actual expected : ℕ)
      → (expected ≡ 0) ⊎ (expected ≡ actual)
      → check_expected_count actual expected ≡ ok tt
  unfolding check_expected_count guard
  check_expected_count-any actual expected (inl e) = rw e refl
  check_expected_count-any actual expected (inr e) =
      let same_count : (actual == expected) ≡ true = ground arith in
      rw same_count (elim (Bool-cases (expected == 0)) [ inl z ↦ rw z refl | inr z ↦ rw z refl ])

  pub load_keyword_array_lem :
      (files : Bytes → Option Bytes) (ref : ArrayRef) (expected : ℕ) (content : Bytes)
      (before : List Token) (keyword : Token) (deck rest : List Token) (values : List V)
      → files ref.file_path ≡ some content
      → tokens (new_tokenizer content) ≡ before ++ keyword ∷ (deck ++ slash ∷ rest)
      → find_keyword ref.keyword before ≡ none
      → to_upper keyword.text ≡ ref.keyword
      → HasNoSlash deck
      → expand_all deck ≡ ok values
      → (expected ≡ 0) ⊎ (expected ≡ length values)
      → load_keyword_array expand files ref expected ≡ ok values
  unfolding load_keyword_array require ◌>>◌
  load_keyword_array_lem files ref expected content before keyword deck rest values opens split
        first named no_slash all count =
      let found : find_keyword ref.keyword (tokens (new_tokenizer content))
          ≡ some (deck ++ slash ∷ rest) =
        ap (find_keyword ref.keyword) split
        ∙ find_keyword-append ref.keyword before (deck ++ slash ∷ rest) keyword first named in
      let read = read_values-append deck rest no_slash ∙ all in
      rw
        (
          opens,
          ok-bind,
          found,
          ok-bind,
          read,
          ok-bind,
          check_expected_count-any (length values) expected count,
          ok-bind,
        )
        refl
