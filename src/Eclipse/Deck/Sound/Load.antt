-- ===== src/Eclipse/Deck/Sound/Load.antt =====
-- Loading the arrays of a parsed deck.
use cae_openusd_plugins.Prelude.{
  ℕ, zero, suc, true, false, get_elem?, Bool, subst, ◌≡◌, sym, ap, ◌∙◌, Option, none, some,
  some-injective, List, [], ◌∷◌, Bytes, length, ◌==◌, not, ◌&&◌,
}
use cae_openusd_plugins.Prelude.Result.{ok, err, require, ok-bind}
use cae_openusd_plugins.Prelude.Post.{Post, returns, Post-bind, Post-guard, Post-eq-err, if_holds}
use cae_openusd_plugins.Eclipse.Deck.{Token, is_slash}
use cae_openusd_plugins.Eclipse.Deck.Numbers.{
  DeckError, unexpected_count, expected_value, expected_count, expected_repeated, expand_token,
}
use cae_openusd_plugins.Eclipse.Deck.Grid.{Asset, ArrayRef, GridInfo}
use cae_openusd_plugins.Eclipse.Deck.Parse.{parse_deck}
use cae_openusd_plugins.Eclipse.Deck.Arrays.{read_values, check_expected_count, load_keyword_array}
use cae_openusd_plugins.Eclipse.Deck.Sound.{IsRef, IsRefIfAny, AreProperties, IsDeckGrid}
use cae_openusd_plugins.Eclipse.Deck.Sound.Grid.{Post-expand_token}
use cae_openusd_plugins.Eclipse.Deck.Sound.Parse.{parse_deck_sound}

-- An exception for the values of an array, and not for its absence.
abbrev pub IsAboutValues : DeckError → Type 0
IsAboutValues expected_value = Unit {0}
IsAboutValues expected_count = Unit {0}
IsAboutValues expected_repeated = Unit {0}
IsAboutValues unexpected_count = Unit {0}
IsAboutValues _ = true ≡ false

-- The arrays of a grid.
pub data HasArray {D : Type 0} (grid : GridInfo D) (ref : ArrayRef) : Type 0 where
  is_coord : grid.coord ≡ some ref → HasArray grid ref
  is_zcorn : grid.zcorn ≡ some ref → HasArray grid ref
  is_actnum : grid.actnum ≡ some ref → HasArray grid ref
  is_property :
      (i : ℕ) (keyword : Bytes)
      → get_elem? grid.properties i ≡ some (keyword, ref)
      → HasArray grid ref

-- The array opens, and its keyword is there.
abbrev IsFound : (Bytes → Option Bytes) → ArrayRef → Type 0
IsFound files ref = (keyword : Bytes) × (integer : Bool) × IsRef files keyword integer ref

module _ (files : Bytes → Option Bytes) where
  IsFound-if_any :
      (keyword : Bytes) (integer : Bool) (o : Option ArrayRef) (ref : ArrayRef)
      → IsRefIfAny files keyword integer o
      → o ≡ some ref
      → IsFound files ref
  IsFound-if_any keyword integer none ref h e = cc
  IsFound-if_any keyword integer (some other) ref h e =
      subst (IsFound files) (some-injective e) (keyword, integer, h)

  IsFound-property :
      (properties : List (Bytes × ArrayRef)) (i : ℕ) (keyword : Bytes) (ref : ArrayRef)
      → AreProperties files properties
      → get_elem? properties i ≡ some (keyword, ref)
      → IsFound files ref
  IsFound-property [] i keyword ref h e = cc
  IsFound-property ((k, other) ∷ properties) zero keyword ref (_, h, _) e =
      subst (IsFound files) (ap (λ p. p.1) (some-injective e)) (k, other.integer, h)
  IsFound-property ((k, other) ∷ properties) (suc i) keyword ref (_, _, h) e =
      IsFound-property properties i keyword ref h e

  IsFound-IsDeckGrid :
      {D : Type 0} (grid : GridInfo D) (ref : ArrayRef)
      → IsDeckGrid files grid
      → HasArray grid ref
      → IsFound files ref
  IsFound-IsDeckGrid grid ref h (is_coord e) =
      let (other, e', r) = h.coord in subst (IsFound files) (some-injective (sym e' ∙ e)) (_, _, r)
  IsFound-IsDeckGrid grid ref h (is_zcorn e) =
      let (other, e', r) = h.zcorn in subst (IsFound files) (some-injective (sym e' ∙ e)) (_, _, r)
  IsFound-IsDeckGrid grid ref h (is_actnum e) = IsFound-if_any _ _ grid.actnum ref h.actnum e
  IsFound-IsDeckGrid grid ref h (is_property i keyword e) =
      IsFound-property grid.properties i keyword ref h.properties e

module _ {V : Type 0} (default : V) (parse : Bytes → Option V) where
  Post-read_values :
      (deck : List Token)
      → Post (λ values. Unit {0}) IsAboutValues (read_values (expand_token default parse) deck)
  unfolding read_values
  Post-read_values [] = returns tt
  Post-read_values (token ∷ rest) =
      if_holds (Post (λ values. Unit {0}) IsAboutValues) (is_slash token) (λ _. returns tt)
        (λ _.
          Post-bind (expand_token default parse token.text) _
            (Post-expand_token default parse tt tt tt token.text)
            (λ values _.
              Post-bind (read_values (expand_token default parse) rest) _ (Post-read_values rest)
                (λ later _. returns tt)))

  Post-load :
      (files : Bytes → Option Bytes) (ref : ArrayRef) (expected : ℕ)
      → IsFound files ref
      → Post
          (λ values. Unit {0})
          IsAboutValues
          (load_keyword_array (expand_token default parse) files ref expected)
  unfolding load_keyword_array check_expected_count require
  Post-load files ref expected (keyword, integer, h) =
      let (rest, found) = h.found in
      rw (h.opens, ok-bind, found, ok-bind)
        (Post-bind _ _ (Post-read_values rest) (λ values _.
          Post-guard (not (not (expected == 0) && not (length values == expected))) unexpected_count
            _ tt (λ _. returns tt)))

-- Loading an array of a parsed deck, of integers or of doubles, for whatever count of values, finds
-- the file and the keyword: an exception is about a value or about the count.
module _ {D V : Type 0} (double_zero : D) (strtod : Bytes → Option D) (files : Bytes → Option Bytes)
    (resolve : Bytes → Bytes → Option Asset) where
  -- Loading an array of a grid that a text deck is parsed to finds the file and the keyword, for
  -- integers and doubles, which differ in the default and the parse of a value: an exception is
  -- about a value or about the number of them.
  pub load_keyword_array-parse_deck :
      (default : V) (parse : Bytes → Option V) (asset : Asset) (grid : GridInfo D) (ref : ArrayRef)
      (expected : ℕ) (e : DeckError)
      → parse_deck double_zero strtod files resolve asset ≡ ok grid
      → HasArray grid ref
      → load_keyword_array (expand_token default parse) files ref expected ≡ err e
      → IsAboutValues e
  load_keyword_array-parse_deck default parse asset grid ref expected e parsed has failed =
      let h = (parse_deck_sound double_zero strtod files resolve asset).1 grid parsed in
      Post-eq-err
        (Post-load default parse files ref expected (IsFound-IsDeckGrid files grid ref h has))
        failed
