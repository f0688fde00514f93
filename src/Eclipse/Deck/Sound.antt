-- ===== src/Eclipse/Deck/Sound.antt =====
-- What is stated of a parse of a text deck: of the value and of the exception together, since one
-- induction is about both.
pub mod Rest
pub mod Grid
pub mod Keyword
pub mod Parse
pub mod Load
use cae_openusd_plugins.Prelude.{
  ℕ, ◌≡◌, ◌⊎◌, Bool, true, false, ◌&&◌, Option, none, some, List, [], ◌∷◌, Bytes, length,
}
use cae_openusd_plugins.Prelude.Chars.{codes}
use cae_openusd_plugins.Prelude.Decimal.{in_range}
use cae_openusd_plugins.Prelude.Int.{ℤ}
use cae_openusd_plugins.Eclipse.Deck.{Token, new_tokenizer, tokens}
use cae_openusd_plugins.Eclipse.Deck.Numbers.{DeckError, out_of_fuel}
use cae_openusd_plugins.Eclipse.Deck.Grid.{
  ArrayRef, GridInfo, is_positive, is_supported_cell_property_keyword,
}
use cae_openusd_plugins.Eclipse.Deck.Arrays.{find_keyword}

-- An exception of the code.
abbrev pub IsThrown : DeckError → Type 0
IsThrown out_of_fuel = true ≡ false
IsThrown _ = Unit {0}

-- A keyword stands among some tokens.
abbrev pub HasKeyword : Bytes → List Token → Type 0
HasKeyword keyword deck = (rest : List Token) × (find_keyword keyword deck ≡ some rest)

-- A positive int.
abbrev pub IsDimension : ℤ → Type 0
IsDimension n = (is_positive n ≡ true) × (in_range 32 n ≡ true)

abbrev pub AreDimensions : ℤ × ℤ × ℤ → Type 0
AreDimensions (nx, ny, nz) = IsDimension nx × IsDimension ny × IsDimension nz

module _ (files : Bytes → Option Bytes) where
  -- An array under its keyword and with its type, in a file that opens and has the keyword.
  pub record IsRef (keyword : Bytes) (integer : Bool) (ref : ArrayRef) : Type 0 where
    pub keyword_eq : ref.keyword ≡ keyword
    pub integer_eq : ref.integer ≡ integer
    pub content : Bytes
    pub opens : files ref.file_path ≡ some content
    pub found : HasKeyword ref.keyword (tokens (new_tokenizer content))

  abbrev pub IsRefIfAny : Bytes → Bool → Option ArrayRef → Type 0
  IsRefIfAny keyword integer none = Unit {0}
  IsRefIfAny keyword integer (some ref) = IsRef keyword integer ref

  -- Every property is one that the reader supports, of the type that its keyword has.
  abbrev pub AreProperties : List (Bytes × ArrayRef) → Type 0
  AreProperties [] = Unit {0}
  AreProperties ((keyword, ref) ∷ properties) =
      (is_supported_cell_property_keyword keyword ≡ some ref.integer)
      × IsRef keyword ref.integer ref
      × AreProperties properties

  module _ {D : Type 0} where
    pub record IsGrid (grid : GridInfo D) : Type 0 where
      pub dims : grid.has_dims ≡ true → AreDimensions grid.dims
      pub coord : IsRefIfAny (codes "COORD") false grid.coord
      pub zcorn : IsRefIfAny (codes "ZCORN") false grid.zcorn
      pub actnum : IsRefIfAny (codes "ACTNUM") true grid.actnum
      pub map_axes : (length grid.map_axes ≡ 0) ⊎ (length grid.map_axes ≡ 6)
      pub properties : AreProperties grid.properties

    -- A grid with what the reader requires of a deck.
    pub record IsDeckGrid (grid : GridInfo D) : Type 0 where
      pub dims : AreDimensions grid.dims
      pub coord : (ref : ArrayRef) × (grid.coord ≡ some ref) × IsRef (codes "COORD") false ref
      pub zcorn : (ref : ArrayRef) × (grid.zcorn ≡ some ref) × IsRef (codes "ZCORN") false ref
      pub actnum : IsRefIfAny (codes "ACTNUM") true grid.actnum
      pub map_axes : (length grid.map_axes ≡ 0) ⊎ (length grid.map_axes ≡ 6)
      pub properties : AreProperties grid.properties
