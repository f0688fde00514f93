-- ===== src/Eclipse/Deck/Grid.antt =====
-- Parsing a text deck: GridInfo to ParseDeck of OmniSciGrdeclFileFormat.cpp. The resolver of
-- included files, the files and `strtod` are parameters.
use Prim.Native.String.{String}
use cae_openusd_plugins.Prelude.{
  Bool, true, false, ◌||◌, ◌&&◌, Option, none, some, List, [], ◌∷◌, ◌++◌, Bytes, length, take,
  contains, same, leb, ltb, if◌then◌else◌,
}
use cae_openusd_plugins.Prelude.Chars.{is_space, codes}
use cae_openusd_plugins.Prelude.Int.{ℤ, pos, negsuc}
use cae_openusd_plugins.Prelude.Result.{Result, ok, ◌>>=◌, ◌>>◌, guard, require}
use cae_openusd_plugins.Eclipse.Text.{to_upper}
use cae_openusd_plugins.Eclipse.Deck.{Token, tokens}
use cae_openusd_plugins.Eclipse.Deck.Numbers.{
  DeckError, bad_dimensions, nonpositive_dimensions, parse_int, expand_double_token,
}

-- What the reader asks of a `CaeResolverAsset`.
pub record Asset : Type 0 where
  pub identifier : Bytes
  pub local_path : Bytes

pub record ArrayRef : Type 0 where
  pub keyword : Bytes
  pub file_path : Bytes
  pub integer : Bool

pub record GridInfo (D : Type 0) : Type 0 where
  pub dims : ℤ × ℤ × ℤ
  pub has_dims : Bool
  pub coord : Option ArrayRef
  pub zcorn : Option ArrayRef
  pub actnum : Option ArrayRef
  pub map_axes : List D
  pub length_unit : Bytes
  pub properties : List (Bytes × ArrayRef)

abbrev pub new_grid : {D : Type 0} → GridInfo D
new_grid = record {
  dims = (pos 0, pos 0, pos 0);
  has_dims = false;
  coord = none;
  zcorn = none;
  actnum = none;
  map_axes = [];
  length_unit = [];
  properties = [];
}

pub record ParseState (D : Type 0) : Type 0 where
  pub grid : GridInfo D
  pub visited_files : List Bytes

abbrev keyword_set : List String → List Bytes
keyword_set [] = []
keyword_set (k ∷ keywords) = codes k ∷ keyword_set keywords

unfoldable pub is_deck_stop_keyword : Bytes → Bool
is_deck_stop_keyword = contains (keyword_set ("SOLUTION" ∷ "SUMMARY" ∷ "SCHEDULE" ∷ "END" ∷ []))

unfoldable pub is_no_data_keyword : Bytes → Bool
is_no_data_keyword = contains (
    keyword_set (
      "RUNSPEC" ∷ "GRID" ∷ "EDIT" ∷ "PROPS" ∷ "REGIONS" ∷ "OIL" ∷ "WATER" ∷ "GAS" ∷ "DISGAS"
      ∷ "VAPOIL" ∷ "METRIC" ∷ "FIELD" ∷ "FIELD_US" ∷ "FIELD_USA" ∷ "LAB" ∷ "INIT" ∷ "NOECHO"
      ∷ "ECHO" ∷ "NEWTRAN" ∷ "OLDTRAN" ∷ "UNIFIN" ∷ "UNIFOUT" ∷ "NOSIM" ∷ []))

unfoldable pub is_block_keyword : Bytes → Bool
is_block_keyword =
    contains (
      keyword_set ("ADD" ∷ "COPY" ∷ "EQUALS" ∷ "MULTIPLY" ∷ "FAULTS" ∷ "MULTFLT" ∷ "MULTREGT" ∷ []))

unfoldable pub is_double_cell_property_keyword : Bytes → Bool
is_double_cell_property_keyword = contains (
    keyword_set (
      "PORO" ∷ "PERMX" ∷ "PERMY" ∷ "PERMZ" ∷ "NTG" ∷ "SWATINIT" ∷ "SWCR" ∷ "SWL" ∷ "SWU" ∷ "SGL"
      ∷ "SGCR" ∷ "SGU" ∷ "SOGCR" ∷ "SOWCR" ∷ "ISGCR" ∷ []))

unfoldable pub is_int_cell_property_keyword : Bytes → Bool
is_int_cell_property_keyword = contains (
    keyword_set ("EQLNUM" ∷ "FIPNUM" ∷ "FLUXNUM" ∷ "SATNUM" ∷ "IMBNUM" ∷ "PVTNUM" ∷ "ROCKNUM" ∷ []))

-- `IsSupportedCellPropertyKeyword`, with what it writes to `integer`
unfoldable pub is_supported_cell_property_keyword : Bytes → Option Bool
is_supported_cell_property_keyword keyword =
    if is_int_cell_property_keyword keyword
    then some true
    else if is_double_cell_property_keyword keyword
    then some false
    else none

abbrev pub is_keyword : Bytes → String → Bool
is_keyword keyword name = same keyword (codes name)

abbrev pub is_positive : ℤ → Bool
is_positive (pos n) = ltb 0 n
is_positive (negsuc n) = false

-- `std::isspace` at the end of a text is dropped.
unfoldable pub trim_spaces : Bytes → Bytes
trim_spaces [] = []
trim_spaces (c ∷ text) = elim (trim_spaces text) [
  | [] ↦ if is_space c then [] else c ∷ []
  | d ∷ later ↦ c ∷ d ∷ later
]

-- The length unit that a name stands for.
unfoldable pub length_unit_of : Bytes → Bytes
length_unit_of unit_text =
    let unit = to_upper unit_text in
    if is_keyword unit "METRES"
      || is_keyword unit "METERS"
      || is_keyword unit "METRIC"
      || is_keyword unit "M"
    then codes "m"
    else if is_keyword unit "FEET" || is_keyword unit "FIELD" || is_keyword unit "FT"
    then codes "ft"
    else if is_keyword unit "CM" || is_keyword unit "CENTIMETRES" || is_keyword unit "CENTIMETERS"
    then codes "cm"
    else unit_text

-- `properties[keyword] = ref`
unfoldable pub set_property : Bytes → ArrayRef → List (Bytes × ArrayRef) → List (Bytes × ArrayRef)
set_property keyword ref [] = (keyword, ref) ∷ []
set_property keyword ref ((k, r) ∷ properties) =
    let later = set_property keyword ref properties in
    if same k keyword then (k, ref) ∷ properties else (k, r) ∷ later

module _ {D : Type 0} where
  -- `ParseDimRecord`
  unfoldable pub parse_dim_record : List Token → GridInfo D → Result DeckError (GridInfo D)
  parse_dim_record (x ∷ y ∷ z ∷ rest) grid = do
    nx ← require (parse_int x.text) bad_dimensions
    ny ← require (parse_int y.text) bad_dimensions
    nz ← require (parse_int z.text) bad_dimensions
    guard (is_positive nx && is_positive ny && is_positive nz) nonpositive_dimensions
    ok (record grid { dims = (nx, ny, nz); has_dims = true })
  parse_dim_record _ grid = ok grid

  -- `ParseGridUnitRecord`
  unfoldable pub parse_grid_unit_record : List Token → GridInfo D → GridInfo D
  parse_grid_unit_record [] grid = grid
  parse_grid_unit_record (unit ∷ rest) grid = record grid {
    length_unit = length_unit_of (trim_spaces unit.text);
  }

module _ {D : Type 0} (double_zero : D) (strtod : Bytes → Option D) where
  unfoldable pub expand_record : List Token → Result DeckError (List D)
  expand_record [] = ok []
  expand_record (token ∷ rest) = do
    values ← expand_double_token double_zero strtod token.text
    later ← expand_record rest
    ok (values ++ later)

  -- `ParseMapAxesRecord`
  unfoldable pub parse_map_axes_record : List Token → GridInfo D → Result DeckError (GridInfo D)
  parse_map_axes_record tokens grid = do
    values ← expand_record tokens
    ok (if leb 6 (length values) then record grid { map_axes = take 6 values } else grid)
