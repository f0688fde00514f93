-- ===== src/Eclipse/Deck/Arrays.antt =====
-- Loading the arrays of a text deck: BuildLogicalCellToActiveCellArray to ZcornValueCount, and
-- LooksLikeGrdecl, of OmniSciGrdeclFileFormat.cpp.
use cae_openusd_plugins.Prelude.{
  ℕ, zero, suc, ◌*◌, ◌%◌, ◌^◌, Bool, true, false, not, ◌||◌, ◌&&◌, Option, none, some, List, [],
  ◌∷◌, ◌++◌, Bytes, length, same, ltb, ◌==◌, if◌then◌else◌,
}
use cae_openusd_plugins.Prelude.Int.{ℤ, pos, negsuc, to_nat, ◌==ℤ◌}
use cae_openusd_plugins.Prelude.Result.{Result, ok, err, ◌>>=◌, ◌>>◌, guard, require}
use cae_openusd_plugins.Eclipse.Text.{to_upper}
use cae_openusd_plugins.Eclipse.Deck.{Token, is_slash, new_tokenizer, tokens}
use cae_openusd_plugins.Eclipse.Deck.Numbers.{
  DeckError, cannot_open, unexpected_count, keyword_not_found, overflow, expand_int_token,
  expand_double_token,
}
use cae_openusd_plugins.Eclipse.Deck.Grid.{ArrayRef, GridInfo, is_keyword}

abbrev pub int_limit : ℕ
int_limit = 2 ^ 31

-- `++activeCell`
abbrev next_cell : ℕ → Result DeckError ℕ
next_cell active = if ltb (suc active) int_limit then ok (suc active) else err overflow

-- The loop of `BuildLogicalCellToActiveCellArray`, from the active cells counted so far.
unfoldable pub map_cells : ℕ → List ℤ → Result DeckError (List ℤ)
map_cells active [] = ok []
map_cells active (cell ∷ cells) =
    if cell ==ℤ pos 0
    then map_cells active cells >>= (λ later. ok (negsuc 0 ∷ later))
    else (next_cell active >>= λ counted.
        map_cells counted cells >>= λ later. ok (pos active ∷ later))

-- `BuildLogicalCellToActiveCellArray`
unfoldable pub build_logical_cell_to_active_cell_array : List ℤ → Result DeckError (List ℤ)
build_logical_cell_to_active_cell_array = map_cells 0

-- The tokens behind the first one that is the keyword.
unfoldable pub find_keyword : Bytes → List Token → Option (List Token)
find_keyword keyword [] = none
find_keyword keyword (token ∷ rest) =
    let later = find_keyword keyword rest in
    if same (to_upper token.text) keyword then some rest else later

-- `CheckExpectedCount`
unfoldable pub check_expected_count : ℕ → ℕ → Result DeckError (Unit {0})
check_expected_count actual expected =
    guard (not (not (expected == 0) && not (actual == expected))) unexpected_count

module _ {V : Type 0} (expand : Bytes → Result DeckError (List V)) where
  -- The values up to a slash, or to the end.
  unfoldable pub read_values : List Token → Result DeckError (List V)
  read_values [] = ok []
  read_values (token ∷ rest) =
      if is_slash token
      then ok []
      else do values ← expand token.text; later ← read_values rest; ok (values ++ later)

  -- `LoadDoubleKeywordArray` and `LoadIntKeywordArray`
  unfoldable pub load_keyword_array :
      (Bytes → Option Bytes) → ArrayRef → ℕ → Result DeckError (List V)
  load_keyword_array files ref expected = do
    content ← require (files ref.file_path) cannot_open
    rest ← require (find_keyword ref.keyword (tokens (new_tokenizer content))) keyword_not_found
    values ← read_values rest
    check_expected_count (length values) expected
    ok values

abbrev pub load_int_keyword_array :
    (Bytes → Option Bytes) → ArrayRef → ℕ → Result DeckError (List ℤ)
load_int_keyword_array = load_keyword_array expand_int_token

abbrev pub load_double_keyword_array :
    {D : Type 0}
    → D
    → (Bytes → Option D)
    → (Bytes → Option Bytes)
    → ArrayRef
    → ℕ
    → Result DeckError (List D)
load_double_keyword_array double_zero strtod =
    load_keyword_array (expand_double_token double_zero strtod)

-- `LoadLogicalCellToActiveCellArray`
unfoldable pub load_logical_cell_to_active_cell_array :
    (Bytes → Option Bytes) → ArrayRef → ℕ → Result DeckError (List ℤ)
load_logical_cell_to_active_cell_array files actnum expected =
    load_int_keyword_array files actnum expected >>= build_logical_cell_to_active_cell_array

-- `dims + 1` is an int.
abbrev int_suc : ℤ → Result DeckError ℕ
int_suc (pos n) = if ltb (suc n) int_limit then ok (suc n) else err overflow
int_suc (negsuc zero) = ok 0
int_suc (negsuc (suc n)) = ok (to_nat (negsuc n))

module _ {D : Type 0} where
  -- `NumLogicalCells`, `CoordValueCount` and `ZcornValueCount`, of the type size_t
  unfoldable pub num_logical_cells : GridInfo D → ℕ
  num_logical_cells grid =
      let (nx, ny, nz) = grid.dims in (to_nat nx * to_nat ny % 2 ^ 64 * to_nat nz) % 2 ^ 64

  unfoldable pub coord_value_count : GridInfo D → Result DeckError ℕ
  coord_value_count grid = do
    let (nx, ny, nz) = grid.dims
    columns ← int_suc nx
    rows ← int_suc ny
    ok ((6 * columns % 2 ^ 64 * rows) % 2 ^ 64)

  unfoldable pub zcorn_value_count : GridInfo D → ℕ
  zcorn_value_count grid = (8 * num_logical_cells grid) % 2 ^ 64

-- The loop of `LooksLikeGrdecl` over at most `count` tokens.
unfoldable pub looks_like_from : ℕ → Bool → List Token → Bool
looks_like_from zero saw_deck_marker deck = saw_deck_marker
looks_like_from (suc count) saw_deck_marker [] = saw_deck_marker
looks_like_from (suc count) saw_deck_marker (token ∷ rest) =
    let keyword = to_upper token.text in
    let saw =
      saw_deck_marker
      || is_keyword keyword "DIMENS"
      || is_keyword keyword "RUNSPEC"
      || is_keyword keyword "GRID" in
    let later = looks_like_from count saw rest in
    if is_keyword keyword "COORD" || is_keyword keyword "ZCORN" || is_keyword keyword "SPECGRID"
    then true
    else if saw && is_keyword keyword "INCLUDE"
    then true
    else later

-- `LooksLikeGrdecl`
abbrev looks_like_content : Option Bytes → Bool
looks_like_content none = false
looks_like_content (some content) = looks_like_from 4096 false (tokens (new_tokenizer content))

unfoldable pub looks_like_grdecl : (Bytes → Option Bytes) → Bytes → Bool
looks_like_grdecl files file_path = looks_like_content (files file_path)
