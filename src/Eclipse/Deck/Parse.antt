-- ===== src/Eclipse/Deck/Parse.antt =====
-- Parsing a text deck: ParseDeckFile and ParseDeck of OmniSciGrdeclFileFormat.cpp. `files` opens a
-- path, and `resolve` stands for CaeResolveSiblingAsset.
use Prim.Native.String.{String}
use cae_openusd_plugins.Prelude.{
  contains, ℕ, zero, suc, Bool, true, false, not, ◌||◌, Option, none, some, List, [], ◌∷◌, Bytes,
  length, ltb, if◌then◌else◌,
}
use cae_openusd_plugins.Prelude.Chars.{codes}
use cae_openusd_plugins.Prelude.Result.{Result, ok, err, ◌>>=◌, ◌>>◌, guard, require}
use cae_openusd_plugins.Eclipse.Text.{to_upper}
use cae_openusd_plugins.Eclipse.Deck.{
  Token, is_slash, new_tokenizer, tokens, read_record_tokens, skip_single_record,
  skip_slash_terminated_block,
}
use cae_openusd_plugins.Eclipse.Deck.Numbers.{
  DeckError, too_deep, cannot_open, not_resolved, no_dimensions, no_coord, no_zcorn, out_of_fuel,
}
use cae_openusd_plugins.Eclipse.Deck.Grid.{
  Asset, ArrayRef, GridInfo, new_grid, ParseState, is_deck_stop_keyword, is_no_data_keyword,
  is_block_keyword, is_supported_cell_property_keyword, is_keyword, set_property, parse_dim_record,
  parse_grid_unit_record, parse_map_axes_record,
}

abbrev pub array_ref : Bytes → Asset → Bool → ArrayRef
array_ref keyword asset integer = record {
  keyword = keyword;
  file_path = asset.local_path;
  integer = integer;
}

abbrev pub is_some : Option ArrayRef → Bool
is_some none = false
is_some (some ref) = true

module _ {D : Type 0} (double_zero : D) (strtod : Bytes → Option D) (files : Bytes → Option Bytes)
    (resolve : Bytes → Bytes → Option Asset) where
  -- The tokens behind a keyword, and the state.
  abbrev pub Parsed : Type 0
  Parsed = Result DeckError (List Token × ParseState D)

  abbrev pub with_grid : ParseState D → GridInfo D → ParseState D
  with_grid state grid = record state { grid = grid }

  abbrev pub with_unit : String → ParseState D → ParseState D
  with_unit unit state = with_grid state (record state.grid { length_unit = codes unit })

  -- A record that changes the grid.
  abbrev pub then_grid : List Token → ParseState D → Result DeckError (GridInfo D) → Parsed
  then_grid rest state parsed = do grid ← parsed; ok (rest, with_grid state grid)

  module _ (include : Asset → ParseState D → Result DeckError (ParseState D)) (asset : Asset) where
    -- The body of INCLUDE, for its record.
    unfoldable pub include_record : List Token → ParseState D → Result DeckError (ParseState D)
    include_record [] state = ok state
    include_record (path ∷ record_tokens) state = do
      included ← require (resolve asset.identifier path.text) not_resolved
      include included state

    -- A cell property, or a keyword of no interest.
    unfoldable pub parse_property : Bytes → Option Bool → List Token → ParseState D → Parsed
    parse_property keyword (some integer) rest state =
        let ref = array_ref keyword asset integer in
        let properties = set_property keyword ref state.grid.properties in
        ok
          (skip_single_record rest, with_grid state (record state.grid { properties = properties }))
    parse_property keyword none rest state =
        if is_block_keyword keyword
        then ok (skip_slash_terminated_block rest, state)
        else ok (skip_single_record rest, state)

    -- An array of the grid, or another keyword behind those of `parse_keyword`.
    unfoldable pub parse_array : Bytes → List Token → ParseState D → Parsed
    parse_array keyword rest state =
        let skipped = skip_single_record rest in
        let grid = state.grid in
        if is_keyword keyword "COORD"
        then ok (
          skipped,
          with_grid state (record grid { coord = some (array_ref keyword asset false) }),
        )
        else if is_keyword keyword "ZCORN"
        then ok (
          skipped,
          with_grid state (record grid { zcorn = some (array_ref keyword asset false) }),
        )
        else if is_keyword keyword "ACTNUM"
        then ok (
          skipped,
          with_grid state (record grid { actnum = some (array_ref keyword asset true) }),
        )
        else parse_property keyword (is_supported_cell_property_keyword keyword) rest state

    -- The body of the loop behind the test for a stop keyword.
    unfoldable pub parse_keyword : Bytes → List Token → ParseState D → Parsed
    parse_keyword keyword rest state =
        let (record_tokens, later) = read_record_tokens rest in
        let grid = state.grid in
        if is_keyword keyword "METRIC"
        then ok (rest, with_unit "m" state)
        else if is_keyword keyword "FIELD"
            || is_keyword keyword "FIELD_US"
            || is_keyword keyword "FIELD_USA"
        then ok (rest, with_unit "ft" state)
        else if is_no_data_keyword keyword
        then ok (rest, state)
        else if is_keyword keyword "INCLUDE"
        then include_record record_tokens state >>= (λ state'. ok (later, state'))
        else if is_keyword keyword "DIMENS" || is_keyword keyword "SPECGRID"
        then then_grid later state (parse_dim_record record_tokens grid)
        else if is_keyword keyword "MAPAXES"
        then then_grid later state (parse_map_axes_record double_zero strtod record_tokens grid)
        else if is_keyword keyword "GRIDUNIT" || is_keyword keyword "MAPUNITS"
        then ok (later, with_grid state (parse_grid_unit_record record_tokens grid))
        else parse_array keyword rest state

    -- The loop over the tokens of a file. Each round takes one, so that their number is fuel
    -- enough.
    unfoldable pub parse_deck_tokens :
        ℕ → List Token → ParseState D → Result DeckError (ParseState D)
    parse_deck_tokens fuel [] state = ok state
    parse_deck_tokens zero (token ∷ rest) state = err out_of_fuel
    parse_deck_tokens (suc fuel) (token ∷ rest) state =
        if is_slash token
        then parse_deck_tokens fuel rest state
        else if is_deck_stop_keyword (to_upper token.text)
        then ok state
        else (parse_keyword (to_upper token.text) rest state >>= λ parsed.
            parse_deck_tokens fuel parsed.0 parsed.1)

    -- A file that has been opened for the first time.
    unfoldable pub parse_content : ParseState D → Bytes → Result DeckError (ParseState D)
    parse_content state content =
        let deck = tokens (new_tokenizer content) in
        let visited = asset.identifier ∷ state.visited_files in
        parse_deck_tokens (length deck) deck (record state { visited_files = visited })

  -- `ParseDeckFile`, with a bound on the levels of files that include each other.
  unfoldable pub parse_deck_file : ℕ → ℕ → Asset → ParseState D → Result DeckError (ParseState D)
  parse_deck_file zero depth asset state = err out_of_fuel
  parse_deck_file (suc levels) depth asset state =
      guard (not (ltb 64 depth)) too_deep
      >> (if contains state.visited_files asset.identifier
          then ok state
          else (require (files asset.local_path) cannot_open >>= λ content.
              parse_content (parse_deck_file levels (suc depth)) asset state content))

  -- `ParseDeck`: a file at depth 65 is refused, so that 66 levels are enough.
  unfoldable pub parse_deck : Asset → Result DeckError (GridInfo D)
  parse_deck asset = do
    state ← parse_deck_file 66 0 asset (record { grid = new_grid; visited_files = [] })
    guard state.grid.has_dims no_dimensions
    guard (is_some state.grid.coord) no_coord
    guard (is_some state.grid.zcorn) no_zcorn
    ok state.grid
