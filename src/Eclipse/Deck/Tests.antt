-- ===== src/Eclipse/Deck/Tests.antt =====
-- Runs of the reader of text decks, and the theorems at them.
use cae_openusd_plugins.Prelude.{
  ℕ, ◌≡◌, ◌≢◌, inr, refl, Bool, true, false, Option, none, some, List, [], ◌∷◌, ◌++◌, Bytes, same,
  if◌then◌else◌, contains, replicate, length, get_elem?, take, arith,
}
use cae_openusd_plugins.Prelude.Chars.{codes, is_space, toupper}
use cae_openusd_plugins.Prelude.Decimal.{all_digits, digits_value, to_string}
use cae_openusd_plugins.Prelude.Int.{ℤ, pos, negsuc}
use cae_openusd_plugins.Prelude.Result.{ok, err, ◌>>=◌, ◌>>◌, guard, require}
use cae_openusd_plugins.Eclipse.Text.{to_upper}
use cae_openusd_plugins.Eclipse.Deck.{
  Token, new_tokenizer, slash, tokens, tokens_from, tokens_with, next, first_token, skip_blanks,
  split_quoted, split_word, read_record_tokens, skip_single_record,
}
use cae_openusd_plugins.Eclipse.Deck.Numbers.{
  unexpected_count, out_of_fuel, parse_int, unsigned_number, split_star, expand_token,
  expand_int_token,
}
use cae_openusd_plugins.Eclipse.Deck.Grid.{
  Asset, ArrayRef, GridInfo, is_deck_stop_keyword, is_no_data_keyword, is_block_keyword,
  is_double_cell_property_keyword, is_int_cell_property_keyword, is_supported_cell_property_keyword,
  set_property, parse_dim_record,
}
use cae_openusd_plugins.Eclipse.Deck.Parse.{
  parse_deck, parse_deck_file, parse_content, parse_deck_tokens, parse_keyword, parse_array,
  include_record, parse_property,
}
use cae_openusd_plugins.Eclipse.Deck.Arrays.{
  load_int_keyword_array, looks_like_grdecl, looks_like_from, find_keyword, read_values,
  load_keyword_array, check_expected_count, build_logical_cell_to_active_cell_array,
}
use cae_openusd_plugins.Eclipse.Deck.ActiveCells.{
  is_active, count_active, build_logical_cell_to_active_cell_array_lem,
}
use cae_openusd_plugins.Eclipse.Deck.Exhaust.{tokens-next}
use cae_openusd_plugins.Eclipse.Deck.Print.{
  AreWritable, none_written, and_written, of_quoted, of_slash, of_word, print_deck,
  tokens-print_deck,
}
use cae_openusd_plugins.Eclipse.Deck.Repeat.{expand_token-to_string}
use cae_openusd_plugins.Eclipse.Deck.Keyword.{HasNoSlash, expand_all, load_keyword_array_lem}
use cae_openusd_plugins.Eclipse.Deck.Sound.{IsDeckGrid}
use cae_openusd_plugins.Eclipse.Deck.Sound.Parse.{parse_deck_sound}
use cae_openusd_plugins.Eclipse.Deck.Sound.Load.{
  IsAboutValues, is_property, load_keyword_array-parse_deck,
}

-- A deck of one cell, with its arrays in an included file.
abbrev deck_text : Bytes
deck_text = codes "DIMENS 1 1 1 /\nINCLUDE 'b' / x\n"

abbrev included_text : Bytes
included_text = codes "COORD 24*0/\nZCORN 8*1/\nSatnum 7 /--\n"

abbrev files : Bytes → Option Bytes
files path =
    if same path (codes "a")
    then some deck_text
    else if same path (codes "b")
    then some included_text
    else none

abbrev resolve : Bytes → Bytes → Option Asset
resolve anchor path = some (record { identifier = path; local_path = path })

abbrev deck : Asset
deck = record { identifier = codes "a"; local_path = codes "a" }

abbrev ref_in_b : Bytes → Bool → ArrayRef
ref_in_b keyword integer = record { keyword = keyword; file_path = codes "b"; integer = integer }

abbrev deck_grid : GridInfo ℤ
deck_grid = record {
  dims = (pos 1, pos 1, pos 1);
  has_dims = true;
  coord = some (ref_in_b (codes "COORD") false);
  zcorn = some (ref_in_b (codes "ZCORN") false);
  actnum = none;
  map_axes = [];
  length_unit = [];
  properties = (codes "SATNUM", ref_in_b (codes "SATNUM") true) ∷ [];
}

parse_deck_run : parse_deck (pos 0) parse_int files resolve deck ≡ ok deck_grid
unfolding same tokens tokens_from next first_token skip_blanks is_space split_quoted split_word
    ◌>>=◌ ◌>>◌ guard require to_upper toupper parse_deck parse_deck_file parse_content
    parse_deck_tokens parse_array parse_keyword include_record parse_property contains
    is_deck_stop_keyword is_no_data_keyword is_block_keyword is_double_cell_property_keyword
    is_int_cell_property_keyword is_supported_cell_property_keyword set_property parse_dim_record
    parse_int unsigned_number all_digits digits_value read_record_tokens skip_single_record
parse_deck_run = refl

looks_like_grdecl_run : looks_like_grdecl files (codes "b") ≡ true
unfolding same tokens tokens_from next first_token skip_blanks is_space split_quoted split_word
    to_upper toupper looks_like_grdecl looks_like_from
looks_like_grdecl_run = refl

load_run : load_int_keyword_array files (ref_in_b (codes "SATNUM") true) 1 ≡ ok (pos 7 ∷ [])
unfolding same tokens tokens_from next first_token skip_blanks is_space split_quoted split_word
    ◌>>=◌ ◌>>◌ guard require to_upper toupper find_keyword read_values load_keyword_array
    check_expected_count expand_token split_star parse_int unsigned_number all_digits digits_value
load_run = refl

-- Twice the same keyword: the loader takes the one of the block.
abbrev block_text : Bytes
block_text = codes "EQUALS\nPORO 5 /\n/\nPORO 1 2 /\n"

load_from_block_run :
    load_int_keyword_array
      (λ path. some block_text)
      (record { keyword = codes "PORO"; file_path = []; integer = false })
      2
    ≡ err unexpected_count
unfolding same tokens tokens_from next first_token skip_blanks is_space split_quoted split_word
    ◌>>=◌ ◌>>◌ guard require to_upper toupper find_keyword read_values load_keyword_array
    check_expected_count expand_token split_star parse_int unsigned_number all_digits digits_value
load_from_block_run = refl

load_fails : load_int_keyword_array files (ref_in_b (codes "SATNUM") true) 2 ≡ err unexpected_count
unfolding same tokens tokens_from next first_token skip_blanks is_space split_quoted split_word
    ◌>>=◌ ◌>>◌ guard require to_upper toupper find_keyword read_values load_keyword_array
    check_expected_count expand_token split_star parse_int unsigned_number all_digits digits_value
load_fails = refl

parse_deck_sound_example :
    (parse_deck (pos 0) parse_int files resolve deck ≢ err out_of_fuel)
    × ((grid : GridInfo ℤ)
        → parse_deck (pos 0) parse_int files resolve deck ≡ ok grid
        → IsDeckGrid files grid)
parse_deck_sound_example = parse_deck_sound (pos 0) parse_int files resolve deck

load_keyword_array-parse_deck_example : IsAboutValues unexpected_count
load_keyword_array-parse_deck_example =
    load_keyword_array-parse_deck (pos 0) parse_int files resolve (pos 0) parse_int deck deck_grid
      (ref_in_b (codes "SATNUM") true) 2 unexpected_count parse_deck_run
      (is_property 0 (codes "SATNUM") refl) load_fails

abbrev quoted_name : Token
quoted_name = record { text = codes "a b"; quoted = true }

abbrev count_word : Token
count_word = record { text = codes "2*-7"; quoted = false }

abbrev written : List Token
written = quoted_name ∷ count_word ∷ slash ∷ []

written-AreWritable : AreWritable written
unfolding is_space
written-AreWritable =
    and_written quoted_name (count_word ∷ slash ∷ [])
      (of_quoted (codes "a b") (refl, (refl, (refl, tt))))
      (and_written count_word (slash ∷ [])
        (of_word 50 (codes "*-7") refl refl refl refl (refl, refl, (refl, refl, (refl, refl, tt))))
        (and_written slash [] of_slash none_written))

tokens-print_deck_example :
    tokens (new_tokenizer (print_deck written written-AreWritable (codes "x")))
    ≡ written ++ tokens (new_tokenizer (codes "x"))
tokens-print_deck_example = tokens-print_deck written written-AreWritable (codes "x")

tokens-next_example :
    tokens (new_tokenizer deck_text) ≡ tokens_with tokens (next (new_tokenizer deck_text))
tokens-next_example = tokens-next (new_tokenizer deck_text)

minus_seven : parse_int (codes "-7") ≡ some (negsuc 6)
unfolding parse_int unsigned_number all_digits digits_value
minus_seven = refl

expand_token-to_string_example :
    (expand_token (pos 0) parse_int (to_string 24 ++ b'*' ∷ []) ≡ ok (replicate 24 (pos 0)))
    × (expand_token (pos 0) parse_int (to_string 24 ++ b'*' ∷ codes "-7")
        ≡ ok (replicate 24 (negsuc 6)))
expand_token-to_string_example =
    expand_token-to_string (pos 0) parse_int 24 (codes "-7") (negsuc 6) (omega arith) (λ e. cc)
      minus_seven

abbrev active_flags : List ℤ
active_flags = pos 1 ∷ pos 0 ∷ pos 1 ∷ []

build_logical_cell_to_active_cell_array_lem_example :
    (mapping : List ℤ) × (build_logical_cell_to_active_cell_array active_flags ≡ ok mapping)
    × (length mapping ≡ length active_flags)
    × ((i : ℕ) (cell : ℤ)
        → get_elem? active_flags i ≡ some cell
        → get_elem? mapping i
          ≡ some (if is_active cell then pos (count_active (take i active_flags)) else negsuc 0))
build_logical_cell_to_active_cell_array_lem_example =
    build_logical_cell_to_active_cell_array_lem active_flags (omega arith)

abbrev satnum_before : List Token
satnum_before =
    record { text = codes "COORD"; quoted = false }
    ∷ record { text = codes "24*0"; quoted = false }
    ∷ slash
    ∷ record { text = codes "ZCORN"; quoted = false }
    ∷ record { text = codes "8*1"; quoted = false }
    ∷ slash
    ∷ []

abbrev satnum : Token
satnum = record { text = codes "Satnum"; quoted = false }

abbrev seven : Token
seven = record { text = codes "7"; quoted = false }

files_open : files (codes "b") ≡ some included_text
unfolding same
files_open = refl

included_split :
    tokens (new_tokenizer included_text) ≡ satnum_before ++ satnum ∷ ((seven ∷ []) ++ slash ∷ [])
unfolding tokens tokens_from next first_token skip_blanks is_space split_word
included_split = refl

satnum_first : find_keyword (codes "SATNUM") satnum_before ≡ none
unfolding find_keyword to_upper toupper same
satnum_first = refl

satnum_named : to_upper satnum.text ≡ codes "SATNUM"
unfolding to_upper toupper
satnum_named = refl

seven_no_slash : HasNoSlash (seven ∷ [])
unfolding same
seven_no_slash = (refl, tt)

seven_value : expand_all expand_int_token (seven ∷ []) ≡ ok (pos 7 ∷ [])
unfolding expand_all expand_token split_star parse_int unsigned_number all_digits digits_value ◌>>=◌
    require
seven_value = refl

load_keyword_array_lem_example :
    load_keyword_array expand_int_token files (ref_in_b (codes "SATNUM") true) 1 ≡ ok (pos 7 ∷ [])
load_keyword_array_lem_example =
    load_keyword_array_lem expand_int_token files (ref_in_b (codes "SATNUM") true) 1 included_text
      satnum_before satnum (seven ∷ []) [] (pos 7 ∷ []) files_open included_split satnum_first
      satnum_named seven_no_slash seven_value (inr refl)
