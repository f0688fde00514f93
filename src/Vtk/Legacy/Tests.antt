-- ===== src/Vtk/Legacy/Tests.antt =====
-- Small legacy files, and the theorems of the parser at them.
use cae_openusd_plugins.Prelude.{
  contains, ℕ, ◌+◌, ◌*◌, ◌≡◌, ◌≢◌, refl, false, Bytes, ◌++◌, some, [], ◌∷◌, length, leb,
  if◌then◌else◌, ◌==◌, arith, same,
}
use cae_openusd_plugins.Prelude.Chars.{codes, is_space, tolower}
use cae_openusd_plugins.Prelude.Int.{pos, ◌-ℤ◌, ◌+ℤ◌}
use cae_openusd_plugins.Prelude.Result.{Result, ok, err}
use cae_openusd_plugins.Stream.{Stream, open_stream, good, tellg, seek_beg}
use cae_openusd_plugins.Vtk.Error.{Error, out_of_fuel, signed_overflow}
use cae_openusd_plugins.Vtk.Action.{◌>>=◌, pure, lift, gets, act, modify, ensure, ◌>>◌, repeat}
use cae_openusd_plugins.Vtk.Types.{big_endian, decoded_byte_count}
use cae_openusd_plugins.Vtk.DatasetSpec.{DatasetSpec, new_dataset, unstructured_grid, push_array}
use cae_openusd_plugins.Vtk.Registry.Unique.{
  AllDistinct, IsRegistry, IsNewName, make_unique_name_lem,
}
use cae_openusd_plugins.Vtk.Scan.{
  next_token, consume_preamble, line_ends, word, read_token, current_offset, skip_line_ends,
  seek_absolute, line_of, get_line, drop_return, skip_lines, seek_back, skip_optional_metadata,
  stoll, stoi, read_size, read_int,
}
use cae_openusd_plugins.Vtk.Scan.Tokens.{consume_preamble-next_token}
use cae_openusd_plugins.Vtk.Legacy.{
  Settings, LegacyTokenParser, left_to_right, right_to_left, current_association_or_none,
  parse_payload, ascii_segment, binary_segment, on_input, debug_context_of,
}
use cae_openusd_plugins.Vtk.Legacy.Parse.{
  new_parser, parse_tokens, parse_section, or_else, parse_common_token, start_section,
  parse_dataset_token, parse_unstructured_grid_token, parse_attribute_token, parse_dataset_kind,
}
use cae_openusd_plugins.Vtk.Legacy.Sections.{
  decode_legacy_string, parse_extents_from_dimensions, parse_extent, parse_extents, int_steps,
  int_product, to_int, parse_points, parse_scalar_field, scalar_components, add_field,
}
use cae_openusd_plugins.Vtk.Legacy.File.{
  parse_legacy, LegacyHeader, read_header, parse_sections, before_dot, starts_with,
}
use cae_openusd_plugins.Vtk.Legacy.Strings.{encode_legacy_string, decode_legacy_string-encode}
use cae_openusd_plugins.Vtk.Legacy.Extents.{
  int_max, with_dimensions, parse_extents_from_dimensions_exact,
}
use cae_openusd_plugins.Vtk.Legacy.Sound.{AllSound, generic_names}
use cae_openusd_plugins.Vtk.Legacy.Sound.File.{parse_legacy_sound, parse_legacy-ne-out_of_fuel}
use cae_openusd_plugins.Vtk.Legacy.Arrays.{
  add_payload, add_array_from_payload, array_name_of, unique_name,
}
use cae_openusd_plugins.Vtk.Registry.{
  ArrayNameRegistry, find, put, candidate, search_suffix, make_unique_base, make_unique_name,
}
use cae_openusd_plugins.Prelude.Decimal.{
  digits, to_string, digits_value, leading_digits, skip_spaces, parse_integer,
}
use cae_openusd_plugins.Vtk.Sizes.{checked_mul, checked_add}
use cae_openusd_plugins.Vtk.Tokens.{
  normalize_legacy_token, supports_array_shape, evaluation_kind_for, to_lower_token,
}

abbrev pub settings : Settings
settings = record {
  file_path = codes "a.vtk";
  version_major = pos 0;
  binary = false;
  make_valid = λ name. name;
  trim = λ text. text;
  stod = λ text. ok 0;
  order = left_to_right;
}

abbrev pub line : Bytes → Bytes
line text = text ++ 10 ∷ []

abbrev pub small_file : Bytes
small_file =
    line (codes "# vtk DataFile Version 3.0")
    ++ (line (codes "a title")
        ++ (line (codes "ASCII")
            ++ (line (codes "DATASET UNSTRUCTURED_GRID")
                ++ (line (codes "POINTS 2 float")
                    ++ (line (codes "0 0 0 1 1 1")
                        ++ (line (codes "POINT_DATA 2")
                            ++ (line (codes "SCALARS a float 1")
                                ++ (line (codes "LOOKUP_TABLE default")
                                    ++ (line (codes "3 4")
                                        ++ (line (codes "SCALARS a int")
                                            ++ (line (codes "LOOKUP_TABLE default")
                                                ++ codes "3 4")))))))))))

abbrev pub no_dataset : DatasetSpec
no_dataset = new_dataset [] big_endian [] unstructured_grid

abbrev pub dataset_or_none : Result Error DatasetSpec → DatasetSpec
dataset_or_none (ok d) = d
dataset_or_none (err e) = no_dataset

unfoldable pub small_dataset : DatasetSpec
unfolding parse_legacy parse_sections read_header before_dot starts_with parse_tokens parse_section
    or_else parse_common_token start_section parse_dataset_token parse_unstructured_grid_token
    parse_attribute_token parse_dataset_kind parse_points parse_scalar_field scalar_components
    add_field decode_legacy_string add_payload add_array_from_payload array_name_of unique_name
    current_association_or_none parse_payload ascii_segment binary_segment on_input debug_context_of
    push_array word read_token current_offset line_ends skip_line_ends consume_preamble
    seek_absolute line_of get_line drop_return skip_lines seek_back skip_optional_metadata stoll
    stoi read_size read_int pure lift gets act modify ensure ◌>>=◌ ◌>>◌ repeat contains find put
    candidate search_suffix make_unique_base make_unique_name digits to_string digits_value
    leading_digits skip_spaces parse_integer is_space tolower checked_mul checked_add
    decoded_byte_count normalize_legacy_token supports_array_shape evaluation_kind_for
    to_lower_token same tellg seek_beg
small_dataset = dataset_or_none (parse_legacy settings (some small_file))

small_file_parses : parse_legacy settings (some small_file) ≡ ok small_dataset
unfolding small_dataset
small_file_parses = refl

-- The second field of the same name has another one.
small_names : generic_names small_dataset.arrays ≡ codes "a" ∷ codes "a_1" ∷ []
unfolding small_dataset
small_names = refl

parse_legacy_sound_example :
    (header : LegacyHeader) × (input : Stream) × (read_header settings (open_stream small_file)
      ≡ ok (header, input))
    × AllSound header.binary small_dataset.arrays
    × AllDistinct (generic_names small_dataset.arrays)
parse_legacy_sound_example = parse_legacy_sound settings small_file small_dataset small_file_parses

parse_legacy-ne-out_of_fuel_example : parse_legacy settings (some small_file) ≢ err out_of_fuel
parse_legacy-ne-out_of_fuel_example = parse_legacy-ne-out_of_fuel settings (some small_file)

decode_legacy_string-encode_example :
    decode_legacy_string (encode_legacy_string (λ c. c == 32) (codes "a b%")) ≡ codes "a b%"
decode_legacy_string-encode_example =
    decode_legacy_string-encode (λ c. c == 32) (codes "a b%") (omega arith)

abbrev parser : LegacyTokenParser
parser = new_parser (open_stream (codes " 1 2 3 4 5 6 ")) no_dataset

-- A cube of 2000 points on each side has more points than an `int` counts.
parse_extents_from_dimensions_exact_example :
    parse_extents_from_dimensions (pos 2000) (pos 2000) (pos 2000) parser ≡ (
      if leb (2000 * 2000 * 2000) int_max
      then ok (tt, record parser { dataset = with_dimensions 2000 2000 2000 no_dataset })
      else err signed_overflow)
parse_extents_from_dimensions_exact_example =
    parse_extents_from_dimensions_exact 2000 2000 2000 parser (omega arith) (omega arith)
      (omega arith) (omega arith) (omega arith) (omega arith)

-- A compiler that evaluates the arguments from the right takes the extents backwards.
backwards :
    parse_extent right_to_left parser
    ≡ ok (
      tt,
      record parser {
        input = good (codes " 1 2 3 4 5 6 ") 13;
        dataset = record no_dataset {
          min_extent = (pos 6, pos 4, pos 2);
          max_extent = (pos 5, pos 3, pos 1);
        };
      },
    )
unfolding small_dataset parse_extent parse_extents int_steps int_product to_int ◌-ℤ◌ ◌+ℤ◌
backwards = refl

consume_preamble-next_token_example :
    (next_token >>= λ token. consume_preamble) (good (codes " float" ++ 10 ∷ 10 ∷ 7 ∷ []) 0)
    ≡ ok (
      0 + length {A = ℕ} (32 ∷ []) + length (codes "float") + 1 + line_ends (10 ∷ 7 ∷ []),
      good
          (codes " float" ++ 10 ∷ 10 ∷ 7 ∷ [])
          (0 + length {A = ℕ} (32 ∷ []) + length (codes "float") + 1 + line_ends (10 ∷ 7 ∷ [])),
    )
unfolding is_space
consume_preamble-next_token_example =
    consume_preamble-next_token (codes " float" ++ 10 ∷ 10 ∷ 7 ∷ []) 0 (32 ∷ []) b'f' (codes "loat")
      10 (10 ∷ 7 ∷ []) refl (refl, tt) (refl, (refl, (refl, (refl, (refl, tt))))) refl

abbrev used_twice : ArrayNameRegistry
used_twice = record { used_names = codes "a_1" ∷ codes "a" ∷ []; next_suffix = (codes "a", 1) ∷ [] }

used_twice-IsRegistry : IsRegistry used_twice
unfolding contains same
used_twice-IsRegistry = record { distinct = (refl, (refl, tt)); small = (omega arith, tt) }

make_unique_name_lem_example :
    (name : Bytes) × (names' : ArrayNameRegistry) × (make_unique_name
        (λ name. name)
        (codes "a")
        (codes "array")
        used_twice
      ≡ some (name, names'))
    × IsNewName used_twice name names'
make_unique_name_lem_example =
    make_unique_name_lem (λ name. name) (codes "a") (codes "array") used_twice used_twice-IsRegistry
      (omega arith)
