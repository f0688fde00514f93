-- ===== src/Foam/Tests.antt =====
-- Runs of the parser of boundary files, and the theorems at them.
use cae_openusd_plugins.Prelude.{
  ◌≡◌, ◌≢◌, refl, some, List, [], ◌∷◌, Bytes, length, same, map, arith,
}
use cae_openusd_plugins.Prelude.Chars.{codes, is_space}
use cae_openusd_plugins.Prelude.Decimal.{parse_integer, skip_spaces, leading_digits, digits_value}
use cae_openusd_plugins.Prelude.Int.{pos}
use cae_openusd_plugins.Prelude.Result.{ok, err, ◌>>=◌, ◌>>◌, guard, require}
use cae_openusd_plugins.Foam.{
  out_of_fuel, skip_ws_and_comments, take_quoted, take_word, token_of, read_token, expect_token,
  stoi, read_int_token, set_entry, find_entry, read_entries, read_header, read_format,
  parse_header_info,
}
use cae_openusd_plugins.Foam.Boundary.{
  BoundaryPatchInfo, skip_entry, int_entry, parse_patch, parse_patches, parse_boundary_file,
}
use cae_openusd_plugins.Foam.Print.Boundary.{
  Patch, patch_info, ArePatches, print_boundary, parse_boundary_file-print_boundary,
}
use cae_openusd_plugins.Foam.Ends.Boundary.{Announces, parse_boundary_file_sound}

abbrev boundary_text : Bytes
boundary_text =
    codes
      "/*/ */FoamFile{format ascii;}// a\n2(in{type patch;nFaces 3;x (1;2);startFace 7;}\"b\"{})"

abbrev inlet : BoundaryPatchInfo
inlet = record { name = codes "in"; type = codes "patch"; start_face = pos 7; n_faces = pos 3 }

abbrev unnamed_type : BoundaryPatchInfo
unnamed_type = record { name = codes "b"; type = []; start_face = pos 0; n_faces = pos 0 }

parse_boundary_file_run : parse_boundary_file (some boundary_text) ≡ ok (inlet ∷ unnamed_type ∷ [])
unfolding parse_boundary_file parse_patches parse_patch int_entry skip_entry parse_header_info
    read_format read_header read_entries find_entry set_entry read_int_token stoi expect_token
    read_token token_of take_word take_quoted skip_ws_and_comments same is_space parse_integer
    skip_spaces leading_digits digits_value ◌>>=◌ ◌>>◌ guard require
parse_boundary_file_run = refl

parse_boundary_file_sound_example :
    (parse_boundary_file (some boundary_text) ≢ err out_of_fuel)
    × ((patches : List BoundaryPatchInfo)
        → parse_boundary_file (some boundary_text) ≡ ok patches
        → Announces boundary_text (length patches))
parse_boundary_file_sound_example = parse_boundary_file_sound boundary_text

abbrev written : List Patch
written =
    record { name = codes "in"; type = codes "patch"; start_face = 7; n_faces = 30 }
    ∷ record { name = codes "b"; type = codes "wall"; start_face = 37; n_faces = 0 }
    ∷ []

written-ArePatches : ArePatches written
unfolding is_space
written-ArePatches = (
  record {
    name = ((refl, (refl, tt)), refl);
    type = ((refl, (refl, (refl, (refl, (refl, tt))))), refl);
    start_face = omega arith;
    n_faces = omega arith;
  },
  (
    record {
      name = ((refl, tt), refl);
      type = ((refl, (refl, (refl, (refl, tt)))), refl);
      start_face = omega arith;
      n_faces = omega arith;
    },
    tt,
  ),
)

parse_boundary_file-print_boundary_example :
    parse_boundary_file (some (print_boundary written (codes "// end")))
    ≡ ok (map patch_info written)
parse_boundary_file-print_boundary_example =
    parse_boundary_file-print_boundary written (codes "// end") written-ArePatches (omega arith)
