-- ===== src/Eclipse/Tests.antt =====
-- A small file of two items, read by the functions of the model, and the theorems at such inputs.
use cae_openusd_plugins.Prelude.{
  ℕ, ◌≡◌, ◌≢◌, ◌↔◌, refl, sym, subst, ◌∙◌, some-injective, true, Bytes, [], ◌∷◌, ◌++◌, some, none,
  same, if◌then◌else◌, arith,
}
use cae_openusd_plugins.Prelude.Chars.{codes, is_space}
use cae_openusd_plugins.Prelude.Int.{pos, negsuc, signed32}
use cae_openusd_plugins.Prelude.Result.{ok, err, ◌>>=◌, ◌>>◌, guard, require}
use cae_openusd_plugins.Stream.{read, tellg, seek_cur, seek_beg}
use cae_openusd_plugins.Eclipse.Words.{big, little, bytes32, read_int32, read_int32-bytes32}
use cae_openusd_plugins.Eclipse.Text.{trim_right}
use cae_openusd_plugins.Eclipse.Text.Trim.{IsTrimmed, IsPadding, trim_right-append}
use cae_openusd_plugins.Eclipse.Record.{
  Record, FileIndex, char, out_of_fuel, expected_data_bytes, is_integer_record,
}
use cae_openusd_plugins.Eclipse.Index.{
  Files, read_exact, read_record_length, index_file, find_first_record, stops,
}
use cae_openusd_plugins.Eclipse.Index.Framing.{ItemsAt}
use cae_openusd_plugins.Eclipse.Index.Sound.{IsIndex, index_file_sound}
use cae_openusd_plugins.Eclipse.Index.Complete.{IsAddressable, index_file_complete}
use cae_openusd_plugins.Eclipse.Index.Fuel.{index_file-ne-out_of_fuel}
use cae_openusd_plugins.Eclipse.Index.Find.{IsFirst, find_first_record_iff}
use cae_openusd_plugins.Eclipse.Load.{
  load_int_values, load_int_array, load_char_values, Floats, load_double_values, load_double_array,
}
use cae_openusd_plugins.Eclipse.Load.Payload.{payload_items}
use cae_openusd_plugins.Eclipse.Load.Agree.{
  load_int_array-eq-load_int_values, load_double_array-eq-load_double_values,
}
use cae_openusd_plugins.Eclipse.Load.Indexed.{
  load_int_values-index_file, load_char_values-index_file,
}

-- An item of two integers in two blocks, and one that holds a text.
abbrev sample : Bytes
sample =
    bytes32 big 16
    ++ codes "ACTNUM  "
    ++ bytes32 big 2
    ++ codes "INTE"
    ++ bytes32 big 16
    ++ bytes32 big 4
    ++ bytes32 big 7
    ++ bytes32 big 4
    ++ bytes32 big 4
    ++ bytes32 big 4294967295
    ++ bytes32 big 4
    ++ bytes32 big 16
    ++ codes "KEYWORDS"
    ++ bytes32 big 1
    ++ codes "CHAR"
    ++ bytes32 big 16
    ++ bytes32 big 8
    ++ codes "WOPR    "
    ++ bytes32 big 8

abbrev files : Files
files path = if same path (codes "A") then some sample else none

abbrev actnum : Record
actnum = record {
  keyword = codes "ACTNUM";
  kind = codes "INTE";
  count = 2;
  file_path = codes "A";
  endian = big;
  chunks = record { offset = 28; byte_count = 4 } ∷ record { offset = 40; byte_count = 4 } ∷ [];
}

abbrev keywords : Record
keywords = record {
  keyword = codes "KEYWORDS";
  kind = codes "CHAR";
  count = 1;
  file_path = codes "A";
  endian = big;
  chunks = record { offset = 76; byte_count = 8 } ∷ [];
}

abbrev sample_index : FileIndex
sample_index = record { file_path = codes "A"; endian = big; records = actnum ∷ keywords ∷ [] }

index_sample : index_file files (codes "A") [] ≡ ok sample_index
unfolding index_file read_record_length read tellg seek_cur bytes32 read_int32 trim_right
    expected_data_bytes same ◌>>=◌ ◌>>◌ guard require
index_sample = refl

load_sample : load_int_values files actnum ≡ ok (pos 7 ∷ negsuc 0 ∷ [])
unfolding load_int_values is_integer_record same read_exact read seek_beg bytes32 read_int32 ◌>>=◌
    ◌>>◌ guard require
load_sample = refl

sample_opened : files (codes "A") ≡ some sample
unfolding same
sample_opened = refl

sample-IsAddressable : IsAddressable sample
unfolding bytes32
sample-IsAddressable = omega arith

actnum_integer : is_integer_record actnum ≡ true
unfolding is_integer_record same
actnum_integer = refl

keywords_character : same keywords.kind char ≡ true
unfolding same
keywords_character = refl

inte-IsTrimmed : IsTrimmed (codes "INTE")
unfolding is_space
inte-IsTrimmed = refl

blanks-IsPadding : IsPadding (codes "    ")
unfolding is_space
blanks-IsPadding = (refl, (refl, (refl, (refl, tt))))

index_file_sound_example : IsIndex files (codes "A") [] sample_index
index_file_sound_example = index_file_sound files (codes "A") [] index_sample

-- The same index, with the content of the file named.
abbrev sample_at : IsIndex files (codes "A") [] sample_index
sample_at =
    let at = index_file_sound files (codes "A") [] index_sample in
    record {
      content = sample;
      content_is = sample_opened;
      endian_is = at.endian_is;
      path_is = at.path_is;
      items =
          subst (λ c. ItemsAt c (codes "A") big (stops []) 0 sample_index.records)
            (some-injective (sym at.content_is ∙ sample_opened)) at.items;
    }

index_file_complete_example : index_file files (codes "A") [] ≡ ok sample_index
index_file_complete_example =
    index_file_complete files (codes "A") [] sample_index sample_at sample-IsAddressable

index_file-ne-out_of_fuel_example : index_file files (codes "A") [] ≢ err out_of_fuel
index_file-ne-out_of_fuel_example = index_file-ne-out_of_fuel files (codes "A") []

find_first_record_iff_example :
    (find_first_record (actnum ∷ keywords ∷ []) (codes "KEYWORDS") (codes "WELLS") ≡ some keywords)
    ↔ IsFirst (actnum ∷ keywords ∷ []) (codes "KEYWORDS") (codes "WELLS") keywords
find_first_record_iff_example =
    find_first_record_iff (actnum ∷ keywords ∷ []) (codes "KEYWORDS") (codes "WELLS") keywords

load_int_values-index_file_example :
    load_int_values files actnum
    ≡ ok (payload_items 4 (λ bytes. read_int32 bytes big) sample actnum.chunks)
load_int_values-index_file_example =
    load_int_values-index_file files (codes "A") [] sample sample_index 0 actnum sample_opened
      sample-IsAddressable index_sample refl actnum_integer (refl, (refl, tt))

load_char_values-index_file_example :
    load_char_values files keywords ≡ ok (payload_items 8 trim_right sample keywords.chunks)
load_char_values-index_file_example =
    load_char_values-index_file files (codes "A") [] sample sample_index 1 keywords sample_opened
      sample-IsAddressable index_sample refl keywords_character (refl, tt)

load_int_array-eq-load_int_values_example :
    (load_int_array files actnum ≡ ok (pos 7 ∷ negsuc 0 ∷ []))
    ↔ (load_int_values files actnum ≡ ok (pos 7 ∷ negsuc 0 ∷ []))
load_int_array-eq-load_int_values_example =
    load_int_array-eq-load_int_values files actnum (pos 7 ∷ negsuc 0 ∷ [])

-- Bit patterns in place of floating-point numbers.
abbrev patterns : Floats
patterns = record { Double = ℕ; of_float32 = λ n. n; of_float64 = λ n. n }

abbrev poro : Record
poro = record actnum { kind = codes "REAL" }

load_double_array-eq-load_double_values_example :
    (load_double_array patterns files poro ≡ ok (7 ∷ 4294967295 ∷ []))
    ↔ (load_double_values patterns files poro ≡ ok (7 ∷ 4294967295 ∷ []))
load_double_array-eq-load_double_values_example =
    load_double_array-eq-load_double_values patterns files poro (7 ∷ 4294967295 ∷ [])

trim_right-append_example : trim_right (codes "INTE" ++ codes "    ") ≡ codes "INTE"
trim_right-append_example =
    trim_right-append (codes "INTE") (codes "    ") inte-IsTrimmed blanks-IsPadding

read_int32-bytes32_example :
    read_int32 (bytes32 little 4294967294 ++ (9 ∷ [])) little ≡ signed32 4294967294
read_int32-bytes32_example = read_int32-bytes32 little 4294967294 (9 ∷ []) (omega arith)
