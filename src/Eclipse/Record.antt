-- ===== src/Eclipse/Record.antt =====
-- The data of EclipseBinaryFile.h, the exceptions of EclipseBinaryFile.cpp, and the payload size that
-- a header declares.
use cae_openusd_plugins.Prelude.{
  ℕ, ◌-◌, ◌*◌, ◌/◌, ◌^◌, ◌≤◌, ◌≡◌, ◌≢◌, arith, Bool, true, not, ◌||◌, Bytes, List, ltb, ◌==◌, same,
  same_iff, if◌then◌else◌,
}
use cae_openusd_plugins.Prelude.Chars.{codes}
use cae_openusd_plugins.Prelude.Int.{ℤ}
use cae_openusd_plugins.Prelude.Result.{Result, ok, err, ◌>>=◌, ◌>>◌, guard}
use cae_openusd_plugins.Eclipse.Words.{Endian}

-- The exceptions, each with the keyword that its message names; `out_of_fuel` is the model's own.
pub data Error : Type 0 where
  truncated_marker no_position skip_too_large skip_failed byte_count_overflow : Error
  truncated_header mismatched_header_markers no_item_header out_of_fuel : Error
  chunk_too_large chunk_size_mismatch chunk_offset_too_large : Error
  unsupported_type missing_data negative_marker excess_data mismatched_data_markers : Bytes → Error
  negative_count cannot_open seek_failed truncated_payload : Bytes → Error
  not_integer not_floating_point not_character partial_value_chunk count_mismatch : Bytes → Error
  bad_header_length : ℤ → Error

pub record DataChunk : Type 0 where
  pub offset : ℕ
  pub byte_count : ℕ

pub record Record : Type 0 where
  pub keyword : Bytes
  pub kind : Bytes
  pub count : ℕ
  pub file_path : Bytes
  pub endian : Endian
  pub chunks : List DataChunk

pub record FileIndex : Type 0 where
  pub file_path : Bytes
  pub endian : Endian
  pub records : List Record

abbrev pub inte : Bytes
inte = codes "INTE"

abbrev pub logi : Bytes
logi = codes "LOGI"

abbrev pub real : Bytes
real = codes "REAL"

abbrev pub doub : Bytes
doub = codes "DOUB"

abbrev pub char : Bytes
char = codes "CHAR"

pub type_item_size : Bytes → Result Error ℕ
type_item_size kind =
    if same kind inte || same kind logi || same kind real
    then ok 4
    else if same kind doub || same kind char
    then ok 8
    else err (Error.unsupported_type kind)

-- A record of no items carries no payload, whatever its type.
unfoldable pub expected_data_bytes : ℕ → Bytes → Result Error ℕ
unfolding type_item_size guard ◌>>=◌ ◌>>◌
expected_data_bytes count kind = if count == 0 then ok 0 else do
  item_size ← type_item_size kind
  guard (not (ltb ((2 ^ 64 - 1) / item_size) count)) Error.byte_count_overflow
  ok (count * item_size)

unfoldable pub is_integer_record : Record → Bool
is_integer_record r = same r.kind inte || same r.kind logi

unfoldable pub is_floating_point_record : Record → Bool
is_floating_point_record r = same r.kind real || same r.kind doub

unfoldable pub is_numeric_record : Record → Bool
unfolding is_integer_record is_floating_point_record
is_numeric_record r = is_integer_record r || is_floating_point_record r

pub expected_data_bytes-le :
    (count : ℕ) (kind : Bytes) (n : ℕ) → expected_data_bytes count kind ≡ ok n → n ≤ 8 * count
unfolding expected_data_bytes
expected_data_bytes-le count kind n h = ground arith

pub expected_data_bytes-ne-out_of_fuel :
    (count : ℕ) (kind : Bytes) → expected_data_bytes count kind ≢ err Error.out_of_fuel
unfolding expected_data_bytes
expected_data_bytes-ne-out_of_fuel count kind h = ground arith

-- The item size of a record of integers.
pub expected_data_bytes-integer :
    (r : Record) (n : ℕ)
    → is_integer_record r ≡ true
    → expected_data_bytes r.count r.kind ≡ ok n
    → n ≡ r.count * 4
unfolding expected_data_bytes is_integer_record
expected_data_bytes-integer r n i h = ground arith

-- The item size of a record of floating-point numbers depends on its type.
abbrev pub float_size : Record → ℕ
float_size r = if same r.kind real then 4 else 8

pub expected_data_bytes-floating :
    (r : Record) (n : ℕ)
    → is_floating_point_record r ≡ true
    → expected_data_bytes r.count r.kind ≡ ok n
    → n ≡ r.count * float_size r
unfolding expected_data_bytes is_floating_point_record
expected_data_bytes-floating r n i h =
    ground (arith, same_iff r.kind inte, same_iff r.kind logi, same_iff r.kind doub)

pub expected_data_bytes-character :
    (r : Record) (n : ℕ)
    → same r.kind char ≡ true
    → expected_data_bytes r.count r.kind ≡ ok n
    → n ≡ r.count * 8
unfolding expected_data_bytes
expected_data_bytes-character r n i h =
    ground (
      arith,
      same_iff r.kind char,
      same_iff r.kind inte,
      same_iff r.kind logi,
      same_iff r.kind real,
    )
