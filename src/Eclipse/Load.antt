-- ===== src/Eclipse/Load.antt =====
-- The loading half of EclipseBinaryFile.cpp: the payload of an indexed record, read on demand.
pub mod Agree
pub mod Payload
pub mod Indexed
use cae_openusd_plugins.Prelude.{
  ℕ, zero, suc, ◌-◌, ◌%◌, ◌^◌, not, Bytes, List, [], ◌∷◌, ◌++◌, length, take, drop, ltb, leb, ◌==◌,
  same, if◌then◌else◌,
}
use cae_openusd_plugins.Prelude.Int.{ℤ}
use cae_openusd_plugins.Prelude.Result.{Result, ok, err, ◌>>=◌, ◌>>◌, guard, require}
use cae_openusd_plugins.Stream.{open_stream, streamoff_max, seek_beg}
use cae_openusd_plugins.Eclipse.Words.{read_int32, read_uint32, read_uint64}
use cae_openusd_plugins.Eclipse.Text.{trim_right}
use cae_openusd_plugins.Eclipse.Record.{
  Error, DataChunk, Record, is_integer_record, is_floating_point_record, float_size, real, char,
}
use cae_openusd_plugins.Eclipse.Index.{Files, read_exact}

pub checked_chunk_byte_count : DataChunk → Result Error ℕ
checked_chunk_byte_count chunk =
    if ltb (2 ^ 64 - 1) chunk.byte_count then err Error.chunk_too_large else ok chunk.byte_count

-- `ReadRecordBytes` into a buffer of `byte_count` bytes.
pub read_record_bytes : Files → Record → DataChunk → ℕ → Result Error Bytes
read_record_bytes files r chunk byte_count = do
  size ← checked_chunk_byte_count chunk
  guard (size == byte_count) Error.chunk_size_mismatch
  if byte_count == 0 then ok [] else do
    content ← require (files r.file_path) (Error.cannot_open r.file_path)
    guard (not (ltb streamoff_max chunk.offset)) Error.chunk_offset_too_large
    let s = seek_beg chunk.offset (open_stream content)
    guard (not s.fail) (Error.seek_failed r.keyword)
    require (read_exact byte_count s).0 (Error.truncated_payload r.keyword)

module _ {A : Type 0} where
  -- One store of `CaeLoadEclipse…Array` each; the array has room for `r.count` values, and `stored`
  -- are those written, so its length is `index`.
  pub store_items : Record → List A → List A → Result Error (List A)
  store_items r stored [] = ok stored
  store_items r stored (value ∷ rest) = do
    guard (not (leb r.count (length stored))) (Error.count_mismatch r.keyword)
    store_items r (stored ++ value ∷ []) rest

module _ {A : Type 0} (width : ℕ) (decode : Bytes → A) where
  -- `for (offset = 0; offset < size; offset += width)`; the fuel is the number of bytes.
  pub decode_items : ℕ → Bytes → List A
  decode_items zero bytes = []
  decode_items (suc fuel) [] = []
  decode_items (suc fuel) (b ∷ bs) =
      decode (take width (b ∷ bs)) ∷ decode_items fuel (drop width (b ∷ bs))

  -- The loop over the chunks of `CaeLoadEclipse…Values`, from the values read so far.
  pub load_chunks : Files → Record → List A → List DataChunk → Result Error (List A)
  load_chunks files r values [] = ok values
  load_chunks files r values (chunk ∷ rest) = do
    guard (chunk.byte_count % width == 0) (Error.partial_value_chunk r.keyword)
    size ← checked_chunk_byte_count chunk
    bytes ← read_record_bytes files r chunk size
    load_chunks files r (values ++ decode_items (length bytes) bytes) rest

  -- `CaeLoadEclipse…Values` behind its test of the type.
  pub load_values : Files → Record → Result Error (List A)
  unfolding load_chunks
  load_values files r = do
    values ← load_chunks files r [] r.chunks
    guard (length values == r.count) (Error.count_mismatch r.keyword)
    ok values

  pub store_chunks : Files → Record → List A → List DataChunk → Result Error (List A)
  store_chunks files r stored [] = ok stored
  store_chunks files r stored (chunk ∷ rest) = do
    guard (chunk.byte_count % width == 0) (Error.partial_value_chunk r.keyword)
    size ← checked_chunk_byte_count chunk
    bytes ← read_record_bytes files r chunk size
    stored' ← store_items r stored (decode_items (length bytes) bytes)
    store_chunks files r stored' rest

  -- `CaeLoadEclipse…Array` behind its test of the type.
  pub load_array : Files → Record → Result Error (List A)
  unfolding store_chunks store_items
  load_array files r = do
    stored ← store_chunks files r [] r.chunks
    guard (length stored == r.count) (Error.count_mismatch r.keyword)
    ok stored

-- `CaeLoadEclipseIntValues`
unfoldable pub load_int_values : Files → Record → Result Error (List ℤ)
unfolding load_values decode_items read_record_bytes checked_chunk_byte_count
load_int_values files r = do
  guard (is_integer_record r) (Error.not_integer r.keyword)
  load_values 4 (λ bytes. read_int32 bytes r.endian) files r

-- `CaeLoadEclipseIntArray`
unfoldable pub load_int_array : Files → Record → Result Error (List ℤ)
unfolding load_array decode_items read_record_bytes checked_chunk_byte_count
load_int_array files r = do
  guard (is_integer_record r) (Error.not_integer r.keyword)
  load_array 4 (λ bytes. read_int32 bytes r.endian) files r

-- What the language makes of the bits of a `float`, cast to `double`, and of a `double`.
pub record Floats : Type 1 where
  pub Double : Type 0
  pub of_float32 : ℕ → Double
  pub of_float64 : ℕ → Double

module _ (floats : Floats) where
  open floats use {Double, of_float32, of_float64}

  pub decode_double : Record → Bytes → Double
  decode_double r bytes =
      if same r.kind real
      then of_float32 (read_uint32 bytes r.endian)
      else of_float64 (read_uint64 bytes r.endian)

  -- `CaeLoadEclipseDoubleValues`
  pub load_double_values : Files → Record → Result Error (List Double)
  load_double_values files r = do
    guard (is_floating_point_record r) (Error.not_floating_point r.keyword)
    load_values (float_size r) (decode_double r) files r

  -- `CaeLoadEclipseDoubleArray`
  pub load_double_array : Files → Record → Result Error (List Double)
  load_double_array files r = do
    guard (is_floating_point_record r) (Error.not_floating_point r.keyword)
    load_array (float_size r) (decode_double r) files r

-- `CaeLoadEclipseCharValues`
unfoldable pub load_char_values : Files → Record → Result Error (List Bytes)
unfolding load_values decode_items read_record_bytes checked_chunk_byte_count
load_char_values files r = do
  guard (same r.kind char) (Error.not_character r.keyword)
  load_values 8 trim_right files r
