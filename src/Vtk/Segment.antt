-- ===== src/Vtk/Segment.antt =====
-- The payload segment readers of FileHandle.cpp: raw and base64 segments of a file. Memory that the
-- source leaves uninitialised before it is filled stands here as zeros, which no result shows.
pub mod Raw
use cae_openusd_plugins.Prelude.{
  ℕ, ◌+◌, ◌-◌, ◌*◌, ◌/◌, ◌%◌, min, Bool, true, false, not, ◌||◌, Option, List, Bytes, [], ◌++◌,
  length, take, drop, replicate, ltb, leb, ◌==◌, if◌then◌else◌,
}
use cae_openusd_plugins.Prelude.Int.{ℤ}
use cae_openusd_plugins.Prelude.Result.{Result, ok, ◌>>=◌, ◌>>◌, guard}
use cae_openusd_plugins.Vtk.Error.{
  Error, overflow, not_quartet_aligned, source_range, decoded_range, not_triple_aligned,
  triple_not_aligned,
}
use cae_openusd_plugins.Vtk.Types.{ScalarType, ByteOrder, size_max, byte_swap}
use cae_openusd_plugins.Vtk.Sizes.{checked_add}
use cae_openusd_plugins.Vtk.Workers.{write_at, run_tasks}
use cae_openusd_plugins.Vtk.Range.{read_file_range_parallel}
use cae_openusd_plugins.Vtk.Base64.{decode_quartet, decode_into}

-- `FileHandle`, with what the machine gives it: the order and the number of its workers, and the
-- order of its bytes.
pub record FileHandle : Type 0 where
  pub content : Option Bytes
  pub byte_order : ByteOrder
  pub io_threads : ℤ
  pub order : ℕ → List ℕ
  pub limit : ℕ
  pub host_little : Bool

pub record PayloadSegmentSpec : Type 0 where
  pub start_offset : ℕ
  pub byte_count : ℕ

-- `ReadFileRangeIntoParallel` of a handle's file.
abbrev pub read_range : FileHandle → ℕ → ℕ → Bytes → Result Error Bytes
read_range file offset count target =
    read_file_range_parallel file.order file.limit file.io_threads file.content offset count target

-- `NormalizeScalarBytesInPlace`
abbrev pub normalize : FileHandle → Bytes → ScalarType → Result Error Bytes
normalize file bytes scalar_type = byte_swap file.host_little bytes scalar_type file.byte_order

-- `CheckDecodedRange`
abbrev pub check_decoded_range : ℕ → ℕ → ℕ → Result Error (Unit {0})
check_decoded_range decoded_size skip count =
    guard (not (ltb decoded_size skip || ltb (decoded_size - skip) count)) decoded_range

-- `RawPayloadSegmentReader::ReadInto`
unfoldable pub read_raw_into :
    FileHandle → PayloadSegmentSpec → Bytes → ℕ → ScalarType → ℕ → Result Error Bytes
read_raw_into file segment target count scalar_type skip = do
  check_decoded_range segment.byte_count skip count
  offset ← checked_add segment.start_offset skip
  bytes ← read_range file offset count target
  normalize file bytes scalar_type

-- `ReadSegmentFileRangeInto`, and `ReadSegmentFileRange` with a fresh target.
unfoldable pub read_segment_range : FileHandle → PayloadSegmentSpec → ℕ → ℕ → Result Error Bytes
read_segment_range file segment source_offset count = do
  guard
      (not (ltb segment.byte_count source_offset || ltb (segment.byte_count - source_offset) count))
      source_range
  offset ← checked_add segment.start_offset source_offset
  read_range file offset count (replicate count 0)

-- `DecodedBase64ByteCount`
unfoldable pub decoded_base64_byte_count : FileHandle → PayloadSegmentSpec → Result Error ℕ
decoded_base64_byte_count file segment = do
  guard (segment.byte_count % 4 == 0) not_quartet_aligned
  if segment.byte_count == 0
      then ok 0
      else (read_segment_range file segment (segment.byte_count - 4) 4 >>= λ final_quartet.
          decode_quartet final_quartet true >>= λ q.
          let preceding = segment.byte_count / 4 - 1 in
          guard (not (ltb ((size_max - q.1) / 3) preceding)) overflow >> ok (preceding * 3 + q.1))

-- `ReadDecodedTriple`
unfoldable pub read_decoded_triple : FileHandle → PayloadSegmentSpec → ℕ → Result Error (Bytes × ℕ)
read_decoded_triple file segment triple_offset = do
  guard (triple_offset % 3 == 0) triple_not_aligned
  let quartet_index = triple_offset / 3
  guard (not (ltb (size_max / 4) quartet_index)) overflow
  encoded ← read_segment_range file segment (quartet_index * 4) 4
  decode_quartet encoded (quartet_index * 4 + 4 == segment.byte_count)

-- Base64DecodedBytesPerBatch
abbrev pub bytes_per_batch : ℕ
bytes_per_batch = 2 * 1024 * 1024 * 3

-- `ReadAlignedBatchInto`, with `ReadEncodedRange`
unfoldable pub read_aligned_batch :
    FileHandle → PayloadSegmentSpec → ℕ → ℕ → ℕ → Bytes → Result Error Bytes
read_aligned_batch file segment decoded_begin decoded_end batch target = do
  let batch_begin = decoded_begin + batch * bytes_per_batch
  let batch_count = min (decoded_end - batch_begin) bytes_per_batch
  let encoded_offset = batch_begin / 3 * 4
  let encoded_count = batch_count / 3 * 4
  guard (not (not (encoded_offset % 4 == 0) || not (encoded_count % 4 == 0))) not_quartet_aligned
  text ← read_segment_range file segment encoded_offset encoded_count
  decoded ← decode_into text batch_count false
  ok (write_at (batch_begin - decoded_begin) decoded target)

-- `ReadAlignedMiddleInto`
unfoldable pub read_aligned_middle :
    FileHandle → PayloadSegmentSpec → ℕ → ℕ → Bytes → Result Error Bytes
read_aligned_middle file segment decoded_begin decoded_end target = do
  guard (not (not (decoded_begin % 3 == 0) || not (decoded_end % 3 == 0))) not_triple_aligned
  let batch_count = 1 + (decoded_end - decoded_begin - 1) / bytes_per_batch
  if leb decoded_end decoded_begin
      then ok target
      else run_tasks (read_aligned_batch file segment decoded_begin decoded_end)
          (file.order batch_count) target

-- The bytes from `cursor` on of the triple that it points into, up to `decoded_end`.
unfoldable pub read_head : FileHandle → PayloadSegmentSpec → ℕ → ℕ → Result Error Bytes
read_head file segment cursor decoded_end = do
  let triple_begin = cursor / 3 * 3
  let copy_offset = cursor - triple_begin
  triple ← read_decoded_triple file segment triple_begin
  guard (ltb copy_offset triple.1) decoded_range
  ok (take (min decoded_end (triple_begin + triple.1) - cursor) (drop copy_offset triple.0))

-- The bytes of the last triple, from its first one to `decoded_end`.
unfoldable pub read_tail : FileHandle → PayloadSegmentSpec → ℕ → ℕ → Result Error Bytes
read_tail file segment cursor decoded_end = do
  let triple_begin = cursor / 3 * 3
  let copy_offset = cursor - triple_begin
  triple ← read_decoded_triple file segment triple_begin
  guard (not (ltb triple.1 copy_offset || ltb (triple.1 - copy_offset) (decoded_end - cursor)))
      decoded_range
  ok (take (decoded_end - cursor) (drop copy_offset triple.0))

-- The three parts of a range, stored one after the other.
unfoldable pub read_parts : FileHandle → PayloadSegmentSpec → Bytes → ℕ → ℕ → Result Error Bytes
read_parts file segment target skip decoded_end = do
  head ← (if skip % 3 == 0 then ok [] else read_head file segment skip decoded_end)
  let cursor = skip + length head
  let middle_end = decoded_end / 3 * 3
  middle ←
      (if ltb cursor middle_end
        then read_aligned_middle file segment cursor middle_end
            (take (middle_end - cursor) (drop (cursor - skip) target))
        else ok [])
  let cursor_after = cursor + length middle
  tail ←
      (if ltb cursor_after decoded_end
        then read_tail file segment cursor_after decoded_end
        else ok [])
  ok (head ++ (middle ++ tail))

-- `Base64PayloadSegmentReader::ReadInto`, its construction included.
unfoldable pub read_base64_into :
    FileHandle → PayloadSegmentSpec → Bytes → ℕ → ScalarType → ℕ → Result Error Bytes
read_base64_into file segment target count scalar_type skip = do
  decoded_count ← decoded_base64_byte_count file segment
  check_decoded_range decoded_count skip count
  bytes ← (if count == 0 then ok target else read_parts file segment target skip (skip + count))
  normalize file bytes scalar_type
