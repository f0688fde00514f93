-- ===== src/Eclipse/Index.antt =====
-- The indexing half of EclipseBinaryFile.cpp: record markers, item headers, data chunks, the file.
pub mod Framing
pub mod Markers
pub mod Chunks
pub mod Fuel
pub mod Items
pub mod Sound
pub mod Complete
pub mod Find
use cae_openusd_plugins.Prelude.{
  ℕ, zero, suc, ◌+◌, ◌%◌, ◌^◌, Bool, true, false, not, ◌&&◌, ◌||◌, Option, none, some, Bytes, List,
  [], ◌∷◌, length, take, drop, ltb, ◌==◌, same, if◌then◌else◌,
}
use cae_openusd_plugins.Prelude.Int.{ℤ, pos, is_neg, to_nat, ◌==ℤ◌}
use cae_openusd_plugins.Prelude.Result.{Result, ok, err, ◌>>=◌, ◌>>◌, guard, require}
use cae_openusd_plugins.Stream.{Stream, open_stream, streamoff_max, read, tellg, seek_cur}
use cae_openusd_plugins.Eclipse.Words.{Endian, big, little, read_int32}
use cae_openusd_plugins.Eclipse.Text.{trim_right}
use cae_openusd_plugins.Eclipse.Record.{Error, DataChunk, Record, FileIndex, expected_data_bytes}

-- The file system: what opening a path for reading gives.
abbrev pub Files : Type 0
Files = Bytes → Option Bytes

-- `ReadExact`: the bytes, or `none` for a short read.
unfoldable pub read_exact : ℕ → Stream → Option Bytes × Stream
read_exact n s =
    let (bytes, s') = read n s in
    if ltb streamoff_max n
    then (none, s)
    else if not (s'.eof || s'.fail) || (s'.eof && length bytes == n)
    then (some bytes, s')
    else (none, s')

-- `ReadRecordLength`: `none` is its `false`, at the end of the file.
unfoldable pub read_record_length : Stream → Endian → Result Error (Option ℤ × Stream)
read_record_length s endian =
    let (bytes, s') = read 4 s in
    if length bytes == 0 && s'.eof
    then ok (none, s')
    else if not (length bytes == 4)
    then err Error.truncated_marker
    else ok (some (read_int32 bytes endian), s')

pub tell : Stream → Result Error ℕ
tell s = require (tellg s) Error.no_position

pub seek_forward : ℕ → Stream → Result Error Stream
seek_forward n s =
    let s' = seek_cur n s in
    if ltb streamoff_max n
    then err Error.skip_too_large
    else if s'.fail
    then err Error.skip_failed
    else ok s'

-- The marker behind a block repeats the one before it.
abbrev pub closes : Option ℤ → ℤ → Bool
closes none n = false
closes (some m) n = m ==ℤ n

-- One round of the loop of `ReadEclipseRecordChunks`.
pub read_chunk : Stream → Endian → Bytes → ℕ → ℕ → Result Error (DataChunk × Stream)
unfolding tell seek_forward
read_chunk s endian keyword expected bytes_read = do
  (marker, s1) ← read_record_length s endian
  data_length ← require marker (Error.missing_data keyword)
  guard (not (is_neg data_length)) (Error.negative_marker keyword)
  let chunk_bytes = to_nat data_length
  guard (not (ltb expected ((bytes_read + chunk_bytes) % 2 ^ 64))) (Error.excess_data keyword)
  offset ← tell s1
  s2 ← seek_forward chunk_bytes s1
  (end_marker, s3) ← read_record_length s2 endian
  guard (closes end_marker data_length) (Error.mismatched_data_markers keyword)
  ok (record { offset = offset; byte_count = chunk_bytes }, s3)

-- `while (bytesRead < expectedBytes)`; the result is what the rounds append to `record->chunks`.
pub read_chunks : ℕ → Stream → Endian → Bytes → ℕ → ℕ → Result Error (List DataChunk × Stream)
read_chunks zero s endian keyword expected bytes_read = err Error.out_of_fuel
read_chunks (suc fuel) s endian keyword expected bytes_read = elim (ltb bytes_read expected) [
  | true ↦ do
    (chunk, s') ← read_chunk s endian keyword expected bytes_read
    (rest, s'') ←
        read_chunks fuel s' endian keyword expected ((bytes_read + chunk.byte_count) % 2 ^ 64)
    ok (chunk ∷ rest, s'')
  | false ↦ ok ([], s)
]

-- A round reads eight bytes at least, so the length of the file bounds their number.
abbrev pub fuel_for : Stream → ℕ
fuel_for s = suc (length s.content)

pub read_record_chunks :
    Stream → Endian → Bytes → ℕ → Bytes → Result Error (List DataChunk × Stream)
read_record_chunks s endian keyword count kind = do
  expected ← expected_data_bytes count kind
  read_chunks (fuel_for s) s endian keyword expected 0

-- `ReadIndexedEclipseRecord`
pub read_indexed_record : Stream → Bytes → Endian → ℤ → Result Error (Record × Stream)
unfolding read_record_chunks
read_indexed_record s file_path endian header_length = do
  guard (header_length ==ℤ pos 16) (Error.bad_header_length header_length)
  let (header?, s1) = read_exact 16 s
  header ← require header? Error.truncated_header
  (end_marker, s2) ← read_record_length s1 endian
  guard (closes end_marker header_length) Error.mismatched_header_markers
  let keyword = trim_right (take 8 header)
  let count = read_int32 (drop 8 header) endian
  guard (not (is_neg count)) (Error.negative_count keyword)
  let kind = trim_right (take 4 (drop 12 header))
  (chunks, s3) ← read_record_chunks s2 endian keyword (to_nat count) kind
  ok (
    record {
      keyword = keyword;
      kind = kind;
      count = to_nat count;
      file_path = file_path;
      endian = endian;
      chunks = chunks;
    },
    s3,
  )

abbrev pub stops : Bytes → Record → Bool
stops stop_after r = not (same stop_after []) && same r.keyword stop_after

-- `while (ReadRecordLength(...))`; the result is what the rounds append to `index.records`.
pub index_records : ℕ → Stream → Bytes → Endian → Bytes → Result Error (List Record)
index_records zero s file_path endian stop_after = err Error.out_of_fuel
index_records (suc fuel) s file_path endian stop_after = do
  (marker, s1) ← read_record_length s endian
  elim marker [
    | none ↦ ok []
    | some header_length ↦ do
      (r, s2) ← read_indexed_record s1 file_path endian header_length
      elim (stops stop_after r) [
        | true ↦ ok (r ∷ [])
        | false ↦ do rest ← index_records fuel s2 file_path endian stop_after; ok (r ∷ rest)
      ]
  ]

first_word : Option Bytes → Option Endian
first_word none = none
first_word (some bytes) =
    if read_int32 bytes big ==ℤ pos 16
    then some big
    else if read_int32 bytes little ==ℤ pos 16
    then some little
    else none

header_fields : Option Bytes → Option (Bytes × Bytes)
header_fields none = none
header_fields (some header) =
    some (trim_right (take 8 header), trim_right (take 4 (drop 12 header)))

-- From the first marker on: a header of another length, or a short one, gives `false`.
first_header : Option ℤ → Stream → Option (Bytes × Bytes)
unfolding header_fields
first_header none s = none
first_header (some n) s = if n ==ℤ pos 16 then header_fields (read_exact 16 s).0 else none

-- `CaeDetectEclipseEndian`
pub detect_endian : Files → Bytes → Option Endian
unfolding first_word
detect_endian files path = elim (files path) [
  | none ↦ none
  | some content ↦ first_word (read_exact 4 (open_stream content)).0
]

-- `CaeReadFirstEclipseRecordHeader`: the keyword and the type of the first record.
pub read_first_record_header : Files → Bytes → Result Error (Option (Bytes × Bytes))
unfolding first_header
read_first_record_header files path = elim (detect_endian files path) [
  | none ↦ ok none
  | some endian ↦ elim (files path) [
    | none ↦ ok none
    | some content ↦ do
      (marker, s) ← read_record_length (open_stream content) endian
      ok (first_header marker s)
  ]
]

-- `CaeIndexEclipseBinaryFile`
unfoldable pub index_file : Files → Bytes → Bytes → Result Error FileIndex
unfolding index_records detect_endian read_indexed_record read_exact read_chunk read_chunks
index_file files path stop_after = do
  endian ← require (detect_endian files path) Error.no_item_header
  content ← require (files path) (Error.cannot_open path)
  let s = open_stream content
  records ← index_records (fuel_for s) s path endian stop_after
  ok (record { file_path = path; endian = endian; records = records })

-- `CaeFindFirstEclipseRecord`; an empty `stop_before` is no bound.
pub find_first_record : List Record → Bytes → Bytes → Option Record
find_first_record [] keyword stop_before = none
find_first_record (r ∷ rest) keyword stop_before =
    if not (same stop_before []) && same r.keyword stop_before
    then none
    else if same r.keyword keyword
    then some r
    else find_first_record rest keyword stop_before
