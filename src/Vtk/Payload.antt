-- ===== src/Vtk/Payload.antt =====
-- The payload readers of ScalarPayloadReader.cpp. `parse` stands for ParseAsciiValue, and `decompress`
-- for the calls of LZ4, zlib and liblzma: the bytes of a block, or none where the block is refused.
pub mod Batches
use cae_openusd_plugins.Prelude.{
  ℕ, zero, suc, ◌+◌, ◌-◌, ◌*◌, ◌/◌, min, Bool, true, false, not, ◌&&◌, ◌||◌, Option, none, some,
  List, [], ◌∷◌, Bytes, length, take, drop, get_or, get_elem?, replicate, ltb, ◌==◌, if◌then◌else◌,
}
use cae_openusd_plugins.Prelude.Result.{Result, ok, err, ◌>>=◌, ◌>>◌, guard, require}
use cae_openusd_plugins.Vtk.Error.{
  Error, segment_index, unexpected_segment_count, target_size, decompress_failed, count_mismatch,
  storage_kind,
}
use cae_openusd_plugins.Vtk.Types.{ScalarType, uint8, ScalarPayloadRequest, decoded_byte_count}
use cae_openusd_plugins.Vtk.Sizes.{block_decoded_size}
use cae_openusd_plugins.Vtk.Workers.{write_at, run_tasks}
use cae_openusd_plugins.Vtk.Segment.{
  FileHandle, PayloadSegmentSpec, read_raw_into, read_base64_into, normalize,
}
use cae_openusd_plugins.Vtk.Ascii.{read_ascii_into}
use cae_openusd_plugins.Vtk.Blocks.{
  XmlHeaderType, header_word_size, read_endian_unsigned, BlockLayout, read_block_layout,
}

pub data StorageKind : Type 0 where
  ascii plain_binary xml_binary xml_base64_binary : StorageKind

pub record PayloadSourceSpec : Type 0 where
  pub storage_kind : StorageKind
  pub segments : List PayloadSegmentSpec

pub data XmlCompressor : Type 0 where
  uncompressed zlib lz4 lzma : XmlCompressor

abbrev pub blocks_per_batch : ℕ
blocks_per_batch = 64

-- The source's sum is one of size_t. It does not wrap, since the layout has an element in memory for
-- each block.
abbrev pub batch_count : ℕ → ℕ
batch_count num_blocks = (num_blocks + blocks_per_batch - 1) / blocks_per_batch

abbrev pub first_block : ℕ → ℕ
first_block batch = batch * blocks_per_batch

-- The block behind the last one of a batch.
abbrev pub last_block : ℕ → ℕ → ℕ
last_block num_blocks batch = min num_blocks (first_block batch + blocks_per_batch)

abbrev pub is_compressed : XmlCompressor → Bool
is_compressed uncompressed = false
is_compressed _ = true

-- `ValidateDirectTarget`
unfoldable pub validate_target : ScalarPayloadRequest → Bytes → Result Error (Unit {0})
validate_target request target = do
  expected ← decoded_byte_count request
  guard (length target == expected) target_size

-- What the readers take from the machine and from other libraries.
module _ (parse : ScalarType → Bytes → Result Error Bytes)
    (decompress : XmlCompressor → Bytes → ℕ → Option Bytes) where
  -- `MakePayloadSegmentReader` and its reader's `ReadInto`
  unfoldable pub read_segment :
      FileHandle
      → StorageKind
      → PayloadSegmentSpec
      → Bytes
      → ℕ
      → ScalarType
      → ℕ
      → Result Error Bytes
  read_segment file ascii segment target count scalar_type skip =
      read_ascii_into parse file segment count scalar_type skip
  read_segment file xml_base64_binary segment target count scalar_type skip =
      read_base64_into file segment target count scalar_type skip
  read_segment file _ segment target count scalar_type skip =
      read_raw_into file segment target count scalar_type skip

  -- `ReadSegmentInto`
  unfoldable pub read_segment_into :
      FileHandle → PayloadSourceSpec → ℕ → Bytes → ℕ → ScalarType → ℕ → Result Error Bytes
  read_segment_into file source index target count scalar_type skip = do
    segment ← require (get_elem? source.segments index) segment_index
    read_segment file source.storage_kind segment target count scalar_type skip

  -- The decompression of the `left` blocks from `block` on into the decoded bytes.
  unfoldable pub decompress_blocks :
      XmlCompressor → BlockLayout → Bytes → ℕ → ℕ → ℕ → Bytes → Result Error Bytes
  decompress_blocks compressor layout compressed begin zero block decoded = ok decoded
  decompress_blocks compressor layout compressed begin (suc left) block decoded = do
    let local = get_or layout.compressed_offsets block 0 - begin
    let size = get_or layout.compressed_block_sizes block 0
    bytes ←
        require
          (decompress compressor (take size (drop local compressed))
            (block_decoded_size block layout.num_blocks layout.block_size layout.last_block_size))
          decompress_failed
    decompress_blocks compressor layout compressed begin left (suc block)
        (write_at (get_or layout.decoded_offsets block 0) bytes decoded)

  -- One batch of `ReadCompressedXmlBlockIntoBatches`.
  unfoldable pub read_batch :
      XmlCompressor → FileHandle → PayloadSourceSpec → BlockLayout → ℕ → Bytes → Result Error Bytes
  read_batch compressor file source layout batch decoded = do
    let first = first_block batch
    let last = last_block layout.num_blocks batch
    let begin = get_or layout.compressed_offsets first 0
    let end =
        get_or layout.compressed_offsets (last - 1) 0
        + get_or layout.compressed_block_sizes (last - 1) 0
    compressed ←
        read_segment_into file source 1 (replicate (end - begin) 0) (end - begin) uint8 begin
    decompress_blocks compressor layout compressed begin (last - first) first decoded

  -- `ReadCompressedXmlBlockIntoBatches`
  unfoldable pub read_batches :
      XmlCompressor
      → FileHandle
      → PayloadSourceSpec
      → ScalarPayloadRequest
      → BlockLayout
      → Bytes
      → Result Error Bytes
  read_batches compressor file source request layout decoded = do
    filled ←
        run_tasks (read_batch compressor file source layout)
          (file.order (batch_count layout.num_blocks)) decoded
    normalize file filled request.scalar_type

  -- `ReadCompressedXmlBlockInto`
  unfoldable pub read_compressed_into :
      XmlCompressor
      → XmlHeaderType
      → FileHandle
      → PayloadSourceSpec
      → ScalarPayloadRequest
      → Bytes
      → Result Error Bytes
  read_compressed_into compressor header_type file source request target = do
    guard (length source.segments == 2) unexpected_segment_count
    layout ←
        read_block_layout header_type file.byte_order
          (λ n. read_segment_into file source 0 (replicate n 0) n uint8 0)
    guard (layout.decoded_byte_count == length target) target_size
    if layout.num_blocks == 0
        then ok target
        else read_batches compressor file source request layout target

  -- `DirectScalarPayloadReader`, its construction included.
  unfoldable pub read_direct :
      FileHandle → PayloadSourceSpec → ScalarPayloadRequest → Bytes → Result Error Bytes
  read_direct file source request target = do
    guard (elim source.storage_kind [ ascii ↦ true | plain_binary ↦ true | _ ↦ false ]) storage_kind
    validate_target request target
    guard (length source.segments == 1) unexpected_segment_count
    read_segment_into file source 0 target (length target) request.scalar_type 0

  -- The part of `XmlBinaryBlockPayloadReader::ReadDataInto` for payloads that are not compressed.
  unfoldable pub read_plain_block :
      XmlHeaderType
      → FileHandle
      → PayloadSourceSpec
      → ScalarPayloadRequest
      → Bytes
      → Result Error Bytes
  read_plain_block header_type file source request target = do
    guard (length source.segments == 1) unexpected_segment_count
    let word_size = header_word_size header_type
    header ← read_segment_into file source 0 (replicate word_size 0) word_size uint8 0
    let payload_count = read_endian_unsigned header file.byte_order
    guard (payload_count == length target) count_mismatch
    read_segment_into file source 0 target payload_count request.scalar_type word_size

  -- `XmlBinaryBlockPayloadReader`, its construction included.
  unfoldable pub read_xml_binary :
      XmlCompressor
      → XmlHeaderType
      → FileHandle
      → PayloadSourceSpec
      → ScalarPayloadRequest
      → Bytes
      → Result Error Bytes
  read_xml_binary compressor header_type file source request target = do
    guard (elim source.storage_kind [ xml_binary ↦ true | xml_base64_binary ↦ true | _ ↦ false ])
        storage_kind
    validate_target request target
    if is_compressed compressor
        then read_compressed_into compressor header_type file source request target
        else read_plain_block header_type file source request target
