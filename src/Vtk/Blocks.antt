-- ===== src/Vtk/Blocks.antt =====
-- The compressed blocks of an XML payload, in ScalarPayloadReader.cpp. `read` gives the first bytes
-- of the payload's header segment.
pub mod Offsets
pub mod Layout
use cae_openusd_plugins.Prelude.{
  ℕ, zero, suc, ◌+◌, ◌-◌, ◌*◌, ◌%◌, ◌^◌, List, [], ◌∷◌, Bytes, take, drop, ◌==◌, if◌then◌else◌,
}
use cae_openusd_plugins.Prelude.Result.{Result, ok, err, ◌>>=◌, ◌>>◌, guard}
use cae_openusd_plugins.Codec.{read_loop, or_loop}
use cae_openusd_plugins.Vtk.Error.{Error}
use cae_openusd_plugins.Vtk.Types.{ByteOrder, big_endian, little_endian}
use cae_openusd_plugins.Vtk.Sizes.{checked_add, decoded_compressed_size, block_decoded_size}

pub data XmlHeaderType : Type 0 where
  uint32_header uint64_header : XmlHeaderType

-- `HeaderWordSize`
abbrev pub header_word_size : XmlHeaderType → ℕ
header_word_size uint32_header = 4
header_word_size uint64_header = 8

-- `ReadEndianUnsigned`
unfoldable pub read_endian_unsigned : Bytes → ByteOrder → ℕ
read_endian_unsigned bytes big_endian = read_loop 0 bytes
read_endian_unsigned bytes little_endian = or_loop 0 0 bytes

-- The word at an offset of the header.
abbrev pub word_at : ℕ → ByteOrder → Bytes → ℕ → ℕ
word_at word_size order bytes offset =
    read_endian_unsigned (take word_size (drop offset bytes)) order

-- `XmlCompressedBlockLayout`
pub record BlockLayout : Type 0 where
  pub num_blocks : ℕ
  pub block_size : ℕ
  pub last_block_size : ℕ
  pub header_byte_count : ℕ
  pub compressed_byte_count : ℕ
  pub decoded_byte_count : ℕ
  pub compressed_block_sizes : List ℕ
  pub compressed_offsets : List ℕ
  pub decoded_offsets : List ℕ

-- What the loop over the blocks stores from a block on, and the compressed bytes in all.
pub record BlockRows : Type 0 where
  pub sizes : List ℕ
  pub compressed : List ℕ
  pub decoded : List ℕ
  pub total : ℕ

-- The loop over the `left` blocks from `block` on. `size_of` is the size of a block in the header.
unfoldable pub layout_loop : (ℕ → ℕ) → ℕ → ℕ → ℕ → ℕ → ℕ → ℕ → ℕ → Result Error BlockRows
layout_loop size_of num_blocks block_size last_block_size zero block compressed decoded =
    ok (record { sizes = []; compressed = []; decoded = []; total = compressed })
layout_loop size_of num_blocks block_size last_block_size (suc left) block compressed decoded = do
  compressed_after ← checked_add compressed (size_of block)
  decoded_after ←
      checked_add decoded (block_decoded_size block num_blocks block_size last_block_size)
  rows ←
      layout_loop size_of num_blocks block_size last_block_size left (suc block) compressed_after
        decoded_after
  ok (record {
    sizes = size_of block ∷ rows.sizes;
    compressed = compressed ∷ rows.compressed;
    decoded = decoded ∷ rows.decoded;
    total = rows.total;
  })

-- `ReadCompressedXmlBlockLayout`
unfoldable pub read_block_layout :
    XmlHeaderType → ByteOrder → (ℕ → Result Error Bytes) → Result Error BlockLayout
read_block_layout header_type order read = do
  let word_size = header_word_size header_type
  prefix ← read (word_size * 3)
  let num_blocks = word_at word_size order prefix 0
  let block_size = word_at word_size order prefix word_size
  let last_block_size = word_at word_size order prefix (2 * word_size)
  let header_byte_count = (word_size * ((3 + num_blocks) % 2 ^ 64)) % 2 ^ 64
  decoded_byte_count ← decoded_compressed_size num_blocks block_size last_block_size
  header ← (if num_blocks == 0 then ok [] else read header_byte_count)
  rows ←
      layout_loop (λ block. word_at word_size order header (word_size * (3 + block))) num_blocks
        block_size last_block_size num_blocks 0 0 0
  ok (record {
    num_blocks = num_blocks;
    block_size = block_size;
    last_block_size = last_block_size;
    header_byte_count = header_byte_count;
    compressed_byte_count = rows.total;
    decoded_byte_count = decoded_byte_count;
    compressed_block_sizes = rows.sizes;
    compressed_offsets = rows.compressed;
    decoded_offsets = rows.decoded;
  })
