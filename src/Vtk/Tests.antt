-- ===== src/Vtk/Tests.antt =====
-- Small payloads, read by the functions of the model, and the theorems at such inputs.
use cae_openusd_plugins.Prelude.{
  ℕ, zero, suc, ◌*◌, ◌+◌, ◌-◌, ◌/◌, ◌≤◌, ◌<◌, ◌≡◌, ◌⊎◌, ◌↔◌, inl, inr, refl, arith, true, false,
  leb, if◌then◌else◌, some, List, [], ◌∷◌, Bytes, length, take, drop,
}
use cae_openusd_plugins.Prelude.Chars.{codes, is_space}
use cae_openusd_plugins.Prelude.Int.{pos}
use cae_openusd_plugins.Prelude.Result.{ok, err, ◌>>=◌, ◌>>◌, guard, require}
use cae_openusd_plugins.Codec.{read_loop, or_loop}
use cae_openusd_plugins.Vtk.Error.{overflow, bad_shape, decoded_range}
use cae_openusd_plugins.Vtk.Types.{big_endian, little_endian, int16, uint16, size_max, byte_swap}
use cae_openusd_plugins.Vtk.Types.Swap.{group, number, byte_swap_lem}
use cae_openusd_plugins.Vtk.Sizes.{checked_add, decoded_compressed_size, block_decoded_size}
use cae_openusd_plugins.Vtk.Sizes.Exact.{decoded_compressed_size_exact, blocks_size}
use cae_openusd_plugins.Vtk.Workers.Order.{IsScheduled, slice}
use cae_openusd_plugins.Vtk.Range.{read_file_range_parallel, task_count_for_bytes}
use cae_openusd_plugins.Vtk.Range.AnyOrder.{IsOrder, read_file_range_parallel-any_order}
use cae_openusd_plugins.Vtk.Base64.{
  base64_value, quartet_values, join_values, decode_quartet, decode_loop, decode_into,
}
use cae_openusd_plugins.Vtk.Base64.Encode.{encode, decode_into-encode}
use cae_openusd_plugins.Vtk.Blocks.{
  BlockLayout, uint32_header, read_endian_unsigned, layout_loop, read_block_layout,
}
use cae_openusd_plugins.Vtk.Blocks.Layout.{IsLayout, read_block_layout-IsLayout}
use cae_openusd_plugins.Vtk.Ascii.{
  is_ascii_whitespace, skip_whitespace, split_token, read_ascii_token, read_ascii_wanted,
  read_ascii_values,
}
use cae_openusd_plugins.Vtk.Ascii.Words.{words, parse_all, read_ascii_values_iff}
use cae_openusd_plugins.Vtk.Tokens.{
  supported_as, to_lower_token, normalize_xml_token, supports_array_shape, evaluation_kind_for,
}
use cae_openusd_plugins.Vtk.Tokens.Names.{
  xml_name, normalize_xml_token_iff, evaluation_kind_for_iff,
}
use cae_openusd_plugins.Vtk.Payload.{batch_count, first_block, last_block}
use cae_openusd_plugins.Vtk.Payload.Batches.{batches_part_blocks}
use cae_openusd_plugins.Vtk.Base64.Ranges.{decode_into-slice}
use cae_openusd_plugins.Vtk.Segment.{FileHandle, PayloadSegmentSpec, normalize, read_raw_into}
use cae_openusd_plugins.Vtk.Segment.Raw.{read_raw_into_lem}

-- Two numbers of two bytes, swapped on a little-endian host.
byte_swap_lem_example :
    (swapped : Bytes) × (byte_swap true (1 ∷ 2 ∷ 3 ∷ 4 ∷ []) int16 big_endian ≡ ok swapped)
    × (length swapped ≡ 4)
    × ((i : ℕ)
        → i < 2
        → number little_endian (group 2 i swapped)
          ≡ number big_endian (group 2 i (1 ∷ 2 ∷ 3 ∷ 4 ∷ [])))
byte_swap_lem_example = byte_swap_lem true int16 big_endian (1 ∷ 2 ∷ 3 ∷ 4 ∷ []) 2 refl

-- Three blocks of ten bytes, the last of which has four.
decoded_compressed_size_exact_example :
    decoded_compressed_size 3 10 4
    ≡ (if leb (blocks_size 3 3 10 4) size_max then ok (blocks_size 3 3 10 4) else err overflow)
decoded_compressed_size_exact_example =
    decoded_compressed_size_exact 3 10 4 (omega arith) (omega arith)

-- The tasks from the last one to the first.
abbrev pub last_first : ℕ → List ℕ
last_first zero = []
last_first (suc n) = n ∷ last_first n

last_first-lt : (n t : ℕ) → IsScheduled t (last_first n) → t < n
last_first-lt zero t h = absurd h
last_first-lt (suc n) t (inl e) = omega (arith, e)
last_first-lt (suc n) t (inr h) = omega (arith, last_first-lt n t h)

eq_or_lt : (n t : ℕ) → t < suc n → (t ≡ n) ⊎ (t < n)
eq_or_lt n t h = ground (arith, h)

lt-last_first : (n t : ℕ) → t < n → IsScheduled t (last_first n)
lt-last_first zero t h = absurd (omega (arith, h))
lt-last_first (suc n) t h = elim (eq_or_lt n t h) [
  | inl e ↦ inl e
  | inr l ↦ inr (lt-last_first n t l)
]

pub last_first-IsOrder : IsOrder last_first
last_first-IsOrder n t = (lt-last_first n t, last_first-lt n t)

read_file_range_parallel-any_order_example :
    read_file_range_parallel last_first 8 (pos 4) (some (5 ∷ 6 ∷ 7 ∷ 8 ∷ [])) 1 2 (0 ∷ 0 ∷ [])
    ≡ ok (take 2 (drop 1 (5 ∷ 6 ∷ 7 ∷ 8 ∷ [])))
unfolding task_count_for_bytes
read_file_range_parallel-any_order_example =
    read_file_range_parallel-any_order last_first 8 (pos 4) (5 ∷ 6 ∷ 7 ∷ 8 ∷ []) 1 2 (0 ∷ 0 ∷ [])
      last_first-IsOrder (omega arith) (omega arith) refl (omega arith)

decode_into-encode_example : decode_into (encode (77 ∷ 97 ∷ [])) 2 true ≡ ok (77 ∷ 97 ∷ [])
decode_into-encode_example = decode_into-encode (77 ∷ 97 ∷ []) (omega arith, (omega arith, tt))

-- "TWE=" is "Ma".
decoded : decode_into (b'T' ∷ b'W' ∷ b'E' ∷ b'=' ∷ []) 2 true ≡ ok (77 ∷ 97 ∷ [])
unfolding decode_into decode_loop decode_quartet quartet_values join_values base64_value is_space
    ◌>>=◌ ◌>>◌ guard require
decoded = refl

-- A header of two blocks: 4 bytes each but the last, which has 3; 9 and 5 bytes compressed.
abbrev header : Bytes
header = 2 ∷ 0 ∷ 0 ∷ 0 ∷ 4 ∷ 0 ∷ 0 ∷ 0 ∷ 3 ∷ 0 ∷ 0 ∷ 0 ∷ 9 ∷ 0 ∷ 0 ∷ 0 ∷ 5 ∷ 0 ∷ 0 ∷ 0 ∷ []

abbrev layout : BlockLayout
layout = record {
  num_blocks = 2;
  block_size = 4;
  last_block_size = 3;
  header_byte_count = 20;
  compressed_byte_count = 14;
  decoded_byte_count = 7;
  compressed_block_sizes = 9 ∷ 5 ∷ [];
  compressed_offsets = 0 ∷ 9 ∷ [];
  decoded_offsets = 0 ∷ 4 ∷ [];
}

layout_read : read_block_layout uint32_header little_endian (λ n. ok (take n header)) ≡ ok layout
unfolding read_block_layout layout_loop read_endian_unsigned read_loop or_loop
    decoded_compressed_size block_decoded_size checked_add ◌>>=◌
layout_read = refl

read_block_layout-IsLayout_example : IsLayout layout
read_block_layout-IsLayout_example =
    read_block_layout-IsLayout uint32_header little_endian (λ n. ok (take n header)) layout
      layout_read

-- A text of two words, of which the first is skipped.
abbrev text : Bytes
text = 32 ∷ b'1' ∷ 32 ∷ b'2' ∷ b'3' ∷ []

read_ascii_values_iff_example : (read_ascii_values ok text 1 1 ≡ ok ((b'2' ∷ b'3' ∷ []) ∷ [])) ↔ (
    (length (words text) ≡ 1 + 1)
    × (parse_all ok (drop 1 (words text)) ≡ ok ((b'2' ∷ b'3' ∷ []) ∷ [])))
read_ascii_values_iff_example = read_ascii_values_iff ok text 1 1 ((b'2' ∷ b'3' ∷ []) ∷ [])

values_read : read_ascii_values ok text 1 1 ≡ ok ((b'2' ∷ b'3' ∷ []) ∷ [])
unfolding read_ascii_values read_ascii_wanted read_ascii_token skip_whitespace split_token
    is_ascii_whitespace ◌>>=◌ require
values_read = refl

normalize_xml_token_iff_example :
    (normalize_xml_token (codes "UInt16") ≡ supported_as (codes "UInt16") uint16)
    ↔ (to_lower_token (codes "UInt16") ≡ xml_name uint16)
normalize_xml_token_iff_example = normalize_xml_token_iff (codes "UInt16") uint16

evaluation_kind_for_iff_example :
    (evaluation_kind_for int16 (pos 3) ≡ err bad_shape)
    ↔ (supports_array_shape int16 (pos 3) ≡ false)
evaluation_kind_for_iff_example = evaluation_kind_for_iff int16 (pos 3)

batches_part_blocks_example :
    (70 / 64 < batch_count 100)
    × (first_block (70 / 64) ≤ 70)
    × (70 < last_block 100 (70 / 64))
    × ((batch : ℕ) → first_block batch ≤ 70 → 70 < last_block 100 batch → batch ≡ 70 / 64)
batches_part_blocks_example = batches_part_blocks 100 70 (omega arith)

-- "TWFuTWE=" is "ManMa", and its first quartet is "Man".
abbrev man_text : Bytes
man_text = b'T' ∷ b'W' ∷ b'F' ∷ b'u' ∷ b'T' ∷ b'W' ∷ b'E' ∷ b'=' ∷ []

man_decoded : decode_into man_text 5 true ≡ ok (77 ∷ 97 ∷ 110 ∷ 77 ∷ 97 ∷ [])
unfolding decode_into decode_loop decode_quartet quartet_values join_values base64_value is_space
    ◌>>=◌ ◌>>◌ guard require
man_decoded = refl

decode_into-slice_example :
    decode_into (slice (4 * 0) (4 * 1) man_text) (3 * 1 - 3 * 0) false
    ≡ ok (slice (3 * 0) (3 * 1) (77 ∷ 97 ∷ 110 ∷ 77 ∷ 97 ∷ []))
decode_into-slice_example =
    decode_into-slice man_text (77 ∷ 97 ∷ 110 ∷ 77 ∷ 97 ∷ []) 5 0 1 man_decoded (omega arith)
      (omega arith)

abbrev file : FileHandle
file = record {
  content = some (5 ∷ 6 ∷ 7 ∷ 8 ∷ []);
  byte_order = little_endian;
  io_threads = pos 4;
  order = last_first;
  limit = 8;
  host_little = true;
}

abbrev segment : PayloadSegmentSpec
segment = record { start_offset = 1; byte_count = 3 }

read_raw_into_lem_example : read_raw_into file segment (0 ∷ 0 ∷ []) 2 int16 1 ≡ (
    if leb (1 + 2) 3
    then normalize file (take 2 (drop (1 + 1) (5 ∷ 6 ∷ 7 ∷ 8 ∷ []))) int16
    else err decoded_range)
unfolding task_count_for_bytes
read_raw_into_lem_example =
    read_raw_into_lem file (5 ∷ 6 ∷ 7 ∷ 8 ∷ []) segment (0 ∷ 0 ∷ []) 2 int16 1 refl
      last_first-IsOrder (omega arith) (omega arith) refl (omega arith)
