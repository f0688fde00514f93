-- ===== src/Vtk/Blocks/Layout.antt =====
-- The block layout that is read.
use cae_openusd_plugins.Prelude.{
  ℕ, suc, zero, ◌+◌, ◌*◌, ◌%◌, ◌^◌, arith, ◌≡◌, sym, ap, subst, ◌∙◌, Bytes, length, sum, refl,
}
use cae_openusd_plugins.Prelude.Result.{Result, ok, bind-eq-ok, ok-injective}
use cae_openusd_plugins.Vtk.Error.{Error}
use cae_openusd_plugins.Vtk.Types.{ByteOrder}
use cae_openusd_plugins.Vtk.Sizes.{decoded_compressed_size, block_decoded_size}
use cae_openusd_plugins.Vtk.Blocks.{
  XmlHeaderType, BlockLayout, BlockRows, layout_loop, header_word_size, word_at, read_block_layout,
}
use cae_openusd_plugins.Vtk.Blocks.Offsets.{sums_before, values_from, layout_loop-sums}

length-values_from : (f : ℕ → ℕ) (first count : ℕ) → length (values_from f first count) ≡ count
length-values_from f first zero = refl
length-values_from f first (suc count) = ap suc (length-values_from f (suc first) count)

-- Each block has a size and two offsets, which are the exact sums of the sizes of the blocks before
-- it, compressed and decoded.
abbrev pub IsLayout : BlockLayout → Type 0
IsLayout layout =
    (length layout.compressed_block_sizes ≡ layout.num_blocks)
    × (layout.compressed_offsets ≡ sums_before 0 layout.compressed_block_sizes)
    × (layout.compressed_byte_count ≡ sum layout.compressed_block_sizes)
    × (layout.decoded_offsets
        ≡ sums_before 0 (
            values_from
              (λ block.
                block_decoded_size block layout.num_blocks layout.block_size layout.last_block_size)
              0 layout.num_blocks))
    × (decoded_compressed_size layout.num_blocks layout.block_size layout.last_block_size
        ≡ ok layout.decoded_byte_count)

IsLayout-parts :
    (size_of : ℕ → ℕ) (n b l header_count decoded_count : ℕ) (rows : BlockRows)
    → layout_loop size_of n b l n 0 0 0 ≡ ok rows
    → decoded_compressed_size n b l ≡ ok decoded_count
    → IsLayout (record {
      num_blocks = n;
      block_size = b;
      last_block_size = l;
      header_byte_count = header_count;
      compressed_byte_count = rows.total;
      decoded_byte_count = decoded_count;
      compressed_block_sizes = rows.sizes;
      compressed_offsets = rows.compressed;
      decoded_offsets = rows.decoded;
    })
IsLayout-parts size_of n b l header_count decoded_count rows rows_are decoded_is =
    let (s, c, d, t) = layout_loop-sums size_of n b l n 0 0 0 rows_are in
    let zero_plus : 0 + sum (values_from size_of 0 n) ≡ sum (values_from size_of 0 n) =
      omega arith in
    (
      ap length s ∙ length-values_from size_of 0 n,
      c ∙ ap (sums_before 0) (sym s),
      t ∙ (zero_plus ∙ ap sum (sym s)),
      d,
      decoded_is,
    )

pub read_block_layout-IsLayout :
    (header_type : XmlHeaderType) (order : ByteOrder) (read : ℕ → Result Error Bytes)
    (layout : BlockLayout)
    → read_block_layout header_type order read ≡ ok layout
    → IsLayout layout
unfolding read_block_layout
read_block_layout-IsLayout header_type order read layout h =
    let (prefix, _, h1) = bind-eq-ok _ _ h in
    let (decoded_count, decoded_is, h2) = bind-eq-ok _ _ h1 in
    let (header, _, h3) = bind-eq-ok _ _ h2 in
    let (rows, rows_are, h4) = bind-eq-ok _ _ h3 in
    let word_size = header_word_size header_type in
    let header_count = (word_size * ((3 + word_at word_size order prefix 0) % 2 ^ 64)) % 2 ^ 64 in
    subst IsLayout (ok-injective h4)
      (IsLayout-parts _ _ _ _ header_count _ rows rows_are decoded_is)
