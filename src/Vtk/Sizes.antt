-- ===== src/Vtk/Sizes.antt =====
-- The overflow-checked sizes of ParserUtils.cpp, FileHandle.cpp and ScalarPayloadReader.cpp.
pub mod Exact
use cae_openusd_plugins.Prelude.{
  ℕ, zero, suc, ◌+◌, ◌-◌, ◌*◌, ◌/◌, Bool, not, ◌&&◌, ◌||◌, List, [], ◌∷◌, ltb, ◌==◌, if◌then◌else◌,
}
use cae_openusd_plugins.Prelude.Result.{Result, ok, err}
use cae_openusd_plugins.Vtk.Error.{Error, overflow, zero_block_size, bad_shape}
use cae_openusd_plugins.Vtk.Types.{ScalarType, float32, float64, size_max}

-- `CheckedMul`
unfoldable pub checked_mul : ℕ → ℕ → Result Error ℕ
checked_mul lhs rhs =
    if not (rhs == 0) && ltb (size_max / rhs) lhs then err overflow else ok (lhs * rhs)

-- `CheckedAdd`, and `CheckedOffset` of ParserUtils.cpp and FileHandle.cpp
unfoldable pub checked_add : ℕ → ℕ → Result Error ℕ
checked_add lhs rhs = if ltb (size_max - lhs) rhs then err overflow else ok (lhs + rhs)

-- `DecodedCompressedSize`
unfoldable pub decoded_compressed_size : ℕ → ℕ → ℕ → Result Error ℕ
decoded_compressed_size num_blocks block_size last_block_size =
    if num_blocks == 0
    then ok 0
    else if block_size == 0
    then err zero_block_size
    else if last_block_size == 0
    then (if ltb (size_max / block_size) num_blocks
        then err overflow
        else ok (num_blocks * block_size))
    else if ltb ((size_max - last_block_size) / block_size) (num_blocks - 1)
    then err overflow
    else ok ((num_blocks - 1) * block_size + last_block_size)

-- `BlockDecodedSize`
unfoldable pub block_decoded_size : ℕ → ℕ → ℕ → ℕ → ℕ
block_decoded_size block_index num_blocks block_size last_block_size =
    if ltb (block_index + 1) num_blocks || last_block_size == 0 then block_size else last_block_size
