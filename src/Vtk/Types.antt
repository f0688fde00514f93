-- ===== src/Vtk/Types.antt =====
-- Types.h and Types.cpp: scalar types, byte order, the size of a payload and the byte swap.
pub mod Swap
use cae_openusd_plugins.Prelude.{
  ℕ, zero, suc, ◌-◌, ◌*◌, ◌/◌, ◌%◌, ◌^◌, Bool, true, false, not, ◌||◌, Bytes, ◌++◌, reverse, length,
  take, drop, ltb, leb, ◌==◌, if◌then◌else◌,
}
use cae_openusd_plugins.Prelude.Result.{Result, ok, err}
use cae_openusd_plugins.Vtk.Error.{Error, overflow, not_divisible}

pub data ScalarType : Type 0 where
  int8 uint8 int16 uint16 int32 uint32 int64 uint64 float32 float64 : ScalarType

pub data ByteOrder : Type 0 where
  little_endian big_endian : ByteOrder

-- std::numeric_limits<size_t>::max()
abbrev pub size_max : ℕ
size_max = 2 ^ 64 - 1

pub record ScalarPayloadRequest : Type 0 where
  pub scalar_type : ScalarType
  pub value_count : ℕ

-- `ScalarByteSize`
abbrev pub scalar_byte_size : ScalarType → ℕ
scalar_byte_size int8 = 1
scalar_byte_size uint8 = 1
scalar_byte_size int16 = 2
scalar_byte_size uint16 = 2
scalar_byte_size int32 = 4
scalar_byte_size uint32 = 4
scalar_byte_size float32 = 4
scalar_byte_size int64 = 8
scalar_byte_size uint64 = 8
scalar_byte_size float64 = 8

-- `DecodedByteCount`
unfoldable pub decoded_byte_count : ScalarPayloadRequest → Result Error ℕ
decoded_byte_count request =
    let scalar_size = scalar_byte_size request.scalar_type in
    if ltb (size_max / scalar_size) request.value_count
    then err overflow
    else ok (request.value_count * scalar_size)

-- `ByteOrderMatchesHost`; what `HostIsLittleEndian` finds out is the parameter `host_little`.
abbrev pub matches_host : Bool → ByteOrder → Bool
matches_host host_little little_endian = host_little
matches_host host_little big_endian = not host_little

-- The loop that reverses each of the first `count` groups of `size` bytes.
pub reverse_groups : ℕ → ℕ → Bytes → Bytes
reverse_groups zero size bytes = bytes
reverse_groups (suc count) size bytes =
    reverse (take size bytes) ++ reverse_groups count size (drop size bytes)

-- `ByteSwapScalarBytesInPlace`: the bytes of the buffer afterwards.
unfoldable pub byte_swap : Bool → Bytes → ScalarType → ByteOrder → Result Error Bytes
unfolding reverse_groups
byte_swap host_little bytes scalar_type order =
    let size = scalar_byte_size scalar_type in
    if leb size 1 || length bytes == 0 || matches_host host_little order
    then ok bytes
    else if not (length bytes % size == 0)
    then err not_divisible
    else ok (reverse_groups (length bytes / size) size bytes)
