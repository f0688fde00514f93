-- ===== src/Vtk/Cache/Signature.antt =====
-- The signature of a file, in DatasetSpecCache.cpp.
use Prim.Native.Nat.{bit_xor}
use cae_openusd_plugins.Prelude.{
  ℕ, zero, suc, ◌*◌, ◌/◌, ◌%◌, ◌^◌, min, ◌≡◌, ◌↔◌, Bool, true, ◌&&◌, Option, Bytes, [], ◌∷◌,
  reverse, length, same, same_iff, ◌==◌, if◌then◌else◌, arith,
}
use cae_openusd_plugins.Prelude.Result.{Result, ok, ◌>>=◌, ◌>>◌, guard, require}
use cae_openusd_plugins.Stream.{open_stream, read}
use cae_openusd_plugins.Vtk.Error.{Error, open_failed, short_read, no_regular_file}

-- The time of the last write is a number of ticks of the file clock.
pub record FileSignature : Type 0 where
  pub resolved_path : Bytes
  pub file_size : ℕ
  pub last_write_time : ℕ
  pub quick_content_hash : ℕ

-- `SignaturesMatch`
unfoldable pub signatures_match : FileSignature → FileSignature → Bool
signatures_match lhs rhs =
    same lhs.resolved_path rhs.resolved_path
    && lhs.file_size == rhs.file_size
    && lhs.last_write_time == rhs.last_write_time
    && lhs.quick_content_hash == rhs.quick_content_hash

-- `FnvaUpdate`
unfoldable pub fnva_update : ℕ → Bytes → ℕ
fnva_update hash [] = hash
fnva_update hash (byte ∷ rest) = fnva_update ((bit_xor hash byte * 1099511628211) % 2 ^ 64) rest

abbrev little_bytes : ℕ → ℕ → Bytes
little_bytes zero n = []
little_bytes (suc k) n = n % 256 ∷ little_bytes k (n / 256)

-- The bytes of a uintmax_t in memory.
abbrev pub native_bytes : Bool → ℕ → Bytes
native_bytes host_little n = if host_little then little_bytes 8 n else reverse (little_bytes 8 n)

-- `ComputeQuickContentHash`
unfoldable pub compute_quick_content_hash : Bool → Option Bytes → ℕ → Result Error ℕ
compute_quick_content_hash host_little file file_size = do
  content ← require file open_failed
  let byte_count = min file_size (64 * 1024)
  let bytes = (read byte_count (open_stream content)).0
  guard (length bytes == byte_count) short_read
  ok (fnva_update (fnva_update 14695981039346656037 bytes) (native_bytes host_little file_size))

-- What std::filesystem says of a path: whether there is a regular file, and the results of two
-- calls that may throw.
pub record FileStatus : Type 0 where
  pub is_regular_file : Bool
  pub file_size : Result Error ℕ
  pub last_write_time : Result Error ℕ

-- `ComputeFileSignature`
unfoldable pub compute_file_signature :
    Bool → FileStatus → Option Bytes → Bytes → Result Error FileSignature
compute_file_signature host_little status file resolved_path = do
  guard status.is_regular_file no_regular_file
  size ← status.file_size
  time ← status.last_write_time
  hash ← compute_quick_content_hash host_little file size
  ok (record {
    resolved_path = resolved_path;
    file_size = size;
    last_write_time = time;
    quick_content_hash = hash;
  })

-- Signatures match if they are the same.
pub signatures_match_iff : (a b : FileSignature) → (signatures_match a b ≡ true) ↔ (a ≡ b)
unfolding signatures_match
signatures_match_iff a b = ground (arith, same_iff a.resolved_path b.resolved_path)
