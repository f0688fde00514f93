-- ===== src/Vtk/Segment/Raw.antt =====
-- A range of a raw segment.
use cae_openusd_plugins.Prelude.{
  ℕ, ◌+◌, ◌-◌, ◌*◌, ◌^◌, ◌≤◌, ◌<◌, ◌≡◌, refl, some, Bytes, length, take, drop, not, ◌||◌, ltb, leb,
  if◌then◌else◌, by_bound, true, false, arith,
}
use cae_openusd_plugins.Prelude.Result.{Result, ok, err, ◌>>=◌, ◌>>◌, guard, ok-bind, true-bind}
use cae_openusd_plugins.Stream.{streamoff_max}
use cae_openusd_plugins.Vtk.Error.{decoded_range}
use cae_openusd_plugins.Vtk.Types.{ScalarType, size_max}
use cae_openusd_plugins.Vtk.Sizes.{checked_add}
use cae_openusd_plugins.Vtk.Range.{task_count_for_bytes}
use cae_openusd_plugins.Vtk.Range.AnyOrder.{IsOrder, read_file_range_parallel-any_order}
use cae_openusd_plugins.Vtk.Segment.{FileHandle, PayloadSegmentSpec, normalize, read_raw_into}

in_range :
    (size skip count : ℕ)
    → skip + count ≤ size
    → not (ltb size skip || ltb (size - skip) count) ≡ true
in_range size skip count h = ground (arith, h)

out_of_range :
    (size skip count : ℕ)
    → size < skip + count
    → not (ltb size skip || ltb (size - skip) count) ≡ false
out_of_range size skip count h = ground (arith, h)

sum_fits : (a b : ℕ) → a + b ≤ size_max → checked_add a b ≡ ok (a + b)
unfolding checked_add
sum_fits a b h = ground (arith, h)

false-bind : {E B : Type 0} (e : E) (k : Result E B) → (guard false e >> k) ≡ err e
unfolding guard ◌>>◌ ◌>>=◌
false-bind e k = refl

-- A range of a raw segment is read as these bytes of the file, in the byte order of the host, or
-- is refused where it exceeds the segment, if the segment lies in a file that opens and that a
-- stream position can address, the target has the size of the range, the tasks run in any order
-- that has each of them, and no product of the size and a task number wraps around.
pub read_raw_into_lem :
    (file : FileHandle) (content : Bytes) (segment : PayloadSegmentSpec) (target : Bytes)
    (count : ℕ) (scalar_type : ScalarType) (skip : ℕ)
    → file.content ≡ some content
    → IsOrder file.order
    → segment.start_offset + segment.byte_count ≤ length content
    → length content ≤ streamoff_max
    → length target ≡ count
    → count * task_count_for_bytes file.limit file.io_threads count < 2 ^ 64
    → read_raw_into file segment target count scalar_type skip ≡ (
        if leb (skip + count) segment.byte_count
        then normalize file (take count (drop (segment.start_offset + skip) content)) scalar_type
        else err decoded_range)
unfolding read_raw_into
read_raw_into_lem file content segment target count scalar_type skip opened is_order inside small
      room no_wrap =
    by_bound (skip + count) segment.byte_count
      (read_raw_into file segment target count scalar_type skip)
      (normalize file (take count (drop (segment.start_offset + skip) content)) scalar_type)
      (err decoded_range)
      (λ h.
        let whole =
          read_file_range_parallel-any_order file.order file.limit file.io_threads content
            (segment.start_offset + skip) count target is_order (omega (arith, h, inside)) small
            room no_wrap in
        rw (
          in_range segment.byte_count skip count h,
          true-bind,
          sum_fits segment.start_offset skip (omega (arith, h, inside, small)),
          ok-bind,
          opened,
          whole,
          ok-bind,
        ))
      (λ h. rw (out_of_range segment.byte_count skip count h, false-bind))
