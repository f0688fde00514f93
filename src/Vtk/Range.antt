-- ===== src/Vtk/Range.antt =====
-- Byte ranges of a file, in FileHandle.cpp of the VTK reader: ReadFileRangeInto and its parallel form.
-- A file is its content, or none where it does not open. `limit` is what PXR's
-- WorkGetConcurrencyLimit returns, and `order` gives the order in which its workers take n tasks.
pub mod Parallel
pub mod AnyOrder
use cae_openusd_plugins.Prelude.{
  ℕ, zero, suc, ◌+◌, ◌-◌, ◌*◌, ◌/◌, ◌%◌, ◌^◌, min, max, Bool, true, false, not, ◌||◌, Option, List,
  Bytes, length, ltb, leb, ◌==◌, if◌then◌else◌,
}
use cae_openusd_plugins.Prelude.Int.{ℤ, pos, negsuc}
use cae_openusd_plugins.Prelude.Result.{Result, ok, err, ◌>>=◌, ◌>>◌, guard, require}
use cae_openusd_plugins.Stream.{open_stream, read, seek_beg, streamoff_max}
use cae_openusd_plugins.Vtk.Error.{Error, overflow, open_failed, seek_failed, short_read}
use cae_openusd_plugins.Vtk.Workers.{write_at, run_tasks}

-- `ReadFileRangeInto`, with `ToStreamOffset`: the bytes that it stores.
unfoldable pub read_file_range : Option Bytes → ℕ → ℕ → Result Error Bytes
read_file_range file offset count = do
  content ← require file open_failed
  guard (leb offset streamoff_max) overflow
  let sought = seek_beg offset (open_stream content)
  guard (not sought.fail) seek_failed
  guard (length (read count sought).0 == count) short_read
  ok (read count sought).0

-- ParallelReadThreshold
abbrev pub parallel_read_threshold : ℕ
parallel_read_threshold = 2 ^ 20

-- std::max(1, options.ioThreads)
abbrev pub requested_threads : ℤ → ℕ
requested_threads (pos n) = max 1 n
requested_threads (negsuc n) = 1

-- `TaskCountForBytes`
unfoldable pub task_count_for_bytes : ℕ → ℤ → ℕ → ℕ
task_count_for_bytes limit io_threads count =
    if ltb count parallel_read_threshold || leb (requested_threads io_threads) 1
    then 1
    else max 1 (min (min (requested_threads io_threads) (max 1 limit)) count)

-- Where the part of task `task` begins; it ends where the next one begins.
abbrev pub part_begin : ℕ → ℕ → ℕ → ℕ
part_begin count task_count task = (count * task) % 2 ^ 64 / task_count

-- The difference of two numbers of the type size_t.
abbrev pub size_difference : ℕ → ℕ → ℕ
size_difference last first = (last + 2 ^ 64 - first) % 2 ^ 64

-- The body of the loop over the tasks.
unfoldable pub read_part : Option Bytes → ℕ → ℕ → ℕ → ℕ → Bytes → Result Error Bytes
read_part file offset count task_count task target =
    let first = part_begin count task_count task in
    let last = part_begin count task_count (suc task) in
    let part = read_file_range file ((offset + first) % 2 ^ 64) (size_difference last first) in
    if first == last then ok target else part >>= λ bytes. ok (write_at first bytes target)

-- `ReadFileRangeIntoParallel`: the target afterwards.
unfoldable pub read_file_range_parallel :
    (ℕ → List ℕ) → ℕ → ℤ → Option Bytes → ℕ → ℕ → Bytes → Result Error Bytes
read_file_range_parallel order limit io_threads file offset count target =
    let tasks = task_count_for_bytes limit io_threads count in
    let whole = read_file_range file offset count in
    if count == 0
    then ok target
    else if tasks == 1
    then (whole >>= λ bytes. ok (write_at 0 bytes target))
    else run_tasks (read_part file offset count tasks) (order tasks) target
