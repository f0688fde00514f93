-- ===== src/Vtk/Range/AnyOrder.antt =====
-- A parallel read, in any order of its tasks.
use cae_openusd_plugins.Prelude.{
  ℕ, suc, ◌+◌, ◌*◌, ◌^◌, ◌≤◌, ◌<◌, ◌≡◌, inl, inr, sym, ap, ◌∙◌, arith, Bool-cases, ◌==◌, ==_iff,
  some, List, Bytes, ◌++◌, [], length, take, drop, length-take, length-drop, append-nil, eq_nil,
}
use cae_openusd_plugins.Prelude.Int.{ℤ}
use cae_openusd_plugins.Prelude.Result.{ok, ok-bind}
use cae_openusd_plugins.Stream.{streamoff_max}
use cae_openusd_plugins.Vtk.Workers.{write_at, run_tasks}
use cae_openusd_plugins.Vtk.Workers.Order.{IsScheduled, run_tasks-any_order}
use cae_openusd_plugins.Vtk.Range.{task_count_for_bytes, read_part, read_file_range_parallel}
use cae_openusd_plugins.Vtk.Range.Parallel.{
  bound, bound_monotone, bound_all, covers, lo_le, read_part-copies, read_file_range-good,
}

write_at-whole :
    (bytes target : Bytes) → length bytes ≡ length target → write_at 0 bytes target ≡ bytes
unfolding write_at
write_at-whole bytes target h =
    let rest : drop (0 + length bytes) target ≡ [] =
      eq_nil _ (omega (arith, length-drop (0 + length bytes) target)) in
    ap (λ r. bytes ++ r) rest ∙ append-nil bytes

-- The order has every task, and no other.
abbrev pub IsOrder : (ℕ → List ℕ) → Type 0
IsOrder order = (n t : ℕ) → (t < n → IsScheduled t (order n)) × (IsScheduled t (order n) → t < n)

task_count-positive :
    (limit : ℕ) (io_threads : ℤ) (count : ℕ) → 0 < task_count_for_bytes limit io_threads count
unfolding task_count_for_bytes
task_count-positive limit io_threads count = ground arith

run_parts :
    (order : ℕ → List ℕ) (content : Bytes) (offset count tasks : ℕ) (target : Bytes)
    → IsOrder order
    → offset + count ≤ length content
    → length content ≤ streamoff_max
    → length target ≡ count
    → count * tasks < 2 ^ 64
    → 0 < tasks
    → run_tasks (read_part (some content) offset count tasks) (order tasks) target
      ≡ ok (take count (drop offset content))
run_parts order content offset count tasks target is_order inside small room no_wrap positive =
    let source = take count (drop offset content) in
    let source_length : length source ≡ count =
      omega (arith, length-take count (drop offset content), length-drop offset content) in
    run_tasks-any_order source (bound count tasks) (λ t. bound count tasks (suc t))
      (bound_monotone count tasks positive) (read_part (some content) offset count tasks)
      (order tasks) target
      (λ t s.
        let below = (is_order tasks t).1 s in
        let at_most =
          lo_le content offset count tasks inside small positive no_wrap (suc t) below in
        (
          omega (arith, at_most, source_length),
          λ buffer _.
              read_part-copies content offset count tasks inside small positive no_wrap t buffer
                below,
        ))
      (room ∙ sym source_length)
      (λ j h.
        let all = bound_all count tasks positive in
        let (t, below, from, to) =
          covers count tasks positive tasks j (omega (arith, all, h, source_length)) in
        (t, (is_order tasks t).0 below, from, to))

-- A range that lies in the file is read into the target whole, by one task or by several, in
-- whatever order these run, if no product of the size and a task number wraps around.
pub read_file_range_parallel-any_order :
    (order : ℕ → List ℕ) (limit : ℕ) (io_threads : ℤ) (content : Bytes) (offset count : ℕ)
    (target : Bytes)
    → IsOrder order
    → offset + count ≤ length content
    → length content ≤ streamoff_max
    → length target ≡ count
    → count * task_count_for_bytes limit io_threads count < 2 ^ 64
    → read_file_range_parallel order limit io_threads (some content) offset count target
      ≡ ok (take count (drop offset content))
unfolding read_file_range_parallel
read_file_range_parallel-any_order order limit io_threads content offset count target is_order
      inside small room no_wrap =
    let tasks = task_count_for_bytes limit io_threads count in
    let source = take count (drop offset content) in
    let source_length : length source ≡ count =
      omega (arith, length-take count (drop offset content), length-drop offset content) in
    let whole = read_file_range-good content offset count inside small in
    elim (Bool-cases (count == 0)) [
      | inl e ↦
          let empty : count ≡ 0 = (==_iff count 0).0 e in
          rw e (
            ap ok (
              eq_nil target (omega (arith, room, empty))
              ∙ sym (eq_nil source (omega (arith, source_length, empty)))))
      | inr e ↦ elim (Bool-cases (tasks == 1)) [
        | inl one ↦
            rw (e, one, whole, ok-bind)
              (ap ok (write_at-whole source target (source_length ∙ sym room)))
        | inr many ↦
            rw (e, many)
              (run_parts order content offset count tasks target is_order inside small room no_wrap
                (task_count-positive limit io_threads count))
      ]
    ]
