-- ===== src/Vtk/Range/Parallel.antt =====
-- The parts of a range, and the task of each.
use native.Mathlib.Nat.{le-div_iff_mul-le, div-mul-le_self, mul-div_cancel, zero-div}
use cae_openusd_plugins.Prelude.{
  ℕ, zero, suc, ◌+◌, ◌-◌, ◌*◌, ◌/◌, ◌%◌, ◌^◌, ◌≤◌, ◌<◌, ◌≡◌, inl, inr, sym, ap, ◌∙◌, arith,
  Bool-cases, le→leb, ◌==◌, ==_iff, some, Bytes, length, take, drop, get_elem?, length-take,
  length-drop, take-append-drop, eq_nil, [], ◌++◌,
}
use cae_openusd_plugins.Prelude.Pointwise.{get_elem?-take, get_elem?-drop, pointwise-eq}
use cae_openusd_plugins.Prelude.Result.{ok, ok-bind, true-bind, require}
use cae_openusd_plugins.Stream.{read-good, seek_beg-good, streamoff_max}
use cae_openusd_plugins.Vtk.Workers.{write_at}
use cae_openusd_plugins.Vtk.Workers.Order.{slice, get_elem?-slice, length-slice, le_or_lt}
use cae_openusd_plugins.Vtk.Range.{read_file_range, part_begin, size_difference, read_part}

-- The parts of a buffer of `count` bytes that `tasks` tasks fill.
abbrev pub bound : ℕ → ℕ → ℕ → ℕ
bound count tasks task = count * task / tasks

module _ (count tasks : ℕ) (positive : 0 < tasks) where
  div_monotone : (a b : ℕ) → a ≤ b → a / tasks ≤ b / tasks
  div_monotone a b h =
      let (from, to) = le-div_iff_mul-le {k = tasks} {x = a / tasks} {y = b} positive in
      to (omega (arith, div-mul-le_self a tasks))

  pub bound_monotone : (t : ℕ) → bound count tasks t ≤ bound count tasks (suc t)
  bound_monotone t = div_monotone (count * t) (count * suc t) (ground arith)

  pub bound_all : bound count tasks tasks ≡ count
  bound_all = mul-div_cancel count positive

  bound_zero : bound count tasks 0 ≡ 0
  bound_zero = ap (λ n. n / tasks) (let e : count * 0 ≡ 0 = omega arith in e) ∙ zero-div tasks

  -- The parts before the bound of a task cover the bytes before it.
  pub covers :
      (k j : ℕ)
      → j < bound count tasks k
      → (t : ℕ) × (t < k) × (bound count tasks t ≤ j) × (j < bound count tasks (suc t))
  covers zero j h = absurd (omega (arith, h, bound_zero))
  covers (suc k) j h = elim (le_or_lt (bound count tasks k) j) [
    | inl from ↦ (k, omega arith, from, h)
    | inr before ↦ let (t, below, c, d) = covers k j before in (t, omega (arith, below), c, d)
  ]

-- A range that lies in the file is read whole.
pub read_file_range-good :
    (content : Bytes) (offset count : ℕ)
    → offset + count ≤ length content
    → length content ≤ streamoff_max
    → read_file_range (some content) offset count ≡ ok (take count (drop offset content))
unfolding read_file_range require
read_file_range-good content offset count h small =
    let got : length (take count (drop offset content)) ≡ count =
      omega (arith, length-take count (drop offset content), length-drop offset content) in
    let (_, same) = ==_iff (length (take count (drop offset content))) count in
    rw (
      ok-bind,
      le→leb offset streamoff_max (omega arith),
      true-bind,
      seek_beg-good content offset (omega arith),
      true-bind,
      read-good content offset count h,
      same got,
      true-bind,
    )

write_at-nil : (o : ℕ) (target : Bytes) → write_at o [] target ≡ target
unfolding write_at
write_at-nil o target =
    let e : o + 0 ≡ o = omega arith in
    ap (λ n. take o target ++ drop n target) e ∙ take-append-drop o target

-- A part of a range is a range.
slice-take :
    (content : Bytes) (offset count lo hi : ℕ)
    → offset + count ≤ length content
    → lo ≤ hi
    → hi ≤ count
    → take (hi - lo) (drop (offset + lo) content) ≡ slice lo hi (take count (drop offset content))
slice-take content offset count lo hi h le inside =
    pointwise-eq _ _ (omega (arith, left_length, right_length))
      (λ j k. agree j (omega (arith, k, right_length)))
  where
    source_length : length (take count (drop offset content)) ≡ count
    source_length =
        omega (arith, length-take count (drop offset content), length-drop offset content)

    left_length : length (take (hi - lo) (drop (offset + lo) content)) ≡ hi - lo
    left_length = omega (
      arith,
      length-take (hi - lo) (drop (offset + lo) content),
      length-drop (offset + lo) content,
    )

    right_length : length (slice lo hi (take count (drop offset content))) ≡ hi - lo
    right_length =
        length-slice lo hi (take count (drop offset content)) (omega (arith, source_length))

    agree :
        (j : ℕ)
        → j < hi - lo
        → get_elem? (take (hi - lo) (drop (offset + lo) content)) j
          ≡ get_elem? (slice lo hi (take count (drop offset content))) j
    agree j k =
        let e : offset + lo + j ≡ offset + (lo + j) = omega arith in
        get_elem?-take (hi - lo) (drop (offset + lo) content) j k
        ∙ get_elem?-drop (offset + lo) content j
        ∙ ap (get_elem? content) e
        ∙ sym (get_elem?-drop offset content (lo + j))
        ∙ sym (get_elem?-take count (drop offset content) (lo + j) (omega arith))
        ∙ sym (get_elem?-slice lo hi (take count (drop offset content)) j k)

mul_le : (p a b : ℕ) → a ≤ b → p * a ≤ p * b
mul_le p a b h = grind arith

-- A range of a file that is read by `tasks` tasks.
size_difference-le :
    (last first : ℕ) → first ≤ last → last < 2 ^ 64 → size_difference last first ≡ last - first
size_difference-le last first h k = omega arith

module _ (content : Bytes) (offset count tasks : ℕ) (inside : offset + count ≤ length content)
    (small : length content ≤ streamoff_max) (positive : 0 < tasks)
    (no_wrap : count * tasks < 2 ^ 64) where
  pub lo_le : (t : ℕ) → t ≤ tasks → bound count tasks t ≤ count
  lo_le t h =
      let below =
        div_monotone count tasks positive (count * t) (count * tasks) (mul_le count t tasks h) in
      omega (arith, below, bound_all count tasks positive)

  part_begin-bound : (t : ℕ) → t ≤ tasks → part_begin count tasks t ≡ bound count tasks t
  part_begin-bound t h =
      let below = mul_le count t tasks h in
      let whole : (count * t) % 2 ^ 64 ≡ count * t = omega arith in ap (λ n. n / tasks) whole

  pub read_part-copies :
      (t : ℕ) (target : Bytes)
      → t < tasks
      → read_part (some content) offset count tasks t target
        ≡ ok (
            write_at
              (bound count tasks t)
              (slice
                (bound count tasks t)
                (bound count tasks (suc t))
                (take count (drop offset content)))
              target)
  unfolding read_part
  read_part-copies t target h =
      let lo = bound count tasks t in
      let hi = bound count tasks (suc t) in
      let source = take count (drop offset content) in
      let at_most = lo_le (suc t) (omega arith) in
      let ordered = bound_monotone count tasks positive t in
      let count_small = mul_le count 1 tasks positive in
      let source_length : length source ≡ count =
        omega (arith, length-take count (drop offset content), length-drop offset content) in
      elim (Bool-cases (lo == hi)) [
        | inl e ↦
            let same : lo ≡ hi = (==_iff lo hi).0 e in
            let none_left : slice lo hi source ≡ [] = eq_nil _ (
              omega
                (arith, length-slice lo hi source (omega (arith, source_length, at_most)), same)) in
            rw (part_begin-bound t (omega arith), part_begin-bound (suc t) (omega arith), e)
              (sym (ap ok (ap (λ b. write_at lo b target) none_left ∙ write_at-nil lo target)))
        | inr e ↦
            let whole : (offset + lo) % 2 ^ 64 ≡ offset + lo = omega (arith, at_most, ordered) in
            let difference : size_difference hi lo ≡ hi - lo =
              size_difference-le hi lo ordered (omega (arith, at_most, count_small)) in
            let part =
              read_file_range-good content (offset + lo) (hi - lo) (omega (arith, at_most, ordered))
                small in
            rw (
              part_begin-bound t (omega arith),
              part_begin-bound (suc t) (omega arith),
              e,
              whole,
              difference,
              part,
              ok-bind,
              slice-take content offset count lo hi inside ordered at_most,
            )
      ]
