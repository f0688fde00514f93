-- ===== src/Vtk/Sizes/Exact.antt =====
-- The checked sizes, and the exact ones.
use native.Mathlib.Nat.{le-div_iff_mul-le}
use cae_openusd_plugins.Prelude.{
  ℕ, zero, suc, ◌+◌, ◌-◌, ◌*◌, ◌/◌, ◌≤◌, ◌<◌, ◌≡◌, refl, sym, subst, arith, ltb, lt→ltb, Bool-cases,
  leb, if◌then◌else◌, by_bound, ◌==◌, inl, inr, true, false,
}
use cae_openusd_plugins.Prelude.Result.{Result, ok, err}
use cae_openusd_plugins.Vtk.Error.{Error, overflow}
use cae_openusd_plugins.Vtk.Types.{size_max}
use cae_openusd_plugins.Vtk.Sizes.{checked_mul, decoded_compressed_size, block_decoded_size}

-- The division test of a product.
pub fits : (a b limit : ℕ) → 0 < b → a * b ≤ limit → ltb (limit / b) a ≡ false
fits a b limit positive h =
    let (from, to) = le-div_iff_mul-le {k = b} {x = a} {y = limit} positive in
    let le = to h in ground (arith, le)

overflows : (a b limit : ℕ) → 0 < b → limit < a * b → ltb (limit / b) a ≡ true
overflows a b limit positive h =
    let (from, to) = le-div_iff_mul-le {k = b} {x = a} {y = limit} positive in
    lt→ltb (limit / b) a (below from)
  where
    below : (a ≤ limit / b → a * b ≤ limit) → limit / b < a
    below from = ground (arith, from)

is_positive : (b : ℕ) → 0 < b → (b == 0) ≡ false
is_positive b h = ground arith

is_zero : (b : ℕ) → (b == 0) ≡ true → b ≡ 0
is_zero b h = ground arith

nonzero : (b : ℕ) → (b == 0) ≡ false → 0 < b
nonzero b h = ground arith

zero_fits : (a b : ℕ) → b ≡ 0 → a * b ≤ size_max
zero_fits a b h = rw (h) (omega arith)

-- A checked product is the exact one, or is refused where it exceeds the largest size.
checked_mul_exact :
    (a b : ℕ) → checked_mul a b ≡ (if leb (a * b) size_max then ok (a * b) else err overflow)
unfolding checked_mul
checked_mul_exact a b = elim (Bool-cases (b == 0)) [
  | inl e ↦
      by_bound (a * b) size_max (checked_mul a b) (ok (a * b)) (err overflow) (λ h. rw (e))
        (λ h. ground (arith, zero_fits a b (is_zero b e), h))
  | inr e ↦
      by_bound (a * b) size_max (checked_mul a b) (ok (a * b)) (err overflow)
        (λ h. rw (e, fits a b size_max (nonzero b e) h))
        (λ h. rw (e, overflows a b size_max (nonzero b e) h))
]

-- The decoded size of a compressed payload is the sum of the sizes of its blocks.
abbrev pub blocks_size : ℕ → ℕ → ℕ → ℕ → ℕ
blocks_size zero num_blocks block_size last_block_size = 0
blocks_size (suc k) num_blocks block_size last_block_size =
    blocks_size k num_blocks block_size last_block_size
    + block_decoded_size k num_blocks block_size last_block_size

whole_blocks : (k n b : ℕ) → blocks_size k n b 0 ≡ k * b
unfolding block_decoded_size
whole_blocks zero n b = ground arith
whole_blocks (suc k) n b = let ih = whole_blocks k n b in ground (arith, ih)

full_blocks : (k n b l : ℕ) → k < n → blocks_size k n b l ≡ k * b
unfolding block_decoded_size
full_blocks zero n b l h = ground arith
full_blocks (suc k) n b l h = let ih = full_blocks k n b l (omega arith) in ground (arith, ih, h)

sum_last : (m b l : ℕ) → 0 < l → blocks_size (suc m) (suc m) b l ≡ m * b + l
unfolding block_decoded_size
sum_last m b l h = let full = full_blocks m (suc m) b l (omega arith) in ground (arith, full, h)

abbrev IsExact : Result Error ℕ → ℕ → Type 0
IsExact result size = result ≡ (if leb size size_max then ok size else err overflow)

whole-IsExact : (m b : ℕ) → 0 < b → IsExact (decoded_compressed_size (suc m) b 0) (suc m * b)
unfolding decoded_compressed_size
whole-IsExact m b p =
    by_bound (suc m * b) size_max (decoded_compressed_size (suc m) b 0) (ok (suc m * b))
      (err overflow)
      (λ h. rw (is_positive (suc m) (omega arith), is_positive b p, fits (suc m) b size_max p h))
      (λ h.
        rw (is_positive (suc m) (omega arith), is_positive b p, overflows (suc m) b size_max p h))

last-IsExact :
    (m b l : ℕ)
    → 0 < b
    → l ≤ size_max
    → (l == 0) ≡ false
    → IsExact (decoded_compressed_size (suc m) b l) (m * b + l)
unfolding decoded_compressed_size
last-IsExact m b l p le e =
    let pred : suc m - 1 ≡ m = omega arith in
    by_bound (m * b + l) size_max (decoded_compressed_size (suc m) b l) (ok (m * b + l))
      (err overflow)
      (λ h. rw (
        is_positive (suc m) (omega arith),
        is_positive b p,
        e,
        pred,
        fits m b (size_max - l) p (omega arith),
      ))
      (λ h. rw (
        is_positive (suc m) (omega arith),
        is_positive b p,
        e,
        pred,
        overflows m b (size_max - l) p (omega arith),
      ))

-- The decoded size of a compressed payload whose block size is not zero is the exact sum of the
-- sizes of its blocks, or is refused where that sum exceeds the largest size.
pub decoded_compressed_size_exact :
    (n b l : ℕ)
    → l ≤ size_max
    → 0 < b
    → decoded_compressed_size n b l
      ≡ (if leb (blocks_size n n b l) size_max then ok (blocks_size n n b l) else err overflow)
unfolding decoded_compressed_size
decoded_compressed_size_exact zero b l le p = refl
decoded_compressed_size_exact (suc m) b zero le p =
    subst (IsExact (decoded_compressed_size (suc m) b 0)) (sym (whole_blocks (suc m) (suc m) b))
      (whole-IsExact m b p)
decoded_compressed_size_exact (suc m) b (suc l) le p =
    subst (IsExact (decoded_compressed_size (suc m) b (suc l)))
      (sym (sum_last m b (suc l) (omega arith)))
      (last-IsExact m b (suc l) p le (is_positive (suc l) (omega arith)))
