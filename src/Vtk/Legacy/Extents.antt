-- ===== src/Vtk/Legacy/Extents.antt =====
-- The counts of points and of cells of a grid, in LegacyParser.cpp.
use cae_openusd_plugins.Prelude.{
  ℕ, ◌-◌, ◌*◌, ◌^◌, ◌≤◌, ◌<◌, ◌≡◌, refl, ◌∙◌, false, Bool-cases, inl, inr, ltb, leb, lt→ltb,
  if◌then◌else◌, arith, by_bound,
}
use cae_openusd_plugins.Prelude.Int.{pos, pos_part, ◌-ℤ◌}
use cae_openusd_plugins.Prelude.Result.{ok, err}
use cae_openusd_plugins.Vtk.Error.{signed_overflow}
use cae_openusd_plugins.Vtk.Action.{pure, lift, modify, ◌>>=◌}
use cae_openusd_plugins.Vtk.Action.Keeps.{lift_ok-bind, bind_ok, bind_err}
use cae_openusd_plugins.Vtk.DatasetSpec.{DatasetSpec}
use cae_openusd_plugins.Vtk.Legacy.{LegacyTokenParser, on_dataset}
use cae_openusd_plugins.Vtk.Legacy.Sections.{to_int, int_product, parse_extents_from_dimensions}

-- The largest `int`.
abbrev pub int_max : ℕ
int_max = 2 ^ 31 - 1

-- The dataset of a grid with its extents.
abbrev pub with_dimensions : ℕ → ℕ → ℕ → DatasetSpec → DatasetSpec
with_dimensions nx ny nz d = record d {
  min_extent = (pos 0, pos 0, pos 0);
  max_extent = (pos nx -ℤ pos 1, pos ny -ℤ pos 1, pos nz -ℤ pos 1);
  point_count = nx * ny * nz;
  cell_count = (nx - 1) * (ny - 1) * (nz - 1);
}

not_below : (n bound : ℕ) → bound ≤ n → ltb n bound ≡ false
not_below n bound h = ground arith

int_product_fits :
    {S : Type 0} (a b c : ℕ) (s : S)
    → a * b ≤ int_max
    → a * b * c ≤ int_max
    → int_product a b c s ≡ ok (a * b * c, s)
unfolding int_product to_int lift ◌>>=◌ pure
int_product_fits a b c s h k =
    rw (lt→ltb (a * b) (2 ^ 31) (omega (arith, h)), lt→ltb (a * b * c) (2 ^ 31) (omega (arith, k)))
      refl

int_product_overflows :
    {S : Type 0} (a b c : ℕ) (s : S)
    → int_max < a * b * c
    → int_product a b c s ≡ err signed_overflow
unfolding int_product to_int lift ◌>>=◌ pure
int_product_overflows a b c s h = elim (Bool-cases (ltb (a * b) (2 ^ 31))) [
  | inl e ↦ rw (e, not_below (a * b * c) (2 ^ 31) (omega (arith, h))) refl
  | inr e ↦ rw e refl
]

le-mul_right : (a b : ℕ) → 0 < b → a ≤ a * b
le-mul_right a b h = grind arith

mul_mono : (a b c d : ℕ) → a ≤ c → b ≤ d → a * b ≤ c * d
mul_mono a b c d h k = grind arith

to_int-pred : (n : ℕ) → 0 < n → n ≤ int_max → to_int (pos n -ℤ pos 1) ≡ ok (pos n -ℤ pos 1)
unfolding to_int ◌-ℤ◌
to_int-pred n h k = ground arith

pos_part-pred : (n : ℕ) → 0 < n → pos_part (pos n -ℤ pos 1) ≡ n - 1
unfolding ◌-ℤ◌
pos_part-pred n h = ground arith

changed :
    (p : LegacyTokenParser) (f : DatasetSpec → DatasetSpec)
    → on_dataset f p ≡ ok (tt, record p { dataset = f p.dataset })
unfolding modify
changed p f = refl

-- Positive dimensions of a grid, each an int, give the exact numbers of points and of cells if
-- the points are at most the largest int, and signed overflow, which is undefined, if they are
-- more.
pub parse_extents_from_dimensions_exact :
    (nx ny nz : ℕ) (p : LegacyTokenParser)
    → 0 < nx
    → 0 < ny
    → 0 < nz
    → nx ≤ int_max
    → ny ≤ int_max
    → nz ≤ int_max
    → parse_extents_from_dimensions (pos nx) (pos ny) (pos nz) p ≡ (
        if leb (nx * ny * nz) int_max
        then ok (tt, record p { dataset = with_dimensions nx ny nz p.dataset })
        else err signed_overflow)
unfolding parse_extents_from_dimensions
parse_extents_from_dimensions_exact nx ny nz p hx hy hz bx by bz =
    lift_ok-bind _ _ p (to_int-pred nx hx bx)
    ∙ lift_ok-bind _ _ p (to_int-pred ny hy by)
    ∙ lift_ok-bind _ _ p (to_int-pred nz hz bz)
    ∙ rw (pos_part-pred nx hx, pos_part-pred ny hy, pos_part-pred nz hz)
        (by_bound (nx * ny * nz) int_max _ _ _
          (λ h.
            let plane : nx * ny ≤ nx * ny * nz = le-mul_right (nx * ny) nz hz in
            let cells : (nx - 1) * (ny - 1) ≤ nx * ny =
              mul_mono (nx - 1) (ny - 1) nx ny (omega arith) (omega arith) in
            let volume : (nx - 1) * (ny - 1) * (nz - 1) ≤ nx * ny * nz =
              mul_mono ((nx - 1) * (ny - 1)) (nz - 1) (nx * ny) nz cells (omega arith) in
            bind_ok _ _ p (int_product_fits nx ny nz p (omega (arith, plane, h)) h)
            ∙ bind_ok _ _ p (
                int_product_fits (nx - 1) (ny - 1) (nz - 1) p (omega (arith, cells, plane, h))
                  (omega (arith, volume, h)))
            ∙ changed p _)
          (λ h. bind_err _ _ p (int_product_overflows nx ny nz p h)))
