-- ===== src/Eclipse/Deck/ActiveCells.antt =====
-- The map from the cells of a grid to its active ones.
use cae_openusd_plugins.Prelude.{
  ℕ, zero, suc, ◌+◌, ◌^◌, ◌<◌, ◌≡◌, inl, inr, refl, sym, ap, Bool, true, false, Bool-cases, some,
  List, [], ◌∷◌, length, get_elem?, take, lt→ltb, if◌then◌else◌, arith, some-injective,
}
use cae_openusd_plugins.Prelude.Int.{ℤ, pos, negsuc, ◌==ℤ◌}
use cae_openusd_plugins.Prelude.Result.{ok, ok-bind}
use cae_openusd_plugins.Eclipse.Deck.Arrays.{
  int_limit, map_cells, build_logical_cell_to_active_cell_array,
}

abbrev pub is_active : ℤ → Bool
is_active cell = if cell ==ℤ pos 0 then false else true

-- The number of the active cells.
abbrev pub count_active : List ℤ → ℕ
count_active [] = 0
count_active (cell ∷ cells) =
    if is_active cell then suc (count_active cells) else count_active cells

-- The cells' own numbers: an active cell has the number of the active cells in front of it.
abbrev active_numbers : ℕ → List ℤ → List ℤ
active_numbers active [] = []
active_numbers active (cell ∷ cells) =
    if is_active cell
    then pos active ∷ active_numbers (suc active) cells
    else negsuc 0 ∷ active_numbers active cells

map_cells_lem :
    (active : ℕ) (cells : List ℤ)
    → active + length cells < 2 ^ 31
    → map_cells active cells ≡ ok (active_numbers active cells)
unfolding map_cells
map_cells_lem active [] h = refl
map_cells_lem active (cell ∷ cells) h = elim (Bool-cases (cell ==ℤ pos 0)) [
  | inl e ↦ rw (e, map_cells_lem active cells (omega (arith, h)), ok-bind) refl
  | inr e ↦
      rw
        (
          e,
          lt→ltb (suc active) int_limit (omega (arith, h)),
          ok-bind,
          map_cells_lem (suc active) cells (omega (arith, h)),
          ok-bind,
        )
        refl
]

length-active_numbers :
    (active : ℕ) (cells : List ℤ) → length (active_numbers active cells) ≡ length cells
length-active_numbers active [] = refl
length-active_numbers active (cell ∷ cells) = elim (Bool-cases (cell ==ℤ pos 0)) [
  | inl e ↦ rw e (ap suc (length-active_numbers active cells))
  | inr e ↦ rw e (ap suc (length-active_numbers (suc active) cells))
]

get_elem?-active_numbers :
    (active : ℕ) (cells : List ℤ) (i : ℕ) (cell : ℤ)
    → get_elem? cells i ≡ some cell
    → get_elem? (active_numbers active cells) i
      ≡ some (if is_active cell then pos (active + count_active (take i cells)) else negsuc 0)
get_elem?-active_numbers active [] i cell h = cc
get_elem?-active_numbers active (c ∷ cells) zero cell h =
    let e : c ≡ cell = some-injective h in
    let plus : active ≡ active + 0 = omega arith in
    rw (sym e) (elim (Bool-cases (c ==ℤ pos 0)) [
      | inl t ↦ rw t refl
      | inr t ↦ rw t (ap (λ n. some (pos n)) plus)
    ])
get_elem?-active_numbers active (c ∷ cells) (suc i) cell h = elim (Bool-cases (c ==ℤ pos 0)) [
  | inl t ↦ rw t (get_elem?-active_numbers active cells i cell h)
  | inr t ↦
      let count = count_active (take i cells) in
      let plus : suc active + count ≡ active + suc count = omega arith in
      rw (t, sym plus) (get_elem?-active_numbers (suc active) cells i cell h)
]

-- If the cells are fewer than an int can count, the map from cells to active cells has one number
-- for each cell: an active cell has the number of the active cells in front of it, and any other
-- -1.
pub build_logical_cell_to_active_cell_array_lem :
    (actnum : List ℤ)
    → length actnum < 2 ^ 31
    → (mapping : List ℤ) × (build_logical_cell_to_active_cell_array actnum ≡ ok mapping)
      × (length mapping ≡ length actnum)
      × ((i : ℕ) (cell : ℤ)
          → get_elem? actnum i ≡ some cell
          → get_elem? mapping i
            ≡ some (if is_active cell then pos (count_active (take i actnum)) else negsuc 0))
unfolding build_logical_cell_to_active_cell_array
build_logical_cell_to_active_cell_array_lem actnum h = (
  active_numbers 0 actnum,
  map_cells_lem 0 actnum (omega (arith, h)),
  length-active_numbers 0 actnum,
  λ i cell e.
      let plus : 0 + count_active (take i actnum) ≡ count_active (take i actnum) = omega arith in
      rw (sym plus) (get_elem?-active_numbers 0 actnum i cell e),
)
