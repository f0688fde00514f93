-- ===== src/Vtk/Blocks/Offsets.antt =====
-- The offsets of the blocks, and the sizes before them.
use cae_openusd_plugins.Prelude.{ℕ, zero, suc, ◌+◌, ◌≡◌, sym, ap, ◌∙◌, List, [], ◌∷◌, sum, arith}
use cae_openusd_plugins.Prelude.Result.{ok, bind-eq-ok, ok-injective}
use cae_openusd_plugins.Vtk.Sizes.{checked_add, block_decoded_size}
use cae_openusd_plugins.Vtk.Blocks.{BlockRows, layout_loop}

-- The sums that stand before each of the numbers, from `start` on.
abbrev pub sums_before : ℕ → List ℕ → List ℕ
sums_before start [] = []
sums_before start (n ∷ rest) = start ∷ sums_before (start + n) rest

-- The values of `f` from `first` on.
abbrev pub values_from : (ℕ → ℕ) → ℕ → ℕ → List ℕ
values_from f first zero = []
values_from f first (suc count) = f first ∷ values_from f (suc first) count

checked_add-eq-ok : (a b : ℕ) {c : ℕ} → checked_add a b ≡ ok c → c ≡ a + b
unfolding checked_add
checked_add-eq-ok a b h = ground (arith, h)

-- A row before the later ones.
row_before :
    (size dec compressed decoded ca da : ℕ) (later rows : BlockRows)
    (later_sizes later_decs : List ℕ)
    → ca ≡ compressed + size
    → da ≡ decoded + dec
    → later.sizes ≡ later_sizes
    → later.compressed ≡ sums_before ca later_sizes
    → later.decoded ≡ sums_before da later_decs
    → later.total ≡ ca + sum later_sizes
    → ◌≡◌ {A = BlockRows}
        (record {
          sizes = size ∷ later.sizes;
          compressed = compressed ∷ later.compressed;
          decoded = decoded ∷ later.decoded;
          total = later.total;
        })
        rows
    → (rows.sizes ≡ size ∷ later_sizes)
      × (rows.compressed ≡ compressed ∷ sums_before (compressed + size) later_sizes)
      × (rows.decoded ≡ decoded ∷ sums_before (decoded + dec) later_decs)
      × (rows.total ≡ compressed + (size + sum later_sizes))
row_before size dec compressed decoded ca da later rows later_sizes later_decs e e' s c d t same = (
  sym (ap (λ (r : BlockRows). r.sizes) same) ∙ ap (λ l. size ∷ l) s,
  sym (ap (λ (r : BlockRows). r.compressed) same)
      ∙ ap (λ l. compressed ∷ l) (c ∙ ap (λ x. sums_before x later_sizes) e),
  sym (ap (λ (r : BlockRows). r.decoded) same)
      ∙ ap (λ l. decoded ∷ l) (d ∙ ap (λ x. sums_before x later_decs) e'),
  sym (ap (λ (r : BlockRows). r.total) same) ∙ omega (arith, t, e),
)

module _ (size_of : ℕ → ℕ) (n b l : ℕ) where
  -- A successful loop stores the sizes, and for each block the exact sums before it.
  pub layout_loop-sums :
      (left block compressed decoded : ℕ) {rows : BlockRows}
      → layout_loop size_of n b l left block compressed decoded ≡ ok rows
      → (rows.sizes ≡ values_from size_of block left)
        × (rows.compressed ≡ sums_before compressed (values_from size_of block left))
        × (rows.decoded
            ≡ sums_before decoded (values_from (λ k. block_decoded_size k n b l) block left))
        × (rows.total ≡ compressed + sum (values_from size_of block left))
  unfolding layout_loop
  layout_loop-sums zero block compressed decoded {rows} h =
      let same : ◌≡◌ {A = BlockRows}
          (record { sizes = []; compressed = []; decoded = []; total = compressed }) rows =
        ok-injective h in
      (
        sym (ap (λ (r : BlockRows). r.sizes) same),
        sym (ap (λ (r : BlockRows). r.compressed) same),
        sym (ap (λ (r : BlockRows). r.decoded) same),
        sym (ap (λ (r : BlockRows). r.total) same) ∙ omega arith,
      )
  layout_loop-sums (suc left) block compressed decoded {rows} h =
      let (compressed_after, e, h1) = bind-eq-ok _ _ h in
      let (decoded_after, e', h2) = bind-eq-ok _ _ h1 in
      let (later, rest, h3) = bind-eq-ok _ _ h2 in
      let (s, c, d, t) = layout_loop-sums left (suc block) compressed_after decoded_after rest in
      row_before (size_of block) (block_decoded_size block n b l) compressed decoded
        compressed_after decoded_after later rows _ _
        (checked_add-eq-ok compressed (size_of block) e)
        (checked_add-eq-ok decoded (block_decoded_size block n b l) e') s c d t (ok-injective h3)
