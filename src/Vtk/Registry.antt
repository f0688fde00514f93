-- ===== src/Vtk/Registry.antt =====
-- ArrayNameRegistry of ParserUtils.cpp: the USD-facing names of arrays. The sets and maps of the
-- source are lists here; `make_valid` stands for TfMakeValidIdentifier.
pub mod Unique
use cae_openusd_plugins.Prelude.{
  contains, ℕ, zero, suc, ◌+◌, ◌%◌, ◌^◌, Bool, true, false, not, ◌&&◌, ◌||◌, Option, none, some,
  List, [], ◌∷◌, ◌++◌, Bytes, length, same, if◌then◌else◌,
}
use cae_openusd_plugins.Prelude.Decimal.{to_string}

-- `ArrayNameRegistry`
pub record ArrayNameRegistry : Type 0 where
  pub used_names : List Bytes
  pub next_suffix : List (Bytes × ℕ)

abbrev pub no_names : ArrayNameRegistry
no_names = record { used_names = []; next_suffix = [] }

-- The value that a map has for a key, and the map with another one.
unfoldable pub find : Bytes → List (Bytes × ℕ) → Option ℕ
find key [] = none
find key ((k, v) ∷ rest) = if same k key then some v else find key rest

unfoldable pub put : Bytes → ℕ → List (Bytes × ℕ) → List (Bytes × ℕ)
put key value [] = (key, value) ∷ []
put key value ((k, v) ∷ rest) =
    if same k key then (key, value) ∷ rest else (k, v) ∷ put key value rest

-- `base + "_" + std::to_string(suffix)`
unfoldable pub candidate : Bytes → ℕ → Bytes
candidate base suffix = base ++ b'_' ∷ to_string suffix

-- The loop over the suffixes: the first unused name and the suffix behind its own.
unfoldable pub search_suffix : ℕ → List Bytes → Bytes → ℕ → Option (Bytes × ℕ)
search_suffix zero used base suffix = none
search_suffix (suc fuel) used base suffix =
    let next = (suffix + 1) % 2 ^ 64 in
    let later = search_suffix fuel used base next in
    if contains used (candidate base suffix) then later else some (candidate base suffix, next)

abbrev is_none : {A : Type 0} → Option A → Bool
is_none none = true
is_none (some a) = false

abbrev or_zero : Option ℕ → ℕ
or_zero none = 0
or_zero (some n) = n

abbrev is_nil : Bytes → Bool
is_nil [] = true
is_nil (b ∷ bs) = false

abbrev record_suffix :
    ArrayNameRegistry → Bytes → Option (Bytes × ℕ) → Option (Bytes × ArrayNameRegistry)
record_suffix names base none = none
record_suffix names base (some (name, next)) = some (
  name,
  record { used_names = name ∷ names.used_names; next_suffix = put base next names.next_suffix },
)

-- `MakeUniqueName` of a base that is a valid identifier. A set has one name more than it holds to
-- find an unused one, which is the fuel of the loop.
unfoldable pub make_unique_base : Bytes → ArrayNameRegistry → Option (Bytes × ArrayNameRegistry)
make_unique_base base names =
    if is_none (find base names.next_suffix) && not (contains names.used_names base)
    then some (
      base,
      record { used_names = base ∷ names.used_names; next_suffix = put base 1 names.next_suffix },
    )
    else record_suffix names base (
        search_suffix (suc (length names.used_names)) names.used_names base
          (or_zero (find base names.next_suffix)))

-- `MakeUniqueName`
unfoldable pub make_unique_name :
    (Bytes → Bytes) → Bytes → Bytes → ArrayNameRegistry → Option (Bytes × ArrayNameRegistry)
make_unique_name make_valid source_name fallback_base names =
    make_unique_base (make_valid (if is_nil source_name then fallback_base else source_name)) names
