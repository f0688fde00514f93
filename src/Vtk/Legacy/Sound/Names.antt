-- ===== src/Vtk/Legacy/Sound/Names.antt =====
-- The names of the fields of a dataset, as the registry hands them out.
use cae_openusd_plugins.Prelude.{
  contains, ℕ, ◌≡◌, refl, sym, subst, Bool, true, false, ◌||◌, Bool-cases, inl, inr, List, [], ◌∷◌,
  ◌++◌, Bytes, same, same_iff, if◌then◌else◌, arith,
}
use cae_openusd_plugins.Vtk.Registry.{ArrayNameRegistry}
use cae_openusd_plugins.Vtk.Registry.Unique.{AllDistinct, IsNewName}
use cae_openusd_plugins.Vtk.DatasetSpec.{ArraySpec, push_array}
use cae_openusd_plugins.Vtk.Legacy.{LegacyTokenParser}
use cae_openusd_plugins.Vtk.Legacy.Arrays.{is_generic}
use cae_openusd_plugins.Vtk.Legacy.Sound.{IsSoundArray, AllSound, generic_names, AllIn, IsParsing}

AllSound-snoc :
    (binary : Bool) (arrays : List ArraySpec) (a : ArraySpec)
    → AllSound binary arrays
    → IsSoundArray binary a
    → AllSound binary (arrays ++ a ∷ [])
AllSound-snoc binary [] a h s = (s, tt)
AllSound-snoc binary (x ∷ arrays) a (hx, h) s = (hx, AllSound-snoc binary arrays a h s)

generic_names-snoc :
    (arrays : List ArraySpec) (a : ArraySpec)
    → generic_names (arrays ++ a ∷ []) ≡ (
        if is_generic a.role
        then generic_names arrays ++ a.array_name ∷ []
        else generic_names arrays)
generic_names-snoc [] a = refl
generic_names-snoc (x ∷ arrays) a = ground (arith, generic_names-snoc arrays a)

AllIn-cons : (used names : List Bytes) (n : Bytes) → AllIn used names → AllIn (n ∷ used) names
unfolding contains
AllIn-cons used [] n h = tt
AllIn-cons used (x ∷ names) n (hx, h) = (ground (arith, hx), AllIn-cons used names n h)

AllIn-snoc :
    (used names : List Bytes) (n : Bytes)
    → AllIn used names
    → contains used n ≡ true
    → AllIn used (names ++ n ∷ [])
AllIn-snoc used [] n h k = (k, tt)
AllIn-snoc used (x ∷ names) n (hx, h) k = (hx, AllIn-snoc used names n h k)

contains_self : (used : List Bytes) (n : Bytes) → contains (n ∷ used) n ≡ true
unfolding contains
contains_self used n = rw ((same_iff n n).1 refl) refl

-- What is not in a set is not in a part of it.
contains-AllIn :
    (used names : List Bytes) (n : Bytes)
    → AllIn used names
    → contains used n ≡ false
    → contains names n ≡ false
unfolding contains
contains-AllIn used [] n h k = refl
contains-AllIn used (x ∷ names) n (hx, h) k = elim (Bool-cases (same x n)) [
  | inl e ↦
      let e' : x ≡ n = (same_iff x n).0 e in
      let k' : contains used x ≡ false = rw e' k in cc (hx, k')
  | inr e ↦ rw e (contains-AllIn used names n h k)
]

contains-snoc :
    (names : List Bytes) (n x : Bytes)
    → contains (names ++ n ∷ []) x ≡ (contains names x || same n x)
unfolding contains
contains-snoc [] n x = ground arith
contains-snoc (y ∷ names) n x = ground (arith, contains-snoc names n x)

AllDistinct-snoc :
    (names : List Bytes) (n : Bytes)
    → AllDistinct names
    → contains names n ≡ false
    → AllDistinct (names ++ n ∷ [])
unfolding contains
AllDistinct-snoc [] n h k = (refl, tt)
AllDistinct-snoc (x ∷ names) n (hx, h) k = (
  ground (arith, contains-snoc names n x, same_iff x n, same_iff n x),
  AllDistinct-snoc names n h (ground (arith, k)),
)

module _ {c : Bytes} {k : ℕ} {binary : Bool} (p : LegacyTokenParser) (h : IsParsing c k binary p)
    (array : ArraySpec) (sound : IsSoundArray binary array) where
  abbrev pushed : ArrayNameRegistry → LegacyTokenParser
  pushed names = record p { names = names; dataset = push_array array p.dataset }

  -- An array with a role of its own.
  pub push_array-plain : is_generic array.role ≡ false → IsParsing c k binary (pushed p.names)
  unfolding push_array
  push_array-plain plain =
      let e : generic_names p.dataset.arrays ≡ generic_names (p.dataset.arrays ++ array ∷ []) =
        sym (rw plain at (generic_names-snoc p.dataset.arrays array)) in
      record {
        at = h.at;
        sound = AllSound-snoc binary p.dataset.arrays array h.sound sound;
        registry = h.registry;
        named = subst (AllIn p.names.used_names) e h.named;
        distinct = subst AllDistinct e h.distinct;
      }

  -- A field with a new name.
  pub push_array-generic :
      (names : ArrayNameRegistry)
      → is_generic array.role ≡ true
      → IsNewName p.names array.array_name names
      → IsParsing c k binary (pushed names)
  unfolding push_array
  push_array-generic names is_field new =
      let old = generic_names p.dataset.arrays in
      let e : old ++ array.array_name ∷ [] ≡ generic_names (p.dataset.arrays ++ array ∷ []) =
        sym (rw is_field at (generic_names-snoc p.dataset.arrays array)) in
      let used = p.names.used_names in
      let kept : AllIn (array.array_name ∷ used) (old ++ array.array_name ∷ []) =
        AllIn-snoc (array.array_name ∷ used) old array.array_name
          (AllIn-cons used old array.array_name h.named) (contains_self used array.array_name) in
      let fresh : contains old array.array_name ≡ false =
        contains-AllIn used old array.array_name h.named new.unused in
      record {
        at = h.at;
        sound = AllSound-snoc binary p.dataset.arrays array h.sound sound;
        registry = new.valid;
        named =
            subst (λ used_names. AllIn used_names (generic_names (p.dataset.arrays ++ array ∷ [])))
              (sym new.added) (subst (AllIn (array.array_name ∷ used)) e kept);
        distinct = subst AllDistinct e (AllDistinct-snoc old array.array_name h.distinct fresh);
      }
