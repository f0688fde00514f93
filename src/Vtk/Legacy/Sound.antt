-- ===== src/Vtk/Legacy/Sound.antt =====
-- What a dataset that LegacyParser.cpp returns holds, and what each part of a parse keeps of it.
pub mod Payload
pub mod Names
pub mod Arrays
pub mod Sections
pub mod Fields
pub mod Parse
pub mod Loop
pub mod File
pub mod Read
use cae_openusd_plugins.Prelude.{
  contains, ℕ, ◌+◌, ◌*◌, ◌≤◌, ◌≡◌, refl, subst, sym, Bool, true, false, ◌||◌, List, [], ◌∷◌, ◌++◌,
  Bytes, if◌then◌else◌,
}
use cae_openusd_plugins.Prelude.Int.{ℤ, pos_part}
use cae_openusd_plugins.Prelude.Result.{Result, ok, err}
use cae_openusd_plugins.Stream.{Stream, streamoff_max}
use cae_openusd_plugins.Vtk.Error.{Error}
use cae_openusd_plugins.Vtk.Types.{ScalarType, scalar_byte_size}
use cae_openusd_plugins.Vtk.Tokens.{evaluation_kind_for}
use cae_openusd_plugins.Vtk.Segment.{PayloadSegmentSpec}
use cae_openusd_plugins.Vtk.Action.{Action, modify}
use cae_openusd_plugins.Vtk.Action.Keeps.{Leaves, returns, throws, Keeps, Any, Keeps-modify}
use cae_openusd_plugins.Vtk.Registry.{}
use cae_openusd_plugins.Vtk.Registry.Unique.{AllDistinct, IsRegistry}
use cae_openusd_plugins.Vtk.DatasetSpec.{
  ArrayRole, generic, points, x_coordinates, y_coordinates, z_coordinates, connectivity, offsets,
  cell_types, ArraySpec, DatasetSpec, ScalarPayloadSpec, add_skipped_array, SkippedArraySpec,
}
use cae_openusd_plugins.Vtk.Legacy.Arrays.{is_generic}
use cae_openusd_plugins.Vtk.Scan.Position.{IsAt}
use cae_openusd_plugins.Vtk.Scan.Keeps.{NotFuel}
use cae_openusd_plugins.Vtk.Legacy.{
  LegacyTokenParser, ParsedScalarPayload, on_input, on_dataset, storage_kind_of, request_of,
}

-- The segment of a binary payload holds its values, and ends where a stream can seek.
abbrev pub IsRange : Bool → ℕ → ScalarType → PayloadSegmentSpec → Type 0
IsRange true value_count scalar_type segment =
    (segment.byte_count ≡ value_count * scalar_byte_size scalar_type)
    × (segment.start_offset + segment.byte_count ≤ streamoff_max)
IsRange false value_count scalar_type segment = Unit

-- A payload of one segment, which is read as so many values of a type.
pub record IsSoundPayload (binary : Bool) (value_count : ℕ) (scalar_type : ScalarType)
    (payload : ScalarPayloadSpec) : Type 0 where
  pub segment : PayloadSegmentSpec
  pub one_segment : payload.source.segments ≡ segment ∷ []
  pub storage : payload.source.storage_kind ≡ storage_kind_of binary
  pub request : payload.request ≡ request_of scalar_type value_count
  pub range : IsRange binary value_count scalar_type segment

-- An array whose evaluation fits its shape, and whose payload has the values of its tuples.
pub record IsSoundArray (binary : Bool) (array : ArraySpec) : Type 0 where
  pub shape : evaluation_kind_for array.scalar_type array.component_count ≡ ok array.evaluation_kind
  pub payload :
      IsSoundPayload binary
        (array.tuple_count * pos_part array.component_count)
        array.scalar_type
        array.payload

abbrev pub AllSound : Bool → List ArraySpec → Type 0
AllSound binary [] = Unit
AllSound binary (a ∷ arrays) = IsSoundArray binary a × AllSound binary arrays

-- The names of the arrays that are fields.
abbrev pub generic_names : List ArraySpec → List Bytes
generic_names [] = []
generic_names (a ∷ arrays) =
    let names = generic_names arrays in if is_generic a.role then a.array_name ∷ names else names

abbrev pub AllIn : List Bytes → List Bytes → Type 0
AllIn used [] = Unit
AllIn used (x ∷ xs) = (contains used x ≡ true) × AllIn used xs

-- The state of a parse of the content `c` that has reached `k`.
pub record IsParsing (c : Bytes) (k : ℕ) (binary : Bool) (p : LegacyTokenParser) : Type 0 where
  pub at : IsAt c k p.input
  pub sound : AllSound binary p.dataset.arrays
  pub registry : IsRegistry p.names
  pub named : AllIn p.names.used_names (generic_names p.dataset.arrays)
  pub distinct : AllDistinct (generic_names p.dataset.arrays)

abbrev pub Parses :
    Bytes → ℕ → Bool → {A : Type 0} → (A → Type 0) → Action LegacyTokenParser A → Type 0
Parses c k binary Q m = Keeps (IsParsing c k binary) NotFuel Q m

module _ {c : Bytes} {k : ℕ} {binary : Bool} where
  pub with_input :
      (p : LegacyTokenParser) (s : Stream)
      → IsParsing c k binary p
      → IsAt c k s
      → IsParsing c k binary (record p { input = s })
  with_input p s h at_s = record {
    at = at_s;
    sound = h.sound;
    registry = h.registry;
    named = h.named;
    distinct = h.distinct;
  }

  on_input_at :
      {A : Type 0} {Q : A → Type 0} (p : LegacyTokenParser) (r : Result Error (A × Stream))
      → IsParsing c k binary p
      → Leaves (IsAt c k) Q NotFuel r
      → Leaves
          (IsParsing c k binary)
          Q
          NotFuel
          (elim r [ ok (a, s) ↦ ok (a, record p { input = s }) | err e ↦ err e ])
  on_input_at p _ h (returns q at_s) = returns q (with_input p _ h at_s)
  on_input_at p _ h (throws e) = throws e

  pub Keeps-on_input :
      {A : Type 0} {Q : A → Type 0} (m : Action Stream A)
      → Keeps (IsAt c k) NotFuel Q m
      → Parses c k binary Q (on_input m)
  unfolding on_input
  Keeps-on_input m km = record { at = λ p h. on_input_at p (m p.input) h (km.at p.input h.at) }

  -- A change of the dataset that leaves its arrays alone.
  pub Keeps-on_dataset :
      (f : DatasetSpec → DatasetSpec)
      → ((d : DatasetSpec) → (f d).arrays ≡ d.arrays)
      → Parses c k binary Any (on_dataset f)
  Keeps-on_dataset f same_arrays = Keeps-modify _ (λ p h.
      let e = sym (same_arrays p.dataset) in
      record {
        at = h.at;
        sound = subst (AllSound binary) e h.sound;
        registry = h.registry;
        named = subst (λ arrays. AllIn p.names.used_names (generic_names arrays)) e h.named;
        distinct = subst (λ arrays. AllDistinct (generic_names arrays)) e h.distinct;
      })
