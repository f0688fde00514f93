-- ===== src/Vtk/DatasetSpec.antt =====
-- DatasetSpec.h: the metadata of a parsed dataset and of its arrays. A floating-point number is its
-- bit pattern.
use cae_openusd_plugins.Prelude.{ℕ, ◌^◌, ◌*◌, List, [], ◌∷◌, ◌++◌, Bytes}
use cae_openusd_plugins.Prelude.Int.{ℤ, pos}
use cae_openusd_plugins.Vtk.Types.{ScalarType, ByteOrder, ScalarPayloadRequest}
use cae_openusd_plugins.Vtk.Tokens.{ArrayEvaluationKind, Reason}
use cae_openusd_plugins.Vtk.Payload.{PayloadSourceSpec}

pub data DatasetKind : Type 0 where
  image_data structured_points structured_grid rectilinear_grid poly_data unstructured_grid :
      DatasetKind

-- `Association`; `unassociated` is None.
pub data Association : Type 0 where
  unassociated point cell field : Association

pub data ArrayRole : Type 0 where
  generic points x_coordinates y_coordinates z_coordinates connectivity offsets cell_types :
      ArrayRole

pub record ScalarPayloadSpec : Type 0 where
  pub source : PayloadSourceSpec
  pub request : ScalarPayloadRequest

pub record ArraySpec : Type 0 where
  pub source_name : Bytes
  pub array_name : Bytes
  pub scalar_type : ScalarType
  pub tuple_count : ℕ
  pub component_count : ℤ
  pub association : Association
  pub role : ArrayRole
  pub evaluation_kind : ArrayEvaluationKind
  pub payload : ScalarPayloadSpec
  pub source_scalar_token : Bytes
  pub debug_context : Bytes

pub record SkippedArraySpec : Type 0 where
  pub source_name : Bytes
  pub association : Association
  pub role : ArrayRole
  pub source_scalar_token : Bytes
  pub tuple_count : ℕ
  pub component_count : ℤ
  pub reason : Reason
  pub debug_context : Bytes

pub record DatasetSpec : Type 0 where
  pub file_path : Bytes
  pub byte_order : ByteOrder
  pub kind : DatasetKind
  pub source_description : Bytes
  pub min_extent : ℤ × ℤ × ℤ
  pub max_extent : ℤ × ℤ × ℤ
  pub origin : ℕ × ℕ × ℕ
  pub spacing : ℕ × ℕ × ℕ
  pub point_count : ℕ
  pub cell_count : ℕ
  pub arrays : List ArraySpec
  pub skipped_arrays : List SkippedArraySpec

-- The bit pattern of 1.0.
abbrev one_bits : ℕ
one_bits = 1023 * 2 ^ 52

-- A `DatasetSpec` as it is constructed, for a file of a kind.
abbrev pub new_dataset : Bytes → ByteOrder → Bytes → DatasetKind → DatasetSpec
new_dataset file_path byte_order source_description kind = record {
  file_path = file_path;
  byte_order = byte_order;
  kind = kind;
  source_description = source_description;
  min_extent = (pos 0, pos 0, pos 0);
  max_extent = (pos 0, pos 0, pos 0);
  origin = (0, 0, 0);
  spacing = (one_bits, one_bits, one_bits);
  point_count = 0;
  cell_count = 0;
  arrays = [];
  skipped_arrays = [];
}

-- `dataset->arrays.push_back(array)`, and `AddSkippedArray` with the fields of the array.
unfoldable pub push_array : ArraySpec → DatasetSpec → DatasetSpec
push_array array dataset = record dataset { arrays = dataset.arrays ++ array ∷ [] }

unfoldable pub add_skipped_array : SkippedArraySpec → DatasetSpec → DatasetSpec
add_skipped_array skipped dataset = record dataset {
  skipped_arrays = dataset.skipped_arrays ++ skipped ∷ [];
}
