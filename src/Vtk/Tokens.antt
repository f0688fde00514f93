-- ===== src/Vtk/Tokens.antt =====
-- The scalar type tokens and the array shapes of ParserUtils.cpp. A reason stands for its message.
pub mod Names
use Prim.Native.String.{String}
use cae_openusd_plugins.Prelude.{
  ℕ, Bool, true, false, ◌&&◌, ◌||◌, Bytes, map, same, leb, ◌==◌, if◌then◌else◌,
}
use cae_openusd_plugins.Prelude.Chars.{codes, tolower}
use cae_openusd_plugins.Prelude.Int.{ℤ, pos, negsuc}
use cae_openusd_plugins.Prelude.Result.{Result, ok, err}
use cae_openusd_plugins.Vtk.Error.{Error, bad_shape}
use cae_openusd_plugins.Vtk.Types.{
  ScalarType, int8, uint8, int16, uint16, int32, uint32, int64, uint64, float32, float64,
}

pub data Reason : Type 0 where
  no_reason writer_platform bit_array outside_scope unknown_legacy_token unknown_xml_token : Reason
  unsupported_shape : Reason

-- `ScalarTypeNormalization`
pub record ScalarTypeNormalization : Type 0 where
  pub supported : Bool
  pub scalar_type : ScalarType
  pub source_token : Bytes
  pub reason : Reason
  pub requires_storage_width_resolution : Bool

-- `Supported` and `Unsupported` of the source
abbrev pub supported_as : Bytes → ScalarType → ScalarTypeNormalization
supported_as token scalar_type = record {
  supported = true;
  scalar_type = scalar_type;
  source_token = token;
  reason = no_reason;
  requires_storage_width_resolution = false;
}

abbrev pub unsupported_for : Bytes → Reason → ScalarTypeNormalization
unsupported_for token reason = record {
  supported = false;
  scalar_type = float32;
  source_token = token;
  reason = reason;
  requires_storage_width_resolution = false;
}

-- `ToLower`
unfoldable pub to_lower_token : Bytes → Bytes
to_lower_token = map tolower

-- A comparison of the token in lower case.
abbrev pub is_token : Bytes → String → Bool
is_token lower name = same lower (codes name)

-- `NormalizeLegacyScalarTypeToken`
unfoldable pub normalize_legacy_token : Bytes → ScalarTypeNormalization
normalize_legacy_token token =
    let lower = to_lower_token token in
    if is_token lower "char" || is_token lower "signed_char"
    then supported_as token int8
    else if is_token lower "unsigned_char"
    then supported_as token uint8
    else if is_token lower "short"
    then supported_as token int16
    else if is_token lower "unsigned_short"
    then supported_as token uint16
    else if is_token lower "int"
    then supported_as token int32
    else if is_token lower "unsigned_int"
    then supported_as token uint32
    else if is_token lower "vtkidtype"
        || is_token lower "vtktypeint64"
        || is_token lower "long_long"
    then supported_as token int64
    else if is_token lower "vtktypeuint64" || is_token lower "unsigned_long_long"
    then supported_as token uint64
    else if is_token lower "float"
    then supported_as token float32
    else if is_token lower "double"
    then supported_as token float64
    else if is_token lower "long" || is_token lower "unsigned_long"
    then record (supported_as token (if is_token lower "long" then int64 else uint64)) {
      reason = writer_platform;
      requires_storage_width_resolution = true;
    }
    else if is_token lower "bit"
    then unsupported_for token bit_array
    else if is_token lower "string" || is_token lower "utf8_string"
    then unsupported_for token outside_scope
    else unsupported_for token unknown_legacy_token

-- `NormalizeXmlScalarTypeToken`
unfoldable pub normalize_xml_token : Bytes → ScalarTypeNormalization
normalize_xml_token token =
    let lower = to_lower_token token in
    if is_token lower "int8"
    then supported_as token int8
    else if is_token lower "uint8"
    then supported_as token uint8
    else if is_token lower "int16"
    then supported_as token int16
    else if is_token lower "uint16"
    then supported_as token uint16
    else if is_token lower "int32"
    then supported_as token int32
    else if is_token lower "uint32"
    then supported_as token uint32
    else if is_token lower "int64"
    then supported_as token int64
    else if is_token lower "uint64"
    then supported_as token uint64
    else if is_token lower "float32"
    then supported_as token float32
    else if is_token lower "float64"
    then supported_as token float64
    else if is_token lower "string"
    then unsupported_for token outside_scope
    else unsupported_for token unknown_xml_token

abbrev is_floating : ScalarType → Bool
is_floating float32 = true
is_floating float64 = true
is_floating _ = false

-- A vector has two to four components.
abbrev is_vector_count : ℤ → Bool
is_vector_count (pos n) = leb 2 n && leb n 4
is_vector_count (negsuc n) = false

abbrev is_one : ℤ → Bool
is_one (pos n) = n == 1
is_one (negsuc n) = false

-- `SupportsArrayShape`
unfoldable pub supports_array_shape : ScalarType → ℤ → Bool
supports_array_shape scalar_type component_count =
    if is_one component_count
    then true
    else if is_vector_count component_count
    then is_floating scalar_type
    else false

pub data ArrayEvaluationKind : Type 0 where
  direct_scalar_payload reinterpreted_vector prepend_zero : ArrayEvaluationKind

-- `EvaluationKindFor`
unfoldable pub evaluation_kind_for : ScalarType → ℤ → Result Error ArrayEvaluationKind
evaluation_kind_for scalar_type component_count =
    if is_one component_count
    then ok direct_scalar_payload
    else if is_vector_count component_count && is_floating scalar_type
    then ok reinterpreted_vector
    else err bad_shape
