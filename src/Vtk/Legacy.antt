-- ===== src/Vtk/Legacy.antt =====
-- LegacyParser.cpp: the state of LegacyTokenParser, and the payload of an array.
pub mod Arrays
pub mod Sections
pub mod Parse
pub mod File
pub mod Sound
pub mod Strings
pub mod Extents
mod Tests
mod BinaryTests
use Prim.Native.String.{String}
use cae_openusd_plugins.Prelude.{
  ℕ, zero, suc, ◌+◌, ◌-◌, ◌*◌, ◌/◌, ◌%◌, ◌^◌, Bool, true, false, not, ◌||◌, ◌&&◌, Option, none,
  some, List, [], ◌∷◌, ◌++◌, Bytes, ltb, ◌==◌, if◌then◌else◌,
}
use cae_openusd_plugins.Prelude.Chars.{codes}
use cae_openusd_plugins.Prelude.Int.{ℤ, pos_part}
use cae_openusd_plugins.Prelude.Decimal.{to_string}
use cae_openusd_plugins.Prelude.Result.{Result, ok, err, require}
use cae_openusd_plugins.Stream.{Stream}
use cae_openusd_plugins.Vtk.Error.{
  Error, platform_width, ascii_range, cannot_skip, names_exhausted, invalid_argument, out_of_range,
}
use cae_openusd_plugins.Vtk.Action.{
  Action, pure, throw, lift, gets, act, modify, ensure, ◌>>=◌, ◌>>◌, repeat,
}
use cae_openusd_plugins.Vtk.Types.{ScalarType, ScalarPayloadRequest, decoded_byte_count}
use cae_openusd_plugins.Vtk.Sizes.{checked_mul, checked_add}
use cae_openusd_plugins.Vtk.Tokens.{
  Reason, unsupported_shape, to_lower_token, is_token, normalize_legacy_token, supports_array_shape,
  evaluation_kind_for,
}
use cae_openusd_plugins.Vtk.Segment.{PayloadSegmentSpec}
use cae_openusd_plugins.Vtk.Payload.{StorageKind, ascii, plain_binary, PayloadSourceSpec}
use cae_openusd_plugins.Vtk.Registry.{ArrayNameRegistry, make_unique_name}
use cae_openusd_plugins.Vtk.DatasetSpec.{
  Association, unassociated, point, cell, field, ArrayRole, generic, ScalarPayloadSpec, ArraySpec,
  DatasetSpec, push_array, add_skipped_array,
}
use cae_openusd_plugins.Vtk.Scan.{
  next_token, current_offset, consume_preamble, seek_absolute, get_line, skip_metadata,
  skip_binary_string, is_nil,
}

-- The order in which a compiler evaluates the arguments of a call.
pub data ArgumentOrder : Type 0 where
  left_to_right right_to_left : ArgumentOrder

-- The two exceptions of `std::stod`.
pub data NumberError : Type 0 where
  not_a_number too_large : NumberError

unfoldable pub number_of : Result NumberError ℕ → Result Error ℕ
number_of (ok n) = ok n
number_of (err not_a_number) = err invalid_argument
number_of (err too_large) = err out_of_range

-- What a parse rests on: its constants, and the calls of OpenUSD and of the C library.
pub record Settings : Type 0 where
  pub file_path : Bytes
  pub version_major : ℤ
  pub binary : Bool
  pub make_valid : Bytes → Bytes
  pub trim : Bytes → Bytes
  pub stod : Bytes → Result NumberError ℕ
  pub order : ArgumentOrder

-- `LegacyTokenParser`, with what it points to.
pub record LegacyTokenParser : Type 0 where
  pub input : Stream
  pub dataset : DatasetSpec
  pub names : ArrayNameRegistry
  pub association : Association
  pub tuple_count : ℕ

unfoldable pub on_input : {A : Type 0} → Action Stream A → Action LegacyTokenParser A
on_input m p = elim (m p.input) [ ok (a, s) ↦ ok (a, record p { input = s }) | err e ↦ err e ]

abbrev pub on_dataset : (DatasetSpec → DatasetSpec) → Action LegacyTokenParser (Unit {0})
on_dataset f = modify (λ p. record p { dataset = f p.dataset })

-- `DebugContext`
unfoldable pub debug_context_of : Bytes → Bytes → ℕ → Bytes
debug_context_of file_path name offset =
    file_path ++ (codes " array='" ++ (name ++ (codes "' offset=" ++ to_string offset)))

-- `CurrentAssociationOrNone`
unfoldable pub current_association_or_none : Association → Association
current_association_or_none field = unassociated
current_association_or_none association = association

-- `ParsedScalarPayload`
pub record ParsedScalarPayload : Type 0 where
  pub supported : Bool
  pub scalar_type : ScalarType
  pub source_scalar_token : Bytes
  pub payload : ScalarPayloadSpec
  pub reason : Reason
  pub offset : ℕ

-- `SkipUnsupportedLegacyPayload`
unfoldable pub skip_unsupported : Bool → Bytes → ℕ → Action Stream (Unit {0})
skip_unsupported binary token value_count =
    let lower = to_lower_token token in
    if is_token lower "bit"
    then (do
      if binary
          then (do
            offset ← consume_preamble
            end ← lift (checked_add offset ((value_count + 7) % 2 ^ 64 / 8))
            seek_absolute end)
          else repeat value_count next_token
      skip_metadata)
    else if is_token lower "string" || is_token lower "utf8_string"
    then (do
      if binary
          then consume_preamble >> repeat value_count skip_binary_string
          else repeat value_count (act get_line)
      skip_metadata)
    else throw cannot_skip

abbrev pub storage_kind_of : Bool → StorageKind
storage_kind_of binary = if binary then plain_binary else ascii

abbrev pub request_of : ScalarType → ℕ → ScalarPayloadRequest
request_of scalar_type value_count = record { scalar_type = scalar_type; value_count = value_count }

abbrev pub payload_of : Bool → List PayloadSegmentSpec → ScalarPayloadRequest → ScalarPayloadSpec
payload_of binary segments request = record {
  source = record { storage_kind = storage_kind_of binary; segments = segments };
  request = request;
}

abbrev pub segment_at : ℕ → ℕ → PayloadSegmentSpec
segment_at offset count = record { start_offset = offset; byte_count = count }

-- The bytes of a binary payload, which the stream is moved over.
unfoldable pub binary_segment : Result Error ℕ → Action Stream PayloadSegmentSpec
binary_segment byte_count = do
  offset ← consume_preamble
  count ← lift byte_count
  end ← lift (checked_add offset count)
  seek_absolute end
  pure (segment_at offset count)

-- The bytes of `value_count` tokens.
unfoldable pub ascii_segment : ℕ → Action Stream PayloadSegmentSpec
ascii_segment value_count = do
  offset ← current_offset
  repeat value_count next_token
  end ← current_offset
  ensure (not (ltb end offset)) ascii_range
  pure (segment_at offset (end - offset))

-- `ParseLegacyScalarPayload`
unfoldable pub parse_payload : Bool → Bytes → ℕ → ℤ → Action Stream ParsedScalarPayload
parse_payload binary token tuple_count component_count = do
  value_count ← lift (checked_mul tuple_count (pos_part component_count))
  let normalized = normalize_legacy_token token
  let request = request_of normalized.scalar_type value_count
  if not normalized.supported
      then (do
        skip_unsupported binary token value_count
        pure (record {
          supported = false;
          scalar_type = ScalarType.float32;
          source_scalar_token = token;
          payload = payload_of true [] (request_of ScalarType.float32 0);
          reason = normalized.reason;
          offset = 0;
        }))
      else (do
        ensure (not (binary && normalized.requires_storage_width_resolution)) platform_width
        segment ←
            if binary
            then binary_segment (decoded_byte_count request)
            else ascii_segment value_count
        skip_metadata
        pure (record {
          supported = true;
          scalar_type = normalized.scalar_type;
          source_scalar_token = token;
          payload = payload_of binary (segment ∷ []) request;
          reason = normalized.reason;
          offset = segment.start_offset;
        }))
