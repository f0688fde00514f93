-- ===== src/Vtk/Legacy/Arrays.antt =====
-- LegacyParser.cpp: AddArrayFromPayload and the arrays of cells.
use Prim.Native.String.{String}
use cae_openusd_plugins.Prelude.{
  ℕ, ◌-◌, Bool, true, false, not, none, some, [], ◌∷◌, Bytes, ltb, if◌then◌else◌,
}
use cae_openusd_plugins.Prelude.Chars.{codes}
use cae_openusd_plugins.Prelude.Int.{ℤ, pos, negsuc}
use cae_openusd_plugins.Prelude.Result.{ok, err}
use cae_openusd_plugins.Vtk.Error.{
  Error, names_exhausted, packed_header, expected_offsets, expected_connectivity,
}
use cae_openusd_plugins.Vtk.Action.{Action, pure, lift, ensure, ◌>>=◌, ◌>>◌}
use cae_openusd_plugins.Vtk.Types.{int32}
use cae_openusd_plugins.Vtk.Sizes.{checked_mul}
use cae_openusd_plugins.Vtk.Tokens.{
  unsupported_shape, Reason, is_token, to_lower_token, direct_scalar_payload, supports_array_shape,
  evaluation_kind_for,
}
use cae_openusd_plugins.Vtk.Registry.{make_unique_name}
use cae_openusd_plugins.Vtk.DatasetSpec.{
  Association, unassociated, ArrayRole, generic, connectivity, offsets, SkippedArraySpec,
  push_array, add_skipped_array,
}
use cae_openusd_plugins.Vtk.Scan.{next_token, read_size, skip_metadata, is_nil}
use cae_openusd_plugins.Vtk.Legacy.{
  Settings, LegacyTokenParser, on_input, on_dataset, debug_context_of, ParsedScalarPayload,
  parse_payload, payload_of, request_of, binary_segment, ascii_segment,
}

-- An array, before its payload is read: the arguments of `AddArrayFromPayload`.
pub record ArrayHead : Type 0 where
  pub source_name : Bytes
  pub fallback_name : Bytes
  pub association : Association
  pub role : ArrayRole
  pub tuple_count : ℕ
  pub component_count : ℤ

abbrev pub head_debug : Settings → ArrayHead → ℕ → Bytes
head_debug settings head offset =
    debug_context_of settings.file_path
      (if is_nil head.source_name then head.fallback_name else head.source_name) offset

abbrev pub skipped_of : Settings → ArrayHead → ParsedScalarPayload → Reason → SkippedArraySpec
skipped_of settings head parsed reason = record {
  source_name = head.source_name;
  association = head.association;
  role = head.role;
  source_scalar_token = parsed.source_scalar_token;
  tuple_count = head.tuple_count;
  component_count = head.component_count;
  reason = reason;
  debug_context = head_debug settings head parsed.offset;
}

abbrev pub is_generic : ArrayRole → Bool
is_generic generic = true
is_generic _ = false

-- `names->MakeUniqueName(sourceName, fallbackName)`
unfoldable pub unique_name : Settings → ArrayHead → Action LegacyTokenParser Bytes
unique_name settings head p =
    elim (make_unique_name settings.make_valid head.source_name head.fallback_name p.names) [
      | none ↦ err names_exhausted
      | some (name, names) ↦ ok (name, record p { names = names })
    ]

-- The name of an array, by its role.
unfoldable pub array_name_of : Settings → ArrayHead → Action LegacyTokenParser Bytes
array_name_of settings head =
    if is_generic head.role then unique_name settings head else pure head.fallback_name

-- `AddArrayFromPayload`
unfoldable pub add_array_from_payload :
    Settings → ArrayHead → ParsedScalarPayload → Action LegacyTokenParser (Unit {0})
add_array_from_payload settings head parsed =
    if not parsed.supported
    then on_dataset (add_skipped_array (skipped_of settings head parsed parsed.reason))
    else if not (supports_array_shape parsed.scalar_type head.component_count)
    then on_dataset (add_skipped_array (skipped_of settings head parsed unsupported_shape))
    else (do
      name ← array_name_of settings head
      kind ← lift (evaluation_kind_for parsed.scalar_type head.component_count)
      on_dataset (
          push_array (record {
            source_name = head.source_name;
            array_name = name;
            scalar_type = parsed.scalar_type;
            tuple_count = head.tuple_count;
            component_count = head.component_count;
            association = head.association;
            role = head.role;
            evaluation_kind = kind;
            payload = parsed.payload;
            source_scalar_token = parsed.source_scalar_token;
            debug_context = head_debug settings head parsed.offset;
          })))

-- `AddPayload`
unfoldable pub add_payload : Settings → ArrayHead → Bytes → Action LegacyTokenParser (Unit {0})
add_payload settings head token = do
  parsed ← on_input (parse_payload settings.binary token head.tuple_count head.component_count)
  add_array_from_payload settings head parsed

-- `AddLegacyPackedCellArray`
unfoldable pub add_packed_cells : Settings → Bytes → ℕ → ℕ → Action LegacyTokenParser (Unit {0})
add_packed_cells settings packed_name cell_count value_count = do
  segment ← on_input (
      if settings.binary
      then binary_segment (checked_mul value_count 4)
      else ascii_segment value_count)
  on_input skip_metadata
  ensure (not (ltb value_count cell_count)) packed_header
  on_dataset (
      push_array (record {
        source_name = packed_name;
        array_name = packed_name;
        scalar_type = int32;
        tuple_count = value_count;
        component_count = pos 1;
        association = unassociated;
        role = connectivity;
        evaluation_kind = direct_scalar_payload;
        payload = payload_of settings.binary (segment ∷ []) (request_of int32 value_count);
        source_scalar_token = codes "int";
        debug_context = debug_context_of settings.file_path packed_name segment.start_offset;
      }))

-- The names of the arrays of a section of cells.
pub record CellArrayNames : Type 0 where
  pub offsets_name : Bytes
  pub connectivity_name : Bytes
  pub packed_name : Bytes

abbrev pub cell_head : Bytes → ArrayRole → ℕ → ArrayHead
cell_head name role count = record {
  source_name = name;
  fallback_name = name;
  association = unassociated;
  role = role;
  tuple_count = count;
  component_count = pos 1;
}

-- `ReadToken` with a word that has to be there.
unfoldable pub expect_token : String → Error → Action LegacyTokenParser (Unit {0})
expect_token name e = do
  token ← on_input next_token
  ensure (is_token (to_lower_token token) name) e

abbrev pub at_least_five : ℤ → Bool
at_least_five (pos n) = not (ltb n 5)
at_least_five (negsuc n) = false

-- `ParseLegacyCellArray`: the number of cells.
unfoldable pub parse_cell_array : Settings → CellArrayNames → Action LegacyTokenParser ℕ
parse_cell_array settings names = do
  first ← on_input read_size
  second ← on_input read_size
  if at_least_five settings.version_major
      then (do
        expect_token "offsets" expected_offsets
        offsets_type ← on_input next_token
        add_payload settings (cell_head names.offsets_name offsets first) offsets_type
        expect_token "connectivity" expected_connectivity
        connectivity_type ← on_input next_token
        add_payload settings (cell_head names.connectivity_name connectivity second)
            connectivity_type
        pure (first - 1))
      else (do add_packed_cells settings names.packed_name first second; pure first)
