-- ===== src/Vtk/Legacy/Sections.antt =====
-- LegacyParser.cpp: DecodeLegacyString, the extents, and the sections that LegacyTokenParser reads.
-- Arithmetic on `int` that overflows is undefined in the source, and an error here.
use cae_openusd_plugins.Prelude.{
  ℕ, ◌+◌, ◌-◌, ◌*◌, ◌%◌, Bool, not, ◌||◌, ◌&&◌, Option, none, some, [], ◌∷◌, Bytes, same, leb, ◌==◌,
  if◌then◌else◌,
}
use cae_openusd_plugins.Prelude.Chars.{codes, is_space}
use cae_openusd_plugins.Prelude.Int.{ℤ, pos, pos_part, ◌+ℤ◌, ◌-ℤ◌}
use cae_openusd_plugins.Prelude.Decimal.{in_range}
use cae_openusd_plugins.Prelude.Result.{Result, ok, err}
use cae_openusd_plugins.Vtk.Error.{Error, signed_overflow, expected_lookup_table}
use cae_openusd_plugins.Vtk.Action.{Action, pure, lift, gets, ensure, ◌>>=◌, ◌>>◌, repeat}
use cae_openusd_plugins.Vtk.Tokens.{is_token, to_lower_token}
use cae_openusd_plugins.Vtk.DatasetSpec.{unassociated, ArrayRole, generic, points, cell_types}
use cae_openusd_plugins.Vtk.Scan.{next_token, read_size, read_int, stoi}
use cae_openusd_plugins.Vtk.Legacy.{
  Settings, ArgumentOrder, left_to_right, right_to_left, LegacyTokenParser, on_input, on_dataset,
  number_of, current_association_or_none, parse_payload,
}
use cae_openusd_plugins.Vtk.Legacy.Arrays.{ArrayHead, add_payload}

-- `std::strtol` of two characters in base 16, where it takes both.
abbrev pub hex_digit : ℕ → Option ℕ
hex_digit c =
    if leb b'0' c && leb c b'9'
    then some (c - b'0')
    else if leb b'a' c && leb c b'f'
    then some (c - b'a' + 10)
    else if leb b'A' c && leb c b'F'
    then some (c - b'A' + 10)
    else none

abbrev hex_low : ℕ → Option ℕ → Option ℕ → Option ℕ
hex_low a (some high) (some low) = some (16 * high + low)
hex_low a none (some low) =
    if a == b'+' || is_space a
    then some low
    else if a == b'-'
    then some ((256 - low) % 256)
    else none
hex_low a _ none = none

unfoldable pub hex_pair : ℕ → ℕ → Option ℕ
unfolding is_space
hex_pair a b = hex_low a (hex_digit a) (hex_digit b)

-- `DecodeLegacyString`
unfoldable pub decode_legacy_string : Bytes → Bytes
decode_legacy_string [] = []
decode_legacy_string (c ∷ []) = c ∷ []
decode_legacy_string (c ∷ a ∷ []) = c ∷ a ∷ []
decode_legacy_string (c ∷ a ∷ b ∷ text) =
    let plain = c ∷ decode_legacy_string (a ∷ b ∷ text) in
    let behind = decode_legacy_string text in
    if c == b'%' then elim (hex_pair a b) [ none ↦ plain | some v ↦ v ∷ behind ] else plain

-- An `int`, if it is one.
unfoldable pub to_int : ℤ → Result Error ℤ
to_int n = if in_range 32 n then ok n else err signed_overflow

-- `a * b * c` of three `int`s that are not negative.
unfoldable pub int_product : {S : Type 0} → ℕ → ℕ → ℕ → Action S ℕ
int_product a b c = do
  first ← lift (to_int (pos (a * b)))
  second ← lift (to_int (pos (pos_part first * c)))
  pure (pos_part second)

-- `ParseExtentsFromDimensions`
unfoldable pub parse_extents_from_dimensions : ℤ → ℤ → ℤ → Action LegacyTokenParser (Unit {0})
parse_extents_from_dimensions nx ny nz = do
  mx ← lift (to_int (nx -ℤ pos 1))
  my ← lift (to_int (ny -ℤ pos 1))
  mz ← lift (to_int (nz -ℤ pos 1))
  point_count ← int_product (pos_part nx) (pos_part ny) (pos_part nz)
  cell_count ← int_product (pos_part mx) (pos_part my) (pos_part mz)
  on_dataset (λ d. record d {
    min_extent = (pos 0, pos 0, pos 0);
    max_extent = (mx, my, mz);
    point_count = point_count;
    cell_count = cell_count;
  })

-- `x1 - x0` and `x1 - x0 + 1`
unfoldable pub int_steps : {S : Type 0} → ℤ → ℤ → Action S (ℤ × ℤ)
int_steps x0 x1 = do
  steps ← lift (to_int (x1 -ℤ x0))
  count ← lift (to_int (steps +ℤ pos 1))
  pure (steps, count)

-- `ParseExtents`
unfoldable pub parse_extents : ℤ → ℤ → ℤ → ℤ → ℤ → ℤ → Action LegacyTokenParser (Unit {0})
parse_extents x0 x1 y0 y1 z0 z1 = do
  x ← int_steps x0 x1
  y ← int_steps y0 y1
  z ← int_steps z0 z1
  point_count ← int_product (pos_part x.1) (pos_part y.1) (pos_part z.1)
  cell_count ← int_product (pos_part x.0) (pos_part y.0) (pos_part z.0)
  on_dataset (λ d. record d {
    min_extent = (x0, y0, z0);
    max_extent = (x1, y1, z1);
    point_count = point_count;
    cell_count = cell_count;
  })

-- `ParseDimensions`
unfoldable pub parse_dimensions : Action LegacyTokenParser (Unit {0})
parse_dimensions = do
  nx ← on_input read_int
  ny ← on_input read_int
  nz ← on_input read_int
  parse_extents_from_dimensions nx ny nz

-- `ParseExtent`: the six tokens are read by the arguments of one call.
unfoldable pub parse_extent : ArgumentOrder → Action LegacyTokenParser (Unit {0})
parse_extent order = do
  a ← on_input read_int
  b ← on_input read_int
  c ← on_input read_int
  d ← on_input read_int
  e ← on_input read_int
  f ← on_input read_int
  elim order [
    | left_to_right ↦ parse_extents a b c d e f
    | right_to_left ↦ parse_extents f e d c b a
  ]

-- Three numbers in braces, which are read in their order.
unfoldable pub read_doubles : Settings → Action LegacyTokenParser (ℕ × ℕ × ℕ)
read_doubles settings = do
  a ← on_input (do token ← next_token; lift (number_of (settings.stod token)))
  b ← on_input (do token ← next_token; lift (number_of (settings.stod token)))
  c ← on_input (do token ← next_token; lift (number_of (settings.stod token)))
  pure (a, b, c)

abbrev pub structural_head : Bytes → ArrayRole → ℕ → ℤ → ArrayHead
structural_head name role tuple_count component_count = record {
  source_name = name;
  fallback_name = name;
  association = unassociated;
  role = role;
  tuple_count = tuple_count;
  component_count = component_count;
}

-- `ParsePoints`
unfoldable pub parse_points : Settings → Action LegacyTokenParser (Unit {0})
parse_points settings = do
  count ← on_input read_size
  on_dataset (λ d. record d { point_count = count })
  token ← on_input next_token
  add_payload settings (structural_head (codes "points") points count (pos 3)) token

-- `ParseCoordinate`
unfoldable pub parse_coordinate : Settings → Bytes → ArrayRole → Action LegacyTokenParser (Unit {0})
parse_coordinate settings name role = do
  count ← on_input read_size
  token ← on_input next_token
  add_payload settings (structural_head name role count (pos 1)) token

-- The cell types of ParseUnstructuredGridToken.
unfoldable pub parse_cell_types : Settings → Action LegacyTokenParser (Unit {0})
parse_cell_types settings = do
  count ← on_input read_size
  on_dataset (λ d. record d { cell_count = count })
  add_payload settings (structural_head (codes "cellTypes") cell_types count (pos 1)) (codes "int")

-- A field, with the association of the section that it stands in.
unfoldable pub add_field : Settings → Bytes → ℕ → ℤ → Bytes → Action LegacyTokenParser (Unit {0})
add_field settings source_name tuple_count component_count token = do
  association ← gets (λ (p : LegacyTokenParser). current_association_or_none p.association)
  add_payload settings
      (record {
        source_name = source_name;
        fallback_name = codes "array";
        association = association;
        role = generic;
        tuple_count = tuple_count;
        component_count = component_count;
      })
      token

abbrev pub section_count : Action LegacyTokenParser ℕ
section_count = gets (λ (p : LegacyTokenParser). p.tuple_count)

abbrev pub read_name : Action LegacyTokenParser Bytes
read_name = do token ← on_input next_token; pure (decode_legacy_string token)

-- The components of `ParseScalarField` and the token behind them.
unfoldable pub scalar_components : Bytes → Action LegacyTokenParser (ℤ × Bytes)
scalar_components next =
    if not (is_token (to_lower_token next) "lookup_table")
    then (do components ← lift (stoi next); behind ← on_input next_token; pure (components, behind))
    else pure (pos 1, next)

-- `ParseScalarField`
unfoldable pub parse_scalar_field : Settings → Action LegacyTokenParser (Unit {0})
parse_scalar_field settings = do
  source_name ← read_name
  scalar_token ← on_input next_token
  next ← on_input next_token
  c ← scalar_components next
  ensure (is_token (to_lower_token c.1) "lookup_table") expected_lookup_table
  table ← on_input next_token
  count ← section_count
  add_field settings source_name count c.0 scalar_token

-- `ParseFixedComponentField`
unfoldable pub parse_fixed_component_field : Settings → ℕ → Action LegacyTokenParser (Unit {0})
parse_fixed_component_field settings components = do
  source_name ← read_name
  count ← section_count
  token ← on_input next_token
  add_field settings source_name count (pos components) token

-- `ParseTextureCoordinates`
unfoldable pub parse_texture_coordinates : Settings → Action LegacyTokenParser (Unit {0})
parse_texture_coordinates settings = do
  source_name ← read_name
  components ← on_input read_int
  count ← section_count
  token ← on_input next_token
  add_field settings source_name count components token

abbrev pub color_token : Bool → Bytes
color_token binary = if binary then codes "unsigned_char" else codes "float"

-- `ParseColorScalars`
unfoldable pub parse_color_scalars : Settings → Action LegacyTokenParser (Unit {0})
parse_color_scalars settings = do
  source_name ← read_name
  components ← on_input read_int
  count ← section_count
  add_field settings source_name count components (color_token settings.binary)

-- One array of `ParseFieldData`
unfoldable pub parse_field_array : Settings → Action LegacyTokenParser (Unit {0})
parse_field_array settings = do
  token ← on_input next_token
  if same token (codes "NULL_ARRAY") then pure tt else (do
    components ← on_input read_int
    tuples ← on_input read_size
    scalar_token ← on_input next_token
    add_field settings (decode_legacy_string token) tuples components scalar_token)

-- `ParseFieldData`
unfoldable pub parse_field_data : Settings → Action LegacyTokenParser (Unit {0})
parse_field_data settings = do
  name ← on_input next_token
  array_count ← on_input read_int
  repeat (pos_part array_count) (parse_field_array settings)

-- `ParseLookupTable`
unfoldable pub parse_lookup_table : Settings → Action LegacyTokenParser (Unit {0})
parse_lookup_table settings = do
  name ← on_input next_token
  size ← on_input read_size
  parsed ← on_input (parse_payload settings.binary (color_token settings.binary) size (pos 4))
  pure tt
