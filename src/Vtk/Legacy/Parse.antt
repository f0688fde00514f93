-- ===== src/Vtk/Legacy/Parse.antt =====
-- LegacyParser.cpp: the tokens of a dataset, the loop of LegacyTokenParser, and LegacyParser.
use Prim.Native.String.{String}
use cae_openusd_plugins.Prelude.{
  ℕ, zero, suc, ◌+◌, ◌%◌, ◌^◌, Bool, true, false, ◌||◌, Option, Bytes, if◌then◌else◌,
}
use cae_openusd_plugins.Prelude.Chars.{codes}
use cae_openusd_plugins.Prelude.Result.{Result, ok, err}
use cae_openusd_plugins.Stream.{Stream, tellg}
use cae_openusd_plugins.Vtk.Error.{Error, out_of_fuel, unsupported_dataset}
use cae_openusd_plugins.Vtk.Action.{Action, pure, throw, gets, modify, ◌>>=◌, ◌>>◌}
use cae_openusd_plugins.Vtk.Tokens.{is_token, to_lower_token}
use cae_openusd_plugins.Vtk.Registry.{no_names}
use cae_openusd_plugins.Vtk.DatasetSpec.{
  DatasetKind, image_data, structured_points, structured_grid, rectilinear_grid, poly_data,
  unstructured_grid, Association, unassociated, point, cell, x_coordinates, y_coordinates,
  z_coordinates, DatasetSpec,
}
use cae_openusd_plugins.Vtk.Scan.{next_token, read_size, seek_back, skip_optional_metadata, is_nil}
use cae_openusd_plugins.Vtk.Legacy.{Settings, LegacyTokenParser, on_input, on_dataset}
use cae_openusd_plugins.Vtk.Legacy.Arrays.{CellArrayNames, parse_cell_array}
use cae_openusd_plugins.Vtk.Legacy.Sections.{
  parse_dimensions, parse_extent, read_doubles, parse_points, parse_coordinate, parse_cell_types,
  parse_scalar_field, parse_fixed_component_field, parse_texture_coordinates, parse_color_scalars,
  parse_field_data, parse_lookup_table,
}

-- A section that is read, and one that is not known.
abbrev pub known : Action LegacyTokenParser (Unit {0}) → Action LegacyTokenParser Bool
known section = section >> pure true

abbrev pub unknown : Action LegacyTokenParser Bool
unknown = pure false

-- The branch for a section of points or cells.
unfoldable pub start_section : Association → Action LegacyTokenParser (Unit {0})
start_section association = do
  modify (λ p. record p { association = association })
  count ← on_input read_size
  modify (λ p. record p { tuple_count = count })

-- `ParseCommonToken`
unfoldable pub parse_common_token : Settings → Bytes → Option ℕ → Action LegacyTokenParser Bool
parse_common_token settings token position =
    if is_token token "metadata"
    then known (on_input (modify (λ s. skip_optional_metadata (seek_back position s))))
    else if is_token token "field"
    then known (parse_field_data settings)
    else if is_token token "point_data"
    then known (start_section point)
    else if is_token token "cell_data"
    then known (start_section cell)
    else unknown

abbrev pub cell_names : String → String → String → CellArrayNames
cell_names offsets connectivity packed = record {
  offsets_name = codes offsets;
  connectivity_name = codes connectivity;
  packed_name = codes packed;
}

-- A section of cells of a PolyData: the cells are added to those before.
unfoldable pub parse_poly_cells : Settings → CellArrayNames → Action LegacyTokenParser (Unit {0})
parse_poly_cells settings names = do
  count ← parse_cell_array settings names
  on_dataset (λ d. record d { cell_count = (d.cell_count + count) % 2 ^ 64 })

-- `ParsePolyDataToken`
unfoldable pub parse_poly_data_token : Settings → Bytes → Action LegacyTokenParser Bool
parse_poly_data_token settings token =
    if is_token token "points"
    then known (parse_points settings)
    else if is_token token "vertices"
    then known (
        parse_poly_cells settings (
          cell_names "vertsConnectivityOffsets" "vertsConnectivityArray"
            "vertsPackedConnectivityArray"))
    else if is_token token "lines"
    then known (
        parse_poly_cells settings (
          cell_names "linesConnectivityOffsets" "linesConnectivityArray"
            "linesPackedConnectivityArray"))
    else if is_token token "polygons"
    then known (
        parse_poly_cells settings (
          cell_names "polysConnectivityOffsets" "polysConnectivityArray"
            "polysPackedConnectivityArray"))
    else if is_token token "triangle_strips"
    then known (
        parse_poly_cells settings (
          cell_names "stripsConnectivityOffsets" "stripsConnectivityArray"
            "stripsPackedConnectivityArray"))
    else unknown

unfoldable pub parse_origin : Settings → Action LegacyTokenParser (Unit {0})
parse_origin settings = do
  numbers ← read_doubles settings
  on_dataset (λ d. record d { origin = numbers })

unfoldable pub parse_spacing : Settings → Action LegacyTokenParser (Unit {0})
parse_spacing settings = do
  numbers ← read_doubles settings
  on_dataset (λ d. record d { spacing = numbers })

-- `ParseStructuredPointsToken`
unfoldable pub parse_structured_points_token : Settings → Bytes → Action LegacyTokenParser Bool
parse_structured_points_token settings token =
    if is_token token "dimensions"
    then known parse_dimensions
    else if is_token token "extent"
    then known (parse_extent settings.order)
    else if is_token token "origin"
    then known (parse_origin settings)
    else if is_token token "spacing" || is_token token "aspect_ratio"
    then known (parse_spacing settings)
    else unknown

-- `ParseStructuredGridToken`
unfoldable pub parse_structured_grid_token : Settings → Bytes → Action LegacyTokenParser Bool
parse_structured_grid_token settings token =
    if is_token token "dimensions"
    then known parse_dimensions
    else if is_token token "extent"
    then known (parse_extent settings.order)
    else if is_token token "points"
    then known (parse_points settings)
    else unknown

-- `ParseRectilinearGridToken`
unfoldable pub parse_rectilinear_grid_token : Settings → Bytes → Action LegacyTokenParser Bool
parse_rectilinear_grid_token settings token =
    if is_token token "dimensions"
    then known parse_dimensions
    else if is_token token "extent"
    then known (parse_extent settings.order)
    else if is_token token "x_coordinates"
    then known (parse_coordinate settings (codes "xCoordinates") x_coordinates)
    else if is_token token "y_coordinates"
    then known (parse_coordinate settings (codes "yCoordinates") y_coordinates)
    else if is_token token "z_coordinates"
    then known (parse_coordinate settings (codes "zCoordinates") z_coordinates)
    else unknown

unfoldable pub parse_cells : Settings → Action LegacyTokenParser (Unit {0})
parse_cells settings = do
  count ←
      parse_cell_array settings
        (cell_names "connectivityOffsets" "connectivityArray" "connectivityPackedArray")
  on_dataset (λ d. record d { cell_count = count })

-- `ParseUnstructuredGridToken`
unfoldable pub parse_unstructured_grid_token : Settings → Bytes → Action LegacyTokenParser Bool
parse_unstructured_grid_token settings token =
    if is_token token "points"
    then known (parse_points settings)
    else if is_token token "cells"
    then known (parse_cells settings)
    else if is_token token "cell_types"
    then known (parse_cell_types settings)
    else unknown

-- `ParseDatasetToken`
unfoldable pub parse_dataset_token : Settings → DatasetKind → Bytes → Action LegacyTokenParser Bool
parse_dataset_token settings poly_data token = parse_poly_data_token settings token
parse_dataset_token settings structured_points token = parse_structured_points_token settings token
parse_dataset_token settings structured_grid token = parse_structured_grid_token settings token
parse_dataset_token settings rectilinear_grid token = parse_rectilinear_grid_token settings token
parse_dataset_token settings unstructured_grid token = parse_unstructured_grid_token settings token
parse_dataset_token settings image_data token = unknown

-- `ParseAttributeToken`
unfoldable pub parse_attribute_token : Settings → Bytes → Action LegacyTokenParser Bool
parse_attribute_token settings token =
    if is_token token "scalars"
    then known (parse_scalar_field settings)
    else if is_token token "vectors" || is_token token "normals"
    then known (parse_fixed_component_field settings 3)
    else if is_token token "tensors6"
    then known (parse_fixed_component_field settings 6)
    else if is_token token "tensors"
    then known (parse_fixed_component_field settings 9)
    else if is_token token "texture_coordinates"
    then known (parse_texture_coordinates settings)
    else if is_token token "global_ids"
        || is_token token "pedigree_ids"
        || is_token token "edge_flags"
    then known (parse_fixed_component_field settings 1)
    else if is_token token "color_scalars"
    then known (parse_color_scalars settings)
    else if is_token token "lookup_table"
    then known (parse_lookup_table settings)
    else unknown

-- `m || n`, of calls that tell whether they have read the token.
unfoldable pub or_else :
    Action LegacyTokenParser Bool → Action LegacyTokenParser Bool → Action LegacyTokenParser Bool
or_else m n = do found ← m; if found then pure true else n

unfoldable pub parse_section : Settings → Bytes → Option ℕ → Action LegacyTokenParser Bool
parse_section settings token position = or_else (parse_common_token settings token position) (
    or_else
      (do
        kind ← gets (λ (p : LegacyTokenParser). p.dataset.kind)
        parse_dataset_token settings kind token)
      (parse_attribute_token settings token))

-- `LegacyTokenParser::Parse`
unfoldable pub parse_tokens : Settings → ℕ → Action LegacyTokenParser (Unit {0})
parse_tokens settings zero = throw out_of_fuel
parse_tokens settings (suc fuel) =
    let later = parse_tokens settings fuel in
    (do
      position ← on_input (gets tellg)
      raw_token ← on_input next_token
      if is_nil raw_token then pure tt else (do
        found ← parse_section settings (to_lower_token raw_token) position
        if found then later else pure tt))

-- `ParseLegacyDatasetKind`
unfoldable pub parse_dataset_kind : Bytes → Result Error DatasetKind
parse_dataset_kind dataset_type =
    if is_token dataset_type "polydata"
    then ok poly_data
    else if is_token dataset_type "structured_points"
    then ok structured_points
    else if is_token dataset_type "structured_grid"
    then ok structured_grid
    else if is_token dataset_type "rectilinear_grid"
    then ok rectilinear_grid
    else if is_token dataset_type "unstructured_grid"
    then ok unstructured_grid
    else err unsupported_dataset

abbrev pub new_parser : Stream → DatasetSpec → LegacyTokenParser
new_parser input dataset = record {
  input = input;
  dataset = dataset;
  names = no_names;
  association = unassociated;
  tuple_count = 0;
}
