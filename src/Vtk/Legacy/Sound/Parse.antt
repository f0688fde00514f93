-- ===== src/Vtk/Legacy/Sound/Parse.antt =====
-- ParseCommonToken, ParseDatasetToken and ParseAttributeToken, by what Sound states of a parse.
use cae_openusd_plugins.Prelude.{
  ℕ, ◌≡◌, refl, Bool, true, false, ◌||◌, Option, Bytes, if◌then◌else◌,
}
use cae_openusd_plugins.Vtk.Action.{Action}
use cae_openusd_plugins.Vtk.Action.Keeps.{
  Any, Keeps-pure, Keeps-gets, Keeps-if, Keeps-modify, Keeps-bind, Keeps-then,
}
use cae_openusd_plugins.Stream.{Stream}
use cae_openusd_plugins.Vtk.Tokens.{is_token}
use cae_openusd_plugins.Vtk.DatasetSpec.{
  DatasetKind, image_data, structured_points, structured_grid, rectilinear_grid, poly_data,
  unstructured_grid, Association,
}
use cae_openusd_plugins.Vtk.Scan.{seek_back, skip_optional_metadata}
use cae_openusd_plugins.Vtk.Scan.Position.{IsAt}
use cae_openusd_plugins.Vtk.Legacy.{Settings, LegacyTokenParser}
use cae_openusd_plugins.Vtk.Legacy.Arrays.{CellArrayNames}
use cae_openusd_plugins.Vtk.Legacy.Sections.{parse_dimensions, parse_extent}
use cae_openusd_plugins.Vtk.Legacy.Parse.{
  known, unknown, start_section, parse_common_token, parse_poly_cells, parse_poly_data_token,
  parse_origin, parse_spacing, parse_structured_points_token, parse_structured_grid_token,
  parse_rectilinear_grid_token, parse_cells, parse_unstructured_grid_token, parse_dataset_token,
  parse_attribute_token, or_else, parse_section,
}
use cae_openusd_plugins.Vtk.Legacy.Sound.{IsParsing, Keeps-on_input, Keeps-on_dataset}
use cae_openusd_plugins.Vtk.Legacy.Sound.Arrays.{parse_cell_array-Keeps}
use cae_openusd_plugins.Vtk.Legacy.Sound.Sections.{
  Reads, size-Keeps, parse_dimensions-Keeps, parse_extent-Keeps, read_doubles-Keeps,
  parse_points-Keeps, parse_coordinate-Keeps, parse_cell_types-Keeps,
}
use cae_openusd_plugins.Vtk.Legacy.Sound.Fields.{
  parse_scalar_field-Keeps, parse_fixed_component_field-Keeps, parse_texture_coordinates-Keeps,
  parse_color_scalars-Keeps, parse_field_data-Keeps, parse_lookup_table-Keeps,
}

-- The block that the parser goes back to does not end before what has been reached.
abbrev pub GoesOn : Bytes → ℕ → Bytes → Option ℕ → Type 0
GoesOn c k token position =
    is_token token "metadata" ≡ true
    → (s : Stream) → IsAt c k s
    → IsAt c k (skip_optional_metadata (seek_back position s))

module _ (c : Bytes) (k : ℕ) (settings : Settings) where
  known-Keeps :
      (section : Action LegacyTokenParser (Unit {0}))
      → Reads c k settings section
      → Reads c k settings (known section)
  known-Keeps section ks = Keeps-then _ _ ks (λ _ _. Keeps-pure true tt)

  unknown-Keeps : Reads c k settings unknown
  unknown-Keeps = Keeps-pure false tt

  -- A branch of a chain of tests for the names of sections.
  branch :
      (test : Bool) (section : Action LegacyTokenParser (Unit {0}))
      (others : Action LegacyTokenParser Bool)
      → Reads c k settings section
      → Reads c k settings others
      → Reads c k settings (if test then known section else others)
  branch test section others ks ko =
      Keeps-if test (known section) others (λ _. known-Keeps section ks) (λ _. ko)

  start_section-Keeps : (association : Association) → Reads c k settings (start_section association)
  unfolding start_section
  start_section-Keeps association =
      Keeps-then _ _ (Keeps-modify _ (λ p h. same_parse p _ h)) (λ _ _.
        Keeps-bind _ _ (size-Keeps c k settings)
          (λ count _. Keeps-modify _ (λ p h. same_count p count h)))
    where
      same_parse :
          (p : LegacyTokenParser) (a : Association)
          → IsParsing c k settings.binary p
          → IsParsing c k settings.binary (record p { association = a })
      same_parse p a h = record {
        at = h.at;
        sound = h.sound;
        registry = h.registry;
        named = h.named;
        distinct = h.distinct;
      }

      same_count :
          (p : LegacyTokenParser) (n : ℕ)
          → IsParsing c k settings.binary p
          → IsParsing c k settings.binary (record p { tuple_count = n })
      same_count p n h = record {
        at = h.at;
        sound = h.sound;
        registry = h.registry;
        named = h.named;
        distinct = h.distinct;
      }

  parse_common_token-Keeps :
      (token : Bytes) (position : Option ℕ)
      → GoesOn c k token position
      → Reads c k settings (parse_common_token settings token position)
  unfolding parse_common_token
  parse_common_token-Keeps token position goes_on =
      Keeps-if (is_token token "metadata") _ _
        (λ e. known-Keeps _ (Keeps-on_input _ (Keeps-modify _ (goes_on e))))
        (λ _. branch (is_token token "field") _ _ (parse_field_data-Keeps c k settings) (
          branch (is_token token "point_data") _ _ (start_section-Keeps _)
            (branch (is_token token "cell_data") _ _ (start_section-Keeps _) unknown-Keeps)))

  parse_poly_cells-Keeps :
      (names : CellArrayNames) → Reads c k settings (parse_poly_cells settings names)
  unfolding parse_poly_cells
  parse_poly_cells-Keeps names =
      Keeps-bind _ _ (parse_cell_array-Keeps c k settings names)
        (λ count _. Keeps-on_dataset _ (λ d. refl))

  parse_poly_data_token-Keeps :
      (token : Bytes) → Reads c k settings (parse_poly_data_token settings token)
  unfolding parse_poly_data_token
  parse_poly_data_token-Keeps token =
      branch (is_token token "points") _ _ (parse_points-Keeps c k settings) (
        branch (is_token token "vertices") _ _ (parse_poly_cells-Keeps _) (
          branch (is_token token "lines") _ _ (parse_poly_cells-Keeps _) (
            branch (is_token token "polygons") _ _ (parse_poly_cells-Keeps _) (
              branch (is_token token "triangle_strips") _ _ (parse_poly_cells-Keeps _)
                unknown-Keeps))))

  parse_origin-Keeps : Reads c k settings (parse_origin settings)
  unfolding parse_origin
  parse_origin-Keeps =
      Keeps-bind _ _ (read_doubles-Keeps c k settings) (λ numbers _. Keeps-on_dataset _ (λ d. refl))

  parse_spacing-Keeps : Reads c k settings (parse_spacing settings)
  unfolding parse_spacing
  parse_spacing-Keeps =
      Keeps-bind _ _ (read_doubles-Keeps c k settings) (λ numbers _. Keeps-on_dataset _ (λ d. refl))

  -- The two sections that tell the extents of a grid.
  with_extents :
      (token : Bytes) (others : Action LegacyTokenParser Bool)
      → Reads c k settings others
      → Reads c k settings (
          if is_token token "dimensions"
          then known parse_dimensions
          else if is_token token "extent"
          then known (parse_extent settings.order)
          else others)
  with_extents token others ko =
      branch (is_token token "dimensions") _ _ (parse_dimensions-Keeps c k settings)
        (branch (is_token token "extent") _ _ (parse_extent-Keeps c k settings settings.order) ko)

  parse_structured_points_token-Keeps :
      (token : Bytes) → Reads c k settings (parse_structured_points_token settings token)
  unfolding parse_structured_points_token
  parse_structured_points_token-Keeps token = with_extents token _ (
      branch (is_token token "origin") _ _ parse_origin-Keeps (
        branch (is_token token "spacing" || is_token token "aspect_ratio") _ _ parse_spacing-Keeps
          unknown-Keeps))

  parse_structured_grid_token-Keeps :
      (token : Bytes) → Reads c k settings (parse_structured_grid_token settings token)
  unfolding parse_structured_grid_token
  parse_structured_grid_token-Keeps token =
      with_extents token _
        (branch (is_token token "points") _ _ (parse_points-Keeps c k settings) unknown-Keeps)

  parse_rectilinear_grid_token-Keeps :
      (token : Bytes) → Reads c k settings (parse_rectilinear_grid_token settings token)
  unfolding parse_rectilinear_grid_token
  parse_rectilinear_grid_token-Keeps token = with_extents token _ (
      branch (is_token token "x_coordinates") _ _ (parse_coordinate-Keeps c k settings _ _) (
        branch (is_token token "y_coordinates") _ _ (parse_coordinate-Keeps c k settings _ _) (
          branch (is_token token "z_coordinates") _ _ (parse_coordinate-Keeps c k settings _ _)
            unknown-Keeps)))

  parse_cells-Keeps : Reads c k settings (parse_cells settings)
  unfolding parse_cells
  parse_cells-Keeps =
      Keeps-bind _ _ (parse_cell_array-Keeps c k settings _)
        (λ count _. Keeps-on_dataset _ (λ d. refl))

  parse_unstructured_grid_token-Keeps :
      (token : Bytes) → Reads c k settings (parse_unstructured_grid_token settings token)
  unfolding parse_unstructured_grid_token
  parse_unstructured_grid_token-Keeps token =
      branch (is_token token "points") _ _ (parse_points-Keeps c k settings) (
        branch (is_token token "cells") _ _ parse_cells-Keeps (
          branch (is_token token "cell_types") _ _ (parse_cell_types-Keeps c k settings)
            unknown-Keeps))

  parse_dataset_token-Keeps :
      (kind : DatasetKind) (token : Bytes)
      → Reads c k settings (parse_dataset_token settings kind token)
  unfolding parse_dataset_token
  parse_dataset_token-Keeps poly_data token = parse_poly_data_token-Keeps token
  parse_dataset_token-Keeps structured_points token = parse_structured_points_token-Keeps token
  parse_dataset_token-Keeps structured_grid token = parse_structured_grid_token-Keeps token
  parse_dataset_token-Keeps rectilinear_grid token = parse_rectilinear_grid_token-Keeps token
  parse_dataset_token-Keeps unstructured_grid token = parse_unstructured_grid_token-Keeps token
  parse_dataset_token-Keeps image_data token = unknown-Keeps

  parse_attribute_token-Keeps :
      (token : Bytes) → Reads c k settings (parse_attribute_token settings token)
  unfolding parse_attribute_token
  parse_attribute_token-Keeps token =
      let fixed = parse_fixed_component_field-Keeps c k settings in
      branch (is_token token "scalars") _ _ (parse_scalar_field-Keeps c k settings) (
        branch (is_token token "vectors" || is_token token "normals") _ _ (fixed 3) (
          branch (is_token token "tensors6") _ _ (fixed 6) (
            branch (is_token token "tensors") _ _ (fixed 9) (
              branch (is_token token "texture_coordinates") _ _
                (parse_texture_coordinates-Keeps c k settings)
                (branch
                  (is_token token "global_ids"
                    || is_token token "pedigree_ids"
                    || is_token token "edge_flags")
                  _ _ (fixed 1)
                  (branch (is_token token "color_scalars") _ _
                    (parse_color_scalars-Keeps c k settings)
                    (branch (is_token token "lookup_table") _ _
                      (parse_lookup_table-Keeps c k settings) unknown-Keeps)))))))

  or_else-Keeps :
      (m n : Action LegacyTokenParser Bool)
      → Reads c k settings m
      → Reads c k settings n
      → Reads c k settings (or_else m n)
  unfolding or_else
  or_else-Keeps m n km kn =
      Keeps-bind _ _ km (λ found _. Keeps-if found _ _ (λ _. Keeps-pure true tt) (λ _. kn))

  pub parse_section-Keeps :
      (token : Bytes) (position : Option ℕ)
      → GoesOn c k token position
      → Reads c k settings (parse_section settings token position)
  unfolding parse_section
  parse_section-Keeps token position goes_on =
      or_else-Keeps _ _ (parse_common_token-Keeps token position goes_on) (
        or_else-Keeps _ _
          (Keeps-bind _ _ (Keeps-gets {Q = Any} _ (λ _ _. tt))
            (λ kind _. parse_dataset_token-Keeps kind token))
          (parse_attribute_token-Keeps token))
