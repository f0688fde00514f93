-- ===== src/Vtk/Legacy/Sound/Fields.antt =====
-- The attribute sections of LegacyTokenParser, by what Sound states of a parse.
use cae_openusd_plugins.Prelude.{ℕ, not, Bytes, same}
use cae_openusd_plugins.Prelude.Chars.{codes}
use cae_openusd_plugins.Prelude.Int.{ℤ, pos}
use cae_openusd_plugins.Vtk.Error.{expected_lookup_table}
use cae_openusd_plugins.Vtk.Action.Keeps.{
  Any, Keeps-pure, Keeps-lift, Keeps-gets, Keeps-if, Keeps-ensure, Keeps-bind, Keeps-then,
  Keeps-repeat,
}
use cae_openusd_plugins.Vtk.Tokens.{is_token, to_lower_token}
use cae_openusd_plugins.Vtk.Scan.Keeps.{stoi-NotFuel}
use cae_openusd_plugins.Vtk.Legacy.{Settings}
use cae_openusd_plugins.Vtk.Legacy.Sections.{
  add_field, read_name, section_count, scalar_components, parse_scalar_field,
  parse_fixed_component_field, parse_texture_coordinates, parse_color_scalars, parse_field_array,
  parse_field_data, parse_lookup_table, color_token,
}
use cae_openusd_plugins.Vtk.Legacy.Sound.{Keeps-on_input}
use cae_openusd_plugins.Vtk.Legacy.Sound.Arrays.{add_payload-Keeps}
use cae_openusd_plugins.Vtk.Legacy.Sound.Payload.{parse_payload-Keeps}
use cae_openusd_plugins.Vtk.Legacy.Sound.Sections.{Reads, token-Keeps, size-Keeps, number-Keeps}

module _ (c : Bytes) (k : ℕ) (settings : Settings) where
  add_field-Keeps :
      (name : Bytes) (count : ℕ) (components : ℤ) (token : Bytes)
      → Reads c k settings (add_field settings name count components token)
  unfolding add_field
  add_field-Keeps name count components token =
      Keeps-bind _ _ (Keeps-gets {Q = Any} _ (λ _ _. tt))
        (λ association _. add_payload-Keeps c k settings _ token)

  read_name-Keeps : Reads c k settings read_name
  read_name-Keeps = Keeps-bind _ _ (token-Keeps c k settings) (λ token _. Keeps-pure _ tt)

  section_count-Keeps : Reads c k settings section_count
  section_count-Keeps = Keeps-gets _ (λ _ _. tt)

  scalar_components-Keeps : (next : Bytes) → Reads c k settings (scalar_components next)
  unfolding scalar_components
  scalar_components-Keeps next =
      Keeps-if (not (is_token (to_lower_token next) "lookup_table")) _ _
        (λ _.
          Keeps-bind _ _ (Keeps-lift {Q = Any} _ (λ _ _. tt) (stoi-NotFuel next)) (λ components _.
            Keeps-bind _ _ (token-Keeps c k settings) (λ behind _. Keeps-pure _ tt)))
        (λ _. Keeps-pure _ tt)

  pub parse_scalar_field-Keeps : Reads c k settings (parse_scalar_field settings)
  unfolding parse_scalar_field
  parse_scalar_field-Keeps = Keeps-bind _ _ read_name-Keeps (λ source_name _.
      Keeps-bind _ _ (token-Keeps c k settings) (λ scalar_token _.
        Keeps-bind _ _ (token-Keeps c k settings) (λ next _.
          Keeps-bind _ _ (scalar_components-Keeps next) (λ components _.
            Keeps-then _ _ (Keeps-ensure _ expected_lookup_table (λ p. cc)) (λ _ _.
              Keeps-bind _ _ (token-Keeps c k settings) (λ table _.
                Keeps-bind _ _ section_count-Keeps
                  (λ count _. add_field-Keeps source_name count components.0 scalar_token)))))))

  pub parse_fixed_component_field-Keeps :
      (components : ℕ) → Reads c k settings (parse_fixed_component_field settings components)
  unfolding parse_fixed_component_field
  parse_fixed_component_field-Keeps components = Keeps-bind _ _ read_name-Keeps (λ source_name _.
      Keeps-bind _ _ section_count-Keeps (λ count _.
        Keeps-bind _ _ (token-Keeps c k settings)
          (λ token _. add_field-Keeps source_name count (pos components) token)))

  pub parse_texture_coordinates-Keeps : Reads c k settings (parse_texture_coordinates settings)
  unfolding parse_texture_coordinates
  parse_texture_coordinates-Keeps = Keeps-bind _ _ read_name-Keeps (λ source_name _.
      Keeps-bind _ _ (number-Keeps c k settings) (λ components _.
        Keeps-bind _ _ section_count-Keeps (λ count _.
          Keeps-bind _ _ (token-Keeps c k settings)
            (λ token _. add_field-Keeps source_name count components token))))

  pub parse_color_scalars-Keeps : Reads c k settings (parse_color_scalars settings)
  unfolding parse_color_scalars
  parse_color_scalars-Keeps = Keeps-bind _ _ read_name-Keeps (λ source_name _.
      Keeps-bind _ _ (number-Keeps c k settings) (λ components _.
        Keeps-bind _ _ section_count-Keeps
          (λ count _. add_field-Keeps source_name count components (color_token settings.binary))))

  parse_field_array-Keeps : Reads c k settings (parse_field_array settings)
  unfolding parse_field_array
  parse_field_array-Keeps = Keeps-bind _ _ (token-Keeps c k settings) (λ token _.
      Keeps-if (same token (codes "NULL_ARRAY")) _ _ (λ _. Keeps-pure _ tt)
        (λ _. Keeps-bind _ _ (number-Keeps c k settings) (λ components _.
          Keeps-bind _ _ (size-Keeps c k settings) (λ tuples _.
            Keeps-bind _ _ (token-Keeps c k settings)
              (λ scalar_token _. add_field-Keeps _ tuples components scalar_token)))))

  pub parse_field_data-Keeps : Reads c k settings (parse_field_data settings)
  unfolding parse_field_data
  parse_field_data-Keeps = Keeps-bind _ _ (token-Keeps c k settings) (λ name _.
      Keeps-bind _ _ (number-Keeps c k settings)
        (λ array_count _. Keeps-repeat _ _ parse_field_array-Keeps))

  pub parse_lookup_table-Keeps : Reads c k settings (parse_lookup_table settings)
  unfolding parse_lookup_table
  parse_lookup_table-Keeps = Keeps-bind _ _ (token-Keeps c k settings) (λ name _.
      Keeps-bind _ _ (size-Keeps c k settings) (λ size _.
        Keeps-bind _ _
          (Keeps-on_input _
            (parse_payload-Keeps c k settings.binary (color_token settings.binary) size (pos 4)))
          (λ parsed _. Keeps-pure _ tt)))
