-- ===== src/Vtk/Legacy/Sound/Sections.antt =====
-- The sections of LegacyTokenParser, by what Sound states of a parse.
use cae_openusd_plugins.Prelude.{ℕ, ◌≡◌, refl, Bytes, arith}
use cae_openusd_plugins.Prelude.Int.{ℤ}
use cae_openusd_plugins.Prelude.Result.{Result, ok, err}
use cae_openusd_plugins.Vtk.Error.{Error}
use cae_openusd_plugins.Vtk.Action.{Action, lift, ◌>>=◌}
use cae_openusd_plugins.Vtk.Action.Keeps.{Any, Keeps-pure, Keeps-lift, Keeps-bind, Keeps-then}
use cae_openusd_plugins.Vtk.DatasetSpec.{ArrayRole}
use cae_openusd_plugins.Vtk.Scan.{next_token, read_size, read_int}
use cae_openusd_plugins.Vtk.Scan.Keeps.{NotFuel, next_token-Keeps, read_size-Keeps, read_int-Keeps}
use cae_openusd_plugins.Vtk.Legacy.{
  Settings, ArgumentOrder, left_to_right, right_to_left, LegacyTokenParser, NumberError,
  not_a_number, too_large, number_of, on_input,
}
use cae_openusd_plugins.Vtk.Legacy.Sections.{
  to_int, int_product, parse_extents_from_dimensions, int_steps, parse_extents, parse_dimensions,
  parse_extent, read_doubles, parse_points, parse_coordinate, parse_cell_types,
}
use cae_openusd_plugins.Vtk.Legacy.Sound.{Parses, Keeps-on_input, Keeps-on_dataset}
use cae_openusd_plugins.Vtk.Legacy.Sound.Arrays.{add_payload-Keeps}

to_int-NotFuel : (n : ℤ) (e : Error) → to_int n ≡ err e → NotFuel e
unfolding to_int
to_int-NotFuel n e h p = ground arith

number_of-NotFuel : (r : Result NumberError ℕ) (e : Error) → number_of r ≡ err e → NotFuel e
unfolding number_of
number_of-NotFuel (ok n) e h p = cc
number_of-NotFuel (err not_a_number) e h p = cc
number_of-NotFuel (err too_large) e h p = cc

module _ (c : Bytes) (k : ℕ) (settings : Settings) where
  abbrev pub Reads : {A : Type 0} → Action LegacyTokenParser A → Type 0
  Reads m = Parses c k settings.binary Any m

  int-Keeps : (n : ℤ) → Reads (lift (to_int n))
  int-Keeps n = Keeps-lift _ (λ _ _. tt) (to_int-NotFuel n)

  pub token-Keeps : Reads (on_input next_token)
  token-Keeps = Keeps-on_input _ (next_token-Keeps c k)

  pub size-Keeps : Reads (on_input read_size)
  size-Keeps = Keeps-on_input _ (read_size-Keeps c k)

  pub number-Keeps : Reads (on_input read_int)
  number-Keeps = Keeps-on_input _ (read_int-Keeps c k)

  int_product-Keeps : (a b d : ℕ) → Reads (int_product a b d)
  unfolding int_product
  int_product-Keeps a b d =
      Keeps-bind _ _ (int-Keeps _)
        (λ first _. Keeps-bind _ _ (int-Keeps _) (λ second _. Keeps-pure _ tt))

  parse_extents_from_dimensions-Keeps :
      (nx ny nz : ℤ) → Reads (parse_extents_from_dimensions nx ny nz)
  unfolding parse_extents_from_dimensions
  parse_extents_from_dimensions-Keeps nx ny nz = Keeps-bind _ _ (int-Keeps _) (λ mx _.
      Keeps-bind _ _ (int-Keeps _) (λ my _. Keeps-bind _ _ (int-Keeps _) (λ mz _.
        Keeps-bind _ _ (int_product-Keeps _ _ _) (λ point_count _.
          Keeps-bind _ _ (int_product-Keeps _ _ _)
            (λ cell_count _. Keeps-on_dataset _ (λ d. refl))))))

  int_steps-Keeps : (x0 x1 : ℤ) → Reads (int_steps x0 x1)
  unfolding int_steps
  int_steps-Keeps x0 x1 =
      Keeps-bind _ _ (int-Keeps _)
        (λ steps _. Keeps-bind _ _ (int-Keeps _) (λ count _. Keeps-pure _ tt))

  parse_extents-Keeps : (x0 x1 y0 y1 z0 z1 : ℤ) → Reads (parse_extents x0 x1 y0 y1 z0 z1)
  unfolding parse_extents
  parse_extents-Keeps x0 x1 y0 y1 z0 z1 = Keeps-bind _ _ (int_steps-Keeps x0 x1) (λ x _.
      Keeps-bind _ _ (int_steps-Keeps y0 y1) (λ y _. Keeps-bind _ _ (int_steps-Keeps z0 z1) (λ z _.
        Keeps-bind _ _ (int_product-Keeps _ _ _) (λ point_count _.
          Keeps-bind _ _ (int_product-Keeps _ _ _)
            (λ cell_count _. Keeps-on_dataset _ (λ d. refl))))))

  pub parse_dimensions-Keeps : Reads parse_dimensions
  unfolding parse_dimensions
  parse_dimensions-Keeps = Keeps-bind _ _ number-Keeps (λ nx _.
      Keeps-bind _ _ number-Keeps (λ ny _.
        Keeps-bind _ _ number-Keeps (λ nz _. parse_extents_from_dimensions-Keeps nx ny nz)))

  in_order-Keeps :
      (order : ArgumentOrder) (x0 x1 y0 y1 z0 z1 : ℤ)
      → Reads (elim order [
        | left_to_right ↦ parse_extents x0 x1 y0 y1 z0 z1
        | right_to_left ↦ parse_extents z1 z0 y1 y0 x1 x0
      ])
  in_order-Keeps left_to_right x0 x1 y0 y1 z0 z1 = parse_extents-Keeps x0 x1 y0 y1 z0 z1
  in_order-Keeps right_to_left x0 x1 y0 y1 z0 z1 = parse_extents-Keeps z1 z0 y1 y0 x1 x0

  pub parse_extent-Keeps : (order : ArgumentOrder) → Reads (parse_extent order)
  unfolding parse_extent
  parse_extent-Keeps order = Keeps-bind _ _ number-Keeps (λ x0 _.
      Keeps-bind _ _ number-Keeps (λ x1 _. Keeps-bind _ _ number-Keeps (λ y0 _.
        Keeps-bind _ _ number-Keeps (λ y1 _.
          Keeps-bind _ _ number-Keeps (λ z0 _.
            Keeps-bind _ _ number-Keeps (λ z1 _. in_order-Keeps order x0 x1 y0 y1 z0 z1))))))

  double-Keeps : Reads (on_input (next_token >>= (λ token. lift (number_of (settings.stod token)))))
  double-Keeps = Keeps-on_input _ (
      Keeps-bind _ _ (next_token-Keeps c k)
        (λ token _. Keeps-lift _ (λ _ _. tt) (number_of-NotFuel (settings.stod token))))

  pub read_doubles-Keeps : Reads (read_doubles settings)
  unfolding read_doubles
  read_doubles-Keeps = Keeps-bind _ _ double-Keeps (λ x _.
      Keeps-bind _ _ double-Keeps (λ y _. Keeps-bind _ _ double-Keeps (λ z _. Keeps-pure _ tt)))

  pub parse_points-Keeps : Reads (parse_points settings)
  unfolding parse_points
  parse_points-Keeps = Keeps-bind _ _ size-Keeps (λ count _.
      Keeps-then _ _ (Keeps-on_dataset _ (λ d. refl))
        (λ _ _. Keeps-bind _ _ token-Keeps (λ token _. add_payload-Keeps c k settings _ token)))

  pub parse_coordinate-Keeps :
      (name : Bytes) (role : ArrayRole) → Reads (parse_coordinate settings name role)
  unfolding parse_coordinate
  parse_coordinate-Keeps name role =
      Keeps-bind _ _ size-Keeps
        (λ count _. Keeps-bind _ _ token-Keeps (λ token _. add_payload-Keeps c k settings _ token))

  pub parse_cell_types-Keeps : Reads (parse_cell_types settings)
  unfolding parse_cell_types
  parse_cell_types-Keeps = Keeps-bind _ _ size-Keeps (λ count _.
      Keeps-then _ _ (Keeps-on_dataset _ (λ d. refl)) (λ _ _. add_payload-Keeps c k settings _ _))
