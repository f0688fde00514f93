-- ===== src/Vtk/Legacy/Sound/File.antt =====
-- What LegacyParser::Parse returns.
use cae_openusd_plugins.Prelude.{
  ℕ, suc, ◌≡◌, ◌≢◌, refl, subst, Bool, true, false, Option, none, some, Bytes, length,
  if◌then◌else◌, arith,
}
use cae_openusd_plugins.Prelude.Result.{Result, ok, err, ok-injective, err-injective}
use cae_openusd_plugins.Stream.{Stream, open_stream}
use cae_openusd_plugins.Vtk.Error.{Error, out_of_fuel, not_legacy, missing_mode, not_dataset}
use cae_openusd_plugins.Vtk.Action.Keeps.{
  Leaves, returns, throws, Any, Keeps-pure, Keeps-lift, Keeps-gets, Keeps-ensure, Keeps-bind,
  Keeps-then,
}
use cae_openusd_plugins.Vtk.Tokens.{is_token}
use cae_openusd_plugins.Vtk.DatasetSpec.{DatasetKind, DatasetSpec}
use cae_openusd_plugins.Vtk.Registry.Unique.{AllDistinct}
use cae_openusd_plugins.Vtk.Scan.Position.{IsAt}
use cae_openusd_plugins.Vtk.Scan.Keeps.{
  NotFuel, Scans, next_token-Keeps, get_line-Keeps, stoi-NotFuel,
}
use cae_openusd_plugins.Vtk.Legacy.{Settings, LegacyTokenParser}
use cae_openusd_plugins.Vtk.Legacy.Parse.{parse_dataset_kind, parse_tokens, new_parser}
use cae_openusd_plugins.Vtk.Legacy.File.{
  read_line, LegacyHeader, read_header, settings_for, dataset_for, dataset_of, parse_sections,
  parse_legacy, parse_behind,
}
use cae_openusd_plugins.Vtk.Legacy.Sound.{AllSound, generic_names, IsParsing}
use cae_openusd_plugins.Vtk.Legacy.Sound.Loop.{parse_tokens-Keeps}

kind_test :
    (test : Bool) (kind : DatasetKind) (others : Result Error DatasetKind)
    → ((e : Error) → others ≡ err e → NotFuel e)
    → (e : Error) → (if test then ok kind else others) ≡ err e
    → NotFuel e
kind_test true kind others k e h = λ p. cc
kind_test false kind others k e h = k e h

parse_dataset_kind-NotFuel :
    (token : Bytes) (e : Error) → parse_dataset_kind token ≡ err e → NotFuel e
unfolding parse_dataset_kind
parse_dataset_kind-NotFuel token = kind_test (is_token token "polydata") _ _ (
    kind_test (is_token token "structured_points") _ _ (
      kind_test (is_token token "structured_grid") _ _ (
        kind_test (is_token token "rectilinear_grid") _ _
          (kind_test (is_token token "unstructured_grid") _ _ (λ e h p. cc)))))

module _ (c : Bytes) (k : ℕ) where
  read_line-Keeps : Scans c k Any read_line
  read_line-Keeps =
      Keeps-bind _ _ (get_line-Keeps c k) (λ line _.
        Keeps-bind _ _ (Keeps-gets {Q = Any} _ (λ _ _. tt)) (λ failed _. Keeps-pure _ tt))

  read_header-Keeps : (settings : Settings) → Scans c k Any (read_header settings)
  unfolding read_header
  read_header-Keeps settings = Keeps-bind _ _ read_line-Keeps (λ first _.
      Keeps-then _ _ (Keeps-ensure _ not_legacy (λ p. cc)) (λ _ _.
        Keeps-bind _ _ (Keeps-lift {Q = Any} _ (λ _ _. tt) (stoi-NotFuel _)) (λ version_major _.
          Keeps-bind _ _ read_line-Keeps (λ description _. Keeps-bind _ _ read_line-Keeps (λ mode _.
            Keeps-then _ _ (Keeps-ensure _ missing_mode (λ p. cc)) (λ _ _.
              Keeps-bind _ _ (next_token-Keeps c k) (λ token _.
                Keeps-then _ _ (Keeps-ensure _ not_dataset (λ p. cc)) (λ _ _.
                  Keeps-bind _ _ (next_token-Keeps c k) (λ dataset_type _.
                    Keeps-bind _ _
                      (Keeps-lift {Q = Any} _ (λ _ _. tt) (parse_dataset_kind-NotFuel _))
                      (λ kind _. Keeps-pure _ tt))))))))))

-- A parser starts with no arrays.
new_parser-IsParsing :
    (settings : Settings) (header : LegacyHeader) (input : Stream)
    → IsParsing input.content 0 header.binary (new_parser input (dataset_for settings header))
new_parser-IsParsing settings header input = record {
  at = record { content = refl; reached = omega arith; inside = omega arith };
  sound = tt;
  registry = record { distinct = tt; small = tt };
  named = tt;
  distinct = tt;
}

-- What is said of the result of a parse.
abbrev pub IsSoundDataset : Bool → DatasetSpec → Type 0
IsSoundDataset binary d = AllSound binary d.arrays × AllDistinct (generic_names d.arrays)

dataset_of_sound :
    {c : Bytes} {k : ℕ} {binary : Bool} {r : Result Error (Unit {0} × LegacyTokenParser)}
    {d : DatasetSpec}
    → Leaves (IsParsing c k binary) Any NotFuel r
    → dataset_of r ≡ ok d
    → IsSoundDataset binary d
dataset_of_sound {binary = binary} (returns {s = p} q h) e =
    subst (IsSoundDataset binary) (ok-injective e) (h.sound, h.distinct)
dataset_of_sound (throws k) e = cc

dataset_of-NotFuel :
    {c : Bytes} {k : ℕ} {binary : Bool} {r : Result Error (Unit {0} × LegacyTokenParser)}
    → Leaves (IsParsing c k binary) Any NotFuel r
    → dataset_of r ≢ err out_of_fuel
dataset_of-NotFuel (returns q h) = λ p. cc
dataset_of-NotFuel (throws {e} k) = λ p. k (err-injective p)

module _ (settings : Settings) (header : LegacyHeader) (input : Stream) where
  sections_leave : Leaves (IsParsing input.content 0 header.binary) Any NotFuel (
      parse_tokens
        (settings_for settings header)
        (suc (length input.content))
        (new_parser input (dataset_for settings header)))
  sections_leave =
      (parse_tokens-Keeps input.content (settings_for settings header) (suc (length input.content))
          0 (omega arith) (omega arith)).at
        _ (new_parser-IsParsing settings header input)

  parse_sections_sound :
      (d : DatasetSpec)
      → parse_sections settings header input ≡ ok d
      → IsSoundDataset header.binary d
  unfolding parse_sections
  parse_sections_sound d e = dataset_of_sound sections_leave e

  parse_sections-ne-out_of_fuel : parse_sections settings header input ≢ err out_of_fuel
  unfolding parse_sections
  parse_sections-ne-out_of_fuel = dataset_of-NotFuel sections_leave

-- A dataset that a legacy file is parsed to, whatever its bytes are, has only arrays with an
-- evaluation that fits their shape and one segment of payload in the storage of the file's
-- header, asked for as many values as the tuples have components; in a binary file the segment
-- has exactly the bytes of these values and ends where a stream can seek; and no two fields have
-- the same name.
pub parse_legacy_sound :
    (settings : Settings) (content : Bytes) (d : DatasetSpec)
    → parse_legacy settings (some content) ≡ ok d
    → (header : LegacyHeader) × (input : Stream) × (read_header settings (open_stream content)
        ≡ ok (header, input))
      × AllSound header.binary d.arrays
      × AllDistinct (generic_names d.arrays)
unfolding parse_legacy
parse_legacy_sound settings content d e = behind (read_header settings (open_stream content)) refl e
  where
    behind :
        (r : Result Error (LegacyHeader × Stream))
        → read_header settings (open_stream content) ≡ r
        → parse_behind settings r ≡ ok d
        → (header : LegacyHeader) × (input : Stream) × (read_header settings (open_stream content)
            ≡ ok (header, input))
          × AllSound header.binary d.arrays
          × AllDistinct (generic_names d.arrays)
    behind (ok (header, input)) is_header e =
        let (sound, distinct) = parse_sections_sound settings header input d e in
        (header, input, is_header, sound, distinct)
    behind (err x) is_header e = cc

-- The parse of a legacy file ends, whatever its bytes are: the fuel of the loop over its
-- sections, which is the length of the file, never runs out.
pub parse_legacy-ne-out_of_fuel :
    (settings : Settings) (content : Option Bytes) → parse_legacy settings content ≢ err out_of_fuel
unfolding parse_legacy
parse_legacy-ne-out_of_fuel settings none = λ p. cc
parse_legacy-ne-out_of_fuel settings (some content) = behind (
    (read_header-Keeps content 0 settings).at (open_stream content)
      (record { content = refl; reached = omega arith; inside = omega arith }))
  where
    behind :
        {r : Result Error (LegacyHeader × Stream)}
        → Leaves (IsAt content 0) Any NotFuel r
        → parse_behind settings r ≢ err out_of_fuel
    behind (returns {a = header} {s = input} q h) =
        parse_sections-ne-out_of_fuel settings header input
    behind (throws {e} k) = λ p. k (err-injective p)
