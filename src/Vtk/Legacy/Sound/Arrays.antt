-- ===== src/Vtk/Legacy/Sound/Arrays.antt =====
-- AddArrayFromPayload and the arrays of cells, by what Sound states of a dataset.
use Prim.Native.String.{String}
use cae_openusd_plugins.Prelude.{
  ℕ, ◌*◌, ◌≡◌, refl, ap, Bool, true, false, not, Bool-cases, inl, inr, none, some, Option-cases, [],
  ◌∷◌, Bytes, if◌then◌else◌, arith,
}
use cae_openusd_plugins.Prelude.Int.{ℤ, pos_part}
use cae_openusd_plugins.Prelude.Result.{ok, err}
use cae_openusd_plugins.Vtk.Error.{
  Error, names_exhausted, packed_header, expected_offsets, expected_connectivity,
}
use cae_openusd_plugins.Vtk.Action.{Action, pure, lift, modify, ◌>>=◌}
use cae_openusd_plugins.Vtk.Action.Keeps.{
  Leaves, returns, Any, Keeps-pure, Keeps-if, Keeps-ensure, Keeps-bind, Keeps-then, weaken,
  lift-bind_at, bind-ok_at, bind-err_at,
}
use cae_openusd_plugins.Vtk.Types.{ScalarType, int32}
use cae_openusd_plugins.Vtk.Sizes.{checked_mul}
use cae_openusd_plugins.Vtk.Tokens.{
  ArrayEvaluationKind, supports_array_shape, evaluation_kind_for, unsupported_shape,
}
use cae_openusd_plugins.Vtk.Segment.{PayloadSegmentSpec}
use cae_openusd_plugins.Vtk.Registry.{ArrayNameRegistry, make_unique_name}
use cae_openusd_plugins.Vtk.Registry.Unique.{IsNewName, make_unique_name-IsNewName}
use cae_openusd_plugins.Vtk.DatasetSpec.{ArraySpec, push_array, add_skipped_array, SkippedArraySpec}
use cae_openusd_plugins.Vtk.Scan.Keeps.{
  NotFuel, Scans, next_token-Keeps, read_size-Keeps, skip_metadata-Keeps,
}
use cae_openusd_plugins.Vtk.Legacy.{
  Settings, LegacyTokenParser, on_dataset, ParsedScalarPayload, binary_segment, ascii_segment,
  payload_of, request_of,
}
use cae_openusd_plugins.Vtk.Legacy.Arrays.{
  ArrayHead, skipped_of, is_generic, unique_name, array_name_of, add_array_from_payload,
  add_payload, add_packed_cells, CellArrayNames, expect_token, at_least_five, parse_cell_array,
  head_debug,
}
use cae_openusd_plugins.Vtk.Legacy.Sound.{
  IsRange, IsSoundPayload, IsSoundArray, IsParsing, Parses, Keeps-on_input, Keeps-on_dataset,
}
use cae_openusd_plugins.Vtk.Legacy.Sound.Names.{push_array-plain, push_array-generic}
use cae_openusd_plugins.Vtk.Legacy.Sound.Payload.{
  IsSoundParsed, parse_payload-Keeps, binary_segment-Keeps, ascii_segment-Keeps,
  checked_mul-NotFuel, checked_mul-eq_mul,
}

evaluation_kind_for-NotFuel :
    (t : ScalarType) (n : ℤ) (e : Error) → evaluation_kind_for t n ≡ err e → NotFuel e
unfolding evaluation_kind_for
evaluation_kind_for-NotFuel t n e h p = ground arith

-- The array that `AddArrayFromPayload` adds.
abbrev array_of :
    Settings → ArrayHead → ParsedScalarPayload → Bytes → ArrayEvaluationKind → ArraySpec
array_of settings head parsed name kind = record {
  source_name = head.source_name;
  array_name = name;
  scalar_type = parsed.scalar_type;
  tuple_count = head.tuple_count;
  component_count = head.component_count;
  association = head.association;
  role = head.role;
  evaluation_kind = kind;
  payload = parsed.payload;
  source_scalar_token = parsed.source_scalar_token;
  debug_context = head_debug settings head parsed.offset;
}

is_true : (b : Bool) → not b ≡ false → b ≡ true
is_true b h = ground arith

sound_supported :
    {binary : Bool} (head : ArrayHead) (parsed : ParsedScalarPayload)
    → parsed.supported ≡ true
    → IsSoundParsed binary (head.tuple_count * pos_part head.component_count) parsed
    → IsSoundPayload binary
        (head.tuple_count * pos_part head.component_count)
        parsed.scalar_type
        parsed.payload
sound_supported head parsed e sound = rw e at sound

module _ (settings : Settings) (head : ArrayHead) (p : LegacyTokenParser) where
  array_name_of-none :
      is_generic head.role ≡ true
      → make_unique_name settings.make_valid head.source_name head.fallback_name p.names ≡ none
      → array_name_of settings head p ≡ err names_exhausted
  unfolding array_name_of unique_name
  array_name_of-none is_field e = rw (is_field, unique_name, e) refl

  array_name_of-some :
      (name : Bytes) (names : ArrayNameRegistry)
      → is_generic head.role ≡ true
      → make_unique_name settings.make_valid head.source_name head.fallback_name p.names
        ≡ some (name, names)
      → array_name_of settings head p ≡ ok (name, record p { names = names })
  unfolding array_name_of unique_name
  array_name_of-some name names is_field e = rw (is_field, unique_name, e) refl

  array_name_of-plain :
      is_generic head.role ≡ false → array_name_of settings head p ≡ ok (head.fallback_name, p)
  unfolding array_name_of pure
  array_name_of-plain plain = rw plain refl

module _ (c : Bytes) (k : ℕ) (settings : Settings) where
  abbrev Adds : {A : Type 0} → (A → Type 0) → Action LegacyTokenParser A → Type 0
  Adds Q m = Parses c k settings.binary Q m

  -- What is left to do when the name is known.
  abbrev push_named : ArrayHead → ParsedScalarPayload → Bytes → Action LegacyTokenParser (Unit {0})
  push_named head parsed name =
      lift (evaluation_kind_for parsed.scalar_type head.component_count)
      >>= (λ kind. on_dataset (push_array (array_of settings head parsed name kind)))

  module _ (head : ArrayHead) (parsed : ParsedScalarPayload)
      (sound : IsSoundPayload settings.binary
        (head.tuple_count * pos_part head.component_count)
        parsed.scalar_type
        parsed.payload)
      (p : LegacyTokenParser) (h : IsParsing c k settings.binary p) where
    abbrev Left : Action LegacyTokenParser (Unit {0}) → LegacyTokenParser → Type 0
    Left m q = Leaves (IsParsing c k settings.binary) Any NotFuel (m q)

    push_plain : is_generic head.role ≡ false → Left (push_named head parsed head.fallback_name) p
    unfolding modify
    push_plain plain =
        lift-bind_at _ _ p
          (λ kind shape. returns tt (
            push_array-plain p h (array_of settings head parsed head.fallback_name kind)
              (record { shape = shape; payload = sound }) plain))
          (evaluation_kind_for-NotFuel parsed.scalar_type head.component_count)

    push_generic :
        (name : Bytes) (names : ArrayNameRegistry)
        → is_generic head.role ≡ true
        → IsNewName p.names name names
        → Left (push_named head parsed name) (record p { names = names })
    unfolding modify
    push_generic name names is_field new =
        lift-bind_at _ _ (record p { names = names })
          (λ kind shape. returns tt (
            push_array-generic p h (array_of settings head parsed name kind)
              (record { shape = shape; payload = sound }) names is_field new))
          (evaluation_kind_for-NotFuel parsed.scalar_type head.component_count)

    push_at : Left (array_name_of settings head >>= push_named head parsed) p
    push_at = elim (Bool-cases (is_generic head.role)) [
      | inl is_field ↦
          elim (Option-cases
            (make_unique_name settings.make_valid head.source_name head.fallback_name p.names)) [
              | inl e ↦
                  bind-err_at _ _ p names_exhausted (array_name_of-none settings head p is_field e)
                    (λ q. cc)
              | inr ((name, names), e) ↦
                  bind-ok_at _ _ p name (record p { names = names })
                    (array_name_of-some settings head p name names is_field e)
                    (push_generic name names is_field (
                      make_unique_name-IsNewName settings.make_valid head.source_name
                        head.fallback_name p.names name names h.registry e))
            ]
      | inr plain ↦
          bind-ok_at _ _ p head.fallback_name p (array_name_of-plain settings head p plain)
            (push_plain plain)
    ]

  add_skipped_array-Keeps :
      (skipped : SkippedArraySpec) → Adds Any (on_dataset (add_skipped_array skipped))
  unfolding add_skipped_array
  add_skipped_array-Keeps skipped = Keeps-on_dataset (add_skipped_array skipped) (λ d. refl)

  add_array_from_payload-Keeps :
      (head : ArrayHead) (parsed : ParsedScalarPayload)
      → IsSoundParsed settings.binary (head.tuple_count * pos_part head.component_count) parsed
      → Adds Any (add_array_from_payload settings head parsed)
  unfolding add_array_from_payload
  add_array_from_payload-Keeps head parsed sound =
      Keeps-if (not parsed.supported) _ _
        (λ _. add_skipped_array-Keeps (skipped_of settings head parsed parsed.reason))
        (λ is_supported.
          Keeps-if (not (supports_array_shape parsed.scalar_type head.component_count)) _ _
            (λ _. add_skipped_array-Keeps (skipped_of settings head parsed unsupported_shape))
            (λ _.
              let whole =
                sound_supported head parsed (is_true parsed.supported is_supported) sound in
              record { at = λ p h. push_at head parsed whole p h }))

  pub add_payload-Keeps :
      (head : ArrayHead) (token : Bytes) → Adds Any (add_payload settings head token)
  unfolding add_payload
  add_payload-Keeps head token =
      Keeps-bind _ _
        (Keeps-on_input _
          (parse_payload-Keeps c k settings.binary token head.tuple_count head.component_count))
        (λ parsed sound. add_array_from_payload-Keeps head parsed sound)

  packed_segment-Keeps :
      (binary : Bool) (value_count : ℕ)
      → Scans c k
          (IsRange binary (value_count * 1) int32)
          (if binary then binary_segment (checked_mul value_count 4) else ascii_segment value_count)
  packed_segment-Keeps true value_count =
      weaken
        (λ segment h.
          let e = checked_mul-eq_mul value_count 4 segment.byte_count h.counted in
          (omega (arith, e), h.reachable))
        (binary_segment-Keeps c k _ (checked_mul-NotFuel value_count 4))
  packed_segment-Keeps false value_count = weaken (λ _ _. tt) (ascii_segment-Keeps c k value_count)

  push_array-Keeps :
      (array : ArraySpec)
      → is_generic array.role ≡ false
      → IsSoundArray settings.binary array
      → Adds Any (on_dataset (push_array array))
  unfolding modify
  push_array-Keeps array plain sound = record {
    at = λ p h. returns tt (push_array-plain p h array sound plain);
  }

  one_component :
      (n : ℕ) (binary : Bool) (segment : PayloadSegmentSpec)
      → IsRange binary (n * 1) int32 segment
      → IsSoundPayload binary (n * 1) int32 (payload_of binary (segment ∷ []) (request_of int32 n))
  one_component n binary segment range =
      let e : n ≡ n * 1 = omega arith in
      record {
        segment = segment;
        one_segment = refl;
        storage = refl;
        request = ap (request_of int32) e;
        range = range;
      }

  add_packed_cells-Keeps :
      (packed_name : Bytes) (cell_count value_count : ℕ)
      → Adds Any (add_packed_cells settings packed_name cell_count value_count)
  unfolding add_packed_cells evaluation_kind_for
  add_packed_cells-Keeps packed_name cell_count value_count =
      Keeps-bind _ _ (Keeps-on_input _ (packed_segment-Keeps settings.binary value_count))
        (λ segment range. Keeps-then _ _ (Keeps-on_input _ (skip_metadata-Keeps c k)) (λ _ _.
          Keeps-then _ _ (Keeps-ensure _ packed_header (λ p. cc)) (λ _ _.
            push_array-Keeps _ refl (record {
              shape = refl;
              payload = one_component value_count settings.binary segment range;
            }))))

  expect_token-Keeps : (name : String) (e : Error) → NotFuel e → Adds Any (expect_token name e)
  unfolding expect_token
  expect_token-Keeps name e not_fuel =
      Keeps-bind _ _ (Keeps-on_input _ (next_token-Keeps c k))
        (λ token _. weaken (λ _ _. tt) (Keeps-ensure _ e not_fuel))

  pub parse_cell_array-Keeps : (names : CellArrayNames) → Adds Any (parse_cell_array settings names)
  unfolding parse_cell_array
  parse_cell_array-Keeps names = Keeps-bind _ _ (Keeps-on_input _ (read_size-Keeps c k)) (λ first _.
      Keeps-bind _ _ (Keeps-on_input _ (read_size-Keeps c k)) (λ second _.
        Keeps-if (at_least_five settings.version_major) _ _
          (λ _. Keeps-then _ _ (expect_token-Keeps "offsets" expected_offsets (λ p. cc)) (λ _ _.
            Keeps-bind _ _ (Keeps-on_input _ (next_token-Keeps c k)) (λ offsets_type _.
              Keeps-then _ _ (add_payload-Keeps _ offsets_type) (λ _ _.
                Keeps-then _ _ (expect_token-Keeps "connectivity" expected_connectivity (λ p. cc))
                  (λ _ _.
                    Keeps-bind _ _ (Keeps-on_input _ (next_token-Keeps c k)) (λ connectivity_type _.
                      Keeps-then _ _ (add_payload-Keeps _ connectivity_type)
                        (λ _ _. Keeps-pure _ tt)))))))
          (λ _.
            Keeps-then _ _ (add_packed_cells-Keeps names.packed_name first second)
              (λ _ _. Keeps-pure _ tt))))
