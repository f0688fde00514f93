-- ===== src/Vtk/Legacy/Sound/Payload.antt =====
-- ParseLegacyScalarPayload and the bytes of its values.
use cae_openusd_plugins.Prelude.{
  ℕ, ◌+◌, ◌*◌, ◌/◌, ◌%◌, ◌^◌, ◌≤◌, ◌≡◌, refl, subst, Bool, true, false, not, ◌||◌, [], ◌∷◌, Bytes,
  if◌then◌else◌, arith,
}
use cae_openusd_plugins.Prelude.Int.{ℤ, pos_part}
use cae_openusd_plugins.Prelude.Result.{Result, ok, err}
use cae_openusd_plugins.Stream.{streamoff_max}
use cae_openusd_plugins.Vtk.Error.{Error, platform_width, ascii_range, cannot_skip}
use cae_openusd_plugins.Vtk.Action.{lift, act, repeat, ◌>>=◌, ◌>>◌}
use cae_openusd_plugins.Vtk.Action.Keeps.{
  Any, Keeps-pure, Keeps-throw, Keeps-lift, Keeps-if, Keeps-ensure, Keeps-bind, Keeps-then,
  Keeps-repeat, weaken,
}
use cae_openusd_plugins.Vtk.Types.{
  ScalarType, ScalarPayloadRequest, scalar_byte_size, decoded_byte_count,
}
use cae_openusd_plugins.Vtk.Sizes.{checked_mul, checked_add}
use cae_openusd_plugins.Vtk.Tokens.{to_lower_token, is_token, normalize_legacy_token}
use cae_openusd_plugins.Vtk.Segment.{PayloadSegmentSpec}
use cae_openusd_plugins.Vtk.Scan.{
  next_token, get_line, consume_preamble, seek_absolute, skip_binary_string,
}
use cae_openusd_plugins.Vtk.Scan.Keeps.{
  NotFuel, Scans, next_token-Keeps, get_line-Keeps, skip_metadata-Keeps, current_offset-Keeps,
  consume_preamble-Keeps, seek_absolute-Keeps, skip_binary_string-Keeps,
}
use cae_openusd_plugins.Vtk.Legacy.{
  ParsedScalarPayload, skip_unsupported, payload_of, request_of, binary_segment, ascii_segment,
  parse_payload,
}
use cae_openusd_plugins.Vtk.Legacy.Sound.{IsRange, IsSoundPayload}

pub checked_mul-NotFuel : (a b : ℕ) (e : Error) → checked_mul a b ≡ err e → NotFuel e
unfolding checked_mul
checked_mul-NotFuel a b e h p = ground arith

pub checked_mul-eq_mul : (a b n : ℕ) → checked_mul a b ≡ ok n → n ≡ a * b
unfolding checked_mul
checked_mul-eq_mul a b n h = ground arith

checked_add-NotFuel : (a b : ℕ) (e : Error) → checked_add a b ≡ err e → NotFuel e
unfolding checked_add
checked_add-NotFuel a b e h p = ground arith

checked_add-eq_add : (a b n : ℕ) → checked_add a b ≡ ok n → n ≡ a + b
unfolding checked_add
checked_add-eq_add a b n h = ground arith

decoded_byte_count-NotFuel :
    (request : ScalarPayloadRequest) (e : Error) → decoded_byte_count request ≡ err e → NotFuel e
unfolding decoded_byte_count
decoded_byte_count-NotFuel request e h p = ground arith

decoded_byte_count-eq_mul :
    (t : ScalarType) (count n : ℕ)
    → decoded_byte_count (request_of t count) ≡ ok n
    → n ≡ count * scalar_byte_size t
unfolding decoded_byte_count
decoded_byte_count-eq_mul t count n h = ground arith

-- A segment that has the bytes which were counted, and that a stream can reach.
pub record IsCounted (byte_count : Result Error ℕ) (segment : PayloadSegmentSpec) : Type 0 where
  pub counted : byte_count ≡ ok segment.byte_count
  pub reachable : segment.start_offset + segment.byte_count ≤ streamoff_max

module _ (c : Bytes) (k : ℕ) where
  pub binary_segment-Keeps :
      (byte_count : Result Error ℕ)
      → ((e : Error) → byte_count ≡ err e → NotFuel e)
      → Scans c k (IsCounted byte_count) (binary_segment byte_count)
  unfolding binary_segment
  binary_segment-Keeps byte_count not_fuel =
      Keeps-bind _ _ (consume_preamble-Keeps c k) (λ offset from.
        Keeps-bind _ _ (Keeps-lift byte_count (λ n e. e) not_fuel) (λ count is_count.
          Keeps-bind _ _
            (Keeps-lift _ (checked_add-eq_add offset count) (checked_add-NotFuel offset count))
            (λ end is_end.
              Keeps-then _ _ (seek_absolute-Keeps c k end (omega (arith, from, is_end))) (λ _ le.
                Keeps-pure _
                  (record { counted = is_count; reachable = omega (arith, le, is_end) })))))

  pub ascii_segment-Keeps : (value_count : ℕ) → Scans c k Any (ascii_segment value_count)
  unfolding ascii_segment
  ascii_segment-Keeps value_count = Keeps-bind _ _ (current_offset-Keeps c k) (λ offset _.
      Keeps-then _ _ (Keeps-repeat value_count next_token (next_token-Keeps c k)) (λ _ _.
        Keeps-bind _ _ (current_offset-Keeps c k) (λ end _.
          Keeps-then _ _ (Keeps-ensure _ ascii_range (λ p. cc)) (λ _ _. Keeps-pure _ tt))))

  IsCounted-IsRange :
      (t : ScalarType) (count : ℕ) (segment : PayloadSegmentSpec)
      → IsCounted (decoded_byte_count (request_of t count)) segment
      → IsRange true count t segment
  IsCounted-IsRange t count segment h =
      (decoded_byte_count-eq_mul t count segment.byte_count h.counted, h.reachable)

  segment-Keeps :
      (binary : Bool) (t : ScalarType) (count : ℕ)
      → Scans c k (IsRange binary count t) (
          if binary
          then binary_segment (decoded_byte_count (request_of t count))
          else ascii_segment count)
  segment-Keeps true t count =
      weaken (IsCounted-IsRange t count)
        (binary_segment-Keeps _ (decoded_byte_count-NotFuel (request_of t count)))
  segment-Keeps false t count = weaken (λ _ _. tt) (ascii_segment-Keeps count)

  bit_bytes-Keeps :
      (binary : Bool) (value_count : ℕ)
      → Scans c k Any (
          if binary
          then consume_preamble >>= (λ offset.
            lift (checked_add offset ((value_count + 7) % 2 ^ 64 / 8))
            >>= (λ end. seek_absolute end))
          else repeat value_count next_token)
  bit_bytes-Keeps true value_count = Keeps-bind _ _ (consume_preamble-Keeps c k) (λ offset from.
      Keeps-bind _ _ (Keeps-lift _ (checked_add-eq_add offset _) (checked_add-NotFuel offset _))
        (λ end is_end.
          weaken (λ _ _. tt) (seek_absolute-Keeps c k end (omega (arith, from, is_end)))))
  bit_bytes-Keeps false value_count = Keeps-repeat value_count next_token (next_token-Keeps c k)

  strings-Keeps :
      (binary : Bool) (value_count : ℕ)
      → Scans c k Any (
          if binary
          then consume_preamble >> repeat value_count skip_binary_string
          else repeat value_count (act get_line))
  strings-Keeps true value_count =
      Keeps-then _ _ (consume_preamble-Keeps c k)
        (λ _ _. Keeps-repeat value_count skip_binary_string (skip_binary_string-Keeps c k))
  strings-Keeps false value_count = Keeps-repeat value_count (act get_line) (get_line-Keeps c k)

  skip_unsupported-Keeps :
      (binary : Bool) (token : Bytes) (value_count : ℕ)
      → Scans c k Any (skip_unsupported binary token value_count)
  unfolding skip_unsupported
  skip_unsupported-Keeps binary token value_count =
      Keeps-if (is_token (to_lower_token token) "bit") _ _
        (λ _. Keeps-then _ _ (bit_bytes-Keeps binary value_count) (λ _ _. skip_metadata-Keeps c k))
        (λ _.
          Keeps-if
            (is_token (to_lower_token token) "string"
              || is_token (to_lower_token token) "utf8_string")
            _ _
            (λ _.
              Keeps-then _ _ (strings-Keeps binary value_count) (λ _ _. skip_metadata-Keeps c k))
            (λ _. Keeps-throw cannot_skip (λ p. cc)))

-- A payload that is supported holds the values that were asked for.
abbrev SoundIf : Bool → Type 0 → Type 0
SoundIf true sound = sound
SoundIf false sound = Unit

abbrev pub IsSoundParsed : Bool → ℕ → ParsedScalarPayload → Type 0
IsSoundParsed binary value_count parsed =
    SoundIf parsed.supported (IsSoundPayload binary value_count parsed.scalar_type parsed.payload)

module _ (c : Bytes) (k : ℕ) where
  pub parse_payload-Keeps :
      (binary : Bool) (token : Bytes) (tuple_count : ℕ) (component_count : ℤ)
      → Scans c k
          (IsSoundParsed binary (tuple_count * pos_part component_count))
          (parse_payload binary token tuple_count component_count)
  unfolding parse_payload
  parse_payload-Keeps binary token tuple_count component_count =
      Keeps-bind _ _
        (Keeps-lift _ (checked_mul-eq_mul tuple_count (pos_part component_count))
          (checked_mul-NotFuel tuple_count (pos_part component_count)))
        (λ value_count is_count.
          Keeps-if (not (normalize_legacy_token token).supported) _ _
            (λ _.
              Keeps-then _ _ (skip_unsupported-Keeps c k binary token value_count)
                (λ _ _. Keeps-pure _ tt))
            (λ _. Keeps-then _ _ (Keeps-ensure _ platform_width (λ p. cc)) (λ _ _.
              Keeps-bind _ _ (segment-Keeps c k binary _ value_count) (λ segment range.
                Keeps-then _ _ (skip_metadata-Keeps c k) (λ _ _. Keeps-pure _ (
                  subst
                    (λ n. IsSoundPayload binary n (normalize_legacy_token token).scalar_type (
                      payload_of binary (segment ∷ [])
                        (request_of (normalize_legacy_token token).scalar_type value_count)))
                    is_count
                    (record {
                      segment = segment;
                      one_segment = refl;
                      storage = refl;
                      request = refl;
                      range = range;
                    })))))))
