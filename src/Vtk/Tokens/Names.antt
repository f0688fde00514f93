-- ===== src/Vtk/Tokens/Names.antt =====
-- The tokens and shapes that are supported.
use cae_openusd_plugins.Prelude.{
  ◌≡◌, ◌↔◌, ap, ◌∙◌, inl, inr, Bool, true, false, Bool-cases, Bytes, same, same_iff, if◌then◌else◌,
  arith,
}
use mathlib.Core.Bool.{false≢true}
use cae_openusd_plugins.Prelude.Chars.{codes}
use cae_openusd_plugins.Prelude.Int.{ℤ}
use cae_openusd_plugins.Prelude.Result.{err}
use cae_openusd_plugins.Vtk.Error.{bad_shape}
use cae_openusd_plugins.Vtk.Types.{
  ScalarType, int8, uint8, int16, uint16, int32, uint32, int64, uint64, float32, float64,
}
use cae_openusd_plugins.Vtk.Tokens.{
  ScalarTypeNormalization, supported_as, unsupported_for, outside_scope, unknown_xml_token,
  to_lower_token, normalize_xml_token, supports_array_shape, evaluation_kind_for,
}

-- The name of a scalar type in XML files, in lower case.
abbrev pub xml_name : ScalarType → Bytes
xml_name int8 = codes "int8"
xml_name uint8 = codes "uint8"
xml_name int16 = codes "int16"
xml_name uint16 = codes "uint16"
xml_name int32 = codes "int32"
xml_name uint32 = codes "uint32"
xml_name int64 = codes "int64"
xml_name uint64 = codes "uint64"
xml_name float32 = codes "float32"
xml_name float64 = codes "float64"

normalize_xml_token-xml_name :
    (token : Bytes) (t : ScalarType)
    → to_lower_token token ≡ xml_name t
    → normalize_xml_token token ≡ supported_as token t
unfolding normalize_xml_token same
normalize_xml_token-xml_name token int8 h = rw h
normalize_xml_token-xml_name token uint8 h = rw h
normalize_xml_token-xml_name token int16 h = rw h
normalize_xml_token-xml_name token uint16 h = rw h
normalize_xml_token-xml_name token int32 h = rw h
normalize_xml_token-xml_name token uint32 h = rw h
normalize_xml_token-xml_name token int64 h = rw h
normalize_xml_token-xml_name token uint64 h = rw h
normalize_xml_token-xml_name token float32 h = rw h
normalize_xml_token-xml_name token float64 h = rw h

module _ (token : Bytes) where
  -- A supported token is the name of its type.
  IsNamed : ScalarTypeNormalization → Type 0
  IsNamed n = n.supported ≡ true → to_lower_token token ≡ xml_name n.scalar_type

  chain_step :
      (t : ScalarType) (rest : ScalarTypeNormalization)
      → IsNamed rest
      → IsNamed (if same (to_lower_token token) (xml_name t) then supported_as token t else rest)
  unfolding IsNamed
  chain_step t rest later h = elim (Bool-cases (same (to_lower_token token) (xml_name t))) [
    | inl e ↦ rw e ((same_iff (to_lower_token token) (xml_name t)).0 e)
    | inr e ↦ rw e (later (rw e at h))
  ]

  not_supported :
      (test : Bool)
      → IsNamed (
          if test
          then unsupported_for token outside_scope
          else unsupported_for token unknown_xml_token)
  unfolding IsNamed
  not_supported true h = absurd (false≢true h)
  not_supported false h = absurd (false≢true h)

  normalize_xml_token_inv : IsNamed (normalize_xml_token token)
  unfolding normalize_xml_token
  normalize_xml_token_inv = chain_step int8 _ (
      chain_step uint8 _ (
        chain_step int16 _ (
          chain_step uint16 _ (
            chain_step int32 _ (
              chain_step uint32 _ (
                chain_step int64 _ (
                  chain_step uint64 _
                    (chain_step float32 _ (chain_step float64 _ (not_supported _))))))))))

-- A token of an XML file is supported as a scalar type exactly if it spells the type's name, in
-- letters of either case.
pub normalize_xml_token_iff :
    (token : Bytes) (t : ScalarType)
    → (normalize_xml_token token ≡ supported_as token t) ↔ (to_lower_token token ≡ xml_name t)
unfolding IsNamed
normalize_xml_token_iff token t = (
  (λ e.
      normalize_xml_token_inv token (ap (λ (n : ScalarTypeNormalization). n.supported) e)
      ∙ ap (λ (n : ScalarTypeNormalization). xml_name n.scalar_type) e),
  normalize_xml_token-xml_name token t,
)

-- An array shape is refused with the exception exactly if it is not a supported one.
pub evaluation_kind_for_iff :
    (t : ScalarType) (n : ℤ)
    → (evaluation_kind_for t n ≡ err bad_shape) ↔ (supports_array_shape t n ≡ false)
unfolding evaluation_kind_for supports_array_shape
evaluation_kind_for_iff t n = ground arith
