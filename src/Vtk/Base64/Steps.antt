-- ===== src/Vtk/Base64/Steps.antt =====
-- One round of the decoding loop: when it succeeds, and what a success says.
use cae_openusd_plugins.Prelude.{
  ℕ, length, ◌<◌, ◌+◌, ◌-◌, ◌≤◌, ◌≡◌, inl, inr, refl, sym, ◌∙◌, Bool, true, false, not, ◌&&◌, ◌||◌,
  Bytes, [], ◌∷◌, ◌++◌, take, ltb, ◌==◌, Bool-cases, arith,
}
use cae_openusd_plugins.Prelude.Result.{
  ok, ◌>>=◌, ◌>>◌, guard, ok-bind, true-bind, bind-eq-ok, guard-bind-eq-ok, ok-injective,
}
use cae_openusd_plugins.Vtk.Error.{exceeds_request, padding_before_final}
use cae_openusd_plugins.Vtk.Base64.{is_empty, decode_quartet, decode_loop}

or_true : (b : Bool) → (b || true) ≡ true
or_true true = refl
or_true false = refl

module _ (expected : ℕ) (allow : Bool) (produced : ℕ) (a b c d : ℕ) (rest : Bytes) where
  padded_final : Bool
  padded_final = allow && is_empty rest

  too_many : ℕ → Bool
  too_many count = ltb expected produced || ltb (expected - produced) count

  decode_loop-quartet : decode_loop expected allow produced (a ∷ b ∷ c ∷ d ∷ rest) ≡ (
      guard (padded_final || not (too_many 3)) exceeds_request
      >> (decode_quartet (a ∷ b ∷ c ∷ d ∷ []) padded_final >>= λ q.
          guard (not padded_final || not (too_many q.1)) exceeds_request
          >> (guard (q.1 == 3 || is_empty rest) padding_before_final
              >> (decode_loop expected allow (produced + q.1) rest >>= λ stored.
                  ok (take q.1 q.0 ++ stored)))))
  unfolding decode_loop padded_final too_many
  decode_loop-quartet = refl

  room_test : (count : ℕ) → produced + count ≤ expected → too_many count ≡ false
  unfolding too_many
  room_test count h = ground arith

  room_known : (count : ℕ) → too_many count ≡ false → produced + count ≤ expected
  unfolding too_many
  room_known count h = ground arith

  first_test :
      (count : ℕ)
      → produced + count ≤ expected
      → (padded_final ≡ false → count ≡ 3)
      → (padded_final || not (too_many 3)) ≡ true
  first_test count room whole = elim (Bool-cases padded_final) [
    | inl e ↦ rw e refl
    | inr e ↦ let three = whole e in rw (e, room_test 3 (omega (arith, room, three))) refl
  ]

  second_test :
      (count : ℕ) → produced + count ≤ expected → (not padded_final || not (too_many count)) ≡ true
  second_test count room = rw (room_test count room) (or_true (not padded_final))

  third_test :
      (count : ℕ) → (is_empty rest ≡ false → count ≡ 3) → (count == 3 || is_empty rest) ≡ true
  third_test count last = elim (Bool-cases (is_empty rest)) [
    | inl e ↦ rw e (or_true (count == 3))
    | inr e ↦ rw (last e) refl
  ]

  -- A quartet that decodes, in the room that is left, adds its bytes.
  pub decode_loop_step :
      (bytes stored : Bytes) (count : ℕ)
      → decode_quartet (a ∷ b ∷ c ∷ d ∷ []) (allow && is_empty rest) ≡ ok (bytes, count)
      → produced + count ≤ expected
      → ((allow && is_empty rest) ≡ false → count ≡ 3)
      → ((is_empty rest) ≡ false → count ≡ 3)
      → decode_loop expected allow (produced + count) rest ≡ ok stored
      → decode_loop expected allow produced (a ∷ b ∷ c ∷ d ∷ rest) ≡ ok (take count bytes ++ stored)
  unfolding padded_final
  decode_loop_step bytes stored count q room whole last step =
      decode_loop-quartet
      ∙ rw (
        first_test count room whole,
        true-bind,
        q,
        ok-bind,
        second_test count room,
        true-bind,
        third_test count last,
        true-bind,
        step,
        ok-bind,
      )

  -- What is stored by a successful round.
  pub decode_loop_inv :
      {stored : Bytes}
      → decode_loop expected allow produced (a ∷ b ∷ c ∷ d ∷ rest) ≡ ok stored
      → (q : Bytes × ℕ) × (later : Bytes) × (decode_quartet
            (a ∷ b ∷ c ∷ d ∷ [])
            (allow && is_empty rest)
          ≡ ok q)
        × ((q.1 == 3 || is_empty rest) ≡ true)
        × (decode_loop expected allow (produced + q.1) rest ≡ ok later)
        × (stored ≡ take q.1 q.0 ++ later)
  unfolding padded_final
  decode_loop_inv h =
      let (_, h1) = guard-bind-eq-ok _ _ _ (sym decode_loop-quartet ∙ h) in
      let (q, decoded, h2) = bind-eq-ok _ _ h1 in
      let (_, h3) = guard-bind-eq-ok _ _ _ h2 in
      let (full, h4) = guard-bind-eq-ok _ _ _ h3 in
      let (later, step, h5) = bind-eq-ok _ _ h4 in
      (q, later, decoded, full, step, sym (ok-injective h5))

-- The loop ends with nothing left to store and the request filled.
pub decode_loop-nil :
    (expected : ℕ) (allow : Bool) (produced : ℕ)
    → produced ≡ expected
    → decode_loop expected allow produced [] ≡ ok []
unfolding decode_loop
decode_loop-nil expected allow produced h = ground (arith, h)

pub decode_loop-nil_inv :
    (expected : ℕ) (allow : Bool) (produced : ℕ) {stored : Bytes}
    → decode_loop expected allow produced [] ≡ ok stored
    → (produced ≡ expected) × (stored ≡ [])
unfolding decode_loop
decode_loop-nil_inv expected allow produced h = ground (arith, h)

-- Less than a quartet gives nothing.
pub decode_loop-short :
    (expected : ℕ) (allow : Bool) (produced : ℕ) (text stored : Bytes)
    → length text < 4
    → decode_loop expected allow produced text ≡ ok stored
    → stored ≡ []
unfolding decode_loop
decode_loop-short expected allow produced [] stored short h = ground (arith, h)
decode_loop-short expected allow produced (a ∷ []) stored short h = ground (arith, h)
decode_loop-short expected allow produced (a ∷ b ∷ []) stored short h = ground (arith, h)
decode_loop-short expected allow produced (a ∷ b ∷ c ∷ []) stored short h = ground (arith, h)
decode_loop-short expected allow produced (a ∷ b ∷ c ∷ d ∷ rest) stored short h =
    absurd (omega (arith, short))
