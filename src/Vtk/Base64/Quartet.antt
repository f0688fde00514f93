-- ===== src/Vtk/Base64/Quartet.antt =====
-- Padding in a quartet.
use cae_openusd_plugins.Prelude.{
  ℕ, suc, ◌≤◌, ◌≡◌, inl, inr, sym, ap, ◌∙◌, Bool, true, false, not, ◌||◌, Bool-cases, some, Bytes,
  [], ◌∷◌, length, ltb, ◌==◌, arith,
}
use cae_openusd_plugins.Prelude.Chars.{is_space}
use cae_openusd_plugins.Prelude.Result.{
  ok, require, bind-eq-ok, require-bind-eq-ok, guard-bind-eq-ok, ok-bind, ok-injective,
}
use cae_openusd_plugins.Vtk.Base64.{base64_value, quartet_values, join_values, decode_quartet}

-- What a successful round has read: a padding character, or one with a value.
data Round (allow : Bool) (i p c : ℕ) (rest : Bytes) (r : Bytes × ℕ) : Type 0 where
  pad :
      (later : Bytes × ℕ)
      → (c == b'=') ≡ true
      → (not allow || ltb i 2) ≡ false
      → quartet_values allow (suc i) (suc p) rest ≡ ok later
      → r ≡ (0 ∷ later.0, later.1)
      → Round allow i p c rest r
  plain :
      (value : ℕ) (later : Bytes × ℕ)
      → (c == b'=') ≡ false
      → not (p == 0) ≡ false
      → is_space c ≡ false
      → base64_value c ≡ some value
      → quartet_values allow (suc i) p rest ≡ ok later
      → r ≡ (value ∷ later.0, later.1)
      → Round allow i p c rest r

Round-of_success :
    (allow : Bool) (i p c : ℕ) (rest : Bytes) (r : Bytes × ℕ)
    → quartet_values allow i p (c ∷ rest) ≡ ok r
    → Round allow i p c rest r
unfolding quartet_values
Round-of_success allow i p c rest r h = elim (Bool-cases (c == b'=')) [
  | inl e ↦ elim (Bool-cases (not allow || ltb i 2)) [
    | inl bad ↦ cc (rw (e, bad, quartet_values) at h)
    | inr fine ↦
        let (later, found, same) = bind-eq-ok _ _ (rw (e, fine) at h) in
        pad later e fine found (sym (ok-injective same))
  ]
  | inr e ↦ elim (Bool-cases (not (p == 0))) [
    | inl bad ↦ cc (rw (e, bad, quartet_values) at h)
    | inr first ↦ elim (Bool-cases (is_space c)) [
      | inl bad ↦ cc (rw (e, first, bad, quartet_values) at h)
      | inr letter ↦
          let (value, v, h1) = require-bind-eq-ok _ _ _ (rw (e, first, letter) at h) in
          let (later, found, same) = bind-eq-ok _ _ h1 in
          plain value later e first letter v found (sym (ok-injective same))
    ]
  ]
]

quartet_values-padding :
    (allow : Bool) (i p : ℕ) (xs : Bytes) (r : Bytes × ℕ)
    → quartet_values allow i p xs ≡ ok r
    → p ≤ r.1
unfolding quartet_values
quartet_values-padding allow i p [] r h =
    let same : ◌≡◌ {A = Bytes × ℕ} ([], p) r = ok-injective h in
    omega (arith, ap (λ (x : Bytes × ℕ). x.1) same)
quartet_values-padding allow i p (c ∷ rest) r h = elim (Round-of_success allow i p c rest r h) [
  | pad later e fine found same ↦
      let below = quartet_values-padding allow (suc i) (suc p) rest later found in
      omega (arith, below, ap (λ (x : Bytes × ℕ). x.1) same)
  | plain value later e first letter v found same ↦
      let below = quartet_values-padding allow (suc i) p rest later found in
      omega (arith, below, ap (λ (x : Bytes × ℕ). x.1) same)
]

-- Where no padding is allowed none is counted.
quartet_values-no_padding :
    (i p : ℕ) (xs : Bytes) (r : Bytes × ℕ) → quartet_values false i p xs ≡ ok r → r.1 ≡ p
unfolding quartet_values
quartet_values-no_padding i p [] r h =
    let same : ◌≡◌ {A = Bytes × ℕ} ([], p) r = ok-injective h in
    omega (arith, ap (λ (x : Bytes × ℕ). x.1) same)
quartet_values-no_padding i p (c ∷ rest) r h = elim (Round-of_success false i p c rest r h) [
  | pad later e fine found same ↦ cc fine
  | plain value later e first letter v found same ↦
      ap (λ (x : Bytes × ℕ). x.1) same ∙ quartet_values-no_padding (suc i) p rest later found
]

-- What was read without padding is read where none is allowed.
quartet_values-unpadded :
    (i p : ℕ) (xs : Bytes) (r : Bytes × ℕ)
    → quartet_values true i p xs ≡ ok r
    → r.1 ≡ p
    → quartet_values false i p xs ≡ ok r
unfolding quartet_values require
quartet_values-unpadded i p [] r h n = h
quartet_values-unpadded i p (c ∷ rest) r h n = elim (Round-of_success true i p c rest r h) [
  | pad later e fine found same ↦
      let below = quartet_values-padding true (suc i) (suc p) rest later found in
      absurd (omega (arith, below, n, ap (λ (x : Bytes × ℕ). x.1) same))
  | plain value later e first letter v found same ↦
      let size : later.1 ≡ p = omega (arith, n, ap (λ (x : Bytes × ℕ). x.1) same) in
      let again = quartet_values-unpadded (suc i) p rest later found size in
      rw (e, first, letter, v, ok-bind, again, ok-bind) (ap ok (sym same))
]

module _ (xs : Bytes) (q : Bytes × ℕ) where
  -- A quartet that decodes where no padding is allowed gives three bytes.
  pub decode_quartet-whole : decode_quartet xs false ≡ ok q → q.1 ≡ 3
  unfolding decode_quartet
  decode_quartet-whole h =
      let (p, found, h1) = bind-eq-ok _ _ h in
      let (_, h2) = guard-bind-eq-ok _ _ _ h1 in
      let none_found = quartet_values-no_padding 0 0 xs p found in
      omega (arith, none_found, ap (λ (x : Bytes × ℕ). x.1) (ok-injective h2))

  pub decode_quartet-length :
      (allow : Bool) → decode_quartet xs allow ≡ ok q → (length q.0 ≡ 3) × (q.1 ≤ 3)
  unfolding decode_quartet join_values
  decode_quartet-length allow h =
      let (p, found, h1) = bind-eq-ok _ _ h in
      let (_, h2) = guard-bind-eq-ok _ _ _ h1 in
      (
        sym (ap (λ (x : Bytes × ℕ). length x.0) (ok-injective h2)),
        omega (arith, ap (λ (x : Bytes × ℕ). x.1) (ok-injective h2)),
      )

  -- A quartet that gives three bytes decodes where no padding is allowed.
  pub decode_quartet-unpadded :
      (allow : Bool) → decode_quartet xs allow ≡ ok q → q.1 ≡ 3 → decode_quartet xs false ≡ ok q
  unfolding decode_quartet
  decode_quartet-unpadded false h three = h
  decode_quartet-unpadded true h three =
      let (p, found, h1) = bind-eq-ok _ _ h in
      let (test, h2) = guard-bind-eq-ok _ _ _ h1 in
      let none_found : p.1 ≡ 0 =
        omega (arith, three, ap (λ (x : Bytes × ℕ). x.1) (ok-injective h2)) in
      rw (quartet_values-unpadded 0 0 xs p found none_found, ok-bind) h1
