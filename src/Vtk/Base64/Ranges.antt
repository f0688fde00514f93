-- ===== src/Vtk/Base64/Ranges.antt =====
-- The decoding of some quartets of a text alone.
use cae_openusd_plugins.Prelude.{
  ℕ, zero, suc, ◌+◌, ◌-◌, ◌*◌, ◌%◌, ◌≤◌, ◌≡◌, refl, sym, ap, ◌∙◌, true, false, Bytes, [], ◌∷◌, ◌++◌,
  length, take, drop, length-append, length-take, length-drop, append-nil, take-append, ==_iff,
  arith,
}
use cae_openusd_plugins.Prelude.Result.{ok, guard-bind-eq-ok, true-bind}
use cae_openusd_plugins.Vtk.Workers.Order.{slice}
use cae_openusd_plugins.Vtk.Base64.{decode_quartet, decode_loop, decode_into}
use cae_openusd_plugins.Vtk.Base64.Quartet.{
  decode_quartet-whole, decode_quartet-length, decode_quartet-unpadded,
}
use cae_openusd_plugins.Vtk.Base64.Steps.{
  decode_loop_step, decode_loop_inv, decode_loop-short, decode_loop-nil, decode_loop-nil_inv,
}

take_over : (n m : ℕ) (xs ys : Bytes) → length xs ≡ n → take (n + m) (xs ++ ys) ≡ xs ++ take m ys
take_over n m [] ys h = let e : n + m ≡ m = omega (arith, h) in ap (λ k. take k ys) e
take_over n m (x ∷ xs) ys h =
    let e : n + m ≡ suc (length xs + m) = omega (arith, h) in
    ap (λ k. take k (x ∷ (xs ++ ys))) e ∙ ap (λ r. x ∷ r) (take_over (length xs) m xs ys refl)

drop_over : (n m : ℕ) (xs ys : Bytes) → length xs ≡ n → drop (n + m) (xs ++ ys) ≡ drop m ys
drop_over n m [] ys h = let e : n + m ≡ m = omega (arith, h) in ap (λ k. drop k ys) e
drop_over n m (x ∷ xs) ys h =
    let e : n + m ≡ suc (length xs + m) = omega (arith, h) in
    ap (λ k. drop k (x ∷ (xs ++ ys))) e ∙ drop_over (length xs) m xs ys refl

take_all : (n : ℕ) (xs : Bytes) → length xs ≡ n → take n xs ≡ xs
take_all n xs h = sym (ap (take n) (append-nil xs)) ∙ take-append n xs [] h

module _ (expected : ℕ) where
  -- A round that is followed by three bytes or more, itself included, has a quartet without padding.
  WholeRound : ℕ → ℕ → ℕ → ℕ → ℕ → Bytes → Bytes → Type 0
  WholeRound produced a b c d rest stored =
      (q : Bytes × ℕ) × (later : Bytes) × (decode_quartet (a ∷ b ∷ c ∷ d ∷ []) false ≡ ok q)
      × (q.1 ≡ 3)
      × (length q.0 ≡ 3)
      × (decode_loop expected true (produced + q.1) rest ≡ ok later)
      × (stored ≡ q.0 ++ later)

  whole_round :
      (produced a b c d : ℕ) (rest stored : Bytes)
      → decode_loop expected true produced (a ∷ b ∷ c ∷ d ∷ rest) ≡ ok stored
      → 3 ≤ length stored
      → WholeRound produced a b c d rest stored
  unfolding WholeRound
  whole_round produced a b c d [] stored h long =
      let (q, later, decoded, full, step, same) =
        decode_loop_inv expected true produced a b c d [] h in
      let (size, most) = decode_quartet-length (a ∷ b ∷ c ∷ d ∷ []) q true decoded in
      let (_, none_later) = decode_loop-nil_inv expected true (produced + q.1) step in
      let three : q.1 ≡ 3 = omega (
        arith,
        long,
        ap length same,
        length-append (take q.1 q.0) later,
        ap length none_later,
        length-take q.1 q.0,
        size,
        most,
      ) in
      (
        q,
        later,
        decode_quartet-unpadded (a ∷ b ∷ c ∷ d ∷ []) q true decoded three,
        three,
        size,
        step,
        same ∙ ap (λ t. t ++ later) (take_all q.1 q.0 (size ∙ sym three)),
      )
  whole_round produced a b c d (x ∷ rest) stored h long =
      let (q, later, decoded, full, step, same) =
        decode_loop_inv expected true produced a b c d (x ∷ rest) h in
      let (size, most) = decode_quartet-length (a ∷ b ∷ c ∷ d ∷ []) q false decoded in
      let three = decode_quartet-whole (a ∷ b ∷ c ∷ d ∷ []) q decoded in
      (
        q,
        later,
        decoded,
        three,
        size,
        step,
        same ∙ ap (λ t. t ++ later) (take_all q.1 q.0 (size ∙ sym three)),
      )

  decode_loop-drop :
      (k produced later : ℕ) (text stored : Bytes)
      → decode_loop expected true produced text ≡ ok stored
      → 3 * k ≤ length stored
      → later ≡ produced + 3 * k
      → decode_loop expected true later (drop (4 * k) text) ≡ ok (drop (3 * k) stored)
  unfolding WholeRound
  decode_loop-drop zero produced later text stored h long at =
      let e : later ≡ produced = omega (arith, at) in
      ap (λ p. decode_loop expected true p text) e ∙ h
  decode_loop-drop (suc k) produced later (a ∷ b ∷ c ∷ d ∷ rest) stored h long at =
      let (q, behind, decoded, three, size, step, same) =
        whole_round produced a b c d rest stored h (omega (arith, long)) in
      let e : 4 * suc k ≡ suc (suc (suc (suc (4 * k)))) = omega arith in
      let e' : 3 * suc k ≡ 3 + 3 * k = omega arith in
      let room : 3 * k ≤ length behind =
        omega (arith, long, ap length same, length-append q.0 behind, size) in
      ap (λ n. decode_loop expected true later (drop n (a ∷ b ∷ c ∷ d ∷ rest))) e
      ∙ decode_loop-drop k (produced + q.1) later rest behind step room (omega (arith, at, three))
      ∙ ap ok (
          sym (
            ap (λ n. drop n stored) e'
            ∙ ap (drop (3 + 3 * k)) same
            ∙ drop_over 3 (3 * k) q.0 behind size))
  decode_loop-drop (suc k) produced later text stored h long at = absurd (
      omega (
        arith,
        long,
        ap length (decode_loop-short expected true produced text stored (omega arith) h),
      ))

  decode_loop-take :
      (k produced fresh request : ℕ) (text stored : Bytes)
      → decode_loop expected true produced text ≡ ok stored
      → 3 * k ≤ length stored
      → request ≡ fresh + 3 * k
      → decode_loop request false fresh (take (4 * k) text) ≡ ok (take (3 * k) stored)
  unfolding WholeRound
  decode_loop-take zero produced fresh request text stored h long at =
      decode_loop-nil request false fresh (omega (arith, at))
  decode_loop-take (suc k) produced fresh request (a ∷ b ∷ c ∷ d ∷ rest) stored h long at =
      let (q, behind, decoded, three, size, step, same) =
        whole_round produced a b c d rest stored h (omega (arith, long)) in
      let e : 4 * suc k ≡ suc (suc (suc (suc (4 * k)))) = omega arith in
      let e' : 3 * suc k ≡ 3 + 3 * k = omega arith in
      let room : 3 * k ≤ length behind =
        omega (arith, long, ap length same, length-append q.0 behind, size) in
      let next =
        decode_loop-take k (produced + q.1) (fresh + q.1) request rest behind step room
          (omega (arith, at, three)) in
      ap (λ n. decode_loop request false fresh (take n (a ∷ b ∷ c ∷ d ∷ rest))) e
      ∙ decode_loop_step request false fresh a b c d (take (4 * k) rest) q.0 (take (3 * k) behind)
          q.1 decoded (omega (arith, at, three)) (λ _. three) (λ _. three) next
      ∙ ap (λ t. ok (t ++ take (3 * k) behind)) (take_all q.1 q.0 (size ∙ sym three))
      ∙ ap ok (
          sym (
            ap (λ n. take n stored) e'
            ∙ ap (take (3 + 3 * k)) same
            ∙ take_over 3 (3 * k) q.0 behind size))
  decode_loop-take (suc k) produced fresh request text stored h long at = absurd (
      omega (
        arith,
        long,
        ap length (decode_loop-short expected true produced text stored (omega arith) h),
      ))

-- The quartets from i to j of a base64 text, decoded alone and without padding, give the bytes
-- from 3i to 3j of what the whole text decodes to, if it has that many.
pub decode_into-slice :
    (text bytes : Bytes) (count i j : ℕ)
    → decode_into text count true ≡ ok bytes
    → i ≤ j
    → 3 * j ≤ length bytes
    → decode_into (slice (4 * i) (4 * j) text) (3 * j - 3 * i) false
      ≡ ok (slice (3 * i) (3 * j) bytes)
unfolding decode_into
decode_into-slice text bytes count i j h ordered long =
    let (test, whole) = guard-bind-eq-ok _ _ _ h in
    let aligned : length text % 4 ≡ 0 = (==_iff (length text % 4) 0).0 test in
    let part = slice (4 * i) (4 * j) text in
    let part_aligned : length part % 4 ≡ 0 =
      omega (
        arith,
        aligned,
        length-take (4 * j - 4 * i) (drop (4 * i) text),
        length-drop (4 * i) text,
      ) in
    let from =
      decode_loop-drop count i 0 (0 + 3 * i) text bytes whole (omega (arith, ordered, long)) refl in
    let rest = drop (3 * i) bytes in
    let k = j - i in
    let room : 3 * k ≤ length rest = omega (arith, ordered, long, length-drop (3 * i) bytes) in
    let request : 3 * j - 3 * i ≡ 0 + 3 * k = omega (arith, ordered) in
    let quartets : 4 * j - 4 * i ≡ 4 * k = omega (arith, ordered) in
    let decoded =
      decode_loop-take count k (0 + 3 * i) 0 (3 * j - 3 * i) (drop (4 * i) text) rest from room
        request in
    let (_, passes) = ==_iff (length part % 4) 0 in
    rw (passes part_aligned, true-bind)
      (ap (λ n. decode_loop (3 * j - 3 * i) false 0 (take n (drop (4 * i) text))) quartets
        ∙ decoded
        ∙ ap (λ n. ok (take n rest)) (omega (arith, request)))
