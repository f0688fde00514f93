-- ===== src/Vtk/Types/Swap.antt =====
-- The byte swap of Types.cpp, and the numbers that the groups of bytes stand for.
use mathlib.Core.List.{reverse-reverse}
use cae_openusd_plugins.Prelude.{
  ℕ, zero, suc, ◌+◌, ◌*◌, ◌/◌, ◌%◌, ◌≤◌, ◌<◌, ◌≡◌, inl, inr, refl, sym, ap, ◌∙◌, Bool, true, false,
  Bool-cases, leb, leb→le, ◌==◌, ==_iff, [], ◌∷◌, ◌++◌, Bytes, reverse, length, length-append,
  length-take, length-drop, take-append, drop-append, take, drop, drop-drop, arith,
}
use cae_openusd_plugins.Prelude.Result.{ok}
use cae_openusd_plugins.Codec.{length-reverse, value}
use cae_openusd_plugins.Vtk.Types.{
  ScalarType, ByteOrder, scalar_byte_size, reverse_groups, byte_swap, little_endian, big_endian,
  matches_host, int8, uint8, int16, uint16, int32, uint32, int64, uint64, float32, float64,
}

length_group :
    (size count : ℕ) (bytes : Bytes)
    → suc count * size ≤ length bytes
    → length (reverse (take size bytes)) ≡ size
length_group size count bytes h =
    length-reverse (take size bytes) ∙ omega (arith, length-take size bytes, h)

length-reverse_groups :
    (count size : ℕ) (bytes : Bytes)
    → count * size ≤ length bytes
    → length (reverse_groups count size bytes) ≡ length bytes
unfolding reverse_groups
length-reverse_groups zero size bytes h = refl
length-reverse_groups (suc count) size bytes h =
    let rest = reverse_groups count size (drop size bytes) in
    omega (
      arith,
      length-append (reverse (take size bytes)) rest,
      length_group size count bytes h,
      length-reverse_groups count size (drop size bytes) (omega (arith, length-drop size bytes, h)),
      length-drop size bytes,
      h,
    )

-- The bytes of one value.
abbrev pub group : ℕ → ℕ → Bytes → Bytes
group size i bytes = take size (drop (i * size) bytes)

-- The number that bytes in an order stand for.
abbrev pub number : ByteOrder → Bytes → ℕ
number little_endian bytes = value bytes
number big_endian bytes = value (reverse bytes)

abbrev pub host_order : Bool → ByteOrder
host_order true = little_endian
host_order false = big_endian

drop-suc_group :
    (size i : ℕ) (bytes : Bytes) → drop (suc i * size) bytes ≡ drop (i * size) (drop size bytes)
drop-suc_group size i bytes =
    let e : suc i * size ≡ size + i * size = grind arith in
    ap (λ n. drop n bytes) e ∙ sym (drop-drop size (i * size) bytes)

drop-zero_group : (size : ℕ) (bytes : Bytes) → group size 0 bytes ≡ take size bytes
drop-zero_group size bytes =
    let e : 0 * size ≡ 0 = omega arith in ap (λ n. take size (drop n bytes)) e

group-reverse_groups :
    (count size i : ℕ) (bytes : Bytes)
    → count * size ≤ length bytes
    → i < count
    → group size i (reverse_groups count size bytes) ≡ reverse (group size i bytes)
unfolding reverse_groups
group-reverse_groups zero size i bytes h k = absurd (omega arith)
group-reverse_groups (suc count) size zero bytes h k =
    let first = reverse (take size bytes) in
    let rest = reverse_groups count size (drop size bytes) in
    drop-zero_group size (first ++ rest)
    ∙ take-append size first rest (length_group size count bytes h)
    ∙ ap reverse (sym (drop-zero_group size bytes))
group-reverse_groups (suc count) size (suc i) bytes h k =
    let first = reverse (take size bytes) in
    let rest = reverse_groups count size (drop size bytes) in
    let later =
      group-reverse_groups count size i (drop size bytes) (omega (arith, length-drop size bytes, h))
        (omega (arith, k)) in
    ap (take size) (
      drop-suc_group size i (first ++ rest)
      ∙ ap (drop (i * size)) (drop-append size first rest (length_group size count bytes h)))
    ∙ later
    ∙ ap (λ b. reverse (take size b)) (sym (drop-suc_group size i bytes))

-- A single byte is the same number in every order.
number-single :
    (a b : ByteOrder) (bytes : Bytes) → length bytes ≤ 1 → number a bytes ≡ number b bytes
number-single a b bytes h = in_order a ∙ sym (in_order b)
  where
    reverse_single : (bytes : Bytes) → length bytes ≤ 1 → reverse bytes ≡ bytes
    reverse_single [] h = refl
    reverse_single (x ∷ []) h = refl
    reverse_single (x ∷ y ∷ rest) h = absurd (omega (arith, h))

    in_order : (a : ByteOrder) → number a bytes ≡ value bytes
    in_order little_endian = refl
    in_order big_endian = ap value (reverse_single bytes h)

-- A byte order is that of the host, or the other one.
number-other :
    (host_little : Bool) (order : ByteOrder) (bytes : Bytes)
    → matches_host host_little order ≡ false
    → number (host_order host_little) (reverse bytes) ≡ number order bytes
number-other true little_endian bytes e = cc
number-other true big_endian bytes e = refl
number-other false little_endian bytes e = ap value (reverse-reverse bytes)
number-other false big_endian bytes e = cc

number-own :
    (host_little : Bool) (order : ByteOrder) (bytes : Bytes)
    → matches_host host_little order ≡ true
    → number (host_order host_little) bytes ≡ number order bytes
number-own true little_endian bytes e = refl
number-own true big_endian bytes e = cc
number-own false little_endian bytes e = cc
number-own false big_endian bytes e = refl

-- A buffer of whole values.
module _ (n count : ℕ) where
  whole_values :
      (t : ScalarType)
      → n ≡ count * scalar_byte_size t
      → (n % scalar_byte_size t ≡ 0) × (n / scalar_byte_size t ≡ count) × (n ≡ 0 → count ≡ 0)
  whole_values int8 h = (omega (arith, h), omega (arith, h), λ z. omega (arith, h, z))
  whole_values uint8 h = (omega (arith, h), omega (arith, h), λ z. omega (arith, h, z))
  whole_values int16 h = (omega (arith, h), omega (arith, h), λ z. omega (arith, h, z))
  whole_values uint16 h = (omega (arith, h), omega (arith, h), λ z. omega (arith, h, z))
  whole_values int32 h = (omega (arith, h), omega (arith, h), λ z. omega (arith, h, z))
  whole_values uint32 h = (omega (arith, h), omega (arith, h), λ z. omega (arith, h, z))
  whole_values int64 h = (omega (arith, h), omega (arith, h), λ z. omega (arith, h, z))
  whole_values uint64 h = (omega (arith, h), omega (arith, h), λ z. omega (arith, h, z))
  whole_values float32 h = (omega (arith, h), omega (arith, h), λ z. omega (arith, h, z))
  whole_values float64 h = (omega (arith, h), omega (arith, h), λ z. omega (arith, h, z))

module _ (host_little : Bool) (scalar_type : ScalarType) (order : ByteOrder) (bytes : Bytes)
    (count : ℕ) (whole : length bytes ≡ count * scalar_byte_size scalar_type) where
  abbrev size : ℕ
  size = scalar_byte_size scalar_type

  -- What the swap has to give.
  abbrev IsSwapped : Bytes → Type 0
  IsSwapped swapped =
      (length swapped ≡ length bytes)
      × ((i : ℕ)
          → i < count
          → number (host_order host_little) (group size i swapped)
            ≡ number order (group size i bytes))

  length-group : (i : ℕ) → length (group size i bytes) ≤ size
  length-group i = omega (arith, length-take size (drop (i * size) bytes))

  IsSwapped-single : size ≤ 1 → IsSwapped bytes
  IsSwapped-single h = (
    refl,
    λ i k.
        number-single (host_order host_little) order (group size i bytes)
          (omega (arith, h, length-group i)),
  )

  IsSwapped-own : matches_host host_little order ≡ true → IsSwapped bytes
  IsSwapped-own h = (refl, λ i k. number-own host_little order (group size i bytes) h)

  IsSwapped-other :
      matches_host host_little order ≡ false → IsSwapped (reverse_groups count size bytes)
  IsSwapped-other h = (
    length-reverse_groups count size bytes (omega (arith, whole)),
    λ i k.
        ap (number (host_order host_little))
          (group-reverse_groups count size i bytes (omega (arith, whole)) k)
        ∙ number-other host_little order (group size i bytes) h,
  )

  IsSwapped-empty : length bytes ≡ 0 → IsSwapped bytes
  IsSwapped-empty h =
      let no_values = (whole_values (length bytes) count scalar_type whole).2 h in
      (refl, λ i k. absurd (omega (arith, k, no_values)))

  -- The byte swap of a buffer of whole values succeeds and keeps the number of bytes, and each
  -- value is in the byte order of the host, afterwards, the number that it was in the given byte
  -- order before.
  pub byte_swap_lem :
      (swapped : Bytes) × (byte_swap host_little bytes scalar_type order ≡ ok swapped)
      × (length swapped ≡ length bytes)
      × ((i : ℕ)
          → i < count
          → number (host_order host_little) (group (scalar_byte_size scalar_type) i swapped)
            ≡ number order (group (scalar_byte_size scalar_type) i bytes))
  unfolding byte_swap
  byte_swap_lem = elim (Bool-cases (leb size 1)) [
    | inl e ↦
        let (same_length, same_numbers) = IsSwapped-single (leb→le size 1 e) in
        rw e (bytes, refl, same_length, same_numbers)
    | inr e ↦ elim (Bool-cases (length bytes == 0)) [
      | inl e' ↦
          let (same_length, same_numbers) = IsSwapped-empty ((==_iff (length bytes) 0).0 e') in
          rw (e, e') (bytes, refl, same_length, same_numbers)
      | inr e' ↦ elim (Bool-cases (matches_host host_little order)) [
        | inl m ↦
            let (same_length, same_numbers) = IsSwapped-own m in
            rw (e, e', m) (bytes, refl, same_length, same_numbers)
        | inr m ↦
            let (same_length, same_numbers) = IsSwapped-other m in
            let (rest, quotient, _) = whole_values (length bytes) count scalar_type whole in
            let divides = (==_iff (length bytes % size) 0).1 rest in
            rw (e, e', m, divides, quotient)
              (reverse_groups count size bytes, refl, same_length, same_numbers)
      ]
    ]
  ]
