-- ===== src/Codec.antt =====
-- Reading an unsigned number from its bytes: the loops of ReadUInt64 in
-- source/file_formats/eclipse/src/EclipseBinaryFile.cpp and of ReadEndianUnsigned in
-- source/file_formats/vtk/src/ScalarPayloadReader.cpp.
use Prim.Native.Nat.{bit_or}
use mathlib.Core.List.{reverse-append, reverse-reverse}
use native.Mathlib.Nat.{pow-suc}
use native.Mathlib.Numerals.{towards_suc}
use cae_openusd_plugins.Prelude.{
  ℕ, suc, ◌+◌, ◌*◌, ◌%◌, ◌^◌, ◌≤◌, ◌<◌, ◌≡◌, refl, sym, ap, ◌∙◌, Bytes, [], ◌∷◌, ◌++◌, reverse,
  length, length-append, arith,
}
use cae_openusd_plugins.Prelude.Bits.{bit_or_sum, bit_or-shift}

-- One round: `value = (value << 8) | byte`, on 64 bits.
abbrev pub push_byte : ℕ → ℕ → ℕ
push_byte value byte = bit_or ((2 ^ 8 * value) % 2 ^ 64) byte

-- The loop, over the bytes in the order in which it takes them.
unfoldable pub read_loop : ℕ → Bytes → ℕ
read_loop value [] = value
read_loop value (byte ∷ rest) = read_loop (push_byte value byte) rest

-- The loop for little-endian bytes: `value |= byte << (8 * i)`.
unfoldable pub or_loop : ℕ → ℕ → Bytes → ℕ
or_loop i value [] = value
or_loop i value (byte ∷ rest) = or_loop (suc i) (bit_or value ((2 ^ (8 * i) * byte) % 2 ^ 64)) rest

-- The number that little-endian bytes stand for.
abbrev pub value : Bytes → ℕ
value [] = 0
value (b ∷ bs) = b + 256 * value bs

abbrev pub AllBytes : Bytes → Type 0
AllBytes [] = Unit {0}
AllBytes (b ∷ bs) = (b < 256) × AllBytes bs

pub value-lt : (bs : Bytes) → AllBytes bs → value bs < 256 ^ length bs
value-lt [] h = omega arith
value-lt (b ∷ bs) (h, t) = omega (arith, value-lt bs t, pow-suc 256 (length bs))

read_loop-append :
    (v : ℕ) (bs : Bytes) (b : ℕ) → read_loop v (bs ++ b ∷ []) ≡ push_byte (read_loop v bs) b
unfolding read_loop
read_loop-append v [] b = refl
read_loop-append v (x ∷ bs) b = read_loop-append (push_byte v x) bs b

push_byte-sum : (v b : ℕ) → 256 * v < 2 ^ 64 → b < 256 → push_byte v b ≡ 256 * v + b
push_byte-sum v b h k =
    let whole : (2 ^ 8 * v) % 2 ^ 64 ≡ 2 ^ 8 * v = omega arith in
    bit_or_sum 8 v ((2 ^ 8 * v) % 2 ^ 64) b whole (omega arith) ∙ omega arith

pub read_loop-reverse :
    (bs : Bytes) → AllBytes bs → 256 ^ length bs ≤ 2 ^ 64 → read_loop 0 (reverse bs) ≡ value bs
unfolding read_loop
read_loop-reverse [] h b = refl
read_loop-reverse (x ∷ bs) (h, t) b =
    let grows = pow-suc 256 (length bs) in
    let below = value-lt bs t in
    ap (read_loop 0) (reverse-append (x ∷ []) bs)
    ∙ read_loop-append 0 (reverse bs) x
    ∙ ap (λ v. push_byte v x) (read_loop-reverse bs t (omega (arith, grows, b)))
    ∙ push_byte-sum (value bs) x (omega (arith, grows, below, b)) h
    ∙ omega arith

AllBytes-append : (xs ys : Bytes) → AllBytes xs → AllBytes ys → AllBytes (xs ++ ys)
AllBytes-append [] ys h k = k
AllBytes-append (x ∷ xs) ys (h, t) k = (h, AllBytes-append xs ys t k)

pub AllBytes-reverse : (xs : Bytes) → AllBytes xs → AllBytes (reverse xs)
AllBytes-reverse [] h = tt
AllBytes-reverse (x ∷ xs) (h, t) =
    rw (reverse-append (x ∷ []) xs)
      (AllBytes-append (reverse xs) (x ∷ []) (AllBytes-reverse xs t) (h, tt))

pub length-reverse : (xs : Bytes) → length (reverse xs) ≡ length xs
length-reverse [] = refl
length-reverse (x ∷ xs) =
    ap length (reverse-append (x ∷ []) xs)
    ∙ omega (arith, length-append (reverse xs) (x ∷ []), length-reverse xs)

pub read_loop-value :
    (bs : Bytes) → AllBytes bs → 256 ^ length bs ≤ 2 ^ 64 → read_loop 0 bs ≡ value (reverse bs)
read_loop-value bs h b =
    ap (read_loop 0) (sym (reverse-reverse bs))
    ∙ read_loop-reverse (reverse bs) (AllBytes-reverse bs h) (rw (length-reverse bs) b)

mul-le-mul_left : (p a b : ℕ) → a ≤ b → p * a ≤ p * b
mul-le-mul_left p a b h = grind arith

-- 2 ^ (8 * (i + 1)), as the next factor.
next_factor : (i : ℕ) → 2 ^ (8 * suc i) ≡ 256 * 2 ^ (8 * i)
next_factor i =
    let e : 8 * suc i ≡ 8 * i + 8 = omega arith in
    ap (λ k. 2 ^ k) e ∙ simp towards_suc (omega arith)

pub or_loop-value :
    (i v : ℕ) (bs : Bytes)
    → v < 2 ^ (8 * i)
    → AllBytes bs
    → 2 ^ (8 * i) * 256 ^ length bs ≤ 2 ^ 64
    → or_loop i v bs ≡ v + 2 ^ (8 * i) * value bs
unfolding or_loop
or_loop-value i v [] h t b = omega arith
or_loop-value i v (x ∷ bs) h (hx, t) b =
    let p = 2 ^ (8 * i) in
    let grows = pow-suc 256 (length bs) in
    let next = next_factor i in
    let byte : p * x ≤ p * 255 = mul-le-mul_left p x 255 (omega arith) in
    let some_left : p * 256 ≤ p * (256 ^ length bs * 256) =
      mul-le-mul_left p 256 (256 ^ length bs * 256) (omega (arith, value-lt bs t)) in
    let room : p * (256 ^ length bs * 256) ≤ 2 ^ 64 = omega (arith, ap (λ n. p * n) grows, b) in
    let whole : (p * x) % 2 ^ 64 ≡ p * x = omega (arith, byte, some_left, room) in
    let joined : bit_or v ((p * x) % 2 ^ 64) ≡ v + p * x = rw whole (bit_or-shift (8 * i) v x h) in
    ap (λ n. or_loop (suc i) n bs) joined
    ∙ or_loop-value (suc i) (v + p * x) bs (omega (arith, next, byte)) t
        (omega (arith, ap (λ n. n * 256 ^ length bs) next, room))
    ∙ omega (arith, ap (λ n. n * value bs) next)
