-- ===== src/Eclipse/Words.antt =====
-- The byte order and the fixed-width readers of EclipseBinaryFile.cpp.
use Prim.Native.Nat.{bit_or}
use cae_openusd_plugins.Prelude.{
  ℕ, ◌+◌, ◌*◌, ◌/◌, ◌%◌, ◌^◌, ◌<◌, ◌≡◌, sym, ap, ◌∙◌, Bytes, [], ◌∷◌, ◌++◌, get_or, take, reverse,
  length, append-nil, take-append, ◌≤◌, arith,
}
use cae_openusd_plugins.Prelude.Int.{ℤ, pos, signed32}
use cae_openusd_plugins.Prelude.Bits.{bit_or_sum}
use cae_openusd_plugins.Codec.{read_loop, value, AllBytes, read_loop-reverse, read_loop-value}

pub data Endian : Type 0 where
  big little : Endian

abbrev pub byte_at : Bytes → ℕ → ℕ
byte_at bytes i = get_or bytes i 0

abbrev shl32 : ℕ → ℕ → ℕ
shl32 k x = (2 ^ k * x) % 2 ^ 32

pub read_uint32 : Bytes → Endian → ℕ
read_uint32 bytes big =
    bit_or
      (bit_or (bit_or (shl32 24 (byte_at bytes 0)) (shl32 16 (byte_at bytes 1)))
        (shl32 8 (byte_at bytes 2)))
      (byte_at bytes 3)
read_uint32 bytes little =
    bit_or
      (bit_or (bit_or (shl32 24 (byte_at bytes 3)) (shl32 16 (byte_at bytes 2)))
        (shl32 8 (byte_at bytes 1)))
      (byte_at bytes 0)

pub read_uint64 : Bytes → Endian → ℕ
read_uint64 bytes big = read_loop 0 (take 8 bytes)
read_uint64 bytes little = read_loop 0 (reverse (take 8 bytes))

unfoldable pub read_int32 : Bytes → Endian → ℤ
unfolding read_uint32
read_int32 bytes endian = signed32 (read_uint32 bytes endian)

-- The four bytes of a word, in either order.
unfoldable pub bytes32 : Endian → ℕ → Bytes
bytes32 big w = (w / 2 ^ 24) ∷ (w / 2 ^ 16 % 256) ∷ (w / 2 ^ 8 % 256) ∷ (w % 256) ∷ []
bytes32 little w = (w % 256) ∷ (w / 2 ^ 8 % 256) ∷ (w / 2 ^ 16 % 256) ∷ (w / 2 ^ 24) ∷ []

join_bytes :
    (a b c d : ℕ)
    → a < 256
    → b < 256
    → c < 256
    → d < 256
    → bit_or (bit_or (bit_or (shl32 24 a) (shl32 16 b)) (shl32 8 c)) d
      ≡ 2 ^ 24 * a + 2 ^ 16 * b + 2 ^ 8 * c + d
join_bytes a b c d ha hb hc hd =
    let first : bit_or (shl32 24 a) (shl32 16 b) ≡ shl32 24 a + shl32 16 b =
      bit_or_sum 24 a (shl32 24 a) (shl32 16 b) (omega arith) (omega arith) in
    let high = shl32 24 a + shl32 16 b in
    let second : bit_or high (shl32 8 c) ≡ high + shl32 8 c =
      bit_or_sum 16 (256 * a + b) high (shl32 8 c) (omega arith) (omega arith) in
    let third : bit_or (high + shl32 8 c) d ≡ high + shl32 8 c + d =
      bit_or_sum 8 (65536 * a + 256 * b + c) (high + shl32 8 c) d (omega arith) (omega arith) in
    rw (first, second, third) (omega arith)

-- Reading back the four bytes of a word, with any bytes behind them.
pub read_uint32-bytes32 :
    (e : Endian) (w : ℕ) (rest : Bytes) → w < 2 ^ 32 → read_uint32 (bytes32 e w ++ rest) e ≡ w
unfolding read_uint32 bytes32
read_uint32-bytes32 big w rest h =
    join_bytes (w / 2 ^ 24) (w / 2 ^ 16 % 256) (w / 2 ^ 8 % 256) (w % 256) (omega arith)
      (omega arith) (omega arith) (omega arith)
    ∙ omega arith
read_uint32-bytes32 little w rest h =
    join_bytes (w / 2 ^ 24) (w / 2 ^ 16 % 256) (w / 2 ^ 8 % 256) (w % 256) (omega arith)
      (omega arith) (omega arith) (omega arith)
    ∙ omega arith

-- The four bytes of a word, written in either byte order and followed by any bytes, are read in
-- that order as the signed number that the word stands for.
pub read_int32-bytes32 :
    (e : Endian) (w : ℕ) (rest : Bytes)
    → w < 2 ^ 32
    → read_int32 (bytes32 e w ++ rest) e ≡ signed32 w
unfolding read_int32
read_int32-bytes32 e w rest h = ap signed32 (read_uint32-bytes32 e w rest h)

-- What reads as a number that is not negative is below 2 ^ 31.
pub read_int32-pos : (bytes : Bytes) (e : Endian) (k : ℕ) → read_int32 bytes e ≡ pos k → k < 2 ^ 31
unfolding read_int32
read_int32-pos bytes e k h = ground arith

-- Eight bytes are read as the number that they stand for, little end first, and big end first.
read_uint64-value :
    (bytes : Bytes)
    → AllBytes bytes
    → length bytes ≡ 8
    → (read_uint64 bytes little ≡ value bytes) × (read_uint64 bytes big ≡ value (reverse bytes))
unfolding read_uint64
read_uint64-value bytes h l =
    let whole : take 8 bytes ≡ bytes =
      ap (λ b. take 8 b) (sym (append-nil bytes)) ∙ take-append 8 bytes [] l in
    let bound : 256 ^ length bytes ≤ 2 ^ 64 = rw l (omega arith) in
    (
      ap (λ b. read_loop 0 (reverse b)) whole ∙ read_loop-reverse bytes h bound,
      ap (λ b. read_loop 0 b) whole ∙ read_loop-value bytes h bound,
    )
