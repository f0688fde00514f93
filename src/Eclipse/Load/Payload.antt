-- ===== src/Eclipse/Load/Payload.antt =====
-- What the loaders return for a record of the index, while the file is as it was indexed.
use native.Mathlib.Nat.{div-add-mod', mul_comm, add-mul, eq_of_mul-eq-mul_left}
use cae_openusd_plugins.Prelude.{
  ℕ, zero, suc, ◌+◌, ◌*◌, ◌/◌, ◌%◌, ◌^◌, ◌≤◌, ◌<◌, ◌≡◌, some, refl, sym, ap, ◌∙◌, true, Bytes, List,
  [], ◌∷◌, ◌++◌, append_assoc, append-nil, length, length-append, length-take, length-drop, take,
  drop, arith, ◌==◌,
}
use cae_openusd_plugins.Prelude.Result.{ok, ◌>>=◌, ◌>>◌, guard, require, ok-bind, true-bind}
use cae_openusd_plugins.Stream.{seek_beg-good}
use cae_openusd_plugins.Eclipse.Words.{Endian}
use cae_openusd_plugins.Eclipse.Record.{Record, DataChunk}
use cae_openusd_plugins.Eclipse.Index.Framing.{ChunksAt, last, block}
use cae_openusd_plugins.Eclipse.Index.Complete.{IsAddressable, read_exact-good}
use cae_openusd_plugins.Eclipse.Index.{Files}
use cae_openusd_plugins.Eclipse.Load.{
  read_record_bytes, checked_chunk_byte_count, decode_items, load_chunks, load_values,
}

abbrev pub chunk_bytes : Bytes → DataChunk → Bytes
chunk_bytes content c = take c.byte_count (drop c.offset content)

-- A chunk lies in the file.
abbrev pub Within : Bytes → DataChunk → Type 0
Within content c = c.offset + c.byte_count ≤ length content

read_record_bytes-Within :
    (files : Files) (r : Record) (content : Bytes) (c : DataChunk)
    → files r.file_path ≡ some content
    → IsAddressable content
    → Within content c
    → c.byte_count < 2 ^ 64
    → read_record_bytes files r c c.byte_count ≡ ok (chunk_bytes content c)
unfolding read_record_bytes checked_chunk_byte_count ◌>>=◌ ◌>>◌ guard require
read_record_bytes-Within files r content c opened addressable within small =
    let exact = read_exact-good content c.offset c.byte_count addressable within in
    ground (arith, opened, seek_beg-good content c.offset, exact)

checked_chunk_byte_count-lt :
    (c : DataChunk) → c.byte_count < 2 ^ 64 → checked_chunk_byte_count c ≡ ok c.byte_count
unfolding checked_chunk_byte_count
checked_chunk_byte_count-lt c h = ground arith

module _ {A : Type 0} (width : ℕ) (positive : 0 < width) (decode : Bytes → A) where
  length-decode_items :
      (k fuel : ℕ) (bytes : Bytes)
      → length bytes ≡ k * width
      → length bytes ≤ fuel
      → length (decode_items width decode fuel bytes) ≡ k
  unfolding decode_items
  length-decode_items zero zero bytes h b = omega (arith, positive)
  length-decode_items zero (suc fuel) [] h b = refl
  length-decode_items zero (suc fuel) (x ∷ xs) h b = absurd (omega arith)
  length-decode_items (suc k) zero bytes h b = absurd (omega (arith, positive))
  length-decode_items (suc k) (suc fuel) [] h b = absurd (omega (arith, positive))
  length-decode_items (suc k) (suc fuel) (x ∷ xs) h b =
      let shorter = length-drop width (x ∷ xs) in
      let rest =
        length-decode_items k fuel (drop width (x ∷ xs)) (omega (arith, shorter, h))
          (omega (arith, shorter, positive)) in
      ap suc rest

-- Every chunk holds whole items.
abbrev pub Whole : ℕ → List DataChunk → Type 0
Whole width [] = Unit {0}
Whole width (c ∷ cs) = (c.byte_count % width ≡ 0) × Whole width cs

-- The items of the payload, chunk after chunk.
abbrev pub payload_items : {A : Type 0} → ℕ → (Bytes → A) → Bytes → List DataChunk → List A
payload_items width decode content [] = []
payload_items width decode content (c ∷ cs) =
    let bytes = chunk_bytes content c in
    decode_items width decode (length bytes) bytes ++ payload_items width decode content cs

module _ {A : Type 0} (width : ℕ) (positive : 0 < width) (decode : Bytes → A) where
  length-payload_items :
      {content : Bytes} {e : Endian} {stop p left : ℕ} {cs : List DataChunk}
      → ChunksAt content e stop p left cs
      → Whole width cs
      → length (payload_items width decode content cs) * width ≡ left
  length-payload_items (last l p) w = omega (arith, l)
  length-payload_items {content} (block {c = c} {rest = cs} pos o within opening closing rest)
        (w, ws) =
      let bytes = chunk_bytes content c in
      let k = c.byte_count / width in
      let size : length bytes ≡ c.byte_count = omega (
        arith,
        length-take c.byte_count (drop c.offset content),
        length-drop c.offset content,
        closing.fits,
        o,
      ) in
      let division : c.byte_count ≡ k * width = omega (arith, div-add-mod' c.byte_count width, w) in
      let first : length (decode_items width decode (length bytes) bytes) ≡ k =
        length-decode_items width positive decode k (length bytes) bytes (size ∙ division)
          (omega arith) in
      let later = length-payload_items rest ws in
      let items = decode_items width decode (length bytes) bytes in
      let others = payload_items width decode content cs in
      omega (
        arith,
        ap (λ (n : ℕ). n * width) (length-append items others),
        add-mul (length items) (length others) width,
        ap (λ (n : ℕ). n * width) first,
        division,
        later,
        within,
      )

  module _ (files : Files) (r : Record) (content : Bytes)
      (opened : files r.file_path ≡ some content) (addressable : IsAddressable content) where
    load_chunks-payload :
        {e : Endian} {stop p left : ℕ} {cs : List DataChunk}
        → ChunksAt content e stop p left cs
        → Whole width cs
        → (values : List A)
        → load_chunks width decode files r values cs
          ≡ ok (values ++ payload_items width decode content cs)
    unfolding load_chunks
    load_chunks-payload (last l p) w values = ap ok (sym (append-nil values))
    load_chunks-payload (block {c = c} {rest = cs} pos o within opening closing rest) (w, ws)
          values =
        let bytes = chunk_bytes content c in
        let items = decode_items width decode (length bytes) bytes in
        let small : c.byte_count < 2 ^ 64 = omega (arith, closing.fits, addressable) in
        let size : checked_chunk_byte_count c ≡ ok c.byte_count =
          checked_chunk_byte_count-lt c small in
        let read =
          read_record_bytes-Within files r content c opened addressable
            (omega (arith, o, closing.fits)) small in
        let later = load_chunks-payload rest ws (values ++ items) in
        let divides : (c.byte_count % width == 0) ≡ true = ground (arith, w) in
        rw (divides, true-bind, size, ok-bind, read, ok-bind, later)
          (ap ok (append_assoc values items (payload_items width decode content cs)))

    -- The loader returns the payload of a record that was indexed in this file.
    pub load_values-payload :
        {e : Endian} {stop p left : ℕ}
        → ChunksAt content e stop p left r.chunks
        → Whole width r.chunks
        → left ≡ r.count * width
        → load_values width decode files r ≡ ok (payload_items width decode content r.chunks)
    unfolding load_values
    load_values-payload at whole left_is =
        let items = payload_items width decode content r.chunks in
        let total = length-payload_items at whole in
        let full : length items ≡ r.count =
          eq_of_mul-eq-mul_left width positive (length items) r.count (
            omega (arith, total, left_is, mul_comm width (length items), mul_comm width r.count)) in
        let tested : (length items == r.count) ≡ true = ground (arith, full) in
        rw (load_chunks-payload at whole [], ok-bind, tested, true-bind)
