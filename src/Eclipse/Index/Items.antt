-- ===== src/Eclipse/Index/Items.antt =====
-- `read_indexed_record` and the items of the grammar.
use cae_openusd_plugins.Prelude.{
  ℕ, ◌+◌, ◌-◌, ◌^◌, ◌≤◌, ◌<◌, ◌≡◌, refl, sym, ap, subst, ◌∙◌, false, some, Bytes, List, length,
  take, drop, arith,
}
use cae_openusd_plugins.Prelude.Int.{ℤ, pos, is_neg, to_nat, ==ℤ_iff, pos-to_nat}
use cae_openusd_plugins.Prelude.Result.{ok, bind-eq-ok, guard-bind-eq-ok, require-bind-eq-ok}
use cae_openusd_plugins.Stream.{
  Stream, good, read, length-read-good, read-good_bits, read_full-good,
}
use cae_openusd_plugins.Eclipse.Words.{Endian, read_int32, read_int32-pos}
use cae_openusd_plugins.Eclipse.Text.{trim_right}
use cae_openusd_plugins.Eclipse.Record.{
  DataChunk, Record, expected_data_bytes, expected_data_bytes-le,
}
use cae_openusd_plugins.Eclipse.Index.Framing.{MarkerAt, ItemAt}
use cae_openusd_plugins.Eclipse.Index.Markers.{read_record_length_sound}
use cae_openusd_plugins.Eclipse.Index.Chunks.{some_marker, closes_sound, Blocks, read_chunks_sound}
use cae_openusd_plugins.Eclipse.Index.{
  read_exact, read_record_length, read_record_chunks, read_indexed_record, fuel_for,
}

pub read_exact_sound :
    (content : Bytes) (p n : ℕ)
    → 0 < n
    → {b : Bytes} → (read_exact n (good content p)).0 ≡ some b
    → (p + n ≤ length content)
      × (b ≡ take n (drop p content))
      × ((read_exact n (good content p)).1 ≡ good content (p + n))
unfolding read_exact
read_exact_sound content p n positive {b} h =
    let (eof_is, fail_is) = read-good_bits content p n in
    let full : length (read n (good content p)).0 ≡ n =
      ground (arith, eof_is, fail_is, length-read-good content p n) in
    let (_, fits, r) = read_full-good n (good content p) positive full in
    (fits, ground (arith, r), ground (arith, r, eof_is, fail_is, full))

read_record_chunks_sound :
    (content : Bytes) (e : Endian) (keyword : Bytes) (p count : ℕ) (kind : Bytes)
    → count < 2 ^ 31
    → {cs : List DataChunk} {s' : Stream}
    → read_record_chunks (good content p) e keyword count kind ≡ ok (cs, s')
    → (size : ℕ) × (expected_data_bytes count kind ≡ ok size) × Blocks content e p size cs s'
unfolding read_record_chunks
read_record_chunks_sound content e keyword p count kind below {cs} {s'} h =
    let (size, e1, h1) = bind-eq-ok _ _ h in
    let small = expected_data_bytes-le count kind size e1 in
    let whole : size - 0 ≡ size = omega arith in
    (
      size,
      e1,
      subst (λ l. Blocks content e p l cs s') whole
          (read_chunks_sound content e keyword size (omega (arith, small))
            (fuel_for (good content p)) p 0 cs s' (omega arith) h1),
    )

-- The record that the fields of a header make.
abbrev header_record : Bytes → Bytes → Endian → List DataChunk → Record
header_record header path e chunks = record {
  keyword = trim_right (take 8 header);
  kind = trim_right (take 4 (drop 12 header));
  count = to_nat (read_int32 (drop 8 header) e);
  file_path = path;
  endian = e;
  chunks = chunks;
}

-- What a successful run consists of.
read_indexed_record_parts :
    (s : Stream) (path : Bytes) (e : Endian) (n : ℤ)
    → {r : Record} {s' : Stream} → read_indexed_record s path e n ≡ ok (r, s')
    → (header : Bytes) × (s2 : Stream) × (chunks : List DataChunk) × (n ≡ pos 16)
      × ((read_exact 16 s).0 ≡ some header)
      × (read_record_length (read_exact 16 s).1 e ≡ ok (some n, s2))
      × (is_neg (read_int32 (drop 8 header) e) ≡ false)
      × (read_record_chunks s2 e
            (trim_right (take 8 header))
            (to_nat (read_int32 (drop 8 header) e))
            (trim_right (take 4 (drop 12 header)))
          ≡ ok (chunks, s'))
      × (header_record header path e chunks ≡ r)
unfolding read_indexed_record
read_indexed_record_parts s path e n h =
    let (e1, h1) = guard-bind-eq-ok _ _ _ h in
    let (header, e2, h2) = require-bind-eq-ok _ _ _ h1 in
    let (m, e3, h3) = bind-eq-ok _ _ h2 in
    let (e4, h4) = guard-bind-eq-ok _ _ _ h3 in
    let (e5, h5) = guard-bind-eq-ok _ _ _ h4 in
    let (q, e6, h6) = bind-eq-ok _ _ h5 in
    (
      header,
      m.1,
      q.0,
      (==ℤ_iff n (pos 16)).0 e1,
      e2,
      some_marker (read_exact 16 s).1 e m n e3 (closes_sound m.0 n e4),
      ground (arith, e5),
      cc (e6, h6),
      cc h6,
    )

pub read_indexed_record_sound :
    (content path : Bytes) (e : Endian) (p : ℕ) (n : ℤ) (r : Record) (s' : Stream)
    → read_indexed_record (good content p) path e n ≡ ok (r, s')
    → (n ≡ pos 16) × (stop : ℕ) × (s' ≡ good content stop) × ItemAt content path e p stop r
read_indexed_record_sound content path e p n r s' h =
    let (header, s2, chunks, n_is, e2, e3, e5, e6, r_is) =
      read_indexed_record_parts (good content p) path e n h in
    let (fits, header_is, s1_is) = read_exact_sound content p 16 (omega arith) e2 in
    let closed : read_record_length (good content (p + 16)) e ≡ ok (some n, s2) = cc (e3, s1_is) in
    let (_, closing, s2_is) = read_record_length_sound (good content (p + 16)) e n closed in
    let count_is : read_int32 (drop 8 header) e ≡ pos (to_nat (read_int32 (drop 8 header) e)) =
      pos-to_nat _ e5 in
    let (size, size_is, (stop, s'_is, payload)) =
      read_record_chunks_sound content e (trim_right (take 8 header)) (p + 16 + 4)
        (to_nat (read_int32 (drop 8 header) e)) (trim_right (take 4 (drop 12 header)))
        (read_int32-pos _ e _ count_is) (cc (e6, s2_is)) in
    rw (← r_is) (
      n_is,
      stop,
      s'_is,
      record {
        header_fits = fits;
        closing = subst (λ z. MarkerAt content e (p + 16) z) n_is closing;
        keyword_is = ap (λ b. trim_right (take 8 b)) header_is;
        kind_is = ap (λ b. trim_right (take 4 (drop 12 b))) header_is;
        count_is = ap (λ b. read_int32 (drop 8 b) e) (sym header_is) ∙ count_is;
        path_is = refl;
        endian_is = refl;
        size = size;
        size_is = size_is;
        payload = payload;
      },
    )
