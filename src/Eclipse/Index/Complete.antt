-- ===== src/Eclipse/Index/Complete.antt =====
-- Indexing a file with the item structure of the grammar.
use cae_openusd_plugins.Prelude.{
  ℕ, zero, suc, ◌+◌, ◌-◌, ◌^◌, ◌%◌, ◌≤◌, ◌<◌, ◌≡◌, ap, true, false, some, Bytes, List, [], length,
  take, drop, arith, ltb, lt→ltb,
}
use cae_openusd_plugins.Prelude.Int.{pos}
use cae_openusd_plugins.Prelude.Result.{ok, ◌>>=◌, ◌>>◌, guard, require, ok-bind}
use cae_openusd_plugins.Stream.{
  good, open_stream, streamoff_max, seek_cur-good, read-good, read-good_bits,
}
use cae_openusd_plugins.Eclipse.Words.{Endian, read_int32-pos}
use cae_openusd_plugins.Eclipse.Record.{
  DataChunk, Record, FileIndex, expected_data_bytes, expected_data_bytes-le,
}
use cae_openusd_plugins.Eclipse.Index.Framing.{
  ChunksAt, last, block, ChunksAt-length, ItemAt, ItemsAt, at_end, stopped, item, ItemsAt-length,
}
use cae_openusd_plugins.Eclipse.Index.Markers.{read_record_length_complete, read_record_length-end}
use cae_openusd_plugins.Eclipse.Index.Chunks.{BlockAt, tell-good}
use cae_openusd_plugins.Eclipse.Index.Sound.{IsIndex}
use cae_openusd_plugins.Eclipse.Index.{
  Files, read_exact, seek_forward, read_chunk, read_chunks, read_record_chunks, read_indexed_record,
  stops, index_records, index_file, fuel_for,
}

-- A file that `std::ifstream` can address.
abbrev pub IsAddressable : Bytes → Type 0
IsAddressable content = length content ≤ streamoff_max

pub read_exact-good :
    (content : Bytes) (p n : ℕ)
    → IsAddressable content
    → p + n ≤ length content
    → read_exact n (good content p) ≡ (some (take n (drop p content)), good content (p + n))
unfolding read_exact
read_exact-good content p n addressable h =
    let r = read-good content p n h in
    let (eof_is, fail_is) = read-good_bits content p n in ground (arith, r, eof_is, fail_is)

module _ (content : Bytes) (addressable : IsAddressable content) (e : Endian) where
  seek_forward-good :
      (p n : ℕ)
      → p + n ≤ length content
      → seek_forward n (good content p) ≡ ok (good content (p + n))
  unfolding seek_forward
  seek_forward-good p n h = ground (arith, seek_cur-good content p n)

  read_chunk_complete :
      (keyword : Bytes) (expected bytes_read p : ℕ) (c : DataChunk)
      → bytes_read ≤ expected
      → expected < 2 ^ 63
      → BlockAt content e p (expected - bytes_read) c
      → read_chunk (good content p) e keyword expected bytes_read
        ≡ ok (c, good content (p + 4 + c.byte_count + 4))
  unfolding read_chunk ◌>>=◌ ◌>>◌ guard require
  read_chunk_complete keyword expected bytes_read p c b x at = ground (
    arith,
    read_record_length_complete content e p (pos c.byte_count) at.opening,
    tell-good content (p + 4),
    seek_forward-good (p + 4) c.byte_count,
    at.closing.fits,
    at.within,
    at.offset_is,
    read_record_length_complete content e (p + 4 + c.byte_count) (pos c.byte_count) at.closing,
  )

  read_chunks_complete :
      {stop p left : ℕ} {cs : List DataChunk}
      → ChunksAt content e stop p left cs
      → (keyword : Bytes) (expected bytes_read fuel : ℕ) → bytes_read + left ≡ expected
      → expected < 2 ^ 63
      → length cs < fuel
      → read_chunks fuel (good content p) e keyword expected bytes_read ≡ ok (cs, good content stop)
  unfolding read_chunks
  read_chunks_complete (last l p) keyword expected bytes_read zero w x f = absurd (omega arith)
  read_chunks_complete (last l p) keyword expected bytes_read (suc fuel) w x f =
      let done : ltb bytes_read expected ≡ false = ground arith in
      rw (done, read_chunks) (ap (λ (s : ℕ). ok ([], good content s)) p)
  read_chunks_complete (block positive o within opening closing rest) keyword expected bytes_read
        zero w x f =
      absurd (omega arith)
  read_chunks_complete (block {p} {left} {c} {rest = cs} positive o within opening closing rest)
        keyword expected bytes_read (suc fuel) w x f =
      let more : ltb bytes_read expected ≡ true = lt→ltb _ _ (omega arith) in
      let left_is : left ≡ expected - bytes_read = omega arith in
      let first =
        read_chunk_complete keyword expected bytes_read p c (omega arith) x
          (record { offset_is = o; within = omega arith; opening = opening; closing = closing }) in
      let sum : (bytes_read + c.byte_count) % 2 ^ 64 ≡ bytes_read + c.byte_count = omega arith in
      let later =
        read_chunks_complete rest keyword expected (bytes_read + c.byte_count) fuel (omega arith) x
          (omega arith) in
      rw (more, first, ok-bind, sum, later, ok-bind, read_chunks)

  read_record_chunks_complete :
      (keyword : Bytes) (p stop count : ℕ) (kind : Bytes) (size : ℕ) (cs : List DataChunk)
      → p ≤ length content
      → count < 2 ^ 31
      → expected_data_bytes count kind ≡ ok size
      → ChunksAt content e stop p size cs
      → read_record_chunks (good content p) e keyword count kind ≡ ok (cs, good content stop)
  unfolding read_record_chunks
  read_record_chunks_complete keyword p stop count kind size cs here below size_is at =
      let small = expected_data_bytes-le count kind size size_is in
      let all =
        read_chunks_complete at keyword size 0 (fuel_for (good content p)) (omega arith)
          (omega (arith, small)) (omega (arith, ChunksAt-length at here)) in
      rw (size_is, ok-bind, all)

  pub read_indexed_record_complete :
      (path : Bytes) (p stop : ℕ) (r : Record)
      → ItemAt content path e p stop r
      → read_indexed_record (good content p) path e (pos 16) ≡ ok (r, good content stop)
  unfolding read_indexed_record ◌>>=◌ ◌>>◌ guard require
  read_indexed_record_complete path p stop r at =
      let exact = read_exact-good content p 16 addressable at.header_fits in
      let closed = read_record_length_complete content e (p + 16) (pos 16) at.closing in
      let payload =
        read_record_chunks_complete r.keyword (p + 16 + 4) stop r.count r.kind at.size r.chunks
          at.closing.fits (read_int32-pos _ e r.count at.count_is) at.size_is at.payload in
      rw (exact, closed, at.count_is, ← at.keyword_is, ← at.kind_is, payload)
        (cc (at.path_is, at.endian_is))

  module _ (path stop_after : Bytes) where
    index_records_complete :
        {p : ℕ} {rs : List Record}
        → ItemsAt content path e (stops stop_after) p rs
        → (fuel : ℕ) → length rs < fuel
        → index_records fuel (good content p) path e stop_after ≡ ok rs
    unfolding index_records
    index_records_complete (at_end b) zero f = absurd (omega arith)
    index_records_complete (at_end {p} b) (suc fuel) f =
        let (s', none_is) = read_record_length-end content e p b in
        rw (none_is, ok-bind, index_records)
    index_records_complete (stopped m at t) zero f = absurd (omega arith)
    index_records_complete (stopped {p} {stop} {r} m at t) (suc fuel) f =
        let opened = read_record_length_complete content e p (pos 16) m in
        let found = read_indexed_record_complete path (p + 4) stop r at in
        rw (opened, ok-bind, found, ok-bind, t, index_records)
    index_records_complete (item m at g rest) zero f = absurd (omega arith)
    index_records_complete (item {p} {stop} {r} m at g rest) (suc fuel) f =
        let opened = read_record_length_complete content e p (pos 16) m in
        let found = read_indexed_record_complete path (p + 4) stop r at in
        let later = index_records_complete rest fuel (omega arith) in
        rw (opened, ok-bind, found, ok-bind, g, later, ok-bind, index_records)

-- For a file whose length a stream position can address, indexing returns every index that
-- describes the file, without an error.
pub index_file_complete :
    (files : Files) (path stop_after : Bytes) (index : FileIndex)
    → (at : IsIndex files path stop_after index) → IsAddressable at.content
    → index_file files path stop_after ≡ ok index
unfolding index_file require
index_file_complete files path stop_after index at addressable =
    let whole =
      index_records_complete at.content addressable index.endian path stop_after at.items
        (fuel_for (open_stream at.content)) (omega (arith, ItemsAt-length at.items)) in
    rw (at.endian_is, ok-bind, at.content_is, ok-bind, whole, ok-bind) (cc at.path_is)
