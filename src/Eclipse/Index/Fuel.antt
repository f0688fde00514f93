-- ===== src/Eclipse/Index/Fuel.antt =====
-- The loops of the indexing and their fuel.
use cae_openusd_plugins.Prelude.{
  ℕ, zero, suc, ◌+◌, ◌-◌, ◌^◌, ◌%◌, ◌≤◌, ◌<◌, ◌≡◌, ◌≢◌, Bool-cases, inl, inr, Option-cases, some,
  Bytes, length, drop, arith, ltb,
}
use cae_openusd_plugins.Prelude.Result.{
  ok, err, ◌>>=◌, ◌>>◌, guard, require, bind-ne-err, guard-bind-ne-err, require-bind-ne-err,
}
use cae_openusd_plugins.Prelude.Int.{ℤ, to_nat, pos-to_nat}
use cae_openusd_plugins.Stream.{Stream, good}
use cae_openusd_plugins.Eclipse.Words.{Endian, read_int32, read_int32-pos}
use cae_openusd_plugins.Eclipse.Record.{
  Error, expected_data_bytes-le, expected_data_bytes-ne-out_of_fuel,
}
use cae_openusd_plugins.Eclipse.Index.Items.{read_exact_sound, read_indexed_record_sound}
use cae_openusd_plugins.Eclipse.Index.Framing.{ItemAt-length}
use cae_openusd_plugins.Eclipse.Index.Markers.{read_record_length_sound}
use cae_openusd_plugins.Eclipse.Index.Chunks.{some_marker, closes_sound, read_chunk_sound}
use cae_openusd_plugins.Eclipse.Index.{
  read_record_length, read_exact, read_chunk, read_chunks, read_record_chunks, read_indexed_record,
  index_records, index_file, stops, Files,
}

read_chunk-ne-out_of_fuel :
    (s : Stream) (e : Endian) (keyword : Bytes) (expected bytes_read : ℕ)
    → read_chunk s e keyword expected bytes_read ≢ err Error.out_of_fuel
unfolding read_chunk read_record_length ◌>>=◌ ◌>>◌ guard require
read_chunk-ne-out_of_fuel s e keyword expected bytes_read h = ground arith

module _ (content : Bytes) (e : Endian) (keyword : Bytes) (expected : ℕ)
    (x : expected < 2 ^ 63) where
  pub read_chunks-ne-out_of_fuel :
      (fuel p bytes_read : ℕ)
      → bytes_read ≤ expected
      → length content - p < fuel
      → read_chunks fuel (good content p) e keyword expected bytes_read ≢ err Error.out_of_fuel
  unfolding read_chunks
  read_chunks-ne-out_of_fuel zero p bytes_read b h = absurd (omega arith)
  read_chunks-ne-out_of_fuel (suc fuel) p bytes_read b h =
      elim (Bool-cases (ltb bytes_read expected)) [
        | inl more ↦
            rw (more, read_chunks)
              (bind-ne-err _ _ _
                (read_chunk-ne-out_of_fuel (good content p) e keyword expected bytes_read)
                λ r first.
                  let (_, b1, s1_is) =
                    read_chunk_sound (good content p) e keyword expected bytes_read b x {c = r.0}
                      {s' = r.1} first in
                  let sum : (bytes_read + r.0.byte_count) % 2 ^ 64 ≡ bytes_read + r.0.byte_count =
                    omega (arith, b1.within) in
                  let rest =
                    read_chunks-ne-out_of_fuel fuel (p + 4 + r.0.byte_count + 4)
                      (bytes_read + r.0.byte_count) (omega (arith, b1.within))
                      (omega (arith, b1.closing.fits)) in
                  bind-ne-err _ _ _ (rw (s1_is, sum) rest) (λ q _ h. cc))
        | inr done ↦ rw (done, read_chunks) (λ h. cc)
      ]

read_record_length-ne-out_of_fuel :
    (s : Stream) (e : Endian) → read_record_length s e ≢ err Error.out_of_fuel
unfolding read_record_length
read_record_length-ne-out_of_fuel s e h = ground arith

-- No item makes the loop over its blocks run out of fuel.
read_indexed_record-ne-out_of_fuel :
    (content path : Bytes) (e : Endian) (p : ℕ) (n : ℤ)
    → read_indexed_record (good content p) path e n ≢ err Error.out_of_fuel
unfolding read_indexed_record read_record_chunks
read_indexed_record-ne-out_of_fuel content path e p n =
    guard-bind-ne-err _ _ _ _ (λ h. cc)
      λ _.
        require-bind-ne-err _ _ _ _ (λ h. cc)
          λ header read. bind-ne-err _ _ _ (read_record_length-ne-out_of_fuel _ e) λ m marker.
            guard-bind-ne-err _ _ _ _ (λ h. cc)
              λ closed.
                guard-bind-ne-err _ _ _ _ (λ h. cc)
                  λ positive.
                    bind-ne-err _ _ _
                      (bind-ne-err _ _ _ (expected_data_bytes-ne-out_of_fuel _ _) λ size size_is.
                        let (_, _, s1_is) = read_exact_sound content p 16 (omega arith) read in
                        let opened =
                          some_marker (read_exact 16 (good content p)).1 e m n marker
                            (closes_sound m.0 n closed) in
                        let here : read_record_length (good content (p + 16)) e ≡ ok (some n, m.1) =
                          cc (opened, s1_is) in
                        let (_, _, s2_is) =
                          read_record_length_sound (good content (p + 16)) e n here in
                        let count = to_nat (read_int32 (drop 8 header) e) in
                        let below =
                          read_int32-pos (drop 8 header) e count
                            (pos-to_nat _ (ground (arith, positive))) in
                        let small = expected_data_bytes-le count _ size size_is in
                        rw s2_is (
                          read_chunks-ne-out_of_fuel content e _ size (omega (arith, small, below))
                            (suc (length content)) (p + 16 + 4) 0 (omega arith) (omega arith)))
                      (λ q _ h. cc)

module _ (content path : Bytes) (e : Endian) (stop_after : Bytes) where
  index_records-ne-out_of_fuel :
      (fuel p : ℕ)
      → length content - p < fuel
      → index_records fuel (good content p) path e stop_after ≢ err Error.out_of_fuel
  unfolding index_records
  index_records-ne-out_of_fuel zero p h = absurd (omega arith)
  index_records-ne-out_of_fuel (suc fuel) p h =
      bind-ne-err _ _ _ (read_record_length-ne-out_of_fuel (good content p) e) λ q marker.
        elim (Option-cases q.0) [
          | inl end_is ↦ rw end_is (λ h. cc)
          | inr (n, n_is) ↦
              let (_, opening, s1_is) =
                read_record_length_sound (good content p) e n
                  (some_marker (good content p) e q n marker n_is) in
              rw (n_is, s1_is)
                (bind-ne-err _ _ _ (read_indexed_record-ne-out_of_fuel content path e (p + 4) n)
                  λ r found.
                    let (_, stop, s2_is, at) =
                      read_indexed_record_sound content path e (p + 4) n r.0 r.1 found in
                    let (longer, within) = ItemAt-length at in
                    let rest =
                      index_records-ne-out_of_fuel fuel stop (omega (arith, opening.fits)) in
                    elim (Bool-cases (stops stop_after r.0)) [
                      | inl t ↦ rw t (λ h. cc)
                      | inr f ↦ rw (f, s2_is) (bind-ne-err _ _ _ rest (λ rs _ h. cc))
                    ])
        ]

-- Indexing any file of any length ends: the fuel, which is its length, never runs out.
pub index_file-ne-out_of_fuel :
    (files : Files) (path stop_after : Bytes)
    → index_file files path stop_after ≢ err Error.out_of_fuel
unfolding index_file
index_file-ne-out_of_fuel files path stop_after =
    require-bind-ne-err _ _ _ _ (λ h. cc)
      λ e detected.
        require-bind-ne-err _ _ _ _ (λ h. cc)
          λ content opened.
            bind-ne-err _ _ _
              (index_records-ne-out_of_fuel content path e stop_after (suc (length content)) 0
                (omega arith))
              (λ rs _ h. cc)
