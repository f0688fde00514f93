-- ===== src/Eclipse/Index/Sound.antt =====
-- What `index_file` returns, by the grammar of a file.
use cae_openusd_plugins.Prelude.{
  ℕ, zero, suc, ◌+◌, ◌≡◌, ◌⊎◌, refl, sym, subst, ◌∙◌, true, false, Bool-cases, inl, inr, Option,
  none, some, Option-cases, Bytes, List, [], ◌∷◌,
}
use cae_openusd_plugins.Prelude.Int.{ℤ}
use cae_openusd_plugins.Prelude.Result.{ok, bind-eq-ok, require-bind-eq-ok, ok-bind, ok-injective}
use cae_openusd_plugins.Stream.{Stream, good, open_stream}
use cae_openusd_plugins.Eclipse.Words.{Endian}
use cae_openusd_plugins.Eclipse.Record.{Record, FileIndex}
use cae_openusd_plugins.Eclipse.Index.Framing.{MarkerAt, ItemsAt, at_end, stopped, item}
use cae_openusd_plugins.Eclipse.Index.Markers.{read_record_length_sound, read_record_length-none}
use cae_openusd_plugins.Eclipse.Index.Items.{read_indexed_record_sound}
use cae_openusd_plugins.Eclipse.Index.{
  Files, read_record_length, read_indexed_record, stops, index_records, index_file, detect_endian,
  fuel_for,
}

-- What follows a record: nothing behind the one that stops the loop, else a further run.
abbrev Continues : ℕ → Stream → Bytes → Endian → Bytes → Record → List Record → Type 0
Continues fuel s path e stop_after r rs =
    (stops stop_after r ≡ true) × (rs ≡ r ∷ [])
    ⊎ (stops stop_after r ≡ false)
      × (rest : List Record) × (index_records fuel s path e stop_after ≡ ok rest)
      × (rs ≡ r ∷ rest)

-- A run of the loop that reads one more record.
index_records-some :
    (fuel : ℕ) (s : Stream) (path : Bytes) (e : Endian) (stop_after : Bytes) (n : ℤ) (s1 : Stream)
    → read_record_length s e ≡ ok (some n, s1)
    → {rs : List Record} → index_records (suc fuel) s path e stop_after ≡ ok rs
    → (r : Record) × (s2 : Stream) × (read_indexed_record s1 path e n ≡ ok (r, s2))
      × Continues fuel s2 path e stop_after r rs
unfolding index_records
index_records-some fuel s path e stop_after n s1 m {rs} h =
    let (q, e1, h1) = bind-eq-ok _ _ (sym (ok-bind _ _) ∙ (rw (m, index_records) at h)) in
    (
      q.0,
      q.1,
      e1,
      elim (Bool-cases (stops stop_after q.0)) [
        | inl t ↦ inl (t, sym (ok-injective (rw t at h1)))
        | inr f ↦
            let (rest, e2, h2) = bind-eq-ok _ _ (rw f at h1) in
            inr (f, rest, e2, sym (ok-injective h2))
      ],
    )

index_records-none :
    (fuel : ℕ) (s : Stream) (path : Bytes) (e : Endian) (stop_after : Bytes) (s1 : Stream)
    → read_record_length s e ≡ ok (none, s1)
    → {rs : List Record} → index_records (suc fuel) s path e stop_after ≡ ok rs
    → [] ≡ rs
unfolding index_records
index_records-none fuel s path e stop_after s1 m h =
    ok-injective (sym (ok-bind _ _) ∙ (rw (m, index_records) at h))

index_records-marker :
    (fuel : ℕ) (s : Stream) (path : Bytes) (e : Endian) (stop_after : Bytes)
    → {rs : List Record} → index_records (suc fuel) s path e stop_after ≡ ok rs
    → (m : Option ℤ) × (s1 : Stream) × (read_record_length s e ≡ ok (m, s1))
unfolding index_records
index_records-marker fuel s path e stop_after h =
    let (q, e1, _) = bind-eq-ok _ _ h in (q.0, q.1, e1)

module _ (content path : Bytes) (e : Endian) (stop_after : Bytes) where
  record_ItemsAt :
      (fuel p : ℕ) (rs : List Record)
      → ((q : ℕ) (rest : List Record)
          → index_records fuel (good content q) path e stop_after ≡ ok rest
          → ItemsAt content path e (stops stop_after) q rest)
      → (n : ℤ) (s1 : Stream) → read_record_length (good content p) e ≡ ok (some n, s1)
      → index_records (suc fuel) (good content p) path e stop_after ≡ ok rs
      → ItemsAt content path e (stops stop_after) p rs
  record_ItemsAt fuel p rs ih n s1 m h =
      let (r, s2, e1, next) = index_records-some fuel (good content p) path e stop_after n s1 m h in
      let (_, opening, s1_is) = read_record_length_sound (good content p) e n m in
      let (n_is, stop, s2_is, found) =
        read_indexed_record_sound content path e (p + 4) n r s2 (cc (e1, s1_is)) in
      let opened = subst (λ z. MarkerAt content e p z) n_is opening in
      elim next [
        | inl (t, rs_is) ↦ rw rs_is (stopped opened found t)
        | inr (f, rest, e2, rs_is) ↦ rw rs_is (item opened found f (ih stop rest (cc (e2, s2_is))))
      ]

  index_records_sound :
      (fuel p : ℕ) (rs : List Record)
      → index_records fuel (good content p) path e stop_after ≡ ok rs
      → ItemsAt content path e (stops stop_after) p rs
  unfolding index_records
  index_records_sound zero p rs h = cc
  index_records_sound (suc fuel) p rs h =
      let (m, s1, marker) = index_records-marker fuel (good content p) path e stop_after h in
      elim (Option-cases m) [
        | inl end_is ↦
            let at_last : read_record_length (good content p) e ≡ ok (none, s1) =
              cc (marker, end_is) in
            rw (← index_records-none fuel (good content p) path e stop_after s1 at_last h)
              (at_end (read_record_length-none content e p at_last))
        | inr (n, n_is) ↦
            record_ItemsAt fuel p rs (index_records_sound fuel) n s1 (cc (marker, n_is)) h
      ]

-- The index of a file, as its content determines it.
pub record IsIndex (files : Files) (path stop_after : Bytes) (index : FileIndex) : Type 0 where
  pub content : Bytes
  pub content_is : files path ≡ some content
  pub endian_is : detect_endian files path ≡ some index.endian
  pub path_is : index.file_path ≡ path
  pub items : ItemsAt content path index.endian (stops stop_after) 0 index.records

-- An index that indexing returns without an error describes the file: the byte order is the
-- detected one, and the records are the items that the bytes hold one after the other, from the
-- first byte to the end or to the first item that stops the indexing, each with its header
-- between matching markers and its data blocks.
pub index_file_sound :
    (files : Files) (path stop_after : Bytes) {index : FileIndex}
    → index_file files path stop_after ≡ ok index
    → IsIndex files path stop_after index
unfolding index_file
index_file_sound files path stop_after {index} h =
    let (e, e1, h1) = require-bind-eq-ok _ _ _ h in
    let (content, e2, h2) = require-bind-eq-ok _ _ _ h1 in
    let (rs, e3, h3) = bind-eq-ok _ _ h2 in
    rw (← ok-injective h3) (record {
      content = content;
      content_is = e2;
      endian_is = e1;
      path_is = refl;
      items =
          index_records_sound content path e stop_after (fuel_for (open_stream content)) 0 rs e3;
    })
