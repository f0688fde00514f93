-- ===== src/Eclipse/Load/Indexed.antt =====
-- Indexing a file and loading a record of the index.
use cae_openusd_plugins.Prelude.{
  some-injective, ℕ, ◌*◌, ◌<◌, ◌≡◌, sym, ap, ◌∙◌, subst, true, some, Bytes, get_elem?, arith, same,
}
use cae_openusd_plugins.Prelude.Result.{ok, true-bind}
use cae_openusd_plugins.Eclipse.Words.{read_int32}
use cae_openusd_plugins.Eclipse.Text.{trim_right}
use cae_openusd_plugins.Eclipse.Record.{
  Record, FileIndex, is_integer_record, is_floating_point_record, float_size, char,
  expected_data_bytes, expected_data_bytes-integer, expected_data_bytes-floating,
  expected_data_bytes-character,
}
use cae_openusd_plugins.Eclipse.Index.Framing.{ItemAt, ItemsAt, ItemsAt-ItemAt}
use cae_openusd_plugins.Eclipse.Index.Sound.{index_file_sound}
use cae_openusd_plugins.Eclipse.Index.Complete.{IsAddressable}
use cae_openusd_plugins.Eclipse.Index.{Files, index_file, stops}
use cae_openusd_plugins.Eclipse.Load.{
  load_values, load_int_values, Floats, decode_double, load_double_values, load_char_values,
}
use cae_openusd_plugins.Eclipse.Load.Payload.{Whole, payload_items, load_values-payload}

module _ (files : Files) (path stop_after content : Bytes) (index : FileIndex) (i : ℕ) (r : Record)
    (opened : files path ≡ some content) (addressable : IsAddressable content)
    (indexed : index_file files path stop_after ≡ ok index)
    (listed : get_elem? index.records i ≡ some r) where
  item_of_index : (q : ℕ) × (stop : ℕ) × ItemAt content path index.endian q stop r
  item_of_index =
      let at = index_file_sound files path stop_after indexed in
      let same_content = some-injective (sym at.content_is ∙ opened) in
      ItemsAt-ItemAt
        (subst (λ c. ItemsAt c path index.endian (stops stop_after) 0 index.records) same_content
          at.items)
        i listed

  -- The generic loader, at the width that the header's size stands for.
  values_of_index :
      {A : Type 0} (width : ℕ) (decode : Bytes → A)
      → 0 < width
      → ((n : ℕ) → expected_data_bytes r.count r.kind ≡ ok n → n ≡ r.count * width)
      → Whole width r.chunks
      → load_values width decode files r ≡ ok (payload_items width decode content r.chunks)
  values_of_index width decode positive size whole =
      let (q, stop, at) = item_of_index in
      load_values-payload width positive decode files r content (ap files at.path_is ∙ opened)
        addressable at.payload whole (size at.size at.size_is)

  pub load_int_values-index_file :
      is_integer_record r ≡ true
      → Whole 4 r.chunks
      → load_int_values files r
        ≡ ok (payload_items 4 (λ bytes. read_int32 bytes r.endian) content r.chunks)
  unfolding load_int_values
  load_int_values-index_file integer whole =
      rw (integer, true-bind)
        (values_of_index 4 (λ bytes. read_int32 bytes r.endian) (omega arith)
          (λ n h. expected_data_bytes-integer r n integer h) whole)

  pub load_double_values-index_file :
      (floats : Floats)
      → is_floating_point_record r ≡ true
      → Whole (float_size r) r.chunks
      → load_double_values floats files r
        ≡ ok (payload_items (float_size r) (decode_double floats r) content r.chunks)
  unfolding load_double_values
  load_double_values-index_file floats floating whole =
      rw (floating, true-bind)
        (values_of_index (float_size r) (decode_double floats r) (ground arith)
          (λ n h. expected_data_bytes-floating r n floating h) whole)

  pub load_char_values-index_file :
      same r.kind char ≡ true
      → Whole 8 r.chunks
      → load_char_values files r ≡ ok (payload_items 8 trim_right content r.chunks)
  unfolding load_char_values
  load_char_values-index_file character whole =
      rw (character, true-bind)
        (values_of_index 8 trim_right (omega arith)
          (λ n h. expected_data_bytes-character r n character h) whole)
