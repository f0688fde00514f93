-- ===== src/Eclipse/Load/Agree.antt =====
-- The two loaders of each type: one into a growing vector and one into an array of the declared
-- size.
use cae_openusd_plugins.Prelude.{
  ℕ, ◌+◌, ◌≤◌, ◌≡◌, ◌↔◌, sym, ap, ◌∙◌, Bytes, List, [], ◌∷◌, ◌++◌, append_assoc, append-nil, length,
  length-append, arith, leb, false,
}
use cae_openusd_plugins.Prelude.Result.{
  ok, ◌>>◌, guard, bind-eq-ok, guard-bind-eq-ok, ok-bind, true-bind, ok-injective,
}
use cae_openusd_plugins.Eclipse.Record.{Record, DataChunk, float_size}
use cae_openusd_plugins.Prelude.Int.{ℤ}
use cae_openusd_plugins.Eclipse.Words.{read_int32}
use cae_openusd_plugins.Eclipse.Index.{Files}
use cae_openusd_plugins.Eclipse.Load.{
  decode_items, load_chunks, load_values, store_items, store_chunks, load_array, load_int_values,
  load_int_array, Floats, decode_double, load_double_values, load_double_array,
}

module _ {A : Type 0} where
  store_items_sound :
      (r : Record) (stored values : List A) {out : List A}
      → store_items r stored values ≡ ok out
      → (out ≡ stored ++ values)
  unfolding store_items
  store_items_sound r stored [] h = sym (ok-injective h) ∙ sym (append-nil stored)
  store_items_sound r stored (v ∷ vs) h =
      let (_, h1) = guard-bind-eq-ok _ _ _ h in
      store_items_sound r (stored ++ v ∷ []) vs h1 ∙ append_assoc stored (v ∷ []) vs

  store_items_complete :
      (r : Record) (stored values : List A)
      → length stored + length values ≤ r.count
      → store_items r stored values ≡ ok (stored ++ values)
  unfolding store_items ◌>>◌ guard
  store_items_complete r stored [] h = ap ok (sym (append-nil stored))
  store_items_complete r stored (v ∷ vs) h =
      let one : length (stored ++ v ∷ []) ≡ length stored + 1 = length-append stored (v ∷ []) in
      let rest = store_items_complete r (stored ++ v ∷ []) vs (omega (arith, one)) in
      let room : leb r.count (length stored) ≡ false = ground arith in
      rw (room, rest, store_items) (ap ok (append_assoc stored (v ∷ []) vs))

module _ {A : Type 0} (width : ℕ) (decode : Bytes → A) (files : Files) (r : Record) where
  -- Storing within the room that the array has is appending.
  store_chunks_sound :
      (chunks : List DataChunk) (stored : List A) {out : List A}
      → store_chunks width decode files r stored chunks ≡ ok out
      → load_chunks width decode files r stored chunks ≡ ok out
  unfolding store_chunks load_chunks
  store_chunks_sound [] stored h = h
  store_chunks_sound (c ∷ cs) stored {out} h =
      let (whole, h1) = guard-bind-eq-ok _ _ _ h in
      let (size, e1, h2) = bind-eq-ok _ _ h1 in
      let (bytes, e2, h3) = bind-eq-ok _ _ h2 in
      let (stored', e3, h4) = bind-eq-ok _ _ h3 in
      let appended = store_items_sound r stored _ e3 in
      rw (whole, true-bind, e1, ok-bind, e2, ok-bind, ← appended) (store_chunks_sound cs stored' h4)

  load_chunks-length :
      (chunks : List DataChunk) (values : List A) {out : List A}
      → load_chunks width decode files r values chunks ≡ ok out
      → length values ≤ length out
  unfolding load_chunks
  load_chunks-length [] values h = omega (arith, ap length (ok-injective h))
  load_chunks-length (c ∷ cs) values h =
      let (whole, h1) = guard-bind-eq-ok _ _ _ h in
      let (size, e1, h2) = bind-eq-ok _ _ h1 in
      let (bytes, e2, h3) = bind-eq-ok _ _ h2 in
      let items = decode_items width decode (length bytes) bytes in
      omega (arith, load_chunks-length cs (values ++ items) h3, length-append values items)

  store_chunks_complete :
      (chunks : List DataChunk) (stored : List A) {out : List A}
      → load_chunks width decode files r stored chunks ≡ ok out
      → length out ≤ r.count
      → store_chunks width decode files r stored chunks ≡ ok out
  unfolding store_chunks load_chunks
  store_chunks_complete [] stored h room = h
  store_chunks_complete (c ∷ cs) stored {out} h room =
      let (whole, h1) = guard-bind-eq-ok _ _ _ h in
      let (size, e1, h2) = bind-eq-ok _ _ h1 in
      let (bytes, e2, h3) = bind-eq-ok _ _ h2 in
      let items = decode_items width decode (length bytes) bytes in
      let grown = load_chunks-length cs (stored ++ items) h3 in
      let stores =
        store_items_complete r stored items
          (omega (arith, grown, room, length-append stored items)) in
      rw (whole, true-bind, e1, ok-bind, e2, ok-bind, stores, ok-bind)
        (store_chunks_complete cs (stored ++ items) h3 room)

  pub load_array-eq-load_values :
      (out : List A)
      → (load_array width decode files r ≡ ok out) ↔ (load_values width decode files r ≡ ok out)
  unfolding load_array load_values
  load_array-eq-load_values out = (
    (λ h.
        let (stored, e1, h1) = bind-eq-ok _ _ h in
        rw (store_chunks_sound r.chunks [] e1, ok-bind) h1),
    (λ h.
        let (values, e1, h1) = bind-eq-ok _ _ h in
        let (full, h2) = guard-bind-eq-ok _ _ _ h1 in
        let room : length values ≤ r.count = ground (arith, full) in
        rw (store_chunks_complete r.chunks [] e1 room, ok-bind) h1),
  )

-- The loader of integers into an array of the declared size and the one into a growing vector
-- succeed on the same records, with the same values.
pub load_int_array-eq-load_int_values :
    (files : Files) (r : Record) (out : List ℤ)
    → (load_int_array files r ≡ ok out) ↔ (load_int_values files r ≡ ok out)
unfolding load_int_array load_int_values
load_int_array-eq-load_int_values files r out =
    let same = load_array-eq-load_values 4 (λ bytes. read_int32 bytes r.endian) files r out in
    (
      (λ h. let (t, h1) = guard-bind-eq-ok _ _ _ h in rw (t, true-bind) (same.0 h1)),
      (λ h. let (t, h1) = guard-bind-eq-ok _ _ _ h in rw (t, true-bind) (same.1 h1)),
    )

-- The loader of floating-point values into an array of the declared size and the one into a
-- growing vector succeed on the same records, with the same values, whatever the conversions of
-- the machine are.
pub load_double_array-eq-load_double_values :
    (floats : Floats) (files : Files) (r : Record) (out : List floats.Double)
    → (load_double_array floats files r ≡ ok out) ↔ (load_double_values floats files r ≡ ok out)
unfolding load_double_array load_double_values
load_double_array-eq-load_double_values floats files r out =
    let same = load_array-eq-load_values (float_size r) (decode_double floats r) files r out in
    (
      (λ h. let (t, h1) = guard-bind-eq-ok _ _ _ h in rw (t, true-bind) (same.0 h1)),
      (λ h. let (t, h1) = guard-bind-eq-ok _ _ _ h in rw (t, true-bind) (same.1 h1)),
    )
