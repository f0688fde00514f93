-- ===== src/Eclipse/Index/Framing.antt =====
-- The grammar of a file as positions in its bytes, apart from how the reader walks over them.
use cae_openusd_plugins.Prelude.{
  ℕ, ◌+◌, ◌-◌, ◌≤◌, ◌<◌, ◌≡◌, Bool, true, false, Bytes, List, [], ◌∷◌, length, get_elem?, some,
  some-injective, zero, suc, subst, take, drop, ◌*◌, arith,
}
use cae_openusd_plugins.Prelude.Int.{ℤ, pos}
use cae_openusd_plugins.Prelude.Result.{ok}
use cae_openusd_plugins.Eclipse.Words.{Endian, read_int32}
use cae_openusd_plugins.Eclipse.Text.{trim_right}
use cae_openusd_plugins.Eclipse.Record.{DataChunk, Record, expected_data_bytes}

-- The four bytes at `p` are the marker `n`.
pub record MarkerAt (content : Bytes) (e : Endian) (p : ℕ) (n : ℤ) : Type 0 where
  pub fits : p + 4 ≤ length content
  pub value : read_int32 (take 4 (drop p content)) e ≡ n

-- From `p` to `stop` the file holds data blocks of `left` bytes in all, each between two markers of
-- its length, and `chunks` are the byte ranges of their payloads.
pub data ChunksAt (content : Bytes) (e : Endian) (stop : ℕ) : ℕ → ℕ → List DataChunk → Type 0 where
  last : {p left : ℕ} → left ≡ 0 → p ≡ stop → ChunksAt content e stop p left []
  block :
      {p left : ℕ} {c : DataChunk} {rest : List DataChunk}
      → 0 < left
      → c.offset ≡ p + 4
      → c.byte_count ≤ left
      → MarkerAt content e p (pos c.byte_count)
      → MarkerAt content e (p + 4 + c.byte_count) (pos c.byte_count)
      → ChunksAt content e stop (p + 4 + c.byte_count + 4) (left - c.byte_count) rest
      → ChunksAt content e stop p left (c ∷ rest)

-- From `p`, behind the opening marker of the item header, to `stop` the file holds the item `r`.
pub record ItemAt (content path : Bytes) (e : Endian) (p stop : ℕ) (r : Record) : Type 0 where
  pub header_fits : p + 16 ≤ length content
  pub closing : MarkerAt content e (p + 16) (pos 16)
  pub keyword_is : r.keyword ≡ trim_right (take 8 (take 16 (drop p content)))
  pub kind_is : r.kind ≡ trim_right (take 4 (drop 12 (take 16 (drop p content))))
  pub count_is : read_int32 (drop 8 (take 16 (drop p content))) e ≡ pos r.count
  pub path_is : r.file_path ≡ path
  pub endian_is : r.endian ≡ e
  pub size : ℕ
  pub size_is : expected_data_bytes r.count r.kind ≡ ok size
  pub payload : ChunksAt content e stop (p + 16 + 4) size r.chunks

-- From `p` on the file holds these items: up to its end, or up to the first one that `stops`.
pub data ItemsAt (content path : Bytes) (e : Endian) (stops : Record → Bool)
    : ℕ → List Record → Type 0 where
  at_end : {p : ℕ} → length content ≤ p → ItemsAt content path e stops p []
  stopped :
      {p stop : ℕ} {r : Record}
      → MarkerAt content e p (pos 16)
      → ItemAt content path e (p + 4) stop r
      → stops r ≡ true
      → ItemsAt content path e stops p (r ∷ [])
  item :
      {p stop : ℕ} {r : Record} {rest : List Record}
      → MarkerAt content e p (pos 16)
      → ItemAt content path e (p + 4) stop r
      → stops r ≡ false
      → ItemsAt content path e stops stop rest
      → ItemsAt content path e stops p (r ∷ rest)

module _ {content : Bytes} {e : Endian} where
  -- Each block takes eight bytes of the file at least.
  pub ChunksAt-length :
      {stop p left : ℕ} {cs : List DataChunk}
      → ChunksAt content e stop p left cs
      → p ≤ length content
      → (p + 8 * length cs ≤ stop) × (stop ≤ length content)
  ChunksAt-length (last l p) b = omega arith
  ChunksAt-length (block positive o w opening closing rest) b =
      omega (arith, ChunksAt-length rest closing.fits)

  pub ItemAt-length :
      {path : Bytes} {p stop : ℕ} {r : Record}
      → ItemAt content path e p stop r
      → (p + 20 ≤ stop) × (stop ≤ length content)
  ItemAt-length at = omega (arith, ChunksAt-length at.payload at.closing.fits)

  pub ItemsAt-length :
      {path : Bytes} {stops : Record → Bool} {p : ℕ} {rs : List Record}
      → ItemsAt content path e stops p rs
      → p ≤ length content
      → p + length rs ≤ length content
  ItemsAt-length (at_end b) h = omega arith
  ItemsAt-length (stopped m at t) h = omega (arith, ItemAt-length at)
  ItemsAt-length (item m at f rest) h =
      let l = ItemAt-length at in omega (arith, ItemsAt-length rest l.1)

  -- Every record of an index is an item of the file.
  pub ItemsAt-ItemAt :
      {path : Bytes} {stops : Record → Bool} {p : ℕ} {rs : List Record}
      → ItemsAt content path e stops p rs
      → (i : ℕ) {r : Record} → get_elem? rs i ≡ some r
      → (q : ℕ) × (stop : ℕ) × ItemAt content path e q stop r
  ItemsAt-ItemAt (at_end b) i h = cc
  ItemsAt-ItemAt {path} (stopped {p} {stop} m at t) zero h =
      (p + 4, stop, subst (λ r. ItemAt content path e (p + 4) stop r) (some-injective h) at)
  ItemsAt-ItemAt (stopped m at t) (suc i) h = cc
  ItemsAt-ItemAt {path} (item {p} {stop} m at f rest) zero h =
      (p + 4, stop, subst (λ r. ItemAt content path e (p + 4) stop r) (some-injective h) at)
  ItemsAt-ItemAt (item m at f rest) (suc i) h = ItemsAt-ItemAt rest i h
