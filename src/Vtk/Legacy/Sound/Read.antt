-- ===== src/Vtk/Legacy/Sound/Read.antt =====
-- The reader of ScalarPayloadReader.cpp on the arrays that the parser has found.
use cae_openusd_plugins.Prelude.{
  ℕ, zero, suc, ◌+◌, ◌*◌, ◌^◌, ◌≤◌, ◌<◌, ◌≡◌, refl, sym, subst, ap, ◌∙◌, Bool, true, false, Option,
  some, List, [], ◌∷◌, Bytes, length, take, drop, get_elem?, ==_iff, leb, le→leb, arith,
}
use cae_openusd_plugins.Prelude.Int.{pos_part}
use cae_openusd_plugins.Prelude.Result.{Result, ok, ◌>>=◌, ◌>>◌, guard, require}
use cae_openusd_plugins.Stream.{streamoff_max}
use cae_openusd_plugins.Vtk.Error.{Error}
use cae_openusd_plugins.Vtk.Types.{ScalarType, int8, size_max, scalar_byte_size, decoded_byte_count}
use cae_openusd_plugins.Vtk.Sizes.Exact.{fits}
use cae_openusd_plugins.Vtk.Range.{task_count_for_bytes}
use cae_openusd_plugins.Vtk.Range.AnyOrder.{IsOrder}
use cae_openusd_plugins.Vtk.Segment.{FileHandle, PayloadSegmentSpec, normalize}
use cae_openusd_plugins.Vtk.Segment.Raw.{read_raw_into_lem}
use cae_openusd_plugins.Vtk.Payload.{
  plain_binary, PayloadSourceSpec, XmlCompressor, validate_target, read_segment, read_segment_into,
  read_direct,
}
use cae_openusd_plugins.Vtk.DatasetSpec.{ArraySpec, DatasetSpec}
use cae_openusd_plugins.Vtk.Legacy.{Settings, storage_kind_of, request_of}
use cae_openusd_plugins.Vtk.Legacy.File.{parse_legacy}
use cae_openusd_plugins.Vtk.Legacy.Sound.{IsRange, IsSoundArray, AllSound}
use cae_openusd_plugins.Vtk.Legacy.Sound.File.{parse_legacy_sound}

sound_elem :
    (binary : Bool) (arrays : List ArraySpec) (i : ℕ) (array : ArraySpec)
    → AllSound binary arrays
    → get_elem? arrays i ≡ some array
    → IsSoundArray binary array
sound_elem binary [] i array h e = cc
sound_elem binary (a ∷ arrays) zero array (ha, h) e = subst (IsSoundArray binary) (cc e) ha
sound_elem binary (a ∷ arrays) (suc i) array (ha, h) e = sound_elem binary arrays i array h e

is_binary : (binary : Bool) → storage_kind_of binary ≡ plain_binary → binary ≡ true
is_binary true h = refl
is_binary false h = cc

scalar_byte_size_pos : (t : ScalarType) → 0 < scalar_byte_size t
scalar_byte_size_pos int8 = omega arith
scalar_byte_size_pos _ = omega arith

validate_target-fits :
    (t : ScalarType) (count : ℕ) (target : Bytes)
    → length target ≡ count * scalar_byte_size t
    → length target ≤ streamoff_max
    → validate_target (request_of t count) target ≡ ok tt
unfolding validate_target decoded_byte_count guard ◌>>=◌
validate_target-fits t count target h small =
    rw
      (
        fits count (scalar_byte_size t) size_max (scalar_byte_size_pos t) (omega (arith, h, small)),
        (==_iff (length target) (count * scalar_byte_size t)).1 h,
      )
      refl

head_eq : (a b : PayloadSegmentSpec) → a ∷ [] ≡ b ∷ [] → a ≡ b
head_eq a b h = cc

range_count :
    (binary : Bool) (count : ℕ) (t : ScalarType) (segment : PayloadSegmentSpec)
    → binary ≡ true
    → IsRange binary count t segment
    → segment.byte_count ≡ count * scalar_byte_size t
range_count true count t segment e range = range.0
range_count false count t segment e range = cc

counted_range :
    {binary : Bool} {array : ArraySpec}
    → binary ≡ true
    → (sound : IsSoundArray binary array)
    → sound.payload.segment.byte_count
      ≡ array.tuple_count * pos_part array.component_count * scalar_byte_size array.scalar_type
counted_range e sound = range_count _ _ _ _ e sound.payload.range

module _ (parse : ScalarType → Bytes → Result Error Bytes)
    (decompress : XmlCompressor → Bytes → ℕ → Option Bytes) where
  read_plain :
      (file : FileHandle) (content : Bytes) (source : PayloadSourceSpec)
      (segment : PayloadSegmentSpec) (t : ScalarType) (count : ℕ) (target : Bytes)
      → source.storage_kind ≡ plain_binary
      → source.segments ≡ segment ∷ []
      → file.content ≡ some content
      → IsOrder file.order
      → segment.byte_count ≡ count * scalar_byte_size t
      → segment.start_offset + segment.byte_count ≤ length content
      → length content ≤ streamoff_max
      → length target ≡ segment.byte_count
      → length target * task_count_for_bytes file.limit file.io_threads (length target) < 2 ^ 64
      → read_direct parse decompress file source (request_of t count) target
        ≡ normalize file (take (length target) (drop segment.start_offset content)) t
  unfolding read_direct read_segment_into read_segment guard ◌>>=◌ ◌>>◌ require
  read_plain file content source segment t count target is_plain one opened order counted inside
        small room no_wrap =
      let raw =
        read_raw_into_lem file content segment target (length target) t 0 opened order inside small
          refl no_wrap in
      let at_start : segment.start_offset + 0 ≡ segment.start_offset = omega arith in
      let whole : leb (0 + length target) segment.byte_count ≡ true =
        le→leb _ _ (omega (arith, room)) in
      let validated : validate_target (request_of t count) target ≡ ok tt =
        validate_target-fits t count target (room ∙ counted) (omega (arith, room, inside, small)) in
      rw (is_plain, validated, one) (raw ∙ rw (whole, at_start) refl)

  -- An array of a dataset that a legacy file is parsed to, with one segment of plain binary
  -- storage that lies in the file, is read by the direct reader, into a target of the bytes of
  -- the segment, as these bytes of the file in the byte order of the host; their number is that
  -- of the tuples, by the components and the bytes of a value. The file is one that opens and
  -- that a stream position can address, the tasks run in any order that has each of them, and no
  -- product of the size and a task number wraps around.
  pub read_direct-parse_legacy :
      (settings : Settings) (content : Bytes) (d : DatasetSpec) (i : ℕ) (array : ArraySpec)
      (segment : PayloadSegmentSpec) (file : FileHandle) (target : Bytes)
      → parse_legacy settings (some content) ≡ ok d
      → get_elem? d.arrays i ≡ some array
      → array.payload.source.storage_kind ≡ plain_binary
      → array.payload.source.segments ≡ segment ∷ []
      → file.content ≡ some content
      → IsOrder file.order
      → segment.start_offset + segment.byte_count ≤ length content
      → length content ≤ streamoff_max
      → length target ≡ segment.byte_count
      → length target * task_count_for_bytes file.limit file.io_threads (length target) < 2 ^ 64
      → (segment.byte_count
          ≡ array.tuple_count * pos_part array.component_count * scalar_byte_size array.scalar_type)
        × (read_direct parse decompress file array.payload.source array.payload.request target
            ≡ normalize file
                (take (length target) (drop segment.start_offset content))
                array.scalar_type)
  read_direct-parse_legacy settings content d i array segment file target parsed elem is_plain one
        opened order inside small room no_wrap =
      let (header, input, _, all_sound, _) = parse_legacy_sound settings content d parsed in
      let sound = sound_elem header.binary d.arrays i array all_sound elem in
      let binary = is_binary header.binary (sym sound.payload.storage ∙ is_plain) in
      let same_segment : sound.payload.segment ≡ segment =
        head_eq _ _ (sym sound.payload.one_segment ∙ one) in
      let range = counted_range binary sound in
      let counted = ap (λ (s : PayloadSegmentSpec). s.byte_count) (sym same_segment) ∙ range in
      (
        counted,
        rw (sound.payload.request) (
            read_plain file content array.payload.source segment array.scalar_type
              (array.tuple_count * pos_part array.component_count) target is_plain one opened order
              counted inside small room no_wrap),
      )
