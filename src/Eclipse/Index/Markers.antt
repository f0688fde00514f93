-- ===== src/Eclipse/Index/Markers.antt =====
-- `read_record_length` and the markers of the grammar.
use cae_openusd_plugins.Prelude.{
  ℕ, ◌+◌, ◌≤◌, ◌≡◌, sym, ap, ◌∙◌, length-take, length-drop, none, some, Bytes, length, take, drop,
  arith,
}
use cae_openusd_plugins.Prelude.Int.{ℤ}
use cae_openusd_plugins.Prelude.Result.{ok}
use cae_openusd_plugins.Stream.{
  Stream, good, read, read-good, read-end, length-read-good, read_full-good,
}
use cae_openusd_plugins.Eclipse.Words.{Endian, read_int32}
use cae_openusd_plugins.Eclipse.Index.Framing.{MarkerAt}
use cae_openusd_plugins.Eclipse.Index.{read_record_length}

pub read_record_length_sound :
    (s : Stream) (e : Endian) (n : ℤ) {s' : Stream}
    → read_record_length s e ≡ ok (some n, s')
    → (s ≡ good s.content s.pos) × MarkerAt s.content e s.pos n × (s' ≡ good s.content (s.pos + 4))
unfolding read_record_length
read_record_length_sound s e n {s'} h =
    let full : length (read 4 s).0 ≡ 4 = ground arith in
    let (s_is, fits, r) = read_full-good 4 s (omega arith) full in
    let value : read_int32 (read 4 s).0 e ≡ n = ground arith in
    let after : s' ≡ (read 4 s).1 = ground arith in
    (
      s_is,
      record { fits = fits; value = ap (λ (p : Bytes × Stream). read_int32 p.0 e) (sym r) ∙ value },
      after ∙ ap (λ (p : Bytes × Stream). p.1) r,
    )

pub read_record_length_complete :
    (content : Bytes) (e : Endian) (p : ℕ) (n : ℤ)
    → MarkerAt content e p n
    → read_record_length (good content p) e ≡ ok (some n, good content (p + 4))
unfolding read_record_length
read_record_length_complete content e p n m =
    let r = read-good content p 4 m.fits in
    let full : length (take 4 (drop p content)) ≡ 4 =
      omega (arith, length-take 4 (drop p content), length-drop p content, m.fits) in
    ground (arith, r, full, m.value)

-- At the end of the file the loop over records stops.
pub read_record_length-end :
    (content : Bytes) (e : Endian) (p : ℕ)
    → length content ≤ p
    → (s' : Stream) × (read_record_length (good content p) e ≡ ok (none, s'))
unfolding read_record_length
read_record_length-end content e p h =
    let r = read-end content p 4 h (omega arith) in
    ((read 4 (good content p)).1, ground (arith, r.0, r.1))

-- A refusal at the start of a record means the end of the file, in a good stream.
pub read_record_length-none :
    (content : Bytes) (e : Endian) (p : ℕ) {s' : Stream}
    → read_record_length (good content p) e ≡ ok (none, s')
    → length content ≤ p
unfolding read_record_length
read_record_length-none content e p h = ground (arith, length-read-good content p 4)
