-- ===== src/Stream.antt =====
-- `std::ifstream` in binary mode, as the readers use it: a position in a byte string and the state
-- bits. A read that meets the end sets eofbit and failbit; a seek beyond the end succeeds.
use cae_openusd_plugins.Prelude.{
  ℕ, ◌+◌, ◌-◌, ◌^◌, ◌≤◌, ◌<◌, min, ◌≡◌, refl, ap, ◌∙◌, Bool, true, false, ◌||◌, Option, none, some,
  Bytes, [], length, take, drop, length-take, length-drop, eq_nil, arith, ltb, lt→ltb,
  if◌then◌else◌,
}

pub record Stream : Type 0 where
  pub content : Bytes
  pub pos : ℕ
  pub eof : Bool
  pub fail : Bool

abbrev pub open_stream : Bytes → Stream
open_stream content = record { content = content; pos = 0; eof = false; fail = false }

-- std::numeric_limits<std::streamoff>::max(), also that of std::streamsize.
abbrev pub streamoff_max : ℕ
streamoff_max = 2 ^ 63 - 1

-- `input.read(data, n)`: the bytes stored, whose number is `gcount()`, and the stream.
unfoldable pub read : ℕ → Stream → Bytes × Stream
read n s =
    let got = take n (drop s.pos s.content) in
    let short = ltb (length got) n in
    if s.eof || s.fail
    then ([], record s { fail = true })
    else (got, record s { pos = s.pos + length got; eof = short; fail = short })

-- `input.tellg()`; `none` is -1.
unfoldable pub tellg : Stream → Option ℕ
tellg s = if s.eof || s.fail then none else some s.pos

seek_to : ℕ → Stream → Stream
seek_to target s =
    if s.fail
    then record s { eof = false }
    else if ltb streamoff_max target
    then record s { eof = false; fail = true }
    else record s { eof = false; pos = target }

-- `input.seekg(n, std::ios::cur)`
unfoldable pub seek_cur : ℕ → Stream → Stream
unfolding seek_to
seek_cur n s = seek_to (s.pos + n) s

-- `input.seekg(n, std::ios::beg)`
unfoldable pub seek_beg : ℕ → Stream → Stream
unfolding seek_to
seek_beg n s = seek_to n s

-- A stream whose state bits are clear.
abbrev pub good : Bytes → ℕ → Stream
good content pos = record { content = content; pos = pos; eof = false; fail = false }

length-take-drop :
    (content : Bytes) (p n : ℕ) → length (take n (drop p content)) ≡ min n (length content - p)
length-take-drop content p n = omega (arith, length-take n (drop p content), length-drop p content)

-- A read that finds its bytes takes them and moves on.
pub read-good :
    (content : Bytes) (p n : ℕ)
    → p + n ≤ length content
    → read n (good content p) ≡ (take n (drop p content), good content (p + n))
unfolding read
read-good content p n h =
    let e : length (take n (drop p content)) ≡ n = omega (arith, length-take-drop content p n) in
    ground (arith, e)

pub length-read-good :
    (content : Bytes) (p n : ℕ) → length (read n (good content p)).0 ≡ min n (length content - p)
unfolding read
length-read-good content p n = length-take-drop content p n

pub read-good_bits :
    (content : Bytes) (p n : ℕ)
    → let r = read n (good content p) in
      (r.1.eof ≡ ltb (length r.0) n) × (r.1.fail ≡ ltb (length r.0) n)
unfolding read
read-good_bits content p n = (refl, refl)

-- A read at the end, or beyond, gives nothing and sets both bits.
pub read-end :
    (content : Bytes) (p n : ℕ)
    → length content ≤ p
    → 0 < n
    → ((read n (good content p)).0 ≡ []) × ((read n (good content p)).1.eof ≡ true)
unfolding read
read-end content p n h positive =
    let z : take n (drop p content) ≡ [] = eq_nil _ (omega (arith, length-take-drop content p n)) in
    (z, rw z (lt→ltb _ _ positive))

-- A read that gets all its bytes was made by a stream in good state, within the file.
pub read_full :
    (n : ℕ) (s : Stream)
    → 0 < n
    → length (read n s).0 ≡ n
    → (s.eof ≡ false) × (s.fail ≡ false) × (s.pos + n ≤ length s.content)
unfolding read
read_full n s h e = ground (arith, length-take-drop s.content s.pos n)

pub seek_cur-good :
    (content : Bytes) (p n : ℕ)
    → p + n ≤ streamoff_max
    → seek_cur n (good content p) ≡ good content (p + n)
unfolding seek_cur
seek_cur-good content p n h = ground arith

pub seek_cur_inv :
    (content : Bytes) (p n : ℕ)
    → (seek_cur n (good content p)).fail ≡ false
    → (seek_cur n (good content p) ≡ good content (p + n)) × (p + n ≤ streamoff_max)
unfolding seek_cur
seek_cur_inv content p n h = ground arith

pub seek_beg-good :
    (content : Bytes) (n : ℕ)
    → n ≤ streamoff_max
    → seek_beg n (open_stream content) ≡ good content n
unfolding seek_beg
seek_beg-good content n h = ground arith

pub tellg-good : (content : Bytes) (p : ℕ) → tellg (good content p) ≡ some p
unfolding tellg
tellg-good content p = refl

-- So such a stream is a good one, and the read is that of `read-good`.
pub read_full-good :
    (n : ℕ) (s : Stream)
    → 0 < n
    → length (read n s).0 ≡ n
    → (s ≡ good s.content s.pos)
      × (s.pos + n ≤ length s.content)
      × (read n s ≡ (take n (drop s.pos s.content), good s.content (s.pos + n)))
read_full-good n s h e =
    let (eof_is, fail_is, fits) = read_full n s h e in
    let s_is : s ≡ good s.content s.pos = cc in
    (s_is, fits, ap (read n) s_is ∙ read-good s.content s.pos n fits)
