-- ===== src/Eclipse/Index/Chunks.antt =====
-- `read_chunks` and the data blocks of the grammar.
use cae_openusd_plugins.Prelude.{
  ℕ, zero, suc, ◌+◌, ◌-◌, ◌^◌, ◌%◌, ◌≤◌, ◌<◌, ◌≡◌, refl, sym, ap, subst, ◌∙◌, true, false,
  Bool-cases, inl, inr, Option, none, some, Bytes, List, [], ◌∷◌, arith, ltb, ltb→lt,
}
use cae_openusd_plugins.Prelude.Int.{ℤ, pos, to_nat, ==ℤ_iff, pos-to_nat}
use cae_openusd_plugins.Prelude.Result.{
  ok, require, bind-eq-ok, guard-bind-eq-ok, require-bind-eq-ok, ok-injective,
}
use cae_openusd_plugins.Stream.{Stream, good, tellg-good, seek_cur_inv}
use cae_openusd_plugins.Eclipse.Words.{Endian, read_int32-pos}
use cae_openusd_plugins.Eclipse.Record.{DataChunk}
use cae_openusd_plugins.Eclipse.Index.Framing.{MarkerAt, ChunksAt, last, block}
use cae_openusd_plugins.Eclipse.Index.Markers.{read_record_length_sound}
use cae_openusd_plugins.Eclipse.Index.{
  read_record_length, tell, seek_forward, closes, read_chunk, read_chunks,
}

pub tell-good : (content : Bytes) (p : ℕ) → tell (good content p) ≡ ok p
unfolding tell require
tell-good content p = rw tellg-good

seek_forward_sound :
    (content : Bytes) (p n : ℕ) (s' : Stream)
    → seek_forward n (good content p) ≡ ok s'
    → s' ≡ good content (p + n)
unfolding seek_forward
seek_forward_sound content p n s' h = ground (arith, seek_cur_inv content p n)

pub closes_sound : (m : Option ℤ) (n : ℤ) → closes m n ≡ true → m ≡ some n
closes_sound none n h = cc
closes_sound (some m) n h = ap some ((==ℤ_iff m n).0 h)

-- One block: between its markers, and no longer than what is left.
pub record BlockAt (content : Bytes) (e : Endian) (p left : ℕ) (c : DataChunk) : Type 0 where
  pub offset_is : c.offset ≡ p + 4
  pub within : c.byte_count ≤ left
  pub opening : MarkerAt content e p (pos c.byte_count)
  pub closing : MarkerAt content e (p + 4 + c.byte_count) (pos c.byte_count)

pub some_marker :
    (s : Stream) (e : Endian) (m : Option ℤ × Stream) (n : ℤ)
    → read_record_length s e ≡ ok m
    → m.0 ≡ some n
    → read_record_length s e ≡ ok (some n, m.1)
some_marker s e m n h k = cc

-- A round that succeeds has read one block, in a good stream.
abbrev pub Round : Stream → Endian → ℕ → DataChunk → Stream → Type 0
Round s e left c s' =
    (s ≡ good s.content s.pos)
    × BlockAt s.content e s.pos left c
    × (s' ≡ good s.content (s.pos + 4 + c.byte_count + 4))

pub read_chunk_sound :
    (s : Stream) (e : Endian) (keyword : Bytes) (expected bytes_read : ℕ)
    → bytes_read ≤ expected
    → expected < 2 ^ 63
    → {c : DataChunk} {s' : Stream} → read_chunk s e keyword expected bytes_read ≡ ok (c, s')
    → Round s e (expected - bytes_read) c s'
unfolding read_chunk
read_chunk_sound s e keyword expected bytes_read b x {c} {s'} h =
    let (m1, e1, h1) = bind-eq-ok _ _ h in
    let (n, e2, h2) = require-bind-eq-ok _ _ _ h1 in
    let (e3, h3) = guard-bind-eq-ok _ _ _ h2 in
    let (e4, h4) = guard-bind-eq-ok _ _ _ h3 in
    let (offset, e5, h5) = bind-eq-ok _ _ h4 in
    let (s2, e6, h6) = bind-eq-ok _ _ h5 in
    let (m7, e7, h7) = bind-eq-ok _ _ h6 in
    let (e8, h8) = guard-bind-eq-ok _ _ _ h7 in
    let k = to_nat n in
    let n_is : n ≡ pos k = pos-to_nat n (ground (arith, e3)) in
    let (s_is, opening, s1_is) = read_record_length_sound s e n (some_marker s e m1 n e1 e2) in
    let below : k < 2 ^ 31 = read_int32-pos _ e k (opening.value ∙ n_is) in
    let within : k ≤ expected - bytes_read = ground (arith, e4, below) in
    let offset_is : s.pos + 4 ≡ offset =
      ok-injective (sym (tell-good s.content (s.pos + 4)) ∙ ap tell (sym s1_is) ∙ e5) in
    let s2_is : s2 ≡ good s.content (s.pos + 4 + k) =
      seek_forward_sound s.content (s.pos + 4) k s2 (ap (seek_forward k) (sym s1_is) ∙ e6) in
    let closed = some_marker s2 e m7 n e7 (closes_sound m7.0 n e8) in
    let (s2_good, closing, s3_is) =
      read_record_length_sound (good s.content (s.pos + 4 + k)) e n
        (ap (λ (t : Stream). read_record_length t e) (sym s2_is) ∙ closed) in
    let last_is = ok-injective h8 in
    let size : k ≡ c.byte_count = ap (λ (p : DataChunk × Stream). p.0.byte_count) last_is in
    let c_offset = offset_is ∙ ap (λ (p : DataChunk × Stream). p.0.offset) last_is in
    let marker_is : n ≡ pos c.byte_count = n_is ∙ ap pos size in
    (
      s_is,
      record {
        offset_is = sym c_offset;
        within = omega (arith, size, within);
        opening = subst (λ z. MarkerAt s.content e s.pos z) marker_is opening;
        closing =
            subst (λ l. MarkerAt s.content e (s.pos + 4 + l) (pos c.byte_count)) size
              (subst (λ z. MarkerAt s.content e (s.pos + 4 + k) z) marker_is closing);
      },
      sym (ap (λ (p : DataChunk × Stream). p.1) last_is)
          ∙ s3_is
          ∙ ap (λ l. good s.content (s.pos + 4 + l + 4)) size,
    )

-- What a run of the loop that makes one more round consists of.
read_chunks-more :
    (fuel : ℕ) (s : Stream) (e : Endian) (keyword : Bytes) (expected bytes_read : ℕ)
    → ltb bytes_read expected ≡ true
    → {cs : List DataChunk} {s' : Stream}
    → read_chunks (suc fuel) s e keyword expected bytes_read ≡ ok (cs, s')
    → (c : DataChunk) × (s1 : Stream) × (rest : List DataChunk) × (read_chunk s e keyword expected
          bytes_read
        ≡ ok (c, s1))
      × (read_chunks fuel s1 e keyword expected ((bytes_read + c.byte_count) % 2 ^ 64)
          ≡ ok (rest, s'))
      × (c ∷ rest ≡ cs)
unfolding read_chunks
read_chunks-more fuel s e keyword expected bytes_read more h =
    let (r1, e1, h1) = bind-eq-ok _ _ (rw (more, read_chunks) at h) in
    let (r2, e2, h2) = bind-eq-ok _ _ h1 in (r1.0, r1.1, r2.0, e1, cc (e2, h2), cc h2)

read_chunks-done :
    (fuel : ℕ) (s : Stream) (e : Endian) (keyword : Bytes) (expected bytes_read : ℕ)
    → ltb bytes_read expected ≡ false
    → read_chunks (suc fuel) s e keyword expected bytes_read ≡ ok ([], s)
unfolding read_chunks
read_chunks-done fuel s e keyword expected bytes_read done = rw (done, read_chunks)

-- The loop stops at a position of the file, in a good stream, and has read the blocks up to it.
abbrev pub Blocks : Bytes → Endian → ℕ → ℕ → List DataChunk → Stream → Type 0
Blocks content e p left cs s' =
    (stop : ℕ) × (s' ≡ good content stop) × ChunksAt content e stop p left cs

Blocks-cons :
    (content : Bytes) (e : Endian) (p left : ℕ) (c : DataChunk) (rest : List DataChunk)
    (s' : Stream)
    → 0 < left
    → BlockAt content e p left c
    → Blocks content e (p + 4 + c.byte_count + 4) (left - c.byte_count) rest s'
    → Blocks content e p left (c ∷ rest) s'
Blocks-cons content e p left c rest s' positive b (stop, s'_is, blocks) =
    (stop, s'_is, block positive b.offset_is b.within b.opening b.closing blocks)

module _ (content : Bytes) (e : Endian) (keyword : Bytes) (expected : ℕ)
    (x : expected < 2 ^ 63) where
  pub read_chunks_sound :
      (fuel p bytes_read : ℕ) (cs : List DataChunk) (s' : Stream)
      → bytes_read ≤ expected
      → read_chunks fuel (good content p) e keyword expected bytes_read ≡ ok (cs, s')
      → Blocks content e p (expected - bytes_read) cs s'
  unfolding read_chunks
  read_chunks_sound zero p bytes_read cs s' b h = cc
  read_chunks_sound (suc fuel) p bytes_read cs s' b h =
      elim (Bool-cases (ltb bytes_read expected)) [
        | inl more ↦
            let (c, s1, rest, first, later, cs_is) =
              read_chunks-more fuel (good content p) e keyword expected bytes_read more h in
            let (_, b1, s1_is) =
              read_chunk_sound (good content p) e keyword expected bytes_read b x first in
            let sum : (bytes_read + c.byte_count) % 2 ^ 64 ≡ bytes_read + c.byte_count =
              omega (arith, b1.within) in
            let left_is : expected - (bytes_read + c.byte_count)
                ≡ expected - bytes_read - c.byte_count =
              omega arith in
            let blocks =
              read_chunks_sound fuel (p + 4 + c.byte_count + 4) (bytes_read + c.byte_count) rest s'
                (omega (arith, b1.within)) (cc (later, sum, s1_is)) in
            rw (← cs_is) (
              Blocks-cons content e p (expected - bytes_read) c rest s'
                (omega (arith, ltb→lt _ _ more)) b1
                (subst (λ l. Blocks content e (p + 4 + c.byte_count + 4) l rest s') left_is blocks))
        | inr done ↦
            let same = read_chunks-done fuel (good content p) e keyword expected bytes_read done in
            let r = ok-injective (sym same ∙ h) in
            rw
              (
                ← ap (λ (q : List DataChunk × Stream). q.0) r,
                ← ap (λ (q : List DataChunk × Stream). q.1) r,
              )
              (p, refl, last (ground (arith, done)) refl)
      ]
