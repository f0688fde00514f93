-- ===== src/Vtk/Scan/Position.antt =====
-- The functions of the scanner, by the position that the stream has reached.
use cae_openusd_plugins.Prelude.{ℕ, zero, suc, ◌≤◌, ◌≡◌, Bool-cases, inl, inr, Bytes, length, arith}
use cae_openusd_plugins.Stream.{Stream, read, tellg, seek_cur, seek_beg}
use cae_openusd_plugins.Vtk.Tokens.{is_token, to_lower_token}
use cae_openusd_plugins.Vtk.Scan.{
  is_bad, read_token, skip_line_ends, get_line, drop_return, is_nil, skip_lines, seek_back,
  skip_optional_metadata, peek,
}

-- A stream over the content `c` that has reached the position `k` of it.
pub record IsAt (c : Bytes) (k : ℕ) (s : Stream) : Type 0 where
  pub content : s.content ≡ c
  pub reached : k ≤ s.pos
  pub inside : k ≤ length c

module _ {c : Bytes} {k : ℕ} where
  pub read_token-IsAt : (s : Stream) → IsAt c k s → IsAt c k (read_token s).1
  unfolding read_token
  read_token-IsAt s h = ground arith

  pub get_line-IsAt : (s : Stream) → IsAt c k s → IsAt c k (get_line s).1
  unfolding get_line
  get_line-IsAt s h = ground arith

  pub skip_line_ends-IsAt : (s : Stream) → IsAt c k s → IsAt c k (skip_line_ends s)
  unfolding skip_line_ends
  skip_line_ends-IsAt s h = ground arith

  pub skip_lines-IsAt : (fuel : ℕ) (s : Stream) → IsAt c k s → IsAt c k (skip_lines fuel s)
  unfolding skip_lines
  skip_lines-IsAt zero s h = h
  skip_lines-IsAt (suc fuel) s h =
      let line = get_line-IsAt s h in
      let later = skip_lines-IsAt fuel (get_line s).1 line in
      elim (Bool-cases (get_line s).1.fail) [
        | inl e ↦ rw e line
        | inr e ↦ rw e (elim (Bool-cases (is_nil (drop_return (get_line s).0))) [
          | inl e' ↦ rw e' line
          | inr e' ↦ rw e' later
        ])
      ]

  seek_back-IsAt : (s s' : Stream) → IsAt c k s → IsAt c k s' → IsAt c k (seek_back (tellg s) s')
  unfolding seek_back tellg
  seek_back-IsAt s s' h h' = elim (Bool-cases (is_bad s)) [
    | inl e ↦ rw e (record { content = h'.content; reached = h'.reached; inside = h'.inside })
    | inr e ↦ rw e (record { content = h'.content; reached = h.reached; inside = h.inside })
  ]

  -- The lines behind the token are read from where it ends.
  pub skip_optional_metadata-IsAt : (s : Stream) → IsAt c k s → IsAt c k (skip_optional_metadata s)
  unfolding skip_optional_metadata
  skip_optional_metadata-IsAt s h =
      let token = read_token-IsAt s h in
      elim (Bool-cases (is_token (to_lower_token (read_token s).0) "metadata")) [
        | inl e ↦ rw e (skip_lines-IsAt _ _ (get_line-IsAt _ token))
        | inr e ↦ rw e (seek_back-IsAt s (read_token s).1 h token)
      ]

  pub peek-IsAt : (s : Stream) → IsAt c k s → IsAt c k (peek s).1
  unfolding peek
  peek-IsAt s h = ground arith

  pub read-IsAt : (n : ℕ) (s : Stream) → IsAt c k s → IsAt c k (read n s).1
  unfolding read
  read-IsAt n s h = ground arith

  pub seek_cur-IsAt : (n : ℕ) (s : Stream) → IsAt c k s → IsAt c k (seek_cur n s)
  unfolding seek_cur
  seek_cur-IsAt n s h = ground arith

  pub seek_beg-IsAt : (n : ℕ) (s : Stream) → k ≤ n → IsAt c k s → IsAt c k (seek_beg n s)
  unfolding seek_beg
  seek_beg-IsAt n s le h = ground arith
