-- ===== src/Vtk/Scan/Keeps.antt =====
-- The actions of the scanner, by the position that the stream has reached.
use cae_openusd_plugins.Prelude.{
  ℕ, ◌≤◌, ◌≡◌, ◌≢◌, Bool-cases, inl, inr, Option, none, some, Bytes, length, arith,
}
use cae_openusd_plugins.Prelude.Decimal.{parse_integer, in_range}
use cae_openusd_plugins.Prelude.Int.{ℤ}
use cae_openusd_plugins.Prelude.Result.{err}
use cae_openusd_plugins.Stream.{Stream, streamoff_max, read, seek_cur, seek_beg}
use cae_openusd_plugins.Vtk.Error.{
  Error, overflow, seek_failed, string_header, string_payload, out_of_fuel,
}
use cae_openusd_plugins.Vtk.Action.{Action, act}
use cae_openusd_plugins.Vtk.Action.Keeps.{
  returns, throws, Keeps, Any, Keeps-pure, Keeps-lift, Keeps-gets, Keeps-act, Keeps-modify,
  Keeps-ensure, Keeps-bind, Keeps-then, weaken,
}
use cae_openusd_plugins.Vtk.Scan.{
  is_bad, read_token, next_token, at_end, current_offset, skip_line_ends, consume_preamble,
  seek_absolute, get_line, skip_optional_metadata, skip_metadata, peek, skip_binary_string, stoll,
  stoi, number_in, read_int, read_size,
}
use cae_openusd_plugins.Vtk.Scan.Position.{
  IsAt, read_token-IsAt, get_line-IsAt, skip_line_ends-IsAt, skip_optional_metadata-IsAt, peek-IsAt,
  read-IsAt, seek_cur-IsAt, seek_beg-IsAt,
}

-- An exception of the source.
abbrev pub NotFuel : Error → Type 0
NotFuel e = e ≢ out_of_fuel

-- An action on a stream that has reached `k` in the content `c`.
abbrev pub Scans : Bytes → ℕ → {A : Type 0} → (A → Type 0) → Action Stream A → Type 0
Scans c k Q m = Keeps (IsAt c k) NotFuel Q m

number_in-NotFuel : (bits : ℕ) (o : Option ℤ) (e : Error) → number_in bits o ≡ err e → NotFuel e
number_in-NotFuel bits none e h p = cc
number_in-NotFuel bits (some n) e h p = elim (Bool-cases (in_range bits n)) [
  | inl t ↦ cc (rw t at h)
  | inr t ↦ cc (rw t at h)
]

pub stoi-NotFuel : (text : Bytes) (e : Error) → stoi text ≡ err e → NotFuel e
unfolding stoi
stoi-NotFuel text e h = number_in-NotFuel 32 (parse_integer text) e h

stoll-NotFuel : (text : Bytes) (e : Error) → stoll text ≡ err e → NotFuel e
unfolding stoll
stoll-NotFuel text e h = number_in-NotFuel 64 (parse_integer text) e h

module _ (c : Bytes) (k : ℕ) where
  pub next_token-Keeps : Scans c k Any next_token
  next_token-Keeps = Keeps-act read_token (λ s h. (tt, read_token-IsAt s h))

  pub get_line-Keeps : Scans c k Any (act get_line)
  get_line-Keeps = Keeps-act get_line (λ s h. (tt, get_line-IsAt s h))

  pub skip_metadata-Keeps : Scans c k Any skip_metadata
  skip_metadata-Keeps = Keeps-modify skip_optional_metadata skip_optional_metadata-IsAt

  at_end-IsAt : (s : Stream) → IsAt c k s → IsAt c k (at_end s)
  at_end-IsAt s h =
      let same_content = h.content in
      let inside = h.inside in
      record { content = h.content; reached = rw same_content inside; inside = h.inside }

  -- An offset that is told lies behind what has been reached.
  pub current_offset-Keeps : Scans c k (λ offset. k ≤ offset) current_offset
  unfolding current_offset
  current_offset-Keeps = record {
    at = λ s h. elim (Bool-cases (is_bad s)) [
      | inl bad ↦ elim (Bool-cases s.eof) [
        | inl e ↦
            let le : k ≤ length s.content = (at_end-IsAt s h).reached in
            rw (bad, e) (returns le (at_end-IsAt s h))
        | inr e ↦ rw (bad, e) (throws (λ p. cc))
      ]
      | inr good ↦ rw good (returns h.reached h)
    ];
  }

  pub consume_preamble-Keeps : Scans c k (λ offset. k ≤ offset) consume_preamble
  unfolding consume_preamble
  consume_preamble-Keeps =
      Keeps-then _ _ (Keeps-modify skip_line_ends skip_line_ends-IsAt) (λ _ _. current_offset-Keeps)

  pub seek_absolute-Keeps :
      (offset : ℕ) → k ≤ offset → Scans c k (λ _. offset ≤ streamoff_max) (seek_absolute offset)
  unfolding seek_absolute
  seek_absolute-Keeps offset le = Keeps-then _ _ (Keeps-ensure _ overflow (λ p. cc)) (λ _ fits.
      Keeps-then _ _ (Keeps-modify (seek_beg offset) (λ s h. seek_beg-IsAt offset s le h)) (λ _ _.
        Keeps-bind _ _ (Keeps-gets {Q = Any} _ (λ s h. tt)) (λ failed _.
          weaken (λ _ _. ground (arith, fits)) (Keeps-ensure _ seek_failed (λ p. cc)))))

  pub skip_binary_string-Keeps : Scans c k Any skip_binary_string
  unfolding skip_binary_string
  skip_binary_string-Keeps =
      Keeps-bind _ _ (Keeps-act {Q = Any} peek (λ s h. (tt, peek-IsAt s h))) (λ first _.
        Keeps-bind _ _ (Keeps-act {Q = Any} (read _) (λ s h. (tt, read-IsAt _ s h))) (λ encoded _.
          Keeps-bind _ _ (Keeps-gets {Q = Any} _ (λ s h. tt)) (λ header_failed _.
            Keeps-then _ _ (Keeps-ensure _ string_header (λ p. cc)) (λ _ _.
              Keeps-then _ _ (Keeps-modify (seek_cur _) (λ s h. seek_cur-IsAt _ s h)) (λ _ _.
                Keeps-bind _ _ (Keeps-gets {Q = Any} _ (λ s h. tt)) (λ payload_failed _.
                  weaken (λ _ _. tt) (Keeps-ensure _ string_payload (λ p. cc))))))))

  pub read_int-Keeps : Scans c k Any read_int
  unfolding read_int
  read_int-Keeps =
      Keeps-bind _ _ next_token-Keeps (λ token _. Keeps-lift _ (λ _ _. tt) (stoi-NotFuel token))

  pub read_size-Keeps : Scans c k Any read_size
  unfolding read_size
  read_size-Keeps = Keeps-bind _ _ next_token-Keeps (λ token _.
      Keeps-bind _ _ (Keeps-lift {Q = Any} _ (λ _ _. tt) (stoll-NotFuel token))
        (λ n _. Keeps-pure _ tt))
