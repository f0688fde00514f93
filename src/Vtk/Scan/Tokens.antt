-- ===== src/Vtk/Scan/Tokens.antt =====
-- What ReadToken and ConsumeBinaryPreamble take of a text.
use cae_openusd_plugins.Prelude.{
  ℕ, ◌+◌, ◌-◌, ◌≤◌, ◌≡◌, refl, sym, ap, ◌∙◌, true, false, [], ◌∷◌, ◌++◌, Bytes, length,
  length-append, length-drop, drop, drop-drop, drop-append, append_assoc, arith,
}
use cae_openusd_plugins.Prelude.Chars.{is_space}
use cae_openusd_plugins.Prelude.Decimal.{skip_spaces}
use cae_openusd_plugins.Prelude.Result.{ok}
use cae_openusd_plugins.Stream.{good}
use cae_openusd_plugins.Vtk.Action.{act, modify, ◌>>=◌, ◌>>◌}
use cae_openusd_plugins.Vtk.Action.Keeps.{bind_ok}
use cae_openusd_plugins.Vtk.Scan.{
  word, read_token, next_token, current_offset, line_ends, skip_line_ends, consume_preamble,
}

-- Spaces only, and none.
abbrev pub AllSpaces : Bytes → Type 0
AllSpaces [] = Unit {0}
AllSpaces (c ∷ text) = (is_space c ≡ true) × AllSpaces text

abbrev pub NoSpaces : Bytes → Type 0
NoSpaces [] = Unit {0}
NoSpaces (c ∷ text) = (is_space c ≡ false) × NoSpaces text

skip_spaces-append :
    (spaces : Bytes) (c : ℕ) (text : Bytes)
    → AllSpaces spaces
    → is_space c ≡ false
    → skip_spaces (spaces ++ c ∷ text) ≡ c ∷ text
unfolding skip_spaces
skip_spaces-append [] c text h k = rw k refl
skip_spaces-append (x ∷ spaces) c text (hx, h) k = rw hx (skip_spaces-append spaces c text h k)

word-append :
    (w : Bytes) (c : ℕ) (text : Bytes) → NoSpaces w → is_space c ≡ true → word (w ++ c ∷ text) ≡ w
unfolding word
word-append [] c text h k = rw k refl
word-append (x ∷ w) c text (hx, h) k = rw hx (ap (λ t. x ∷ t) (word-append w c text h k))

module _ (content : Bytes) (p : ℕ) (spaces : Bytes) (x : ℕ) (w : Bytes) (separator : ℕ)
    (rest : Bytes) (text : drop p content ≡ spaces ++ ((x ∷ w) ++ separator ∷ rest))
    (all_spaces : AllSpaces spaces) (no_spaces : NoSpaces (x ∷ w))
    (is_separator : is_space separator ≡ true) where
  -- The position behind the separator of the token.
  abbrev pub behind_token : ℕ
  behind_token = p + length spaces + length (x ∷ w) + 1

  pub read_token_lem : read_token (good content p) ≡ (x ∷ w, good content behind_token)
  unfolding read_token
  read_token_lem =
      let skipped : skip_spaces (drop p content) ≡ (x ∷ w) ++ separator ∷ rest =
        ap skip_spaces text
        ∙ skip_spaces-append spaces x (w ++ separator ∷ rest) all_spaces no_spaces.0 in
      let token : word (skip_spaces (drop p content)) ≡ x ∷ w =
        ap word skipped ∙ word-append (x ∷ w) separator rest no_spaces is_separator in
      let whole : length (drop p content) ≡ length spaces + length ((x ∷ w) ++ separator ∷ rest) =
        ap length text ∙ length-append spaces ((x ∷ w) ++ separator ∷ rest) in
      let behind = length-append w (separator ∷ rest) in
      ground (arith, skipped, token, whole, behind)

-- The line ends at the front of what is left are skipped, whatever they stand for.
line_ends-le : (text : Bytes) → line_ends text ≤ length text
unfolding line_ends
line_ends-le [] = omega arith
line_ends-le (c ∷ text) = ground (arith, line_ends-le text)

pub consume_preamble-good :
    (content : Bytes) (p : ℕ)
    → p ≤ length content
    → consume_preamble (good content p)
      ≡ ok (p + line_ends (drop p content), good content (p + line_ends (drop p content)))
unfolding consume_preamble modify ◌>>=◌ ◌>>◌ skip_line_ends current_offset
consume_preamble-good content p h =
    let fits = line_ends-le (drop p content) in
    let left = length-drop p content in ground (arith, fits, left)

module _ (content : Bytes) (p : ℕ) (spaces : Bytes) (x : ℕ) (w : Bytes) (separator : ℕ)
    (rest : Bytes) (text : drop p content ≡ spaces ++ ((x ∷ w) ++ separator ∷ rest)) where
  drop-behind_token :
      (behind : ℕ) → behind ≡ p + length spaces + length (x ∷ w) + 1 → drop behind content ≡ rest
  drop-behind_token behind is_behind =
      let e : p + (length spaces + (length (x ∷ w) + 1)) ≡ behind = omega (arith, is_behind) in
      let e' : length (x ∷ w) + 1 ≡ length ((x ∷ w) ++ separator ∷ []) =
        omega (arith, length-append w (separator ∷ [])) in
      let split : (x ∷ w) ++ separator ∷ rest ≡ ((x ∷ w) ++ separator ∷ []) ++ rest =
        sym (append_assoc (x ∷ w) (separator ∷ []) rest) in
      ap (λ k. drop k content) (sym e)
      ∙ sym (drop-drop p (length spaces + (length (x ∷ w) + 1)) content)
      ∙ ap (drop (length spaces + (length (x ∷ w) + 1))) text
      ∙ sym
          (drop-drop (length spaces) (length (x ∷ w) + 1) (spaces ++ ((x ∷ w) ++ separator ∷ rest)))
      ∙ ap (drop (length (x ∷ w) + 1))
          (drop-append (length spaces) spaces ((x ∷ w) ++ separator ∷ rest) refl)
      ∙ ap (drop (length (x ∷ w) + 1)) split
      ∙ drop-append (length (x ∷ w) + 1) ((x ∷ w) ++ separator ∷ []) rest (sym e')

pub consume_preamble-next_token :
    (content : Bytes) (p : ℕ) (spaces : Bytes) (x : ℕ) (w : Bytes) (separator : ℕ) (rest : Bytes)
    → drop p content ≡ spaces ++ ((x ∷ w) ++ separator ∷ rest)
    → AllSpaces spaces
    → NoSpaces (x ∷ w)
    → is_space separator ≡ true
    → (next_token >>= λ token. consume_preamble) (good content p)
      ≡ ok (
        p + length spaces + length (x ∷ w) + 1 + line_ends rest,
        good content (p + length spaces + length (x ∷ w) + 1 + line_ends rest),
      )
unfolding act
consume_preamble-next_token content p spaces x w separator rest text all_spaces no_spaces
      is_separator =
    let behind : ℕ = p + length spaces + length (x ∷ w) + 1 in
    let left : drop behind content ≡ rest =
      drop-behind_token content p spaces x w separator rest text behind refl in
    let whole : length content - p ≡ length spaces + length ((x ∷ w) ++ separator ∷ rest) =
      sym (length-drop p content)
      ∙ ap length text
      ∙ length-append spaces ((x ∷ w) ++ separator ∷ rest) in
    let fits : behind ≤ length content = omega (arith, whole, length-append w (separator ∷ rest)) in
    bind_ok next_token _ (good content p) (
      ap ok
        (read_token_lem content p spaces x w separator rest text all_spaces no_spaces is_separator))
    ∙ consume_preamble-good content behind fits
    ∙ ap (λ t. ok (behind + line_ends t, good content (behind + line_ends t))) left
