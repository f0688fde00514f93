-- ===== src/Vtk/Ascii/Words.antt =====
-- The words of a text, and the readers of ASCII tokens and values.
use cae_openusd_plugins.Prelude.{
  ℕ, zero, suc, ◌+◌, ◌≡◌, ◌↔◌, ◌⊎◌, inl, inr, refl, sym, ap, ◌∙◌, Bool, true, false, Bool-cases,
  none, some, List, [], ◌∷◌, Bytes, length, drop, if◌then◌else◌, arith,
}
use cae_openusd_plugins.Prelude.Result.{Result, ok, ◌>>=◌, require, bind-eq-ok, ok-bind}
use cae_openusd_plugins.Vtk.Error.{Error}
use cae_openusd_plugins.Vtk.Ascii.{
  is_ascii_whitespace, skip_whitespace, split_token, token_at, read_ascii_token, read_ascii_wanted,
  read_ascii_values,
}

-- A letter before a text: it joins the text's first word, if the text begins with a letter.
abbrev before_word : ℕ → Bool → List Bytes → List Bytes
before_word c true words = (c ∷ []) ∷ words
before_word c false [] = (c ∷ []) ∷ []
before_word c false (w ∷ words) = (c ∷ w) ∷ words

abbrev begins_blank : Bytes → Bool
begins_blank [] = true
begins_blank (c ∷ rest) = is_ascii_whitespace c

-- The words of a text.
unfoldable pub words : Bytes → List Bytes
words [] = []
words (c ∷ rest) =
    let later = words rest in
    if is_ascii_whitespace c then later else before_word c (begins_blank rest) later

words-skip_whitespace : (text : Bytes) → words (skip_whitespace text) ≡ words text
unfolding words skip_whitespace
words-skip_whitespace [] = refl
words-skip_whitespace (c ∷ rest) = elim (Bool-cases (is_ascii_whitespace c)) [
  | inl e ↦ rw e (words-skip_whitespace rest)
  | inr e ↦ rw (e, words, e)
]

-- A text that begins with a letter is its first token and what follows it.
words-split_token :
    (c : ℕ) (rest : Bytes)
    → is_ascii_whitespace c ≡ false
    → words (c ∷ rest) ≡ (split_token (c ∷ rest)).0 ∷ words (split_token (c ∷ rest)).1
unfolding words split_token
words-split_token c [] e = rw e refl
words-split_token c (d ∷ rest) e = elim (Bool-cases (is_ascii_whitespace d)) [
  | inl f ↦ rw (e, f, f) refl
  | inr f ↦
      let first : words (d ∷ rest) ≡ before_word d (begins_blank rest) (words rest) = rw f refl in
      let later = sym first ∙ words-split_token d rest f in
      let parts : split_token (d ∷ rest) ≡ (d ∷ (split_token rest).0, (split_token rest).1) =
        rw f refl in
      rw (e, f) (ap (before_word c false) later ∙ ap (λ p. (c ∷ p.0) ∷ words p.1) parts)
]

-- After the skipped whitespace stands a letter.
skip_whitespace-begins :
    (text : Bytes) (c : ℕ) (rest : Bytes)
    → skip_whitespace text ≡ c ∷ rest
    → is_ascii_whitespace c ≡ false
unfolding skip_whitespace
skip_whitespace-begins [] c rest h = cc
skip_whitespace-begins (d ∷ text) c rest h = elim (Bool-cases (is_ascii_whitespace d)) [
  | inl e ↦ skip_whitespace-begins text c rest (rw e at h)
  | inr e ↦ let h' : d ∷ text ≡ c ∷ rest = rw e at h in cc
]

-- The words from a token on.
NextWord : Bytes → Type 0
NextWord text =
    ((read_ascii_token text ≡ none) × (words text ≡ []))
    ⊎ ((t : Bytes) × (rest : Bytes) × (read_ascii_token text ≡ some (t, rest))
        × (words text ≡ t ∷ words rest))

NextWord-from : (text skipped : Bytes) → skip_whitespace text ≡ skipped → NextWord text
unfolding NextWord read_ascii_token words
NextWord-from text [] e = inl (ap token_at e, sym (words-skip_whitespace text) ∙ ap words e)
NextWord-from text (c ∷ rest) e = inr (
  (split_token (c ∷ rest)).0,
  (split_token (c ∷ rest)).1,
  ap token_at e,
  sym (words-skip_whitespace text)
      ∙ ap words e
      ∙ words-split_token c rest (skip_whitespace-begins text c rest e),
)

next_word : (text : Bytes) → NextWord text
next_word text = NextWord-from text (skip_whitespace text) refl

module _ {A : Type 0} (parse : Bytes → Result Error A) where
  -- The values of all of some words.
  unfoldable pub parse_all : List Bytes → Result Error (List A)
  parse_all [] = ok []
  parse_all (w ∷ words) = parse w >>= λ value. parse_all words >>= λ later. ok (value ∷ later)

  -- A value before later ones, in both readings of them.
  value_before :
      (w : Bytes) (count : ℕ) (ws : List Bytes) (wanted : Result Error (List A)) (values : List A)
      → ((later : List A) → (wanted ≡ ok later) ↔ ((length ws ≡ count) × (parse_all ws ≡ ok later)))
      → ((parse w >>= λ value. wanted >>= λ later. ok (value ∷ later)) ≡ ok values)
        ↔ ((suc (length ws) ≡ suc count) × (parse_all (w ∷ ws) ≡ ok values))
  unfolding parse_all
  value_before w count ws wanted values same = (
    (λ h.
        let (value, e, h1) = bind-eq-ok _ _ h in
        let (later, e', h2) = bind-eq-ok _ _ h1 in
        let (size, all) = (same later).0 e' in (ap suc size, rw (e, ok-bind, all, ok-bind) h2)),
    (λ h.
        let (value, e, h1) = bind-eq-ok _ _ h.1 in
        let (later, e', h2) = bind-eq-ok _ _ h1 in
        let size : length ws ≡ count = omega (arith, h.0) in
        rw (e, ok-bind, (same later).1 (size, e'), ok-bind) h2),
  )

  wanted_iff :
      (count : ℕ) (text : Bytes) (values : List A)
      → (read_ascii_wanted parse text count ≡ ok values)
        ↔ ((length (words text) ≡ count) × (parse_all (words text) ≡ ok values))
  unfolding read_ascii_wanted parse_all NextWord require
  wanted_iff zero text values = elim (next_word text) [
    | inl (none_left, no_words) ↦ rw (none_left, no_words) (λ h. (refl, h), λ h. h.1)
    | inr (t, rest, found, split) ↦ rw (found, split) (λ h. cc, λ h. absurd (omega (arith, h.0)))
  ]
  wanted_iff (suc count) text values = elim (next_word text) [
    | inl (none_left, no_words) ↦
        rw (none_left, no_words)
          (λ h. let (_, e, _) = bind-eq-ok _ _ h in cc, λ h. absurd (omega (arith, h.0)))
    | inr (t, rest, found, split) ↦
        rw (found, split, ok-bind)
          (value_before t count (words rest) (read_ascii_wanted parse rest count) values
            (λ later. wanted_iff count rest later))
  ]

  -- Reading values from a text gives a list exactly if the text has as many words as are skipped
  -- and wanted together, and the words behind the skipped ones parse, in their order, as the
  -- values of the list.
  pub read_ascii_values_iff :
      (text : Bytes) (skip count : ℕ) (values : List A)
      → (read_ascii_values parse text skip count ≡ ok values)
        ↔ ((length (words text) ≡ skip + count) × (parse_all (drop skip (words text)) ≡ ok values))
  unfolding read_ascii_values NextWord require
  read_ascii_values_iff text zero count values =
      let (to, from) = wanted_iff count text values in
      (
        (λ h. let (size, all) = to h in (omega (arith, size), all)),
        (λ h. let size : length (words text) ≡ count = omega (arith, h.0) in from (size, h.1)),
      )
  read_ascii_values_iff text (suc skip) count values = elim (next_word text) [
    | inl (none_left, no_words) ↦
        rw (none_left, no_words)
          (λ h. let (_, e, _) = bind-eq-ok _ _ h in cc, λ h. absurd (omega (arith, h.0)))
    | inr (t, rest, found, split) ↦
        let (to, from) = read_ascii_values_iff rest skip count values in
        rw (found, split, ok-bind)
          (
            (λ h. let (size, all) = to h in (omega (arith, size), all)),
            (λ h.
                let size : length (words rest) ≡ skip + count = omega (arith, h.0) in
                from (size, h.1)),
          )
  ]
