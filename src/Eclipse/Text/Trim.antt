-- ===== src/Eclipse/Text/Trim.antt =====
-- `trim_right` and the padding at the end of a text.
use mathlib.Core.List.{reverse-append, reverse-reverse}
use cae_openusd_plugins.Prelude.{
  ◌≡◌, refl, sym, ap, ◌∙◌, true, false, Bool-cases, inl, inr, Bytes, [], ◌∷◌, ◌++◌, reverse,
}
use cae_openusd_plugins.Eclipse.Text.{is_padding, pop_padding, trim_right}

-- Padding and nothing else.
abbrev pub IsPadding : Bytes → Type 0
IsPadding [] = Unit {0}
IsPadding (c ∷ cs) = (is_padding c ≡ true) × IsPadding cs

abbrev Starts : Bytes → Type 0
Starts [] = Unit {0}
Starts (c ∷ cs) = is_padding c ≡ false

-- The last byte, if there is one, is no padding.
abbrev pub IsTrimmed : Bytes → Type 0
IsTrimmed text = Starts (reverse text)

IsPadding-append : (xs ys : Bytes) → IsPadding xs → IsPadding ys → IsPadding (xs ++ ys)
IsPadding-append [] ys h k = k
IsPadding-append (x ∷ xs) ys (h, t) k = (h, IsPadding-append xs ys t k)

IsPadding-reverse : (xs : Bytes) → IsPadding xs → IsPadding (reverse xs)
IsPadding-reverse [] h = tt
IsPadding-reverse (x ∷ xs) (h, t) =
    rw (reverse-append (x ∷ []) xs)
      (IsPadding-append (reverse xs) (x ∷ []) (IsPadding-reverse xs t) (h, tt))

pop_padding_split :
    (xs : Bytes)
    → (pad : Bytes) × (xs ≡ pad ++ pop_padding xs) × IsPadding pad × Starts (pop_padding xs)
unfolding pop_padding
pop_padding_split [] = ([], refl, tt, tt)
pop_padding_split (x ∷ xs) = elim (Bool-cases (is_padding x)) [
  | inl t ↦
      let (pad, e, p, s) = pop_padding_split xs in
      rw (t, pop_padding) (x ∷ pad, ap (λ r. x ∷ r) e, (t, p), s)
  | inr f ↦ rw (f, pop_padding) ([], refl, tt, f)
]

-- The text is its trimmed part followed by padding, and the trimmed part ends in no padding.
pub trim_right_split :
    (value : Bytes)
    → (pad : Bytes) × (value ≡ trim_right value ++ pad)
      × IsPadding pad
      × IsTrimmed (trim_right value)
unfolding trim_right
trim_right_split value =
    let (pad, e, p, s) = pop_padding_split (reverse value) in
    let popped = pop_padding (reverse value) in
    (
      reverse pad,
      sym (reverse-reverse value) ∙ ap reverse e ∙ reverse-append pad popped,
      IsPadding-reverse pad p,
      rw reverse-reverse s,
    )

pop_padding-append : (pad xs : Bytes) → IsPadding pad → Starts xs → pop_padding (pad ++ xs) ≡ xs
unfolding pop_padding
pop_padding-append [] [] p s = refl
pop_padding-append [] (x ∷ xs) p s = rw (s, pop_padding)
pop_padding-append (c ∷ pad) xs (h, p) s = rw (h, pop_padding) (pop_padding-append pad xs p s)

-- A text with no trailing padding, padded at its end to the width of a field, is what trimming
-- the field gives back.
pub trim_right-append :
    (text pad : Bytes) → IsTrimmed text → IsPadding pad → trim_right (text ++ pad) ≡ text
unfolding trim_right
trim_right-append text pad t p =
    ap (λ r. reverse (pop_padding r)) (reverse-append text pad)
    ∙ ap reverse (pop_padding-append (reverse pad) (reverse text) (IsPadding-reverse pad p) t)
    ∙ reverse-reverse text
