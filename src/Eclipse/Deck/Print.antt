-- ===== src/Eclipse/Deck/Print.antt =====
-- Decks as they are written from tokens, and the tokenizer on them.
use cae_openusd_plugins.Prelude.{
  ℕ, ◌≡◌, refl, sym, ap, ◌∙◌, true, false, ◌||◌, some, List, [], ◌∷◌, ◌++◌, Bytes, ◌==◌,
}
use cae_openusd_plugins.Prelude.Chars.{is_space}
use cae_openusd_plugins.Eclipse.Deck.{
  Token, DeckTokenizer, slash, at_comment, is_quote, skip_blanks, split_quoted, split_word,
  quoted_token, plain_token, first_token, next, tokens, tokens_with, new_tokenizer,
}
use cae_openusd_plugins.Eclipse.Deck.Exhaust.{tokens-next}

-- No apostrophe.
abbrev pub HasNoQuote : Bytes → Type 0
HasNoQuote [] = Unit {0}
HasNoQuote (c ∷ text) = ((c == 39) ≡ false) × HasNoQuote text

-- The rest of a word: no space, no slash, and no comment.
abbrev pub IsWordRest : Bytes → Type 0
IsWordRest [] = Unit {0}
IsWordRest (c ∷ text) =
    (is_space c ≡ false) × ((at_comment c text || c == b'/') ≡ false) × IsWordRest text

-- A token that a deck can hold.
pub data IsWritable : Token → Type 0 where
  of_quoted : (text : Bytes) → HasNoQuote text → IsWritable (record { text = text; quoted = true })
  of_slash : IsWritable slash
  of_word :
      (c : ℕ) (text : Bytes)
      → is_space c ≡ false
      → (c == b'/') ≡ false
      → is_quote c ≡ false
      → at_comment c text ≡ false
      → IsWordRest text
      → IsWritable (record { text = c ∷ text; quoted = false })

pub data AreWritable : List Token → Type 0 where
  none_written : AreWritable []
  and_written :
      (token : Token) (deck : List Token)
      → IsWritable token
      → AreWritable deck
      → AreWritable (token ∷ deck)

-- A token before a text: apostrophes stand round a quoted one, and a slash ends its line.
abbrev pub print_token : (token : Token) → IsWritable token → Bytes → Bytes
print_token _ (of_quoted text h) rest = 39 ∷ (text ++ 39 ∷ 32 ∷ rest)
print_token _ of_slash rest = b'/' ∷ 10 ∷ rest
print_token _ (of_word c text _ _ _ _ _) rest = c ∷ (text ++ 32 ∷ rest)

abbrev pub print_deck : (deck : List Token) → AreWritable deck → Bytes → Bytes
print_deck _ none_written rest = rest
print_deck _ (and_written token deck h hs) rest = print_token token h (print_deck deck hs rest)

split_quoted-append :
    (text rest : Bytes) → HasNoQuote text → split_quoted 39 (text ++ 39 ∷ rest) ≡ (text, rest)
unfolding split_quoted
split_quoted-append [] rest h = refl
split_quoted-append (c ∷ text) rest (hc, h) =
    rw hc (ap (λ p. (c ∷ p.0, p.1)) (split_quoted-append text rest h))

-- A space behind a word makes no comment.
at_comment-append :
    (c : ℕ) (text rest : Bytes) → at_comment c (text ++ 32 ∷ rest) ≡ at_comment c text
at_comment-append c [] rest = refl
at_comment-append c (d ∷ text) rest = refl

split_word-append :
    (text rest : Bytes) → IsWordRest text → split_word (text ++ 32 ∷ rest) ≡ (text, rest)
unfolding split_word is_space
split_word-append [] rest h = refl
split_word-append (c ∷ text) rest (hs, hc, h) =
    let e : (at_comment c (text ++ 32 ∷ rest) || c == b'/') ≡ false =
      ap (λ b. b || c == b'/') (at_comment-append c text rest) ∙ hc in
    rw (hs, e) (ap (λ p. (c ∷ p.0, p.1)) (split_word-append text rest h))

-- A tokenizer that stands before a text, but for blanks.
Stands : DeckTokenizer → Bytes → Type 0
Stands tokenizer text =
    skip_blanks tokenizer.skip_rest_of_line tokenizer.input ≡ skip_blanks false text

skip_blanks-char :
    (c : ℕ) (text : Bytes)
    → is_space c ≡ false
    → at_comment c text ≡ false
    → skip_blanks false (c ∷ text) ≡ c ∷ text
unfolding skip_blanks
skip_blanks-char c text a m = rw (a, m) refl

skip_blanks-space : (text : Bytes) → skip_blanks false (32 ∷ text) ≡ skip_blanks false text
unfolding skip_blanks is_space
skip_blanks-space text = refl

first_token-word :
    (c : ℕ) (text rest : Bytes)
    → (c == b'/') ≡ false
    → is_quote c ≡ false
    → split_word (text ++ 32 ∷ rest) ≡ (text, rest)
    → first_token (c ∷ (text ++ 32 ∷ rest)) ≡ some (plain_token c (text, rest))
unfolding first_token
first_token-word c text rest b q e = rw (b, q, e) refl

next-print_token :
    (token : Token) (h : IsWritable token) (rest : Bytes) (tokenizer : DeckTokenizer)
    → Stands tokenizer (print_token token h rest)
    → (later : DeckTokenizer) × (next tokenizer ≡ some (token, later)) × Stands later rest
unfolding next first_token Stands is_space skip_blanks
next-print_token _ (of_quoted text h) rest tokenizer s = (
  record { input = 32 ∷ rest; skip_rest_of_line = false },
  ap first_token (s ∙ skip_blanks-char 39 (text ++ 39 ∷ 32 ∷ rest) refl refl)
      ∙ ap (λ p. some (quoted_token p)) (split_quoted-append text (32 ∷ rest) h),
  skip_blanks-space rest,
)
next-print_token _ of_slash rest tokenizer s = (
  record { input = 10 ∷ rest; skip_rest_of_line = true },
  ap first_token (s ∙ skip_blanks-char b'/' (10 ∷ rest) refl refl),
  refl,
)
next-print_token _ (of_word c text a b q m h) rest tokenizer s = (
  record { input = rest; skip_rest_of_line = false },
  ap first_token (s ∙ skip_blanks-char c (text ++ 32 ∷ rest) a (at_comment-append c text rest ∙ m))
      ∙ first_token-word c text rest b q (split_word-append text rest h),
  refl,
)

-- Tokenizers that stand before the same text give the same tokens.
tokens-Stands :
    (tokenizer : DeckTokenizer) (text : Bytes)
    → Stands tokenizer text
    → tokens tokenizer ≡ tokens (new_tokenizer text)
unfolding next Stands
tokens-Stands tokenizer text s =
    tokens-next tokenizer
    ∙ ap (λ t. tokens_with tokens (first_token t)) s
    ∙ sym (tokens-next (new_tokenizer text))

tokens-print_deck_at :
    (deck : List Token) (h : AreWritable deck) (rest : Bytes) (tokenizer : DeckTokenizer)
    → Stands tokenizer (print_deck deck h rest)
    → tokens tokenizer ≡ deck ++ tokens (new_tokenizer rest)
tokens-print_deck_at _ none_written rest tokenizer s = tokens-Stands tokenizer rest s
tokens-print_deck_at _ (and_written token deck h hs) rest tokenizer s =
    let (later, given, s') = next-print_token token h (print_deck deck hs rest) tokenizer s in
    tokens-next tokenizer
    ∙ ap (tokens_with tokens) given
    ∙ ap (λ ts. token ∷ ts) (tokens-print_deck_at deck hs rest later s')

-- The tokens of a text that starts with tokens as a deck writes them are these tokens, and then
-- those of the rest of the text. The tokens are texts without an apostrophe, in apostrophes and
-- with a space behind them; slashes, each with the end of a line; and words with a space behind
-- them. A word has a byte or more, does not begin with a quote of either kind, and holds no
-- space, no slash and no comment.
pub tokens-print_deck :
    (deck : List Token) (h : AreWritable deck) (rest : Bytes)
    → tokens (new_tokenizer (print_deck deck h rest)) ≡ deck ++ tokens (new_tokenizer rest)
unfolding Stands
tokens-print_deck deck h rest =
    tokens-print_deck_at deck h rest (new_tokenizer (print_deck deck h rest)) refl
