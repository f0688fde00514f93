-- ===== src/Eclipse/Deck/Exhaust.antt =====
-- The tokens of a deck, and DeckTokenizer::Next.
use cae_openusd_plugins.Prelude.{
  ℕ, zero, suc, ◌≤◌, ◌<◌, ◌≡◌, refl, sym, ap, ◌∙◌, Bool, not, Option, none, some, List, [], ◌∷◌,
  Bytes, length, ◌==◌, if◌then◌else◌, arith,
}
use cae_openusd_plugins.Prelude.Post.{if_holds}
use cae_openusd_plugins.Eclipse.Deck.{
  Token, DeckTokenizer, is_line_end, at_comment, skip_blanks, split_quoted, split_word, is_quote,
  first_token, next, tokens_with, tokens_from, tokens,
}

length-skip_blanks :
    (comment : Bool) (text : Bytes) → length (skip_blanks comment text) ≤ length text
unfolding skip_blanks
length-skip_blanks comment [] = omega arith
length-skip_blanks comment (c ∷ text) =
    let within = if comment then not (is_line_end c) else at_comment c text in
    ground (arith, length-skip_blanks within text)

length-split_quoted : (quote : ℕ) (text : Bytes) → length (split_quoted quote text).1 ≤ length text
unfolding split_quoted
length-split_quoted quote [] = omega arith
length-split_quoted quote (c ∷ text) = ground (arith, length-split_quoted quote text)

length-split_word : (text : Bytes) → length (split_word text).1 ≤ length text
unfolding split_word
length-split_word [] = omega arith
length-split_word (c ∷ text) = ground (arith, length-split_word text)

abbrev Shorter : ℕ → Token × DeckTokenizer → Type 0
Shorter n (token, later) = length later.input < n

abbrev ShorterIfAny : ℕ → Option (Token × DeckTokenizer) → Type 0
ShorterIfAny n none = Unit {0}
ShorterIfAny n (some given) = Shorter n given

Shorter-first_token : (text : Bytes) (n : ℕ) → length text ≤ n → ShorterIfAny n (first_token text)
unfolding first_token
Shorter-first_token [] n h = tt
Shorter-first_token (c ∷ text) n h =
    if_holds (Shorter n) (c == b'/') (λ _. omega (arith, h))
      (λ _.
        if_holds (Shorter n) (is_quote c) (λ _. omega (arith, h, length-split_quoted c text))
          (λ _. omega (arith, h, length-split_word text)))

-- A token takes a byte or more.
Shorter-next : (tokenizer : DeckTokenizer) → ShorterIfAny (length tokenizer.input) (next tokenizer)
unfolding next
Shorter-next tokenizer =
    Shorter-first_token (skip_blanks tokenizer.skip_rest_of_line tokenizer.input)
      (length tokenizer.input) (length-skip_blanks tokenizer.skip_rest_of_line tokenizer.input)

tokens_with_eq :
    (n : ℕ) (f g : DeckTokenizer → List Token) (given : Option (Token × DeckTokenizer))
    → ShorterIfAny n given
    → ((later : DeckTokenizer) → length later.input < n → f later ≡ g later)
    → tokens_with f given ≡ tokens_with g given
tokens_with_eq n f g none s h = refl
tokens_with_eq n f g (some (token, later)) s h = ap (λ ts. token ∷ ts) (h later s)

tokens_from-suc :
    (fuel : ℕ) (tokenizer : DeckTokenizer)
    → tokens_from (suc fuel) tokenizer ≡ tokens_with (tokens_from fuel) (next tokenizer)
unfolding tokens_from
tokens_from-suc fuel tokenizer = refl

tokens_from_enough :
    (fuel more : ℕ) (tokenizer : DeckTokenizer)
    → length tokenizer.input < fuel
    → length tokenizer.input < more
    → tokens_from fuel tokenizer ≡ tokens_from more tokenizer
tokens_from_enough zero more tokenizer h k = absurd (omega arith)
tokens_from_enough (suc fuel) zero tokenizer h k = absurd (omega arith)
tokens_from_enough (suc fuel) (suc more) tokenizer h k =
    tokens_from-suc fuel tokenizer
    ∙ tokens_with_eq (length tokenizer.input) (tokens_from fuel) (tokens_from more) (next tokenizer)
        (Shorter-next tokenizer)
        (λ later s. tokens_from_enough fuel more later (omega (arith, h, s)) (omega (arith, k, s)))
    ∙ sym (tokens_from-suc more tokenizer)

-- The tokens of a tokenizer, which the loops of the reader take, are the one that Next gives and
-- those of the tokenizer that it leaves, or none where it gives none: the number of bytes left is
-- fuel enough.
pub tokens-next :
    (tokenizer : DeckTokenizer) → tokens tokenizer ≡ tokens_with tokens (next tokenizer)
unfolding tokens
tokens-next tokenizer =
    tokens_from-suc (length tokenizer.input) tokenizer
    ∙ tokens_with_eq (length tokenizer.input) (tokens_from (length tokenizer.input)) tokens
        (next tokenizer) (Shorter-next tokenizer)
        (λ later s.
          tokens_from_enough (length tokenizer.input) (suc (length later.input)) later s
            (omega arith))
