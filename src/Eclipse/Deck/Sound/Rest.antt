-- ===== src/Eclipse/Deck/Sound/Rest.antt =====
-- What the readers of records leave of the tokens.
use cae_openusd_plugins.Prelude.{
  ◌≤◌, ◌≡◌, inl, inr, refl, Bool, not, ◌&&◌, Bool-cases, some, List, [], ◌∷◌, Bytes, length, same,
  arith,
}
use cae_openusd_plugins.Prelude.Post.{if_holds}
use cae_openusd_plugins.Eclipse.Text.{to_upper}
use cae_openusd_plugins.Eclipse.Deck.{
  Token, is_slash, read_record_tokens, skip_single_record, skip_block_from,
}
use cae_openusd_plugins.Eclipse.Deck.Arrays.{find_keyword}
use cae_openusd_plugins.Eclipse.Deck.Sound.{HasKeyword}

-- The last tokens of some.
pub record IsRest (deck rest : List Token) : Type 0 where
  pub shorter : length rest ≤ length deck
  pub within : (keyword : Bytes) → HasKeyword keyword rest → HasKeyword keyword deck

pub IsRest-refl : (deck : List Token) → IsRest deck deck
IsRest-refl deck = record { shorter = omega arith; within = λ keyword h. h }

pub IsRest-cons :
    (token : Token) (deck rest : List Token) → IsRest deck rest → IsRest (token ∷ deck) rest
unfolding find_keyword
IsRest-cons token deck rest h = record {
  shorter = omega (arith, h.shorter);
  within = λ keyword k.
      if_holds (λ o. (r : List Token) × (o ≡ some r)) (same (to_upper token.text) keyword)
        (λ _. (deck, refl)) (λ _. h.within keyword k);
}

pub IsRest-trans : (a b c : List Token) → IsRest a b → IsRest b c → IsRest a c
IsRest-trans a b c h k = record {
  shorter = omega (arith, h.shorter, k.shorter);
  within = λ keyword found. h.within keyword (k.within keyword found);
}

pub IsRest-read_record_tokens : (deck : List Token) → IsRest deck (read_record_tokens deck).1
unfolding read_record_tokens
IsRest-read_record_tokens [] = IsRest-refl []
IsRest-read_record_tokens (token ∷ rest) = elim (Bool-cases (is_slash token)) [
  | inl e ↦ rw e (IsRest-cons token rest rest (IsRest-refl rest))
  | inr e ↦
      rw e (IsRest-cons token rest (read_record_tokens rest).1 (IsRest-read_record_tokens rest))
]

pub IsRest-skip_single_record : (deck : List Token) → IsRest deck (skip_single_record deck)
unfolding skip_single_record
IsRest-skip_single_record [] = IsRest-refl []
IsRest-skip_single_record (token ∷ rest) =
    if_holds (IsRest (token ∷ rest)) (is_slash token)
      (λ _. IsRest-cons token rest rest (IsRest-refl rest))
      (λ _. IsRest-cons token rest (skip_single_record rest) (IsRest-skip_single_record rest))

pub IsRest-skip_block_from :
    (saw : Bool) (deck : List Token) → IsRest deck (skip_block_from saw deck)
unfolding skip_block_from
IsRest-skip_block_from saw [] = IsRest-refl []
IsRest-skip_block_from saw (token ∷ rest) =
    let later = skip_block_from (not (is_slash token)) rest in
    if_holds (IsRest (token ∷ rest)) (is_slash token && not saw)
      (λ _. IsRest-cons token rest rest (IsRest-refl rest))
      (λ _. IsRest-cons token rest later (IsRest-skip_block_from (not (is_slash token)) rest))

-- A record has its tokens read, or is skipped: what is left is the same.
pub skip_single_record-read_record_tokens :
    (deck : List Token) → skip_single_record deck ≡ (read_record_tokens deck).1
unfolding skip_single_record read_record_tokens
skip_single_record-read_record_tokens [] = refl
skip_single_record-read_record_tokens (token ∷ rest) = elim (Bool-cases (is_slash token)) [
  | inl e ↦ rw e refl
  | inr e ↦ rw e (skip_single_record-read_record_tokens rest)
]
