-- ===== src/Eclipse/Deck/Repeat.antt =====
-- A repeated value of a deck: `n*value`.
use cae_openusd_plugins.Prelude.{
  ℕ, ◌^◌, ◌<◌, ◌≡◌, ◌≢◌, refl, ap, ◌∙◌, Bool, true, false, ◌&&◌, Option, some, [], ◌∷◌, ◌++◌, Bytes,
  lt→ltb, ◌==◌, replicate, arith,
}
use cae_openusd_plugins.Prelude.Decimal.{
  all_digits, all_digits-to_string, to_string-ne-nil, to_string, digits_value,
  digits_value-to_string, is_digit,
}
use cae_openusd_plugins.Prelude.Result.{ok, require, ok-bind}
use cae_openusd_plugins.Eclipse.Deck.Numbers.{
  unsigned_number, parse_size, size_within, split_star, expand_token, expand_split, repeated_value,
}

split_star-append :
    (count payload : Bytes)
    → all_digits count ≡ true
    → split_star (count ++ b'*' ∷ payload) ≡ some (count, payload)
unfolding split_star all_digits
split_star-append [] payload h = refl
split_star-append (c ∷ count) payload h =
    let (digit, later) = both (is_digit c) (all_digits count) h in
    rw (no_star c digit, split_star-append count payload later) refl
  where
    both : (a b : Bool) → (a && b) ≡ true → (a ≡ true) × (b ≡ true)
    both true b e = (refl, e)
    both false b e = cc

    no_star : (c : ℕ) → is_digit c ≡ true → (c == b'*') ≡ false
    no_star c e = ground arith

unsigned_number-digits :
    (s : Bytes) (n : ℕ)
    → all_digits s ≡ true
    → digits_value 0 s ≡ n
    → s ≢ []
    → unsigned_number s ≡ some n
unfolding unsigned_number
unsigned_number-digits [] n h e k = absurd (k refl)
unsigned_number-digits (c ∷ s) n h e k = rw (h, e) refl

parse_size-to_string : (n : ℕ) → n < 2 ^ 64 → parse_size (to_string n) ≡ some n
unfolding parse_size
parse_size-to_string n h =
    ap size_within (
      unsigned_number-digits (to_string n) n (all_digits-to_string n) (digits_value-to_string n)
        (to_string-ne-nil n))
    ∙ rw (lt→ltb n (2 ^ 64) h) refl

expand_token-repeated_value :
    {V : Type 0} (default : V) (parse : Bytes → Option V) (n : ℕ) (payload : Bytes) (value : V)
    → n < 2 ^ 64
    → repeated_value default parse payload ≡ ok value
    → expand_token default parse (to_string n ++ b'*' ∷ payload) ≡ ok (replicate n value)
unfolding expand_token require
expand_token-repeated_value default parse n payload value h e =
    ap (expand_split default parse (to_string n ++ b'*' ∷ payload))
      (split_star-append (to_string n) payload (all_digits-to_string n))
    ∙ rw (parse_size-to_string n h, ok-bind, e, ok-bind) refl

repeated_value-text :
    {V : Type 0} (default : V) (parse : Bytes → Option V) (payload : Bytes) (value : V)
    → payload ≢ []
    → parse payload ≡ some value
    → repeated_value default parse payload ≡ ok value
unfolding require
repeated_value-text default parse [] value h e = absurd (h refl)
repeated_value-text default parse (c ∷ payload) value h e = rw e refl

-- A token of a count below 2 ^ 64 in decimal digits and a star is expanded to as many copies of
-- the default; and with a text behind the star that is not empty and parses as a value, to as
-- many copies of this value.
pub expand_token-to_string :
    {V : Type 0} (default : V) (parse : Bytes → Option V) (n : ℕ) (payload : Bytes) (value : V)
    → n < 2 ^ 64
    → payload ≢ []
    → parse payload ≡ some value
    → (expand_token default parse (to_string n ++ b'*' ∷ []) ≡ ok (replicate n default))
      × (expand_token default parse (to_string n ++ b'*' ∷ payload) ≡ ok (replicate n value))
expand_token-to_string default parse n payload value h is_text e = (
  expand_token-repeated_value default parse n [] default h refl,
  expand_token-repeated_value default parse n payload value h
      (repeated_value-text default parse payload value is_text e),
)
