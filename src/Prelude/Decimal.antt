-- ===== src/Prelude/Decimal.antt =====
-- Decimal numbers as text: std::to_string, and the std::stoll and std::stoi that read it back.
use cae_openusd_plugins.Prelude.{
  true, ◌≢◌, ℕ, zero, suc, ◌+◌, ◌-◌, ◌*◌, ◌/◌, ◌%◌, ◌^◌, ◌<◌, ◌≡◌, refl, sym, ap, ◌∙◌, Bool, Option,
  none, some, ◌&&◌, Bytes, [], ◌∷◌, ◌++◌, ltb, leb, ◌==◌, if◌then◌else◌, arith,
}
use cae_openusd_plugins.Prelude.Int.{ℤ, pos, negsuc}
use cae_openusd_plugins.Prelude.Chars.{is_space}
use cae_openusd_plugins.Prelude.Post.{if_holds}

-- The digits of a number, with a bound on their count.
unfoldable pub digits : ℕ → ℕ → Bytes
digits zero n = []
digits (suc fuel) n =
    let before = digits fuel (n / 10) in
    if ltb n 10 then (48 + n) ∷ [] else before ++ (48 + n % 10) ∷ []

-- `std::to_string` of an unsigned number.
unfoldable pub to_string : ℕ → Bytes
to_string n = digits (suc n) n

-- The number that digits spell behind `n`.
unfoldable pub digits_value : ℕ → Bytes → ℕ
digits_value n [] = n
digits_value n (c ∷ s) = digits_value (n * 10 + (c - 48)) s

digits_value-snoc :
    (n : ℕ) (s : Bytes) (c : ℕ) → digits_value n (s ++ c ∷ []) ≡ digits_value n s * 10 + (c - 48)
unfolding digits_value
digits_value-snoc n [] c = refl
digits_value-snoc n (x ∷ s) c = digits_value-snoc (n * 10 + (x - 48)) s c

digits_value-digits : (fuel n : ℕ) → n < fuel → digits_value 0 (digits fuel n) ≡ n
unfolding digits digits_value
digits_value-digits zero n h = elim h [ ]
digits_value-digits (suc fuel) n h = ground (
  arith,
  digits_value-digits fuel (n / 10),
  digits_value-snoc 0 (digits fuel (n / 10)) (48 + n % 10),
)

pub digits_value-to_string : (n : ℕ) → digits_value 0 (to_string n) ≡ n
unfolding to_string
digits_value-to_string n = digits_value-digits (suc n) n (omega arith)

pub to_string-injective : (a b : ℕ) → to_string a ≡ to_string b → a ≡ b
to_string-injective a b h =
    sym (digits_value-to_string a) ∙ ap (digits_value 0) h ∙ digits_value-to_string b

abbrev pub is_digit : ℕ → Bool
is_digit c = leb 48 c && leb c 57

unfoldable pub all_digits : Bytes → Bool
all_digits [] = true
all_digits (c ∷ text) = is_digit c && all_digits text

all_digits-snoc :
    (s : Bytes) (c : ℕ) → all_digits s ≡ true → is_digit c ≡ true → all_digits (s ++ c ∷ []) ≡ true
unfolding all_digits
all_digits-snoc [] c h k = rw k refl
all_digits-snoc (x ∷ s) c h k = ground (arith, all_digits-snoc s c)

all_digits-digits : (fuel n : ℕ) → all_digits (digits fuel n) ≡ true
unfolding digits all_digits
all_digits-digits zero n = refl
all_digits-digits (suc fuel) n =
    let last =
      all_digits-snoc (digits fuel (n / 10)) (48 + n % 10) (all_digits-digits fuel (n / 10)) in
    ground (arith, last)

pub all_digits-to_string : (n : ℕ) → all_digits (to_string n) ≡ true
unfolding to_string
all_digits-to_string n = all_digits-digits (suc n) n

snoc-ne-nil : (s : Bytes) (c : ℕ) → s ++ c ∷ [] ≢ []
snoc-ne-nil [] c e = cc
snoc-ne-nil (x ∷ s) c e = cc

-- A number has a digit.
pub to_string-ne-nil : (n : ℕ) → to_string n ≢ []
unfolding to_string digits
to_string-ne-nil n =
    if_holds (λ s. s ≢ []) (ltb n 10) (λ _ e. cc)
      (λ _. snoc-ne-nil (digits n (n / 10)) (48 + n % 10))

-- The digits at the front of a text.
unfoldable pub leading_digits : Bytes → Bytes
leading_digits [] = []
leading_digits (c ∷ s) = let later = leading_digits s in if is_digit c then c ∷ later else []

unfoldable pub skip_spaces : Bytes → Bytes
skip_spaces [] = []
skip_spaces (c ∷ s) = let later = skip_spaces s in if is_space c then later else c ∷ s

abbrev pub negate : ℕ → ℤ
negate zero = pos 0
negate (suc n) = negsuc n

abbrev unsigned_at : (ℕ → ℤ) → Bytes → Option ℤ
unsigned_at sign [] = none
unsigned_at sign (c ∷ s) = some (sign (digits_value 0 (c ∷ s)))

abbrev signed_at : Bytes → Option ℤ
signed_at [] = none
signed_at (c ∷ s) =
    if c == b'-'
    then unsigned_at negate (leading_digits s)
    else if c == b'+'
    then unsigned_at pos (leading_digits s)
    else unsigned_at pos (leading_digits (c ∷ s))

-- The integer at the front of a text, as `strtoll` finds it, with no bound; none where it finds no
-- digit.
unfoldable pub parse_integer : Bytes → Option ℤ
parse_integer text = signed_at (skip_spaces text)

-- The value range of a signed integer with `bits` bits.
abbrev pub in_range : ℕ → ℤ → Bool
in_range bits (pos n) = ltb n (2 ^ (bits - 1))
in_range bits (negsuc n) = ltb n (2 ^ (bits - 1))
