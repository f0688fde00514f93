-- ===== src/Eclipse/Text.antt =====
-- The text helpers of EclipseBinaryFile.cpp, on bytes in the "C" locale.
pub mod Trim
use cae_openusd_plugins.Prelude.{
  ℕ, ◌+◌, ◌-◌, Bool, ◌&&◌, ◌||◌, Bytes, [], ◌∷◌, map, reverse, leb, ◌==◌, if◌then◌else◌,
}
use cae_openusd_plugins.Prelude.Chars.{is_space, toupper, tolower}

-- What `TrimRight` removes.
abbrev pub is_padding : ℕ → Bool
is_padding c = c == 0 || is_space c

pop_padding : Bytes → Bytes
pop_padding [] = []
pop_padding (c ∷ rest) = let popped = pop_padding rest in if is_padding c then popped else c ∷ rest

-- `pop_back` while the last byte is padding: the loop runs over the reversed text.
unfoldable pub trim_right : Bytes → Bytes
unfolding pop_padding is_space
trim_right value = reverse (pop_padding (reverse value))

unfoldable pub to_upper : Bytes → Bytes
to_upper = map toupper

pub to_lower : Bytes → Bytes
to_lower = map tolower
