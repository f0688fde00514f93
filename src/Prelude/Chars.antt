-- ===== src/Prelude/Chars.antt =====
-- The bytes of a string literal, and <cctype> on bytes in the "C" locale.
use Prim.Native.String.{String}
use Prim.Native.Char.{code}
use cae_openusd_plugins.Prelude.{
  ℕ, ◌+◌, ◌-◌, Bool, ◌&&◌, ◌||◌, Bytes, [], ◌∷◌, leb, ◌==◌, if◌then◌else◌,
}

abbrev pub codes : String → Bytes
codes String.[] = []
codes (String.◌∷◌ c s) = code c ∷ codes s

-- std::isspace
unfoldable pub is_space : ℕ → Bool
is_space c = c == 32 || (leb 9 c && leb c 13)

-- std::toupper and std::tolower
unfoldable pub toupper : ℕ → ℕ
toupper c = if leb b'a' c && leb c b'z' then c - 32 else c

unfoldable pub tolower : ℕ → ℕ
tolower c = if leb b'A' c && leb c b'Z' then c + 32 else c
