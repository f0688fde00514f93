-- ===== src/Vtk/Ascii.antt =====
-- The ASCII segments of FileHandle.cpp. The cursor is the text from it on, and `parse`, which gives
-- the bytes of a value in memory, stands for ParseAsciiValue.
pub mod Words
use cae_openusd_plugins.Prelude.{
  ℕ, zero, suc, ◌-◌, ◌/◌, ◌%◌, Bool, not, ◌||◌, Option, none, some, List, [], ◌∷◌, ◌++◌, Bytes,
  replicate, leb, ◌&&◌, ◌==◌, if◌then◌else◌,
}
use cae_openusd_plugins.Prelude.Result.{Result, ok, err, ◌>>=◌, ◌>>◌, guard, require}
use cae_openusd_plugins.Vtk.Error.{Error, not_aligned, fewer_values, more_values}
use cae_openusd_plugins.Vtk.Types.{ScalarType, scalar_byte_size}
use cae_openusd_plugins.Vtk.Segment.{FileHandle, PayloadSegmentSpec, read_range}

-- `IsAsciiWhitespace`
unfoldable pub is_ascii_whitespace : ℕ → Bool
is_ascii_whitespace c = c == 32 || c == 9 || c == 13 || c == 10 || c == 12 || c == 11

-- The two loops of `ReadAsciiToken`.
unfoldable pub skip_whitespace : Bytes → Bytes
skip_whitespace [] = []
skip_whitespace (c ∷ rest) =
    let later = skip_whitespace rest in if is_ascii_whitespace c then later else c ∷ rest

unfoldable pub split_token : Bytes → Bytes × Bytes
split_token [] = ([], [])
split_token (c ∷ rest) =
    let later = split_token rest in
    if is_ascii_whitespace c then ([], c ∷ rest) else (c ∷ later.0, later.1)

abbrev pub token_at : Bytes → Option (Bytes × Bytes)
token_at [] = none
token_at (c ∷ rest) = some (split_token (c ∷ rest))

-- `ReadAsciiToken`: the token and the text behind it.
unfoldable pub read_ascii_token : Bytes → Option (Bytes × Bytes)
read_ascii_token text = token_at (skip_whitespace text)

-- The check for another value behind the last one.
abbrev pub no_extra : {A : Type 0} → Option (Bytes × Bytes) → Result Error (List A)
no_extra none = ok []
no_extra (some extra) = err more_values

module _ {A : Type 0} (parse : Bytes → Result Error A) where
  -- The loops of `ReadAsciiValues`, and what follows them.
  unfoldable pub read_ascii_wanted : Bytes → ℕ → Result Error (List A)
  read_ascii_wanted text zero = no_extra (read_ascii_token text)
  read_ascii_wanted text (suc count) = do
    t ← require (read_ascii_token text) fewer_values
    value ← parse t.0
    later ← read_ascii_wanted t.1 count
    ok (value ∷ later)

  -- `ReadAsciiValues`
  unfoldable pub read_ascii_values : Bytes → ℕ → ℕ → Result Error (List A)
  read_ascii_values text zero count = read_ascii_wanted text count
  read_ascii_values text (suc skip) count = do
    t ← require (read_ascii_token text) fewer_values
    read_ascii_values t.1 skip count

abbrev join : List Bytes → Bytes
join [] = []
join (bytes ∷ rest) = bytes ++ join rest

-- `AsciiPayloadSegmentReader::ReadInto`
unfoldable pub read_ascii_into :
    (ScalarType → Bytes → Result Error Bytes)
    → FileHandle
    → PayloadSegmentSpec
    → ℕ
    → ScalarType
    → ℕ
    → Result Error Bytes
read_ascii_into parse file segment count scalar_type skip = do
  let scalar_size = scalar_byte_size scalar_type
  guard (not (not (count % scalar_size == 0) || not (skip % scalar_size == 0))) not_aligned
  text ← read_range file segment.start_offset segment.byte_count (replicate segment.byte_count 0)
  values ← read_ascii_values (parse scalar_type) text (skip / scalar_size) (count / scalar_size)
  ok (join values)
