-- ===== src/Vtk/Legacy/Sound/Loop.antt =====
-- The loop of LegacyTokenParser, and its fuel.
use cae_openusd_plugins.Prelude.{
  ℕ, zero, suc, ◌+◌, ◌≤◌, ◌<◌, ◌≡◌, refl, sym, subst, ◌∙◌, Bool, true, false, Bool-cases, inl, inr,
  Option, [], ◌∷◌, Bytes, length, length-drop, if◌then◌else◌, arith,
}
use cae_openusd_plugins.Prelude.Decimal.{skip_spaces}
use cae_openusd_plugins.Prelude.Result.{Result, ok}
use cae_openusd_plugins.Stream.{Stream, tellg}
use cae_openusd_plugins.Vtk.Error.{Error}
use cae_openusd_plugins.Vtk.Action.{Action, pure, act, gets, ◌>>=◌}
use cae_openusd_plugins.Vtk.Action.Keeps.{
  Leaves, returns, throws, Any, Keeps-pure, Keeps-if, Keeps-bind, bind-ok_at,
}
use cae_openusd_plugins.Vtk.Tokens.{is_token, to_lower_token}
use cae_openusd_plugins.Vtk.Scan.{
  unread, is_bad, word, read_token, next_token, is_nil, seek_back, skip_optional_metadata,
}
use cae_openusd_plugins.Vtk.Scan.Position.{IsAt, read_token-IsAt, get_line-IsAt, skip_lines-IsAt}
use cae_openusd_plugins.Vtk.Scan.Keeps.{NotFuel}
use cae_openusd_plugins.Vtk.Legacy.{Settings, LegacyTokenParser, on_input}
use cae_openusd_plugins.Vtk.Legacy.Parse.{parse_section, parse_tokens}
use cae_openusd_plugins.Vtk.Legacy.Sound.{IsParsing, Parses, with_input}
use cae_openusd_plugins.Vtk.Legacy.Sound.Parse.{GoesOn, parse_section-Keeps}

length-word : (text : Bytes) → length (word text) ≤ length text
unfolding word
length-word [] = omega arith
length-word (c ∷ text) = ground (arith, length-word text)

length-skip_spaces : (text : Bytes) → length (skip_spaces text) ≤ length text
unfolding skip_spaces
length-skip_spaces [] = omega arith
length-skip_spaces (c ∷ text) = ground (arith, length-skip_spaces text)

length-not_nil : (text : Bytes) → is_nil text ≡ false → 1 ≤ length text
length-not_nil [] h = cc
length-not_nil (c ∷ text) h = omega arith

-- A token moves the stream on, and only a good stream gives one.
read_token_good : (s : Stream) → is_nil (read_token s).0 ≡ false → is_bad s ≡ false
unfolding read_token
read_token_good s h = elim (Bool-cases (is_bad s)) [ inl e ↦ cc (rw e at h) | inr e ↦ e ]

read_token-moves :
    {c : Bytes} {k : ℕ} (s : Stream)
    → IsAt c k s
    → is_nil (read_token s).0 ≡ false
    → IsAt c (suc k) (read_token s).1
unfolding read_token
read_token-moves s h taken =
    let good = read_token_good s taken in
    let text = unread s in
    let rest = skip_spaces text in
    let fits = length-word rest in
    let fewer = length-skip_spaces text in
    let left = length-drop s.pos s.content in
    ground (arith, good, taken, fits, fewer, left, length-not_nil (word rest))

-- Going back to where a token was read restores the stream that gave it.
seek_back-tellg :
    (s s' : Stream) → is_bad s ≡ false → s'.content ≡ s.content → seek_back (tellg s) s' ≡ s
unfolding seek_back tellg
seek_back-tellg s s' good same = ground arith

skip_metadata-moves :
    {c : Bytes} {k : ℕ} (s : Stream)
    → IsAt c k s
    → is_nil (read_token s).0 ≡ false
    → is_token (to_lower_token (read_token s).0) "metadata" ≡ true
    → IsAt c (suc k) (skip_optional_metadata s)
unfolding skip_optional_metadata
skip_metadata-moves s h taken is_metadata =
    rw is_metadata (skip_lines-IsAt _ _ (get_line-IsAt _ (read_token-moves s h taken)))

metadata-GoesOn :
    {c : Bytes} {k : ℕ} (s : Stream)
    → IsAt c k s
    → is_nil (read_token s).0 ≡ false
    → GoesOn c (suc k) (to_lower_token (read_token s).0) (tellg s)
metadata-GoesOn {c} {k} s h taken is_metadata s' h' =
    let back = seek_back-tellg s s' (read_token_good s taken) (h'.content ∙ sym h.content) in
    subst (λ t. IsAt c (suc k) (skip_optional_metadata t)) (sym back)
      (skip_metadata-moves s h taken is_metadata)

later_IsAt : {c : Bytes} {k : ℕ} {s : Stream} → IsAt c (suc k) s → IsAt c k s
later_IsAt h =
    let reached = h.reached in
    let inside = h.inside in
    record { content = h.content; reached = omega (arith, reached); inside = omega (arith, inside) }

later_IsParsing :
    {c : Bytes} {k : ℕ} {binary : Bool} {p : LegacyTokenParser}
    → IsParsing c (suc k) binary p
    → IsParsing c k binary p
later_IsParsing h = record {
  at = later_IsAt h.at;
  sound = h.sound;
  registry = h.registry;
  named = h.named;
  distinct = h.distinct;
}

later_Leaves :
    {c : Bytes} {k : ℕ} {binary : Bool} {r : Result Error (Unit {0} × LegacyTokenParser)}
    → Leaves (IsParsing c (suc k) binary) Any NotFuel r
    → Leaves (IsParsing c k binary) Any NotFuel r
later_Leaves (returns q h) = returns q (later_IsParsing h)
later_Leaves (throws e) = throws e

with_moved :
    {c : Bytes} {k : ℕ} {binary : Bool} (p : LegacyTokenParser) {s : Stream}
    → IsParsing c k binary p
    → IsAt c (suc k) s
    → IsParsing c (suc k) binary (record p { input = s })
with_moved p h moved = record {
  at = moved;
  sound = h.sound;
  registry = h.registry;
  named = h.named;
  distinct = h.distinct;
}

told : (p : LegacyTokenParser) → on_input (gets tellg) p ≡ ok (tellg p.input, p)
unfolding on_input gets
told p = refl

taken :
    (p : LegacyTokenParser)
    → on_input next_token p
      ≡ ok ((read_token p.input).0, record p { input = (read_token p.input).1 })
unfolding on_input act
taken p = refl

module _ (c : Bytes) (settings : Settings) where
  -- A round behind a token that was read.
  abbrev behind :
      Action LegacyTokenParser (Unit {0}) → Option ℕ → Bytes → Action LegacyTokenParser (Unit {0})
  behind later position raw =
      if is_nil raw
      then pure tt
      else parse_section settings (to_lower_token raw) position
        >>= (λ found. if found then later else pure tt)

  behind_at :
      (k : ℕ) (later : Action LegacyTokenParser (Unit {0})) (p : LegacyTokenParser)
      → IsParsing c k settings.binary p
      → (k < length c → Parses c (suc k) settings.binary Any later)
      → Leaves (IsParsing c k settings.binary) Any NotFuel (
          behind later
            (tellg p.input)
            (read_token p.input).0
            (record p { input = (read_token p.input).1 }))
  unfolding pure
  behind_at k later p h goes_on =
      let s = p.input in
      elim (Bool-cases (is_nil (read_token s).0)) [
        | inl e ↦ rw e (returns tt (with_input p _ h (read_token-IsAt s h.at)))
        | inr e ↦
            let moved = read_token-moves s h.at e in
            let inside = moved.inside in
            let round : Parses c (suc k) settings.binary Any (
                parse_section settings (to_lower_token (read_token s).0) (tellg s)
                >>= (λ found. if found then later else pure tt)) =
              Keeps-bind _ _ (parse_section-Keeps c (suc k) settings _ _ (metadata-GoesOn s h.at e))
                (λ found _.
                  Keeps-if found later (pure tt) (λ _. goes_on (omega (arith, inside)))
                    (λ _. Keeps-pure tt tt)) in
            rw e (later_Leaves (round.at _ (with_moved p h moved)))
      ]

  pub parse_tokens-Keeps :
      (fuel k : ℕ)
      → length c < fuel + k
      → k ≤ length c
      → Parses c k settings.binary Any (parse_tokens settings fuel)
  unfolding parse_tokens
  parse_tokens-Keeps zero k enough inside = absurd (omega arith)
  parse_tokens-Keeps (suc fuel) k enough inside = record {
    at = λ p h. bind-ok_at _ _ p (tellg p.input) p (told p) (
        bind-ok_at _ _ p (read_token p.input).0 (record p { input = (read_token p.input).1 })
          (taken p)
          (behind_at k (parse_tokens settings fuel) p h
            (λ more. parse_tokens-Keeps fuel (suc k) (omega (arith, enough)) more)));
  }
