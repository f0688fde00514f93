-- ===== src/Vtk/Cache/Steps/Sound.antt =====
-- The invariant at every step.
use cae_openusd_plugins.Prelude.{
  ℕ, ◌≡◌, inl, inr, refl, sym, subst, ◌∙◌, Bool-cases, Option, none, some, List, [], Bytes, arith,
}
use cae_openusd_plugins.Prelude.Result.{Result, ok, err}
use cae_openusd_plugins.Vtk.Cache.Signature.{FileSignature, signatures_match, signatures_match_iff}
use cae_openusd_plugins.Vtk.Cache.Entries.{
  find-IsStored, erase-IsStored, length-erase, assign-IsStored, evict_if_needed-small,
}
use cae_openusd_plugins.Vtk.Cache.{
  Entry, idle, computing, waiting, parsing, returned, refused, State, find, erase, assign,
  evict_if_needed, join_found, use_found, refuse, wake, finish,
}
use cae_openusd_plugins.Vtk.Cache.Steps.{
  IsArrangement, Step, called, looked_up, refused_with, woken, parsed, left_with, left_refused,
  cleared, Reachable, started, stepped,
}
use cae_openusd_plugins.Vtk.Cache.Steps.Invariant.{ThreadOk, IsSound}
use cae_openusd_plugins.Vtk.Cache.Steps.Keeps.{
  none≢some, idle-NotParsing, computing-NotParsing, waiting-NotParsing, returned-NotParsing,
  refused-NotParsing, move-IsSound, entries-IsSound, begun, begun-IsSound,
}
use cae_openusd_plugins.Vtk.Cache.Steps.Finish.{end_flight-IsSound}

module _ {Spec Exception : Type 0} (Signs : Bytes → Result Exception FileSignature → Type 0)
    (Parses : FileSignature → Result Exception Spec → Type 0) where
  join_found-IsSound :
      (o : Option ℕ) (path : Bytes) (signature : FileSignature) (t : ℕ) (s : State Spec Exception)
      → s.in_flight path ≡ o
      → Signs path (ok signature)
      → IsSound Signs Parses s
      → IsSound Signs Parses (join_found o path signature t s)
  unfolding join_found begun
  join_found-IsSound (some f) path signature t s e signed sound =
      move-IsSound Signs Parses s t (waiting path signature f) sound
        (waiting-NotParsing path signature f) signed
  join_found-IsSound none path signature t s e signed sound =
      begun-IsSound Signs Parses s sound path signature t e signed

  use_found-IsSound :
      (o : Option (Entry Spec)) (path : Bytes) (signature : FileSignature) (t : ℕ)
      (s : State Spec Exception)
      → find path s.entries ≡ o
      → Signs path (ok signature)
      → IsSound Signs Parses s
      → IsSound Signs Parses (use_found o path signature t s)
  unfolding use_found
  use_found-IsSound none path signature t s e signed sound =
      join_found-IsSound (s.in_flight path) path signature t s refl signed sound
  use_found-IsSound (some entry) path signature t s e signed sound =
      elim (Bool-cases (signatures_match entry.signature signature)) [
        | inl m ↦ rw m (
            move-IsSound Signs Parses s t (returned path signature (ok entry.spec)) sound
              (returned-NotParsing path signature (ok entry.spec))
              (
                signed,
                subst (λ g. Parses g (ok entry.spec))
                    ((signatures_match_iff entry.signature signature).0 m)
                    (sound.stored entry (find-IsStored path s.entries entry e)),
              ))
        | inr m ↦ rw m (
            join_found-IsSound (s.in_flight path) path signature t _ refl signed
              (erased-IsSound s path sound))
      ]
    where
      erased-IsSound :
          (s : State Spec Exception) (path : Bytes)
          → IsSound Signs Parses s
          → IsSound Signs Parses (record s { entries = erase path s.entries })
      erased-IsSound s path sound =
          entries-IsSound Signs Parses s (erase path s.entries) sound
            (omega (arith, length-erase path s.entries, sound.few))
            (λ e h. sound.stored e (erase-IsStored path s.entries e h))

  wake-IsSound :
      (path : Bytes) (signature : FileSignature) (t f : ℕ) (outcome : Result Exception Spec)
      (s : State Spec Exception)
      → (s.flights f).outcome ≡ some outcome
      → Signs path (ok signature)
      → IsSound Signs Parses s
      → IsSound Signs Parses (wake path signature (s.flights f) outcome t s)
  unfolding wake
  wake-IsSound path signature t f outcome s e signed sound =
      elim (Bool-cases (signatures_match (s.flights f).signature signature)) [
        | inl m ↦ rw m (
            move-IsSound Signs Parses s t (returned path signature outcome) sound
              (returned-NotParsing path signature outcome)
              (
                signed,
                subst (λ g. Parses g outcome)
                    ((signatures_match_iff (s.flights f).signature signature).0 m)
                    (sound.flown f outcome e),
              ))
        | inr m ↦
            rw m
              (move-IsSound Signs Parses s t (computing path) sound (computing-NotParsing path) tt)
      ]

  refuse-IsSound :
      (path : Bytes) (exception : Exception) (t : ℕ) (s : State Spec Exception)
      → Signs path (err exception)
      → IsSound Signs Parses s
      → IsSound Signs Parses (refuse path exception t s)
  unfolding refuse
  refuse-IsSound path exception t s signed sound =
      move-IsSound Signs Parses s t (refused path exception) sound
        (refused-NotParsing path exception) signed

-- The entries after a parse that succeeded.
module _ {Spec Exception : Type 0} (Signs : Bytes → Result Exception FileSignature → Type 0)
    (Parses : FileSignature → Result Exception Spec → Type 0)
    (arrange : List (Bytes × Entry Spec) → List (Bytes × Entry Spec))
    (arranged : IsArrangement arrange) where
  recorded-IsSound :
      (s : State Spec Exception) (path : Bytes) (signature : FileSignature) (spec : Spec)
      → IsSound Signs Parses s
      → Parses signature (ok spec)
      → IsSound Signs Parses (record s {
        entries =
            evict_if_needed path
              (arrange (assign path (record { signature = signature; spec = spec }) s.entries));
      })
  recorded-IsSound s path signature spec sound parses =
      let new : Entry Spec = record { signature = signature; spec = spec } in
      let (small, kept) = evict_if_needed-small path (arrange (assign path new s.entries)) in
      entries-IsSound Signs Parses s (evict_if_needed path (arrange (assign path new s.entries)))
        sound small
        (λ e h.
          elim (assign-IsStored path new s.entries e
            (arranged.same_entries (assign path new s.entries) e (kept e h))) [
              | inl is_new ↦ subst (λ x. Parses x.signature (ok x.spec)) (sym is_new) parses
              | inr old ↦ sound.stored e old
            ])

  finish-IsSound :
      (outcome : Result Exception Spec) (path : Bytes) (signature : FileSignature) (t f : ℕ)
      (s : State Spec Exception)
      → s.threads t ≡ parsing path signature f
      → Parses signature outcome
      → IsSound Signs Parses s
      → IsSound Signs Parses (finish arrange path signature f outcome t s)
  unfolding finish
  finish-IsSound (ok spec) path signature t f s at parses sound =
      end_flight-IsSound Signs Parses _ (recorded-IsSound s path signature spec sound parses) path
        signature t f (ok spec) at parses
  finish-IsSound (err exception) path signature t f s at parses sound =
      end_flight-IsSound Signs Parses s sound path signature t f (err exception) at parses

  Step-IsSound :
      (s s' : State Spec Exception)
      → Step Signs Parses arrange s s'
      → IsSound Signs Parses s
      → IsSound Signs Parses s'
  Step-IsSound _ _ (called s t path at) sound =
      move-IsSound Signs Parses s t (computing path) sound (computing-NotParsing path) tt
  Step-IsSound _ _ (looked_up s t path signature at signed) sound =
      use_found-IsSound Signs Parses (find path s.entries) path signature t s refl signed sound
  Step-IsSound _ _ (refused_with s t path exception at signed) sound =
      refuse-IsSound Signs Parses path exception t s signed sound
  Step-IsSound _ _ (left_refused s t path exception at) sound =
      move-IsSound Signs Parses s t idle sound idle-NotParsing tt
  Step-IsSound _ _ (woken s t path signature f outcome at done) sound =
      wake-IsSound Signs Parses path signature t f outcome s done
        (subst (ThreadOk Signs Parses s.in_flight s.flights s.next_flight) at (sound.threads_ok t))
        sound
  Step-IsSound _ _ (parsed s t path signature f outcome at parses) sound =
      finish-IsSound outcome path signature t f s at parses sound
  Step-IsSound _ _ (left_with s t path signature outcome at) sound =
      move-IsSound Signs Parses s t idle sound idle-NotParsing tt
  Step-IsSound _ _ (cleared s) sound =
      entries-IsSound Signs Parses s [] sound (omega arith) (λ e h. absurd h)

  -- Every state that the threads reach, in any order of their steps, is sound.
  pub Reachable-IsSound :
      (s : State Spec Exception) → Reachable Signs Parses arrange s → IsSound Signs Parses s
  Reachable-IsSound _ (started unused none_yet) = record {
    few = omega arith;
    stored = λ e h. absurd h;
    flown = λ f r h. absurd (none≢some (sym none_yet ∙ h));
    threads_ok = λ t. tt;
    alone = λ t u p q g h f e _. absurd (idle-NotParsing p g f e);
  }
  Reachable-IsSound _ (stepped s s' before step) =
      Step-IsSound s s' step (Reachable-IsSound s before)
