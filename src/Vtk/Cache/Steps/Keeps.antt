-- ===== src/Vtk/Cache/Steps/Keeps.antt =====
-- The invariant after a thread moves, and after a flight begins.
use cae_openusd_plugins.Prelude.{
  ℕ, suc, ◌≤◌, ◌≡◌, ◌≢◌, inl, inr, refl, sym, ap, subst, ◌∙◌, Bool-cases, none, some, List, Bytes,
  same, same_iff, length, arith,
}
use cae_openusd_plugins.Prelude.Result.{Result, ok}
use cae_openusd_plugins.Vtk.Cache.Signature.{FileSignature}
use cae_openusd_plugins.Vtk.Cache.Entries.{IsStored}
use cae_openusd_plugins.Vtk.Cache.{
  Entry, InFlight, Thread, idle, computing, waiting, parsing, returned, refused, State,
  max_cached_specs, set_at, set_key,
}
use cae_openusd_plugins.Vtk.Cache.Steps.Invariant.{
  ThreadOk, IsSound, set_at-all, set_at-Alone, set_at-same, set_at-other,
}

module _ {A : Type 0} where
  pub set_key-other :
      (key : Bytes) (a : A) (f : Bytes → A) (k : Bytes) → k ≢ key → set_key key a f k ≡ f k
  unfolding set_key
  set_key-other key a f k n = elim (Bool-cases (same k key)) [
    | inl e ↦ absurd (n ((same_iff k key).0 e))
    | inr e ↦ rw e
  ]

  pub set_key-same : (key : Bytes) (a : A) (f : Bytes → A) → set_key key a f key ≡ a
  unfolding set_key
  set_key-same key a f = let (_, back) = same_iff key key in rw (back refl)

pub none≢some : {A : Type 0} {a : A} → none ≢ some a
none≢some e = cc

module _ {Spec Exception : Type 0} where
  abbrev pub NotParsing : Thread Spec Exception → Type 0
  NotParsing x = (q : Bytes) (h : FileSignature) (f : ℕ) → x ≢ parsing q h f

  pub idle-NotParsing : NotParsing idle
  idle-NotParsing q h f e = cc

  pub computing-NotParsing : (p : Bytes) → NotParsing (computing p)
  computing-NotParsing p q h f e = cc

  pub waiting-NotParsing : (p : Bytes) (g : FileSignature) (i : ℕ) → NotParsing (waiting p g i)
  waiting-NotParsing p g i q h f e = cc

  pub returned-NotParsing :
      (p : Bytes) (g : FileSignature) (r : Result Exception Spec) → NotParsing (returned p g r)
  returned-NotParsing p g r q h f e = cc

  pub refused-NotParsing : (p : Bytes) (e : Exception) → NotParsing (refused p e)
  refused-NotParsing p e q h f same = cc

  parsing-flight :
      {p q : Bytes} {g h : FileSignature} {e f : ℕ}
      → ◌≡◌ {A = Thread Spec Exception} (parsing p g e) (parsing q h f)
      → e ≡ f
  parsing-flight same = cc

module _ {Spec Exception : Type 0} (Signs : Bytes → Result Exception FileSignature → Type 0)
    (Parses : FileSignature → Result Exception Spec → Type 0) where
  -- What an outcome of a flight says.
  abbrev pub Flown : InFlight Spec Exception → Type 0
  Flown flight = (r : Result Exception Spec) → flight.outcome ≡ some r → Parses flight.signature r

  -- A thread moves to where it does not parse.
  pub move-IsSound :
      (s : State Spec Exception) (t : ℕ) (x : Thread Spec Exception)
      → IsSound Signs Parses s
      → NotParsing x
      → ThreadOk Signs Parses s.in_flight s.flights s.next_flight x
      → IsSound Signs Parses (record s { threads = set_at t x s.threads })
  move-IsSound s t x sound plain good = record {
    few = sound.few;
    stored = sound.stored;
    flown = sound.flown;
    threads_ok =
        set_at-all s.threads t x (ThreadOk Signs Parses s.in_flight s.flights s.next_flight) good
          (λ u _. sound.threads_ok u);
    alone = set_at-Alone Signs Parses s.threads t x sound.alone (λ q h f e. absurd (plain q h f e));
  }

  pub entries-IsSound :
      (s : State Spec Exception) (entries : List (Bytes × Entry Spec))
      → IsSound Signs Parses s
      → length entries ≤ max_cached_specs
      → ((e : Entry Spec) → IsStored e entries → Parses e.signature (ok e.spec))
      → IsSound Signs Parses (record s { entries = entries })
  entries-IsSound s entries sound few stored = record {
    few = few;
    stored = stored;
    flown = sound.flown;
    threads_ok = sound.threads_ok;
    alone = sound.alone;
  }

  -- A new flight.
  module _ (s : State Spec Exception) (sound : IsSound Signs Parses s) (path : Bytes)
      (signature : FileSignature) (t : ℕ) (free : s.in_flight path ≡ none)
      (signed : Signs path (ok signature)) where
    unfoldable pub begun : State Spec Exception
    begun = record s {
      in_flight = set_key path (some s.next_flight) s.in_flight;
      flights = set_at s.next_flight (record { signature = signature; outcome = none }) s.flights;
      next_flight = suc s.next_flight;
      threads = set_at t (parsing path signature s.next_flight) s.threads;
    }

    begun-ThreadOk :
        (x : Thread Spec Exception)
        → ThreadOk Signs Parses s.in_flight s.flights s.next_flight x
        → ThreadOk Signs Parses begun.in_flight begun.flights begun.next_flight x
    unfolding begun
    begun-ThreadOk idle h = h
    begun-ThreadOk (computing p) h = h
    begun-ThreadOk (waiting p g f) h = h
    begun-ThreadOk (returned p g r) h = h
    begun-ThreadOk (refused p e) h = h
    begun-ThreadOk (parsing p g f) (here, below, flight, signed) =
        let other_path : p ≢ path = λ e. none≢some (sym free ∙ sym (ap s.in_flight e) ∙ here) in
        let other_flight : f ≢ s.next_flight = λ e. omega (arith, e, below) in
        (
          set_key-other path (some s.next_flight) s.in_flight p other_path ∙ here,
          omega (arith, below),
          set_at-other s.next_flight (record { signature = signature; outcome = none }) s.flights f
                other_flight
              ∙ flight,
          signed,
        )

    pub begun-IsSound : IsSound Signs Parses begun
    unfolding begun
    begun-IsSound = record {
      few = sound.few;
      stored = sound.stored;
      flown =
          set_at-all s.flights s.next_flight (record { signature = signature; outcome = none })
            Flown (λ r e. absurd (none≢some e)) (λ u _. sound.flown u);
      threads_ok =
          set_at-all s.threads t (parsing path signature s.next_flight)
            (ThreadOk Signs Parses begun.in_flight begun.flights begun.next_flight)
            (
              set_key-same path (some s.next_flight) s.in_flight,
              omega arith,
              set_at-same s.next_flight (record { signature = signature; outcome = none })
                  s.flights,
              signed,
            )
            (λ u _. begun-ThreadOk (s.threads u) (sound.threads_ok u));
      alone =
          set_at-Alone Signs Parses s.threads t (parsing path signature s.next_flight) sound.alone
            (λ q h f e u p g n at_u.
              let ok_u =
                subst (ThreadOk Signs Parses s.in_flight s.flights s.next_flight) at_u
                  (sound.threads_ok u) in
              omega (arith, parsing-flight e, ok_u.1));
    }
