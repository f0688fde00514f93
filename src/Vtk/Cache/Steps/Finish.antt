-- ===== src/Vtk/Cache/Steps/Finish.antt =====
-- The invariant at the end of a parse.
use cae_openusd_plugins.Prelude.{
  ℕ, ◌≡◌, ◌≢◌, refl, sym, ap, subst, ◌∙◌, none, some, some-injective, Bytes,
}
use cae_openusd_plugins.Prelude.Result.{Result}
use cae_openusd_plugins.Vtk.Cache.Signature.{FileSignature}
use cae_openusd_plugins.Vtk.Cache.{
  Thread, idle, computing, waiting, parsing, returned, refused, State, end_flight,
}
use cae_openusd_plugins.Vtk.Cache.Steps.Invariant.{
  ThreadOk, IsSound, set_at-all, set_at-Alone, set_at-other,
}
use cae_openusd_plugins.Vtk.Cache.Steps.Keeps.{set_key-other, returned-NotParsing, Flown}

module _ {Spec Exception : Type 0} (Signs : Bytes → Result Exception FileSignature → Type 0)
    (Parses : FileSignature → Result Exception Spec → Type 0) (s : State Spec Exception)
    (sound : IsSound Signs Parses s) (path : Bytes) (signature : FileSignature) (t f : ℕ)
    (outcome : Result Exception Spec) (at : s.threads t ≡ parsing path signature f)
    (parses : Parses signature outcome) where
  abbrev ended : State Spec Exception
  ended = end_flight path signature f outcome t s

  -- What the thread has been in.
  mine : ThreadOk Signs Parses s.in_flight s.flights s.next_flight (parsing path signature f)
  mine = subst (ThreadOk Signs Parses s.in_flight s.flights s.next_flight) at (sound.threads_ok t)

  ended-ThreadOk :
      (x : Thread Spec Exception) (u : ℕ)
      → u ≢ t
      → s.threads u ≡ x
      → ThreadOk Signs Parses s.in_flight s.flights s.next_flight x
      → ThreadOk Signs Parses ended.in_flight ended.flights ended.next_flight x
  unfolding end_flight
  ended-ThreadOk idle u n at_u h = h
  ended-ThreadOk (computing p) u n at_u h = h
  ended-ThreadOk (waiting p g i) u n at_u h = h
  ended-ThreadOk (returned p g r) u n at_u h = h
  ended-ThreadOk (refused p e) u n at_u h = h
  ended-ThreadOk (parsing p g i) u n at_u (here, below, flight, signed) =
      let other_flight : i ≢ f =
        λ e. n (sound.alone u t p path g signature f (at_u ∙ ap (parsing p g) e) at) in
      let other_path : p ≢ path =
        λ e. other_flight (some-injective (sym here ∙ ap s.in_flight e ∙ mine.0)) in
      (
        set_key-other path none s.in_flight p other_path ∙ here,
        below,
        set_at-other f (record { signature = signature; outcome = some outcome }) s.flights i
              other_flight
            ∙ flight,
        signed,
      )

  pub end_flight-IsSound : IsSound Signs Parses ended
  unfolding end_flight
  end_flight-IsSound = record {
    few = sound.few;
    stored = sound.stored;
    flown =
        set_at-all s.flights f (record { signature = signature; outcome = some outcome })
          (Flown Signs Parses) (λ r e. subst (Parses signature) (some-injective e) parses)
          (λ u _. sound.flown u);
    threads_ok =
        set_at-all s.threads t (returned path signature outcome)
          (ThreadOk Signs Parses ended.in_flight ended.flights ended.next_flight) (mine.3, parses)
          (λ u n. ended-ThreadOk (s.threads u) u n refl (sound.threads_ok u));
    alone =
        set_at-Alone Signs Parses s.threads t (returned path signature outcome) sound.alone
          (λ q h i e. absurd (returned-NotParsing path signature outcome q h i e));
  }
