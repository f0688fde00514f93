-- ===== src/Vtk/Cache/Steps/Invariant.antt =====
-- The invariant of the states that the threads reach.
use cae_openusd_plugins.Prelude.{
  ℕ, ◌≤◌, ◌<◌, ◌≡◌, ◌≢◌, ◌⊎◌, inl, inr, refl, sym, ap, subst, ◌∙◌, Option, none, some,
  some-injective, Bytes, length, ==_iff, arith,
}
use cae_openusd_plugins.Prelude.Result.{Result, ok, err}
use cae_openusd_plugins.Vtk.Cache.Signature.{FileSignature}
use cae_openusd_plugins.Vtk.Cache.Entries.{IsStored}
use cae_openusd_plugins.Vtk.Cache.{
  Entry, InFlight, Thread, idle, computing, waiting, parsing, returned, refused, State,
  max_cached_specs, set_at,
}

module _ {A : Type 0} where
  pub set_at-same : (i : ℕ) (a : A) (f : ℕ → A) → set_at i a f i ≡ a
  unfolding set_at
  set_at-same i a f = let (_, same_number) = ==_iff i i in rw (same_number refl)

  pub set_at-other : (i : ℕ) (a : A) (f : ℕ → A) (j : ℕ) → j ≢ i → set_at i a f j ≡ f j
  unfolding set_at
  set_at-other i a f j h = ground (arith, ==_iff j i, h)

pub eq_or_ne : (i j : ℕ) → (i ≡ j) ⊎ (i ≢ j)
eq_or_ne i j = ground arith

module _ {A : Type 0} (values : ℕ → A) (t : ℕ) (x : A) where
  -- A property of all values after one of them has changed.
  pub set_at-all :
      (P : A → Type 0) → P x → ((u : ℕ) → u ≢ t → P (values u)) → (u : ℕ) → P (set_at t x values u)
  set_at-all P here there u = elim (eq_or_ne u t) [
    | inl e ↦ subst P (sym (ap (set_at t x values) e ∙ set_at-same t x values)) here
    | inr n ↦ subst P (sym (set_at-other t x values u n)) (there u n)
  ]

module _ {Spec Exception : Type 0} (Signs : Bytes → Result Exception FileSignature → Type 0)
    (Parses : FileSignature → Result Exception Spec → Type 0) where
  -- What a thread may be at, with these flights.
  abbrev pub ThreadOk :
      (Bytes → Option ℕ) → (ℕ → InFlight Spec Exception) → ℕ → Thread Spec Exception → Type 0
  ThreadOk in_flight flights next idle = Unit
  ThreadOk in_flight flights next (computing path) = Unit
  ThreadOk in_flight flights next (waiting path signature f) = Signs path (ok signature)
  ThreadOk in_flight flights next (parsing path signature f) =
      (in_flight path ≡ some f)
      × (f < next)
      × (flights f ≡ record { signature = signature; outcome = none })
      × Signs path (ok signature)
  ThreadOk in_flight flights next (returned path signature outcome) =
      Signs path (ok signature) × Parses signature outcome
  ThreadOk in_flight flights next (refused path exception) = Signs path (err exception)

  -- No two threads are in one flight.
  abbrev pub Alone : (ℕ → Thread Spec Exception) → Type 0
  Alone threads =
      (t u : ℕ) (p q : Bytes) (g h : FileSignature) (f : ℕ)
      → threads t ≡ parsing p g f
      → threads u ≡ parsing q h f
      → t ≡ u

  pub record IsSound (s : State Spec Exception) : Type 0 where
    pub few : length s.entries ≤ max_cached_specs
    pub stored : (e : Entry Spec) → IsStored e s.entries → Parses e.signature (ok e.spec)
    pub flown :
        (f : ℕ) (outcome : Result Exception Spec)
        → (s.flights f).outcome ≡ some outcome
        → Parses (s.flights f).signature outcome
    pub threads_ok : (t : ℕ) → ThreadOk s.in_flight s.flights s.next_flight (s.threads t)
    pub alone : Alone s.threads

  -- The threads that parse one file are one.
  pub single_flight :
      (s : State Spec Exception)
      → IsSound s
      → (t u : ℕ) (p : Bytes) (g h : FileSignature) (e f : ℕ) → s.threads t ≡ parsing p g e
      → s.threads u ≡ parsing p h f
      → t ≡ u
  single_flight s sound t u p g h e f at_t at_u =
      let mine = subst (ThreadOk s.in_flight s.flights s.next_flight) at_t (sound.threads_ok t) in
      let other = subst (ThreadOk s.in_flight s.flights s.next_flight) at_u (sound.threads_ok u) in
      let same_flight : f ≡ e = some-injective (sym other.0 ∙ mine.0) in
      sound.alone t u p p g h e at_t (at_u ∙ ap (parsing p h) same_flight)

  module _ (threads : ℕ → Thread Spec Exception) (t : ℕ) (x : Thread Spec Exception) where
    pub set_at-Alone :
        Alone threads
        → ((q : Bytes) (h : FileSignature) (f : ℕ)
            → x ≡ parsing q h f
            → (u : ℕ) (p : Bytes) (g : FileSignature) → u ≢ t
            → threads u ≢ parsing p g f)
        → Alone (set_at t x threads)
    set_at-Alone alone new u v p q g h f at_u at_v = elim (eq_or_ne u t) [
      | inl e ↦ elim (eq_or_ne v t) [
        | inl e' ↦ e ∙ sym e'
        | inr n' ↦ absurd (
            new p g f (sym (set_at-same t x threads) ∙ sym (ap (set_at t x threads) e) ∙ at_u) v q h
              n' (sym (set_at-other t x threads v n') ∙ at_v))
      ]
      | inr n ↦ elim (eq_or_ne v t) [
        | inl e' ↦ absurd (
            new q h f (sym (set_at-same t x threads) ∙ sym (ap (set_at t x threads) e') ∙ at_v) u p
              g n (sym (set_at-other t x threads u n) ∙ at_u))
        | inr n' ↦
            alone u v p q g h f (sym (set_at-other t x threads u n) ∙ at_u)
              (sym (set_at-other t x threads v n') ∙ at_v)
      ]
    ]
