-- ===== src/Vtk/Cache/Steps/Promises.antt =====
-- `DatasetSpecCache` as its callers see it.
use cae_openusd_plugins.Prelude.{Option, ℕ, ◌≤◌, ◌≡◌, List, Bytes, length}
use cae_openusd_plugins.Prelude.Result.{Result, ok, err}
use cae_openusd_plugins.Vtk.Cache.Signature.{FileSignature}
use cae_openusd_plugins.Vtk.Cache.{
  Entry, InFlight, Thread, idle, computing, waiting, parsing, returned, refused, State,
  max_cached_specs,
}
use cae_openusd_plugins.Vtk.Cache.Steps.{IsArrangement, Reachable}
use cae_openusd_plugins.Vtk.Cache.Steps.Invariant.{ThreadOk, single_flight}
use cae_openusd_plugins.Vtk.Cache.Steps.Sound.{Reachable-IsSound}

-- Two threads that parse the same path in a reachable state are the same thread.
pub cache_single_flight :
    {Spec Exception : Type 0} (Signs : Bytes → Result Exception FileSignature → Type 0)
    (Parses : FileSignature → Result Exception Spec → Type 0)
    (arrange : List (Bytes × Entry Spec) → List (Bytes × Entry Spec))
    → IsArrangement arrange
    → (s : State Spec Exception) → Reachable Signs Parses arrange s
    → (t u : ℕ) (path : Bytes) (g h : FileSignature) (e f : ℕ) → s.threads t ≡ parsing path g e
    → s.threads u ≡ parsing path h f
    → t ≡ u
cache_single_flight Signs Parses arrange arranged s reached t u path g h e f at_t at_u =
    single_flight Signs Parses s (Reachable-IsSound Signs Parses arrange arranged s reached) t u
      path g h e f at_t at_u

-- How a call has ended: with the outcome of a parse for the signature that was computed for its
-- path, or with the exception of that computation.
abbrev pub IsExplained :
    {Spec Exception : Type 0}
    → (Bytes → Result Exception FileSignature → Type 0)
    → (FileSignature → Result Exception Spec → Type 0)
    → Thread Spec Exception
    → Type 0
IsExplained Signs Parses (returned path signature outcome) =
    Signs path (ok signature) × Parses signature outcome
IsExplained Signs Parses (refused path exception) = Signs path (err exception)
IsExplained Signs Parses _ = Unit

ThreadOk-IsExplained :
    {Spec Exception : Type 0} (Signs : Bytes → Result Exception FileSignature → Type 0)
    (Parses : FileSignature → Result Exception Spec → Type 0) (in_flight : Bytes → Option ℕ)
    (flights : ℕ → InFlight Spec Exception) (next : ℕ) (x : Thread Spec Exception)
    → ThreadOk Signs Parses in_flight flights next x
    → IsExplained Signs Parses x
ThreadOk-IsExplained Signs Parses in_flight flights next idle h = tt
ThreadOk-IsExplained Signs Parses in_flight flights next (computing path) h = tt
ThreadOk-IsExplained Signs Parses in_flight flights next (waiting path signature f) h = tt
ThreadOk-IsExplained Signs Parses in_flight flights next (parsing path signature f) h = tt
ThreadOk-IsExplained Signs Parses in_flight flights next (returned path signature outcome) h = h
ThreadOk-IsExplained Signs Parses in_flight flights next (refused path exception) h = h

-- In a reachable state, a call that has ended has the outcome of a parse which was started for a
-- file with the signature that the call computed for its path, be it by a hit, a wait or a parse
-- of its own; or it has thrown the exception with which the computation of that signature failed.
pub cache_returns_current :
    {Spec Exception : Type 0} (Signs : Bytes → Result Exception FileSignature → Type 0)
    (Parses : FileSignature → Result Exception Spec → Type 0)
    (arrange : List (Bytes × Entry Spec) → List (Bytes × Entry Spec))
    → IsArrangement arrange
    → (s : State Spec Exception) → Reachable Signs Parses arrange s
    → (t : ℕ) → IsExplained Signs Parses (s.threads t)
cache_returns_current Signs Parses arrange arranged s reached t =
    ThreadOk-IsExplained Signs Parses s.in_flight s.flights s.next_flight (s.threads t)
      ((Reachable-IsSound Signs Parses arrange arranged s reached).threads_ok t)

-- A reachable cache holds at most 16 entries.
pub cache_bounded :
    {Spec Exception : Type 0} (Signs : Bytes → Result Exception FileSignature → Type 0)
    (Parses : FileSignature → Result Exception Spec → Type 0)
    (arrange : List (Bytes × Entry Spec) → List (Bytes × Entry Spec))
    → IsArrangement arrange
    → (s : State Spec Exception) → Reachable Signs Parses arrange s
    → length s.entries ≤ max_cached_specs
cache_bounded Signs Parses arrange arranged s reached =
    (Reachable-IsSound Signs Parses arrange arranged s reached).few
