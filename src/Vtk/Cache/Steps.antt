-- ===== src/Vtk/Cache/Steps.antt =====
-- The steps of the threads that share a cache, in any order: each is a block that holds the lock, or
-- the parse or the computation of a signature between two of them. `Signs path signed` says that
-- ComputeFileSignature, called for this path, had this result, and `Parses signature outcome` that a
-- parse which was started for a file with this signature had this outcome.
pub mod Invariant
pub mod Keeps
pub mod Finish
pub mod Sound
pub mod Promises
use cae_openusd_plugins.Prelude.{ℕ, ◌≡◌, Option, none, some, List, [], Bytes, length}
use cae_openusd_plugins.Prelude.Result.{Result, ok, err}
use cae_openusd_plugins.Vtk.Cache.Signature.{FileSignature}
use cae_openusd_plugins.Vtk.Cache.Entries.{IsStored}
use cae_openusd_plugins.Vtk.Cache.{
  Entry, InFlight, Thread, idle, computing, waiting, parsing, returned, refused, State, set_at,
  look_up, refuse, wake, finish, clear,
}

module _ {Spec Exception : Type 0} where
  -- A thread calls `GetOrParse`, or takes what it returned.
  abbrev pub call : Bytes → ℕ → State Spec Exception → State Spec Exception
  call path thread s = record s { threads = set_at thread (computing path) s.threads }

  abbrev pub leave : ℕ → State Spec Exception → State Spec Exception
  leave thread s = record s { threads = set_at thread idle s.threads }

  -- Before any call.
  abbrev pub start : InFlight Spec Exception → State Spec Exception
  start unused = record {
    entries = [];
    in_flight = λ _. none;
    flights = λ _. unused;
    next_flight = 0;
    threads = λ _. idle;
  }

module _ {Spec : Type 0} where
  -- The order of a map's iteration has its entries and no others.
  pub record IsArrangement (arrange : List (Bytes × Entry Spec) → List (Bytes × Entry Spec))
      : Type 0 where
    pub same_size :
        (entries : List (Bytes × Entry Spec)) → length (arrange entries) ≡ length entries
    pub same_entries :
        (entries : List (Bytes × Entry Spec)) (a : Entry Spec)
        → IsStored a (arrange entries)
        → IsStored a entries

module _ {Spec Exception : Type 0} (Signs : Bytes → Result Exception FileSignature → Type 0)
    (Parses : FileSignature → Result Exception Spec → Type 0)
    (arrange : List (Bytes × Entry Spec) → List (Bytes × Entry Spec)) where
  pub data Step : State Spec Exception → State Spec Exception → Type 0 where
    called :
        (s : State Spec Exception) (t : ℕ) (path : Bytes)
        → s.threads t ≡ idle
        → Step s (call path t s)
    looked_up :
        (s : State Spec Exception) (t : ℕ) (path : Bytes) (signature : FileSignature)
        → s.threads t ≡ computing path
        → Signs path (ok signature)
        → Step s (look_up path signature t s)
    refused_with :
        (s : State Spec Exception) (t : ℕ) (path : Bytes) (exception : Exception)
        → s.threads t ≡ computing path
        → Signs path (err exception)
        → Step s (refuse path exception t s)
    woken :
        (s : State Spec Exception) (t : ℕ) (path : Bytes) (signature : FileSignature) (f : ℕ)
        (outcome : Result Exception Spec)
        → s.threads t ≡ waiting path signature f
        → (s.flights f).outcome ≡ some outcome
        → Step s (wake path signature (s.flights f) outcome t s)
    parsed :
        (s : State Spec Exception) (t : ℕ) (path : Bytes) (signature : FileSignature) (f : ℕ)
        (outcome : Result Exception Spec)
        → s.threads t ≡ parsing path signature f
        → Parses signature outcome
        → Step s (finish arrange path signature f outcome t s)
    left_with :
        (s : State Spec Exception) (t : ℕ) (path : Bytes) (signature : FileSignature)
        (outcome : Result Exception Spec)
        → s.threads t ≡ returned path signature outcome
        → Step s (leave t s)
    left_refused :
        (s : State Spec Exception) (t : ℕ) (path : Bytes) (exception : Exception)
        → s.threads t ≡ refused path exception
        → Step s (leave t s)
    cleared : (s : State Spec Exception) → Step s (clear s)

  pub data Reachable : State Spec Exception → Type 0 where
    started : (unused : InFlight Spec Exception) → unused.outcome ≡ none → Reachable (start unused)
    stepped : (s s' : State Spec Exception) → Reachable s → Step s s' → Reachable s'
