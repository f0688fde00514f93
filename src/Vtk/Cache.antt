-- ===== src/Vtk/Cache.antt =====
-- DatasetSpecCache.cpp: the cache of parsed files, and its threads. `Spec` is a parsed file and
-- `Exception` what a parse throws. The map of entries is a list in the map's order of iteration,
-- which `arrange` stands for after an insertion; the map of flights is a function, and the flights
-- stand in a store, where a shared pointer is an index.
pub mod Signature
pub mod Entries
pub mod Steps
mod Tests
use cae_openusd_plugins.Prelude.{
  ℕ, zero, suc, Bool, true, false, not, Option, none, some, List, [], ◌∷◌, Bytes, same, length, ltb,
  ◌==◌, if◌then◌else◌,
}
use cae_openusd_plugins.Prelude.Result.{Result, ok, err}
use Signature.{FileSignature, signatures_match}

pub record Entry (Spec : Type 0) : Type 0 where
  pub signature : FileSignature
  pub spec : Spec

-- `InFlight`; a flight is done once it has an outcome.
pub record InFlight (Spec Exception : Type 0) : Type 0 where
  pub signature : FileSignature
  pub outcome : Option (Result Exception Spec)

-- Where a thread stands in `GetOrParse`; it is refused if no signature is computed.
pub data Thread (Spec Exception : Type 0) : Type 0 where
  idle : Thread Spec Exception
  computing : Bytes → Thread Spec Exception
  waiting : Bytes → FileSignature → ℕ → Thread Spec Exception
  parsing : Bytes → FileSignature → ℕ → Thread Spec Exception
  returned : Bytes → FileSignature → Result Exception Spec → Thread Spec Exception
  refused : Bytes → Exception → Thread Spec Exception

pub record State (Spec Exception : Type 0) : Type 0 where
  pub entries : List (Bytes × Entry Spec)
  pub in_flight : Bytes → Option ℕ
  pub flights : ℕ → InFlight Spec Exception
  pub next_flight : ℕ
  pub threads : ℕ → Thread Spec Exception

-- MaxCachedSpecs
abbrev pub max_cached_specs : ℕ
max_cached_specs = 16

module _ {A : Type 0} where
  unfoldable pub find : Bytes → List (Bytes × A) → Option A
  find key [] = none
  find key ((k, a) ∷ rest) = if same k key then some a else find key rest

  unfoldable pub erase : Bytes → List (Bytes × A) → List (Bytes × A)
  erase key [] = []
  erase key ((k, a) ∷ rest) =
      let erased = erase key rest in if same k key then rest else (k, a) ∷ erased

  unfoldable pub assign : Bytes → A → List (Bytes × A) → List (Bytes × A)
  assign key a [] = (key, a) ∷ []
  assign key a ((k, b) ∷ rest) =
      let assigned = assign key a rest in if same k key then (k, a) ∷ rest else (k, b) ∷ assigned

  abbrev pub keep_first : Bytes × A → Option (List (Bytes × A)) → Option (List (Bytes × A))
  keep_first first none = none
  keep_first first (some later) = some (first ∷ later)

  abbrev pub or_else : Option (List (Bytes × A)) → List (Bytes × A) → List (Bytes × A)
  or_else none other = other
  or_else (some erased) other = erased

  -- The entries without the victim: the first one with another key, or else the first one.
  unfoldable pub erase_other : Bytes → List (Bytes × A) → Option (List (Bytes × A))
  erase_other protected [] = none
  erase_other protected ((k, a) ∷ rest) =
      let later = erase_other protected rest in
      if not (same k protected) then some rest else keep_first (k, a) later

  unfoldable pub erase_victim : Bytes → List (Bytes × A) → List (Bytes × A)
  erase_victim protected [] = []
  erase_victim protected ((k, a) ∷ rest) = or_else (erase_other protected ((k, a) ∷ rest)) rest

  -- `EvictIfNeeded`: the loop, which erases one entry in a round.
  unfoldable pub evict_loop : ℕ → Bytes → List (Bytes × A) → List (Bytes × A)
  evict_loop zero protected entries = entries
  evict_loop (suc fuel) protected entries =
      let evicted = evict_loop fuel protected (erase_victim protected entries) in
      if ltb max_cached_specs (length entries) then evicted else entries

  unfoldable pub evict_if_needed : Bytes → List (Bytes × A) → List (Bytes × A)
  evict_if_needed protected entries = evict_loop (length entries) protected entries

module _ {A : Type 0} where
  pub set_at : ℕ → A → (ℕ → A) → ℕ → A
  set_at i a f j = if j == i then a else f j

  pub set_key : Bytes → A → (Bytes → A) → Bytes → A
  set_key key a f k = if same k key then a else f k

module _ {Spec Exception : Type 0} where
  -- After a miss: the flight that is there is waited for, or a new one is begun.
  unfoldable pub join_found :
      Option ℕ → Bytes → FileSignature → ℕ → State Spec Exception → State Spec Exception
  unfolding set_at set_key
  join_found (some flight) path signature thread s = record s {
    threads = set_at thread (waiting path signature flight) s.threads;
  }
  join_found none path signature thread s = record s {
    in_flight = set_key path (some s.next_flight) s.in_flight;
    flights = set_at s.next_flight (record { signature = signature; outcome = none }) s.flights;
    next_flight = suc s.next_flight;
    threads = set_at thread (parsing path signature s.next_flight) s.threads;
  }

  abbrev pub join_flight : Bytes → FileSignature → ℕ → State Spec Exception → State Spec Exception
  join_flight path signature thread s = join_found (s.in_flight path) path signature thread s

  -- What follows the search for an entry.
  unfoldable pub use_found :
      Option (Entry Spec) → Bytes → FileSignature → ℕ → State Spec Exception → State Spec Exception
  unfolding set_at
  use_found none path signature thread s = join_flight path signature thread s
  use_found (some entry) path signature thread s =
      if signatures_match entry.signature signature
      then record s { threads = set_at thread (returned path signature (ok entry.spec)) s.threads }
      else join_flight path signature thread (record s { entries = erase path s.entries })

  -- `GetOrParse` from the lock to the wait, the parse or the return, with the signature computed.
  abbrev pub look_up : Bytes → FileSignature → ℕ → State Spec Exception → State Spec Exception
  look_up path signature thread s = use_found (find path s.entries) path signature thread s

  -- `ComputeFileSignature` throws, before the lock: the call ends with this exception.
  unfoldable pub refuse : Bytes → Exception → ℕ → State Spec Exception → State Spec Exception
  unfolding set_at
  refuse path exception thread s = record s {
    threads = set_at thread (refused path exception) s.threads;
  }

  -- After the wait: the flight's outcome, or another round of the loop.
  unfoldable pub wake :
      Bytes
      → FileSignature
      → InFlight Spec Exception
      → Result Exception Spec
      → ℕ
      → State Spec Exception
      → State Spec Exception
  unfolding set_at
  wake path signature flight outcome thread s =
      let next =
        if signatures_match flight.signature signature
        then returned path signature outcome
        else computing path in
      record s { threads = set_at thread next s.threads }

  -- The flight is over, and its thread returns.
  unfoldable pub end_flight :
      Bytes
      → FileSignature
      → ℕ
      → Result Exception Spec
      → ℕ
      → State Spec Exception
      → State Spec Exception
  unfolding set_at set_key
  end_flight path signature flight outcome thread s = record s {
    in_flight = set_key path none s.in_flight;
    flights = set_at flight (record { signature = signature; outcome = some outcome }) s.flights;
    threads = set_at thread (returned path signature outcome) s.threads;
  }

  -- The parse is over: both locked blocks that follow it.
  unfoldable pub finish :
      (List (Bytes × Entry Spec) → List (Bytes × Entry Spec))
      → Bytes
      → FileSignature
      → ℕ
      → Result Exception Spec
      → ℕ
      → State Spec Exception
      → State Spec Exception
  finish arrange path signature flight (ok spec) thread s =
      let entry : Entry Spec = record { signature = signature; spec = spec } in
      end_flight path signature flight (ok spec) thread
        (record s { entries = evict_if_needed path (arrange (assign path entry s.entries)) })
  finish arrange path signature flight (err exception) thread s =
      end_flight path signature flight (err exception) thread s

  -- `Clear`
  abbrev pub clear : State Spec Exception → State Spec Exception
  clear s = record s { entries = [] }
