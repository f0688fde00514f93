-- ===== src/Vtk/Cache/Tests.antt =====
-- One thread that calls the cache, parses and returns, and the theorems at its states.
use cae_openusd_plugins.Prelude.{
  ℕ, true, ◌≤◌, ◌≡◌, refl, none, some, same, List, [], ◌∷◌, Bytes, length,
}
use cae_openusd_plugins.Prelude.Result.{Result, ok, err, ◌>>=◌, ◌>>◌, guard, require}
use cae_openusd_plugins.Stream.{read}
use cae_openusd_plugins.Vtk.Error.{Error, no_regular_file}
use cae_openusd_plugins.Vtk.Cache.Signature.{
  FileSignature, FileStatus, compute_file_signature, compute_quick_content_hash, fnva_update,
}
use cae_openusd_plugins.Vtk.Cache.{
  Entry, InFlight, State, idle, computing, parsing, returned, refused, refuse, set_at, set_key,
  find, assign, evict_loop, evict_if_needed, join_found, use_found, look_up, end_flight, finish,
  max_cached_specs,
}
use cae_openusd_plugins.Vtk.Cache.Steps.{
  call, start, IsArrangement, Reachable, started, stepped, called, looked_up, parsed, refused_with,
}
use cae_openusd_plugins.Vtk.Cache.Steps.Promises.{
  cache_single_flight, cache_returns_current, cache_bounded, IsExplained,
}

abbrev path : Bytes
path = b'a' ∷ []

-- A file of three bytes, and a path without one.
abbrev status : Bytes → FileStatus
status p = record { is_regular_file = same p path; file_size = ok 3; last_write_time = ok 1 }

abbrev computed : Bytes → Result Error FileSignature
computed p = compute_file_signature true (status p) (some (1 ∷ 2 ∷ 3 ∷ [])) p

abbrev signature : FileSignature
signature = record {
  resolved_path = path;
  file_size = 3;
  last_write_time = 1;
  quick_content_hash = 15617360297330096808;
}

abbrev unused : InFlight ℕ Error
unused = record { signature = signature; outcome = none }

-- The signature is the one that is computed.
abbrev Signs : Bytes → Result Error FileSignature → Type 0
Signs p signed = computed p ≡ signed

-- A parser that gives 5 for every file.
abbrev Parses : FileSignature → Result Error ℕ → Type 0
Parses g outcome = outcome ≡ ok 5

signed : Signs path (ok signature)
unfolding compute_file_signature compute_quick_content_hash fnva_update same read ◌>>=◌ ◌>>◌ guard
    require
signed = refl

not_signed : Signs [] (err no_regular_file)
unfolding compute_file_signature same ◌>>◌ ◌>>=◌ guard
not_signed = refl

abbrev arrange : List (Bytes × Entry ℕ) → List (Bytes × Entry ℕ)
arrange entries = entries

arrange-IsArrangement : IsArrangement arrange
arrange-IsArrangement = record { same_size = λ entries. refl; same_entries = λ entries a h. h }

abbrev called_state : State ℕ Error
called_state = call path 0 (start unused)

abbrev parsing_state : State ℕ Error
parsing_state = look_up path signature 0 called_state

abbrev returned_state : State ℕ Error
returned_state = finish arrange path signature 0 (ok 5) 0 parsing_state

at_parsing : parsing_state.threads 0 ≡ parsing path signature 0
unfolding find use_found join_found set_at set_key
at_parsing = refl

at_returned : returned_state.threads 0 ≡ returned path signature (ok 5)
unfolding find use_found join_found set_at set_key finish end_flight
at_returned = refl

entries_returned : returned_state.entries ≡ (path, record { signature = signature; spec = 5 }) ∷ []
unfolding find use_found join_found set_at set_key finish end_flight assign evict_loop
    evict_if_needed
entries_returned = refl

reach_parsing : Reachable Signs Parses arrange parsing_state
unfolding set_at
reach_parsing =
    stepped called_state parsing_state
      (stepped (start unused) called_state (started unused refl)
        (called (start unused) 0 path refl))
      (looked_up called_state 0 path signature refl signed)

reach_returned : Reachable Signs Parses arrange returned_state
reach_returned =
    stepped parsing_state returned_state reach_parsing
      (parsed parsing_state 0 path signature 0 (ok 5) at_parsing refl)

cache_single_flight_example : ◌≡◌ {A = ℕ} 0 0
cache_single_flight_example =
    cache_single_flight Signs Parses arrange arrange-IsArrangement parsing_state reach_parsing 0 0
      path signature signature 0 0 at_parsing at_parsing

-- Another thread calls for the path without a file, and is refused.
abbrev called_again : State ℕ Error
called_again = call [] 1 returned_state

abbrev refused_state : State ℕ Error
refused_state = refuse [] no_regular_file 1 called_again

at_called_again : called_again.threads 1 ≡ computing []
unfolding set_at
at_called_again = refl

at_idle : returned_state.threads 1 ≡ idle
unfolding find use_found join_found set_at set_key finish end_flight
at_idle = refl

at_refused : refused_state.threads 1 ≡ refused [] no_regular_file
unfolding refuse set_at
at_refused = refl

reach_refused : Reachable Signs Parses arrange refused_state
reach_refused =
    stepped called_again refused_state
      (stepped returned_state called_again reach_returned (called returned_state 1 [] at_idle))
      (refused_with called_again 1 [] no_regular_file at_called_again not_signed)

cache_returns_current_example :
    IsExplained Signs Parses (refused_state.threads 0)
    × IsExplained Signs Parses (refused_state.threads 1)
cache_returns_current_example = (
  cache_returns_current Signs Parses arrange arrange-IsArrangement refused_state reach_refused 0,
  cache_returns_current Signs Parses arrange arrange-IsArrangement refused_state reach_refused 1,
)

cache_bounded_example : length returned_state.entries ≤ max_cached_specs
cache_bounded_example =
    cache_bounded Signs Parses arrange arrange-IsArrangement returned_state reach_returned
