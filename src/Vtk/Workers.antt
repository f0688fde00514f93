-- ===== src/Vtk/Workers.antt =====
-- PXR_NS::WorkParallelForN as FileHandle.cpp uses it: tasks that each fill a part of one buffer and
-- record the first failure. A schedule is the order in which the tasks ran.
pub mod Order
use cae_openusd_plugins.Prelude.{ℕ, ◌+◌, List, [], ◌∷◌, ◌++◌, Bytes, length, take, drop}
use cae_openusd_plugins.Prelude.Result.{Result, ok, err, ◌>>=◌}
use cae_openusd_plugins.Vtk.Error.{Error}

-- The buffer after `bytes` are stored at `offset`.
unfoldable pub write_at : ℕ → Bytes → Bytes → Bytes
write_at offset bytes target = take offset target ++ (bytes ++ drop (offset + length bytes) target)

-- The tasks in the order of the schedule; after a failure the others do nothing, and it is thrown.
unfoldable pub run_tasks : (ℕ → Bytes → Result Error Bytes) → List ℕ → Bytes → Result Error Bytes
unfolding ◌>>=◌
run_tasks task [] buffer = ok buffer
run_tasks task (t ∷ rest) buffer = task t buffer >>= λ filled. run_tasks task rest filled
