-- ===== src/Vtk/Payload/Batches.antt =====
-- The batches of blocks, one for each task.
use cae_openusd_plugins.Prelude.{ℕ, ◌/◌, ◌≤◌, ◌<◌, ◌≡◌, arith}
use cae_openusd_plugins.Vtk.Payload.{batch_count, first_block, last_block}

-- Each block of a compressed payload is in one of the batches that are run, and in no other
-- batch.
pub batches_part_blocks :
    (num_blocks block : ℕ)
    → block < num_blocks
    → (block / 64 < batch_count num_blocks)
      × (first_block (block / 64) ≤ block)
      × (block < last_block num_blocks (block / 64))
      × ((batch : ℕ)
          → first_block batch ≤ block
          → block < last_block num_blocks batch
          → batch ≡ block / 64)
batches_part_blocks num_blocks block h =
    (omega (arith, h), omega arith, omega (arith, h), λ batch from to. omega (arith, from, to))
