-- ===== src/Tests/Pools.antt =====
-- Concrete buffers and pools: include/iouring_runtime/core/SendBuffer.h.
use iouring_runtime.Prelude.{true, false, List, [], ◌∷◌, ◌≡◌, refl, arith}
use iouring_runtime.Core.BufferPool.{
  Chunk, open_chunk, new_pool, acquire_chunk, move_to_free, flush_pending_gc, allocate,
  on_chunk_unused, last_release, World, Action, allocates, releases, reports, release, act, run,
}
use iouring_runtime.Core.BufferPool.Limits.{
  IsLimited, run-IsLimited, Stacked, no_sizes, and, open_all, open_all-Stacked,
}

abbrev new_world : World
new_world = record { pool = new_pool 100 4; held = []; unused = [] }

-- A buffer is released, and before the release goes on to the pool another one is allocated.
abbrev late_report : List Action
late_report = allocates 10 ∷ releases 0 ∷ allocates 20 ∷ reports true 0 ∷ allocates 15 ∷ []

-- Both buffers are held, and they overlap in the bytes from 10 to 15.
overlap :
    (run late_report new_world).held
    ≡ record { owner = 1; buffer_at = 0; alloc_size = 15; write_size = 0 }
      ∷ record { owner = 1; buffer_at = 10; alloc_size = 20; write_size = 0 }
      ∷ []
unfolding act allocate flush_pending_gc acquire_chunk open_chunk on_chunk_unused move_to_free
    release last_release
overlap = refl

-- The same where the release does not get the mutex and leaves the chunk to the next allocation.
abbrev queued_report : List Action
queued_report = allocates 10 ∷ releases 0 ∷ allocates 20 ∷ reports false 0 ∷ allocates 15 ∷ []

queued_overlap : (run queued_report new_world).held ≡ (run late_report new_world).held
unfolding act allocate flush_pending_gc acquire_chunk open_chunk on_chunk_unused move_to_free
    release last_release
queued_overlap = refl

run-IsLimited_example : IsLimited 4 (run late_report new_world).pool
run-IsLimited_example =
    run-IsLimited 4 late_report new_world (record { limit = refl; count = omega arith })

abbrev chunk : Chunk
chunk = record { address = 1; buffer_size = 100; offset = 30; ref_count = 2 }

open_all-Stacked_example : Stacked 30 100 (open_all (40 ∷ 50 ∷ 20 ∷ []) chunk)
open_all-Stacked_example = open_all-Stacked (40 ∷ 50 ∷ 20 ∷ []) chunk (omega arith) (omega arith) (
    and 40 (50 ∷ 20 ∷ []) (omega arith)
      (and 50 (20 ∷ []) (omega arith) (and 20 [] (omega arith) no_sizes)))
