-- ===== src/Core/BufferPool.antt =====
-- include/iouring_runtime/core/SendBuffer.h: buffers cut from chunks, and the pool of chunks. A chunk is
-- known by an address, which no other chunk of the run has. A vector's back is the head of its list. `Allocate`
-- and `MoveToFree` hold the mutex; a release counts down before it asks for the mutex, so that these are two
-- actions, with others in between.
pub mod Limits
use iouring_runtime.Prelude.{
  ℕ, zero, suc, ◌+◌, ◌-◌, Bool, true, false, List, [], ◌∷◌, ◌++◌, Option, none, some, if◌then◌else◌,
  ltb, leb, ◌==◌, length, add32, u32, Expected, value, unexpected, CoreError, resource_exhausted,
}

-- `SendBuffer`: where it stands in its chunk, its space, and what was committed
pub record SendBuffer : Type 0 where
  pub owner : ℕ
  pub buffer_at : ℕ
  pub alloc_size : ℕ
  pub write_size : ℕ

-- the size of `Writable`
unfoldable pub writable_size : SendBuffer → ℕ
writable_size b = b.alloc_size - b.write_size

unfoldable pub commit : ℕ → SendBuffer → SendBuffer
commit size b = record b { write_size = add32 b.write_size size }

pub record Chunk : Type 0 where
  pub address : ℕ
  pub buffer_size : ℕ
  pub offset : ℕ
  pub ref_count : ℕ

unfoldable pub open_chunk : ℕ → Chunk → Option (SendBuffer × Chunk)
open_chunk size c =
    if ltb (u32 c.buffer_size) (add32 c.offset size)
    then none
    else some (
      record { owner = c.address; buffer_at = c.offset; alloc_size = size; write_size = 0 },
      record c { offset = add32 c.offset size; ref_count = add32 c.ref_count 1 },
    )

abbrev pub reset : Chunk → Chunk
reset c = record c { offset = 0 }

unfoldable pub is_full : Chunk → Bool
is_full c = leb (u32 c.buffer_size) c.offset

unfoldable pub is_unused : Chunk → Bool
is_unused c = c.ref_count == 0

-- `next_address` is what the next `make_unique` gives.
pub record BufferPool : Type 0 where
  pub pending_gc : List ℕ
  pub active_chunks : List Chunk
  pub free_chunks : List Chunk
  pub chunk_size : ℕ
  pub max_chunks : ℕ
  pub next_address : ℕ

abbrev pub new_pool : ℕ → ℕ → BufferPool
new_pool chunk_size max_chunks = record {
  pending_gc = [];
  active_chunks = [];
  free_chunks = [];
  chunk_size = chunk_size;
  max_chunks = max_chunks;
  next_address = 1;
}

abbrev pub max_free_chunks : ℕ
max_free_chunks = 8

-- `find_if` for the chunk with an address
abbrev pub find_chunk : ℕ → List Chunk → Option Chunk
find_chunk a [] = none
find_chunk a (c ∷ cs) = let later = find_chunk a cs in if c.address == a then some c else later

-- `erase` of the chunk that `find_if` finds
abbrev pub erase_chunk : ℕ → List Chunk → List Chunk
erase_chunk a [] = []
erase_chunk a (c ∷ cs) = let rest = erase_chunk a cs in if c.address == a then cs else c ∷ rest

-- the branch of `MoveToFree` for a chunk that is found
abbrev pub moved_to_free : BufferPool → ℕ → Option Chunk → BufferPool
moved_to_free p a none = p
moved_to_free p a (some c) = record p {
  active_chunks = erase_chunk a p.active_chunks;
  free_chunks =
      if ltb (length p.free_chunks) max_free_chunks then reset c ∷ p.free_chunks else p.free_chunks;
}

unfoldable pub move_to_free : ℕ → BufferPool → BufferPool
move_to_free a p = moved_to_free p a (find_chunk a p.active_chunks)

abbrev pub move_all_to_free : List ℕ → BufferPool → BufferPool
move_all_to_free [] p = p
move_all_to_free (a ∷ chunks) p = move_all_to_free chunks (move_to_free a p)

unfoldable pub flush_pending_gc : BufferPool → BufferPool
flush_pending_gc p = move_all_to_free p.pending_gc (record p { pending_gc = [] })

-- `AcquireChunk` with the chunks that are free
abbrev pub acquire_from : BufferPool → List Chunk → Option Chunk × BufferPool
acquire_from p (c ∷ cs) = (some c, record p { free_chunks = cs })
acquire_from p [] = if leb p.max_chunks (length p.active_chunks) then (none, p) else (
  some (record { address = p.next_address; buffer_size = p.chunk_size; offset = 0; ref_count = 0 }),
  record p { next_address = suc p.next_address },
)

unfoldable pub acquire_chunk : BufferPool → Option Chunk × BufferPool
acquire_chunk p = acquire_from p p.free_chunks

abbrev pub Allocated : Type 0
Allocated = Expected SendBuffer CoreError × BufferPool

-- the end of `Allocate`, with the chunk pushed to the back
abbrev pub open_pushed : BufferPool → Chunk → Option (SendBuffer × Chunk) → Allocated
open_pushed p c none =
    (unexpected resource_exhausted, record p { active_chunks = c ∷ p.active_chunks })
open_pushed p c (some opened) =
    (value opened.0, record p { active_chunks = opened.1 ∷ p.active_chunks })

abbrev pub allocate_acquired : ℕ → Option Chunk × BufferPool → Allocated
allocate_acquired size (none, p) = (unexpected resource_exhausted, p)
allocate_acquired size (some c, p) = open_pushed p c (open_chunk size c)

-- `Allocate`, with what the chunk at the back gives, and the chunks in front of it
abbrev pub allocate_opened : ℕ → BufferPool → List Chunk → Option (SendBuffer × Chunk) → Allocated
allocate_opened size p cs none = allocate_acquired size (acquire_chunk p)
allocate_opened size p cs (some opened) =
    (value opened.0, record p { active_chunks = opened.1 ∷ cs })

-- `Allocate`, behind the flush, with the active chunks
abbrev pub allocate_back : ℕ → BufferPool → List Chunk → Allocated
allocate_back size p [] = allocate_acquired size (acquire_chunk p)
allocate_back size p (c ∷ cs) = allocate_opened size p cs (open_chunk size c)

unfoldable pub allocate : ℕ → BufferPool → Allocated
allocate size p = let q = flush_pending_gc p in allocate_back size q q.active_chunks

-- `OnChunkUnused`, where `try_to_lock` gives the mutex or not
unfoldable pub on_chunk_unused : Bool → ℕ → BufferPool → BufferPool
on_chunk_unused true a p = move_to_free a p
on_chunk_unused false a p = record p { pending_gc = p.pending_gc ++ a ∷ [] }

-- `ref_count_.fetch_sub(1)` of a chunk
abbrev pub count_down : ℕ → List Chunk → List Chunk
count_down a [] = []
count_down a (c ∷ cs) =
    let rest = count_down a cs in
    if c.address == a then record c { ref_count = c.ref_count - 1 } ∷ cs else c ∷ rest

-- The pool, the buffers that someone holds, and the chunks whose count a release has brought to 0, before
-- that release goes on to `OnChunkUnused`.
pub record World : Type 0 where
  pub pool : BufferPool
  pub held : List SendBuffer
  pub unused : List ℕ

-- An allocation, the release of one of the held buffers, and the rest of one of the releases.
pub data Action : Type 0 where
  allocates : ℕ → Action
  releases : ℕ → Action
  reports : Bool → ℕ → Action

abbrev pub nth {ℓ} : {A : Type ℓ} → ℕ → List A → Option A
nth i [] = none
nth zero (x ∷ xs) = some x
nth (suc i) (x ∷ xs) = nth i xs

abbrev pub without_nth {ℓ} : {A : Type ℓ} → ℕ → List A → List A
without_nth i [] = []
without_nth zero (x ∷ xs) = xs
without_nth (suc i) (x ∷ xs) = x ∷ without_nth i xs

abbrev pub hold : List SendBuffer → Expected SendBuffer CoreError → List SendBuffer
hold held (value b) = b ∷ held
hold held (unexpected e) = held

abbrev pub was_last : Option Chunk → Bool
was_last none = false
was_last (some c) = c.ref_count == 1

-- whether `fetch_sub` of a chunk gives 1
unfoldable pub last_release : ℕ → BufferPool → Bool
last_release a p =
    if was_last (find_chunk a p.active_chunks) then true else was_last (find_chunk a p.free_chunks)

-- The deleter of a `SendBufferRef`, up to the end of `fetch_sub`.
unfoldable pub release : SendBuffer → List SendBuffer → World → World
release b held w =
    let p = w.pool in
    record {
      pool = record p {
        active_chunks = count_down b.owner p.active_chunks;
        free_chunks = count_down b.owner p.free_chunks;
      };
      held = held;
      unused = if last_release b.owner p then b.owner ∷ w.unused else w.unused;
    }

abbrev pub release_nth : Option SendBuffer → List SendBuffer → World → World
release_nth none held w = w
release_nth (some b) held w = release b held w

abbrev pub report_nth : Bool → Option ℕ → List ℕ → World → World
report_nth owns_lock none unused w = w
report_nth owns_lock (some a) unused w = record w {
  pool = on_chunk_unused owns_lock a w.pool;
  unused = unused;
}

abbrev pub hold_allocated : World → Allocated → World
hold_allocated w got = record w { pool = got.1; held = hold w.held got.0 }

unfoldable pub act : Action → World → World
act (allocates size) w = hold_allocated w (allocate size w.pool)
act (releases i) w = release_nth (nth i w.held) (without_nth i w.held) w
act (reports owns_lock i) w = report_nth owns_lock (nth i w.unused) (without_nth i w.unused) w

abbrev pub run : List Action → World → World
run [] w = w
run (a ∷ actions) w = run actions (act a w)
