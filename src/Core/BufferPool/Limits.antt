-- ===== src/Core/BufferPool/Limits.antt =====
-- include/iouring_runtime/core/SendBuffer.h: how many chunks a pool has, and where the buffers of a chunk
-- stand.
use iouring_runtime.Prelude.{
  ℕ, suc, ◌+◌, ◌^◌, ◌≤◌, ◌<◌, Bool, true, false, List, [], ◌∷◌, Option, none, some, ◌≡◌, refl, ap,
  subst, inl, inr, arith, Bool-cases, if_elim, if◌then◌else◌, ltb, leb, ◌==◌, length, add32, u32,
}
use iouring_runtime.Core.BufferPool.{
  SendBuffer, Chunk, open_chunk, BufferPool, find_chunk, erase_chunk, moved_to_free, move_to_free,
  move_all_to_free, flush_pending_gc, acquire_from, acquire_chunk, open_pushed, allocate_acquired,
  allocate_opened, allocate_back, allocate, on_chunk_unused, count_down, World, Action, allocates,
  releases, reports, release, release_nth, report_nth, act, run, nth, without_nth, max_free_chunks,
  reset,
}

-- all the chunks of a pool
abbrev pub chunk_count : BufferPool → ℕ
chunk_count p = length p.active_chunks + length p.free_chunks

-- A pool has no more chunks than it is allowed.
pub record IsLimited (n : ℕ) (p : BufferPool) : Type 0 where
  pub limit : p.max_chunks ≡ n
  pub count : chunk_count p ≤ n

erase_chunk-length :
    (a : ℕ) (cs : List Chunk) (c : Chunk)
    → find_chunk a cs ≡ some c
    → suc (length (erase_chunk a cs)) ≡ length cs
erase_chunk-length a [] c h = absurd cc
erase_chunk-length a (d ∷ cs) c h = elim (Bool-cases (d.address == a)) [
  | inl here ↦ rw here refl
  | inr later ↦
      let below : find_chunk a cs ≡ some c = ground arith in
      rw later (ap suc (erase_chunk-length a cs c below))
]

count_down-length : (a : ℕ) (cs : List Chunk) → length (count_down a cs) ≡ length cs
count_down-length a [] = refl
count_down-length a (c ∷ cs) = elim (Bool-cases (c.address == a)) [
  | inl here ↦ rw here refl
  | inr later ↦ rw later (ap suc (count_down-length a cs))
]

length-free :
    (cs : List Chunk) (c : Chunk)
    → length (if ltb (length cs) max_free_chunks then reset c ∷ cs else cs) ≤ suc (length cs)
length-free cs c =
    if_elim (λ ds. length ds ≤ suc (length cs)) (ltb (length cs) max_free_chunks) (reset c ∷ cs) cs
      (λ _. omega arith) (λ _. omega arith)

move_to_free-IsLimited : (n a : ℕ) (p : BufferPool) → IsLimited n p → IsLimited n (move_to_free a p)
unfolding move_to_free
move_to_free-IsLimited n a p l = by_found (find_chunk a p.active_chunks) refl
  where
    by_found :
        (o : Option Chunk) → find_chunk a p.active_chunks ≡ o → IsLimited n (moved_to_free p a o)
    by_found none e = l
    by_found (some c) e = record {
      limit = l.limit;
      count =
          omega
            (arith, erase_chunk-length a p.active_chunks c e, length-free p.free_chunks c, l.count);
    }

move_all_to_free-IsLimited :
    (n : ℕ) (chunks : List ℕ) (p : BufferPool)
    → IsLimited n p
    → IsLimited n (move_all_to_free chunks p)
move_all_to_free-IsLimited n [] p l = l
move_all_to_free-IsLimited n (a ∷ chunks) p l =
    move_all_to_free-IsLimited n chunks (move_to_free a p) (move_to_free-IsLimited n a p l)

open_pushed-IsLimited :
    (n : ℕ) (p : BufferPool) (c : Chunk) (o : Option (SendBuffer × Chunk))
    → p.max_chunks ≡ n
    → suc (chunk_count p) ≤ n
    → IsLimited n (open_pushed p c o).1
open_pushed-IsLimited n p c none m h = record { limit = m; count = omega arith }
open_pushed-IsLimited n p c (some opened) m h = record { limit = m; count = omega arith }

allocate_acquired-IsLimited :
    (n size : ℕ) (p : BufferPool)
    → IsLimited n p
    → IsLimited n (allocate_acquired size (acquire_chunk p)).1
unfolding acquire_chunk
allocate_acquired-IsLimited n size p l = by_free p.free_chunks refl
  where
    fresh : Chunk
    fresh = record {
      address = p.next_address;
      buffer_size = p.chunk_size;
      offset = 0;
      ref_count = 0;
    }

    p' : BufferPool
    p' = record p { next_address = suc p.next_address }

    below_limit :
        p.free_chunks ≡ []
        → leb p.max_chunks (length p.active_chunks) ≡ false
        → suc (chunk_count p) ≤ n
    below_limit e room =
        let none_free : length p.free_chunks ≡ 0 = ap length e in
        let fewer : length p.active_chunks < p.max_chunks = ground arith in
        omega (arith, none_free, fewer, l.limit)

    by_free :
        (cs : List Chunk)
        → p.free_chunks ≡ cs
        → IsLimited n (allocate_acquired size (acquire_from p cs)).1
    by_free (c ∷ cs) e =
        open_pushed-IsLimited n (record p { free_chunks = cs }) c (open_chunk size c) l.limit
          (omega (arith, ap length e, l.count))
    by_free [] e =
        if_elim (λ q. IsLimited n (allocate_acquired size q).1)
          (leb p.max_chunks (length p.active_chunks)) (none, p) (some fresh, p') (λ full. l)
          (λ room.
            open_pushed-IsLimited n p' fresh (open_chunk size fresh) l.limit (below_limit e room))

allocate_back-IsLimited :
    (n size : ℕ) (p : BufferPool) (cs : List Chunk)
    → p.active_chunks ≡ cs
    → IsLimited n p
    → IsLimited n (allocate_back size p cs).1
allocate_back-IsLimited n size p [] e l = allocate_acquired-IsLimited n size p l
allocate_back-IsLimited n size p (c ∷ cs) e l = by_open (open_chunk size c)
  where
    by_open : (o : Option (SendBuffer × Chunk)) → IsLimited n (allocate_opened size p cs o).1
    by_open none = allocate_acquired-IsLimited n size p l
    by_open (some opened) = record { limit = l.limit; count = omega (arith, ap length e, l.count) }

allocate-IsLimited : (n size : ℕ) (p : BufferPool) → IsLimited n p → IsLimited n (allocate size p).1
unfolding allocate flush_pending_gc
allocate-IsLimited n size p l =
    allocate_back-IsLimited n size (move_all_to_free p.pending_gc (record p { pending_gc = [] }))
      (move_all_to_free p.pending_gc (record p { pending_gc = [] })).active_chunks refl
      (move_all_to_free-IsLimited n p.pending_gc (record p { pending_gc = [] })
        (record { limit = l.limit; count = l.count }))

report-IsLimited :
    (n : ℕ) (owns_lock : Bool) (o : Option ℕ) (unused : List ℕ) (w : World)
    → IsLimited n w.pool
    → IsLimited n (report_nth owns_lock o unused w).pool
unfolding on_chunk_unused
report-IsLimited n owns_lock none unused w l = l
report-IsLimited n true (some a) unused w l = move_to_free-IsLimited n a w.pool l
report-IsLimited n false (some a) unused w l = record { limit = l.limit; count = l.count }

release-IsLimited :
    (n : ℕ) (o : Option SendBuffer) (held : List SendBuffer) (w : World)
    → IsLimited n w.pool
    → IsLimited n (release_nth o held w).pool
unfolding release
release-IsLimited n none held w l = l
release-IsLimited n (some b) held w l = record {
  limit = l.limit;
  count = omega (
    arith,
    count_down-length b.owner w.pool.active_chunks,
    count_down-length b.owner w.pool.free_chunks,
    l.count,
  );
}

act-IsLimited : (n : ℕ) (a : Action) (w : World) → IsLimited n w.pool → IsLimited n (act a w).pool
unfolding act
act-IsLimited n (allocates size) w l = allocate-IsLimited n size w.pool l
act-IsLimited n (releases i) w l = release-IsLimited n (nth i w.held) (without_nth i w.held) w l
act-IsLimited n (reports owns_lock i) w l =
    report-IsLimited n owns_lock (nth i w.unused) (without_nth i w.unused) w l

-- Whatever allocations, releases and collections follow one another, and whether or not a release gets the
-- mutex at once, a pool never has more chunks than its limit, active and free together.
pub run-IsLimited :
    (n : ℕ) (actions : List Action) (w : World)
    → IsLimited n w.pool
    → IsLimited n (run actions w).pool
run-IsLimited n [] w l = l
run-IsLimited n (a ∷ actions) w l = run-IsLimited n actions (act a w) (act-IsLimited n a w l)

-- Buffers one behind the other in a stretch of a chunk.
pub data Stacked : ℕ → ℕ → List SendBuffer → Type 0 where
  no_buffers : {from to : ℕ} → from ≤ to → Stacked from to []
  above :
      {from to : ℕ} (b : SendBuffer) (bs : List SendBuffer)
      → from ≤ b.buffer_at
      → Stacked (b.buffer_at + b.alloc_size) to bs
      → Stacked from to (b ∷ bs)

-- sizes that do not overflow in a chunk
pub data Small : ℕ → List ℕ → Type 0 where
  no_sizes : {n : ℕ} → Small n []
  and :
      {n : ℕ} (size : ℕ) (sizes : List ℕ)
      → n + size < 2 ^ 32
      → Small n sizes
      → Small n (size ∷ sizes)

abbrev open_next : (Chunk → List SendBuffer) → Chunk → Option (SendBuffer × Chunk) → List SendBuffer
open_next next c none = next c
open_next next c (some opened) = opened.0 ∷ next opened.1

-- what a chunk gives for sizes that are asked for one after the other
abbrev pub open_all : List ℕ → Chunk → List SendBuffer
open_all [] c = []
open_all (size ∷ sizes) c = open_next (open_all sizes) c (open_chunk size c)

-- The buffers that a chunk gives between two resets lie in it one behind the other, so that no two overlap,
-- if no size overflows.
pub open_all-Stacked :
    (sizes : List ℕ) (c : Chunk)
    → c.offset ≤ c.buffer_size
    → c.buffer_size < 2 ^ 32
    → Small c.buffer_size sizes
    → Stacked c.offset c.buffer_size (open_all sizes c)
unfolding open_chunk
open_all-Stacked [] c h k s = no_buffers h
open_all-Stacked (size ∷ sizes) c h k (and _ _ small s) =
    if_elim (λ o. Stacked c.offset c.buffer_size (open_next (open_all sizes) c o))
      (ltb (u32 c.buffer_size) (add32 c.offset size)) none (some (opened, c'))
      (λ full. open_all-Stacked sizes c h k s)
      (λ room.
        let fits : add32 c.offset size ≤ u32 c.buffer_size = ground arith in
        let e : add32 c.offset size ≡ c.offset + size = omega arith in
        above opened (open_all sizes c') (omega arith) (
          subst (λ from. Stacked from c.buffer_size (open_all sizes c')) e
            (open_all-Stacked sizes c' (omega (arith, fits)) k s)))
  where
    opened : SendBuffer
    opened = record { owner = c.address; buffer_at = c.offset; alloc_size = size; write_size = 0 }

    c' : Chunk
    c' = record c { offset = add32 c.offset size; ref_count = add32 c.ref_count 1 }
