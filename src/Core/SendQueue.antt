-- ===== src/Core/SendQueue.antt =====
-- include/iouring_runtime/core/SendQueue.h: the buffers that wait for a send. Each method holds the
-- mutex from its first line to its last, so a method is one step. A `SendBufferRef` is null or the
-- committed bytes of its buffer.
pub mod Invariant
pub mod Order
use iouring_runtime.Prelude.{
  ℕ, zero, suc, ◌+◌, ◌^◌, Bool, true, false, not, ◌||◌, List, [], ◌∷◌, ◌++◌, Option, none, some,
  length, take, drop, ltb, leb, ◌==◌, if◌then◌else◌, u32, add64, sub64,
}

abbrev pub SendBufferRef : Type 0
SendBufferRef = Option (List ℕ)

-- `buf ? buf->Size() : 0`; `Size` is a `uint32_t`.
abbrev pub size_of : SendBufferRef → ℕ
size_of none = 0
size_of (some bytes) = u32 (length bytes)

pub record PushResult : Type 0 where
  pub needs_register : Bool
  pub overflowed : Bool
  pub current_depth : ℕ
  pub current_bytes : ℕ

pub record Stats : Type 0 where
  pub current_depth : ℕ
  pub pending_bytes : ℕ
  pub peak_depth : ℕ
  pub peak_pending_bytes : ℕ
  pub overflow_count : ℕ

pub record SendQueue : Type 0 where
  pub pending : List SendBufferRef
  pub registered : Bool
  pub max_pending : ℕ
  pub pending_bytes : ℕ
  pub peak_depth : ℕ
  pub peak_pending_bytes : ℕ
  pub overflow_count : ℕ

unfoldable pub init : ℕ → SendQueue
init max_pending = record {
  pending = [];
  registered = false;
  max_pending = max_pending;
  pending_bytes = 0;
  peak_depth = 0;
  peak_pending_bytes = 0;
  overflow_count = 0;
}

-- `if (now > peak) peak = now`
abbrev raise : ℕ → ℕ → ℕ
raise peak now = if ltb peak now then now else peak

accept : SendQueue → SendBufferRef → SendQueue
accept q buf =
    let pending = q.pending ++ (buf ∷ []) in
    let bytes = add64 q.pending_bytes (size_of buf) in
    record q {
      pending = pending;
      registered = true;
      pending_bytes = bytes;
      peak_depth = raise q.peak_depth (length pending);
      peak_pending_bytes = raise q.peak_pending_bytes bytes;
    }

unfoldable pub push : SendQueue → SendBufferRef → PushResult × SendQueue
unfolding accept
push q buf =
    if leb q.max_pending (length q.pending)
    then (
      record {
        needs_register = false;
        overflowed = true;
        current_depth = length q.pending;
        current_bytes = q.pending_bytes;
      },
      record q { overflow_count = add64 q.overflow_count 1 },
    )
    else let q' = accept q buf in
      (
        record {
          needs_register = not q.registered;
          overflowed = false;
          current_depth = length q'.pending;
          current_bytes = q'.pending_bytes;
        },
        q',
      )

-- the loop that takes the sizes of the drained buffers off `pending_bytes_`
pub less_sizes : ℕ → List SendBufferRef → ℕ
less_sizes bytes [] = bytes
less_sizes bytes (b ∷ bs) = less_sizes (sub64 bytes (size_of b)) bs

drain_all : SendQueue → List SendBufferRef × SendQueue
drain_all q = (q.pending, record q { pending = []; pending_bytes = 0 })

drain_some : SendQueue → ℕ → List SendBufferRef × SendQueue
drain_some q n =
    let out = take n q.pending in
    (out, record q { pending = drop n q.pending; pending_bytes = less_sizes q.pending_bytes out })

unfoldable pub drain : SendQueue → ℕ → List SendBufferRef × SendQueue
unfolding drain_all drain_some
drain q max_count =
    if (max_count == 0) || leb (length q.pending) max_count
    then drain_all q
    else drain_some q max_count

abbrev pub is_nil : List SendBufferRef → Bool
is_nil [] = true
is_nil (b ∷ bs) = false

-- `out.clear()`
abbrev cleared : List SendBufferRef → List SendBufferRef
cleared out = []

-- `out.swap(pending_)`, of an `out` that was cleared
swap_all : SendQueue → List SendBufferRef → ℕ × List SendBufferRef × SendQueue
swap_all q out = (length q.pending, q.pending, record q { pending = out; pending_bytes = 0 })

-- the buffers moved behind those of `out`
move_some : SendQueue → List SendBufferRef → ℕ → ℕ × List SendBufferRef × SendQueue
move_some q out n =
    let moved = take n q.pending in
    (
      length (out ++ moved),
      out ++ moved,
      record q { pending = drop n q.pending; pending_bytes = less_sizes q.pending_bytes moved },
    )

-- `DrainInto` with the caller's vector: the count that it returns, what the vector is then, and the queue.
unfoldable pub drain_into : SendQueue → List SendBufferRef → ℕ → ℕ × List SendBufferRef × SendQueue
unfolding swap_all move_some
drain_into q out max_count =
    if is_nil q.pending
    then (0, cleared out, q)
    else if (max_count == 0) || leb (length q.pending) max_count
    then swap_all q (cleared out)
    else move_some q (cleared out) max_count

unfoldable pub mark_sent : SendQueue → SendQueue
mark_sent q = if is_nil q.pending then record q { registered = false } else q

unfoldable pub snapshot : SendQueue → Stats
snapshot q = record {
  current_depth = length q.pending;
  pending_bytes = q.pending_bytes;
  peak_depth = q.peak_depth;
  peak_pending_bytes = q.peak_pending_bytes;
  overflow_count = q.overflow_count;
}
