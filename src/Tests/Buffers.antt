-- ===== src/Tests/Buffers.antt =====
-- RecvBuffer, SendQueue and the partial sends at concrete inputs.
use iouring_runtime.Prelude.{
  ℕ, ◌+◌, ◌-◌, ◌≤◌, ◌<◌, ◌≡◌, refl, ◌⊎◌, false, List, [], ◌∷◌, ◌++◌, none, some, length, drop,
  arith, value, unexpected, resource_exhausted, inr,
}
use iouring_runtime.Core.RecvBuffer.{RecvBuffer, read_region, compact, append, on_read}
use iouring_runtime.Core.RecvBuffer.Compaction
use iouring_runtime.Core.RecvBuffer.Contents.{append_outcomes, compact_lem, on_read_lem}
use iouring_runtime.Core.SendQueue.{SendQueue, push, drain, drain_into, mark_sent}
use iouring_runtime.Core.SendQueue.Invariant
use iouring_runtime.Core.SendQueue.Order.{
  Op, pushes, drains, drains_into, marks_sent, run, marks, run_order, run-IsValid, run_registers,
}
use iouring_runtime.Core.SendState.{SendState, consume, advance_send_state}
use iouring_runtime.Core.SendState.Bytes.{left, HasBytes, advance_send_state_lem, sends, sends_lem}

-- eight bytes of storage, of which the first three were read and two wait
abbrev half_read : RecvBuffer
half_read = record {
  buffer = 1 ∷ 2 ∷ 3 ∷ 4 ∷ 5 ∷ 0 ∷ 0 ∷ 0 ∷ [];
  capacity = 8;
  read_pos = 3;
  write_pos = 5;
}

half_read-IsValid : Compaction.IsValid half_read
half_read-IsValid = record {
  stored = refl;
  small = omega arith;
  read_le = omega arith;
  write_le = omega arith;
}

abbrev six_bytes : List ℕ
six_bytes = 6 ∷ 7 ∷ 8 ∷ 9 ∷ 10 ∷ 11 ∷ []

-- The six bytes fit only after the two that wait are moved to the front.
append_moves : read_region (append half_read six_bytes).1 ≡ 4 ∷ 5 ∷ six_bytes
unfolding append compact
append_moves = refl

-- One more does not fit.
append_refuses : (append half_read (5 ∷ six_bytes)).0 ≡ unexpected resource_exhausted
unfolding append compact
append_refuses = refl

append_outcomes_example :
    Compaction.IsValid (append half_read six_bytes).1
    × ((append half_read six_bytes).1.capacity ≡ half_read.capacity)
    × (((length (read_region half_read) + length six_bytes ≤ half_read.capacity)
          × ((append half_read six_bytes).0 ≡ value tt)
          × (read_region (append half_read six_bytes).1 ≡ read_region half_read ++ six_bytes))
        ⊎ ((half_read.capacity < length (read_region half_read) + length six_bytes)
            × ((append half_read six_bytes).0 ≡ unexpected resource_exhausted)
            × (read_region (append half_read six_bytes).1 ≡ read_region half_read)))
append_outcomes_example = append_outcomes half_read six_bytes half_read-IsValid (omega arith)

compact_lem_example :
    Compaction.IsValid (compact half_read)
    × (read_region (compact half_read) ≡ read_region half_read)
    × ((compact half_read).read_pos ≡ 0)
    × ((compact half_read).write_pos ≡ half_read.write_pos - half_read.read_pos)
    × ((compact half_read).capacity ≡ half_read.capacity)
compact_lem_example = compact_lem half_read half_read-IsValid

on_read_lem_example :
    Compaction.IsValid (on_read half_read 2)
    × (read_region (on_read half_read 2) ≡ drop 2 (read_region half_read))
    × ((on_read half_read 2).capacity ≡ half_read.capacity)
on_read_lem_example = on_read_lem half_read 2 half_read-IsValid (omega arith)

-- Senders fill a queue of two, and its owner drains it in two calls.
abbrev history : List Op
history =
    pushes (some (1 ∷ []))
    ∷ pushes (some (2 ∷ 3 ∷ []))
    ∷ pushes (some (4 ∷ []))
    ∷ drains_into (none ∷ []) 1
    ∷ marks_sent
    ∷ pushes none
    ∷ drains 0
    ∷ marks_sent
    ∷ []

abbrev two : SendQueue
two = record {
  pending = [];
  registered = false;
  max_pending = 2;
  pending_bytes = 0;
  peak_depth = 0;
  peak_pending_bytes = 0;
  overflow_count = 0;
}

two-IsValid : Invariant.IsValid two
two-IsValid = record {
  small = omega arith;
  bytes = refl;
  bounded = omega arith;
  depth_seen = omega arith;
  bytes_seen = omega arith;
  waits = inr refl;
}

-- The third buffer is refused.
history_drains : (run two history).drained ≡ some (1 ∷ []) ∷ some (2 ∷ 3 ∷ []) ∷ none ∷ []
unfolding run push drain drain_into mark_sent
history_drains = refl

run_order_example :
    (run two history).drained ++ (run two history).queue.pending
    ≡ two.pending ++ (run two history).accepted
run_order_example = run_order history two two-IsValid

run-IsValid_example : Invariant.IsValid (run two history).queue
run-IsValid_example = run-IsValid history two two-IsValid

run_registers_example : (run two history).registers + 0 ≤ marks history + 1
run_registers_example = run_registers history two two-IsValid

-- an operation of three vectors
abbrev three : SendState
three = record {
  iovs = (1 ∷ 2 ∷ []) ∷ (3 ∷ 4 ∷ 5 ∷ []) ∷ (6 ∷ []) ∷ [];
  bufs = some (1 ∷ 2 ∷ []) ∷ some (3 ∷ 4 ∷ 5 ∷ []) ∷ some (6 ∷ []) ∷ [];
}

advance_three : (advance_send_state three 3).iovs ≡ (4 ∷ 5 ∷ []) ∷ (6 ∷ []) ∷ []
unfolding advance_send_state consume
advance_three = refl

advance_send_state_lem_example :
    (left (advance_send_state three 3) ≡ drop 3 (left three))
    × (length (advance_send_state three 3).iovs ≡ length (advance_send_state three 3).bufs)
    × HasBytes (advance_send_state three 3).iovs
advance_send_state_lem_example = advance_send_state_lem three 3 refl

sends_lem_example : (sends three (3 ∷ 2 ∷ [])).0 ++ left (sends three (3 ∷ 2 ∷ [])).1 ≡ left three
sends_lem_example = sends_lem (3 ∷ 2 ∷ []) three refl
