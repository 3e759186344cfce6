-- ===== src/Core/RecvBuffer.antt =====
-- include/iouring_runtime/core/RecvBuffer.h: the buffer in which a message that spans several
-- receives is put together. The storage is a list of bytes of fixed length, and positions are
-- `uint32_t`. `WriteRegion` only lends the free storage out, and has no model.
pub mod Compaction
pub mod Appending
pub mod Contents
use iouring_runtime.Prelude.{
  ℕ, ◌-◌, ◌/◌, ◌^◌, Bool, true, false, List, length, take, drop, replicate, splice, ltb, ◌==◌,
  if◌then◌else◌, u32, add32, sub32, CoreError, Expected, value, unexpected,
}
use iouring_runtime.Prelude.{resource_exhausted}

pub record RecvBuffer : Type 0 where
  pub buffer : List ℕ
  pub capacity : ℕ
  pub read_pos : ℕ
  pub write_pos : ℕ

-- The constructor: `make_unique` zeroes the storage.
unfoldable pub init : ℕ → RecvBuffer
init size = record { buffer = replicate size 0; capacity = size; read_pos = 0; write_pos = 0 }

abbrev pub default_size : ℕ
default_size = 65536

abbrev pub is_empty : RecvBuffer → Bool
is_empty b = b.read_pos == b.write_pos

abbrev pub should_compact : RecvBuffer → Bool
should_compact b = ltb (b.capacity / 2) b.read_pos

abbrev pub readable_size : RecvBuffer → ℕ
readable_size b = sub32 b.write_pos b.read_pos

abbrev pub writable_size : RecvBuffer → ℕ
writable_size b = sub32 b.capacity b.write_pos

-- the bytes received and not yet read
abbrev pub read_region : RecvBuffer → List ℕ
read_region b = take (readable_size b) (drop b.read_pos b.buffer)

-- `memmove` of `remaining` bytes to the front of the storage
unfoldable pub moved : RecvBuffer → RecvBuffer
moved b =
    let remaining = sub32 b.write_pos b.read_pos in
    record b {
      buffer =
          if ltb 0 remaining
          then splice b.buffer 0 (take remaining (drop b.read_pos b.buffer))
          else b.buffer;
      read_pos = 0;
      write_pos = remaining;
    }

unfoldable pub compact : RecvBuffer → RecvBuffer
unfolding moved
compact b = if b.read_pos == 0 then b else moved b

-- what `Append` does once the buffer was compacted, if it had to be
unfoldable pub append_here : RecvBuffer → List ℕ → Expected (Unit {0}) CoreError × RecvBuffer
append_here b bytes =
    if ltb (writable_size b) (u32 (length bytes)) then (unexpected resource_exhausted, b) else (
      value tt,
      record b {
        buffer = splice b.buffer b.write_pos bytes;
        write_pos = add32 b.write_pos (u32 (length bytes));
      },
    )

unfoldable pub append : RecvBuffer → List ℕ → Expected (Unit {0}) CoreError × RecvBuffer
unfolding append_here
append b bytes =
    append_here (if ltb (writable_size b) (u32 (length bytes)) then compact b else b) bytes

-- `OnWrite`: bytes that were put into the write region directly
pub on_write : RecvBuffer → ℕ → RecvBuffer
on_write b bytes = record b { write_pos = add32 b.write_pos bytes }

-- A buffer that was read to its end starts over at the front.
rewound : RecvBuffer → RecvBuffer
rewound b = if b.read_pos == b.write_pos then record b { read_pos = 0; write_pos = 0 } else b

pub on_read : RecvBuffer → ℕ → RecvBuffer
unfolding rewound
on_read b bytes = rewound (record b { read_pos = add32 b.read_pos bytes })
