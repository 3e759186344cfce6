-- ===== src/Tests/Rings.antt =====
-- Concrete rings of buffers: src/runtime/ring/RingBuffer.cpp.
use iouring_runtime.Prelude.{
  ◌+◌, ◌*◌, ◌-◌, ◌≤◌, true, none, some, value, unexpected, ◌≡◌, refl, arith,
}
use iouring_runtime.Core.RingBuffer.{
  Host, RingBufferConfig, RingBuffer, create, view, return_buffer, is_power_of_two, bit_and,
  bit_width, is_valid, registered, mapped, buffer_registration_failed,
}
use iouring_runtime.Core.RingBuffer.Views.{views_apart}

-- entries of 16 bytes, and a mapping at 4096
abbrev host : Host
host = record { entry_size = 16; ring_mask = λ n. n - 1; mmap = λ n. some 4096; accepts = true }

abbrev config : RingBufferConfig
config = record { buf_count = 4; buf_size = 8; group_id = 1 }

abbrev ring : RingBuffer
ring = record {
  config = config;
  meta = 4096;
  length_of_map = 96;
  buf_size_shift = 3;
  data_base = 4160;
  available = 4;
}

created : (create host true config).0 ≡ value ring
unfolding create mapped registered is_valid is_power_of_two bit_and bit_width
created = refl

three_buffers :
    (create host true (record config { buf_count = 3 })).0 ≡ unexpected buffer_registration_failed
unfolding create mapped registered is_valid is_power_of_two bit_and bit_width
three_buffers = refl

first_view : view ring 1 5 ≡ some (4168, 5)
unfolding view
first_view = refl

next_view : view ring 3 20 ≡ some (4184, 8)
unfolding view
next_view = refl

no_view : view ring 4 1 ≡ none
unfolding view
no_view = refl

-- One buffer that is returned makes five of four available.
one_too_many : (return_buffer host 2 ring).1.available ≡ 5
unfolding return_buffer
one_too_many = refl

views_apart_example : (4096 + 16 * 4 ≤ 4168) × (4168 + 5 ≤ 4184) × (4184 + 8 ≤ 4096 + 96)
views_apart_example =
    views_apart host true config ring 1 3 5 20 (4168, 5) (4184, 8) (omega arith) created
      (omega arith) first_view next_view
