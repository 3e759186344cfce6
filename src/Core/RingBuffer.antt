-- ===== src/Core/RingBuffer.antt =====
-- include/iouring_runtime/core/RingBuffer.h and src/runtime/ring/RingBuffer.cpp: the buffers that the
-- kernel fills. The memory is known by its address. What liburing and the kernel give is a record of
-- answers, and the calls to them are a list.
pub mod Powers
pub mod Views
use iouring_runtime.Prelude.{
  ℕ, zero, suc, ◌+◌, ◌-◌, ◌*◌, ◌/◌, ◌%◌, ◌^◌, ◌≤◌, min, Bool, true, false, ◌&&◌, not, List, [], ◌∷◌,
  ◌++◌, Option, none, some, if◌then◌else◌, leb, ltb, ◌==◌, u16, u32, add32, Expected, value,
  unexpected, ◌≡◌, refl, arith,
}

pub data RingError : Type 0 where
  setup_failed : RingError
  submission_failed : RingError
  buffer_registration_failed : RingError

pub record RingBufferConfig : Type 0 where
  pub buf_count : ℕ
  pub buf_size : ℕ
  pub group_id : ℕ

-- the calls to liburing and of `munmap`, with an address first
pub data RingCall : Type 0 where
  buf_ring_init : ℕ → RingCall
  register_buf_ring : ℕ → ℕ → ℕ → RingCall
  unregister_buf_ring : ℕ → RingCall
  buf_ring_add : ℕ → ℕ → ℕ → ℕ → ℕ → RingCall
  buf_ring_advance : ℕ → RingCall
  munmap : ℕ → ℕ → RingCall

-- `sizeof(io_uring_buf)`, `io_uring_buf_ring_mask`, the address that `mmap` gives for a length, and
-- whether the registration is accepted
pub record Host : Type 0 where
  pub entry_size : ℕ
  pub ring_mask : ℕ → ℕ
  pub mmap : ℕ → Option ℕ
  pub accepts : Bool

-- `&` of numbers with as many bits as the fuel
unfoldable pub bit_and : ℕ → ℕ → ℕ → ℕ
bit_and zero a b = 0
bit_and (suc bits) a b = (a % 2) * (b % 2) + 2 * bit_and bits (a / 2) (b / 2)

unfoldable pub is_power_of_two : ℕ → Bool
is_power_of_two v = ltb 0 v && (bit_and 32 v (v - 1) == 0)

-- `std::bit_width` of a number with as many bits as the fuel
unfoldable pub bit_width : ℕ → ℕ → ℕ
bit_width zero v = 0
bit_width (suc bits) v = let rest = bit_width bits (v / 2) in if v == 0 then 0 else suc rest

abbrev pub log2u : ℕ → ℕ
log2u v = bit_width 32 v - 1

-- `meta` is where the mapping starts, and `ring_ptr` is the same address.
pub record RingBuffer : Type 0 where
  pub config : RingBufferConfig
  pub meta : ℕ
  pub length_of_map : ℕ
  pub buf_size_shift : ℕ
  pub data_base : ℕ
  pub available : ℕ

-- The loop of `Create`: the buffers from `i` on.
unfoldable pub add_buffers : ℕ → ℕ → RingBufferConfig → ℕ → ℕ → ℕ → List RingCall
add_buffers zero i config data_base shift mask = []
add_buffers (suc n) i config data_base shift mask =
    buf_ring_add (data_base + i * 2 ^ shift) config.buf_size i mask i
    ∷ add_buffers n (suc i) config data_base shift mask

unfoldable pub is_valid : RingBufferConfig → Bool
is_valid config = is_power_of_two config.buf_count && is_power_of_two config.buf_size

abbrev pub meta_size : Host → RingBufferConfig → ℕ
meta_size host config = host.entry_size * config.buf_count

abbrev pub total_size : Host → RingBufferConfig → ℕ
total_size host config = meta_size host config + config.buf_size * config.buf_count

abbrev pub Made : Type 0
Made = Expected RingBuffer RingError

abbrev pub Created : Type 0
Created = Made × List RingCall

-- `Create` from the registration on
unfoldable pub registered : Host → RingBufferConfig → ℕ → Bool → Created
registered host config base false = (
  unexpected buffer_registration_failed,
  buf_ring_init base
      ∷ register_buf_ring base config.buf_count config.group_id
      ∷ munmap base (total_size host config)
      ∷ [],
)
registered host config base true =
    let shift = log2u config.buf_size in
    let data_base = base + meta_size host config in
    (
      value (record {
        config = config;
        meta = base;
        length_of_map = total_size host config;
        buf_size_shift = shift;
        data_base = data_base;
        available = config.buf_count;
      }),
      buf_ring_init base
          ∷ register_buf_ring base config.buf_count config.group_id
          ∷ (add_buffers (u16 config.buf_count) 0 config data_base shift
                (host.ring_mask config.buf_count)
              ++ (buf_ring_advance config.buf_count ∷ [])),
    )

unfoldable pub mapped : Host → RingBufferConfig → Option ℕ → Created
unfolding registered
mapped host config none = (unexpected buffer_registration_failed, [])
mapped host config (some base) = registered host config base host.accepts

-- `has_ring` is whether the pointer to the ring is not null.
unfoldable pub create : Host → Bool → RingBufferConfig → Created
unfolding mapped
create host has_ring config =
    if not has_ring
    then (unexpected buffer_registration_failed, [])
    else (if not (is_valid config)
        then (unexpected buffer_registration_failed, [])
        else mapped host config (host.mmap (total_size host config)))

-- The destructor.
unfoldable pub destroy : RingBuffer → List RingCall
destroy r = unregister_buf_ring r.config.group_id ∷ munmap r.meta r.length_of_map ∷ []

abbrev pub buf_addr : RingBuffer → ℕ → ℕ
buf_addr r buf_id = r.data_base + buf_id * 2 ^ r.buf_size_shift

-- The address and the length of a view: none is the empty span.
unfoldable pub view : RingBuffer → ℕ → ℕ → Option (ℕ × ℕ)
view r buf_id len =
    if leb r.config.buf_count buf_id
    then none
    else some (buf_addr r buf_id, min len r.config.buf_size)

unfoldable pub return_buffer : Host → ℕ → RingBuffer → List RingCall × RingBuffer
return_buffer host buf_id r = if leb r.config.buf_count buf_id then ([], r) else (
  buf_ring_add (buf_addr r buf_id) r.config.buf_size buf_id (host.ring_mask r.config.buf_count) 0
      ∷ buf_ring_advance 1
      ∷ [],
  record r { available = add32 r.available 1 },
)
