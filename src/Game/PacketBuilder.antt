-- ===== src/Game/PacketBuilder.antt =====
-- include/iouring_runtime/game/PacketBuilder.h: a message as a packet. The message's class is
-- generated code: here it is what `ByteSizeLong` returns and what `SerializeToArray` writes.
pub mod RoundTrip
use iouring_runtime.Prelude.{
  ℕ, ◌+◌, ◌/◌, ◌%◌, Bool, not, List, [], ◌∷◌, ◌++◌, Option, none, some, ltb, ◌==◌, if◌then◌else◌,
  u16, u32, add32,
}
use iouring_runtime.Game.PacketSession.{header_size, max_packet_size}

-- `serialized` is `none` where `SerializeToArray` returns false.
pub record Message : Type 0 where
  pub byte_size : ℕ
  pub serialized : Option (List ℕ)

-- a `std::uint16_t` in the memory of a little-endian host
abbrev pub write_le16 : ℕ → List ℕ
write_le16 n = n % 256 ∷ n / 256 % 256 ∷ []

abbrev pub header : ℕ → ℕ → List ℕ
header total_size msg_id = write_le16 (u16 total_size) ++ write_le16 (u16 msg_id)

-- a header with what `SerializeToArray` wrote behind it
abbrev with_payload : List ℕ → Option (List ℕ) → Option (List ℕ)
with_payload front none = none
with_payload front (some payload) = some (front ++ payload)

-- `allocated` is whether the pool has a buffer; the result is the committed bytes, or null.
unfoldable pub build : Bool → ℕ → Message → Option (List ℕ)
build allocated msg_id proto =
    let payload_size = u32 proto.byte_size in
    let total_size = add32 header_size payload_size in
    if ltb max_packet_size total_size
    then none
    else if not allocated
    then none
    else if payload_size == 0
    then some (header total_size msg_id)
    else with_payload (header total_size msg_id) proto.serialized
