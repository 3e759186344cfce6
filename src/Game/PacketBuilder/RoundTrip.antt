-- ===== src/Game/PacketBuilder/RoundTrip.antt =====
-- What PacketBuilder builds, PacketSession reads.
use mathlib.Core.List.{flatten}
use iouring_runtime.Prelude.{
  ℕ, ◌+◌, ◌-◌, ◌≤◌, ◌<◌, ◌^◌, ◌≡◌, refl, sym, ap, ◌∙◌, subst, inl, true, false, List, [], ◌∷◌, ◌++◌,
  Option, none, some, arith, length, drop, take_all, drop_all, ltb, ◌==◌, add32, u32,
}
use iouring_runtime.Game.PacketSession.{
  Event, packet, Receiver, read_le16, header_size, max_packet_size, deliver_all, fresh,
}
use iouring_runtime.Game.PacketSession.Frames.{
  front, waits, fails, Frames, partial, whole, Frames-append, Frames-unique,
}
use iouring_runtime.Game.PacketSession.Receive.{Received, still_open, shut}
use iouring_runtime.Game.PacketSession.Chunks.{deliver_all-fresh}
use iouring_runtime.Game.PacketBuilder.{Message, header, build}

-- A message's id and its serialization, which `ByteSizeLong` measures and `SerializeToArray` writes.
abbrev pub message : List ℕ → Message
message payload = record { byte_size = length payload; serialized = some payload }

-- the ids are of 16 bits, and the packets no longer than a packet may be
abbrev pub Fit : List (ℕ × List ℕ) → Type 0
Fit [] = Unit {0}
Fit (m ∷ ms) = (m.0 < 2 ^ 16) × (header_size + length m.1 ≤ max_packet_size) × Fit ms

abbrev bytes_of : Option (List ℕ) → List ℕ
bytes_of none = []
bytes_of (some bytes) = bytes

-- the packets of messages one after the other
abbrev pub built : List (ℕ × List ℕ) → List ℕ
built [] = []
built (m ∷ ms) = bytes_of (build true m.0 (message m.1)) ++ built ms

-- the calls of `OnPacket` for messages
abbrev pub calls : List (ℕ × List ℕ) → List Event
calls [] = []
calls (m ∷ ms) = packet m.0 m.1 ∷ calls ms

abbrev bytes : ℕ → List ℕ → List ℕ
bytes id payload = header (4 + length payload) id ++ payload

-- A message that fits is its header and its serialization.
build_fits :
    (id : ℕ) (payload : List ℕ)
    → header_size + length payload ≤ max_packet_size
    → build true id (message payload) ≡ some (bytes id payload)
unfolding build
build_fits id [] h = refl
build_fits id (x ∷ xs) h = rw (small, some_bytes, total)
  where
    size : ℕ
    size = length (x ∷ xs)

    small : ltb max_packet_size (add32 header_size (u32 size)) ≡ false
    small = ground arith

    some_bytes : (u32 size == 0) ≡ false
    some_bytes = ground arith

    total : add32 header_size (u32 size) ≡ 4 + size
    total = omega arith

length-bytes : (id : ℕ) (payload : List ℕ) → length (bytes id payload) ≡ 4 + length payload
length-bytes id payload = omega arith

read_size :
    (id : ℕ) (payload : List ℕ)
    → header_size + length payload ≤ max_packet_size
    → read_le16 (bytes id payload) ≡ 4 + length payload
unfolding read_le16
read_size id payload h = omega arith

read_id : (id : ℕ) (payload : List ℕ) → id < 2 ^ 16 → read_le16 (drop 2 (bytes id payload)) ≡ id
unfolding read_le16
read_id id payload h = omega arith

front-bytes :
    (id : ℕ) (payload : List ℕ)
    → id < 2 ^ 16
    → header_size + length payload ≤ max_packet_size
    → front (bytes id payload) ≡ packet id payload
front-bytes id payload i h =
    rw (read_id id payload i, read_size id payload h)
      (ap (packet id) (take_all (4 + length payload - header_size) payload (omega arith)))

bytes-Frames :
    (id : ℕ) (payload : List ℕ)
    → id < 2 ^ 16
    → header_size + length payload ≤ max_packet_size
    → Frames (bytes id payload) (packet id payload ∷ []) (waits [])
bytes-Frames id payload i h =
    let size = read_size id payload h in
    whole (omega (arith, size), omega (arith, size, length-bytes id payload))
      (sym (
        drop_all (read_le16 (bytes id payload)) (bytes id payload)
          (omega (arith, size, length-bytes id payload))))
      (partial (inl (omega arith)) refl refl) (ap (λ p. p ∷ []) (sym (front-bytes id payload i h)))

built-Frames : (ms : List (ℕ × List ℕ)) → Fit ms → Frames (built ms) (calls ms) (waits [])
built-Frames [] f = partial (inl (omega arith)) refl refl
built-Frames (m ∷ ms) (i, h, f) =
    rw (build_fits m.0 m.1 h)
      (Frames-append (built ms) (bytes-Frames m.0 m.1 i h) refl (built-Frames ms f))

waits-ne-fails : {w : List ℕ} → waits w ≡ fails → ⊥
waits-ne-fails e = cc

Received-calls :
    {all : List ℕ} {r : Receiver} {ps : List Event}
    → Received all [] r
    → Frames all ps (waits [])
    → (r.out ≡ ps) × (r.is_open ≡ true)
Received-calls (still_open f p h) g = (h.called ∙ (Frames-unique f g).0, h.open_still)
Received-calls (shut f o x) g = absurd (waits-ne-fails (sym (Frames-unique f g).1))

-- For messages with ids of 16 bits and with serializations that fit in a packet: however the bytes of
-- their packets, one after the other, are cut into receives, a new session ends every receive, calls
-- `OnPacket` with each id and serialization in the order of the messages, and stays open.
pub build_deliver :
    (ms : List (ℕ × List ℕ)) (cs : List (List ℕ))
    → Fit ms
    → flatten cs ≡ built ms
    → (r : Receiver) × (deliver_all fresh cs ≡ some r) × (r.out ≡ calls ms) × (r.is_open ≡ true)
build_deliver ms cs f e =
    let (r, run, d) = deliver_all-fresh cs in
    let (out, open_still) =
      Received-calls d
        (subst (λ bs. Frames bs (calls ms) (waits [])) (sym e) (built-Frames ms f)) in
    (r, run, out, open_still)
