-- ===== src/Game/PacketSession.antt =====
-- src/modules/game/PacketSession.cpp: a byte stream cut into packets. A packet is a little-endian
-- 16-bit size, which counts the header, a 16-bit id, and the payload. `OnPacket` is the
-- application's: its calls are recorded in order, and so are the calls of `Disconnect`.
-- A cursor into `data` is the part of it from `offset` on.
pub mod Frames
pub mod TopUp
pub mod Buffered
pub mod Receive
pub mod Chunks
use iouring_runtime.Prelude.{
  ℕ, zero, suc, ◌+◌, ◌-◌, ◌*◌, ◌%◌, min, Bool, true, false, ◌&&◌, not, List, [], ◌∷◌, ◌++◌, Option,
  none, some, length, take, drop, get_or, ltb, leb, if◌then◌else◌, sub32, value, unexpected,
}
use iouring_runtime.Core.RecvBuffer
use iouring_runtime.Core.RecvBuffer.{RecvBuffer}

pub data Event : Type 0 where
  packet : ℕ → List ℕ → Event
  disconnect : Event

-- the session's own state, what it has called so far, and whether the session is still open
pub record Receiver : Type 0 where
  pub recv_buffer : RecvBuffer
  pub out : List Event
  pub is_open : Bool

abbrev pub header_size : ℕ
header_size = 4

abbrev pub max_packet_size : ℕ
max_packet_size = 65535

-- two bytes as a little-endian number, on a little-endian host
unfoldable pub read_le16 : List ℕ → ℕ
read_le16 bytes = get_or bytes 0 0 % 256 + 256 * (get_or bytes 1 0 % 256)

abbrev emit : Receiver → Event → Receiver
emit r e = record r { out = r.out ++ (e ∷ []) }

-- `Disconnect` closes the session for all later receives.
abbrev close : Receiver → Receiver
close r = record r { out = r.out ++ (disconnect ∷ []); is_open = false }

pub append_to_recv_buffer : Receiver → List ℕ → Bool × Receiver
append_to_recv_buffer r [] = (true, r)
append_to_recv_buffer r (x ∷ xs) =
    let (result, b) = RecvBuffer.append r.recv_buffer (x ∷ xs) in
    elim result [
      | value _ ↦ (true, record r { recv_buffer = b })
      | unexpected _ ↦ (false, close (record r { recv_buffer = b }))
    ]

pub validate_packet_size : Receiver → ℕ → Bool × Receiver
validate_packet_size r size =
    if leb header_size size && leb size max_packet_size then (true, r) else (false, close r)

-- the call of `OnPacket` for a whole packet at the front of `bytes`
abbrev on_packet : Receiver → ℕ → List ℕ → Receiver
on_packet r size bytes =
    emit r (packet (read_le16 (drop 2 bytes)) (take (size - header_size) (drop header_size bytes)))

-- What `CompleteBufferedPacket` returns, with the cursor that it leaves in `offset`.
pub record Completed : Type 0 where
  pub done : Bool
  pub state : Receiver
  pub rest : List ℕ

abbrev readable : Receiver → ℕ
readable r = RecvBuffer.readable_size r.recv_buffer

abbrev region : Receiver → List ℕ
region r = RecvBuffer.read_region r.recv_buffer

-- copies what is missing up to `size` bytes, as far as the data goes
pub top_up : Receiver → ℕ → List ℕ → Completed
top_up r size rest =
    let copied = min (sub32 size (readable r)) (length rest) in
    let (ok, r') = append_to_recv_buffer r (take copied rest) in
    record { done = ok; state = r'; rest = if ok then drop copied rest else rest }

finish_packet : ℕ → Receiver → List ℕ → Completed
finish_packet size r rest =
    if ltb (readable r) size
    then record { done = true; state = r; rest = rest }
    else let r' = on_packet r size (region r) in
      record {
        done = true;
        state = record r' { recv_buffer = RecvBuffer.on_read r'.recv_buffer size };
        rest = rest;
      }

-- the part of `CompleteBufferedPacket` that has a whole header, which states `size`
pub complete_sized : ℕ → Receiver → List ℕ → Completed
complete_sized size r rest =
    let (valid, r') = validate_packet_size r size in
    let c = top_up r' size rest in
    if valid
    then if c.done then finish_packet size c.state c.rest else c
    else record { done = false; state = r'; rest = rest }

abbrev complete_body : Receiver → List ℕ → Completed
complete_body r rest = complete_sized (read_le16 (region r)) r rest

pub complete_buffered_packet : Receiver → List ℕ → Completed
complete_buffered_packet r rest =
    let c = top_up r header_size rest in
    if ltb (readable r) header_size
    then if c.done
      then if ltb (readable c.state) header_size then c else complete_body c.state c.rest
      else c
    else complete_body r rest

-- One round of the loop of `OnRecv`: it goes on with a cursor, breaks, or returns.
pub data Step : Type 0 where
  next : Receiver → List ℕ → Step
  leave quit : Receiver → Step

keep_rest : Receiver → List ℕ → Step
keep_rest r rest = let (ok, r') = append_to_recv_buffer r rest in if ok then leave r' else quit r'

-- the fast path: a packet read where it was received
pub recv_in_place : Receiver → List ℕ → Step
unfolding keep_rest
recv_in_place r rest =
    let size = read_le16 rest in
    let (valid, r') = validate_packet_size r size in
    if ltb (length rest) header_size
    then keep_rest r rest
    else if valid
    then if ltb (length rest) size
      then keep_rest r' rest
      else next (on_packet r' size rest) (drop size rest)
    else quit r'

abbrev buffered : Receiver → Bool
buffered r = not (RecvBuffer.is_empty r.recv_buffer)

pub recv_buffered : Receiver → List ℕ → Step
recv_buffered r rest =
    let c = complete_buffered_packet r rest in
    if c.done then if buffered c.state then leave c.state else next c.state c.rest else quit c.state

pub recv_step : Receiver → List ℕ → Step
recv_step r rest = if buffered r then recv_buffered r rest else recv_in_place r rest

-- `while (offset < data.size())`, on fuel; `none` is a loop that did not end.
pub recv_loop : ℕ → Receiver → List ℕ → Option Step
recv_loop fuel r [] = some (leave r)
recv_loop zero r (x ∷ xs) = none
recv_loop (suc fuel) r (x ∷ xs) = elim (recv_step r (x ∷ xs)) [
  | next r' rest ↦ recv_loop fuel r' rest
  | leave r' ↦ some (leave r')
  | quit r' ↦ some (quit r')
]

after_loop : Step → Receiver
after_loop (next r rest) = r
after_loop (leave r) =
    if RecvBuffer.should_compact r.recv_buffer
    then record r { recv_buffer = RecvBuffer.compact r.recv_buffer }
    else r
after_loop (quit r) = r

-- `OnRecv`: a round takes at least one byte, so the fuel is the number of bytes.
pub on_recv : Receiver → List ℕ → Option Receiver
unfolding after_loop
on_recv r bytes = elim (recv_loop (length bytes) r bytes) [
  | none ↦ none
  | some end ↦ some (after_loop end)
]

-- A receive that Session::OnRecv hands on: only an open session is given the bytes.
pub deliver : Receiver → List ℕ → Option Receiver
deliver r bytes = if r.is_open then on_recv r bytes else some r

-- the bytes of several receives in order
pub deliver_all : Receiver → List (List ℕ) → Option Receiver
deliver_all r [] = some r
deliver_all r (c ∷ cs) = elim (deliver r c) [ none ↦ none | some r' ↦ deliver_all r' cs ]

-- a session as it is constructed
pub fresh : Receiver
fresh = record { recv_buffer = RecvBuffer.init RecvBuffer.default_size; out = []; is_open = true }
