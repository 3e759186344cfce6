-- ===== src/Core/SendState.antt =====
-- include/iouring_runtime/core/SessionDetail.h: what a partial send leaves of an operation, and how a
-- completion's result is read. An `iovec` is the bytes that it points at; `iov_base + n` with
-- `iov_len - n` drops the first `n` of them.
pub mod Bytes
use iouring_runtime.Prelude.{
  ℕ, zero, suc, ◌+◌, ◌-◌, Bool, true, false, ◌&&◌, ◌||◌, not, List, [], ◌∷◌, length, drop, ltb, leb,
  ◌==◌, if◌then◌else◌,
}
use iouring_runtime.Core.SendQueue.{SendBufferRef}

pub record SendState : Type 0 where
  pub iovs : List (List ℕ)
  pub bufs : List SendBufferRef

-- The loop: how many whole vectors were sent, and the bytes sent past them.
unfoldable pub consume : List (List ℕ) → ℕ → ℕ × ℕ
consume [] advanced = (0, advanced)
consume (v ∷ vs) advanced =
    let (consumed, rest) = consume vs (advanced - length v) in
    if leb (length v) advanced then (suc consumed, rest) else (0, advanced)

abbrev pub erase_front : ℕ → SendState → SendState
erase_front consumed s =
    if ltb 0 consumed
    then record { iovs = drop consumed s.iovs; bufs = drop consumed s.bufs }
    else s

abbrev pub trim : ℕ → List (List ℕ) → List (List ℕ)
trim advanced [] = []
trim advanced (v ∷ vs) = drop advanced v ∷ vs

unfoldable pub advance_send_state : SendState → ℕ → SendState
advance_send_state s advanced =
    let (consumed, rest) = consume s.iovs advanced in
    let s' = erase_front consumed s in
    if ltb 0 rest then record s' { iovs = trim rest s'.iovs } else s'

-- A completion's `std::int32_t` result: a count, or the negated error number.
pub data Completion : Type 0 where
  bytes : ℕ → Completion
  failed : ℕ → Completion

-- the error numbers of Linux
abbrev pub epipe : ℕ
epipe = 32

abbrev pub enobufs : ℕ
enobufs = 105

abbrev pub econnreset : ℕ
econnreset = 104

abbrev pub enotconn : ℕ
enotconn = 107

abbrev pub eshutdown : ℕ
eshutdown = 108

pub is_expected_disconnect_result : Completion → Bool
is_expected_disconnect_result (bytes n) = n == 0
is_expected_disconnect_result (failed e) =
    (e == econnreset) || (e == epipe) || (e == enotconn) || (e == eshutdown)

pub data Reason : Type 0 where
  peer_close ok connection_reset broken_pipe not_connected socket_shutdown : Reason
  transport_error : Reason

pub disconnect_reason_for_result : Completion → Reason
disconnect_reason_for_result (bytes n) = if n == 0 then peer_close else ok
disconnect_reason_for_result (failed e) =
    if e == econnreset
    then connection_reset
    else if e == epipe
    then broken_pipe
    else if e == enotconn
    then not_connected
    else if e == eshutdown
    then socket_shutdown
    else transport_error
