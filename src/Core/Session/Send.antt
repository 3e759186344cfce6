-- ===== src/Core/Session/Send.antt =====
-- src/runtime/io/SessionSend.cpp: the send cycle and the watermarks of the send queue.
use mathlib.Core.List.{map}
use iouring_runtime.Prelude.{
  ℕ, ◌+◌, Bool, true, false, not, ◌&&◌, ◌||◌, List, [], ◌∷◌, none, some, length, ltb, leb,
  if◌then◌else◌, ◌==◌, Expected, value, unexpected, IoError, disconnected, send_failed,
}
use iouring_runtime.Core.SendQueue.{
  SendBufferRef, Stats, push, drain_into, mark_sent, snapshot, is_nil,
}
use iouring_runtime.Core.SendState.{SendState, Completion, bytes, failed, advance_send_state}
use iouring_runtime.Core.Session.State.{
  Session, App, can_use, begin_pending_io, complete_pending_io, granted, asked, is_some,
}
use iouring_runtime.Core.Session.Close.{
  disconnect_on_owner, try_release, try_disconnect_after_flush,
}
use iouring_runtime.Core.Session.Recv.{drain_paused_recv, register_recv}

abbrev pub max_send_iovecs : ℕ
max_send_iovecs = 1024

unfoldable pub high_watermark_reached : Session → Stats → Bool
high_watermark_reached s stats =
    not (s.config.high_watermark == 0) && leb s.config.high_watermark stats.current_depth
    || not (s.config.high_bytes == 0) && leb s.config.high_bytes stats.pending_bytes

unfoldable pub low_watermark_reached : Session → Stats → Bool
low_watermark_reached s stats =
    ((s.config.high_watermark == 0) || leb stats.current_depth s.config.low_watermark)
    && ((s.config.high_bytes == 0) || leb stats.pending_bytes s.config.low_bytes)

-- `bufs[i]->Data()`, which has no case for a null buffer: here that has no bytes
abbrev data_of : SendBufferRef → List ℕ
data_of none = []
data_of (some b) = b

abbrev pub send_state : List SendBufferRef → SendState
send_state bufs = record { iovs = map data_of bufs; bufs = bufs }

-- all bytes of an operation's vectors
unfoldable pub requested : List (List ℕ) → ℕ
requested [] = 0
requested (v ∷ vs) = length v + requested vs

module _ (app : App) where
  -- the queue rises to a high watermark
  unfoldable pub raise_backpressure : Session → Session
  raise_backpressure s =
      let s1 =
        app.on_backpressure true
          (record s { backpressure_active = true; last_backpressure_high = s.clock }) in
      let s2 =
        if s1.config.pause_recv_on_backpressure then record s1 { recv_paused = true } else s1 in
      if s2.config.disconnect_on_high_watermark && (s2.config.disconnect_delay == 0)
      then disconnect_on_owner app s2
      else s2

  -- the queue falls to the low watermarks
  unfoldable pub clear_backpressure : Session → Session
  clear_backpressure s =
      let s1 =
        app.on_backpressure false
          (record s { backpressure_active = false; last_backpressure_high = 0 }) in
      if s1.config.pause_recv_on_backpressure
      then register_recv app (drain_paused_recv app (record s1 { recv_paused = false }))
      else s1

  unfoldable pub update_backpressure : Session → Session
  unfolding raise_backpressure clear_backpressure
  update_backpressure s =
      let stats = snapshot s.send_queue in
      if s.backpressure_active
      then if low_watermark_reached s stats then clear_backpressure s else s
      else if high_watermark_reached s stats
      then raise_backpressure s
      else s

  unfoldable pub send_in_flight_batch : Session → List SendBufferRef → Session
  send_in_flight_batch s bufs =
      let begun = begin_pending_io s in
      if not (can_use s) || is_nil bufs
      then s
      else if not (granted begun)
      then disconnect_on_owner app (complete_pending_io (asked begun))
      else record (asked begun) { active_send = some (send_state bufs); sends = s.sends + 1 }

  unfoldable pub send_batch : Session → List SendBufferRef → Session
  unfolding send_in_flight_batch
  send_batch s bufs =
      if not (can_use s) || is_nil bufs || is_some s.active_send
      then s
      else if granted s
      then send_in_flight_batch (asked s) bufs
      else disconnect_on_owner app (asked s)

  -- what both places do that drain the queue and send what they drained
  unfoldable pub send_pending : Session → Session
  send_pending s =
      let (count, bufs, q) = drain_into s.send_queue [] max_send_iovecs in
      if count == 0 then s else send_batch (update_backpressure (record s { send_queue = q })) bufs

  unfoldable pub register_send : Session → Session
  register_send s = if not (can_use s) || is_some s.active_send then s else send_pending s

  unfoldable pub send_on_owner : Session → SendBufferRef → Expected (Unit {0}) IoError × Session
  send_on_owner s buf =
      let (result, q) = push s.send_queue buf in
      let pushed = record s { send_queue = q } in
      let s' = update_backpressure pushed in
      if not (can_use s)
      then (unexpected disconnected, s)
      else if result.overflowed
      then (unexpected send_failed, disconnect_on_owner app pushed)
      else (value tt, if result.needs_register then register_send s' else s')

  -- a completion that counts fewer bytes than were asked for: the rest is sent again
  unfoldable pub resume_send : Session → SendState → ℕ → Session
  resume_send s op sent =
      if granted s
      then record (asked s) { active_send = some (advance_send_state op sent); sends = s.sends + 1 }
      else disconnect_on_owner app (complete_pending_io (asked s))

  -- the whole operation was sent
  unfoldable pub finish_send : Session → Session
  finish_send s =
      let s1 = complete_pending_io (record s { send_queue = mark_sent s.send_queue }) in
      let s2 = app.on_socket_drained (update_backpressure s1) in
      let s3 = try_disconnect_after_flush app s2 in
      let (count, bufs, q) = drain_into s3.send_queue [] max_send_iovecs in
      if is_some s3.active_send
      then s3
      else if count == 0
      then try_disconnect_after_flush app (record s3 { send_queue = q })
      else send_batch (update_backpressure (record s3 { send_queue = q })) bufs

  unfoldable pub send_result : Session → SendState → Completion → Session
  unfolding resume_send finish_send
  send_result s op (failed e) = disconnect_on_owner app (complete_pending_io s)
  send_result s op (bytes sent) =
      if ltb sent (requested op.iovs) then resume_send s op sent else finish_send s

  -- `OnSend` for the operation `op`, which is the active one
  unfoldable pub on_send : Session → SendState → Completion → Session
  unfolding send_result
  on_send s op result =
      let s' = record s { active_send = none } in
      if can_use s' then send_result s' op result else try_release app (complete_pending_io s')
