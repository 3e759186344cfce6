-- ===== src/Core/Session/Recv.antt =====
-- Receiving: the multishot receive, the receives that wait while the session is paused, and the
-- handler of a receive's completion.
use iouring_runtime.Prelude.{
  ℕ, zero, suc, ◌+◌, Bool, true, false, not, ◌&&◌, ◌||◌, List, [], ◌∷◌, ◌++◌, length, ltb,
  if◌then◌else◌, ◌==◌, add64, sub64,
}
use iouring_runtime.Core.SendState.{Completion, bytes, failed, enobufs}
use iouring_runtime.Core.Session.State.{
  Session, App, can_use, begin_pending_io, complete_pending_io, granted, asked, touch_activity,
}
use iouring_runtime.Core.Session.Close.{disconnect_on_owner, try_release}

-- A completion of a receive: `F_MORE`, `F_BUFFER`, the result, and the bytes of the view when the
-- result counts bytes.
pub record RecvCqe : Type 0 where
  pub more : Bool
  pub has_buffer : Bool
  pub result : Completion
  pub view : List ℕ

abbrev pub is_positive : Completion → Bool
is_positive (bytes n) = ltb 0 n
is_positive (failed e) = false

-- whether the bytes were kept, and the session
unfoldable pub queue_paused_recv : Session → List ℕ → Bool × Session
queue_paused_recv s [] = (true, s)
queue_paused_recv s (x ∷ xs) =
    let next_bytes = add64 s.paused_recv_bytes (length (x ∷ xs)) in
    let limit = s.config.paused_recv_byte_limit in
    if not (limit == 0) && ltb limit next_bytes then (false, s) else (
      true,
      record s {
        paused_recv_bytes = next_bytes;
        paused_recv_queue = s.paused_recv_queue ++ ((x ∷ xs) ∷ []);
      },
    )

module _ (app : App) where
  unfoldable pub register_recv : Session → Session
  register_recv s =
      let begun = begin_pending_io (asked s) in
      if not (can_use s) || s.recv_paused || s.active_recv
      then s
      else if not (granted s)
      then disconnect_on_owner app (asked s)
      else if not (granted begun)
      then disconnect_on_owner app (complete_pending_io (asked begun))
      else record (asked begun) { active_recv = true; recvs = s.recvs + 1 }

  -- One round of the loop that hands on what was received during the pause.
  unfoldable pub pop_paused : Session → List ℕ → List (List ℕ) → Session
  pop_paused s chunk rest = app.on_recv chunk (record s {
    paused_recv_queue = rest;
    paused_recv_bytes = sub64 s.paused_recv_bytes (length chunk);
  })

  -- `go` is the rest of the loop.
  unfoldable pub next_round : (Session → Session) → Session → List (List ℕ) → Session
  next_round go s [] = s
  next_round go s (chunk ∷ rest) =
      if can_use s && not s.recv_paused then go (pop_paused s chunk rest) else s

  -- `while (CanUseOnOwner() && !recv_paused_ && !paused_recv_queue_.empty())`, on fuel
  unfoldable pub drain_rounds : ℕ → Session → Session
  drain_rounds zero s = s
  drain_rounds (suc fuel) s = next_round (drain_rounds fuel) s s.paused_recv_queue

  -- A round takes a chunk, so the fuel is the number of chunks.
  unfoldable pub drain_paused_recv : Session → Session
  drain_paused_recv s = drain_rounds (length s.paused_recv_queue) s

  unfoldable pub pause_recv : Session → Session
  pause_recv s = if can_use s then record s { recv_paused = true } else s

  unfoldable pub resume_recv : Session → Session
  resume_recv s =
      if can_use s then register_recv (drain_paused_recv (record s { recv_paused = false })) else s

  -- a view of received bytes, queued while the session is paused
  unfoldable pub take_view : Session → List ℕ → Session
  take_view s view =
      let s' = touch_activity s in
      let (kept, s'') = queue_paused_recv s' view in
      if s'.recv_paused
      then if kept then s'' else disconnect_on_owner app s''
      else app.on_recv view s'

  -- The bytes of a completion; a provided buffer is given back whatever the session's state.
  unfoldable pub recv_bytes : Session → RecvCqe → Session
  unfolding take_view
  recv_bytes s c =
      let s' = if is_positive c.result && can_use s then take_view s c.view else s in
      if c.has_buffer then record s' { returned_buffers = s'.returned_buffers + 1 } else s'

  -- the handling of a result on an open session
  unfoldable pub recv_result : Session → RecvCqe → Completion → Session
  recv_result s c (failed e) =
      if e == enobufs
      then if s.recv_paused then s else register_recv s
      else disconnect_on_owner app s
  recv_result s c (bytes n) =
      if n == 0
      then disconnect_on_owner app s
      else if c.more || s.recv_paused
      then s
      else register_recv s

  -- A completion without `F_MORE` is the operation's last: it is no longer active, and no longer
  -- pending once its bytes were handed on.
  unfoldable pub recv_completion : Session → RecvCqe → Session
  recv_completion s c =
      if c.more
      then recv_bytes s c
      else complete_pending_io (recv_bytes (record s { active_recv = false }) c)

  -- `OnRecv`
  unfoldable pub on_recv : Session → RecvCqe → Session
  on_recv s c =
      let s' = recv_completion s c in
      if can_use s' then recv_result s' c c.result else try_release app s'

  -- `Start`
  unfoldable pub start : Session → Session
  start s = register_recv (app.on_connected (record (touch_activity s) { managed = true }))
