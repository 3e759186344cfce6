-- ===== src/Core/Session/Close.antt =====
-- The end of a session: shutdown, cancel, and the release once nothing is in flight.
use iouring_runtime.Prelude.{◌+◌, ◌-◌, Bool, true, false, not, ◌||◌, if◌then◌else◌, ◌==◌}
use iouring_runtime.Core.SendQueue.{snapshot}
use iouring_runtime.Core.Session.State.{
  Session, App, closed, can_use, closing_started, begin_disconnect, mark_draining, may_close,
  begin_pending_io, complete_pending_io, granted, asked, is_some,
}

unfoldable pub begin_app_io : Session → Session
begin_app_io s = record s { pending_app_io = s.pending_app_io + 1 }

module _ (app : App) where
  -- the release itself: the state first, then `OnDisconnected`, then the manager's entry
  unfoldable pub released : Session → Session
  released s =
      let s' =
        app.on_disconnected
          (record s { state = closed; disconnected_calls = s.disconnected_calls + 1 }) in
      record s' { managed = false }

  unfoldable pub try_release : Session → Session
  try_release s =
      if not (closing_started s) || not (s.pending_io == 0) || not (s.pending_app_io == 0)
      then s
      else if may_close s.state
      then released s
      else s

  -- the cancel of the multishot receive, which may be refused
  unfoldable pub cancel_recv : Session → Session
  cancel_recv s =
      let begun = begin_pending_io (asked s) in
      if not s.active_recv
      then s
      else if not (granted s)
      then asked s
      else if granted begun
      then record (asked begun) { cancels = s.cancels + 1 }
      else complete_pending_io (asked begun)

  unfoldable pub shut_down : Session → Session
  unfolding cancel_recv
  shut_down s = try_release (mark_draining (cancel_recv (record s { shutdowns = s.shutdowns + 1 })))

  unfoldable pub disconnect_on_owner : Session → Session
  disconnect_on_owner s =
      let closing = begin_disconnect s in
      let begun = begin_pending_io (asked closing) in
      if not (can_use s)
      then s
      else if not (granted closing)
      then try_release (asked closing)
      else if not (granted begun)
      then try_release (complete_pending_io (asked begun))
      else shut_down (asked begun)

  -- what `TryDisconnectAfterFlush` waits for
  abbrev pub work_left : Session → Bool
  work_left s =
      is_some s.active_send
      || not ((snapshot s.send_queue).current_depth == 0)
      || app.has_pending_app_work s

  unfoldable pub try_disconnect_after_flush : Session → Session
  try_disconnect_after_flush s =
      if not s.disconnect_after_flush || not (can_use s)
      then s
      else if work_left s
      then s
      else disconnect_on_owner s

  unfoldable pub disconnect_after_flush : Session → Session
  disconnect_after_flush s =
      if can_use s
      then try_disconnect_after_flush (record s { disconnect_after_flush = true })
      else s

  -- `OnDisconnect` and `OnCancel`: the completion of the shutdown or of the cancel
  unfoldable pub on_disconnect : Session → Session
  on_disconnect s = try_release (complete_pending_io s)

  unfoldable pub on_cancel : Session → Session
  on_cancel s = try_release (complete_pending_io s)

  unfoldable pub end_app_io : Session → Session
  end_app_io s =
      try_release (try_disconnect_after_flush (record s { pending_app_io = s.pending_app_io - 1 }))
