-- ===== src/Core/Session/Events.antt =====
-- A session's life as steps: what the ring completes, what the timer ticks, and what the
-- application calls, in any order.
use iouring_runtime.Prelude.{ℕ, ◌-◌, ◌<◌, ◌≡◌, true, false, some}
use iouring_runtime.Core.SendQueue.{SendBufferRef}
use iouring_runtime.Core.SendState.{SendState, Completion}
use iouring_runtime.Core.Session.State.{Session, App, opened}
use iouring_runtime.Core.Session.Close.{
  disconnect_on_owner, disconnect_after_flush, on_disconnect, on_cancel, begin_app_io, end_app_io,
}
use iouring_runtime.Core.Session.Recv.{RecvCqe, pause_recv, resume_recv, on_recv, start}
use iouring_runtime.Core.Session.Send.{send_on_owner, on_send}
use iouring_runtime.Core.Session.Timers.{tick}

-- A session is started while it is open. What the ring may complete is what the kernel has in flight: a completion without `F_MORE` is the
-- operation's last. `Dispatch` calls the handler of the operation that it carries.
pub data Step (app : App) : Session → Session → Type 0 where
  starts : (s : Session) → s.state ≡ opened → Step app s (start app s)
  receives :
      (s : Session) (c : RecvCqe) → 0 < s.recvs → c.more ≡ true → Step app s (on_recv app s c)
  receives_last :
      (s : Session) (c : RecvCqe)
      → 0 < s.recvs
      → c.more ≡ false
      → Step app s (on_recv app (record s { recvs = s.recvs - 1 }) c)
  sends :
      (s : Session) (op : SendState) (result : Completion)
      → 0 < s.sends
      → s.active_send ≡ some op
      → Step app s (on_send app (record s { sends = s.sends - 1 }) op result)
  shuts :
      (s : Session)
      → 0 < s.shutdowns
      → Step app s (on_disconnect app (record s { shutdowns = s.shutdowns - 1 }))
  cancels :
      (s : Session)
      → 0 < s.cancels
      → Step app s (on_cancel app (record s { cancels = s.cancels - 1 }))
  ticks : (s : Session) (now : ℕ) → Step app s (tick app s now)
  calls_send : (s : Session) (buf : SendBufferRef) → Step app s (send_on_owner app s buf).1
  calls_disconnect : (s : Session) → Step app s (disconnect_on_owner app s)
  calls_disconnect_after_flush : (s : Session) → Step app s (disconnect_after_flush app s)
  calls_begin_app_io : (s : Session) → Step app s (begin_app_io s)
  calls_end_app_io : (s : Session) → Step app s (end_app_io app s)
  calls_pause : (s : Session) → Step app s (pause_recv app s)
  calls_resume : (s : Session) → Step app s (resume_recv app s)

-- what a session may become
pub data Reach (app : App) (s : Session) : Session → Type 0 where
  here : Reach app s s
  next : {t u : Session} → Reach app s t → Step app t u → Reach app s u
