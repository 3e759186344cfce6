-- ===== src/Core/Session/Life.antt =====
-- The lifetime of a session: the count of its pending operations, and the one release that follows.
pub mod Counting
pub mod Closing
pub mod Receiving
pub mod Sending
pub mod Ticking
pub mod Release
pub mod Final
use iouring_runtime.Prelude.{ℕ, ◌+◌, ◌<◌, ◌≡◌, ◌⊎◌, Bool, true, false}
use iouring_runtime.Core.Session.State.{
  Session, App, SessionState, opened, closing, draining, closed, is_some,
}

-- the part of a session that its lifetime depends on
pub record Life : Type 0 where
  pub state : SessionState
  pub pending_io : ℕ
  pub pending_app_io : ℕ
  pub receiving : Bool
  pub sending : Bool
  pub recvs : ℕ
  pub sends : ℕ
  pub shutdowns : ℕ
  pub cancels : ℕ
  pub disconnected_calls : ℕ

abbrev pub life : Session → Life
life s = record {
  state = s.state;
  pending_io = s.pending_io;
  pending_app_io = s.pending_app_io;
  receiving = s.active_recv;
  sending = is_some s.active_send;
  recvs = s.recvs;
  sends = s.sends;
  shutdowns = s.shutdowns;
  cancels = s.cancels;
  disconnected_calls = s.disconnected_calls;
}

abbrev pub flag : Bool → ℕ
flag true = 1
flag false = 0

abbrev pub is_closed : SessionState → Bool
is_closed closed = true
is_closed _ = false

-- `k` is 1 while a handler runs whose operation has left the kernel and is still counted.
pub record Counts (k : ℕ) (l : Life) : Type 0 where
  -- `pending_io_` counts the operations that the kernel has in flight.
  pub counted : l.pending_io ≡ l.recvs + l.sends + l.shutdowns + l.cancels + k
  pub recv_op : flag l.receiving ≡ l.recvs
  pub send_op : flag l.sending ≡ l.sends
  -- `OnDisconnected` is called once, when the session is closed.
  pub once : l.disconnected_calls ≡ flag (is_closed l.state)
  pub settled : (l.state ≡ closed) → l.pending_io ≡ 0

-- The counts, and the release: a session that is closing waits for something, and one that is closed
-- has left the manager.
pub record Ok (k : ℕ) (l : Life) (managed : Bool) : Type 0 where
  pub counts : Counts k l
  pub waits : (l.state ≡ opened) ⊎ (l.state ≡ closed) ⊎ (0 < l.pending_io + l.pending_app_io)
  pub unmanaged : (l.state ≡ closed) → managed ≡ false

abbrev pub Inv : ℕ → Session → Type 0
Inv k s = Ok k (life s) s.managed

abbrev pub Counted : ℕ → Session → Type 0
Counted k s = Counts k (life s)

-- What the runtime relies on of the application: its callbacks act on the session through the
-- session's methods, all of which keep the invariant, and `OnDisconnected` does not reopen it.
pub record Behaves (app : App) : Type 0 where
  pub on_recv : (k : ℕ) (b : _) (s : Session) → Inv k s → Inv k (app.on_recv b s)
  pub on_connected : (k : ℕ) (s : Session) → Inv k s → Inv k (app.on_connected s)
  pub on_disconnected :
      (s : Session)
      → Counted 0 s
      → s.state ≡ closed
      → Counted 0 (app.on_disconnected s) × ((app.on_disconnected s).state ≡ closed)
  pub on_timeout_tick : (k now : ℕ) (s : Session) → Inv k s → Inv k (app.on_timeout_tick now s).1
  pub on_socket_drained : (k : ℕ) (s : Session) → Inv k s → Inv k (app.on_socket_drained s)
  pub on_backpressure : (k : ℕ) (b : Bool) (s : Session) → Inv k s → Inv k (app.on_backpressure b s)
