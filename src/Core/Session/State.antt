-- ===== src/Core/Session/State.antt =====
-- The session's fields, and the small operations on them.
use iouring_runtime.Prelude.{ℕ, ◌+◌, ◌-◌, Bool, true, false, not, List, [], ◌∷◌, Option, none, some}
use iouring_runtime.Core.SendQueue.{SendQueue, init}
use iouring_runtime.Core.SendState.{SendState}

pub data SessionState : Type 0 where
  opened closing draining closed : SessionState

-- What `SessionControl` sets before the session starts.
pub record Config : Type 0 where
  pub high_watermark : ℕ
  pub low_watermark : ℕ
  pub high_bytes : ℕ
  pub low_bytes : ℕ
  pub disconnect_delay : ℕ
  pub paused_recv_byte_limit : ℕ
  pub pause_recv_on_backpressure : Bool
  pub disconnect_on_high_watermark : Bool

-- The first fields are those of the class; a time point is a number, 0 for `time_point{}`. The fields
-- from `grants` on are the session's surroundings: the answers of the allocator and of the
-- submission queue in the order in which they are asked for, the operations that the kernel has in
-- flight, the calls of `OnDisconnected`, the provided buffers that were given back, the session
-- manager's entry, and the steady clock.
pub record Session : Type 0 where
  pub config : Config
  pub state : SessionState
  pub pending_io : ℕ
  pub pending_app_io : ℕ
  pub active_recv : Bool
  pub active_send : Option SendState
  pub send_queue : SendQueue
  pub recv_paused : Bool
  pub backpressure_active : Bool
  pub disconnect_after_flush : Bool
  pub paused_recv_queue : List (List ℕ)
  pub paused_recv_bytes : ℕ
  pub last_activity : ℕ
  pub last_backpressure_high : ℕ
  pub next_timeout_check : ℕ
  pub inactivity_timeout : ℕ
  pub timeout_check_interval : ℕ
  pub grants : List Bool
  pub recvs : ℕ
  pub sends : ℕ
  pub shutdowns : ℕ
  pub cancels : ℕ
  pub disconnected_calls : ℕ
  pub returned_buffers : ℕ
  pub managed : Bool
  pub clock : ℕ

-- The virtual methods: what the application does to the session, through the methods that it may
-- call, when it is called back.
pub record App : Type 0 where
  pub on_recv : List ℕ → Session → Session
  pub on_connected : Session → Session
  pub on_disconnected : Session → Session
  pub has_pending_app_work : Session → Bool
  pub on_timeout_tick : ℕ → Session → Bool × Session
  pub on_socket_drained : Session → Session
  pub on_backpressure : Bool → Session → Session

abbrev pub is_open : SessionState → Bool
is_open opened = true
is_open _ = false

abbrev pub can_use : Session → Bool
can_use s = is_open s.state

abbrev pub closing_started : Session → Bool
closing_started s = not (is_open s.state)

-- `compare_exchange_strong` from `kOpen` to `kClosing`, on the owner's thread
abbrev pub begin_disconnect : Session → Session
begin_disconnect s = record s { state = closing }

abbrev pub drained_state : SessionState → SessionState
drained_state closing = draining
drained_state other = other

abbrev pub mark_draining : Session → Session
mark_draining s = record s { state = drained_state s.state }

-- whether `TryMarkClosedOnOwner` finds a state that it may close
abbrev pub may_close : SessionState → Bool
may_close opened = false
may_close closed = false
may_close _ = true

abbrev pub begin_pending_io : Session → Session
begin_pending_io s = record s { pending_io = s.pending_io + 1 }

-- stops at 0, as the code's test does
abbrev pub complete_pending_io : Session → Session
complete_pending_io s = record s { pending_io = s.pending_io - 1 }

-- The next answer of the allocator or the submission queue; with none left it is a refusal.
abbrev next_grant : List Bool → Bool
next_grant [] = false
next_grant (g ∷ gs) = g

abbrev later_grants : List Bool → List Bool
later_grants [] = []
later_grants (g ∷ gs) = gs

abbrev pub granted : Session → Bool
granted s = next_grant s.grants

abbrev pub asked : Session → Session
asked s = record s { grants = later_grants s.grants }

abbrev pub is_some {ℓ} : {A : Type ℓ} → Option A → Bool
is_some none = false
is_some (some a) = true

abbrev pub touch_activity : Session → Session
touch_activity s = record s { last_activity = s.clock }

-- a session as its constructor leaves it, with its configuration, and with the answers and the clock
-- of its surroundings
abbrev pub created : Config → ℕ → List Bool → ℕ → Session
created config max_pending grants clock = record {
  config = config;
  state = opened;
  pending_io = 0;
  pending_app_io = 0;
  active_recv = false;
  active_send = none;
  send_queue = init max_pending;
  recv_paused = false;
  backpressure_active = false;
  disconnect_after_flush = false;
  paused_recv_queue = [];
  paused_recv_bytes = 0;
  last_activity = 0;
  last_backpressure_high = 0;
  next_timeout_check = 0;
  inactivity_timeout = 0;
  timeout_check_interval = 0;
  grants = grants;
  recvs = 0;
  sends = 0;
  shutdowns = 0;
  cancels = 0;
  disconnected_calls = 0;
  returned_buffers = 0;
  managed = false;
  clock = clock;
}
