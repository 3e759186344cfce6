-- ===== src/Core/Session/Life/Release.antt =====
-- Whatever happens to a session, it is released once, and only after its last operation.
use iouring_runtime.Prelude.{
  ℕ, ◌+◌, ◌-◌, ◌<◌, ◌≤◌, ◌≡◌, refl, sym, ap, ◌∙◌, inl, inr, true, false, arith, List, Bool, none,
}
use iouring_runtime.Core.Session.State.{
  Session, SessionState, App, Config, opened, closed, created, is_open, is_some,
}
use iouring_runtime.Core.Session.Events.{
  Step, starts, receives, receives_last, sends, shuts, cancels, ticks, calls_send, calls_disconnect,
  calls_disconnect_after_flush, calls_begin_app_io, calls_end_app_io, calls_pause, calls_resume,
  Reach, here, next,
}
use iouring_runtime.Core.Session.Life.{flag, is_closed, Inv, Behaves}
use iouring_runtime.Core.Session.Life.Closing.{
  disconnect_on_owner-Inv, disconnect_after_flush-Inv, on_disconnect-Inv, on_cancel-Inv,
  end_app_io-Inv,
}
use iouring_runtime.Core.Session.Life.Counting.{begin_app_io-Inv}
use iouring_runtime.Core.Session.Life.Receiving.{
  pause_recv-Inv, resume_recv-Inv, on_recv-Inv, start-Inv,
}
use iouring_runtime.Core.Session.Life.Sending.{send_on_owner-Inv, on_send-Inv}
use iouring_runtime.Core.Session.Life.Ticking.{tick-Inv}

flag_bound : (b : Bool) → flag b ≤ 1
flag_bound true = omega arith
flag_bound false = omega arith

true-ne-false : true ≡ false → ⊥
true-ne-false e = cc

-- The operation of the only receive in flight has left the kernel.
recv_left :
    (s : Session)
    → Inv 0 s
    → 0 < s.recvs
    → Inv 1 (record s { recvs = s.recvs - 1; active_recv = false })
recv_left s v some_left = record {
  counts = record {
    counted = omega (arith, v.counts.counted);
    recv_op = omega (arith, v.counts.recv_op, flag_bound s.active_recv);
    send_op = v.counts.send_op;
    once = v.counts.once;
    settled = v.counts.settled;
  };
  waits = v.waits;
  unmanaged = v.unmanaged;
}

abbrev send_left_of : Session → Session
send_left_of s = record s { sends = s.sends - 1; active_send = none }

send_left : (s : Session) → Inv 0 s → 0 < s.sends → Inv 1 (send_left_of s)
send_left s v some_left = record {
  counts = record {
    counted = omega (arith, v.counts.counted);
    recv_op = v.counts.recv_op;
    send_op = omega (arith, v.counts.send_op, flag_bound (is_some s.active_send));
    once = v.counts.once;
    settled = v.counts.settled;
  };
  waits = v.waits;
  unmanaged = v.unmanaged;
}

module _ (app : App) (fine : Behaves app) where
  Step-Inv : {s t : Session} → Step app s t → Inv 0 s → Inv 0 t
  Step-Inv (starts s o) v = start-Inv app fine 0 s v (ap is_open o)
  Step-Inv (receives s c busy more) v =
      on_recv-Inv app fine s c (λ _. v) (λ last. absurd (true-ne-false (sym more ∙ last)))
  Step-Inv (receives_last s c busy last) v =
      on_recv-Inv app fine (record s { recvs = s.recvs - 1 }) c
        (λ more. absurd (true-ne-false (sym more ∙ last))) (λ _. recv_left s v busy)
  Step-Inv (sends s op result busy _) v =
      on_send-Inv app fine (record s { sends = s.sends - 1 }) op result (send_left s v busy)
  Step-Inv (shuts s busy) v =
      on_disconnect-Inv app fine (record s { shutdowns = s.shutdowns - 1 })
        (record {
          counted = omega (arith, v.counts.counted);
          recv_op = v.counts.recv_op;
          send_op = v.counts.send_op;
          once = v.counts.once;
          settled = v.counts.settled;
        })
        v.unmanaged
  Step-Inv (cancels s busy) v =
      on_cancel-Inv app fine (record s { cancels = s.cancels - 1 })
        (record {
          counted = omega (arith, v.counts.counted);
          recv_op = v.counts.recv_op;
          send_op = v.counts.send_op;
          once = v.counts.once;
          settled = v.counts.settled;
        })
        v.unmanaged
  Step-Inv (ticks s now) v = tick-Inv app fine 0 s now v
  Step-Inv (calls_send s buf) v = send_on_owner-Inv app fine 0 s buf v
  Step-Inv (calls_disconnect s) v = disconnect_on_owner-Inv app fine 0 s v
  Step-Inv (calls_disconnect_after_flush s) v = disconnect_after_flush-Inv app fine 0 s v
  Step-Inv (calls_begin_app_io s) v = begin_app_io-Inv 0 s v
  Step-Inv (calls_end_app_io s) v = end_app_io-Inv app fine 0 s v
  Step-Inv (calls_pause s) v = pause_recv-Inv app fine 0 s v
  Step-Inv (calls_resume s) v = resume_recv-Inv app fine 0 s v

  pub Reach-Inv : {s t : Session} → Inv 0 s → Reach app s t → Inv 0 t
  Reach-Inv v here = v
  Reach-Inv v (next r st) = Step-Inv st (Reach-Inv v r)

pub created-Inv :
    (config : Config) (max_pending : ℕ) (grants : List Bool) (clock : ℕ)
    → Inv 0 (created config max_pending grants clock)
created-Inv config max_pending grants clock = record {
  counts = record {
    counted = refl;
    recv_op = refl;
    send_op = refl;
    once = refl;
    settled = λ e. absurd (opened_apart e);
  };
  waits = inl refl;
  unmanaged = λ e. refl;
}
  where
    opened_apart : opened ≡ closed → ⊥
    opened_apart e = cc

closed_flag : (st : SessionState) → st ≡ closed → flag (is_closed st) ≡ 1
closed_flag st e = ap (λ x. flag (is_closed x)) e

module _ (app : App) (fine : Behaves app) (config : Config) (max_pending : ℕ) (grants : List Bool)
    (clock : ℕ) (t : Session) (run : Reach app (created config max_pending grants clock) t) where
  reached : Inv 0 t
  reached = Reach-Inv app fine (created-Inv config max_pending grants clock) run

  -- Of an application whose callbacks keep the invariant, and of a session that any steps lead to from a
  -- new one: `pending_io_` is the number of operations that the kernel has in flight, of which at most
  -- one is a receive, the active one, and at most one a send, the active one; and `OnDisconnected` has
  -- been called once if the session is closed and never if it is not.
  pub pending_io_counts :
      (t.pending_io ≡ t.recvs + t.sends + t.shutdowns + t.cancels)
      × (t.recvs ≡ flag t.active_recv)
      × (t.sends ≡ flag (is_some t.active_send))
      × (t.disconnected_calls ≡ flag (is_closed t.state))
  pending_io_counts = (
    omega (arith, reached.counts.counted),
    sym reached.counts.recv_op,
    sym reached.counts.send_op,
    reached.counts.once,
  )

  -- Under the same conditions, a session that is closed has nothing in flight, so that no completion
  -- names it; it has left the manager, and `OnDisconnected` was called once.
  pub released_after_last_operation :
      t.state ≡ closed
      → (t.recvs ≡ 0)
        × (t.sends ≡ 0)
        × (t.shutdowns ≡ 0)
        × (t.cancels ≡ 0)
        × (t.managed ≡ false)
        × (t.disconnected_calls ≡ 1)
  released_after_last_operation e =
      let none_pending : t.pending_io ≡ 0 = reached.counts.settled e in
      let count : t.pending_io ≡ t.recvs + t.sends + t.shutdowns + t.cancels + 0 =
        reached.counts.counted in
      (
        omega arith,
        omega arith,
        omega arith,
        omega arith,
        reached.unmanaged e,
        reached.counts.once ∙ closed_flag t.state e,
      )

  -- Under the same conditions, a session that is not open, has nothing in flight and waits for no work
  -- of the application is closed, has left the manager, and `OnDisconnected` was called once.
  pub released_with_last_operation :
      ¬ (t.state ≡ opened)
      → t.recvs + t.sends + t.shutdowns + t.cancels ≡ 0
      → t.pending_app_io ≡ 0
      → (t.state ≡ closed) × (t.managed ≡ false) × (t.disconnected_calls ≡ 1)
  released_with_last_operation closing none_in_flight no_work =
      (over, reached.unmanaged over, reached.counts.once ∙ closed_flag t.state over)
    where
      over : t.state ≡ closed
      over = elim reached.waits [
        | inl o ↦ absurd (closing o)
        | inr (inl c) ↦ c
        | inr (inr w) ↦ absurd (omega (arith, reached.counts.counted))
      ]
