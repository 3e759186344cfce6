-- ===== src/Core/Session/Life/Final.antt =====
-- A session that is closed stays closed: nothing that may still happen to it has an effect on it
-- beyond the count of the application's work.
use iouring_runtime.Prelude.{
  ℕ, ◌-◌, ◌<◌, ◌≡◌, refl, sym, ap, ◌∙◌, subst, true, false, not, ◌||◌, arith, if_elim, ◌==◌, List,
  Bool,
}
use iouring_runtime.Core.SendQueue.{SendBufferRef}
use iouring_runtime.Core.Session.State.{
  Session, Config, App, opened, closed, created, is_open, can_use, may_close, closing_started,
}
use iouring_runtime.Core.Session.Close.{
  try_release, disconnect_on_owner, disconnect_after_flush, try_disconnect_after_flush,
  begin_app_io, end_app_io,
}
use iouring_runtime.Core.Session.Recv.{pause_recv, resume_recv}
use iouring_runtime.Core.Session.Send.{send_on_owner}
use iouring_runtime.Core.Session.Timers.{tick}
use iouring_runtime.Core.Session.Events.{
  Step, starts, receives, receives_last, sends, shuts, cancels, ticks, calls_send, calls_disconnect,
  calls_disconnect_after_flush, calls_begin_app_io, calls_end_app_io, calls_pause, calls_resume,
  Reach, here, next,
}
use iouring_runtime.Core.Session.Life.{Inv, Counted, Behaves}
use iouring_runtime.Core.Session.Life.Release.{Reach-Inv, created-Inv}

-- What is final about a session: the state, the calls of `OnDisconnected`, and what it owns.
abbrev pub Same : Session → Session → Type 0
Same s t =
    (t.state ≡ s.state)
    × (t.disconnected_calls ≡ s.disconnected_calls)
    × (t.pending_io ≡ s.pending_io)
    × (t.managed ≡ s.managed)
    × (t.send_queue ≡ s.send_queue)

same : (s : Session) → Same s s
same s = (refl, refl, refl, refl, refl)

unusable : (s : Session) → s.state ≡ closed → can_use s ≡ false
unusable s e = ap is_open e

unclosable : (s : Session) → s.state ≡ closed → may_close s.state ≡ false
unclosable s e = ap may_close e

module _ (app : App) where
  try_release-Same : (s : Session) → s.state ≡ closed → try_release app s ≡ s
  unfolding try_release
  try_release-Same s e =
      if_elim (λ t. t ≡ s)
        (not (closing_started s) || not (s.pending_io == 0) || not (s.pending_app_io == 0)) _ _
        (λ _. refl)
        (λ _.
          if_elim (λ t. t ≡ s) (may_close s.state) _ _
            (λ may. absurd (clash (sym may ∙ unclosable s e))) (λ _. refl))
    where
      clash : true ≡ false → ⊥
      clash x = cc

  disconnect-Same : (s : Session) → s.state ≡ closed → disconnect_on_owner app s ≡ s
  unfolding disconnect_on_owner
  disconnect-Same s e = rw (unusable s e) refl

  flush-Same : (s : Session) → s.state ≡ closed → try_disconnect_after_flush app s ≡ s
  unfolding try_disconnect_after_flush
  flush-Same s e =
      let off : (not s.disconnect_after_flush || not (can_use s)) ≡ true =
        let u = unusable s e in ground arith in
      rw off refl

  disconnect_after_flush-Same : (s : Session) → s.state ≡ closed → disconnect_after_flush app s ≡ s
  unfolding disconnect_after_flush
  disconnect_after_flush-Same s e = rw (unusable s e) refl

  send-Same :
      (s : Session) (buf : SendBufferRef) → s.state ≡ closed → (send_on_owner app s buf).1 ≡ s
  unfolding send_on_owner
  send-Same s buf e = rw (unusable s e) refl

  pause-Same : (s : Session) → s.state ≡ closed → pause_recv app s ≡ s
  unfolding pause_recv
  pause-Same s e = rw (unusable s e) refl

  resume-Same : (s : Session) → s.state ≡ closed → resume_recv app s ≡ s
  unfolding resume_recv
  resume-Same s e = rw (unusable s e) refl

  tick-Same : (s : Session) (now : ℕ) → s.state ≡ closed → tick app s now ≡ s
  unfolding tick
  tick-Same s now e = rw (unusable s e) (try_release-Same s e)

  end-Same : (s : Session) → s.state ≡ closed → Same s (end_app_io app s)
  unfolding end_app_io
  end-Same s e =
      subst (Same s) (sym (ap (try_release app) (flush-Same ended e) ∙ try_release-Same ended e))
        (same s)
    where
      ended : Session
      ended = record s { pending_app_io = s.pending_app_io - 1 }

  begin-Same : (s : Session) → Same s (begin_app_io s)
  unfolding begin_app_io
  begin-Same s = same s

  idle_recv : (s : Session) → Counted 0 s → s.state ≡ closed → 0 < s.recvs → ⊥
  idle_recv s v e busy = omega (arith, v.counted, v.settled e)

  by_eq : {s t : Session} → t ≡ s → Same s t
  by_eq {s} e = subst (Same s) (sym e) (same s)

  -- None of the steps is a completion.
  Step-Same : {s t : Session} → Counted 0 s → s.state ≡ closed → Step app s t → Same s t
  Step-Same v e (starts s o) = absurd (clash (sym o ∙ e))
    where
      clash : opened ≡ closed → ⊥
      clash x = cc
  Step-Same v e (receives s c busy more) = absurd (idle_recv s v e busy)
  Step-Same v e (receives_last s c busy last) = absurd (idle_recv s v e busy)
  Step-Same v e (sends s op result busy active) = absurd (omega (arith, v.counted, v.settled e))
  Step-Same v e (shuts s busy) = absurd (omega (arith, v.counted, v.settled e))
  Step-Same v e (cancels s busy) = absurd (omega (arith, v.counted, v.settled e))
  Step-Same v e (ticks s now) = by_eq (tick-Same s now e)
  Step-Same v e (calls_send s buf) = by_eq (send-Same s buf e)
  Step-Same v e (calls_disconnect s) = by_eq (disconnect-Same s e)
  Step-Same v e (calls_disconnect_after_flush s) = by_eq (disconnect_after_flush-Same s e)
  Step-Same v e (calls_begin_app_io s) = begin-Same s
  Step-Same v e (calls_end_app_io s) = end-Same s e
  Step-Same v e (calls_pause s) = by_eq (pause-Same s e)
  Step-Same v e (calls_resume s) = by_eq (resume-Same s e)

Same-trans : (s t u : Session) → Same s t → Same t u → Same s u
Same-trans s t u (a, b, c, d, f) (a', b', c', d', f') = (a' ∙ a, b' ∙ b, c' ∙ c, d' ∙ d, f' ∙ f)

Reach-Same :
    (app : App) (fine : Behaves app) {s t : Session}
    → Inv 0 s
    → s.state ≡ closed
    → Reach app s t
    → Same s t
Reach-Same app fine {s} v e here = same s
Reach-Same app fine {s = s} {t = u} v e (next {t = t} r st) =
    let before = Reach-Same app fine v e r in
    Same-trans s t u before (Step-Same app (Reach-Inv app fine v r).counts (before.0 ∙ e) st)

-- Of an application whose callbacks keep the invariant, and of a session that any steps lead to from a
-- new one and that is closed: any further steps leave it closed, with no further call of
-- `OnDisconnected`, and with `pending_io_`, the manager's entry and the send queue as they were.
pub closed_for_good :
    (app : App) (fine : Behaves app) (config : Config) (max_pending : ℕ) (grants : List Bool)
    (clock : ℕ) (t u : Session)
    → Reach app (created config max_pending grants clock) t
    → t.state ≡ closed
    → Reach app t u
    → Same t u
closed_for_good app fine config max_pending grants clock t u run e more =
    Reach-Same app fine (Reach-Inv app fine (created-Inv config max_pending grants clock) run) e
      more
