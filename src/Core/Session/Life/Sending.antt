-- ===== src/Core/Session/Life/Sending.antt =====
-- The methods of `Send` keep the invariant.
use iouring_runtime.Prelude.{
  [], Expected, IoError, ℕ, ◌+◌, ◌≡◌, refl, ap, none, some, true, false, not, ◌&&◌, ◌||◌, ◌==◌,
  arith, List, ltb, if_elim, if◌then◌else◌,
}
use iouring_runtime.Core.SendQueue.{
  SendBufferRef, SendQueue, snapshot, push, drain_into, mark_sent, is_nil,
}
use iouring_runtime.Core.SendState.{SendState, Completion, bytes, failed, advance_send_state}
use iouring_runtime.Core.Session.State.{
  Session, App, can_use, begin_pending_io, complete_pending_io, granted, asked, is_some,
}
use iouring_runtime.Core.Session.Close.{disconnect_on_owner, try_disconnect_after_flush}
use iouring_runtime.Core.Session.Send.{
  send_state, max_send_iovecs, high_watermark_reached, low_watermark_reached, requested,
  raise_backpressure, clear_backpressure, update_backpressure, send_in_flight_batch, send_batch,
  send_pending, register_send, send_on_owner, resume_send, finish_send, send_result, on_send,
}
use iouring_runtime.Core.Session.Recv.{register_recv, drain_paused_recv}
use iouring_runtime.Core.Session.Life.{flag, Inv, Behaves}
use iouring_runtime.Core.Session.Life.Closing.{
  disconnect_on_owner-Inv, try_release-Inv, try_disconnect_after_flush-Inv,
}
use iouring_runtime.Core.Session.Life.Counting.{complete-Counted}
use iouring_runtime.Core.Session.Life.Receiving.{
  open-Inv, undone-Inv, opened-ne-closed, register_recv-Inv, drain_paused_recv-Inv,
}

module _ (app : App) (fine : Behaves app) where
  raise_backpressure-Inv : (k : ℕ) (s : Session) → Inv k s → Inv k (raise_backpressure app s)
  unfolding raise_backpressure
  raise_backpressure-Inv k s v =
      if_elim (Inv k)
        (paused.config.disconnect_on_high_watermark && (paused.config.disconnect_delay == 0))
        (disconnect_on_owner app paused) paused
        (λ _. disconnect_on_owner-Inv app fine k paused raised) (λ _. raised)
    where
      told : Session
      told =
          app.on_backpressure true
            (record s { backpressure_active = true; last_backpressure_high = s.clock })

      told-Inv : Inv k told
      told-Inv = fine.on_backpressure k true _ v

      paused : Session
      paused =
          if told.config.pause_recv_on_backpressure
          then record told { recv_paused = true }
          else told

      raised : Inv k paused
      raised =
          if_elim (Inv k) told.config.pause_recv_on_backpressure
            (record told { recv_paused = true }) told (λ _. told-Inv) (λ _. told-Inv)

  clear_backpressure-Inv : (k : ℕ) (s : Session) → Inv k s → Inv k (clear_backpressure app s)
  unfolding clear_backpressure
  clear_backpressure-Inv k s v =
      if_elim (Inv k) told.config.pause_recv_on_backpressure
        (register_recv app (drain_paused_recv app (record told { recv_paused = false }))) told
        (λ _.
          register_recv-Inv app fine k (drain_paused_recv app (record told { recv_paused = false }))
            (drain_paused_recv-Inv app fine k (record told { recv_paused = false }) told-Inv))
        (λ _. told-Inv)
    where
      told : Session
      told =
          app.on_backpressure false
            (record s { backpressure_active = false; last_backpressure_high = 0 })

      told-Inv : Inv k told
      told-Inv = fine.on_backpressure k false _ v

  pub update_backpressure-Inv : (k : ℕ) (s : Session) → Inv k s → Inv k (update_backpressure app s)
  unfolding update_backpressure
  update_backpressure-Inv k s v =
      if_elim (Inv k) s.backpressure_active _ _
        (λ _.
          if_elim (Inv k) (low_watermark_reached s (snapshot s.send_queue)) _ _
            (λ _. clear_backpressure-Inv k s v) (λ _. v))
        (λ _.
          if_elim (Inv k) (high_watermark_reached s (snapshot s.send_queue)) _ _
            (λ _. raise_backpressure-Inv k s v) (λ _. v))

  send_in_flight_batch-Inv :
      (k : ℕ) (s : Session) (bufs : List SendBufferRef)
      → is_some s.active_send ≡ false
      → Inv k s
      → Inv k (send_in_flight_batch app s bufs)
  unfolding send_in_flight_batch
  send_in_flight_batch-Inv k s bufs idle v =
      if_elim (Inv k) (not (can_use s) || is_nil bufs) _ _ (λ _. v)
        (λ unlocked.
          if_elim (Inv k) (not (granted (begin_pending_io s))) _ _
            (λ _.
              disconnect_on_owner-Inv app fine k (complete_pending_io (asked (begin_pending_io s)))
                (undone-Inv k (asked s) v))
            (λ _.
              let usable : can_use s ≡ true = ground arith in
              open-Inv k
                (record (asked (begin_pending_io s)) {
                  active_send = some (send_state bufs);
                  sends = s.sends + 1;
                })
                (record {
                  counted = omega (arith, v.counts.counted);
                  recv_op = v.counts.recv_op;
                  send_op = omega (arith, v.counts.send_op, ap flag idle);
                  once = v.counts.once;
                  settled = λ e. absurd (opened-ne-closed s usable e);
                })
                usable v.unmanaged))

  pub send_batch-Inv :
      (k : ℕ) (s : Session) (bufs : List SendBufferRef) → Inv k s → Inv k (send_batch app s bufs)
  unfolding send_batch
  send_batch-Inv k s bufs v =
      if_elim (Inv k) (not (can_use s) || is_nil bufs || is_some s.active_send) _ _ (λ _. v)
        (λ free.
          if_elim (Inv k) (granted s) _ _
            (λ _. send_in_flight_batch-Inv k (asked s) bufs (ground arith) v)
            (λ _. disconnect_on_owner-Inv app fine k (asked s) v))

  send_pending-Inv : (k : ℕ) (s : Session) → Inv k s → Inv k (send_pending app s)
  unfolding send_pending
  send_pending-Inv k s v =
      if_elim (Inv k) (drained.0 == 0) s (send_batch app (update_backpressure app taken) drained.1)
        (λ _. v)
        (λ _.
          send_batch-Inv k (update_backpressure app taken) drained.1
            (update_backpressure-Inv k taken v))
    where
      drained : ℕ × List SendBufferRef × SendQueue
      drained = drain_into s.send_queue [] max_send_iovecs

      taken : Session
      taken = record s { send_queue = drained.2 }

  pub register_send-Inv : (k : ℕ) (s : Session) → Inv k s → Inv k (register_send app s)
  unfolding register_send
  register_send-Inv k s v =
      if_elim (Inv k) (not (can_use s) || is_some s.active_send) _ _ (λ _. v)
        (λ _. send_pending-Inv k s v)

  pub send_on_owner-Inv :
      (k : ℕ) (s : Session) (buf : SendBufferRef) → Inv k s → Inv k (send_on_owner app s buf).1
  unfolding send_on_owner
  send_on_owner-Inv k s buf v =
      if_elim (λ (r : Expected (Unit {0}) IoError × Session). Inv k r.1) (not (can_use s)) _ _
        (λ _. v)
        (λ _.
          if_elim (λ (r : Expected (Unit {0}) IoError × Session). Inv k r.1)
            (push s.send_queue buf).0.overflowed _ _
            (λ _. disconnect_on_owner-Inv app fine k pushed v)
            (λ _.
              if_elim (Inv k) (push s.send_queue buf).0.needs_register
                (register_send app (update_backpressure app pushed))
                (update_backpressure app pushed)
                (λ _. register_send-Inv k (update_backpressure app pushed) updated) (λ _. updated)))
    where
      pushed : Session
      pushed = record s { send_queue = (push s.send_queue buf).1 }

      updated : Inv k (update_backpressure app pushed)
      updated = update_backpressure-Inv k pushed v

  resume_send-Inv :
      (s : Session) (op : SendState) (sent : ℕ)
      → is_some s.active_send ≡ false
      → can_use s ≡ true
      → Inv 1 s
      → Inv 0 (resume_send app s op sent)
  unfolding resume_send
  resume_send-Inv s op sent idle usable v =
      if_elim (Inv 0) (granted s) _ _
        (λ _.
          open-Inv 0
            (record (asked s) {
              active_send = some (advance_send_state op sent);
              sends = s.sends + 1;
            })
            (record {
              counted = omega (arith, v.counts.counted);
              recv_op = v.counts.recv_op;
              send_op = omega (arith, v.counts.send_op, ap flag idle);
              once = v.counts.once;
              settled = λ e. absurd (opened-ne-closed s usable e);
            })
            usable v.unmanaged)
        (λ _. disconnect_on_owner-Inv app fine 0 (complete_pending_io (asked s)) (
          open-Inv 0 (complete_pending_io (asked s)) (complete-Counted 0 (asked s) v.counts) usable
            v.unmanaged))

  finish_send-Inv : (s : Session) → can_use s ≡ true → Inv 1 s → Inv 0 (finish_send app s)
  unfolding finish_send
  finish_send-Inv s usable v =
      if_elim (Inv 0) (is_some waiting.active_send) _ _ (λ _. flushed)
        (λ _.
          if_elim (Inv 0) (drained.0 == 0) (try_disconnect_after_flush app taken)
            (send_batch app (update_backpressure app taken) drained.1)
            (λ _. try_disconnect_after_flush-Inv app fine 0 taken flushed)
            (λ _.
              send_batch-Inv 0 (update_backpressure app taken) drained.1
                (update_backpressure-Inv 0 taken flushed)))
    where
      completed : Session
      completed = complete_pending_io (record s { send_queue = mark_sent s.send_queue })

      waiting : Session
      waiting =
          try_disconnect_after_flush app (app.on_socket_drained (update_backpressure app completed))

      drained : ℕ × List SendBufferRef × SendQueue
      drained = drain_into waiting.send_queue [] max_send_iovecs

      taken : Session
      taken = record waiting { send_queue = drained.2 }

      flushed : Inv 0 waiting
      flushed = try_disconnect_after_flush-Inv app fine 0 _ (
          fine.on_socket_drained 0 _ (
            update_backpressure-Inv 0 completed
              (open-Inv 0 completed (complete-Counted 0 s v.counts) usable v.unmanaged)))

  send_result-Inv :
      (s : Session) (op : SendState) (result : Completion)
      → is_some s.active_send ≡ false
      → can_use s ≡ true
      → Inv 1 s
      → Inv 0 (send_result app s op result)
  unfolding send_result
  send_result-Inv s op (failed e) idle usable v =
      disconnect_on_owner-Inv app fine 0 (complete_pending_io s)
        (open-Inv 0 (complete_pending_io s) (complete-Counted 0 s v.counts) usable v.unmanaged)
  send_result-Inv s op (bytes sent) idle usable v =
      if_elim (Inv 0) (ltb sent (requested op.iovs)) _ _
        (λ _. resume_send-Inv s op sent idle usable v) (λ _. finish_send-Inv s usable v)

  -- The completion of a send, which has left the kernel and is still counted, leaves the counts in
  -- order and the session open, waiting, or closed.
  pub on_send-Inv :
      (s : Session) (op : SendState) (result : Completion)
      → Inv 1 (record s { active_send = none })
      → Inv 0 (on_send app s op result)
  unfolding on_send
  on_send-Inv s op result v =
      if_elim (Inv 0) (can_use s) _ _
        (λ usable. send_result-Inv (record s { active_send = none }) op result refl usable v)
        (λ _.
          try_release-Inv app fine 0 _
            (complete-Counted 0 (record s { active_send = none }) v.counts) v.unmanaged)
