-- ===== src/Tests/Sessions.antt =====
-- A session whose application starts work of its own with every receive.
use iouring_runtime.Prelude.{◌+◌, ◌-◌, ◌≡◌, refl, sym, ◌∙◌, Bool, true, false, List, [], ◌∷◌, arith}
use iouring_runtime.Core.SendState.{bytes, failed}
use iouring_runtime.Core.Session.State.{
  Session, SessionState, Config, App, opened, closed, created, is_some,
}
use iouring_runtime.Core.Session.Close.{
  begin_app_io, end_app_io, disconnect_on_owner, try_release, released, cancel_recv, shut_down,
  try_disconnect_after_flush, on_disconnect, on_cancel, disconnect_after_flush,
}
use iouring_runtime.Core.Session.Recv.{
  RecvCqe, start, on_recv, register_recv, recv_completion, recv_bytes, take_view, recv_result,
}
use iouring_runtime.Core.Session.Events.{
  starts, receives, receives_last, shuts, cancels, calls_disconnect, calls_end_app_io,
  calls_disconnect_after_flush, Reach, here, next,
}
use iouring_runtime.Core.Session.Life.{Behaves, flag, is_closed}
use iouring_runtime.Core.Session.Life.Counting.{begin_app_io-Inv}
use iouring_runtime.Core.Session.Life.Release.{
  pending_io_counts, released_after_last_operation, released_with_last_operation,
}
use iouring_runtime.Core.Session.Life.Final.{Same, closed_for_good}

abbrev worker : App
worker = record {
  on_recv = λ b s. begin_app_io s;
  on_connected = λ s. s;
  on_disconnected = λ s. s;
  has_pending_app_work = λ s. false;
  on_timeout_tick = λ now s. (false, s);
  on_socket_drained = λ s. s;
  on_backpressure = λ b s. s;
}

worker-Behaves : Behaves worker
worker-Behaves = record {
  on_recv = λ k b s v. begin_app_io-Inv k s v;
  on_connected = λ k s v. v;
  on_disconnected = λ s v e. (v, e);
  on_timeout_tick = λ k now s v. v;
  on_socket_drained = λ k s v. v;
  on_backpressure = λ k b s v. v;
}

abbrev config : Config
config = record {
  high_watermark = 0;
  low_watermark = 0;
  high_bytes = 0;
  low_bytes = 0;
  disconnect_delay = 0;
  paused_recv_byte_limit = 1048576;
  pause_recv_on_backpressure = false;
  disconnect_on_high_watermark = false;
}

-- no request of the first six is refused
abbrev grants : List Bool
grants = true ∷ true ∷ true ∷ true ∷ true ∷ true ∷ []

abbrev two_bytes : RecvCqe
two_bytes = record { more = true; has_buffer = true; result = bytes 2; view = 1 ∷ 2 ∷ [] }

-- the receive's last completion, which the cancel brings about
abbrev canceled : RecvCqe
canceled = record { more = false; has_buffer = false; result = failed 125; view = [] }

abbrev s0 : Session
s0 = created config 16 grants 1

abbrev s1 : Session
s1 = start worker s0

abbrev s2 : Session
s2 = on_recv worker s1 two_bytes

abbrev s3 : Session
s3 = disconnect_on_owner worker s2

s1_receives : s1.recvs ≡ 1
unfolding start register_recv
s1_receives = refl

-- The application's work is pending, and the receive goes on.
s2_works : (s2.pending_app_io ≡ 1) × (s2.recvs ≡ 1) × (s2.returned_buffers ≡ 1)
unfolding start register_recv on_recv recv_completion recv_bytes take_view recv_result begin_app_io
s2_works = (refl, refl, refl)

s3_waits : (s3.pending_io ≡ 3) × (s3.recvs ≡ 1) × (s3.shutdowns ≡ 1) × (s3.cancels ≡ 1)
unfolding start register_recv on_recv recv_completion recv_bytes take_view recv_result begin_app_io
    disconnect_on_owner shut_down cancel_recv try_release
s3_waits = (refl, refl, refl, refl)

abbrev s4 : Session
s4 = on_recv worker (record s3 { recvs = s3.recvs - 1 }) canceled

abbrev s5 : Session
s5 = on_disconnect worker (record s4 { shutdowns = s4.shutdowns - 1 })

abbrev s6 : Session
s6 = on_cancel worker (record s5 { cancels = s5.cancels - 1 })

abbrev s7 : Session
s7 = end_app_io worker s6

s4_shuts : s4.shutdowns ≡ 1
unfolding start register_recv on_recv recv_completion recv_bytes take_view recv_result begin_app_io
    disconnect_on_owner shut_down cancel_recv try_release
s4_shuts = refl

s5_cancels : s5.cancels ≡ 1
unfolding start register_recv on_recv recv_completion recv_bytes take_view recv_result begin_app_io
    disconnect_on_owner shut_down cancel_recv try_release on_disconnect
s5_cancels = refl

-- Nothing is in flight, but the application still works.
s6_works : (s6.pending_io ≡ 0) × (s6.pending_app_io ≡ 1) × (s6.disconnected_calls ≡ 0)
unfolding start register_recv on_recv recv_completion recv_bytes take_view recv_result begin_app_io
    disconnect_on_owner shut_down cancel_recv try_release on_disconnect on_cancel
s6_works = (refl, refl, refl)

-- The end of that work releases the session.
s7_closed : s7.state ≡ closed
unfolding start register_recv on_recv recv_completion recv_bytes take_view recv_result begin_app_io
    disconnect_on_owner shut_down cancel_recv try_release on_disconnect on_cancel end_app_io
    try_disconnect_after_flush released
s7_closed = refl

s7_idle : (s7.recvs + s7.sends + s7.shutdowns + s7.cancels ≡ 0) × (s7.pending_app_io ≡ 0)
unfolding start register_recv on_recv recv_completion recv_bytes take_view recv_result begin_app_io
    disconnect_on_owner shut_down cancel_recv try_release on_disconnect on_cancel end_app_io
    try_disconnect_after_flush released
s7_idle = (refl, refl)

run_s3 : Reach worker s0 s3
run_s3 =
    next
      (next (next here (starts s0 refl)) (receives s1 two_bytes (omega (arith, s1_receives)) refl))
      (calls_disconnect s2)

run_s7 : Reach worker s0 s7
run_s7 =
    next
      (next
        (next (next run_s3 (receives_last s3 canceled (omega (arith, s3_waits.1)) refl))
          (shuts s4 (omega (arith, s4_shuts))))
        (cancels s5 (omega (arith, s5_cancels))))
      (calls_end_app_io s6)

run_on : Reach worker s7 (disconnect_after_flush worker s7)
run_on = next here (calls_disconnect_after_flush s7)

not_opened : (st : SessionState) → st ≡ closed → ¬ (st ≡ opened)
not_opened st e o = clash (sym e ∙ o)
  where
    clash : ¬ (closed ≡ opened)
    clash x = cc

pending_io_counts_example :
    (s3.pending_io ≡ s3.recvs + s3.sends + s3.shutdowns + s3.cancels)
    × (s3.recvs ≡ flag s3.active_recv)
    × (s3.sends ≡ flag (is_some s3.active_send))
    × (s3.disconnected_calls ≡ flag (is_closed s3.state))
pending_io_counts_example = pending_io_counts worker worker-Behaves config 16 grants 1 s3 run_s3

released_after_last_operation_example :
    (s7.recvs ≡ 0)
    × (s7.sends ≡ 0)
    × (s7.shutdowns ≡ 0)
    × (s7.cancels ≡ 0)
    × (s7.managed ≡ false)
    × (s7.disconnected_calls ≡ 1)
released_after_last_operation_example =
    released_after_last_operation worker worker-Behaves config 16 grants 1 s7 run_s7 s7_closed

released_with_last_operation_example :
    (s7.state ≡ closed) × (s7.managed ≡ false) × (s7.disconnected_calls ≡ 1)
released_with_last_operation_example =
    released_with_last_operation worker worker-Behaves config 16 grants 1 s7 run_s7
      (not_opened s7.state s7_closed) s7_idle.0 s7_idle.1

closed_for_good_example : Same s7 (disconnect_after_flush worker s7)
closed_for_good_example =
    closed_for_good worker worker-Behaves config 16 grants 1 s7 (disconnect_after_flush worker s7)
      run_s7 s7_closed run_on
