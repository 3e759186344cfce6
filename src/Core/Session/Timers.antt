-- ===== src/Core/Session/Timers.antt =====
-- The periodic tick and its settings.
use iouring_runtime.Prelude.{ℕ, ◌+◌, Bool, not, ◌&&◌, ◌||◌, min, ltb, leb, if◌then◌else◌, ◌==◌}
use iouring_runtime.Core.Session.State.{Session, App, can_use}
use iouring_runtime.Core.Session.Close.{disconnect_on_owner, try_release}

-- Durations are in the clock's unit, and one that is not positive is 0.
unfoldable pub set_timeout_check_interval : Session → ℕ → Session
set_timeout_check_interval s interval =
    if interval == 0
    then record s { timeout_check_interval = 0; next_timeout_check = 0 }
    else record s { timeout_check_interval = interval; next_timeout_check = s.clock + interval }

-- `milliseconds{1000}`
abbrev pub second : ℕ
second = 1000

unfoldable pub set_inactivity_timeout : Session → ℕ → Session
set_inactivity_timeout s timeout =
    let s' = record s { inactivity_timeout = timeout } in
    if ltb 0 timeout && ((s'.timeout_check_interval == 0) || ltb timeout s'.timeout_check_interval)
    then set_timeout_check_interval s' (min timeout second)
    else s'

unfoldable pub check_due : Session → ℕ → Bool
check_due s now =
    ltb 0 s.timeout_check_interval && ((s.next_timeout_check == 0) || leb s.next_timeout_check now)

module _ (app : App) where
  unfoldable pub inactive : Session → ℕ → Bool
  inactive s now =
      ltb 0 s.inactivity_timeout
      && (not (s.last_activity == 0)
          && (leb (s.last_activity + s.inactivity_timeout) now && not (app.has_pending_app_work s)))

  unfoldable pub stalled : Session → ℕ → Bool
  stalled s now =
      s.backpressure_active
      && (s.config.disconnect_on_high_watermark
          && (ltb 0 s.config.disconnect_delay
              && (not (s.last_backpressure_high == 0)
                  && leb (s.last_backpressure_high + s.config.disconnect_delay) now)))

  unfoldable pub time_out : Session → ℕ → Session
  time_out s now = if inactive s now || stalled s now then disconnect_on_owner app s else s

  unfoldable pub tick : Session → ℕ → Session
  unfolding time_out
  tick s now =
      let checked = record s { next_timeout_check = now + s.timeout_check_interval } in
      let (handled, s') = app.on_timeout_tick now checked in
      if not (can_use s)
      then try_release app s
      else if check_due s now
      then if handled then s' else time_out s' now
      else time_out s now
