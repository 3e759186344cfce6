-- ===== src/Core/Session/Life/Ticking.antt =====
-- The periodic tick keeps the invariant.
use iouring_runtime.Prelude.{ℕ, Bool, ◌+◌, not, ◌||◌, if_elim}
use iouring_runtime.Core.Session.State.{Session, App, can_use}
use iouring_runtime.Core.Session.Timers.{check_due, inactive, stalled, time_out, tick}
use iouring_runtime.Core.Session.Life.{Inv, Behaves}
use iouring_runtime.Core.Session.Life.Closing.{disconnect_on_owner-Inv, try_release-Inv}

module _ (app : App) (fine : Behaves app) where
  time_out-Inv : (k : ℕ) (s : Session) (now : ℕ) → Inv k s → Inv k (time_out app s now)
  unfolding time_out
  time_out-Inv k s now v =
      if_elim (Inv k) (inactive app s now || stalled app s now) _ _
        (λ _. disconnect_on_owner-Inv app fine k s v) (λ _. v)

  pub tick-Inv : (k : ℕ) (s : Session) (now : ℕ) → Inv k s → Inv k (tick app s now)
  unfolding tick
  tick-Inv k s now v =
      if_elim (Inv k) (not (can_use s)) _ _ (λ _. try_release-Inv app fine k s v.counts v.unmanaged)
        (λ _.
          if_elim (Inv k) (check_due s now) _ _
            (λ _.
              if_elim (Inv k) after.0 after.1 (time_out app after.1 now) (λ _. ticked)
                (λ _. time_out-Inv k after.1 now ticked))
            (λ _. time_out-Inv k s now v))
    where
      after : Bool × Session
      after =
          app.on_timeout_tick now (record s { next_timeout_check = now + s.timeout_check_interval })

      ticked : Inv k after.1
      ticked = fine.on_timeout_tick k now _ v
