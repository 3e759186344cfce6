-- ===== src/Core/Session/Life/Closing.antt =====
-- The methods of `Close` keep the invariant.
use iouring_runtime.Prelude.{
  ℕ, ◌+◌, ◌-◌, ◌≡◌, refl, sym, ap, ◌∙◌, subst, inl, inr, true, false, not, ◌||◌, ◌==◌, arith,
  Bool-cases,
}
use iouring_runtime.Core.Session.State.{
  Session, App, closing, closed, can_use, closing_started, begin_disconnect, mark_draining,
  may_close, begin_pending_io, complete_pending_io, granted, asked,
}
use iouring_runtime.Core.Session.Close.{
  released, try_release, cancel_recv, shut_down, disconnect_on_owner, try_disconnect_after_flush,
  disconnect_after_flush, on_disconnect, on_cancel, work_left, end_app_io,
}
use iouring_runtime.Core.Session.Life.{flag, Inv, Counted, Behaves}
use iouring_runtime.Core.Session.Life.Counting.{
  complete-Counted, kept_waits, nothing_left, already_closed, not_closed_yet, closing-ne-closed,
  is_open-eq, closing-Counted, draining-ne-closed, draining-Counted, undone-Counted,
}

module _ (app : App) (fine : Behaves app) where
  released-Inv :
      (s : Session)
      → Counted 0 s
      → s.pending_io ≡ 0
      → may_close s.state ≡ true
      → Inv 0 (released app s)
  unfolding released
  released-Inv s v e m =
      let (counts, state) = fine.on_disconnected shut shut_counts refl in
      record { counts = counts; waits = inr (inl state); unmanaged = λ _. refl }
    where
      shut : Session
      shut = record s { state = closed; disconnected_calls = s.disconnected_calls + 1 }

      shut_counts : Counted 0 shut
      shut_counts = record {
        counted = v.counted;
        recv_op = v.recv_op;
        send_op = v.send_op;
        once = omega (arith, v.once, ap flag (not_closed_yet s.state m));
        settled = λ _. e;
      }

  -- With the counts in order, a try to release leaves the invariant.
  pub try_release-Inv :
      (k : ℕ) (s : Session)
      → Counted k s
      → (s.state ≡ closed → s.managed ≡ false)
      → Inv k (try_release app s)
  unfolding try_release
  try_release-Inv k s v m =
      elim (Bool-cases
        (not (closing_started s) || not (s.pending_io == 0) || not (s.pending_app_io == 0))) [
          | inl stays ↦ rw stays (record {
            counts = v;
            waits = kept_waits s.state s.pending_io s.pending_app_io stays;
            unmanaged = m;
          })
          | inr goes ↦
              let (not_open, none, _) = nothing_left s.state s.pending_io s.pending_app_io goes in
              let none_owed : 0 ≡ k = omega (arith, v.counted) in
              rw goes (elim (Bool-cases (may_close s.state)) [
                | inl may ↦ rw may (
                    subst (λ j. Inv j (released app s)) none_owed
                      (released-Inv s (subst (λ j. Counted j s) (sym none_owed) v) none may))
                | inr over ↦ rw over (record {
                  counts = v;
                  waits = inr (inl (already_closed s.state not_open over));
                  unmanaged = m;
                })
              ])
        ]

  pub on_disconnect-Inv :
      (s : Session)
      → Counted 1 s
      → (s.state ≡ closed → s.managed ≡ false)
      → Inv 0 (on_disconnect app s)
  unfolding on_disconnect
  on_disconnect-Inv s v m = try_release-Inv 0 (complete_pending_io s) (complete-Counted 0 s v) m

  pub on_cancel-Inv :
      (s : Session) → Counted 1 s → (s.state ≡ closed → s.managed ≡ false) → Inv 0 (on_cancel app s)
  unfolding on_cancel
  on_cancel-Inv s v m = try_release-Inv 0 (complete_pending_io s) (complete-Counted 0 s v) m

  cancel_recv-Counted :
      (k : ℕ) (s : Session)
      → Counted k s
      → s.state ≡ closing
      → Counted k (cancel_recv app s) × ((cancel_recv app s).state ≡ closing)
  unfolding cancel_recv
  cancel_recv-Counted k s v o = elim (Bool-cases (not s.active_recv)) [
    | inl idle ↦ rw idle (v, o)
    | inr receiving ↦ rw receiving (elim (Bool-cases (granted s)) [
      | inr refused ↦ rw refused (v, o)
      | inl allocated ↦ rw allocated (elim (Bool-cases (granted (begin_pending_io (asked s)))) [
        | inl prepared ↦ rw prepared (
          record {
            counted = omega (arith, v.counted);
            recv_op = v.recv_op;
            send_op = v.send_op;
            once = v.once;
            settled = λ e. absurd (closing-ne-closed (sym o ∙ e));
          },
          o,
        )
        | inr full ↦ rw full (undone-Counted k (asked s) v, o)
      ])
    ])
  ]

  shut_down-Inv :
      (k : ℕ) (s : Session)
      → Counted k s
      → s.state ≡ closing
      → Inv k (shut_down app (asked (begin_pending_io s)))
  unfolding shut_down
  shut_down-Inv k s v o =
      let (c, st) = cancel_recv-Counted k begun (begun_counts) o in
      try_release-Inv k (mark_draining (cancel_recv app begun))
        (draining-Counted k (cancel_recv app begun) c st)
        (λ e. absurd (draining-ne-closed (cancel_recv app begun).state st e))
    where
      begun : Session
      begun = record (asked (begin_pending_io s)) { shutdowns = s.shutdowns + 1 }

      begun_counts : Counted k begun
      begun_counts = record {
        counted = omega (arith, v.counted);
        recv_op = v.recv_op;
        send_op = v.send_op;
        once = v.once;
        settled = λ e. absurd (closing-ne-closed (sym o ∙ e));
      }

  pub disconnect_on_owner-Inv : (k : ℕ) (s : Session) → Inv k s → Inv k (disconnect_on_owner app s)
  unfolding disconnect_on_owner
  disconnect_on_owner-Inv k s v = elim (Bool-cases (not (can_use s))) [
    | inl over ↦ rw over v
    | inr usable ↦
        let c = closing-Counted k s v.counts (ground arith) in
        rw usable (elim (Bool-cases (granted (begin_disconnect s))) [
          | inr no_memory ↦
              rw no_memory (
                try_release-Inv k (asked (begin_disconnect s)) c
                  (λ e. absurd (closing-ne-closed e)))
          | inl allocated ↦
              rw allocated
                (elim (Bool-cases (granted (begin_pending_io (asked (begin_disconnect s))))) [
                  | inr full ↦ rw full (
                      try_release-Inv k
                        (complete_pending_io
                          (asked (begin_pending_io (asked (begin_disconnect s)))))
                        (undone-Counted k (asked (begin_disconnect s)) c)
                        (λ e. absurd (closing-ne-closed e)))
                  | inl prepared ↦ rw prepared (shut_down-Inv k (asked (begin_disconnect s)) c refl)
                ])
        ])
  ]

  pub try_disconnect_after_flush-Inv :
      (k : ℕ) (s : Session) → Inv k s → Inv k (try_disconnect_after_flush app s)
  unfolding try_disconnect_after_flush
  try_disconnect_after_flush-Inv k s v =
      elim (Bool-cases (not s.disconnect_after_flush || not (can_use s))) [
        | inl off ↦ rw off v
        | inr wanted ↦ rw wanted (elim (Bool-cases (work_left app s)) [
          | inl more ↦ rw more v
          | inr flushed ↦ rw flushed (disconnect_on_owner-Inv k s v)
        ])
      ]

  pub disconnect_after_flush-Inv :
      (k : ℕ) (s : Session) → Inv k s → Inv k (disconnect_after_flush app s)
  unfolding disconnect_after_flush
  disconnect_after_flush-Inv k s v = elim (Bool-cases (can_use s)) [
    | inl usable ↦
        rw usable (try_disconnect_after_flush-Inv k (record s { disconnect_after_flush = true }) v)
    | inr over ↦ rw over v
  ]

  flush_closed : (s : Session) → can_use s ≡ false → try_disconnect_after_flush app s ≡ s
  unfolding try_disconnect_after_flush
  flush_closed s e = rw off
    where
      off : (not s.disconnect_after_flush || not (can_use s)) ≡ true
      off = ground arith

  pub end_app_io-Inv : (k : ℕ) (s : Session) → Inv k s → Inv k (end_app_io app s)
  unfolding end_app_io
  end_app_io-Inv k s v = elim (Bool-cases (can_use s)) [
    | inl usable ↦
        let w = try_disconnect_after_flush-Inv k ended (record {
          counts = counts;
          waits = inl (is_open-eq s.state usable);
          unmanaged = v.unmanaged;
        }) in
        try_release-Inv k (try_disconnect_after_flush app ended) w.counts w.unmanaged
    | inr over ↦
        subst (λ t. Inv k (try_release app t)) (sym (flush_closed ended over))
          (try_release-Inv k ended counts v.unmanaged)
  ]
    where
      ended : Session
      ended = record s { pending_app_io = s.pending_app_io - 1 }

      counts : Counted k ended
      counts = record {
        counted = v.counts.counted;
        recv_op = v.counts.recv_op;
        send_op = v.counts.send_op;
        once = v.counts.once;
        settled = v.counts.settled;
      }
