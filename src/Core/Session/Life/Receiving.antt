-- ===== src/Core/Session/Life/Receiving.antt =====
-- The methods of `Recv` keep the invariant.
use iouring_runtime.Prelude.{
  ℕ, zero, suc, ◌+◌, ◌≡◌, sym, ap, ◌∙◌, inl, inr, true, false, not, ◌&&◌, ◌||◌, ◌==◌, arith, List,
  [], ◌∷◌, length, ltb, Bool-cases, if_elim, if◌then◌else◌, add64,
}
use iouring_runtime.Core.SendState.{Completion, bytes, failed, enobufs}
use iouring_runtime.Core.Session.State.{
  Session, App, opened, closed, can_use, begin_pending_io, complete_pending_io, granted, asked,
  touch_activity,
}
use iouring_runtime.Core.Session.Close.{try_release}
use iouring_runtime.Core.Session.Recv.{
  RecvCqe, queue_paused_recv, register_recv, pop_paused, next_round, drain_rounds,
  drain_paused_recv, pause_recv, resume_recv, take_view, recv_bytes, recv_result, recv_completion,
  on_recv, start, is_positive,
}
use iouring_runtime.Core.Session.Life.{flag, Inv, Counted, Behaves}
use iouring_runtime.Core.Session.Life.Closing.{disconnect_on_owner-Inv, try_release-Inv}
use iouring_runtime.Core.Session.Life.Counting.{complete-Counted, undone-Counted, is_open-eq}

-- A session that is open waits for nothing in particular.
pub open-Inv :
    (k : ℕ) (s : Session)
    → Counted k s
    → can_use s ≡ true
    → (s.state ≡ closed → s.managed ≡ false)
    → Inv k s
open-Inv k s v o m = record { counts = v; waits = inl (is_open-eq s.state o); unmanaged = m }

pub undone-Inv : (k : ℕ) (s : Session) → Inv k s → Inv k (complete_pending_io (begin_pending_io s))
undone-Inv k s v = record {
  counts = undone-Counted k s v.counts;
  waits = elim v.waits [
    | inl o ↦ inl o
    | inr (inl c) ↦ inr (inl c)
    | inr (inr w) ↦ inr (inr (omega arith))
  ];
  unmanaged = v.unmanaged;
}

pub opened-ne-closed : (s : Session) → can_use s ≡ true → s.state ≡ closed → ⊥
opened-ne-closed s o e = opened_apart (sym (is_open-eq s.state o) ∙ e)
  where
    opened_apart : opened ≡ closed → ⊥
    opened_apart x = cc

pub queue_paused_recv-Inv :
    (k : ℕ) (s : Session) (xs : List ℕ) → Inv k s → Inv k (queue_paused_recv s xs).1
unfolding queue_paused_recv
queue_paused_recv-Inv k s [] v = v
queue_paused_recv-Inv k s (x ∷ xs) v =
    elim (Bool-cases
      (not (limit == 0) && ltb limit (add64 s.paused_recv_bytes (length (x ∷ xs))))) [
        | inl over ↦ rw over v
        | inr fits ↦ rw fits v
      ]
  where
    limit : ℕ
    limit = s.config.paused_recv_byte_limit

module _ (app : App) (fine : Behaves app) where
  pub register_recv-Inv : (k : ℕ) (s : Session) → Inv k s → Inv k (register_recv app s)
  unfolding register_recv
  register_recv-Inv k s v = elim (Bool-cases (not (can_use s) || s.recv_paused || s.active_recv)) [
    | inl off ↦ rw off v
    | inr wanted ↦ rw wanted (elim (Bool-cases (granted s)) [
      | inr no_memory ↦ rw no_memory (disconnect_on_owner-Inv app fine k (asked s) v)
      | inl allocated ↦ rw allocated (elim (Bool-cases (granted (begin_pending_io (asked s)))) [
        | inr full ↦ rw full (
            disconnect_on_owner-Inv app fine k
              (complete_pending_io (asked (begin_pending_io (asked s)))) (undone-Inv k (asked s) v))
        | inl prepared ↦ rw prepared (armed wanted)
      ])
    ])
  ]
    where
      on : Session
      on = record (asked (begin_pending_io (asked s))) { active_recv = true; recvs = s.recvs + 1 }

      armed : (not (can_use s) || s.recv_paused || s.active_recv) ≡ false → Inv k on
      armed wanted =
          let usable : can_use s ≡ true = ground arith in
          let idle : s.active_recv ≡ false = ground arith in
          open-Inv k on
            (record {
              counted = omega (arith, v.counts.counted);
              recv_op = omega (arith, v.counts.recv_op, ap flag idle);
              send_op = v.counts.send_op;
              once = v.counts.once;
              settled = λ e. absurd (opened-ne-closed s usable e);
            })
            usable v.unmanaged

  next_round-Inv :
      (k : ℕ) (go : Session → Session) (s : Session) (q : List (List ℕ))
      → ((t : Session) → Inv k t → Inv k (go t))
      → Inv k s
      → Inv k (next_round app go s q)
  unfolding next_round pop_paused
  next_round-Inv k go s [] keep v = v
  next_round-Inv k go s (chunk ∷ rest) keep v =
      if_elim (Inv k) (can_use s && not s.recv_paused) _ _ (λ _. keep _ (fine.on_recv k chunk _ v))
        (λ _. v)

  pub drain_rounds-Inv : (fuel k : ℕ) (s : Session) → Inv k s → Inv k (drain_rounds app fuel s)
  unfolding drain_rounds
  drain_rounds-Inv zero k s v = v
  drain_rounds-Inv (suc fuel) k s v =
      next_round-Inv k (drain_rounds app fuel) s s.paused_recv_queue
        (λ t w. drain_rounds-Inv fuel k t w) v

  pub pause_recv-Inv : (k : ℕ) (s : Session) → Inv k s → Inv k (pause_recv app s)
  unfolding pause_recv
  pause_recv-Inv k s v = elim (Bool-cases (can_use s)) [ inl u ↦ rw u v | inr o ↦ rw o v ]

  pub drain_paused_recv-Inv : (k : ℕ) (s : Session) → Inv k s → Inv k (drain_paused_recv app s)
  unfolding drain_paused_recv
  drain_paused_recv-Inv k s v = drain_rounds-Inv (length s.paused_recv_queue) k s v

  pub resume_recv-Inv : (k : ℕ) (s : Session) → Inv k s → Inv k (resume_recv app s)
  unfolding resume_recv
  resume_recv-Inv k s v = elim (Bool-cases (can_use s)) [
    | inl u ↦
        rw u (register_recv-Inv k _ (drain_paused_recv-Inv k (record s { recv_paused = false }) v))
    | inr o ↦ rw o v
  ]

  take_view-Inv : (k : ℕ) (s : Session) (view : List ℕ) → Inv k s → Inv k (take_view app s view)
  unfolding take_view
  take_view-Inv k s view v =
      if_elim (Inv k) s.recv_paused _ _
        (λ _.
          if_elim (Inv k) (queue_paused_recv (touch_activity s) view).0 _ _ (λ _. queued)
            (λ _. disconnect_on_owner-Inv app fine k _ queued))
        (λ _. fine.on_recv k view (touch_activity s) v)
    where
      queued : Inv k (queue_paused_recv (touch_activity s) view).1
      queued = queue_paused_recv-Inv k (touch_activity s) view v

  recv_bytes-Inv : (k : ℕ) (s : Session) (c : RecvCqe) → Inv k s → Inv k (recv_bytes app s c)
  unfolding recv_bytes
  recv_bytes-Inv k s c v = if_elim (Inv k) c.has_buffer _ _ (λ _. seen) (λ _. seen)
    where
      seen : Inv k (if is_positive c.result && can_use s then take_view app s c.view else s)
      seen =
          if_elim (Inv k) (is_positive c.result && can_use s) _ _ (λ _. take_view-Inv k s c.view v)
            (λ _. v)

  recv_result-Inv :
      (k : ℕ) (s : Session) (c : RecvCqe) (res : Completion)
      → Inv k s
      → Inv k (recv_result app s c res)
  unfolding recv_result
  recv_result-Inv k s c (failed e) v =
      if_elim (Inv k) (e == enobufs) _ _
        (λ _. if_elim (Inv k) s.recv_paused _ _ (λ _. v) (λ _. register_recv-Inv k s v))
        (λ _. disconnect_on_owner-Inv app fine k s v)
  recv_result-Inv k s c (bytes n) v =
      if_elim (Inv k) (n == 0) _ _ (λ _. disconnect_on_owner-Inv app fine k s v)
        (λ _. if_elim (Inv k) (c.more || s.recv_paused) _ _ (λ _. v) (λ _. register_recv-Inv k s v))

  -- what follows the bytes and the count
  settle-Inv :
      (s : Session) (c : RecvCqe)
      → Counted 0 s
      → (s.state ≡ closed → s.managed ≡ false)
      → Inv 0 (if can_use s then recv_result app s c c.result else try_release app s)
  settle-Inv s c v m =
      if_elim (Inv 0) (can_use s) _ _ (λ o. recv_result-Inv 0 s c c.result (open-Inv 0 s v o m))
        (λ _. try_release-Inv app fine 0 s v m)

  -- the counts, and the manager's entry of a session that is closed
  abbrev Settled : Session → Type 0
  Settled s = Counted 0 s × (s.state ≡ closed → s.managed ≡ false)

  -- A completion with more to come leaves its operation in flight; a last one has left the kernel and
  -- is still counted.
  pub on_recv-Inv :
      (s : Session) (c : RecvCqe)
      → (c.more ≡ true → Inv 0 s)
      → (c.more ≡ false → Inv 1 (record s { active_recv = false }))
      → Inv 0 (on_recv app s c)
  unfolding on_recv recv_completion
  on_recv-Inv s c more last = settle-Inv (recv_completion app s c) c seen.0 seen.1
    where
      seen : Settled (recv_completion app s c)
      seen =
          if_elim Settled c.more _ _
            (λ e. let w = recv_bytes-Inv 0 s c (more e) in (w.counts, w.unmanaged))
            (λ e.
              let w = recv_bytes-Inv 1 (record s { active_recv = false }) c (last e) in
              (
                complete-Counted 0 (recv_bytes app (record s { active_recv = false }) c) w.counts,
                w.unmanaged,
              ))

  pub start-Inv : (k : ℕ) (s : Session) → Inv k s → can_use s ≡ true → Inv k (start app s)
  unfolding start
  start-Inv k s v o = register_recv-Inv k _ (
      fine.on_connected k (record (touch_activity s) { managed = true })
        (record {
          counts = v.counts;
          waits = v.waits;
          unmanaged = λ e. absurd (opened-ne-closed s o e);
        }))
