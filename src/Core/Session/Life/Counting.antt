-- ===== src/Core/Session/Life/Counting.antt =====
-- src/runtime/io/Session.cpp: the counts of operations under the changes of the state.
use iouring_runtime.Prelude.{
  ℕ, suc, ◌+◌, ◌<◌, ◌≡◌, refl, sym, ap, ◌∙◌, ◌⊎◌, inl, inr, true, false, not, ◌||◌, ◌==◌, arith,
}
use iouring_runtime.Core.Session.State.{
  Session, SessionState, is_open, opened, closing, draining, closed, can_use, begin_disconnect,
  mark_draining, drained_state, may_close, begin_pending_io, complete_pending_io,
}
use iouring_runtime.Core.Session.Close.{begin_app_io}
use iouring_runtime.Core.Session.Life.{flag, is_closed, Inv, Counted}

-- An operation that completes leaves one less to wait for.
pub complete-Counted : (k : ℕ) (s : Session) → Counted (suc k) s → Counted k (complete_pending_io s)
complete-Counted k s v = record {
  counted = omega (arith, v.counted);
  recv_op = v.recv_op;
  send_op = v.send_op;
  once = v.once;
  settled = λ e. omega (arith, v.settled e);
}

-- the test of `TryRelease`, in two outcomes
pub kept_waits :
    (st : SessionState) (a b : ℕ)
    → (not (not (is_open st)) || not (a == 0) || not (b == 0)) ≡ true
    → (st ≡ opened) ⊎ (st ≡ closed) ⊎ (0 < a + b)
kept_waits opened a b e = inl refl
kept_waits closing a b e = inr (inr (ground arith))
kept_waits draining a b e = inr (inr (ground arith))
kept_waits closed a b e = inr (inl refl)

pub nothing_left :
    (st : SessionState) (a b : ℕ)
    → (not (not (is_open st)) || not (a == 0) || not (b == 0)) ≡ false
    → (is_open st ≡ false) × (a ≡ 0) × (b ≡ 0)
nothing_left st a b e = ground arith

pub already_closed : (st : SessionState) → is_open st ≡ false → may_close st ≡ false → st ≡ closed
already_closed opened e m = cc
already_closed closing e m = cc
already_closed draining e m = cc
already_closed closed e m = refl

pub not_closed_yet : (st : SessionState) → may_close st ≡ true → is_closed st ≡ false
not_closed_yet opened e = refl
not_closed_yet closing e = refl
not_closed_yet draining e = refl
not_closed_yet closed e = cc

pub closing-ne-closed : closing ≡ closed → ⊥
closing-ne-closed e = cc

pub is_open-eq : (st : SessionState) → is_open st ≡ true → st ≡ opened
is_open-eq opened e = refl
is_open-eq closing e = cc
is_open-eq draining e = cc
is_open-eq closed e = cc

open_not_closed : (st : SessionState) → is_open st ≡ true → is_closed st ≡ false
open_not_closed opened e = refl
open_not_closed closing e = cc
open_not_closed draining e = cc
open_not_closed closed e = cc

-- A session that is open has not been closed.
pub closing-Counted :
    (k : ℕ) (s : Session) → Counted k s → can_use s ≡ true → Counted k (begin_disconnect s)
closing-Counted k s v o = record {
  counted = v.counted;
  recv_op = v.recv_op;
  send_op = v.send_op;
  once = v.once ∙ ap flag (open_not_closed s.state o);
  settled = λ e. absurd (closing-ne-closed e);
}

pub draining-ne-closed : (st : SessionState) → st ≡ closing → drained_state st ≡ closed → ⊥
draining-ne-closed opened o e = cc
draining-ne-closed closing o e = cc
draining-ne-closed draining o e = cc
draining-ne-closed closed o e = cc

drained_closed : (st : SessionState) → is_closed (drained_state st) ≡ is_closed st
drained_closed opened = refl
drained_closed closing = refl
drained_closed draining = refl
drained_closed closed = refl

pub draining-Counted :
    (k : ℕ) (s : Session) → Counted k s → s.state ≡ closing → Counted k (mark_draining s)
draining-Counted k s v o = record {
  counted = v.counted;
  recv_op = v.recv_op;
  send_op = v.send_op;
  once = v.once ∙ ap flag (sym (drained_closed s.state));
  settled = λ e. absurd (draining-ne-closed s.state o e);
}

-- An operation that was counted and then refused is not counted.
pub undone-Counted :
    (k : ℕ) (s : Session) → Counted k s → Counted k (complete_pending_io (begin_pending_io s))
undone-Counted k s v = record {
  counted = omega (arith, v.counted);
  recv_op = v.recv_op;
  send_op = v.send_op;
  once = v.once;
  settled = λ e. omega (arith, v.settled e);
}

pub begin_app_io-Inv : (k : ℕ) (s : Session) → Inv k s → Inv k (begin_app_io s)
unfolding begin_app_io
begin_app_io-Inv k s v = record {
  counts = record {
    counted = v.counts.counted;
    recv_op = v.counts.recv_op;
    send_op = v.counts.send_op;
    once = v.counts.once;
    settled = v.counts.settled;
  };
  waits = inr (inr (omega arith));
  unmanaged = v.unmanaged;
}
