-- ===== src/Core/SendQueue/Order.antt =====
-- Histories of the send queue: what senders and the owner of the socket see of it.
use iouring_runtime.Prelude.{
  ℕ, ◌+◌, ◌≤◌, ◌≡◌, refl, sym, ap, ◌∙◌, Bool, true, false, List, [], ◌∷◌, ◌++◌, append-nil,
  append_assoc, arith, length, take-append-drop, leb, ◌==◌, ◌||◌, Bool-cases, inl, inr,
  if◌then◌else◌,
}
use iouring_runtime.Core.SendQueue.{
  SendBufferRef, SendQueue, push, drain_all, drain_some, drain, drain_into, mark_sent, is_nil,
  PushResult,
}
use iouring_runtime.Core.SendQueue.Invariant.{
  IsValid, push-IsValid, drain-IsValid, mark_sent-IsValid, total, is_nil-eq,
}

pub data Op : Type 0 where
  pushes : SendBufferRef → Op
  drains : ℕ → Op
  -- with what the vector of the caller holds before
  drains_into : List SendBufferRef → ℕ → Op
  marks_sent : Op

-- What a history has let in, what it has handed to the socket, and how often it asked for a send.
pub record Log : Type 0 where
  pub accepted : List SendBufferRef
  pub drained : List SendBufferRef
  pub registers : ℕ
  pub queue : SendQueue

abbrev flag : Bool → ℕ
flag true = 1
flag false = 0

abbrev kept : PushResult → SendBufferRef → List SendBufferRef
kept r b = if r.overflowed then [] else b ∷ []

unfoldable pub run : SendQueue → List Op → Log
run q [] = record { accepted = []; drained = []; registers = 0; queue = q }
run q (pushes b ∷ ops) =
    let (r, q') = push q b in
    let l = run q' ops in
    record l { accepted = kept r b ++ l.accepted; registers = flag r.needs_register + l.registers }
run q (drains n ∷ ops) =
    let (out, q') = drain q n in let l = run q' ops in record l { drained = out ++ l.drained }
run q (drains_into old n ∷ ops) =
    let (_, out, q') = drain_into q old n in
    let l = run q' ops in record l { drained = out ++ l.drained }
run q (marks_sent ∷ ops) = run (mark_sent q) ops

-- how often a history marks a cycle as sent
abbrev pub marks : List Op → ℕ
marks [] = 0
marks (marks_sent ∷ ops) = marks ops + 1
marks (pushes b ∷ ops) = marks ops
marks (drains n ∷ ops) = marks ops
marks (drains_into old n ∷ ops) = marks ops

drain_all-nil : (q : SendQueue) → IsValid q → q.pending ≡ [] → drain_all q ≡ ([], q)
unfolding drain_all
drain_all-nil q v e = let none_left : q.pending_bytes ≡ 0 = v.bytes ∙ ap total e in ground arith

-- With nothing to drain, nothing changes.
drain-nil : (q : SendQueue) (n : ℕ) → IsValid q → q.pending ≡ [] → drain q n ≡ ([], q)
unfolding drain
drain-nil q n v e = rw all (drain_all-nil q v e)
  where
    all : ((n == 0) || leb (length q.pending) n) ≡ true
    all = ground (arith, ap length e)

-- On a valid queue, draining into the caller's storage gives the buffers and the queue that `Drain`
-- gives, and the number of the buffers, whatever the storage held before.
drain_into-drain :
    (q : SendQueue) (old : List SendBufferRef) (n : ℕ)
    → IsValid q
    → let (out, q') = drain q n in drain_into q old n ≡ (length out, out, q')
unfolding drain_into drain drain_all drain_some
drain_into-drain q old n v = elim (Bool-cases (is_nil q.pending)) [
  | inl nothing ↦ rw (nothing, drain-nil q n v (is_nil-eq q.pending nothing))
  | inr waiting ↦ elim (Bool-cases ((n == 0) || leb (length q.pending) n)) [
    | inl every ↦ rw (waiting, every) refl
    | inr part ↦ rw (waiting, part) refl
  ]
]

pending-push :
    (q : SendQueue) (b : SendBufferRef) → (push q b).1.pending ≡ q.pending ++ kept (push q b).0 b
unfolding push
pending-push q b = elim (Bool-cases (leb q.max_pending (length q.pending))) [
  | inl full ↦ rw full (sym (append-nil q.pending))
  | inr room ↦ rw room refl
]

pending-drain : (q : SendQueue) (n : ℕ) → (drain q n).0 ++ (drain q n).1.pending ≡ q.pending
unfolding drain
pending-drain q n = elim (Bool-cases ((n == 0) || leb (length q.pending) n)) [
  | inl every ↦ rw every (append-nil q.pending)
  | inr part ↦ rw part (take-append-drop n q.pending)
]

pending-mark_sent : (q : SendQueue) → (mark_sent q).pending ≡ q.pending
unfolding mark_sent
pending-mark_sent q = ground arith

run-drain :
    (q : SendQueue) (n : ℕ) (ops : List Op)
    → (run (drain q n).1 ops).drained ++ (run (drain q n).1 ops).queue.pending
      ≡ (drain q n).1.pending ++ (run (drain q n).1 ops).accepted
    → ((drain q n).0 ++ (run (drain q n).1 ops).drained) ++ (run (drain q n).1 ops).queue.pending
      ≡ q.pending ++ (run (drain q n).1 ops).accepted
run-drain q n ops ih =
    append_assoc (drain q n).0 (run (drain q n).1 ops).drained (run (drain q n).1 ops).queue.pending
    ∙ ap (λ ys. (drain q n).0 ++ ys) ih
    ∙ sym (append_assoc (drain q n).0 (drain q n).1.pending (run (drain q n).1 ops).accepted)
    ∙ ap (λ ys. ys ++ (run (drain q n).1 ops).accepted) (pending-drain q n)

-- Over any history of a valid queue, the buffers drained, with those that still wait, are the buffers
-- that waited at first and those accepted since, in the order in which they were pushed.
pub run_order :
    (ops : List Op) (q : SendQueue)
    → IsValid q
    → (run q ops).drained ++ (run q ops).queue.pending ≡ q.pending ++ (run q ops).accepted
unfolding run
run_order [] q v = sym (append-nil q.pending)
run_order (pushes b ∷ ops) q v =
    run_order ops (push q b).1 (push-IsValid q b v)
    ∙ ap (λ ys. ys ++ (run (push q b).1 ops).accepted) (pending-push q b)
    ∙ append_assoc q.pending (kept (push q b).0 b) (run (push q b).1 ops).accepted
run_order (drains n ∷ ops) q v =
    run-drain q n ops (run_order ops (drain q n).1 (drain-IsValid q n v))
run_order (drains_into old n ∷ ops) q v =
    rw (drain_into-drain q old n v)
      (run-drain q n ops (run_order ops (drain q n).1 (drain-IsValid q n v)))
run_order (marks_sent ∷ ops) q v =
    run_order ops (mark_sent q) (mark_sent-IsValid q v)
    ∙ ap (λ ys. ys ++ (run (mark_sent q) ops).accepted) (pending-mark_sent q)

-- Every history of a valid queue leaves a valid queue.
pub run-IsValid : (ops : List Op) (q : SendQueue) → IsValid q → IsValid (run q ops).queue
unfolding run
run-IsValid [] q v = v
run-IsValid (pushes b ∷ ops) q v = run-IsValid ops (push q b).1 (push-IsValid q b v)
run-IsValid (drains n ∷ ops) q v = run-IsValid ops (drain q n).1 (drain-IsValid q n v)
run-IsValid (drains_into old n ∷ ops) q v =
    rw (drain_into-drain q old n v) (run-IsValid ops (drain q n).1 (drain-IsValid q n v))
run-IsValid (marks_sent ∷ ops) q v = run-IsValid ops (mark_sent q) (mark_sent-IsValid q v)

registers-push :
    (q : SendQueue) (b : SendBufferRef)
    → flag (push q b).0.needs_register + flag q.registered ≤ flag (push q b).1.registered
unfolding push
registers-push q b = ground arith

registered-drain : (q : SendQueue) (n : ℕ) → (drain q n).1.registered ≡ q.registered
unfolding drain drain_all drain_some
registered-drain q n = ground arith

registered-mark_sent : (q : SendQueue) → flag q.registered ≤ flag (mark_sent q).registered + 1
unfolding mark_sent
registered-mark_sent q = ground arith

-- Over any history of a valid queue, a send is asked for at most once more than cycles were marked as
-- sent, and one time less if a cycle was under way at first.
pub run_registers :
    (ops : List Op) (q : SendQueue)
    → IsValid q
    → (run q ops).registers + flag q.registered ≤ marks ops + 1
unfolding run
run_registers [] q v = ground arith
run_registers (pushes b ∷ ops) q v =
    omega (arith, run_registers ops (push q b).1 (push-IsValid q b v), registers-push q b)
run_registers (drains n ∷ ops) q v =
    omega
      (arith, run_registers ops (drain q n).1 (drain-IsValid q n v), ap flag (registered-drain q n))
run_registers (drains_into old n ∷ ops) q v = rw (drain_into-drain q old n v) (
    omega (
      arith,
      run_registers ops (drain q n).1 (drain-IsValid q n v),
      ap flag (registered-drain q n),
    ))
run_registers (marks_sent ∷ ops) q v =
    omega (arith, run_registers ops (mark_sent q) (mark_sent-IsValid q v), registered-mark_sent q)
