-- ===== src/Core/SendQueue/Invariant.antt =====
-- What every method of the send queue keeps.
use iouring_runtime.Prelude.{
  ℕ, ◌+◌, ◌-◌, ◌≤◌, ◌^◌, ◌*◌, ◌<◌, ◌≡◌, refl, sym, ap, ◌∙◌, true, false, List, [], ◌∷◌, ◌++◌, none,
  some, arith, length, take, drop, length-append, length-drop, take-append-drop, drop_all, u32, leb,
  ◌==◌, ◌||◌, Bool-cases, inl, inr, ◌⊎◌, sub64,
}
use iouring_runtime.Core.SendQueue.{
  SendBufferRef, size_of, SendQueue, init, push, less_sizes, drain_all, drain_some, drain,
  mark_sent, is_nil,
}

-- all bytes of a list of buffers
abbrev pub total : List SendBufferRef → ℕ
total [] = 0
total (b ∷ bs) = size_of b + total bs

pub total-append : (xs ys : List SendBufferRef) → total (xs ++ ys) ≡ total xs + total ys
total-append [] ys = omega arith
total-append (x ∷ xs) ys = omega (arith, total-append xs ys)

pub record IsValid (q : SendQueue) : Type 0 where
  -- `max_pending_` is a `uint32_t`.
  pub small : q.max_pending < 2 ^ 32
  -- `pending_bytes_` is the number of bytes that wait: a `size_t` does not wrap.
  pub bytes : q.pending_bytes ≡ total q.pending
  pub bounded : length q.pending ≤ q.max_pending
  pub depth_seen : length q.pending ≤ q.peak_depth
  pub bytes_seen : q.pending_bytes ≤ q.peak_pending_bytes
  -- No wakeup is lost: while a buffer waits, a send cycle is registered.
  pub waits : (q.registered ≡ true) ⊎ (q.pending ≡ [])

total-le : (bs : List SendBufferRef) → total bs ≤ length bs * (2 ^ 32 - 1)
total-le [] = omega arith
total-le (none ∷ bs) = omega (arith, total-le bs)
total-le (some b ∷ bs) = omega (arith, total-le bs)

pub init-IsValid : (n : ℕ) → n < 2 ^ 32 → IsValid (init n)
unfolding init
init-IsValid n h = record {
  small = h;
  bytes = refl;
  bounded = omega arith;
  depth_seen = omega arith;
  bytes_seen = omega arith;
  waits = inr refl;
}

pub is_nil-eq : (bs : List SendBufferRef) → is_nil bs ≡ true → bs ≡ []
is_nil-eq [] e = refl
is_nil-eq (b ∷ bs) e = cc

pub push-IsValid : (q : SendQueue) (buf : SendBufferRef) → IsValid q → IsValid (push q buf).1
unfolding push
push-IsValid q buf v = elim (Bool-cases (leb q.max_pending (length q.pending))) [
  | inl full ↦ rw full (record {
    small = v.small;
    bytes = v.bytes;
    bounded = v.bounded;
    depth_seen = v.depth_seen;
    bytes_seen = v.bytes_seen;
    waits = v.waits;
  })
  | inr room ↦ rw room (record {
    small = v.small;
    bytes = omega (arith, v.bytes, total-append q.pending (buf ∷ []), fits room);
    bounded = longer room;
    depth_seen = ground (arith, length-append q.pending (buf ∷ []));
    bytes_seen = ground arith;
    waits = inl refl;
  })
]
  where
    longer :
        leb q.max_pending (length q.pending) ≡ false
        → length (q.pending ++ buf ∷ []) ≤ q.max_pending
    longer room = ground (arith, length-append q.pending (buf ∷ []))

    fits : leb q.max_pending (length q.pending) ≡ false → total (q.pending ++ buf ∷ []) < 2 ^ 64
    fits room = omega (arith, longer room, total-le (q.pending ++ buf ∷ []), v.small)

less_sizes-total :
    (bytes : ℕ) (out rest : List SendBufferRef)
    → bytes ≡ total out + total rest
    → bytes < 2 ^ 64
    → less_sizes bytes out ≡ total rest
unfolding less_sizes
less_sizes-total bytes [] rest h s = omega arith
less_sizes-total bytes (none ∷ out) rest h s =
    less_sizes-total (sub64 bytes 0) out rest (omega arith) (omega arith)
less_sizes-total bytes (some b ∷ out) rest h s =
    less_sizes-total (sub64 bytes (u32 (length b))) out rest (omega arith) (omega arith)

-- A cut of the waiting buffers.
total-take-drop :
    (n : ℕ) (bs : List SendBufferRef) → total bs ≡ total (take n bs) + total (drop n bs)
total-take-drop n bs = ap total (sym (take-append-drop n bs)) ∙ total-append (take n bs) (drop n bs)

drain_all-IsValid : (q : SendQueue) → IsValid q → IsValid (drain_all q).1
unfolding drain_all
drain_all-IsValid q v = record {
  small = v.small;
  bytes = refl;
  bounded = omega arith;
  depth_seen = omega arith;
  bytes_seen = omega arith;
  waits = inr refl;
}

drop-nil : (n : ℕ) (bs : List SendBufferRef) → bs ≡ [] → drop n bs ≡ []
drop-nil n bs e = rw e (drop_all n [] (omega arith))

drain_some-IsValid : (q : SendQueue) (n : ℕ) → IsValid q → IsValid (drain_some q n).1
unfolding drain_some
drain_some-IsValid q n v = record {
  small = v.small;
  bytes = left;
  bounded = omega (arith, v.bounded, length-drop n q.pending);
  depth_seen = omega (arith, v.depth_seen, length-drop n q.pending);
  bytes_seen = omega (arith, left, v.bytes_seen, v.bytes, total-take-drop n q.pending);
  waits = elim v.waits [ inl r ↦ inl r | inr e ↦ inr (drop-nil n q.pending e) ];
}
  where
    left : less_sizes q.pending_bytes (take n q.pending) ≡ total (drop n q.pending)
    left =
        less_sizes-total q.pending_bytes (take n q.pending) (drop n q.pending)
          (v.bytes ∙ total-take-drop n q.pending)
          (omega (arith, v.bytes, v.bounded, v.small, total-le q.pending))

pub drain-IsValid : (q : SendQueue) (n : ℕ) → IsValid q → IsValid (drain q n).1
unfolding drain
drain-IsValid q n v = elim (Bool-cases ((n == 0) || leb (length q.pending) n)) [
  | inl every ↦ rw every (drain_all-IsValid q v)
  | inr part ↦ rw part (drain_some-IsValid q n v)
]

pub mark_sent-IsValid : (q : SendQueue) → IsValid q → IsValid (mark_sent q)
unfolding mark_sent
mark_sent-IsValid q v = elim (Bool-cases (is_nil q.pending)) [
  | inl nothing ↦ rw nothing (record {
    small = v.small;
    bytes = v.bytes;
    bounded = v.bounded;
    depth_seen = v.depth_seen;
    bytes_seen = v.bytes_seen;
    waits = inr (is_nil-eq q.pending nothing);
  })
  | inr some_left ↦ rw some_left v
]
