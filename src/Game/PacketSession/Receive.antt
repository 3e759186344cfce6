-- ===== src/Game/PacketSession/Receive.antt =====
-- The loop of `OnRecv`: what one receive does with the bytes that it is handed.
use iouring_runtime.Prelude.{
  ℕ, zero, suc, ◌≤◌, ◌<◌, ◌≡◌, refl, sym, ap, ◌∙◌, subst, inl, inr, true, false, List, [], ◌∷◌,
  ◌++◌, append-nil, append_assoc, arith, length, drop, ltb, Bool-cases, length-append, length-drop,
  dec_le, some,
}
use iouring_runtime.Core.RecvBuffer
use iouring_runtime.Core.RecvBuffer.{RecvBuffer, default_size}
use iouring_runtime.Core.RecvBuffer.Contents.{is_empty_iff, compact_lem}
use iouring_runtime.Game.PacketSession.{
  Event, disconnect, Receiver, Completed, Step, next, leave, quit, read_le16, header_size,
  complete_buffered_packet, keep_rest, recv_in_place, recv_buffered, recv_step, recv_loop,
  after_loop, on_recv, append_to_recv_buffer,
}
use iouring_runtime.Game.PacketSession.Frames.{
  IsPartial, IsBad, IsWhole, front, read_le16-le, read_le16-append, waits, fails, Frames, partial,
  bad, whole,
}
use iouring_runtime.Game.PacketSession.Buffered.{
  Round, emitted, waiting, refused, complete_buffered_packet-Round,
}
use iouring_runtime.Game.PacketSession.TopUp.{
  Holds, append_to_recv_buffer_fits, validate_packet_size_good, validate_packet_size_bad,
}

-- What one round does; `all` is what was held with what was received.
data Stepped (all rest : List ℕ) (out : List Event) (s : Step) : Type 0 where
  goes_on :
      (r : Receiver) (more : List ℕ)
      → s ≡ next r more
      → IsWhole all
      → Holds [] (out ++ front all ∷ []) r
      → more ≡ drop (read_le16 all) all
      → length more < length rest
      → Stepped all rest out s
  stops : (r : Receiver) → s ≡ leave r → IsPartial all → Holds all out r → Stepped all rest out s
  gives_up :
      (r : Receiver)
      → s ≡ quit r
      → IsBad all
      → r.out ≡ out ++ disconnect ∷ []
      → r.is_open ≡ false
      → Stepped all rest out s

is_empty-nil :
    {out : List Event} {r : Receiver} → Holds [] out r → RecvBuffer.is_empty r.recv_buffer ≡ true
is_empty-nil h = (is_empty_iff h.valid).1 (ap length h.bytes)

is_empty-held :
    {bs : List ℕ} {out : List Event} {r : Receiver}
    → Holds bs out r
    → 0 < length bs
    → RecvBuffer.is_empty r.recv_buffer ≡ false
is_empty-held {r = r} h some_held = elim (Bool-cases (RecvBuffer.is_empty r.recv_buffer)) [
  | inl e ↦ absurd (omega (arith, (is_empty_iff h.valid).0 e, ap length h.bytes))
  | inr e ↦ e
]

held-of-is_empty :
    {bs : List ℕ} {out : List Event} {r : Receiver}
    → Holds bs out r
    → RecvBuffer.is_empty r.recv_buffer ≡ false
    → 0 < length bs
held-of-is_empty {bs = []} h e = absurd (ground (arith, is_empty-nil h))
held-of-is_empty {bs = x ∷ xs} h e = omega arith

-- A packet is longer than any front of it.
left-lt :
    (bs rest : List ℕ)
    → IsPartial bs
    → IsWhole (bs ++ rest)
    → length (drop (read_le16 (bs ++ rest)) (bs ++ rest)) < length rest
left-lt bs rest (inl low) w =
    omega (arith, length-drop (read_le16 (bs ++ rest)) (bs ++ rest), length-append bs rest)
left-lt bs rest (inr p) w = omega (
  arith,
  length-drop (read_le16 (bs ++ rest)) (bs ++ rest),
  length-append bs rest,
  read_le16-append bs rest p.1,
)

recv_buffered-Stepped :
    {bs : List ℕ} {out : List Event} {r : Receiver} (rest : List ℕ)
    → Holds bs out r
    → IsPartial bs
    → 0 < length bs
    → Stepped (bs ++ rest) rest out (recv_buffered r rest)
unfolding recv_buffered
recv_buffered-Stepped {bs} {out} {r} rest h part some_held =
    go (complete_buffered_packet-Round rest h part some_held)
  where
    c : Completed
    c = complete_buffered_packet r rest

    go : Round (bs ++ rest) out c → Stepped (bs ++ rest) rest out (recv_buffered r rest)
    go (emitted d w k e) =
        goes_on c.state c.rest (rw (d, is_empty-nil k)) w k e
          (subst (λ ys. length ys < length rest) (sym e) (left-lt bs rest part w))
    go (waiting d p k n) = stops c.state (rw (d, is_empty-held k n)) p k
    go (refused d b o x) = gives_up c.state (rw d) b o x

keep_rest-Stepped :
    {out : List Event} {r : Receiver} (rest : List ℕ)
    → Holds [] out r
    → IsPartial rest
    → Stepped rest rest out (keep_rest r rest)
unfolding keep_rest
keep_rest-Stepped {out} {r} rest h part =
    let (ok, k) = append_to_recv_buffer_fits rest h (ground (arith, read_le16-le rest)) in
    stops (append_to_recv_buffer r rest).1 (rw ok) part k

-- The fast path, with no byte in the buffer.
recv_in_place-Stepped :
    {out : List Event} {r : Receiver} (rest : List ℕ)
    → Holds [] out r
    → 0 < length rest
    → Stepped rest rest out (recv_in_place r rest)
unfolding recv_in_place
recv_in_place-Stepped {out} {r} rest h some_left =
    elim (Bool-cases (ltb (length rest) header_size)) [
      | inl short ↦ rw short (keep_rest-Stepped rest h (inl (ground arith)))
      | inr long ↦ rw long (elim (dec_le header_size (read_le16 rest)) [
        | yes good ↦
            rw (validate_packet_size_good r (read_le16 rest) good (read_le16-le rest))
              (elim (Bool-cases (ltb (length rest) (read_le16 rest))) [
                | inl part ↦
                    rw part (keep_rest-Stepped rest h (inr (good, ground arith, ground arith)))
                | inr all ↦ rw all (
                    goes_on _ _ refl (good, ground arith)
                      (record {
                        valid = h.valid;
                        cap = h.cap;
                        bytes = h.bytes;
                        called = ap (λ o. o ++ front rest ∷ []) h.called;
                        open_still = h.open_still;
                      })
                      refl (ground (arith, length-drop (read_le16 rest) rest)))
              ])
        | no low ↦
            rw (validate_packet_size_bad r (read_le16 rest) (omega arith))
              (gives_up _ refl (ground arith) (ap (λ o. o ++ disconnect ∷ []) h.called) refl)
      ])
    ]

recv_step-Stepped :
    {bs : List ℕ} {out : List Event} {r : Receiver} (rest : List ℕ)
    → Holds bs out r
    → IsPartial bs
    → 0 < length rest
    → Stepped (bs ++ rest) rest out (recv_step r rest)
unfolding recv_step
recv_step-Stepped {bs = []} {r = r} rest h part n =
    rw (is_empty-nil h) (recv_in_place-Stepped rest h n)
recv_step-Stepped {bs = x ∷ xs} {r = r} rest h part n =
    rw (is_empty-held h (omega arith)) (recv_buffered-Stepped rest h part (omega arith))

-- How the loop ends, from a session that held a front of a packet.
pub data Ended (all : List ℕ) (out : List Event) (s : Step) : Type 0 where
  caught_up :
      {ps : List Event} {w : List ℕ} (r : Receiver)
      → s ≡ leave r
      → Frames all ps (waits w)
      → IsPartial w
      → Holds w (out ++ ps) r
      → Ended all out s
  closed :
      {ps : List Event} (r : Receiver)
      → s ≡ quit r
      → Frames all ps fails
      → r.out ≡ out ++ ps
      → r.is_open ≡ false
      → Ended all out s

Ended-whole :
    {all more : List ℕ} {out : List Event} {s : Step}
    → IsWhole all
    → more ≡ drop (read_le16 all) all
    → Ended more (out ++ front all ∷ []) s
    → Ended all out s
Ended-whole {all} {out = out} w e (caught_up {ps = ps} {w = w'} r s f p h) =
    caught_up r s (whole w e f refl) p
      (subst (λ o. Holds w' o r) (append_assoc out (front all ∷ []) ps) h)
Ended-whole {all} {out = out} w e (closed {ps = ps} r s f o x) =
    closed r s (whole w e f refl) (o ∙ append_assoc out (front all ∷ []) ps) x

caught_up_now :
    {bs : List ℕ} {out : List Event} {r : Receiver}
    → Holds bs out r
    → IsPartial bs
    → Ended bs out (leave r)
caught_up_now {bs} {out} {r} h p =
    caught_up r refl (partial p refl refl) p (subst (λ o. Holds bs o r) (sym (append-nil out)) h)

run_next :
    (fuel x : ℕ) (xs more : List ℕ) (r r' : Receiver)
    → recv_step r (x ∷ xs) ≡ next r' more
    → recv_loop (suc fuel) r (x ∷ xs) ≡ recv_loop fuel r' more
unfolding recv_loop
run_next fuel x xs more r r' e = rw (e, recv_loop)

run_leave :
    (fuel x : ℕ) (xs : List ℕ) (r r' : Receiver)
    → recv_step r (x ∷ xs) ≡ leave r'
    → recv_loop (suc fuel) r (x ∷ xs) ≡ some (leave r')
unfolding recv_loop
run_leave fuel x xs r r' e = rw (e, recv_loop)

run_quit :
    (fuel x : ℕ) (xs : List ℕ) (r r' : Receiver)
    → recv_step r (x ∷ xs) ≡ quit r'
    → recv_loop (suc fuel) r (x ∷ xs) ≡ some (quit r')
unfolding recv_loop
run_quit fuel x xs r r' e = rw (e, recv_loop)

-- With a byte of fuel for each byte of data the loop ends.
pub recv_loop-Ended :
    (fuel : ℕ) {bs : List ℕ} {out : List Event} {r : Receiver} (rest : List ℕ)
    → length rest ≤ fuel
    → Holds bs out r
    → IsPartial bs
    → (s : Step) × (recv_loop fuel r rest ≡ some s) × Ended (bs ++ rest) out s
unfolding recv_loop
recv_loop-Ended fuel {bs} {out} {r} [] n h p =
    (leave r, refl, subst (λ ys. Ended ys out (leave r)) (sym (append-nil bs)) (caught_up_now h p))
recv_loop-Ended zero (x ∷ xs) n h p = absurd (omega arith)
recv_loop-Ended (suc fuel) {bs} {out} {r} (x ∷ xs) n h p =
    elim (recv_step-Stepped (x ∷ xs) h p (omega arith)) [
      | goes_on r' more s w k e lt ↦
          let (end, run, d) = recv_loop-Ended fuel more (omega arith) k (inl (omega arith)) in
          (end, run_next fuel x xs more r r' s ∙ run, Ended-whole w e d)
      | stops r' s q k ↦ (leave r', run_leave fuel x xs r r' s, caught_up_now k q)
      | gives_up r' s b o e ↦
          (quit r', run_quit fuel x xs r r' s, closed r' refl (bad b refl refl) o e)
    ]

-- What a receive leaves: the packets of the bytes held and received, then a front or a bad size.
pub data Received (all : List ℕ) (out : List Event) (r : Receiver) : Type 0 where
  still_open :
      {ps : List Event} {w : List ℕ}
      → Frames all ps (waits w)
      → IsPartial w
      → Holds w (out ++ ps) r
      → Received all out r
  shut :
      {ps : List Event}
      → Frames all ps fails
      → r.out ≡ out ++ ps
      → r.is_open ≡ false
      → Received all out r

after_loop-Received :
    {all : List ℕ} {out : List Event} (s : Step) → Ended all out s → Received all out (after_loop s)
unfolding after_loop
after_loop-Received s (caught_up r e f p h) =
    rw e (elim (Bool-cases (RecvBuffer.should_compact r.recv_buffer)) [
      | inl full ↦
          let (valid, same, _, _, cap) = compact_lem r.recv_buffer h.valid in
          rw full (
            still_open f p (record {
              valid = valid;
              cap = cap ∙ h.cap;
              bytes = same ∙ h.bytes;
              called = h.called;
              open_still = h.open_still;
            }))
      | inr roomy ↦ rw roomy (still_open f p h)
    ])
after_loop-Received s (closed r e f o x) = rw e (shut f o x)

-- A receive ends, and hands on exactly the packets of what was held with what came.
pub on_recv-Received :
    {bs : List ℕ} {out : List Event} {r : Receiver} (bytes : List ℕ)
    → Holds bs out r
    → IsPartial bs
    → (r' : Receiver) × (on_recv r bytes ≡ some r') × Received (bs ++ bytes) out r'
unfolding on_recv
on_recv-Received {r = r} bytes h p =
    let (s, run, d) = recv_loop-Ended (length bytes) bytes (omega arith) h p in
    (after_loop s, rw (run, on_recv), after_loop-Received s d)
