-- ===== src/Game/PacketSession/Chunks.antt =====
-- A whole connection: receives of any lengths.
use mathlib.Core.List.{flatten}
use iouring_runtime.Prelude.{
  ℕ, ◌≡◌, refl, sym, ◌∙◌, subst, true, false, List, [], ◌∷◌, ◌++◌, append-nil, append_assoc, arith,
  inl, some,
}
use iouring_runtime.Core.RecvBuffer.{default_size}
use iouring_runtime.Core.RecvBuffer.Contents.{init-empty}
use iouring_runtime.Core.RecvBuffer.Compaction.{init-IsValid}
use iouring_runtime.Game.PacketSession.{Event, Receiver, on_recv, deliver, deliver_all, fresh}
use iouring_runtime.Game.PacketSession.Frames.{
  IsPartial, waits, fails, Frames, partial, Frames-append, Frames_fails-append,
}
use iouring_runtime.Game.PacketSession.TopUp.{Holds}
use iouring_runtime.Game.PacketSession.Receive.{Received, still_open, shut, on_recv-Received}

fresh-Holds : Holds [] [] fresh
unfolding fresh
fresh-Holds = record {
  valid = init-IsValid default_size (omega arith);
  cap = (init-empty default_size).0;
  bytes = (init-empty default_size).1;
  called = refl;
  open_still = refl;
}

deliver-shut : (c : List ℕ) (r : Receiver) → r.is_open ≡ false → deliver r c ≡ some r
unfolding deliver
deliver-shut c r e = ground arith

deliver-open : (c : List ℕ) (r : Receiver) → r.is_open ≡ true → deliver r c ≡ on_recv r c
unfolding deliver
deliver-open c r e = ground arith

deliver_all_next :
    (c : List ℕ) (cs : List (List ℕ)) (r : Receiver) {r' : Receiver}
    → deliver r c ≡ some r'
    → deliver_all r (c ∷ cs) ≡ deliver_all r' cs
unfolding deliver_all
deliver_all_next c cs r e = rw (e, deliver_all)

deliver_all-shut :
    (cs : List (List ℕ)) (r : Receiver) → r.is_open ≡ false → deliver_all r cs ≡ some r
unfolding deliver_all
deliver_all-shut [] r e = refl
deliver_all-shut (c ∷ cs) r e =
    deliver_all_next c cs r (deliver-shut c r e) ∙ deliver_all-shut cs r e

-- More bytes for a session that holds a front of a packet.
Received-append :
    {all w : List ℕ} {out ps : List Event} {r : Receiver} (more : List ℕ)
    → Frames all ps (waits w)
    → Received (w ++ more) (out ++ ps) r
    → Received (all ++ more) out r
Received-append {out = out} {ps = ps} {r = r} more f (still_open {ps = qs} {w = w'} g p h) =
    still_open (Frames-append more f refl g) p
      (subst (λ o. Holds w' o r) (append_assoc out ps qs) h)
Received-append {out = out} {ps = ps} more f (shut {ps = qs} g o x) =
    shut (Frames-append more f refl g) (o ∙ append_assoc out ps qs) x

Received-shut-append :
    {all : List ℕ} {out ps : List Event} {r : Receiver} (more : List ℕ)
    → Frames all ps fails
    → r.out ≡ out ++ ps
    → r.is_open ≡ false
    → Received (all ++ more) out r
Received-shut-append more f o x = shut (Frames_fails-append more f refl) o x

deliver_all-Received :
    (cs : List (List ℕ)) {bs : List ℕ} {out : List Event} {r : Receiver}
    → Holds bs out r
    → IsPartial bs
    → (r' : Receiver) × (deliver_all r cs ≡ some r') × Received (bs ++ flatten cs) out r'
unfolding deliver_all flatten
deliver_all-Received [] {bs} {out} {r} h p = (
  r,
  refl,
  subst (λ ys. Received ys out r) (sym (append-nil bs))
      (still_open (partial p refl refl) p (subst (λ o. Holds bs o r) (sym (append-nil out)) h)),
)
deliver_all-Received (c ∷ cs) {bs} {out} {r} h p =
    let (r', run, d) = on_recv-Received c h p in
    let step : deliver_all r (c ∷ cs) ≡ deliver_all r' cs =
      deliver_all_next c cs r (deliver-open c r h.open_still ∙ run) in
    let same : (bs ++ c) ++ flatten cs ≡ bs ++ flatten (c ∷ cs) = append_assoc bs c (flatten cs) in
    elim d [
      | still_open f q k ↦
          let (end, rest, e) = deliver_all-Received cs k q in
          (
            end,
            step ∙ rest,
            subst (λ ys. Received ys out end) same (Received-append (flatten cs) f e),
          )
      | shut f o x ↦ (
        r',
        step ∙ deliver_all-shut cs r' x,
        subst (λ ys. Received ys out r') same (Received-shut-append (flatten cs) f o x),
      )
    ]

-- However a new session's byte stream is cut into receives, every receive ends. If the stream is packets
-- and a front of a packet, the calls of `OnPacket` are those packets in order, and the session stays open
-- and holds that front; if it comes to a bad size, the calls are the packets before it and a disconnect,
-- and the session is closed.
pub deliver_all-fresh :
    (cs : List (List ℕ))
    → (r : Receiver) × (deliver_all fresh cs ≡ some r) × Received (flatten cs) [] r
deliver_all-fresh cs = deliver_all-Received cs fresh-Holds (inl (omega arith))
