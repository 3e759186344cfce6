-- ===== src/Game/PacketSession/Buffered.antt =====
-- The slow path: a packet put together in the reassembly buffer.
use iouring_runtime.Prelude.{
  ℕ, ◌+◌, ◌-◌, ◌≤◌, ◌<◌, min, ◌≡◌, refl, sym, ap, ◌∙◌, subst, inl, inr, true, false, List, [], ◌∷◌,
  ◌++◌, append-nil, append_assoc, arith, length, take, drop, ltb, if◌then◌else◌, Bool-cases,
  length-append, length-take, take-append-drop, drop_all, drop-append_ge, ap₂, dec_le,
}
use iouring_runtime.Core.RecvBuffer
use iouring_runtime.Core.RecvBuffer.{RecvBuffer, default_size}
use iouring_runtime.Core.RecvBuffer.Contents.{on_read_lem}
use iouring_runtime.Game.PacketSession.{
  Event, packet, disconnect, Receiver, Completed, read_le16, header_size, top_up, finish_packet,
  complete_sized, complete_buffered_packet,
}
use iouring_runtime.Game.PacketSession.Frames.{
  IsPartial, IsBad, IsWhole, front, read_le16-le, read_le16-append, front-append,
}
use iouring_runtime.Game.PacketSession.TopUp.{
  Holds, readable-Holds, validate_packet_size_good, validate_packet_size_bad, ToppedUp,
  top_up-ToppedUp,
}

-- A round that has completed its packet, or has taken all bytes without completing it, or has met a
-- bad size. `all` is what was held, with what the round was given.
pub data Round (all : List ℕ) (out : List Event) (c : Completed) : Type 0 where
  emitted :
      c.done ≡ true
      → IsWhole all
      → Holds [] (out ++ (front all ∷ [])) c.state
      → c.rest ≡ drop (read_le16 all) all
      → Round all out c
  waiting : c.done ≡ true → IsPartial all → Holds all out c.state → 0 < length all → Round all out c
  refused :
      c.done ≡ false
      → IsBad all
      → c.state.out ≡ out ++ (disconnect ∷ [])
      → c.state.is_open ≡ false
      → Round all out c

-- `all` cut in two: the first part has `size` bytes, or there is no second part.
record Cut (size : ℕ) (all bs rest : List ℕ) : Type 0 where
  joined : all ≡ bs ++ rest
  bound : length bs ≤ size
  short : length bs < size → rest ≡ []

Cut-top_up :
    (size : ℕ) (bs rest : List ℕ)
    → length bs ≤ size
    → Cut size (bs ++ rest) (bs ++ take (size - length bs) rest) (drop (size - length bs) rest)
Cut-top_up size bs rest h = record {
  joined =
      ap (λ ys. bs ++ ys) (sym (take-append-drop n rest))
      ∙ sym (append_assoc bs (take n rest) (drop n rest));
  bound = omega (arith, len);
  short = λ lt. drop_all n rest (omega (arith, len));
}
  where
    n : ℕ
    n = size - length bs

    len : length (bs ++ take n rest) ≡ length bs + min n (length rest)
    len = length-append bs (take n rest) ∙ ap (λ (k : ℕ). length bs + k) (length-take n rest)

-- The packet read from the buffer, whose size is the one that its header states.
front-eq :
    (size : ℕ) (bs : List ℕ) {all : List ℕ} (rest : List ℕ)
    → size ≡ read_le16 bs
    → all ≡ bs ++ rest
    → header_size ≤ size
    → size ≤ length bs
    → packet (read_le16 (drop 2 bs)) (take (size - header_size) (drop header_size bs)) ≡ front all
front-eq size bs {all} rest e j lo full =
    ap (λ k. packet (read_le16 (drop 2 bs)) (take (k - header_size) (drop header_size bs))) e
    ∙ sym (front-append bs rest (omega arith))
    ∙ ap front (sym j)

drop_none : (n : ℕ) (xs : List ℕ) → n ≡ 0 → drop n xs ≡ xs
drop_none n xs e = rw e

finish_packet-Round :
    {bs : List ℕ} {out : List Event} {r : Receiver} (size : ℕ) (rest all : List ℕ)
    → Holds bs out r
    → size ≡ read_le16 bs
    → header_size ≤ size
    → header_size ≤ length bs
    → Cut size all bs rest
    → Round all out (finish_packet size r rest)
unfolding finish_packet
finish_packet-Round {bs} {out} {r} size rest all h e lo hd cut =
    elim (Bool-cases (ltb (RecvBuffer.readable_size r.recv_buffer) size)) [
      | inl short ↦
          let less : length bs < size = ground (arith, readable-Holds h) in
          let same : all ≡ bs = cut.joined ∙ ap (λ ys. bs ++ ys) (cut.short less) ∙ append-nil bs in
          rw (short, same) (waiting refl (inr (omega arith, hd, omega arith)) h (omega arith))
      | inr full ↦
          let enough : size ≤ length bs = ground (arith, readable-Holds h) in
          let (valid, left, cap) =
            on_read_lem r.recv_buffer size h.valid (omega (arith, ap length h.bytes)) in
          let all_size : read_le16 all ≡ size =
            ap read_le16 cut.joined ∙ read_le16-append bs rest hd ∙ sym e in
          rw full (
            emitted refl (omega (arith, all_size, ap length cut.joined, length-append bs rest))
              (record {
                valid = valid;
                cap = cap ∙ h.cap;
                bytes = left ∙ ap (drop size) h.bytes ∙ drop_all size bs cut.bound;
                called =
                    ap₂
                      (λ o ys.
                        o
                        ++ packet (read_le16 (drop 2 ys))
                            (take (size - header_size) (drop header_size ys))
                          ∷ [])
                      h.called h.bytes
                    ∙ ap (λ ev. out ++ ev ∷ []) (front-eq size bs rest e cut.joined lo enough);
                open_still = h.open_still;
              })
              (rw (all_size, cut.joined)
                (sym (
                  drop-append_ge size bs rest cut.bound
                  ∙ drop_none (size - length bs) rest (omega arith)))))
    ]

complete_sized-Round :
    {bs : List ℕ} {out : List Event} {r : Receiver} (size : ℕ) (rest : List ℕ)
    → Holds bs out r
    → size ≡ read_le16 bs
    → header_size ≤ length bs
    → (header_size ≤ size → length bs ≤ size)
    → Round (bs ++ rest) out (complete_sized size r rest)
unfolding complete_sized
complete_sized-Round {bs} {out} {r} size rest h e hd fits = elim (dec_le header_size size) [
  | yes good ↦
      let t = top_up-ToppedUp size rest h (fits good) (omega (arith, read_le16-le bs)) in
      rw (validate_packet_size_good r size good (omega (arith, read_le16-le bs)), t.ok, t.after)
        (finish_packet-Round size _ (bs ++ rest) t.holds (e ∙ sym (read_le16-append bs _ hd)) good
          (omega (arith, length-append bs (take (size - length bs) rest)))
          (Cut-top_up size bs rest (fits good)))
  | no low ↦ rw (validate_packet_size_bad r size (omega arith)) (
      refused refl (omega (arith, length-append bs rest, read_le16-append bs rest hd))
        (ap (λ o. o ++ disconnect ∷ []) h.called) refl)
]

-- A header that is not whole is topped up first.
short_header-Round :
    {bs : List ℕ} {out : List Event} {r : Receiver} (rest : List ℕ)
    → Holds bs out r
    → 0 < length bs
    → length bs < header_size
    → let c = top_up r header_size rest in
      Round (bs ++ rest) out (
        if c.done
        then if ltb (RecvBuffer.readable_size c.state.recv_buffer) header_size
          then c
          else complete_sized
              (read_le16 (RecvBuffer.read_region c.state.recv_buffer))
              c.state
              c.rest
        else c)
short_header-Round {bs} {out} {r} rest h some_held low =
    elim (Bool-cases (ltb (RecvBuffer.readable_size c.state.recv_buffer) header_size)) [
      | inl short ↦
          let less : length held < header_size = ground (arith, readable-Holds t.holds) in
          let same : held ≡ bs ++ rest =
            sym (cut.joined ∙ ap (λ ys. held ++ ys) (cut.short less) ∙ append-nil held) in
          rw (t.ok, short)
            (waiting refl (inl (omega (arith, ap length same)))
              (subst (λ ys. Holds ys out c.state) same t.holds)
              (omega (arith, length-append bs rest)))
      | inr full ↦
          let enough : header_size ≤ length held = ground (arith, readable-Holds t.holds) in
          rw (t.ok, full)
            (subst
              (λ ys. Round ys out (
                complete_sized (read_le16 (RecvBuffer.read_region c.state.recv_buffer)) c.state
                  c.rest))
              (ap (λ ys. held ++ ys) t.after ∙ sym cut.joined)
              (complete_sized-Round _ c.rest t.holds (ap read_le16 t.holds.bytes) enough
                (λ good. omega (arith, cut.bound))))
    ]
  where
    c : Completed
    c = top_up r header_size rest

    held : List ℕ
    held = bs ++ take (header_size - length bs) rest

    t : ToppedUp header_size bs rest out c
    t = top_up-ToppedUp header_size rest h (omega arith) (omega arith)

    cut : Cut header_size (bs ++ rest) held (drop (header_size - length bs) rest)
    cut = Cut-top_up header_size bs rest (omega arith)

-- A round of the slow path, from the front of a packet in the buffer.
pub complete_buffered_packet-Round :
    {bs : List ℕ} {out : List Event} {r : Receiver} (rest : List ℕ)
    → Holds bs out r
    → IsPartial bs
    → 0 < length bs
    → Round (bs ++ rest) out (complete_buffered_packet r rest)
unfolding complete_buffered_packet
complete_buffered_packet-Round {bs} {out} {r} rest h part some_held =
    elim (Bool-cases (ltb (RecvBuffer.readable_size r.recv_buffer) header_size)) [
      | inl short ↦
          rw short (short_header-Round rest h some_held (ground (arith, readable-Holds h)))
      | inr full ↦ rw full (
          complete_sized-Round _ rest h (ap read_le16 h.bytes) (ground (arith, readable-Holds h))
            (λ good. ground (arith, readable-Holds h, ap read_le16 h.bytes)))
    ]
