-- ===== src/Game/PacketSession/TopUp.antt =====
-- src/modules/game/PacketSession.cpp: `AppendToRecvBuffer`, and the buffer that is filled up for a packet.
use iouring_runtime.Prelude.{
  ℕ, ◌+◌, ◌-◌, ◌≤◌, ◌<◌, min, ◌≡◌, refl, sym, ap, ◌∙◌, true, false, List, [], ◌∷◌, ◌++◌, append-nil,
  arith, length, take, drop, sub32, length-take, take_all, drop_all, dec_le,
}
use iouring_runtime.Core.RecvBuffer
use iouring_runtime.Core.RecvBuffer.{RecvBuffer, default_size}
use iouring_runtime.Core.RecvBuffer.Contents.{append_fits}
use iouring_runtime.Core.RecvBuffer.Compaction.{IsValid, length-read_region}
use iouring_runtime.Game.PacketSession.{
  Event, disconnect, Receiver, Completed, header_size, max_packet_size, append_to_recv_buffer,
  validate_packet_size, top_up,
}

-- An open session whose buffer holds `bs`, after the calls `out`.
pub record Holds (bs : List ℕ) (out : List Event) (r : Receiver) : Type 0 where
  pub valid : IsValid r.recv_buffer
  pub cap : r.recv_buffer.capacity ≡ default_size
  pub bytes : RecvBuffer.read_region r.recv_buffer ≡ bs
  pub called : r.out ≡ out
  pub open_still : r.is_open ≡ true

pub readable-Holds :
    {bs : List ℕ} {out : List Event} {r : Receiver}
    → Holds bs out r
    → RecvBuffer.readable_size r.recv_buffer ≡ length bs
readable-Holds h = sym (length-read_region h.valid) ∙ ap length h.bytes

-- Bytes that fit are taken behind those that wait, with no overflow.
pub append_to_recv_buffer_fits :
    {bs : List ℕ} {out : List Event} {r : Receiver} (more : List ℕ)
    → Holds bs out r
    → length bs + length more ≤ default_size
    → ((append_to_recv_buffer r more).0 ≡ true)
      × Holds (bs ++ more) out (append_to_recv_buffer r more).1
unfolding append_to_recv_buffer
append_to_recv_buffer_fits {bs} {out} {r} [] h fits = (refl, rw (append-nil bs) h)
append_to_recv_buffer_fits {bs} {out} {r} (x ∷ xs) h fits =
    let (ok, valid, cap, bytes) =
      append_fits r.recv_buffer (x ∷ xs) h.valid (omega arith)
        (omega (arith, h.cap, ap length h.bytes)) in
    rw (ok, append_to_recv_buffer)
      (
        refl,
        record {
          valid = valid;
          cap = cap ∙ h.cap;
          bytes = bytes ∙ ap (λ ys. ys ++ x ∷ xs) h.bytes;
          called = h.called;
          open_still = h.open_still;
        },
      )

-- A size field is good from the size of a header on; the other bound holds of every 16-bit number.
pub validate_packet_size_good :
    (r : Receiver) (size : ℕ)
    → header_size ≤ size
    → size ≤ max_packet_size
    → validate_packet_size r size ≡ (true, r)
unfolding validate_packet_size
validate_packet_size_good r size lo hi = ground arith

pub validate_packet_size_bad :
    (r : Receiver) (size : ℕ)
    → size < header_size
    → validate_packet_size r size
      ≡ (false, record r { out = r.out ++ (disconnect ∷ []); is_open = false })
unfolding validate_packet_size
validate_packet_size_bad r size lo = ground arith

-- Topping up to `size` bytes takes what is missing, as far as the data goes.
pub record ToppedUp (size : ℕ) (bs rest : List ℕ) (out : List Event) (c : Completed) : Type 0 where
  pub ok : c.done ≡ true
  pub holds : Holds (bs ++ take (size - length bs) rest) out c.state
  pub after : c.rest ≡ drop (size - length bs) rest

take-min : (n : ℕ) (xs : List ℕ) → take (min n (length xs)) xs ≡ take n xs
take-min n xs = elim (dec_le n (length xs)) [
  | yes le ↦ ap (λ k. take k xs) (omega arith)
  | no gt ↦ take_all (min n (length xs)) xs (omega arith) ∙ sym (take_all n xs (omega arith))
]

drop-min : (n : ℕ) (xs : List ℕ) → drop (min n (length xs)) xs ≡ drop n xs
drop-min n xs = elim (dec_le n (length xs)) [
  | yes le ↦ ap (λ k. drop k xs) (omega arith)
  | no gt ↦ drop_all (min n (length xs)) xs (omega arith) ∙ sym (drop_all n xs (omega arith))
]

pub top_up-ToppedUp :
    {bs : List ℕ} {out : List Event} {r : Receiver} (size : ℕ) (rest : List ℕ)
    → Holds bs out r
    → length bs ≤ size
    → size ≤ max_packet_size
    → ToppedUp size bs rest out (top_up r size rest)
unfolding top_up
top_up-ToppedUp {bs} {out} {r} size rest h lo hi =
    rw (sub-eq, take-min (size - length bs) rest, drop-min (size - length bs) rest)
      (rw fit.0 (record { ok = refl; holds = fit.1; after = refl }))
  where
    missing : List ℕ
    missing = take (size - length bs) rest

    fit :
        ((append_to_recv_buffer r missing).0 ≡ true)
        × Holds (bs ++ missing) out (append_to_recv_buffer r missing).1
    fit = append_to_recv_buffer_fits missing h (omega (arith, length-take (size - length bs) rest))

    sub-eq : sub32 size (RecvBuffer.readable_size r.recv_buffer) ≡ size - length bs
    sub-eq = omega (arith, readable-Holds h)
