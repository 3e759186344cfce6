-- ===== src/Core/RecvBuffer/Appending.antt =====
-- include/iouring_runtime/core/RecvBuffer.h: the two ways an `Append` ends.
use iouring_runtime.Prelude.{
  ℕ, ◌+◌, ◌-◌, ◌≤◌, ◌<◌, ◌^◌, ◌≡◌, refl, sym, ap, ◌∙◌, ◌⊎◌, dec_le, true, false, List, ◌++◌, arith,
  length, take, drop, splice, ltb, inl, inr, Bool-cases, take-splice, drop-splice, length-splice,
  length-drop, u32, add32, sub32, CoreError, Expected, value, unexpected, resource_exhausted,
}
use iouring_runtime.Core.RecvBuffer.{
  RecvBuffer, readable_size, writable_size, read_region, compact, append_here, append,
}
use iouring_runtime.Core.RecvBuffer.Compaction.{
  IsValid, readable_size-eq, length-read_region, compact-Compacts,
}

-- how an append ends, for a buffer that held `old`
abbrev Appends : List ℕ → ℕ → List ℕ → Expected (Unit {0}) CoreError × RecvBuffer → Type 0
Appends old cap bytes out =
    IsValid out.1
    × (out.1.capacity ≡ cap)
    × (length old + length bytes ≤ cap → (out.0 ≡ value tt) × (read_region out.1 ≡ old ++ bytes))
    × (cap < length old + length bytes
        → (out.0 ≡ unexpected resource_exhausted) × (read_region out.1 ≡ old))

-- The bytes of a write, read back with those before them.
written :
    (b : RecvBuffer) (bytes : List ℕ)
    → IsValid b
    → b.write_pos + length bytes ≤ b.capacity
    → take
        (b.write_pos + length bytes - b.read_pos)
        (drop b.read_pos (splice b.buffer b.write_pos bytes))
      ≡ take (b.write_pos - b.read_pos) (drop b.read_pos b.buffer) ++ bytes
written b bytes v h = rw (drop-splice b.read_pos b.write_pos b.buffer bytes v.read_le) (
    take-splice (drop b.read_pos b.buffer) (b.write_pos - b.read_pos)
      (b.write_pos + length bytes - b.read_pos) bytes (omega arith)
      (omega (arith, length-drop b.read_pos b.buffer)))

append_here_fits :
    (b : RecvBuffer) (bytes : List ℕ)
    → IsValid b
    → b.write_pos + length bytes ≤ b.capacity
    → let (r, b') = append_here b bytes in
      (r ≡ value tt)
      × IsValid b'
      × (b'.capacity ≡ b.capacity)
      × (read_region b' ≡ read_region b ++ bytes)
unfolding append_here
append_here_fits b bytes v h = rw room (refl, valid, refl, bytes_read)
  where
    room : ltb (sub32 b.capacity b.write_pos) (u32 (length bytes)) ≡ false
    room = ground arith

    b' : RecvBuffer
    b' = record b {
      buffer = splice b.buffer b.write_pos bytes;
      write_pos = add32 b.write_pos (u32 (length bytes));
    }

    valid : IsValid b'
    valid = omega (arith, length-splice b.buffer b.write_pos bytes)

    end : readable_size b' ≡ b.write_pos + length bytes - b.read_pos
    end = omega arith

    bytes_read : read_region b' ≡ read_region b ++ bytes
    bytes_read =
        rw end
          (written b bytes v h ∙ ap (λ k. take k (drop b.read_pos b.buffer) ++ bytes) (omega arith))

append_here_refused :
    (b : RecvBuffer) (bytes : List ℕ)
    → IsValid b
    → length bytes < 2 ^ 32
    → b.capacity < b.write_pos + length bytes
    → append_here b bytes ≡ (unexpected resource_exhausted, b)
unfolding append_here
append_here_refused b bytes v s h = rw full
  where
    full : ltb (sub32 b.capacity b.write_pos) (u32 (length bytes)) ≡ true
    full = ground arith

append_here-Appends :
    (c : RecvBuffer) (old bytes : List ℕ) (cap : ℕ)
    → IsValid c
    → read_region c ≡ old
    → c.capacity ≡ cap
    → length bytes < 2 ^ 32
    → (c.write_pos + length bytes ≤ cap) ⊎ (c.read_pos ≡ 0)
    → Appends old cap bytes (append_here c bytes)
append_here-Appends c old bytes cap v same cap_same s room =
    elim (dec_le (c.write_pos + length bytes) cap) [
      | yes fits ↦
          let ok = append_here_fits c bytes v (omega arith) in
          (
            ok.1,
            ok.2 ∙ cap_same,
            λ _. (ok.0, ok.3 ∙ ap (λ k. k ++ bytes) same),
            λ h. absurd (omega (arith, held)),
          )
      | no full ↦
          let out = append_here_refused c bytes v s (omega arith) in
          rw out (v, cap_same, λ h. absurd (omega (arith, held)), λ _. (refl, same))
    ]
  where
    held : length old ≡ c.write_pos - c.read_pos
    held = ap length (sym same) ∙ length-read_region v ∙ readable_size-eq v

room_left :
    {b : RecvBuffer} (bytes : List ℕ)
    → IsValid b
    → length bytes < 2 ^ 32
    → ltb (writable_size b) (u32 (length bytes)) ≡ false
    → b.write_pos + length bytes ≤ b.capacity
room_left bytes v s h = ground arith

-- both ends of an append, each under its condition
pub append-Appends :
    (b : RecvBuffer) (bytes : List ℕ)
    → IsValid b
    → length bytes < 2 ^ 32
    → Appends (read_region b) b.capacity bytes (append b bytes)
unfolding append
append-Appends b bytes v s = elim (Bool-cases (ltb (writable_size b) (u32 (length bytes)))) [
  | inl full ↦
      let c = compact-Compacts b v in
      rw full
        (append_here-Appends (compact b) (read_region b) bytes b.capacity c.0 c.1 c.4 s (inr c.2))
  | inr fits ↦ rw fits (
      append_here-Appends b (read_region b) bytes b.capacity v refl refl s
        (inl (room_left bytes v s fits)))
]
