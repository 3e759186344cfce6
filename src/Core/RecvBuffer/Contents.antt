-- ===== src/Core/RecvBuffer/Contents.antt =====
-- The reassembly buffer against the plain list of bytes that it holds.
use iouring_runtime.Prelude.{
  ℕ, ◌+◌, ◌-◌, ◌≤◌, ◌<◌, ◌^◌, ◌≡◌, refl, sym, ap, ◌∙◌, ◌⊎◌, dec_le, true, List, [], ◌++◌, arith,
  length, take, drop, ◌==◌, inl, inr, Bool-cases, drop-drop, drop_all, drop-take, ◌↔◌, add32, sub32,
  value, unexpected, resource_exhausted,
}
use iouring_runtime.Core.RecvBuffer.{
  RecvBuffer, init, is_empty, readable_size, read_region, compact, append, on_read,
}
use iouring_runtime.Core.RecvBuffer.Compaction.{
  IsValid, readable_size-eq, length-read_region, compact-Compacts,
}
use iouring_runtime.Core.RecvBuffer.Appending.{append-Appends}

-- Compacting a valid buffer leaves a valid one of the same capacity, with the same bytes to read, which
-- are now at the front of the storage.
pub compact_lem :
    (b : RecvBuffer)
    → IsValid b
    → IsValid (compact b)
      × (read_region (compact b) ≡ read_region b)
      × ((compact b).read_pos ≡ 0)
      × ((compact b).write_pos ≡ b.write_pos - b.read_pos)
      × ((compact b).capacity ≡ b.capacity)
compact_lem b v = compact-Compacts b v

-- Of a valid buffer that holds at least `n` bytes, reading the first `n` leaves a valid buffer of the
-- same capacity that holds the rest.
pub on_read_lem :
    (b : RecvBuffer) (n : ℕ)
    → IsValid b
    → n ≤ length (read_region b)
    → IsValid (on_read b n)
      × (read_region (on_read b n) ≡ drop n (read_region b))
      × ((on_read b n).capacity ≡ b.capacity)
unfolding on_read
on_read_lem b n v h = elim (Bool-cases (add32 b.read_pos n == b.write_pos)) [
  | inl done ↦ rw done (omega arith, sym (drop_all n (read_region b) (ground (arith, held))), refl)
  | inr more ↦ rw more (ground (arith, held), rest, refl)
]
  where
    held : length (read_region b) ≡ b.write_pos - b.read_pos
    held = length-read_region v ∙ readable_size-eq v

    at : add32 b.read_pos n ≡ b.read_pos + n
    at = omega (arith, held)

    rest :
        take (sub32 b.write_pos (add32 b.read_pos n)) (drop (add32 b.read_pos n) b.buffer)
        ≡ drop n (read_region b)
    rest =
        rw
          (
            at,
            drop-take n (readable_size b) (drop b.read_pos b.buffer),
            drop-drop n b.read_pos b.buffer,
          )
          (ap (λ k. take k (drop (b.read_pos + n) b.buffer)) (omega (arith, held)))

-- The buffer is empty exactly when it holds no byte.
pub is_empty_iff : {b : RecvBuffer} → IsValid b → (is_empty b ≡ true) ↔ (length (read_region b) ≡ 0)
is_empty_iff {b} v = (λ e. ground (arith, held), λ e. ground (arith, held))
  where
    held : length (read_region b) ≡ b.write_pos - b.read_pos
    held = length-read_region v ∙ readable_size-eq v

-- The successful half, for callers that know that the bytes fit.
pub append_fits :
    (b : RecvBuffer) (bytes : List ℕ)
    → IsValid b
    → length bytes < 2 ^ 32
    → length (read_region b) + length bytes ≤ b.capacity
    → ((append b bytes).0 ≡ value tt)
      × IsValid (append b bytes).1
      × ((append b bytes).1.capacity ≡ b.capacity)
      × (read_region (append b bytes).1 ≡ read_region b ++ bytes)
append_fits b bytes v s h =
    let (valid, cap, fits, _) = append-Appends b bytes v s in
    let (ok, region) = fits h in (ok, valid, cap, region)

-- A new buffer is empty.
pub init-empty : (size : ℕ) → ((init size).capacity ≡ size) × (read_region (init size) ≡ [])
unfolding init
init-empty size = (refl, refl)

-- On a valid buffer and fewer than 2^32 bytes, an append keeps the buffer valid and its capacity. If the
-- bytes that wait and the new ones fit in the capacity, it succeeds and the new bytes wait behind the
-- old ones; if they do not, it reports `resource_exhausted` and the bytes that wait are the old ones.
pub append_outcomes :
    (b : RecvBuffer) (bytes : List ℕ)
    → IsValid b
    → length bytes < 2 ^ 32
    → IsValid (append b bytes).1
      × ((append b bytes).1.capacity ≡ b.capacity)
      × (((length (read_region b) + length bytes ≤ b.capacity)
            × ((append b bytes).0 ≡ value tt)
            × (read_region (append b bytes).1 ≡ read_region b ++ bytes))
          ⊎ ((b.capacity < length (read_region b) + length bytes)
              × ((append b bytes).0 ≡ unexpected resource_exhausted)
              × (read_region (append b bytes).1 ≡ read_region b)))
append_outcomes b bytes v s =
    let (valid, cap, fits, over) = append-Appends b bytes v s in
    (
      valid,
      cap,
      elim (dec_le (length (read_region b) + length bytes) b.capacity) [
        | yes h ↦ let (ok, region) = fits h in inl (h, ok, region)
        | no h ↦
            let more : b.capacity < length (read_region b) + length bytes = omega arith in
            let (refused, region) = over more in inr (more, refused, region)
      ],
    )
