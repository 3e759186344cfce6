-- ===== src/Core/RecvBuffer/Compaction.antt =====
-- include/iouring_runtime/core/RecvBuffer.h: well-formed buffers, and what `Compact` leaves.
use iouring_runtime.Prelude.{
  ℕ, ◌-◌, ◌≤◌, ◌<◌, ◌^◌, ◌≡◌, refl, ap, ◌∙◌, List, arith, length, take, drop, splice, ltb, ◌==◌,
  inl, inr, Bool-cases, take-splice, length-splice, length-take, length-drop, length-replicate,
  sub32,
}
use iouring_runtime.Core.RecvBuffer.{RecvBuffer, init, readable_size, read_region, moved, compact}

-- The positions lie in the storage, and the storage is within `uint32_t`.
pub record IsValid (b : RecvBuffer) : Type 0 where
  pub stored : length b.buffer ≡ b.capacity
  pub small : b.capacity < 2 ^ 32
  pub read_le : b.read_pos ≤ b.write_pos
  pub write_le : b.write_pos ≤ b.capacity

pub init-IsValid : (size : ℕ) → size < 2 ^ 32 → IsValid (init size)
unfolding init
init-IsValid size h = let zero_byte : ℕ = 0 in omega (arith, length-replicate size zero_byte)

-- No subtraction of positions wraps.
pub readable_size-eq : {b : RecvBuffer} → IsValid b → readable_size b ≡ b.write_pos - b.read_pos
readable_size-eq v = omega arith

pub length-read_region : {b : RecvBuffer} → IsValid b → length (read_region b) ≡ readable_size b
length-read_region {b} v =
    length-take (readable_size b) (drop b.read_pos b.buffer)
    ∙ omega (arith, length-drop b.read_pos b.buffer)

take_none : (n : ℕ) (xs ys : List ℕ) → n ≡ 0 → take n xs ≡ take n ys
take_none n xs ys e = rw e

-- what `compact` must establish
abbrev Compacts : RecvBuffer → RecvBuffer → Type 0
Compacts b c =
    IsValid c
    × (read_region c ≡ read_region b)
    × (c.read_pos ≡ 0)
    × (c.write_pos ≡ b.write_pos - b.read_pos)
    × (c.capacity ≡ b.capacity)

moved_bytes :
    (b : RecvBuffer) (n : ℕ)
    → n ≡ readable_size b
    → IsValid b
    → take n (splice b.buffer 0 (take n (drop b.read_pos b.buffer)))
      ≡ take n (drop b.read_pos b.buffer)
moved_bytes b n e v =
    take-splice b.buffer 0 n (take n (drop b.read_pos b.buffer))
      (omega (arith, length-take n (drop b.read_pos b.buffer), length-drop b.read_pos b.buffer))
      (omega arith)

moved-Compacts : (b : RecvBuffer) → IsValid b → Compacts b (moved b)
unfolding moved
moved-Compacts b v = elim (Bool-cases (ltb 0 n)) [
  | inl some_left ↦ rw some_left (
    omega (arith, length-splice b.buffer 0 (take n (drop b.read_pos b.buffer))),
    ap (λ k. take k (splice b.buffer 0 (take n (drop b.read_pos b.buffer)))) back
        ∙ moved_bytes b n refl v,
    refl,
    omega arith,
    refl,
  )
  | inr all_read ↦ rw all_read (
    omega arith,
    ap (λ k. take k b.buffer) back ∙ take_none n b.buffer (drop b.read_pos b.buffer) (ground arith),
    refl,
    omega arith,
    refl,
  )
]
  where
    n : ℕ
    n = readable_size b

    back : sub32 n 0 ≡ n
    back = omega arith

pub compact-Compacts : (b : RecvBuffer) → IsValid b → Compacts b (compact b)
unfolding compact
compact-Compacts b v = elim (Bool-cases (b.read_pos == 0)) [
  | inl front ↦ rw front (v, refl, ground arith, ground arith, refl)
  | inr behind ↦ rw behind (moved-Compacts b v)
]
