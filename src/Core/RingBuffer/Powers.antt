-- ===== src/Core/RingBuffer/Powers.antt =====
-- src/runtime/ring/RingBuffer.cpp: `is_power_of_two` and `log2u`.
use iouring_runtime.Prelude.{
  ℕ, zero, suc, ◌-◌, ◌*◌, ◌/◌, ◌%◌, ◌^◌, ◌≤◌, true, false, ◌&&◌, ltb, ◌==◌, ◌≡◌, refl, ap, ◌∙◌, inl,
  inr, arith, ◌⊎◌,
}
use iouring_runtime.Core.RingBuffer.{bit_and, is_power_of_two, bit_width, log2u}

half_lt : (bits v : ℕ) → suc v ≤ 2 ^ suc bits → suc (v / 2) ≤ 2 ^ bits
half_lt bits v h = omega arith

bit_squared : (b : ℕ) → suc b ≤ 2 → b * b ≡ b
bit_squared zero h = refl
bit_squared (suc zero) h = refl
bit_squared (suc (suc b)) h = absurd (omega arith)

square_bit : (n : ℕ) → (n % 2) * (n % 2) ≡ n % 2
square_bit n = bit_squared (n % 2) (omega arith)

bit_and_self : (bits v : ℕ) → suc v ≤ 2 ^ bits → bit_and bits v v ≡ v
unfolding bit_and
bit_and_self zero v h = omega arith
bit_and_self (suc bits) v h =
    omega (arith, square_bit v, bit_and_self bits (v / 2) (half_lt bits v h))

bit_width_zero : (bits : ℕ) → bit_width bits 0 ≡ 0
unfolding bit_width
bit_width_zero zero = refl
bit_width_zero (suc bits) = refl

suc_not_zero : (v : ℕ) → (suc v == 0) ≡ false
suc_not_zero v = ground arith

bit_width_half : (bits v : ℕ) → bit_width (suc bits) (suc v) ≡ suc (bit_width bits (suc v / 2))
unfolding bit_width
bit_width_half bits v = rw (suc_not_zero v) refl

bit_width_pos : (bits v : ℕ) → suc v ≤ 2 ^ bits → 1 ≤ v → 1 ≤ bit_width bits v
bit_width_pos zero v h pos = absurd (omega arith)
bit_width_pos (suc bits) zero h pos = absurd (omega arith)
bit_width_pos (suc bits) (suc v) h pos = omega (arith, bit_width_half bits v)

sub_one : (k : ℕ) → suc k - 1 ≡ k
sub_one k = omega arith

shift_suc : (k w v : ℕ) → 1 ≤ k → 2 ^ (k - 1) ≡ w → v ≡ 2 * w → 2 ^ (suc k - 1) ≡ v
shift_suc zero w v pos e twice = absurd (omega arith)
shift_suc (suc k) w v pos e twice =
    omega (arith, ap (λ n. 2 ^ n) (sub_one k), ap (λ n. 2 ^ n) (sub_one (suc k)))

even_half : (w : ℕ) → 2 * w / 2 ≡ w
even_half w = omega arith

odd_half : (w : ℕ) → suc (2 * w) / 2 ≡ w
odd_half w = omega arith

even_rem : (w : ℕ) → 2 * w % 2 ≡ 0
even_rem w = omega arith

before_even : (w : ℕ) → 2 * suc w - 1 ≡ suc (2 * w)
before_even w = omega arith

bit_and_odd : (bits w : ℕ) → suc w ≤ 2 ^ bits → bit_and (suc bits) (suc (2 * w)) (2 * w) ≡ 2 * w
unfolding bit_and
bit_and_odd bits w h = rw (odd_half w, even_half w, even_rem w, bit_and_self bits w h) (omega arith)

bit_and_even :
    (bits w : ℕ) → bit_and (suc bits) (2 * suc w) (2 * suc w - 1) ≡ 2 * bit_and bits (suc w) w
unfolding bit_and
bit_and_even bits w =
    rw (before_even w, even_half (suc w), odd_half w, even_rem (suc w)) (omega arith)

parity : (v : ℕ) → (v ≡ 2 * (v / 2)) ⊎ (v ≡ suc (2 * (v / 2)))
parity v = ground arith

from_even :
    (bits w v : ℕ)
    → v ≡ 2 * w
    → 1 ≤ w
    → bit_and (suc bits) v (v - 1) ≡ 0
    → bit_and bits w (w - 1) ≡ 0
from_even bits zero v q pos e = absurd (omega arith)
from_even bits (suc w) v q pos e = omega (
  arith,
  bit_and_even bits w,
  ap (λ x. bit_and (suc bits) x (x - 1)) q,
  ap (λ x. bit_and bits (suc w) x) (sub_one w),
)

from_odd :
    (bits w v : ℕ) → v ≡ suc (2 * w) → suc w ≤ 2 ^ bits → bit_and (suc bits) v (v - 1) ≡ 0 → w ≡ 0
from_odd bits w v q h e = omega (
  arith,
  bit_and_odd bits w h,
  ap (λ x. bit_and (suc bits) x (x - 1)) q,
  ap (λ x. bit_and (suc bits) (suc (2 * w)) x) (sub_one (2 * w)),
)

power_bits :
    (bits v : ℕ)
    → suc v ≤ 2 ^ bits
    → 1 ≤ v
    → bit_and bits v (v - 1) ≡ 0
    → 2 ^ (bit_width bits v - 1) ≡ v
power_bits zero v h pos e = absurd (omega arith)
power_bits (suc bits) zero h pos e = absurd (omega arith)
power_bits (suc bits) (suc v) h pos e =
    let w = suc v / 2 in
    let small = half_lt bits (suc v) h in
    ap (λ n. 2 ^ (n - 1)) (bit_width_half bits v) ∙ elim (parity (suc v)) [
      | inl even ↦
          shift_suc (bit_width bits w) w (suc v) (bit_width_pos bits w small (omega arith))
            (power_bits bits w small (omega arith) (from_even bits w (suc v) even (omega arith) e))
            even
      | inr odd ↦
          let nothing = from_odd bits w (suc v) odd small e in
          ap (λ n. 2 ^ (suc n - 1)) (ap (bit_width bits) nothing ∙ bit_width_zero bits)
          ∙ omega (arith, nothing)
    ]

tested : (v x : ℕ) → (ltb 0 v && (x == 0)) ≡ true → (1 ≤ v) × (x ≡ 0)
tested v x t = ground arith

pub power_of_two : (v : ℕ) → suc v ≤ 2 ^ 32 → is_power_of_two v ≡ true → 2 ^ log2u v ≡ v
unfolding is_power_of_two
power_of_two v h t =
    let (pos, single) = tested v (bit_and 32 v (v - 1)) t in power_bits 32 v h pos single
