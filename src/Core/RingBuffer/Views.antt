-- ===== src/Core/RingBuffer/Views.antt =====
-- src/runtime/ring/RingBuffer.cpp: where the buffers of a ring lie.
use iouring_runtime.Prelude.{
  ℕ, suc, ◌+◌, ◌-◌, ◌*◌, ◌^◌, ◌≤◌, min, Bool, true, false, ◌&&◌, Option, none, some, leb, value,
  unexpected, ◌≡◌, refl, sym, ap, subst, ◌∙◌, arith, if_elim, if◌then◌else◌, [], not,
}
use iouring_runtime.Core.RingBuffer.{
  log2u, RingBuffer, RingBufferConfig, Host, is_valid, mapped, create, view, Created, Made,
  total_size, buf_addr, buffer_registration_failed, registered, meta_size, RingError,
}
use iouring_runtime.Core.RingBuffer.Powers.{power_of_two}

-- a ring as `Create` leaves it
record IsLaidOut (host : Host) (r : RingBuffer) : Type 0 where
  shift : 2 ^ r.buf_size_shift ≡ r.config.buf_size
  base : r.data_base ≡ r.meta + meta_size host r.config
  whole : r.length_of_map ≡ meta_size host r.config + r.config.buf_size * r.config.buf_count

Lays : Host → RingBuffer → Created → Type 0
Lays host r q = q.0 ≡ value r → IsLaidOut host r

value_inj : {a b : RingBuffer} → Path Made (value a) (value b) → a ≡ b
value_inj e = cc

refused : {r : RingBuffer} {e : RingError} → Path Made (unexpected e) (value r) → ⊥
refused e = cc

registered-Lays :
    (host : Host) (config : RingBufferConfig) (base : ℕ) (r : RingBuffer) (b : Bool)
    → 2 ^ log2u config.buf_size ≡ config.buf_size
    → Lays host r (registered host config base b)
unfolding registered Lays
registered-Lays host config base r false power e = absurd (refused e)
registered-Lays host config base r true power e =
    subst (IsLaidOut host) (value_inj e) (record { shift = power; base = refl; whole = refl })

mapped-Lays :
    (host : Host) (config : RingBufferConfig) (r : RingBuffer) (o : Option ℕ)
    → 2 ^ log2u config.buf_size ≡ config.buf_size
    → Lays host r (mapped host config o)
unfolding mapped Lays
mapped-Lays host config r none power e = absurd (refused e)
mapped-Lays host config r (some base) power e =
    registered-Lays host config base r host.accepts power e

second : (a b : Bool) → not (a && b) ≡ false → b ≡ true
second false b e = absurd cc
second true false e = absurd cc
second true true e = refl

create-Lays :
    (host : Host) (has_ring : Bool) (config : RingBufferConfig) (r : RingBuffer)
    → suc config.buf_size ≤ 2 ^ 32
    → Lays host r (create host has_ring config)
unfolding create is_valid Lays
create-Lays host has_ring config r word =
    if_elim (Lays host r) (not has_ring) nothing usable (λ _ e. absurd (refused e))
      (λ _.
        if_elim (Lays host r) (not (is_valid config)) nothing made (λ _ e. absurd (refused e))
          (λ valid.
            mapped-Lays host config r (host.mmap (total_size host config))
              (power_of_two config.buf_size word (second _ _ valid))))
  where
    nothing : Created
    nothing = (unexpected buffer_registration_failed, [])

    made : Created
    made = mapped host config (host.mmap (total_size host config))

    usable : Created
    usable = if not (is_valid config) then nothing else made

-- what a view that is not empty is
view_some :
    (r : RingBuffer) (i len : ℕ) (s : ℕ × ℕ)
    → view r i len ≡ some s
    → (suc i ≤ r.config.buf_count) × (s ≡ (buf_addr r i, min len r.config.buf_size))
unfolding view
view_some r i len s =
    if_elim
      (λ o.
        o ≡ some s → (suc i ≤ r.config.buf_count) × (s ≡ (buf_addr r i, min len r.config.buf_size)))
      (leb r.config.buf_count i) none (some (buf_addr r i, min len r.config.buf_size))
      (λ _ e. absurd cc) (λ below e. (ground arith, cc))

later : (i j : ℕ) → suc i ≤ j → j ≡ i + suc (j - suc i)
later i j h = omega arith

next_apart : (i j size : ℕ) → suc i ≤ j → i * size + size ≤ j * size
next_apart i j size h = omega (arith, ap (λ n. n * size) (later i j h))

-- where a view that is not empty starts, and how long it is at most
span_of :
    (host : Host) (r : RingBuffer) (i len : ℕ) (s : ℕ × ℕ)
    → IsLaidOut host r
    → view r i len ≡ some s
    → (s.0 ≡ r.data_base + i * r.config.buf_size)
      × (s.1 ≤ r.config.buf_size)
      × (suc i ≤ r.config.buf_count)
span_of host r i len s laid e =
    let (inside, same) = view_some r i len s e in
    (
      ap (λ q. q.0) same ∙ ap (λ n. r.data_base + i * n) laid.shift,
      subst (λ q. q.1 ≤ r.config.buf_size) (sym same) (omega arith),
      inside,
    )

-- In a ring that `Create` returns, for a size of a buffer below 2^32, the views of two buffers, the first
-- with the smaller id, lie one behind the other, after the metadata and in the memory of the mapping.
pub views_apart :
    (host : Host) (has_ring : Bool) (config : RingBufferConfig) (r : RingBuffer) (i j len len' : ℕ)
    (s t : ℕ × ℕ)
    → suc config.buf_size ≤ 2 ^ 32
    → (create host has_ring config).0 ≡ value r
    → suc i ≤ j
    → view r i len ≡ some s
    → view r j len' ≡ some t
    → (r.meta + meta_size host r.config ≤ s.0)
      × (s.0 + s.1 ≤ t.0)
      × (t.0 + t.1 ≤ r.meta + r.length_of_map)
unfolding Lays
views_apart host has_ring config r i j len len' s t word made before first next =
    let laid = create-Lays host has_ring config r word made in
    let (at_first, short, _) = span_of host r i len s laid first in
    let (at_next, short', inside) = span_of host r j len' t laid next in
    let first_next = next_apart i j r.config.buf_size before in
    let next_end = next_apart j r.config.buf_count r.config.buf_size inside in
    (
      omega (arith, laid.base, at_first),
      omega (arith, at_first, at_next, first_next, short),
      omega (arith, laid.base, laid.whole, at_next, next_end, short'),
    )
