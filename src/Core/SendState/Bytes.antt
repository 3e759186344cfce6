-- ===== src/Core/SendState/Bytes.antt =====
-- Partial sends: no byte is sent twice, and none is skipped.
use mathlib.Core.List.{flatten}
use iouring_runtime.Prelude.{
  ℕ, zero, suc, ◌-◌, ◌≤◌, ◌<◌, ◌≡◌, refl, sym, ap, ◌∙◌, subst, ◌↔◌, ◌≢◌, true, List, [], ◌∷◌, ◌++◌,
  append_assoc, arith, length, take, drop, length-drop, drop-append_ge, drop-append, drop_all,
  take-append-drop, ltb, leb, Bool-cases, inl, inr,
}
use iouring_runtime.Core.SendState.{
  SendState, consume, erase_front, trim, advance_send_state, Completion, bytes, failed,
  is_expected_disconnect_result, disconnect_reason_for_result, transport_error, ok,
}

-- the bytes that an operation still has to send
abbrev pub left : SendState → List ℕ
left s = flatten s.iovs

∷-head : {v w : List ℕ} {vs ws : List (List ℕ)} → v ∷ vs ≡ w ∷ ws → v ≡ w
∷-head e = cc

-- What the loop counts: after the whole vectors, fewer bytes were sent than the next one has.
consume_lem :
    (vs : List (List ℕ)) (n : ℕ)
    → let (c, rest) = consume vs n in
      (drop n (flatten vs) ≡ flatten (trim rest (drop c vs)))
      × (c ≤ length vs)
      × (rest ≤ n)
      × ((c ≡ 0) → rest ≡ n)
      × ((v : List ℕ) (ws : List (List ℕ)) → drop c vs ≡ v ∷ ws → rest < length v)
unfolding consume flatten
consume_lem [] n =
    (drop_all n [] (omega arith), omega arith, omega arith, λ _. refl, λ v ws e. absurd (cc))
consume_lem (v ∷ vs) n = elim (Bool-cases (leb (length v) n)) [
  | inl all ↦
      let (same, le, le_n, _, lt) = consume_lem vs (n - length v) in
      rw all (
        drop-append_ge n v (flatten vs) (ground arith) ∙ same,
        omega arith,
        omega arith,
        λ e. absurd (omega arith),
        lt,
      )
  | inr part ↦ rw part (
    drop-append n v (flatten vs) (ground arith),
    omega arith,
    omega arith,
    λ _. refl,
    λ w ws e. ground (arith, ap length (∷-head e)),
  )
]

trim-zero : (vs : List (List ℕ)) (n : ℕ) → n ≡ 0 → trim n vs ≡ vs
trim-zero [] n e = refl
trim-zero (v ∷ vs) n e = rw e

length-trim : (vs : List (List ℕ)) (n : ℕ) → length (trim n vs) ≡ length vs
length-trim [] n = refl
length-trim (v ∷ vs) n = refl

-- Where nothing is erased the front is the whole list.
erase_front-iovs : (c : ℕ) (s : SendState) → (erase_front c s).iovs ≡ drop c s.iovs
erase_front-iovs zero s = refl
erase_front-iovs (suc c) s = ground arith

erase_front-bufs : (c : ℕ) (s : SendState) → (erase_front c s).bufs ≡ drop c s.bufs
erase_front-bufs zero s = refl
erase_front-bufs (suc c) s = ground arith

advance-iovs :
    (s : SendState) (n : ℕ)
    → (advance_send_state s n).iovs ≡ trim (consume s.iovs n).1 (drop (consume s.iovs n).0 s.iovs)
unfolding advance_send_state
advance-iovs s n = elim (Bool-cases (ltb 0 (consume s.iovs n).1)) [
  | inl some_over ↦ rw (some_over, erase_front-iovs (consume s.iovs n).0 s)
  | inr even ↦
      rw (even, erase_front-iovs (consume s.iovs n).0 s)
        (sym (trim-zero (drop (consume s.iovs n).0 s.iovs) (consume s.iovs n).1 (ground arith)))
]

advance-bufs :
    (s : SendState) (n : ℕ) → (advance_send_state s n).bufs ≡ drop (consume s.iovs n).0 s.bufs
unfolding advance_send_state
advance-bufs s n = elim (Bool-cases (ltb 0 (consume s.iovs n).1)) [
  | inl some_over ↦ rw some_over (erase_front-bufs (consume s.iovs n).0 s)
  | inr even ↦ rw even (erase_front-bufs (consume s.iovs n).0 s)
]

-- the first vector, if there is one, has a byte to send
abbrev pub HasBytes : List (List ℕ) → Type 0
HasBytes [] = Unit {0}
HasBytes (v ∷ vs) = 0 < length v

HasBytes-trim :
    (n : ℕ) (vs : List (List ℕ))
    → ((v : List ℕ) (ws : List (List ℕ)) → vs ≡ v ∷ ws → n < length v)
    → HasBytes (trim n vs)
HasBytes-trim n [] h = tt
HasBytes-trim n (v ∷ vs) h = omega (arith, h v vs refl, length-drop n v)

-- For an operation with as many buffers as vectors: after a send of `n` bytes it is left with the bytes
-- behind the first `n`, it has again as many buffers as vectors, and if a vector remains, the first one
-- has a byte to send.
pub advance_send_state_lem :
    (s : SendState) (n : ℕ)
    → length s.iovs ≡ length s.bufs
    → (left (advance_send_state s n) ≡ drop n (left s))
      × (length (advance_send_state s n).iovs ≡ length (advance_send_state s n).bufs)
      × HasBytes (advance_send_state s n).iovs
advance_send_state_lem s n h =
    let (same, le, le_n, _, lt) = consume_lem s.iovs n in
    let c : ℕ = (consume s.iovs n).0 in
    let rest : ℕ = (consume s.iovs n).1 in
    (
      ap flatten (advance-iovs s n) ∙ sym same,
      ap length (advance-iovs s n)
          ∙ length-trim (drop c s.iovs) rest
          ∙ omega (arith, length-drop c s.iovs, length-drop c s.bufs, ap length (advance-bufs s n)),
      subst HasBytes (sym (advance-iovs s n)) (HasBytes-trim rest (drop c s.iovs) lt),
    )

-- What the socket has taken after sends of the given lengths.
pub sends : SendState → List ℕ → List ℕ × SendState
sends s [] = ([], s)
sends s (n ∷ ns) =
    let (more, s') = sends (advance_send_state s n) ns in (take n (left s) ++ more, s')

-- For an operation with as many buffers as vectors, the bytes taken by any number of partial sends,
-- with those left, are the bytes of the operation.
pub sends_lem :
    (ns : List ℕ) (s : SendState)
    → length s.iovs ≡ length s.bufs
    → (sends s ns).0 ++ left (sends s ns).1 ≡ left s
unfolding sends
sends_lem [] s h = refl
sends_lem (n ∷ ns) s h =
    let (same, even, _) = advance_send_state_lem s n h in
    append_assoc (take n (left s)) (sends (advance_send_state s n) ns).0 _
    ∙ ap (λ ys. take n (left s) ++ ys) (sends_lem ns (advance_send_state s n) even ∙ same)
    ∙ take-append-drop n (left s)

-- A result is an expected disconnect exactly when its reason is neither `transport_error` nor `ok`.
expected_iff :
    (c : Completion)
    → (is_expected_disconnect_result c ≡ true)
      ↔ ((disconnect_reason_for_result c ≢ transport_error) × (disconnect_reason_for_result c ≢ ok))
unfolding is_expected_disconnect_result disconnect_reason_for_result
expected_iff (bytes n) = (λ e. (λ x. ground arith, λ x. ground arith), λ ne. ground arith)
expected_iff (failed e) = (λ h. (λ x. ground arith, λ x. ground arith), λ ne. ground arith)
