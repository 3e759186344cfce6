-- ===== src/Web/Response/Sending/Chunks.antt =====
-- src/modules/web/HttpResponse.cpp: the buffers of `BuildBuffers` and the one of `Build`.
use iouring_runtime.Prelude.{
  ℕ, zero, suc, ◌+◌, ◌≤◌, min, max, true, List, [], ◌∷◌, ◌++◌, some, length, take, drop, Text, u32,
  ◌≡◌, refl, sym, ap, ap₂, ◌∙◌, arith, take-append-drop, length-drop, length-take, length-append,
  ◌^◌,
}
use iouring_runtime.Web.Response.{HttpResponse}
use iouring_runtime.Web.Response.Sending.{
  serialize_headers, Pool, payload, build, push_front, body_buffers, built_buffers, build_buffers,
}
use iouring_runtime.Web.Response.Sending.Wire.{
  response_bytes, committed_all, buffer_from_bytes-allocated,
}

abbrev pub concat : List Text → Text
concat [] = []
concat (b ∷ bs) = b ++ concat bs

body_buffers-concat :
    (fuel : ℕ) (pool : Pool) (chunk_size : ℕ) (body : Text)
    → ((n : ℕ) → pool n ≡ true)
    → 1 ≤ chunk_size
    → length body ≤ fuel
    → suc (length body) ≤ 2 ^ 32
    → (bs : List Text) × (body_buffers fuel pool chunk_size body ≡ some bs) × (concat bs ≡ body)
unfolding body_buffers
body_buffers-concat zero pool c [] all h k small = ([], refl, refl)
body_buffers-concat zero pool c (b ∷ body) all h k small = absurd (omega arith)
body_buffers-concat (suc fuel) pool c [] all h k small = ([], refl, refl)
body_buffers-concat (suc fuel) pool c (b ∷ body) all h k small =
    let n = min c (length (b ∷ body)) in
    let (bs, made, whole) =
      body_buffers-concat fuel pool c (drop n (b ∷ body)) all h
        (omega (arith, length-drop n (b ∷ body))) (omega (arith, length-drop n (b ∷ body))) in
    (
      take n (b ∷ body) ∷ bs,
      ap₂ push_front
          (sym (
            buffer_from_bytes-allocated pool (take n (b ∷ body))
              (all (u32 (length (take n (b ∷ body))))) (omega (arith, length-take n (b ∷ body)))))
          made,
      ap (λ t. take n (b ∷ body) ++ t) whole ∙ take-append-drop n (b ∷ body),
    )

-- With a pool that allocates, and a response of fewer than 2^32 bytes, the buffers of `BuildBuffers`,
-- whatever their size, hold together what the one buffer of `Build` holds, the headers and the body.
pub build_buffers-build :
    (date : Text) (pool : Pool) (chunk_size : ℕ) (r : HttpResponse)
    → ((n : ℕ) → pool n ≡ true)
    → suc (length (response_bytes date r)) ≤ 2 ^ 32
    → ((build date pool r).0 ≡ some (response_bytes date r))
      × (concat (build_buffers date pool chunk_size r).0 ≡ response_bytes date r)
unfolding build build_buffers
build_buffers-build date pool chunk_size r all small =
    let headers = serialize_headers date r (length r.body) in
    let both = length-append headers (payload r) in
    let (bs, made, whole) =
      body_buffers-concat (length (payload r)) pool (max chunk_size 1) (payload r) all (omega arith)
        (omega arith) (omega (arith, both)) in
    let total = length headers + length (payload r) in
    (
      rw (all (u32 (length (headers ++ payload r))))
          (ap some (committed_all (response_bytes date r) small)),
      ap (λ o. concat (built_buffers r total o).0)
            (ap₂ push_front
              (sym (
                buffer_from_bytes-allocated pool headers (all (u32 (length headers)))
                  (omega (arith, both))))
              made)
          ∙ ap (λ t. headers ++ t) whole,
    )
