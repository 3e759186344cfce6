-- ===== src/Web/Response/Sending/Wire.antt =====
-- src/modules/web/HttpResponse.cpp: the calls of the session that `Send` makes.
use iouring_runtime.Prelude.{
  ℕ, suc, ◌≤◌, arith, length-append, take_all, ◌+◌, true, false, not, List, [], ◌∷◌, ◌++◌, ◌⊎◌, ◌^◌,
  Option, some, if◌then◌else◌, leb, length, Text, u32, ◌≡◌, refl, sym, ap, subst, ◌∙◌, inl, inr,
  Bool-cases, if_elim, append-nil,
}
use iouring_runtime.Web.Response.{HttpResponse, is_sent, is_empty}
use iouring_runtime.Web.Response.Sending.{
  serialize_headers, Pool, committed, no_body, payload, buffer_from_bytes, build, SessionCall,
  send_response, start_body_stream, send_parts, send_built, mark_sent, send,
  inline_response_max_bytes,
}

-- the bytes of a response: its headers, and its body unless it goes without
abbrev pub response_bytes : Text → HttpResponse → Text
response_bytes date r = serialize_headers date r (length r.body) ++ payload r

-- One call of the session, which is given some headers and a body: together in one buffer, or the headers
-- in a buffer and the body, which has bytes then, as a stream.
abbrev pub Gives : Text → Text → List SessionCall → Type 0
Gives headers body calls =
    (calls ≡ send_response (headers ++ body) ∷ [])
    ⊎ ((calls ≡ start_body_stream headers body ∷ []) × (is_empty body ≡ false))

is_empty→nil : (t : Text) → is_empty t ≡ true → t ≡ []
is_empty→nil [] h = refl
is_empty→nil (c ∷ t) h = cc

-- a call that gives the session these and leaves the response sent
Delivers : Text → Text → List SessionCall × HttpResponse → Type 0
Delivers headers body q = Gives headers body q.0 × (is_sent q.1 ≡ true)

in_one : (headers : Text) → send_response headers ∷ [] ≡ send_response (headers ++ []) ∷ []
in_one headers = ap (λ t. send_response t ∷ []) (sym (append-nil headers))

send_parts-Delivers :
    (headers : Text) (r : HttpResponse)
    → is_sent r ≡ true
    → Delivers headers (payload r) (send_parts r (some headers))
unfolding Delivers is_sent
send_parts-Delivers headers r done = elim (Bool-cases (no_body r)) [
  | inl bare ↦ rw bare (inl (in_one headers), done)
  | inr full ↦ elim (Bool-cases (is_empty r.body)) [
    | inl nothing ↦ rw (full, nothing, is_empty→nil r.body nothing) (inl (in_one headers), done)
    | inr some_bytes ↦ rw (full, some_bytes) (inr (refl, refl), done)
  ]
]

pub committed_all : (t : Text) → suc (length t) ≤ 2 ^ 32 → committed t ≡ t
committed_all t h = take_all (u32 (length t)) t (omega arith)

build-Delivers :
    (date headers : Text) (pool : Pool) (r : HttpResponse)
    → is_sent r ≡ true
    → headers ≡ serialize_headers date r (length r.body)
    → suc (length headers + length (payload r)) ≤ 2 ^ 32
    → Delivers headers (payload r) (send_built r (some headers) (build date pool r))
unfolding Delivers build is_sent
build-Delivers date headers pool r done same short =
    elim (Bool-cases
      (pool (u32 (length (serialize_headers date r (length r.body) ++ payload r))))) [
        | inl allocated ↦ rw allocated (
          inl (
              ap (λ t. send_response t ∷ [])
                (ap committed (ap (λ t. t ++ payload r) (sym same))
                  ∙ committed_all (headers ++ payload r)
                      (omega (arith, length-append headers (payload r))))),
          done,
        )
        | inr denied ↦ rw denied (send_parts-Delivers headers r done)
      ]

-- The marks that sending leaves.
unfoldable pub marked : ℕ → HttpResponse → HttpResponse
marked total r = record (mark_sent r) { last_built_bytes = total }

serialize_headers-marked :
    (date : Text) (total n : ℕ) (r : HttpResponse)
    → serialize_headers date r n ≡ serialize_headers date (marked total r) n
unfolding marked serialize_headers
serialize_headers-marked date total n r = refl

pub is_sent-marked : (total : ℕ) (r : HttpResponse) → is_sent (marked total r) ≡ true
unfolding is_sent marked
is_sent-marked total r = refl

payload-marked : (total : ℕ) (r : HttpResponse) → payload (marked total r) ≡ payload r
unfolding no_body marked
payload-marked total r = refl

pub buffer_from_bytes-allocated :
    (pool : Pool) (bytes : Text)
    → pool (u32 (length bytes)) ≡ true
    → suc (length bytes) ≤ 2 ^ 32
    → some bytes ≡ buffer_from_bytes pool bytes
buffer_from_bytes-allocated pool bytes h short = rw h (ap some (sym (committed_all bytes short)))

inline_bound : (n : ℕ) → leb n inline_response_max_bytes ≡ true → suc n ≤ 2 ^ 32
inline_bound n h = ground arith

send-Delivers :
    (date : Text) (pool : Pool) (r : HttpResponse)
    → is_sent r ≡ false
    → r.attached ≡ true
    → pool (u32 (length (serialize_headers date r (length r.body)))) ≡ true
    → suc (length (serialize_headers date r (length r.body))) ≤ 2 ^ 32
    → Delivers (serialize_headers date r (length r.body)) (payload r) (send date pool r)
unfolding send marked
send-Delivers date pool r new there allocated bounded =
    if_elim Good (is_sent r) ([], r)
      (if not r.attached then ([], mark_sent r) else out (buffer_from_bytes pool headers))
      (λ old. absurd (cc (old, new)))
      (λ _.
        if_elim Good (not r.attached) ([], mark_sent r) (out (buffer_from_bytes pool headers))
          (λ gone. absurd (cc (gone, ap not there)))
          (λ _.
            subst (λ o. Good (out o)) (buffer_from_bytes-allocated pool headers allocated bounded)
              (if_elim Good (leb total inline_response_max_bytes)
                (send_built (marked total r) (some headers) (build date pool (marked total r)))
                (send_parts (marked total r) (some headers))
                (λ short.
                  subst
                    (λ p. Delivers headers p (
                      send_built (marked total r) (some headers)
                        (build date pool (marked total r))))
                    (payload-marked total r)
                    (build-Delivers date headers pool (marked total r) (is_sent-marked total r)
                      (serialize_headers-marked date total (length r.body) r)
                      (omega
                        (arith, inline_bound total short, ap length (payload-marked total r)))))
                (λ long.
                  subst (λ p. Delivers headers p (send_parts (marked total r) (some headers)))
                    (payload-marked total r)
                    (send_parts-Delivers headers (marked total r) (is_sent-marked total r))))))
  where
    headers : Text
    headers = serialize_headers date r (length r.body)

    total : ℕ
    total = length headers + length (payload r)

    Good : List SessionCall × HttpResponse → Type 0
    Good q = Delivers headers (payload r) q

    out : Option Text → List SessionCall × HttpResponse
    out o =
        if leb total inline_response_max_bytes
        then send_built (marked total r) o (build date pool (marked total r))
        else send_parts (marked total r) o

-- A response that was not sent, with its session, a pool that allocates its headers, and headers of fewer
-- than 2^32 bytes: `Send` makes one call of the session, with the headers and the body, or no body for a
-- response without one, in one buffer or as headers with a stream of the body, and it is then sent.
pub send-response_bytes :
    (date : Text) (pool : Pool) (r : HttpResponse)
    → is_sent r ≡ false
    → r.attached ≡ true
    → pool (u32 (length (serialize_headers date r (length r.body)))) ≡ true
    → suc (length (serialize_headers date r (length r.body))) ≤ 2 ^ 32
    → Gives (serialize_headers date r (length r.body)) (payload r) (send date pool r).0
      × (is_sent (send date pool r).1 ≡ true)
unfolding Delivers
send-response_bytes date pool r new there allocated bounded =
    send-Delivers date pool r new there allocated bounded
