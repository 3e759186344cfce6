-- ===== src/Web/Response/Sending/Once.antt =====
-- src/modules/web/HttpResponse.cpp: a call of `Send` after another.
use iouring_runtime.Prelude.{
  ℕ, ◌+◌, true, ◌||◌, not, List, [], ◌∷◌, ◌++◌, Option, none, some, if◌then◌else◌, leb, length,
  Text, u32, ◌≡◌, refl, inl, inr, Bool-cases, if_elim,
}
use iouring_runtime.Web.Status.{HttpStatus}
use iouring_runtime.Web.Response.{HttpResponse, is_sent, is_empty}
use iouring_runtime.Web.Response.Sending.{
  serialize_headers, Pool, no_body, payload, buffer_from_bytes, build, SessionCall, send_response,
  start_body_stream, send_parts, send_built, mark_sent, send, inline_response_max_bytes,
}
use iouring_runtime.Web.Response.Sending.Wire.{marked, is_sent-marked}

idle : (date : Text) (pool : Pool) (r : HttpResponse) → is_sent r ≡ true → (send date pool r).0 ≡ []
unfolding send
idle date pool r old = rw old refl

-- a response that is sent, with a status
Done : HttpStatus → List SessionCall × HttpResponse → Type 0
Done status q = (is_sent q.1 ≡ true) × (q.1.status ≡ status)

send_parts-Done :
    (r : HttpResponse) (o : Option Text) → is_sent r ≡ true → Done r.status (send_parts r o)
unfolding Done is_sent
send_parts-Done r none done = (done, refl)
send_parts-Done r (some headers) done =
    if_elim (Done r.status) (no_body r || is_empty r.body) (send_response headers ∷ [], r)
      (start_body_stream headers r.body ∷ [], record r { body = [] }) (λ _. (done, refl))
      (λ _. (done, refl))

build-Done :
    (date : Text) (pool : Pool) (r : HttpResponse) (o : Option Text)
    → is_sent r ≡ true
    → Done r.status (send_built r o (build date pool r))
unfolding Done is_sent build
build-Done date pool r o done =
    elim (Bool-cases
      (pool (u32 (length (serialize_headers date r (length r.body) ++ payload r))))) [
        | inl allocated ↦ rw allocated (done, refl)
        | inr denied ↦ rw denied (send_parts-Done r o done)
      ]

-- After a call of `Send` the response is sent and has its status, whatever the pool answers.
pub send-Done :
    (date : Text) (pool : Pool) (r : HttpResponse)
    → (is_sent (send date pool r).1 ≡ true) × ((send date pool r).1.status ≡ r.status)
unfolding send marked Done
send-Done date pool r =
    if_elim (Done r.status) (is_sent r) ([], r) (if not r.attached then ([], mark_sent r) else out)
      (λ old. (old, refl))
      (λ _.
        if_elim (Done r.status) (not r.attached) ([], mark_sent r) out
          (λ gone. (is_sent-marked r.last_built_bytes r, refl))
          (λ _.
            if_elim (Done r.status) (leb total inline_response_max_bytes)
              (send_built (marked total r) (buffer_from_bytes pool headers)
                (build date pool (marked total r)))
              (send_parts (marked total r) (buffer_from_bytes pool headers))
              (λ short.
                build-Done date pool (marked total r) (buffer_from_bytes pool headers)
                  (is_sent-marked total r))
              (λ long.
                send_parts-Done (marked total r) (buffer_from_bytes pool headers)
                  (is_sent-marked total r))))
  where
    headers : Text
    headers = serialize_headers date r (length r.body)

    total : ℕ
    total = length headers + length (payload r)

    out : List SessionCall × HttpResponse
    out =
        if leb total inline_response_max_bytes
        then send_built (marked total r) (buffer_from_bytes pool headers)
            (build date pool (marked total r))
        else send_parts (marked total r) (buffer_from_bytes pool headers)

-- A second call of `Send` sends nothing.
pub send-twice :
    (date later : Text) (pool pool' : Pool) (r : HttpResponse)
    → (send later pool' (send date pool r).1).0 ≡ []
send-twice date later pool pool' r = idle later pool' (send date pool r).1 (send-Done date pool r).0
