-- ===== src/Web/Response/Sending.antt =====
-- src/modules/web/HttpResponse.cpp: the bytes of a response and the calls that send them. The date comes
-- from the clock: its text is an argument. The pool's answers are too: whether it allocates a size.
pub mod Wire
pub mod Chunks
pub mod Once
use iouring_runtime.Prelude.{
  ℕ, zero, suc, ◌+◌, ◌-◌, ◌*◌, ◌/◌, ◌%◌, ◌^◌, ◌≤◌, min, max, Bool, true, false, ◌&&◌, ◌||◌, not,
  List, [], ◌∷◌, ◌++◌, Option, none, some, if◌then◌else◌, leb, ltb, ◌==◌, length, take, drop, Text,
  codes, u32,
}
use iouring_runtime.Web.Status.{HttpStatus, no_content, status_code, http_status_to_string}
use iouring_runtime.Web.Response.{
  HttpResponse, HeaderPair, State, open_state, sent, deferred, header_name_equals, has_header_in,
  status_must_not_have_body, is_empty, is_sent, new_response, set_status, set_keep_alive,
}

-- `std::to_string` of a number that is not negative; the fuel is the number.
unfoldable pub digits : ℕ → ℕ → Text
digits zero n = (48 + n % 10) ∷ []
digits (suc fuel) n =
    let front = digits fuel (n / 10) in
    if ltb n 10 then (48 + n) ∷ [] else front ++ (48 + n % 10) ∷ []

unfoldable pub to_decimal : ℕ → Text
to_decimal n = digits n n

abbrev pub crlf : Text
crlf = 13 ∷ 10 ∷ []

abbrev pub unless : Bool → Text → Text
unless true t = []
unless false t = t

-- the last loop of `SerializeHeaders`
abbrev pub header_lines : Bool → List HeaderPair → Text
header_lines status_no_body [] = []
header_lines status_no_body (h ∷ hs) =
    let rest = header_lines status_no_body hs in
    if status_no_body && header_name_equals h.name (codes "Content-Length")
    then rest
    else h.name ++ codes ": " ++ h.value ++ crlf ++ rest

-- `SerializeHeaders`; a name that is one of the five is none of the others, so that the chain of `else if`
-- finds each of them in the list.
unfoldable pub serialize_headers : Text → HttpResponse → ℕ → Text
serialize_headers date r body_size =
    let status_no_body = status_must_not_have_body r.status in
    let has = has_header_in r.headers in
    codes "HTTP/1.1 "
    ++ to_decimal (status_code r.status)
    ++ codes " "
    ++ http_status_to_string r.status
    ++ crlf
    ++ unless (has (codes "Server")) (codes "Server: iouring_runtime_web" ++ crlf)
    ++ unless (has (codes "Date")) (codes "Date: " ++ date ++ crlf)
    ++ unless (has (codes "Content-Type") || is_empty r.content_type)
        (codes "Content-Type: " ++ r.content_type ++ crlf)
    ++ unless (has (codes "Content-Length") || status_no_body)
        (codes "Content-Length: " ++ to_decimal body_size ++ crlf)
    ++ unless (has (codes "Connection")) (
        codes "Connection: "
        ++ (if r.keep_alive then codes "keep-alive" else codes "close")
        ++ crlf)
    ++ header_lines status_no_body r.headers
    ++ crlf

-- what the pool answers to an allocation of a size
abbrev pub Pool : Type 0
Pool = ℕ → Bool

unfoldable pub no_body : HttpResponse → Bool
no_body r = status_must_not_have_body r.status || r.suppress_body

abbrev pub payload : HttpResponse → Text
payload r = if no_body r then [] else r.body

-- What a buffer holds after `Allocate`, `memcpy` and `Commit` of some bytes: its size is cut to 32 bits.
-- The copy is of all bytes, so from 2^32 on it goes past the buffer, into memory that is not modelled.
abbrev pub committed : Text → Text
committed bytes = take (u32 (length bytes)) bytes

abbrev pub buffer_from_bytes : Pool → Text → Option Text
buffer_from_bytes pool bytes = if pool (u32 (length bytes)) then some (committed bytes) else none

-- `Build`, with `last_built_bytes_`, which is not cut
unfoldable pub build : Text → Pool → HttpResponse → Option Text × HttpResponse
build date pool r =
    let bytes = serialize_headers date r (length r.body) ++ payload r in
    if pool (u32 (length bytes))
    then (some (committed bytes), record r { last_built_bytes = length bytes })
    else (none, r)

-- Nothing is returned when one of the allocations fails.
abbrev pub push_front : Option Text → Option (List Text) → Option (List Text)
push_front none rest = none
push_front (some buffer) none = none
push_front (some buffer) (some buffers) = some (buffer ∷ buffers)

-- The loop of `BuildBuffers` over the body from `offset`; the fuel is its length.
unfoldable pub body_buffers : ℕ → Pool → ℕ → Text → Option (List Text)
body_buffers zero pool chunk_size body = some []
body_buffers (suc fuel) pool chunk_size [] = some []
body_buffers (suc fuel) pool chunk_size (b ∷ body) =
    let next_size = min chunk_size (length (b ∷ body)) in
    let rest = body_buffers fuel pool chunk_size (drop next_size (b ∷ body)) in
    push_front (buffer_from_bytes pool (take next_size (b ∷ body))) rest

-- The end of `BuildBuffers`; no buffer stands for the empty vector of a failed allocation.
abbrev pub built_buffers : HttpResponse → ℕ → Option (List Text) → List Text × HttpResponse
built_buffers r total_size none = ([], r)
built_buffers r total_size (some buffers) = (buffers, record r { last_built_bytes = total_size })

unfoldable pub build_buffers : Text → Pool → ℕ → HttpResponse → List Text × HttpResponse
build_buffers date pool body_chunk_size r =
    let headers = serialize_headers date r (length r.body) in
    let chunk_size = max body_chunk_size 1 in
    built_buffers r (length headers + length (payload r)) (
      push_front (buffer_from_bytes pool headers)
        (body_buffers (length (payload r)) pool chunk_size (payload r)))

-- the calls of the session
pub data SessionCall : Type 0 where
  send_response : Text → SessionCall
  start_body_stream : Text → Text → SessionCall

abbrev pub inline_response_max_bytes : ℕ
inline_response_max_bytes = 256 * 1024

-- The end of `Send`, with the header buffer: the response goes out in it, and the body as a stream.
abbrev pub send_parts : HttpResponse → Option Text → List SessionCall × HttpResponse
send_parts r none = ([], r)
send_parts r (some header) =
    if no_body r || is_empty r.body
    then (send_response header ∷ [], r)
    else (start_body_stream header r.body ∷ [], record r { body = [] })

-- The branch of `Send` for a short response, with what `Build` gives.
abbrev pub send_built :
    HttpResponse → Option Text → Option Text × HttpResponse → List SessionCall × HttpResponse
send_built r header (none, r') = send_parts r header
send_built r header (some buffer, r') = (send_response buffer ∷ [], r')

abbrev pub mark_sent : HttpResponse → HttpResponse
mark_sent r = record r { state = sent }

unfoldable pub send : Text → Pool → HttpResponse → List SessionCall × HttpResponse
send date pool r =
    let headers = serialize_headers date r (length r.body) in
    let total_size = length headers + length (payload r) in
    let r' = record (mark_sent r) { last_built_bytes = total_size } in
    if is_sent r
    then ([], r)
    else if not r.attached
    then ([], mark_sent r)
    else if leb total_size inline_response_max_bytes
    then send_built r' (buffer_from_bytes pool headers) (build date pool r')
    else send_parts r' (buffer_from_bytes pool headers)

-- `NoContent`
unfoldable pub no_content_response : Text → Pool → Bool → Option Text
no_content_response date pool keep_alive =
    (build date pool (set_keep_alive keep_alive (set_status no_content (new_response false)))).0
