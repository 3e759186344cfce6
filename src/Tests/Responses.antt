-- ===== src/Tests/Responses.antt =====
-- Concrete responses: src/modules/web/HttpResponse.cpp.
use iouring_runtime.Prelude.{
  suc, ◌^◌, ◌≤◌, length, true, false, [], some, if◌then◌else◌, Text, codes, ◌≡◌, refl, arith,
}
use iouring_runtime.Web.Status.{status_code, http_status_to_string}
use iouring_runtime.Web.Response.{
  HttpResponse, new_response, set_body, header, has_header, remove_header, header_name_equals,
  has_header_in, lower, status_must_not_have_body, is_sent,
}
use iouring_runtime.Web.Response.Headers.{has_header-remove_header}
use iouring_runtime.Web.Response.Sending.{
  Pool, send, payload, serialize_headers, to_decimal, digits, no_body, build, build_buffers,
}
use iouring_runtime.Web.Response.Sending.Wire.{Gives, response_bytes, send-response_bytes}
use iouring_runtime.Web.Response.Sending.Chunks.{concat, build_buffers-build}
use iouring_runtime.Web.Response.Sending.Once.{send-twice}

abbrev hello : HttpResponse
hello = header (codes "X-Tag") (codes "7") (set_body (codes "hello") (new_response true))

has_header-remove_header_example :
    has_header (remove_header hello (codes "x-tag")) (codes "X-TAG") ≡ (
      if header_name_equals (codes "x-tag") (codes "X-TAG")
      then false
      else has_header hello (codes "X-TAG"))
has_header-remove_header_example = has_header-remove_header hello (codes "x-tag") (codes "X-TAG")

abbrev pub date : Text
date = codes "Thu, 01 Jan 1970 00:00:00 GMT"

-- a pool that allocates whatever is asked
abbrev pub ample : Pool
ample n = true

hello_new : is_sent hello ≡ false
unfolding is_sent
hello_new = refl

short_headers : suc (length (serialize_headers date hello (length hello.body))) ≤ 2 ^ 32
unfolding serialize_headers to_decimal digits status_must_not_have_body http_status_to_string
    status_code header_name_equals has_header_in lower
short_headers = omega arith

send-response_bytes_example :
    Gives
      (serialize_headers date hello (length hello.body))
      (payload hello)
      (send date ample hello).0
    × (is_sent (send date ample hello).1 ≡ true)
send-response_bytes_example = send-response_bytes date ample hello hello_new refl refl short_headers

send-twice_example : (send (codes "later") ample (send date ample hello).1).0 ≡ []
send-twice_example = send-twice date (codes "later") ample ample hello

short_response : suc (length (response_bytes date hello)) ≤ 2 ^ 32
unfolding serialize_headers to_decimal digits status_must_not_have_body http_status_to_string
    status_code header_name_equals has_header_in lower no_body
short_response = omega arith

build_buffers-build_example :
    ((build date ample hello).0 ≡ some (response_bytes date hello))
    × (concat (build_buffers date ample 2 hello).0 ≡ response_bytes date hello)
build_buffers-build_example = build_buffers-build date ample 2 hello (λ n. refl) short_response
