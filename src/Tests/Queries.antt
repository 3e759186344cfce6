-- ===== src/Tests/Queries.antt =====
-- Concrete requests: include/iouring_runtime/web/HttpRequest.h.
use iouring_runtime.Prelude.{[], ◌∷◌, none, Text, codes, ◌≡◌, refl}
use iouring_runtime.Web.Request.{
  HttpRequest, new_request, find_query_param, find_in_query, find_in_params, cookie,
  find_in_cookies, trim_ascii_whitespace, get_header, find_header, case_insensitive_equal, to_lower,
  percent_decode, escaped, hex_value, convert_bool, query_param_decoded,
}
use iouring_runtime.Web.Request.Query.{query_of, no_params, and, find_query_param-query_of}

abbrev page : Text × Text
page = (codes "page", codes "2")

abbrev words : Text × Text
words = (codes "q", codes "a+b%21")

find_query_param-query_of_example :
    find_query_param (record new_request { query = query_of (page ∷ words ∷ []) }) (codes "q")
    ≡ find_in_params (page ∷ words ∷ []) (codes "q")
find_query_param-query_of_example =
    find_query_param-query_of new_request (page ∷ words ∷ []) (codes "q")
      (and page (words ∷ []) refl refl (and words [] refl refl no_params))

found :
    query_param_decoded (record new_request { query = codes "page=2&q=a+b%21&&x" }) (codes "q")
    ≡ codes "a b!"
unfolding query_param_decoded find_query_param find_in_query percent_decode escaped hex_value
found = refl

abbrev with_cookies : HttpRequest
with_cookies = record new_request {
  headers = record { name = codes "cookie"; value = codes "a=1; session = s7 ;b" } ∷ [];
}

session_cookie : cookie with_cookies (codes "session") ≡ codes "s7"
unfolding cookie get_header find_header case_insensitive_equal to_lower find_in_cookies
    trim_ascii_whitespace
session_cookie = refl

no_bool : convert_bool (codes "yes") ≡ none
unfolding convert_bool
no_bool = refl
