-- ===== src/Tests/Parsing.antt =====
-- A concrete request as the parser library reports it: src/modules/web/HttpParser.cpp.
use iouring_runtime.Prelude.{true, List, [], ◌∷◌, none, codes, ◌≡◌, refl, arith, drop}
use iouring_runtime.Web.Method.{from_llhttp}
use iouring_runtime.Web.Request.{
  clear, content_length, get_header, find_header, case_insensitive_equal, to_lower,
}
use iouring_runtime.Web.Parser.{
  default_options, Callbacks, new_parser, Event, message_begin, url, url_complete, header_field,
  header_value, header_value_complete, headers_complete, body, message_complete, on_event,
  on_events, on_message_begin, on_url, on_url_complete, parse_url, on_header_field, on_header_value,
  on_header_value_complete, on_headers_complete, on_body, on_message_complete, body_too_large,
}
use iouring_runtime.Web.Parser.Counts.{IsBounded}
use iouring_runtime.Web.Parser.Bounds.{
  sized_url, sized_field, sized_value, sized_body, begins, url_ends, value_ends, headers_end,
  message_ends, AllSized, no_events, and, on_events-IsBounded,
}

-- callbacks that are not set
abbrev no_callbacks : Callbacks
no_callbacks = record {
  on_headers = none;
  on_body_chunk = none;
  on_request = none;
  from_chars = λ t. none;
}

abbrev request : List Event
request =
    message_begin
    ∷ url (codes "/a")
    ∷ url (codes "?b=1")
    ∷ url_complete
    ∷ header_field (codes "Host")
    ∷ header_value (codes "x")
    ∷ header_value_complete
    ∷ headers_complete 3 true
    ∷ body (codes "hi")
    ∷ message_complete
    ∷ []

request_path :
    (on_events no_callbacks request (new_parser default_options)).request.path ≡ codes "/a"
unfolding on_event on_message_begin clear on_url on_url_complete parse_url on_header_field
    on_header_value on_header_value_complete on_headers_complete content_length get_header
    find_header case_insensitive_equal to_lower on_body on_message_complete from_llhttp
request_path = refl

-- A body past the limit is refused with its first piece that does not fit.
too_large :
    (on_events no_callbacks
      (body (codes "ab") ∷ body (codes "cd") ∷ [])
      (new_parser (record default_options { max_body_bytes = 3 }))).status
    ≡ body_too_large
unfolding on_event on_body
too_large = refl

sized_request : AllSized request
sized_request = and message_begin (drop 1 request) begins (
    and (url (codes "/a")) (drop 2 request) (sized_url (codes "/a") (omega arith)) (
      and (url (codes "?b=1")) (drop 3 request) (sized_url (codes "?b=1") (omega arith)) (
        and url_complete (drop 4 request) url_ends (
          and (header_field (codes "Host")) (drop 5 request)
            (sized_field (codes "Host") (omega arith))
            (and (header_value (codes "x")) (drop 6 request) (sized_value (codes "x") (omega arith))
              (and header_value_complete (drop 7 request) value_ends (
                and (headers_complete 3 true) (drop 8 request) (headers_end 3 true) (
                  and (body (codes "hi")) (drop 9 request) (sized_body (codes "hi") (omega arith))
                    (and message_complete [] message_ends no_events)))))))))

on_events-IsBounded_example :
    IsBounded default_options (on_events no_callbacks request (new_parser default_options))
on_events-IsBounded_example =
    on_events-IsBounded default_options no_callbacks request (new_parser default_options)
      (record { url_small = omega arith; header_small = omega arith; body_small = omega arith })
      (record {
        by_headers = λ r. (refl, refl);
        by_chunk = λ f r t e. absurd cc;
        by_request = λ f r e. absurd cc;
      })
      sized_request
      (record {
        limits = refl;
        url_limit = omega arith;
        header_limit = omega arith;
        body_limit = omega arith;
        headers_counted = omega arith;
        body_counted = omega arith;
      })
