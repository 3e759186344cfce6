-- ===== src/Web/Parser.antt =====
-- include/iouring_runtime/web/HttpParser.h and src/modules/web/HttpParser.cpp: the callbacks of the parser
-- library, which build a request within limits. The library is not part of the repository: what it calls,
-- with which bytes, is a list of events.
pub mod Counts
pub mod Bounds
use iouring_runtime.Prelude.{
  ℕ, zero, suc, ◌+◌, ◌%◌, ◌^◌, Bool, true, false, not, List, [], ◌∷◌, ◌++◌, Option, none, some,
  if◌then◌else◌, ltb, Text, index_of, take, drop, length, u32, add64,
}
use iouring_runtime.Web.Method.{HttpMethod, from_llhttp}
use iouring_runtime.Web.Request.{
  HttpRequest, FromChars, new_request, clear, add_header, content_length,
}

pub data HttpBodyMode : Type 0 where
  buffer discard stream : HttpBodyMode

pub data HttpParseStatus : Type 0 where
  ok bad_request url_too_long headers_too_large body_too_large : HttpParseStatus

pub record HttpParserOptions : Type 0 where
  pub max_url_bytes : ℕ
  pub max_header_bytes : ℕ
  pub max_body_bytes : ℕ

abbrev pub default_options : HttpParserOptions
default_options = record {
  max_url_bytes = 8192;
  max_header_bytes = 32768;
  max_body_bytes = 10485760;
}

-- What the session does in the callbacks that it sets: an answer, and the request after it.
pub record Callbacks : Type 0 where
  pub on_headers : Option (HttpRequest → HttpBodyMode × HttpRequest)
  pub on_body_chunk : Option (HttpRequest → Text → Bool × HttpRequest)
  pub on_request : Option (HttpRequest → Bool × HttpRequest)
  pub from_chars : FromChars

pub record HttpParser : Type 0 where
  pub request : HttpRequest
  pub options : HttpParserOptions
  pub status : HttpParseStatus
  pub stop_requested : Bool
  pub body_mode : HttpBodyMode
  pub header_bytes_used : ℕ
  pub body_bytes_seen : ℕ
  pub current_header_field : Text
  pub current_header_value : Text
  pub raw_url : Text

abbrev pub new_parser : HttpParserOptions → HttpParser
new_parser options = record {
  request = new_request;
  options = options;
  status = ok;
  stop_requested = false;
  body_mode = buffer;
  header_bytes_used = 0;
  body_bytes_seen = 0;
  current_header_field = [];
  current_header_value = [];
  raw_url = [];
}

-- what a callback answers to the library: 0, `HPE_USER` or `HPE_PAUSED`
pub data Answer : Type 0 where
  go_on user_error paused : Answer

unfoldable pub has_error : HttpParser → Bool
has_error p = elim p.status [ ok ↦ false | _ ↦ true ]

unfoldable pub reset : HttpParser → HttpParser
reset p = new_parser p.options

unfoldable pub on_message_begin : HttpParser → Answer × HttpParser
unfolding clear
on_message_begin p = (
  go_on,
  record p {
    request = clear p.request;
    current_header_field = [];
    current_header_value = [];
    raw_url = [];
    stop_requested = false;
    body_mode = buffer;
    header_bytes_used = 0;
    body_bytes_seen = 0;
  },
)

unfoldable pub on_url : Text → HttpParser → Answer × HttpParser
on_url bytes p =
    if ltb p.options.max_url_bytes (add64 (length p.raw_url) (length bytes))
    then (user_error, record p { status = url_too_long })
    else (go_on, record p { raw_url = p.raw_url ++ bytes })

-- the path and the query of a URL
abbrev pub split_url : Option ℕ → Text → Text × Text
split_url none url = (url, [])
split_url (some pos) url = (take pos url, drop (suc pos) url)

unfoldable pub parse_url : Text → HttpRequest → HttpRequest
parse_url url r =
    let (path, query) = split_url (index_of 63 url) url in record r { path = path; query = query }

unfoldable pub on_url_complete : HttpParser → Answer × HttpParser
on_url_complete p = (go_on, record p { request = parse_url p.raw_url p.request })

unfoldable pub on_header_field : Text → HttpParser → Answer × HttpParser
on_header_field bytes p =
    if ltb p.options.max_header_bytes (add64 p.header_bytes_used (length bytes))
    then (user_error, record p { status = headers_too_large })
    else (
      go_on,
      record p {
        header_bytes_used = u32 (p.header_bytes_used + u32 (length bytes));
        current_header_field = p.current_header_field ++ bytes;
      },
    )

unfoldable pub on_header_value : Text → HttpParser → Answer × HttpParser
on_header_value bytes p =
    if ltb p.options.max_header_bytes (add64 p.header_bytes_used (length bytes))
    then (user_error, record p { status = headers_too_large })
    else (
      go_on,
      record p {
        header_bytes_used = u32 (p.header_bytes_used + u32 (length bytes));
        current_header_value = p.current_header_value ++ bytes;
      },
    )

unfoldable pub on_header_value_complete : HttpParser → Answer × HttpParser
on_header_value_complete p = (
  go_on,
  record p {
    request = add_header p.current_header_field p.current_header_value p.request;
    current_header_field = [];
    current_header_value = [];
  },
)

abbrev pub ask_headers :
    Option (HttpRequest → HttpBodyMode × HttpRequest) → HttpRequest → HttpBodyMode × HttpRequest
ask_headers none r = (buffer, r)
ask_headers (some on_headers) r = on_headers r

-- the method's number and whether to keep the connection are what the library answers
unfoldable pub on_headers_complete : Callbacks → ℕ → Bool → HttpParser → Answer × HttpParser
on_headers_complete cs method keep_alive p =
    let r = record (p.request) { method = from_llhttp method; keep_alive = keep_alive } in
    let asked = ask_headers cs.on_headers r in
    let p' = record p { request = asked.1; body_mode = asked.0 } in
    if ltb p.options.max_body_bytes (content_length cs.from_chars asked.1)
    then (user_error, record p' { status = body_too_large })
    else (go_on, p')

-- `OnBody` with a body that is not too long, by what is done with it
abbrev pub take_chunk :
    Option (HttpRequest → Text → Bool × HttpRequest)
    → HttpBodyMode
    → Text
    → HttpParser
    → Answer × HttpParser
take_chunk on_chunk buffer bytes p =
    (go_on, record p { request = record (p.request) { body = p.request.body ++ bytes } })
take_chunk on_chunk discard bytes p = (go_on, p)
take_chunk none stream bytes p = (go_on, p)
take_chunk (some on_chunk) stream bytes p =
    let (accepted, r) = on_chunk p.request bytes in
    if accepted
    then (go_on, record p { request = r })
    else (user_error, record p { request = r; status = bad_request })

unfoldable pub on_body : Callbacks → Text → HttpParser → Answer × HttpParser
on_body cs bytes p =
    if ltb p.options.max_body_bytes (add64 p.body_bytes_seen (length bytes))
    then (user_error, record p { status = body_too_large })
    else take_chunk cs.on_body_chunk p.body_mode bytes
        (record p { body_bytes_seen = add64 p.body_bytes_seen (u32 (length bytes)) })

abbrev pub ask_request : Option (HttpRequest → Bool × HttpRequest) → HttpParser → HttpParser
ask_request none p = p
ask_request (some on_request) p =
    let (should_continue, r) = on_request p.request in
    record p { request = r; stop_requested = if should_continue then p.stop_requested else true }

unfoldable pub on_message_complete : Callbacks → HttpParser → Answer × HttpParser
on_message_complete cs p = (paused, ask_request cs.on_request p)

-- a call of the library
pub data Event : Type 0 where
  message_begin url_complete header_field_complete header_value_complete message_complete : Event
  url header_field header_value body : Text → Event
  headers_complete : ℕ → Bool → Event

unfoldable pub on_event : Callbacks → Event → HttpParser → Answer × HttpParser
on_event cs message_begin p = on_message_begin p
on_event cs (url bytes) p = on_url bytes p
on_event cs url_complete p = on_url_complete p
on_event cs (header_field bytes) p = on_header_field bytes p
on_event cs header_field_complete p = (go_on, p)
on_event cs (header_value bytes) p = on_header_value bytes p
on_event cs header_value_complete p = on_header_value_complete p
on_event cs (headers_complete method keep_alive) p = on_headers_complete cs method keep_alive p
on_event cs (body bytes) p = on_body cs bytes p
on_event cs message_complete p = on_message_complete cs p

abbrev pub on_events : Callbacks → List Event → HttpParser → HttpParser
on_events cs [] p = p
on_events cs (e ∷ es) p = on_events cs es (on_event cs e p).1
