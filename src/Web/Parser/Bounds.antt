-- ===== src/Web/Parser/Bounds.antt =====
-- include/iouring_runtime/web/HttpParser.h and src/modules/web/HttpParser.cpp: how much a parser keeps,
-- whatever the library calls.
use iouring_runtime.Prelude.{
  ℕ, ◌+◌, ◌^◌, ◌≤◌, ◌<◌, Bool, List, [], ◌∷◌, Option, none, some, ltb, Text, length, u32, add64,
  ◌≡◌, refl, ap, arith, if_elim, length-append,
}
use iouring_runtime.Web.Method.{from_llhttp}
use iouring_runtime.Web.Request.{HttpRequest, clear, content_length}
use iouring_runtime.Web.Parser.{
  HttpBodyMode, buffer, discard, stream, HttpParserOptions, Callbacks, HttpParser, go_on,
  user_error, body_too_large, bad_request, on_message_begin, parse_url, on_url_complete,
  ask_headers, on_headers_complete, take_chunk, on_body, ask_request, on_message_complete, Event,
  message_begin, url_complete, header_field_complete, header_value_complete, message_complete, url,
  header_field, header_value, body, headers_complete, on_event, on_events,
}
use iouring_runtime.Web.Parser.Counts.{
  IsBounded, IsSmall, Good, keeps_status, on_url-IsBounded, on_header_field-IsBounded,
  on_header_value-IsBounded, on_header_value_complete-IsBounded,
}

-- The session's callbacks leave the headers and the body of the request as they are.
pub record Keeps (cs : Callbacks) : Type 0 where
  pub by_headers :
      (r : HttpRequest)
      → ((ask_headers cs.on_headers r).1.headers ≡ r.headers)
        × ((ask_headers cs.on_headers r).1.body ≡ r.body)
  pub by_chunk :
      (f : HttpRequest → Text → Bool × HttpRequest) (r : HttpRequest) (t : Text)
      → cs.on_body_chunk ≡ some f
      → ((f r t).1.headers ≡ r.headers) × ((f r t).1.body ≡ r.body)
  pub by_request :
      (f : HttpRequest → Bool × HttpRequest) (r : HttpRequest)
      → cs.on_request ≡ some f
      → ((f r).1.headers ≡ r.headers) × ((f r).1.body ≡ r.body)

-- The bytes of a call come from one `Feed`, whose length has 32 bits.
pub data Sized : Event → Type 0 where
  sized_url : (t : Text) → length t < 2 ^ 32 → Sized (url t)
  sized_field : (t : Text) → length t < 2 ^ 32 → Sized (header_field t)
  sized_value : (t : Text) → length t < 2 ^ 32 → Sized (header_value t)
  sized_body : (t : Text) → length t < 2 ^ 32 → Sized (body t)
  begins : Sized message_begin
  url_ends : Sized url_complete
  field_ends : Sized header_field_complete
  value_ends : Sized header_value_complete
  headers_end : (m : ℕ) (k : Bool) → Sized (headers_complete m k)
  message_ends : Sized message_complete

module _ (o : HttpParserOptions) (small : IsSmall o) (cs : Callbacks) (keeps : Keeps cs) where
  on_headers_complete-IsBounded :
      (method : ℕ) (keep_alive : Bool) (p : HttpParser)
      → IsBounded o p
      → IsBounded o (on_headers_complete cs method keep_alive p).1
  unfolding on_headers_complete
  on_headers_complete-IsBounded method keep_alive p i =
      if_elim (Good o small) (ltb p.options.max_body_bytes (content_length cs.from_chars asked.1))
        (user_error, record p' { status = body_too_large }) (go_on, p')
        (λ long.
          keeps_status o small p (record p' { status = body_too_large }) refl refl refl refl refl
            refl (keeps.by_headers r).0 (keeps.by_headers r).1 i)
        (λ fits.
          keeps_status o small p p' refl refl refl refl refl refl (keeps.by_headers r).0
            (keeps.by_headers r).1 i)
    where
      r : HttpRequest
      r = record (p.request) { method = from_llhttp method; keep_alive = keep_alive }

      asked : HttpBodyMode × HttpRequest
      asked = ask_headers cs.on_headers r

      p' : HttpParser
      p' = record p { request = asked.1; body_mode = asked.0 }

  -- A chunk that was counted is kept at most once.
  take_chunk-IsBounded :
      (c : Option (HttpRequest → Text → Bool × HttpRequest)) (mode : HttpBodyMode) (t : Text)
      (p : HttpParser)
      → cs.on_body_chunk ≡ c
      → length p.request.body + length t ≤ p.body_bytes_seen
      → IsBounded o p
      → IsBounded o (take_chunk c mode t p).1
  take_chunk-IsBounded c buffer t p e h i = record {
    limits = i.limits;
    url_limit = i.url_limit;
    header_limit = i.header_limit;
    body_limit = i.body_limit;
    headers_counted = i.headers_counted;
    body_counted = omega (arith, length-append p.request.body t, h);
  }
  take_chunk-IsBounded c discard t p e h i = i
  take_chunk-IsBounded none stream t p e h i = i
  take_chunk-IsBounded (some f) stream t p e h i =
      let kept = keeps.by_chunk f p.request t e in
      if_elim (Good o small) (f p.request t).0 (go_on, record p { request = (f p.request t).1 })
        (user_error, record p { request = (f p.request t).1; status = bad_request })
        (λ _.
          keeps_status o small p (record p { request = (f p.request t).1 }) refl refl refl refl refl
            refl kept.0 kept.1 i)
        (λ _.
          keeps_status o small p (record p { request = (f p.request t).1; status = bad_request })
            refl refl refl refl refl refl kept.0 kept.1 i)

  on_body-IsBounded :
      (t : Text) (p : HttpParser)
      → length t < 2 ^ 32
      → IsBounded o p
      → IsBounded o (on_body cs t p).1
  unfolding on_body
  on_body-IsBounded t p h i =
      if_elim (Good o small) (ltb p.options.max_body_bytes (add64 p.body_bytes_seen (length t)))
        (user_error, record p { status = body_too_large })
        (take_chunk cs.on_body_chunk p.body_mode t p')
        (λ long.
          keeps_status o small p (record p { status = body_too_large }) refl refl refl refl refl
            refl refl refl i)
        (λ fits.
          let within : add64 p.body_bytes_seen (length t) ≤ p.options.max_body_bytes =
            ground arith in
          let same = ap (λ q. q.max_body_bytes) i.limits in
          let sum : add64 p.body_bytes_seen (u32 (length t)) ≡ p.body_bytes_seen + length t =
            omega (arith, i.body_limit, small.body_small, h) in
          take_chunk-IsBounded cs.on_body_chunk p.body_mode t p' refl
            (omega (arith, sum, i.body_counted))
            (record {
              limits = i.limits;
              url_limit = i.url_limit;
              header_limit = i.header_limit;
              body_limit = omega (arith, sum, within, same, i.body_limit, small.body_small, h);
              headers_counted = i.headers_counted;
              body_counted = omega (arith, sum, i.body_counted);
            }))
    where
      p' : HttpParser
      p' = record p { body_bytes_seen = add64 p.body_bytes_seen (u32 (length t)) }

  ask_request-IsBounded :
      (c : Option (HttpRequest → Bool × HttpRequest)) (p : HttpParser)
      → cs.on_request ≡ c
      → IsBounded o p
      → IsBounded o (ask_request c p)
  ask_request-IsBounded none p e i = i
  ask_request-IsBounded (some f) p e i =
      let kept = keeps.by_request f p.request e in
      keeps_status o small p (ask_request (some f) p) refl refl refl refl refl refl kept.0 kept.1 i

  on_event-IsBounded :
      (e : Event) (p : HttpParser) → Sized e → IsBounded o p → IsBounded o (on_event cs e p).1
  unfolding on_event on_message_begin on_url_complete parse_url on_message_complete clear
  on_event-IsBounded message_begin p s i = record {
    limits = i.limits;
    url_limit = omega arith;
    header_limit = omega arith;
    body_limit = omega arith;
    headers_counted = omega arith;
    body_counted = omega arith;
  }
  on_event-IsBounded (url t) p (sized_url _ h) i = on_url-IsBounded o small t p h i
  on_event-IsBounded url_complete p s i =
      keeps_status o small p (record p { request = parse_url p.raw_url p.request }) refl refl refl
        refl refl refl refl refl i
  on_event-IsBounded (header_field t) p (sized_field _ h) i =
      on_header_field-IsBounded o small t p h i
  on_event-IsBounded header_field_complete p s i = i
  on_event-IsBounded (header_value t) p (sized_value _ h) i =
      on_header_value-IsBounded o small t p h i
  on_event-IsBounded header_value_complete p s i = on_header_value_complete-IsBounded o small p i
  on_event-IsBounded (headers_complete m k) p s i = on_headers_complete-IsBounded m k p i
  on_event-IsBounded (body t) p (sized_body _ h) i = on_body-IsBounded t p h i
  on_event-IsBounded message_complete p s i = ask_request-IsBounded cs.on_request p refl i

pub data AllSized : List Event → Type 0 where
  no_events : AllSized []
  and : (e : Event) (es : List Event) → Sized e → AllSized es → AllSized (e ∷ es)

-- Whatever a library calls on a bounded parser, in whatever order and in pieces of any size, with limits of
-- 32 bits and callbacks of the session that leave headers and body alone, the parser stays bounded: the URL,
-- the headers and the body that it keeps are within the limits.
pub on_events-IsBounded :
    (o : HttpParserOptions) (cs : Callbacks) (es : List Event) (p : HttpParser)
    → IsSmall o
    → Keeps cs
    → AllSized es
    → IsBounded o p
    → IsBounded o (on_events cs es p)
on_events-IsBounded o cs [] p small keeps s i = i
on_events-IsBounded o cs (e ∷ es) p small keeps (and _ _ h s) i =
    on_events-IsBounded o cs es (on_event cs e p).1 small keeps s
      (on_event-IsBounded o small cs keeps e p h i)
