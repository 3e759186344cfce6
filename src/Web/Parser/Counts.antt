-- ===== src/Web/Parser/Counts.antt =====
-- include/iouring_runtime/web/HttpParser.h and src/modules/web/HttpParser.cpp: the counts of a parser, and
-- the callbacks that keep them.
use iouring_runtime.Prelude.{
  ℕ, ◌+◌, ◌^◌, ◌≤◌, ◌<◌, List, [], ◌∷◌, ◌++◌, ltb, Text, length, u32, add64, ◌≡◌, refl, ap, ◌∙◌,
  arith, if_elim, length-append,
}
use iouring_runtime.Web.Request.{Header}
use iouring_runtime.Web.Parser.{
  HttpParserOptions, HttpParser, Answer, go_on, user_error, url_too_long, headers_too_large, on_url,
  on_header_field, on_header_value, on_header_value_complete,
}

abbrev pub header_size : List Header → ℕ
header_size [] = 0
header_size (h ∷ hs) = length h.name + length h.value + header_size hs

header_size-append :
    (hs : List Header) (h : Header)
    → header_size (hs ++ h ∷ []) ≡ header_size hs + (length h.name + length h.value)
header_size-append [] h = omega arith
header_size-append (g ∷ hs) h = omega (arith, header_size-append hs h)

-- What a parser keeps is counted, and the counts are within the limits.
pub record IsBounded (o : HttpParserOptions) (p : HttpParser) : Type 0 where
  pub limits : p.options ≡ o
  pub url_limit : length p.raw_url ≤ o.max_url_bytes
  pub header_limit : p.header_bytes_used ≤ o.max_header_bytes
  pub body_limit : p.body_bytes_seen ≤ o.max_body_bytes
  pub headers_counted :
      header_size p.request.headers
        + (length p.current_header_field + length p.current_header_value)
      ≤ p.header_bytes_used
  pub body_counted : length p.request.body ≤ p.body_bytes_seen

-- the limits are 32-bit numbers
pub record IsSmall (o : HttpParserOptions) : Type 0 where
  pub url_small : o.max_url_bytes < 2 ^ 32
  pub header_small : o.max_header_bytes < 2 ^ 32
  pub body_small : o.max_body_bytes < 2 ^ 32

module _ (o : HttpParserOptions) (small : IsSmall o) where
  abbrev pub Good : Answer × HttpParser → Type 0
  Good q = IsBounded o q.1

  -- the same, after a change of what is not counted
  pub keeps_status :
      (p q : HttpParser)
      → q.options ≡ p.options
      → q.raw_url ≡ p.raw_url
      → q.header_bytes_used ≡ p.header_bytes_used
      → q.body_bytes_seen ≡ p.body_bytes_seen
      → q.current_header_field ≡ p.current_header_field
      → q.current_header_value ≡ p.current_header_value
      → q.request.headers ≡ p.request.headers
      → q.request.body ≡ p.request.body
      → IsBounded o p
      → IsBounded o q
  keeps_status p q a b c d e f g h i = record {
    limits = a ∙ i.limits;
    url_limit = omega (arith, ap length b, i.url_limit);
    header_limit = omega (arith, c, i.header_limit);
    body_limit = omega (arith, d, i.body_limit);
    headers_counted =
        omega (arith, ap header_size g, ap length e, ap length f, c, i.headers_counted);
    body_counted = omega (arith, ap length h, d, i.body_counted);
  }

  pub on_url-IsBounded :
      (t : Text) (p : HttpParser) → length t < 2 ^ 32 → IsBounded o p → IsBounded o (on_url t p).1
  unfolding on_url
  on_url-IsBounded t p h i =
      if_elim Good (ltb p.options.max_url_bytes (add64 (length p.raw_url) (length t)))
        (user_error, record p { status = url_too_long })
        (go_on, record p { raw_url = p.raw_url ++ t })
        (λ long.
          keeps_status p (record p { status = url_too_long }) refl refl refl refl refl refl refl
            refl i)
        (λ fits.
          let within : add64 (length p.raw_url) (length t) ≤ p.options.max_url_bytes =
            ground arith in
          let same = ap (λ q. q.max_url_bytes) i.limits in
          record {
            limits = i.limits;
            url_limit =
                omega
                  (arith, length-append p.raw_url t, within, same, i.url_limit, small.url_small, h);
            header_limit = i.header_limit;
            body_limit = i.body_limit;
            headers_counted = i.headers_counted;
            body_counted = i.body_counted;
          })

  pub on_header_field-IsBounded :
      (t : Text) (p : HttpParser)
      → length t < 2 ^ 32
      → IsBounded o p
      → IsBounded o (on_header_field t p).1
  unfolding on_header_field
  on_header_field-IsBounded t p h i =
      if_elim Good (ltb p.options.max_header_bytes (add64 p.header_bytes_used (length t)))
        (user_error, record p { status = headers_too_large })
        (
          go_on,
          record p {
            header_bytes_used = u32 (p.header_bytes_used + u32 (length t));
            current_header_field = p.current_header_field ++ t;
          },
        )
        (λ long.
          keeps_status p (record p { status = headers_too_large }) refl refl refl refl refl refl
            refl refl i)
        (λ fits.
          let within : add64 p.header_bytes_used (length t) ≤ p.options.max_header_bytes =
            ground arith in
          let same = ap (λ q. q.max_header_bytes) i.limits in
          let sum : u32 (p.header_bytes_used + u32 (length t)) ≡ p.header_bytes_used + length t =
            omega (arith, within, same, i.header_limit, small.header_small, h) in
          record {
            limits = i.limits;
            url_limit = i.url_limit;
            header_limit = omega (arith, sum, within, same, i.header_limit, small.header_small, h);
            body_limit = i.body_limit;
            headers_counted =
                omega (arith, sum, length-append p.current_header_field t, i.headers_counted);
            body_counted = i.body_counted;
          })

  pub on_header_value-IsBounded :
      (t : Text) (p : HttpParser)
      → length t < 2 ^ 32
      → IsBounded o p
      → IsBounded o (on_header_value t p).1
  unfolding on_header_value
  on_header_value-IsBounded t p h i =
      if_elim Good (ltb p.options.max_header_bytes (add64 p.header_bytes_used (length t)))
        (user_error, record p { status = headers_too_large })
        (
          go_on,
          record p {
            header_bytes_used = u32 (p.header_bytes_used + u32 (length t));
            current_header_value = p.current_header_value ++ t;
          },
        )
        (λ long.
          keeps_status p (record p { status = headers_too_large }) refl refl refl refl refl refl
            refl refl i)
        (λ fits.
          let within : add64 p.header_bytes_used (length t) ≤ p.options.max_header_bytes =
            ground arith in
          let same = ap (λ q. q.max_header_bytes) i.limits in
          let sum : u32 (p.header_bytes_used + u32 (length t)) ≡ p.header_bytes_used + length t =
            omega (arith, within, same, i.header_limit, small.header_small, h) in
          record {
            limits = i.limits;
            url_limit = i.url_limit;
            header_limit = omega (arith, sum, within, same, i.header_limit, small.header_small, h);
            body_limit = i.body_limit;
            headers_counted =
                omega (arith, sum, length-append p.current_header_value t, i.headers_counted);
            body_counted = i.body_counted;
          })

  pub on_header_value_complete-IsBounded :
      (p : HttpParser) → IsBounded o p → IsBounded o (on_header_value_complete p).1
  unfolding on_header_value_complete
  on_header_value_complete-IsBounded p i =
      let h : Header = record { name = p.current_header_field; value = p.current_header_value } in
      record {
        limits = i.limits;
        url_limit = i.url_limit;
        header_limit = i.header_limit;
        body_limit = i.body_limit;
        headers_counted = omega (arith, header_size-append p.request.headers h, i.headers_counted);
        body_counted = i.body_counted;
      }
