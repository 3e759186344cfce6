-- ===== src/Tests/Playlists.antt =====
-- Concrete playlists and addresses: src/modules/media/Hls.cpp.
use iouring_runtime.Prelude.{
  Bool, true, false, [], ◌∷◌, Text, codes, ◌≡◌, refl, arith, take, drop, ltb, ltb→lt, Bool-cases,
  inl, inr, if◌then◌else◌,
}
use iouring_runtime.Media.Url.{hex_value, escape, url_decode, hex_digit, is_unreserved, url_encode}
use iouring_runtime.Media.Url.Codec.{Bytes, no_bytes, and, url_decode-url_encode}
use iouring_runtime.Media.Hls.{
  rewrite_line, rewrite_uris, resolve_url, proxy_hls_url, rewrite_hls_manifest, lines_of,
  is_http_url, origin_of, should_proxy_manifest_uri, content_type_for_url, lower, lower_byte,
}
use iouring_runtime.Media.Hls.Rewriting.{rewrite_uris-fuel, rewrite_line-url_decode}

abbrev all_bytes : Text → Bool
all_bytes [] = true
all_bytes (c ∷ s) = let rest = all_bytes s in if ltb c 256 then rest else false

all_bytes→Bytes : (s : Text) → all_bytes s ≡ true → Bytes s
all_bytes→Bytes [] h = no_bytes
all_bytes→Bytes (c ∷ s) h = elim (Bool-cases (ltb c 256)) [
  | inl small ↦
      let rest : all_bytes s ≡ true = ground arith in
      and c s (ltb→lt c 256 small) (all_bytes→Bytes s rest)
  | inr large ↦ absurd (cc (large, h))
]

abbrev playlist : Text
playlist = codes "http://a.b/c/d.m3u8"

abbrev key_line : Text
key_line = codes "#KEY:URI=\"k 1\",IV=2"

key_rewritten :
    rewrite_line playlist key_line
    ≡ codes "#KEY:URI=\"/proxy/hls?url=http%3A%2F%2Fa.b%2Fc%2Fk%201\",IV=2"
unfolding rewrite_line rewrite_uris resolve_url proxy_hls_url is_http_url origin_of
    should_proxy_manifest_uri url_encode is_unreserved hex_digit
key_rewritten = refl

two_lines :
    rewrite_hls_manifest (codes "e.ts\r\n\n/f") playlist
    ≡ codes "/proxy/hls?url=http%3A%2F%2Fa.b%2Fc%2Fe.ts\n\n/proxy/hls?url=http%3A%2F%2Fa.b%2Ff\n"
unfolding rewrite_hls_manifest lines_of rewrite_line rewrite_uris resolve_url proxy_hls_url
    is_http_url origin_of should_proxy_manifest_uri url_encode is_unreserved hex_digit
two_lines = refl

cover : content_type_for_url (codes "http://a/b.JPEG") ≡ codes "image/jpeg"
unfolding content_type_for_url lower lower_byte
cover = refl

not_an_escape : url_decode (codes "a+b%4") ≡ codes "a b%4"
unfolding url_decode escape hex_value
not_an_escape = refl

url_decode-url_encode_example : url_decode (url_encode (codes "a b/%")) ≡ codes "a b/%"
url_decode-url_encode_example =
    url_decode-url_encode (codes "a b/%") (all_bytes→Bytes (codes "a b/%") refl)

rewrite_uris-fuel_example :
    rewrite_uris 40 playlist (codes "#KEY:URI=\"k\"")
    ≡ rewrite_uris 12 playlist (codes "#KEY:URI=\"k\"")
rewrite_uris-fuel_example =
    rewrite_uris-fuel 12 40 playlist (codes "#KEY:URI=\"k\"") (omega arith) (omega arith)

rewrite_line-url_decode_example :
    (take 15 (rewrite_line playlist (codes "e.ts")) ≡ codes "/proxy/hls?url=")
    × (url_decode (drop 15 (rewrite_line playlist (codes "e.ts")))
        ≡ resolve_url playlist (codes "e.ts"))
rewrite_line-url_decode_example =
    rewrite_line-url_decode playlist 101 (codes ".ts") (all_bytes→Bytes playlist refl)
      (all_bytes→Bytes (codes "e.ts") refl) refl
