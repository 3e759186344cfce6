-- ===== src/Media/Hls.antt =====
-- include/iouring_runtime/media/Hls.h and src/modules/media/Hls.cpp: the addresses in a playlist, rewritten
-- so that a client asks the proxy for them. Text that an operation leaves as it is stands in front of what
-- its loop goes on with.
pub mod Rewriting
use iouring_runtime.Prelude.{
  ℕ, zero, suc, ◌+◌, ◌-◌, Bool, true, false, ◌&&◌, ◌||◌, not, List, [], ◌∷◌, ◌++◌, map, Option,
  none, some, if◌then◌else◌, ltb, leb, ◌==◌, Text, codes, length, take, drop, index_of, starts_with,
  same_text, ends_in,
}
use iouring_runtime.Media.Url.{url_encode}

-- `std::tolower` of the "C" locale
unfoldable pub lower_byte : ℕ → ℕ
lower_byte c = if leb 65 c && leb c 90 then c + 32 else c

unfoldable pub lower : Text → Text
lower text = map lower_byte text

-- `find` of a text: its first index
abbrev pub find_text : Text → Text → Option ℕ
find_text p [] = if starts_with p [] then some 0 else none
find_text p (c ∷ s) =
    let later = find_text p s in
    if starts_with p (c ∷ s) then some 0 else elim later [ none ↦ none | some i ↦ some (suc i) ]

-- `rfind` of a byte: its last index
abbrev pub last_index_of : ℕ → Text → Option ℕ
last_index_of c [] = none
last_index_of c (d ∷ s) = elim (last_index_of c s) [
  | some i ↦ some (suc i)
  | none ↦ if d == c then some 0 else none
]

abbrev pub is_some {ℓ} : {A : Type ℓ} → Option A → Bool
is_some none = false
is_some (some a) = true

unfoldable pub is_http_url : Text → Bool
is_http_url url = starts_with (codes "http://") url || starts_with (codes "https://") url

abbrev pub slash : ℕ
slash = 47

-- `url.substr(0, path_start)`, with the slash behind the host
abbrev pub up_to : Option ℕ → Text → Text
up_to none s = s
up_to (some n) s = take n s

abbrev pub origin_by : Option ℕ → Text → Text
origin_by none url = []
origin_by (some scheme) url =
    take (scheme + 3) url ++ up_to (index_of slash (drop (scheme + 3) url)) (drop (scheme + 3) url)

unfoldable pub origin_of : Text → Text
origin_of url = origin_by (find_text (codes "://") url) url

unfoldable pub should_proxy_manifest_uri : Text → Bool
should_proxy_manifest_uri [] = false
should_proxy_manifest_uri (c ∷ uri) = not (starts_with (codes "data:") (c ∷ uri))

-- The end of `ResolveUrl`, with the last slash of the base.
abbrev pub resolve_relative : Text → Text → Option ℕ → Text
resolve_relative base value none = origin_of base ++ codes "/" ++ value
resolve_relative base value (some last) =
    if is_some (find_text (codes "://") (take last base))
    then take (last + 1) base ++ value
    else origin_of base ++ codes "/" ++ value

unfoldable pub resolve_url : Text → Text → Text
resolve_url base value =
    if is_http_url value
    then value
    else if starts_with (codes "//") value
    then up_to (index_of 58 base) base ++ codes ":" ++ value
    else if starts_with (codes "/") value
    then origin_of base ++ value
    else resolve_relative base value (last_index_of slash base)

unfoldable pub proxy_hls_url : Text → Text
proxy_hls_url remote_url = codes "/proxy/hls?url=" ++ url_encode remote_url

abbrev pub quote : ℕ
quote = 34

-- what replaces an address
abbrev pub rewritten_uri : Text → Text → Text
rewritten_uri base_url uri =
    if should_proxy_manifest_uri uri then proxy_hls_url (resolve_url base_url uri) else uri

-- One turn of the loop over `URI="`, behind its quote, with the closing quote that `find` gives. The loop
-- goes on at the quote, which is no part of the next match.
abbrev pub rewrite_attribute : (Text → Text) → Text → Text → Option ℕ → Text
rewrite_attribute next base_url s none = s
rewrite_attribute next base_url s (some end) =
    rewritten_uri base_url (take end s) ++ quote ∷ next (drop (suc end) s)

abbrev pub rewrite_found : (Text → Text) → Text → Text → Option ℕ → Text
rewrite_found next base_url s none = s
rewrite_found next base_url s (some pos) =
    take (pos + 5) s
    ++ rewrite_attribute next base_url (drop (pos + 5) s) (index_of quote (drop (pos + 5) s))

-- The loop over a tag's line; the fuel is its length.
unfoldable pub rewrite_uris : ℕ → Text → Text → Text
rewrite_uris zero base_url s = s
rewrite_uris (suc fuel) base_url s =
    rewrite_found (rewrite_uris fuel base_url) base_url s (find_text (codes "URI=\"") s)

-- `pop_back` of a carriage return
abbrev pub without_cr : Text → Text
without_cr [] = []
without_cr (c ∷ []) = if c == 13 then [] else c ∷ []
without_cr (c ∷ d ∷ s) = c ∷ without_cr (d ∷ s)

unfoldable pub rewrite_line : Text → Text → Text
rewrite_line base_url [] = []
rewrite_line base_url (c ∷ line) =
    if c == 35
    then rewrite_uris (length (c ∷ line)) base_url (c ∷ line)
    else proxy_hls_url (resolve_url base_url (c ∷ line))

-- One `std::getline`, with the newline that it finds.
abbrev pub next_line : (Text → List Text) → Text → Option ℕ → List Text
next_line next s none = s ∷ []
next_line next s (some pos) = take pos s ∷ next (drop (suc pos) s)

-- The lines of a stream; the fuel is its length.
unfoldable pub lines_of : ℕ → Text → List Text
lines_of zero s = []
lines_of (suc fuel) [] = []
lines_of (suc fuel) (c ∷ s) = next_line (lines_of fuel) (c ∷ s) (index_of 10 (c ∷ s))

abbrev pub write_lines : List Text → Text
write_lines [] = []
write_lines (l ∷ ls) = l ++ 10 ∷ write_lines ls

unfoldable pub rewrite_hls_manifest : Text → Text → Text
rewrite_hls_manifest text base_url =
    write_lines (map (λ l. rewrite_line base_url (without_cr l)) (lines_of (length text) text))

-- `ends_with`
abbrev pub ends_with : Text → Text → Bool
ends_with s suffix =
    leb (length suffix) (length s) && same_text (drop (length s - length suffix) s) suffix

unfoldable pub content_type_for_url : Text → Text
content_type_for_url url =
    let lowered = lower url in
    if ends_with lowered (codes ".m3u8")
    then codes "application/vnd.apple.mpegurl"
    else if ends_with lowered (codes ".mpd")
    then codes "application/dash+xml"
    else if ends_with lowered (codes ".ts")
    then codes "video/mp2t"
    else if ends_with lowered (codes ".m4s")
    then codes "video/iso.segment"
    else if ends_with lowered (codes ".mp4")
    then codes "video/mp4"
    else if ends_with lowered (codes ".jpg") || ends_with lowered (codes ".jpeg")
    then codes "image/jpeg"
    else if ends_with lowered (codes ".png")
    then codes "image/png"
    else if ends_with lowered (codes ".webp")
    then codes "image/webp"
    else if ends_with lowered (codes ".gif")
    then codes "image/gif"
    else codes "application/octet-stream"
