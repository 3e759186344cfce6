-- ===== src/Media/Hls/Rewriting.antt =====
-- src/modules/media/Hls.cpp, `RewriteHlsManifest`: its loop over attributes ends, and a line that is an
-- address can be got back from what replaces it.
use iouring_runtime.Prelude.{
  ℕ, zero, suc, ◌+◌, ◌-◌, ◌≤◌, ◌<◌, [], ◌∷◌, ◌++◌, Option, none, some, Text, ◌≡◌, refl, ap, arith,
  if_elim, if◌then◌else◌, ◌==◌, length, take, drop, index_of, length-drop, codes, starts_with,
  false,
}
use iouring_runtime.Media.Url.{url_decode}
use iouring_runtime.Media.Url.Codec.{Bytes, no_bytes, and, url_decode-url_encode}
use iouring_runtime.Media.Hls.{
  quote, rewritten_uri, rewrite_attribute, rewrite_found, rewrite_uris, find_text, rewrite_line,
  resolve_url, resolve_relative, origin_of, origin_by, up_to, slash, last_index_of, is_some,
  is_http_url, proxy_hls_url,
}

rewrite_attribute-cong :
    (f g : Text → Text) (base_url s : Text) (o : Option ℕ)
    → ((end : ℕ) → f (drop (suc end) s) ≡ g (drop (suc end) s))
    → rewrite_attribute f base_url s o ≡ rewrite_attribute g base_url s o
rewrite_attribute-cong f g base_url s none h = refl
rewrite_attribute-cong f g base_url s (some end) h =
    ap (λ t. rewritten_uri base_url (take end s) ++ quote ∷ t) (h end)

rewrite_found-cong :
    (f g : Text → Text) (base_url s : Text) (o : Option ℕ)
    → ((t : Text) → length t ≤ length s - 5 → f t ≡ g t)
    → rewrite_found f base_url s o ≡ rewrite_found g base_url s o
rewrite_found-cong f g base_url s none h = refl
rewrite_found-cong f g base_url s (some pos) h =
    ap (λ t. take (pos + 5) s ++ t)
      (rewrite_attribute-cong f g base_url (drop (pos + 5) s) (index_of quote (drop (pos + 5) s))
        (λ end.
          h (drop (suc end) (drop (pos + 5) s))
            (omega (arith, length-drop (suc end) (drop (pos + 5) s), length-drop (pos + 5) s))))

-- The loop over the attributes of a line ends: fuel beyond the line's length changes nothing.
pub rewrite_uris-fuel :
    (fuel more : ℕ) (base_url s : Text)
    → length s ≤ fuel
    → fuel ≤ more
    → rewrite_uris more base_url s ≡ rewrite_uris fuel base_url s
unfolding rewrite_uris
rewrite_uris-fuel zero zero base_url s h k = refl
rewrite_uris-fuel zero (suc more) base_url [] h k = refl
rewrite_uris-fuel zero (suc more) base_url (c ∷ s) h k = absurd (omega arith)
rewrite_uris-fuel (suc fuel) zero base_url s h k = absurd (omega arith)
rewrite_uris-fuel (suc fuel) (suc more) base_url s h k =
    rewrite_found-cong (rewrite_uris more base_url) (rewrite_uris fuel base_url) base_url s
      (find_text (codes "URI=\"") s)
      (λ t l. rewrite_uris-fuel fuel more base_url t (omega arith) (omega arith))

Bytes-append : (s t : Text) → Bytes s → Bytes t → Bytes (s ++ t)
Bytes-append [] t no_bytes b = b
Bytes-append (c ∷ s) t (and _ _ h a) b = and c (s ++ t) h (Bytes-append s t a b)

Bytes-take : (n : ℕ) (s : Text) → Bytes s → Bytes (take n s)
Bytes-take zero s b = no_bytes
Bytes-take (suc n) [] b = no_bytes
Bytes-take (suc n) (c ∷ s) (and _ _ h b) = and c (take n s) h (Bytes-take n s b)

Bytes-drop : (n : ℕ) (s : Text) → Bytes s → Bytes (drop n s)
Bytes-drop zero s b = b
Bytes-drop (suc n) [] b = no_bytes
Bytes-drop (suc n) (c ∷ s) (and _ _ h b) = Bytes-drop n s b

up_to-Bytes : (o : Option ℕ) (s : Text) → Bytes s → Bytes (up_to o s)
up_to-Bytes none s b = b
up_to-Bytes (some n) s b = Bytes-take n s b

origin_of-Bytes : (url : Text) → Bytes url → Bytes (origin_of url)
unfolding origin_of
origin_of-Bytes url b = by_scheme (find_text (codes "://") url)
  where
    by_scheme : (o : Option ℕ) → Bytes (origin_by o url)
    by_scheme none = no_bytes
    by_scheme (some n) =
        let behind = Bytes-drop (n + 3) url b in
        Bytes-append (take (n + 3) url)
          (up_to (index_of slash (drop (n + 3) url)) (drop (n + 3) url)) (Bytes-take (n + 3) url b)
          (up_to-Bytes (index_of slash (drop (n + 3) url)) (drop (n + 3) url) behind)

one_byte : (c : ℕ) → c < 256 → Bytes (c ∷ [])
one_byte c h = and c [] h no_bytes

below_origin :
    (base value : Text) → Bytes base → Bytes value → Bytes (origin_of base ++ codes "/" ++ value)
below_origin base value b v =
    Bytes-append (origin_of base ++ codes "/") value
      (Bytes-append (origin_of base) (codes "/") (origin_of-Bytes base b)
        (one_byte 47 (omega arith)))
      v

resolve_relative-Bytes :
    (base value : Text) (o : Option ℕ)
    → Bytes base
    → Bytes value
    → Bytes (resolve_relative base value o)
resolve_relative-Bytes base value none b v = below_origin base value b v
resolve_relative-Bytes base value (some last) b v =
    if_elim Bytes (is_some (find_text (codes "://") (take last base)))
      (take (last + 1) base ++ value) (origin_of base ++ codes "/" ++ value)
      (λ _. Bytes-append (take (last + 1) base) value (Bytes-take (last + 1) base b) v)
      (λ _. below_origin base value b v)

resolve_url-Bytes : (base value : Text) → Bytes base → Bytes value → Bytes (resolve_url base value)
unfolding resolve_url
resolve_url-Bytes base value b v =
    if_elim Bytes (is_http_url value) value
      (if starts_with (codes "//") value then other_scheme else in_site) (λ _. v)
      (λ _.
        if_elim Bytes (starts_with (codes "//") value) other_scheme in_site
          (λ _.
            Bytes-append (up_to (index_of 58 base) base ++ codes ":") value
              (Bytes-append (up_to (index_of 58 base) base) (codes ":")
                (up_to-Bytes (index_of 58 base) base b) (one_byte 58 (omega arith)))
              v)
          (λ _.
            if_elim Bytes (starts_with (codes "/") value) (origin_of base ++ value)
              (resolve_relative base value (last_index_of slash base))
              (λ _. Bytes-append (origin_of base) value (origin_of-Bytes base b) v)
              (λ _. resolve_relative-Bytes base value (last_index_of slash base) b v)))
  where
    other_scheme : Text
    other_scheme = up_to (index_of 58 base) base ++ codes ":" ++ value

    in_site : Text
    in_site =
        if starts_with (codes "/") value
        then origin_of base ++ value
        else resolve_relative base value (last_index_of slash base)

-- A line of a playlist that is an address becomes a request of the proxy, and what the proxy decodes from
-- the request is the address, resolved against the playlist's.
pub rewrite_line-url_decode :
    (base_url : Text) (c : ℕ) (line : Text)
    → Bytes base_url
    → Bytes (c ∷ line)
    → (c == 35) ≡ false
    → (take 15 (rewrite_line base_url (c ∷ line)) ≡ codes "/proxy/hls?url=")
      × (url_decode (drop 15 (rewrite_line base_url (c ∷ line))) ≡ resolve_url base_url (c ∷ line))
unfolding rewrite_line proxy_hls_url
rewrite_line-url_decode base_url c line b l not_tag = rw not_tag (
  refl,
  url_decode-url_encode (resolve_url base_url (c ∷ line))
      (resolve_url-Bytes base_url (c ∷ line) b l),
)
