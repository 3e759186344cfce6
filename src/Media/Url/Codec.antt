-- ===== src/Media/Url/Codec.antt =====
-- src/modules/media/Hls.cpp: an encoded text is decoded to what it was, and what stands in it.
use iouring_runtime.Prelude.{
  ℕ, ◌/◌, ◌%◌, ◌<◌, true, false, [], ◌∷◌, Option, none, some, ◌≡◌, refl, ap, ◌∙◌, inl, inr, arith,
  Bool-cases, ◌==◌, Text, has_byte,
}
use iouring_runtime.Media.Url.{
  hex_value, plus, percent, escape, plain, url_decode, hex_digit, is_unreserved, url_encode,
}

-- a text of bytes
pub data Bytes : Text → Type 0 where
  no_bytes : Bytes []
  and : (c : ℕ) (s : Text) → c < 256 → Bytes s → Bytes (c ∷ s)

hex_value-hex_digit : (n : ℕ) → n < 16 → hex_value (hex_digit n) ≡ some n
unfolding hex_value hex_digit
hex_value-hex_digit n h = ground arith

escape-byte : (c : ℕ) → c < 256 → escape percent (hex_digit (c / 16)) (hex_digit (c % 16)) ≡ some c
unfolding escape
escape-byte c h =
    rw (hex_value-hex_digit (c / 16) (omega arith), hex_value-hex_digit (c % 16) (omega arith))
      (ap some (omega arith))

-- The step of the decoder by what the three characters are.
url_decode-step :
    (c a b : ℕ) (text : Text) (o : Option ℕ)
    → escape c a b ≡ o
    → url_decode (c ∷ a ∷ b ∷ text)
      ≡ (elim o [ some byte ↦ byte ∷ url_decode text | none ↦ plain c ∷ url_decode (a ∷ b ∷ text) ])
unfolding url_decode
url_decode-step c a b text o e =
    ap
      (λ o. elim o [
        | some byte ↦ byte ∷ url_decode text
        | none ↦ plain c ∷ url_decode (a ∷ b ∷ text)
      ])
      e

-- A character that is neither "+" nor "%" is decoded to itself.
url_decode-plain :
    (c : ℕ) (s : Text)
    → (c == plus) ≡ false
    → (c == percent) ≡ false
    → url_decode (c ∷ s) ≡ c ∷ url_decode s
unfolding url_decode escape
url_decode-plain c [] p q = rw p refl
url_decode-plain c (a ∷ []) p q = rw p refl
url_decode-plain c (a ∷ b ∷ s) p q =
    let other : escape c a b ≡ none = rw q refl in url_decode-step c a b s none other ∙ rw p refl

unreserved_plain :
    (c : ℕ) → is_unreserved c ≡ true → ((c == plus) ≡ false) × ((c == percent) ≡ false)
unfolding is_unreserved
unreserved_plain c h = (ground arith, ground arith)

-- Every text of bytes is decoded from its encoding.
pub url_decode-url_encode : (s : Text) → Bytes s → url_decode (url_encode s) ≡ s
unfolding url_encode url_decode
url_decode-url_encode [] b = refl
url_decode-url_encode (c ∷ s) (and _ _ h b) = elim (Bool-cases (is_unreserved c)) [
  | inl kept ↦
      let (p, q) = unreserved_plain c kept in
      rw kept (url_decode-plain c (url_encode s) p q ∙ ap (◌∷◌ c) (url_decode-url_encode s b))
  | inr escaped ↦ rw escaped (
      url_decode-step percent (hex_digit (c / 16)) (hex_digit (c % 16)) (url_encode s) (some c)
        (escape-byte c h)
      ∙ ap (◌∷◌ c) (url_decode-url_encode s b))
]

hex_digit_unreserved : (n : ℕ) → n < 16 → is_unreserved (hex_digit n) ≡ true
unfolding is_unreserved hex_digit
hex_digit_unreserved n h = ground arith

-- A byte that is neither unreserved nor "%" stands in no encoded text, so that none ends a quoted string
-- or a line early.
pub url_encode_safe :
    (c : ℕ) (s : Text)
    → Bytes s
    → is_unreserved c ≡ false
    → (c == percent) ≡ false
    → has_byte c (url_encode s) ≡ false
unfolding url_encode
url_encode_safe c [] b u p = refl
url_encode_safe c (d ∷ s) (and _ _ h b) u p = elim (Bool-cases (is_unreserved d)) [
  | inl kept ↦ rw (kept, different c d u kept, url_encode_safe c s b u p) refl
  | inr escaped ↦
      rw
        (
          escaped,
          different_percent c p,
          different c (hex_digit (d / 16)) u (hex_digit_unreserved (d / 16) (omega arith)),
          different c (hex_digit (d % 16)) u (hex_digit_unreserved (d % 16) (omega arith)),
          url_encode_safe c s b u p,
        )
        refl
]
  where
    different : (c d : ℕ) → is_unreserved c ≡ false → is_unreserved d ≡ true → (d == c) ≡ false
    different c d u v = elim (Bool-cases (d == c)) [
      | inl same ↦ let e : d ≡ c = ground arith in absurd (cc (u, v, e))
      | inr other ↦ other
    ]

    different_percent : (c : ℕ) → (c == percent) ≡ false → (percent == c) ≡ false
    different_percent c p = ground arith
