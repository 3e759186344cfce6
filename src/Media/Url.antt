-- ===== src/Media/Url.antt =====
-- src/modules/media/Hls.cpp, `HexValue`, `UrlDecode` and `UrlEncode`. The tests of characters are those
-- of the "C" locale.
pub mod Codec
use iouring_runtime.Prelude.{
  ℕ, ◌+◌, ◌-◌, ◌*◌, ◌/◌, ◌%◌, Bool, true, false, ◌&&◌, ◌||◌, List, [], ◌∷◌, ◌++◌, Option, none,
  some, if◌then◌else◌, ltb, leb, ◌==◌, Text,
}

-- `none` stands for -1
unfoldable pub hex_value : ℕ → Option ℕ
hex_value ch =
    if leb 48 ch && leb ch 57
    then some (ch - 48)
    else if leb 97 ch && leb ch 102
    then some (ch - 97 + 10)
    else if leb 65 ch && leb ch 70
    then some (ch - 65 + 10)
    else none

-- `(hi << 4) | lo`, where `lo` has four bits
abbrev pub joined : Option ℕ → Option ℕ → Option ℕ
joined (some hi) (some lo) = some (hi * 16 + lo)
joined none lo = none
joined (some hi) none = none

abbrev pub plus : ℕ
plus = 43

abbrev pub percent : ℕ
percent = 37

-- the byte of an escape, if three characters are one
unfoldable pub escape : ℕ → ℕ → ℕ → Option ℕ
escape c a b = if c == percent then joined (hex_value a) (hex_value b) else none

abbrev pub plain : ℕ → ℕ
plain c = if c == plus then 32 else c

-- The loop from index `i`: an escape takes two characters more, which must be there.
unfoldable pub url_decode : Text → Text
url_decode [] = []
url_decode (c ∷ []) = plain c ∷ []
url_decode (c ∷ a ∷ []) = plain c ∷ plain a ∷ []
url_decode (c ∷ a ∷ b ∷ text) = elim (escape c a b) [
  | some byte ↦ byte ∷ url_decode text
  | none ↦ plain c ∷ url_decode (a ∷ b ∷ text)
]

-- `kHex[n]`
unfoldable pub hex_digit : ℕ → ℕ
hex_digit n = if ltb n 10 then 48 + n else 55 + n

-- `std::isalnum`, or one of the four marks
unfoldable pub is_unreserved : ℕ → Bool
is_unreserved c =
    leb 48 c && leb c 57
    || leb 65 c && leb c 90
    || leb 97 c && leb c 122
    || c == 45
    || c == 95
    || c == 46
    || c == 126

unfoldable pub url_encode : Text → Text
url_encode [] = []
url_encode (c ∷ text) =
    let rest = url_encode text in
    if is_unreserved c then c ∷ rest else percent ∷ hex_digit (c / 16) ∷ hex_digit (c % 16) ∷ rest
