-- ===== src/Web/Request.antt =====
-- include/iouring_runtime/web/HttpRequest.h: a request as it was parsed, and the values in it. A view of a
-- parameter is its text. `from_chars` of the standard library is an argument: the number at the front of a
-- text with how many bytes it takes, if there is one that fits its type.
pub mod Query
use iouring_runtime.Prelude.{
  ℕ, zero, suc, ◌+◌, ◌-◌, ◌*◌, Bool, true, false, ◌&&◌, ◌||◌, List, [], ◌∷◌, ◌++◌, Option, none,
  some, if◌then◌else◌, leb, ◌==◌, Text, codes, same_text, index_of, take, drop, length,
}
use iouring_runtime.Web.Method.{HttpMethod, unknown}

pub record Header : Type 0 where
  pub name : Text
  pub value : Text

pub record HttpRequest : Type 0 where
  pub method : HttpMethod
  pub path : Text
  pub query : Text
  pub body : Text
  pub keep_alive : Bool
  pub request_id : Text
  pub headers : List Header
  pub params : List (Text × Text)

-- a request as it is constructed, and as `Clear` leaves it
abbrev pub new_request : HttpRequest
new_request = record {
  method = unknown;
  path = [];
  query = [];
  body = [];
  keep_alive = true;
  request_id = [];
  headers = [];
  params = [];
}

unfoldable pub clear : HttpRequest → HttpRequest
clear r = new_request

abbrev pub set_params : List (Text × Text) → HttpRequest → HttpRequest
set_params params r = record r { params = params }

abbrev pub clear_params : HttpRequest → HttpRequest
clear_params r = record r { params = [] }

abbrev pub add_header : Text → Text → HttpRequest → HttpRequest
add_header name value r = record r {
  headers = r.headers ++ record { name = name; value = value } ∷ [];
}

unfoldable pub to_lower : ℕ → ℕ
to_lower c = if leb 65 c && leb c 90 then c + 32 else c

-- the test of the sizes, then the loop
unfoldable pub case_insensitive_equal : Text → Text → Bool
case_insensitive_equal [] [] = true
case_insensitive_equal (a ∷ s) (b ∷ t) =
    let later = case_insensitive_equal s t in if to_lower a == to_lower b then later else false
case_insensitive_equal s t = false

-- the loop of `GetHeader` and `HasHeader`
unfoldable pub find_header : List Header → Text → Option Text
find_header [] name = none
find_header (h ∷ hs) name =
    let later = find_header hs name in
    if case_insensitive_equal h.name name then some h.value else later

abbrev pub value_or_empty : Option Text → Text
value_or_empty none = []
value_or_empty (some v) = v

abbrev pub has_value : Option Text → Bool
has_value none = false
has_value (some v) = true

unfoldable pub get_header : HttpRequest → Text → Text
get_header r name = value_or_empty (find_header r.headers name)

unfoldable pub has_header : HttpRequest → Text → Bool
has_header r name = has_value (find_header r.headers name)

unfoldable pub content_type : HttpRequest → Text
content_type r = get_header r (codes "Content-Type")

-- the number at the front of a text, and how many bytes it takes
abbrev pub FromChars : Type 0
FromChars = Text → Option (ℕ × ℕ)

abbrev pub parsed_or_zero : Option (ℕ × ℕ) → ℕ
parsed_or_zero none = 0
parsed_or_zero (some (n, used)) = n

unfoldable pub content_length : FromChars → HttpRequest → ℕ
content_length from_chars r = elim (get_header r (codes "Content-Length")) [
  | [] ↦ 0
  | c ∷ s ↦ parsed_or_zero (from_chars (c ∷ s))
]

-- `substr(0, pos)`, where the position may be `npos`
abbrev pub before : Option ℕ → Text → Text
before none s = s
before (some pos) s = take pos s

-- the key and the value of a part of a query
abbrev pub key_value : Option ℕ → Text → Text × Text
key_value none part = (part, [])
key_value (some eq) part = (take eq part, drop (suc eq) part)

abbrev pub and_rest : (Text → Option Text) → Text → Option ℕ → Option Text
and_rest next s none = none
and_rest next s (some pos) = next (drop (suc pos) s)

-- One turn of the loop of `FindQueryParam`, with the "&" that `find` gives.
abbrev pub query_turn : (Text → Option Text) → Text → Text → Option ℕ → Option Text
query_turn next name s amp =
    let part = before amp s in
    let (key, value) = key_value (index_of 61 part) part in
    let rest = and_rest next s amp in if same_text key name then some value else rest

-- the loop; the fuel is the length of the query
unfoldable pub find_in_query : ℕ → Text → Text → Option Text
find_in_query zero name s = none
find_in_query (suc fuel) name [] = none
find_in_query (suc fuel) name (c ∷ s) =
    query_turn (find_in_query fuel name) name (c ∷ s) (index_of 38 (c ∷ s))

unfoldable pub find_query_param : HttpRequest → Text → Option Text
find_query_param r name = find_in_query (length r.query) name r.query

-- the loop of `FindParam`
abbrev pub find_in_params : List (Text × Text) → Text → Option Text
find_in_params [] name = none
find_in_params ((key, value) ∷ params) name =
    let later = find_in_params params name in if same_text key name then some value else later

unfoldable pub find_param : HttpRequest → Text → Option Text
find_param r name = find_in_params r.params name

unfoldable pub has_query_param : HttpRequest → Text → Bool
has_query_param r name = has_value (find_query_param r name)

unfoldable pub has_param : HttpRequest → Text → Bool
has_param r name = has_value (find_param r name)

unfoldable pub query_param : HttpRequest → Text → Text
query_param r name = value_or_empty (find_query_param r name)

unfoldable pub param : HttpRequest → Text → Text
param r name = value_or_empty (find_param r name)

-- `none` stands for -1
unfoldable pub hex_value : ℕ → Option ℕ
hex_value c =
    if leb 48 c && leb c 57
    then some (c - 48)
    else if leb 97 c && leb c 102
    then some (c - 97 + 10)
    else if leb 65 c && leb c 70
    then some (c - 65 + 10)
    else none

-- `(hi << 4) | lo`, where `lo` has four bits
abbrev pub joined : Option ℕ → Option ℕ → Option ℕ
joined (some hi) (some lo) = some (hi * 16 + lo)
joined none lo = none
joined (some hi) none = none

unfoldable pub escaped : ℕ → ℕ → ℕ → Option ℕ
escaped c a b = if c == 37 then joined (hex_value a) (hex_value b) else none

abbrev pub decoded : Bool → ℕ → ℕ
decoded plus_as_space c = if plus_as_space && c == 43 then 32 else c

-- the loop from index `i`
unfoldable pub percent_decode : Bool → Text → Text
percent_decode plus_as_space [] = []
percent_decode plus_as_space (c ∷ []) = decoded plus_as_space c ∷ []
percent_decode plus_as_space (c ∷ a ∷ []) = decoded plus_as_space c ∷ decoded plus_as_space a ∷ []
percent_decode plus_as_space (c ∷ a ∷ b ∷ s) = elim (escaped c a b) [
  | some byte ↦ byte ∷ percent_decode plus_as_space s
  | none ↦ decoded plus_as_space c ∷ percent_decode plus_as_space (a ∷ b ∷ s)
]

abbrev pub decode_found : Bool → Option Text → Text
decode_found plus_as_space none = []
decode_found plus_as_space (some v) = percent_decode plus_as_space v

unfoldable pub query_param_decoded : HttpRequest → Text → Text
query_param_decoded r name = decode_found true (find_query_param r name)

unfoldable pub param_decoded : HttpRequest → Text → Text
param_decoded r name = decode_found false (find_param r name)

abbrev pub is_blank : ℕ → Bool
is_blank c = c == 32 || c == 9

abbrev pub trim_front : Text → Text
trim_front [] = []
trim_front (c ∷ s) = let rest = trim_front s in if is_blank c then rest else c ∷ s

abbrev pub keep_unless_last : ℕ → Text → Text
keep_unless_last c [] = if is_blank c then [] else c ∷ []
keep_unless_last c (d ∷ s) = c ∷ d ∷ s

abbrev pub trim_back : Text → Text
trim_back [] = []
trim_back (c ∷ s) = keep_unless_last c (trim_back s)

unfoldable pub trim_ascii_whitespace : Text → Text
trim_ascii_whitespace s = trim_back (trim_front s)

abbrev pub cookie_value : Option ℕ → Text → Text
cookie_value none part = []
cookie_value (some eq) part = trim_ascii_whitespace (drop (suc eq) part)

-- One turn of the loop of `Cookie`, with the ";" that `find` gives.
abbrev pub cookie_turn : (Text → Option Text) → Text → Text → Option ℕ → Option Text
cookie_turn next name s sep =
    let part = trim_ascii_whitespace (before sep s) in
    let eq = index_of 61 part in
    let key = trim_ascii_whitespace (before eq part) in
    let rest = and_rest next s sep in
    if same_text key name then some (cookie_value eq part) else rest

unfoldable pub find_in_cookies : ℕ → Text → Text → Option Text
find_in_cookies zero name s = none
find_in_cookies (suc fuel) name [] = none
find_in_cookies (suc fuel) name (c ∷ s) =
    cookie_turn (find_in_cookies fuel name) name (c ∷ s) (index_of 59 (c ∷ s))

unfoldable pub cookie : HttpRequest → Text → Text
cookie r name =
    let header = get_header r (codes "Cookie") in
    value_or_empty (find_in_cookies (length header) name header)

unfoldable pub has_cookie : HttpRequest → Text → Bool
has_cookie r name = elim (cookie r name) [ [] ↦ false | c ∷ s ↦ true ]

unfoldable pub cookie_decoded : HttpRequest → Text → Text
cookie_decoded r name = percent_decode false (cookie r name)

-- `ConvertValue<bool>`
unfoldable pub convert_bool : Text → Option Bool
convert_bool value =
    if same_text value (codes "true") || same_text value (codes "1")
    then some true
    else if same_text value (codes "false") || same_text value (codes "0")
    then some false
    else none

abbrev pub whole_number : ℕ → Option (ℕ × ℕ) → Option ℕ
whole_number size none = none
whole_number size (some (n, used)) = if used == size then some n else none

-- `ConvertValue` of an unsigned type
unfoldable pub convert_number : FromChars → Text → Option ℕ
convert_number from_chars [] = none
convert_number from_chars (c ∷ s) = whole_number (length (c ∷ s)) (from_chars (c ∷ s))
