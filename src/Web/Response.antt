-- ===== src/Web/Response.antt =====
-- include/iouring_runtime/web/HttpResponse.h and src/modules/web/HttpResponse.cpp: the response under
-- construction. A method that returns `*this` gives the response after it.
pub mod Headers
pub mod Sending
use iouring_runtime.Prelude.{
  ℕ, Bool, true, false, ◌&&◌, ◌||◌, List, [], ◌∷◌, ◌++◌, if◌then◌else◌, leb, ◌+◌, ◌-◌, ◌==◌, Text,
  codes, same_text,
}
use iouring_runtime.Web.Status.{HttpStatus, ok, no_content, not_modified, status_code}

pub record HeaderPair : Type 0 where
  pub name : Text
  pub value : Text

pub data State : Type 0 where
  open_state sent deferred : State

-- `attached`: whether the session and the pool are there
pub record HttpResponse : Type 0 where
  pub status : HttpStatus
  pub headers : List HeaderPair
  pub content_type : Text
  pub body : Text
  pub keep_alive : Bool
  pub state : State
  pub suppress_body : Bool
  pub last_built_bytes : ℕ
  pub attached : Bool

-- a response as it is constructed
abbrev pub new_response : Bool → HttpResponse
new_response attached = record {
  status = ok;
  headers = [];
  content_type = [];
  body = [];
  keep_alive = true;
  state = open_state;
  suppress_body = false;
  last_built_bytes = 0;
  attached = attached;
}

-- A byte of a header's name, as it is compared.
unfoldable pub lower : ℕ → ℕ
lower c = if leb 65 c && leb c 90 then c + 32 else c

-- `HeaderNameEquals`: the test of the sizes, then the loop, which stops at the first other byte.
abbrev pub same_names : Text → Text → Bool
same_names [] [] = true
same_names (a ∷ s) (b ∷ t) =
    let later = same_names s t in if lower a == lower b then later else false
same_names s t = false

unfoldable pub header_name_equals : Text → Text → Bool
header_name_equals lhs rhs = same_names lhs rhs

unfoldable pub status_must_not_have_body : HttpStatus → Bool
status_must_not_have_body no_content = true
status_must_not_have_body not_modified = true
status_must_not_have_body _ = false

abbrev pub is_empty : Text → Bool
is_empty [] = true
is_empty (c ∷ s) = false

-- the loop of `HasHeader`
unfoldable pub has_header_in : List HeaderPair → Text → Bool
has_header_in [] name = false
has_header_in (h ∷ hs) name =
    let later = has_header_in hs name in if header_name_equals h.name name then true else later

unfoldable pub has_header : HttpResponse → Text → Bool
unfolding has_header_in
has_header r name =
    if header_name_equals name (codes "Content-Type")
      && (if is_empty r.content_type then false else true)
    then true
    else has_header_in r.headers name

-- the loop of `RemoveHeader`
unfoldable pub without_header : List HeaderPair → Text → List HeaderPair
without_header [] name = []
without_header (h ∷ hs) name =
    let rest = without_header hs name in if header_name_equals h.name name then rest else h ∷ rest

unfoldable pub remove_header : HttpResponse → Text → HttpResponse
remove_header r name =
    let r' =
      if header_name_equals name (codes "Content-Type")
      then record r { content_type = [] }
      else r in
    record r' { headers = without_header r'.headers name }

abbrev pub set_status : HttpStatus → HttpResponse → HttpResponse
set_status s r = record r { status = s }

abbrev pub header : Text → Text → HttpResponse → HttpResponse
header name value r = record r { headers = r.headers ++ record { name = name; value = value } ∷ [] }

abbrev pub set_content_type : Text → HttpResponse → HttpResponse
set_content_type t r = record r { content_type = t }

abbrev pub set_body : Text → HttpResponse → HttpResponse
set_body b r = record r { body = b }

abbrev pub text : Text → HttpResponse → HttpResponse
text t r = record r { content_type = codes "text/plain"; body = t }

abbrev pub json : Text → HttpResponse → HttpResponse
json t r = record r { content_type = codes "application/json"; body = t }

abbrev pub error : HttpStatus → Text → HttpResponse → HttpResponse
error s message r = record r { status = s; content_type = codes "text/plain"; body = message }

abbrev pub set_keep_alive : Bool → HttpResponse → HttpResponse
set_keep_alive b r = record r { keep_alive = b }

abbrev pub set_suppress_body : Bool → HttpResponse → HttpResponse
set_suppress_body b r = record r { suppress_body = b }

unfoldable pub redirect : Text → HttpStatus → HttpResponse → HttpResponse
redirect url s r =
    let r' = record r { status = s; body = [] } in
    header (codes "Location") url (remove_header r' (codes "Location"))

unfoldable pub is_sent : HttpResponse → Bool
is_sent r = elim r.state [ open_state ↦ false | sent ↦ true | deferred ↦ false ]

unfoldable pub is_deferred : HttpResponse → Bool
is_deferred r = elim r.state [ open_state ↦ false | sent ↦ false | deferred ↦ true ]

unfoldable pub mark_deferred : HttpResponse → HttpResponse
mark_deferred r = elim r.state [
  | open_state ↦ record r { state = deferred }
  | sent ↦ r
  | deferred ↦ r
]
