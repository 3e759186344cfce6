-- ===== src/Web/Method.antt =====
-- include/iouring_runtime/web/HttpMethod.h: the methods of a request.
use iouring_runtime.Prelude.{ℕ, Bool, List, [], ◌∷◌, Text, codes, ◌==◌, if◌then◌else◌}

pub data HttpMethod : Type 0 where
  get head post put delete options patch unknown : HttpMethod

-- `static_cast<std::size_t>` of a method
abbrev pub index : HttpMethod → ℕ
index get = 0
index head = 1
index post = 2
index put = 3
index delete = 4
index options = 5
index patch = 6
index unknown = 7

abbrev pub same_method : HttpMethod → HttpMethod → Bool
same_method m n = index m == index n

-- every value of the enumeration, in its order
abbrev pub methods : List HttpMethod
methods = get ∷ head ∷ post ∷ put ∷ delete ∷ options ∷ patch ∷ unknown ∷ []

-- the numbers that the parser library gives the methods
unfoldable pub from_llhttp : ℕ → HttpMethod
from_llhttp n =
    if n == 0
    then delete
    else if n == 1
    then get
    else if n == 2
    then head
    else if n == 3
    then post
    else if n == 4
    then put
    else if n == 6
    then options
    else if n == 28
    then patch
    else unknown

unfoldable pub to_string : HttpMethod → Text
to_string get = codes "GET"
to_string head = codes "HEAD"
to_string post = codes "POST"
to_string put = codes "PUT"
to_string delete = codes "DELETE"
to_string options = codes "OPTIONS"
to_string patch = codes "PATCH"
to_string unknown = codes "UNKNOWN"
