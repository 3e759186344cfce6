-- ===== src/Web/Request/Query.antt =====
-- include/iouring_runtime/web/HttpRequest.h, `FindQueryParam`, on the query that spells some parameters.
use iouring_runtime.Prelude.{
  ℕ, zero, suc, ◌-◌, ◌≤◌, ◌<◌, false, List, [], ◌∷◌, ◌++◌, Option, none, some, if◌then◌else◌, Text,
  ◌≡◌, refl, ap, ap₂, ◌∙◌, arith, same_text, index_of, has_byte, take, drop, length,
  index_of-absent, index_of-append, take-append, take_all, drop-append_ge, length-append,
}
use iouring_runtime.Web.Request.{
  HttpRequest, key_value, query_turn, find_in_query, find_query_param, find_in_params,
}

-- the query that spells parameters: "k=v", with "&" between two
abbrev pub query_of : List (Text × Text) → Text
query_of [] = []
query_of (p ∷ []) = p.0 ++ 61 ∷ p.1
query_of (p ∷ q ∷ ps) = (p.0 ++ 61 ∷ p.1) ++ 38 ∷ query_of (q ∷ ps)

-- Parameters that can be spelt: no "=" in a key, and no "&" in a key or a value.
pub data Spellable : List (Text × Text) → Type 0 where
  no_params : Spellable []
  and :
      (p : Text × Text) (ps : List (Text × Text))
      → has_byte 61 p.0 ≡ false
      → has_byte 38 (p.0 ++ 61 ∷ p.1) ≡ false
      → Spellable ps
      → Spellable (p ∷ ps)

take_front : (s t : Text) → take (length s) (s ++ t) ≡ s
take_front s t = take-append (length s) s t (omega arith) ∙ take_all (length s) s (omega arith)

drop_front : (s : Text) (c : ℕ) (t : Text) → drop (suc (length s)) (s ++ c ∷ t) ≡ t
drop_front s c t =
    drop-append_ge (suc (length s)) s (c ∷ t) (omega arith) ∙ ap (λ n. drop n (c ∷ t)) one_more
  where
    one_more : suc (length s) - length s ≡ 1
    one_more = omega arith

key_value-part :
    (k v : Text)
    → has_byte 61 k ≡ false
    → key_value (index_of 61 (k ++ 61 ∷ v)) (k ++ 61 ∷ v) ≡ (k, v)
key_value-part k v h =
    ap (λ o. key_value o (k ++ 61 ∷ v)) (index_of-append 61 k v h)
    ∙ ap₂ (λ a b. (a, b)) (take_front k (61 ∷ v)) (drop_front k 61 v)

-- the answer of a turn, by its part and by what the loop goes on with
abbrev answer : Text → Text × Text → Option Text → Option Text
answer name kv rest = if same_text kv.0 name then some kv.1 else rest

turn-last :
    (next : Text → Option Text) (name : Text) (p : Text × Text)
    → has_byte 61 p.0 ≡ false
    → query_turn next name (p.0 ++ 61 ∷ p.1) none ≡ answer name p none
turn-last next name p h = ap (λ kv. answer name kv none) (key_value-part p.0 p.1 h)

turn-more :
    (next : Text → Option Text) (name : Text) (p : Text × Text) (t : Text)
    → has_byte 61 p.0 ≡ false
    → query_turn next name ((p.0 ++ 61 ∷ p.1) ++ 38 ∷ t) (some (length (p.0 ++ 61 ∷ p.1)))
      ≡ answer name p (next t)
turn-more next name p t h =
    ap₂ (λ part rest. answer name (key_value (index_of 61 part) part) (next rest))
      (take_front (p.0 ++ 61 ∷ p.1) (38 ∷ t)) (drop_front (p.0 ++ 61 ∷ p.1) 38 t)
    ∙ ap (λ kv. answer name kv (next t)) (key_value-part p.0 p.1 h)

-- The loop on a text that is not empty.
find_in_query-step :
    (fuel : ℕ) (name s : Text)
    → 0 < length s
    → find_in_query (suc fuel) name s ≡ query_turn (find_in_query fuel name) name s (index_of 38 s)
unfolding find_in_query
find_in_query-step fuel name [] h = absurd (omega arith)
find_in_query-step fuel name (c ∷ s) h = refl

find_in_query-query_of :
    (fuel : ℕ) (name : Text) (ps : List (Text × Text))
    → Spellable ps
    → length (query_of ps) ≤ fuel
    → find_in_query fuel name (query_of ps) ≡ find_in_params ps name
unfolding find_in_query
find_in_query-query_of zero name [] g h = refl
find_in_query-query_of (suc fuel) name [] g h = refl
find_in_query-query_of zero name (p ∷ []) g h = absurd (omega (arith, length-append p.0 (61 ∷ p.1)))
find_in_query-query_of zero name (p ∷ q ∷ ps) g h =
    absurd (omega (arith, length-append (p.0 ++ 61 ∷ p.1) (38 ∷ query_of (q ∷ ps))))
find_in_query-query_of (suc fuel) name (p ∷ []) (and _ _ key part g) h =
    find_in_query-step fuel name (p.0 ++ 61 ∷ p.1) (omega (arith, length-append p.0 (61 ∷ p.1)))
    ∙ ap (query_turn (find_in_query fuel name) name (p.0 ++ 61 ∷ p.1))
        (index_of-absent 38 (p.0 ++ 61 ∷ p.1) part)
    ∙ turn-last (find_in_query fuel name) name p key
find_in_query-query_of (suc fuel) name (p ∷ q ∷ ps) (and _ _ key part g) h =
    find_in_query-step fuel name (query_of (p ∷ q ∷ ps))
      (omega (arith, length-append (p.0 ++ 61 ∷ p.1) (38 ∷ query_of (q ∷ ps))))
    ∙ ap (query_turn (find_in_query fuel name) name (query_of (p ∷ q ∷ ps)))
        (index_of-append 38 (p.0 ++ 61 ∷ p.1) (query_of (q ∷ ps)) part)
    ∙ turn-more (find_in_query fuel name) name p (query_of (q ∷ ps)) key
    ∙ ap (answer name p) (
        find_in_query-query_of fuel name (q ∷ ps) g
          (omega (arith, length-append (p.0 ++ 61 ∷ p.1) (38 ∷ query_of (q ∷ ps)))))

-- In a request whose query spells parameters, each name has the value of its first parameter, or none.
pub find_query_param-query_of :
    (r : HttpRequest) (ps : List (Text × Text)) (name : Text)
    → Spellable ps
    → find_query_param (record r { query = query_of ps }) name ≡ find_in_params ps name
unfolding find_query_param
find_query_param-query_of r ps name g =
    find_in_query-query_of (length (query_of ps)) name ps g (omega arith)
