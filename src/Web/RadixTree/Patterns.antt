-- ===== src/Web/RadixTree/Patterns.antt =====
-- src/modules/web/RadixTree.cpp, `Match`: the patterns of a request in the order of their priority, and
-- what a table of routes has for them.
use iouring_runtime.Prelude.{
  Bool, true, false, ◌||◌, List, [], ◌∷◌, ◌++◌, map, Option, none, some, ◌≡◌, refl, sym, ap, ◌∙◌,
  arith, if◌then◌else◌,
}
use iouring_runtime.Web.Paths.{Segment}
use iouring_runtime.Web.Method.{HttpMethod, get, head, post, put, delete, options, patch, unknown}
use iouring_runtime.Web.RadixTree.{
  RouteEntry, Routes, no_routes, has_any_handler, has_handler, has_stream_handler,
  node_has_any_handler,
}
use iouring_runtime.Web.RadixTree.Table.{Pattern, end, lit, one, rest}

-- The patterns that segments match: for each segment its text first, then a parameter, then a wildcard.
abbrev pub patterns : List Segment → List Pattern
patterns [] = end ∷ []
patterns (s ∷ ss) = let below = patterns ss in map (lit s.text) below ++ map one below ++ rest ∷ []

abbrev pub or_else {ℓ} : {A : Type ℓ} → Option A → Option A → Option A
or_else none b = b
or_else (some a) b = some a

-- the entry of a method, if it has a handler
abbrev pub active : Routes → HttpMethod → Option RouteEntry
active routes m = if has_any_handler (routes m) then some (routes m) else none

-- the first active entry of a method among patterns
abbrev pub first_active : (Pattern → Routes) → HttpMethod → List Pattern → Option RouteEntry
first_active t m [] = none
first_active t m (p ∷ ps) = or_else (active (t p) m) (first_active t m ps)

-- whether any of the patterns has a handler, of whatever method
abbrev pub any_active : (Pattern → Routes) → List Pattern → Bool
any_active t [] = false
any_active t (p ∷ ps) = node_has_any_handler (t p) || any_active t ps

pub any-own :
    (routes : Routes) (m : HttpMethod)
    → has_any_handler (routes m) ≡ true
    → node_has_any_handler routes ≡ true
any-own routes get h = ground arith
any-own routes head h = ground arith
any-own routes post h = ground arith
any-own routes put h = ground arith
any-own routes delete h = ground arith
any-own routes options h = ground arith
any-own routes patch h = ground arith
any-own routes unknown h = ground arith

pub or_true : (a : Bool) → (a || true) ≡ true
or_true true = refl
or_true false = refl

pub or_false : (a : Bool) → (a || false) ≡ a
or_false true = refl
or_false false = refl

pub or_assoc : (a b c : Bool) → ((a || b) || c) ≡ (a || (b || c))
or_assoc true b c = refl
or_assoc false b c = refl

pub or_else-none : (a : Option RouteEntry) → or_else a none ≡ a
or_else-none none = refl
or_else-none (some a) = refl

pub or_else_assoc : (a b c : Option RouteEntry) → or_else (or_else a b) c ≡ or_else a (or_else b c)
or_else_assoc none b c = refl
or_else_assoc (some a) b c = refl

pub first_active-append :
    (t : Pattern → Routes) (m : HttpMethod) (ps qs : List Pattern)
    → first_active t m (ps ++ qs) ≡ or_else (first_active t m ps) (first_active t m qs)
first_active-append t m [] qs = refl
first_active-append t m (p ∷ ps) qs =
    ap (or_else (active (t p) m)) (first_active-append t m ps qs)
    ∙ sym (or_else_assoc (active (t p) m) (first_active t m ps) (first_active t m qs))

pub any_active-append :
    (t : Pattern → Routes) (ps qs : List Pattern)
    → any_active t (ps ++ qs) ≡ (any_active t ps || any_active t qs)
any_active-append t [] qs = refl
any_active-append t (p ∷ ps) qs =
    ap (λ a. node_has_any_handler (t p) || a) (any_active-append t ps qs)
    ∙ sym (or_assoc (node_has_any_handler (t p)) (any_active t ps) (any_active t qs))

-- A table is asked only for the patterns of the list.
pub first_active-map :
    (t u : Pattern → Routes) (f : Pattern → Pattern) (m : HttpMethod) (ps : List Pattern)
    → ((p : Pattern) → t (f p) ≡ u p)
    → first_active t m (map f ps) ≡ first_active u m ps
first_active-map t u f m [] same = refl
first_active-map t u f m (p ∷ ps) same = rw (same p, first_active-map t u f m ps same) refl

pub any_active-map :
    (t u : Pattern → Routes) (f : Pattern → Pattern) (ps : List Pattern)
    → ((p : Pattern) → t (f p) ≡ u p)
    → any_active t (map f ps) ≡ any_active u ps
any_active-map t u f [] same = refl
any_active-map t u f (p ∷ ps) same = rw (same p, any_active-map t u f ps same) refl

pub first_active-none :
    (m : HttpMethod) (ps : List Pattern) → first_active (λ p. no_routes) m ps ≡ none
unfolding has_any_handler has_handler has_stream_handler
first_active-none m [] = refl
first_active-none m (p ∷ ps) = first_active-none m ps

pub any_active-none : (ps : List Pattern) → any_active (λ p. no_routes) ps ≡ false
unfolding has_any_handler has_handler has_stream_handler
any_active-none [] = refl
any_active-none (p ∷ ps) = any_active-none ps
