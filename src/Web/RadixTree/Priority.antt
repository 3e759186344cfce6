-- ===== src/Web/RadixTree/Priority.antt =====
-- src/modules/web/RadixTree.cpp, `Match`: the route that it finds is the first, in the order of priority,
-- of the patterns that a request's segments match.
use iouring_runtime.Prelude.{
  ℕ, false, ◌||◌, List, [], ◌∷◌, ◌++◌, map, none, ◌≡◌, refl, sym, ap, ◌∙◌, inl, inr, Bool-cases,
  Option-cases, Text, codes, same_text, same_text→eq,
}
use iouring_runtime.Web.Paths.{Segment, view, split_path_view, split_view_from}
use iouring_runtime.Web.Method.{HttpMethod}
use iouring_runtime.Web.RadixTree.{
  Routes, Node, node, null, to, children, param_child, param_name, wildcard_child, wildcard_name,
  node_routes, no_routes, has_any_handler, node_has_any_handler, new_node,
}
use iouring_runtime.Web.RadixTree.Match.{
  MatchResult, Params, no_match, match_routes, match_node, match_path, match_root, find_child,
  on_found, on_link, unless_found, wildcard_value,
}
use iouring_runtime.Web.RadixTree.Table.{
  Pattern, lit, one, rest, routes_at, Registration, register_all, table, routes_at-register_all,
  routes_at-new_node,
}
use iouring_runtime.Web.RadixTree.Patterns.{
  patterns, or_else, active, first_active, any_active, any-own, or_false, or_else-none,
  first_active-append, any_active-append, first_active-map, any_active-map, first_active-none,
  any_active-none,
}
use iouring_runtime.Web.RadixTree.Finds.{
  Finds, match_routes-Finds, then_Finds, fresh_Finds, then_Sound, skip-Finds, first_active-Sound,
  as_Finds,
}

-- what a tree holds for each pattern
abbrev held : Node → Pattern → Routes
held n p = routes_at p n

-- The step of a search below a child: on the child's patterns it finds what they hold.
Searches : (Node → MatchResult → MatchResult) → HttpMethod → List Pattern → Type 0
Searches step m ps =
    (c : Node) → Finds (step c) (first_active (held c) m ps) (any_active (held c) ps)

nothing_below :
    (t : Pattern → Routes) (f : Pattern → Pattern) (m : HttpMethod) (ps : List Pattern)
    → ((p : Pattern) → t (f p) ≡ no_routes)
    → Finds (λ r. r) (first_active t m (map f ps)) (any_active t (map f ps))
nothing_below t f m ps empty =
    as_Finds (λ r. r) none (first_active t m (map f ps)) false (any_active t (map f ps))
      (sym (first_active-map t (λ p. no_routes) f m ps empty ∙ first_active-none m ps))
      (sym (any_active-map t (λ p. no_routes) f ps empty ∙ any_active-none ps)) skip-Finds

child_below :
    (step : MatchResult → MatchResult) (t : Pattern → Routes) (c : Node) (f : Pattern → Pattern)
    (m : HttpMethod) (ps : List Pattern)
    → ((p : Pattern) → t (f p) ≡ routes_at p c)
    → Finds step (first_active (held c) m ps) (any_active (held c) ps)
    → Finds step (first_active t m (map f ps)) (any_active t (map f ps))
child_below step t c f m ps same h =
    as_Finds step (first_active (held c) m ps) (first_active t m (map f ps))
      (any_active (held c) ps) (any_active t (map f ps))
      (sym (first_active-map t (held c) f m ps same)) (sym (any_active-map t (held c) f ps same)) h

end_Finds :
    (routes : Routes) (m : HttpMethod) (params : Params)
    → Finds
        (λ r. match_routes routes m r params)
        (or_else (active routes m) none)
        (node_has_any_handler routes || false)
end_Finds routes m params =
    as_Finds (λ r. match_routes routes m r params) (active routes m)
      (or_else (active routes m) none) (node_has_any_handler routes)
      (node_has_any_handler routes || false) (sym (or_else-none (active routes m)))
      (sym (or_false (node_has_any_handler routes))) (match_routes-Finds routes m params)

literal_below :
    (step : Node → MatchResult → MatchResult) (s : Text) (n : Node) (m : HttpMethod)
    (ps : List Pattern)
    → Searches step m ps
    → Finds
        (on_found step (find_child s (children n)))
        (first_active (held n) m (map (lit s) ps))
        (any_active (held n) (map (lit s) ps))
unfolding routes_at Searches
literal_below step s n m ps h = elim (Option-cases (find_child s (children n))) [
  | inl new ↦ rw new (nothing_below (held n) (lit s) m ps (λ p. rw (new, routes_at) refl))
  | inr (c, old) ↦
      rw old (child_below (step c) (held n) c (lit s) m ps (λ p. rw (old, routes_at) refl) (h c))
]

param_below :
    (step : Node → MatchResult → MatchResult) (n : Node) (m : HttpMethod) (ps : List Pattern)
    → Searches step m ps
    → Finds
        (on_link step (param_child n))
        (first_active (held n) m (map one ps))
        (any_active (held n) (map one ps))
unfolding routes_at Searches
param_below step (node p cs null pn wc wn routes) m ps h =
    nothing_below (held (node p cs null pn wc wn routes)) one m ps (λ p. refl)
param_below step (node p cs (to c) pn wc wn routes) m ps h =
    child_below (step c) (held (node p cs (to c) pn wc wn routes)) c one m ps (λ p. refl) (h c)

wildcard_below :
    (n : Node) (m : HttpMethod) (params : Params)
    → Finds
        (on_link (λ c r. match_routes (node_routes c) m r params) (wildcard_child n))
        (first_active (held n) m (rest ∷ []))
        (any_active (held n) (rest ∷ []))
unfolding routes_at
wildcard_below (node p cs pc pn null wn routes) m params =
    as_Finds (λ r. r) none (first_active (λ p. no_routes) m (rest ∷ [])) false
      (any_active (λ p. no_routes) (rest ∷ [])) (sym (first_active-none m (rest ∷ [])))
      (sym (any_active-none (rest ∷ []))) skip-Finds
wildcard_below (node p cs pc pn (to c) wn routes) m params = end_Finds (node_routes c) m params

-- The branches of a node one behind the other.
branches_below :
    (literal param wildcard : MatchResult → MatchResult) (t : Pattern → Routes) (m : HttpMethod)
    (ls qs ws : List Pattern)
    → Finds literal (first_active t m ls) (any_active t ls)
    → Finds param (first_active t m qs) (any_active t qs)
    → Finds wildcard (first_active t m ws) (any_active t ws)
    → Finds
        (λ r. unless_found wildcard (unless_found param (literal r)))
        (first_active t m (ls ++ qs ++ ws))
        (any_active t (ls ++ qs ++ ws))
branches_below literal param wildcard t m ls qs ws l q w =
    as_Finds (λ r. unless_found wildcard (unless_found param (literal r)))
      (or_else (or_else (first_active t m ls) (first_active t m qs)) (first_active t m ws))
      (first_active t m (ls ++ qs ++ ws)) ((any_active t ls || any_active t qs) || any_active t ws)
      (any_active t (ls ++ qs ++ ws))
      (sym (
        first_active-append t m (ls ++ qs) ws
        ∙ ap (λ a. or_else a (first_active t m ws)) (first_active-append t m ls qs)))
      (sym (
        any_active-append t (ls ++ qs) ws
        ∙ ap (λ a. a || any_active t ws) (any_active-append t ls qs)))
      (then_Finds (λ r. unless_found param (literal r)) wildcard
        (or_else (first_active t m ls) (first_active t m qs)) (first_active t m ws)
        (any_active t ls || any_active t qs) (any_active t ws)
        (then_Sound (first_active t m ls) (first_active t m qs) (any_active t ls) (any_active t qs)
          (first_active-Sound t m ls) (first_active-Sound t m qs))
        (then_Finds literal param (first_active t m ls) (first_active t m qs) (any_active t ls)
          (any_active t qs) (first_active-Sound t m ls) l q)
        w)

match_node-Searches :
    (ss : List Segment) (m : HttpMethod) (params : Params)
    → Searches (λ c. match_node ss c m params) m (patterns ss)
unfolding match_node Searches routes_at
match_node-Searches [] m params n = end_Finds (node_routes n) m params
match_node-Searches (s ∷ ss) m params n =
    fresh_Finds (λ r. unless_found wildcard (unless_found param (literal r)))
      (first_active (held n) m (patterns (s ∷ ss))) (any_active (held n) (patterns (s ∷ ss)))
      (branches_below literal param wildcard (held n) m (map (lit s.text) (patterns ss))
        (map one (patterns ss)) (rest ∷ [])
        (literal_below (λ c. match_node ss c m params) s.text n m (patterns ss)
          (match_node-Searches ss m params))
        (param_below (λ c. match_node ss c m with_param) n m (patterns ss)
          (match_node-Searches ss m with_param))
        (wildcard_below n m with_wildcard))
  where
    with_param : Params
    with_param = params ++ (param_name n, view s) ∷ []

    with_wildcard : Params
    with_wildcard = params ++ (wildcard_name n, wildcard_value s ss) ∷ []

    literal : MatchResult → MatchResult
    literal = on_found (λ c. match_node ss c m params) (find_child s.text (children n))

    param : MatchResult → MatchResult
    param = on_link (λ c. match_node ss c m with_param) (param_child n)

    wildcard : MatchResult → MatchResult
    wildcard = on_link (λ c r. match_routes (node_routes c) m r with_wildcard) (wildcard_child n)

-- the flat table of registrations on a tree that is empty at first
abbrev pub registered : List Registration → Pattern → Routes
registered gs p = table gs p no_routes

held-register_all : (gs : List Registration) → held (register_all gs (new_node [])) ≡ registered gs
held-register_all gs =
    λ i p. (routes_at-register_all gs p (new_node []) ∙ ap (table gs p) (routes_at-new_node p [])) i

match_root-found :
    (routes : Routes) (m : HttpMethod)
    → ((match_root routes m).entry ≡ or_else (active routes m) none)
      × ((match_root routes m).path_exists ≡ (node_has_any_handler routes || false))
unfolding match_root
match_root-found routes m = elim (Bool-cases (has_any_handler (routes m))) [
  | inl own ↦ (rw own refl, rw (own, any-own routes m own) refl)
  | inr bare ↦ elim (Bool-cases (node_has_any_handler routes)) [
    | inl others ↦ (rw (bare, others) refl, rw (bare, others) refl)
    | inr nobody ↦ (rw (bare, nobody) refl, rw (bare, nobody) refl)
  ]
]

match_path-held :
    (root : Node) (m : HttpMethod) (base : ℕ) (path : Text)
    → ((match_path root m base path).entry
        ≡ first_active (held root) m (patterns (split_path_view base path)))
      × ((match_path root m base path).path_exists
          ≡ any_active (held root) (patterns (split_path_view base path)))
unfolding match_path Searches Finds split_path_view split_view_from routes_at
match_path-held root m base path = elim (Bool-cases (same_text path (codes "/"))) [
  | inl whole ↦
      rw (whole, same_text→eq path (codes "/") whole) (match_root-found (node_routes root) m)
  | inr other ↦ rw other (match_node-Searches (split_path_view base path) m [] root no_match refl)
]

-- After registrations on a tree that is empty at first, a request finds the first entry, in the order of
-- priority, that the flat table has active for its method among the patterns of the request's path, and
-- finds that the path exists exactly when one of these patterns has an active route of whatever method.
pub match_path-register_all :
    (gs : List Registration) (m : HttpMethod) (base : ℕ) (path : Text)
    → let found = match_path (register_all gs (new_node [])) m base path in
      let asked = patterns (split_path_view base path) in
      (found.entry ≡ first_active (registered gs) m asked)
      × (found.path_exists ≡ any_active (registered gs) asked)
match_path-register_all gs m base path =
    let (found, exists) = match_path-held (register_all gs (new_node [])) m base path in
    let asked = patterns (split_path_view base path) in
    (
      found ∙ ap (λ t. first_active t m asked) (held-register_all gs),
      exists ∙ ap (λ t. any_active t asked) (held-register_all gs),
    )
