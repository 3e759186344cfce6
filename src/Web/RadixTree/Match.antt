-- ===== src/Web/RadixTree/Match.antt =====
-- src/modules/web/RadixTree.cpp, `Match` and `MatchNode`: the search for the route of a request.
use iouring_runtime.Prelude.{
  ℕ, ◌+◌, ◌-◌, ◌^◌, ◌%◌, Bool, true, false, List, [], ◌∷◌, ◌++◌, Option, none, some, length,
  if◌then◌else◌, Text, codes, same_text,
}
use iouring_runtime.Web.Paths.{View, Segment, view, split_path_view}
use iouring_runtime.Web.Method.{HttpMethod}
use iouring_runtime.Web.RadixTree.{
  RouteEntry, Routes, Node, Nodes, nil, cons, Link, null, to, prefix, children, param_child,
  param_name, wildcard_child, wildcard_name, node_routes, has_any_handler, node_has_any_handler,
  allow_header_value,
}

abbrev pub Params : Type 0
Params = List (Text × View)

pub record MatchResult : Type 0 where
  pub entry : Option RouteEntry
  pub params : Params
  pub path_exists : Bool
  pub allow_header : Text

abbrev pub no_match : MatchResult
no_match = record { entry = none; params = []; path_exists = false; allow_header = [] }

abbrev pub find_child : Text → Nodes → Option Node
find_child segment nil = none
find_child segment (cons c cs) =
    let later = find_child segment cs in if same_text (prefix c) segment then some c else later

-- The end of a path: the route of the method, or else whether another method has one.
unfoldable pub match_routes : Routes → HttpMethod → MatchResult → Params → MatchResult
match_routes routes m r params =
    if has_any_handler (routes m)
    then record {
      entry = some (routes m);
      params = params;
      path_exists = true;
      allow_header = allow_header_value routes;
    }
    else if node_has_any_handler routes
    then record r { path_exists = true; allow_header = allow_header_value routes }
    else r

-- `segments.back()`
abbrev pub back : Segment → List Segment → Segment
back s [] = s
back s (t ∷ ts) = back t ts

-- `last.data() + last.size() - first.data()`, as a `std::size_t`
unfoldable pub wildcard_value : Segment → List Segment → View
wildcard_value first rest =
    let last = back first rest in
    record {
      data_at = first.data_at;
      size = (last.data_at + length last.text + (2 ^ 64 - first.data_at % 2 ^ 64)) % 2 ^ 64;
    }

-- a step that a match found before it makes needless
abbrev pub unless_found : (MatchResult → MatchResult) → MatchResult → MatchResult
unless_found step r = elim r.entry [ some e ↦ r | none ↦ step r ]

abbrev pub on_found : (Node → MatchResult → MatchResult) → Option Node → MatchResult → MatchResult
on_found step none r = r
on_found step (some c) r = step c r

abbrev pub on_link : (Node → MatchResult → MatchResult) → Link → MatchResult → MatchResult
on_link step null r = r
on_link step (to c) r = step c r

-- `MatchNode`, on the segments from `index`. The vector of parameters is as before when a branch
-- finds nothing, so that it is passed down by value.
unfoldable pub match_node : List Segment → Node → HttpMethod → Params → MatchResult → MatchResult
match_node [] n m params r = match_routes (node_routes n) m r params
match_node (s ∷ rest) n m params r =
    let literal = on_found (λ c. match_node rest c m params) (find_child s.text (children n)) in
    let with_param = params ++ (param_name n, view s) ∷ [] in
    let param = on_link (λ c. match_node rest c m with_param) (param_child n) in
    let with_wildcard = params ++ (wildcard_name n, wildcard_value s rest) ∷ [] in
    let wildcard =
      on_link (λ c r. match_routes (node_routes c) m r with_wildcard) (wildcard_child n) in
    unless_found (λ r. unless_found wildcard (unless_found param (literal r))) r

-- The branch of `Match` for the path "/".
unfoldable pub match_root : Routes → HttpMethod → MatchResult
match_root routes m =
    if has_any_handler (routes m)
    then record no_match { entry = some (routes m); path_exists = true }
    else if node_has_any_handler routes
    then record no_match { path_exists = true; allow_header = allow_header_value routes }
    else no_match

-- A path is at an address, where its views point.
unfoldable pub match_path : Node → HttpMethod → ℕ → Text → MatchResult
match_path root m base path =
    if same_text path (codes "/")
    then match_root (node_routes root) m
    else match_node (split_path_view base path) root m [] no_match
