-- ===== src/Web/RadixTree.antt =====
-- include/iouring_runtime/web/RadixTree.h and src/modules/web/RadixTree.cpp: the tree of routes. A
-- `unique_ptr<Node>` that may be null is a `Link`; a vector of nodes is `Nodes`; the array of routes
-- is a function of the method. A callable is named by a number.
pub mod Match
pub mod Patterns
pub mod Finds
pub mod Priority
pub mod Table
pub mod Wildcards
use iouring_runtime.Prelude.{
  ℕ, zero, suc, ◌+◌, ◌-◌, ◌^◌, ◌%◌, Bool, true, false, not, ◌&&◌, ◌||◌, List, [], ◌∷◌, ◌++◌, map,
  Option, none, some, length, take, drop, ltb, leb, ◌==◌, if◌then◌else◌, Text, codes, same_text,
  index_of, ends_in,
}
use iouring_runtime.Web.Paths.{View, Segment, view, split_path, split_path_view}
use iouring_runtime.Web.Method.{
  HttpMethod, get, head, post, put, delete, options, patch, unknown, same_method, methods,
  to_string,
}

pub record HttpStreamHandler : Type 0 where
  pub on_headers : Option ℕ
  pub on_body : Option ℕ
  pub on_complete : Option ℕ
  pub on_abort : Option ℕ

pub record RouteEntry : Type 0 where
  pub handler : Option ℕ
  pub stream_handler : HttpStreamHandler

-- whether a `std::function` or a pointer is set
abbrev pub is_set {ℓ} : {A : Type ℓ} → Option A → Bool
is_set none = false
is_set (some f) = true

unfoldable pub has_handler : RouteEntry → Bool
has_handler e = is_set e.handler

unfoldable pub has_stream_handler : RouteEntry → Bool
has_stream_handler e =
    is_set e.stream_handler.on_headers
    || is_set e.stream_handler.on_body
    || is_set e.stream_handler.on_complete
    || is_set e.stream_handler.on_abort

unfoldable pub has_any_handler : RouteEntry → Bool
unfolding has_handler has_stream_handler
has_any_handler e = has_handler e || has_stream_handler e

-- `std::array<RouteEntry, kMethodCount>`, and as it is first
abbrev pub Routes : Type 0
Routes = HttpMethod → RouteEntry

abbrev pub no_stream : HttpStreamHandler
no_stream = record { on_headers = none; on_body = none; on_complete = none; on_abort = none }

abbrev pub no_entry : RouteEntry
no_entry = record { handler = none; stream_handler = no_stream }

abbrev pub no_routes : Routes
no_routes m = no_entry

-- `routes[method] = std::move(entry)`
abbrev pub set_route : HttpMethod → RouteEntry → Routes → Routes
set_route m e routes n = if same_method m n then e else routes n

mutual
  -- the prefix, the children, the parameter's child and name, the wildcard's, and the routes
  pub data Node : Type 0 where
    node : Text → Nodes → Link → Text → Link → Text → Routes → Node

  pub data Nodes : Type 0 where
    nil : Nodes
    cons : Node → Nodes → Nodes

  pub data Link : Type 0 where
    null : Link
    to : Node → Link

abbrev pub prefix : Node → Text
prefix (node p cs pc pn wc wn routes) = p

abbrev pub children : Node → Nodes
children (node p cs pc pn wc wn routes) = cs

abbrev pub param_child : Node → Link
param_child (node p cs pc pn wc wn routes) = pc

abbrev pub param_name : Node → Text
param_name (node p cs pc pn wc wn routes) = pn

abbrev pub wildcard_child : Node → Link
wildcard_child (node p cs pc pn wc wn routes) = wc

abbrev pub wildcard_name : Node → Text
wildcard_name (node p cs pc pn wc wn routes) = wn

abbrev pub node_routes : Node → Routes
node_routes (node p cs pc pn wc wn routes) = routes

-- a node as it is made, with a prefix
abbrev pub new_node : Text → Node
new_node p = node p nil null [] null [] no_routes

abbrev pub any_route : Routes → List HttpMethod → Bool
any_route routes [] = false
any_route routes (m ∷ ms) =
    let later = any_route routes ms in if has_any_handler (routes m) then true else later

-- `Node::HasAnyHandler`
abbrev pub node_has_any_handler : Routes → Bool
node_has_any_handler routes = any_route routes methods

-- the lambda of `AllowHeaderValue`, under the test in front of its call
abbrev pub append_method : Bool → Text → Text → Text
append_method false method allow = allow
append_method true method [] = method
append_method true method (c ∷ allow) = (c ∷ allow) ++ codes ", " ++ method

-- `Node::AllowHeaderValue`
unfoldable pub allow_header_value : Routes → Text
allow_header_value routes =
    let allow_get = has_any_handler (routes get) in
    let allow_head = has_any_handler (routes head) in
    let allow = append_method allow_get (codes "GET") [] in
    let allow = append_method (allow_head || allow_get) (codes "HEAD") allow in
    let allow = append_method (has_any_handler (routes post)) (codes "POST") allow in
    let allow = append_method (has_any_handler (routes put)) (codes "PUT") allow in
    let allow = append_method (has_any_handler (routes delete)) (codes "DELETE") allow in
    let allow = append_method (has_any_handler (routes options)) (codes "OPTIONS") allow in
    append_method (has_any_handler (routes patch)) (codes "PATCH") allow

-- The loop over the children with the test `child->prefix == segment`, and `push_back` behind it.
abbrev pub in_child : Text → (Node → Node) → Nodes → Nodes
in_child segment f nil = cons (f (new_node segment)) nil
in_child segment f (cons c cs) =
    let rest = in_child segment f cs in
    if same_text (prefix c) segment then cons (f c) cs else cons c rest

-- what a segment of a pattern is
pub data Kind : Type 0 where
  literal : Text → Kind
  param : Text → Kind
  wildcard : Text → Kind

unfoldable pub kind_of : Text → Kind
kind_of [] = literal []
kind_of (c ∷ []) = literal (c ∷ [])
kind_of (c ∷ d ∷ s) =
    if c == 42 then wildcard (d ∷ s) else if c == 58 then param (d ∷ s) else literal (c ∷ d ∷ s)

-- The child behind a link, made with the name of its segment if there is none.
abbrev pub in_link : (Node → Node) → Link → Link
in_link f null = to (f (new_node []))
in_link f (to c) = to (f c)

abbrev pub name_once : Link → Text → Text → Text
name_once null old new = new
name_once (to c) old new = old

abbrev pub in_wildcard_child : Text → (Node → Node) → Node → Node
in_wildcard_child name f (node p cs pc pn wc wn routes) =
    node p cs pc pn (in_link f wc) (name_once wc wn name) routes

abbrev pub in_param_child : Text → (Node → Node) → Node → Node
in_param_child name f (node p cs pc pn wc wn routes) =
    node p cs (in_link f pc) (name_once pc pn name) wc wn routes

abbrev pub in_literal_child : Text → (Node → Node) → Node → Node
in_literal_child segment f (node p cs pc pn wc wn routes) =
    node p (in_child segment f cs) pc pn wc wn routes

abbrev pub set_node_route : HttpMethod → RouteEntry → Node → Node
set_node_route m e (node p cs pc pn wc wn routes) = node p cs pc pn wc wn (set_route m e routes)

-- The step of `InsertSegments` for a segment, with the call for the segments behind it.
abbrev pub insert_below : HttpMethod → RouteEntry → (Node → Node) → Kind → Node → Node
insert_below m e next (wildcard name) n = in_wildcard_child name (set_node_route m e) n
insert_below m e next (param name) n = in_param_child name next n
insert_below m e next (literal s) n = in_literal_child s next n

-- `InsertSegments`, on the segments from `index`
unfoldable pub insert_segments : List Text → HttpMethod → RouteEntry → Node → Node
insert_segments [] m e n = set_node_route m e n
insert_segments (segment ∷ rest) m e n =
    insert_below m e (insert_segments rest m e) (kind_of segment) n

unfoldable pub insert : HttpMethod → Text → RouteEntry → Node → Node
insert m path e root =
    if same_text path (codes "/")
    then set_node_route m e root
    else insert_segments (split_path path) m e root
