-- ===== src/Web/RadixTree/Table.antt =====
-- src/modules/web/RadixTree.cpp against a flat table of routes: the patterns of a request's path in
-- the order of their priority, and what a tree holds for a pattern.
use iouring_runtime.Prelude.{
  Bool, true, false, ◌&&◌, List, [], ◌∷◌, Option, none, some, ◌≡◌, refl, subst, ap, ◌∙◌, inl, inr,
  Bool-cases, Option-cases, if◌then◌else◌, Text, codes, same_text, same_text_refl, same_text→eq,
}
use iouring_runtime.Web.Paths.{split_path, split_from}
use iouring_runtime.Web.Method.{HttpMethod}
use iouring_runtime.Web.RadixTree.{
  RouteEntry, Routes, Node, node, Nodes, nil, cons, null, to, prefix, children, param_child,
  wildcard_child, node_routes, no_routes, new_node, set_route, kind_of, literal, param, wildcard,
  Kind, in_child, insert_below, insert_segments, insert,
}
use iouring_runtime.Web.RadixTree.Match.{find_child}

-- A pattern of a route: literal segments and parameters, and perhaps a wildcard behind them.
pub data Pattern : Type 0 where
  end : Pattern
  lit : Text → Pattern → Pattern
  one : Pattern → Pattern
  rest : Pattern

abbrev pub pattern_by : Pattern → Kind → Pattern
pattern_by p (wildcard name) = rest
pattern_by p (param name) = one p
pattern_by p (literal t) = lit t p

unfoldable pub pattern_of : List Text → Pattern
pattern_of [] = end
pattern_of (s ∷ ss) = pattern_by (pattern_of ss) (kind_of s)

abbrev pub same_pattern : Pattern → Pattern → Bool
same_pattern end end = true
same_pattern (lit s p) (lit t q) = same_text s t && same_pattern p q
same_pattern (one p) (one q) = same_pattern p q
same_pattern rest rest = true
same_pattern p q = false

-- what a tree holds for a pattern
unfoldable pub routes_at : Pattern → Node → Routes
routes_at end n = node_routes n
routes_at (lit t p) n = elim (find_child t (children n)) [
  | none ↦ no_routes
  | some c ↦ routes_at p c
]
routes_at (one p) n = elim (param_child n) [ null ↦ no_routes | to c ↦ routes_at p c ]
routes_at rest n = elim (wildcard_child n) [ null ↦ no_routes | to c ↦ node_routes c ]

pub routes_at-new_node : (p : Pattern) (t : Text) → routes_at p (new_node t) ≡ no_routes
unfolding routes_at
routes_at-new_node end t = refl
routes_at-new_node (lit s p) t = refl
routes_at-new_node (one p) t = refl
routes_at-new_node rest t = refl

prefix-insert_below :
    (m : HttpMethod) (e : RouteEntry) (f : Node → Node) (k : Kind) (n : Node)
    → prefix (insert_below m e f k n) ≡ prefix n
prefix-insert_below m e f (literal t) (node p cs pc pn wc wn routes) = refl
prefix-insert_below m e f (param t) (node p cs pc pn wc wn routes) = refl
prefix-insert_below m e f (wildcard t) (node p cs pc pn wc wn routes) = refl

prefix-insert_segments :
    (ss : List Text) (m : HttpMethod) (e : RouteEntry) (n : Node)
    → prefix (insert_segments ss m e n) ≡ prefix n
unfolding insert_segments
prefix-insert_segments [] m e (node p cs pc pn wc wn routes) = refl
prefix-insert_segments (s ∷ ss) m e n =
    prefix-insert_below m e (insert_segments ss m e) (kind_of s) n

-- the child of a literal segment, or a new one
abbrev or_new : Text → Option Node → Node
or_new t none = new_node t
or_new t (some c) = c

find_child-in_child :
    (t : Text) (f : Node → Node) (cs : Nodes)
    → ((n : Node) → prefix (f n) ≡ prefix n)
    → find_child t (in_child t f cs) ≡ some (f (or_new t (find_child t cs)))
find_child-in_child t f nil keeps = rw (keeps (new_node t), same_text_refl t) refl
find_child-in_child t f (cons c cs) keeps = elim (Bool-cases (same_text (prefix c) t)) [
  | inl same ↦ rw (same, keeps c, same) refl
  | inr other ↦ rw (other, other) (find_child-in_child t f cs keeps)
]

find_child-in_child_other :
    (u t : Text) (f : Node → Node) (cs : Nodes)
    → ((n : Node) → prefix (f n) ≡ prefix n)
    → same_text t u ≡ false
    → find_child u (in_child t f cs) ≡ find_child u cs
find_child-in_child_other u t f nil keeps ne = rw (keeps (new_node t), ne) refl
find_child-in_child_other u t f (cons c cs) keeps ne = elim (Bool-cases (same_text (prefix c) t)) [
  | inl same ↦
      let e : same_text (prefix c) u ≡ false = rw (same_text→eq (prefix c) t same) ne in
      rw (same, keeps c, e) refl
  | inr other ↦ rw (other, find_child-in_child_other u t f cs keeps ne) refl
]

abbrev overlay : Bool → HttpMethod → RouteEntry → Routes → Routes
overlay here m e routes = if here then set_route m e routes else routes

routes_at-child :
    (t : Text) (f : Node → Node) (m : HttpMethod) (e : RouteEntry) (p q : Pattern) (cs : Nodes)
    → ((n : Node) → prefix (f n) ≡ prefix n)
    → ((n : Node) → routes_at q (f n) ≡ overlay (same_pattern p q) m e (routes_at q n))
    → elim (find_child t (in_child t f cs)) [ none ↦ no_routes | some c ↦ routes_at q c ]
      ≡ overlay
          (same_pattern p q)
          m
          e
          (elim (find_child t cs) [ none ↦ no_routes | some c ↦ routes_at q c ])
routes_at-child t f m e p q cs keeps below = elim (Option-cases (find_child t cs)) [
  | inl new ↦
      rw (find_child-in_child t f cs keeps, new)
        (below (new_node t) ∙ ap (overlay (same_pattern p q) m e) (routes_at-new_node q t))
  | inr (c, old) ↦ rw (find_child-in_child t f cs keeps, old) (below c)
]

-- A child is found under its segment alone, so that an insertion below it shows there alone.
routes_at-literal :
    (t u : Text) (f : Node → Node) (m : HttpMethod) (e : RouteEntry) (p q : Pattern) (cs : Nodes)
    → ((n : Node) → prefix (f n) ≡ prefix n)
    → ((n : Node) → routes_at q (f n) ≡ overlay (same_pattern p q) m e (routes_at q n))
    → elim (find_child u (in_child t f cs)) [ none ↦ no_routes | some c ↦ routes_at q c ]
      ≡ overlay
          (same_text t u && same_pattern p q)
          m
          e
          (elim (find_child u cs) [ none ↦ no_routes | some c ↦ routes_at q c ])
routes_at-literal t u f m e p q cs keeps below = elim (Bool-cases (same_text t u)) [
  | inl same ↦ rw same (
      subst
        (λ v.
          elim (find_child v (in_child t f cs)) [ none ↦ no_routes | some c ↦ routes_at q c ]
          ≡ overlay (same_pattern p q) m e
              (elim (find_child v cs) [ none ↦ no_routes | some c ↦ routes_at q c ]))
        (same_text→eq t u same) (routes_at-child t f m e p q cs keeps below))
  | inr other ↦ rw (find_child-in_child_other u t f cs keeps other, other) refl
]

routes_at-insert_below :
    (f : Node → Node) (m : HttpMethod) (e : RouteEntry) (p : Pattern) (k : Kind) (q : Pattern)
    (n : Node)
    → ((c : Node) → prefix (f c) ≡ prefix c)
    → ((q : Pattern) (c : Node)
        → routes_at q (f c) ≡ overlay (same_pattern p q) m e (routes_at q c))
    → routes_at q (insert_below m e f k n)
      ≡ overlay (same_pattern (pattern_by p k) q) m e (routes_at q n)
unfolding routes_at
routes_at-insert_below f m e p (wildcard w) end (node t cs pc pn wc wn routes) keeps below = refl
routes_at-insert_below f m e p (wildcard w) (lit u q) (node t cs pc pn wc wn routes) keeps below =
    refl
routes_at-insert_below f m e p (wildcard w) (one q) (node t cs pc pn wc wn routes) keeps below =
    refl
routes_at-insert_below f m e p (wildcard w) rest (node t cs pc pn null wn routes) keeps below = refl
routes_at-insert_below f m e p (wildcard w) rest
      (node t cs pc pn (to (node t' cs' pc' pn' wc' wn' routes')) wn routes) keeps below =
    refl
routes_at-insert_below f m e p (param w) end (node t cs pc pn wc wn routes) keeps below = refl
routes_at-insert_below f m e p (param w) (lit u q) (node t cs pc pn wc wn routes) keeps below = refl
routes_at-insert_below f m e p (param w) (one q) (node t cs null pn wc wn routes) keeps below =
    below q (new_node []) ∙ ap (overlay (same_pattern p q) m e) (routes_at-new_node q [])
routes_at-insert_below f m e p (param w) (one q) (node t cs (to c) pn wc wn routes) keeps below =
    below q c
routes_at-insert_below f m e p (param w) rest (node t cs pc pn wc wn routes) keeps below = refl
routes_at-insert_below f m e p (literal w) end (node t cs pc pn wc wn routes) keeps below = refl
routes_at-insert_below f m e p (literal w) (lit u q) (node t cs pc pn wc wn routes) keeps below =
    routes_at-literal w u f m e p q cs keeps (below q)
routes_at-insert_below f m e p (literal w) (one q) (node t cs pc pn wc wn routes) keeps below = refl
routes_at-insert_below f m e p (literal w) rest (node t cs pc pn wc wn routes) keeps below = refl

pub routes_at-insert_segments :
    (ss : List Text) (m : HttpMethod) (e : RouteEntry) (p : Pattern) (n : Node)
    → routes_at p (insert_segments ss m e n)
      ≡ (if same_pattern (pattern_of ss) p then set_route m e (routes_at p n) else routes_at p n)
unfolding insert_segments routes_at pattern_of
routes_at-insert_segments [] m e end (node p cs pc pn wc wn routes) = refl
routes_at-insert_segments [] m e (lit t q) (node p cs pc pn wc wn routes) = refl
routes_at-insert_segments [] m e (one q) (node p cs pc pn wc wn routes) = refl
routes_at-insert_segments [] m e rest (node p cs pc pn wc wn routes) = refl
routes_at-insert_segments (s ∷ ss) m e q n =
    routes_at-insert_below (insert_segments ss m e) m e (pattern_of ss) (kind_of s) q n
      (prefix-insert_segments ss m e) (routes_at-insert_segments ss m e)

-- A route as it is registered: the segments of its path, the method and the entry.
pub record Registration : Type 0 where
  pub method : HttpMethod
  pub path : Text
  pub entry : RouteEntry

-- the calls of `Insert` of the registrations, in their order
abbrev pub register_all : List Registration → Node → Node
register_all [] root = root
register_all (g ∷ gs) root = register_all gs (insert g.method g.path g.entry root)

-- The flat table: for a pattern, the last entry of each method that was registered for it.
unfoldable pub table : List Registration → Pattern → Routes → Routes
table [] p routes = routes
table (g ∷ gs) p routes =
    table gs p (overlay (same_pattern (pattern_of (split_path g.path)) p) g.method g.entry routes)

routes_at-insert :
    (m : HttpMethod) (path : Text) (e : RouteEntry) (p : Pattern) (root : Node)
    → routes_at p (insert m path e root)
      ≡ overlay (same_pattern (pattern_of (split_path path)) p) m e (routes_at p root)
unfolding insert split_path split_from insert_segments pattern_of
routes_at-insert m path e p root = elim (Bool-cases (same_text path (codes "/"))) [
  | inl whole ↦
      rw (whole, same_text→eq path (codes "/") whole) (routes_at-insert_segments [] m e p root)
  | inr other ↦ rw other (routes_at-insert_segments (split_path path) m e p root)
]

-- After any registrations on any tree, what the tree holds for a pattern is what the flat table holds.
pub routes_at-register_all :
    (gs : List Registration) (p : Pattern) (root : Node)
    → routes_at p (register_all gs root) ≡ table gs p (routes_at p root)
unfolding table
routes_at-register_all [] p root = refl
routes_at-register_all (g ∷ gs) p root =
    routes_at-register_all gs p (insert g.method g.path g.entry root)
    ∙ ap (table gs p) (routes_at-insert g.method g.path g.entry p root)
