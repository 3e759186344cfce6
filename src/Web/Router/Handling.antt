-- ===== src/Web/Router/Handling.antt =====
-- src/modules/web/Router.cpp, `Dispatch`: which handler a request is given to.
use iouring_runtime.Prelude.{
  ℕ, Bool, true, false, ◌&&◌, not, List, [], Option, none, some, if◌then◌else◌, Text, ◌≡◌, refl, ap,
  ap₂, ◌∙◌,
}
use iouring_runtime.Web.Method.{HttpMethod, get, head, same_method}
use iouring_runtime.Web.Paths.{split_path_view}
use iouring_runtime.Web.RadixTree.{RouteEntry, is_set, new_node}
use iouring_runtime.Web.RadixTree.Match.{match_path, Params}
use iouring_runtime.Web.RadixTree.Table.{Registration, register_all}
use iouring_runtime.Web.RadixTree.Patterns.{first_active, patterns}
use iouring_runtime.Web.RadixTree.Priority.{registered, match_path-register_all}
use iouring_runtime.Web.Router.Middlewares.{Passes, dispatch-Passes}
use iouring_runtime.Web.Router.{
  RouterMatch, RequestContext, returned, Handlers, after_handler, of_entry, match_route,
  match_request, suppress_for_head, respond, route_request, dispatch,
}
use iouring_runtime.Web.Router.Dispatching.{router_of}

-- what the flat table has for a method and a path
abbrev pub looked_up : List Registration → HttpMethod → ℕ → Text → Option RouteEntry
looked_up gs m base path = first_active (registered gs) m (patterns (split_path_view base path))

abbrev pub handler_of : Option RouteEntry → Option ℕ
handler_of none = none
handler_of (some e) = e.handler

of_entry-handler :
    (o : Option RouteEntry) (params : Params) (b : Bool) (allow : Text)
    → (of_entry o params b allow).handler ≡ handler_of o
of_entry-handler none params b allow = refl
of_entry-handler (some e) params b allow = refl

match_route-handler :
    (ms : List ℕ) (gs : List Registration) (m : HttpMethod) (base : ℕ) (path : Text)
    → (match_route (router_of ms gs) m base path).handler ≡ handler_of (looked_up gs m base path)
unfolding match_route
match_route-handler ms gs m base path =
    let q = match_path (register_all gs (new_node [])) m base path in
    of_entry-handler q.entry q.params q.path_exists q.allow_header
    ∙ ap handler_of (match_path-register_all gs m base path).0

-- the handler of a request: the one for its method, or that of GET for a HEAD request without one
abbrev pub handler_for : Bool → Option ℕ → Option ℕ → Option ℕ
handler_for is_head (some h) of_get = some h
handler_for true none of_get = of_get
handler_for false none of_get = none

handler-branch :
    (b : Bool) (x y : RouterMatch)
    → (if b then x else y).handler ≡ (if b then x.handler else y.handler)
handler-branch true x y = refl
handler-branch false x y = refl

handler_for-test :
    (is_head : Bool) (o p : Option ℕ)
    → (if is_head && not (is_set o) && is_set p then p else o) ≡ handler_for is_head o p
handler_for-test true none none = refl
handler_for-test true none (some h) = refl
handler_for-test true (some g) none = refl
handler_for-test true (some g) (some h) = refl
handler_for-test false none none = refl
handler_for-test false none (some h) = refl
handler_for-test false (some g) none = refl
handler_for-test false (some g) (some h) = refl

match_request-handler :
    (ms : List ℕ) (gs : List Registration) (ctx : RequestContext)
    → (match_request (router_of ms gs) ctx).handler
      ≡ handler_for
          (same_method ctx.method head)
          (handler_of (looked_up gs ctx.method ctx.path_at ctx.path))
          (handler_of (looked_up gs get ctx.path_at ctx.path))
unfolding match_request
match_request-handler ms gs ctx =
    handler-branch (is_head && not (is_set result.handler) && is_set get_result.handler) get_result
      result
    ∙ handler_for-test is_head result.handler get_result.handler
    ∙ ap₂ (handler_for is_head) (match_route-handler ms gs ctx.method ctx.path_at ctx.path)
        (match_route-handler ms gs get ctx.path_at ctx.path)
  where
    is_head : Bool
    is_head = same_method ctx.method head

    result : RouterMatch
    result = match_route (router_of ms gs) ctx.method ctx.path_at ctx.path

    get_result : RouterMatch
    get_result = match_route (router_of ms gs) get ctx.path_at ctx.path

-- A request that passes the middlewares goes to the handler that the flat table of the registrations gives
-- for its method and path, or for a HEAD request without one to that of GET, with the parameters of the
-- match and with the body suppressed for HEAD; what the handler leaves, an exception included, is the end
-- of the request.
pub dispatch-handled :
    (ms : List ℕ) (gs : List Registration) (run : Handlers) (ctx passed : RequestContext) (h : ℕ)
    → Passes run ms ctx passed
    → handler_for
        (same_method passed.method head)
        (handler_of (looked_up gs passed.method passed.path_at passed.path))
        (handler_of (looked_up gs get passed.path_at passed.path))
      ≡ some h
    → dispatch (router_of ms gs) run ctx
      ≡ returned (
          after_handler (
            run h (record (suppress_for_head passed) {
              params = (match_request (router_of ms gs) passed).params;
            })))
unfolding route_request
dispatch-handled ms gs run ctx passed h passes found =
    dispatch-Passes (register_all gs (new_node [])) passes
    ∙ ap
        (λ o.
          returned
            (respond run (match_request (router_of ms gs) passed) o (suppress_for_head passed)))
        (match_request-handler ms gs passed ∙ found)
