-- ===== src/Web/Router/Dispatching.antt =====
-- src/modules/web/Router.cpp, `Dispatch`: how a request ends.
use iouring_runtime.Prelude.{
  ℕ, Bool, true, ◌&&◌, not, List, [], ◌∷◌, Option, none, some, if◌then◌else◌, Text, codes, ◌≡◌,
  refl, ap, ◌∙◌, inl, inr, Bool-cases, if_elim,
}
use iouring_runtime.Web.Method.{HttpMethod, get, head, same_method}
use iouring_runtime.Web.Status.{HttpStatus, internal_server_error, method_not_allowed, not_found}
use iouring_runtime.Web.Paths.{split_path_view}
use iouring_runtime.Web.RadixTree.{RouteEntry, is_set, new_node}
use iouring_runtime.Web.RadixTree.Match.{match_path, Params}
use iouring_runtime.Web.RadixTree.Table.{Registration, register_all}
use iouring_runtime.Web.RadixTree.Patterns.{any_active, patterns}
use iouring_runtime.Web.RadixTree.Priority.{registered, match_path-register_all}
use iouring_runtime.Web.Response.{HttpResponse, set_status, set_content_type, set_body, is_sent}
use iouring_runtime.Web.Response.Sending.Once.{send-Done}
use iouring_runtime.Web.Router.Middlewares.{Passes, dispatch-Passes}
use iouring_runtime.Web.Router.{
  Router, RouterMatch, RequestContext, returned, threw, Handlers, send_context, answer,
  answer_method_not_allowed, after_handler, of_entry, match_route, match_request,
  not_allowed_response, suppress_for_head, respond, route_request, dispatch, with_response,
}

send_context-Done :
    (ctx : RequestContext)
    → (is_sent (send_context ctx).response ≡ true)
      × ((send_context ctx).response.status ≡ ctx.response.status)
unfolding send_context
send_context-Done ctx = send-Done ctx.date ctx.pool ctx.response

answer-Done :
    (status : HttpStatus) (body : Text) (ctx : RequestContext)
    → (is_sent (answer status body ctx).response ≡ true)
      × ((answer status body ctx).response.status ≡ status)
unfolding answer
answer-Done status body ctx = send_context-Done (
    with_response (λ r. set_body body (set_content_type (codes "text/plain") (set_status status r)))
      ctx)

-- If a handler throws, the exception goes no further: the response is sent, with status 500 unless the
-- handler had sent it before, and the request has no parameters.
pub after_handler-threw :
    (ctx : RequestContext)
    → (is_sent (after_handler (threw ctx)).response ≡ true)
      × ((after_handler (threw ctx)).response.status
          ≡ (if is_sent ctx.response then ctx.response.status else internal_server_error))
      × ((after_handler (threw ctx)).params ≡ [])
unfolding after_handler
after_handler-threw ctx = elim (Bool-cases (is_sent ctx.response)) [
  | inl old ↦ rw old (old, refl, refl)
  | inr new ↦
      let (done, status) = answer-Done internal_server_error (codes "Internal Server Error") ctx in
      rw new (done, status, refl)
]

not_allowed_response-status :
    (allow : Text) (r : HttpResponse) → (not_allowed_response allow r).status ≡ method_not_allowed
not_allowed_response-status [] r = refl
not_allowed_response-status (c ∷ allow) r = refl

answer_method_not_allowed-Done :
    (allow : Text) (ctx : RequestContext)
    → (is_sent (answer_method_not_allowed allow ctx).response ≡ true)
      × ((answer_method_not_allowed allow ctx).response.status ≡ method_not_allowed)
unfolding answer_method_not_allowed
answer_method_not_allowed-Done allow ctx =
    let (done, status) = send_context-Done (with_response (not_allowed_response allow) ctx) in
    (done, status ∙ not_allowed_response-status allow ctx.response)

-- a router with middlewares and registrations
abbrev pub router_of : List ℕ → List Registration → Router
router_of ms gs = record { middlewares = ms; tree = register_all gs (new_node []) }

of_entry-path_exists :
    (o : Option RouteEntry) (params : Params) (b : Bool) (allow : Text)
    → (of_entry o params b allow).path_exists ≡ b
of_entry-path_exists none params b allow = refl
of_entry-path_exists (some e) params b allow = refl

pub match_route-path_exists :
    (ms : List ℕ) (gs : List Registration) (m : HttpMethod) (base : ℕ) (path : Text)
    → (match_route (router_of ms gs) m base path).path_exists
      ≡ any_active (registered gs) (patterns (split_path_view base path))
unfolding match_route
match_route-path_exists ms gs m base path =
    let q = match_path (register_all gs (new_node [])) m base path in
    of_entry-path_exists q.entry q.params q.path_exists q.allow_header
    ∙ (match_path-register_all gs m base path).1

match_request-path_exists :
    (ms : List ℕ) (gs : List Registration) (ctx : RequestContext)
    → (match_request (router_of ms gs) ctx).path_exists
      ≡ any_active (registered gs) (patterns (split_path_view ctx.path_at ctx.path))
unfolding match_request
match_request-path_exists ms gs ctx =
    if_elim
      (λ q.
        q.path_exists
        ≡ any_active (registered gs) (patterns (split_path_view ctx.path_at ctx.path)))
      (same_method ctx.method head && not (is_set result.handler) && is_set get_result.handler)
      get_result result (λ _. match_route-path_exists ms gs get ctx.path_at ctx.path)
      (λ _. match_route-path_exists ms gs ctx.method ctx.path_at ctx.path)
  where
    result : RouterMatch
    result = match_route (router_of ms gs) ctx.method ctx.path_at ctx.path

    get_result : RouterMatch
    get_result = match_route (router_of ms gs) get ctx.path_at ctx.path

respond-unhandled :
    (run : Handlers) (result : RouterMatch) (ctx : RequestContext) (o : Option ℕ)
    → o ≡ none
    → (is_sent (respond run result o ctx).response ≡ true)
      × ((respond run result o ctx).response.status
          ≡ (if result.path_exists then method_not_allowed else not_found))
respond-unhandled run result ctx (some h) e = absurd cc
respond-unhandled run result ctx none e =
    if_elim
      (λ c.
        (is_sent c.response ≡ true)
        × (c.response.status ≡ (if result.path_exists then method_not_allowed else not_found)))
      result.path_exists (answer_method_not_allowed result.allow_header ctx)
      (answer not_found (codes "Not Found") ctx)
      (λ known. rw known (answer_method_not_allowed-Done result.allow_header ctx))
      (λ unknown. rw unknown (answer-Done not_found (codes "Not Found") ctx))

-- A request that passes the middlewares, and for which the routes registered then give no handler, is
-- answered: with 405 if a pattern of its path is registered for another method, and with 404 if none is.
pub dispatch-unhandled :
    (ms : List ℕ) (gs : List Registration) (run : Handlers) (ctx passed : RequestContext)
    → Passes run ms ctx passed
    → (match_request (router_of ms gs) passed).handler ≡ none
    → (after : RequestContext) × (dispatch (router_of ms gs) run ctx ≡ returned after)
      × (is_sent after.response ≡ true)
      × (after.response.status ≡ (
          if any_active (registered gs) (patterns (split_path_view passed.path_at passed.path))
          then method_not_allowed
          else not_found))
unfolding route_request
dispatch-unhandled ms gs run ctx passed passes unhandled =
    let result = match_request (router_of ms gs) passed in
    let (done, status) =
      respond-unhandled run result (suppress_for_head passed) result.handler unhandled in
    (
      respond run result result.handler (suppress_for_head passed),
      dispatch-Passes (register_all gs (new_node [])) passes,
      done,
      status
          ∙ ap (λ b. if b then method_not_allowed else not_found)
              (match_request-path_exists ms gs passed),
    )
