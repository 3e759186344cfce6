-- ===== src/Web/Router.antt =====
-- include/iouring_runtime/web/Router.h and src/modules/web/Router.cpp: the routes and the middlewares of a
-- server, and the dispatch of a request. What a handler or a middleware does is not in this code: it is an
-- argument, from the context of a call to the context after it, with an exception as an outcome.
pub mod Middlewares
pub mod Dispatching
pub mod Handling
use iouring_runtime.Prelude.{
  ℕ, Bool, true, false, ◌&&◌, not, List, [], ◌∷◌, ◌++◌, Option, none, some, if◌then◌else◌, Text,
  codes,
}
use iouring_runtime.Web.Method.{HttpMethod, get, head, same_method}
use iouring_runtime.Web.Status.{HttpStatus, internal_server_error, method_not_allowed, not_found}
use iouring_runtime.Web.Paths.{View}
use iouring_runtime.Web.RadixTree.{
  Node, RouteEntry, HttpStreamHandler, no_stream, no_entry, new_node, insert, is_set,
  has_stream_handler,
}
use iouring_runtime.Web.RadixTree.Match.{match_path, Params}
use iouring_runtime.Web.Response.{
  HttpResponse, set_status, set_content_type, set_body, header, set_suppress_body, is_sent,
}
use iouring_runtime.Web.Response.Sending.{Pool, SessionCall, send}

pub record Router : Type 0 where
  pub middlewares : List ℕ
  pub tree : Node

-- a router as it is constructed
abbrev pub new_router : Router
new_router = record { middlewares = []; tree = new_node [] }

unfoldable pub route : HttpMethod → Text → ℕ → Router → Router
route method path handler r = record r {
  tree = insert method path (record no_entry { handler = some handler }) r.tree;
}

unfoldable pub route_stream : HttpMethod → Text → HttpStreamHandler → Router → Router
route_stream method path handler r = record r {
  tree = insert method path (record no_entry { stream_handler = handler }) r.tree;
}

-- `Use`
unfoldable pub add_middleware : ℕ → Router → Router
add_middleware m r = record r { middlewares = r.middlewares ++ m ∷ [] }

-- `Router::MatchResult`
pub record RouterMatch : Type 0 where
  pub handler : Option ℕ
  pub stream_handler : Option HttpStreamHandler
  pub params : Params
  pub path_exists : Bool
  pub allow_header : Text

abbrev pub stream_of : RouteEntry → Option HttpStreamHandler
stream_of e = if has_stream_handler e then some e.stream_handler else none

-- what `Match` takes over from the entry that the tree gives
abbrev pub of_entry : Option RouteEntry → Params → Bool → Text → RouterMatch
of_entry none params path_exists allow_header = record {
  handler = none;
  stream_handler = none;
  params = [];
  path_exists = path_exists;
  allow_header = allow_header;
}
of_entry (some e) params path_exists allow_header = record {
  handler = e.handler;
  stream_handler = stream_of e;
  params = params;
  path_exists = path_exists;
  allow_header = allow_header;
}

unfoldable pub match_route : Router → HttpMethod → ℕ → Text → RouterMatch
match_route r method base path =
    let found = match_path r.tree method base path in
    of_entry found.entry found.params found.path_exists found.allow_header

-- The request, the response and what the session was told to send. `date` and `pool` are what `Send` asks.
pub record RequestContext : Type 0 where
  pub method : HttpMethod
  pub path_at : ℕ
  pub path : Text
  pub params : Params
  pub response : HttpResponse
  pub calls : List SessionCall
  pub date : Text
  pub pool : Pool

-- how a call of a handler or a middleware ends
pub data Outcome : Type 0 where
  returned : RequestContext → Outcome
  threw : RequestContext → Outcome

abbrev pub Handlers : Type 0
Handlers = ℕ → RequestContext → Outcome

-- `ctx.response.Send()`
unfoldable pub send_context : RequestContext → RequestContext
send_context ctx =
    let (calls, response) = send ctx.date ctx.pool ctx.response in
    record ctx { response = response; calls = ctx.calls ++ calls }

abbrev pub with_response : (HttpResponse → HttpResponse) → RequestContext → RequestContext
with_response f ctx = record ctx { response = f ctx.response }

unfoldable pub answer : HttpStatus → Text → RequestContext → RequestContext
answer status body ctx = send_context (
    with_response (λ r. set_body body (set_content_type (codes "text/plain") (set_status status r)))
      ctx)

-- The response for a path that has routes for other methods.
abbrev pub plain_not_allowed : HttpResponse → HttpResponse
plain_not_allowed r =
    set_body (codes "Method Not Allowed")
      (set_content_type (codes "text/plain") (set_status method_not_allowed r))

abbrev pub not_allowed_response : Text → HttpResponse → HttpResponse
not_allowed_response [] r = plain_not_allowed r
not_allowed_response (c ∷ allow) r = header (codes "Allow") (c ∷ allow) (plain_not_allowed r)

unfoldable pub answer_method_not_allowed : Text → RequestContext → RequestContext
answer_method_not_allowed allow ctx = send_context (with_response (not_allowed_response allow) ctx)

-- The `catch` clauses and `ClearParams`.
unfoldable pub after_handler : Outcome → RequestContext
after_handler (returned ctx) = record ctx { params = [] }
after_handler (threw ctx) =
    let ctx' =
      if is_sent ctx.response
      then ctx
      else answer internal_server_error (codes "Internal Server Error") ctx in
    record ctx' { params = [] }

-- `Match` for the request, and for a HEAD request without a handler the handler of GET, if there is one.
unfoldable pub match_request : Router → RequestContext → RouterMatch
match_request r ctx =
    let result = match_route r ctx.method ctx.path_at ctx.path in
    let get_result = match_route r get ctx.path_at ctx.path in
    if same_method ctx.method head && not (is_set result.handler) && is_set get_result.handler
    then get_result
    else result

abbrev pub suppress_for_head : RequestContext → RequestContext
suppress_for_head ctx =
    if same_method ctx.method head then with_response (set_suppress_body true) ctx else ctx

-- The end of `Dispatch`, with the handler that was found.
abbrev pub respond : Handlers → RouterMatch → Option ℕ → RequestContext → RequestContext
respond run result (some handler) ctx =
    after_handler (run handler (record ctx { params = result.params }))
respond run result none ctx =
    if result.path_exists
    then answer_method_not_allowed result.allow_header ctx
    else answer not_found (codes "Not Found") ctx

unfoldable pub route_request : Router → Handlers → RequestContext → RequestContext
route_request r run ctx =
    let result = match_request r ctx in respond run result result.handler (suppress_for_head ctx)

-- The loop over the middlewares, and what follows when none of them sends or throws.
unfoldable pub through_middlewares :
    List ℕ → Handlers → (RequestContext → RequestContext) → RequestContext → Outcome
through_middlewares [] run next ctx = returned (next ctx)
through_middlewares (m ∷ ms) run next ctx = elim (run m ctx) [
  | threw ctx' ↦ threw ctx'
  | returned ctx' ↦ elim (is_sent ctx'.response) [
    | true ↦ returned ctx'
    | false ↦ through_middlewares ms run next ctx'
  ]
]

unfoldable pub dispatch : Router → Handlers → RequestContext → Outcome
unfolding through_middlewares
dispatch r run ctx = through_middlewares r.middlewares run (route_request r run) ctx
