-- ===== src/Tests/Routes.antt =====
-- Concrete routes and requests: src/modules/web.
use iouring_runtime.Prelude.{
  ℕ, ◌+◌, ◌^◌, ◌==◌, true, false, List, [], ◌∷◌, ◌++◌, none, some, if◌then◌else◌, Text, codes, ◌≡◌,
  refl, arith,
}
use iouring_runtime.Web.Method.{HttpMethod, get, head, post, delete, same_method}
use iouring_runtime.Web.Status.{ok, not_found, method_not_allowed, internal_server_error}
use iouring_runtime.Web.Paths.{
  Segment, no_segment, split_path, split_from, split_path_view, split_view_from,
}
use iouring_runtime.Web.Paths.Segments.{none_left, and, split_path-path_of, path_of}
use iouring_runtime.Web.RadixTree.{
  RouteEntry, no_entry, new_node, insert, insert_segments, kind_of, has_any_handler, has_handler,
  has_stream_handler,
}
use iouring_runtime.Web.RadixTree.Match.{match_path, match_node, match_routes, wildcard_value}
use iouring_runtime.Web.RadixTree.Table.{Registration, register_all, table, pattern_of}
use iouring_runtime.Web.RadixTree.Patterns.{first_active, any_active, patterns}
use iouring_runtime.Web.RadixTree.Priority.{match_path-register_all, registered}
use iouring_runtime.Web.RadixTree.Wildcards.{wildcard_value-open, wildcard_value-trailing}
use iouring_runtime.Web.Response.{new_response, header, is_sent}
use iouring_runtime.Web.Response.Sending.{mark_sent}
use iouring_runtime.Tests.Responses.{date, ample}
use iouring_runtime.Web.Router.Middlewares.{all_passed, one_passed, dispatch-stopped}
use iouring_runtime.Web.Router.{
  RequestContext, returned, threw, Handlers, after_handler, dispatch, match_request,
  suppress_for_head, match_route, with_response,
}
use iouring_runtime.Web.Router.Dispatching.{router_of, after_handler-threw, dispatch-unhandled}
use iouring_runtime.Web.Router.Handling.{handler_for, handler_of, looked_up, dispatch-handled}

abbrev to_handler : ℕ → RouteEntry
to_handler h = record no_entry { handler = some h }

-- GET /users/:id, POST /users/:id, GET /users/me and GET /files/*path
abbrev sample : List Registration
sample =
    record { method = get; path = codes "/users/:id"; entry = to_handler 1 }
    ∷ record { method = post; path = codes "/users/:id"; entry = to_handler 2 }
    ∷ record { method = get; path = codes "/users/me"; entry = to_handler 3 }
    ∷ record { method = get; path = codes "/files/*path"; entry = to_handler 4 }
    ∷ []

-- The literal segment comes before the parameter.
me :
    first_active (registered sample) get (patterns (split_path_view 1000 (codes "/users/me")))
    ≡ some (to_handler 3)
unfolding split_path_view split_view_from has_any_handler has_handler has_stream_handler table
    pattern_of split_path split_from kind_of
me = refl

match_path-register_all_example :
    ((match_path (register_all sample (new_node [])) post 1000 (codes "/users/me")).entry
      ≡ first_active (registered sample) post (patterns (split_path_view 1000 (codes "/users/me"))))
    × ((match_path (register_all sample (new_node [])) post 1000 (codes "/users/me")).path_exists
        ≡ any_active (registered sample) (patterns (split_path_view 1000 (codes "/users/me"))))
match_path-register_all_example = match_path-register_all sample post 1000 (codes "/users/me")

split_path-path_of_example :
    split_path (path_of (codes "users" ∷ codes "7" ∷ [])) ≡ codes "users" ∷ codes "7" ∷ []
split_path-path_of_example = split_path-path_of (codes "users" ∷ codes "7" ∷ []) (
    and (codes "users") (codes "7" ∷ []) (record { some_byte = omega arith; no_slash = refl })
      (and (codes "7") [] (record { some_byte = omega arith; no_slash = refl }) none_left))

abbrev files : Segment
files = record { data_at = 1001; text = codes "files" }

abbrev folder : Segment
folder = record { data_at = 1007; text = codes "ab" }

abbrev name : Segment
name = record { data_at = 1010; text = codes "c" }

split_open : split_path_view 1000 (codes "/files/ab/c") ≡ (files ∷ []) ++ folder ∷ name ∷ []
unfolding split_path_view split_view_from
split_open = refl

wildcard_value-open_example : 1007 + (wildcard_value folder (name ∷ [])).size ≡ 1000 + 11
wildcard_value-open_example =
    wildcard_value-open 1000 (codes "/files/ab/c") (files ∷ []) folder (name ∷ []) (omega arith)
      refl split_open

split_trailing :
    split_path_view 1000 (codes "/files/ab/") ≡ (files ∷ []) ++ folder ∷ no_segment ∷ []
unfolding split_path_view split_view_from
split_trailing = refl

wildcard_value-trailing_example : 1007 + (wildcard_value folder (no_segment ∷ [])).size ≡ 2 ^ 64
wildcard_value-trailing_example =
    wildcard_value-trailing 1000 (codes "/files/ab/") (files ∷ []) folder no_segment []
      (omega arith) (omega arith) refl split_trailing

-- Handler 2 throws, 5 is a middleware that sets a header, 6 is one that sends, and the others return.
abbrev handlers : Handlers
handlers h ctx =
    if h == 2
    then threw ctx
    else if h == 5
    then returned (with_response (header (codes "X-Seen") (codes "1")) ctx)
    else if h == 6
    then returned (with_response mark_sent ctx)
    else returned ctx

abbrev request : HttpMethod → Text → RequestContext
request m path = record {
  method = m;
  path_at = 1000;
  path = path;
  params = [];
  response = new_response true;
  calls = [];
  date = date;
  pool = ample;
}

after_handler-threw_example :
    (is_sent (after_handler (threw (request get (codes "/users/7")))).response ≡ true)
    × ((after_handler (threw (request get (codes "/users/7")))).response.status
        ≡ (if is_sent (new_response true) then ok else internal_server_error))
    × ((after_handler (threw (request get (codes "/users/7")))).params ≡ [])
after_handler-threw_example = after_handler-threw (request get (codes "/users/7"))

abbrev seen : HttpMethod → Text → RequestContext
seen m path = with_response (header (codes "X-Seen") (codes "1")) (request m path)

seen_unsent : is_sent (header (codes "X-Seen") (codes "1") (new_response true)) ≡ false
unfolding is_sent
seen_unsent = refl

marked_sent : is_sent (mark_sent (header (codes "X-Seen") (codes "1") (new_response true))) ≡ true
unfolding is_sent
marked_sent = refl

unhandled :
    (match_request (router_of (5 ∷ []) sample) (seen delete (codes "/users/me"))).handler ≡ none
unfolding match_request match_route match_path match_node match_routes insert insert_segments
    kind_of split_path split_from split_path_view split_view_from has_any_handler has_handler
    has_stream_handler
unhandled = refl

dispatch-unhandled_example :
    (after : RequestContext) × (dispatch
        (router_of (5 ∷ []) sample)
        handlers
        (request delete (codes "/users/me"))
      ≡ returned after)
    × (is_sent after.response ≡ true)
    × (after.response.status ≡ (
        if any_active (registered sample) (patterns (split_path_view 1000 (codes "/users/me")))
        then method_not_allowed
        else not_found))
dispatch-unhandled_example =
    dispatch-unhandled (5 ∷ []) sample handlers (request delete (codes "/users/me"))
      (seen delete (codes "/users/me")) (one_passed refl seen_unsent all_passed) unhandled

-- The second middleware sends, and neither the third nor a handler is called.
dispatch-stopped_example :
    dispatch (router_of (5 ∷ 6 ∷ 2 ∷ []) sample) handlers (request get (codes "/users/me"))
    ≡ returned (with_response mark_sent (seen get (codes "/users/me")))
dispatch-stopped_example =
    dispatch-stopped (5 ∷ []) 6 (2 ∷ []) (register_all sample (new_node [])) handlers
      (request get (codes "/users/me")) (seen get (codes "/users/me"))
      (returned (with_response mark_sent (seen get (codes "/users/me"))))
      (one_passed refl seen_unsent all_passed) refl marked_sent

-- A HEAD request for a user goes to the handler of GET.
head_of_user :
    handler_for
      (same_method head head)
      (handler_of (looked_up sample head 1000 (codes "/users/7")))
      (handler_of (looked_up sample get 1000 (codes "/users/7")))
    ≡ some 1
unfolding split_path_view split_view_from has_any_handler has_handler has_stream_handler table
    pattern_of split_path split_from kind_of
head_of_user = refl

dispatch-handled_example :
    dispatch (router_of (5 ∷ []) sample) handlers (request head (codes "/users/7"))
    ≡ returned (
        after_handler (
          handlers 1 (record (suppress_for_head (seen head (codes "/users/7"))) {
            params =
                (match_request (router_of (5 ∷ []) sample) (seen head (codes "/users/7"))).params;
          })))
dispatch-handled_example =
    dispatch-handled (5 ∷ []) sample handlers (request head (codes "/users/7"))
      (seen head (codes "/users/7")) 1 (one_passed refl seen_unsent all_passed) head_of_user
