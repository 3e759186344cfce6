-- ===== src/Web/Router/Middlewares.antt =====
-- src/modules/web/Router.cpp, the first loop of `Dispatch`: the middlewares in front of a handler.
use iouring_runtime.Prelude.{ℕ, true, false, List, [], ◌∷◌, ◌++◌, ◌≡◌, refl, ◌∙◌, subst, append-nil}
use iouring_runtime.Web.RadixTree.{Node}
use iouring_runtime.Web.Response.{is_sent}
use iouring_runtime.Web.Router.{
  Router, RequestContext, Outcome, returned, threw, Handlers, through_middlewares, route_request,
  dispatch,
}

-- The middlewares let a request pass: each returns, and leaves the response unsent, to the next.
pub data Passes (run : Handlers) : List ℕ → RequestContext → RequestContext → Type 0 where
  all_passed : {ctx : RequestContext} → Passes run [] ctx ctx
  one_passed :
      {m : ℕ} {ms : List ℕ} {ctx next after : RequestContext}
      → run m ctx ≡ returned next
      → is_sent next.response ≡ false
      → Passes run ms next after
      → Passes run (m ∷ ms) ctx after

-- an outcome after which nothing else is called
abbrev Stops : Outcome → Type 0
Stops (returned ctx) = is_sent ctx.response ≡ true
Stops (threw ctx) = Unit {0}

-- The loop goes on with the middlewares that are left.
through-Passes :
    {run : Handlers} {ms : List ℕ} {ctx after : RequestContext}
    (end : RequestContext → RequestContext) (later : List ℕ)
    → Passes run ms ctx after
    → through_middlewares (ms ++ later) run end ctx ≡ through_middlewares later run end after
unfolding through_middlewares
through-Passes end later all_passed = refl
through-Passes end later (one_passed ran unsent rest) =
    rw (ran, unsent) (through-Passes end later rest)

-- Middlewares that let a request pass leave it to the routes.
pub dispatch-Passes :
    {run : Handlers} {ms : List ℕ} {ctx after : RequestContext} (tree : Node)
    → Passes run ms ctx after
    → dispatch (record { middlewares = ms; tree = tree }) run ctx
      ≡ returned (route_request (record { middlewares = ms; tree = tree }) run after)
unfolding dispatch through_middlewares
dispatch-Passes {run} {ms} {ctx} {after} tree passes =
    subst
      (λ l.
        through_middlewares l run (route_request (record { middlewares = ms; tree = tree }) run) ctx
        ≡ returned (route_request (record { middlewares = ms; tree = tree }) run after))
      (append-nil ms)
      (through-Passes (route_request (record { middlewares = ms; tree = tree }) run) [] passes)

-- what a middleware does that stops the request is the end of the loop
stopped :
    (run : Handlers) (end : RequestContext → RequestContext) (m : ℕ) (later : List ℕ)
    (ctx : RequestContext) (o : Outcome)
    → run m ctx ≡ o
    → Stops o
    → through_middlewares (m ∷ later) run end ctx ≡ o
unfolding through_middlewares
stopped run end m later ctx (returned after) ran done = rw (through_middlewares, ran, done) refl
stopped run end m later ctx (threw after) ran done = rw (through_middlewares, ran) refl

-- If some middlewares let a request pass, and the next one sends the response or throws, then what that
-- one leaves is the end of `Dispatch`, whatever the middlewares after it and the routes are.
pub dispatch-stopped :
    (ms : List ℕ) (m : ℕ) (later : List ℕ) (tree : Node) (run : Handlers)
    (ctx passed : RequestContext) (o : Outcome)
    → Passes run ms ctx passed
    → run m passed ≡ o
    → Stops o
    → dispatch (record { middlewares = ms ++ m ∷ later; tree = tree }) run ctx ≡ o
unfolding dispatch
dispatch-stopped ms m later tree run ctx passed o passes ran done =
    let r : Router = record { middlewares = ms ++ m ∷ later; tree = tree } in
    through-Passes (route_request r run) (m ∷ later) passes
    ∙ stopped run (route_request r run) m later passed o ran done
