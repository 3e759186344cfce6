-- ===== src/Core/JobQueue/Tokens.antt =====
-- src/runtime/job/JobQueue.cpp: what is counted in a state of the queue, and its invariant.
use iouring_runtime.Prelude.{
  ℕ, suc, ◌+◌, ◌≡◌, refl, ap, ◌∙◌, inl, inr, true, false, List, [], ◌∷◌, ◌++◌, append_assoc, ◌==◌,
  arith, length, length-append, min, Bool-cases,
}
use iouring_runtime.Core.JobQueue.{
  JobQueue, Pusher, adding, registering, Stage, top, busy, settling, leaving,
}

-- the calls of `Push` that will register the queue
abbrev pub tokens : List Pusher → ℕ
tokens [] = 0
tokens (adding j true ∷ ps) = suc (tokens ps)
tokens (adding j false ∷ ps) = tokens ps
tokens (registering ∷ ps) = suc (tokens ps)

-- the jobs that are counted and not stored
abbrev pub coming : List Pusher → ℕ
coming [] = 0
coming (adding j b ∷ ps) = suc (coming ps)
coming (registering ∷ ps) = coming ps

-- the jobs of batches that are still counted
abbrev pub held : List Stage → ℕ
held [] = 0
held (top ∷ xs) = held xs
held (busy rest n ∷ xs) = length rest + n + held xs
held (settling n ∷ xs) = n + held xs
held (leaving ∷ xs) = held xs

-- the jobs of batches that are not executed
abbrev pub rests : List Stage → List ℕ
rests [] = []
rests (top ∷ xs) = rests xs
rests (busy rest n ∷ xs) = rest ++ rests xs
rests (settling n ∷ xs) = rests xs
rests (leaving ∷ xs) = rests xs

pub tokens-append : (ps qs : List Pusher) → tokens (ps ++ qs) ≡ tokens ps + tokens qs
tokens-append [] qs = omega arith
tokens-append (adding j true ∷ ps) qs = omega (arith, tokens-append ps qs)
tokens-append (adding j false ∷ ps) qs = tokens-append ps qs
tokens-append (registering ∷ ps) qs = omega (arith, tokens-append ps qs)

pub coming-append : (ps qs : List Pusher) → coming (ps ++ qs) ≡ coming ps + coming qs
coming-append [] qs = omega arith
coming-append (adding j b ∷ ps) qs = omega (arith, coming-append ps qs)
coming-append (registering ∷ ps) qs = coming-append ps qs

pub held-append : (xs ys : List Stage) → held (xs ++ ys) ≡ held xs + held ys
held-append [] ys = omega arith
held-append (top ∷ xs) ys = held-append xs ys
held-append (busy rest n ∷ xs) ys = omega (arith, held-append xs ys)
held-append (settling n ∷ xs) ys = omega (arith, held-append xs ys)
held-append (leaving ∷ xs) ys = held-append xs ys

-- Whoever registers or executes the queue holds its one token, which is there while jobs are counted;
-- every counted job is coming, stored, or of a batch; and the jobs keep their order.
pub record Inv (s : JobQueue) : Type 0 where
  pub one : s.registered + length s.running + tokens s.pushers ≡ min 1 s.job_count
  pub count : s.job_count ≡ length s.jobs + coming s.pushers + held s.running
  pub order : s.pushed ≡ s.executed ++ (rests s.running ++ s.jobs)

pub none_left : {A : Type 0} (xs : List A) → length xs ≡ 0 → xs ≡ []
none_left [] e = refl
none_left (x ∷ xs) e = absurd (omega (arith, e))

-- The only call of `Execute` has no other beside it.
pub alone :
    (s : JobQueue) (xs ys : List Stage) (x : Stage)
    → Inv s
    → s.running ≡ xs ++ (x ∷ ys)
    → (xs ≡ []) × (ys ≡ [])
alone s xs ys x v e = (
  none_left xs (omega (arith, v.one, ap length e, length-append xs (x ∷ ys))),
  none_left ys (omega (arith, v.one, ap length e, length-append xs (x ∷ ys))),
)

-- The order, where `x` is the only call of `Execute`.
pub order_alone :
    (s : JobQueue) (xs ys : List Stage) (x : Stage)
    → Inv s
    → s.running ≡ xs ++ (x ∷ ys)
    → s.pushed ≡ s.executed ++ (rests (x ∷ []) ++ s.jobs)
order_alone s xs ys x v e =
    let (l, r) = alone s xs ys x v e in
    v.order
    ∙ ap (λ z. s.executed ++ (rests z ++ s.jobs))
        (e ∙ ap (λ z. z ++ (x ∷ ys)) l ∙ ap (λ z. x ∷ z) r)

pub put_back :
    (xs ys : List Stage) (x : Stage) (done jobs pushed : List ℕ)
    → (xs ≡ []) × (ys ≡ [])
    → pushed ≡ done ++ (rests (x ∷ []) ++ jobs)
    → pushed ≡ done ++ (rests (xs ++ (x ∷ ys)) ++ jobs)
put_back xs ys x done jobs pushed (l, r) e = rw (l, r) e

pub stored :
    (s : JobQueue) (j : ℕ)
    → Inv s
    → s.pushed ++ (j ∷ []) ≡ s.executed ++ (rests s.running ++ (s.jobs ++ (j ∷ [])))
stored s j v =
    ap (λ z. z ++ (j ∷ [])) v.order
    ∙ append_assoc s.executed (rests s.running ++ s.jobs) (j ∷ [])
    ∙ ap (λ z. s.executed ++ z) (append_assoc (rests s.running) s.jobs (j ∷ []))

pub tokens_adding :
    (j c : ℕ) (ps : List Pusher) → tokens (adding j (c == 0) ∷ ps) + min 1 c ≡ tokens ps + 1
tokens_adding j c ps = elim (Bool-cases (c == 0)) [
  | inl first ↦ rw first (ground arith)
  | inr later ↦ rw later (ground arith)
]
