-- ===== src/Core/JobQueue.antt =====
-- include/iouring_runtime/core/JobQueue.h, src/runtime/job/JobQueue.cpp and GlobalQueue.cpp: jobs pushed
-- by any threads and executed by workers. Between two atomic actions (an atomic operation, or what is
-- done under a mutex) any other thread may act, so these are the steps. Of the global queue only the
-- entries of this job queue are counted. `job_count_` is taken to stay below 2^31.
pub mod Tokens
pub mod Serial
use iouring_runtime.Prelude.{
  ℕ, ◌+◌, ◌-◌, ◌≤◌, ◌<◌, ◌≡◌, ◌⊎◌, Bool, true, false, List, [], ◌∷◌, ◌++◌, ◌==◌,
}

-- A call of `Push` that has counted its job and not stored it, with whether it counted the first one;
-- and one that has stored the first job and not yet registered the queue.
pub data Pusher : Type 0 where
  adding : ℕ → Bool → Pusher
  registering : Pusher

-- A call of `Execute`: at the head of its loop; with the rest of its batch and `executed_count`; after
-- it put the rest back; and past its deadline, about to register the queue again.
pub data Stage : Type 0 where
  top : Stage
  busy : List ℕ → ℕ → Stage
  settling : ℕ → Stage
  leaving : Stage

-- `registered` counts the queue's entries in the global queue; `pushed` and `executed` are the jobs in
-- the order in which they were stored and executed.
pub record JobQueue : Type 0 where
  pub jobs : List ℕ
  pub job_count : ℕ
  pub registered : ℕ
  pub pushers : List Pusher
  pub running : List Stage
  pub pushed : List ℕ
  pub executed : List ℕ

-- a queue as it is constructed
abbrev pub empty : JobQueue
empty = record {
  jobs = [];
  job_count = 0;
  registered = 0;
  pushers = [];
  running = [];
  pushed = [];
  executed = [];
}

pub data Step : JobQueue → JobQueue → Type 0 where
  -- `Push`: `fetch_add`
  counts :
      (s : JobQueue) (j : ℕ)
      → Step s (record s {
        job_count = s.job_count + 1;
        pushers = adding j (s.job_count == 0) ∷ s.pushers;
      })
  -- `Push`: `push_back`, for the first job and for a later one
  stores_first :
      (s : JobQueue) (ps qs : List Pusher) (j : ℕ)
      → s.pushers ≡ ps ++ (adding j true ∷ qs)
      → Step s (record s {
        jobs = s.jobs ++ (j ∷ []);
        pushed = s.pushed ++ (j ∷ []);
        pushers = ps ++ (registering ∷ qs);
      })
  stores_later :
      (s : JobQueue) (ps qs : List Pusher) (j : ℕ)
      → s.pushers ≡ ps ++ (adding j false ∷ qs)
      → Step s (record s {
        jobs = s.jobs ++ (j ∷ []);
        pushed = s.pushed ++ (j ∷ []);
        pushers = ps ++ qs;
      })
  -- `Push`: `gq_.Push`
  registers :
      (s : JobQueue) (ps qs : List Pusher)
      → s.pushers ≡ ps ++ (registering ∷ qs)
      → Step s (record s { registered = s.registered + 1; pushers = ps ++ qs })
  -- a worker's `TryPop`, which returns the queue, and its call of `Execute`
  pops :
      (s : JobQueue)
      → 0 < s.registered
      → Step s (record s { registered = s.registered - 1; running = top ∷ s.running })
  -- `Execute`: the batch
  takes :
      (s : JobQueue) (xs ys : List Stage)
      → s.running ≡ xs ++ (top ∷ ys)
      → Step s (record s { jobs = []; running = xs ++ (busy s.jobs 0 ∷ ys) })
  -- `Execute`: one job
  runs :
      (s : JobQueue) (xs ys : List Stage) (j : ℕ) (rest : List ℕ) (n : ℕ)
      → s.running ≡ xs ++ (busy (j ∷ rest) n ∷ ys)
      → Step s
          (record s { executed = s.executed ++ (j ∷ []); running = xs ++ (busy rest (n + 1) ∷ ys) })
  -- `Execute`: the batch is done, or the deadline passed after a job; the rest goes to the front
  gives_back :
      (s : JobQueue) (xs ys : List Stage) (rest : List ℕ) (n : ℕ)
      → s.running ≡ xs ++ (busy rest n ∷ ys)
      → (rest ≡ []) ⊎ (0 < n)
      → Step s (record s { jobs = rest ++ s.jobs; running = xs ++ (settling n ∷ ys) })
  -- `Execute`: `fetch_sub`, with nothing remaining; with more, in time; with more, past the deadline
  settles_last :
      (s : JobQueue) (xs ys : List Stage) (n : ℕ)
      → s.running ≡ xs ++ (settling n ∷ ys)
      → s.job_count ≤ n
      → Step s (record s { job_count = s.job_count - n; running = xs ++ ys })
  settles_more :
      (s : JobQueue) (xs ys : List Stage) (n : ℕ)
      → s.running ≡ xs ++ (settling n ∷ ys)
      → n < s.job_count
      → Step s (record s { job_count = s.job_count - n; running = xs ++ (top ∷ ys) })
  settles_late :
      (s : JobQueue) (xs ys : List Stage) (n : ℕ)
      → s.running ≡ xs ++ (settling n ∷ ys)
      → n < s.job_count
      → Step s (record s { job_count = s.job_count - n; running = xs ++ (leaving ∷ ys) })
  -- `Execute`: `gq_.Push`
  leaves :
      (s : JobQueue) (xs ys : List Stage)
      → s.running ≡ xs ++ (leaving ∷ ys)
      → Step s (record s { registered = s.registered + 1; running = xs ++ ys })

pub data Reach : JobQueue → Type 0 where
  start : Reach empty
  next : {s t : JobQueue} → Reach s → Step s t → Reach t
