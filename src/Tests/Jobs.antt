-- ===== src/Tests/Jobs.antt =====
-- Two threads push at once, and a worker executes both jobs.
use iouring_runtime.Prelude.{◌+◌, ◌≤◌, ◌≡◌, refl, inl, true, [], ◌∷◌, ◌++◌, arith, length}
use iouring_runtime.Core.JobQueue.{
  JobQueue, adding, registering, busy, counts, stores_first, stores_later, registers, pops, takes,
  runs, gives_back, settles_last, Reach, start, next, empty,
}
use iouring_runtime.Core.JobQueue.Serial.{one_in_order, none_lost}
use iouring_runtime.Core.JobQueue.Tokens.{rests}

-- The first job is counted first and stored second.
abbrev both_stored : JobQueue
both_stored = record empty {
  jobs = 8 ∷ 7 ∷ [];
  job_count = 2;
  pushers = registering ∷ [];
  pushed = 8 ∷ 7 ∷ [];
}

to_both_stored : Reach both_stored
to_both_stored =
    next
      (next (next (next start (counts _ 7)) (counts _ 8))
        (stores_later _ [] (adding 7 true ∷ []) 8 refl))
      (stores_first _ [] [] 7 refl)

-- The worker has executed one of the jobs.
abbrev halfway : JobQueue
halfway = record both_stored {
  jobs = [];
  pushers = [];
  running = busy (7 ∷ []) 1 ∷ [];
  executed = 8 ∷ [];
}

to_halfway : Reach halfway
to_halfway =
    next
      (next (next (next to_both_stored (registers _ [] [] refl)) (pops _ (omega arith)))
        (takes _ [] [] refl))
      (runs _ [] [] 8 (7 ∷ []) 0 refl)

abbrev done : JobQueue
done = record halfway { job_count = 0; running = []; executed = 8 ∷ 7 ∷ [] }

to_done : Reach done
to_done =
    next
      (next (next to_halfway (runs _ [] [] 7 [] 1 refl)) (gives_back _ [] [] [] 2 refl (inl refl)))
      (settles_last _ [] [] 2 refl (omega arith))

one_in_order_example :
    (halfway.registered + length halfway.running ≤ 1)
    × (halfway.pushed ≡ halfway.executed ++ (rests halfway.running ++ halfway.jobs))
one_in_order_example = one_in_order halfway to_halfway

none_lost_example : (done.executed ≡ done.pushed) × (done.job_count ≡ 0)
none_lost_example = none_lost done to_done refl refl refl
