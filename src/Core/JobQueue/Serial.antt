-- ===== src/Core/JobQueue/Serial.antt =====
-- One worker at a time executes the jobs, in the order in which they were stored, and none is lost.
use iouring_runtime.Prelude.{
  ◌+◌, ◌≤◌, ◌≡◌, refl, sym, ap, ◌∙◌, true, false, [], ◌∷◌, ◌++◌, append-nil, append_assoc, arith,
  length, length-append,
}
use iouring_runtime.Core.JobQueue.{
  JobQueue, adding, registering, top, busy, settling, leaving, Step, counts, stores_first,
  stores_later, registers, pops, takes, runs, gives_back, settles_last, settles_more, settles_late,
  leaves, Reach, start, next,
}
use iouring_runtime.Core.JobQueue.Tokens.{
  tokens, coming, held, rests, tokens-append, coming-append, held-append, Inv, none_left, alone,
  order_alone, put_back, stored, tokens_adding,
}

Step-Inv : {s t : JobQueue} → Step s t → Inv s → Inv t
Step-Inv (counts s j) v = record {
  one = omega (arith, v.one, tokens_adding j s.job_count s.pushers);
  count = omega (arith, v.count);
  order = v.order;
}
Step-Inv (stores_first s ps qs j e) v = record {
  one = omega (
    arith,
    v.one,
    ap tokens e,
    tokens-append ps (adding j true ∷ qs),
    tokens-append ps (registering ∷ qs),
  );
  count = omega (
    arith,
    v.count,
    ap coming e,
    coming-append ps (adding j true ∷ qs),
    coming-append ps (registering ∷ qs),
    length-append s.jobs (j ∷ []),
  );
  order = stored s j v;
}
Step-Inv (stores_later s ps qs j e) v = record {
  one =
      omega
        (arith, v.one, ap tokens e, tokens-append ps (adding j false ∷ qs), tokens-append ps qs);
  count = omega (
    arith,
    v.count,
    ap coming e,
    coming-append ps (adding j false ∷ qs),
    coming-append ps qs,
    length-append s.jobs (j ∷ []),
  );
  order = stored s j v;
}
Step-Inv (registers s ps qs e) v = record {
  one = omega (arith, v.one, ap tokens e, tokens-append ps (registering ∷ qs), tokens-append ps qs);
  count =
      omega (arith, v.count, ap coming e, coming-append ps (registering ∷ qs), coming-append ps qs);
  order = v.order;
}
Step-Inv (pops s h) v = record { one = omega (arith, v.one); count = v.count; order = v.order }
Step-Inv (takes s xs ys e) v = record {
  one = omega (
    arith,
    v.one,
    ap length e,
    length-append xs (top ∷ ys),
    length-append xs (busy s.jobs 0 ∷ ys),
  );
  count =
      omega
        (arith, v.count, ap held e, held-append xs (top ∷ ys), held-append xs (busy s.jobs 0 ∷ ys));
  order = put_back xs ys (busy s.jobs 0) s.executed [] s.pushed (alone s xs ys top v e) (
      order_alone s xs ys top v e
      ∙ ap (λ z. s.executed ++ z) (sym (append-nil (s.jobs ++ []) ∙ append-nil s.jobs)));
}
Step-Inv (runs s xs ys j rest n e) v = record {
  one = omega (
    arith,
    v.one,
    ap length e,
    length-append xs (busy (j ∷ rest) n ∷ ys),
    length-append xs (busy rest (n + 1) ∷ ys),
  );
  count = omega (
    arith,
    v.count,
    ap held e,
    held-append xs (busy (j ∷ rest) n ∷ ys),
    held-append xs (busy rest (n + 1) ∷ ys),
  );
  order =
      put_back xs ys (busy rest (n + 1)) (s.executed ++ (j ∷ [])) s.jobs s.pushed
        (alone s xs ys (busy (j ∷ rest) n) v e)
        (order_alone s xs ys (busy (j ∷ rest) n) v e
          ∙ sym (append_assoc s.executed (j ∷ []) ((rest ++ []) ++ s.jobs)));
}
Step-Inv (gives_back s xs ys rest n e h) v = record {
  one = omega (
    arith,
    v.one,
    ap length e,
    length-append xs (busy rest n ∷ ys),
    length-append xs (settling n ∷ ys),
  );
  count = omega (
    arith,
    v.count,
    ap held e,
    held-append xs (busy rest n ∷ ys),
    held-append xs (settling n ∷ ys),
    length-append rest s.jobs,
  );
  order =
      put_back xs ys (settling n) s.executed (rest ++ s.jobs) s.pushed
        (alone s xs ys (busy rest n) v e)
        (order_alone s xs ys (busy rest n) v e
          ∙ ap (λ z. s.executed ++ (z ++ s.jobs)) (append-nil rest));
}
Step-Inv (settles_last s xs ys n e h) v = record {
  one = omega (
    arith,
    v.one,
    v.count,
    ap length e,
    ap held e,
    held-append xs (settling n ∷ ys),
    length-append xs (settling n ∷ ys),
    length-append xs ys,
  );
  count = omega (arith, v.count, ap held e, held-append xs (settling n ∷ ys), held-append xs ys);
  order =
      let (l, r) = alone s xs ys (settling n) v e in
      order_alone s xs ys (settling n) v e ∙ rw (l, r) refl;
}
Step-Inv (settles_more s xs ys n e h) v = record {
  one =
      omega (
        arith,
        v.one,
        ap length e,
        length-append xs (settling n ∷ ys),
        length-append xs (top ∷ ys),
      );
  count =
      omega
        (arith, v.count, ap held e, held-append xs (settling n ∷ ys), held-append xs (top ∷ ys));
  order =
      put_back xs ys top s.executed s.jobs s.pushed (alone s xs ys (settling n) v e)
        (order_alone s xs ys (settling n) v e);
}
Step-Inv (settles_late s xs ys n e h) v = record {
  one = omega (
    arith,
    v.one,
    ap length e,
    length-append xs (settling n ∷ ys),
    length-append xs (leaving ∷ ys),
  );
  count =
      omega (
        arith,
        v.count,
        ap held e,
        held-append xs (settling n ∷ ys),
        held-append xs (leaving ∷ ys),
      );
  order =
      put_back xs ys leaving s.executed s.jobs s.pushed (alone s xs ys (settling n) v e)
        (order_alone s xs ys (settling n) v e);
}
Step-Inv (leaves s xs ys e) v = record {
  one = omega (arith, v.one, ap length e, length-append xs (leaving ∷ ys), length-append xs ys);
  count = omega (arith, v.count, ap held e, held-append xs (leaving ∷ ys), held-append xs ys);
  order =
      let (l, r) = alone s xs ys leaving v e in order_alone s xs ys leaving v e ∙ rw (l, r) refl;
}

Reach-Inv : {s : JobQueue} → Reach s → Inv s
Reach-Inv start = record { one = omega arith; count = omega arith; order = refl }
Reach-Inv (next r st) = Step-Inv st (Reach-Inv r)

-- Of a queue that any interleaving of pushes and workers leads to: at most one call of `Execute` is
-- under way, and none while the queue is registered; and the jobs executed, with the rest of the batch
-- and the jobs that are stored, are all the jobs ever stored, in the order in which they were stored.
pub one_in_order :
    (s : JobQueue)
    → Reach s
    → (s.registered + length s.running ≤ 1) × (s.pushed ≡ s.executed ++ (rests s.running ++ s.jobs))
one_in_order s r = let v = Reach-Inv r in (omega (arith, v.one), v.order)

-- Of a queue that any interleaving leads to: if it is not registered and no call of `Push` or `Execute`
-- is under way, then every job stored was executed, in that order, and no job is counted.
pub none_lost :
    (s : JobQueue)
    → Reach s
    → s.registered ≡ 0
    → s.pushers ≡ []
    → s.running ≡ []
    → (s.executed ≡ s.pushed) × (s.job_count ≡ 0)
none_lost s r unregistered no_push idle = (
  sym (
      v.order
      ∙ ap (λ z. s.executed ++ (rests z ++ s.jobs)) idle
      ∙ ap (λ z. s.executed ++ z) (none_left s.jobs (omega (arith, v.count, settled)))
      ∙ append-nil s.executed),
  settled,
)
  where
    v : Inv s
    v = Reach-Inv r

    settled : s.job_count ≡ 0
    settled = omega (arith, v.one, ap length idle, ap tokens no_push)
