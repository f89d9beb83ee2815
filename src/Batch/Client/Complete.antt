-- ===== src/Batch/Client/Complete.antt =====
-- What the handlers of a client do to its results.
use lmdb_deno.Prelude.{
  ℕ, ◌≡◌, ◌⊎◌, inl, inr, refl, sym, subst, length, Bool, true, Option, none, some, List, [], ◌∷◌,
  ◌++◌, is_some, Exception, Result, ok, err, arith, ◌||◌, if-cases, All,
}
use lmdb_deno.Encoding.Values.{Number}
use lmdb_deno.Batch.Client.Defs.{
  Host, RetainedBatchJob, BatchWorkerReply, Client, has_every_result, new_job, apply_deltas,
  initial,
}
use lmdb_deno.Batch.Client.Methods.{
  equals_id, answered_job, reset_worker, post_job, report_progress, after_deltas, handle_progress,
  ready_for, handle_progress_of, handle_failure_of, handle_complete, handle_complete_of,
  handle_open, handle_message, enqueue, close, run_first, run_microtask, Stimulus, enqueues, closes,
  replies, breaks, microtask, step, run,
}
use lmdb_deno.Batch.Client.Slots.{
  new_job-IsSlotted, apply_deltas-IsSlotted, apply_deltas-same, IsFilled, has_every_result-IsFilled,
}
use lmdb_deno.Batch.Client.Filled.{
  IsComplete, IsSound, All-snoc, Found, IsKept, find_job-IsKept, update_job-IsKept,
  call_back_all-IsSound, fail_unexpectedly-IsSound, fail_protocol-IsSound, or_recover-IsSound,
  post_job-same, same-IsSound, activate-IsSound, finish-IsSound,
}

-- A number and an operation count are in a list of such.
abbrev pub Has : ℕ → ℕ → List (ℕ × ℕ) → Type 0
Has id n [] = ⊥
Has id n ((i, m) ∷ rest) = ((id ≡ i) × (n ≡ m)) ⊎ Has id n rest

Has-before : (id n : ℕ) (xs ys : List (ℕ × ℕ)) → Has id n xs → Has id n (xs ++ ys)
Has-before id n [] ys h = absurd h
Has-before id n ((i, m) ∷ xs) ys (inl e) = inl e
Has-before id n ((i, m) ∷ xs) ys (inr h) = inr (Has-before id n xs ys h)

Has-after : (id n : ℕ) (xs ys : List (ℕ × ℕ)) → Has id n ys → Has id n (xs ++ ys)
Has-after id n [] ys h = h
Has-after id n ((i, m) ∷ xs) ys h = inr (Has-after id n xs ys h)

-- The request that a step brings in: the number that its job has, and its operation count.
abbrev pub request_if : Result (Unit {0}) → ℕ → ℕ → List (ℕ × ℕ)
request_if (ok _) id n = (id, n) ∷ []
request_if (err e) id n = []

abbrev pub request_of : {S : Type 0} → Host S → Stimulus → Client S → List (ℕ × ℕ)
request_of host (enqueues n p) c = request_if (enqueue host n p c).0 c.next_job_id n
request_of host s c = []

-- The requests that `enqueue` accepts.
abbrev pub accepted : {S : Type 0} → Host S → List Stimulus → Client S → List (ℕ × ℕ)
accepted host [] c = []
accepted host (s ∷ rest) c = request_of host s c ++ accepted host rest (step host s c)

request_of-Has :
    {S : Type 0} (host : Host S) (n : ℕ) (p : Bool) (c : Client S)
    → (enqueue host n p c).0 ≡ ok tt
    → Has c.next_job_id n (request_of host (enqueues n p) c)
request_of-Has host n p c e =
    subst (λ r. Has c.next_job_id n (request_if r c.next_job_id n)) (sym e) (inl (refl, refl))

module _ (Sized : ℕ → ℕ → Type 0) where
  -- A job keeps its number and its operation count.
  apply_deltas-size :
      (job : RetainedBatchJob) (deltas : List (Number × Number))
      → Sized job.id job.operation_count
      → Sized (apply_deltas job deltas).1.id (apply_deltas job deltas).1.operation_count
  apply_deltas-size job deltas h = let same = apply_deltas-same job deltas in rw (same.0, same.1) h

  complete_results :
      (job : RetainedBatchJob)
      → IsKept Sized job
      → has_every_result job ≡ true
      → IsFilled job.results × Sized job.id (length job.results)
  complete_results job h every =
      let full = has_every_result-IsFilled job h.slots every in (full.1, rw full.0 h.size)

  module _ {S : Type 0} (host : Host S) where
    report_progress-IsSound :
        (job : RetainedBatchJob) (c : Client S)
        → IsKept Sized job
        → IsSound Sized c
        → IsSound Sized (report_progress host job c)
    unfolding report_progress
    report_progress-IsSound job c j h =
        if-cases (IsSound Sized) job.has_progress _ c
          (λ _. record {
            slotted =
                update_job-IsKept Sized _ c.jobs
                  (record {
                    slots = record { marked = j.slots.marked; sized = j.slots.sized };
                    size = j.size;
                  })
                  h.slotted;
            complete = h.complete;
          })
          (λ _. h)

    after_deltas-IsSound :
        (r : Result (Unit {0})) (job : RetainedBatchJob) (c : Client S)
        → IsKept Sized job
        → IsSound Sized c
        → IsSound Sized (after_deltas host r job c)
    unfolding after_deltas
    after_deltas-IsSound (ok _) job c j h = report_progress-IsSound job c j h
    after_deltas-IsSound (err e) job c j h = fail_unexpectedly-IsSound Sized host e c h

    handle_progress_of-IsSound :
        (j : Option RetainedBatchJob) (deltas : List (Number × Number)) (c : Client S)
        → Found Sized j
        → IsSound Sized c
        → IsSound Sized (handle_progress_of host j deltas c)
    unfolding handle_progress_of handle_progress
    handle_progress_of-IsSound none deltas c f h = fail_protocol-IsSound Sized host _ c h
    handle_progress_of-IsSound (some job) deltas c f h =
        let new : IsKept Sized (apply_deltas job deltas).1 = record {
          slots = apply_deltas-IsSlotted job deltas f.slots;
          size = apply_deltas-size job deltas f.size;
        } in
        after_deltas-IsSound (apply_deltas job deltas).0 (apply_deltas job deltas).1 _ new (record {
          slotted = update_job-IsKept Sized _ c.jobs new h.slotted;
          complete = h.complete;
        })

    handle_failure_of-IsSound :
        (j : Option RetainedBatchJob) (e : Exception) (c : Client S)
        → IsSound Sized c
        → IsSound Sized (handle_failure_of host j e c)
    unfolding handle_failure_of
    handle_failure_of-IsSound none e c h = fail_protocol-IsSound Sized host _ c h
    handle_failure_of-IsSound (some job) e c h =
        finish-IsSound Sized host job (some e) _ (λ q. absurd (ground arith))
          (record { slotted = h.slotted; complete = h.complete })

    handle_complete_of-IsSound :
        (j : Option RetainedBatchJob) (c : Client S)
        → Found Sized j
        → IsSound Sized c
        → IsSound Sized (handle_complete_of host j c)
    unfolding handle_complete_of handle_complete
    handle_complete_of-IsSound none c f h = fail_protocol-IsSound Sized host _ c h
    handle_complete_of-IsSound (some job) c f h =
        if-cases (IsSound Sized) (has_every_result job) _ _
          (λ every.
            finish-IsSound Sized host job none _ (λ _. complete_results job f every)
              (record { slotted = h.slotted; complete = h.complete }))
          (λ _. fail_unexpectedly-IsSound Sized host _ c h)

    ready_for-IsSound :
        (a : Option ℕ) (c : Client S) → IsSound Sized c → IsSound Sized (ready_for host a c)
    unfolding ready_for
    ready_for-IsSound none c h = fail_protocol-IsSound Sized host _ c h
    ready_for-IsSound (some id) c h =
        if-cases (IsSound Sized) c.ready _ _ (λ _. fail_protocol-IsSound Sized host _ c h)
          (λ _.
            let posted = post_job host id (record c { ready = true }) in
            or_recover-IsSound Sized host posted (
              same-IsSound Sized host c posted.1
                (post_job-same Sized host id (record c { ready = true })) h))

    answered_job-Found : (id : ℕ) (c : Client S) → IsSound Sized c → Found Sized (answered_job id c)
    answered_job-Found id c h =
        if-cases (Found Sized) (equals_id c.active id) _ _
          (λ _.
            if-cases (Found Sized) (equals_id c.dispatched id) _ _
              (λ _. find_job-IsKept Sized id c.jobs h.slotted) (λ _. tt))
          (λ _. tt)

    handle_open-IsSound :
        (m : BatchWorkerReply) (c : Client S)
        → IsSound Sized c
        → IsSound Sized (handle_open host m c)
    unfolding handle_open
    handle_open-IsSound BatchWorkerReply.ready c h = ready_for-IsSound c.active c h
    handle_open-IsSound (BatchWorkerReply.progress id deltas) c h =
        handle_progress_of-IsSound (answered_job id c) deltas c (answered_job-Found id c h) h
    handle_open-IsSound (BatchWorkerReply.complete id) c h =
        handle_complete_of-IsSound (answered_job id c) c (answered_job-Found id c h) h
    handle_open-IsSound (BatchWorkerReply.failure id message code) c h =
        handle_failure_of-IsSound (answered_job id c) _ c h

    enqueue-IsSound :
        (n : ℕ) (p : Bool) (c : Client S)
        → ((enqueue host n p c).0 ≡ ok tt → Sized c.next_job_id n)
        → IsSound Sized c
        → IsSound Sized (enqueue host n p c).1
    unfolding enqueue
    enqueue-IsSound n p c size h =
        let Q = λ (r : Result (Unit {0}) × Client S). IsSound Sized r.1 in
        let job = new_job c.next_job_id n p in
        if-cases Q (c.closed || host.is_poisoned c.native) _ _ (λ _. h)
          (λ usable.
            let kept : IsKept Sized job = record {
              slots = new_job-IsSlotted c.next_job_id n p;
              size = size (ground arith);
            } in
            let longer : All (IsKept Sized) (c.jobs ++ job ∷ []) =
              All-snoc Sized (IsKept Sized) c.jobs job h.slotted kept in
            if-cases Q (is_some c.active) _ _
              (λ _. record { slotted = longer; complete = h.complete })
              (λ _.
                activate-IsSound Sized host job.id _
                  (record { slotted = longer; complete = h.complete })))

    close-same :
        (c : Client S)
        → ((close host c).1.jobs ≡ c.jobs) × ((close host c).1.completions ≡ c.completions)
    unfolding close reset_worker
    close-same c = ground arith

    run_first-IsSound :
        (l : List (List RetainedBatchJob × Exception)) (c : Client S)
        → IsSound Sized c
        → IsSound Sized (run_first host l c)
    unfolding run_first
    run_first-IsSound [] c h = h
    run_first-IsSound ((jobs, failure) ∷ rest) c h =
        call_back_all-IsSound Sized host jobs _ _
          (record { slotted = h.slotted; complete = h.complete })

    step-IsSound :
        (s : Stimulus) (c : Client S)
        → ((i n : ℕ) → Has i n (request_of host s c) → Sized i n)
        → IsSound Sized c
        → IsSound Sized (step host s c)
    unfolding step handle_message run_microtask
    step-IsSound (enqueues n p) c size h =
        enqueue-IsSound n p c (λ e. size c.next_job_id n (request_of-Has host n p c e)) h
    step-IsSound closes c size h = same-IsSound Sized host c _ (close-same c) h
    step-IsSound (replies w m) c size h =
        if-cases (IsSound Sized) (equals_id c.worker w) _ c
          (λ _. if-cases (IsSound Sized) c.closed c _ (λ _. h) (λ _. handle_open-IsSound m c h))
          (λ _. h)
    step-IsSound (breaks w e) c size h =
        if-cases (IsSound Sized) (equals_id c.worker w) _ c
          (λ _. fail_protocol-IsSound Sized host e c h) (λ _. h)
    step-IsSound microtask c size h = run_first-IsSound c.microtasks c h

    run-IsSound :
        (l : List Stimulus) (c : Client S)
        → ((i n : ℕ) → Has i n (accepted host l c) → Sized i n)
        → IsSound Sized c
        → IsSound Sized (run host l c)
    unfolding run
    run-IsSound [] c size h = h
    run-IsSound (s ∷ rest) c size h =
        let later = accepted host rest (step host s c) in
        run-IsSound rest (step host s c)
          (λ i n q. size i n (Has-after i n (request_of host s c) later q))
          (step-IsSound s c (λ i n q. size i n (Has-before i n (request_of host s c) later q)) h)

-- After any sequence of calls, worker events and microtasks, whatever results the worker has posted,
-- in whatever order: a callback that was given success belongs to a request that `enqueue` accepted,
-- and was given as many results as that request has operations, none of them missing.
pub run-IsComplete :
    {S : Type 0} (host : Host S) (native : S) (l : List Stimulus)
    → All
        (IsComplete (λ id n. Has id n (accepted host l (initial native))))
        (run host l (initial native)).completions
run-IsComplete host native l =
    (run-IsSound (λ id n. Has id n (accepted host l (initial native))) host l (initial native)
      (λ i n h. h) (record { slotted = tt; complete = tt })).complete
