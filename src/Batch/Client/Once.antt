-- ===== src/Batch/Client/Once.antt =====
-- The whereabouts of jobs and the invariant, over whole runs of a client.
use lmdb_deno.Prelude.{
  ℕ, suc, ◌+◌, ◌≡◌, refl, ap, ◌∙◌, Bool, true, false, Option, none, some, List, [], ◌∷◌, ◌++◌,
  is_some, Exception, Result, arith, ◌||◌, if-cases,
}
use lmdb_deno.Encoding.Values.{Number}
use lmdb_deno.Batch.Client.Defs.{
  Host, RetainedBatchJob, BatchWorkerReply, Client, has_every_result, new_job, initial,
}
use lmdb_deno.Batch.Client.Methods.{
  equals_id, answered_job, finish, reset_worker, post_job, ready_for, handle_progress_of,
  handle_failure_of, handle_complete, handle_complete_of, handle_open, handle_message, enqueue,
  close, run_first, run_microtask, Stimulus, enqueues, closes, replies, breaks, microtask, step,
  run,
}
use lmdb_deno.Batch.Client.Order.{ids, ids-append}
use lmdb_deno.Batch.Client.Invariant.{IsConsistent}
use lmdb_deno.Batch.Client.Preservation.{answered-CanFinish, step-IsConsistent}
use lmdb_deno.Batch.Client.Accounting.{
  count, unissued, waiting, called, whereabouts, count-append, call_back_all-whereabouts,
  fail_unexpectedly-whereabouts, fail_protocol-whereabouts, or_recover-whereabouts,
  post_job-whereabouts, activate-whereabouts, finish-whereabouts, handle_progress-whereabouts,
}

module _ {S : Type 0} (host : Host S) (i : ℕ) where
  ready_for-whereabouts :
      (a : Option ℕ) (c : Client S) → whereabouts i (ready_for host a c) ≡ whereabouts i c
  unfolding ready_for
  ready_for-whereabouts none c = fail_protocol-whereabouts host i _ c
  ready_for-whereabouts (some id) c =
      if-cases (λ (d : Client S). whereabouts i d ≡ whereabouts i c) c.ready _ _
        (λ _. fail_protocol-whereabouts host i _ c)
        (λ _.
          or_recover-whereabouts host i (post_job host id (record c { ready = true }))
          ∙ post_job-whereabouts host i id _)

  handle_progress_of-whereabouts :
      (j : Option RetainedBatchJob) (deltas : List (Number × Number)) (c : Client S)
      → whereabouts i (handle_progress_of host j deltas c) ≡ whereabouts i c
  unfolding handle_progress_of
  handle_progress_of-whereabouts none deltas c = fail_protocol-whereabouts host i _ c
  handle_progress_of-whereabouts (some job) deltas c =
      handle_progress-whereabouts host i job deltas c

  finish_answered :
      (id : ℕ) (job : RetainedBatchJob) (e : Option Exception) (c : Client S)
      → IsConsistent c
      → c.closed ≡ false
      → answered_job id c ≡ some job
      → whereabouts i (finish host job e (record c { dispatched = none })) ≡ whereabouts i c
  finish_answered id job e c h open_still q =
      let can = answered-CanFinish host id job c h open_still q in
      finish-whereabouts host i job e (record c { dispatched = none }) can.ordered
        (rw can.ordered at can.rising).1

  handle_failure_of-whereabouts :
      (id : ℕ) (j : Option RetainedBatchJob) (e : Exception) (c : Client S)
      → answered_job id c ≡ j
      → c.closed ≡ false
      → IsConsistent c
      → whereabouts i (handle_failure_of host j e c) ≡ whereabouts i c
  unfolding handle_failure_of
  handle_failure_of-whereabouts id none e c q open_still h = fail_protocol-whereabouts host i _ c
  handle_failure_of-whereabouts id (some job) e c q open_still h =
      finish_answered id job (some e) c h open_still q

  handle_complete_of-whereabouts :
      (id : ℕ) (j : Option RetainedBatchJob) (c : Client S)
      → answered_job id c ≡ j
      → c.closed ≡ false
      → IsConsistent c
      → whereabouts i (handle_complete_of host j c) ≡ whereabouts i c
  unfolding handle_complete_of handle_complete
  handle_complete_of-whereabouts id none c q open_still h = fail_protocol-whereabouts host i _ c
  handle_complete_of-whereabouts id (some job) c q open_still h =
      if-cases (λ (d : Client S). whereabouts i d ≡ whereabouts i c) (has_every_result job) _ _
        (λ _. finish_answered id job none c h open_still q)
        (λ _. fail_unexpectedly-whereabouts host i _ c)

  handle_open-whereabouts :
      (m : BatchWorkerReply) (c : Client S)
      → c.closed ≡ false
      → IsConsistent c
      → whereabouts i (handle_open host m c) ≡ whereabouts i c
  unfolding handle_open
  handle_open-whereabouts BatchWorkerReply.ready c open_still h = ready_for-whereabouts c.active c
  handle_open-whereabouts (BatchWorkerReply.progress id deltas) c open_still h =
      handle_progress_of-whereabouts (answered_job id c) deltas c
  handle_open-whereabouts (BatchWorkerReply.complete id) c open_still h =
      handle_complete_of-whereabouts id (answered_job id c) c refl open_still h
  handle_open-whereabouts (BatchWorkerReply.failure id message code) c open_still h =
      handle_failure_of-whereabouts id (answered_job id c) _ c refl open_still h

  handle_message-whereabouts :
      (m : BatchWorkerReply) (c : Client S)
      → IsConsistent c
      → whereabouts i (handle_message host m c) ≡ whereabouts i c
  unfolding handle_message
  handle_message-whereabouts m c h =
      if-cases (λ (d : Client S). whereabouts i d ≡ whereabouts i c) c.closed c _ (λ _. refl)
        (λ o. handle_open-whereabouts m c o h)

  close-whereabouts : (c : Client S) → whereabouts i (close host c).1 ≡ whereabouts i c
  unfolding close reset_worker
  close-whereabouts c = ground arith

  run_microtask-whereabouts :
      (c : Client S) → whereabouts i (run_microtask host c) ≡ whereabouts i c
  unfolding run_microtask
  run_microtask-whereabouts c = first c.microtasks refl
    where
      first :
          (l : List (List RetainedBatchJob × Exception))
          → c.microtasks ≡ l
          → whereabouts i (run_first host l c) ≡ whereabouts i c
      first [] e = refl
      first ((jobs, failure) ∷ rest) e =
          call_back_all-whereabouts host i jobs _ _ ∙ omega (arith, ap (waiting i) e)

  enqueue-whereabouts :
      (n : ℕ) (p : Bool) (c : Client S) → whereabouts i (enqueue host n p c).1 ≡ whereabouts i c
  unfolding enqueue
  enqueue-whereabouts n p c =
      let Q = λ (r : Result (Unit {0}) × Client S). whereabouts i r.1 ≡ whereabouts i c in
      let job = new_job c.next_job_id n p in
      let longer : count i (ids (c.jobs ++ job ∷ []))
          ≡ count i (ids c.jobs) + count i (job.id ∷ []) =
        ap (count i) (ids-append c.jobs (job ∷ [])) ∙ count-append i (ids c.jobs) (job.id ∷ []) in
      if-cases Q (c.closed || host.is_poisoned c.native) _ _ (λ _. refl)
        (λ usable.
          if-cases Q (is_some c.active) _ _
            (λ busy. issued (count i (ids (c.jobs ++ job ∷ []))) longer)
            (λ free.
              activate-whereabouts host i job.id _
              ∙ issued (count i (ids (c.jobs ++ job ∷ []))) longer))
    where
      issued :
          (m : ℕ)
          → m ≡ count i (ids c.jobs) + count i (c.next_job_id ∷ [])
          → unissued i (suc c.next_job_id) + (m + (waiting i c.microtasks + called i c.completions))
            ≡ whereabouts i c
      issued m e = ground arith

  step-whereabouts :
      (s : Stimulus) (c : Client S)
      → IsConsistent c
      → whereabouts i (step host s c) ≡ whereabouts i c
  unfolding step
  step-whereabouts (enqueues n p) c h = enqueue-whereabouts n p c
  step-whereabouts closes c h = close-whereabouts c
  step-whereabouts (replies w m) c h =
      if-cases (λ (d : Client S). whereabouts i d ≡ whereabouts i c) (equals_id c.worker w) _ c
        (λ _. handle_message-whereabouts m c h) (λ _. refl)
  step-whereabouts (breaks w e) c h =
      if-cases (λ (d : Client S). whereabouts i d ≡ whereabouts i c) (equals_id c.worker w) _ c
        (λ _. fail_protocol-whereabouts host i e c) (λ _. refl)
  step-whereabouts microtask c h = run_microtask-whereabouts c

  run-whereabouts :
      (l : List Stimulus) (c : Client S)
      → IsConsistent c
      → whereabouts i (run host l c) ≡ whereabouts i c
  unfolding run
  run-whereabouts [] c h = refl
  run-whereabouts (s ∷ rest) c h =
      run-whereabouts rest (step host s c) (step-IsConsistent host s c h) ∙ step-whereabouts s c h

module _ {S : Type 0} (host : Host S) where
  initial-IsConsistent : (native : S) → IsConsistent (initial native)
  initial-IsConsistent native = ground arith

  -- After any sequence of calls, worker events and microtasks, every identifier is in exactly one
  -- place: not given out yet, in the table of jobs, in a failure that a microtask is to deliver, or
  -- called back. So no job is lost and none is called back twice.
  pub run_once :
      (native : S) (l : List Stimulus) (i : ℕ)
      → let c = run host l (initial native) in
        unissued i c.next_job_id
          + (count i (ids c.jobs) + (waiting i c.microtasks + called i c.completions))
        ≡ 1
  run_once native l i =
      run-whereabouts host i l (initial native) (initial-IsConsistent native) ∙ ground arith
