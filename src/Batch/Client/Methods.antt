-- ===== src/Batch/Client/Methods.antt =====
-- The methods of the batch client. The user's callbacks run last in a method or in a microtask, so a
-- call that one of them makes back into the client is a later step.
use lmdb_deno.Prelude.{
  ℕ, suc, Bool, true, false, ◌||◌, Option, none, some, List, [], ◌∷◌, ◌++◌, is_some, Exception,
  error, error_with_cause, or_first, Result, ok, err, ◌==◌, if◌then◌else◌,
}
use lmdb_deno.Encoding.Values.{Number}
use lmdb_deno.Batch.Client.Defs.{
  Host, Completion, succeeded, failed, RetainedBatchJob, BatchWorkerReply, revive_error, Client,
  find_job, delete_job, update_job, apply_deltas, has_every_result, new_job,
}

abbrev pub equals_id : Option ℕ → ℕ → Bool
equals_id none id = false
equals_id (some n) id = n == id

abbrev pub thrown : {A : Type 0} → Result A → Option Exception
thrown (ok _) = none
thrown (err e) = some e

abbrev pub to_list : {A : Type 0} → Option A → List A
to_list none = []
to_list (some a) = a ∷ []

-- The active job, if `id` is its id and that of the job that was dispatched.
abbrev pub answered_job : {S : Type 0} → ℕ → Client S → Option RetainedBatchJob
answered_job id c =
    if equals_id c.active id
    then (if equals_id c.dispatched id then find_job id c.jobs else none)
    else none

abbrev pub unexpected_response : Exception
unexpected_response = error "Unexpected batch Worker job response"

-- Forgetting every job, which the caller has taken out before.
abbrev pub drop_jobs : {S : Type 0} → Client S → Client S
drop_jobs c = record c { jobs = []; queue = []; active = none }

module _ {S : Type 0} (host : Host S) where
  unfoldable pub reset_worker : Client S → Client S
  reset_worker c = record c {
    native = if is_some c.worker then host.terminate_worker c.native else c.native;
    worker = none;
    ready = false;
    dispatched = none;
  }

  -- Taking `#reservation` and handing it to `releaseInternalWriter`, which ignores `undefined`.
  unfoldable pub release_reservation : Client S → Client S
  release_reservation c = record c {
    native = if c.has_reservation then host.release_writer c.native else c.native;
    has_reservation = false;
  }

  -- The loop of `releasePreparedBatch` over the jobs, with the first error.
  unfoldable pub release_all : List RetainedBatchJob → S → Option Exception × S
  release_all [] s = (none, s)
  release_all (job ∷ jobs) s =
      let (r, s') = host.release_prepared job.id s in
      let (later, s'') = release_all jobs s' in (or_first (thrown r) later, s'')

  -- `job.callback(…)` in its `try`, then `reportCallbackErrors(job.callbackErrors)`.
  unfoldable pub call_back : RetainedBatchJob → Completion → Client S → Client S
  call_back job completion c =
      let (r, s) = host.callback job.id c.native in
      record c {
        native = s;
        completions = c.completions ++ (job.id, completion) ∷ [];
        reported = c.reported ++ (job.callback_errors ++ to_list (thrown r));
      }

  unfoldable pub call_back_all : List RetainedBatchJob → Completion → Client S → Client S
  call_back_all [] completion c = c
  call_back_all (job ∷ jobs) completion c =
      call_back_all jobs completion (call_back job completion c)

  unfoldable pub recover_undispatched : Exception → Client S → Client S
  recover_undispatched cause c =
      let c₁ = release_reservation (drop_jobs (reset_worker c)) in
      let (cleanup_error, s) = release_all c.jobs c₁.native in
      let failure =
        error_with_cause "The batch Worker could not dispatch; no native transaction was started"
          (elim cleanup_error [ some e ↦ e | none ↦ cause ]) in
      if c.closed
      then c
      else record c₁ { native = s; microtasks = c₁.microtasks ++ (c.jobs, failure) ∷ [] }

  unfoldable pub fail_unexpectedly : Exception → Client S → Client S
  fail_unexpectedly cause c =
      let c₁ = reset_worker (record c { closed = true }) in
      let c₂ = release_reservation (drop_jobs (record c₁ { native = host.poison c₁.native })) in
      let (_, s) = release_all c.jobs c₂.native in
      let failure =
        error_with_cause "The batch Worker terminated unexpectedly; the environment is poisoned"
          cause in
      if c.closed then c else call_back_all c.jobs (failed failure) (record c₂ { native = s })

  -- `#failProtocol`, and the handlers `onerror` and `onmessageerror`.
  unfoldable pub fail_protocol : Exception → Client S → Client S
  fail_protocol cause c =
      if is_some c.dispatched then fail_unexpectedly cause c else recover_undispatched cause c

  unfoldable pub post_job : ℕ → Client S → Result (Unit {0}) × Client S
  post_job id c =
      let (r, s) = host.post_job id c.native in
      if is_some c.worker
      then elim r [
        | ok _ ↦ (ok tt, record c { native = s; dispatched = some id })
        | err e ↦ (err e, record c { native = s })
      ]
      else (err (error "The batch Worker is unavailable"), c)

  unfoldable pub start : Client S → Result (Unit {0}) × Client S
  start c =
      let (r, s) = host.authorize c.native in
      let (r', s') = host.create_worker s in
      let c' = record c { worker = some c.next_worker; next_worker = suc c.next_worker } in
      let (r'', s'') = host.post_start s' in
      elim r [
        | err e ↦ (err e, record c { native = s })
        | ok _ ↦ elim r' [
          | err e ↦ (err e, record c { native = s' })
          | ok _ ↦ (r'', record c' { native = s'' })
        ]
      ]

  unfoldable pub ensure_started : Client S → Result (Unit {0}) × Client S
  ensure_started c = if is_some c.worker then (ok tt, c) else start c

  -- The `try` block of `#activate`.
  unfoldable pub try_activate : ℕ → Client S → Result (Unit {0}) × Client S
  try_activate id c =
      let (r, s) = host.reserve_writer c.native in
      let (r', c') =
        ensure_started (record c { native = s; has_reservation = true; active = some id }) in
      elim r [
        | err e ↦ (err e, record c { native = s })
        | ok _ ↦ elim r' [
          | err e ↦ (err e, c')
          | ok _ ↦ if c'.ready then post_job id c' else (ok tt, c')
        ]
      ]

  -- An error of `step`, handled by `#recoverUndispatched`.
  abbrev pub or_recover : Result (Unit {0}) × Client S → Client S
  or_recover (ok _, c) = c
  or_recover (err e, c) = recover_undispatched e c

  unfoldable pub activate : ℕ → Client S → Client S
  activate id c = or_recover (try_activate id c)

  abbrev pub activate_next : List ℕ → Client S → Client S
  activate_next [] c = c
  activate_next (next ∷ rest) c = activate next (record c { queue = rest })

  -- `#finish(job, workerError)`.
  unfoldable pub finish : RetainedBatchJob → Option Exception → Client S → Client S
  finish job worker_error c =
      let (r, s) = host.release_prepared job.id c.native in
      let c₁ = record c { native = s; active = none; jobs = delete_job job.id c.jobs } in
      let completion_error = or_first worker_error (thrown r) in
      let c₂ = activate_next c₁.queue (release_reservation c₁) in
      let completion = elim completion_error as (λ _. Completion) [
        | none ↦ succeeded job.results
        | some e ↦ failed e
      ] in
      if equals_id c.active job.id then call_back job completion c₂ else c

  -- `job.progress(job.results)` in its `try`.
  unfoldable pub report_progress : RetainedBatchJob → Client S → Client S
  report_progress job c =
      let (r, s) = host.progress job.id c.native in
      if job.has_progress
      then record c {
        native = s;
        jobs =
            update_job (record job { callback_errors = job.callback_errors ++ to_list (thrown r) })
              c.jobs;
      }
      else c

  -- What follows `applyDeltas`, by how it ended.
  unfoldable pub after_deltas : Result (Unit {0}) → RetainedBatchJob → Client S → Client S
  after_deltas (ok _) job c = report_progress job c
  after_deltas (err e) job c = fail_unexpectedly e c

  unfoldable pub handle_progress : RetainedBatchJob → List (Number × Number) → Client S → Client S
  unfolding after_deltas
  handle_progress job deltas c =
      let (r, job') = apply_deltas job deltas in
      after_deltas r job' (record c { jobs = update_job job' c.jobs })

  unfoldable pub handle_complete : RetainedBatchJob → Client S → Client S
  handle_complete job c =
      if has_every_result job
      then finish job none (record c { dispatched = none })
      else fail_unexpectedly (error "Batch Worker completed without every operation result") c

  -- The handler of `ready`, by the active job.
  unfoldable pub ready_for : Option ℕ → Client S → Client S
  ready_for none c = fail_protocol (error "Unexpected batch Worker ready message") c
  ready_for (some id) c =
      if c.ready
      then fail_protocol (error "Unexpected batch Worker ready message") c
      else or_recover (post_job id (record c { ready = true }))

  -- The handler of a reply about a job, by the job that it answers.
  unfoldable pub handle_progress_of :
      Option RetainedBatchJob → List (Number × Number) → Client S → Client S
  handle_progress_of none deltas c = fail_protocol unexpected_response c
  handle_progress_of (some job) deltas c = handle_progress job deltas c

  unfoldable pub handle_failure_of : Option RetainedBatchJob → Exception → Client S → Client S
  handle_failure_of none cause c = fail_protocol unexpected_response c
  handle_failure_of (some job) cause c = finish job (some cause) (record c { dispatched = none })

  unfoldable pub handle_complete_of : Option RetainedBatchJob → Client S → Client S
  handle_complete_of none c = fail_protocol unexpected_response c
  handle_complete_of (some job) c = handle_complete job c

  unfoldable pub handle_open : BatchWorkerReply → Client S → Client S
  handle_open BatchWorkerReply.ready c = ready_for c.active c
  handle_open (BatchWorkerReply.progress id deltas) c =
      handle_progress_of (answered_job id c) deltas c
  handle_open (BatchWorkerReply.failure id message code) c =
      handle_failure_of (answered_job id c) (revive_error message code) c
  handle_open (BatchWorkerReply.complete id) c = handle_complete_of (answered_job id c) c

  -- `#handleMessage`.
  unfoldable pub handle_message : BatchWorkerReply → Client S → Client S
  handle_message message c = if c.closed then c else handle_open message c

  unfoldable pub enqueue : ℕ → Bool → Client S → Result (Unit {0}) × Client S
  enqueue operation_count has_progress c =
      let job = new_job c.next_job_id operation_count has_progress in
      let c' = record c { next_job_id = suc c.next_job_id; jobs = c.jobs ++ job ∷ [] } in
      if c.closed || host.is_poisoned c.native
      then (err (error "The environment is poisoned after a native Worker failure"), c)
      else if is_some c.active
      then (ok tt, record c' { queue = c.queue ++ job.id ∷ [] })
      else (ok tt, activate job.id c')

  unfoldable pub close : Client S → Result (Unit {0}) × Client S
  close c =
      let c' = reset_worker (record c { closed = true }) in
      let busy =
        error "Cannot close the environment while a batch operation is pending or active" in
      if is_some c.active then (err busy, c) else elim c.queue [
        | id ∷ ids ↦ (err busy, c)
        | [] ↦ (ok tt, record c' { native = host.forget_client c'.native })
      ]

  -- The microtask that `#recoverUndispatched` queued first.
  unfoldable pub run_first : List (List RetainedBatchJob × Exception) → Client S → Client S
  run_first [] c = c
  run_first ((jobs, failure) ∷ rest) c =
      call_back_all jobs (failed failure) (record c { microtasks = rest })

  unfoldable pub run_microtask : Client S → Client S
  unfolding run_first
  run_microtask c = run_first c.microtasks c

-- What may happen to a client: a call of its user, an event of a worker, or a microtask.
pub data Stimulus : Type 0 where
  enqueues : (operation_count : ℕ) (has_progress : Bool) → Stimulus
  closes : Stimulus
  replies : (worker : ℕ) (message : BatchWorkerReply) → Stimulus
  breaks : (worker : ℕ) (cause : Exception) → Stimulus
  microtask : Stimulus

module _ {S : Type 0} (host : Host S) where
  -- `onmessage`, `onerror` and `onmessageerror` ignore a worker that is no longer current.
  unfoldable pub step : Stimulus → Client S → Client S
  step (enqueues operation_count has_progress) c = (enqueue host operation_count has_progress c).1
  step closes c = (close host c).1
  step (replies worker message) c =
      if equals_id c.worker worker then handle_message host message c else c
  step (breaks worker cause) c = if equals_id c.worker worker then fail_protocol host cause c else c
  step microtask c = run_microtask host c

  unfoldable pub run : List Stimulus → Client S → Client S
  run [] c = c
  run (s ∷ rest) c = run rest (step s c)
