-- ===== src/Tests/Client.antt =====
-- A client with a worker that is run by hand.
use lmdb_deno.Prelude.{
  ℕ, suc, ◌+◌, ◌≡◌, refl, Bool, true, false, none, some, List, [], ◌∷◌, ◌++◌, ◌⊎◌, is_some, All,
  pos, Exception, error, ok, err,
}
use lmdb_deno.Encoding.Values.{integer}
use lmdb_deno.Batch.Client.Defs.{
  Host, Client, succeeded, failed, BatchWorkerReply, initial, apply_delta, apply_deltas,
  has_every_result,
}
use lmdb_deno.Batch.Client.Methods.{
  Stimulus, enqueues, replies, breaks, step, run, reset_worker, release_reservation, release_all,
  call_back, call_back_all, recover_undispatched, fail_unexpectedly, fail_protocol, post_job, start,
  ensure_started, try_activate, activate, finish, report_progress, after_deltas, handle_progress,
  ready_for, handle_progress_of, handle_failure_of, handle_complete, handle_complete_of,
  handle_open, handle_message, enqueue, close, run_first, run_microtask,
}
use lmdb_deno.Batch.Client.Accounting.{unissued, count, waiting, called}
use lmdb_deno.Batch.Client.Order.{ids}
use lmdb_deno.Batch.Client.Once.{run_once}
use lmdb_deno.Batch.Client.Filled.{IsComplete}
use lmdb_deno.Batch.Client.Complete.{Has, accepted, run-IsComplete}
use lmdb_deno.Batch.Client.Failure.{calls, terminated, fail_protocol_outcome}

-- The writer's queue of one environment: how often it was reserved, and whether it is poisoned.
record Shared : Type 0 where
  reservations : ℕ
  poisoned : Bool

abbrev shared : Shared
shared = record { reservations = 0; poisoned = false }

abbrev host : Host Shared
host = record {
  reserve_writer = λ s. (ok tt, record s { reservations = suc s.reservations });
  release_writer = λ s. s;
  poison = λ s. record s { poisoned = true };
  is_poisoned = λ s. s.poisoned;
  forget_client = λ s. s;
  authorize = λ s. (ok tt, s);
  create_worker = λ s. (ok tt, s);
  post_start = λ s. (ok tt, s);
  terminate_worker = λ s. s;
  post_job = λ id s. (ok tt, s);
  release_prepared = λ id s. (ok tt, s);
  callback = λ id s. (ok tt, s);
  progress = λ id s. (err (error "progress"), s);
}

-- Two jobs: the first one is answered in two messages, the second one fails in the worker, and
-- while a third one is active the worker breaks.
abbrev session : List Stimulus
session =
    enqueues 2 true
    ∷ enqueues 1 false
    ∷ replies 0 BatchWorkerReply.ready
    ∷ replies 0 (BatchWorkerReply.progress 0 ((integer (pos 1), integer (pos 3)) ∷ []))
    ∷ replies 0 (BatchWorkerReply.progress 0 ((integer (pos 0), integer (pos 0)) ∷ []))
    ∷ replies 0 (BatchWorkerReply.complete 0)
    ∷ replies 0 (BatchWorkerReply.failure 1 "no space" none)
    ∷ enqueues 1 false
    ∷ breaks 0 (error "worker")
    ∷ enqueues 1 false
    ∷ []

session_runs :
    let c = run host session (initial shared) in
    (c.completions
      ≡ (0, succeeded (some (integer (pos 0)) ∷ some (integer (pos 3)) ∷ []))
        ∷ (1, failed (error "no space"))
        ∷ (2, terminated (error "worker"))
        ∷ [])
    × (c.reported ≡ error "progress" ∷ error "progress" ∷ [])
    × (c.closed ≡ true)
    × (c.native.reservations ≡ 3)
    × (c.native.poisoned ≡ true)
    × (c.next_job_id ≡ 3)
unfolding run step reset_worker release_reservation release_all call_back call_back_all
    recover_undispatched fail_unexpectedly fail_protocol post_job start ensure_started try_activate
    activate finish report_progress after_deltas handle_progress ready_for handle_progress_of
    handle_failure_of handle_complete handle_complete_of handle_open handle_message enqueue close
    run_first run_microtask apply_delta apply_deltas has_every_result
session_runs = (refl, refl, refl, refl, refl, refl)

-- A worker that breaks before it was ready fails its job in a microtask.
early_break_runs :
    let c = run host (enqueues 1 false ∷ breaks 0 (error "worker") ∷ []) (initial shared) in
    (c.completions ≡ []) × (ids c.jobs ≡ []) × (c.closed ≡ false) × (waiting 0 c.microtasks ≡ 1)
unfolding run step reset_worker release_reservation release_all recover_undispatched fail_protocol
    start ensure_started try_activate activate enqueue
early_break_runs = (refl, refl, refl, refl)

run_once_example :
    let c = run host session (initial shared) in
    unissued 1 c.next_job_id
      + (count 1 (ids c.jobs) + (waiting 1 c.microtasks + called 1 c.completions))
    ≡ 1
run_once_example = run_once host shared session 1

run-IsComplete_example :
    All
      (IsComplete (λ id n. Has id n (accepted host session (initial shared))))
      (run host session (initial shared)).completions
run-IsComplete_example = run-IsComplete host shared session

abbrev started : Client Shared
started = run host (enqueues 1 false ∷ []) (initial shared)

fail_protocol_outcome_example :
    let c' = fail_protocol host (error "worker") started in
    ((is_some started.dispatched ≡ true)
      × (c'.completions ≡ started.completions ++ calls started.jobs (terminated (error "worker")))
      × (c'.jobs ≡ [])
      × (c'.closed ≡ true)
      × (c'.microtasks ≡ started.microtasks))
    ⊎ ((is_some started.dispatched ≡ false)
        × (c'.completions ≡ started.completions)
        × (c'.jobs ≡ [])
        × (c'.closed ≡ false)
        × ((e : Exception) × (c'.microtasks ≡ started.microtasks ++ (started.jobs, e) ∷ [])))
unfolding run step enqueue activate try_activate ensure_started start
fail_protocol_outcome_example = fail_protocol_outcome host (error "worker") started refl
