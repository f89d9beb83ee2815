-- ===== src/Batch/Client/Preservation.antt =====
-- The steps of a client and its invariant.
use lmdb_deno.Prelude.{
  ℕ, suc, ◌≡◌, refl, ap, ◌∙◌, sym, Bool, true, false, Option, none, some, List, [], ◌∷◌, ◌++◌,
  is_some, Exception, Result, ok, err, arith, if-cases, append_assoc, ◌||◌,
}
use lmdb_deno.Batch.Client.Defs.{
  Host, RetainedBatchJob, Client, find_job, delete_job, update_job, apply_deltas, new_job,
}
use lmdb_deno.Batch.Client.Methods.{
  equals_id, to_list, reset_worker, release_reservation, post_job, activate_next, finish,
  report_progress, after_deltas, handle_progress, handle_complete, ready_for, handle_progress_of,
  handle_failure_of, handle_complete_of, handle_open, handle_message, enqueue, close, run_first,
  run_microtask, Stimulus, step,
}
use lmdb_deno.Batch.Client.Order.{
  ids, Rises, Rises-below, Rises-snoc, ids-append, ids-update_job, ids-delete_job, find_job-id,
}
use lmdb_deno.Batch.Client.Invariant.{
  IsConsistent, Attempt, or_recover-IsConsistent, activate-IsConsistent, call_back-IsConsistent,
  call_back_all-IsConsistent, fail_unexpectedly-IsConsistent, fail_protocol-IsConsistent,
}
use lmdb_deno.Encoding.Values.{Number}
use lmdb_deno.Batch.Client.Defs.{has_every_result, BatchWorkerReply}
use lmdb_deno.Batch.Client.Methods.{answered_job, enqueues, closes, replies, breaks, microtask}

-- A client whose active job has been answered.
pub record CanFinish {S : Type 0} (job : RetainedBatchJob) (c : Client S) : Type 0 where
  pub ordered : ids c.jobs ≡ job.id ∷ c.queue
  pub rising : Rises 0 c.next_job_id (ids c.jobs)
  pub current : c.active ≡ some job.id
  pub posted : c.dispatched ≡ none
  pub running : c.ready ≡ true → is_some c.worker ≡ true
  pub shut : c.closed ≡ false

module _ {S : Type 0} (host : Host S) where
  activate_next-IsConsistent :
      (c : Client S)
      → ids c.jobs ≡ c.queue
      → Rises 0 c.next_job_id (ids c.jobs)
      → c.active ≡ none
      → c.has_reservation ≡ false
      → c.dispatched ≡ none
      → (c.ready ≡ true → is_some c.worker ≡ true)
      → c.closed ≡ false
      → (queue : List ℕ) → c.queue ≡ queue
      → IsConsistent (activate_next host queue c)
  activate_next-IsConsistent c ordered rising inactive free posted running open_still [] e =
      ground arith
  activate_next-IsConsistent c ordered rising inactive free posted running open_still (i ∷ rest) e =
      activate-IsConsistent host i (record c { queue = rest })
        (record {
          ordered = ordered ∙ e;
          rising = rising;
          reserved = free;
          posted = posted;
          running = running;
          shut = open_still;
        })

  finish-IsConsistent :
      (job : RetainedBatchJob) (e : Option Exception) (c : Client S)
      → CanFinish job c
      → IsConsistent (finish host job e c)
  unfolding finish release_reservation
  finish-IsConsistent job e c h =
      let tail : Rises (suc job.id) c.next_job_id c.queue = (rw h.ordered at h.rising).1 in
      let left : ids (delete_job job.id c.jobs) ≡ c.queue =
        ids-delete_job job.id c.next_job_id c.jobs c.queue h.ordered tail in
      if-cases IsConsistent (equals_id c.active job.id) _ c
        (λ _. call_back-IsConsistent host job _ _ (
          activate_next-IsConsistent _ left
            (rw left (Rises-below (suc job.id) 0 c.next_job_id c.queue (omega arith) tail)) refl
            refl h.posted h.running h.shut c.queue refl))
        (λ other. absurd (ground (arith, h.current)))

  report_progress-IsConsistent :
      (job : RetainedBatchJob) (c : Client S)
      → IsConsistent c
      → IsConsistent (report_progress host job c)
  unfolding report_progress
  report_progress-IsConsistent job c h =
      if-cases IsConsistent job.has_progress _ c
        (λ _. record {
          ordered = ids-update_job _ c.jobs ∙ h.ordered;
          rising = rw (ids-update_job _ c.jobs) h.rising;
          idle = h.idle;
          reserved = h.reserved;
          posted = h.posted;
          running = h.running;
          served = h.served;
          shut = h.shut;
        })
        (λ _. h)

  handle_progress-IsConsistent :
      (job : RetainedBatchJob) (deltas : List (Number × Number)) (c : Client S)
      → IsConsistent c
      → IsConsistent (handle_progress host job deltas c)
  unfolding handle_progress
  handle_progress-IsConsistent job deltas c h =
      let (r, job') = apply_deltas job deltas in
      let updated : IsConsistent (record c { jobs = update_job job' c.jobs }) = record {
        ordered = ids-update_job job' c.jobs ∙ h.ordered;
        rising = rw (ids-update_job job' c.jobs) h.rising;
        idle = h.idle;
        reserved = h.reserved;
        posted = h.posted;
        running = h.running;
        served = h.served;
        shut = h.shut;
      } in
      go r job' (record c { jobs = update_job job' c.jobs }) updated
    where
      go :
          (r : Result (Unit {0})) (j : RetainedBatchJob) (d : Client S)
          → IsConsistent d
          → IsConsistent (after_deltas host r j d)
      go (ok _) j d u = report_progress-IsConsistent j d u
      go (err e) j d u = fail_unexpectedly-IsConsistent host e d u

  -- The job that a reply answers may be finished.
  pub answered-CanFinish :
      (id : ℕ) (job : RetainedBatchJob) (c : Client S)
      → IsConsistent c
      → c.closed ≡ false
      → answered_job id c ≡ some job
      → CanFinish job (record c { dispatched = none })
  answered-CanFinish id job c h open_still e =
      let found : (c.active ≡ some id) × (find_job id c.jobs ≡ some job) = ground arith in
      let same : job.id ≡ id = find_job-id id c.jobs job found.1 in
      let current : c.active ≡ some job.id = found.0 ∙ ap some (sym same) in
      record {
        ordered = h.ordered ∙ ap (λ (a : Option ℕ). to_list a ++ c.queue) current;
        rising = h.rising;
        current = current;
        posted = refl;
        running = h.running;
        shut = open_still;
      }

  post_job-Attempt :
      (id : ℕ) (c : Client S)
      → c.active ≡ some id
      → c.closed ≡ false
      → IsConsistent c
      → Attempt host (post_job host id (record c { ready = true }))
  unfolding post_job
  post_job-Attempt id c e open_still h = ground arith

  ready_for-IsConsistent :
      (a : Option ℕ) (c : Client S)
      → c.active ≡ a
      → c.closed ≡ false
      → IsConsistent c
      → IsConsistent (ready_for host a c)
  unfolding ready_for
  ready_for-IsConsistent none c e open_still h = fail_protocol-IsConsistent host _ c open_still h
  ready_for-IsConsistent (some id) c e open_still h =
      if-cases IsConsistent c.ready _ _ (λ _. fail_protocol-IsConsistent host _ c open_still h)
        (λ _.
          or_recover-IsConsistent host (post_job host id (record c { ready = true }))
            (post_job-Attempt id c e open_still h))

  handle_progress_of-IsConsistent :
      (j : Option RetainedBatchJob) (deltas : List (Number × Number)) (c : Client S)
      → c.closed ≡ false
      → IsConsistent c
      → IsConsistent (handle_progress_of host j deltas c)
  unfolding handle_progress_of
  handle_progress_of-IsConsistent none deltas c open_still h =
      fail_protocol-IsConsistent host _ c open_still h
  handle_progress_of-IsConsistent (some job) deltas c open_still h =
      handle_progress-IsConsistent job deltas c h

  handle_failure_of-IsConsistent :
      (id : ℕ) (j : Option RetainedBatchJob) (e : Exception) (c : Client S)
      → answered_job id c ≡ j
      → c.closed ≡ false
      → IsConsistent c
      → IsConsistent (handle_failure_of host j e c)
  unfolding handle_failure_of
  handle_failure_of-IsConsistent id none e c q open_still h =
      fail_protocol-IsConsistent host _ c open_still h
  handle_failure_of-IsConsistent id (some job) e c q open_still h =
      finish-IsConsistent job (some e) _ (answered-CanFinish id job c h open_still q)

  handle_complete_of-IsConsistent :
      (id : ℕ) (j : Option RetainedBatchJob) (c : Client S)
      → answered_job id c ≡ j
      → c.closed ≡ false
      → IsConsistent c
      → IsConsistent (handle_complete_of host j c)
  unfolding handle_complete_of handle_complete
  handle_complete_of-IsConsistent id none c q open_still h =
      fail_protocol-IsConsistent host _ c open_still h
  handle_complete_of-IsConsistent id (some job) c q open_still h =
      if-cases IsConsistent (has_every_result job) _ _
        (λ _. finish-IsConsistent job none _ (answered-CanFinish id job c h open_still q))
        (λ _. fail_unexpectedly-IsConsistent host _ c h)

  handle_open-IsConsistent :
      (m : BatchWorkerReply) (c : Client S)
      → c.closed ≡ false
      → IsConsistent c
      → IsConsistent (handle_open host m c)
  unfolding handle_open
  handle_open-IsConsistent BatchWorkerReply.ready c open_still h =
      ready_for-IsConsistent c.active c refl open_still h
  handle_open-IsConsistent (BatchWorkerReply.progress id deltas) c open_still h =
      handle_progress_of-IsConsistent (answered_job id c) deltas c open_still h
  handle_open-IsConsistent (BatchWorkerReply.complete id) c open_still h =
      handle_complete_of-IsConsistent id (answered_job id c) c refl open_still h
  handle_open-IsConsistent (BatchWorkerReply.failure id message code) c open_still h =
      handle_failure_of-IsConsistent id (answered_job id c) _ c refl open_still h

  handle_message-IsConsistent :
      (m : BatchWorkerReply) (c : Client S)
      → IsConsistent c
      → IsConsistent (handle_message host m c)
  unfolding handle_message
  handle_message-IsConsistent m c h =
      if-cases IsConsistent c.closed c _ (λ _. h) (λ o. handle_open-IsConsistent m c o h)

  enqueue-IsConsistent :
      (count : ℕ) (p : Bool) (c : Client S)
      → IsConsistent c
      → IsConsistent (enqueue host count p c).1
  unfolding enqueue
  enqueue-IsConsistent count p c h =
      let Q = λ (r : Result (Unit {0}) × Client S). IsConsistent r.1 in
      let job = new_job c.next_job_id count p in
      let longer : ids (c.jobs ++ job ∷ []) ≡ ids c.jobs ++ job.id ∷ [] =
        ids-append c.jobs (job ∷ []) in
      let rising : Rises 0 (suc c.next_job_id) (ids (c.jobs ++ job ∷ [])) =
        rw longer (Rises-snoc 0 c.next_job_id (ids c.jobs) h.rising) in
      if-cases Q (c.closed || host.is_poisoned c.native) _ _ (λ _. h)
        (λ usable.
          if-cases Q (is_some c.active) _ _
            (λ busy. record {
              ordered =
                  longer
                  ∙ ap (λ (l : List ℕ). l ++ job.id ∷ []) h.ordered
                  ∙ append_assoc (to_list c.active) c.queue (job.id ∷ []);
              rising = rising;
              idle = λ e. ground arith;
              reserved = h.reserved;
              posted = h.posted;
              running = h.running;
              served = h.served;
              shut = h.shut;
            })
            (λ free. activate-IsConsistent host job.id _ (record {
              ordered = longer ∙ ground arith;
              rising = rising;
              reserved = ground arith;
              posted = ground arith;
              running = h.running;
              shut = ground arith;
            })))

  close-IsConsistent : (c : Client S) → IsConsistent c → IsConsistent (close host c).1
  unfolding close reset_worker
  close-IsConsistent c h = ground arith

  run_microtask-IsConsistent : (c : Client S) → IsConsistent c → IsConsistent (run_microtask host c)
  unfolding run_microtask
  run_microtask-IsConsistent c h = first c.microtasks
    where
      first : (l : List (List RetainedBatchJob × Exception)) → IsConsistent (run_first host l c)
      first [] = h
      first ((jobs, failure) ∷ rest) = call_back_all-IsConsistent host jobs _ _ (record {
        ordered = h.ordered;
        rising = h.rising;
        idle = h.idle;
        reserved = h.reserved;
        posted = h.posted;
        running = h.running;
        served = h.served;
        shut = h.shut;
      })

  -- Whatever happens to a client, and whatever the worker, the native state and the callbacks do,
  -- the invariant is kept.
  pub step-IsConsistent :
      (s : Stimulus) (c : Client S) → IsConsistent c → IsConsistent (step host s c)
  unfolding step
  step-IsConsistent (enqueues count p) c h = enqueue-IsConsistent count p c h
  step-IsConsistent closes c h = close-IsConsistent c h
  step-IsConsistent (replies w m) c h =
      if-cases IsConsistent (equals_id c.worker w) _ c (λ _. handle_message-IsConsistent m c h)
        (λ _. h)
  step-IsConsistent (breaks w e) c h =
      if-cases IsConsistent (equals_id c.worker w) _ c
        (λ current. fail_protocol-IsConsistent host e c (ground arith) h) (λ _. h)
  step-IsConsistent microtask c h = run_microtask-IsConsistent c h
