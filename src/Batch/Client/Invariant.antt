-- ===== src/Batch/Client/Invariant.antt =====
-- What holds of a client between two steps.
use lmdb_deno.Prelude.{
  ℕ, ◌≡◌, true, false, none, List, [], ◌∷◌, ◌++◌, is_some, Exception, Result, ok, err, arith,
  if◌then◌else◌, if-cases,
}
use lmdb_deno.Batch.Client.Defs.{Host, Completion, RetainedBatchJob, Client}
use lmdb_deno.Batch.Client.Methods.{
  to_list, reset_worker, release_reservation, call_back, call_back_all, recover_undispatched,
  fail_unexpectedly, fail_protocol, post_job, start, ensure_started, try_activate, or_recover,
  activate,
}
use lmdb_deno.Batch.Client.Order.{ids, Rises, Rises-le}

-- The jobs are the active one and the queued ones, in the order in which they came; the writer is
-- reserved exactly while a job is active; the active job, and no other, has been posted exactly
-- if the worker is ready; a worker runs whenever it is needed; and a closed client holds nothing.
pub record IsConsistent {S : Type 0} (c : Client S) : Type 0 where
  pub ordered : ids c.jobs ≡ to_list c.active ++ c.queue
  pub rising : Rises 0 c.next_job_id (ids c.jobs)
  pub idle : c.active ≡ none → c.queue ≡ []
  pub reserved : c.has_reservation ≡ is_some c.active
  pub posted : c.dispatched ≡ (if c.ready then c.active else none)
  pub running : c.ready ≡ true → is_some c.worker ≡ true
  pub served : is_some c.active ≡ true → is_some c.worker ≡ true
  pub shut : c.closed ≡ true → (c.active ≡ none) × (c.worker ≡ none)

-- A client whose first job is about to be activated.
pub record CanActivate {S : Type 0} (id : ℕ) (c : Client S) : Type 0 where
  pub ordered : ids c.jobs ≡ id ∷ c.queue
  pub rising : Rises 0 c.next_job_id (ids c.jobs)
  pub reserved : c.has_reservation ≡ false
  pub posted : c.dispatched ≡ none
  pub running : c.ready ≡ true → is_some c.worker ≡ true
  pub shut : c.closed ≡ false

module _ {S : Type 0} (host : Host S) where
  pub recover_undispatched-IsConsistent :
      (cause : Exception) (c : Client S)
      → c.closed ≡ false
      → Rises 0 c.next_job_id (ids c.jobs)
      → IsConsistent (recover_undispatched host cause c)
  unfolding recover_undispatched reset_worker release_reservation
  recover_undispatched-IsConsistent cause c h r =
      ground (arith, Rises-le 0 c.next_job_id (ids c.jobs) r)

  -- What `#activate` and `#handleMessage` leave to `#recoverUndispatched` on an error.
  abbrev pub Attempt : Result (Unit {0}) × Client S → Type 0
  Attempt (ok _, c) = IsConsistent c
  Attempt (err _, c) = (c.closed ≡ false) × Rises 0 c.next_job_id (ids c.jobs)

  pub or_recover-IsConsistent :
      (p : Result (Unit {0}) × Client S) → Attempt p → IsConsistent (or_recover host p)
  or_recover-IsConsistent (ok _, c) h = h
  or_recover-IsConsistent (err e, c) h = recover_undispatched-IsConsistent e c h.0 h.1

  try_activate-Attempt :
      (id : ℕ) (c : Client S) → CanActivate id c → Attempt (try_activate host id c)
  unfolding try_activate ensure_started start post_job
  try_activate-Attempt id c h = ground arith

  pub activate-IsConsistent :
      (id : ℕ) (c : Client S) → CanActivate id c → IsConsistent (activate host id c)
  unfolding activate
  activate-IsConsistent id c h =
      or_recover-IsConsistent (try_activate host id c) (try_activate-Attempt id c h)

  pub call_back-IsConsistent :
      (job : RetainedBatchJob) (d : Completion) (c : Client S)
      → IsConsistent c
      → IsConsistent (call_back host job d c)
  unfolding call_back
  call_back-IsConsistent job d c h = record {
    ordered = h.ordered;
    rising = h.rising;
    idle = h.idle;
    reserved = h.reserved;
    posted = h.posted;
    running = h.running;
    served = h.served;
    shut = h.shut;
  }

  pub call_back_all-IsConsistent :
      (jobs : List RetainedBatchJob) (d : Completion) (c : Client S)
      → IsConsistent c
      → IsConsistent (call_back_all host jobs d c)
  unfolding call_back_all
  call_back_all-IsConsistent [] d c h = h
  call_back_all-IsConsistent (job ∷ jobs) d c h =
      call_back_all-IsConsistent jobs d (call_back host job d c) (call_back-IsConsistent job d c h)

  pub fail_unexpectedly-IsConsistent :
      (cause : Exception) (c : Client S)
      → IsConsistent c
      → IsConsistent (fail_unexpectedly host cause c)
  unfolding fail_unexpectedly reset_worker release_reservation
  fail_unexpectedly-IsConsistent cause c h =
      if-cases IsConsistent c.closed _ _ (λ _. h)
        (λ _.
          call_back_all-IsConsistent c.jobs _ _
            (ground (arith, Rises-le 0 c.next_job_id (ids c.jobs) h.rising)))

  pub fail_protocol-IsConsistent :
      (cause : Exception) (c : Client S)
      → c.closed ≡ false
      → IsConsistent c
      → IsConsistent (fail_protocol host cause c)
  unfolding fail_protocol
  fail_protocol-IsConsistent cause c open_still h =
      if-cases IsConsistent (is_some c.dispatched) _ _
        (λ _. fail_unexpectedly-IsConsistent cause c h)
        (λ _. recover_undispatched-IsConsistent cause c open_still h.rising)
