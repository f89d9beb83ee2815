-- ===== src/Batch/Client/Filled.antt =====
-- Jobs with a slot for every operation, and callbacks with a result for each.
use lmdb_deno.Prelude.{
  ℕ, ◌≡◌, refl, length, Option, none, some, List, [], ◌∷◌, ◌++◌, is_some, Exception, Result, ok,
  err, arith, ◌==◌, if-cases, All, or_first,
}
use lmdb_deno.Batch.Client.Defs.{
  Host, Completion, succeeded, failed, RetainedBatchJob, Client, find_job, delete_job, update_job,
}
use lmdb_deno.Batch.Client.Methods.{
  equals_id, thrown, finish, reset_worker, release_reservation, call_back, call_back_all,
  recover_undispatched, fail_unexpectedly, fail_protocol, post_job, start, ensure_started,
  try_activate, or_recover, activate, activate_next,
}
use lmdb_deno.Batch.Client.Slots.{IsSlotted, IsFilled}

-- `Sized id n` says that the request with the number `id` has `n` operations.
module _ (Sized : ℕ → ℕ → Type 0) where
  -- A job that has a slot for every operation of the request with its number.
  pub record IsKept (job : RetainedBatchJob) : Type 0 where
    pub slots : IsSlotted job
    pub size : Sized job.id job.operation_count

  abbrev pub IsComplete : ℕ × Completion → Type 0
  IsComplete (id, succeeded results) = IsFilled results × Sized id (length results)
  IsComplete (id, failed e) = Unit

  pub record IsSound {S : Type 0} (c : Client S) : Type 0 where
    pub slotted : All IsKept c.jobs
    pub complete : All IsComplete c.completions

  pub All-snoc :
      {A : Type 0} (P : A → Type 0) (l : List A) (a : A) → All P l → P a → All P (l ++ a ∷ [])
  All-snoc P [] a h p = (p, tt)
  All-snoc P (x ∷ l) a h p = (h.0, All-snoc P l a h.1 p)

  abbrev pub Found : Option RetainedBatchJob → Type 0
  Found none = Unit
  Found (some job) = IsKept job

  pub find_job-IsKept :
      (id : ℕ) (jobs : List RetainedBatchJob) → All IsKept jobs → Found (find_job id jobs)
  find_job-IsKept id [] h = tt
  find_job-IsKept id (x ∷ jobs) h =
      if-cases Found (x.id == id) _ _ (λ _. h.0) (λ _. find_job-IsKept id jobs h.1)

  delete_job-IsKept :
      (id : ℕ) (jobs : List RetainedBatchJob) → All IsKept jobs → All IsKept (delete_job id jobs)
  delete_job-IsKept id [] h = tt
  delete_job-IsKept id (x ∷ jobs) h =
      let rest = delete_job-IsKept id jobs h.1 in
      if-cases (All IsKept) (x.id == id) _ _ (λ _. rest) (λ _. (h.0, rest))

  pub update_job-IsKept :
      (new : RetainedBatchJob) (jobs : List RetainedBatchJob)
      → IsKept new
      → All IsKept jobs
      → All IsKept (update_job new jobs)
  update_job-IsKept new [] n h = tt
  update_job-IsKept new (x ∷ jobs) n h =
      (if-cases IsKept (x.id == new.id) new x (λ _. n) (λ _. h.0), update_job-IsKept new jobs n h.1)

  module _ {S : Type 0} (host : Host S) where
    pub call_back-IsSound :
        (job : RetainedBatchJob) (d : Completion) (c : Client S)
        → IsComplete (job.id, d)
        → IsSound c
        → IsSound (call_back host job d c)
    unfolding call_back
    call_back-IsSound job d c p h = record {
      slotted = h.slotted;
      complete = All-snoc IsComplete c.completions (job.id, d) h.complete p;
    }

    pub call_back_all-IsSound :
        (jobs : List RetainedBatchJob) (e : Exception) (c : Client S)
        → IsSound c
        → IsSound (call_back_all host jobs (failed e) c)
    unfolding call_back_all
    call_back_all-IsSound [] e c h = h
    call_back_all-IsSound (job ∷ jobs) e c h =
        call_back_all-IsSound jobs e _ (call_back-IsSound job (failed e) c tt h)

    recover_undispatched-IsSound :
        (cause : Exception) (c : Client S) → IsSound c → IsSound (recover_undispatched host cause c)
    unfolding recover_undispatched reset_worker release_reservation
    recover_undispatched-IsSound cause c h =
        if-cases IsSound c.closed _ _ (λ _. h) (λ _. record { slotted = tt; complete = h.complete })

    pub fail_unexpectedly-IsSound :
        (cause : Exception) (c : Client S) → IsSound c → IsSound (fail_unexpectedly host cause c)
    unfolding fail_unexpectedly reset_worker release_reservation
    fail_unexpectedly-IsSound cause c h =
        if-cases IsSound c.closed _ _ (λ _. h)
          (λ _. call_back_all-IsSound c.jobs _ _ (record { slotted = tt; complete = h.complete }))

    pub fail_protocol-IsSound :
        (cause : Exception) (c : Client S) → IsSound c → IsSound (fail_protocol host cause c)
    unfolding fail_protocol
    fail_protocol-IsSound cause c h =
        if-cases IsSound (is_some c.dispatched) _ _ (λ _. fail_unexpectedly-IsSound cause c h)
          (λ _. recover_undispatched-IsSound cause c h)

    pub or_recover-IsSound :
        (p : Result (Unit {0}) × Client S) → IsSound p.1 → IsSound (or_recover host p)
    or_recover-IsSound (ok _, c) h = h
    or_recover-IsSound (err e, c) h = recover_undispatched-IsSound e c h

    pub post_job-same :
        (id : ℕ) (c : Client S)
        → ((post_job host id c).1.jobs ≡ c.jobs)
          × ((post_job host id c).1.completions ≡ c.completions)
    unfolding post_job
    post_job-same id c = ground arith

    try_activate-same :
        (id : ℕ) (c : Client S)
        → ((try_activate host id c).1.jobs ≡ c.jobs)
          × ((try_activate host id c).1.completions ≡ c.completions)
    unfolding try_activate ensure_started start post_job
    try_activate-same id c = ground arith

    pub same-IsSound :
        (c d : Client S)
        → (d.jobs ≡ c.jobs) × (d.completions ≡ c.completions)
        → IsSound c
        → IsSound d
    same-IsSound c d e h = record { slotted = rw e.0 h.slotted; complete = rw e.1 h.complete }

    pub activate-IsSound : (id : ℕ) (c : Client S) → IsSound c → IsSound (activate host id c)
    unfolding activate
    activate-IsSound id c h =
        or_recover-IsSound (try_activate host id c) (same-IsSound c _ (try_activate-same id c) h)

    activate_next-IsSound :
        (queue : List ℕ) (c : Client S) → IsSound c → IsSound (activate_next host queue c)
    activate_next-IsSound [] c h = h
    activate_next-IsSound (next ∷ rest) c h =
        activate-IsSound next _ (record { slotted = h.slotted; complete = h.complete })

    completion-IsComplete :
        (job : RetainedBatchJob) (e : Option Exception)
        → (e ≡ none → IsFilled job.results × Sized job.id (length job.results))
        → IsComplete (
          job.id,
          elim e as (λ _. Completion) [ none ↦ succeeded job.results | some x ↦ failed x ],
        )
    completion-IsComplete job none p = p refl
    completion-IsComplete job (some x) p = tt

    pub finish-IsSound :
        (job : RetainedBatchJob) (e : Option Exception) (c : Client S)
        → (e ≡ none → IsFilled job.results × Sized job.id (length job.results))
        → IsSound c
        → IsSound (finish host job e c)
    unfolding finish release_reservation
    finish-IsSound job e c p h =
        let r = (host.release_prepared job.id c.native).0 in
        if-cases IsSound (equals_id c.active job.id) _ c
          (λ _.
            call_back-IsSound job _ _
              (completion-IsComplete job (or_first e (thrown r))
                (λ q. p (none_first e (thrown r) q)))
              (activate_next-IsSound c.queue _ (record {
                slotted = delete_job-IsKept job.id c.jobs h.slotted;
                complete = h.complete;
              })))
          (λ _. h)
      where
        none_first : (a b : Option Exception) → or_first a b ≡ none → a ≡ none
        none_first none b q = refl
        none_first (some x) b q = q
