-- ===== src/Batch/Client/Accounting.antt =====
-- Where the jobs of a client are: in the table, in a microtask, or called back.
use lmdb_deno.Prelude.{
  ℕ, suc, ◌+◌, ◌≡◌, refl, ap, ◌∙◌, sym, Option, List, [], ◌∷◌, ◌++◌, is_some, Exception, Result, ok,
  err, ltb, arith, ◌==◌, if◌then◌else◌, if-cases,
}
use lmdb_deno.Batch.Client.Defs.{
  Host, Completion, RetainedBatchJob, Client, delete_job, update_job, apply_deltas,
}
use lmdb_deno.Batch.Client.Methods.{
  equals_id, reset_worker, release_reservation, call_back, call_back_all, recover_undispatched,
  fail_unexpectedly, fail_protocol, post_job, start, ensure_started, try_activate, or_recover,
  activate, activate_next, finish, report_progress, after_deltas, handle_progress,
}
use lmdb_deno.Encoding.Values.{Number}
use lmdb_deno.Batch.Client.Order.{ids, Rises, ids-update_job, ids-delete_job}

abbrev pub one : ℕ → ℕ → ℕ
one i j = if i == j then 1 else 0

-- How often `i` is in a list of identifiers.
abbrev pub count : ℕ → List ℕ → ℕ
count i [] = 0
count i (j ∷ rest) = one i j + count i rest

-- How often `i` waits in a microtask.
abbrev pub waiting : ℕ → List (List RetainedBatchJob × Exception) → ℕ
waiting i [] = 0
waiting i ((jobs, failure) ∷ rest) = count i (ids jobs) + waiting i rest

-- How often the callback of `i` was called.
abbrev pub called : ℕ → List (ℕ × Completion) → ℕ
called i [] = 0
called i ((j, completion) ∷ rest) = one i j + called i rest

-- Whether `i` is still to be given out.
abbrev pub unissued : ℕ → ℕ → ℕ
unissued i next = if ltb i next then 0 else 1

-- In how many places `i` is.
abbrev pub whereabouts : {S : Type 0} → ℕ → Client S → ℕ
whereabouts i c =
    unissued i c.next_job_id
    + (count i (ids c.jobs) + (waiting i c.microtasks + called i c.completions))

pub count-append : (i : ℕ) (xs ys : List ℕ) → count i (xs ++ ys) ≡ count i xs + count i ys
count-append i [] ys = omega arith
count-append i (x ∷ xs) ys = omega (arith, count-append i xs ys)

waiting-append :
    (i : ℕ) (xs ys : List (List RetainedBatchJob × Exception))
    → waiting i (xs ++ ys) ≡ waiting i xs + waiting i ys
waiting-append i [] ys = omega arith
waiting-append i ((jobs, e) ∷ xs) ys = omega (arith, waiting-append i xs ys)

called-append :
    (i : ℕ) (xs ys : List (ℕ × Completion)) → called i (xs ++ ys) ≡ called i xs + called i ys
called-append i [] ys = omega arith
called-append i ((j, d) ∷ xs) ys = omega (arith, called-append i xs ys)

module _ {S : Type 0} (host : Host S) (i : ℕ) where
  pub call_back-whereabouts :
      (job : RetainedBatchJob) (d : Completion) (c : Client S)
      → whereabouts i (call_back host job d c) ≡ one i job.id + whereabouts i c
  unfolding call_back
  call_back-whereabouts job d c = omega (arith, called-append i c.completions ((job.id, d) ∷ []))

  pub call_back_all-whereabouts :
      (jobs : List RetainedBatchJob) (d : Completion) (c : Client S)
      → whereabouts i (call_back_all host jobs d c) ≡ count i (ids jobs) + whereabouts i c
  unfolding call_back_all
  call_back_all-whereabouts [] d c = omega arith
  call_back_all-whereabouts (job ∷ jobs) d c = omega (
    arith,
    call_back_all-whereabouts jobs d (call_back host job d c),
    call_back-whereabouts job d c,
  )

  pub recover_undispatched-whereabouts :
      (cause : Exception) (c : Client S)
      → whereabouts i (recover_undispatched host cause c) ≡ whereabouts i c
  unfolding recover_undispatched reset_worker release_reservation
  recover_undispatched-whereabouts cause c =
      if-cases (λ (d : Client S). whereabouts i d ≡ whereabouts i c) c.closed _ _ (λ _. refl)
        (λ _. omega (arith, waiting-append i c.microtasks ((c.jobs, _) ∷ [])))

  pub fail_unexpectedly-whereabouts :
      (cause : Exception) (c : Client S)
      → whereabouts i (fail_unexpectedly host cause c) ≡ whereabouts i c
  unfolding fail_unexpectedly reset_worker release_reservation
  fail_unexpectedly-whereabouts cause c =
      if-cases (λ (d : Client S). whereabouts i d ≡ whereabouts i c) c.closed _ _ (λ _. refl)
        (λ _. call_back_all-whereabouts c.jobs _ _ ∙ omega arith)

  pub fail_protocol-whereabouts :
      (cause : Exception) (c : Client S)
      → whereabouts i (fail_protocol host cause c) ≡ whereabouts i c
  unfolding fail_protocol
  fail_protocol-whereabouts cause c =
      if-cases (λ (d : Client S). whereabouts i d ≡ whereabouts i c) (is_some c.dispatched) _ _
        (λ _. fail_unexpectedly-whereabouts cause c) (λ _. recover_undispatched-whereabouts cause c)

  pub or_recover-whereabouts :
      (p : Result (Unit {0}) × Client S) → whereabouts i (or_recover host p) ≡ whereabouts i p.1
  or_recover-whereabouts (ok _, c) = refl
  or_recover-whereabouts (err e, c) = recover_undispatched-whereabouts e c

  pub post_job-whereabouts :
      (id : ℕ) (c : Client S) → whereabouts i (post_job host id c).1 ≡ whereabouts i c
  unfolding post_job
  post_job-whereabouts id c = ground arith

  try_activate-whereabouts :
      (id : ℕ) (c : Client S) → whereabouts i (try_activate host id c).1 ≡ whereabouts i c
  unfolding try_activate ensure_started start post_job
  try_activate-whereabouts id c = ground arith

  pub activate-whereabouts :
      (id : ℕ) (c : Client S) → whereabouts i (activate host id c) ≡ whereabouts i c
  unfolding activate
  activate-whereabouts id c =
      or_recover-whereabouts (try_activate host id c) ∙ try_activate-whereabouts id c

  activate_next-whereabouts :
      (queue : List ℕ) (c : Client S) → whereabouts i (activate_next host queue c) ≡ whereabouts i c
  activate_next-whereabouts [] c = refl
  activate_next-whereabouts (next ∷ rest) c = activate-whereabouts next _

  -- The finished job leaves the table and is called back.
  pub finish-whereabouts :
      (job : RetainedBatchJob) (e : Option Exception) (c : Client S)
      → ids c.jobs ≡ job.id ∷ c.queue
      → Rises (suc job.id) c.next_job_id c.queue
      → whereabouts i (finish host job e c) ≡ whereabouts i c
  unfolding finish release_reservation
  finish-whereabouts job e c ordered rising =
      let left : ids (delete_job job.id c.jobs) ≡ c.queue =
        ids-delete_job job.id c.next_job_id c.jobs c.queue ordered rising in
      let moved : count i (ids c.jobs) ≡ one i job.id + count i (ids (delete_job job.id c.jobs)) =
        ap (count i) ordered ∙ ap (λ (l : List ℕ). one i job.id + count i l) (sym left) in
      if-cases (λ (d : Client S). whereabouts i d ≡ whereabouts i c) (equals_id c.active job.id) _ c
        (λ _.
          call_back-whereabouts job _ _
          ∙ ap (λ (n : ℕ). one i job.id + n) (activate_next-whereabouts c.queue _)
          ∙ omega (arith, moved))
        (λ _. refl)

  updated :
      (new : RetainedBatchJob) (c : Client S)
      → whereabouts i (record c { jobs = update_job new c.jobs }) ≡ whereabouts i c
  updated new c =
      ap
        (λ (l : List ℕ).
          unissued i c.next_job_id
          + (count i l + (waiting i c.microtasks + called i c.completions)))
        (ids-update_job new c.jobs)

  pub handle_progress-whereabouts :
      (job : RetainedBatchJob) (deltas : List (Number × Number)) (c : Client S)
      → whereabouts i (handle_progress host job deltas c) ≡ whereabouts i c
  unfolding handle_progress report_progress after_deltas
  handle_progress-whereabouts job deltas c =
      let (r, job') = apply_deltas job deltas in
      after r job' (record c { jobs = update_job job' c.jobs }) ∙ updated job' c
    where
      report :
          (j : RetainedBatchJob) (d : Client S)
          → whereabouts i (report_progress host j d) ≡ whereabouts i d
      report j d =
          if-cases (λ (d' : Client S). whereabouts i d' ≡ whereabouts i d) j.has_progress _ d
            (λ _. updated _ d) (λ _. refl)

      after :
          (r : Result (Unit {0})) (j : RetainedBatchJob) (d : Client S)
          → whereabouts i (after_deltas host r j d) ≡ whereabouts i d
      after (ok _) j d = report j d
      after (err e) j d = fail_unexpectedly-whereabouts e d
