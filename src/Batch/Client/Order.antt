-- ===== src/Batch/Client/Order.antt =====
-- The identifiers of the jobs that a client holds.
use lmdb_deno.Prelude.{ℕ, suc, ◌≤◌, ◌<◌, ◌≡◌, refl, ap, List, [], ◌∷◌, ◌++◌, some, arith}
use lmdb_deno.Batch.Client.Defs.{RetainedBatchJob, find_job, delete_job, update_job}

abbrev pub ids : List RetainedBatchJob → List ℕ
ids [] = []
ids (job ∷ jobs) = job.id ∷ ids jobs

-- Identifiers rise along the list, from `low` on and below `high`.
abbrev pub Rises : ℕ → ℕ → List ℕ → Type 0
Rises low high [] = low ≤ high
Rises low high (i ∷ rest) = (low ≤ i) × Rises (suc i) high rest

pub Rises-below :
    (low low' high : ℕ) (l : List ℕ) → low' ≤ low → Rises low high l → Rises low' high l
Rises-below low low' high [] h r = omega arith
Rises-below low low' high (i ∷ l) h r = (omega arith, r.1)

pub Rises-snoc :
    (low high : ℕ) (l : List ℕ) → Rises low high l → Rises low (suc high) (l ++ high ∷ [])
Rises-snoc low high [] r = (r, omega arith)
Rises-snoc low high (i ∷ l) r = (r.0, Rises-snoc (suc i) high l r.1)

pub Rises-le : (low high : ℕ) (l : List ℕ) → Rises low high l → low ≤ high
Rises-le low high [] r = r
Rises-le low high (i ∷ l) r = omega (arith, Rises-le (suc i) high l r.1)

pub ids-append : (xs ys : List RetainedBatchJob) → ids (xs ++ ys) ≡ ids xs ++ ids ys
ids-append [] ys = refl
ids-append (x ∷ xs) ys = ap (λ (t : List ℕ). x.id ∷ t) (ids-append xs ys)

pub ids-update_job :
    (new : RetainedBatchJob) (jobs : List RetainedBatchJob) → ids (update_job new jobs) ≡ ids jobs
ids-update_job new [] = refl
ids-update_job new (job ∷ jobs) = ground (arith, ids-update_job new jobs)

ids-delete_job_above :
    (i high low : ℕ) (jobs : List RetainedBatchJob)
    → i < low
    → Rises low high (ids jobs)
    → ids (delete_job i jobs) ≡ ids jobs
ids-delete_job_above i high low [] h r = refl
ids-delete_job_above i high low (job ∷ jobs) h r =
    ground (arith, ids-delete_job_above i high (suc job.id) jobs)

-- The first job is the only one with its id.
pub ids-delete_job :
    (i high : ℕ) (jobs : List RetainedBatchJob) (rest : List ℕ)
    → ids jobs ≡ i ∷ rest
    → Rises (suc i) high rest
    → ids (delete_job i jobs) ≡ rest
ids-delete_job i high [] rest e r = cc
ids-delete_job i high (job ∷ jobs) rest e r =
    let tail : ids jobs ≡ rest = cc in
    ground (arith, ids-delete_job_above i high (suc i) jobs (omega arith) (rw tail r))

pub find_job-id :
    (i : ℕ) (jobs : List RetainedBatchJob) (job : RetainedBatchJob)
    → find_job i jobs ≡ some job
    → job.id ≡ i
find_job-id i [] job e = cc
find_job-id i (x ∷ jobs) job e = ground (arith, find_job-id i jobs job)
