-- ===== src/Batch/Worker/Answers.antt =====
-- What the answers of a worker to a job do to the job that the client keeps.
use lmdb_deno.Prelude.{
  ℕ, zero, suc, ◌+◌, ◌<◌, ◌^◌, ◌≡◌, refl, ap, ◌∙◌, sym, Bool, true, false, Option, none, some, List,
  [], ◌∷◌, ◌++◌, map, append_assoc, append-nil, length, length-append, set, get_elem?, replicate,
  ok, arith, pos,
}
use lmdb_deno.Encoding.Values.{Number, integer}
use lmdb_deno.Batch.Request.{
  BatchResult, success, condition_not_met, not_found, bad_valsize, NormalizedBatchRequest,
}
use lmdb_deno.Native.Api.{NativeApi}
use lmdb_deno.Batch.Executor
use lmdb_deno.Batch.Executor.{execute_batch}
use lmdb_deno.Batch.Executor.Rounds.{enumerate}
use lmdb_deno.Batch.Executor.Results.{execute_batch_results}
use lmdb_deno.Batch.Client.Defs.{BatchWorkerReply}
use lmdb_deno.Batch.Client.Slots.{all_received-tail}
use lmdb_deno.Batch.Client.Defs.{
  RetainedBatchJob, delta_index, is_safe, apply_delta, apply_deltas, all_received, has_every_result,
  new_job,
}
use lmdb_deno.Batch.Worker.{result_number, delta, progress_replies, WorkerState, run_job}

abbrev pub deltas : List (ℕ × BatchResult) → List (Number × Number)
deltas [] = []
deltas (r ∷ rs) = delta r ∷ deltas rs

-- A job that has the results `done` in its first slots, and `left` slots without one.
abbrev job_after : ℕ → Bool → List Number → ℕ → RetainedBatchJob
job_after id p done left = record {
  id = id;
  operation_count = length done + left;
  received = replicate (length done) true ++ replicate left false;
  received_count = length done;
  results = map some done ++ replicate left none;
  has_progress = p;
  callback_errors = [];
}

new_job-job_after : (id : ℕ) (p : Bool) (n : ℕ) → new_job id n p ≡ job_after id p [] n
new_job-job_after id p n = let e : 0 + n ≡ n = omega arith in rw e refl

set-received :
    (n left : ℕ)
    → set (replicate n true ++ replicate (suc left) false) n true
      ≡ replicate (suc n) true ++ replicate left false
set-received zero left = refl
set-received (suc n) left = ap (λ (l : List Bool). true ∷ l) (set-received n left)

get-received :
    (n left : ℕ) → get_elem? (replicate n true ++ replicate (suc left) false) n ≡ some false
get-received zero left = refl
get-received (suc n) left = get-received n left

set-results :
    (done : List Number) (left : ℕ) (v : Number)
    → set (map some done ++ replicate (suc left) none) (length done) (some v)
      ≡ map some (done ++ v ∷ []) ++ replicate left none
set-results [] left v = refl
set-results (x ∷ done) left v =
    ap (λ (l : List (Option Number)). some x ∷ l) (set-results done left v)

is_safe-result_number : (r : BatchResult) → is_safe (result_number r) ≡ true
is_safe-result_number success = refl
is_safe-result_number condition_not_met = refl
is_safe-result_number not_found = refl
is_safe-result_number bad_valsize = refl

delta_index-next : (n left : ℕ) → n < 2 ^ 53 → delta_index (n + suc left) (integer (pos n)) ≡ some n
delta_index-next n left h = ground arith

apply_delta-ok :
    (job : RetainedBatchJob) (index result : Number) (i : ℕ)
    → delta_index job.operation_count index ≡ some i
    → get_elem? job.received i ≡ some false
    → is_safe result ≡ true
    → apply_delta job (index, result)
      ≡ ok (record job {
        received = set job.received i true;
        received_count = suc job.received_count;
        results = set job.results i (some result);
      })
unfolding apply_delta
apply_delta-ok job index result i h unset safe = ground arith

apply_deltas-ok :
    (job job' : RetainedBatchJob) (d : Number × Number) (ds : List (Number × Number))
    → apply_delta job d ≡ ok job'
    → apply_deltas job (d ∷ ds) ≡ apply_deltas job' ds
unfolding apply_deltas
apply_deltas-ok job job' d ds h = ground arith

-- The next result goes into the next slot.
apply_delta-next :
    (id : ℕ) (p : Bool) (done : List Number) (left : ℕ) (r : BatchResult)
    → length done < 2 ^ 53
    → apply_delta (job_after id p done (suc left)) (delta (length done, r))
      ≡ ok (job_after id p (done ++ result_number r ∷ []) left)
apply_delta-next id p done left r h =
    let len : length (done ++ result_number r ∷ []) ≡ suc (length done) =
      omega (arith, length-append done (result_number r ∷ [])) in
    let size : length done + suc left ≡ suc (length done) + left = omega arith in
    apply_delta-ok (job_after id p done (suc left)) _ _ (length done)
      (delta_index-next (length done) left h) (get-received (length done) left)
      (is_safe-result_number r)
    ∙ rw (set-received (length done) left, set-results done left (result_number r), len, size) refl

abbrev pub numbers : List BatchResult → List Number
numbers [] = []
numbers (r ∷ rs) = result_number r ∷ numbers rs

apply_deltas-enumerate :
    (id : ℕ) (p : Bool) (done : List Number) (k : ℕ) (rs : List BatchResult)
    → length done ≡ k
    → k + length rs < 2 ^ 53
    → apply_deltas (job_after id p done (length rs)) (deltas (enumerate k rs))
      ≡ (ok tt, job_after id p (done ++ numbers rs) 0)
unfolding apply_deltas
apply_deltas-enumerate id p done k [] e h = rw (append-nil done) refl
apply_deltas-enumerate id p done k (r ∷ rs) e h =
    let len : length (done ++ result_number r ∷ []) ≡ suc k =
      omega (arith, e, length-append done (result_number r ∷ [])) in
    apply_deltas-ok (job_after id p done (suc (length rs))) _ _ _ (
      ap (λ (n : ℕ). apply_delta (job_after id p done (suc (length rs))) (delta (n, r))) (sym e)
      ∙ apply_delta-next id p done (length rs) r (omega (arith, h, e)))
    ∙ apply_deltas-enumerate id p (done ++ result_number r ∷ []) (suc k) rs len (omega (arith, h))
    ∙ ap (λ (l : List Number). (ok tt, job_after id p l 0))
        (append_assoc done (result_number r ∷ []) (numbers rs))

all_received-replicate : (n : ℕ) → all_received (replicate n true) 0 n ≡ true
unfolding all_received
all_received-replicate zero = refl
all_received-replicate (suc n) =
    all_received-tail true (replicate n true) 0 n ∙ all_received-replicate n

-- A job whose slots are all taken has every result.
has_every_result-job_after :
    (id : ℕ) (p : Bool) (done : List Number) → has_every_result (job_after id p done 0) ≡ true
unfolding has_every_result
has_every_result-job_after id p done =
    let n = length done in
    let size : n + 0 ≡ n = omega arith in
    rw (size, append-nil (replicate n true), all_received-replicate n) (ground arith)

module _ {S : Type 0} (api : NativeApi S) where
  run_job-ok :
      (id env n : ℕ) (request : NormalizedBatchRequest) (w : WorkerState S)
      → (execute_batch api false env request (Executor.start w.native request)).0 ≡ ok n
      → (run_job api id false env request w).posted
        ≡ (w.posted
            ++ progress_replies id
                (execute_batch api false env request (Executor.start w.native request)).1.reported)
          ++ BatchWorkerReply.complete id ∷ []
  unfolding run_job
  run_job-ok id env n request w returned = ground (arith, returned)

  -- A batch that returns makes the worker post the results of all operations, one by one and in
  -- order, and then that the job is complete. If there are fewer than 2^53 operations, a client that
  -- applies these deltas to the new job accepts each of them, then has every result, and its results
  -- are those of the executor.
  pub run_job_fills :
      (id : ℕ) (p : Bool) (env n : ℕ) (request : NormalizedBatchRequest) (w : WorkerState S)
      → length request.operations < 2 ^ 53
      → (execute_batch api false env request (Executor.start w.native request)).0 ≡ ok n
      → (rs : List BatchResult) × ((execute_batch api false env request
            (Executor.start w.native request)).1.results
          ≡ map some rs)
        × ((run_job api id false env request w).posted
            ≡ (w.posted ++ progress_replies id (enumerate 0 rs))
              ++ BatchWorkerReply.complete id ∷ [])
        × ((job : RetainedBatchJob) × (apply_deltas
                (new_job id (length request.operations) p)
                (deltas (enumerate 0 rs))
              ≡ (ok tt, job))
            × (has_every_result job ≡ true)
            × (job.results ≡ map some (numbers rs)))
  run_job_fills id p env n request w short returned =
      let (rs, left, size, filled, all, served) =
        execute_batch_results api false env w.native request in
      let none_left : left ≡ 0 = (all n returned).0 in
      let count : length request.operations ≡ length rs = omega (arith, size, none_left) in
      (
        rs,
        rw none_left at filled.filled ∙ append-nil (map some rs),
        run_job-ok id env n request w returned
            ∙ ap
                (λ (l : List (ℕ × BatchResult)).
                  (w.posted ++ progress_replies id l) ++ BatchWorkerReply.complete id ∷ [])
                filled.told,
        (
          job_after id p (numbers rs) 0,
          ap (λ (j : RetainedBatchJob). apply_deltas j (deltas (enumerate 0 rs)))
                (ap (λ (k : ℕ). new_job id k p) count ∙ new_job-job_after id p (length rs))
              ∙ apply_deltas-enumerate id p [] 0 rs refl (omega (arith, short, count)),
          has_every_result-job_after id p (numbers rs),
          append-nil (map some (numbers rs)),
        ),
      )
