-- ===== src/Batch/Client/Defs.antt =====
-- The jobs and the state of a batch client.
use lmdb_deno.Prelude.{
  ℕ, zero, suc, ◌-◌, ◌^◌, Bool, true, false, not, ◌&&◌, ◌||◌, Option, none, some, List, [], ◌∷◌,
  get_elem?, set, replicate, ℤ, pos, negsuc, String, Exception, error, lmdb_error, Result, ok, err,
  ltb, ◌==◌, if◌then◌else◌,
}
use lmdb_deno.Encoding.Values.{Number, integer, non_integer}

-- What the client calls: the shared native state, the worker and the user's callbacks. All of them
-- may change the state `S`, and those that may throw return a `Result`.
pub record Host (S : Type 0) : Type 0 where
  -- `reserveInternalWriter(env)` and `releaseInternalWriter(reservation)`
  pub reserve_writer : S → Result (Unit {0}) × S
  pub release_writer : S → S
  -- `poisonSharedEnvironmentState(state)`
  pub poison : S → S
  pub is_poisoned : S → Bool
  -- `state.batchClient = undefined`, if it is this client
  pub forget_client : S → S
  -- `getEnvironmentDescriptor` and `validateEnvironmentDescriptor`
  pub authorize : S → Result (Unit {0}) × S
  -- `new Worker(…)`, and `worker.postMessage` of the `start` message
  pub create_worker : S → Result (Unit {0}) × S
  pub post_start : S → Result (Unit {0}) × S
  pub terminate_worker : S → S
  -- `worker.postMessage` of the job with this id
  pub post_job : ℕ → S → Result (Unit {0}) × S
  -- `releasePreparedBatch` of the job with this id
  pub release_prepared : ℕ → S → Result (Unit {0}) × S
  -- the user's callback and progress function for the job with this id
  pub callback : ℕ → S → Result (Unit {0}) × S
  pub progress : ℕ → S → Result (Unit {0}) × S

-- What a callback is given.
pub data Completion : Type 0 where
  succeeded : List (Option Number) → Completion
  failed : Exception → Completion

pub record RetainedBatchJob : Type 0 where
  pub id : ℕ
  pub operation_count : ℕ
  pub received : List Bool
  pub received_count : ℕ
  pub results : List (Option Number)
  pub has_progress : Bool
  pub callback_errors : List Exception

-- A worker's message. The identifier of a job is the number that was posted with it.
pub data BatchWorkerReply : Type 0 where
  ready : BatchWorkerReply
  progress : (id : ℕ) (deltas : List (Number × Number)) → BatchWorkerReply
  complete : (id : ℕ) → BatchWorkerReply
  -- `message` and `code` of a `SerializedBatchError`
  failure : (id : ℕ) (message : String) (code : Option ℤ) → BatchWorkerReply

-- `reviveError`.
abbrev pub revive_error : String → Option ℤ → Exception
revive_error message none = error message
revive_error message (some code) = lmdb_error code message

-- `worker` is the number of the worker that is current; `next_worker` numbers the next one. What
-- the callbacks were given so far is kept in `completions`, the failures that a microtask is still
-- to deliver in `microtasks`, and the errors of callbacks handed to timers in `reported`.
pub record Client (S : Type 0) : Type 0 where
  pub native : S
  pub next_job_id : ℕ
  pub jobs : List RetainedBatchJob
  pub queue : List ℕ
  pub active : Option ℕ
  pub has_reservation : Bool
  pub worker : Option ℕ
  pub next_worker : ℕ
  pub ready : Bool
  pub dispatched : Option ℕ
  pub closed : Bool
  pub microtasks : List (List RetainedBatchJob × Exception)
  pub completions : List (ℕ × Completion)
  pub reported : List Exception

-- `#jobs` is a `Map` by id, in insertion order.
abbrev pub find_job : ℕ → List RetainedBatchJob → Option RetainedBatchJob
find_job id [] = none
find_job id (job ∷ jobs) = if job.id == id then some job else find_job id jobs

abbrev pub delete_job : ℕ → List RetainedBatchJob → List RetainedBatchJob
delete_job id [] = []
delete_job id (job ∷ jobs) = if job.id == id then delete_job id jobs else job ∷ delete_job id jobs

-- A job object is shared by reference: a change of it is seen through the map.
abbrev pub update_job : RetainedBatchJob → List RetainedBatchJob → List RetainedBatchJob
update_job new [] = []
update_job new (job ∷ jobs) = (if job.id == new.id then new else job) ∷ update_job new jobs

-- `Number.isSafeInteger(n)`, with its value.
abbrev pub safe_integer : Number → Option ℤ
safe_integer (integer (pos n)) = if ltb n (2 ^ 53) then some (pos n) else none
safe_integer (integer (negsuc n)) = if ltb n (2 ^ 53 - 1) then some (negsuc n) else none
safe_integer (non_integer n) = none

-- The index of a delta: a safe integer, not negative, below the operation count.
abbrev pub delta_index : ℕ → Number → Option ℕ
delta_index count n = elim (safe_integer n) [
  | some (pos i) ↦ if ltb i count then some i else none
  | some (negsuc i) ↦ none
  | none ↦ none
]

abbrev pub is_true : Option Bool → Bool
is_true (some true) = true
is_true _ = false

abbrev pub is_safe : Number → Bool
is_safe n = elim (safe_integer n) [ some _ ↦ true | none ↦ false ]

abbrev pub invalid_delta : Exception
invalid_delta = error "Invalid or duplicate batch Worker result delta"

-- One round of `applyDeltas`.
unfoldable pub apply_delta : RetainedBatchJob → Number × Number → Result RetainedBatchJob
apply_delta job (index, result) = elim (delta_index job.operation_count index) [
  | none ↦ err invalid_delta
  | some i ↦
      if is_true (get_elem? job.received i) || not (is_safe result)
      then err invalid_delta
      else ok (record job {
        received = set job.received i true;
        received_count = suc job.received_count;
        results = set job.results i (some result);
      })
]

-- The job keeps what was applied before a delta that throws.
unfoldable pub apply_deltas :
    RetainedBatchJob → List (Number × Number) → Result (Unit {0}) × RetainedBatchJob
apply_deltas job [] = (ok tt, job)
apply_deltas job (delta ∷ deltas) = elim (apply_delta job delta) [
  | ok job' ↦ apply_deltas job' deltas
  | err e ↦ (err e, job)
]

-- The loop of `hasEveryResult`, over the `count` indices from `index` on.
unfoldable pub all_received : List Bool → ℕ → ℕ → Bool
all_received received index zero = true
all_received received index (suc count) =
    is_true (get_elem? received index) && all_received received (suc index) count

unfoldable pub has_every_result : RetainedBatchJob → Bool
unfolding all_received
has_every_result job =
    (job.received_count == job.operation_count) && all_received job.received 0 job.operation_count

-- A job as `enqueue` builds it.
abbrev pub new_job : ℕ → ℕ → Bool → RetainedBatchJob
new_job id operation_count has_progress = record {
  id = id;
  operation_count = operation_count;
  received = replicate operation_count false;
  received_count = 0;
  results = replicate operation_count none;
  has_progress = has_progress;
  callback_errors = [];
}

-- A client as its constructor leaves it.
abbrev pub initial : {S : Type 0} → S → Client S
initial native = record {
  native = native;
  next_job_id = 0;
  jobs = [];
  queue = [];
  active = none;
  has_reservation = false;
  worker = none;
  next_worker = 0;
  ready = false;
  dispatched = none;
  closed = false;
  microtasks = [];
  completions = [];
  reported = [];
}
