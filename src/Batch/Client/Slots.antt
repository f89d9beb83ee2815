-- ===== src/Batch/Client/Slots.antt =====
-- The result slots of a job and the deltas that fill them.
use lmdb_deno.Prelude.{
  ℕ, zero, suc, ◌≡◌, refl, ap, ◌∙◌, sym, Bool, true, false, not, ◌||◌, Option, none, some, List, [],
  ◌∷◌, length, get_elem?, set, replicate, is_some, Result, ok, err, arith, if◌then◌else◌,
  length-set, length-replicate, if-cases, All,
}
use lmdb_deno.Encoding.Values.{Number}
use lmdb_deno.Batch.Client.Defs.{
  RetainedBatchJob, delta_index, apply_delta, apply_deltas, all_received, has_every_result, new_job,
  invalid_delta, is_true, is_safe,
}

-- A slot is marked as received exactly if it holds a result.
abbrev Marks : List Bool → List (Option Number) → Type 0
Marks [] [] = Unit
Marks [] (r ∷ rs) = ⊥
Marks (b ∷ bs) [] = ⊥
Marks (b ∷ bs) (r ∷ rs) = (b ≡ is_some r) × Marks bs rs

Marks-replicate : (n : ℕ) → Marks (replicate n false) (replicate n none)
Marks-replicate zero = tt
Marks-replicate (suc n) = (refl, Marks-replicate n)

Marks-set :
    (bs : List Bool) (rs : List (Option Number)) (i : ℕ) (v : Number)
    → Marks bs rs
    → Marks (set bs i true) (set rs i (some v))
Marks-set [] [] i v h = tt
Marks-set [] (r ∷ rs) i v h = absurd h
Marks-set (b ∷ bs) [] i v h = absurd h
Marks-set (b ∷ bs) (r ∷ rs) zero v h = (refl, h.1)
Marks-set (b ∷ bs) (r ∷ rs) (suc i) v h = (h.0, Marks-set bs rs i v h.1)

length-Marks : (bs : List Bool) (rs : List (Option Number)) → Marks bs rs → length rs ≡ length bs
length-Marks [] [] h = refl
length-Marks [] (r ∷ rs) h = absurd h
length-Marks (b ∷ bs) [] h = absurd h
length-Marks (b ∷ bs) (r ∷ rs) h = ap suc (length-Marks bs rs h.1)

-- A slot for every operation.
pub record IsSlotted (job : RetainedBatchJob) : Type 0 where
  pub marked : Marks job.received job.results
  pub sized : length job.received ≡ job.operation_count

pub new_job-IsSlotted : (id n : ℕ) (p : Bool) → IsSlotted (new_job id n p)
new_job-IsSlotted id n p = record { marked = Marks-replicate n; sized = length-replicate n false }

abbrev pub Applied : Result RetainedBatchJob → Type 0
Applied (ok job) = IsSlotted job
Applied (err e) = Unit

apply_delta-IsSlotted :
    (job : RetainedBatchJob) (delta : Number × Number)
    → IsSlotted job
    → Applied (apply_delta job delta)
unfolding apply_delta
apply_delta-IsSlotted job (index, result) h = go (delta_index job.operation_count index)
  where
    applied :
        (i : ℕ)
        → IsSlotted (record job {
          received = set job.received i true;
          received_count = suc job.received_count;
          results = set job.results i (some result);
        })
    applied i = record {
      marked = Marks-set job.received job.results i result h.marked;
      sized = length-set job.received i true ∙ h.sized;
    }

    go :
        (o : Option ℕ)
        → Applied (elim o [
          | none ↦ err invalid_delta
          | some i ↦
              if is_true (get_elem? job.received i) || not (is_safe result)
              then err invalid_delta
              else ok (record job {
                received = set job.received i true;
                received_count = suc job.received_count;
                results = set job.results i (some result);
              })
        ])
    go none = tt
    go (some i) =
        if-cases Applied (is_true (get_elem? job.received i) || not (is_safe result)) _ _ (λ _. tt)
          (λ _. applied i)

pub apply_deltas-IsSlotted :
    (job : RetainedBatchJob) (deltas : List (Number × Number))
    → IsSlotted job
    → IsSlotted (apply_deltas job deltas).1
unfolding apply_deltas
apply_deltas-IsSlotted job [] h = h
apply_deltas-IsSlotted job (delta ∷ deltas) h =
    go (apply_delta job delta) (λ j u. apply_deltas-IsSlotted j deltas u)
      (apply_delta-IsSlotted job delta h)
  where
    go :
        (r : Result RetainedBatchJob)
        → ((j : RetainedBatchJob) → IsSlotted j → IsSlotted (apply_deltas j deltas).1)
        → Applied r
        → IsSlotted
            (elim r as (λ _. Result (Unit {0}) × RetainedBatchJob) [
              | ok job' ↦ apply_deltas job' deltas
              | err e ↦ (err e, job)
            ]).1
    go (ok job') next u = next job' u
    go (err e) next u = h

pub all_received-tail :
    (b : Bool) (bs : List Bool) (i n : ℕ) → all_received (b ∷ bs) (suc i) n ≡ all_received bs i n
unfolding all_received
all_received-tail b bs i zero = refl
all_received-tail b bs i (suc n) = rw (all_received-tail b bs (suc i) n)

abbrev pub IsFilled : List (Option Number) → Type 0
IsFilled l = All (λ (r : Option Number). is_some r ≡ true) l

filled :
    (bs : List Bool) (rs : List (Option Number))
    → Marks bs rs
    → all_received bs 0 (length bs) ≡ true
    → IsFilled rs
unfolding all_received
filled [] [] h e = tt
filled [] (r ∷ rs) h e = absurd h
filled (b ∷ bs) [] h e = absurd h
filled (b ∷ bs) (r ∷ rs) h e =
    let both : (b ≡ true) × (all_received bs 0 (length bs) ≡ true) =
      ground (arith, all_received-tail b bs 0 (length bs)) in
    (sym h.0 ∙ both.0, filled bs rs h.1 both.1)

-- A job with every result has one for each operation.
pub has_every_result-IsFilled :
    (job : RetainedBatchJob)
    → IsSlotted job
    → has_every_result job ≡ true
    → (length job.results ≡ job.operation_count) × IsFilled job.results
unfolding has_every_result
has_every_result-IsFilled job h e =
    let every : all_received job.received 0 job.operation_count ≡ true = ground arith in
    (
      length-Marks job.received job.results h.marked ∙ h.sized,
      filled job.received job.results h.marked (rw h.sized every),
    )

-- Deltas change neither the number of a job nor its operation count.
apply_delta-same :
    (job job' : RetainedBatchJob) (delta : Number × Number)
    → apply_delta job delta ≡ ok job'
    → (job'.id ≡ job.id) × (job'.operation_count ≡ job.operation_count)
unfolding apply_delta
apply_delta-same job job' delta e = ground arith

pub apply_deltas-same :
    (job : RetainedBatchJob) (deltas : List (Number × Number))
    → ((apply_deltas job deltas).1.id ≡ job.id)
      × ((apply_deltas job deltas).1.operation_count ≡ job.operation_count)
unfolding apply_deltas
apply_deltas-same job [] = (refl, refl)
apply_deltas-same job (delta ∷ deltas) =
    go (apply_delta job delta) refl (λ j. apply_deltas-same j deltas)
  where
    go :
        (r : Result RetainedBatchJob)
        → apply_delta job delta ≡ r
        → ((j : RetainedBatchJob)
            → ((apply_deltas j deltas).1.id ≡ j.id)
              × ((apply_deltas j deltas).1.operation_count ≡ j.operation_count))
        → let q = elim r as (λ _. Result (Unit {0}) × RetainedBatchJob) [
          | ok job' ↦ apply_deltas job' deltas
          | err e ↦ (err e, job)
        ] in
          (q.1.id ≡ job.id) × (q.1.operation_count ≡ job.operation_count)
    go (ok job') e rest =
        let first = apply_delta-same job job' delta e in
        ((rest job').0 ∙ first.0, (rest job').1 ∙ first.1)
    go (err x) e rest = (refl, refl)
