-- ===== src/Batch/Executor/Rounds.antt =====
-- The rounds of the loop of `executeBatch`, and the results that they leave.
use lmdb_deno.Prelude.{
  ℕ, suc, ◌+◌, ◌≡◌, refl, ap, subst, ◌∙◌, Option, none, some, List, [], ◌∷◌, ◌++◌, append_assoc,
  append-nil, map, length, length-append, set, replicate, Exception, Result, ok, err, Outcome-cases,
  inl, inr, arith,
}
use lmdb_deno.Native.Api.{NativeApi}
use lmdb_deno.Batch.Request.{BatchResult, NormalizedBatchOperation}
use lmdb_deno.Batch.Executor.Steps.{
  execute_operation-ok, execute_operation-err, execute_operations-ok, execute_operations-err,
}
use lmdb_deno.Batch.Executor.{Execution, complete, operation_result, execute_operations}

-- Results with their indices, from `index` on.
abbrev pub enumerate : ℕ → List BatchResult → List (ℕ × BatchResult)
enumerate index [] = []
enumerate index (r ∷ rs) = (index, r) ∷ enumerate (suc index) rs

-- The first operations have the results `rs`, each reported once and in order, and `left` slots of
-- the array are still empty.
pub record IsFilled {S : Type 0} (rs : List BatchResult) (left : ℕ) (st : Execution S)
    : Type 0 where
  pub filled : st.results ≡ map some rs ++ replicate left none
  pub counted : st.completed_count ≡ length rs
  pub told : st.reported ≡ enumerate 0 rs

set-fill :
    (rs : List BatchResult) (left : ℕ) (r : BatchResult)
    → set (map some rs ++ replicate (suc left) none) (length rs) (some r)
      ≡ map some (rs ++ r ∷ []) ++ replicate left none
set-fill [] left r = refl
set-fill (x ∷ rs) left r = ap (λ (t : List (Option BatchResult)). some x ∷ t) (set-fill rs left r)

enumerate-append :
    (index : ℕ) (rs : List BatchResult) (r : BatchResult)
    → enumerate index (rs ++ r ∷ []) ≡ enumerate index rs ++ (index + length rs, r) ∷ []
enumerate-append index [] r = let e : index + 0 ≡ index = omega arith in rw e
enumerate-append index (x ∷ rs) r =
    let e : index + suc (length rs) ≡ suc index + length rs = omega arith in
    rw (e, enumerate-append (suc index) rs r)

module _ {S : Type 0} where
  complete-IsFilled :
      (rs : List BatchResult) (left : ℕ) (r : BatchResult) (st : Execution S)
      → IsFilled rs (suc left) st
      → IsFilled (rs ++ r ∷ []) left (complete (length rs) r st)
  unfolding complete
  complete-IsFilled rs left r st h = record {
    filled = rw h.filled (set-fill rs left r);
    counted = omega (arith, h.counted, length-append rs (r ∷ []));
    told =
        let e : 0 + length rs ≡ length rs = omega arith in
        rw h.told (rw (enumerate-append 0 rs r, e));
  }

-- What a commit makes of the number of results.
abbrev pub committed_count : ℕ → Result (Unit {0}) → Result ℕ
committed_count n (ok _) = ok n
committed_count n (err e) = err e

complete-native :
    {S : Type 0} (index : ℕ) (r : BatchResult) (st : Execution S)
    → (complete index r st).native ≡ st.native
unfolding complete
complete-native index r st = refl

-- The operations, carried out one after another from the state `s` on, have the results `rs`, and LMDB
-- is in the state `s'` then.
pub data Yields {S : Type 0} (api : NativeApi S) (txn flags : ℕ)
    : List NormalizedBatchOperation → S → List BatchResult → S → Type 0 where
  no_more : (s : S) → Yields api txn flags [] s [] s
  then :
      (op : NormalizedBatchOperation) (ops : List NormalizedBatchOperation) (r : BatchResult)
      (rs : List BatchResult) (s s' s'' : S)
      → operation_result api txn flags op s ≡ (ok r, s')
      → Yields api txn flags ops s' rs s''
      → Yields api txn flags (op ∷ ops) s (r ∷ rs) s''

-- An operation throws after those before it have their results.
pub record Stops {S : Type 0} (api : NativeApi S) (txn flags : ℕ)
    (ops : List NormalizedBatchOperation) (s : S) (rs : List BatchResult) (left : ℕ) (e : Exception)
    (s'' : S) : Type 0 where
  pub done : List NormalizedBatchOperation
  pub thrower : NormalizedBatchOperation
  pub rest : List NormalizedBatchOperation
  pub reached : S
  pub parts : ops ≡ done ++ thrower ∷ rest
  pub remaining : left ≡ suc (length rest)
  pub yields : Yields api txn flags done s rs reached
  pub throws : operation_result api txn flags thrower reached ≡ (err e, s'')

pub length-Yields :
    {S : Type 0} (api : NativeApi S) (txn flags : ℕ) (ops : List NormalizedBatchOperation)
    (s s' : S) (rs : List BatchResult)
    → Yields api txn flags ops s rs s'
    → length rs ≡ length ops
length-Yields api txn flags ops s s' rs (no_more t) = refl
length-Yields api txn flags ops s s' rs (then op rest r new t u v e h) =
    ap suc (length-Yields api txn flags rest u v new h)

pub Stops-size :
    {S : Type 0} (api : NativeApi S) (txn flags : ℕ) (ops : List NormalizedBatchOperation) (s : S)
    (rs : List BatchResult) (left : ℕ) (e : Exception) (s' : S)
    → Stops api txn flags ops s rs left e s'
    → length rs + left ≡ length ops
Stops-size api txn flags ops s rs left e s' h =
    let size = length-Yields api txn flags h.done s h.reached rs h.yields in
    rw h.parts (omega (arith, size, h.remaining, length-append h.done (h.thrower ∷ h.rest)))

module _ {S : Type 0} (api : NativeApi S) (txn put_flags : ℕ) where
  -- How a loop over operations may end, begun with the results `rs`.
  pub data Ends (rs : List BatchResult) (ops : List NormalizedBatchOperation) (s : S)
      (p : Result (Unit {0}) × Execution S) : Type 0 where
    all_done :
        (new : List BatchResult) (st : Execution S)
        → p ≡ (ok tt, st)
        → Yields api txn put_flags ops s new st.native
        → IsFilled (rs ++ new) 0 st
        → Ends rs ops s p
    stopped :
        (new : List BatchResult) (left : ℕ) (e : Exception) (st : Execution S)
        → p ≡ (err e, st)
        → Stops api txn put_flags ops s new left e st.native
        → IsFilled (rs ++ new) left st
        → Ends rs ops s p

  Ends-cons :
      (rs : List BatchResult) (r : BatchResult) (op : NormalizedBatchOperation)
      (ops : List NormalizedBatchOperation) (s s' : S) (p q : Result (Unit {0}) × Execution S)
      → operation_result api txn put_flags op s ≡ (ok r, s')
      → q ≡ p
      → Ends (rs ++ r ∷ []) ops s' p
      → Ends rs (op ∷ ops) s q
  Ends-cons rs r op ops s s' p q first e (all_done new st ends y h) =
      all_done (r ∷ new) st (e ∙ ends) (then op ops r new s s' st.native first y)
        (rw append_assoc at h)
  Ends-cons rs r op ops s s' p q first e (stopped new left x st ends y h) =
      stopped (r ∷ new) left x st (e ∙ ends)
        (record {
          done = op ∷ y.done;
          thrower = y.thrower;
          rest = y.rest;
          reached = y.reached;
          parts = ap (λ (l : List NormalizedBatchOperation). op ∷ l) y.parts;
          remaining = y.remaining;
          yields = then op y.done r new s s' y.reached first y.yields;
          throws = y.throws;
        })
        (rw append_assoc at h)

  pub execute_operations-Ends :
      (ops : List NormalizedBatchOperation) (rs : List BatchResult) (index : ℕ) (st : Execution S)
      → length rs ≡ index
      → IsFilled rs (length ops) st
      → Ends rs ops st.native (execute_operations api txn put_flags index ops st)
  execute_operations-Ends [] rs index st e h =
      all_done [] st (unfold execute_operations in refl) (no_more st.native) (rw (append-nil rs) h)
  execute_operations-Ends (op ∷ ops) rs index st e h =
      elim (Outcome-cases (operation_result api txn put_flags op st.native)) [
        | inl (r, s', q) ↦
            let st' = complete index r (record st { native = s' }) in
            Ends-cons rs r op ops st.native s'
              (execute_operations api txn put_flags (suc index) ops st') _ q
              (execute_operations-ok api txn put_flags index op st ops st'
                (execute_operation-ok api txn put_flags index op st r s' q))
              (subst
                (λ n.
                  Ends (rs ++ r ∷ []) ops n
                    (execute_operations api txn put_flags (suc index) ops st'))
                (complete-native index r (record st { native = s' }))
                (execute_operations-Ends ops (rs ++ r ∷ []) (suc index) st'
                  (omega (arith, length-append rs (r ∷ [])))
                  (rw e at (
                    complete-IsFilled rs (length ops) r (record st { native = s' })
                      (record { filled = h.filled; counted = h.counted; told = h.told })))))
        | inr (x, s', q) ↦
            stopped [] (suc (length ops)) x (record st { native = s' })
              (execute_operations-err api txn put_flags index op st ops x _
                (execute_operation-err api txn put_flags index op st x s' q))
              (record {
                done = [];
                thrower = op;
                rest = ops;
                reached = st.native;
                parts = refl;
                remaining = refl;
                yields = no_more st.native;
                throws = q;
              })
              (rw (append-nil rs)
                (record { filled = h.filled; counted = h.counted; told = h.told }))
      ]
