-- ===== src/Batch/Client/Failure.antt =====
-- What a worker that breaks leaves behind.
use lmdb_deno.Prelude.{
  ℕ, ◌≡◌, refl, ◌∙◌, sym, true, false, List, [], ◌∷◌, ◌++◌, append_assoc, append-nil, is_some,
  Exception, inl, inr, ◌⊎◌, error_with_cause, arith, if-cases,
}
use lmdb_deno.Batch.Client.Defs.{Host, Completion, failed, RetainedBatchJob, Client}
use lmdb_deno.Batch.Client.Methods.{
  reset_worker, release_reservation, call_back, call_back_all, recover_undispatched,
  fail_unexpectedly, fail_protocol,
}

-- The calls of `jobs` with the same completion.
abbrev pub calls : List RetainedBatchJob → Completion → List (ℕ × Completion)
calls [] d = []
calls (job ∷ jobs) d = (job.id, d) ∷ calls jobs d

abbrev pub terminated : Exception → Completion
terminated cause =
    failed (
      error_with_cause "The batch Worker terminated unexpectedly; the environment is poisoned"
        cause)

module _ {S : Type 0} (host : Host S) where
  call_back_all-calls :
      (jobs : List RetainedBatchJob) (d : Completion) (c : Client S)
      → let c' = call_back_all host jobs d c in
        (c'.completions ≡ c.completions ++ calls jobs d)
        × (c'.jobs ≡ c.jobs)
        × (c'.closed ≡ c.closed)
        × (c'.microtasks ≡ c.microtasks)
  unfolding call_back_all call_back
  call_back_all-calls [] d c = (sym (append-nil c.completions), refl, refl, refl)
  call_back_all-calls (job ∷ jobs) d c =
      let h = call_back_all-calls jobs d (call_back host job d c) in
      (h.0 ∙ append_assoc c.completions ((job.id, d) ∷ []) (calls jobs d), h.1, h.2, h.3)

  fail_unexpectedly-calls :
      (cause : Exception) (c : Client S)
      → c.closed ≡ false
      → let c' = fail_unexpectedly host cause c in
        (c'.completions ≡ c.completions ++ calls c.jobs (terminated cause))
        × (c'.jobs ≡ [])
        × (c'.closed ≡ true)
        × (c'.microtasks ≡ c.microtasks)
  unfolding fail_unexpectedly reset_worker release_reservation
  fail_unexpectedly-calls cause c open_still =
      if-cases
        (λ (c' : Client S).
          (c'.completions ≡ c.completions ++ calls c.jobs (terminated cause))
          × (c'.jobs ≡ [])
          × (c'.closed ≡ true)
          × (c'.microtasks ≡ c.microtasks))
        c.closed _ _ (λ shut. absurd (ground arith)) (λ _. call_back_all-calls c.jobs _ _)

  recover_undispatched-waits :
      (cause : Exception) (c : Client S)
      → c.closed ≡ false
      → let c' = recover_undispatched host cause c in
        (c'.completions ≡ c.completions)
        × (c'.jobs ≡ [])
        × (c'.closed ≡ false)
        × ((e : Exception) × (c'.microtasks ≡ c.microtasks ++ (c.jobs, e) ∷ []))
  unfolding recover_undispatched reset_worker release_reservation
  recover_undispatched-waits cause c open_still =
      if-cases
        (λ (c' : Client S).
          (c'.completions ≡ c.completions)
          × (c'.jobs ≡ [])
          × (c'.closed ≡ false)
          × ((e : Exception) × (c'.microtasks ≡ c.microtasks ++ (c.jobs, e) ∷ [])))
        c.closed _ _ (λ shut. absurd (ground arith)) (λ _. (refl, refl, open_still, (_, refl)))

  -- An open client whose worker breaks or sends something unexpected gives up every job. If a job
  -- had been posted to the worker, the client is closed and every job is called back at once, in
  -- order, with the failure; if none had been, the client stays open, nobody is called back yet, and
  -- one microtask is queued that will fail exactly these jobs.
  pub fail_protocol_outcome :
      (cause : Exception) (c : Client S)
      → c.closed ≡ false
      → let c' = fail_protocol host cause c in
        ((is_some c.dispatched ≡ true)
          × (c'.completions ≡ c.completions ++ calls c.jobs (terminated cause))
          × (c'.jobs ≡ [])
          × (c'.closed ≡ true)
          × (c'.microtasks ≡ c.microtasks))
        ⊎ ((is_some c.dispatched ≡ false)
            × (c'.completions ≡ c.completions)
            × (c'.jobs ≡ [])
            × (c'.closed ≡ false)
            × ((e : Exception) × (c'.microtasks ≡ c.microtasks ++ (c.jobs, e) ∷ [])))
  unfolding fail_protocol
  fail_protocol_outcome cause c open_still =
      if-cases
        (λ (c' : Client S).
          ((is_some c.dispatched ≡ true)
            × (c'.completions ≡ c.completions ++ calls c.jobs (terminated cause))
            × (c'.jobs ≡ [])
            × (c'.closed ≡ true)
            × (c'.microtasks ≡ c.microtasks))
          ⊎ ((is_some c.dispatched ≡ false)
              × (c'.completions ≡ c.completions)
              × (c'.jobs ≡ [])
              × (c'.closed ≡ false)
              × ((e : Exception) × (c'.microtasks ≡ c.microtasks ++ (c.jobs, e) ∷ []))))
        (is_some c.dispatched) _ _
        (λ sent.
          let h = fail_unexpectedly-calls cause c open_still in inl (sent, h.0, h.1, h.2, h.3))
        (λ unsent.
          let h = recover_undispatched-waits cause c open_still in inr (unsent, h.0, h.1, h.2, h.3))
