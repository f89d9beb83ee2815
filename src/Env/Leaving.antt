-- ===== src/Env/Leaving.antt =====
-- What comes before an environment is closed (`close` of env.ts).
use lmdb_deno.Prelude.{
  ℕ, ◌≡◌, refl, sym, ap, ◌∙◌, subst, Bool, true, false, Option, none, some, List, [], ◌∷◌, ◌++◌,
  append-nil, append_assoc, Result, ok, err, if-cases, if◌then◌else◌, arith,
}
use lmdb_deno.State.World.{NativeCall, env_close, txn_abort, World, Action, proceed, ◌>>◌}
use lmdb_deno.State.Access.{
  is_poisoned, handle_of, get_shared_environment, require_environment_binding,
  require_environment_state,
}
use lmdb_deno.State.Cursors.{prepare_transaction_cursors_for_end_binding}
use lmdb_deno.State.Transactions.{
  invalidate_transaction, invalidate_transactions, end_native, finish_abort, abort_with,
  abort_transaction_binding, abort_transactions, invalidate_owned_transactions,
  abort_owned_transactions,
}
use lmdb_deno.State.Closing.{close_shared_batch_client}
use lmdb_deno.State.Environments.{
  detach_environment_binding, detach_shared_environment, assert_no_shared_environment_operations,
}
use lmdb_deno.State.Quiet.{AllCalls, AllCalls-append, call-Quiet}
use lmdb_deno.State.Quiet.Records.{invalidate_pending_dbi_bindings-Quiet, close_deferred_dbis-Quiet}
use lmdb_deno.State.Quiet.Cursors.{prepare_cursors-Quiet, finish_transaction_cursors_binding-Quiet}
use lmdb_deno.State.Order.{Calm, Calm-trans, Quiet-Calm, still-Calm, close_transaction_binding-Calm}
use lmdb_deno.State.Writer.Reading.{
  Reads, reads-then, get_shared_environment-Reads, require_environment_binding-Reads,
  require_environment_state-Reads,
}
use lmdb_deno.Dbi.{when}
use lmdb_deno.Env.Opening.{close_if_single, end_owned, is_single, leave}

abbrev pub not_env_close : NativeCall → Bool
not_env_close (env_close h) = false
not_env_close _ = true

abbrev Serene : World → World → Type 0
Serene = Calm not_env_close

Calm-refl : (w : World) → Serene w w
Calm-refl w = still-Calm refl refl refl refl

finish_abort-Serene : (txn : ℕ) (w : World) → Serene w (finish_abort txn w)
finish_abort-Serene txn w =
    Calm-trans (Quiet-Calm (invalidate_pending_dbi_bindings-Quiet txn true w)) (
      Calm-trans (Quiet-Calm (close_deferred_dbis-Quiet (λ e h. refl) _ _))
        (close_transaction_binding-Calm (λ c f. refl) (λ e h. refl) txn _))

end_native-Serene : (txn handle : ℕ) (w : World) → Serene w (end_native txn handle w)
unfolding prepare_transaction_cursors_for_end_binding
end_native-Serene txn handle w =
    if-cases (Serene w) _ w _ (λ _. Calm-refl w)
      (λ _.
        Calm-trans
          (Quiet-Calm
            (prepare_cursors-Quiet (λ c f. refl) (λ h. refl) txn (w.transactions txn).cursors w))
          (Quiet-Calm (call-Quiet (txn_abort handle) _ refl)))

abort_with-Serene : (handle : Option ℕ) (txn : ℕ) (w : World) → Serene w (abort_with handle txn w)
abort_with-Serene none txn w = Calm-refl w
abort_with-Serene (some handle) txn w =
    Calm-trans (end_native-Serene txn handle w) (finish_abort-Serene txn _)

abort_transactions-Serene : (ts : List ℕ) (w : World) → Serene w (abort_transactions ts w)
unfolding abort_transactions abort_transaction_binding
abort_transactions-Serene [] w = Calm-refl w
abort_transactions-Serene (t ∷ ts) w =
    Calm-trans (abort_with-Serene (w.transactions t).handle t w) (abort_transactions-Serene ts _)

invalidate_transactions-Serene : (ts : List ℕ) (w : World) → Serene w (invalidate_transactions ts w)
unfolding invalidate_transactions invalidate_transaction
invalidate_transactions-Serene [] w = Calm-refl w
invalidate_transactions-Serene (t ∷ ts) w =
    Calm-trans (Quiet-Calm (invalidate_pending_dbi_bindings-Quiet t false w)) (
      Calm-trans
        (Quiet-Calm (finish_transaction_cursors_binding-Quiet (λ c f. refl) (λ e h. refl) t _))
        (Calm-trans (close_transaction_binding-Calm (λ c f. refl) (λ e h. refl) t _)
          (invalidate_transactions-Serene ts _)))

-- No environment is closed, and the handles of the environments stay.
pub record Keeps (w w' : World) : Type 0 where
  pub new_calls : List NativeCall
  pub calls_grow : w'.calls ≡ w.calls ++ new_calls
  pub calls_allowed : AllCalls not_env_close new_calls
  pub same_handle : (i : ℕ) → handle_of i w' ≡ handle_of i w

Calm-Keeps : {w w' : World} → Serene w w' → Keeps w w'
Calm-Keeps {w} h = record {
  new_calls = h.new_calls;
  calls_grow = h.calls_grow;
  calls_allowed = h.calls_allowed;
  same_handle = λ i. ap (λ r. handle_of i (record w { registry = r })) h.same_registry;
}

Keeps-refl : (w : World) → Keeps w w
Keeps-refl w = Calm-Keeps (Calm-refl w)

Keeps-trans : {u v w : World} → Keeps u v → Keeps v w → Keeps u w
Keeps-trans {u} h k = record {
  new_calls = h.new_calls ++ k.new_calls;
  calls_grow =
      k.calls_grow
      ∙ ap (λ cs. cs ++ k.new_calls) h.calls_grow
      ∙ append_assoc u.calls h.new_calls k.new_calls;
  calls_allowed =
      AllCalls-append not_env_close h.new_calls k.new_calls h.calls_allowed k.calls_allowed;
  same_handle = λ i. k.same_handle i ∙ h.same_handle i;
}

-- An action after another.
seq-Keeps :
    {A : Type 0} (m : Action (Unit {0})) (next : Action A) (w : World)
    → Keeps w (m w).1
    → ((v : World) → Keeps v (next v).1)
    → Keeps w ((m >> next) w).1
seq-Keeps {A} m next w first rest = split (m w) first
  where
    split : (x : Result (Unit {0}) × World) → Keeps w (x.1) → Keeps w (proceed x (λ _. next)).1
    split (ok _, v) h = Keeps-trans h (rest v)
    split (err e, v) h = h

owned-Keeps :
    (object : ℕ) (b : Bool) (w : World)
    → Keeps w
        ((if b then invalidate_owned_transactions object else abort_owned_transactions object) w).1
unfolding invalidate_owned_transactions abort_owned_transactions
owned-Keeps object true w =
    reads-then Keeps _ w (require_environment_binding object w) Keeps-refl
      (require_environment_binding-Reads object w)
      (λ b. Calm-Keeps (invalidate_transactions-Serene (w.environments b).transactions w))
owned-Keeps object false w =
    reads-then Keeps _ w (require_environment_binding object w) Keeps-refl
      (require_environment_binding-Reads object w)
      (λ b. Calm-Keeps (abort_transactions-Serene (w.environments b).transactions w))

Reads-Keeps : {A : Type 0} (m : Action A) → Reads m → (w : World) → Keeps w (m w).1
Reads-Keeps m h w = subst (λ v. Keeps w v) (sym (h w)) (Keeps-refl w)

assert_no_operations-Reads : (object : ℕ) → Reads (assert_no_shared_environment_operations object)
unfolding assert_no_shared_environment_operations get_shared_environment require_environment_binding
    require_environment_state
assert_no_operations-Reads object w = ground arith

close_client-Keeps :
    (b : Bool) (s : ℕ) (w : World) → Keeps w (when b (close_shared_batch_client s) w).1
unfolding close_shared_batch_client
close_client-Keeps b s w =
    Calm-Keeps (still-Calm (ground arith) (ground arith) (ground arith) (ground arith))

-- Only the number of references changes.
leave_state-Keeps :
    (binding : ℕ) (state : Option ℕ) (w : World)
    → ((lmdb_deno.State.Environments.leave binding state w).calls ≡ w.calls)
      × ((i : ℕ) → handle_of i (lmdb_deno.State.Environments.leave binding state w) ≡ handle_of i w)
leave_state-Keeps binding none w = (refl, λ i. refl)
leave_state-Keeps binding (some s) w = (ground arith, λ i. ground arith)

detach-Keeps : (object : ℕ) (w : World) → Keeps w (detach_shared_environment object w).1
unfolding detach_shared_environment detach_environment_binding AllCalls
detach-Keeps object w =
    reads-then Keeps _ w (require_environment_binding object w) Keeps-refl
      (require_environment_binding-Reads object w)
      (λ b.
        reads-then Keeps _ w (require_environment_state b w) Keeps-refl
          (require_environment_state-Reads b w)
          (λ s.
            let left = leave_state-Keeps b (w.environments b).state w in
            record {
              new_calls = [];
              calls_grow = left.0 ∙ sym (append-nil w.calls);
              calls_allowed = tt;
              same_handle = left.1;
            }))

pub leave-Keeps : (object : ℕ) (w : World) → Keeps w (leave object w).1
unfolding leave
leave-Keeps object w =
    reads-then Keeps _ w (get_shared_environment object w) Keeps-refl
      (get_shared_environment-Reads object w)
      (λ s.
        let closing = close_if_single s >> detach_shared_environment object in
        seq-Keeps (assert_no_shared_environment_operations object) (end_owned object s >> closing) w
          (Reads-Keeps (assert_no_shared_environment_operations object)
            (assert_no_operations-Reads object) w)
          (λ v.
            seq-Keeps (end_owned object s) closing v (owned-Keeps object (is_poisoned s v) v) (λ u.
              seq-Keeps (close_if_single s) (detach_shared_environment object) u
                (close_client-Keeps (is_single s u) s u) (detach-Keeps object))))
