-- ===== src/State/Order/Close.antt =====
-- `closeSharedEnvironmentIfUnused` (internal/native_state.ts): an environment that is not in use is
-- closed, and once.
use lmdb_deno.Prelude.{
  ℕ, ◌≡◌, refl, ap, ◌∙◌, Bool, true, false, not, ◌||◌, Option, none, some, List, [], ◌∷◌, ◌++◌,
  Result, ok, err, append_assoc, if-cases, subst, arith,
}
use lmdb_deno.State.World.{
  SharedBatchClient, NativeCall, cursor_close, env_close, dbi_close, invalidate_current, World,
  proceed, run, call,
}
use lmdb_deno.State.Access.{is_poisoned, handle_of}
use lmdb_deno.State.Records.{invalidate_dbi_bindings}
use lmdb_deno.State.Closing.{
  close_cursors, close_transactions, invalidate_shared_environment_children,
  unregister_shared_environment, close_native_cursors, close_client, close_shared_batch_client,
  is_busy, retire, close_shared_environment, is_retired, is_in_use,
  close_shared_environment_if_unused,
}
use lmdb_deno.State.Quiet.{AllCalls, AllCalls-append}
use lmdb_deno.State.Quiet.Records.{invalidate_dbi_bindings-Quiet}
use lmdb_deno.State.Quiet.Closing.{close_cursors-Quiet, close_native_cursors-Quiet}
use lmdb_deno.State.Order.Retire.{retire-IsRetired}
use lmdb_deno.State.Order.{Calm, Calm-trans, Quiet-Calm, still-Calm, close_transaction_binding-Calm}

-- What may be called before an environment is closed.
abbrev pub is_child : NativeCall → Bool
is_child (cursor_close h) = true
is_child (dbi_close e h) = true
is_child (invalidate_current c f) = true
is_child _ = false

close_transactions-Calm : (ts : List ℕ) (w : World) → Calm is_child w (close_transactions ts w)
unfolding close_transactions AllCalls
close_transactions-Calm [] w = still-Calm refl refl refl refl
close_transactions-Calm (t ∷ ts) w =
    Calm-trans (close_transaction_binding-Calm (λ c f. refl) (λ e h. refl) t w)
      (close_transactions-Calm ts _)

pub children-Calm :
    (s : ℕ) (w : World) → Calm is_child w (invalidate_shared_environment_children s w).1
unfolding invalidate_shared_environment_children
children-Calm s w =
    let w₁ = (close_cursors (w.shared s).cursors w).1 in
    let w₂ = invalidate_dbi_bindings (w₁.shared s).dbis w₁ in
    Calm-trans (Quiet-Calm (close_cursors-Quiet (λ c f. refl) (λ e h. refl) (w.shared s).cursors w))
      (Calm-trans (Quiet-Calm (invalidate_dbi_bindings-Quiet (λ c f. refl) (w₁.shared s).dbis w₁)) (
        Calm-trans (close_transactions-Calm (w₂.shared s).transactions w₂)
          (still-Calm refl refl refl refl)))

-- The environment after `closeSharedEnvironmentIfUnused` closed it.
pub record IsClosed (s : ℕ) (w w' : World) : Type 0 where
  pub before : List NativeCall
  pub in_order : w'.calls ≡ w.calls ++ before ++ env_close (handle_of s w) ∷ []
  pub children : AllCalls is_child before
  pub retired : is_retired s w' ≡ true
  pub no_writer : (w'.shared s).active_writer ≡ none
  pub no_transactions : (w'.shared s).transactions ≡ []

close_native_cursors-shared :
    (hs : List ℕ) (w : World) → (close_native_cursors hs w).shared ≡ w.shared
unfolding close_native_cursors
close_native_cursors-shared [] w = refl
close_native_cursors-shared (h ∷ hs) w = close_native_cursors-shared hs _

unregister-still :
    (s : ℕ) (w : World)
    → ((unregister_shared_environment s w).shared ≡ w.shared)
      × ((unregister_shared_environment s w).calls ≡ w.calls)
      × ((unregister_shared_environment s w).registry ≡ w.registry)
unfolding unregister_shared_environment
unregister-still s w = (ground arith, ground arith, ground arith)

children-empty :
    (s : ℕ) (w : World)
    → (((invalidate_shared_environment_children s w).1.shared s).active_writer ≡ none)
      × (((invalidate_shared_environment_children s w).1.shared s).transactions ≡ [])
unfolding invalidate_shared_environment_children
children-empty s w = (ground arith, ground arith)

close_native_cursors-Calm : (hs : List ℕ) (w : World) → Calm is_child w (close_native_cursors hs w)
close_native_cursors-Calm hs w = Quiet-Calm (close_native_cursors-Quiet (λ h. refl) hs w)

pub close_shared_environment-IsClosed :
    (s : ℕ) (w : World) → is_poisoned s w ≡ false → IsClosed s w (close_shared_environment s w)
unfolding close_shared_environment
close_shared_environment-IsClosed s w usable =
    let w₁ = retire s w in
    let gone = retire-IsRetired s (w.registry.states s) w refl in
    let ended = children-Calm s w₁ in
    let w₂ = (invalidate_shared_environment_children s w₁).1 in
    let handles = (invalidate_shared_environment_children s w₁).0 in
    let w₃ = unregister_shared_environment s w₂ in
    let w₄ = close_native_cursors handles w₃ in
    let left = unregister-still s w₂ in
    let closed = close_native_cursors-Calm handles w₃ in
    let same : w₄.registry ≡ w₁.registry = closed.same_registry ∙ left.2 ∙ ended.same_registry in
    let whole : close_shared_environment s w ≡ call (env_close (handle_of s w₂)) w₄ =
      rw
        (ap (λ r. is_poisoned s (record w₁ { registry = r })) ended.same_registry
          ∙ gone.same_poison
          ∙ usable)
        refl in
    let handle : handle_of s w₂ ≡ handle_of s w =
      ap (λ r. handle_of s (record w₁ { registry = r })) ended.same_registry ∙ gone.same_handle in
    let grown : w₄.calls ≡ w.calls ++ (ended.new_calls ++ closed.new_calls) =
      closed.calls_grow
      ∙ ap (λ l. l ++ closed.new_calls)
          (left.1 ∙ ended.calls_grow ∙ ap (λ l. l ++ ended.new_calls) gone.same_calls)
      ∙ append_assoc w.calls ended.new_calls closed.new_calls in
    let shared = close_native_cursors-shared handles w₃ ∙ left.0 in
    let empty = children-empty s w₁ in
    let result : IsClosed s w (call (env_close (handle_of s w₂)) w₄) = record {
      before = ended.new_calls ++ closed.new_calls;
      in_order =
          ap (λ l. l ++ env_close (handle_of s w₂) ∷ []) grown
          ∙ ap (λ h. w.calls ++ (ended.new_calls ++ closed.new_calls) ++ env_close h ∷ []) handle;
      children =
          AllCalls-append is_child ended.new_calls closed.new_calls ended.calls_allowed
            closed.calls_allowed;
      retired = ap (λ r. is_retired s (record w₁ { registry = r })) same ∙ gone.retired;
      no_writer = ap (λ f. (f s).active_writer) shared ∙ empty.0;
      no_transactions = ap (λ f. (f s).transactions) shared ∙ empty.1;
    } in
    rw whole result

-- A client that is idle.
abbrev pub is_idle : Option SharedBatchClient → Bool
is_idle none = true
is_idle (some c) = not (is_busy c)

pub close_client-still :
    (c : Option SharedBatchClient) (s : ℕ) (w : World)
    → is_idle c ≡ true
    → ((close_client c s w).0 ≡ ok tt)
      × ((close_client c s w).1.registry ≡ w.registry)
      × ((close_client c s w).1.calls ≡ w.calls)
close_client-still none s w idle = (refl, refl, refl)
close_client-still (some c) s w idle = (ground arith, ground arith, ground arith)

-- What follows the batch client's `close()`, if that did not throw.
and_close :
    (s : ℕ) (x : Result (Unit {0}) × World)
    → x.0 ≡ ok tt
    → proceed x (λ _. run (close_shared_environment s)) ≡ (ok tt, close_shared_environment s (x.1))
and_close s (ok _, w) e = refl
and_close s (err x, w) e = absurd (ground arith)

-- A shared environment that is not in use, not poisoned and whose batch client is idle is closed
-- and retired: `env_close` is the last of the native calls, after none but those that close its
-- cursors and databases, and neither a writer nor a transaction is left.
pub close_shared_environment_if_unused_closes :
    (s : ℕ) (w : World)
    → is_retired s w ≡ false
    → is_in_use s w ≡ false
    → is_poisoned s w ≡ false
    → is_idle (w.shared s).batch_client ≡ true
    → (w' : World) × (close_shared_environment_if_unused s w ≡ (ok tt, w')) × IsClosed s w w'
unfolding close_shared_environment_if_unused close_shared_batch_client
close_shared_environment_if_unused_closes s w live unused usable idle =
    let w₁ = (close_client (w.shared s).batch_client s w).1 in
    let still = close_client-still (w.shared s).batch_client s w idle in
    let same : w₁.registry ≡ w.registry = still.1 in
    let closed =
      close_shared_environment-IsClosed s w₁
        (ap (λ r. is_poisoned s (record w { registry = r })) same ∙ usable) in
    (
      close_shared_environment s w₁,
      rw (live, unused) (and_close s (close_client (w.shared s).batch_client s w) (still.0)),
      record {
        before = closed.before;
        in_order =
            closed.in_order
            ∙ ap (λ l. l ++ closed.before ++ env_close (handle_of s w₁) ∷ []) (still.2)
            ∙ ap
                (λ r.
                  w.calls
                  ++ closed.before
                  ++ env_close (handle_of s (record w { registry = r })) ∷ [])
                same;
        children = closed.children;
        retired = closed.retired;
        no_writer = closed.no_writer;
        no_transactions = closed.no_transactions;
      },
    )

close_shared_environment-retired :
    (s : ℕ) (w : World) → is_retired s (close_shared_environment s w) ≡ true
unfolding close_shared_environment
close_shared_environment-retired s w =
    let w₁ = retire s w in
    let gone = retire-IsRetired s (w.registry.states s) w refl in
    let ended = children-Calm s w₁ in
    let w₂ = (invalidate_shared_environment_children s w₁).1 in
    let handles = (invalidate_shared_environment_children s w₁).0 in
    let closed = close_native_cursors-Calm handles (unregister_shared_environment s w₂) in
    let after = λ (v : World) (e : v.registry ≡ w₁.registry).
      ap (λ r. is_retired s (record w₁ { registry = r })) e ∙ gone.retired in
    if-cases (λ (v : World). is_retired s v ≡ true) (is_poisoned s w₂) w₂ _
      (λ _. after w₂ ended.same_registry)
      (λ _.
        after (close_native_cursors handles (unregister_shared_environment s w₂))
          (closed.same_registry ∙ (unregister-still s w₂).2 ∙ ended.same_registry))

closed-retired :
    (s : ℕ) (x : Result (Unit {0}) × World)
    → (proceed x (λ _. run (close_shared_environment s))).0 ≡ ok tt
    → is_retired s (proceed x (λ _. run (close_shared_environment s))).1 ≡ true
closed-retired s (ok _, w) e = close_shared_environment-retired s w
closed-retired s (err x, w) e = absurd (ground arith)

-- Asking again to close a shared environment, after a call that did not throw, changes nothing: no
-- native handle is closed twice.
pub close_shared_environment_if_unused_once :
    (s : ℕ) (w w' : World)
    → close_shared_environment_if_unused s w ≡ (ok tt, w')
    → close_shared_environment_if_unused s w' ≡ (ok tt, w')
unfolding close_shared_environment_if_unused close_shared_batch_client
close_shared_environment_if_unused_once s w w' e =
    elim (is_retired s w || is_in_use s w)
        as (λ b.
          (is_retired s w || is_in_use s w) ≡ b
          → close_shared_environment_if_unused s w' ≡ (ok tt, w')) [
            | true ↦ λ used.
                let same : w ≡ w' = ap (λ p. p.1) (rw used at e) in
                subst (λ v. close_shared_environment_if_unused s v ≡ (ok tt, v)) same (rw used refl)
            | false ↦ λ unused.
                let closing : proceed (close_client (w.shared s).batch_client s w)
                      (λ _. run (close_shared_environment s))
                    ≡ (ok tt, w') =
                  rw unused at e in
                let retired : is_retired s w' ≡ true =
                  subst (λ v. is_retired s v ≡ true) (ap (λ p. p.1) closing)
                    (closed-retired s (close_client (w.shared s).batch_client s w)
                      (ap (λ p. p.0) closing)) in
                rw retired refl
          ]
      refl
