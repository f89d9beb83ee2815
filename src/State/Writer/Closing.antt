-- ===== src/State/Writer/Closing.antt =====
-- The end of a shared environment (State/Closing), seen from its writer.
use lmdb_deno.Prelude.{
  ℕ, has, subst, Bool-cases, ◌≡◌, ◌⊎◌, inl, inr, refl, ap, ◌∙◌, sym, true, ◌||◌, Option, none, some,
  List, [], ◌∷◌, Result, ok, err, ◌==◌, if-cases, arith,
}
use lmdb_deno.Batch.Protocol.Registry.{SharedState}
use lmdb_deno.State.World.{
  TransactionBinding, SharedEnvironment, WriterOwner, SharedBatchClient, World, proceed, run,
  set_shared,
}
use lmdb_deno.State.Access.{is_poisoned}
use lmdb_deno.State.Records.{invalidate_dbi_bindings, find_record, is_entry, delete_key}
use lmdb_deno.State.Transactions.{close_transaction_binding}
use lmdb_deno.State.Closing.{
  close_cursors, close_transactions, invalidate_shared_environment_children,
  unregister_shared_environment, close_client, close_shared_batch_client, is_busy, with_state,
  retire, retire_known, close_shared_environment, is_retired, is_in_use,
  close_shared_environment_if_unused, SharedEnvironmentOperation, end_shared_environment_operation,
  InternalWriterReservation, holds_token, release_internal_writer,
}
use lmdb_deno.State.Quiet.{Quiet-trans, call-Quiet}
use lmdb_deno.State.Quiet.Records.{invalidate_dbi_bindings-Quiet}
use lmdb_deno.State.Quiet.Closing.{close_cursors-Quiet, close_native_cursors-Quiet}
use lmdb_deno.State.Writer.{
  listed, Members, Leaves, Leaves-state, writer, Ends, Ends-refl, Ends-trans, Quiet-Ends,
}
use lmdb_deno.State.Writer.Ending.{
  anything, close_transaction_binding-Ends, close_transaction_binding-state,
}

-- Neither transactions nor shared environments change.
pub same-Ends : {w w' : World} → w'.transactions ≡ w.transactions → w'.shared ≡ w.shared → Ends w w'
same-Ends {w} transactions shared = record {
  leaves = λ t. ground (arith, ap (λ f. f t) transactions);
  frees = λ s. inl (ap (λ f. writer s (record w { shared = f })) shared);
  keeps = λ s t e there. ap (λ f. writer s (record w { shared = f })) shared ∙ e;
  lists = λ s t e there. ap (λ f. listed s t (record w { shared = f })) shared ∙ e;
}

-- A shared environment gets other values, and its writer stays or is not a transaction.
pub set_shared-Ends :
    (s : ℕ) (e : SharedEnvironment) (w : World)
    → (e.active_writer ≡ writer s w) ⊎ (e.active_writer ≡ none)
    → ((t : ℕ) → writer s w ≡ some (WriterOwner.transaction t) → e.active_writer ≡ writer s w)
    → ((t : ℕ)
        → listed s t w ≡ true
        → (w.transactions t).state ≡ some s
        → has t e.transactions ≡ true)
    → Ends w (set_shared s e w)
set_shared-Ends s e w frees keeps lists = record {
  leaves = λ t. inr (refl, refl);
  frees = λ j. ground (arith, frees);
  keeps = λ j t owns there.
      if-cases (λ (v : SharedEnvironment). v.active_writer ≡ some (WriterOwner.transaction t))
        (j == s) e (w.shared j) (λ same. ground (arith, keeps t)) (λ _. owns);
  lists = λ j t owns there.
      if-cases (λ (v : SharedEnvironment). has t v.transactions ≡ true) (j == s) e (w.shared j)
        (λ same. ground (arith, lists t)) (λ _. owns);
}

close_transactions-Ends : (ts : List ℕ) (w : World) → Ends w (close_transactions ts w)
unfolding close_transactions
close_transactions-Ends [] w = Ends-refl w
close_transactions-Ends (t ∷ ts) w =
    Ends-trans (close_transaction_binding-Ends t w) (close_transactions-Ends ts _)

Leaves-none : (t t' : TransactionBinding) → Leaves t t' → t.state ≡ none → t'.state ≡ none
Leaves-none t t' h e = ground arith

close_transactions-state :
    (ts : List ℕ) (t : ℕ) (w : World)
    → has t ts ≡ true
    → ((close_transactions ts w).transactions t).state ≡ none
unfolding close_transactions
close_transactions-state [] t w h = absurd (ground arith)
close_transactions-state (m ∷ ts) t w h = elim (Bool-cases (t == m)) [
  | inl same ↦
      let one : t ≡ m = ground arith in
      Leaves-none ((close_transaction_binding m w).transactions t)
        ((close_transactions ts (close_transaction_binding m w)).transactions t)
        ((close_transactions-Ends ts (close_transaction_binding m w)).leaves t)
        (subst (λ n. ((close_transaction_binding m w).transactions n).state ≡ none) (sym one)
          (close_transaction_binding-state m w))
  | inr differ ↦ close_transactions-state ts t (close_transaction_binding m w) (ground arith)
]

-- A shared environment has no writer any more, and none of its transactions belongs to it still.
emptied-Ends :
    (s : ℕ) (e : SharedEnvironment) (w v : World)
    → Ends w v
    → e.active_writer ≡ none
    → ((t : ℕ) → listed s t w ≡ true → (v.transactions t).state ≡ some s → ⊥)
    → ((t : ℕ)
        → writer s w ≡ some (WriterOwner.transaction t)
        → (w.transactions t).state ≡ some s
        → listed s t w ≡ true)
    → Ends w (set_shared s e v)
emptied-Ends s e w v h free gone owned = record {
  leaves = h.leaves;
  frees = λ j. ground (arith, h.frees j, free);
  keeps = λ j t owns there.
      if-cases (λ (u : SharedEnvironment). u.active_writer ≡ some (WriterOwner.transaction t))
        (j == s) e (v.shared j)
        (λ same.
          let one : j ≡ s = ground arith in
          let here : (v.transactions t).state ≡ some s = there ∙ ap some one in
          absurd (
            gone t
              (owned t (subst (λ i. writer i w ≡ some (WriterOwner.transaction t)) one owns)
                (Leaves-state s (w.transactions t) (v.transactions t) (h.leaves t) here))
              here))
        (λ _. h.keeps j t owns there);
  lists = λ j t owns there.
      if-cases (λ (u : SharedEnvironment). has t u.transactions ≡ true) (j == s) e (v.shared j)
        (λ same.
          let one : j ≡ s = ground arith in
          absurd (gone t (subst (λ i. listed i t w ≡ true) one owns) (there ∙ ap some one)))
        (λ _. h.lists j t owns there);
}

-- The cursors and the databases of an environment, before its transactions are closed.
children-quiet :
    (s : ℕ) (w : World)
    → let w₁ = (close_cursors (w.shared s).cursors w).1 in
      Ends w (invalidate_dbi_bindings (w₁.shared s).dbis w₁)
children-quiet s w =
    let w₁ = (close_cursors (w.shared s).cursors w).1 in
    Quiet-Ends (
      Quiet-trans
        (close_cursors-Quiet {may = anything} (λ c f. refl) (λ e h. refl) (w.shared s).cursors w)
        (invalidate_dbi_bindings-Quiet {may = anything} (λ c f. refl) (w₁.shared s).dbis w₁))

-- No writer is forgotten if it is in the set of the environment.
children_of-Ends :
    (s : ℕ) (w : World)
    → ((t : ℕ)
        → writer s w ≡ some (WriterOwner.transaction t)
        → (w.transactions t).state ≡ some s
        → listed s t w ≡ true)
    → Ends w (invalidate_shared_environment_children s w).1
unfolding invalidate_shared_environment_children
children_of-Ends s w owned =
    let w₁ = (close_cursors (w.shared s).cursors w).1 in
    let w₂ = invalidate_dbi_bindings (w₁.shared s).dbis w₁ in
    let ts = (w₂.shared s).transactions in
    let quiet : Ends w w₂ = Quiet-Ends (
      Quiet-trans
        (close_cursors-Quiet {may = anything} (λ c f. refl) (λ e h. refl) (w.shared s).cursors w)
        (invalidate_dbi_bindings-Quiet {may = anything} (λ c f. refl) (w₁.shared s).dbis w₁)) in
    let closed : Ends w₂ (close_transactions ts w₂) = close_transactions-Ends ts w₂ in
    emptied-Ends s _ w (close_transactions ts w₂) (Ends-trans quiet closed) refl
      (λ t here there.
        let before =
          Leaves-state s (w₂.transactions t) ((close_transactions ts w₂).transactions t)
            (closed.leaves t) there in
        let none_left = close_transactions-state ts t w₂ (quiet.lists s t here before) in
        absurd (none-some (sym none_left ∙ there)))
      owned
  where
    none-some : {s : ℕ} → none ≡ some s → ⊥
    none-some e = ground arith

-- A writer stays or is forgotten.
pub children-frees :
    (s : ℕ) (w : World) (j : ℕ)
    → (writer j (invalidate_shared_environment_children s w).1 ≡ writer j w)
      ⊎ (writer j (invalidate_shared_environment_children s w).1 ≡ none)
unfolding invalidate_shared_environment_children
children-frees s w j =
    let w₁ = (close_cursors (w.shared s).cursors w).1 in
    let w₂ = invalidate_dbi_bindings (w₁.shared s).dbis w₁ in
    let closed : Ends w (close_transactions (w₂.shared s).transactions w₂) =
      Ends-trans (children-quiet s w) (close_transactions-Ends (w₂.shared s).transactions w₂) in
    ground (arith, closed.frees j)

children-Ends :
    (s : ℕ) (w : World) → writer s w ≡ none → Ends w (invalidate_shared_environment_children s w).1
children-Ends s w free = children_of-Ends s w (λ t owns there. absurd (ground arith))

pub children-Members :
    (s : ℕ) (w : World) → Members w → Ends w (invalidate_shared_environment_children s w).1
unfolding Members
children-Members s w members = children_of-Ends s w (λ t owns there. members t s there)

pub retire-Ends :
    (s : ℕ) (state : Option SharedState) (w : World) → Ends w (with_state (retire_known s) state w)
retire-Ends s none w = Ends-refl w
retire-Ends s (some state) w = same-Ends refl refl

retire-writer :
    (s : ℕ) (state : Option SharedState) (w : World)
    → writer s (with_state (retire_known s) state w) ≡ writer s w
retire-writer s none w = refl
retire-writer s (some state) w = refl

pub unregister-Ends : (s : ℕ) (w : World) → Ends w (unregister_shared_environment s w)
unfolding unregister_shared_environment
unregister-Ends s w =
    if-cases (Ends w) (is_entry (find_record (w.shared s).canonical_path w.environment_registry) s)
      (record w {
        environment_registry = delete_key (w.shared s).canonical_path w.environment_registry;
      })
      w (λ _. same-Ends refl refl) (λ _. Ends-refl w)

pub close_shared_environment-Ends :
    (s : ℕ) (w : World) → writer s w ≡ none → Ends w (close_shared_environment s w)
unfolding close_shared_environment
close_shared_environment-Ends s w free =
    let w₁ = retire s w in
    let w₂ = (invalidate_shared_environment_children s w₁).1 in
    let handles = (invalidate_shared_environment_children s w₁).0 in
    let ended : Ends w w₂ =
      Ends-trans (retire-Ends s (w.registry.states s) w)
        (children-Ends s w₁ (retire-writer s (w.registry.states s) w ∙ free)) in
    if-cases (Ends w) (is_poisoned s w₂) w₂ _ (λ _. ended)
      (λ _. Ends-trans ended (
        Ends-trans (unregister-Ends s w₂) (
          Quiet-Ends (
            Quiet-trans (close_native_cursors-Quiet {may = anything} (λ h. refl) handles _)
              (call-Quiet _ _ refl)))))

pub close_client-Ends :
    (c : Option SharedBatchClient) (s : ℕ) (w : World) → Ends w (close_client c s w).1
close_client-Ends none s w = Ends-refl w
close_client-Ends (some c) s w =
    if-cases (λ (a : Result (Unit {0}) × World). Ends w (a.1)) (is_busy c) _ _ (λ _. Ends-refl w)
      (λ _. set_shared-Ends s _ w (inl refl) (λ t e. refl) (λ t e k. e))

close_client-writer :
    (c : Option SharedBatchClient) (s : ℕ) (w : World)
    → writer s (close_client c s w).1 ≡ writer s w
close_client-writer none s w = refl
close_client-writer (some c) s w = ground arith

-- What follows in `closeSharedEnvironmentIfUnused` if the batch client did not throw.
and_close-Ends :
    (s : ℕ) (a : Result (Unit {0}) × World)
    → writer s (a.1) ≡ none
    → Ends (a.1) (proceed a (λ _. run (close_shared_environment s))).1
and_close-Ends s (ok _, w) free = close_shared_environment-Ends s w free
and_close-Ends s (err e, w) free = Ends-refl w

pub close_if_unused-Ends : (s : ℕ) (w : World) → Ends w (close_shared_environment_if_unused s w).1
unfolding close_shared_environment_if_unused close_shared_batch_client
close_if_unused-Ends s w =
    if-cases (λ (a : Result (Unit {0}) × World). Ends w (a.1)) (is_retired s w || is_in_use s w) _ _
      (λ _. Ends-refl w)
      (λ unused.
        let free : writer s w ≡ none = ground arith in
        Ends-trans (close_client-Ends (w.shared s).batch_client s w)
          (and_close-Ends s _ (close_client-writer (w.shared s).batch_client s w ∙ free)))

pub end_operation-Ends :
    (o : SharedEnvironmentOperation) (w : World) → Ends w (end_shared_environment_operation o w).0.1
unfolding end_shared_environment_operation
end_operation-Ends o w =
    if-cases (λ (a : (Result (Unit {0}) × World) × SharedEnvironmentOperation). Ends w (a.0.1))
      o.released _ _ (λ _. Ends-refl w)
      (λ _.
        Ends-trans (set_shared-Ends o.state _ w (inl refl) (λ t e. refl) (λ t e k. e))
          (close_if_unused-Ends o.state _))

-- The writer that is released is the reservation's, and no transaction.
pub release_internal_writer-Ends :
    (r : InternalWriterReservation) (w : World) → Ends w (release_internal_writer r w).1
unfolding release_internal_writer
release_internal_writer-Ends r w =
    if-cases (λ (a : Result (Unit {0}) × World). Ends w (a.1))
      (holds_token (w.shared r.state).active_writer r.token) _ _
      (λ held.
        Ends-trans
          (set_shared-Ends r.state _ w (inr refl) (λ t e. absurd (other t e held)) (λ t e k. e))
          (close_if_unused-Ends r.state _))
      (λ _. Ends-refl w)
  where
    other :
        (t : ℕ)
        → writer r.state w ≡ some (WriterOwner.transaction t)
        → ¬ (holds_token (w.shared r.state).active_writer r.token ≡ true)
    other t e held = ground arith
