-- ===== src/State/Writer/Ending.antt =====
-- How transactions end (State/Transactions), seen from the writer of their environment.
use lmdb_deno.Prelude.{
  ℕ, has, delete, ◌≡◌, ◌⊎◌, inl, refl, ap, Bool, true, false, Option, none, some, List, [], ◌∷◌,
  ◌==◌, if-cases, arith,
}
use lmdb_deno.State.World.{
  SharedEnvironment, TransactionBinding, transaction, NativeCall, txn_abort, World, set_transaction,
}
use lmdb_deno.State.Transactions.{
  leave_environment, leave_state, detach_transaction_binding, close_transaction_binding,
  abort_transaction_binding, end_native, finish_abort, abort_with, clear_txn_handle,
  register_txn_handle, invalidate_transaction, invalidate_transactions, abort_transactions,
  unregister_owned_transaction,
}
use lmdb_deno.State.Access.{is_poisoned?}
use lmdb_deno.State.Records.{invalidate_pending_dbi_bindings}
use lmdb_deno.State.Cursors.{
  finish_transaction_cursors_binding, prepare_transaction_cursors_for_end_binding,
}
use lmdb_deno.State.Quiet.{Quiet-trans, call-Quiet}
use lmdb_deno.State.Quiet.Records.{invalidate_pending_dbi_bindings-Quiet, close_deferred_dbis-Quiet}
use lmdb_deno.State.Quiet.Cursors.{finish_transaction_cursors_binding-Quiet, prepare_cursors-Quiet}
use lmdb_deno.State.Writer.{listed, writer, Leaves, Ends, Ends-refl, Ends-trans, Quiet-Ends}

-- Any native call may be made.
abbrev pub anything : NativeCall → Bool
anything c = true

left : ℕ → Option ℕ → Option ℕ → World → World
left txn environment state w = leave_state txn state (leave_environment txn environment w)

left-transactions :
    (txn : ℕ) (environment state : Option ℕ) (w : World)
    → (left txn environment state w).transactions ≡ w.transactions
unfolding left leave_state
left-transactions txn none none w = refl
left-transactions txn none (some s) w = refl
left-transactions txn (some e) none w = refl
left-transactions txn (some e) (some s) w = refl

-- The transaction is the writer no more, and any other writer stays.
left-writer :
    (txn : ℕ) (environment state : Option ℕ) (s : ℕ) (w : World)
    → (writer s (left txn environment state w) ≡ writer s w)
      ⊎ ((writer s w ≡ some (transaction txn)) × (writer s (left txn environment state w) ≡ none))
unfolding left leave_state
left-writer txn none none s w = inl refl
left-writer txn (some e) none s w = inl refl
left-writer txn none (some state) s w = ground arith
left-writer txn (some e) (some state) s w = ground arith

has-delete : (t n : ℕ) (l : List ℕ) → has n l ≡ true → (n == t) ≡ false → has n (delete t l) ≡ true
has-delete t n [] h k = h
has-delete t n (m ∷ l) h k = ground (arith, has-delete t n l)

-- Any other transaction stays in its set.
left-listed :
    (txn : ℕ) (environment state : Option ℕ) (s n : ℕ) (w : World)
    → listed s n w ≡ true
    → (n == txn) ≡ false
    → listed s n (left txn environment state w) ≡ true
unfolding left leave_state
left-listed txn none none s n w h k = h
left-listed txn (some e) none s n w h k = h
left-listed txn none (some state) s n w h k =
    if-cases (λ (v : SharedEnvironment). has n v.transactions ≡ true) (s == state) _ (w.shared s)
      (λ same. has-delete txn n (w.shared state).transactions (ground arith) k) (λ _. h)
left-listed txn (some e) (some state) s n w h k =
    if-cases (λ (v : SharedEnvironment). has n v.transactions ≡ true) (s == state) _ (w.shared s)
      (λ same. has-delete txn n (w.shared state).transactions (ground arith) k) (λ _. h)

pub detach_transaction_binding-Ends :
    (txn : ℕ) (w : World) → Ends w (detach_transaction_binding txn w)
unfolding detach_transaction_binding left
detach_transaction_binding-Ends txn w =
    let t = w.transactions txn in
    let same = left-transactions txn t.environment t.state w in
    record {
      leaves = λ j.
          if-cases (λ (u : TransactionBinding). Leaves (w.transactions j) u) (j == txn) _ _
            (λ _. inl refl) (λ _. ground (arith, ap (λ (f : ℕ → TransactionBinding). f j) same));
      frees = λ s. ground (arith, left-writer txn t.environment t.state s w);
      keeps = λ s j e there. ground (arith, left-writer txn t.environment t.state s w);
      lists = λ s j e there. left-listed txn t.environment t.state s j w e (ground arith);
    }

-- An update of the binding that leaves it in its environment.
pub set_transaction-Ends :
    (txn : ℕ) (t : TransactionBinding) (w : World)
    → t.state ≡ (w.transactions txn).state
    → t.read_only ≡ (w.transactions txn).read_only
    → Ends w (set_transaction txn t w)
set_transaction-Ends txn t w state read_only = record {
  leaves = λ j. ground (arith, state, read_only);
  frees = λ s. inl refl;
  keeps = λ s j e there. e;
  lists = λ s j e there. e;
}

pub finish-Ends : (txn : ℕ) (w : World) → Ends w (finish_transaction_cursors_binding txn w)
finish-Ends txn w =
    Quiet-Ends
      (finish_transaction_cursors_binding-Quiet {may = anything} (λ c f. refl) (λ e h. refl) txn w)

pub close_transaction_binding-Ends :
    (txn : ℕ) (w : World) → Ends w (close_transaction_binding txn w)
unfolding close_transaction_binding
close_transaction_binding-Ends txn w =
    Ends-trans (finish-Ends txn w)
      (Ends-trans (set_transaction-Ends txn _ _ refl refl) (detach_transaction_binding-Ends txn _))

-- A transaction that is closed belongs to no environment.
pub close_transaction_binding-state :
    (txn : ℕ) (w : World) → ((close_transaction_binding txn w).transactions txn).state ≡ none
unfolding close_transaction_binding detach_transaction_binding
close_transaction_binding-state txn w = ground arith

invalidate_pending-Ends :
    (txn : ℕ) (close_committed : Bool) (w : World)
    → Ends w (invalidate_pending_dbi_bindings txn close_committed w).1
invalidate_pending-Ends txn close_committed w =
    Quiet-Ends (invalidate_pending_dbi_bindings-Quiet {may = anything} txn close_committed w)

end_native-Ends : (txn handle : ℕ) (w : World) → Ends w (end_native txn handle w)
unfolding prepare_transaction_cursors_for_end_binding
end_native-Ends txn handle w =
    if-cases (Ends w) (is_poisoned? (w.transactions txn).state w) w _ (λ _. Ends-refl w)
      (λ _. Quiet-Ends (
        Quiet-trans
          (prepare_cursors-Quiet {may = anything} (λ c f. refl) (λ h. refl) txn
            (w.transactions txn).cursors w)
          (call-Quiet (txn_abort handle) _ refl)))

finish_abort-Ends : (txn : ℕ) (w : World) → Ends w (finish_abort txn w)
finish_abort-Ends txn w = Ends-trans (invalidate_pending-Ends txn true w) (
    Ends-trans (Quiet-Ends (close_deferred_dbis-Quiet {may = anything} (λ e h. refl) _ _))
      (close_transaction_binding-Ends txn _))

abort_with-Ends : (handle : Option ℕ) (txn : ℕ) (w : World) → Ends w (abort_with handle txn w)
abort_with-Ends none txn w = Ends-refl w
abort_with-Ends (some handle) txn w =
    Ends-trans (end_native-Ends txn handle w) (finish_abort-Ends txn _)

pub abort_transaction_binding-Ends :
    (txn : ℕ) (w : World) → Ends w (abort_transaction_binding txn w)
unfolding abort_transaction_binding
abort_transaction_binding-Ends txn w = abort_with-Ends (w.transactions txn).handle txn w

invalidate_transaction-Ends : (txn : ℕ) (w : World) → Ends w (invalidate_transaction txn w)
unfolding invalidate_transaction
invalidate_transaction-Ends txn w =
    Ends-trans (invalidate_pending-Ends txn false w)
      (Ends-trans (finish-Ends txn _) (close_transaction_binding-Ends txn _))

pub abort_transactions-Ends : (ts : List ℕ) (w : World) → Ends w (abort_transactions ts w)
unfolding abort_transactions
abort_transactions-Ends [] w = Ends-refl w
abort_transactions-Ends (t ∷ ts) w =
    Ends-trans (abort_transaction_binding-Ends t w) (abort_transactions-Ends ts _)

pub invalidate_transactions-Ends : (ts : List ℕ) (w : World) → Ends w (invalidate_transactions ts w)
unfolding invalidate_transactions
invalidate_transactions-Ends [] w = Ends-refl w
invalidate_transactions-Ends (t ∷ ts) w =
    Ends-trans (invalidate_transaction-Ends t w) (invalidate_transactions-Ends ts _)

-- What is done to the binding of an owner, if it has one.
pub of_owner-Ends :
    (change : ℕ → World → World)
    → ((t : ℕ) (w : World) → Ends w (change t w))
    → (binding : Option ℕ) (w : World)
    → Ends w (elim binding as (λ _. World) [ none ↦ w | some t ↦ change t w ])
of_owner-Ends change ends none w = Ends-refl w
of_owner-Ends change ends (some t) w = ends t w

pub clear_txn_handle-Ends : (owner : ℕ) (w : World) → Ends w (clear_txn_handle owner w)
unfolding clear_txn_handle
clear_txn_handle-Ends owner w =
    of_owner-Ends close_transaction_binding close_transaction_binding-Ends (w.txn_bindings owner) w

pub unregister_owned_transaction-Ends :
    (owner : ℕ) (w : World) → Ends w (unregister_owned_transaction owner w)
unfolding unregister_owned_transaction
unregister_owned_transaction-Ends owner w =
    of_owner-Ends detach_transaction_binding detach_transaction_binding-Ends (w.txn_bindings owner)
      w

-- A new transaction belongs to no environment yet.
pub register_txn_handle-Ends :
    (owner handle : ℕ) (w : World) → Ends w (register_txn_handle owner handle w)
unfolding register_txn_handle
register_txn_handle-Ends owner handle w = record {
  leaves = λ j. ground arith;
  frees = λ s. inl refl;
  keeps = λ s j e there. e;
  lists = λ s j e there. e;
}
