-- ===== src/State/Quiet.antt =====
-- What an operation on cursors and databases leaves alone, and the native calls that it makes.
use lmdb_deno.Prelude.{
  ℕ, ◌≡◌, refl, ap, ◌∙◌, sym, Bool, true, false, Option, none, some, List, [], ◌∷◌, ◌++◌, ◌==◌,
  append-nil, append_assoc, if◌then◌else◌, if-cases, arith,
}
use lmdb_deno.Batch.Protocol.Registry.{Registry}
use lmdb_deno.State.World.{
  EnvironmentBinding, TransactionBinding, TransactionPhase, SharedDbiRecord, DbiBinding,
  CursorBinding, SharedEnvironment, WriterOwner, NativeCall, World, at, set_shared, set_transaction,
  set_record, set_dbi, set_cursor, call,
}
pub mod Records
pub mod Cursors
pub mod Closing

module _ {A B : Type 0} where
  pub at-same :
      (p : A → B) (i : ℕ) (v : A) (f : ℕ → A) → p v ≡ p (f i) → (j : ℕ) → p (at i v f j) ≡ p (f j)
  at-same p i v f e j =
      if-cases (λ (a : A). p a ≡ p (f j)) (j == i) v (f j)
        (λ same. e ∙ ap (λ n. p (f n)) (ground arith)) (λ _. refl)

-- Every call of a list passes a test.
unfoldable pub AllCalls : (NativeCall → Bool) → List NativeCall → Type 0
AllCalls may [] = Unit {0}
AllCalls may (c ∷ cs) = (may c ≡ true) × AllCalls may cs

pub AllCalls-append :
    (may : NativeCall → Bool) (cs ds : List NativeCall)
    → AllCalls may cs
    → AllCalls may ds
    → AllCalls may (cs ++ ds)
unfolding AllCalls
AllCalls-append may [] ds h k = k
AllCalls-append may (c ∷ cs) ds h k = (h.0, AllCalls-append may cs ds (h.1) k)

-- A transaction, less the sets of its cursors and its databases.
pub record Core : Type 0 where
  pub handle : Option ℕ
  pub state : Option ℕ
  pub environment : Option ℕ
  pub read_only : Option Bool
  pub phase : TransactionPhase

abbrev pub core : TransactionBinding → Core
core t = record {
  handle = t.handle;
  state = t.state;
  environment = t.environment;
  read_only = t.read_only;
  phase = t.phase;
}

pub record Quiet (may : NativeCall → Bool) (w w' : World) : Type 0 where
  pub same_registry : w'.registry ≡ w.registry
  pub same_paths : w'.environment_registry ≡ w.environment_registry
  pub same_environments : w'.environments ≡ w.environments
  pub same_owners : w'.txn_bindings ≡ w.txn_bindings
  pub same_core : (t : ℕ) → core (w'.transactions t) ≡ core (w.transactions t)
  pub same_writer : (s : ℕ) → (w'.shared s).active_writer ≡ (w.shared s).active_writer
  pub same_members : (s : ℕ) → (w'.shared s).transactions ≡ (w.shared s).transactions
  pub new_calls : List NativeCall
  pub calls_grow : w'.calls ≡ w.calls ++ new_calls
  pub calls_allowed : AllCalls may new_calls

module _ {may : NativeCall → Bool} where
  pub Quiet-refl : (w : World) → Quiet may w w
  unfolding AllCalls
  Quiet-refl w = record {
    same_registry = refl;
    same_paths = refl;
    same_environments = refl;
    same_owners = refl;
    same_core = λ t. refl;
    same_writer = λ s. refl;
    same_members = λ s. refl;
    new_calls = [];
    calls_grow = sym (append-nil w.calls);
    calls_allowed = tt;
  }

  pub Quiet-trans : {u v w : World} → Quiet may u v → Quiet may v w → Quiet may u w
  Quiet-trans {u} h k = record {
    same_registry = k.same_registry ∙ h.same_registry;
    same_paths = k.same_paths ∙ h.same_paths;
    same_environments = k.same_environments ∙ h.same_environments;
    same_owners = k.same_owners ∙ h.same_owners;
    same_core = λ t. k.same_core t ∙ h.same_core t;
    same_writer = λ s. k.same_writer s ∙ h.same_writer s;
    same_members = λ s. k.same_members s ∙ h.same_members s;
    new_calls = h.new_calls ++ k.new_calls;
    calls_grow =
        k.calls_grow
        ∙ ap (λ cs. cs ++ k.new_calls) h.calls_grow
        ∙ append_assoc u.calls h.new_calls k.new_calls;
    calls_allowed = AllCalls-append may h.new_calls k.new_calls h.calls_allowed k.calls_allowed;
  }

  -- No call is made.
  silent :
      {w w' : World}
      → w'.registry ≡ w.registry
      → w'.environment_registry ≡ w.environment_registry
      → w'.environments ≡ w.environments
      → w'.txn_bindings ≡ w.txn_bindings
      → w'.calls ≡ w.calls
      → ((t : ℕ) → core (w'.transactions t) ≡ core (w.transactions t))
      → ((s : ℕ) → (w'.shared s).active_writer ≡ (w.shared s).active_writer)
      → ((s : ℕ) → (w'.shared s).transactions ≡ (w.shared s).transactions)
      → Quiet may w w'
  unfolding AllCalls
  silent {w} registry paths environments owners calls cores writers members = record {
    same_registry = registry;
    same_paths = paths;
    same_environments = environments;
    same_owners = owners;
    same_core = cores;
    same_writer = writers;
    same_members = members;
    new_calls = [];
    calls_grow = calls ∙ sym (append-nil w.calls);
    calls_allowed = tt;
  }

  pub set_dbi-Quiet : (i : ℕ) (d : DbiBinding) (w : World) → Quiet may w (set_dbi i d w)
  set_dbi-Quiet i d w = silent refl refl refl refl refl (λ t. refl) (λ s. refl) (λ s. refl)

  pub set_record-Quiet : (i : ℕ) (r : SharedDbiRecord) (w : World) → Quiet may w (set_record i r w)
  set_record-Quiet i r w = silent refl refl refl refl refl (λ t. refl) (λ s. refl) (λ s. refl)

  pub set_cursor-Quiet : (i : ℕ) (c : CursorBinding) (w : World) → Quiet may w (set_cursor i c w)
  set_cursor-Quiet i c w = silent refl refl refl refl refl (λ t. refl) (λ s. refl) (λ s. refl)

  pub set_transaction-Quiet :
      (i : ℕ) (t : TransactionBinding) (w : World)
      → core t ≡ core (w.transactions i)
      → Quiet may w (set_transaction i t w)
  set_transaction-Quiet i t w e =
      silent refl refl refl refl refl (at-same core i t w.transactions e) (λ s. refl) (λ s. refl)

  pub set_shared-Quiet :
      (i : ℕ) (s : SharedEnvironment) (w : World)
      → s.active_writer ≡ (w.shared i).active_writer
      → s.transactions ≡ (w.shared i).transactions
      → Quiet may w (set_shared i s w)
  set_shared-Quiet i s w e f =
      silent refl refl refl refl refl (λ t. refl)
        (at-same (λ (s' : SharedEnvironment). s'.active_writer) i s w.shared e)
        (at-same (λ (s' : SharedEnvironment). s'.transactions) i s w.shared f)

  pub call-Quiet : (c : NativeCall) (w : World) → may c ≡ true → Quiet may w (call c w)
  unfolding AllCalls
  call-Quiet c w allowed = record {
    same_registry = refl;
    same_paths = refl;
    same_environments = refl;
    same_owners = refl;
    same_core = λ t. refl;
    same_writer = λ s. refl;
    same_members = λ s. refl;
    new_calls = c ∷ [];
    calls_grow = refl;
    calls_allowed = (allowed, tt);
  }
