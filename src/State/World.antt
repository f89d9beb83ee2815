-- ===== src/State/World.antt =====
-- The objects of internal/native_state.ts and the tables that find them.
use lmdb_deno.Prelude.{
  ℕ, Bool, true, false, Option, List, [], ◌∷◌, ◌++◌, Exception, Result, ok, err, ◌==◌,
  if◌then◌else◌,
}
use lmdb_deno.Encoding.Values.{KeyEncoding}
use lmdb_deno.Batch.Protocol.Registry.{Registry}

-- Objects are numbers. `state` and the like name the object that a binding refers to.
pub record EnvironmentBinding : Type 0 where
  pub handle : Option ℕ
  pub state : Option ℕ
  pub transactions : List ℕ

pub data TransactionPhase : Type 0 where
  active reset closed : TransactionPhase

pub record TransactionBinding : Type 0 where
  pub handle : Option ℕ
  pub state : Option ℕ
  pub environment : Option ℕ
  pub read_only : Option Bool
  pub phase : TransactionPhase
  pub cursors : List ℕ
  pub pending_dbis : List ℕ

-- `cursor_refs` counts the cursors of the record; each of them is counted down once, when it closes.
pub record SharedDbiRecord : Type 0 where
  pub handle : ℕ
  pub state : ℕ
  pub wrappers : List ℕ
  pub pending : List ℕ
  pub cursor_refs : ℕ
  pub batch_refs : ℕ
  pub committed : Bool

pub record DbiBinding : Type 0 where
  pub handle : ℕ
  pub key_format : KeyEncoding
  pub flags : ℕ
  pub record_id : ℕ
  pub pending_txn : Option ℕ
  pub closed : Bool

pub data CursorPhase : Type 0 where
  active detached closed : CursorPhase

pub record CursorBinding : Type 0 where
  pub handle : Option ℕ
  pub state : Option ℕ
  pub txn : Option ℕ
  pub dbi : Option ℕ
  pub read_only : Bool
  pub phase : CursorPhase

-- A write transaction, or the token of an internal reservation.
pub data WriterOwner : Type 0 where
  transaction : ℕ → WriterOwner
  internal_writer : ℕ → WriterOwner

pub record SharedBatchClient : Type 0 where
  pub active : Bool
  pub queued : ℕ

-- `SharedEnvironmentState`, less the fields of `SharedState`, which stand in the registry under the
-- same identity. Paths are told apart by a number.
pub record SharedEnvironment : Type 0 where
  pub canonical_path : ℕ
  pub wrappers : List ℕ
  pub transactions : List ℕ
  pub dbis : List ℕ
  pub dbi_records : List (ℕ × ℕ)
  pub cursors : List ℕ
  pub active_async_operations : ℕ
  pub active_writer : Option WriterOwner
  pub batch_client : Option SharedBatchClient

-- What is done to the native library about transactions and at the end of things, and to the views that cursors keep of native memory.
pub data NativeCall : Type 0 where
  cursor_close : ℕ → NativeCall
  txn_abort : ℕ → NativeCall
  txn_commit : ℕ → NativeCall
  txn_reset : ℕ → NativeCall
  txn_renew : ℕ → NativeCall
  env_close : ℕ → NativeCall
  dbi_close : (environment handle : ℕ) → NativeCall
  invalidate_current : (cursor : ℕ) (fallback_allowed : Bool) → NativeCall

pub record World : Type 0 where
  pub registry : Registry
  pub shared : ℕ → SharedEnvironment
  pub environments : ℕ → EnvironmentBinding
  pub transactions : ℕ → TransactionBinding
  pub records : ℕ → SharedDbiRecord
  pub dbis : ℕ → DbiBinding
  pub cursors : ℕ → CursorBinding
  -- from the public objects to their bindings
  pub env_bindings : ℕ → Option ℕ
  pub txn_bindings : ℕ → Option ℕ
  pub dbi_bindings : ℕ → Option ℕ
  pub cursor_bindings : ℕ → Option ℕ
  -- from canonical paths to shared states
  pub environment_registry : List (ℕ × ℕ)
  -- the identity of the next object
  pub next_object : ℕ
  -- the native calls so far
  pub calls : List NativeCall

-- A function of the module: it may throw, and the world is as it left it.
abbrev pub Action : Type 0 → Type 0
Action A = World → Result A × World

abbrev pub pure : {A : Type 0} → A → Action A
pure a w = (ok a, w)

abbrev pub throw : {A : Type 0} → Exception → Action A
throw e w = (err e, w)

module _ {A B : Type 0} where
  abbrev pub proceed : Result A × World → (A → Action B) → Result B × World
  proceed (ok a, w) next = next a w
  proceed (err e, w) next = (err e, w)

  infixl 5 ◌>>=◌
  abbrev pub ◌>>=◌ : Action A → (A → Action B) → Action B
  ◌>>=◌ m next w = proceed (m w) next

infixl 5 ◌>>◌
abbrev pub ◌>>◌ : {B : Type 0} → Action (Unit {0}) → Action B → Action B
m >> next = m >>= λ _. next

-- `if (test) throw error;`
abbrev pub throw_when : Bool → Exception → Action (Unit {0})
throw_when true e w = (err e, w)
throw_when false e w = (ok tt, w)

-- What cannot throw.
abbrev pub run : (World → World) → Action (Unit {0})
run change w = (ok tt, change w)

abbrev pub get : {A : Type 0} → (World → A) → Action A
get read w = (ok (read w), w)

-- The value at one place is another.
abbrev pub at : {A : Type 0} → ℕ → A → (ℕ → A) → ℕ → A
at i a f j = if j == i then a else f j

abbrev pub set_shared : ℕ → SharedEnvironment → World → World
set_shared i s w = record w { shared = at i s w.shared }

abbrev pub set_environment : ℕ → EnvironmentBinding → World → World
set_environment i b w = record w { environments = at i b w.environments }

abbrev pub set_transaction : ℕ → TransactionBinding → World → World
set_transaction i t w = record w { transactions = at i t w.transactions }

abbrev pub set_record : ℕ → SharedDbiRecord → World → World
set_record i r w = record w { records = at i r w.records }

abbrev pub set_dbi : ℕ → DbiBinding → World → World
set_dbi i d w = record w { dbis = at i d w.dbis }

abbrev pub set_cursor : ℕ → CursorBinding → World → World
set_cursor i c w = record w { cursors = at i c w.cursors }

abbrev pub call : NativeCall → World → World
call c w = record w { calls = w.calls ++ c ∷ [] }
