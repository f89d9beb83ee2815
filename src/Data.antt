-- ===== src/Data.antt =====
-- What txn.ts and cursor.ts share: the native calls that read and write records (native/api.ts), over
-- the world of internal/native_state.ts and the state `S` of the LMDB library.
use lmdb_deno.Prelude.{ℕ, Bool, Option, Result, ok, err}
use lmdb_deno.Bytes.{Bytes}
use lmdb_deno.Native.Api.{Call}
use lmdb_deno.State.World.{World, Action}
pub mod Keys
pub mod Observe

-- The operations of `CursorOperation` that cursor.ts uses.
pub data CursorOperation : Type 0 where
  mdb_first mdb_last mdb_next mdb_prev mdb_set_key mdb_set_range : CursorOperation
  mdb_first_dup mdb_last_dup mdb_next_dup mdb_prev_dup : CursorOperation
  mdb_get_both mdb_get_both_range mdb_get_current : CursorOperation

-- LMDB is an argument of whatever calls it. What it answers may depend on all the calls that the
-- world has recorded. `getCursorHandle` returns the handle of a cursor as it is.
pub record DataApi (S : Type 0) : Type 0 where
  pub get : (txn dbi : ℕ) (key : Bytes) → World → Call S (Option Bytes)
  pub get_unsafe : (txn dbi : ℕ) (key : Bytes) → World → Call S (Option Bytes)
  pub put : (txn dbi : ℕ) (key value : Bytes) (flags : ℕ) → World → Call S (Unit {0})
  pub del : (txn dbi : ℕ) (key : Bytes) (value : Option Bytes) → World → Call S (Unit {0})
  pub cursor_open : (txn dbi : ℕ) → World → Call S ℕ
  pub cursor_get :
      (cursor : Option ℕ) (key value : Option Bytes) (operation : CursorOperation)
      → World
      → Call S (Option (Bytes × Bytes))
  pub cursor_del : (cursor : Option ℕ) (no_dup_data : Bool) → World → Call S (Unit {0})

-- A method: it may throw, and the world and the library are as it left them.
abbrev pub Step : Type 0 → Type 0 → Type 0
Step S A = World → S → Result A × World × S

module _ {S A : Type 0} where
  abbrev pub beside : Result A × World → S → Result A × World × S
  beside (r, w) s = (r, w, s)

  -- What a function of internal/native_state.ts does.
  abbrev pub on_world : Action A → Step S A
  on_world m w s = beside (m w) s

  abbrev pub beneath : World → Result A × S → Result A × World × S
  beneath w (r, s) = (r, w, s)

  -- What LMDB does.
  abbrev pub on_native : (World → Call S A) → Step S A
  on_native c w s = beneath w (c w s)

  -- What an encoder does.
  abbrev pub of_result : Result A → Step S A
  of_result r w s = (r, w, s)

module _ {S A B : Type 0} where
  abbrev pub continue_with : Result A × World × S → (A → Step S B) → Result B × World × S
  continue_with (ok a, w, s) next = next a w s
  continue_with (err e, w, s) next = (err e, w, s)

  infixl 5 ◌>>=◌
  abbrev pub ◌>>=◌ : Step S A → (A → Step S B) → Step S B
  ◌>>=◌ m next w s = continue_with (m w s) next
