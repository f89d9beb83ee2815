-- ===== src/State/Writer.antt =====
-- The writer of a shared environment (`activeWriter` of internal/native_state.ts).
use lmdb_deno.Prelude.{
  ℕ, has, ◌≡◌, ◌⊎◌, inl, inr, refl, ap, ◌∙◌, sym, Bool, true, false, Option, none, some, arith,
}
use lmdb_deno.State.World.{
  TransactionBinding, SharedEnvironment, WriterOwner, transaction, NativeCall, World,
}
use lmdb_deno.State.Quiet.{Quiet, Core, core}
pub mod Ending
pub mod Reading
pub mod Databases
pub mod Environments
pub mod Closing
pub mod Terminal
pub mod Steps
pub mod Moves
pub mod Lock

abbrev pub writer : ℕ → World → Option WriterOwner
writer s w = (w.shared s).active_writer

-- A transaction that belongs to an environment and may write is the environment's writer.
pub SingleWriter : World → Type 0
SingleWriter w =
    (t s : ℕ)
    → (w.transactions t).state ≡ some s
    → (w.transactions t).read_only ≡ some false
    → writer s w ≡ some (transaction t)

-- A transaction is in the set of the environment that it belongs to.
abbrev pub listed : ℕ → ℕ → World → Bool
listed s t w = has t (w.shared s).transactions

pub Members : World → Type 0
Members w = (t s : ℕ) → (w.transactions t).state ≡ some s → listed s t w ≡ true

abbrev pub Leaves : TransactionBinding → TransactionBinding → Type 0
Leaves t t' = (t'.state ≡ none) ⊎ ((t'.state ≡ t.state) × (t'.read_only ≡ t.read_only))

-- Transactions only leave their environments, and a writer is forgotten only if it has left.
pub record Ends (w w' : World) : Type 0 where
  pub leaves : (t : ℕ) → Leaves (w.transactions t) (w'.transactions t)
  pub frees : (s : ℕ) → (writer s w' ≡ writer s w) ⊎ (writer s w' ≡ none)
  pub keeps :
      (s t : ℕ)
      → writer s w ≡ some (transaction t)
      → (w'.transactions t).state ≡ some s
      → writer s w' ≡ some (transaction t)
  pub lists :
      (s t : ℕ) → listed s t w ≡ true → (w'.transactions t).state ≡ some s → listed s t w' ≡ true

pub Ends-refl : (w : World) → Ends w w
Ends-refl w = record {
  leaves = λ t. inr (refl, refl);
  frees = λ s. inl refl;
  keeps = λ s t e k. e;
  lists = λ s t e k. e;
}

pub Leaves-state :
    (s : ℕ) (t t' : TransactionBinding) → Leaves t t' → t'.state ≡ some s → t.state ≡ some s
Leaves-state s t t' h e = ground arith

pub Ends-trans : {u v w : World} → Ends u v → Ends v w → Ends u w
Ends-trans {u} {v} {w} h k = record {
  leaves = λ t. ground (arith, h.leaves t, k.leaves t);
  frees = λ s. ground (arith, h.frees s, k.frees s);
  keeps = λ s t e there.
      k.keeps s t
        (h.keeps s t e (Leaves-state s (v.transactions t) (w.transactions t) (k.leaves t) there))
        there;
  lists = λ s t e there.
      k.lists s t
        (h.lists s t e (Leaves-state s (v.transactions t) (w.transactions t) (k.leaves t) there))
        there;
}

pub Ends-SingleWriter : {w w' : World} → Ends w w' → SingleWriter w → SingleWriter w'
unfolding SingleWriter
Ends-SingleWriter h single t s there writes =
    h.keeps s t (single t s (ground (arith, h.leaves t)) (ground (arith, h.leaves t))) there

pub Ends-Members : {w w' : World} → Ends w w' → Members w → Members w'
unfolding Members
Ends-Members {w} {w'} h members t s there =
    h.lists s t
      (members t s (Leaves-state s (w.transactions t) (w'.transactions t) (h.leaves t) there)) there

pub Quiet-Ends : {may : NativeCall → Bool} {w w' : World} → Quiet may w w' → Ends w w'
Quiet-Ends h = record {
  leaves = λ t.
      inr (
        ap (λ (c : Core). c.state) (h.same_core t),
        ap (λ (c : Core). c.read_only) (h.same_core t),
      );
  frees = λ s. inl (h.same_writer s);
  keeps = λ s t e there. h.same_writer s ∙ e;
  lists = λ s t e there. ap (has t) (h.same_members s) ∙ e;
}
