-- ===== src/Batch/Protocol/Registry.antt =====
-- The tables that descriptors are looked up in (batch/protocol.ts, internal/native_state.ts).
use lmdb_deno.Prelude.{
  ℕ, Bool, true, false, ◌&&◌, Option, none, some, List, [], ◌∷◌, ◌++◌, ℤ, ◌==◌, if◌then◌else◌,
}
use lmdb_deno.Encoding.Text.{CodeUnits}
use lmdb_deno.Encoding.Values.{Number}

-- What a caller without types may pass as a capability is `other`.
pub data Capability : Type 0 where
  read batch other : Capability

abbrev pub same_capability : Capability → Capability → Bool
same_capability read read = true
same_capability batch batch = true
same_capability other other = true
same_capability _ _ = false

abbrev pub same_units : CodeUnits → CodeUnits → Bool
same_units [] [] = true
same_units [] (b ∷ bs) = false
same_units (a ∷ rest) [] = false
same_units (a ∷ rest) (b ∷ bs) = (a == b) && same_units rest bs

-- The fields of a descriptor, as they stand when it is given back: they may have been changed.
pub record WorkerEnvironmentDescriptor : Type 0 where
  pub library_path : CodeUnits
  pub env_address : ℤ
  pub generation : Number
  pub capability : Capability

-- `authenticator` is the identity of the descriptor object, `state` that of the shared state.
pub record IssuedDescriptorRecord : Type 0 where
  pub library_path : CodeUnits
  pub env_address : ℕ
  pub generation : ℕ
  pub capability : Capability
  pub authenticator : ℕ
  pub state : ℕ
  pub state_generation : ℕ

-- The fields of a shared state that descriptors depend on. `address` is that of its handle.
pub record SharedState : Type 0 where
  pub library_path : CodeUnits
  pub address : ℕ
  pub descriptor_tokens : List ℕ
  pub ref_count : ℕ
  pub poisoned : Bool
  pub generation : ℕ

-- The tables of the two modules, the shared states that are still referenced, the words that
-- `crypto.getRandomValues` is going to give, and the identity of the next object.
pub record Registry : Type 0 where
  pub issued : List IssuedDescriptorRecord
  pub authenticators : List (ℕ × ℕ)
  pub live_tokens : List ℕ
  pub states : ℕ → Option SharedState
  pub words : List (ℕ × ℕ)
  pub next_object : ℕ

-- `issuedDescriptors` is a `Map` by generation.
abbrev pub find_issued : ℕ → List IssuedDescriptorRecord → Option IssuedDescriptorRecord
find_issued g [] = none
find_issued g (i ∷ l) = if i.generation == g then some i else find_issued g l

abbrev pub delete_issued : ℕ → List IssuedDescriptorRecord → List IssuedDescriptorRecord
delete_issued g [] = []
delete_issued g (i ∷ l) =
    let rest = delete_issued g l in if i.generation == g then rest else i ∷ rest

abbrev pub set_issued :
    IssuedDescriptorRecord → List IssuedDescriptorRecord → List IssuedDescriptorRecord
set_issued i l = delete_issued i.generation l ++ i ∷ []

-- `descriptorAuthenticators` is a `WeakMap` from objects to generations.
abbrev pub find_authenticator : ℕ → List (ℕ × ℕ) → Option ℕ
find_authenticator object [] = none
find_authenticator object ((o, g) ∷ l) = if o == object then some g else find_authenticator object l

abbrev pub delete_authenticator : ℕ → List (ℕ × ℕ) → List (ℕ × ℕ)
delete_authenticator object [] = []
delete_authenticator object ((o, g) ∷ l) =
    let rest = delete_authenticator object l in if o == object then rest else (o, g) ∷ rest

abbrev pub set_state : ℕ → SharedState → Registry → Registry
set_state id state r = record r { states = λ n. if n == id then some state else r.states n }
