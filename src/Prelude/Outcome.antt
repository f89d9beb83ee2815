-- ===== src/Prelude/Outcome.antt =====
-- Exceptions as values. A function that may throw returns a `Result`; a function that also changes
-- state returns the state beside it, since what was written before a throw stays written.
use mathlib.Core.Path.{◌≡◌, refl}
use mathlib.Core.Logic.{◌⊎◌, inl, inr}
use mathlib.Core.Bool.{Bool, true, false}
use mathlib.Core.Option.{Option, none, some}
use Prim.Native.String.{String}
use lmdb_deno.Prelude.Int.{ℤ}

-- The classes of error objects that the package throws, with their messages.
pub data Exception : Type 0 where
  error : String → Exception
  -- with the `cause` option
  error_with_cause : String → Exception → Exception
  type_error : String → Exception
  range_error : String → Exception
  -- `LmdbError`, with its numeric code
  lmdb_error : ℤ → String → Exception
  -- `HardWorkerFailureSignal`
  hard_worker_failure : Exception

pub data Result {ℓ} (A : Type ℓ) : Type ℓ where
  err : Exception → Result A
  ok : A → Result A

module _ {ℓ κ} {A : Type ℓ} {B : Type κ} where
  infixl 5 ◌>>=◌
  abbrev pub ◌>>=◌ : Result A → (A → Result B) → Result B
  r >>= next = elim r [ err e ↦ err e | ok a ↦ next a ]

infixl 5 ◌>>◌
abbrev pub ◌>>◌ {κ} : {B : Type κ} → Result (Unit {0}) → Result B → Result B
first >> second = first >>= λ _. second

-- `if (test) throw error;`
abbrev pub throw_if : Bool → Exception → Result (Unit {0})
throw_if true e = err e
throw_if false e = ok tt

-- The error held back while a `finally` or a cleanup loop runs: `first ??= next`.
abbrev pub or_first : Option Exception → Option Exception → Option Exception
or_first none next = next
or_first (some e) next = some e

-- To split on how a call ended and keep the equation.
pub Outcome-cases {ℓ κ} :
    {A : Type ℓ} {S : Type κ} (p : Result A × S)
    → ((a : A) × (s : S) × (p ≡ (ok a, s))) ⊎ ((e : Exception) × (s : S) × (p ≡ (err e, s)))
Outcome-cases (ok a, s) = inl (a, s, refl)
Outcome-cases (err e, s) = inr (e, s, refl)

pub Result-cases {ℓ} :
    {A : Type ℓ} (r : Result A) → ((a : A) × (r ≡ ok a)) ⊎ ((e : Exception) × (r ≡ err e))
Result-cases (ok a) = inl (a, refl)
Result-cases (err e) = inr (e, refl)
