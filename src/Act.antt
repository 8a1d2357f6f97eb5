-- ===== src/Act.antt =====
-- Code that changes state and may raise. What was written before a raise stays written, so the
-- state comes back beside the exception too. `running` is the result of a loop whose fuel ran out.
pub mod Moves
pub mod Returns
pub mod Ends
pub mod Retry
pub mod RetryIf
pub mod Invert
use cloudify_system_tests.Prelude.{ℕ, String}

-- The exceptions that the framework raises or catches. `other` is one that the code does not name.
pub data Error : Type 0 where
  key_error schema_error runtime_error value_error type_error attribute_error assertion_error :
      Error
  execution_failed execution_timeout deployment_creation deployment_deletion : Error
  unauthorized : String → Error
  client_error : String → Error
  process_execution : ℕ → Error
  process_killed : ℕ → Error
  io_error : Error
  exit_status : ℕ → Error
  other : ℕ → Error

pub data Result {ℓ} (A : Type ℓ) : Type ℓ where
  ok : A → Result A
  err : Error → Result A
  running : Result A

-- The outcome of a call of other code, which returns or raises.
pub data Reply {ℓ} (A : Type ℓ) : Type ℓ where
  value : A → Reply A
  fault : Error → Reply A

abbrev pub result {ℓ} : {A : Type ℓ} → Reply A → Result A
result (value a) = ok a
result (fault e) = err e

-- the result of code that returns nothing
abbrev pub Done : Type 0
Done = Unit

abbrev pub Act {ℓ κ} : Type ℓ → Type κ → Type (ℓ ⊔ κ)
Act S A = S → Result A × S

module _ {ℓ κ} {S : Type ℓ} {A : Type κ} where
  abbrev pub pure : A → Act S A
  pure a s = (ok a, s)

  abbrev pub raise : Error → Act S A
  raise e s = (err e, s)

  -- a loop whose fuel has run out
  abbrev pub out_of_fuel : Act S A
  out_of_fuel s = (running, s)

  abbrev pub gets : (S → A) → Act S A
  gets f s = (ok (f s), s)

  -- `try: m / finally: f`, for an `f` that cannot raise
  abbrev pub finally : Act S A → (S → S) → Act S A
  finally m f s = let (r, s') = m s in (r, f s')

  -- `try: m / except: h`
  abbrev pub catch : Act S A → (Error → Act S A) → Act S A
  catch m h s = let (r, s') = m s in elim r [ err e ↦ h e s' | settled ↦ (settled, s') ]

abbrev pub pass {ℓ} : {S : Type ℓ} → Act S Done
pass s = (ok tt, s)

abbrev pub modify {ℓ} : {S : Type ℓ} → (S → S) → Act S Done
modify f s = (ok tt, f s)

module _ {ℓ κ λ'} {S : Type ℓ} {A : Type κ} {B : Type λ'} where
  abbrev pub continue : Result A → (A → Act S B) → Act S B
  continue (ok a) f s = f a s
  continue (err e) f s = (err e, s)
  continue running f s = (running, s)

  infixl 10 ◌>>=◌ ◌>>◌
  unfoldable pub ◌>>=◌ : Act S A → (A → Act S B) → Act S B
  ◌>>=◌ m f s = let (r, s') = m s in continue r f s'

  abbrev pub ◌>>◌ : Act S A → Act S B → Act S B
  m >> n = m >>= λ _. n
