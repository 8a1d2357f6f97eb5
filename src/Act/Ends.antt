-- ===== src/Act/Ends.antt =====
-- When code ends: it returns or raises, and no loop in it runs out of fuel.
use cloudify_system_tests.Prelude.{◌≡◌, ◌≢◌, refl, Bool, true, false, if◌then◌else◌}
use cloudify_system_tests.Act.{
  Act, Error, Reply, value, fault, Result, ok, err, running, result, continue, ◌>>=◌,
}

abbrev pub EndsAt {ℓ κ} : {S : Type ℓ} {A : Type κ} → Act S A → S → Type κ
EndsAt m s = (m s).0 ≢ running

pub record Ends {ℓ} {S A : Type ℓ} (m : Act S A) : Type ℓ where
  pub at : (s : S) → EndsAt m s

pub ne-running-ok {ℓ} : {A : Type ℓ} (a : A) → ok a ≢ running
ne-running-ok a = λ e. cc

pub ne-running-err {ℓ} : {A : Type ℓ} (x : Error) → ◌≢◌ {A = Result A} (err x) running
ne-running-err x = λ e. cc

pub result-ne-running {ℓ} : {A : Type ℓ} (r : Reply A) → result r ≢ running
result-ne-running (value a) = ne-running-ok a
result-ne-running (fault e) = ne-running-err e

module _ {ℓ} {S A B : Type ℓ} where
  continue-EndsAt :
      (r : Result A) (f : A → Act S B) (s : S)
      → r ≢ running
      → ((a : A) → r ≡ ok a → EndsAt (f a) s)
      → (continue r f s).0 ≢ running
  continue-EndsAt (ok a) f s h hf = hf a refl
  continue-EndsAt (err e) f s h hf = ne-running-err e
  continue-EndsAt running f s h hf = absurd (h refl)

  -- the later part need only end from the state that the first leaves
  pub bind-EndsAt :
      (m : Act S A) (f : A → Act S B) (s : S)
      → EndsAt m s
      → ((a : A) → (m s).0 ≡ ok a → EndsAt (f a) (m s).1)
      → EndsAt (m >>= f) s
  unfolding ◌>>=◌
  bind-EndsAt m f s h hf = continue-EndsAt (m s).0 f (m s).1 h hf

  pub Ends-bind : (m : Act S A) (f : A → Act S B) → Ends m → ((a : A) → Ends (f a)) → Ends (m >>= f)
  Ends-bind m f h hf = record { at = λ s. bind-EndsAt m f s (h.at s) (λ a _. (hf a).at (m s).1) }

module _ {ℓ} {S A : Type ℓ} where
  pub Ends-ok : (a : A) (f : S → S) → Ends (λ s. (ok a, f s))
  Ends-ok a f = record { at = λ s. ne-running-ok a }

  pub Ends-err : (x : Error) → Ends {A = A} (λ (s : S). (err x, s))
  Ends-err x = record { at = λ s. ne-running-err x }

  pub Ends-if : (b : Bool) (m n : Act S A) → Ends m → Ends n → Ends (if b then m else n)
  Ends-if true m n hm hn = hm
  Ends-if false m n hm hn = hn
