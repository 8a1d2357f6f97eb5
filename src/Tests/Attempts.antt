-- ===== src/Tests/Attempts.antt =====
-- The `retrying` package as a function, for a state in which a wait can be recorded.
use cloudify_system_tests.Prelude.{Bool, false, if◌then◌else◌, ◌∙◌, ℕ, zero, suc, ◌≡◌, ap}
use cloudify_system_tests.Act.{running, Error, Act, Result, ok, err}
use cloudify_system_tests.Act.RetryIf.{RetryingIf}
use cloudify_system_tests.Act.Retry.{Retrying}

module _ {S : Type 0} (wait : ℕ → S → S) where
  abbrev attempted : {A : Type 0} → (S → Result A × S) → ℕ → Result A × S → Result A × S
  attempted again ms (err e, s) = again (wait ms s)
  attempted again ms (settled, s) = (settled, s)

  unfoldable pub retry : (A : Type 0) → ℕ → ℕ → Act S A → Act S A
  retry A zero ms m s = m s
  retry A (suc zero) ms m s = m s
  retry A (suc (suc n)) ms m s = attempted (retry A (suc n) ms m) ms (m s)

  pub retry_returned :
      (A : Type 0) (n ms : ℕ) (m : Act S A) (s t : S) (a : A)
      → m s ≡ (ok a, t)
      → retry A (suc n) ms m s ≡ (ok a, t)
  unfolding retry
  retry_returned A zero ms m s t a e = e
  retry_returned A (suc n) ms m s t a e = ap (attempted (retry A (suc n) ms m) ms) e

  unfoldable pub retrying_with : Retrying S
  unfolding retry
  retrying_with = record {
    retry = retry;
    waited = wait;
    returned = retry_returned;
    raised_last = λ A ms m s t x e. e;
    raised = λ A n ms m s t x e. ap (attempted (retry A (suc n) ms m) ms) e;
  }

-- The same for `retry_on_exception`.
module _ {S : Type 0} (wait : ℕ → S → S) where
  abbrev attempted_if :
      {A : Type 0} → (Error → Bool) → (S → Result A × S) → ℕ → Result A × S → Result A × S
  attempted_if p again ms (err e, s) = if p e then again (wait ms s) else (err e, s)
  attempted_if p again ms (settled, s) = (settled, s)

  unfoldable pub retry_if : (A : Type 0) → (Error → Bool) → ℕ → ℕ → Act S A → Act S A
  retry_if A p zero ms m s = m s
  retry_if A p (suc zero) ms m s = m s
  retry_if A p (suc (suc n)) ms m s = attempted_if p (retry_if A p (suc n) ms m) ms (m s)

  pub retry_if_returned :
      (A : Type 0) (p : Error → Bool) (n ms : ℕ) (m : Act S A) (s t : S) (a : A)
      → m s ≡ (ok a, t)
      → retry_if A p (suc n) ms m s ≡ (ok a, t)
  unfolding retry_if
  retry_if_returned A p zero ms m s t a e = e
  retry_if_returned A p (suc n) ms m s t a e = ap (attempted_if p (retry_if A p (suc n) ms m) ms) e

  pub retry_if_unfinished :
      (A : Type 0) (p : Error → Bool) (n ms : ℕ) (m : Act S A) (s t : S)
      → m s ≡ (running, t)
      → retry_if A p (suc n) ms m s ≡ (running, t)
  unfolding retry_if
  retry_if_unfinished A p zero ms m s t e = e
  retry_if_unfinished A p (suc n) ms m s t e = ap (attempted_if p (retry_if A p (suc n) ms m) ms) e

  pub retry_if_refused :
      (A : Type 0) (p : Error → Bool) (n ms : ℕ) (m : Act S A) (s t : S) (x : Error)
      → p x ≡ false
      → m s ≡ (err x, t)
      → retry_if A p (suc n) ms m s ≡ (err x, t)
  unfolding retry_if
  retry_if_refused A p zero ms m s t x h e = e
  retry_if_refused A p (suc n) ms m s t x h e =
      ap (attempted_if p (retry_if A p (suc n) ms m) ms) e
      ∙ ap (λ b. if b then retry_if A p (suc n) ms m (wait ms t) else (err x, t)) h

  unfoldable pub retrying_if_with : RetryingIf S
  unfolding retry_if
  retrying_if_with = record {
    retry = retry_if;
    waited = wait;
    returned = retry_if_returned;
    unfinished = retry_if_unfinished;
    refused = retry_if_refused;
    raised_last = λ A p ms m s t x e. e;
    raised = λ A p n ms m s t x h e.
        ap (attempted_if p (retry_if A p (suc n) ms m) ms) e
        ∙ ap (λ b. if b then retry_if A p (suc n) ms m (wait ms t) else (err x, t)) h;
  }
