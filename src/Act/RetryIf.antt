-- ===== src/Act/RetryIf.antt =====
-- The `retrying` package with `retry_on_exception`: only some exceptions lead to another attempt.
use cloudify_system_tests.Prelude.{
  ℕ, zero, suc, ◌≡◌, refl, sym, ap, ◌∙◌, Bool, true, false, Bool-cases, inl, inr,
}
use cloudify_system_tests.Act.{Act, Error, Result, ok, err, running}

-- Its documented behaviour: an attempt that returns ends the call, and one that does not end never
-- lets it end; after an exception that is to be retried comes a wait and another attempt, until the
-- last; any other is raised at once.
pub record RetryingIf (S : Type 0) : Type 1 where
  pub retry : (A : Type 0) → (Error → Bool) → ℕ → ℕ → Act S A → Act S A
  pub waited : ℕ → S → S
  pub returned :
      (A : Type 0) (p : Error → Bool) (n ms : ℕ) (m : Act S A) (s t : S) (a : A)
      → m s ≡ (ok a, t)
      → retry A p (suc n) ms m s ≡ (ok a, t)
  pub unfinished :
      (A : Type 0) (p : Error → Bool) (n ms : ℕ) (m : Act S A) (s t : S)
      → m s ≡ (running, t)
      → retry A p (suc n) ms m s ≡ (running, t)
  pub refused :
      (A : Type 0) (p : Error → Bool) (n ms : ℕ) (m : Act S A) (s t : S) (e : Error)
      → p e ≡ false
      → m s ≡ (err e, t)
      → retry A p (suc n) ms m s ≡ (err e, t)
  pub raised_last :
      (A : Type 0) (p : Error → Bool) (ms : ℕ) (m : Act S A) (s t : S) (e : Error)
      → m s ≡ (err e, t)
      → retry A p 1 ms m s ≡ (err e, t)
  pub raised :
      (A : Type 0) (p : Error → Bool) (n ms : ℕ) (m : Act S A) (s t : S) (e : Error)
      → p e ≡ true
      → m s ≡ (err e, t)
      → retry A p (suc (suc n)) ms m s ≡ retry A p (suc n) ms m (waited ms t)

module _ {S : Type 0} (r : RetryingIf S) (A : Type 0) (p : Error → Bool) (ms : ℕ)
    (m : Act S A) where
  abbrev From : A → S → Type 0
  From a t = (s : S) × (m s ≡ (ok a, t))

  last-From :
      (s t u : S) (x : Result A) (a : A)
      → m s ≡ (x, t)
      → r.retry A p 1 ms m s ≡ (ok a, u)
      → From a u
  last-From s t u (ok b) a q e = (s, q ∙ sym (r.returned A p 0 ms m s t b q) ∙ e)
  last-From s t u (err x) a q e = cc (ap (λ y. y.0) (sym (r.raised_last A p ms m s t x q) ∙ e))
  last-From s t u running a q e = cc (ap (λ y. y.0) (sym (r.unfinished A p 0 ms m s t q) ∙ e))

  next-From :
      (n : ℕ) (s t u : S) (x : Result A) (a : A)
      → ((v : S) → r.retry A p (suc n) ms m v ≡ (ok a, u) → From a u)
      → m s ≡ (x, t)
      → r.retry A p (suc (suc n)) ms m s ≡ (ok a, u)
      → From a u
  next-From n s t u (ok b) a ih q e = (s, q ∙ sym (r.returned A p (suc n) ms m s t b q) ∙ e)
  next-From n s t u (err x) a ih q e = elim (Bool-cases (p x)) [
    | inl again ↦ ih (r.waited ms t) (sym (r.raised A p n ms m s t x again q) ∙ e)
    | inr stop ↦ cc (ap (λ y. y.0) (sym (r.refused A p (suc n) ms m s t x stop q) ∙ e))
  ]
  next-From n s t u running a ih q e =
      cc (ap (λ y. y.0) (sym (r.unfinished A p (suc n) ms m s t q) ∙ e))

  -- A call that returns does so by an attempt that returns, and at once.
  pub retry_if_inv : (n : ℕ) (s u : S) (a : A) → r.retry A p (suc n) ms m s ≡ (ok a, u) → From a u
  retry_if_inv zero s u a e = last-From s (m s).1 u (m s).0 a refl e
  retry_if_inv (suc n) s u a e =
      next-From n s (m s).1 u (m s).0 a (λ v h. retry_if_inv n v u a h) refl e
