-- ===== src/Act/Retry.antt =====
-- The `retrying` package, as the framework uses it: `@retrying.retry(stop_max_attempt_number=n,
-- wait_fixed=ms)`. Its documented behaviour is stated by laws.
use cloudify_system_tests.Prelude.{sym, ◌≢◌, ℕ, zero, suc, ◌≡◌, refl, ap, ◌∙◌}
use cloudify_system_tests.Act.{Act, Error, Result, ok, err, running}

-- The first attempt that returns ends the call; one that raises is followed by a wait and another,
-- until the last, whose exception is raised.
pub record Retrying (S : Type 0) : Type 1 where
  pub retry : (A : Type 0) → ℕ → ℕ → Act S A → Act S A
  pub waited : ℕ → S → S
  pub returned :
      (A : Type 0) (n ms : ℕ) (m : Act S A) (s t : S) (a : A)
      → m s ≡ (ok a, t)
      → retry A (suc n) ms m s ≡ (ok a, t)
  pub raised_last :
      (A : Type 0) (ms : ℕ) (m : Act S A) (s t : S) (e : Error)
      → m s ≡ (err e, t)
      → retry A 1 ms m s ≡ (err e, t)
  pub raised :
      (A : Type 0) (n ms : ℕ) (m : Act S A) (s t : S) (e : Error)
      → m s ≡ (err e, t)
      → retry A (suc (suc n)) ms m s ≡ retry A (suc n) ms m (waited ms t)

-- What a call that returned went through, if every attempt ends.
module _ {S : Type 0} (r : Retrying S) (A : Type 0) (ms : ℕ) (m : Act S A)
    (ends : (s : S) → (m s).0 ≢ running) where
  abbrev From : A → S → Type 0
  From a t = (s : S) × (m s ≡ (ok a, t))

  last-From :
      (s t u : S) (x : Result A) (a : A) → m s ≡ (x, t) → r.retry A 1 ms m s ≡ (ok a, u) → From a u
  last-From s t u (ok b) a p e = (s, p ∙ sym (r.returned A 0 ms m s t b p) ∙ e)
  last-From s t u (err x) a p e = cc (ap (λ q. q.0) (sym (r.raised_last A ms m s t x p) ∙ e))
  last-From s t u running a p e = absurd (ends s (ap (λ q. q.0) p))

  next-From :
      (n : ℕ) (s t u : S) (x : Result A) (a : A)
      → ((v : S) → r.retry A (suc n) ms m v ≡ (ok a, u) → From a u)
      → m s ≡ (x, t)
      → r.retry A (suc (suc n)) ms m s ≡ (ok a, u)
      → From a u
  next-From n s t u (ok b) a ih p e = (s, p ∙ sym (r.returned A (suc n) ms m s t b p) ∙ e)
  next-From n s t u (err x) a ih p e = ih (r.waited ms t) (sym (r.raised A n ms m s t x p) ∙ e)
  next-From n s t u running a ih p e = absurd (ends s (ap (λ q. q.0) p))

  -- A call that returns does so by an attempt that returns, and at once.
  pub retry_inv : (n : ℕ) (s u : S) (a : A) → r.retry A (suc n) ms m s ≡ (ok a, u) → From a u
  retry_inv zero s u a e = last-From s (m s).1 u (m s).0 a refl e
  retry_inv (suc n) s u a e = next-From n s (m s).1 u (m s).0 a (λ v h. retry_inv n v u a h) refl e
