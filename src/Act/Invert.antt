-- ===== src/Act/Invert.antt =====
-- What a chain of code that returned went through.
use cloudify_system_tests.Prelude.{◌∙◌, ◌≡◌, refl, ap}
use cloudify_system_tests.Act.{Act, Result, ok, err, running, continue, ◌>>=◌}

module _ {ℓ κ} {S A : Type ℓ} {B : Type κ} where
  continue_inv :
      (r : Result A) (f : A → Act S B) (s t : S) (b : B)
      → continue r f s ≡ (ok b, t)
      → (a : A) × (r ≡ ok a) × (f a s ≡ (ok b, t))
  continue_inv (ok a) f s t b e = (a, refl, e)
  continue_inv (err x) f s t b e = cc (ap (λ q. q.0) e)
  continue_inv running f s t b e = cc (ap (λ q. q.0) e)

  pub bind_inv :
      (m : Act S A) (f : A → Act S B) (s t : S) (b : B)
      → (m >>= f) s ≡ (ok b, t)
      → (a : A) × ((m s).0 ≡ ok a) × (f a (m s).1 ≡ (ok b, t))
  unfolding ◌>>=◌
  bind_inv m f s t b e = continue_inv (m s).0 f (m s).1 t b e

module _ {ℓ κ} {S : Type ℓ} {A : Type κ} where
  pub with_result : (x : Result A × S) (r : Result A) → x.0 ≡ r → x ≡ (r, x.1)
  with_result x r e = ap (λ q. (q, x.1)) e

  pub returned_as :
      (x : Result A × S) (a b : A) (t : S) → x.0 ≡ ok a → a ≡ b → x.1 ≡ t → x ≡ (ok b, t)
  returned_as x a b t p q r = ap (λ y. (y, x.1)) (p ∙ ap ok q) ∙ ap (λ u. (ok b, u)) r
