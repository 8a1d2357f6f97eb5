-- ===== src/Resources/Checks.antt =====
-- What code that returned has passed: its assertions, and the requests that it has made.
use cloudify_system_tests.Prelude.{◌≡◌, refl, ap, Bool, true, false, List, [], ◌∷◌}
use cloudify_system_tests.Act.{Act, Reply, value, fault, ok, result, ◌>>=◌, ◌>>◌}
use cloudify_system_tests.Act.Returns.{ok-injective}
use cloudify_system_tests.Resources.{check, first}

module _ {S B : Type 0} where
  pub check_inv :
      (b : Bool) (n : Act S B) (s t : S) (x : B)
      → (check b >> n) s ≡ (ok x, t)
      → (b ≡ true) × (n s ≡ (ok x, t))
  unfolding ◌>>=◌
  check_inv true n s t x e = (refl, e)
  check_inv false n s t x e = cc (ap (λ q. q.0) e)

module _ {S : Type 0} where
  pub check_returned : (b : Bool) (s t : S) → check b s ≡ (ok tt, t) → (b ≡ true) × (s ≡ t)
  check_returned true s t e = (refl, ap (λ q. q.1) e)
  check_returned false s t e = cc (ap (λ q. q.0) e)

  pub first_returned :
      {A : Type 0} (xs : List A) (s : S) (x : A)
      → (first xs s).0 ≡ ok x
      → (rest : List A) × (xs ≡ x ∷ rest)
  first_returned [] s x e = cc
  first_returned (y ∷ ys) s x e = (ys, ap (λ z. z ∷ ys) (ok-injective e))

pub answered : {A : Type 0} (r : Reply A) (a : A) → result r ≡ ok a → r ≡ value a
answered (value b) a e = ap value (ok-injective e)
answered (fault x) a e = cc
