-- ===== src/Act/Returns.antt =====
-- What holds of the value that code returns, if it returns one, and what cannot be returned.
use mathlib.Core.Path.{subst}
use cloudify_system_tests.Prelude.{◌≡◌, refl, Bool, true, false, if◌then◌else◌}
use cloudify_system_tests.Act.{
  catch, Act, Error, Result, ok, err, running, pure, raise, out_of_fuel, continue, ◌>>=◌,
}

pub record Returns {ℓ κ} {S A : Type ℓ} (P : A → Type κ) (m : Act S A) : Type (ℓ ⊔ κ) where
  pub at : (s : S) (a : A) → (m s).0 ≡ ok a → P a

pub ok-injective {ℓ} : {A : Type ℓ} {a b : A} → ok a ≡ ok b → a ≡ b
ok-injective e = cc

-- Code that never returns.
abbrev pub Fails {ℓ} : {S A : Type ℓ} → Act S A → Type ℓ
Fails m = Returns (λ _. ⊥) m

module _ {ℓ κ} {S A : Type ℓ} {P : A → Type κ} where
  pub Returns-pure : (a : A) → P a → Returns {S = S} P (pure a)
  Returns-pure a p = record { at = λ s b e. subst P (ok-injective e) p }

  pub Returns-raise : (x : Error) → Returns {S = S} P (raise x)
  Returns-raise x = record { at = λ s b e. cc }

  pub Returns-out_of_fuel : Returns {S = S} P out_of_fuel
  Returns-out_of_fuel = record { at = λ s b e. cc }

  pub Returns-if :
      (b : Bool) (m n : Act S A)
      → (b ≡ true → Returns P m)
      → (b ≡ false → Returns P n)
      → Returns P (if b then m else n)
  Returns-if true m n hm hn = hm refl
  Returns-if false m n hm hn = hn refl

module _ {ℓ κ} {S A B : Type ℓ} {P : B → Type κ} where
  continue-Returns :
      (r : Result A) (f : A → Act S B) (s : S) (b : B)
      → ((a : A) → r ≡ ok a → Returns P (f a))
      → (continue r f s).0 ≡ ok b
      → P b
  continue-Returns (ok a) f s b h e = (h a refl).at s b e
  continue-Returns (err x) f s b h e = cc
  continue-Returns running f s b h e = cc

  pub Returns-bind :
      (Q : A → Type κ) (m : Act S A) (f : A → Act S B)
      → Returns Q m
      → ((a : A) → Q a → Returns P (f a))
      → Returns P (m >>= f)
  unfolding ◌>>=◌
  Returns-bind Q m f hm hf = record {
    at = λ s b e. continue-Returns (m s).0 f (m s).1 b (λ a r. hf a (hm.at s a r)) e;
  }

  -- nothing is asked of what the first part returns
  pub Returns-after :
      (m : Act S A) (f : A → Act S B) → ((a : A) → Returns P (f a)) → Returns P (m >>= f)
  unfolding ◌>>=◌
  Returns-after m f hf = record {
    at = λ s b e. continue-Returns (m s).0 f (m s).1 b (λ a _. hf a) e;
  }

module _ {ℓ κ} {S A B : Type ℓ} {P : B → Type κ} where
  -- What follows a part that never returns is never reached.
  pub Returns-unreached : (m : Act S A) (f : A → Act S B) → Fails m → Returns P (m >>= f)
  unfolding ◌>>=◌
  Returns-unreached m f h = record {
    at = λ s b e. continue-Returns {P = P} (m s).0 f (m s).1 b (λ a r. absurd (h.at s a r)) e;
  }

module _ {ℓ κ} {S A : Type ℓ} {P : A → Type κ} where
  pub Returns-never : (m : Act S A) → Fails m → Returns P m
  Returns-never m h = record { at = λ s a e. absurd (h.at s a e) }

module _ {ℓ κ} {S A : Type ℓ} {P : A → Type κ} where
  -- what holds of every value
  pub Returns-known : (m : Act S A) → ((a : A) → P a) → Returns P m
  Returns-known m h = record { at = λ s a e. h a }

  settled-Returns :
      (r : Result A) (h : Error → Act S A) (s t : S) (a : A)
      → ((b : A) → r ≡ ok b → P b)
      → ((x : Error) → Returns P (h x))
      → (catch (λ u. (r, t)) h s).0 ≡ ok a
      → P a
  settled-Returns (ok b) h s t a hm hh e = hm a e
  settled-Returns (err x) h s t a hm hh e = (hh x).at t a e
  settled-Returns running h s t a hm hh e = cc

  pub Returns-catch :
      (m : Act S A) (h : Error → Act S A)
      → Returns P m
      → ((x : Error) → Returns P (h x))
      → Returns P (catch m h)
  Returns-catch m h hm hh = record {
    at = λ s a e. settled-Returns (m s).0 h s (m s).1 a (λ b p. hm.at s b p) hh e;
  }
