-- ===== src/Act/Moves.antt =====
-- What code does to the state however it ends, as a relation between the states before and after.
use cloudify_system_tests.Prelude.{Bool, true, false, if◌then◌else◌}
use cloudify_system_tests.Act.{Act, Error, Result, ok, err, running, catch, continue, ◌>>=◌}

pub record Moves {ℓ} {S A : Type ℓ} (R : S → S → Type ℓ) (m : Act S A) : Type ℓ where
  pub at : (s : S) → R s (m s).1

module _ {ℓ} {S : Type ℓ} (R : S → S → Type ℓ) (R-refl : (s : S) → R s s)
    (R-trans : (s t u : S) → R s t → R t u → R s u) where
  pub Moves-same : {A : Type ℓ} (f : S → Result A) → Moves R (λ s. (f s, s))
  Moves-same f = record { at = λ s. R-refl s }

  continue-Moves :
      {A B : Type ℓ} (r : Result A) (f : A → Act S B) (s t : S)
      → R s t
      → ((a : A) → Moves R (f a))
      → R s (continue r f t).1
  continue-Moves (ok a) f s t h hf = R-trans s t (f a t).1 h ((hf a).at t)
  continue-Moves (err e) f s t h hf = h
  continue-Moves running f s t h hf = h

  pub Moves-bind :
      {A B : Type ℓ} (m : Act S A) (f : A → Act S B)
      → Moves R m
      → ((a : A) → Moves R (f a))
      → Moves R (m >>= f)
  unfolding ◌>>=◌
  Moves-bind m f hm hf = record { at = λ s. continue-Moves (m s).0 f s (m s).1 (hm.at s) hf }

  pub Moves-if :
      {A : Type ℓ} (b : Bool) (m n : Act S A) → Moves R m → Moves R n → Moves R (if b then m else n)
  Moves-if true m n hm hn = hm
  Moves-if false m n hm hn = hn

-- Two parts that do different things to the state, one after the other.
module _ {ℓ} {S : Type ℓ} (R Q T : S → S → Type ℓ) (only : (s t : S) → R s t → T s t)
    (joined : (s t u : S) → R s t → Q t u → T s u) where
  continue-joined :
      {A B : Type ℓ} (r : Result A) (f : A → Act S B) (s t : S)
      → R s t
      → ((a : A) → Moves Q (f a))
      → T s (continue r f t).1
  continue-joined (ok a) f s t h hf = joined s t (f a t).1 h ((hf a).at t)
  continue-joined (err e) f s t h hf = only s t h
  continue-joined running f s t h hf = only s t h

  pub Moves-join :
      {A B : Type ℓ} (m : Act S A) (f : A → Act S B)
      → Moves R m
      → ((a : A) → Moves Q (f a))
      → Moves T (m >>= f)
  unfolding ◌>>=◌
  Moves-join m f hm hf = record { at = λ s. continue-joined (m s).0 f s (m s).1 (hm.at s) hf }

  settle-joined :
      {A : Type ℓ} (r : Result A) (h : Error → Act S A) (s t : S)
      → R s t
      → ((e : Error) → Moves Q (h e))
      → T s (catch (λ u. (r, u)) h t).1
  settle-joined (ok a) h s t p hh = only s t p
  settle-joined (err e) h s t p hh = joined s t (h e t).1 p ((hh e).at t)
  settle-joined running h s t p hh = only s t p

  pub Moves-catch_join :
      {A : Type ℓ} (m : Act S A) (h : Error → Act S A)
      → Moves R m
      → ((e : Error) → Moves Q (h e))
      → Moves T (catch m h)
  Moves-catch_join m h hm hh = record { at = λ s. settle-joined (m s).0 h s (m s).1 (hm.at s) hh }
