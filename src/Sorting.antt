-- ===== src/Sorting.antt =====
-- Python's `sorted`, on values that are totally ordered, and listings that differ in their order only.
pub mod Keys
pub mod Laws
use cloudify_system_tests.Prelude.{◌≡◌, Bool, true, false, List, [], ◌∷◌, if◌then◌else◌}

-- `<=`, with what makes it a total order
pub record Ordered {ℓ} (K : Type ℓ) : Type ℓ where
  pub le : K → K → Bool
  pub total : (a b : K) → le a b ≡ false → le b a ≡ true
  pub antisym : (a b : K) → le a b ≡ true → le b a ≡ true → a ≡ b
  pub trans : (a b c : K) → le a b ≡ true → le b c ≡ true → le a c ≡ true

module _ {ℓ} {K : Type ℓ} ⦃o : Ordered K⦄ where
  unfoldable pub insert : K → List K → List K
  insert a [] = a ∷ []
  insert a (b ∷ bs) = if o.le a b then a ∷ b ∷ bs else b ∷ insert a bs

  unfoldable pub sorted : List K → List K
  sorted [] = []
  sorted (a ∷ rest) = insert a (sorted rest)

-- Two listings of the same items.
pub data Reordered {ℓ} {A : Type ℓ} : List A → List A → Type ℓ where
  none_left : Reordered [] []
  same_head : (a : A) {xs ys : List A} → Reordered xs ys → Reordered (a ∷ xs) (a ∷ ys)
  swapped : (a b : A) (xs : List A) → Reordered (a ∷ b ∷ xs) (b ∷ a ∷ xs)
  through : {xs ys zs : List A} → Reordered xs ys → Reordered ys zs → Reordered xs zs
