-- ===== src/Sorting/Laws.antt =====
-- The result of `sorted` is the same for listings that differ in their order only.
use mathlib.Core.Path.{subst}
use cloudify_system_tests.Prelude.{
  inr, sym, inl, Bool-cases, ◌≡◌, refl, ap, ◌∙◌, List, [], ◌∷◌, arith,
}
use cloudify_system_tests.Sorting.{
  Ordered, insert, sorted, Reordered, none_left, same_head, swapped, through,
}

module _ {ℓ} {K : Type ℓ} ⦃o : Ordered K⦄ where
  insert_comm : (a b : K) (xs : List K) → insert a (insert b xs) ≡ insert b (insert a xs)
  unfolding insert
  insert_comm a b [] = ground (arith, o.total a b, o.total b a, o.antisym a b)
  insert_comm a b (x ∷ xs) = ground (
    arith,
    o.total a b,
    o.total b a,
    o.antisym a b,
    o.trans a b x,
    o.trans b a x,
    o.total a x,
    o.total b x,
    o.trans a x b,
    o.trans b x a,
    insert_comm a b xs,
  )

  -- A sorted listing does not depend on the order of the listing.
  pub sorted-Reordered : {xs ys : List K} → Reordered xs ys → sorted xs ≡ sorted ys
  unfolding sorted
  sorted-Reordered none_left = refl
  sorted-Reordered (same_head a r) = ap (insert a) (sorted-Reordered r)
  sorted-Reordered (swapped a b xs) = insert_comm a b (sorted xs)
  sorted-Reordered (through r q) = sorted-Reordered r ∙ sorted-Reordered q

module _ {ℓ} {K : Type ℓ} where
  same_listing : (xs : List K) → Reordered xs xs
  same_listing [] = none_left
  same_listing (x ∷ xs) = same_head x (same_listing xs)

  back : {xs ys : List K} → Reordered xs ys → Reordered ys xs
  back none_left = none_left
  back (same_head a r) = same_head a (back r)
  back (swapped a b xs) = swapped b a xs
  back (through r q) = through (back q) (back r)

module _ {ℓ} {K : Type ℓ} ⦃o : Ordered K⦄ where
  insert-Reordered : (a : K) (xs : List K) → Reordered (a ∷ xs) (insert a xs)
  unfolding insert
  insert-Reordered a [] = same_listing (a ∷ [])
  insert-Reordered a (b ∷ bs) = elim (Bool-cases (o.le a b)) [
    | inl low ↦ rw low (same_listing (a ∷ b ∷ bs))
    | inr high ↦ rw high (through (swapped a b bs) (same_head b (insert-Reordered a bs)))
  ]

  sorted_listing : (xs : List K) → Reordered xs (sorted xs)
  unfolding sorted
  sorted_listing [] = none_left
  sorted_listing (a ∷ xs) =
      through (same_head a (sorted_listing xs)) (insert-Reordered a (sorted xs))

  -- Listings that are sorted to the same have the same items.
  pub sorted_inv : (xs ys : List K) → sorted xs ≡ sorted ys → Reordered xs ys
  sorted_inv xs ys e =
      through (sorted_listing xs) (subst (λ zs. Reordered zs ys) (sym e) (back (sorted_listing ys)))
