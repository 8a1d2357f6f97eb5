-- ===== src/Dict/Update.antt =====
-- What a dict holds after `update`, and under which keys.
use cloudify_system_tests.Prelude.{
  is_some, ap, false, Bool-cases, ◌==◌, inr, ◌∙◌, inl, Option-cases, String, ◌≡◌, refl, true,
  Option, none, some, [], ◌∷◌, eq_iff, arith, is_in,
}
use cloudify_system_tests.Dict.{
  Dict, get, put, update, keys, Distinct, map_values, get-put, get-map_values,
}

module _ {ℓ} {V : Type ℓ} where
  -- the newer value of a key, if there is one
  abbrev pub newer : Option V → Option V → Option V
  newer none old = old
  newer (some v) old = some v

  pub get-update :
      (k : String) (d e : Dict V) → Distinct e → get k (update d e) ≡ newer (get k e) (get k d)
  unfolding get update
  get-update k d [] h = refl
  get-update k d ((j, v) ∷ e) h =
      ground (arith, eq_iff j k, get-put j k v d, get-update k (put j v d) e h.1)

  pub is_in-keys : (k : String) (v : V) (d : Dict V) → get k d ≡ some v → is_in k (keys d) ≡ true
  unfolding get
  is_in-keys k v [] h = cc
  is_in-keys k v ((j, w) ∷ d) h = ground (arith, is_in-keys k v d)

module _ {ℓ κ} {V : Type ℓ} {U : Type κ} where
  pub Distinct-map_values : (f : V → U) (d : Dict V) → Distinct d → Distinct (map_values f d)
  unfolding map_values
  Distinct-map_values f [] h = tt
  Distinct-map_values f ((k, v) ∷ d) h =
      (ground (arith, get-map_values f k d, h.0), Distinct-map_values f d h.1)

module _ {ℓ} {V : Type ℓ} where
  pub is_in-keys-update :
      (k : String) (v : V) (d e : Dict V)
      → Distinct e
      → get k d ≡ some v
      → is_in k (keys (update d e)) ≡ true
  is_in-keys-update k v d e h p = elim (Option-cases (get k e)) [
    | inl old ↦ is_in-keys k v (update d e) (get-update k d e h ∙ rw (old, p) refl)
    | inr (w, new) ↦ is_in-keys k w (update d e) (get-update k d e h ∙ rw new refl)
  ]

not-same : (k j : String) → (j == k) ≡ false → (k == j) ≡ false
not-same k j h = ground (arith, eq_iff k j, eq_iff j k)

module _ {ℓ} {V : Type ℓ} where
  pub Distinct-put : (k : String) (v : V) (d : Dict V) → Distinct d → Distinct (put k v d)
  unfolding put
  Distinct-put k v [] h = (unfold get in refl, tt)
  Distinct-put k v ((j, w) ∷ d) h = elim (Bool-cases (j == k)) [
    | inl same ↦ rw same h
    | inr other ↦
        rw other (
          ap is_some (get-put k j v d ∙ rw (not-same k j other) refl) ∙ h.0,
          Distinct-put k v d h.1,
        )
  ]

  pub Distinct-update : (d e : Dict V) → Distinct d → Distinct (update d e)
  unfolding update
  Distinct-update d [] h = h
  Distinct-update d ((k, v) ∷ e) h = Distinct-update (put k v d) e (Distinct-put k v d h)
