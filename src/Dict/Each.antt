-- ===== src/Dict/Each.antt =====
-- What holds of every entry of a dict, and keeps holding as the dict is written to.
use mathlib.Core.Path.{subst}
use cloudify_system_tests.Prelude.{
  sym, String, ◌≡◌, some, [], ◌∷◌, ◌==◌, eq_iff, Bool-cases, inl, inr,
}
use cloudify_system_tests.Dict.{Dict, get, put, update}

pub some_inj {ℓ} : {A : Type ℓ} {a b : A} → some a ≡ some b → a ≡ b
some_inj e = cc

module _ {ℓ κ} {V : Type ℓ} (P : String → V → Type κ) where
  abbrev pub Each : Dict V → Type κ
  Each [] = Unit
  Each ((k, v) ∷ d) = P k v × Each d

  pub Each-get : (k : String) (v : V) (d : Dict V) → Each d → get k d ≡ some v → P k v
  unfolding get
  Each-get k v [] h e = cc
  Each-get k v ((j, w) ∷ d) h e = elim (Bool-cases (j == k)) [
    | inl same ↦
        subst (P k) (some_inj (rw same at e)) (subst (λ i. P i w) ((eq_iff j k).0 same) h.0)
    | inr other ↦ Each-get k v d h.1 (rw other at e)
  ]

  pub Each-put : (k : String) (v : V) (d : Dict V) → P k v → Each d → Each (put k v d)
  unfolding put
  Each-put k v [] p h = (p, tt)
  Each-put k v ((j, w) ∷ d) p h = elim (Bool-cases (j == k)) [
    | inl same ↦ rw same (subst (λ i. P i v) (sym ((eq_iff j k).0 same)) p, h.1)
    | inr other ↦ rw other (h.0, Each-put k v d p h.1)
  ]

  pub Each-update : (d e : Dict V) → Each d → Each e → Each (update d e)
  unfolding update
  Each-update d [] hd he = hd
  Each-update d ((k, v) ∷ e) hd he = Each-update (put k v d) e (Each-put k v d he.0 hd) he.1
