-- ===== src/Dict.antt =====
-- A Python dict whose keys are texts, in insertion order.
pub mod Each
pub mod Update
use mathlib.Core.Option
use cloudify_system_tests.Prelude.{
  false, String, ◌≡◌, refl, Bool, Option, none, some, List, [], ◌∷◌, arith, ◌==◌, eq_iff,
  if◌then◌else◌, is_some,
}

abbrev pub Dict {ℓ} : Type ℓ → Type ℓ
Dict V = List (String × V)

module _ {ℓ} {V : Type ℓ} where
  -- `d.get(k)`
  unfoldable pub get : String → Dict V → Option V
  get k [] = none
  get k ((j, v) ∷ d) = if j == k then some v else get k d

  -- `k in d`
  abbrev pub contains : String → Dict V → Bool
  contains k d = is_some (get k d)

  -- `d[k] = v`
  unfoldable pub put : String → V → Dict V → Dict V
  put k v [] = (k, v) ∷ []
  put k v ((j, w) ∷ d) = if j == k then (j, v) ∷ d else (j, w) ∷ put k v d

  -- `d.pop(k)`, for a key that may be absent
  unfoldable pub remove : String → Dict V → Dict V
  remove k [] = []
  remove k ((j, w) ∷ d) = let rest = remove k d in if j == k then rest else (j, w) ∷ rest

  -- `d.update(other)`
  unfoldable pub update : Dict V → Dict V → Dict V
  update d [] = d
  update d ((k, v) ∷ other) = update (put k v d) other

  abbrev pub keys : Dict V → List String
  keys [] = []
  keys ((k, _) ∷ d) = k ∷ keys d

  pub get-put :
      (k j : String) (v : V) (d : Dict V) → get j (put k v d) ≡ (if k == j then some v else get j d)
  unfolding get put
  get-put k j v [] = refl
  get-put k j v ((i, w) ∷ d) = ground (arith, eq_iff k j, eq_iff i k, eq_iff i j, get-put k j v d)

  -- Writing back what a key held undoes a write to it.
  pub put-put_undo :
      (k : String) (v w : V) (d : Dict V) → get k d ≡ some v → put k v (put k w d) ≡ d
  unfolding get put
  put-put_undo k v w [] h = ground arith
  put-put_undo k v w ((i, u) ∷ d) h = ground (arith, eq_iff i k, put-put_undo k v w d)

  -- The keys of a dict are distinct. A dict that is built by `put` has this; one that is parsed is
  -- given with it.
  abbrev pub Distinct : Dict V → Type 0
  Distinct [] = Unit
  Distinct ((k, v) ∷ d) = (contains k d ≡ false) × Distinct d

module _ {ℓ κ} {V : Type ℓ} {U : Type κ} where
  -- `{k: f(v) for k, v in d.items()}`
  unfoldable pub map_values : (V → U) → Dict V → Dict U
  map_values f [] = []
  map_values f ((k, v) ∷ d) = (k, f v) ∷ map_values f d

  pub get-map_values :
      (f : V → U) (k : String) (d : Dict V) → get k (map_values f d) ≡ Option.map f (get k d)
  unfolding get map_values
  get-map_values f k [] = refl
  get-map_values f k ((j, v) ∷ d) = ground (arith, get-map_values f k d)
