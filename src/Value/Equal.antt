-- ===== src/Value/Equal.antt =====
-- `==` of Python on the values that YAML files hold.
use cloudify_system_tests.Prelude.{
  ℕ, Bool, true, false, ◌&&◌, ◌||◌, ◌==◌, leb, length, Option, none, some, List, [], ◌∷◌,
}
use cloudify_system_tests.Dict.{Dict, get}
use cloudify_system_tests.Value.{
  Value, null, flag, number, text, sequence, table, Items, nil, cons, Fields, end, field, entries,
}

abbrev pub same : ℕ → ℕ → Bool
same n k = leb n k && leb k n

-- `True` equals the number one, and `False` zero.
abbrev as_number : Bool → ℕ
as_number true = 1
as_number false = 0

abbrev same_number : ℕ → Value → Bool
same_number n (number k) = same n k
same_number n (flag b) = same n (as_number b)
same_number n v = false

abbrev holds : (Value → Bool) → Option Value → Bool
holds f none = false
holds f (some v) = f v

unfoldable mutual
  equal : Value → Value → Bool
  equal null null = true
  equal (flag b) v = same_number (as_number b) v
  equal (number n) v = same_number n v
  equal (text t) (text u) = t == u
  equal (sequence xs) (sequence ys) = equal_items xs ys
  equal (table fs) (table gs) =
      same (length (entries fs)) (length (entries gs)) && equal_fields fs (entries gs)
  equal v w = false

  equal_items : Items → Items → Bool
  equal_items nil nil = true
  equal_items (cons v vs) (cons w ws) = equal v w && equal_items vs ws
  equal_items vs ws = false

  -- Each field has its equal under the same key.
  equal_fields : Fields → Dict Value → Bool
  equal_fields end d = true
  equal_fields (field k v rest) d = holds (equal v) (get k d) && equal_fields rest d

-- `v in vs`
unfoldable pub is_among : Value → List Value → Bool
unfolding equal
is_among v [] = false
is_among v (w ∷ ws) = equal v w || is_among v ws
