-- ===== src/Value/Update/Laws.antt =====
-- What a dictionary holds after an update.
use mathlib.Core.Path.{subst}
use cloudify_system_tests.Prelude.{
  Bool-cases, eq_iff, if◌then◌else◌, is_some, ◌⊎◌, if◌then◌else◌, ◌∙◌, inr, inl, false, sym, ◌⊎◌,
  ◌==◌, ◌≡◌, refl, ap, String, Option, none, some, [], ◌∷◌, arith,
}
use cloudify_system_tests.Dict.{contains, Distinct, get-put, Dict, get, put, keys}
use cloudify_system_tests.Act.{fault, Reply, value}
use cloudify_system_tests.Config.Generate.{and_then}
use cloudify_system_tests.Value.{end, Value, table, Fields, field, entries, mapping}
use cloudify_system_tests.Value.Update.{replace_held, replace, update_dictionary}

pub entries-mapping : (d : Dict Value) → entries (mapping d) ≡ d
unfolding entries mapping
entries-mapping [] = refl
entries-mapping ((k, v) ∷ d) = ap (λ e. (k, v) ∷ e) (entries-mapping d)

keys-put :
    (k : String) (v w : Value) (d : Dict Value) → get k d ≡ some w → keys (put k v d) ≡ keys d
unfolding get put
keys-put k v w [] h = cc
keys-put k v w ((j, u) ∷ d) h = ground (arith, keys-put k v w d)

-- what one entry of the second dictionary makes of the value under its key
abbrev change_by : Value → Value → Reply Value
change_by (table fields) old = update_dictionary fields old
change_by v old = value v

update_field :
    (k : String) (v : Value) (rest : Fields) (d : Value)
    → update_dictionary (field k v rest) d
      ≡ and_then (replace k d (change_by v)) (update_dictionary rest)
unfolding update_dictionary
update_field k (table fields) rest d = refl
update_field k v rest d = refl

-- A key that the first lacks stays absent, one that only the first has keeps its value, and one that
-- both have gets what the second makes of it.
abbrev Merged : Option Value → Option Value → Option Value → Type 0
Merged none second new = new ≡ none
Merged (some old) none new = new ≡ some old
Merged (some old) (some v) new = (n : Value) × (change_by v old ≡ value n) × (new ≡ some n)

-- The result is a dictionary with the keys of the first.
pub record IsUpdate (first second : Dict Value) (r : Value) : Type 0 where
  pub fields : Fields
  shape : r ≡ table fields
  same_keys : keys (entries fields) ≡ keys first
  pub merged : (j : String) → Merged (get j first) (get j second) (get j (entries fields))

pub value-injective : {A : Type 0} {a b : A} → value a ≡ value b → a ≡ b
value-injective e = cc

and_then_inv :
    {A B : Type 0} (r : Reply A) (f : A → Reply B) (b : B)
    → and_then r f ≡ value b
    → (a : A) × (r ≡ value a) × (f a ≡ value b)
and_then_inv (value a) f b e = (a, refl, e)
and_then_inv (fault x) f b e = cc

-- What one round has done.
record Replaced (k : String) (first : Fields) (change : Value → Reply Value) (r : Value)
    : Type 0 where
  fields : Fields
  shape : r ≡ table fields
  same_keys : keys (entries fields) ≡ keys (entries first)
  others : (j : String) → (k == j) ≡ false → get j (entries fields) ≡ get j (entries first)
  here :
      ((get k (entries first) ≡ none) × (get k (entries fields) ≡ none))
      ⊎ ((old : Value) × (n : Value) × (get k (entries first) ≡ some old)
          × (change old ≡ value n)
          × (get k (entries fields) ≡ some n))

replaced :
    (k : String) (first : Fields) (change : Value → Reply Value) (o : Option Value) (r : Value)
    → get k (entries first) ≡ o
    → replace_held k first change o ≡ value r
    → Replaced k first change r
unfolding replace_held
replaced k first change none r held e = record {
  fields = first;
  shape = sym (value-injective e);
  same_keys = refl;
  others = λ j _. refl;
  here = inl (held, held);
}
replaced k first change (some old) r held e =
    let (n, changed, made) = and_then_inv (change old) _ r e in
    let after = entries-mapping (put k n (entries first)) in
    record {
      fields = mapping (put k n (entries first));
      shape = sym (value-injective made);
      same_keys = ap keys after ∙ keys-put k n old (entries first) held;
      others = λ j other.
          ap (get j) after
          ∙ get-put k j n (entries first)
          ∙ ap (λ b. if b then some n else get j (entries first)) other;
      here = inr (
        old,
        n,
        held,
        changed,
        ap (get k) after
            ∙ get-put k k n (entries first)
            ∙ ap (λ b. if b then some n else get k (entries first)) ((eq_iff k k).1 refl),
      );
    }

merged_here :
    (first mid last : Option Value) (v : Value)
    → ((first ≡ none) × (mid ≡ none))
      ⊎ ((old : Value) × (n : Value) × (first ≡ some old)
          × (change_by v old ≡ value n)
          × (mid ≡ some n))
    → Merged mid none last
    → Merged first (some v) last
merged_here first mid last v (inl (p, q)) h = rw p (rw q at h)
merged_here first mid last v (inr (old, n, p, c, q)) h = rw p (n, c, rw q at h)

merged_same : (o : Option Value) → Merged o none o
merged_same none = refl
merged_same (some old) = refl

absent : (o : Option Value) → is_some o ≡ false → o ≡ none
absent none h = refl
absent (some v) h = cc

module _ (k : String) (v : Value) (rest first : Fields) where
  merged_after :
      (mid : Value) (w : Replaced k first (change_by v) mid) (r : Value)
      (u : IsUpdate (entries w.fields) (entries rest) r)
      → contains k (entries rest) ≡ false
      → (j : String)
      → Merged (get j (entries first)) (get j ((k, v) ∷ entries rest)) (get j (entries u.fields))
  unfolding get
  merged_after mid w r u fresh j = elim (Bool-cases (k == j)) [
    | inl same ↦ rw same (
        subst (λ i. Merged (get i (entries first)) (some v) (get i (entries u.fields)))
          ((eq_iff k j).0 same)
          (merged_here _ _ _ v w.here (rw (absent (get k (entries rest)) fresh) at (u.merged k))))
    | inr other ↦ rw (other, sym (w.others j other)) (u.merged j)
  ]

-- An update by a dictionary whose keys are distinct, where it ends without an exception, gives a
-- dictionary with the keys of the first in their order: what the second has beside them is dropped.
-- Under each key is what the first had where the second has nothing, and else the value of the
-- second, or where that is a dictionary too, what it makes of the value of the first.
pub update_dictionary-IsUpdate :
    (second first : Fields) (r : Value)
    → Distinct (entries second)
    → update_dictionary second (table first) ≡ value r
    → IsUpdate (entries first) (entries second) r
unfolding update_dictionary replace get entries
update_dictionary-IsUpdate end first r h e = record {
  fields = first;
  shape = sym (value-injective e);
  same_keys = refl;
  merged = λ j. merged_same (get j (entries first));
}
update_dictionary-IsUpdate (field k v rest) first r (fresh, h) e =
    let (mid, swapped, onward) =
      and_then_inv (replace k (table first) (change_by v)) (update_dictionary rest) r
        (sym (update_field k v rest (table first)) ∙ e) in
    let w = replaced k first (change_by v) (get k (entries first)) mid refl swapped in
    let u =
      update_dictionary-IsUpdate rest w.fields r h
        (ap (update_dictionary rest) (sym w.shape) ∙ onward) in
    record {
      fields = u.fields;
      shape = u.shape;
      same_keys = u.same_keys ∙ w.same_keys;
      merged = merged_after k v rest first mid w r u fresh;
    }
