-- ===== src/ReplaceCerts/Laws.antt =====
-- What the replacement of the certificates of a manager changes in its configuration, and what it keeps.
use mathlib.Core.Option
use mathlib.Core.Path.{subst}
use cloudify_system_tests.Prelude.{
  ◌≡◌, refl, sym, ap, ◌∙◌, ℕ, String, Bool, true, false, ◌&&◌, ◌||◌, Option, none, some, List, [],
  ◌∷◌, ◌==◌, eq_iff, arith, if◌then◌else◌, Bool-cases, inl, inr,
}
use cloudify_system_tests.Text.{text_in, occurs, starts_with, codes}
use cloudify_system_tests.Dict.{Dict, get, keys}
use cloudify_system_tests.Value.{Value, table, Fields, entries, mapping}
use cloudify_system_tests.Value.Update.Laws.{entries-mapping, value-injective}
use cloudify_system_tests.Act.{Reply, value, fault}
use cloudify_system_tests.Config.Generate.{and_then}
use cloudify_system_tests.ReplaceCerts.{
  Paths, paths_for, path_for, replaced_by, replace_paths, replace_single, replace_all,
  replace_config,
}

get-replace_paths :
    (path_of : String → Option String) (k : String) (d : Dict Value)
    → get k (replace_paths path_of d) ≡ Option.map (replaced_by (path_of k)) (get k d)
unfolding get replace_paths
get-replace_paths path_of k [] = refl
get-replace_paths path_of k ((j, v) ∷ d) = elim (Bool-cases (j == k)) [
  | inl same ↦ rw same (ap (λ i. some (replaced_by (path_of i) v)) ((eq_iff j k).0 same))
  | inr other ↦ rw other (get-replace_paths path_of k d)
]

keys-replace_paths :
    (path_of : String → Option String) (d : Dict Value) → keys (replace_paths path_of d) ≡ keys d
unfolding replace_paths
keys-replace_paths path_of [] = refl
keys-replace_paths path_of ((j, v) ∷ d) = ap (λ ks. j ∷ ks) (keys-replace_paths path_of d)

and_inv : (a b : Bool) → (a && b) ≡ true → b ≡ true
and_inv true b e = e
and_inv false b e = cc

starts_later :
    (c p : ℕ) (cs ps : List ℕ) → starts_with (c ∷ cs) (p ∷ ps) ≡ true → (starts_with cs ps ≡ true)
unfolding starts_with
starts_later c p cs ps e = and_inv _ _ e

starts-occurs : (ps cs : List ℕ) → starts_with cs ps ≡ true → occurs ps cs ≡ true
unfolding occurs
starts-occurs ps [] e = e
starts-occurs ps (c ∷ cs) e = rw e refl

occurs_later : (ps : List ℕ) (c : ℕ) (cs : List ℕ) → occurs ps cs ≡ true → occurs ps (c ∷ cs) ≡ true
unfolding occurs
occurs_later ps c cs e = rw e (or_true _)
  where
    or_true : (a : Bool) → (a || true) ≡ true
    or_true true = refl
    or_true false = refl

-- A text that begins with the first of these has the second in it.
starts_there :
    (cs : List ℕ) → starts_with cs (codes "ca_key") ≡ true → occurs (codes "key") cs ≡ true
unfolding starts_with occurs
starts_there [] e = cc
starts_there (a ∷ []) e = ground (arith, e)
starts_there (a ∷ b ∷ []) e = ground (arith, e)
starts_there (a ∷ b ∷ c ∷ cs) e =
    let key = codes "key" in
    let third = starts_later a 99 (b ∷ c ∷ cs) (97 ∷ 95 ∷ key) e in
    let second = starts_later b 97 (c ∷ cs) (95 ∷ key) third in
    let found = starts-occurs key cs (starts_later c 95 cs key second) in
    occurs_later key a (b ∷ c ∷ cs) (occurs_later key b (c ∷ cs) (occurs_later key c cs found))

occurs-key : (cs : List ℕ) → occurs (codes "ca_key") cs ≡ true → occurs (codes "key") cs ≡ true
unfolding occurs
occurs-key [] e = starts_there [] e
occurs-key (c ∷ cs) e = elim (Bool-cases (starts_with (c ∷ cs) (codes "ca_key"))) [
  | inl here ↦ starts_there (c ∷ cs) here
  | inr later ↦ occurs_later (codes "key") c cs (occurs-key cs (rw later at e))
]

-- A name of a CA's key that is not one of a certificate is let be unless these keys are replaced too.
kept_name :
    (p : Paths) (name : String)
    → text_in "ca_key" name ≡ true
    → text_in "cert" name ≡ false
    → path_for false p name ≡ none
kept_name p name ca_key cert =
    rw (ca_key, cert, occurs-key (codes name) ca_key) (no_branch (text_in "ca" name))
  where
    no_branch :
        (b : Bool) → ◌≡◌ {A = Option String} (if b && false then some p.ca_path else none) none
    no_branch true = refl
    no_branch false = refl

and_then_inv :
    {A B : Type 0} (r : Reply A) (f : A → Reply B) (b : B)
    → and_then r f ≡ value b
    → (a : A) × (r ≡ value a) × (f a ≡ value b)
and_then_inv (value a) f b e = (a, refl, e)
and_then_inv (fault x) f b e = cc

-- A part of the configuration of one manager has the same names as before, and under each name the path
-- that is written for it, if one is, or what was there.
pub record IsReplaced (replace_ca_key : Bool) (p : Paths) (old : Option Value) (new : Option Value)
    : Type 0 where
  pub before : Fields
  pub after : Fields
  pub was : old ≡ some (table before)
  pub now : new ≡ some (table after)
  pub same_names : keys (entries after) ≡ keys (entries before)
  pub paths :
      (k : String)
      → get k (entries after)
        ≡ Option.map (replaced_by (path_for replace_ca_key p k)) (get k (entries before))

replace_single-IsReplaced :
    (replace_ca_key : Bool) (p : Paths) (fields : Fields) (new : Value)
    → replace_single replace_ca_key p (table fields) ≡ value new
    → IsReplaced replace_ca_key p (some (table fields)) (some new)
unfolding replace_single
replace_single-IsReplaced replace_ca_key p fields new e = record {
  before = fields;
  after = mapping (replace_paths (path_for replace_ca_key p) (entries fields));
  was = refl;
  now = ap some (sym (value-injective e));
  same_names =
      rw (entries-mapping, keys-replace_paths (path_for replace_ca_key p) (entries fields)) refl;
  paths =
      λ k. rw (entries-mapping) (get-replace_paths (path_for replace_ca_key p) k (entries fields));
}

-- The configuration with one part put in front.
front_IsReplaced :
    (replace_ca_key : Bool) (p : Paths) (j name : String) (v x : Value) (config others : Dict Value)
    (fields : Fields)
    → replace_single replace_ca_key p v ≡ value x
    → get name ((j, v) ∷ config) ≡ some (table fields)
    → (get name config ≡ some (table fields)
        → IsReplaced replace_ca_key p (some (table fields)) (get name others))
    → IsReplaced replace_ca_key p (some (table fields)) (get name ((j, x) ∷ others))
unfolding get
front_IsReplaced replace_ca_key p j name v x config others fields single h later =
    elim (Bool-cases (j == name)) [
      | inl same ↦
          let is_table : v ≡ table fields = option_inj (rw same at h) in
          rw same (
            replace_single-IsReplaced replace_ca_key p fields x
              (subst (λ u. replace_single replace_ca_key p u ≡ value x) is_table single))
      | inr other ↦ rw other (later (rw other at h))
    ]
  where
    option_inj : {a b : Value} → some a ≡ some b → a ≡ b
    option_inj e = cc

no_entry : (name : String) {v : Value} → get name [] ≡ some v → ⊥
unfolding get
no_entry name e = cc

replace_all-IsReplaced :
    (replace_ca_key : Bool) (host_ip : String) (config new : Dict Value) (name : String)
    (fields : Fields)
    → replace_all replace_ca_key (some host_ip) config ≡ value new
    → get name config ≡ some (table fields)
    → IsReplaced replace_ca_key (paths_for host_ip) (some (table fields)) (get name new)
unfolding replace_all
replace_all-IsReplaced replace_ca_key host_ip [] new name fields e h = absurd (no_entry name h)
replace_all-IsReplaced replace_ca_key host_ip ((j, v) ∷ config) new name fields e h =
    let (x, single, e1) =
      and_then_inv (replace_single replace_ca_key (paths_for host_ip) v) _ new e in
    let (others, rest, e2) =
      and_then_inv (replace_all replace_ca_key (some host_ip) config) _ new e1 in
    subst (λ d. IsReplaced replace_ca_key (paths_for host_ip) (some (table fields)) (get name d))
      (value-injective e2)
      (front_IsReplaced replace_ca_key (paths_for host_ip) j name v x config others fields single h
        (replace_all-IsReplaced replace_ca_key host_ip config others name fields rest))

-- Where the certificates of one manager are replaced, each part of its configuration keeps its names, and
-- under each of them is the path that is chosen for it, with the address of the manager, if one is, and
-- otherwise what was there.
replace_config-IsReplaced :
    (host_ip : String) (replace_ca_key : Bool) (config new : Dict Value) (name : String)
    (fields : Fields)
    → replace_config false (some host_ip) replace_ca_key config ≡ value new
    → get name config ≡ some (table fields)
    → IsReplaced replace_ca_key (paths_for host_ip) (some (table fields)) (get name new)
unfolding replace_config
replace_config-IsReplaced host_ip replace_ca_key config new name fields e h =
    replace_all-IsReplaced replace_ca_key host_ip config new name fields e h

-- Unless the keys of the CAs are to be replaced too, the entry of such a key that is not one of a
-- certificate is in the new configuration what it was in the old.
pub replace_config-keeps_ca_key :
    (host_ip : String) (config new : Dict Value) (name key : String) (fields : Fields)
    → replace_config false (some host_ip) false config ≡ value new
    → get name config ≡ some (table fields)
    → text_in "ca_key" key ≡ true
    → text_in "cert" key ≡ false
    → (after : Fields) × (get name new ≡ some (table after))
      × (get key (entries after) ≡ get key (entries fields))
replace_config-keeps_ca_key host_ip config new name key fields e h ca_key cert =
    let r = replace_config-IsReplaced host_ip false config new name fields e h in
    (
      r.after,
      r.now,
      r.paths key
          ∙ rw (kept_name (paths_for host_ip) key ca_key cert)
              (map_same (get key (entries r.before)))
          ∙ ap (λ f. get key (entries f)) (sym (same_table r.was)),
    )
  where
    same_table : {a b : Fields} → some (table a) ≡ some (table b) → a ≡ b
    same_table q = cc

    map_same : (o : Option Value) → Option.map (replaced_by none) o ≡ o
    map_same none = refl
    map_same (some v) = refl
