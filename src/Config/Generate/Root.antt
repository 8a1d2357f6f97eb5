-- ===== src/Config/Generate/Root.antt =====
-- What the generated configuration holds at the root.
use mathlib.Core.Option
use mathlib.Core.Path.{subst}
use cloudify_system_tests.Prelude.{
  ap, String, ◌≡◌, refl, ◌∙◌, true, false, Option, none, some, [], ◌∷◌, ◌==◌, eq_iff, arith,
  Bool-cases, inl, inr,
}
use cloudify_system_tests.Act.{Reply, value, fault}
use cloudify_system_tests.Dict.{Dict, get, put, contains, Distinct, get-put, get-map_values}
use cloudify_system_tests.Value.{Value}
use cloudify_system_tests.Config.{Config, Entry, Node, entry, namespace, set, Slot, setting, space}
use cloudify_system_tests.Config.Generate.{
  and_then, root_default, generate_namespace, namespace_raw, populate_namespaces, generate_config,
}
use cloudify_system_tests.Config.Generate.Laws.{overridden, get-populate, setting_of}

-- What filling the namespaces in does to the slot of a name, by what the schema has there.
abbrev Filled : Dict Value → Option Value → Option Node → Option Slot → Option Slot → Type 0
Filled raw supplied (some (namespace es)) before after =
    (own : Dict Value) × (namespace_raw raw supplied ≡ value own)
    × (after ≡ some (space (generate_namespace es own)))
Filled raw supplied _ before after = after ≡ before

Filled-none :
    (raw : Dict Value) (supplied : Option Value) (o : Option Node) (before after : Option Slot)
    → o ≡ none
    → Filled raw supplied o before after
    → after ≡ before
Filled-none raw supplied none before after u h = h
Filled-none raw supplied (some n) before after u h = cc

Filled-before :
    (raw : Dict Value) (supplied : Option Value) (o : Option Node) (b c after : Option Slot)
    → b ≡ c
    → Filled raw supplied o b after
    → Filled raw supplied o c after
Filled-before raw supplied o b c after e h = subst (λ x. Filled raw supplied o x after) e h

absent {ℓ} :
    {V : Type ℓ} (j k : String) (d : Dict V)
    → contains j d ≡ false
    → (j == k) ≡ true
    → get k d ≡ none
absent j k d h same = subst (λ i. get i d ≡ none) ((eq_iff j k).0 same) (ground arith)

module _ (raw : Dict Value) (k : String) (d : Dict Slot) where
  abbrev FilledAt : Dict Node → Dict Slot → Type 0
  FilledAt schema config = Filled raw (get k raw) (get k schema) (get k config) (get k d)

  filled_entry :
      (j : String) (x : Entry) (schema : Dict Node) (config : Dict Slot)
      → contains j schema ≡ false
      → FilledAt schema config
      → FilledAt ((j, entry x) ∷ schema) config
  unfolding get
  filled_entry j x schema config u h = elim (Bool-cases (j == k)) [
    | inl same ↦ rw same (Filled-none raw _ _ _ _ (absent j k schema u same) h)
    | inr other ↦ rw other h
  ]

  filled_namespace :
      (j : String) (es : Dict Entry) (schema : Dict Node) (config : Dict Slot) (own : Dict Value)
      → contains j schema ≡ false
      → namespace_raw raw (get j raw) ≡ value own
      → FilledAt schema (put j (space (generate_namespace es own)) config)
      → FilledAt ((j, namespace es) ∷ schema) config
  unfolding get
  filled_namespace j es schema config own u n h = elim (Bool-cases (j == k)) [
    | inl same ↦ rw same (
      own,
      subst (λ i. namespace_raw raw (get i raw) ≡ value own) ((eq_iff j k).0 same) n,
      Filled-none raw _ _ _ _ (absent j k schema u same) h ∙ get-put j k _ config ∙ rw same refl,
    )
    | inr other ↦ rw other (Filled-before raw _ _ _ _ _ (get-put j k _ config ∙ rw other refl) h)
  ]

  filled_if_table :
      (j : String) (es : Dict Entry) (schema : Dict Node) (config : Dict Slot)
      (r : Reply (Dict Value))
      → contains j schema ≡ false
      → namespace_raw raw (get j raw) ≡ r
      → and_then r
          (λ own. populate_namespaces raw schema (put j (space (generate_namespace es own)) config))
        ≡ value d
      → ((own : Dict Value)
          → populate_namespaces raw schema (put j (space (generate_namespace es own)) config)
            ≡ value d
          → FilledAt schema (put j (space (generate_namespace es own)) config))
      → FilledAt ((j, namespace es) ∷ schema) config
  filled_if_table j es schema config (value own) u n e ih =
      filled_namespace j es schema config own u n (ih own e)
  filled_if_table j es schema config (fault x) u n e ih = cc

  populate_namespaces-Filled :
      (schema : Dict Node) (config : Dict Slot)
      → Distinct schema
      → populate_namespaces raw schema config ≡ value d
      → FilledAt schema config
  unfolding populate_namespaces
  populate_namespaces-Filled [] config h e = unfold get in cc
  populate_namespaces-Filled ((j, entry x) ∷ schema) config h e =
      filled_entry j x schema config h.0 (populate_namespaces-Filled schema config h.1 e)
  populate_namespaces-Filled ((j, namespace es) ∷ schema) config h e =
      filled_if_table j es schema config _ h.0 refl e (λ own e'.
        populate_namespaces-Filled schema (put j (space (generate_namespace es own)) config) h.1 e')

-- What the generated configuration has under a name, by what the schema has there: the supplied
-- value of an entry, or else its default, or else `NotSet`; the settings of a namespace; and
-- nothing where the schema has nothing.
abbrev pub IsGenerated : Config → String → Option Node → Option Slot → Type 0
IsGenerated c k none slot = slot ≡ none
IsGenerated c k (some (entry e)) slot = slot ≡ some (setting (setting_of (get k c.raw_config) e))
IsGenerated c k (some (namespace es)) slot =
    (own : Dict Value) × (namespace_raw c.raw_config (get k c.raw_config) ≡ value own)
    × (slot ≡ some (space (generate_namespace es own)))

abbrev initial_slot : Option Value → Option Node → Option Slot
initial_slot supplied node =
    overridden (λ v. setting (set v)) supplied (Option.map root_default node)

IsGenerated-from_Filled :
    (c : Config) (k : String) (supplied : Option Value) (node : Option Node) (slot : Option Slot)
    → get k c.raw_config ≡ supplied
    → Filled c.raw_config (get k c.raw_config) node (initial_slot supplied node) slot
    → IsGenerated c k node slot
IsGenerated-from_Filled c k none none slot e h = h
IsGenerated-from_Filled c k (some v) none slot e h = h
IsGenerated-from_Filled c k none (some (entry x)) slot e h = rw e h
IsGenerated-from_Filled c k (some v) (some (entry x)) slot e h = rw e h
IsGenerated-from_Filled c k supplied (some (namespace es)) slot e h = h

-- Where no key stands twice in the schema or in what was supplied, a configuration that is generated
-- has, for every name, nothing if the schema lacks it, the supplied value or the default for an
-- entry, and for a namespace the settings generated from what was supplied for it.
pub generate_config-IsGenerated :
    (c : Config) (k : String) (d : Dict Slot)
    → Distinct c.schema
    → Distinct c.raw_config
    → generate_config c ≡ value d
    → IsGenerated c k (get k c.schema) (get k d)
unfolding generate_config
generate_config-IsGenerated c k d hs hr e =
    IsGenerated-from_Filled c k _ (get k c.schema) (get k d) refl (
      Filled-before c.raw_config _ (get k c.schema) _ _ (get k d)
        (get-populate (λ v. setting (set v)) k c.raw_config _ hr
          ∙ ap (overridden (λ v. setting (set v)) (get k c.raw_config))
              (get-map_values root_default k c.schema))
        (populate_namespaces-Filled c.raw_config k d c.schema _ hs e))
