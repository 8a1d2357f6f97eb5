-- ===== src/Config/Schema/Laws.antt =====
-- Every schema that can be built describes its entries, and what a refused file leaves behind.
use cloudify_system_tests.Act.{running, continue, Done, Result}
use cloudify_system_tests.Prelude.{
  ◌==◌, if◌then◌else◌, inr, inl, not, ◌&&◌, Bool-cases, String, ◌≡◌, ◌≢◌, refl, true, false, Option,
  none, some, [], ◌∷◌, arith,
}
use cloudify_system_tests.Text.{text_in}
use cloudify_system_tests.Dict.{Distinct, put, get-put, Dict, get, update}
use cloudify_system_tests.Dict.Each.{Each, Each-get, Each-put, Each-update}
use cloudify_system_tests.Dict.Update.{Distinct-put, Distinct-update}
use cloudify_system_tests.Config.{SchemaFile, Entry, Node, entry, namespace, Config}
use cloudify_system_tests.Config.Schema.{
  ok, err, is_target, add_entries, update_schema, is_healthy, healthy_schema, open_namespace,
  require_mark, as_nodes, add_to_namespace, merge, declare_namespace,
}

-- What the schema promises of an entry: a description, and a name that dots do not split.
abbrev IsDescribed : String → Entry → Type 0
IsDescribed key e = (text_in "." key ≡ false) × (e.description ≢ none)

abbrev IsDescribedNode : String → Node → Type 0
IsDescribedNode key (entry e) = IsDescribed key e
IsDescribedNode key (namespace es) = Each IsDescribed es

abbrev IsWellFormed : Dict Node → Type 0
IsWellFormed = Each IsDescribedNode

healthy-IsDescribed : (key : String) (e : Entry) → is_healthy key e ≡ true → IsDescribed key e
unfolding is_healthy
healthy-IsDescribed key e h = ground arith

healthy_schema-Each : (es : Dict Entry) → healthy_schema es ≡ true → Each IsDescribed es
unfolding healthy_schema
healthy_schema-Each [] h = tt
healthy_schema-Each ((k, e) ∷ es) h =
    (healthy-IsDescribed k e (ground arith), healthy_schema-Each es (ground arith))

as_nodes-IsWellFormed : (es : Dict Entry) → Each IsDescribed es → IsWellFormed (as_nodes es)
unfolding as_nodes
as_nodes-IsWellFormed [] h = tt
as_nodes-IsWellFormed ((k, e) ∷ es) h = (h.0, as_nodes-IsWellFormed es h.1)

add_to_namespace-IsWellFormed :
    (name : String) (es : Dict Entry) (o : Option Node) (schema : Dict Node)
    → get name schema ≡ o
    → Each IsDescribed es
    → IsWellFormed schema
    → IsWellFormed (add_to_namespace name es o schema)
unfolding add_to_namespace
add_to_namespace-IsWellFormed name es (some (namespace old)) schema found new h =
    Each-put IsDescribedNode name (namespace (update old es)) schema
      (Each-update IsDescribed old es (Each-get IsDescribedNode name (namespace old) schema h found)
        new)
      h
add_to_namespace-IsWellFormed name es (some (entry e)) schema found new h = h
add_to_namespace-IsWellFormed name es none schema found new h = h

merge-IsWellFormed :
    (file_namespace : Option String) (es : Dict Entry) (schema : Dict Node)
    → Each IsDescribed es
    → IsWellFormed schema
    → IsWellFormed (merge file_namespace es schema)
unfolding merge
merge-IsWellFormed none es schema new h =
    Each-update IsDescribedNode schema (as_nodes es) h (as_nodes-IsWellFormed es new)
merge-IsWellFormed (some name) es schema new h =
    add_to_namespace-IsWellFormed name es _ schema refl new h

-- What a schema file can do to a configuration: open an empty namespace, and merge entries that
-- are healthy. What both keep, the whole file keeps, and so does one that is refused.
module _ (Q : Config → Type 0)
    (opened : (name : String) (c : Config)
      → Q c
      → Q (record c { schema = put name (namespace []) c.schema }))
    (merged : (file_namespace : Option String) (es : Dict Entry) (c : Config)
      → healthy_schema es ≡ true
      → Q c
      → Q (record c { schema = merge file_namespace es c.schema })) where
  open_namespace-keeps :
      (name : String) (o : Option Node) (c : Config) → Q c → Q (open_namespace name o c).1
  unfolding open_namespace require_mark get
  open_namespace-keeps name (some (entry e)) c h = h
  open_namespace-keeps name (some (namespace es)) c h = h
  open_namespace-keeps name none c h = opened name c h

  declare_namespace-keeps :
      (file_namespace : Option String) (c : Config) → Q c → Q (declare_namespace file_namespace c).1
  unfolding declare_namespace
  declare_namespace-keeps none c h = h
  declare_namespace-keeps (some name) c h = open_namespace-keeps name _ c h

  add_entries-keeps : (file : SchemaFile) (c : Config) → Q c → Q (add_entries file c).1
  unfolding add_entries
  add_entries-keeps file c h =
      elim (Bool-cases (file.platform && not (is_target file.file_namespace c.target_platform))) [
        | inl skipped ↦ rw skipped h
        | inr taken ↦ rw taken (elim (Bool-cases (healthy_schema file.file_entries)) [
          | inl healthy ↦ rw healthy (merged file.file_namespace file.file_entries c healthy h)
          | inr refused ↦ rw refused h
        ])
      ]

  update_tail-keeps :
      (file : SchemaFile) (r : Result Done) (c : Config)
      → Q c
      → Q (continue r (λ _. add_entries file) c).1
  update_tail-keeps file (ok _) c h = add_entries-keeps file c h
  update_tail-keeps file (err e) c h = h
  update_tail-keeps file running c h = h

  update_schema-keeps : (file : SchemaFile) (c : Config) → Q c → Q (update_schema file c).1
  unfolding update_schema
  update_schema-keeps file c h =
      update_tail-keeps file (declare_namespace file.file_namespace c).0
        (declare_namespace file.file_namespace c).1
        (declare_namespace-keeps file.file_namespace c h)

-- A configuration as `Config.__init__` builds it.
pub record IsSound (c : Config) : Type 0 where
  pub described : IsWellFormed c.schema
  pub schema_keys : Distinct c.schema
  pub raw_keys : Distinct c.raw_config

add_to_namespace-Distinct :
    (name : String) (es : Dict Entry) (o : Option Node) (schema : Dict Node)
    → Distinct schema
    → Distinct (add_to_namespace name es o schema)
unfolding add_to_namespace
add_to_namespace-Distinct name es (some (namespace old)) schema h = Distinct-put name _ schema h
add_to_namespace-Distinct name es (some (entry e)) schema h = h
add_to_namespace-Distinct name es none schema h = h

merge-Distinct :
    (file_namespace : Option String) (es : Dict Entry) (schema : Dict Node)
    → Distinct schema
    → Distinct (merge file_namespace es schema)
unfolding merge
merge-Distinct none es schema h = Distinct-update schema (as_nodes es) h
merge-Distinct (some name) es schema h = add_to_namespace-Distinct name es _ schema h

-- Taking a schema file into a sound configuration keeps it sound, whatever the file holds and also
-- where it is refused: every entry has a description and a name without dots, and no name stands
-- twice.
pub update_schema-IsSound :
    (file : SchemaFile) (c : Config) → IsSound c → IsSound (update_schema file c).1
update_schema-IsSound =
    update_schema-keeps IsSound
      (λ name c h. record {
        described = Each-put IsDescribedNode name (namespace []) c.schema tt h.described;
        schema_keys = Distinct-put name (namespace []) c.schema h.schema_keys;
        raw_keys = h.raw_keys;
      })
      (λ file_namespace es c healthy h. record {
        described =
            merge-IsWellFormed file_namespace es c.schema (healthy_schema-Each es healthy)
              h.described;
        schema_keys = merge-Distinct file_namespace es c.schema h.schema_keys;
        raw_keys = h.raw_keys;
      })

-- A file that is for another platform, and whose namespace is new, adds no entry: its namespace
-- is there and empty, and under every other name the schema has what it had.
update_schema_skips :
    (file : SchemaFile) (name key : String) (c : Config)
    → file.platform ≡ true
    → file.file_namespace ≡ some name
    → is_target (some name) c.target_platform ≡ false
    → get name c.schema ≡ none
    → ((update_schema file c).0 ≡ ok tt)
      × (get key (update_schema file c).1.schema
          ≡ (if name == key then some (namespace []) else get key c.schema))
unfolding update_schema declare_namespace open_namespace add_entries
update_schema_skips file name key c h p q new =
    ground (arith, get-put name key (namespace []) c.schema)
