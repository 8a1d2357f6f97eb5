-- ===== src/Tests/Schemas.antt =====
-- Dictionaries that are updated, and schemas that are shown.
use mathlib.Core.Path.{subst}
use cloudify_system_tests.Prelude.{
  inr, inl, Bool-cases, eq_iff, ◌≡◌, refl, String, true, false, some, none, [], ◌∷◌, ◌==◌,
}
use cloudify_system_tests.Dict.{Dict, get, put}
use cloudify_system_tests.Value.{null, text, table, Fields, end, field, entries, mapping}
use cloudify_system_tests.Value.Update.{replace_held, replace, update_dictionary}
use cloudify_system_tests.Value.Update.Laws.{IsUpdate, update_dictionary-IsUpdate}
use cloudify_system_tests.Config.{Entry, Node, entry, namespace}
use cloudify_system_tests.Sorting.{swapped}
use cloudify_system_tests.ConfCli.{Writer, Mode, show_schema}
use cloudify_system_tests.ConfCli.Laws.{show_schema-Reordered}

abbrev first : Fields
first = field "name" (text "a") (field "db" (table (field "host" (text "h") end)) end)

-- a new host, and two keys that the first has not
abbrev second : Fields
second =
    field "db" (table (field "host" (text "g") (field "port" (text "1") end)))
      (field "zone" (text "z") end)

abbrev merged : Fields
merged = field "name" (text "a") (field "db" (table (field "host" (text "g") end)) end)

update_dictionary-IsUpdate_example : IsUpdate (entries first) (entries second) (table merged)
unfolding update_dictionary replace replace_held entries mapping get put
update_dictionary-IsUpdate_example =
    update_dictionary-IsUpdate second first (table merged) (refl, (refl, tt)) refl

abbrev writer : Writer
writer = record { dumps = λ v. "\"d\""; show = λ v. "v" }

abbrev sample : Mode
sample = record { generate_sample_config = true; include_defaults = true }

abbrev described : Entry
described = record {
  description = some (text "What it is");
  default = none;
  valid_values = [];
  nullable = false;
}

abbrev one : Dict Node
one = ("b", entry described) ∷ ("a", namespace (("x", described) ∷ [])) ∷ []

abbrev other : Dict Node
other = ("a", namespace (("x", described) ∷ [])) ∷ ("b", entry described) ∷ []

same_nodes : (name : String) → get name one ≡ get name other
unfolding get
same_nodes name = elim (Bool-cases ("a" == name)) [
  | inl first_name ↦ subst (λ n. get n one ≡ get n other) ((eq_iff "a" name).0 first_name) refl
  | inr later ↦ rw later refl
]

show_schema-Reordered_example :
    show_schema writer sample "" one (("b", null) ∷ [])
    ≡ show_schema writer sample "" other (("b", null) ∷ [])
show_schema-Reordered_example =
    show_schema-Reordered writer sample "" one other (("b", null) ∷ []) (swapped "b" "a" [])
      same_nodes
