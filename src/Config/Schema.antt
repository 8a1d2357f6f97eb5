-- ===== src/Config/Schema.antt =====
-- `Config._update_schema`: taking a schema file into the schema.
pub mod Laws
use cloudify_system_tests.Prelude.{
  String, Bool, true, false, not, ◌&&◌, Option, none, some, [], ◌∷◌, ◌==◌, is_some, if◌then◌else◌,
}
use cloudify_system_tests.Text.{text_in}
use cloudify_system_tests.Dict.{Dict, get, put, update}
use cloudify_system_tests.Value.{Value, text}
use cloudify_system_tests.Act.{
  Act, Done, ok, err, key_error, schema_error, pass, raise, modify, ◌>>=◌, ◌>>◌,
}
use cloudify_system_tests.Config.{Entry, Node, entry, namespace, SchemaFile, Config}

-- `namespace != self.target_platform`
abbrev is_target : Option String → Value → Bool
is_target (some n) (text t) = n == t
is_target _ _ = false

-- Dots would interfere with access and display; every entry needs a description.
unfoldable pub is_healthy : String → Entry → Bool
is_healthy key e = not (text_in "." key) && is_some e.description

unfoldable pub healthy_schema : Dict Entry → Bool
unfolding is_healthy
healthy_schema [] = true
healthy_schema ((key, e) ∷ rest) = is_healthy key e && healthy_schema rest

-- what stands under the names of a dict of the schema that start with a dot: the mark of a namespace
abbrev marks : Node → Dict Bool
marks (entry e) = []
marks (namespace es) = (".is_namespace", true) ∷ []

-- `if not self.schema[namespace]['.is_namespace']: raise SchemaError(…)`
unfoldable pub require_mark : Option Bool → Act Config Done
require_mark none = raise key_error
require_mark (some is_namespace) = if is_namespace then pass else raise schema_error

-- the first `if`: the namespace is there from now on, also when the rest of the file is refused
unfoldable pub open_namespace : String → Option Node → Act Config Done
unfolding require_mark get
open_namespace name (some node) = require_mark (get ".is_namespace" (marks node))
open_namespace name none = modify (λ c. record c { schema = put name (namespace []) c.schema })

unfoldable pub as_nodes : Dict Entry → Dict Node
as_nodes [] = []
as_nodes ((k, e) ∷ rest) = (k, entry e) ∷ as_nodes rest

-- `self.schema[namespace].update(schema)`
unfoldable pub add_to_namespace : String → Dict Entry → Option Node → Dict Node → Dict Node
add_to_namespace name es (some (namespace old)) schema = put name (namespace (update old es)) schema
add_to_namespace name es _ schema = schema

unfoldable pub merge : Option String → Dict Entry → Dict Node → Dict Node
unfolding as_nodes add_to_namespace
merge none es schema = update schema (as_nodes es)
merge (some name) es schema = add_to_namespace name es (get name schema) schema

unfoldable pub declare_namespace : Option String → Act Config Done
unfolding open_namespace
declare_namespace none c = pass c
declare_namespace (some name) c = open_namespace name (get name c.schema) c

-- Entries for a platform other than the target are skipped.
unfoldable pub add_entries : SchemaFile → Act Config Done
unfolding healthy_schema merge
add_entries file c =
    if file.platform && not (is_target file.file_namespace c.target_platform)
    then (ok tt, c)
    else if healthy_schema file.file_entries
    then (ok tt, record c { schema = merge file.file_namespace file.file_entries c.schema })
    else (err schema_error, c)

unfoldable pub update_schema : SchemaFile → Act Config Done
unfolding declare_namespace add_entries ◌>>=◌
update_schema file = declare_namespace file.file_namespace >> add_entries file
