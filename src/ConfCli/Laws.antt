-- ===== src/ConfCli/Laws.antt =====
-- The order in which the schema files were read does not show.
use mathlib.Core.Path.{fun_ext}
use cloudify_system_tests.Prelude.{ap, ◌≡◌, String}
use cloudify_system_tests.Dict.{Dict, get, keys}
use cloudify_system_tests.Value.{Value}
use cloudify_system_tests.Config.{Node}
use cloudify_system_tests.Sorting.{Reordered, sorted}
use cloudify_system_tests.Sorting.Laws.{sorted-Reordered}
use cloudify_system_tests.Sorting.Keys.{text_order}
use cloudify_system_tests.ConfCli.{Writer, Mode, show_names, show_schema}

-- Two schemas that have the same under each name, the names in whatever order, are shown by the same
-- text, and refused alike; so are the sample configurations for them.
pub show_schema-Reordered :
    (w : Writer) (m : Mode) (indent : String) (s t : Dict Node) (raw_config : Dict Value)
    → Reordered (keys s) (keys t)
    → ((name : String) → get name s ≡ get name t)
    → show_schema w m indent s raw_config ≡ show_schema w m indent t raw_config
unfolding show_schema
show_schema-Reordered w m indent s t raw_config same_names same_nodes =
    rw (sorted-Reordered same_names)
      (ap (λ look. show_names w m indent (sorted (keys t)) look raw_config) (fun_ext same_nodes))
