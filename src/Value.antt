-- ===== src/Value.antt =====
-- The values that YAML files hold.
pub mod Equal
pub mod Update
use cloudify_system_tests.Prelude.{ℕ, String, Bool, [], ◌∷◌}
use cloudify_system_tests.Dict.{Dict}

mutual
  pub data Value : Type 0 where
    null : Value
    flag : Bool → Value
    number : ℕ → Value
    text : String → Value
    sequence : Items → Value
    table : Fields → Value

  pub data Items : Type 0 where
    nil : Items
    cons : Value → Items → Items

  pub data Fields : Type 0 where
    end : Fields
    field : String → Value → Fields → Fields

-- A YAML mapping as a dict, and a dict as a YAML mapping.
unfoldable pub entries : Fields → Dict Value
entries end = []
entries (field k v fs) = (k, v) ∷ entries fs

unfoldable pub mapping : Dict Value → Fields
mapping [] = end
mapping ((k, v) ∷ d) = field k v (mapping d)
