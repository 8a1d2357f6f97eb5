-- ===== src/Value/Update.antt =====
-- `update_dictionary` of framework/util.py, on the values that YAML files hold.
pub mod Laws
use cloudify_system_tests.Prelude.{
  String, Bool, true, false, ◌||◌, Option, none, some, ◌==◌, if◌then◌else◌,
}
use cloudify_system_tests.Text.{text_in}
use cloudify_system_tests.Dict.{Dict, get, put}
use cloudify_system_tests.Act.{Reply, value, fault, type_error}
use cloudify_system_tests.Config.Generate.{and_then}
use cloudify_system_tests.Value.{
  Value, text, sequence, table, Items, nil, cons, Fields, end, field, entries, mapping,
}

-- `key in xs`, for a list
unfoldable pub is_item : String → Items → Bool
is_item key nil = false
is_item key (cons (text t) rest) = t == key || is_item key rest
is_item key (cons v rest) = is_item key rest

-- `dict1[key] = …`, where `dict1` has the key
unfoldable pub replace_held : String → Fields → (Value → Reply Value) → Option Value → Reply Value
replace_held key fields change none = value (table fields)
replace_held key fields change (some old) =
    and_then (change old) (λ new. value (table (mapping (put key new (entries fields)))))

-- one round of the loop; a text and a list can be asked for a key too, but not assigned to
unfoldable pub replace : String → Value → (Value → Reply Value) → Reply Value
unfolding replace_held
replace key (table fields) change = replace_held key fields change (get key (entries fields))
replace key (text t) change = if text_in key t then fault type_error else value (text t)
replace key (sequence items) change =
    if is_item key items then fault type_error else value (sequence items)
replace key v change = fault type_error

-- the result for `dict2` and `dict1`, in this order
unfoldable pub update_dictionary : Fields → Value → Reply Value
update_dictionary end dict1 = value dict1
update_dictionary (field key (table fields) rest) dict1 =
    and_then (replace key dict1 (λ old. update_dictionary fields old))
      (λ updated. update_dictionary rest updated)
update_dictionary (field key v rest) dict1 =
    and_then (replace key dict1 (λ old. value v)) (λ updated. update_dictionary rest updated)
