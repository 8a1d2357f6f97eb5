-- ===== src/ClusterManager/Config/Laws.antt =====
-- What the configuration of a cluster holds once the machines have been written to it.
use cloudify_system_tests.Config.Generate.{and_then}
use cloudify_system_tests.Value.Update.Laws.{entries-mapping, value-injective}
use mathlib.Core.Path.{subst}
use cloudify_system_tests.Act.{fault, Reply, value}
use cloudify_system_tests.Value.{Fields, mapping, entries, text, table, Value}
use cloudify_system_tests.Dict.{put, get-put, get, Dict, update}
use cloudify_system_tests.Prelude.{
  inr, ◌∙◌, ap, ◌≤◌, inl, eq_iff, length, Bool-cases, false, ◌==◌, sym, none, some, Option, ◌≡◌,
  refl, ℕ, zero, suc, ◌+◌, ◌-◌, ◌<◌, String, List, [], ◌∷◌, arith, if◌then◌else◌,
}
use cloudify_system_tests.Text.{str, starts_with, codes}
use cloudify_system_tests.ClusterManager.Config.{
  update_nine_nodes_config_dict_vms, update_vm, update_from, update_vms, ClusterNode, addresses,
  update_entry, nine_node_name,
}

-- The rank of a node of a cluster of nine: the brokers come first, then the databases, then the managers.
unfoldable rank_of : String → ℕ
unfolding starts_with
rank_of name = offset + (last_code name - 49)
  where
    offset : ℕ
    offset =
        if starts_with (codes name) (codes "rabbitmq-")
        then 0
        else if starts_with (codes name) (codes "postgresql-")
        then 3
        else 6

    last_of : List ℕ → ℕ
    last_of [] = 0
    last_of (c ∷ []) = c
    last_of (c ∷ cs) = last_of cs

    last_code : String → ℕ
    last_code t = last_of (codes t)

-- The name that a machine of nine gets can be read back: it tells the kind of the machine and its number,
-- and with them where it stood in the list.
rank_of-nine_node_name : (i : ℕ) → i < 9 → rank_of (nine_node_name i) ≡ i
unfolding rank_of str
rank_of-nine_node_name zero h = refl
rank_of-nine_node_name (suc zero) h = refl
rank_of-nine_node_name (suc (suc zero)) h = refl
rank_of-nine_node_name (suc (suc (suc zero))) h = refl
rank_of-nine_node_name (suc (suc (suc (suc zero)))) h = refl
rank_of-nine_node_name (suc (suc (suc (suc (suc zero))))) h = refl
rank_of-nine_node_name (suc (suc (suc (suc (suc (suc zero)))))) h = refl
rank_of-nine_node_name (suc (suc (suc (suc (suc (suc (suc zero))))))) h = refl
rank_of-nine_node_name (suc (suc (suc (suc (suc (suc (suc (suc zero)))))))) h = refl
rank_of-nine_node_name (suc (suc (suc (suc (suc (suc (suc (suc (suc i))))))))) h =
    absurd (omega (arith, h))

abbrev as_dict : Option Value → Option (Dict Value)
as_dict (some (table fields)) = some (entries fields)
as_dict _ = none

abbrev vm_in : String → Option Value → Option (Dict Value)
vm_in name (some (table fields)) = as_dict (get name (entries fields))
vm_in name _ = none

-- The entry of a machine: `config_dict['existing_vms'][name]`, where these are dicts.
abbrev entry_of : String → Dict Value → Option (Dict Value)
entry_of name config = vm_in name (get "existing_vms" config)

-- The entry of this name tells where the machine is.
abbrev HasAddress : String → ClusterNode → Dict Value → Type 0
HasAddress name node config =
    (entry : Dict Value) × (entry_of name config ≡ some entry)
    × (get "private_ip" entry ≡ some (text node.private_ip_address))
    × (get "public_ip" entry ≡ some (text node.ip_address))

abbrev IsAt : ClusterNode → Option (Dict Value) → Type 0
IsAt node found =
    (entry : Dict Value) × (found ≡ some entry)
    × (get "private_ip" entry ≡ some (text node.private_ip_address))
    × (get "public_ip" entry ≡ some (text node.ip_address))

updated-IsAt : (node : ClusterNode) (e : Dict Value) → IsAt node (some (update e (addresses node)))
unfolding update
updated-IsAt node e = (
  update e (addresses node),
  refl,
  rw (get-put "public_ip" "private_ip", get-put "private_ip" "private_ip") refl,
  rw (get-put "public_ip" "public_ip") refl,
)

update_entry-IsAt :
    (node : ClusterNode) (o : Option Value) (v : Value)
    → update_entry node o ≡ value v
    → IsAt node (as_dict (some v))
unfolding update_entry
update_entry-IsAt node none v e = cc
update_entry-IsAt node (some (table fields)) v e =
    let written = update (entries fields) (addresses node) in
    subst (λ u. IsAt node (as_dict (some u))) (value-injective e)
      (subst (λ d. IsAt node (some d)) (sym (entries-mapping written))
        (updated-IsAt node (entries fields)))
update_entry-IsAt node (some v) u e = cc

-- What an update of one machine's entry does to the entries: it has the machine's addresses, and the
-- others are as they were.
record Written (name : String) (node : ClusterNode) (old new : Option Value) : Type 0 where
  here : IsAt node (vm_in name new)
  others : (j : String) → (name == j) ≡ false → vm_in j new ≡ vm_in j old

put_entry-Written :
    (name : String) (node : ClusterNode) (fields : Fields) (r : Reply Value) (v : Value)
    → update_entry node (get name (entries fields)) ≡ r
    → and_then r (λ entry. value (table (mapping (put name entry (entries fields))))) ≡ value v
    → Written name node (some (table fields)) (some v)
put_entry-Written name node fields (value entry) v q e = record {
  here =
      subst (λ u. IsAt node (vm_in name (some u))) (value-injective e)
        (rw (entries-mapping, get-put name name, (eq_iff name name).1 refl)
          (update_entry-IsAt node _ entry q));
  others = λ j other.
      subst (λ u. vm_in j (some u) ≡ vm_in j (some (table fields))) (value-injective e)
        (rw (entries-mapping, get-put name j, other) refl);
}
put_entry-Written name node fields (fault x) v q e = cc

update_vms-Written :
    (name : String) (node : ClusterNode) (o : Option Value) (v : Value)
    → update_vms name node o ≡ value v
    → Written name node o (some v)
unfolding update_vms
update_vms-Written name node none v e = cc
update_vms-Written name node (some (table fields)) v e =
    put_entry-Written name node fields _ v refl e
update_vms-Written name node (some x) v e = cc

put_vms_inv :
    (r : Reply Value) (config new : Dict Value)
    → and_then r (λ vms. value (put "existing_vms" vms config)) ≡ value new
    → (vms : Value) × (r ≡ value vms) × (get "existing_vms" new ≡ some vms)
put_vms_inv (value vms) config new e = (
  vms,
  refl,
  subst (λ d. get "existing_vms" d ≡ some vms) (value-injective e)
      (rw (get-put "existing_vms" "existing_vms") refl),
)
put_vms_inv (fault x) config new e = cc

update_vm-Written :
    (name : String) (node : ClusterNode) (config new : Dict Value)
    → update_vm name node config ≡ value new
    → Written name node (get "existing_vms" config) (get "existing_vms" new)
unfolding update_vm
update_vm-Written name node config new e =
    let (vms, updated, there) = put_vms_inv _ config new e in
    subst (Written name node (get "existing_vms" config)) (sym there)
      (update_vms-Written name node _ vms updated)

-- Each machine of a list, by the name that its place gives it, is at its addresses.
abbrev pub AllAt : (ℕ → String) → ℕ → List ClusterNode → Dict Value → Type 0
AllAt name_of i [] config = Unit
AllAt name_of i (node ∷ nodes) config =
    HasAddress (name_of i) node config × AllAt name_of (suc i) nodes config

and_then_inv :
    {A B : Type 0} (r : Reply A) (f : A → Reply B) (b : B)
    → and_then r f ≡ value b
    → (a : A) × (r ≡ value a) × (f a ≡ value b)
and_then_inv (value a) f b e = (a, refl, e)
and_then_inv (fault x) f b e = cc

module _ (name_of : ℕ → String) (n : ℕ)
    (apart : (i j : ℕ) → i < j → j < n → (name_of j == name_of i) ≡ false) where
  -- Later rounds leave an entry as it is.
  update_from-keeps :
      (i j : ℕ) (nodes : List ClusterNode) (config new : Dict Value)
      → i < j
      → j + length nodes ≤ n
      → update_from name_of j nodes config ≡ value new
      → entry_of (name_of i) new ≡ entry_of (name_of i) config
  unfolding update_from
  update_from-keeps i j [] config new before fits e =
      ap (entry_of (name_of i)) (sym (value-injective e))
  update_from-keeps i j (node ∷ nodes) config new before fits e =
      let (updated, first, rest) = and_then_inv _ _ new e in
      update_from-keeps i (suc j) nodes updated new (omega arith) (omega arith) rest
      ∙ (update_vm-Written (name_of j) node config updated first).others (name_of i)
          (apart i j before (omega arith))

  update_from-AllAt :
      (i : ℕ) (nodes : List ClusterNode) (config new : Dict Value)
      → i + length nodes ≤ n
      → update_from name_of i nodes config ≡ value new
      → AllAt name_of i nodes new
  unfolding update_from
  update_from-AllAt i [] config new fits e = tt
  update_from-AllAt i (node ∷ nodes) config new fits e =
      let (updated, first, rest) = and_then_inv _ _ new e in
      (
        subst (IsAt node)
            (sym (update_from-keeps i (suc i) nodes updated new (omega arith) (omega arith) rest))
            (update_vm-Written (name_of i) node config updated first).here,
        update_from-AllAt (suc i) nodes updated new (omega arith) rest,
      )

nine_names_apart : (i j : ℕ) → i < j → j < 9 → (nine_node_name j == nine_node_name i) ≡ false
nine_names_apart i j before below = elim (Bool-cases (nine_node_name j == nine_node_name i)) [
  | inl same ↦
      let e : j ≡ i =
        sym (rank_of-nine_node_name j below)
        ∙ ap rank_of ((eq_iff (nine_node_name j) (nine_node_name i)).0 same)
        ∙ rank_of-nine_node_name i (omega arith) in
      absurd (omega arith)
  | inr other ↦ other
]

-- Where the machines of a cluster, at most nine, have been written to its configuration, each of them
-- is found there at its own addresses, under the name that its place gives it: no machine has taken
-- the entry of another.
pub update_nine_nodes_config_dict_vms-AllAt :
    (nodes : List ClusterNode) (config new : Dict Value)
    → length nodes ≤ 9
    → update_nine_nodes_config_dict_vms nodes config ≡ value new
    → AllAt nine_node_name 0 nodes new
update_nine_nodes_config_dict_vms-AllAt nodes config new few e =
    update_from-AllAt nine_node_name 9 nine_names_apart 0 nodes config new (omega arith) e
