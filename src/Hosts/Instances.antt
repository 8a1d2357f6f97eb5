-- ===== src/Hosts/Instances.antt =====
-- The machines of `Hosts`: what they are told once they are deployed (`VM.assign` and
-- `VM._create_conn_script` of framework/test_hosts.py), and what is done on one of them.
use cloudify_system_tests.Prelude.{
  ℕ, zero, suc, String, Bool, Option, none, some, List, [], ◌∷◌, or_else, if◌then◌else◌,
}
use cloudify_system_tests.Text.{concat, str}
use cloudify_system_tests.Act.{ok, Act, Done, Reply, other, raise, ◌>>=◌, ◌>>◌}
use cloudify_system_tests.Host.{Vm, InstallConfig, Host, effect, get_vm, set_vm}
use cloudify_system_tests.Hosts.{Instance, Hosts}

-- The arguments of `assign` that differ from one machine to another.
pub record Assignment : Type 0 where
  pub public_ip_address : String
  pub private_ip_address : String
  pub networks : List (String × String)
  pub node_instance_id : String
  pub deployment_id : String
  pub server_id : String
  pub server_index : ℕ

-- What is done on the tester's own file system.
pub record Workplace (W : Type 0) : Type 0 where
  pub tmpdir : String
  pub private_key_path : String
  -- the password of a machine, made up for Windows
  pub password : Vm → String
  pub makedirs : String → W → Reply Done × W
  -- `ssh-keygen -R`, whose outcome is not looked at
  pub forget_host : String → W → W
  pub write_script : String → String → W → Reply Done × W
  -- `chmod +x`
  pub make_executable : String → W → Reply Done × W

abbrev pub at : {A : Type 0} → ℕ → List A → Option A
at n [] = none
at zero (x ∷ xs) = some x
at (suc n) (x ∷ xs) = at n xs

abbrev set_at : {A : Type 0} → ℕ → A → List A → List A
set_at n y [] = []
set_at zero y (x ∷ xs) = y ∷ xs
set_at (suc n) y (x ∷ xs) = x ∷ set_at n y xs

abbrev addressed : Assignment → InstallConfig → InstallConfig
addressed a c = record c {
  public_ip = a.public_ip_address;
  private_ip = a.private_ip_address;
  hostname = a.server_id;
}

-- The configuration of a manager starts as a copy of the basic one, which is written to.
abbrev assigned : Assignment → Vm → Vm
assigned a v =
    if v.is_manager
    then record v {
      server_id = a.server_id;
      basic_install_config = addressed a v.basic_install_config;
      install_config = addressed a v.basic_install_config;
    }
    else record v { server_id = a.server_id }

abbrev script_content : String → String → Vm → Assignment → String
script_content private_key_path password v a =
    if v.windows
    then concat (
        "xfreerdp /u:"
        ∷ or_else v.username "None"
        ∷ " /p:'"
        ∷ password
        ∷ "' /w:1366 /h:768 /v:"
        ∷ a.public_ip_address
        ∷ [])
    else concat (
        "ssh -i "
        ∷ private_key_path
        ∷ " -o StrictHostKeyChecking=no "
        ∷ or_else v.username "None"
        ∷ "@"
        ∷ a.public_ip_address
        ∷ " ${*}\n"
        ∷ [])

module _ {W : Type 0} (place : Workplace W) where
  abbrev forget : Bool → String → Act (Host W) Done
  forget windows ip h =
      (ok tt, if windows then h else record h { world = place.forget_host ip h.world })

  unfoldable pub create_conn_script : Assignment → Act (Host W) Done
  create_conn_script a = do
    vm ← get_vm
    let script_path =
        concat (
          place.tmpdir
          ∷ "/"
          ∷ (if vm.windows then "rdp" else "ssh")
          ∷ "_"
          ∷ str a.server_index
          ∷ [])
    forget vm.windows a.public_ip_address
    effect (λ v.
        place.write_script script_path
          (script_content place.private_key_path (place.password vm) vm a))
    effect (λ v. place.make_executable script_path)

  unfoldable pub assign : Assignment → Act (Host W) Done
  assign a = do
    effect (λ v. place.makedirs (concat (place.tmpdir ∷ "/" ∷ a.public_ip_address ∷ [])))
    set_vm (assigned a)
    create_conn_script a

module _ {W : Type 0} where
  abbrev on_found : {A : Type 0} → ℕ → Option Instance → Act (Host W) A → Act (Hosts W) A
  on_found i none m = raise (other 1)
  on_found i (some instance_) m = λ h.
      let (r, t) = m (record { vm = instance_.vm; sent = []; world = h.session.world }) in
      (
        r,
        record h {
          session = record (h.session) { world = t.world };
          instances = set_at i (record instance_ { vm = t.vm }) h.instances;
        },
      )

  -- what is done on `self.instances[i]`
  unfoldable pub on_instance : {A : Type 0} → ℕ → Act (Host W) A → Act (Hosts W) A
  on_instance i m h = on_found i (at i h.instances) m h
