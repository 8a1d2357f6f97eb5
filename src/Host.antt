-- ===== src/Host.antt =====
-- framework/test_hosts.py, `VM`: one test machine, its fields and what is done on it.
pub mod Guard
pub mod Services
pub mod Manager
pub mod Bootstrap
pub mod Backup
use cloudify_system_tests.Prelude.{
  ℕ, String, Bool, true, false, Option, some, none, List, [], ◌∷◌, ◌++◌, if◌then◌else◌,
}
use cloudify_system_tests.Act.{Error, Act, Done, Reply, result, ok, err, runtime_error, ◌>>=◌, ◌>>◌}
use cloudify_system_tests.Text.{concat}

-- The part of the install configuration that the code writes to after it has been filled in.
pub record InstallConfig : Type 0 where
  pub skip_sanity : Bool
  pub admin_password : String
  pub license_path : Option String
  pub public_ip : String
  pub private_ip : String
  pub hostname : String

-- The arguments that a REST client is made with.
pub record RestClient : Type 0 where
  pub username : String
  pub password : String
  pub tenant : String
  pub cert : Option String
  pub protocol : String

pub record Vm : Type 0 where
  pub server_id : String
  pub client : Option RestClient
  pub image_type : String
  pub image_name : Option String
  pub username : Option String
  pub windows : Bool
  pub bootstrappable : Bool
  pub is_manager : Bool
  pub enable_ssh_wait : Bool
  pub should_finalize : Bool
  pub restservice_expected : Bool
  pub reboot_required : Bool
  pub api_ca_path : Option String
  pub install_config : InstallConfig
  pub basic_install_config : InstallConfig

-- A command for the machine, as `run_command` is called.
pub record Command : Type 0 where
  pub text : String
  pub use_sudo : Bool
  pub warn_only : Bool

-- The connection to the machine, the file system and the test configuration of the tester, and the
-- REST client of the manager on the machine: code of other packages, over a world `W`.
pub record Machine (W : Type 0) : Type 0 where
  -- the command's standard output; it raises if the command fails and `warn_only` is not set
  pub run : Vm → Command → W → Reply String × W
  -- `put_remote_file`, with the file's contents
  pub put : Vm → String → String → W → Reply Done × W
  pub exists : String → W → Bool
  pub unlink : String → W → W
  pub pause : ℕ → W → W
  -- `yaml.safe_dump(self.install_config)`
  pub dump : InstallConfig → String
  pub tmpdir : String
  pub tmpdir_base : String
  -- `self._test_config['override'][name]`, empty where there is none
  pub override_path : String → String
  pub default_username : String
  pub default_tenant : String
  -- `tar` over the directory of an override
  pub make_tar : String → String → W → Reply Done × W
  -- `put_remote_file`, from a local path to a remote one
  pub put_file : Vm → String → String → W → Reply Done × W
  -- `'/tmp/' + hashlib.sha1(…).hexdigest()`, and the last steps of `get_remote_file`: the local directory
  -- is made, and the file got over the connection
  pub remote_tmp : String → String
  pub get_file : Vm → String → String → W → Reply Done × W
  -- the page of the REST service that says whether it wants SSL
  pub status_page : Vm → W → Reply String × W
  pub close_session : RestClient → W → W
  pub get_status : Option RestClient → W → Reply String × W
  pub list_statuses : Option RestClient → Bool → W → Reply (List String) × W
  pub upload_license : Option RestClient → W → Reply Done × W
  -- `str(err)`
  pub show_error : Error → String

-- A machine with the commands that have been sent to it, the last one last.
pub record Host (W : Type 0) : Type 0 where
  pub vm : Vm
  pub sent : List Command
  pub world : W

abbrev pub sudo : String → Command
sudo t = record { text = t; use_sudo = true; warn_only = false }

abbrev pub plain : String → Command
plain t = record { text = t; use_sudo = false; warn_only = false }

abbrev pub copy_command : String → String → Command
copy_command remote_path remote_tmp = sudo (concat ("cp " ∷ remote_path ∷ " " ∷ remote_tmp ∷ []))

abbrev pub chmod_command : String → Command
chmod_command remote_tmp = sudo (concat ("chmod 444 " ∷ remote_tmp ∷ []))

module _ {W : Type 0} where
  abbrev pub effect : {A : Type 0} → (Vm → W → Reply A × W) → Act (Host W) A
  effect call h = let (r, w) = call h.vm h.world in (result r, record h { world = w })

  unfoldable pub run_command : Machine W → Command → Act (Host W) String
  run_command m c h =
      let (r, w) = m.run h.vm c h.world in
      (result r, record h { sent = h.sent ++ c ∷ []; world = w })

  -- the decorator `only_manager`
  unfoldable pub only_manager : {A : Type 0} → Act (Host W) A → Act (Host W) A
  only_manager body h = if h.vm.is_manager then body h else (err runtime_error, h)

  -- `get_remote_file`: the file is copied on the machine first, for the connection's user to read
  unfoldable pub get_remote_file : Machine W → String → String → Act (Host W) Done
  unfolding ◌>>=◌
  get_remote_file m remote_path local_path = do
    run_command m (copy_command remote_path (m.remote_tmp remote_path))
    run_command m (chmod_command (m.remote_tmp remote_path))
    effect (λ v. m.get_file v (m.remote_tmp remote_path) local_path)

  abbrev pub set_vm : (Vm → Vm) → Act (Host W) Done
  set_vm f h = (ok tt, record h { vm = f h.vm })

  abbrev pub get_vm : Act (Host W) Vm
  get_vm h = (ok h.vm, h)

  abbrev pub set_world : (W → W) → Act (Host W) Done
  set_world f h = (ok tt, record h { world = f h.world })
