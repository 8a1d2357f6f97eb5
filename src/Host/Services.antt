-- ===== src/Host/Services.antt =====
-- The services of a manager, by the configurations that are installed on it.
pub mod Laws
use cloudify_system_tests.Prelude.{
  String, Bool, true, false, ◌&&◌, ◌||◌, Option, none, some, List, [], ◌∷◌, if◌then◌else◌, is_some,
  or_else,
}
use cloudify_system_tests.Text.{concat, text_in, split, codes, starts_with}
use cloudify_system_tests.Act.{Act, Done, pass, pure, ◌>>=◌, ◌>>◌}
use cloudify_system_tests.Host.{
  Vm, Command, Machine, Host, plain, run_command, only_manager, set_world, get_vm,
}

-- `_get_config_path`, for the names that the code passes
unfoldable pub config_path : Option String → String
config_path none = "/etc/cloudify/config.yaml"
config_path (some name) =
    if starts_with (codes name) (codes "/")
    then name
    else concat ("/etc/cloudify/" ∷ name ∷ "_config.yaml" ∷ [])

abbrev pub default_configs : List String → List String
default_configs [] = "/etc/cloudify/config.yaml" ∷ []
default_configs (c ∷ cs) = c ∷ cs

abbrev pub list_configs : Command
list_configs = plain "ls /etc/cloudify/*_config.yaml || true"

abbrev pub list_configured : Command
list_configured =
    plain "if [[ -d /etc/cloudify/.configured ]]; then ls /etc/cloudify/.configured; fi"

-- `any(service in services for service in …)`
unfoldable pub any_service : String → Bool
any_service services =
    text_in "database" services || (text_in "manager" services || text_in "queue" services)

abbrev pub cfy_manager : String → String → Command
cfy_manager action config_name =
    plain (concat ("cfy_manager " ∷ action ∷ " -c " ∷ config_path (some config_name) ∷ []))

module _ {W : Type 0} (m : Machine W) where
  unfoldable pub get_installed_configs : Act (Host W) (List String)
  get_installed_configs =
      only_manager do stdout ← run_command m list_configs; pure (default_configs (split stdout))

  unfoldable pub is_configured : Act (Host W) Bool
  is_configured =
      only_manager do services ← run_command m list_configured; pure (any_service services)

  -- `for config_name in …: self.run_command('cfy_manager <action> -c <path>')`
  unfoldable pub for_configs : String → List String → Act (Host W) Done
  for_configs action [] = pass
  for_configs action (config_name ∷ rest) =
      run_command m (cfy_manager action config_name) >> for_configs action rest

  unfoldable pub on_configs : String → Act (Host W) Done
  on_configs action = do
    configured ← is_configured
    if configured
        then (do config_names ← get_installed_configs; for_configs action config_names)
        else pass

  unfoldable pub start_manager_services : Act (Host W) Done
  start_manager_services = only_manager (on_configs "start")

  unfoldable pub stop_manager_services : Act (Host W) Done
  stop_manager_services = only_manager (on_configs "stop")

  -- `if self.api_ca_path and os.path.exists(self.api_ca_path): os.unlink(self.api_ca_path)`
  unfoldable pub unlink_ca : Option String → Act (Host W) Done
  unlink_ca none h = pass h
  unlink_ca (some path) h = if m.exists path h.world then set_world (m.unlink path) h else pass h

  abbrev pub remove_certs : Command
  remove_certs = plain "sudo rm -rf /etc/cloudify/ssl"

  unfoldable pub clean_local_rest_ca : Act (Host W) Done
  clean_local_rest_ca = only_manager do vm ← get_vm; unlink_ca vm.api_ca_path

  unfoldable pub teardown : Bool → Act (Host W) Done
  teardown kill_certs = only_manager do
    on_configs "remove"
    if kill_certs then (run_command m remove_certs >> pass) else pass
    vm ← get_vm
    unlink_ca vm.api_ca_path
