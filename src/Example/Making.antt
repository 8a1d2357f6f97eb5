-- ===== src/Example/Making.antt =====
-- framework/examples.py: how an example is made, for the manager or for another machine; and, from
-- framework/test_hosts.py, the plugins that it needs on the manager.
use cloudify_system_tests.Prelude.{
  String, Bool, true, false, ◌||◌, Option, none, some, List, [], ◌∷◌, ◌==◌, if◌then◌else◌,
}
use cloudify_system_tests.Text.{concat, codes, starts_with}
use cloudify_system_tests.Dict.{Dict, put}
use cloudify_system_tests.Act.{
  Act, Done, Reply, runtime_error, other, pass, pure, raise, modify, catch, ◌>>=◌, ◌>>◌,
}
use cloudify_system_tests.Act.Retry.{Retrying}
use cloudify_system_tests.Client.{Api, Session, Headers, info, request, log_line}
use cloudify_system_tests.Client.Tenant.{set_client_tenant}
use cloudify_system_tests.Deployment.{prepare_and_get_test_tenant, ignore_existing}
use cloudify_system_tests.Example.{Example, Bench, get_example, input, set_inputs}

-- A machine, deployed: what an example reads of it.
pub record Machine : Type 0 where
  pub username : String
  pub ip_address : String
  pub image_type : String
  pub is_manager : Bool

-- The calls of the client library for plugins, and the paths of the resources.
record PluginSite (W : Type 0) : Type 0 where
  upload_plugin : Headers → String → W → Reply Done × W
  -- the states of all executions, with those of system workflows or without
  pub list_statuses : Headers → Bool → W → Reply (List String) × W
  pub get_resource_path : String → String

abbrev pub first_inputs : Bool → Machine → Dict String
first_inputs using_agent manager =
    if using_agent
    then put "agent_user" manager.username (put "content" "Test" [])
    else put "path" "/tmp/test_file" (put "content" "Test" [])

-- `BaseExample.__init__`
unfoldable pub base_example :
    (String → String) → Machine → String → String → Bool → String → Example
base_example get_resource_path manager blueprint_id tenant using_agent suffix = record {
  tenant = tenant;
  inputs = first_inputs using_agent manager;
  create_secret = using_agent;
  blueprint_file = get_resource_path (
      if using_agent
      then "blueprints/compute/example.yaml"
      else "blueprints/compute/central_executor.yaml");
  blueprint_id = concat (blueprint_id ∷ suffix ∷ []);
  deployment_id = concat (blueprint_id ∷ suffix ∷ []);
  host_username = manager.username;
  installed = false;
  windows = false;
}

-- `OnManagerExample.__init__`
abbrev on_manager_example : (String → String) → Machine → String → Bool → String → Example
on_manager_example get_resource_path manager tenant using_agent suffix =
    base_example get_resource_path manager "on_manager_example" tenant using_agent suffix

-- `OnVMExample.__init__`
unfoldable pub on_vm_example :
    (String → String) → Machine → Machine → String → Bool → String → Example
on_vm_example get_resource_path manager vm tenant using_agent suffix =
    let base = base_example get_resource_path manager "on_vm_example" tenant using_agent suffix in
    record base {
      inputs = put "agent_user" vm.username (put "server_ip" vm.ip_address base.inputs);
      host_username = vm.username;
    }

module _ {W : Type 0} where
  -- the first three inputs are set before the user is looked up
  unfoldable use_windows : String → String → Act (Bench W) Done
  use_windows user password = do
    example ← get_example
    set_inputs (
        put "agent_password" password
          (put "os_family" "windows" (put "agent_port" "5985" example.inputs)))
    agent_user ← input "agent_user"
    changed ← get_example
    set_inputs
        (put "path" (concat ("c:\\users\\" ∷ agent_user ∷ "\\test_file" ∷ [])) changed.inputs)
    modify (λ b. record b { example = record (b.example) { windows = true } })

module _ {W : Type 0} (api : Api W) (site : PluginSite W) (premium : Bool)
    (retry : Retrying (Session W)) where
  abbrev are_terminated : List String → Bool
  are_terminated [] = true
  are_terminated (status ∷ statuses) =
      let rest = are_terminated statuses in if status == "terminated" then rest else false

  -- `VM.wait_for_all_executions`, in the session of the moment
  unfoldable wait_for_executions : Machine → Bool → Act (Session W) Done
  wait_for_executions manager include_system_workflows =
      if manager.is_manager
      then retry.retry Done 200 1000 (
          request (λ h. site.list_statuses h include_system_workflows) >>= λ statuses.
          if are_terminated statuses then pass else raise (other 0))
      else raise runtime_error

  -- `VM._upload_plugin`
  unfoldable upload_plugin : Machine → String → String → Act (Session W) Done
  upload_plugin manager plugin_path tenant_name = set_client_tenant (some tenant_name) (
      catch
        (request (λ h. site.upload_plugin h (site.get_resource_path plugin_path))
          >> wait_for_executions manager true)
        (λ e. if premium then raise e else ignore_existing api e))

  -- `VM.upload_init_script_plugin`
  unfoldable upload_init_script_plugin : Machine → String → Act (Session W) Done
  upload_init_script_plugin manager tenant_name =
      if manager.is_manager
      then (do
        log_line info (concat ("Uploading init script plugin to " ∷ tenant_name ∷ []))
        upload_plugin manager "plugin/init_script_plugin-1.0.0-py27-none-any.zip" tenant_name)
      else raise runtime_error

  abbrev has_old_plugins : String → Bool
  has_old_plugins image_type =
      starts_with (codes image_type) (codes "5") || starts_with (codes image_type) (codes "6")

  -- `VM.upload_test_plugin`
  unfoldable upload_test_plugin : Machine → String → Act (Session W) Done
  upload_test_plugin manager tenant_name =
      if manager.is_manager
      then (do
        log_line info (concat ("Uploading test plugin to " ∷ tenant_name ∷ []))
        upload_plugin manager
            (if has_old_plugins manager.image_type
              then "plugin/old_test_plugin.zip"
              else "plugin/test_plugin-1.0.0.zip")
            tenant_name)
      else raise runtime_error

  abbrev upload_plugins : Machine → String → Bool → Bool → Act (Session W) Done
  upload_plugins manager tenant true true =
      upload_test_plugin manager tenant >> upload_init_script_plugin manager tenant
  upload_plugins manager tenant true false = upload_test_plugin manager tenant
  upload_plugins manager tenant false init_script = pass

  abbrev example_for : Machine → Option Machine → String → Bool → String → Example
  example_for manager none tenant using_agent suffix =
      on_manager_example site.get_resource_path manager tenant using_agent suffix
  example_for manager (some vm) tenant using_agent suffix =
      on_vm_example site.get_resource_path manager vm tenant using_agent suffix

  unfoldable get_example_deployment :
      Machine → String → Option Machine → Bool → Bool → String → Bool → Act (Session W) Example
  get_example_deployment manager tenant_name vm upload_plugin_too using_agent suffix init_script =
      do
        tenant ← prepare_and_get_test_tenant api premium tenant_name
        upload_plugins manager tenant upload_plugin_too init_script
        pure (example_for manager vm tenant using_agent suffix)
