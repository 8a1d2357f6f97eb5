-- ===== src/Host/Manager.antt =====
-- `VM` as a manager: its REST client, its certificate, its license, and waiting for it.
pub mod Waits
pub mod Quiet
pub mod Health
use cloudify_system_tests.Prelude.{
  ℕ, String, Bool, true, false, not, ◌&&◌, Option, none, some, List, [], ◌∷◌, ◌==◌, if◌then◌else◌,
}
use cloudify_system_tests.Text.{concat, text_in}
use cloudify_system_tests.Act.{
  Act, Done, Error, Reply, value, fault, other, pass, pure, raise, gets, catch, ◌>>=◌, ◌>>◌,
}
use cloudify_system_tests.Act.Retry.{Retrying}
use cloudify_system_tests.Host.{
  RestClient, Vm, Machine, Host, plain, sudo, effect, run_command, get_remote_file, only_manager,
  set_vm, get_vm, set_world,
}

-- `given or default`
abbrev or_default : Option String → String → String
or_default none d = d
or_default (some t) d = if t == "" then d else t

module _ {W : Type 0} where
  abbrev pub set_client : RestClient → Act (Host W) Done
  set_client c = set_vm (λ v. record v { client = some c })

module _ {W : Type 0} (m : Machine W) where
  unfoldable pub apply_license : Act (Host W) Done
  apply_license = only_manager (effect (λ v. m.upload_license v.client))

  abbrev override_archive : String → String
  override_archive override_name = concat ("override_" ∷ override_name ∷ ".tar.gz" ∷ [])

  unfoldable pub replace_override : String → String → Act (Host W) Done
  replace_override override_name override_path = do
    let local_tar_path = concat (m.tmpdir_base ∷ "/" ∷ override_archive override_name ∷ [])
    let remote_tar_path = concat ("/tmp/" ∷ override_archive override_name ∷ [])
    effect (λ v. m.make_tar override_path local_tar_path)
    effect (λ v. m.put_file v remote_tar_path local_tar_path)
    run_command m (sudo "rm -r /opt/cloudify/cfy_manager/lib/python3.11/site-packages/cfy_manager")
    run_command m (
        sudo (
          concat (
            "bash -c \"cd /opt/cloudify/cfy_manager/lib/python3.11/site-packages/ && tar -xzf "
            ∷ remote_tar_path ∷ "\"" ∷ [])))
    pass

  unfoldable pub apply_override : String → Act (Host W) Done
  apply_override override_name = only_manager do
    let override_path = m.override_path override_name
    if override_path == "" then pass else replace_override override_name override_path

  abbrev pub close_client : Option RestClient → Act (Host W) Done
  close_client none = pass
  close_client (some client) = set_world (m.close_session client)

  unfoldable pub fetch_ca : String → Act (Host W) Done
  fetch_ca path = do
    get_remote_file m "/etc/cloudify/ssl/cloudify_internal_ca_cert.pem" path
    vm ← get_vm
    close_client vm.client

  unfoldable pub download_rest_ca : Bool → Act (Host W) Done
  download_rest_ca force = only_manager do
    vm ← get_vm
    let path = concat (m.tmpdir ∷ "/" ∷ vm.server_id ∷ "_api.crt" ∷ [])
    set_vm (λ v. record v { api_ca_path = some path })
    there ← gets (λ h. m.exists path h.world)
    if there && not force
        then pass
        else (do if there then set_world (m.unlink path) else pass; fetch_ca path)

  -- which protocol to use, where the caller leaves it open
  unfoldable pub choose_protocol : String → Act (Host W) String
  choose_protocol proto =
      if proto == "auto"
      then (do
        page ← effect m.status_page
        pure (if text_in "SSL_REQUIRED" page then "https" else "http"))
      else pure proto

  unfoldable pub get_rest_client :
      Option String → Option String → Option String → String → Bool → Act (Host W) RestClient
  get_rest_client username password tenant proto download_ca = only_manager do
    protocol ← choose_protocol proto
    if protocol == "https" && download_ca then download_rest_ca false else pass
    vm ← get_vm
    pure (record {
      username = or_default username m.default_username;
      password = or_default password vm.install_config.admin_password;
      tenant = or_default tenant m.default_tenant;
      cert = vm.api_ca_path;
      protocol = protocol;
    })

  -- the `except` clause of `wait_for_manager`: the client is made anew if SSL turns out to be needed
  unfoldable pub renew_client : Error → Act (Host W) String
  renew_client e =
      if text_in "SSL must be used" (m.show_error e)
      then (do client ← get_rest_client none none none "auto" true; set_client client; raise e)
      else raise e

  abbrev pub check_healthy : String → Act (Host W) Done
  check_healthy status = if status == "OK" then pass else raise (other 0)

  -- one attempt of `wait_for_manager`
  unfoldable pub manager_attempt : Act (Host W) Done
  manager_attempt = do
    run_command m (
        plain
          "systemctl status cloudify-starter 2>&1| grep -E '(status=0/SUCCESS)|(could not be found)'")
    run_command m (
        plain
          "systemctl status cfy-starter 2>&1| grep -E '(status=0/SUCCESS)|(could not be found)'")
    status ← catch (effect (λ v. m.get_status v.client)) renew_client
    check_healthy status

  unfoldable pub wait_for_manager : Retrying (Host W) → Act (Host W) Done
  wait_for_manager r = only_manager (r.retry Done 60 5000 manager_attempt)

  -- `for execution in executions: if execution['status'] != 'terminated': raise …`
  unfoldable pub check_terminated : List String → Act (Host W) Done
  check_terminated [] = pass
  check_terminated (status ∷ statuses) =
      if status == "terminated" then check_terminated statuses else raise (other 0)

  -- one attempt of `wait_for_all_executions`
  unfoldable pub executions_attempt : Bool → Act (Host W) Done
  executions_attempt include_system_workflows = do
    statuses ← effect (λ v. m.list_statuses v.client include_system_workflows)
    check_terminated statuses

  unfoldable pub wait_for_all_executions : Retrying (Host W) → Bool → Act (Host W) Done
  wait_for_all_executions r include_system_workflows =
      only_manager (r.retry Done 200 1000 (executions_attempt include_system_workflows))
