-- ===== src/Hosts/Create.antt =====
-- `Hosts.create`: a tenant for the test, its machines in it, and a teardown if this fails.
pub mod Laws
use cloudify_system_tests.Prelude.{
  ℕ, zero, suc, String, Bool, true, false, not, ◌&&◌, Option, none, some, List, [], ◌∷◌, length,
  or_else, if◌then◌else◌,
}
use cloudify_system_tests.Text.{concat, str}
use cloudify_system_tests.Act.{
  Result, Act, Done, Error, exit_status, other, out_of_fuel, pass, pure, raise, gets, modify, catch,
  ◌>>=◌, ◌>>◌,
}
use cloudify_system_tests.Act.Retry.{Retrying}
use cloudify_system_tests.Client.{Api, Session, info, error}
use cloudify_system_tests.Client.Tenant.{set_tenant}
use cloudify_system_tests.Host.Bootstrap.{bootstrap, bootstrap_is_complete, finalize_preparation}
use cloudify_system_tests.Hosts.{Instance, Infrastructure, Teardown, Hosts, on_infra, log_hosts}
use cloudify_system_tests.Hosts.Instances.{on_instance}
use cloudify_system_tests.Hosts.Setup.{
  HostsConfig, SetupSite, infra_request, upload_secrets, check_plugins, upload_blueprints,
  deploy_test_infrastructure,
}
use cloudify_system_tests.Hosts.Deploy.{VmSite, start_deploy_test_vm}
use cloudify_system_tests.Hosts.Deploy.Finish.{finish_deploy_test_vms}
use cloudify_system_tests.Hosts.Destroy.{destroy}

-- `self._test_config['premium']`, the license file, and `str(err)`.
pub record Licensing : Type 0 where
  pub premium : Bool
  pub license : String
  pub show_error : Error → String

module _ {W : Type 0} (api : Api W) (site : SetupSite W) (config : HostsConfig) (vms : VmSite W)
    (retry : Retrying (Session W)) (licensing : Licensing) where
  -- `for index, instance in enumerate(self.instances)`, from an index
  unfoldable pub start_all : ℕ → String → ℕ → List Instance → Act (Hosts W) Done
  start_all fuel test_identifier index [] = pass
  start_all fuel test_identifier index (i ∷ rest) = do
    start_deploy_test_vm api site config vms retry fuel (or_else i.vm.image_name "None") index
        test_identifier i.vm.is_manager i.vm.image_type
    start_all fuel test_identifier (suc index) rest

  abbrev is_prepared : Instance → Bool
  is_prepared i = i.vm.is_manager && not i.vm.bootstrappable

  -- `instance.bootstrap(upload_license=…, blocking=False)`: no fuel is needed
  unfoldable pub bootstrap_all : ℕ → List Instance → Act (Hosts W) Done
  bootstrap_all index [] = pass
  bootstrap_all index (i ∷ rest) = do
    if is_prepared i
        then on_instance index (
            bootstrap vms.machine vms.host_retry 0 licensing.premium licensing.license
              licensing.premium false true none false)
        else pass
    bootstrap_all (suc index) rest

  -- `while not instance.bootstrap_is_complete()`, on fuel
  unfoldable pub await_instance : ℕ → ℕ → Act (Hosts W) Done
  await_instance zero index = out_of_fuel
  await_instance (suc fuel) index = do
    let again = await_instance fuel index
    complete ← on_instance index (bootstrap_is_complete vms.machine vms.host_retry)
    if complete
        then pass
        else (on_infra (λ s. (Result.ok tt, record s { world = api.sleep 3000000 s.world }))
            >> again)

  unfoldable pub finalize_all : ℕ → ℕ → List Instance → Act (Hosts W) Done
  finalize_all fuel index [] = pass
  finalize_all fuel index (i ∷ rest) = do
    if is_prepared i
        then (log_hosts info (
              concat
                ("Waiting for instance " ∷ or_else i.vm.image_name "None" ∷ " to bootstrap" ∷ []))
            >> await_instance fuel index)
        else pass
    if i.vm.should_finalize
        then on_instance index (finalize_preparation vms.machine vms.host_retry)
        else pass
    finalize_all fuel (suc index) rest

  unfoldable pub open_tenant : String → Act (Hosts W) Done
  open_tenant test_identifier = do
    log_hosts info "Creating test tenant"
    infra_request (λ h. api.create_tenant h test_identifier)
    on_infra (modify (set_tenant test_identifier))
    modify (λ h. record h { tenant = some test_identifier })

  -- the `try` block
  unfoldable pub create_resources : ℕ → Bool → String → Act (Hosts W) Done
  create_resources fuel use_fqdn test_identifier = do
    open_tenant test_identifier
    upload_secrets api site config retry
    check_plugins api site config retry
    upload_blueprints api site config retry
    deploy_test_infrastructure api site config retry fuel test_identifier
    instances ← gets (λ h. h.instances)
    start_all fuel test_identifier 0 instances
    finish_deploy_test_vms api site config vms fuel use_fqdn
    deployed ← gets (λ h. h.instances)
    bootstrap_all 0 deployed
    bootstrapping ← gets (λ h. h.instances)
    finalize_all fuel 0 bootstrapping

  module _ (infra : Infrastructure W) (teardown : Teardown) where
    -- `except Exception`, which does not catch an exit
    unfoldable pub tear_down : ℕ → Error → Act (Hosts W) Done
    tear_down fuel (exit_status n) = raise (exit_status n)
    tear_down fuel err = do
      log_hosts error (
          concat (
            "Encountered exception trying to create test resources: "
            ∷ licensing.show_error err
            ∷ ".\nAttempting to tear down test resources."
            ∷ []))
      destroy api infra teardown fuel none
      raise err

    -- `test_identifier` is made of the name of the test and the time.
    unfoldable pub create : ℕ → Bool → String → Act (Hosts W) Done
    create fuel use_fqdn test_identifier = do
      instances ← gets (λ h. h.instances)
      log_hosts info (
          concat (
            "Creating image based cloudify instances: [number_of_instances="
            ∷ str (length instances)
            ∷ "]"
            ∷ []))
      modify (λ h. record h { test_identifier = some test_identifier })
      catch (create_resources fuel use_fqdn test_identifier) (tear_down fuel)
