-- ===== src/Snapshots/State.antt =====
-- `get_manager_state` and `confirm_manager_empty`: what the tenants of a manager hold.
pub mod Order
pub mod Empty
use cloudify_system_tests.Prelude.{
  is_empty, String, Bool, true, false, ◌&&◌, Option, some, List, [], ◌∷◌, ◌==◌, if◌then◌else◌,
}
use cloudify_system_tests.Text.{concat}
use cloudify_system_tests.Dict.{Dict, put}
use cloudify_system_tests.Act.{Act, Done, Reply, pure, ◌>>=◌, ◌>>◌}
use cloudify_system_tests.Client.{Session, Headers, request}
use cloudify_system_tests.Client.Tenant.{set_client_tenant}
use cloudify_system_tests.Managed.{Managed, in_session}
use cloudify_system_tests.Resources.{check}
use cloudify_system_tests.Sorting.{Ordered, sorted}
use cloudify_system_tests.Sorting.Keys.{text_order, pair_order}
use cloudify_system_tests.Snapshots.{Tester, say}

-- The plugins by their package name, package version and distribution, the others by their names.
pub record TenantState : Type 0 where
  pub plugins : List (String × (String × String))
  pub blueprints : List String
  pub deployments : List String
  pub secrets : List String

-- `state == clean`
unfoldable pub is_clean : Dict TenantState → Bool
is_clean ((tenant, held) ∷ []) =
    tenant == "default_tenant"
    && is_empty held.plugins
    && is_empty held.blueprints
    && is_empty held.deployments
    && is_empty held.secrets
is_clean _ = false

-- `tenants == ['default_tenant']`
unfoldable pub is_default_only : List String → Bool
is_default_only (tenant ∷ []) = tenant == "default_tenant"
is_default_only _ = false

module _ {W A : Type 0} ⦃o : Ordered A⦄ where
  -- the body of one of the `with` blocks
  unfoldable pub sorted_listing : (Headers → W → Reply (List A) × W) → Act (Session W) (List A)
  sorted_listing call = request call >>= λ items. pure (sorted items)

  unfoldable pub listing_of :
      String → String → (Headers → W → Reply (List A) × W) → Act (Managed W) (List A)
  listing_of message tenant call = do
    say (concat (message ∷ " for tenant " ∷ tenant ∷ []))
    in_session (set_client_tenant (some tenant) (sorted_listing call))

module _ {W : Type 0} (t : Tester W) where
  -- the body of the loop of `get_manager_state`
  unfoldable pub state_of_tenant : String → Act (Managed W) TenantState
  state_of_tenant tenant = do
    plugins ← listing_of "Getting plugin details" tenant t.res.list_plugins
    blueprints ← listing_of "Getting blueprints" tenant t.res.list_blueprints
    deployments ← listing_of "Getting deployments" tenant t.api.list_deployments
    secrets ← listing_of "Getting secrets" tenant t.res.list_secrets
    pure (record {
      plugins = plugins;
      blueprints = blueprints;
      deployments = deployments;
      secrets = secrets;
    })

  unfoldable pub states_of_tenants :
      List String → Dict TenantState → Act (Managed W) (Dict TenantState)
  states_of_tenants [] tenant_state = pure tenant_state
  states_of_tenants (tenant ∷ tenants) tenant_state =
      state_of_tenant tenant >>= λ held. states_of_tenants tenants (put tenant held tenant_state)

  unfoldable pub get_manager_state : List String → Act (Managed W) (Dict TenantState)
  get_manager_state tenants = states_of_tenants tenants []

  unfoldable pub confirm_manager_empty : Act (Managed W) Done
  confirm_manager_empty = do
    say "Confirming only default tenant exists on manager"
    tenants ← in_session (request t.res.list_tenants)
    check (is_default_only tenants)
    say "Confirming default tenant has no resources"
    found ← get_manager_state ("default_tenant" ∷ [])
    check (is_clean found)
