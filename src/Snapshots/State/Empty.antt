-- ===== src/Snapshots/State/Empty.antt =====
-- What a manager that is found empty has answered.
use cloudify_system_tests.Resources.Checks.{answered, check_returned, check_inv}
use cloudify_system_tests.Prelude.{
  is_empty, ◌&&◌, ◌≡◌, refl, ap, ◌∙◌, String, List, [], ◌∷◌, Bool, true, false, eq_iff, arith,
}
use cloudify_system_tests.Dict.{Dict}
use cloudify_system_tests.Act.{ok, value}
use cloudify_system_tests.Act.Invert.{returned_as, bind_inv}
use cloudify_system_tests.Client.{request}
use cloudify_system_tests.Managed.{Managed, in_session}
use cloudify_system_tests.Snapshots.{Tester, say}
use cloudify_system_tests.Snapshots.State.{
  TenantState, get_manager_state, is_clean, is_default_only, confirm_manager_empty,
}

abbrev pub clean : Dict TenantState
clean =
    ("default_tenant", record { plugins = []; blueprints = []; deployments = []; secrets = [] })
    ∷ []

nothing : {A : Type 0} (xs : List A) → is_empty xs ≡ true → xs ≡ []
nothing [] h = refl
nothing (x ∷ xs) h = cc

both : (a b : Bool) → (a && b) ≡ true → (a ≡ true) × (b ≡ true)
both true b h = (refl, h)
both false b h = cc

is_clean-clean : (d : Dict TenantState) → is_clean d ≡ true → d ≡ clean
unfolding is_clean
is_clean-clean [] h = cc
is_clean-clean ((tenant, held) ∷ []) h =
    let (abcd, no_secrets) = both _ _ h in
    let (abc, no_deployments) = both _ _ abcd in
    let (ab, no_blueprints) = both _ _ abc in
    let (named, no_plugins) = both _ _ ab in
    let name = (eq_iff tenant "default_tenant").0 named in
    let p = nothing held.plugins no_plugins in
    let b = nothing held.blueprints no_blueprints in
    let d = nothing held.deployments no_deployments in let s = nothing held.secrets no_secrets in cc
is_clean-clean (x ∷ y ∷ d) h = cc

is_default_only-default :
    (xs : List String) → is_default_only xs ≡ true → xs ≡ "default_tenant" ∷ []
unfolding is_default_only
is_default_only-default [] h = cc
is_default_only-default (x ∷ []) h = ground (arith, eq_iff x "default_tenant")
is_default_only-default (x ∷ y ∷ xs) h = cc

module _ {W : Type 0} (t : Tester W) where
  -- A manager has been found with the default tenant for its only one, and that tenant with nothing in
  -- it: the reading of its state has left the second of the states.
  abbrev FoundEmpty : Managed W → Managed W → Type 0
  FoundEmpty g k =
      ((t.res.list_tenants g.session.headers g.session.world).0 ≡ value ("default_tenant" ∷ []))
      × (u : Managed W) × (get_manager_state t ("default_tenant" ∷ []) u ≡ (ok clean, k))

  -- A manager is confirmed to be empty only if its listing of tenants, the first request made, has the
  -- default tenant alone, and the state that is then read of that tenant is the clean one.
  confirm_manager_empty-FoundEmpty :
      (g k : Managed W) → confirm_manager_empty t g ≡ (ok tt, k) → FoundEmpty g k
  unfolding confirm_manager_empty
  confirm_manager_empty-FoundEmpty g k e =
      let (_, _, e1) = bind_inv (say _) _ g k tt e in
      let (tenants, listed, e2) = bind_inv (in_session (request t.res.list_tenants)) _ _ k tt e1 in
      let (alone, e3) = check_inv (is_default_only tenants) _ _ k tt e2 in
      let (_, _, e4) = bind_inv (say _) _ _ k tt e3 in
      let (found, read, e5) = bind_inv (get_manager_state t ("default_tenant" ∷ [])) _ _ k tt e4 in
      let (empty, last) = check_returned (is_clean found) _ k e5 in
      (
        answered _ _ listed ∙ ap value (is_default_only-default tenants alone),
        _,
        returned_as _ found clean k read (is_clean-clean found empty) last,
      )
