-- ===== src/Hosts/Destroy/Laws.antt =====
-- What a teardown that has ended has done, by how it ended.
use cloudify_system_tests.Text.{concat}
use cloudify_system_tests.Hosts.Destroy.Removed.{
  remove_infrastructure-Gone, start_undeploy-HasUninstall, finish_undeploy-Gone, Gone,
}
use cloudify_system_tests.Hosts.Destroy.Headers.{
  ensure_stopped-SameHeaders, start_undeploy-SameSession, finish_undeploy-SameSession,
}
use cloudify_system_tests.Hosts.Destroy.Stopped.{
  is_in_more, ensure_stopped-AllStopped, AllStopped, is_in_self,
}
use mathlib.Core.Path.{subst}
use cloudify_system_tests.Prelude.{
  inr, inl, ◌⊎◌, ◌++◌, ◌≡◌, refl, sym, ap, ◌∙◌, ℕ, String, Bool, true, false, Option, none, some,
  List, [], ◌∷◌, ◌==◌, is_in, All,
}
use cloudify_system_tests.Dict.{get, put, get-put}
use cloudify_system_tests.Act.{value, ok, ◌>>=◌, ◌>>◌}
use cloudify_system_tests.Act.Returns.{ok-injective}
use cloudify_system_tests.Act.Invert.{bind_inv, with_result}
use cloudify_system_tests.Client.{info, Line, Api, Headers}
use cloudify_system_tests.Client.Tenant.{cloudify_tenant_header}
use cloudify_system_tests.Resources.Checks.{answered}
use cloudify_system_tests.Hosts.{Infrastructure, Teardown, Hosts, on_infra}
use cloudify_system_tests.Hosts.Destroy.{
  outcome_name, drop_first, ensure_stopped, start_undeploy, finish_undeploy, delete_tenant,
  remove_infrastructure, destroy_resources, destroy_tenant, has_passed, is_wanted, destroy,
}

module _ {W : Type 0} (api : Api W) (infra : Infrastructure W) where
  -- What hosts with these deployments had in a tenant has been removed with these headers: the executions
  -- that were listed were stopped, deployments are gone, and the last request has deleted the tenant,
  -- from outside it.
  pub record TornDown (headers : Headers) (tenant : String) (deployments : List String)
      (t : Hosts W) : Type 0 where
    pub forgotten : t.tenant ≡ none
    outside : get cloudify_tenant_header t.session.headers ≡ some "default_tenant"
    pub deleted :
        (h : Headers) × (w : W) × (infra.delete_tenant h tenant w ≡ (value tt, t.session.world))
        × (get cloudify_tenant_header h ≡ some "default_tenant")
    pub stopped : AllStopped api infra headers
    pub removed : All (Gone api infra headers) (drop_first deployments)
    pub infrastructure : Gone api infra headers "infrastructure"

  all_of :
      (P : String → Type 0) (xs : List String) → ((x : String) → is_in x xs ≡ true → P x) → All P xs
  all_of P [] h = tt
  all_of P (x ∷ xs) h =
      (h x (is_in_self x xs), all_of P xs (λ y there. h y (is_in_more y x xs there)))

  abbrev Cleared : Headers → List String → Type 0
  Cleared h deployments =
      AllStopped api infra h
      × All (Gone api infra h) (drop_first deployments)
      × Gone api infra h "infrastructure"

  removed_last :
      (fuel : ℕ) (s : Hosts W)
      → (on_infra (remove_infrastructure api infra fuel) s).0 ≡ ok tt
      → Gone api infra s.session.headers "infrastructure"
  removed_last fuel s e =
      remove_infrastructure-Gone api infra fuel s.session _
        (with_result (remove_infrastructure api infra fuel s.session) (ok tt) e)

  destroy_resources-Cleared :
      (fuel : ℕ) (tenant : String) (s t : Hosts W)
      → destroy_resources api infra fuel tenant s ≡ (ok tt, t)
      → Cleared s.session.headers s.deployments
  unfolding destroy_resources
  destroy_resources-Cleared fuel tenant s t e =
      let (_, stopped, e1) = bind_inv (on_infra (ensure_stopped api infra)) _ s t tt e in
      let (ds, read, e2) = bind_inv _ _ _ t tt e1 in
      let (_, started, e3) = bind_inv (start_undeploy api infra (drop_first ds)) _ _ t tt e2 in
      let (_, finished, e4) = bind_inv (finish_undeploy api infra fuel) _ _ t tt e3 in
      let (_, ended, _) = bind_inv (on_infra (remove_infrastructure api infra fuel)) _ _ t tt e4 in
      let first = (ensure_stopped-SameHeaders api infra).at s.session in
      let second = (start_undeploy-SameSession api infra (drop_first ds)).at _ ∙ first in
      let third = (finish_undeploy-SameSession api infra fuel).at _ ∙ second in
      (
        ensure_stopped-AllStopped api infra s.session _ (with_result _ (ok tt) stopped),
        subst (λ l. All (Gone api infra s.session.headers) (drop_first l)) (sym (ok-injective read))
            (all_of (Gone api infra s.session.headers) (drop_first ds) (λ x there.
              subst (λ h. Gone api infra h x) second
                (finish_undeploy-Gone api infra fuel x _ _ (with_result _ (ok tt) finished) (
                  start_undeploy-HasUninstall api infra (drop_first ds) x _ _
                    (with_result _ (ok tt) started) there)))),
        subst (λ h. Gone api infra h "infrastructure") third
            (removed_last fuel
              ((finish_undeploy api infra fuel (start_undeploy api infra (drop_first ds) _).1).1)
              ended),
      )

  delete_tenant-TornDown :
      (h : Headers) (tenant : String) (ds : List String) (s t : Hosts W)
      → Cleared h ds
      → delete_tenant api infra tenant s ≡ (ok tt, t)
      → TornDown h tenant ds t
  unfolding delete_tenant
  delete_tenant-TornDown h tenant ds s t (stopped, removed, infrastructure) e =
      let (_, _, e1) = bind_inv _ _ s t tt e in
      let (_, _, e2) = bind_inv _ _ _ t tt e1 in
      let (_, deleted, e3) = bind_inv _ _ _ t tt e2 in
      record {
        forgotten = sym (ap (λ q. q.1.tenant) e3);
        outside =
            subst (λ u. get cloudify_tenant_header u.session.headers ≡ some "default_tenant")
              (ap (λ q. q.1) e3) (rw (get-put cloudify_tenant_header cloudify_tenant_header) refl);
        deleted = (
          put cloudify_tenant_header "default_tenant" s.session.headers,
          s.session.world,
          ap
                (λ r. (
                  r,
                  (infra.delete_tenant
                      (put cloudify_tenant_header "default_tenant" s.session.headers) tenant
                      s.session.world).1,
                ))
                (answered _ tt deleted)
              ∙ ap (λ q. (value tt, q.1.session.world)) e3,
          rw (get-put cloudify_tenant_header cloudify_tenant_header) refl,
        );
        stopped = stopped;
        removed = removed;
        infrastructure = infrastructure;
      }

  -- the hosts, with more in their log
  abbrev noted : List Line → Hosts W → Hosts W
  noted lines h = record h { session = record (h.session) { log = lines } }

  abbrev line : String → Line
  line t = record { level = info; text = t }

  abbrev prepared : Teardown → Bool → List Line → List Line
  prepared teardown passed log =
      (log
        ++ line (
            concat (
              "Preparing to destroy with "
              ∷ outcome_name api infra teardown passed
              ∷ " tests..."
              ∷ []))
          ∷ [])
      ++ line "Destroying test hosts.." ∷ []

  destroy_wanted :
      (teardown : Teardown) (fuel : ℕ) (given : Option Bool) (s : Hosts W)
      → is_wanted api infra teardown (has_passed api infra teardown given s) ≡ true
      → destroy api infra teardown fuel given s
        ≡ destroy_tenant api infra fuel s.tenant
            (noted (prepared teardown (has_passed api infra teardown given s) s.session.log) s)
  unfolding destroy ◌>>=◌
  destroy_wanted teardown fuel given s wanted = rw wanted refl

  destroy_tenant-named :
      (fuel : ℕ) (tenant : String) (has : Option String) (s : Hosts W)
      → has ≡ some tenant
      → (tenant == "") ≡ false
      → destroy_tenant api infra fuel has s
        ≡ (destroy_resources api infra fuel tenant >> delete_tenant api infra tenant) s
  unfolding destroy_tenant
  destroy_tenant-named fuel tenant has s e named = rw (e, named) refl

  -- A teardown that the configuration asks for, of hosts that have a tenant, ends without an exception
  -- only if, with the headers that the session had before it, the executions were listed and each was
  -- seen cancelled, but for those that create the environment of a deployment; each deployment but the
  -- first, and the infrastructure, was deleted and was gone from a listing that ended its deletion; and
  -- the last request has deleted the tenant, under the header of the default tenant.
  pub destroy-TornDown :
      (teardown : Teardown) (fuel : ℕ) (given : Option Bool) (tenant : String) (s t : Hosts W)
      → is_wanted api infra teardown (has_passed api infra teardown given s) ≡ true
      → s.tenant ≡ some tenant
      → (tenant == "") ≡ false
      → destroy api infra teardown fuel given s ≡ (ok tt, t)
      → TornDown s.session.headers tenant s.deployments t
  destroy-TornDown teardown fuel given tenant s t wanted has named e =
      let p = destroy_wanted teardown fuel given s wanted in
      let u = noted (prepared teardown (has_passed api infra teardown given s) s.session.log) s in
      let q = destroy_tenant-named fuel tenant s.tenant u has named in
      let (_, r, e1) =
        bind_inv (destroy_resources api infra fuel tenant) _ u t tt (sym q ∙ (sym p ∙ e)) in
      delete_tenant-TornDown s.session.headers tenant s.deployments _ t
        (destroy_resources-Cleared fuel tenant u _ (with_result _ (ok tt) r)) e1

  destroy_tenant-bare :
      (fuel : ℕ) (o : Option String) (s : Hosts W)
      → (o ≡ none) ⊎ (o ≡ some "")
      → destroy_tenant api infra fuel o s ≡ (ok tt, s)
  unfolding destroy_tenant
  destroy_tenant-bare fuel o s (inl absent) = rw absent refl
  destroy_tenant-bare fuel o s (inr blank) = rw blank refl

  -- Hosts without a tenant keep being without one, and their teardown returns.
  pub destroy-bare :
      (teardown : Teardown) (fuel : ℕ) (given : Option Bool) (s t : Hosts W)
      → is_wanted api infra teardown (has_passed api infra teardown given s) ≡ true
      → (s.tenant ≡ none) ⊎ (s.tenant ≡ some "")
      → destroy api infra teardown fuel given s ≡ (ok tt, t)
      → t.tenant ≡ s.tenant
  destroy-bare teardown fuel given s t wanted bare e =
      let u = noted (prepared teardown (has_passed api infra teardown given s) s.session.log) s in
      sym (
        ap (λ q. q.1.tenant)
          (sym (
              destroy_wanted teardown fuel given s wanted
              ∙ destroy_tenant-bare fuel s.tenant u bare)
            ∙ e))
