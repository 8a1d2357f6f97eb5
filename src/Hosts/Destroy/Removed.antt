-- ===== src/Hosts/Destroy/Removed.antt =====
-- The deployments of the hosts, once a teardown has removed them.
use mathlib.Core.Path.{subst}
use cloudify_system_tests.Prelude.{
  none, ◌*◌, ◌≡◌, refl, ap, inl, inr, ℕ, String, true, List, [], ◌∷◌, ◌==◌, eq_iff, is_in, arith,
  Bool-cases,
}
use cloudify_system_tests.Dict.{contains, Dict, get, put, get-put}
use cloudify_system_tests.Act.{Act, ok, ◌>>◌}
use cloudify_system_tests.Act.Returns.{ok-injective}
use cloudify_system_tests.Act.Invert.{bind_inv, with_result}
use cloudify_system_tests.Client.{Api, Session, Execution, Headers}
use cloudify_system_tests.Deployment.{delete_deployment}
use cloudify_system_tests.Deployment.Deletion.{IsGone, delete_deployment-IsGone}
use cloudify_system_tests.Hosts.{Infrastructure, Hosts, on_infra}
use cloudify_system_tests.Hosts.Destroy.Headers.{
  delete_deployment-SameHeaders, await_uninstalls-SameHeaders, run_blocking-SameHeaders,
}
use cloudify_system_tests.Hosts.Destroy.{
  start_undeploy, await_uninstalls, delete_vms, finish_undeploy, remove_infrastructure,
}

-- What is asked of the manager is asked in its session.
on_infra_inv :
    {W A : Type 0} (m : Act (Session W) A) (s t : Hosts W) (a : A)
    → on_infra m s ≡ (ok a, t)
    → m s.session ≡ (ok a, t.session)
on_infra_inv m s t a e = ap (λ q. (q.0, q.1.session)) e

module _ {W : Type 0} (api : Api W) (infra : Infrastructure W) where
  -- The deployment has been deleted with these headers, and the deletion has ended with a listing that
  -- lacks it.
  abbrev pub Gone : Headers → String → Type 0
  Gone h id =
      (u v : Session W) × (u.headers ≡ h)
      × (delete_deployment api id u ≡ (ok tt, v))
      × IsGone api id v.world

  deleted-Gone :
      (h : Headers) (id : String) (u v : Session W)
      → u.headers ≡ h
      → delete_deployment api id u ≡ (ok tt, v)
      → Gone h id
  deleted-Gone h id u v same e = (u, v, same, e, delete_deployment-IsGone api id u v e)

  abbrev HasUninstall : String → Hosts W → Type 0
  HasUninstall x h = contains x h.test_vm_uninstalls ≡ true

  put-HasUninstall :
      (x k : String) (e : Execution) (d : Dict Execution)
      → contains x d ≡ true
      → contains x (put k e d) ≡ true
  put-HasUninstall x k e d h = rw get-put (ground (arith, h))

  start_undeploy-keeps :
      (ds : List String) (x : String) (s t : Hosts W)
      → start_undeploy api infra ds s ≡ (ok tt, t)
      → HasUninstall x s
      → HasUninstall x t
  unfolding start_undeploy
  start_undeploy-keeps [] x s t e h = subst (HasUninstall x) (ap (λ q. q.1) e) h
  start_undeploy-keeps (d ∷ ds) x s t e h =
      let (_, _, e1) = bind_inv _ _ s t tt e in
      let (execution, _, e2) = bind_inv _ _ _ t tt e1 in
      let (_, _, e3) = bind_inv _ _ _ t tt e2 in
      start_undeploy-keeps ds x _ t e3 (put-HasUninstall x d execution s.test_vm_uninstalls h)

  pub start_undeploy-HasUninstall :
      (ds : List String) (x : String) (s t : Hosts W)
      → start_undeploy api infra ds s ≡ (ok tt, t)
      → is_in x ds ≡ true
      → HasUninstall x t
  unfolding start_undeploy
  start_undeploy-HasUninstall [] x s t e h = cc
  start_undeploy-HasUninstall (d ∷ ds) x s t e h =
      let (_, _, e1) = bind_inv _ _ s t tt e in
      let (execution, _, e2) = bind_inv _ _ _ t tt e1 in
      let (_, _, e3) = bind_inv _ _ _ t tt e2 in
      elim (Bool-cases (d == x)) [
        | inl same ↦
            start_undeploy-keeps ds x _ t e3
              (rw (get-put d x execution s.test_vm_uninstalls, same) refl)
        | inr other ↦ start_undeploy-HasUninstall ds x _ t e3 (rw other at h)
      ]

  delete_vms-Gone :
      (d : Dict Execution) (x : String) (s t : Session W)
      → delete_vms api infra d s ≡ (ok tt, t)
      → contains x d ≡ true
      → Gone s.headers x
  unfolding delete_vms get
  delete_vms-Gone [] x s t e h = cc
  delete_vms-Gone ((k, v) ∷ d) x s t e h =
      let (_, gone, e1) = bind_inv (delete_deployment api k) _ s t tt e in
      elim (Bool-cases (k == x)) [
        | inl same ↦
            subst (Gone s.headers) ((eq_iff k x).0 same)
              (deleted-Gone s.headers k s _ refl (with_result _ (ok tt) gone))
        | inr other ↦
            subst (λ g. Gone g x) ((delete_deployment-SameHeaders api k).at s)
              (delete_vms-Gone d x _ t e1 (rw other at h))
      ]

  uninstalled-Gone :
      (fuel : ℕ) (d : Dict Execution) (x : String) (s t : Session W)
      → (await_uninstalls api infra fuel d >> delete_vms api infra d) s ≡ (ok tt, t)
      → contains x d ≡ true
      → Gone s.headers x
  uninstalled-Gone fuel d x s t e h =
      let (_, _, e1) = bind_inv (await_uninstalls api infra fuel d) _ s t tt e in
      subst (λ g. Gone g x) ((await_uninstalls-SameHeaders api infra fuel d).at s)
        (delete_vms-Gone d x _ t e1 h)

  pub finish_undeploy-Gone :
      (fuel : ℕ) (x : String) (s t : Hosts W)
      → finish_undeploy api infra fuel s ≡ (ok tt, t)
      → HasUninstall x s
      → Gone s.session.headers x
  unfolding finish_undeploy
  finish_undeploy-Gone fuel x s t e h =
      let (d, read, e1) = bind_inv _ _ s t tt e in
      uninstalled-Gone fuel d x s.session t.session
        (on_infra_inv (await_uninstalls api infra fuel d >> delete_vms api infra d) s t tt e1)
        (subst (λ u. contains x u ≡ true) (ok-injective read) h)

  pub remove_infrastructure-Gone :
      (fuel : ℕ) (s t : Session W)
      → remove_infrastructure api infra fuel s ≡ (ok tt, t)
      → Gone s.headers "infrastructure"
  unfolding remove_infrastructure
  remove_infrastructure-Gone fuel s t e =
      let (_, _, e1) = bind_inv _ _ s t tt e in
      let (_, _, e2) = bind_inv _ _ _ t tt e1 in
      deleted-Gone s.headers "infrastructure" _ t
        ((run_blocking-SameHeaders api fuel "infrastructure" "uninstall" [] none (15 * 60)).at _) e2
