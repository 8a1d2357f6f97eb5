-- ===== src/Host/Manager/Health.antt =====
-- What a wait for a manager has seen when it returns.
use cloudify_system_tests.Prelude.{
  ◌≡◌, ap, ◌∙◌, String, Bool, true, false, Option, none, some, ◌==◌, inl, inr, Bool-cases,
}
use cloudify_system_tests.Text.{text_in}
use cloudify_system_tests.Act.{
  Done, Error, Reply, value, fault, ok, result, catch, raise, ◌>>=◌, ◌>>◌,
}
use cloudify_system_tests.Act.Returns.{
  Returns-if, ok-injective, Fails, Returns-after, Returns-raise,
}
use cloudify_system_tests.Act.Ends.{
  Ends, Ends-bind, Ends-ok, Ends-err, Ends-if, result-ne-running, ne-running-ok,
}
use cloudify_system_tests.Act.Invert.{bind_inv, with_result}
use cloudify_system_tests.Act.Retry.{Retrying, retry_inv}
use cloudify_system_tests.Host.{
  get_remote_file, run_command, RestClient, Command, Machine, Host, effect,
}
use cloudify_system_tests.Host.Guard.{effect-Ends, guarded_inv, only_manager-Ends, caught-Ends}
use cloudify_system_tests.Host.Manager.{
  choose_protocol, close_client, fetch_ca, download_rest_ca, get_rest_client, renew_client,
  manager_attempt, check_healthy, wait_for_manager, set_client,
}

module _ {W : Type 0} (m : Machine W) where
  run-Ends : (c : Command) → Ends (run_command m c)
  unfolding run_command
  run-Ends c = record { at = λ h. result-ne-running (m.run h.vm c h.world).0 }

  choose_protocol-Ends : (proto : String) → Ends (choose_protocol m proto)
  unfolding choose_protocol
  choose_protocol-Ends proto =
      Ends-if _ _ _ (Ends-bind _ _ (effect-Ends _) λ _. Ends-ok _ _) (Ends-ok _ _)

  close_client-Ends : (client : Option RestClient) → Ends (close_client m client)
  close_client-Ends none = Ends-ok _ _
  close_client-Ends (some client) = Ends-ok _ _

  fetch_ca-Ends : (path : String) → Ends (fetch_ca m path)
  unfolding fetch_ca get_remote_file
  fetch_ca-Ends path =
      Ends-bind _ _ (Ends-bind _ _ (run-Ends _) λ _. Ends-bind _ _ (run-Ends _) λ _. effect-Ends _)
        λ _.
          Ends-bind _ _ (record { at = λ h. ne-running-ok h.vm }) λ vm. close_client-Ends vm.client

  download_rest_ca-Ends : (force : Bool) → Ends (download_rest_ca m force)
  unfolding download_rest_ca
  download_rest_ca-Ends force = only_manager-Ends _ (
      Ends-bind _ _ (record { at = λ h. ne-running-ok h.vm })
        λ vm. Ends-bind _ _ (Ends-ok _ _) λ _.
          Ends-bind _ _ (record { at = λ h. ne-running-ok _ })
            λ there.
              Ends-if _ _ _ (Ends-ok _ _)
                (Ends-bind _ _ (Ends-if _ _ _ (Ends-ok _ _) (Ends-ok _ _)) λ _. fetch_ca-Ends _))

  get_rest_client-Ends :
      (username password tenant : Option String) (proto : String) (download_ca : Bool)
      → Ends (get_rest_client m username password tenant proto download_ca)
  unfolding get_rest_client
  get_rest_client-Ends username password tenant proto download_ca = only_manager-Ends _ (
      Ends-bind _ _ (choose_protocol-Ends proto) λ protocol.
        Ends-bind _ _ (Ends-if _ _ _ (download_rest_ca-Ends false) (Ends-ok _ _))
          λ _. Ends-bind _ _ (record { at = λ h. ne-running-ok h.vm }) λ vm. Ends-ok _ _)

  renew_client-Ends : (e : Error) → Ends (renew_client m e)
  unfolding renew_client
  renew_client-Ends e =
      Ends-if _ _ _
        (Ends-bind _ _ (get_rest_client-Ends none none none "auto" true)
          λ _. Ends-bind _ _ (Ends-ok _ _) λ _. Ends-err _)
        (Ends-err _)

  -- a client is made anew for the next attempt: this one fails all the same
  renew_client-Fails : (e : Error) → Fails (renew_client m e)
  unfolding renew_client
  renew_client-Fails e =
      Returns-if (text_in "SSL must be used" (m.show_error e))
        (get_rest_client m none none none "auto" true >>= λ client. set_client client >> raise e)
        (raise e) (λ _. Returns-after _ _ λ _. Returns-after _ _ λ _. Returns-raise _)
        (λ _. Returns-raise _)

  manager_attempt-Ends : Ends (manager_attempt m)
  unfolding manager_attempt
  manager_attempt-Ends = Ends-bind _ _ (run-Ends _) λ _. Ends-bind _ _ (run-Ends _) λ _.
      Ends-bind _ _
        (record {
          at = λ h.
              caught-Ends _ (renew_client m) _
                (result-ne-running (m.get_status h.vm.client h.world).0) renew_client-Ends;
        })
        λ status. Ends-if _ _ _ (Ends-ok _ _) (Ends-err _)

  -- The world is one that the manager has just reported to be healthy in.
  IsHealthy : W → Type 0
  IsHealthy t =
      (client : Option RestClient) × (w : W) × (status : String) × (m.get_status client w
        ≡ (value status, t))
      × ((status == "OK") ≡ true)

  status_seen :
      (g t : Host W) (status : String) (x : Reply String) (w : W)
      → catch (λ u. (result x, record u { world = w })) (renew_client m) g ≡ (ok status, t)
      → ◌≡◌ {A = Reply String × W} (x, w) (value status, t.world)
  status_seen g t status (value s) w e =
      ap (λ b. (value b, w)) (ok-injective (ap (λ q. q.0) e))
      ∙ ap (λ q. (value status, q.1.world)) e
  status_seen g t status (fault x) w e =
      absurd ((renew_client-Fails x).at _ status (ap (λ q. q.0) e))

  healthy :
      (status : String) (h t : Host W)
      → check_healthy m status h ≡ (ok tt, t)
      → ((status == "OK") ≡ true) × (h ≡ t)
  healthy status h t e = elim (Bool-cases (status == "OK")) [
    | inl fine ↦ (fine, ap (λ q. q.1) (rw fine at e))
    | inr broken ↦ cc (ap (λ q. q.0) (rw broken at e))
  ]

  asked :
      (status : String) (g t : Host W)
      → (catch (effect (λ v. m.get_status v.client)) (renew_client m) g).0 ≡ ok status
      → check_healthy m status (catch (effect (λ v. m.get_status v.client)) (renew_client m) g).1
        ≡ (ok tt, t)
      → IsHealthy t.world
  unfolding IsHealthy
  asked status g t answered e =
      let seen = catch (effect (λ v. m.get_status v.client)) (renew_client m) g in
      let (fine, same) = healthy status seen.1 t e in
      (
        g.vm.client,
        g.world,
        status,
        status_seen g seen.1 status (m.get_status g.vm.client g.world).0
              (m.get_status g.vm.client g.world).1 (with_result seen (ok status) answered)
            ∙ ap (λ u. (value status, u.world)) same,
        fine,
      )

  attempt-IsHealthy : (g t : Host W) → manager_attempt m g ≡ (ok tt, t) → IsHealthy t.world
  unfolding manager_attempt
  attempt-IsHealthy g t e =
      let (_, _, e1) = bind_inv _ _ g t tt e in
      let (_, _, e2) = bind_inv _ _ _ t tt e1 in
      let (status, answered, e3) =
        bind_inv (catch (effect (λ v. m.get_status v.client)) (renew_client m)) (check_healthy m) _
          t tt e2 in
      asked status _ t answered e3

  -- A wait for the manager that returns has ended with an answer of the manager that it is healthy.
  wait_for_manager-IsHealthy :
      (r : Retrying (Host W)) (h t : Host W)
      → wait_for_manager m r h ≡ (ok tt, t)
      → IsHealthy t.world
  unfolding wait_for_manager
  wait_for_manager-IsHealthy r h t e =
      let (g, seen) =
        retry_inv r Done 5000 (manager_attempt m) (λ s. manager_attempt-Ends.at s) 59 h t tt
          (guarded_inv _ h t tt e) in
      attempt-IsHealthy g t seen
