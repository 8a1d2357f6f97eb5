-- ===== src/Host/Services/Laws.antt =====
-- Which commands the operations on the services send, on a machine that answers every command.
use cloudify_system_tests.Text.{split}
use cloudify_system_tests.Prelude.{
  inr, inl, Bool-cases, some, false, Option, if◌then◌else◌, true, Bool, String, ◌≡◌, refl, ap, ◌∙◌,
  sym, List, [], ◌∷◌, ◌++◌, map,
}
use mathlib.Core.List.{append_assoc, append-nil}
use cloudify_system_tests.Act.{pass, ◌>>◌, continue, Result, Act, value, ok, ◌>>=◌}
use cloudify_system_tests.Host.Guard.{only_manager-manager}
use cloudify_system_tests.Act.{pure}
use cloudify_system_tests.Prelude.{none}
use cloudify_system_tests.Host.{only_manager, Vm, Command, Machine, Host, run_command}
use cloudify_system_tests.Host.Services.{
  default_configs, remove_certs, any_service, list_configs, on_configs, start_manager_services,
  unlink_ca, teardown, is_configured, get_installed_configs, list_configured, cfy_manager,
  for_configs,
}

module _ {W : Type 0} (m : Machine W) (answers : String → String)
    (obeys : (vm : Vm) (c : Command) (w : W) → (m.run vm c w).0 ≡ value (answers c.text)) where
  -- Code that returns, sends these commands, and leaves the machine's fields alone.
  pub record Sends {A : Type 0} (cs : List Command) (a : A) (h : Host W) (x : Result A × Host W)
      : Type 0 where
    pub returned : x.0 ≡ ok a
    pub trace : x.1.sent ≡ h.sent ++ cs
    pub same_vm : x.1.vm ≡ h.vm

  pub run_command-Sends :
      (c : Command) (h : Host W) → Sends (c ∷ []) (answers c.text) h (run_command m c h)
  unfolding run_command
  run_command-Sends c h = record {
    returned = rw (obeys h.vm c h.world) refl;
    trace = refl;
    same_vm = refl;
  }

  pub pure-Sends : {A : Type 0} (a : A) (h : Host W) → Sends [] a h (ok a, h)
  pure-Sends a h = record { returned = refl; trace = sym (append-nil h.sent); same_vm = refl }

  pub as_manager :
      {A : Type 0} {cs : List Command} {a : A} (body : Act (Host W) A) (h : Host W)
      → h.vm.is_manager ≡ true
      → Sends cs a h (body h)
      → Sends cs a h (only_manager body h)
  as_manager body h manager s =
      let same = only_manager-manager body h manager in
      record {
        returned = ap (λ q. q.0) same ∙ s.returned;
        trace = ap (λ q. q.1.sent) same ∙ s.trace;
        same_vm = ap (λ q. q.1.vm) same ∙ s.same_vm;
      }

  pub Sends-bind :
      {A B : Type 0} (cs ds : List Command) (a : A) (b : B) (h : Host W) (x : Result A × Host W)
      (f : A → Act (Host W) B)
      → Sends cs a h x
      → ((g : Host W) → g.vm ≡ h.vm → Sends ds b g (f a g))
      → Sends (cs ++ ds) b h (continue x.0 f x.1)
  Sends-bind cs ds a b h x f hx hf =
      let next = hf x.1 hx.same_vm in
      record {
        returned = rw hx.returned next.returned;
        trace =
            rw hx.returned (next.trace ∙ ap (λ l. l ++ ds) hx.trace ∙ append_assoc h.sent cs ds);
        same_vm = rw hx.returned (next.same_vm ∙ hx.same_vm);
      }

  for_configs-Sends :
      (action : String) (configs : List String) (h : Host W)
      → Sends (map (cfy_manager action) configs) tt h (for_configs m action configs h)
  unfolding for_configs ◌>>=◌
  for_configs-Sends action [] h = pure-Sends tt h
  for_configs-Sends action (c ∷ configs) h =
      Sends-bind (cfy_manager action c ∷ []) (map (cfy_manager action) configs) _ tt h _ _
        (run_command-Sends (cfy_manager action c) h) (λ g _. for_configs-Sends action configs g)

  get_installed_configs-Sends :
      (h : Host W)
      → h.vm.is_manager ≡ true
      → Sends
          (list_configs ∷ [])
          (default_configs (split (answers list_configs.text)))
          h
          (get_installed_configs m h)
  unfolding get_installed_configs ◌>>=◌
  get_installed_configs-Sends h manager = as_manager _ h manager (
      Sends-bind (list_configs ∷ []) [] (answers list_configs.text)
        (default_configs (split (answers list_configs.text))) h (run_command m list_configs h)
        (λ listed. pure (default_configs (split listed))) (run_command-Sends list_configs h)
        (λ g _. pure-Sends _ g))

  is_configured-Sends :
      (h : Host W)
      → h.vm.is_manager ≡ true
      → Sends
          (list_configured ∷ [])
          (any_service (answers list_configured.text))
          h
          (is_configured m h)
  unfolding is_configured ◌>>=◌
  is_configured-Sends h manager = as_manager _ h manager (
      Sends-bind (list_configured ∷ []) [] (answers list_configured.text)
        (any_service (answers list_configured.text)) h (run_command m list_configured h)
        (λ listed. pure (any_service listed)) (run_command-Sends list_configured h)
        (λ g _. pure-Sends _ g))

  -- The commands for an action on every installed configuration, where any service is configured.
  abbrev config_commands : String → Bool → List Command
  config_commands action true =
      list_configs ∷ map (cfy_manager action) (default_configs (split (answers list_configs.text)))
  config_commands action false = []

  chosen-Sends :
      (action : String) (configured : Bool) (h : Host W)
      → h.vm.is_manager ≡ true
      → Sends (config_commands action configured) tt h (
          (if configured
              then (do config_names ← get_installed_configs m; for_configs m action config_names)
              else pass)
            h)
  unfolding ◌>>=◌
  chosen-Sends action true h manager =
      Sends-bind (list_configs ∷ []) _ _ tt h _ _ (get_installed_configs-Sends h manager)
        (λ g _. for_configs-Sends action _ g)
  chosen-Sends action false h manager = pure-Sends tt h

  abbrev pub action_commands : String → List Command
  action_commands action =
      list_configured ∷ config_commands action (any_service (answers list_configured.text))

  pub on_configs-Sends :
      (action : String) (h : Host W)
      → h.vm.is_manager ≡ true
      → Sends (action_commands action) tt h (on_configs m action h)
  unfolding on_configs ◌>>=◌
  on_configs-Sends action h manager =
      Sends-bind (list_configured ∷ []) _ _ tt h _ _ (is_configured-Sends h manager)
        (λ g same. chosen-Sends action _ g (ap (λ v. v.is_manager) same ∙ manager))

  -- On a machine that answers every command, starting the services of a manager returns: it asks what
  -- is configured, and if any service is, starts every installed configuration in the order in which
  -- they are listed.
  start_manager_services_sends :
      (h : Host W)
      → h.vm.is_manager ≡ true
      → ((start_manager_services m h).0 ≡ ok tt)
        × ((start_manager_services m h).1.sent ≡ h.sent ++ action_commands "start")
  unfolding start_manager_services
  start_manager_services_sends h manager =
      let all = as_manager _ h manager (on_configs-Sends "start" h manager) in
      (all.returned, all.trace)

  abbrev pub cert_commands : Bool → List Command
  cert_commands true = remove_certs m ∷ []
  cert_commands false = []

  certs-Sends :
      (kill_certs : Bool) (h : Host W)
      → Sends
          (cert_commands kill_certs)
          tt
          h
          ((if kill_certs then (run_command m (remove_certs m) >> pass) else pass) h)
  unfolding ◌>>=◌
  certs-Sends true h =
      Sends-bind (remove_certs m ∷ []) [] _ tt h _ _ (run_command-Sends (remove_certs m) h)
        (λ g _. pure-Sends tt g)
  certs-Sends false h = pure-Sends tt h

  pub unlink_ca-Sends : (path : Option String) (h : Host W) → Sends [] tt h (unlink_ca m path h)
  unfolding unlink_ca
  unlink_ca-Sends none h = pure-Sends tt h
  unlink_ca-Sends (some path) h = elim (Bool-cases (m.exists path h.world)) [
    | inl there ↦
        rw there (record { returned = refl; trace = sym (append-nil h.sent); same_vm = refl })
    | inr absent ↦ rw absent (pure-Sends tt h)
  ]

  -- On a machine that answers every command, a teardown of a manager returns: it asks what is
  -- configured, removes every installed configuration if any service is, and then the certificates
  -- if it was asked to; it sends nothing else.
  pub teardown_sends :
      (kill_certs : Bool) (h : Host W)
      → h.vm.is_manager ≡ true
      → ((teardown m kill_certs h).0 ≡ ok tt)
        × ((teardown m kill_certs h).1.sent
            ≡ h.sent ++ (action_commands "remove" ++ (cert_commands kill_certs ++ [])))
  unfolding teardown ◌>>=◌
  teardown_sends kill_certs h manager =
      let all = as_manager _ h manager (
        Sends-bind (action_commands "remove") (cert_commands kill_certs ++ []) _ tt h _ _
          (on_configs-Sends "remove" h manager)
          (λ g _.
            Sends-bind (cert_commands kill_certs) [] _ tt g _ _ (certs-Sends kill_certs g)
              (λ k _. unlink_ca-Sends k.vm.api_ca_path k))) in
      (all.returned, all.trace)
