-- ===== src/Snapshots/Services.antt =====
-- When the check of a manager's services passes.
use cloudify_system_tests.Prelude.{
  sym, ◌≡◌, refl, ap, ◌∙◌, ◌⊎◌, ◌↔◌, inl, inr, Bool, true, false, Bool-cases, List, [], ◌∷◌, ◌==◌,
  All, if◌then◌else◌,
}
use cloudify_system_tests.Act.{continue, Act, Done, value, ok, result, pass, ◌>>=◌}
use cloudify_system_tests.Act.Returns.{
  Returns, Returns-after, Returns-raise, Returns-bind, Returns-known, Returns-if, Returns-pure,
}
use cloudify_system_tests.Client.{request}
use cloudify_system_tests.Managed.{Managed, in_session}
use cloudify_system_tests.Resources.{Service, Instance, ManagerStatus}
use cloudify_system_tests.Snapshots.{Tester, say, check_instances, check_services, services_attempt}

-- A service that is active, or of which the manager names no unit.
abbrev IsSilent : Service → Type 0
IsSilent s = ((s.status == "Active") ≡ true) ⊎ (s.instances ≡ [])

abbrev pub IsPassing : ManagerStatus → Type 0
IsPassing m = ((m.status == "OK") ≡ true) ⊎ All IsSilent m.services

module _ {W : Type 0} (t : Tester W) where
  check_instances-Returns :
      (instances : List Instance) → Returns (λ _. instances ≡ []) (check_instances t instances)
  unfolding check_instances
  check_instances-Returns [] = Returns-pure tt refl
  check_instances-Returns (i ∷ rest) = search (Returns-after, Returns-raise)

  check_services-Returns :
      (services : List Service) → Returns (λ _. All IsSilent services) (check_services t services)
  unfolding check_services
  check_services-Returns [] = Returns-pure tt tt
  check_services-Returns (s ∷ rest) =
      Returns-bind (λ _. IsSilent s) _ _
        (Returns-if (s.status == "Active") _ _ (λ active. Returns-known _ (λ _. inl active))
          (λ _. record { at = λ g a e. inr ((check_instances-Returns s.instances).at g a e) }))
        λ _ silent. record { at = λ g a e. (silent, (check_services-Returns rest).at g a e) }

  silent_step :
      (active : Bool) (instances : List Instance) (g : Managed W)
      → (active ≡ true) ⊎ (instances ≡ [])
      → (if active then pass else check_instances t instances) g ≡ (ok tt, g)
  unfolding check_instances
  silent_step true instances g h = refl
  silent_step false [] g h = refl
  silent_step false (i ∷ rest) g (inl h) = cc
  silent_step false (i ∷ rest) g (inr h) = cc

  check_services-passes :
      (services : List Service) (g : Managed W)
      → All IsSilent services
      → check_services t services g ≡ (ok tt, g)
  unfolding check_services ◌>>=◌
  check_services-passes [] g h = refl
  check_services-passes (s ∷ rest) g (silent, h) =
      ap (λ x. continue x.0 (λ _. check_services t rest) x.1)
        (silent_step (s.status == "Active") s.instances g silent)
      ∙ check_services-passes rest g h

  -- what is done with the answer
  abbrev judge : ManagerStatus → Act (Managed W) Done
  judge m = if m.status == "OK" then pass else check_services t m.services

  judge-Returns : (m : ManagerStatus) → Returns (λ _. IsPassing m) (judge m)
  judge-Returns m =
      Returns-if (m.status == "OK") _ _ (λ well. Returns-known _ (λ _. inl well))
        (λ _. record { at = λ g a e. inr ((check_services-Returns m.services).at g a e) })

  judge-passes : (m : ManagerStatus) (g : Managed W) → IsPassing m → (judge m g).0 ≡ ok tt
  judge-passes m g (inl well) =
      ap (λ b. ((if b then pass else check_services t m.services) g).0) well
  judge-passes m g (inr silent) = elim (Bool-cases (m.status == "OK")) [
    | inl well ↦ ap (λ b. ((if b then pass else check_services t m.services) g).0) well
    | inr ill ↦
        ap (λ b. ((if b then pass else check_services t m.services) g).0) ill
        ∙ ap (λ x. x.0) (check_services-passes m.services g silent)
  ]

  -- An attempt to verify the services, where the manager answers, passes exactly if the answer is that
  -- all is well, or each service is active or comes with no unit. So a service that is down, and
  -- that has no systemd units, is let pass.
  pub services_attempt-IsPassing :
      (status : ManagerStatus) (g : Managed W)
      → (t.res.manager_status g.session.headers g.session.world).0 ≡ value status
      → ((services_attempt t g).0 ≡ ok tt) ↔ IsPassing status
  unfolding services_attempt ◌>>=◌
  services_attempt-IsPassing status g e =
      let after =
        (in_session (request t.res.manager_status) (say "Verifying services status..." g).1).1 in
      let reached = ap (λ r. (continue (result r) judge after).0) e in
      (
        λ passed. (judge-Returns status).at after tt (sym reached ∙ passed),
        λ passing. reached ∙ judge-passes status after passing,
      )
