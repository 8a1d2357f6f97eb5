-- ===== src/Hosts/Destroy/Frame.antt =====
-- What a teardown leaves as it was in the record of the hosts: everything but the tenant, which goes
-- last, and the uninstalls that it has started.
use cloudify_system_tests.Prelude.{◌≡◌, refl, ◌∙◌, ℕ, String, List, [], ◌∷◌}
use cloudify_system_tests.Dict.{Dict}
use cloudify_system_tests.Act.{Act, modify, gets, ◌>>=◌}
use cloudify_system_tests.Act.Moves.{Moves, Moves-bind}
use cloudify_system_tests.Client.{Api, Session, Execution}
use cloudify_system_tests.Hosts.{Infrastructure, Hosts, on_infra}
use cloudify_system_tests.Hosts.Destroy.{start_undeploy, finish_undeploy, destroy_resources}

-- The hosts still have what they had, whatever has been asked of the manager.
pub record StillHas {W : Type 0} (s t : Hosts W) : Type 0 where
  pub tenant : t.tenant ≡ s.tenant
  pub test_identifier : t.test_identifier ≡ s.test_identifier
  pub deployments : t.deployments ≡ s.deployments
  pub blueprints : t.blueprints ≡ s.blueprints

module _ {W : Type 0} where
  StillHas-refl : (s : Hosts W) → StillHas s s
  StillHas-refl s = record {
    tenant = refl;
    test_identifier = refl;
    deployments = refl;
    blueprints = refl;
  }

  pub StillHas-trans : (s t u : Hosts W) → StillHas s t → StillHas t u → StillHas s u
  StillHas-trans s t u p q = record {
    tenant = q.tenant ∙ p.tenant;
    test_identifier = q.test_identifier ∙ p.test_identifier;
    deployments = q.deployments ∙ p.deployments;
    blueprints = q.blueprints ∙ p.blueprints;
  }

  on_infra-StillHas : {A : Type 0} (m : Act (Session W) A) → Moves StillHas (on_infra m)
  on_infra-StillHas m = record {
    at = λ s. record {
      tenant = refl;
      test_identifier = refl;
      deployments = refl;
      blueprints = refl;
    };
  }

  abbrev chain :
      {A B : Type 0} (m : Act (Hosts W) A) (f : A → Act (Hosts W) B)
      → Moves StillHas m
      → ((a : A) → Moves StillHas (f a))
      → Moves StillHas (m >>= f)
  chain = Moves-bind StillHas StillHas-refl StillHas-trans

  gets-StillHas : {A : Type 0} (f : Hosts W → A) → Moves StillHas (gets f)
  gets-StillHas f = record { at = λ s. StillHas-refl s }

  module _ (api : Api W) (infra : Infrastructure W) where
    started-StillHas :
        (f : Hosts W → Dict Execution)
        → Moves StillHas (modify (λ h. record h { test_vm_uninstalls = f h }))
    started-StillHas f = record {
      at = λ s. record {
        tenant = refl;
        test_identifier = refl;
        deployments = refl;
        blueprints = refl;
      };
    }

    start_undeploy-StillHas : (ds : List String) → Moves StillHas (start_undeploy api infra ds)
    unfolding start_undeploy
    start_undeploy-StillHas [] = record { at = λ s. StillHas-refl s }
    start_undeploy-StillHas (d ∷ ds) = chain _ _ (on_infra-StillHas _) λ _.
        chain _ _ (on_infra-StillHas _)
          λ _. chain _ _ (started-StillHas _) λ _. start_undeploy-StillHas ds

    finish_undeploy-StillHas : (fuel : ℕ) → Moves StillHas (finish_undeploy api infra fuel)
    unfolding finish_undeploy
    finish_undeploy-StillHas fuel = chain _ _ (gets-StillHas _) λ _. on_infra-StillHas _

    pub destroy_resources-StillHas :
        (fuel : ℕ) (tenant : String) → Moves StillHas (destroy_resources api infra fuel tenant)
    unfolding destroy_resources
    destroy_resources-StillHas fuel tenant = chain _ _ (on_infra-StillHas _) λ _.
        chain _ _ (gets-StillHas _) λ ds. chain _ _ (start_undeploy-StillHas _) λ _.
          chain _ _ (finish_undeploy-StillHas fuel) λ _.
            chain _ _ (on_infra-StillHas _)
              λ _. chain _ _ (gets-StillHas _) λ _. on_infra-StillHas _
