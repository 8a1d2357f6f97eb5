-- ===== src/Managed/Agents.antt =====
-- framework/util.py: the agents of a manager and its cluster, and the version that is installed.
use cloudify_system_tests.Prelude.{String, [], ◌∷◌}
use cloudify_system_tests.Text.{concat, text_in}
use cloudify_system_tests.Act.{Act, Done, ◌>>=◌, ◌>>◌}
use cloudify_system_tests.Act.Retry.{Retrying}
use cloudify_system_tests.Client.{Api, Session, info, log_line}
use cloudify_system_tests.Host.{Machine, Host, plain, run_command}
use cloudify_system_tests.Managed.{Managed, in_session, on_host}
use cloudify_system_tests.Resources.{Resources, check, validate_cluster_status}

module _ {W : Type 0} (m : Machine W) where
  -- one attempt of `validate_agents`
  unfoldable agents_attempt : String → Act (Managed W) Done
  agents_attempt tenant = do
    validate_agents_wf ←
        on_host
          (run_command m (plain (concat ("cfy agents validate --tenant-name " ∷ tenant ∷ []))))
    check (text_in "Task succeeded" validate_agents_wf)

  unfoldable validate_agents : Retrying (Managed W) → String → Act (Managed W) Done
  validate_agents r tenant = r.retry Done 15 2000 (agents_attempt tenant)

  unfoldable validate_cluster_status_and_agents :
      Api W
      → Resources W
      → Retrying (Managed W)
      → Retrying (Session W)
      → String
      → String
      → String
      → Act (Managed W) Done
  validate_cluster_status_and_agents api res r session_retry tenant brokers_status managers_status =
      do
        in_session (log_line info "Validating agents")
        validate_agents r tenant
        in_session (log_line info "Validating cluster status")
        in_session (validate_cluster_status api res session_retry brokers_status managers_status)

  unfoldable pub get_manager_install_version : Act (Host W) String
  get_manager_install_version =
      run_command m (plain "rpm --queryformat \"%{VERSION}\" -q cloudify-manager-install")
