-- ===== src/Example/Files.antt =====
-- What an example checks once it is installed, and `upload_and_verify_install`.
pub mod Laws
use cloudify_system_tests.Prelude.{
  ℕ, String, Bool, true, false, Option, none, some, List, [], ◌∷◌, ◌==◌, ltb, if◌then◌else◌,
}
use cloudify_system_tests.Text.{concat}
use cloudify_system_tests.Act.{
  Act, Done, assertion_error, attribute_error, other, pass, pure, raise, ◌>>=◌, ◌>>◌,
}
use cloudify_system_tests.Act.Retry.{Retrying}
use cloudify_system_tests.Client.{Api, Session, Execution, info, request, log_line}
use cloudify_system_tests.Example.{
  Site, Bench, on_session, in_tenant, on_world, get_example, input, upload_blueprint,
  create_example_deployment, install,
}

-- What is read of a file: on Windows the output of a command, elsewhere the text of a local copy.
pub data FileData : Type 0 where
  bytes : List ℕ → FileData
  str : String → FileData

module _ {W : Type 0} (api : Api W) (site : Site W) (premium : Bool)
    (client_retry : Retrying (Session W)) (retry : Retrying (Bench W)) where
  abbrev given_or_input : String → Option String → Act (Bench W) String
  given_or_input key none = input key
  given_or_input key (some v) = pure v

  unfoldable pub read : Bool → String → Act (Bench W) FileData
  read true path = on_world (site.read_windows_file path) >>= λ b. pure (bytes b)
  read false path = on_world (site.read_file path) >>= λ t. pure (str t)

  -- `data.decode('utf-8')`: a text has no such attribute
  unfoldable pub decode : FileData → Act (Bench W) String
  decode (bytes b) = on_world (λ w. (site.decode b, w))
  decode (str t) = raise attribute_error

  -- the loop of `check_files`
  unfoldable pub check_each : Bool → String → String → List (String × String) → Act (Bench W) Done
  check_each windows path expected [] = pass
  check_each windows path expected ((id, node_id) ∷ instances) = do
    let rest = check_each windows path expected instances
    if node_id == "file"
        then (do
          data_read ← read windows (concat (path ∷ "_" ∷ id ∷ []))
          decoded ← decode data_read
          if decoded == expected then pass else raise assertion_error
          rest)
        else rest

  -- one attempt of `check_files`
  unfoldable pub files_attempt : Option String → Option String → Act (Bench W) Done
  files_attempt path expected_content = do
    example ← get_example
    instances ← on_session (request (λ h. api.list_node_instances h example.deployment_id))
    file_path ← given_or_input "path" path
    expected ← given_or_input "content" expected_content
    check_each example.windows file_path expected instances

  unfoldable pub check_files : Option String → Option String → Act (Bench W) Done
  check_files path expected_content = retry.retry Done 15 2000 (files_attempt path expected_content)

  -- the events of the first execution listed: if there is none, an `IndexError`
  unfoldable first_events : List Execution → Act (Session W) ℕ
  first_events [] = raise (other 1)
  first_events (execution ∷ executions) = request (λ h. site.count_events h execution.id)

  unfoldable assert_deployment_events_exist : Act (Bench W) Done
  assert_deployment_events_exist = do
    on_session (log_line info "Verifying deployment events..")
    example ← get_example
    events ← in_tenant (request (λ h. api.list_executions h example.deployment_id) >>= first_events)
    if ltb 0 events then pass else raise assertion_error

  unfoldable upload_and_verify_install : ℕ → Bool → Act (Bench W) Done
  upload_and_verify_install fuel skip_plugins_validation = do
    upload_blueprint api site premium client_retry retry
    create_example_deployment api site premium client_retry retry fuel skip_plugins_validation true
    install api site premium client_retry retry fuel
    assert_deployment_events_exist
    check_files none none
