-- ===== src/Logs.antt =====
-- test_suites/general/logs.py: a bundle of the logs of some managers, compared with what is on them.
pub mod Laws
use cloudify_system_tests.Prelude.{
  ℕ, zero, suc, length, String, Bool, true, false, not, Option, none, some, List, [], ◌∷◌, ◌++◌,
  map, ◌==◌, or_else, if◌then◌else◌,
}
use cloudify_system_tests.Text.{concat, join, codes, text_in, strip_text, split_on, drop, str}
use cloudify_system_tests.Act.{
  Act, Done, Reply, other, out_of_fuel, result, pass, pure, raise, ◌>>=◌, ◌>>◌,
}
use cloudify_system_tests.Client.{Session, Headers, info, log_line, request}
use cloudify_system_tests.Host.{Vm, Command, Machine, plain, run_command}
use cloudify_system_tests.Resources.{check, first}
use cloudify_system_tests.Sorting.{sorted}
use cloudify_system_tests.Sorting.Keys.{text_order}
use cloudify_system_tests.ClusterManager.Config.{ClusterNode}
use cloudify_system_tests.ClusterManager.{on_node, world_call, given_reply}

-- The calls of the client library for log bundles, and what the code does on the tester: the commands
-- `find` and `unzip`, and the reading of files.
pub record LogSite (W : Type 0) : Type 0 where
  pub machine : Machine W
  pub create_bundle : Headers → String → W → Reply Done × W
  -- the bundle's `status`, if it has one
  pub get_bundle : Headers → String → W → Reply (Option String) × W
  pub download_bundle : Headers → String → String → W → Reply Done × W
  pub extract : String → String → W → Reply Done × W
  pub find_files : String → W → Reply String × W
  pub read_text : String → W → Reply String × W
  pub read_bytes : String → W → Reply (List ℕ) × W
  -- `decode('utf8')`
  pub decode : List ℕ → Reply String
  pub lower : String → String
  -- `'{:.0f}'.format(time.time())`
  pub time_text : W → Reply String × W

abbrev pub equal_texts : List String → List String → Bool
equal_texts [] [] = true
equal_texts (x ∷ xs) (y ∷ ys) = let rest = equal_texts xs ys in if x == y then rest else false
equal_texts _ _ = false

-- the paths in the output of `find`, below the directory that was searched
abbrev pub paths_in : String → String → List String
paths_in directory found = map (drop (length (codes directory))) (split_on 10 (strip_text found))

abbrev pub sub_paths : String → String → List String
sub_paths directory found = sorted (paths_in directory found)

module _ {W : Type 0} (l : LogSite W) where
  abbrev run_logs : ClusterNode → String → Act (Session W) String
  run_logs manager t = on_node manager (run_command l.machine (plain t))

  -- `while status == 'creating'`, on fuel; the result is the status after the loop
  unfoldable pub bundle_status : ℕ → String → Act (Session W) String
  bundle_status zero dump_name = out_of_fuel
  bundle_status (suc fuel) dump_name = do
    let again = bundle_status fuel dump_name
    found ← request (λ h. l.get_bundle h dump_name)
    let status = or_else found "creating"
    if status == "creating" then again else pure status

  unfoldable pub copy_logs : String → List ClusterNode → Act (Session W) Done
  copy_logs manager_logs_path [] = pass
  copy_logs manager_logs_path (manager ∷ rest) = do
    run_logs manager (concat ("sudo cp -r /var/log/cloudify " ∷ manager_logs_path ∷ []))
    run_logs manager (concat ("sudo chown $(whoami). -R " ∷ manager_logs_path ∷ []))
    copy_logs manager_logs_path rest

  unfoldable pub create_log_bundle : ℕ → List ClusterNode → String → String → Act (Session W) Done
  create_log_bundle fuel managers manager_logs_path dump_name = do
    log_line info "Creating log dump"
    first managers
    request (λ h. l.create_bundle h dump_name)
    status ← bundle_status fuel dump_name
    check (status == "created")
    log_line info "Preparing manager logs comparison"
    copy_logs manager_logs_path managers

  unfoldable pub get_and_extract_log_bundle : String → String → String → Act (Session W) Done
  get_and_extract_log_bundle tmpdir extracted_path dump_name = do
    log_line info "Downloading and extracting log bundle"
    let logs_path = concat (tmpdir ∷ "/logbundle.zip" ∷ [])
    request (λ h. l.download_bundle h dump_name logs_path)
    world_call (l.extract logs_path extracted_path)

  -- one round of the last loop: whether the contents match
  unfoldable pub same_contents : ClusterNode → String → String → String → Act (Session W) Bool
  same_contents manager local_logs_path manager_logs_path sub_path = do
    let manager_log = concat (manager_logs_path ∷ sub_path ∷ [])
    local_data ← world_call (l.read_bytes (concat (local_logs_path ∷ sub_path ∷ [])))
    run_logs manager (concat ("truncate -s '<" ∷ str (length local_data) ∷ "' " ∷ manager_log ∷ []))
    decoded ← given_reply (l.decode local_data)
    manager_data ← run_logs manager (concat ("cat " ∷ manager_log ∷ []))
    pure (strip_text decoded == strip_text manager_data)

  unfoldable pub find_mismatches :
      ClusterNode → String → String → List String → Act (Session W) (List String)
  find_mismatches manager local_logs_path manager_logs_path [] = pure []
  find_mismatches manager local_logs_path manager_logs_path (sub_path ∷ rest) = do
    same ← same_contents manager local_logs_path manager_logs_path sub_path
    others ← find_mismatches manager local_logs_path manager_logs_path rest
    pure (if same then others else sub_path ∷ others)

  unfoldable pub compare_local_and_manager_logs :
      ClusterNode → String → String → Act (Session W) Done
  unfolding join
  compare_local_and_manager_logs manager local_logs_base manager_logs_path = do
    log_line info "Checking no logs failed to retrieve"
    let local_logs_path = concat (local_logs_base ∷ "/" ∷ manager.private_ip_address ∷ [])
    retrieval_log ← world_call (l.read_text (concat (local_logs_path ∷ ".log" ∷ [])))
    check (not (text_in "fail" (l.lower retrieval_log)))
    found_here ← world_call (l.find_files local_logs_path)
    found_there ← run_logs manager (concat ("find " ∷ manager_logs_path ∷ " -type f" ∷ []))
    let local_logs = sub_paths local_logs_path found_here
    log_line info "Checking all manager logs were retrieved"
    check (equal_texts local_logs (sub_paths manager_logs_path found_there))
    log_line info "Checking log contents match"
    mismatches ← find_mismatches manager local_logs_path manager_logs_path local_logs
    check (join "," mismatches == "")

  unfoldable pub compare_all : String → String → List ClusterNode → Act (Session W) Done
  compare_all local_logs_base manager_logs_path [] = pass
  compare_all local_logs_base manager_logs_path (manager ∷ rest) = do
    compare_local_and_manager_logs manager local_logs_base manager_logs_path
    compare_all local_logs_base manager_logs_path rest

  unfoldable pub test_logs : ℕ → List ClusterNode → String → Act (Session W) Done
  test_logs fuel managers tmpdir = do
    let local_logs_base = concat (tmpdir ∷ "/extracted" ∷ [])
    time ← world_call l.time_text
    let dump_name = concat ("testbundle-" ∷ time ∷ [])
    create_log_bundle fuel managers "/tmp/logs" dump_name
    get_and_extract_log_bundle tmpdir local_logs_base dump_name
    compare_all local_logs_base "/tmp/logs" managers
