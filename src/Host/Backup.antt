-- ===== src/Host/Backup.antt =====
-- Saving the state of a machine between tests and putting it back (`rsync_backup` and `rsync_restore`
-- of framework/test_hosts.py), and `reboot_if_required` of framework/util.py.
pub mod Laws
use cloudify_system_tests.Prelude.{String, Bool, true, false, List, [], ◌∷◌, if◌then◌else◌}
use cloudify_system_tests.Text.{concat, join}
use cloudify_system_tests.Act.{Act, Done, pass, ◌>>=◌, ◌>>◌}
use cloudify_system_tests.Act.Retry.{Retrying}
use cloudify_system_tests.Host.{
  Vm, Command, Machine, Host, plain, sudo, effect, run_command, set_vm, get_vm,
}
use cloudify_system_tests.Host.Services.{stop_manager_services, clean_local_rest_ca}
use cloudify_system_tests.Host.Bootstrap.{wait_for_ssh}

-- the constant of this name
abbrev rsync_locations : List String
rsync_locations = "/etc" ∷ "/opt" ∷ "/var" ∷ "/usr" ∷ []

unfoldable backup_commands : String
unfolding join
backup_commands = concat (
    "sudo rsync -aAHX "
    ∷ join " " rsync_locations
    ∷ " /cfy_backup > /tmp/rsync_backup.log 2>&1 "
    ∷ "; res=$? ; [[ $res -eq 24 ]] && res=0 "
    ∷ "; [[ $res -eq 0 ]] && touch /tmp/rsync_backup_complete"
    ∷ [])

abbrev pub run_restore : Command
run_restore = plain "nohup bash /tmp/rsync_restore_script &>/dev/null &"

abbrev pub restore_script : String
restore_script =
    "(sudo rsync -aAHX /cfy_backup/* / --delete > /tmp/rsync_restore.log 2>&1 && touch /tmp/rsync_restore_complete) || touch /tmp/rsync_restore_failed &"

-- `copy.deepcopy`: what is written to the one later does not reach the other
abbrev pub reset_config : Vm → Vm
reset_config v = record v { install_config = v.basic_install_config }

module _ {W : Type 0} (m : Machine W) where
  unfoldable rsync_backup : Retrying (Host W) → Act (Host W) Done
  rsync_backup r = do
    wait_for_ssh m r
    run_command m (sudo "mkdir /cfy_backup")
    run_command m (sudo "chmod o+r /cfy_backup")
    effect (λ v.
        m.put v "/tmp/rsync_backup_script"
          (concat ("(" ∷ backup_commands ∷ ") || touch /tmp/rsync_backup_failed &" ∷ [])))
    run_command m (plain "nohup bash /tmp/rsync_backup_script &>/dev/null &")
    pass

  -- what is done to a manager before its files are put back
  unfoldable pub clean_manager : Act (Host W) Done
  clean_manager = do
    stop_manager_services m
    run_command m (plain "rm -rf ~/.cloudify*")
    run_command m (plain "sudo rm -rf /root/.cloudify")
    clean_local_rest_ca m

  unfoldable pub start_restore : Act (Host W) Done
  start_restore = do
    effect (λ v. m.put v "/tmp/rsync_restore_script" restore_script)
    run_command m run_restore
    pass

  unfoldable pub rsync_restore : Act (Host W) Done
  rsync_restore = do
    vm ← get_vm
    if vm.is_manager then set_vm reset_config else pass
    if vm.is_manager then clean_manager else pass
    start_restore

  -- the loops of `reboot_if_required`, for one machine each
  unfoldable request_reboot : Retrying (Host W) → Act (Host W) Done
  request_reboot r = do
    vm ← get_vm
    if vm.reboot_required
        then (do
          wait_for_ssh m r
          run_command m (record { text = "rm -rf /tmp/*"; use_sudo = true; warn_only = true })
          run_command m (record {
            text = "sudo systemctl stop sshd && sudo shutdown -r now";
            use_sudo = false;
            warn_only = true;
          })
          pass)
        else pass

  unfoldable await_reboot : Retrying (Host W) → Act (Host W) Done
  await_reboot r = do vm ← get_vm; if vm.reboot_required then wait_for_ssh m r else pass
