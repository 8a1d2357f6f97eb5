-- ===== src/Snapshots/Copy.antt =====
-- `create_copy_and_restore_snapshot`: a snapshot of one manager, restored on another.
pub mod Laws
use cloudify_system_tests.Prelude.{ℕ, String, Bool, true, false}
use cloudify_system_tests.Act.{Act, Done, gets, ◌>>=◌, ◌>>◌}
use cloudify_system_tests.Client.{Session}
use cloudify_system_tests.Managed.{Managed}
use cloudify_system_tests.Snapshots.{
  Tester, test_snapshot_id, create_snapshot, download_snapshot, upload_snapshot, wait_for_restore,
}
use cloudify_system_tests.Snapshots.Restore.{RestoreOptions, restore_snapshot}

-- Two managers in one world, and with one log.
pub record Pair (W : Type 0) : Type 0 where
  pub old_manager : Managed W
  pub new_manager : Managed W

module _ {W : Type 0} where
  -- what happened to the world, and what was logged, since
  abbrev meanwhile : Managed W → Managed W → Managed W
  meanwhile g other = record g {
    session = record (g.session) { log = other.session.log; world = other.session.world };
  }

  abbrev pub on_old : {A : Type 0} → Act (Managed W) A → Act (Pair W) A
  on_old m p =
      let (r, g) = m p.old_manager in
      (r, record { old_manager = g; new_manager = meanwhile p.new_manager g })

  abbrev pub on_new : {A : Type 0} → Act (Managed W) A → Act (Pair W) A
  on_new m p =
      let (r, g) = m p.new_manager in
      (r, record { old_manager = meanwhile p.old_manager g; new_manager = g })

  -- `mgr_password`
  abbrev pub mgr_password : Managed W → String
  mgr_password g = g.vm.install_config.admin_password

-- the defaults of `restore_snapshot`
abbrev pub restore_defaults : Bool → RestoreOptions
restore_defaults wait_for_post_restore_commands = record {
  restore_certificates = false;
  force = false;
  wait_for_post_restore_commands = wait_for_post_restore_commands;
  wait_timeout = 20;
  blocking = true;
}

module _ {W : Type 0} (t : Tester W) where
  -- the snapshot's name is not among what is used of the arguments
  unfoldable pub create_copy_and_restore_snapshot :
      ℕ → (String → String) → String → String → Bool → Act (Pair W) Done
  create_copy_and_restore_snapshot fuel lower snapshot_id local_snapshot_path wait_after = do
    on_old (create_snapshot t test_snapshot_id)
    on_old (download_snapshot t local_snapshot_path test_snapshot_id)
    on_new (upload_snapshot t local_snapshot_path test_snapshot_id)
    admin_password ← gets (λ p. mgr_password p.old_manager)
    on_new (
        restore_snapshot t fuel lower test_snapshot_id admin_password (restore_defaults wait_after))
    on_new (wait_for_restore t)
