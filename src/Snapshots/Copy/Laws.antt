-- ===== src/Snapshots/Copy/Laws.antt =====
-- What a snapshot that has been copied has gone through.
use cloudify_system_tests.Act.Moves.{Moves, Moves-bind}
use cloudify_system_tests.Prelude.{◌≡◌, refl, ap, ◌∙◌, ℕ, String, Bool}
use cloudify_system_tests.Act.{ok, value, gets}
use cloudify_system_tests.Client.{request}
use cloudify_system_tests.Host.{get_vm}
use cloudify_system_tests.Managed.{Managed, in_session, on_host}
use cloudify_system_tests.Resources.{Snapshot}
use cloudify_system_tests.Resources.Checks.{answered}
use cloudify_system_tests.Act.Invert.{bind_inv, with_result}
use cloudify_system_tests.Resources.Seen.{IsListedCreated, assert_snapshot_created-IsListedCreated}
use cloudify_system_tests.Snapshots.{
  Tester, test_snapshot_id, create_snapshot, download_snapshot, upload_snapshot,
}
use cloudify_system_tests.Snapshots.Restore.{restore_snapshot}
use cloudify_system_tests.Snapshots.Restore.Outcome.{Restored, restore_snapshot-Restored}
use cloudify_system_tests.Snapshots.Copy.{
  Pair, on_old, on_new, mgr_password, restore_defaults, create_copy_and_restore_snapshot,
}

module _ {W : Type 0} (t : Tester W) where
  -- The machine and what its client sends are the same.
  record SameManager (g k : Managed W) : Type 0 where
    pub vm : k.vm ≡ g.vm
    pub headers : k.session.headers ≡ g.session.headers

  upload-SameManager :
      (local_path snapshot_id : String)
      → Moves SameManager (upload_snapshot t local_path snapshot_id)
  unfolding upload_snapshot
  upload-SameManager local_path snapshot_id =
      Moves-bind SameManager (λ g. record { vm = refl; headers = refl })
        (λ g h k p q. record { vm = q.vm ∙ p.vm; headers = q.headers ∙ p.headers }) _ _
        (record { at = λ g. record { vm = refl; headers = refl } })
        λ _.
          Moves-bind SameManager (λ g. record { vm = refl; headers = refl })
            (λ g h k p q. record { vm = q.vm ∙ p.vm; headers = q.headers ∙ p.headers }) _ _
            (record { at = λ g. record { vm = refl; headers = refl } })
            λ x. record { at = λ g. record { vm = refl; headers = refl } }

  -- A snapshot that has been created has been listed so last of all.
  create_snapshot-IsListedCreated :
      (snapshot_id : String) (g k : Managed W)
      → create_snapshot t snapshot_id g ≡ (ok tt, k)
      → IsListedCreated t.api t.res snapshot_id k.session.world
  unfolding create_snapshot
  create_snapshot-IsListedCreated snapshot_id g k e =
      let (_, _, e1) = bind_inv (on_host get_vm) _ g k tt e in
      let (_, _, e2) = bind_inv _ _ _ k tt e1 in
      let (_, _, e3) = bind_inv (in_session _) _ _ k tt e2 in
      assert_snapshot_created-IsListedCreated t.api t.res t.session_retry snapshot_id _ _
        (ap (λ q. (q.0, q.1.session)) e3)

  -- What lies between two managers: the old one has created the test snapshot, and listed it so; it was
  -- got from there to the local path, under the headers of the old one, and put to the new one from
  -- there, under the headers of the new one; and the machine and the client of the new one have gone
  -- through its restore.
  pub record Copied (fuel : ℕ) (lower : String → String) (local_path : String) (wait_after : Bool)
      (p : Pair W) : Type 0 where
    pub created : Managed W
    pub creation : create_snapshot t test_snapshot_id p.old_manager ≡ (ok tt, created)
    pub listed : IsListedCreated t.api t.res test_snapshot_id created.session.world
    downloaded :
        (w : W) × ((t.res.download_snapshot created.session.headers test_snapshot_id local_path w).0
          ≡ value tt)
    pub uploaded :
        (w : W) × (x : Snapshot) × ((t.res.upload_snapshot p.new_manager.session.headers local_path
            test_snapshot_id w).0
          ≡ value x)
    restoring : Managed W
    on_new_manager : SameManager p.new_manager restoring
    pub password : String
    restored_to : Managed W
    pub restore :
        restore_snapshot t fuel lower test_snapshot_id password
          (restore_defaults wait_after)
          restoring
        ≡ (ok tt, restored_to)
    pub restored : Restored t fuel test_snapshot_id (restore_defaults wait_after)

  download-Answered :
      (local_path snapshot_id : String) (g k : Managed W)
      → download_snapshot t local_path snapshot_id g ≡ (ok tt, k)
      → (w : W) × ((t.res.download_snapshot g.session.headers snapshot_id local_path w).0
          ≡ value tt)
  unfolding download_snapshot
  download-Answered local_path snapshot_id g k e =
      let (_, _, e1) = bind_inv _ _ g k tt e in
      let (_, _, e2) = bind_inv (in_session (request t.res.list_snapshots)) _ _ k tt e1 in
      (_, answered _ tt (ap (λ q. q.0) e2))

  upload-Answered :
      (local_path snapshot_id : String) (g k : Managed W)
      → upload_snapshot t local_path snapshot_id g ≡ (ok tt, k)
      → (w : W) × (x : Snapshot) × ((t.res.upload_snapshot g.session.headers local_path snapshot_id
            w).0
          ≡ value x)
  unfolding upload_snapshot
  upload-Answered local_path snapshot_id g k e =
      let (_, _, e1) = bind_inv _ _ g k tt e in
      let (x, got, _) =
        bind_inv (in_session (request (λ h. t.res.upload_snapshot h local_path snapshot_id))) _ _ k
          tt e1 in
      (_, x, answered _ x got)

  -- A snapshot is reported to be copied from a manager to another only if the old manager has created
  -- the test snapshot and listed it as created, it was downloaded from the old one and uploaded to the
  -- new one by way of the local path, and the restore that was run for the new one has asked for it
  -- and waited for its success. This is so for the test snapshot, whatever name was asked for.
  pub create_copy_and_restore_snapshot-Copied :
      (fuel : ℕ) (lower : String → String) (snapshot_id local_path : String) (wait_after : Bool)
      (p q : Pair W)
      → create_copy_and_restore_snapshot t fuel lower snapshot_id local_path wait_after p
        ≡ (ok tt, q)
      → Copied fuel lower local_path wait_after p
  unfolding create_copy_and_restore_snapshot
  create_copy_and_restore_snapshot-Copied fuel lower snapshot_id local_path wait_after p q e =
      let (_, made, e1) = bind_inv (on_old (create_snapshot t test_snapshot_id)) _ p q tt e in
      let creation = with_result (create_snapshot t test_snapshot_id p.old_manager) (ok tt) made in
      let (_, downloaded, e2) =
        bind_inv (on_old (download_snapshot t local_path test_snapshot_id)) _ _ q tt e1 in
      let (_, uploaded, e3) =
        bind_inv (on_new (upload_snapshot t local_path test_snapshot_id)) _ _ q tt e2 in
      let (password, _, e4) = bind_inv (gets (λ u. mgr_password u.old_manager)) _ _ q tt e3 in
      let (_, restored, _) =
        bind_inv
          (on_new
            (restore_snapshot t fuel lower test_snapshot_id password (restore_defaults wait_after)))
          _ _ q tt e4 in
      let same = (upload-SameManager local_path test_snapshot_id).at _ in
      record {
        created = _;
        creation = creation;
        listed = create_snapshot-IsListedCreated test_snapshot_id p.old_manager _ creation;
        downloaded =
            download-Answered local_path test_snapshot_id _ _ (with_result _ (ok tt) downloaded);
        uploaded = upload-Answered local_path test_snapshot_id _ _ (with_result _ (ok tt) uploaded);
        restoring = _;
        on_new_manager = record { vm = same.vm; headers = same.headers };
        password = password;
        restored_to = _;
        restore = with_result _ (ok tt) restored;
        restored =
            restore_snapshot-Restored t fuel lower test_snapshot_id password
              (restore_defaults wait_after) _ _ refl (with_result _ (ok tt) restored);
      }
