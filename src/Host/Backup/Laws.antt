-- ===== src/Host/Backup/Laws.antt =====
-- What a restore sends to a machine that answers, and what it resets.
use cloudify_system_tests.Prelude.{
  ◌≡◌, refl, sym, ap, ◌∙◌, String, Bool, true, false, List, [], ◌∷◌, ◌++◌, if◌then◌else◌,
}
use mathlib.Core.List.{append-nil}
use cloudify_system_tests.Act.{Done, ◌>>◌, ok, Act, value, pass, ◌>>=◌}
use cloudify_system_tests.Host.{set_vm, Vm, Command, Machine, Host, plain, effect}
use cloudify_system_tests.Host.Services.{stop_manager_services, clean_local_rest_ca}
use cloudify_system_tests.Host.Services.Laws.{
  Sends, pure-Sends, as_manager, Sends-bind, run_command-Sends, on_configs-Sends, unlink_ca-Sends,
  action_commands,
}
use cloudify_system_tests.Host.Backup.{
  rsync_restore, run_restore, restore_script, reset_config, clean_manager, start_restore,
}

module _ {W : Type 0} (m : Machine W) (answers : String → String)
    (obeys : (vm : Vm) (c : Command) (w : W) → (m.run vm c w).0 ≡ value (answers c.text))
    (takes : (vm : Vm) (path contents : String) (w : W)
      → (m.put vm path contents w).0 ≡ value tt) where
  put-Sends :
      (path contents : String) (h : Host W)
      → Sends m answers obeys [] tt h (effect (λ v. m.put v path contents) h)
  put-Sends path contents h = record {
    returned = rw (takes h.vm path contents h.world) refl;
    trace = sym (append-nil h.sent);
    same_vm = refl;
  }

  abbrev clean_commands : List Command
  clean_commands =
      action_commands m answers obeys "stop"
      ++ ((plain "rm -rf ~/.cloudify*" ∷ []) ++ ((plain "sudo rm -rf /root/.cloudify" ∷ []) ++ []))

  clean_manager-Sends :
      (h : Host W)
      → h.vm.is_manager ≡ true
      → Sends m answers obeys clean_commands tt h (clean_manager m h)
  unfolding clean_manager stop_manager_services clean_local_rest_ca ◌>>=◌
  clean_manager-Sends h manager =
      Sends-bind m answers obeys (action_commands m answers obeys "stop") _ tt tt h _ _
        (as_manager m answers obeys _ h manager (on_configs-Sends m answers obeys "stop" h manager))
        (λ g same_g.
          Sends-bind m answers obeys (plain "rm -rf ~/.cloudify*" ∷ []) _ _ tt g _ _
            (run_command-Sends m answers obeys _ g)
            (λ k same_k.
              Sends-bind m answers obeys (plain "sudo rm -rf /root/.cloudify" ∷ []) [] _ tt k _ _
                (run_command-Sends m answers obeys _ k)
                (λ l same_l.
                  as_manager m answers obeys _ l
                    (ap (λ v. v.is_manager) (same_l ∙ same_k ∙ same_g) ∙ manager)
                    (unlink_ca-Sends m answers obeys l.vm.api_ca_path l))))

  start_restore-Sends :
      (h : Host W) → Sends m answers obeys (run_restore ∷ []) tt h (start_restore m h)
  unfolding start_restore ◌>>=◌
  start_restore-Sends h =
      Sends-bind m answers obeys [] (run_restore ∷ []) tt tt h _ _ (put-Sends _ restore_script h)
        (λ g _.
          Sends-bind m answers obeys (run_restore ∷ []) [] _ tt g _ _
            (run_command-Sends m answers obeys run_restore g)
            (λ k _. pure-Sends m answers obeys tt k))

  abbrev restore_commands : Bool → List Command
  restore_commands manager = if manager then clean_commands else []

  abbrev after_restore : Bool → Vm → Vm
  after_restore manager v = if manager then reset_config v else v

  cleaned-Sends :
      (manager : Bool) (h : Host W)
      → h.vm.is_manager ≡ manager
      → Sends m answers obeys
          (restore_commands manager)
          tt
          h
          ((if manager then clean_manager m else pass) h)
  cleaned-Sends true h e = clean_manager-Sends h e
  cleaned-Sends false h e = pure-Sends m answers obeys tt h

  -- the body of a restore, once it is known whether the machine is a manager
  abbrev body : Bool → Act (Host W) Done
  body manager = do
    if manager then set_vm reset_config else pass
    if manager then clean_manager m else pass
    start_restore m

  body-Sends :
      (manager : Bool) (h : Host W)
      → h.vm.is_manager ≡ manager
      → Sends m answers obeys
          (restore_commands manager ++ run_restore ∷ [])
          tt
          (record h { vm = after_restore manager h.vm })
          (body manager h)
  unfolding ◌>>=◌
  body-Sends true h e =
      Sends-bind m answers obeys clean_commands (run_restore ∷ []) tt tt
        (record h { vm = reset_config h.vm }) _ _
        (clean_manager-Sends (record h { vm = reset_config h.vm }) e) (λ g _. start_restore-Sends g)
  body-Sends false h e = start_restore-Sends h

  restored_as :
      (manager : Bool) (h : Host W) → h.vm.is_manager ≡ manager → rsync_restore m h ≡ body manager h
  unfolding rsync_restore ◌>>=◌
  restored_as manager h e = ap (λ b. body b h) e

  -- On a machine that answers every command and takes every file, a restore returns. On a manager it
  -- stops the services and removes the profiles before the files are put back, and the install
  -- configuration is again what it was at first; on any other machine it only puts the files back.
  -- Nothing else of the machine's fields changes.
  rsync_restore-resets :
      (manager : Bool) (h : Host W)
      → h.vm.is_manager ≡ manager
      → ((rsync_restore m h).0 ≡ ok tt)
        × ((rsync_restore m h).1.sent ≡ h.sent ++ (restore_commands manager ++ run_restore ∷ []))
        × ((rsync_restore m h).1.vm ≡ after_restore manager h.vm)
  rsync_restore-resets manager h e =
      let s = body-Sends manager h e in
      let same = restored_as manager h e in
      (
        ap (λ q. q.0) same ∙ s.returned,
        ap (λ q. q.1.sent) same ∙ s.trace,
        ap (λ q. q.1.vm) same ∙ s.same_vm,
      )
