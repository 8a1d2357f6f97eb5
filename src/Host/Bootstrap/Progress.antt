-- ===== src/Host/Bootstrap/Progress.antt =====
-- What the reports of a bootstrap mean.
use cloudify_system_tests.Prelude.{
  refl, not, ◌++◌, [], ◌∷◌, ◌||◌, ℕ, zero, suc, ◌≡◌, ap, ◌∙◌, sym, String, Bool, true, false,
  if◌then◌else◌, Bool-cases, inl, inr,
}
use cloudify_system_tests.Text.{stripped_is}
use cloudify_system_tests.Act.{value, Result, ok, pass, result, continue, ◌>>=◌, ◌>>◌}
use cloudify_system_tests.Act.Retry.{Retrying}
use cloudify_system_tests.Act.Returns.{
  Returns-never, Returns, Fails, Returns-pure, Returns-raise, Returns-after,
}
use cloudify_system_tests.Act.Invert.{bind_inv, with_result}
use cloudify_system_tests.Host.Guard.{only_manager-manager, only_manager-other}
use cloudify_system_tests.Host.{set_world}
use cloudify_system_tests.Resources.Checks.{answered}
use cloudify_system_tests.Host.{Machine, Host, run_command}
use cloudify_system_tests.Host.Bootstrap.{
  finalize_preparation, probe, report_failure, act_on, bootstrap_is_complete, await_bootstrap,
}

module _ {W : Type 0} (m : Machine W) (r : Retrying (Host W)) where
  report_failure-Fails : Fails (report_failure m r)
  unfolding report_failure
  report_failure-Fails = Returns-after _ _ λ _. Returns-after _ _ λ _. Returns-raise _

  -- What an answer of `bootstrap_is_complete` says of what the probe printed.
  abbrev Reports : String → Bool → Type 0
  Reports printed complete =
      (complete ≡ stripped_is printed "done")
      × ((complete || not (stripped_is printed "failed")) ≡ true)

  act_on-Reports : (printed : String) → Returns (Reports printed) (act_on m r printed)
  unfolding act_on
  act_on-Reports printed = elim (Bool-cases (stripped_is printed "done")) [
    | inl done ↦ rw done (Returns-after _ _ λ _. Returns-pure true (sym done, refl))
    | inr other ↦ rw other (
        Returns-after _ _ λ _. elim (Bool-cases (stripped_is printed "failed")) [
          | inl failed ↦ rw failed (Returns-never _ report_failure-Fails)
          | inr going ↦
              rw going (Returns-after _ _ λ _. Returns-pure false (sym other, ap not going))
        ])
  ]

  probed :
      (h : Host W) (printed : String) (complete : Bool) (x : Result String × Host W)
      → x.0 ≡ ok printed
      → (continue x.0 (act_on m r) x.1).0 ≡ ok complete
      → Reports printed complete
  probed h printed complete x p e =
      (act_on-Reports printed).at x.1 complete
        (ap (λ q. (continue q (act_on m r) x.1).0) (sym p) ∙ e)

  -- What the machine printed decides the answer: `true` only for "done", `false` only for neither
  -- "done" nor "failed", and after "failed" there is no answer.
  bootstrap_is_complete-Reports :
      (h : Host W) (printed : String) (complete : Bool)
      → (m.run h.vm probe h.world).0 ≡ value printed
      → (bootstrap_is_complete m r h).0 ≡ ok complete
      → Reports printed complete
  unfolding bootstrap_is_complete run_command ◌>>=◌
  bootstrap_is_complete-Reports h printed complete p e = elim (Bool-cases h.vm.is_manager) [
    | inl manager ↦
        probed h printed complete (run_command m probe h) (ap result p)
          (ap (λ q. q.0) (sym (only_manager-manager _ h manager)) ∙ e)
    | inr other ↦ cc (ap (λ q. q.0) (sym (only_manager-other _ h other)) ∙ e)
  ]

  -- The machine of a manager has printed "done" when it was asked for its bootstrap, and what has been done
  -- since is the end of its preparation.
  pub record IsBootstrapped (t : Host W) : Type 0 where
    pub host : Host W
    pub manager : host.vm.is_manager ≡ true
    pub printed : String
    pub world : W
    pub answer : m.run host.vm probe host.world ≡ (value printed, world)
    pub done : stripped_is printed "done" ≡ true
    finalized :
        finalize_preparation m r (record host { sent = host.sent ++ probe ∷ []; world = world })
        ≡ (ok tt, t)

  done_inv :
      (printed : String) (h t : Host W)
      → act_on m r printed h ≡ (ok true, t)
      → (stripped_is printed "done" ≡ true) × (finalize_preparation m r h ≡ (ok tt, t))
  unfolding act_on
  done_inv printed h t e = elim (Bool-cases (stripped_is printed "done")) [
    | inl done ↦
        let (_, finished, e1) = bind_inv (finalize_preparation m r) _ h t true (rw done at e) in
        (done, with_result _ (ok tt) finished ∙ ap (λ q. (ok tt, q.1)) e1)
    | inr other ↦ cc (((act_on-Reports printed).at h true (ap (λ q. q.0) e)).0 ∙ other)
  ]

  seen_done :
      (h t : Host W)
      → h.vm.is_manager ≡ true
      → bootstrap_is_complete m r h ≡ (ok true, t)
      → IsBootstrapped t
  unfolding bootstrap_is_complete run_command
  seen_done h t manager e =
      let (printed, shown, e1) =
        bind_inv (run_command m probe) (act_on m r) h t true
          (sym (only_manager-manager _ h manager) ∙ e) in
      let (done, finalized) = done_inv printed _ t e1 in
      record {
        host = h;
        manager = manager;
        printed = printed;
        world = (m.run h.vm probe h.world).1;
        answer = ap (λ x. (x, (m.run h.vm probe h.world).1)) (answered _ printed shown);
        done = done;
        finalized = finalized;
      }

  complete-IsBootstrapped :
      (h t : Host W) → bootstrap_is_complete m r h ≡ (ok true, t) → IsBootstrapped t
  unfolding bootstrap_is_complete
  complete-IsBootstrapped h t e = elim (Bool-cases h.vm.is_manager) [
    | inl manager ↦ seen_done h t manager e
    | inr other ↦ cc (ap (λ q. q.0) (sym (only_manager-other _ h other) ∙ e))
  ]

  after_answer :
      (fuel : ℕ) (h t : Host W) (complete : Bool)
      → ((g : Host W) → await_bootstrap m r fuel g ≡ (ok tt, t) → IsBootstrapped t)
      → (bootstrap_is_complete m r h).0 ≡ ok complete
      → (if complete then pass else (set_world (m.pause 5000000) >> await_bootstrap m r fuel))
          (bootstrap_is_complete m r h).1
        ≡ (ok tt, t)
      → IsBootstrapped t
  after_answer fuel h t true again answered rest =
      complete-IsBootstrapped h t (
        with_result (bootstrap_is_complete m r h) (ok true) answered
        ∙ ap (λ q. (ok true, q.1)) rest)
  after_answer fuel h t false again answered rest =
      let (done, _, later) =
        bind_inv (set_world (m.pause 5000000)) _ (bootstrap_is_complete m r h).1 t tt rest in
      again _ later

  -- A wait for a bootstrap that returns has seen the machine of a manager print "done" for it, and has
  -- done nothing since but finalize its preparation; neither another answer nor "failed" ends it well.
  pub await_bootstrap-IsBootstrapped :
      (fuel : ℕ) (h t : Host W) → await_bootstrap m r fuel h ≡ (ok tt, t) → IsBootstrapped t
  unfolding await_bootstrap
  await_bootstrap-IsBootstrapped zero h t e = cc (ap (λ q. q.0) e)
  await_bootstrap-IsBootstrapped (suc fuel) h t e =
      let (complete, answered, rest) = bind_inv (bootstrap_is_complete m r) _ h t tt e in
      after_answer fuel h t complete (λ g. await_bootstrap-IsBootstrapped fuel g t) answered rest
