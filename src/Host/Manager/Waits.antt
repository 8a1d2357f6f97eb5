-- ===== src/Host/Manager/Waits.antt =====
-- What a wait for the executions of a manager has seen when it returns.
use cloudify_system_tests.Prelude.{
  ◌≡◌, refl, ap, ◌∙◌, String, Bool, true, List, [], ◌∷◌, ◌==◌, inl, inr, Bool-cases, All,
}
use cloudify_system_tests.Act.{Done, Reply, value, fault, ok, result, continue, ◌>>=◌}
use cloudify_system_tests.Act.Ends.{Ends, Ends-bind, Ends-ok, Ends-err, Ends-if}
use cloudify_system_tests.Act.Retry.{Retrying, retry_inv}
use cloudify_system_tests.Host.{Machine, Host}
use cloudify_system_tests.Host.Guard.{effect-Ends, guarded_inv}
use cloudify_system_tests.Host.Manager.{
  check_terminated, executions_attempt, wait_for_all_executions,
}

module _ {W : Type 0} (m : Machine W) where
  AllTerminated : List String → Type 0
  AllTerminated = All (λ status. (status == "terminated") ≡ true)

  check_terminated-Ends : (statuses : List String) → Ends (check_terminated m statuses)
  unfolding check_terminated
  check_terminated-Ends [] = Ends-ok _ _
  check_terminated-Ends (status ∷ statuses) =
      Ends-if _ _ _ (check_terminated-Ends statuses) (Ends-err _)

  -- a check that returns leaves the state alone
  check_terminated-AllTerminated :
      (statuses : List String) (h t : Host W)
      → check_terminated m statuses h ≡ (ok tt, t)
      → AllTerminated statuses × (h ≡ t)
  unfolding check_terminated AllTerminated
  check_terminated-AllTerminated [] h t e = (tt, ap (λ q. q.1) e)
  check_terminated-AllTerminated (status ∷ statuses) h t e =
      elim (Bool-cases (status == "terminated")) [
        | inl done ↦
            let (all, same) = check_terminated-AllTerminated statuses h t (rw done at e) in
            ((done, all), same)
        | inr going ↦ cc (ap (λ q. q.0) (rw going at e))
      ]

  executions_attempt-Ends : (include : Bool) → Ends (executions_attempt m include)
  unfolding executions_attempt
  executions_attempt-Ends include = Ends-bind _ _ (effect-Ends _) check_terminated-Ends

  -- The world is one that a listing of the executions has left behind, with all of them terminated.
  pub AreDone : Bool → W → Type 0
  AreDone include t =
      (h : Host W) × (statuses : List String) × (m.list_statuses h.vm.client include h.world
        ≡ (value statuses, t))
      × AllTerminated statuses

  listed :
      (include : Bool) (g t : Host W) (r : Reply (List String)) (w : W)
      → m.list_statuses g.vm.client include g.world ≡ (r, w)
      → continue (result r) (check_terminated m) (record g { world = w }) ≡ (ok tt, t)
      → AreDone include t.world
  unfolding AreDone
  listed include g t (value statuses) w l e =
      let (all, same) = check_terminated-AllTerminated statuses _ t e in
      (g, statuses, l ∙ ap (λ u. (value statuses, u.world)) same, all)
  listed include g t (fault x) w l e = cc (ap (λ q. q.0) e)

  attempt-AreDone :
      (include : Bool) (g t : Host W)
      → executions_attempt m include g ≡ (ok tt, t)
      → AreDone include t.world
  unfolding executions_attempt ◌>>=◌
  attempt-AreDone include g t e = listed include g t _ _ refl e

  -- A wait for all executions that returns has ended with a listing in which every execution has
  -- terminated: nothing has happened to the world since.
  pub wait_for_all_executions-AreDone :
      (r : Retrying (Host W)) (include_system_workflows : Bool) (h t : Host W)
      → wait_for_all_executions m r include_system_workflows h ≡ (ok tt, t)
      → AreDone include_system_workflows t.world
  unfolding wait_for_all_executions
  wait_for_all_executions-AreDone r include h t e =
      let (g, seen) =
        retry_inv r Done 1000 (executions_attempt m include)
          (λ s. (executions_attempt-Ends include).at s) 199 h t tt (guarded_inv _ h t tt e) in
      attempt-AreDone include g t seen
