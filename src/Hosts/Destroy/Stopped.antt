-- ===== src/Hosts/Destroy/Stopped.antt =====
-- The executions of the tenant, once a teardown has gone past them.
use mathlib.Core.Path.{subst}
use cloudify_system_tests.Prelude.{
  ◌≡◌, refl, ap, ◌∙◌, ◌⊎◌, inl, inr, ℕ, zero, suc, String, Bool, true, false, List, [], ◌∷◌, ◌==◌,
  eq_iff, is_in, All, arith, Bool-cases, if◌then◌else◌,
}
use cloudify_system_tests.Act.{value, ok, ◌>>=◌}
use cloudify_system_tests.Act.Returns.{ok-injective}
use cloudify_system_tests.Act.Invert.{bind_inv, with_result}
use cloudify_system_tests.Client.{Api, Session, Execution, Headers}
use cloudify_system_tests.Resources.Checks.{answered}
use cloudify_system_tests.Hosts.{Infrastructure}
use cloudify_system_tests.Hosts.Destroy.Headers.{
  await_cancelled-SameHeaders, stop_executions-SameHeaders,
}
use cloudify_system_tests.Hosts.Destroy.{
  difference, stop_executions, await_cancelled, check_cancelled, refuse_failures, ensure_stopped,
}

pub is_in_self : (x : String) (xs : List String) → is_in x (x ∷ xs) ≡ true
is_in_self x xs = ground (arith, eq_iff x x)

pub is_in_more : (x y : String) (xs : List String) → is_in x xs ≡ true → is_in x (y ∷ xs) ≡ true
is_in_more x y xs h = ground (arith, h)

module _ {W : Type 0} (api : Api W) (infra : Infrastructure W) where
  -- Asked with these headers, the manager has shown the execution as cancelled.
  abbrev SeenCancelled : Headers → String → Type 0
  SeenCancelled h id =
      (w : W) × (e : Execution) × ((api.get_execution h id w).0 ≡ value e)
      × ((e.status == "cancelled") ≡ true)

  await_cancelled-Seen :
      (n : ℕ) (id : String) (s t : Session W)
      → await_cancelled api infra n id s ≡ (ok true, t)
      → SeenCancelled s.headers id
  unfolding await_cancelled
  await_cancelled-Seen zero id s t e = cc (ap (λ q. q.0) e)
  await_cancelled-Seen (suc n) id s t e =
      let (x, r, e1) = bind_inv _ _ s t true e in
      let (_, _, e2) = bind_inv _ _ _ t true e1 in
      elim (Bool-cases (x.status == "cancelled")) [
        | inl seen ↦ (s.world, x, answered _ x r, seen)
        | inr other ↦
            let (_, _, e3) = bind_inv _ _ _ t true (rw other at e2) in
            await_cancelled-Seen n id _ t e3
      ]

  -- Every text of a list that a test finds in another has the property there.
  abbrev SeenIn : Headers → List String → Type 0
  SeenIn h found = (x : String) → is_in x found ≡ true → SeenCancelled h x

  cons-SeenIn :
      (h : Headers) (complete : Bool) (id : String) (found : List String)
      → (complete ≡ true → SeenCancelled h id)
      → SeenIn h found
      → SeenIn h (if complete then id ∷ found else found)
  cons-SeenIn k true id found here there x h = elim (Bool-cases (id == x)) [
    | inl same ↦ subst (SeenCancelled k) ((eq_iff id x).0 same) (here refl)
    | inr other ↦ there x (rw other at h)
  ]
  cons-SeenIn k false id found here there x h = there x h

  none-SeenIn : (k : Headers) → SeenIn k []
  none-SeenIn k x h = cc

  check_cancelled-SeenIn :
      (ids found : List String) (s t : Session W)
      → check_cancelled api infra ids s ≡ (ok found, t)
      → SeenIn s.headers found
  unfolding check_cancelled
  check_cancelled-SeenIn [] found s t e =
      subst (SeenIn s.headers) (ok-injective (ap (λ q. q.0) e)) (none-SeenIn s.headers)
  check_cancelled-SeenIn (id ∷ ids) found s t e =
      let (_, _, e1) = bind_inv _ _ s t found e in
      let (complete, r, e2) = bind_inv _ _ _ t found e1 in
      let (others, q, e3) = bind_inv _ _ _ t found e2 in
      subst (SeenIn s.headers) (ok-injective (ap (λ q. q.0) e3)) (
        cons-SeenIn s.headers complete id others
          (λ c. await_cancelled-Seen 30 id _ _ (with_result _ (ok true) (r ∙ ap ok c)))
          (subst (λ h. SeenIn h others) ((await_cancelled-SameHeaders api infra 30 id).at _)
            (check_cancelled-SeenIn ids others _ _ (with_result _ (ok others) q))))

  -- Nothing is left of a list without another: the other has all of it.
  difference-IsEmpty :
      (xs ys : List String) (x : String)
      → difference xs ys ≡ []
      → is_in x xs ≡ true
      → is_in x ys ≡ true
  unfolding difference
  difference-IsEmpty [] ys x e h = cc
  difference-IsEmpty (z ∷ xs) ys x e h = elim (Bool-cases (is_in z ys)) [
    | inl there ↦ elim (Bool-cases (z == x)) [
      | inl same ↦ subst (λ y. is_in y ys ≡ true) ((eq_iff z x).0 same) there
      | inr other ↦ difference-IsEmpty xs ys x (rw there at e) (rw other at h)
    ]
    | inr absent ↦ cc (rw absent at e)
  ]

  refuse_failures_inv :
      (xs : List String) (s t : Session W) → refuse_failures api infra xs s ≡ (ok tt, t) → xs ≡ []
  unfolding refuse_failures ◌>>=◌
  refuse_failures_inv [] s t e = refl
  refuse_failures_inv (x ∷ xs) s t e = cc (ap (λ q. q.0) e)

  abbrev IsEnvironment : Execution → Type 0
  IsEnvironment e = (e.workflow_id == "create_deployment_environment") ≡ true

  abbrev Killed : List String → Execution → Type 0
  Killed cancelled e = IsEnvironment e ⊎ (is_in e.id cancelled ≡ true)

  Killed-more :
      (id : String) (cancelled : List String) (es : List Execution)
      → All (Killed cancelled) es
      → All (Killed (id ∷ cancelled)) es
  Killed-more id cancelled [] a = tt
  Killed-more id cancelled (e ∷ es) a = (
    elim (a.0) [ inl env ↦ inl env | inr there ↦ inr (is_in_more e.id id cancelled there) ],
    Killed-more id cancelled es a.1,
  )

  stop_executions-Killed :
      (es : List Execution) (cancelled : List String) (s t : Session W)
      → stop_executions api infra es s ≡ (ok cancelled, t)
      → All (Killed cancelled) es
  unfolding stop_executions
  stop_executions-Killed [] cancelled s t e = tt
  stop_executions-Killed (x ∷ es) cancelled s t e =
      elim (Bool-cases (x.workflow_id == "create_deployment_environment")) [
        | inl env ↦
            let (_, _, e1) = bind_inv _ _ s t cancelled (rw env at e) in
            (inl env, stop_executions-Killed es cancelled _ t e1)
        | inr other ↦
            let (_, _, e1) = bind_inv _ _ s t cancelled (rw other at e) in
            let (_, _, e2) = bind_inv _ _ _ t cancelled e1 in
            let (found, q, e3) = bind_inv _ _ _ t cancelled e2 in
            subst (λ c. All (Killed c) (x ∷ es)) (ok-injective (ap (λ q. q.0) e3))
              (
                inr (is_in_self x.id found),
                Killed-more x.id found es
                    (stop_executions-Killed es found _ _ (with_result _ (ok found) q)),
              )
      ]

  -- The manager's listing of executions for these headers, each of which has been seen cancelled, but
  -- for those that create the environment of a deployment.
  abbrev pub AllStopped : Headers → Type 0
  AllStopped h =
      (w : W) × (es : List Execution) × ((infra.list_executions h w).0 ≡ value es)
      × All (λ e. IsEnvironment e ⊎ SeenCancelled h e.id) es

  settled :
      (h : Headers) (es : List Execution) (cancelled complete : List String)
      → All (Killed cancelled) es
      → difference cancelled complete ≡ []
      → SeenIn h complete
      → All (λ e. IsEnvironment e ⊎ SeenCancelled h e.id) es
  settled h [] cancelled complete a d seen = tt
  settled h (e ∷ es) cancelled complete a d seen = (
    elim (a.0) [
      | inl env ↦ inl env
      | inr there ↦ inr (seen e.id (difference-IsEmpty cancelled complete e.id d there))
    ],
    settled h es cancelled complete a.1 d seen,
  )

  pub ensure_stopped-AllStopped :
      (s t : Session W) → ensure_stopped api infra s ≡ (ok tt, t) → AllStopped s.headers
  unfolding ensure_stopped
  ensure_stopped-AllStopped s t e =
      let (_, _, e1) = bind_inv _ _ s t tt e in
      let (es, listed, e2) = bind_inv _ _ _ t tt e1 in
      let (cancelled, killed, e3) = bind_inv _ _ _ t tt e2 in
      let (complete, checked, e4) = bind_inv _ _ _ t tt e3 in
      (
        _,
        es,
        answered _ es listed,
        settled s.headers es cancelled complete
            (stop_executions-Killed es cancelled _ _ (with_result _ (ok cancelled) killed))
            (refuse_failures_inv _ _ t e4)
            (subst (λ h. SeenIn h complete) ((stop_executions-SameHeaders api infra es).at _)
              (check_cancelled-SeenIn cancelled complete _ _
                (with_result _ (ok complete) checked))),
      )
