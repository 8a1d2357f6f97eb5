-- ===== src/Deployment/Deletion.antt =====
-- When the deletion of a deployment is reported as done, and when as failed.
use mathlib.Core.Path.{subst}
use cloudify_system_tests.Act.Invert.{with_result, bind_inv}
use cloudify_system_tests.Act.Returns.{ok-injective}
use cloudify_system_tests.Prelude.{
  sym, Bool-cases, ◌∙◌, ap, inr, ◌⊎◌, inl, ℕ, zero, suc, String, ◌≡◌, refl, Bool, true, false, List,
  [], ◌∷◌, is_in,
}
use cloudify_system_tests.Act.{
  deployment_deletion, err, Done, Result, ◌>>◌, Act, Reply, value, fault, ok, result, continue,
  ◌>>=◌,
}
use cloudify_system_tests.Client.{request, Api, Session, Headers}
use cloudify_system_tests.Deployment.{
  delete_deployment, check_deleted, deletion_round, still_waiting, deletion_rounds,
}

module _ {W : Type 0} (api : Api W) where
  -- The world is one that a listing without the deployment has left behind.
  abbrev pub IsGone : String → W → Type 0
  IsGone id t =
      (h : Headers) × (w : W) × (ds : List String) × (api.list_deployments h w ≡ (value ds, t))
      × (is_in id ds ≡ false)

  -- where the loop can end with `found` unset
  abbrev EndsGone : String → Session W → (Bool → Act (Session W) Bool) → Type 0
  EndsGone id t again =
      (b : Bool) (u : Session W)
      → again b u ≡ (ok false, t)
      → ((b ≡ false) × (u ≡ t)) ⊎ IsGone id t.world

  present-IsGone :
      (id : String) (again : Bool → Act (Session W) Bool) (s t : Session W)
      → EndsGone id t again
      → (still_waiting api id true >> again true) s ≡ (ok false, t)
      → IsGone id t.world
  unfolding still_waiting ◌>>=◌
  present-IsGone id again s t ends e = elim (ends true _ e) [
    | inl (b, same) ↦ cc b
    | inr gone ↦ gone
  ]

  absent-IsGone :
      (id : String) (again : Bool → Act (Session W) Bool) (s t : Session W) (h : Headers) (w : W)
      (ds : List String)
      → api.list_deployments h w ≡ (value ds, s.world)
      → is_in id ds ≡ false
      → EndsGone id t again
      → (still_waiting api id false >> again false) s ≡ (ok false, t)
      → IsGone id t.world
  unfolding still_waiting ◌>>=◌
  absent-IsGone id again s t h w ds l absent ends e = elim (ends false s e) [
    | inl (b, same) ↦ (h, w, ds, l ∙ ap (λ u. (value ds, u.world)) same, absent)
    | inr gone ↦ gone
  ]

  round-IsGone :
      (id : String) (again : Bool → Act (Session W) Bool) (s t : Session W) (h : Headers) (w : W)
      (ds : List String)
      → api.list_deployments h w ≡ (value ds, s.world)
      → EndsGone id t again
      → deletion_round api id again ds s ≡ (ok false, t)
      → IsGone id t.world
  unfolding deletion_round
  round-IsGone id again s t h w [] l ends e =
      (h, w, [], l ∙ ap (λ q. (value [], q.1.world)) e, refl)
  round-IsGone id again s t h w (d ∷ ds) l ends e = elim (Bool-cases (is_in id (d ∷ ds))) [
    | inl present ↦ present-IsGone id again s t ends (rw present at e)
    | inr absent ↦ absent-IsGone id again s t h w (d ∷ ds) l absent ends (rw absent at e)
  ]

  listing-IsGone :
      (id : String) (again : Bool → Act (Session W) Bool) (s t : Session W)
      (r : Reply (List String)) (w : W)
      → api.list_deployments s.headers s.world ≡ (r, w)
      → EndsGone id t again
      → continue (result r) (deletion_round api id again) (record s { world = w }) ≡ (ok false, t)
      → IsGone id t.world
  listing-IsGone id again s t (value ds) w l ends e =
      round-IsGone id again (record s { world = w }) t s.headers s.world ds l ends e
  listing-IsGone id again s t (fault x) w l ends e = cc (ap (λ q. q.0) e)

  rounds-EndsGone : (n : ℕ) (id : String) (t : Session W) → EndsGone id t (deletion_rounds api n id)
  unfolding deletion_rounds ◌>>=◌
  rounds-EndsGone zero id t b u e = inl (ok-injective (ap (λ q. q.0) e), ap (λ q. q.1) e)
  rounds-EndsGone (suc n) id t b u e =
      inr (listing-IsGone id (deletion_rounds api n id) u t _ _ refl (rounds-EndsGone n id t) e)

  some_round-IsGone :
      (n : ℕ) (id : String) (found : Bool) (s t : Session W)
      → deletion_rounds api (suc n) id found s ≡ (ok false, t)
      → IsGone id t.world
  unfolding deletion_rounds ◌>>=◌
  some_round-IsGone n id found s t e =
      listing-IsGone id (deletion_rounds api n id) s t _ _ refl (rounds-EndsGone n id t) e

  checked-IsGone :
      (id : String) (found : Bool) (s t : Session W)
      → ((found ≡ false) → IsGone id s.world)
      → check_deleted api found s ≡ (ok tt, t)
      → IsGone id t.world
  unfolding check_deleted
  checked-IsGone id true s t h e = cc (ap (λ q. q.0) e)
  checked-IsGone id false s t h e = subst (λ u. IsGone id u.world) (ap (λ q. q.1) e) (h refl)

  -- A deletion that is reported as done has ended with a listing that lacks the deployment: nothing
  -- has happened to the world since.
  pub delete_deployment-IsGone :
      (id : String) (s t : Session W) → delete_deployment api id s ≡ (ok tt, t) → IsGone id t.world
  unfolding delete_deployment
  delete_deployment-IsGone id s t e =
      let (_, _, e1) = bind_inv _ _ s t tt e in
      let (_, _, e2) = bind_inv _ _ _ t tt e1 in
      let (_, _, e3) = bind_inv _ _ _ t tt e2 in
      let (found, r, e4) = bind_inv _ _ _ t tt e3 in
      checked-IsGone id found _ t
        (λ unset. some_round-IsGone 39 id false _ _ (with_result _ (ok false) (r ∙ ap ok unset))) e4

  -- What the loop finds where every listing agrees on whether the deployment is there.
  module _ (id : String) (present : Bool) (lists : Headers → W → List String)
      (answers : (h : Headers) (w : W) → (api.list_deployments h w).0 ≡ value (lists h w))
      (agree : (h : Headers) (w : W) → is_in id (lists h w) ≡ present) where
    steady_after :
        (b : Bool) (again : Bool → Act (Session W) Bool) (s : Session W)
        → ((u : Session W) → (again b u).0 ≡ ok b)
        → ((still_waiting api id b >> again b) s).0 ≡ ok b
    unfolding still_waiting ◌>>=◌
    steady_after true again s h = h _
    steady_after false again s h = h s

    steady_round :
        (again : Bool → Act (Session W) Bool) (s : Session W) (ds : List String)
        → is_in id ds ≡ present
        → ((u : Session W) → (again present u).0 ≡ ok present)
        → (deletion_round api id again ds s).0 ≡ ok present
    unfolding deletion_round
    steady_round again s [] p h = ap ok p
    steady_round again s (d ∷ ds) p h =
        subst (λ b. ((still_waiting api id b >> again b) s).0 ≡ ok present) (sym p)
          (steady_after present again s h)

    steady_listing :
        (again : Bool → Act (Session W) Bool) (s : Session W)
        → ((u : Session W) → (again present u).0 ≡ ok present)
        → ((request (λ h. api.list_deployments h) >>= deletion_round api id again) s).0 ≡ ok present
    unfolding ◌>>=◌
    steady_listing again s h =
        rw (answers s.headers s.world)
          (steady_round again _ (lists s.headers s.world) (agree s.headers s.world) h)

    steady_rounds :
        (n : ℕ) (found : Bool) (s : Session W)
        → (deletion_rounds api (suc n) id found s).0 ≡ ok present
    unfolding deletion_rounds
    steady_rounds zero found s = steady_listing _ s (λ u. refl)
    steady_rounds (suc n) found s = steady_listing _ s (λ u. steady_rounds n present u)

    abbrev outcome : Bool → Result Done
    outcome true = err deployment_deletion
    outcome false = ok tt

    checked_outcome :
        (r : Result Bool) (b : Bool) (s : Session W)
        → r ≡ ok b
        → (continue r (check_deleted api) s).0 ≡ outcome b
    unfolding check_deleted
    checked_outcome r true s e = rw e refl
    checked_outcome r false s e = rw e refl

    -- Where every listing agrees on the deployment, a deletion that the manager accepts ends, as
    -- done if the listings lack the deployment and with `DeploymentDeletionError` if they show it.
    pub delete_deployment-outcome :
        (s : Session W)
        → (api.delete_deployment s.headers id s.world).0 ≡ value tt
        → (delete_deployment api id s).0 ≡ outcome present
    unfolding delete_deployment ◌>>=◌
    delete_deployment-outcome s accepted =
        rw accepted (checked_outcome _ present _ (steady_rounds 39 false _))
