-- ===== src/Snapshots/State/Order.antt =====
-- The state of a manager forgets the order in which the manager lists what it holds.
use cloudify_system_tests.Managed.{Managed}
use mathlib.Core.Path.{fun_ext}
use cloudify_system_tests.Prelude.{◌≡◌, refl, ap, String, List, [], ◌∷◌}
use cloudify_system_tests.Dict.{Dict, put}
use cloudify_system_tests.Act.{Reply, value, fault, result, continue, pure, ◌>>=◌}
use cloudify_system_tests.Client.{Session, Headers}
use cloudify_system_tests.Sorting.{Ordered, sorted, Reordered}
use cloudify_system_tests.Sorting.Laws.{sorted-Reordered}
use cloudify_system_tests.Snapshots.{Tester}
use cloudify_system_tests.Snapshots.State.{
  TenantState, sorted_listing, listing_of, state_of_tenant, states_of_tenants, get_manager_state,
}

-- The same items, or the same exception.
abbrev SameReply : {A : Type 0} → Reply (List A) → Reply (List A) → Type 0
SameReply (value xs) (value ys) = Reordered xs ys
SameReply (fault e) (fault f) = e ≡ f
SameReply _ _ = ⊥

-- Two calls that list the same items in whatever order, and do the same to the world.
pub record Agrees {W A : Type 0} (f g : Headers → W → Reply (List A) × W) : Type 0 where
  pub reply : (h : Headers) (w : W) → SameReply (f h w).0 (g h w).0
  pub world : (h : Headers) (w : W) → (f h w).1 ≡ (g h w).1

module _ {W A : Type 0} ⦃o : Ordered A⦄ where
  same_sorted :
      (r q : Reply (List A)) (s t : Session W)
      → SameReply r q
      → s ≡ t
      → continue (result r) (λ items. pure (sorted items)) s
        ≡ continue (result q) (λ items. pure (sorted items)) t
  same_sorted (value xs) (value ys) s t h e = rw (e, sorted-Reordered h) refl
  same_sorted (fault x) (fault y) s t h e = cc
  same_sorted (value xs) (fault y) s t h e = absurd h
  same_sorted (fault x) (value ys) s t h e = absurd h

  sorted_listing-Agrees :
      (f g : Headers → W → Reply (List A) × W) → Agrees f g → sorted_listing f ≡ sorted_listing g
  unfolding sorted_listing ◌>>=◌
  sorted_listing-Agrees f g h = fun_ext λ s.
      same_sorted (f s.headers s.world).0 (g s.headers s.world).0 _ _ (h.reply s.headers s.world)
        (ap (λ w. record s { world = w }) (h.world s.headers s.world))

  listing_of-Agrees :
      (message tenant : String) (f g : Headers → W → Reply (List A) × W)
      → Agrees f g
      → listing_of message tenant f ≡ listing_of message tenant g
  unfolding listing_of
  listing_of-Agrees message tenant f g h = rw (sorted_listing-Agrees f g h) refl

module _ {W : Type 0} (t u : Tester W) (plugins : Agrees t.res.list_plugins u.res.list_plugins)
    (blueprints : Agrees t.res.list_blueprints u.res.list_blueprints)
    (deployments : Agrees t.api.list_deployments u.api.list_deployments)
    (secrets : Agrees t.res.list_secrets u.res.list_secrets) where
  same_state_of_tenant : (tenant : String) → state_of_tenant t tenant ≡ state_of_tenant u tenant
  unfolding state_of_tenant
  same_state_of_tenant tenant =
      rw
        (
          listing_of-Agrees "Getting plugin details" tenant _ _ plugins,
          listing_of-Agrees "Getting blueprints" tenant _ _ blueprints,
          listing_of-Agrees "Getting deployments" tenant _ _ deployments,
          listing_of-Agrees "Getting secrets" tenant _ _ secrets,
        )
        refl

  same_states_of_tenants :
      (tenants : List String) (d : Dict TenantState)
      → states_of_tenants t tenants d ≡ states_of_tenants u tenants d
  unfolding states_of_tenants
  same_states_of_tenants [] d = refl
  same_states_of_tenants (tenant ∷ tenants) d = rw (same_state_of_tenant tenant) (
      ap (λ f. state_of_tenant u tenant >>= f)
        (fun_ext λ held. same_states_of_tenants tenants (put tenant held d)))

  -- Two managers whose tenants hold the same plugins, blueprints, deployments and secrets, listed in
  -- any order, have the same state, and the same is done to reach it.
  pub get_manager_state-Agrees :
      (tenants : List String) (g : Managed W)
      → get_manager_state t tenants g ≡ get_manager_state u tenants g
  unfolding get_manager_state
  get_manager_state-Agrees tenants g = ap (λ m. m g) (same_states_of_tenants tenants [])
