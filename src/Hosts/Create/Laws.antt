-- ===== src/Hosts/Create/Laws.antt =====
-- What is left of the hosts where they could not be created.
use mathlib.Core.Path.{subst}
use cloudify_system_tests.Prelude.{
  ◌≡◌, refl, ap, ◌∙◌, ◌⊎◌, inl, inr, ℕ, String, Bool, true, false, Option, none, some, ◌==◌, eq_iff,
  Bool-cases,
}
use cloudify_system_tests.Act.{
  Done, Error, Result, ok, err, running, exit_status, continue, catch, raise, ◌>>=◌,
}
use cloudify_system_tests.Act.Retry.{Retrying}
use cloudify_system_tests.Client.{Api, Session}
use cloudify_system_tests.Hosts.{Infrastructure, Teardown, Hosts}
use cloudify_system_tests.Hosts.Setup.{HostsConfig, SetupSite}
use cloudify_system_tests.Hosts.Deploy.{VmSite}
use cloudify_system_tests.Hosts.Destroy.{has_passed, is_wanted, destroy}
use cloudify_system_tests.Hosts.Destroy.Laws.{destroy-bare, destroy-TornDown}
use cloudify_system_tests.Hosts.Create.{Licensing, create_resources, tear_down, create}

-- The hosts have no tenant that they would be torn down in.
abbrev pub HasNoTenant : {W : Type 0} → Hosts W → Type 0
HasNoTenant h = (h.tenant ≡ none) ⊎ (h.tenant ≡ some "")

-- An exception that `except Exception` does not catch.
abbrev is_exit : Error → Bool
is_exit (exit_status n) = true
is_exit e = false

module _ {W : Type 0} (api : Api W) (infra : Infrastructure W) (teardown : Teardown) where
  always_wanted :
      teardown.on_success ≡ true
      → teardown.on_failure ≡ true
      → (passed : Bool) → is_wanted api infra teardown passed ≡ true
  always_wanted success failure true = success
  always_wanted success failure false = failure

  -- A teardown that is always asked for leaves no tenant, if it returns.
  destroy-HasNoTenant :
      (fuel : ℕ) (given : Option Bool) (s t : Hosts W)
      → is_wanted api infra teardown (has_passed api infra teardown given s) ≡ true
      → destroy api infra teardown fuel given s ≡ (ok tt, t)
      → HasNoTenant t
  destroy-HasNoTenant fuel given s t wanted e = go s.tenant refl
    where
      go : (o : Option String) → s.tenant ≡ o → HasNoTenant t
      go none h = inl (destroy-bare api infra teardown fuel given s t wanted (inl h) e ∙ h)
      go (some tenant) h = elim (Bool-cases (tenant == "")) [
        | inl blank ↦
            let h' : s.tenant ≡ some "" = h ∙ ap some ((eq_iff tenant "").0 blank) in
            inr (destroy-bare api infra teardown fuel given s t wanted (inr h') e ∙ h')
        | inr named ↦
            inl
              (destroy-TornDown api infra teardown fuel given tenant s t wanted h named e).forgotten
      ]

module _ {W : Type 0} (api : Api W) (site : SetupSite W) (config : HostsConfig) (vms : VmSite W)
    (retry : Retrying (Session W)) (licensing : Licensing) (infra : Infrastructure W)
    (teardown : Teardown) (success : teardown.on_success ≡ true)
    (failure : teardown.on_failure ≡ true) where
  err-injective : {x e : Error} → ◌≡◌ {A = Result Done} (err x) (err e) → x ≡ e
  err-injective q = cc

  -- The teardown itself has raised this exception.
  abbrev pub TeardownRaised : Error → Hosts W → Type 0
  TeardownRaised e t =
      (fuel : ℕ) × (u : Hosts W) × (destroy api infra teardown fuel none u ≡ (err e, t))

  raised_after :
      (fuel : ℕ) (e x : Error) (u t : Hosts W) (r : Result Done) (v : Hosts W)
      → destroy api infra teardown fuel none u ≡ (r, v)
      → continue {B = Done} r (λ _. raise x) v ≡ (err e, t)
      → ((x ≡ e) × HasNoTenant t) ⊎ TeardownRaised e t
  raised_after fuel e x u t (ok tt) v d q = inl (
    err-injective (ap (λ p. p.0) q),
    subst HasNoTenant (ap (λ p. p.1) q) (
        destroy-HasNoTenant api infra teardown fuel none u v
          (always_wanted api infra teardown success failure (has_passed api infra teardown none u))
          d),
  )
  raised_after fuel e x u t (err y) v d q = inr (fuel, u, d ∙ q)
  raised_after fuel e x u t running v d q = cc (ap (λ p. p.0) q)

  exit_is_none : (e : Error) (n : ℕ) → exit_status n ≡ e → is_exit e ≡ false → ⊥
  exit_is_none e n h plain = cc (ap is_exit h, plain)

  tear_down-HasNoTenant :
      (fuel : ℕ) (x e : Error) (s t : Hosts W)
      → is_exit e ≡ false
      → tear_down api site config vms retry licensing infra teardown fuel x s ≡ (err e, t)
      → ((x ≡ e) × HasNoTenant t) ⊎ TeardownRaised e t
  unfolding tear_down ◌>>=◌
  tear_down-HasNoTenant fuel (exit_status n) e s t plain q =
      absurd (exit_is_none e n (err-injective (ap (λ p. p.0) q)) plain)
  tear_down-HasNoTenant fuel x e s t plain q = raised_after fuel e x _ t _ _ refl q

  caught :
      (fuel : ℕ) (e : Error) (r : Result Done) (s v t : Hosts W)
      → is_exit e ≡ false
      → catch (λ u. (r, v)) (tear_down api site config vms retry licensing infra teardown fuel) s
        ≡ (err e, t)
      → ((r ≡ err e) × HasNoTenant t) ⊎ TeardownRaised e t
  caught fuel e (ok a) s v t plain q = cc (ap (λ p. p.0) q)
  caught fuel e running s v t plain q = cc (ap (λ p. p.0) q)
  caught fuel e (err x) s v t plain q = elim (tear_down-HasNoTenant fuel x e v t plain q) [
    | inl (same, bare) ↦ inl (ap err same, bare)
    | inr raised ↦ inr raised
  ]

  -- Where a teardown is always asked for, and hosts cannot be created, for whatever exception but an
  -- exit, they are left without a tenant, and the exception is the one that the creation raised; unless
  -- the teardown itself has raised the exception.
  pub create-HasNoTenant :
      (fuel : ℕ) (use_fqdn : Bool) (test_identifier : String) (e : Error) (s t : Hosts W)
      → is_exit e ≡ false
      → create api site config vms retry licensing infra teardown fuel use_fqdn test_identifier s
        ≡ (err e, t)
      → (((u : Hosts W) × ((create_resources api site config vms retry licensing fuel use_fqdn
                test_identifier u).0
              ≡ err e))
          × HasNoTenant t)
        ⊎ TeardownRaised e t
  unfolding create ◌>>=◌
  create-HasNoTenant fuel use_fqdn test_identifier e s t plain q =
      elim (caught fuel e _ s _ t plain q) [
        | inl (raised, bare) ↦ inl ((_, raised), bare)
        | inr other ↦ inr other
      ]
