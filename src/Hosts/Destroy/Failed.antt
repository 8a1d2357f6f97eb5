-- ===== src/Hosts/Destroy/Failed.antt =====
-- What hosts have after a teardown that failed.
use cloudify_system_tests.Prelude.{
  ap, ◌∙◌, ◌≡◌, ◌≢◌, refl, ◌⊎◌, inl, inr, ℕ, String, Bool, Option, none, some, ◌==◌, Bool-cases,
}
use cloudify_system_tests.Act.{
  Act, Done, Reply, Result, value, fault, ok, err, running, result, continue, modify, ◌>>=◌,
}
use cloudify_system_tests.Client.{Session, Api}
use cloudify_system_tests.Dict.{put}
use cloudify_system_tests.Client.Tenant.{cloudify_tenant_header}
use cloudify_system_tests.Hosts.Destroy.Headers.{destroy_resources-SameSession}
use cloudify_system_tests.Hosts.{Infrastructure, Teardown, Hosts}
use cloudify_system_tests.Hosts.Destroy.{
  destroy_resources, delete_tenant, destroy_tenant, has_passed, is_wanted, destroy,
}
use cloudify_system_tests.Hosts.Destroy.Frame.{StillHas, StillHas-trans, destroy_resources-StillHas}

module _ {W : Type 0} (api : Api W) (infra : Infrastructure W) where
  -- Requests go out with the headers that they had, or with those for the default tenant.
  abbrev pub SameOrDefault : Hosts W → Hosts W → Type 0
  SameOrDefault s t =
      (t.session.headers ≡ s.session.headers)
      ⊎ (t.session.headers ≡ put cloudify_tenant_header "default_tenant" s.session.headers)

  -- Either the code has returned, or the hosts still have what they had.
  abbrev Ended : Hosts W → Result Done × Hosts W → Type 0
  Ended s q = (q.0 ≡ ok tt) ⊎ (StillHas s q.1 × SameOrDefault s q.1)

  forgotten-Ended :
      (r : Reply Done) (s u : Hosts W)
      → StillHas s u × SameOrDefault s u
      → Ended s (continue (result r) (λ _. modify (λ h. record h { tenant = none })) u)
  forgotten-Ended (value a) s u h = inl refl
  forgotten-Ended (fault x) s u h = inr h

  delete_tenant-Ended : (tenant : String) (s : Hosts W) → Ended s (delete_tenant api infra tenant s)
  unfolding delete_tenant ◌>>=◌
  delete_tenant-Ended tenant s = forgotten-Ended _ s _ (
    record { tenant = refl; test_identifier = refl; deployments = refl; blueprints = refl },
    inr refl,
  )

  after_Ended :
      (r : Result Done) (f : Done → Act (Hosts W) Done) (s u : Hosts W)
      → StillHas s u
      → u.session.headers ≡ s.session.headers
      → Ended u (f tt u)
      → Ended s (continue r f u)
  after_Ended (ok tt) f s u h k ended = elim ended [
    | inl returned ↦ inl returned
    | inr (still, inl same) ↦ inr (StillHas-trans s u _ h still, inl (same ∙ k))
    | inr (still, inr default) ↦ inr (
      StillHas-trans s u _ h still,
      inr (default ∙ ap (put cloudify_tenant_header "default_tenant") k),
    )
  ]
  after_Ended (err x) f s u h k ended = inr (h, inl k)
  after_Ended running f s u h k ended = inr (h, inl k)

  destroy_tenant-Ended :
      (fuel : ℕ) (has : Option String) (s : Hosts W) → Ended s (destroy_tenant api infra fuel has s)
  unfolding destroy_tenant ◌>>=◌
  destroy_tenant-Ended fuel none s = inl refl
  destroy_tenant-Ended fuel (some tenant) s = elim (Bool-cases (tenant == "")) [
    | inl blank ↦ rw blank (inl refl)
    | inr named ↦ rw named (
        after_Ended (destroy_resources api infra fuel tenant s).0
          (λ _. delete_tenant api infra tenant) s _
          ((destroy_resources-StillHas api infra fuel tenant).at s)
          ((destroy_resources-SameSession api infra fuel tenant).at s)
          (delete_tenant-Ended tenant _))
  ]

  in_session-Ended :
      (fuel : ℕ) (s : Hosts W) (x : Session W)
      → x.headers ≡ s.session.headers
      → Ended s (destroy_tenant api infra fuel s.tenant (record s { session = x }))
  in_session-Ended fuel s x same =
      after_Ended (ok tt) (λ _. destroy_tenant api infra fuel s.tenant) s (record s { session = x })
        record { tenant = refl; test_identifier = refl; deployments = refl; blueprints = refl } same
        (destroy_tenant-Ended fuel s.tenant (record s { session = x }))

  destroy-Ended :
      (teardown : Teardown) (fuel : ℕ) (given : Option Bool) (s : Hosts W)
      → Ended s (destroy api infra teardown fuel given s)
  unfolding destroy ◌>>=◌
  destroy-Ended teardown fuel given s =
      elim (Bool-cases (is_wanted api infra teardown (has_passed api infra teardown given s))) [
        | inl wanted ↦ rw wanted (in_session-Ended fuel s _ refl)
        | inr unwanted ↦ rw unwanted (inl refl)
      ]

  -- A teardown that does not return, whatever it raises and however far it has come, leaves what the object
  -- holds of the tenant, the test's identifier, the deployments and the blueprints as it was; requests
  -- go out with the headers that they had before it, or with those for the default tenant.
  pub destroy-StillHas :
      (teardown : Teardown) (fuel : ℕ) (given : Option Bool) (s : Hosts W)
      → (destroy api infra teardown fuel given s).0 ≢ ok tt
      → StillHas s (destroy api infra teardown fuel given s).1
        × SameOrDefault s (destroy api infra teardown fuel given s).1
  destroy-StillHas teardown fuel given s failed = elim (destroy-Ended teardown fuel given s) [
    | inl returned ↦ absurd (failed returned)
    | inr still ↦ still
  ]
