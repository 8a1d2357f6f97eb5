-- ===== src/Cli/Teardown.antt =====
-- What a teardown by the command line has seen when it returns.
use cloudify_system_tests.Prelude.{◌≡◌, refl, ap, ◌∙◌, String, Bool, true, List, [], ◌∷◌, is_empty}
use cloudify_system_tests.Act.{value, ok}
use cloudify_system_tests.Act.Returns.{Returns, Returns-bind, Returns-after}
use cloudify_system_tests.Act.Invert.{with_result}
use cloudify_system_tests.Act.Retry.{Retrying}
use cloudify_system_tests.Client.{Api, Session}
use cloudify_system_tests.Resources.Checks.{answered, check_returned}
use cloudify_system_tests.Example.{Site, Bench}
use cloudify_system_tests.Cli.{CliHost, Paths, cfy, assert_none, test_teardown}

module _ {W : Type 0} (api : Api W) (site : Site W) (premium : Bool)
    (client_retry : Retrying (Session W)) (retry : Retrying (Bench W)) (host : CliHost W) where
  -- The command line has listed this kind of thing, and there was none.
  abbrev pub ShownEmpty : Paths → String → Type 0
  ShownEmpty paths kind =
      (w : W) × (printed : String) × ((host.run (cfy paths (" " ∷ kind ∷ " list --json" ∷ [])) w).0
        ≡ value printed)
      × (host.listed printed ≡ value [])

  none_found : (found : List String) → is_empty found ≡ true → found ≡ []
  none_found [] h = refl
  none_found (x ∷ xs) h = cc

  assert_none-Returns :
      (paths : Paths) (kind : String)
      → Returns
          (λ _. ShownEmpty paths kind)
          (assert_none api site premium client_retry retry host paths kind)
  unfolding assert_none
  assert_none-Returns paths kind =
      Returns-bind
        (λ printed.
          (w : W) × ((host.run (cfy paths (" " ∷ kind ∷ " list --json" ∷ [])) w).0 ≡ value printed))
        _ _ (record { at = λ b printed e. (b.session.world, answered _ printed e) })
        λ printed (w, shown).
          Returns-bind (λ found. host.listed printed ≡ value found) _ _
            (record { at = λ b found e. answered _ found e })
            λ found read. record {
              at = λ b a e. (
                w,
                printed,
                shown,
                read
                    ∙ ap value (
                        none_found found
                          (check_returned (is_empty found) b _ (with_result _ (ok tt) e)).0),
              );
            }

  test_teardown-Returns :
      (paths : Paths)
      → Returns
          (λ _.
            ShownEmpty paths "deployments"
            × ShownEmpty paths "secrets"
            × ShownEmpty paths "blueprints")
          (test_teardown api site premium client_retry retry host paths)
  unfolding test_teardown
  test_teardown-Returns paths = Returns-after _ _ λ example. Returns-after _ _ λ _.
      Returns-after _ _ λ _. Returns-after _ _ λ _. Returns-after _ _ λ _. Returns-after _ _ λ _.
        Returns-after _ _ λ _. Returns-after _ _ λ _.
          Returns-bind (λ _. ShownEmpty paths "deployments") _ _ (assert_none-Returns paths _)
            λ _ d. Returns-after _ _ λ _. Returns-after _ _ λ _. Returns-after _ _ λ _.
              Returns-bind (λ _. ShownEmpty paths "secrets") _ _ (assert_none-Returns paths _)
                λ _ s. Returns-after _ _ λ _. Returns-after _ _ λ _. Returns-after _ _ λ _.
                  Returns-after _ _ λ _. record {
                    at = λ b a e. (d, s, (assert_none-Returns paths "blueprints").at b a e);
                  }

  -- A teardown by the command line returns only if the command line has listed no deployment, no secret
  -- and no blueprint.
  pub test_teardown-ShownEmpty :
      (paths : Paths) (b : Bench W)
      → (test_teardown api site premium client_retry retry host paths b).0 ≡ ok tt
      → ShownEmpty paths "deployments" × ShownEmpty paths "secrets" × ShownEmpty paths "blueprints"
  test_teardown-ShownEmpty paths b e = (test_teardown-Returns paths).at b tt e
