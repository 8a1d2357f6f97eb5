-- ===== src/Example/Files/Laws.antt =====
-- What the check of files comes to where the machine is not one with Windows.
use mathlib.Core.Path.{subst}
use cloudify_system_tests.Prelude.{
  ◌≡◌, refl, sym, ap, ◌∙◌, String, Bool, false, Option, List, [], ◌∷◌, ◌==◌, All, Bool-cases, inl,
  inr,
}
use cloudify_system_tests.Act.{Act, Done, value, ok, attribute_error, ◌>>=◌}
use cloudify_system_tests.Act.Retry.{Retrying}
use cloudify_system_tests.Act.Returns.{
  Fails, Returns-after, Returns-bind, Returns-pure, Returns-raise, ok-injective,
}
use cloudify_system_tests.Act.Invert.{bind_inv}
use cloudify_system_tests.Client.{Api, Session, request}
use cloudify_system_tests.Resources.Checks.{answered}
use cloudify_system_tests.Example.{Example, Site, Bench, on_session, get_example}
use cloudify_system_tests.Example.Files.{
  str, given_or_input, read, decode, check_each, files_attempt,
}

-- None of these node instances is one of a file.
abbrev pub NoFile : List (String × String) → Type 0
NoFile = All (λ i. (i.1 == "file") ≡ false)

module _ {W : Type 0} (api : Api W) (site : Site W) (premium : Bool)
    (client_retry : Retrying (Session W)) (retry : Retrying (Bench W)) where
  -- The text of a file is never decoded.
  file-Fails :
      (path : String) (f : String → Act (Bench W) Done)
      → Fails (
          read api site premium client_retry retry false path >>= λ d.
          decode api site premium client_retry retry d >>= f)
  unfolding read decode ◌>>=◌
  file-Fails path f =
      Returns-bind (λ d. (t : String) × (d ≡ str t)) _ _
        (Returns-after _ _ λ t. Returns-pure (str t) (t, refl))
        λ d (t, same).
          Returns-bind (λ _. ⊥) (decode api site premium client_retry retry d) f
            (subst (λ x. Fails (decode api site premium client_retry retry x)) (sym same)
              (Returns-raise attribute_error))
            λ a never. absurd never

  check_each-NoFile :
      (path expected : String) (instances : List (String × String)) (b c : Bench W)
      → check_each api site premium client_retry retry false path expected instances b ≡ (ok tt, c)
      → NoFile instances
  unfolding check_each
  check_each-NoFile path expected [] b c e = tt
  check_each-NoFile path expected ((id, node_id) ∷ instances) b c e =
      elim (Bool-cases (node_id == "file")) [
        | inl file ↦ absurd ((file-Fails _ _).at b tt (ap (λ q. q.0) (rw file at e)))
        | inr other ↦ (other, check_each-NoFile path expected instances b c (rw other at e))
      ]

  unlike_windows :
      (windows : Bool) (path expected : String) (instances : List (String × String)) (b c : Bench W)
      → windows ≡ false
      → check_each api site premium client_retry retry windows path expected instances b
        ≡ (ok tt, c)
      → NoFile instances
  unlike_windows windows path expected instances b c linux e =
      check_each-NoFile path expected instances b c (rw linux at e)

  -- One attempt to check the files of an example whose machine is not one with Windows returns only if the
  -- deployment of the example has no node instance of a file: what is read of a file is a text, and is
  -- asked to decode itself.
  pub files_attempt-NoFile :
      (path expected : Option String) (b c : Bench W)
      → b.example.windows ≡ false
      → files_attempt api site premium client_retry retry path expected b ≡ (ok tt, c)
      → (instances : List (String × String)) × ((api.list_node_instances b.session.headers
            b.example.deployment_id b.session.world).0
          ≡ value instances)
        × NoFile instances
  unfolding files_attempt
  files_attempt-NoFile path expected b c linux e =
      let (example, given, e1) = bind_inv get_example _ b c tt e in
      let same = ok-injective given in
      let (instances, listed, e2) =
        bind_inv (on_session (request (λ h. api.list_node_instances h example.deployment_id))) _ b c
          tt e1 in
      let (p, _, e3) =
        bind_inv (given_or_input api site premium client_retry retry "path" path) _ _ c tt e2 in
      let (x, _, e4) =
        bind_inv (given_or_input api site premium client_retry retry "content" expected) _ _ c tt
          e3 in
      (
        instances,
        ap
              (λ (y : Example).
                (api.list_node_instances b.session.headers y.deployment_id b.session.world).0)
              same
            ∙ answered _ instances listed,
        unlike_windows example.windows p x instances _ c
            (ap (λ (y : Example). y.windows) (sym same) ∙ linux) e4,
      )
