-- ===== src/Certificates/Signed.antt =====
-- What has been run for a certificate that is returned.
use cloudify_system_tests.Prelude.{sym, ◌≡◌, refl, ap, ◌∙◌, String, Option, List, [], ◌∷◌, map}
use cloudify_system_tests.Text.{concat}
use cloudify_system_tests.Act.{Act, value, ok}
use cloudify_system_tests.Act.Returns.{
  Returns-raise, Returns-after, Returns-if, Returns, Returns-bind, Returns-pure,
}
use cloudify_system_tests.Resources.Checks.{answered}
use cloudify_system_tests.Run.{
  has_failed, Argument, split_command, expand_command, give_up, Shell, Process, word, arguments,
  defaults, run, launch, conclude,
}
use cloudify_system_tests.Run.Codes.{IsSuccess}
use cloudify_system_tests.Certificates.{
  request_and_sign, Platform, request_command, x509_command, signing_arguments, run_words,
  csr_config, format_ips, join_path, generate_ssl_certificate,
}

module _ {W : Type 0} (p : Platform W) (s : Shell W) where
  -- A process for these words has been started, and has succeeded.
  abbrev HasRun : List String → Type 0
  HasRun command =
      (w : W) × (proc : Process) × ((s.start (arguments (map word command)) defaults w).0
        ≡ value proc)
      × IsSuccess proc

  launch-Started :
      (words : List Argument)
      → Returns
          (λ x. (w : W) × ((s.start (arguments words) defaults w).0 ≡ value x.1))
          (launch s defaults (arguments words))
  unfolding launch expand_command split_command
  launch-Started words =
      Returns-bind (λ c. c ≡ arguments words) _ _ (Returns-pure _ refl)
        λ command same.
          Returns-bind (λ proc. (w : W) × ((s.start (arguments words) defaults w).0 ≡ value proc)) _
            _
            (record {
              at = λ w proc e.
                  (w, ap (λ c. (s.start c defaults w).0) (sym same) ∙ answered _ proc e);
            })
            λ proc started. Returns-pure (command, proc) started

  run_words-HasRun : (command : List String) → Returns (λ _. HasRun command) (run_words p s command)
  unfolding run conclude give_up
  run_words-HasRun command =
      Returns-bind
        (λ x. (w : W) × ((s.start (arguments (map word command)) defaults w).0 ≡ value x.1)) _ _
        (launch-Started (map word command))
        λ (again, proc) (w, started).
          Returns-if (has_failed proc.returncode) _ _ (λ _. Returns-after _ _ λ _. Returns-raise _)
            (λ fine. Returns-pure proc (w, proc, started, fine))

  request_and_sign-HasRun :
      (csr_path cert_path key_path conf_path : String) (signing : List String)
      → Returns
          (λ _.
            HasRun (request_command p s conf_path csr_path key_path)
            × HasRun (x509_command p s conf_path csr_path cert_path signing))
          (request_and_sign p s csr_path cert_path key_path conf_path signing)
  unfolding request_and_sign
  request_and_sign-HasRun csr_path cert_path key_path conf_path signing =
      Returns-bind (λ _. HasRun (request_command p s conf_path csr_path key_path)) _ _
        (run_words-HasRun (request_command p s conf_path csr_path key_path))
        λ _ asked. record {
          at = λ w a e. (
            asked,
            (run_words-HasRun (x509_command p s conf_path csr_path cert_path signing)).at w a e,
          );
        }

  csr_config-Returns :
      {A P : Type 0} (tempdir cn metadata : String) (body : String → Act W A)
      → Returns (λ _. P) (body (join_path tempdir "csr_config"))
      → Returns (λ _. P) (csr_config p tempdir cn metadata body)
  unfolding csr_config
  csr_config-Returns tempdir cn metadata body h = Returns-after _ _ λ _. h

  -- The certificate has been asked for with a request that `openssl req` has made, and signed by
  -- `openssl x509`: with the certificate and key that are given, if neither of them is missing or empty,
  -- and else with its own key.
  abbrev pub IsSigned :
      String → String → String → Option String → Option String → Option String → Type 0
  IsSigned conf_path cert_path key_path sign_cert sign_key password =
      HasRun (request_command p s conf_path (concat (cert_path ∷ ".csr" ∷ [])) key_path)
      × HasRun (
          x509_command p s conf_path (concat (cert_path ∷ ".csr" ∷ [])) cert_path
            (signing_arguments p s key_path sign_cert sign_key password))

  -- A certificate is handed back only under the paths that were asked for, and only where it has been
  -- requested and signed: each of the two commands has been run and has succeeded.
  pub generate_ssl_certificate-IsSigned :
      (ips : List String) (cn tempdir cert_path key_path : String)
      (sign_cert sign_key password : Option String) (w : W) (made : String × String)
      → (generate_ssl_certificate p s ips cn tempdir cert_path key_path sign_cert sign_key password
          w).0
        ≡ ok made
      → (made ≡ (cert_path, key_path))
        × IsSigned (join_path tempdir "csr_config") cert_path key_path sign_cert sign_key password
  unfolding generate_ssl_certificate
  generate_ssl_certificate-IsSigned ips cn tempdir cert_path key_path sign_cert sign_key password =
      (Returns-bind
        {P = λ made.
          (made ≡ (cert_path, key_path))
          × IsSigned (join_path tempdir "csr_config") cert_path key_path sign_cert sign_key
              password}
        (λ _.
          IsSigned (join_path tempdir "csr_config") cert_path key_path sign_cert sign_key password)
        _ _
        (csr_config-Returns tempdir cn (format_ips p ips) _
          (request_and_sign-HasRun _ cert_path key_path _ _))
        λ _ both. Returns-pure (cert_path, key_path) (refl, both)).at
