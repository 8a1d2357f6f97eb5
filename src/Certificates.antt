-- ===== src/Certificates.antt =====
-- framework/util.py: certificates, by the `openssl` command on the tester.
pub mod Signed
use cloudify_system_tests.Prelude.{
  not, String, Bool, true, false, ◌&&◌, ◌||◌, Option, none, some, List, [], ◌∷◌, ◌++◌, ◌==◌, map,
  is_in, if◌then◌else◌,
}
use cloudify_system_tests.Text.{concat, join}
use cloudify_system_tests.Act.{Act, Done, Reply, result, pass, pure, ◌>>=◌, ◌>>◌}
use cloudify_system_tests.Run.{Shell, Argument, word, arguments, Process, defaults, run}

-- What the code is given beside the shell: `socket.inet_pton` for the two kinds of address, the order in
-- which a set is run through, and the writing of files.
pub record Platform (W : Type 0) : Type 0 where
  pub is_ipv4 : String → Bool
  pub is_ipv6 : String → Bool
  pub set_order : List String → List String
  pub write_file : String → String → W → Reply Done × W

-- `set.add`
unfoldable pub add : String → List String → List String
add name names = if is_in name names then names else names ++ name ∷ []

-- `set(names)`
unfoldable as_set : List String → List String → List String
unfolding add
as_set added [] = added
as_set added (name ∷ names) = as_set (add name added) names

-- `os.path.join`, with a relative path
unfoldable pub join_path : String → String → String
join_path String.[] name = name
join_path (String.◌∷◌ c String.[]) name =
    if String.◌∷◌ c "" == "/"
    then concat ("/" ∷ name ∷ [])
    else concat (String.◌∷◌ c "" ∷ "/" ∷ name ∷ [])
join_path (String.◌∷◌ c path) name = String.◌∷◌ c (join_path path name)

-- `CSR_CONFIG_TEMPLATE`
abbrev csr_config_text : String → String → String
csr_config_text cn metadata = concat (
    "\n[req]\ndistinguished_name = req_distinguished_name\nreq_extensions = server_req_extensions\n"
    ∷ "[ server_req_extensions ]\nsubjectAltName=" ∷ metadata
    ∷ "\n[ req_distinguished_name ]\ncommonName = _common_name # ignored, _default is used instead\n"
    ∷ "commonName_default = " ∷ cn ∷ "\n" ∷ [])

-- `if s:` for a text that may be absent
abbrev pub given : Option String → Bool
given none = false
given (some t) = not (t == "")

module _ {W : Type 0} (p : Platform W) where
  -- `subject_altips`
  unfoldable alt_ips : List String → List String
  alt_ips [] = []
  alt_ips (name ∷ names) =
      let rest = alt_ips names in
      if p.is_ipv4 name || p.is_ipv6 name then concat ("IP:" ∷ name ∷ []) ∷ rest else rest

  unfoldable pub format_ips : List String → String
  unfolding as_set add join alt_ips
  format_ips ips =
      let altnames = p.set_order (add "localhost" (add "127.0.0.1" (as_set [] ips))) in
      join "," (
        join "," (map (λ name. concat ("DNS:" ∷ name ∷ [])) altnames)
        ∷ join "," (alt_ips altnames)
        ∷ [])

  -- the block of `_csr_config`
  unfoldable pub csr_config : {A : Type 0} → String → String → String → (String → Act W A) → Act W A
  unfolding join_path
  csr_config tempdir cn metadata body = do
    (λ w.
        let (r, w') =
          p.write_file (join_path tempdir "csr_config") (csr_config_text cn metadata) w in
        (result r, w'))
    body (join_path tempdir "csr_config")

module _ {W : Type 0} (p : Platform W) (s : Shell W) where
  -- `run(command)`
  abbrev pub run_words : List String → Act W Process
  run_words command = run s 0 defaults (arguments (map word command))

  abbrev pub request_command : String → String → String → List String
  request_command conf_path csr_path key_path =
      "openssl" ∷ "req" ∷ "-newkey" ∷ "rsa:2048" ∷ "-nodes" ∷ "-batch" ∷ "-sha256" ∷ "-config"
      ∷ conf_path ∷ "-out" ∷ csr_path ∷ "-keyout" ∷ key_path ∷ []

  abbrev password_arguments : Option String → List String
  password_arguments none = []
  password_arguments (some password) =
      if password == "" then [] else "-passin" ∷ concat ("pass:" ∷ password ∷ []) ∷ []

  -- signed by the given certificate and key if there are both, and else by the new key itself
  unfoldable pub signing_arguments :
      String → Option String → Option String → Option String → List String
  signing_arguments key_path (some sign_cert) (some sign_key) sign_key_password =
      if given (some sign_cert) && given (some sign_key)
      then "-CA"
        ∷ sign_cert
        ∷ "-CAkey"
        ∷ sign_key
        ∷ "-CAcreateserial"
        ∷ password_arguments sign_key_password
      else "-signkey" ∷ key_path ∷ []
  signing_arguments key_path _ _ sign_key_password = "-signkey" ∷ key_path ∷ []

  abbrev pub x509_command : String → String → String → List String → List String
  x509_command conf_path csr_path cert_path signing =
      ("openssl" ∷ "x509" ∷ "-days" ∷ "3650" ∷ "-sha256" ∷ "-req" ∷ "-in" ∷ csr_path ∷ "-out"
        ∷ cert_path ∷ "-extensions" ∷ "server_req_extensions" ∷ "-extfile" ∷ conf_path ∷ [])
      ++ signing

  -- the body of the block
  unfoldable pub request_and_sign : String → String → String → String → List String → Act W Process
  request_and_sign csr_path cert_path key_path conf_path signing =
      run_words (request_command conf_path csr_path key_path)
      >> run_words (x509_command conf_path csr_path cert_path signing)

  -- the result is the path of the certificate and that of its key
  unfoldable pub generate_ssl_certificate :
      List String
      → String
      → String
      → String
      → String
      → Option String
      → Option String
      → Option String
      → Act W (String × String)
  generate_ssl_certificate ips cn tempdir cert_path key_path sign_cert sign_key sign_key_password =
      do
        let csr_path = concat (cert_path ∷ ".csr" ∷ [])
        csr_config p tempdir cn (format_ips p ips) λ conf_path.
            request_and_sign csr_path cert_path key_path conf_path
              (signing_arguments key_path sign_cert sign_key sign_key_password)
        pure (cert_path, key_path)

  unfoldable generate_ca_cert : String → String → Act W Done
  generate_ca_cert ca_cert_path ca_key_path = do
    run_words (
        "openssl" ∷ "req" ∷ "-x509" ∷ "-nodes" ∷ "-newkey" ∷ "rsa:2048" ∷ "-days" ∷ "3650"
        ∷ "-batch" ∷ "-out" ∷ ca_cert_path ∷ "-keyout" ∷ ca_key_path ∷ [])
    pass
