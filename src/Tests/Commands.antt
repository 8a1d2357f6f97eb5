-- ===== src/Tests/Commands.antt =====
-- Commands that a scripted shell runs.
use cloudify_system_tests.Certificates.{
  request_and_sign, join_path, csr_config, format_ips, Platform, generate_ssl_certificate,
}
use cloudify_system_tests.Certificates.Signed.{generate_ssl_certificate-IsSigned, IsSigned}
use cloudify_system_tests.Prelude.{
  String, none, some, false, ◌==◌, ℕ, zero, suc, ◌≡◌, refl, true, [], ◌∷◌,
}
use cloudify_system_tests.Act.{Reply, value, ok, ◌>>=◌}
use cloudify_system_tests.Run.{
  Shell, Options, defaults, line, Process, Code, exited, run, launch, expand_command, split_command,
  conclude, give_up, command_text,
}
use cloudify_system_tests.Run.Codes.{IsSuccess, retried_run-IsSuccess}

abbrev ended_with : Code → Process
ended_with c = record { returncode = c; aggr_stdout = ""; aggr_stderr = "" }

-- The world is how many times a process will fail from now on.
abbrev next_process : ℕ → Reply Process × ℕ
next_process zero = (value (ended_with (exited 0)), zero)
next_process (suc n) = (value (ended_with (exited 1)), n)

abbrev shell : Shell ℕ
shell = record { split = λ t. t ∷ []; glob = λ t w. []; start = λ c o w. next_process w }

abbrev lenient : Options
lenient = record defaults { ignore_failures = true }

run_leniently : (run shell 1 lenient (line "true") 1).0 ≡ ok (ended_with (exited 0))
unfolding run launch expand_command split_command conclude give_up command_text ◌>>=◌
run_leniently = refl

retried_run-IsSuccess_example : IsSuccess (ended_with (exited 0))
retried_run-IsSuccess_example =
    retried_run-IsSuccess shell 0 lenient (line "true") 1 (ended_with (exited 0)) run_leniently

abbrev platform : Platform ℕ
platform = record {
  is_ipv4 = λ n. n == "127.0.0.1";
  is_ipv6 = λ n. false;
  set_order = λ names. names;
  write_file = λ p t w. (value tt, w);
}

alt_names :
    format_ips platform ("node" ∷ "node" ∷ []) ≡ "DNS:node,DNS:127.0.0.1,DNS:localhost,IP:127.0.0.1"
unfolding format_ips
alt_names = refl

certified :
    (generate_ssl_certificate platform shell
      ("node" ∷ [])
      "node"
      "/tmp"
      "/tmp/c.pem"
      "/tmp/k.pem"
      (some "/tmp/ca.pem")
      (some "/tmp/ca_key.pem")
      none
      0).0
    ≡ ok ("/tmp/c.pem", "/tmp/k.pem")
unfolding generate_ssl_certificate csr_config request_and_sign run launch expand_command
    split_command conclude give_up command_text ◌>>=◌
certified = refl

abbrev paths : String × String
paths = ("/tmp/c.pem", "/tmp/k.pem")

generate_ssl_certificate-IsSigned_example :
    (paths ≡ ("/tmp/c.pem", "/tmp/k.pem"))
    × IsSigned platform shell
        (join_path "/tmp" "csr_config")
        "/tmp/c.pem"
        "/tmp/k.pem"
        (some "/tmp/ca.pem")
        (some "/tmp/ca_key.pem")
        none
generate_ssl_certificate-IsSigned_example =
    generate_ssl_certificate-IsSigned platform shell ("node" ∷ []) "node" "/tmp" "/tmp/c.pem"
      "/tmp/k.pem" (some "/tmp/ca.pem") (some "/tmp/ca_key.pem") none 0 paths certified
