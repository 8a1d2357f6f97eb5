-- ===== src/Tests/Responses.antt =====
-- Responses of a SAML provider and configurations for replacing certificates, at concrete inputs.
use Prim.Native.String.{◌++◌ as text_append}
use cloudify_system_tests.Prelude.{
  ◌-◌, ◌≡◌, refl, ℕ, String, true, false, none, some, [], ◌∷◌, arith, ◌&&◌,
}
use cloudify_system_tests.Text.{text_in, occurs, starts_with, digit}
use cloudify_system_tests.Dict.{Dict, get}
use cloudify_system_tests.Value.{Value, text, table, Fields, field, end, entries, mapping}
use cloudify_system_tests.Act.{value}
use cloudify_system_tests.Saml.Times.{
  hours, response_times, times_from, make_xml_datetime, strip_marks, three_digits,
}
use cloudify_system_tests.Saml.Times.Laws.{
  IsDue, thousandths, response_times-IsDue, make_xml_datetime-reads,
}
use cloudify_system_tests.ReplaceCerts.{replace_config, replace_all, replace_single, replace_paths}
use cloudify_system_tests.ReplaceCerts.Laws.{replace_config-keeps_ca_key}

abbrev morning : ℕ → String
morning t = "2026-11-26T10:10:20."

make_xml_datetime-reads_example :
    (fraction : String) × (make_xml_datetime morning 7_120_000 none
      ≡ text_append (text_append "2026-11-26T10:10:20." fraction) "Z")
    × (thousandths fraction ≡ 120)
make_xml_datetime-reads_example = make_xml_datetime-reads morning 7_120_000 none (omega arith)

-- a time with milliseconds, and one at a whole second, which loses the last digit of its seconds
written : make_xml_datetime morning 7_120_000 none ≡ "2026-11-26T10:10:20.12Z"
unfolding make_xml_datetime strip_marks three_digits digit
written = refl

cut_short : make_xml_datetime morning 7_000_000 none ≡ "2026-11-26T10:10:2Z"
unfolding make_xml_datetime strip_marks three_digits digit
cut_short = refl

abbrev noon : ℕ
noon = 43_200_000_000

long_expired : response_times noon true false ≡ value (times_from (noon - hours 10))
unfolding response_times
long_expired = refl

response_times-IsDue_example :
    IsDue noon true false (times_from (noon - hours 10)) × ((true && false) ≡ false)
response_times-IsDue_example =
    response_times-IsDue noon true false (times_from (noon - hours 10)) (omega arith) long_expired

abbrev old_fields : Fields
old_fields = field "ca_key_path" (text "old.key") (field "cert_path" (text "old.crt") end)

abbrev new_config : Dict Value
new_config =
    (
      "manager",
      table (
          field "ca_key_path" (text "old.key")
            (field "cert_path" (text "~/.cloudify-test-ca/192.0.2.4.crt") end)),
    )
    ∷ []

rewritten :
    replace_config false (some "192.0.2.4") false (("manager", table old_fields) ∷ [])
    ≡ value new_config
unfolding replace_config replace_all replace_single replace_paths entries mapping occurs starts_with
rewritten = refl

there : get "manager" (("manager", table old_fields) ∷ []) ≡ some (table old_fields)
unfolding get
there = refl

is_ca_key : text_in "ca_key" "ca_key_path" ≡ true
unfolding occurs starts_with
is_ca_key = refl

is_no_cert : text_in "cert" "ca_key_path" ≡ false
unfolding occurs starts_with
is_no_cert = refl

replace_config-keeps_ca_key_example :
    (after : Fields) × (get "manager" new_config ≡ some (table after))
    × (get "ca_key_path" (entries after) ≡ get "ca_key_path" (entries old_fields))
replace_config-keeps_ca_key_example =
    replace_config-keeps_ca_key "192.0.2.4" (("manager", table old_fields) ∷ []) new_config
      "manager" "ca_key_path" old_fields rewritten there is_ca_key is_no_cert
