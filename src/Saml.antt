-- ===== src/Saml.antt =====
-- test_suites/auth/saml_responses.py: the responses of a SAML provider, made up for a test.
pub mod Templates
pub mod Times
use Prim.Native.String.{◌++◌ as text_append}
use cloudify_system_tests.Prelude.{
  ℕ, String, Bool, true, false, ◌&&◌, Option, none, some, List, [], ◌∷◌, ◌==◌, is_empty, or_else,
  if◌then◌else◌,
}
use cloudify_system_tests.Text.{concat}
use cloudify_system_tests.Dict.{Dict}
use cloudify_system_tests.Act.{Reply, value, fault, runtime_error}
use cloudify_system_tests.Config.Generate.{and_then}
use cloudify_system_tests.Packages.{or_given}
use cloudify_system_tests.Packages.Format.{format}
use cloudify_system_tests.Saml.Templates.{
  okta_saml_template, azure_saml_template, okta_attr_string, azure_attr_string, okta_attr_value,
  azure_attr_value,
}
use cloudify_system_tests.Saml.Times.{ResponseTimes, response_times, make_xml_datetime}

-- What a style of response is made with.
record Style : Type 0 where
  pub template : String
  attr_string : String
  pub attr_value : String

abbrev okta : Style
okta = record {
  template = okta_saml_template;
  attr_string = okta_attr_string;
  attr_value = okta_attr_value;
}

abbrev azure : Style
azure = record {
  template = azure_saml_template;
  attr_string = azure_attr_string;
  attr_value = azure_attr_value;
}

-- the tests of `style`, which three functions make alike
unfoldable style_named : String → Reply Style
style_named style =
    if style == "okta"
    then value okta
    else if style == "azure"
    then value azure
    else fault runtime_error

unfoldable generate_attr : String → String → String → Reply String
generate_attr attr_name attr_value style = and_then (style_named style) λ s.
    and_then (format (("value", attr_value) ∷ []) s.attr_value)
      λ formatted. format (("attr_name", attr_name) ∷ ("attr_value", formatted) ∷ []) s.attr_string

-- `''.join(attr_value_template.format(value=group) for group in groups)`
unfoldable format_groups : String → List String → Reply String
format_groups attr_value_template [] = value ""
format_groups attr_value_template (group ∷ groups) =
    and_then (format (("value", group) ∷ []) attr_value_template) λ formatted.
      and_then (format_groups attr_value_template groups) λ rest. value (text_append formatted rest)

-- `if given: attributes += _generate_attr(name, given, style)`
abbrev add_attr : String → String → String → Option String → Reply String
add_attr style attributes name none = value attributes
add_attr style attributes name (some given) =
    if given == ""
    then value attributes
    else and_then (generate_attr name given style) λ added. value (text_append attributes added)

abbrev add_groups : Style → String → List String → Reply String
add_groups s attributes groups =
    if is_empty groups
    then value attributes
    else and_then (format_groups s.attr_value groups) λ formatted_groups.
      and_then
        (format (("attr_name", "groups") ∷ ("attr_value", formatted_groups) ∷ []) s.attr_string)
        λ added. value (text_append attributes added)

-- Groups that are not given are the same as none.
unfoldable generate_attributes :
    String → Option String → Option String → Option String → List String → String → Reply String
generate_attributes username first_name last_name email groups style =
    and_then (style_named style) λ s. and_then (generate_attr "username" username style) λ named.
      and_then (add_attr style named "firstname" first_name) λ with_first.
        and_then (add_attr style with_first "lastname" last_name) λ with_last.
          and_then (add_attr style with_last "email" email)
            λ with_email. add_groups s with_email groups

-- The arguments of a response but for its times.
pub record Subject : Type 0 where
  pub username : String
  pub first_name : Option String
  last_name : Option String
  email : Option String
  groups : List String

-- `strftime` writes a time down to its seconds, with a dot behind them.
unfoldable make_response : (ℕ → String) → ℕ → Subject → Bool → Bool → String → Reply String
make_response strftime now subject expired too_soon style =
    and_then (response_times now expired too_soon) λ times. and_then (style_named style) λ s.
      and_then
        (generate_attributes subject.username subject.first_name subject.last_name subject.email
          subject.groups style)
        λ attributes.
          format
            (("username", subject.username)
              ∷ ("attributes", attributes)
              ∷ ("issue_time", make_xml_datetime strftime times.issue_time none)
              ∷ ("not_before_time", make_xml_datetime strftime times.not_before_time none)
              ∷ ("expire_time", make_xml_datetime strftime times.expire_time none)
              ∷ [])
            s.template
