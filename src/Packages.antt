-- ===== src/Packages.antt =====
-- framework/util.py: the address of a command line package, and the client for a manager.
pub mod Format
use cloudify_system_tests.Prelude.{
  ◌&&◌, leb, ℕ, zero, suc, String, Bool, true, false, Option, none, some, List, [], ◌∷◌, ◌==◌,
  or_else, is_some, if◌then◌else◌,
}
use cloudify_system_tests.Text.{concat, split_last, replace_from}
use cloudify_system_tests.Dict.{Dict, get}
use cloudify_system_tests.Act.{
  Act, Done, Error, Reply, value, fault, key_error, runtime_error, result, pass, pure, raise, catch,
  ◌>>=◌, ◌>>◌,
}
use cloudify_system_tests.Packages.Format.{format}

-- What the client library is given. The other keyword arguments go to it as they are.
record ClientArguments : Type 0 where
  pub host : String
  pub username : Option String
  pub password : Option String
  pub tenant : String
  token : Option String

-- `given or default`
abbrev pub or_given : Option String → Option String → Option String
or_given none d = d
or_given (some t) d = if t == "" then d else some t

-- with a token there is no default user
abbrev default_for : Option String → Option String
default_for none = some "admin"
default_for (some token) = if token == "" then some "admin" else none

unfoldable create_rest_client :
    String → Option String → Option String → Option String → Option String → ClientArguments
create_rest_client manager_ip username password tenant token = record {
  host = manager_ip;
  username = or_given username (default_for token);
  password = or_given password (default_for token);
  tenant = or_else (or_given tenant none) "default_tenant";
  token = token;
}

-- `original_string.split('-')[-1]`
abbrev after_dash : String → Option (String × String) → String
after_dash whole none = whole
after_dash whole (some (before, after)) = after

unfoldable pub substitute_testing_version : String → String → String → Reply String
unfolding format replace_from
substitute_testing_version original_string testing_version distro =
    format
      (("testing_version", testing_version)
        ∷ ("mangled_testing_version", replace_from "-" "/" zero testing_version)
        ∷ ("rh_version", after_dash distro (split_last 45 distro))
        ∷ [])
      original_string

-- `requests.head`, which gives a status code or raises a `RequestException`, and the configuration: the
-- templates of the packages, and the version under test.
record PackageSite (W : Type 0) : Type 0 where
  pub head : String → W → Reply ℕ × W
  package_urls : Dict String
  pub testing_version : String

-- `verification.status_code != 200`
abbrev is_found : ℕ → Bool
is_found status_code = leb 200 status_code && leb status_code 200

-- `test_config['package_urls'][…]`
abbrev template_for : Option String → Reply String
template_for none = fault key_error
template_for (some template) = value template

module _ {W : Type 0} (site : PackageSite W) where
  unfoldable test_cli_package_url : String → Act W Done
  test_cli_package_url url = do
    status_code ←
        catch (λ w. let (r, w') = site.head url w in (result r, w')) (λ e. raise runtime_error)
    if is_found status_code then pass else raise runtime_error

  -- by the platform, and the image type of the host
  unfoldable get_cli_package_url : String → String → Act W String
  get_cli_package_url platform image_type = do
    template ← (λ w.
        (result (template_for (get (concat (platform ∷ "_cli_path" ∷ [])) site.package_urls)), w))
    url ← (λ w. (
      result (
          substitute_testing_version template site.testing_version
            (replace_from "_" "-" zero image_type)),
      w,
    ))
    test_cli_package_url url
    pure url
