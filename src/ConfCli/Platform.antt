-- ===== src/ConfCli/Platform.antt =====
-- `apply_platform_config`: the platform's settings, from the environment.
use cloudify_system_tests.Prelude.{zero, String, Option, none, some, ◌==◌, or_else, if◌then◌else◌}
use cloudify_system_tests.Text.{replace_from}
use cloudify_system_tests.Dict.{Dict, get, put}
use cloudify_system_tests.Act.{Act, Done, key_error, pass, pure, raise, modify, ◌>>=◌, ◌>>◌}
use cloudify_system_tests.Value.{Value, text, table, Fields, end, entries, mapping}
use cloudify_system_tests.Config.{Config}

-- `os.environ[name]`
abbrev variable : Dict String → String → Act Config String
variable environ name = elim (get name environ) [ none ↦ raise key_error | some v ↦ pure v ]

-- `config.raw_config['openstack']`, which `target` is
abbrev target : Option Value → Fields
target (some (table fields)) = fields
target _ = end

unfoldable pub set_target : String → String → Act Config Done
set_target key v = modify (λ c. record c {
  raw_config =
      put "openstack"
        (table (mapping (put key (text v) (entries (target (get "openstack" c.raw_config))))))
        c.raw_config;
})

abbrev set_raw : String → Value → Act Config Done
set_raw key v = modify (λ c. record c { raw_config = put key v c.raw_config })

-- `os.environ.get("OS_TENANT_NAME") or os.environ['OS_PROJECT_NAME']`
abbrev tenant_variable : Dict String → Option String → Act Config String
tenant_variable environ none = variable environ "OS_PROJECT_NAME"
tenant_variable environ (some tenant) =
    if tenant == "" then variable environ "OS_PROJECT_NAME" else pure tenant

unfoldable pub apply_openstack : Dict String → Act Config Done
unfolding replace_from
apply_openstack environ = do
  set_raw "openstack" (table end)
  username ← variable environ "OS_USERNAME"
  set_target "username" username
  password ← variable environ "OS_PASSWORD"
  set_target "password" password
  tenant ← tenant_variable environ (get "OS_TENANT_NAME" environ)
  set_target "tenant" tenant
  url ← variable environ "OS_AUTH_URL"
  set_target "url" (replace_from "v2.0" "v3" zero url)
  set_target "region" (or_else (get "OS_REGION_NAME" environ) "RegionOne")

unfoldable pub apply_platform_config : Dict String → String → Act Config Done
apply_platform_config environ platform = do
  set_raw "target_platform" (text platform)
  if platform == "openstack" then apply_openstack environ else pass
