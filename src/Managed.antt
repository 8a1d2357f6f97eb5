-- ===== src/Managed.antt =====
-- A manager as the tests hold it: the machine that it runs on, and `manager.client`, the session that
-- they talk to it in.
pub mod Agents
use cloudify_system_tests.Prelude.{ℕ, String, none, some, List, true}
use cloudify_system_tests.Act.{Act, Done, modify, ◌>>=◌}
use cloudify_system_tests.Client.{Session, Headers}
use cloudify_system_tests.Host.{RestClient, Vm, Command, Machine, Host}
use cloudify_system_tests.Host.Manager.{get_rest_client}

pub record Managed (W : Type 0) : Type 0 where
  pub session : Session W
  pub vm : Vm
  pub sent : List Command

module _ {W : Type 0} where
  abbrev pub in_session : {A : Type 0} → Act (Session W) A → Act (Managed W) A
  in_session m g = let (r, s) = m g.session in (r, record g { session = s })

  abbrev pub host_of : Managed W → Host W
  host_of g = record { vm = g.vm; sent = g.sent; world = g.session.world }

  abbrev with_host : Managed W → Host W → Managed W
  with_host g h = record {
    session = record (g.session) { world = h.world };
    vm = h.vm;
    sent = h.sent;
  }

  abbrev pub on_host : {A : Type 0} → Act (Host W) A → Act (Managed W) A
  on_host m g = let (r, h) = m (host_of g) in (r, with_host g h)

  abbrev pub sleep_for : (ℕ → W → W) → ℕ → Act (Managed W) Done
  sleep_for pause t =
      modify (λ g. record g { session = record (g.session) { world = pause t g.session.world } })

module _ {W : Type 0} (m : Machine W) (headers_of : RestClient → Headers) where
  -- `manager.client = client`: requests go out with the headers of the new client
  abbrev take_client : RestClient → Act (Managed W) Done
  take_client c = modify (λ g. record g {
    session = record (g.session) { headers = headers_of c };
    vm = record (g.vm) { client = some c };
  })

  unfoldable pub change_rest_client_password : String → Act (Managed W) Done
  change_rest_client_password new_password = do
    client ← on_host (get_rest_client m none (some new_password) none "auto" true)
    take_client client
