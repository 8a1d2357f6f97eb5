-- ===== src/Host/Manager/Quiet.antt =====
-- Making a REST client sends no commands to the machine but those that copy a file to be read.
use mathlib.Core.Path.{subst}
use mathlib.Core.List.{append_assoc, append-nil}
use cloudify_system_tests.Host.Guard.{only_manager-other, only_manager-manager}
use cloudify_system_tests.Prelude.{
  inr, inl, sym, All, List, [], ◌∷◌, ◌++◌, ◌⊎◌, Bool-cases, ◌≡◌, refl, ap, ◌∙◌, String, Bool,
  Option, none, some, if◌then◌else◌,
}
use cloudify_system_tests.Act.{Reply, Act, pass, pure, gets, ◌>>=◌}
use cloudify_system_tests.Act.Moves.{Moves, Moves-bind, Moves-if}
use cloudify_system_tests.Host.{
  run_command, get_remote_file, Command, copy_command, chmod_command, Host, RestClient, Vm, Machine,
  effect, only_manager, set_vm, get_vm, set_world,
}
use cloudify_system_tests.Host.Manager.{
  choose_protocol, close_client, fetch_ca, download_rest_ca, get_rest_client,
}

pub All-append :
    {A : Type 0} (P : A → Type 0) (xs ys : List A) → All P xs → All P ys → All P (xs ++ ys)
All-append P [] ys a b = b
All-append P (x ∷ xs) ys a b = (a.0, All-append P xs ys a.1 b)

-- The commands of `get_remote_file`.
abbrev pub IsReading : Command → Type 0
IsReading c =
    ((path : String) × (tmp : String) × (c ≡ copy_command path tmp))
    ⊎ ((tmp : String) × (c ≡ chmod_command tmp))

module _ {W : Type 0} where
  -- Only commands of `get_remote_file` have been sent to the machine.
  abbrev pub Quiet : Host W → Host W → Type 0
  Quiet g h = (cs : List Command) × (h.sent ≡ g.sent ++ cs) × All IsReading cs

  pub Quiet-refl : (g : Host W) → Quiet g g
  Quiet-refl g = ([], sym (append-nil g.sent), tt)

  pub Quiet-trans : (g h k : Host W) → Quiet g h → Quiet h k → Quiet g k
  Quiet-trans g h k (cs, p, a) (ds, q, b) = (
    cs ++ ds,
    q ∙ ap (λ x. x ++ ds) p ∙ append_assoc g.sent cs ds,
    All-append IsReading cs ds a b,
  )

  Quiet-bind :
      {A B : Type 0} (m : Act (Host W) A) (f : A → Act (Host W) B)
      → Moves Quiet m
      → ((a : A) → Moves Quiet (f a))
      → Moves Quiet (m >>= f)
  Quiet-bind = Moves-bind Quiet Quiet-refl Quiet-trans

  Quiet-if :
      {A : Type 0} (b : Bool) (m n : Act (Host W) A)
      → Moves Quiet m
      → Moves Quiet n
      → Moves Quiet (if b then m else n)
  Quiet-if = Moves-if Quiet Quiet-refl Quiet-trans

  Quiet-only_manager :
      {A : Type 0} (m : Act (Host W) A) → Moves Quiet m → Moves Quiet (only_manager m)
  unfolding only_manager
  Quiet-only_manager m h = record {
    at = λ g. elim (Bool-cases g.vm.is_manager) [
      | inl manager ↦ subst (λ x. Quiet g x.1) (sym (only_manager-manager m g manager)) (h.at g)
      | inr other ↦ subst (λ x. Quiet g x.1) (sym (only_manager-other m g other)) (Quiet-refl g)
    ];
  }

  Quiet-run : (m : Machine W) (c : Command) → IsReading c → Moves Quiet (run_command m c)
  unfolding run_command
  Quiet-run m c reading = record { at = λ g. (c ∷ [], refl, (reading, tt)) }

  Quiet-effect : {A : Type 0} (call : Vm → W → Reply A × W) → Moves Quiet (effect call)
  Quiet-effect call = record { at = λ g. Quiet-refl g }

  Quiet-pass : Moves Quiet pass
  Quiet-pass = record { at = λ g. Quiet-refl g }

  Quiet-pure : {A : Type 0} (a : A) → Moves Quiet (pure a)
  Quiet-pure a = record { at = λ g. Quiet-refl g }

  Quiet-get_vm : Moves Quiet get_vm
  Quiet-get_vm = record { at = λ g. Quiet-refl g }

  Quiet-gets : {A : Type 0} (f : Host W → A) → Moves Quiet (gets f)
  Quiet-gets f = record { at = λ g. Quiet-refl g }

  Quiet-set_vm : (f : Vm → Vm) → Moves Quiet (set_vm f)
  Quiet-set_vm f = record { at = λ g. Quiet-refl g }

  Quiet-set_world : (f : W → W) → Moves Quiet (set_world f)
  Quiet-set_world f = record { at = λ g. Quiet-refl g }

module _ {W : Type 0} (m : Machine W) where
  choose_protocol-Quiet : (proto : String) → Moves Quiet (choose_protocol m proto)
  unfolding choose_protocol
  choose_protocol-Quiet proto = search (Quiet-if, Quiet-bind, Quiet-effect, Quiet-pure)

  close_client-Quiet : (c : Option RestClient) → Moves Quiet (close_client m c)
  close_client-Quiet none = Quiet-pass
  close_client-Quiet (some c) = Quiet-set_world (m.close_session c)

  get_remote_file-Quiet : (remote local : String) → Moves Quiet (get_remote_file m remote local)
  unfolding get_remote_file
  get_remote_file-Quiet remote local =
      Quiet-bind _ _ (Quiet-run m _ (inl (_, _, refl)))
        λ _. Quiet-bind _ _ (Quiet-run m _ (inr (_, refl))) λ _. Quiet-effect _

  fetch_ca-Quiet : (path : String) → Moves Quiet (fetch_ca m path)
  unfolding fetch_ca
  fetch_ca-Quiet path = search (Quiet-bind, get_remote_file-Quiet, Quiet-get_vm, close_client-Quiet)

  download_rest_ca-Quiet : (force : Bool) → Moves Quiet (download_rest_ca m force)
  unfolding download_rest_ca
  download_rest_ca-Quiet force =
      search
        (
          Quiet-only_manager, Quiet-bind, Quiet-if, Quiet-get_vm, Quiet-set_vm, Quiet-gets,
          Quiet-pass, Quiet-set_world, fetch_ca-Quiet,
        )
        depth 9

  pub get_rest_client-Quiet :
      (username password tenant : Option String) (proto : String) (ca : Bool)
      → Moves Quiet (get_rest_client m username password tenant proto ca)
  unfolding get_rest_client
  get_rest_client-Quiet username password tenant proto ca =
      search
        (
          Quiet-only_manager, Quiet-bind, Quiet-if, Quiet-get_vm, Quiet-pure, Quiet-pass,
          choose_protocol-Quiet, download_rest_ca-Quiet,
        )
        depth 9
