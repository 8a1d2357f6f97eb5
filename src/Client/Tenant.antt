-- ===== src/Client/Tenant.antt =====
-- `set_client_tenant` of framework/util.py: the body of a `with` block runs under another tenant.
use cloudify_system_tests.Prelude.{
  ap, false, String, ◌≡◌, refl, ◌∙◌, Option, none, some, ◌==◌, if◌then◌else◌, Bool-cases, inl, inr,
}
use cloudify_system_tests.Dict.{get, put, get-put, put-put_undo}
use cloudify_system_tests.Act.{Act, ok, err, key_error, finally}
use cloudify_system_tests.Act.Moves.{Moves}
use cloudify_system_tests.Act.Returns.{Returns}
use cloudify_system_tests.Act.Ends.{EndsAt, ne-running-err}
use cloudify_system_tests.Client.{Session, Headers}

-- constants.py
abbrev pub cloudify_tenant_header : String
cloudify_tenant_header = "Tenant"

abbrev pub set_tenant : {W : Type 0} → String → Session W → Session W
set_tenant t s = record s { headers = put cloudify_tenant_header t s.headers }

abbrev pub SameHeaders : {W : Type 0} → Session W → Session W → Type 0
SameHeaders s t = t.headers ≡ s.headers

module _ {W A : Type 0} where
  -- the `with` block, once the original header has been read
  run_as : String → Option String → Act (Session W) A → Act (Session W) A
  run_as tenant none body s = (err key_error, s)
  run_as tenant (some original) body s = finally body (set_tenant original) (set_tenant tenant s)

  unfoldable pub set_client_tenant : Option String → Act (Session W) A → Act (Session W) A
  unfolding run_as
  set_client_tenant none body s = body s
  set_client_tenant (some tenant) body s =
      if tenant == "" then body s else run_as tenant (get cloudify_tenant_header s.headers) body s

  run_as-SameHeaders :
      (t : String) (o : Option String) (body : Act (Session W) A) (s : Session W)
      → get cloudify_tenant_header s.headers ≡ o
      → Moves SameHeaders body
      → SameHeaders s (run_as t o body s).1
  unfolding run_as
  run_as-SameHeaders t none body s e h = refl
  run_as-SameHeaders t (some v) body s e h =
      ap (put cloudify_tenant_header v) (h.at (set_tenant t s))
      ∙ put-put_undo cloudify_tenant_header v t s.headers e

  -- A body that keeps the headers makes a block that keeps them, and the block restores them.
  pub set_client_tenant-SameHeaders :
      (tenant : Option String) (body : Act (Session W) A)
      → Moves SameHeaders body
      → Moves SameHeaders (set_client_tenant tenant body)
  unfolding set_client_tenant
  set_client_tenant-SameHeaders none body h = record { at = λ s. h.at s }
  set_client_tenant-SameHeaders (some t) body h = record {
    at = λ s. elim (Bool-cases (t == "")) [
      | inl blank ↦ rw blank (h.at s)
      | inr named ↦ rw named (run_as-SameHeaders t _ body s refl h)
    ];
  }

  -- Whatever a body does to the tenant header and however it ends, once a block for a named tenant
  -- has begun, it hands the original header back.
  pub set_client_tenant_restores :
      (tenant original : String) (body : Act (Session W) A) (s : Session W)
      → (tenant == "") ≡ false
      → get cloudify_tenant_header s.headers ≡ some original
      → get cloudify_tenant_header (set_client_tenant (some tenant) body s).1.headers
        ≡ some original
  unfolding set_client_tenant
  set_client_tenant_restores tenant original body s named e =
      rw (named, e, run_as) (rw get-put refl)

module _ {W A : Type 0} {P : A → Type 0} where
  run_as-Returns :
      (t : String) (o : Option String) (body : Act (Session W) A)
      → Returns P body
      → Returns P (run_as t o body)
  unfolding run_as
  run_as-Returns t none body h = record { at = λ s a e. cc }
  run_as-Returns t (some v) body h = record { at = λ s a e. h.at (set_tenant t s) a e }

  -- A block returns what its body returns.
  pub set_client_tenant-Returns :
      (tenant : Option String) (body : Act (Session W) A)
      → Returns P body
      → Returns P (set_client_tenant tenant body)
  unfolding set_client_tenant
  set_client_tenant-Returns none body h = record { at = λ s a e. h.at s a e }
  set_client_tenant-Returns (some t) body h = record {
    at = λ s a. elim (Bool-cases (t == "")) [
      | inl blank ↦ rw blank (h.at s a)
      | inr named ↦ rw named ((run_as-Returns t _ body h).at s a)
    ];
  }

-- The headers in a block for a tenant.
abbrev pub headers_in : String → Headers → Headers
headers_in tenant h = if tenant == "" then h else put cloudify_tenant_header tenant h

module _ {W A : Type 0} where
  -- Where the body of a block for a tenant has started.
  abbrev InBlock : String → Act (Session W) A → Session W → A → Type 0
  InBlock tenant body s a =
      (u : Session W) × (u.headers ≡ headers_in tenant s.headers)
      × (u.world ≡ s.world)
      × ((body u).0 ≡ ok a)

  run_as_inv :
      (tenant : String) (o : Option String) (body : Act (Session W) A) (s : Session W) (a : A)
      → (run_as tenant o body s).0 ≡ ok a
      → (body (set_tenant tenant s)).0 ≡ ok a
  unfolding run_as
  run_as_inv tenant none body s a e = cc
  run_as_inv tenant (some v) body s a e = e

  -- A block that returns has run its body under the header of the tenant, and in the world as it was.
  pub set_client_tenant_inv :
      (tenant : String) (body : Act (Session W) A) (s : Session W) (a : A)
      → (set_client_tenant (some tenant) body s).0 ≡ ok a
      → InBlock tenant body s a
  unfolding set_client_tenant
  set_client_tenant_inv tenant body s a e = elim (Bool-cases (tenant == "")) [
    | inl blank ↦ (s, rw blank refl, refl, rw blank at e)
    | inr named ↦
        (set_tenant tenant s, rw named refl, refl, run_as_inv tenant _ body s a (rw named at e))
  ]

module _ {W A : Type 0} where
  run_as-EndsAt :
      (t : String) (o : Option String) (body : Act (Session W) A) (s : Session W)
      → ((u : Session W) → u.world ≡ s.world → EndsAt body u)
      → EndsAt (run_as t o body) s
  unfolding run_as
  run_as-EndsAt t none body s h = ne-running-err _
  run_as-EndsAt t (some v) body s h = h (set_tenant t s) refl

  -- A block ends if its body does under any headers.
  pub set_client_tenant-EndsAt :
      (tenant : Option String) (body : Act (Session W) A) (s : Session W)
      → ((u : Session W) → u.world ≡ s.world → EndsAt body u)
      → EndsAt (set_client_tenant tenant body) s
  unfolding set_client_tenant
  set_client_tenant-EndsAt none body s h = h s refl
  set_client_tenant-EndsAt (some t) body s h = elim (Bool-cases (t == "")) [
    | inl blank ↦ rw blank (h s refl)
    | inr named ↦ rw named (run_as-EndsAt t _ body s h)
  ]
