-- ===== src/Resources/Seen.antt =====
-- What a wait for a snapshot has seen when it returns.
use cloudify_system_tests.Prelude.{
  ◌≡◌, refl, sym, ap, ◌∙◌, String, Option, none, some, List, [], ◌∷◌, ◌==◌, if◌then◌else◌, inl, inr,
  Bool-cases, arith, eq_iff,
}
use cloudify_system_tests.Dict.{Dict, get, put, get-put}
use cloudify_system_tests.Act.{Done, Reply, value, fault, ok, result, continue, ◌>>=◌}
use cloudify_system_tests.Act.Ends.{Ends, Ends-bind, Ends-ok, Ends-err, Ends-if, result-ne-running}
use cloudify_system_tests.Act.Retry.{Retrying, retry_inv}
use cloudify_system_tests.Client.{Api, Session, Headers}
use cloudify_system_tests.Resources.{
  Resources, Snapshot, states_of, check_state, created_attempt, assert_snapshot_created,
}

-- The state that the last snapshot of this name has in a listing.
unfoldable last_state : String → List Snapshot → Option String
last_state id [] = none
last_state id (s ∷ rest) = elim (last_state id rest) [
  | some state ↦ some state
  | none ↦ if s.id == id then some s.status else none
]

abbrev over : Option String → Option String → Option String
over (some a) b = some a
over none b = b

over-none : (o : Option String) → over o none ≡ o
over-none none = refl
over-none (some a) = refl

module _ {W : Type 0} (api : Api W) (res : Resources W) where
  get-states_of :
      (id : String) (snapshots : List Snapshot) (d : Dict String)
      → get id (states_of api res snapshots d) ≡ over (last_state id snapshots) (get id d)
  unfolding states_of last_state
  get-states_of id [] d = refl
  get-states_of id (s ∷ rest) d =
      get-states_of id rest (put s.id s.status d) ∙ ground (arith, get-put s.id id s.status d)

  check_state-Ends : (o : Option String) → Ends (check_state api res o)
  check_state-Ends none = Ends-err _
  check_state-Ends (some state) = Ends-if (state == "created") _ _ (Ends-ok _ _) (Ends-err _)

  created_attempt-Ends : (id : String) → Ends (created_attempt api res id)
  unfolding created_attempt
  created_attempt-Ends id =
      Ends-bind _ _
        (record { at = λ s. result-ne-running (res.list_snapshots s.headers s.world).0 })
        λ snapshots. check_state-Ends (get id (states_of api res snapshots []))

  -- The world is one that a listing has left behind in which the snapshot has been created.
  pub IsListedCreated : String → W → Type 0
  IsListedCreated id t =
      (h : Headers) × (w : W) × (snapshots : List Snapshot) × (res.list_snapshots h w
        ≡ (value snapshots, t))
      × (last_state id snapshots ≡ some "created")

  checked :
      (o : Option String) (s t : Session W)
      → check_state api res o s ≡ (ok tt, t)
      → (o ≡ some "created") × (s ≡ t)
  checked none s t e = cc (ap (λ q. q.0) e)
  checked (some state) s t e = elim (Bool-cases (state == "created")) [
    | inl created ↦ (ap some ((eq_iff state "created").0 created), ap (λ q. q.1) (rw created at e))
    | inr other ↦ cc (ap (λ q. q.0) (rw other at e))
  ]

  seen :
      (id : String) (s t : Session W) (r : Reply (List Snapshot)) (w : W)
      → res.list_snapshots s.headers s.world ≡ (r, w)
      → continue
          (result r)
          (λ snapshots. check_state api res (get id (states_of api res snapshots [])))
          (record s { world = w })
        ≡ (ok tt, t)
      → IsListedCreated id t.world
  unfolding IsListedCreated get
  seen id s t (value snapshots) w l e =
      let (found, same) =
        checked (get id (states_of api res snapshots [])) (record s { world = w }) t e in
      (
        s.headers,
        s.world,
        snapshots,
        l ∙ ap (λ u. (value snapshots, u.world)) same,
        sym (over-none (last_state id snapshots)) ∙ sym (get-states_of id snapshots []) ∙ found,
      )
  seen id s t (fault x) w l e = cc (ap (λ q. q.0) e)

  attempt-IsListedCreated :
      (id : String) (s t : Session W)
      → created_attempt api res id s ≡ (ok tt, t)
      → IsListedCreated id t.world
  unfolding created_attempt ◌>>=◌
  attempt-IsListedCreated id s t e = seen id s t _ _ refl e

  -- A wait for a snapshot that returns has ended with a listing in which the last snapshot of this
  -- name has been created: nothing has happened to the world since.
  pub assert_snapshot_created-IsListedCreated :
      (r : Retrying (Session W)) (snapshot_id : String) (s t : Session W)
      → assert_snapshot_created api res r snapshot_id s ≡ (ok tt, t)
      → IsListedCreated snapshot_id t.world
  unfolding assert_snapshot_created
  assert_snapshot_created-IsListedCreated r id s t e =
      let (g, done) =
        retry_inv r Done 5000 (created_attempt api res id) (λ u. (created_attempt-Ends id).at u) 19
          s t tt e in
      attempt-IsListedCreated id g t done
