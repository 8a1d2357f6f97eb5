-- ===== src/Cluster/Health.antt =====
-- When the wait for a healthy cluster ends.
use cloudify_system_tests.Text.{concat}
use cloudify_system_tests.Prelude.{
  [], ◌∷◌, ◌≡◌, ap, ◌∙◌, ℕ, zero, suc, ◌<◌, ◌-◌, true, Bool-cases, inl, inr, ◌==◌, if◌then◌else◌,
  arith,
}
use cloudify_system_tests.Act.{pure, Act, Done, value, ok, result, continue, ◌>>=◌}
use cloudify_system_tests.Client.{info, log_line, Api, Session, Headers}
use cloudify_system_tests.Resources.{Resources}
use cloudify_system_tests.Execution.{seconds}
use cloudify_system_tests.Cluster.{
  read_clock, ClusterStatus, ClusterCalls, status_round, health_rounds, assert_cluster_status,
}

module _ {W : Type 0} (api : Api W) (res : Resources W) (calls : ClusterCalls W)
    (shown : Headers → W → ClusterStatus)
    (answers : (h : Headers) (w : W) → (calls.cluster_status h w).0 ≡ value (shown h w)) where
  -- the world after one round, and after several
  abbrev pub next : Headers → W → W
  next h w = (calls.monotonic (calls.cluster_status h (api.sleep (seconds 2) w)).1).1

  unfoldable pub after : ℕ → Headers → W → W
  after zero h w = w
  after (suc n) h w = after n h (next h w)

  -- The answer of the round after so many others is that the cluster is healthy.
  abbrev IsHealthyAt : ℕ → Headers → W → Type 0
  IsHealthyAt n h w = ((shown h (api.sleep (seconds 2) (after n h w))).status == res.healthy) ≡ true

  -- what a round shows, and the time taken until then
  abbrev pub answer : ℕ → Session W → ClusterStatus × ℕ
  answer start s = (
    shown s.headers (api.sleep (seconds 2) s.world),
    (calls.monotonic (calls.cluster_status s.headers (api.sleep (seconds 2) s.world)).1).0 - start,
  )

  abbrev moved : Session W → Session W
  moved s = record s { world = next s.headers s.world }

  status_round-answer :
      (start : ℕ) (s : Session W)
      → status_round api res calls start s ≡ (ok (answer start s), moved s)
  unfolding status_round ◌>>=◌
  status_round-answer start s =
      ap
        (λ r.
          continue (result r)
            (λ status. read_clock api res calls >>= λ now. pure (status, now - start))
            (record s {
              world = (calls.cluster_status s.headers (api.sleep (seconds 2) s.world)).1;
            }))
        (answers s.headers (api.sleep (seconds 2) s.world))

  -- what is done with the answer
  abbrev judge : ℕ → ℕ → ClusterStatus × ℕ → Act (Session W) Done
  judge left start seen =
      if seen.0.status == res.healthy
      then log_line info
          (concat ("Took " ∷ calls.show_seconds seen.1 ∷ " seconds to become healthy." ∷ []))
      else health_rounds api res calls left start seen.1

  round_then :
      (left start taken : ℕ) (s : Session W)
      → health_rounds api res calls (suc left) start taken s
        ≡ judge left start (answer start s) (moved s)
  unfolding health_rounds ◌>>=◌
  round_then left start taken s =
      ap (λ x. continue x.0 (judge left start) x.1) (status_round-answer start s)

  judged :
      (left start : ℕ) (seen : ClusterStatus × ℕ) (s : Session W)
      → (seen.0.status == res.healthy) ≡ true
      → (judge left start seen s).0 ≡ ok tt
  judged left start seen s healthy =
      ap
        (λ b.
          ((if b
              then log_line info (
                  concat ("Took " ∷ calls.show_seconds seen.1 ∷ " seconds to become healthy." ∷ []))
              else health_rounds api res calls left start seen.1)
            s).0)
        healthy

  unjudged :
      (left start : ℕ) (seen : ClusterStatus × ℕ) (s : Session W)
      → (health_rounds api res calls left start seen.1 s).0 ≡ ok tt
      → (judge left start seen s).0 ≡ ok tt
  unjudged left start seen s later = elim (Bool-cases (seen.0.status == res.healthy)) [
    | inl healthy ↦ judged left start seen s healthy
    | inr ill ↦ rw ill later
  ]

  rounds_end :
      (n left start taken : ℕ) (s : Session W)
      → n < left
      → IsHealthyAt n s.headers s.world
      → (health_rounds api res calls left start taken s).0 ≡ ok tt
  unfolding after
  rounds_end n zero start taken s h healthy = absurd (omega (arith, h))
  rounds_end zero (suc left) start taken s h healthy =
      ap (λ x. x.0) (round_then left start taken s)
      ∙ judged left start (answer start s) (moved s) healthy
  rounds_end (suc n) (suc left) start taken s h healthy =
      ap (λ x. x.0) (round_then left start taken s)
      ∙ unjudged left start (answer start s) (moved s)
          (rounds_end n left start (answer start s).1 (moved s) (omega (arith, h)) healthy)

  -- Where every request for the status is answered, and the answer of one of the first thirty rounds is
  -- that the cluster is healthy, the wait ends without an exception.
  pub assert_cluster_status_ends :
      (n : ℕ) (s : Session W)
      → n < 30
      → IsHealthyAt n s.headers (calls.monotonic s.world).1
      → (assert_cluster_status api res calls s).0 ≡ ok tt
  unfolding assert_cluster_status ◌>>=◌
  assert_cluster_status_ends n s h healthy = rounds_end n 30 _ 0 _ h healthy
