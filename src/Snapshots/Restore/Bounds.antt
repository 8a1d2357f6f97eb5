-- ===== src/Snapshots/Restore/Bounds.antt =====
-- How often a restore sets the password of the manager's command line.
use cloudify_system_tests.Snapshots.Restore.{
  outcome_of, RestoreOptions, rest_for, renew_credentials, await_restore, restore_rounds, react,
  report_failed, attempt_wait,
}
use cloudify_system_tests.Managed.{
  change_rest_client_password, in_session, host_of, Managed, on_host,
}
use cloudify_system_tests.Snapshots.{profile_command, update_credentials, Tester}
use cloudify_system_tests.Client.{Execution, Session}
use cloudify_system_tests.Prelude.{
  sym, List, All, zero, suc, false, [], true, ◌∷◌, ℕ, ◌⊎◌, ◌++◌, inr, inl, ◌≡◌, refl, ap, ◌∙◌,
  String, Bool, Option, none, some, if◌then◌else◌,
}
use cloudify_system_tests.Act.{
  client_error, execution_failed, unauthorized, err, running, ok, Result, Error, raise, Act, pass,
  pure, ◌>>=◌,
}
use cloudify_system_tests.Act.Moves.{Moves-catch_join, Moves-join, Moves, Moves-bind, Moves-if}
use cloudify_system_tests.Host.{run_command, Command, Host, Machine}
use cloudify_system_tests.Host.Manager.Quiet.{
  All-append, IsReading, Quiet, Quiet-refl, Quiet-trans, get_rest_client-Quiet,
}
use mathlib.Core.List.{append_assoc, append-nil}

module _ {W : Type 0} where
  -- No command has been sent to the machine.
  abbrev Same : Managed W → Managed W → Type 0
  Same g k = k.sent ≡ g.sent

  -- Only commands that copy a file to be read have been sent to the machine.
  abbrev Reads : Managed W → Managed W → Type 0
  Reads g k = Quiet (host_of g) (host_of k)

  -- After such commands, at most this one has been sent to the machine, and at most once.
  abbrev pub OnceAtMost : Command → Managed W → Managed W → Type 0
  OnceAtMost c g k =
      (cs : List Command) × All IsReading cs
      × ((k.sent ≡ g.sent ++ cs) ⊎ (k.sent ≡ g.sent ++ (cs ++ c ∷ [])))

  before_once : (c : Command) (g k l : Managed W) → Reads g k → OnceAtMost c k l → OnceAtMost c g l
  before_once c g k l (cs, p, a) (ds, b, inl e) = (
    cs ++ ds,
    All-append IsReading cs ds a b,
    inl (e ∙ ap (λ x. x ++ ds) p ∙ append_assoc g.sent cs ds),
  )
  before_once c g k l (cs, p, a) (ds, b, inr e) = (
    cs ++ ds,
    All-append IsReading cs ds a b,
    inr (
        e
        ∙ ap (λ x. x ++ (ds ++ c ∷ [])) p
        ∙ append_assoc g.sent cs (ds ++ c ∷ [])
        ∙ ap (λ x. g.sent ++ x) (sym (append_assoc cs ds (c ∷ [])))),
  )

  after_once : (c : Command) (g k l : Managed W) → OnceAtMost c g k → Same k l → OnceAtMost c g l
  after_once c g k l (cs, a, inl e) h = (cs, a, inl (h ∙ e))
  after_once c g k l (cs, a, inr e) h = (cs, a, inr (h ∙ e))

  Same-Reads : (g k : Managed W) → Same g k → Reads g k
  Same-Reads g k h = ([], h ∙ sym (append-nil g.sent), tt)

  Same-bind :
      {A B : Type 0} (m : Act (Managed W) A) (f : A → Act (Managed W) B)
      → Moves Same m
      → ((a : A) → Moves Same (f a))
      → Moves Same (m >>= f)
  Same-bind = Moves-bind Same (λ g. refl) (λ g h k p q. q ∙ p)

  Same-if :
      {A : Type 0} (b : Bool) (m n : Act (Managed W) A)
      → Moves Same m
      → Moves Same n
      → Moves Same (if b then m else n)
  Same-if = Moves-if Same (λ g. refl) (λ g h k p q. q ∙ p)

  Same-in_session : {A : Type 0} (m : Act (Session W) A) → Moves Same (in_session m)
  Same-in_session m = record { at = λ g. refl }

  Reads-bind :
      {A B : Type 0} (m : Act (Managed W) A) (f : A → Act (Managed W) B)
      → Moves Reads m
      → ((a : A) → Moves Reads (f a))
      → Moves Reads (m >>= f)
  Reads-bind =
      Moves-bind Reads (λ g. Quiet-refl (host_of g))
        (λ g h k. Quiet-trans (host_of g) (host_of h) (host_of k))

  Reads-of : {A : Type 0} (m : Act (Managed W) A) → Moves Same m → Moves Reads m
  Reads-of m h = record { at = λ g. Same-Reads g (m g).1 (h.at g) }

  Reads-on_host : {A : Type 0} (m : Act (Host W) A) → Moves Quiet m → Moves Reads (on_host m)
  Reads-on_host m h = record { at = λ g. h.at (host_of g) }

  Same-pass : Moves Same pass
  Same-pass = record { at = λ g. refl }

  Same-pure : {A : Type 0} (a : A) → Moves Same (pure a)
  Same-pure a = record { at = λ g. refl }

  Same-raise : {A : Type 0} (e : Error) → Moves {A = A} Same (raise e)
  Same-raise e = record { at = λ g. refl }

  module _ (c : Command) where
    Once-after :
        {A B : Type 0} (m : Act (Managed W) A) (f : A → Act (Managed W) B)
        → Moves Reads m
        → ((a : A) → Moves (OnceAtMost c) (f a))
        → Moves (OnceAtMost c) (m >>= f)
    Once-after =
        Moves-join Reads (OnceAtMost c) (OnceAtMost c) (λ s t (cs, p, a). (cs, a, inl p))
          (before_once c)

    Once-before :
        {A B : Type 0} (m : Act (Managed W) A) (f : A → Act (Managed W) B)
        → Moves (OnceAtMost c) m
        → ((a : A) → Moves Same (f a))
        → Moves (OnceAtMost c) (m >>= f)
    Once-before = Moves-join (OnceAtMost c) Same (OnceAtMost c) (λ s t h. h) (after_once c)

    Once-of : {A : Type 0} (m : Act (Managed W) A) → Moves Same m → Moves (OnceAtMost c) m
    Once-of m h = record { at = λ g. ([], tt, inl (h.at g ∙ sym (append-nil g.sent))) }

    Once-run_command : (m : Machine W) → Moves (OnceAtMost c) (on_host (run_command m c))
    unfolding run_command
    Once-run_command m = record { at = λ g. ([], tt, inr refl) }

module _ {W : Type 0} (t : Tester W) where
  change_password-Reads :
      (p : String) → Moves Reads (change_rest_client_password t.machine t.headers_of p)
  unfolding change_rest_client_password
  change_password-Reads p =
      Reads-bind _ _
        (Reads-on_host _ (get_rest_client-Quiet t.machine none (some p) none "auto" true))
        λ client. Reads-of _ (record { at = λ g. refl })

  rest_for-Same : (n : ℕ) → Moves Same (rest_for t n)
  rest_for-Same n = record { at = λ g. refl }

  outcome_of-Same : (r : Result Execution) (g : Managed W) → (outcome_of t r g).1.sent ≡ g.sent
  outcome_of-Same (ok x) g = refl
  outcome_of-Same (err e) g = refl
  outcome_of-Same running g = refl

  attempt_wait-Same : (fuel : ℕ) (e : Execution) → Moves Same (attempt_wait t fuel e)
  unfolding attempt_wait
  attempt_wait-Same fuel e = record { at = λ g. outcome_of-Same _ _ }

  renew_credentials-Once :
      (p : String) → Moves (OnceAtMost (profile_command p)) (renew_credentials t p)
  unfolding renew_credentials update_credentials
  renew_credentials-Once p = Once-after _ _ _ (change_password-Reads p) λ _.
      Once-after _ _ _ (Reads-of _ (Same-in_session _)) λ _.
        Once-after _ _ _ (change_password-Reads p) λ _.
          Once-after _ _ _ (Reads-of _ (Same-in_session _))
            λ _. Once-before _ _ _ (Once-run_command _ t.machine) λ _. Same-pass

  -- Once the password has been reset, it is not reset again.
  react-Same :
      (p : String) (again : Bool → Act (Managed W) Bool) (x : Option Error)
      → Moves Same (again true)
      → Moves Same (react t p true again x)
  unfolding react
  react-Same p again none h = Same-pure true
  react-Same p again (some (unauthorized m)) h =
      Same-bind _ _ Same-pass λ _. Same-bind _ _ (rest_for-Same 2) λ _. h
  react-Same p again (some (client_error m)) h = Same-bind _ _ (rest_for-Same 2) λ _. h
  react-Same p again (some e) h = Same-raise e

  react-Once :
      (p : String) (again : Bool → Act (Managed W) Bool) (x : Option Error)
      → Moves Same (again true)
      → Moves (OnceAtMost (profile_command p)) (again false)
      → Moves (OnceAtMost (profile_command p)) (react t p false again x)
  unfolding react
  react-Once p again none h k = Once-of _ _ (Same-pure true)
  react-Once p again (some (unauthorized m)) h k =
      Once-before _ _ _ (renew_credentials-Once p) λ _. Same-bind _ _ (rest_for-Same 2) λ _. h
  react-Once p again (some (client_error m)) h k =
      Once-after _ _ _ (Reads-of _ (rest_for-Same 2)) λ _. k
  react-Once p again (some e) h k = Once-of _ _ (Same-raise e)

  rounds-Same :
      (fuel : ℕ) (e : Execution) (p : String) (left : ℕ)
      → Moves Same (restore_rounds t fuel e p left true)
  unfolding restore_rounds
  rounds-Same fuel e p zero = Same-pure false
  rounds-Same fuel e p (suc left) =
      Same-bind _ _ (attempt_wait-Same fuel e) λ x. react-Same p _ x (rounds-Same fuel e p left)

  rounds-Once :
      (fuel : ℕ) (e : Execution) (p : String) (left : ℕ)
      → Moves (OnceAtMost (profile_command p)) (restore_rounds t fuel e p left false)
  unfolding restore_rounds
  rounds-Once fuel e p zero = Once-of _ _ (Same-pure false)
  rounds-Once fuel e p (suc left) =
      Once-after _ _ _ (Reads-of _ (attempt_wait-Same fuel e))
        λ x. react-Once p _ x (rounds-Same fuel e p left) (rounds-Once fuel e p left)

  report_failed-Same : (e : Error) → Moves Same (report_failed t e)
  unfolding report_failed
  report_failed-Same execution_failed =
      Same-bind _ _ (Same-in_session _) λ _. Same-bind _ _ (Same-in_session _) λ _. Same-raise _
  report_failed-Same e = Same-raise e

  -- However the wait for a restore ends, over all the errors that are let pass in up to sixty rounds:
  -- the command that sets the password of the command line is sent to the machine at most once, and
  -- last; the others, if any, copy a file of the machine to be read.
  pub await_restore-OnceAtMost :
      (fuel : ℕ) (e : Execution) (admin_password : String) (o : RestoreOptions) (g : Managed W)
      → OnceAtMost (profile_command admin_password) g (await_restore t fuel e admin_password o g).1
  unfolding await_restore
  await_restore-OnceAtMost fuel e p o g =
      (Once-after _ _ _ (Reads-of _ (Same-in_session _)) λ _.
          Once-after _ _ _ (Reads-of _ (rest_for-Same 60)) λ _.
            Once-before _ _ _
              (Moves-catch_join (OnceAtMost _) Same (OnceAtMost _) (λ s t h. h) (after_once _) _ _
                (rounds-Once fuel e p 60) report_failed-Same)
              λ completed.
                Same-bind _ _ (Same-if _ _ _ Same-pass (Same-raise _))
                  λ _. Same-if _ _ _ (rest_for-Same _) Same-pass).at
        g
