-- ===== src/Host/Guard.antt =====
-- What `only_manager` makes of a method, and when the calls of a machine end.
use cloudify_system_tests.Prelude.{
  ◌≡◌, ◌≢◌, refl, sym, ap, ◌∙◌, true, false, if◌then◌else◌, inl, inr, Bool-cases,
}
use cloudify_system_tests.Act.{Act, Error, Reply, Result, ok, err, running, catch, runtime_error}
use cloudify_system_tests.Act.Ends.{Ends, result-ne-running, ne-running-ok}
use cloudify_system_tests.Host.{Vm, Host, effect, only_manager}
use mathlib.Core.Path.{subst}
use cloudify_system_tests.Act.Ends.{ne-running-err}
use cloudify_system_tests.Prelude.{◌≡◌, ap, true, false, if◌then◌else◌}
use cloudify_system_tests.Act.{Act, err, runtime_error}
use cloudify_system_tests.Host.{Host, only_manager}

module _ {W A : Type 0} (body : Act (Host W) A) (h : Host W) where
  pub only_manager-manager : h.vm.is_manager ≡ true → only_manager body h ≡ body h
  unfolding only_manager
  only_manager-manager e = ap (λ b. if b then body h else (err runtime_error, h)) e

  pub only_manager-other : h.vm.is_manager ≡ false → only_manager body h ≡ (err runtime_error, h)
  unfolding only_manager
  only_manager-other e = ap (λ b. if b then body h else (err runtime_error, h)) e

module _ {W : Type 0} where
  pub effect-Ends : {A : Type 0} (call : Vm → W → Reply A × W) → Ends (effect call)
  effect-Ends call = record { at = λ h. result-ne-running (call h.vm h.world).0 }

  -- A method of a manager that returned ran its body.
  pub guarded_inv :
      {A : Type 0} (body : Act (Host W) A) (h t : Host W) (a : A)
      → only_manager body h ≡ (ok a, t)
      → body h ≡ (ok a, t)
  guarded_inv body h t a e = elim (Bool-cases h.vm.is_manager) [
    | inl manager ↦ sym (only_manager-manager body h manager) ∙ e
    | inr unmanaged ↦ cc (ap (λ q. q.0) (sym (only_manager-other body h unmanaged) ∙ e))
  ]

  pub only_manager-Ends :
      {A : Type 0} (body : Act (Host W) A) → Ends body → Ends (only_manager body)
  only_manager-Ends body ends = record {
    at = λ h. elim (Bool-cases h.vm.is_manager) [
      | inl manager ↦
          subst (λ x. x.0 ≢ running) (sym (only_manager-manager body h manager)) (ends.at h)
      | inr unmanaged ↦
          subst (λ x. x.0 ≢ running) (sym (only_manager-other body h unmanaged))
            (ne-running-err runtime_error)
    ];
  }

  pub caught-Ends :
      {A : Type 0} (x : Result A) (handler : Error → Act (Host W) A) (h : Host W)
      → x ≢ running
      → ((e : Error) → Ends (handler e))
      → (catch (λ u. (x, u)) handler h).0 ≢ running
  caught-Ends (ok a) handler h ends handled = ne-running-ok a
  caught-Ends (err e) handler h ends handled = (handled e).at h
  caught-Ends running handler h ends handled = absurd (ends refl)
