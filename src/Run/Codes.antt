-- ===== src/Run/Codes.antt =====
-- The return code of the process that `run` hands back.
use cloudify_system_tests.Prelude.{ℕ, zero, suc, ◌≡◌, refl, false}
use cloudify_system_tests.Act.{Act, ok, ◌>>=◌, pure}
use cloudify_system_tests.Act.Returns.{
  Returns, Returns-pure, Returns-raise, Returns-if, Returns-after,
}
use cloudify_system_tests.Run.{
  Shell, Options, defaults, CommandLine, Process, has_failed, give_up, conclude, command_text, run,
}

abbrev pub IsSuccess : Process → Type 0
IsSuccess p = has_failed p.returncode ≡ false

module _ {W : Type 0} (s : Shell W) where
  conclude-Returns :
      (ended : CommandLine × Process) (again : Act W Process)
      → Returns IsSuccess again
      → Returns IsSuccess (conclude s ended again)
  unfolding conclude
  conclude-Returns (command, proc) again h =
      Returns-if (has_failed proc.returncode) (command_text s command >>= λ _. again) (pure proc)
        (λ _. Returns-after _ _ λ _. h) (λ fine. Returns-pure proc fine)

  give_up-Returns :
      (o : Options) (proc : Process)
      → o.ignore_failures ≡ false
      → Returns IsSuccess (give_up s o proc)
  unfolding give_up
  give_up-Returns o proc strict = rw strict (Returns-raise _)

  run-Returns :
      (retries : ℕ) (o : Options) (c : CommandLine)
      → o.ignore_failures ≡ false
      → Returns IsSuccess (run s retries o c)
  unfolding run
  run-Returns zero o c strict =
      Returns-after _ _ λ ended. conclude-Returns ended _ (give_up-Returns o ended.1 strict)
  run-Returns (suc retries) o c strict =
      Returns-after _ _
        λ ended. conclude-Returns ended _ (run-Returns retries defaults ended.0 refl)

  retried-Returns :
      (retries : ℕ) (o : Options) (c : CommandLine) → Returns IsSuccess (run s (suc retries) o c)
  unfolding run
  retried-Returns retries o c =
      Returns-after _ _
        λ ended. conclude-Returns ended _ (run-Returns retries defaults ended.0 refl)

  -- Where there is a retry to make, the process that is handed back has succeeded even if failures are
  -- to be ignored: the retry forgets that they are.
  pub retried_run-IsSuccess :
      (retries : ℕ) (o : Options) (c : CommandLine) (w : W) (proc : Process)
      → (run s (suc retries) o c w).0 ≡ ok proc
      → IsSuccess proc
  retried_run-IsSuccess retries o c w proc e = (retried-Returns retries o c).at w proc e
