-- ===== src/Logs/Laws.antt =====
-- What a comparison of the logs that has passed has seen.
use cloudify_system_tests.Prelude.{◌≡◌, ◌⊎◌, ℕ, String, Bool, true, false, List, [], ◌∷◌, All}
use Prim.Native.String.{◌++◌ as text_append}
use cloudify_system_tests.Text.{concat, text_in, strip_text}
use cloudify_system_tests.Act.{value}
use cloudify_system_tests.Host.{plain}
use cloudify_system_tests.Sorting.{Reordered}
use cloudify_system_tests.ClusterManager.Config.{ClusterNode}
use cloudify_system_tests.Logs.{paths_in, LogSite, sub_paths}

-- Texts with a comma between them are nothing together only if there is one, and it is empty.
abbrev is_blank : String → Bool
is_blank String.[] = true
is_blank (String.◌∷◌ c s) = false

module _ {W : Type 0} (l : LogSite W) where
  -- The file that was retrieved for a path, and the one on the manager, have the same contents but for
  -- the space around them.
  abbrev Matches : ClusterNode → String → String → String → Type 0
  Matches manager local_path manager_path sub_path =
      (u : W) × (data_read : List ℕ) × (decoded : String) × (w : W) × (shown : String)
      × ((l.read_bytes (concat (local_path ∷ sub_path ∷ [])) u).0 ≡ value data_read)
      × (l.decode data_read ≡ value decoded)
      × ((l.machine.run manager.vm
            (plain (concat ("cat " ∷ concat (manager_path ∷ sub_path ∷ []) ∷ []))) w).0
          ≡ value shown)
      × (strip_text decoded ≡ strip_text shown)

  -- Each path of a listing matches, but for one that is empty.
  abbrev AllMatch : ClusterNode → String → String → List String → Type 0
  AllMatch manager local_path manager_path =
      All (λ sub_path. (sub_path ≡ "") ⊎ Matches manager local_path manager_path sub_path)

  abbrev pub local_path : ClusterNode → String → String
  local_path manager local_logs_base =
      concat (local_logs_base ∷ "/" ∷ manager.private_ip_address ∷ [])

  -- The logs of a manager have been retrieved: no failure was noted, `find` has shown the same paths for
  -- what was retrieved as for what is on the manager, in whatever order, and the contents match.
  pub record Retrieved (manager : ClusterNode) (local_logs_base manager_logs_path : String)
      : Type 0 where
    pub noted : String
    note_read :
        (w : W) × ((l.read_text (concat (local_path manager local_logs_base ∷ ".log" ∷ [])) w).0
          ≡ value noted)
    no_failure : text_in "fail" (l.lower noted) ≡ false
    pub here : String
    pub found_here :
        (w : W) × ((l.find_files (local_path manager local_logs_base) w).0 ≡ value here)
    pub there : String
    pub found_there :
        (w : W) × ((l.machine.run manager.vm
            (plain (concat ("find " ∷ manager_logs_path ∷ " -type f" ∷ [])))
            w).0
          ≡ value there)
    same_files :
        Reordered
          (paths_in (local_path manager local_logs_base) here)
          (paths_in manager_logs_path there)
    pub contents :
        AllMatch manager
          (local_path manager local_logs_base)
          manager_logs_path
          (sub_paths (local_path manager local_logs_base) here)
