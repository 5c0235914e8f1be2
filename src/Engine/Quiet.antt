-- ===== src/Engine/Quiet.antt =====
-- src/engine.rs: the calls into the system that start and end no child and no runtime.
use tauri_vpn_plugin.Common.{ℕ, String, Bool, List, [], ◌∷◌, Option, none, some, refl}
use tauri_vpn_plugin.Errors.{VpnError, Result, ok, err}
use tauri_vpn_plugin.Models.{ConnectOptions}
use tauri_vpn_plugin.Platform.{
  TargetOs, windows, macos, linux, android, ios, other_os, is_windows, is_macos,
}
use tauri_vpn_plugin.Engine.Calls.{
  installs_profile, closes_job, assigns_job, runs_cleanup, runs_admin, kills_listener,
  writes_config, checks_config, starts_stats, stops_stats, Machine, Action, log, Tried,
}
use tauri_vpn_plugin.Engine.Balance.{At, Triple, Triple-bind}
use tauri_vpn_plugin.Engine.Rules.{lift_keeps, pure_keeps, Triple-if, does-At, modify-At, gets-At}
use tauri_vpn_plugin.Engine.System.{
  Output, Cleanup, kill_each, kill_listeners, run_macos_admin_script,
  stop_macos_privileged_sing_box, cleanup_desktop_artifacts, write_runtime_config, check_config,
}
use tauri_vpn_plugin.Engine.Fields.{start_stats_polling, stop_stats_polling, take_job, attach_job}
use tauri_vpn_plugin.Engine.Desktop.{StartAnswers, prepare}

abbrev pub Keeps : {A : Type 0} → (Machine → Type 0) → Action A → Type 0
Keeps P m = Triple P m (λ _. P) (λ _. P)

module _ {n k : ℕ} {c : Option ℕ} {o : Bool} where
  kill_each_quiet : (pids : List String) → Keeps (At n k c o) (kill_each pids)
  kill_each_quiet [] = pure_keeps _
  kill_each_quiet (pid ∷ pids) =
      Triple-bind (does-At (kills_listener pid) refl refl) (λ _. kill_each_quiet pids)

  kill_listeners_quiet : (stdout : Option String) → Keeps (At n k c o) (kill_listeners stdout)
  kill_listeners_quiet none = pure_keeps _
  kill_listeners_quiet (some stdout) = kill_each_quiet _

  run_macos_admin_script_quiet :
      (answer : Option (Tried Output)) (script : String)
      → Keeps (At n k c o) (run_macos_admin_script answer script)
  unfolding run_macos_admin_script
  run_macos_admin_script_quiet answer script = Triple-bind (does-At (runs_admin _) refl refl) (λ _.
      Triple-bind (lift_keeps _) (λ output. Triple-bind (lift_keeps _) (λ result. lift_keeps _)))

  pub cleanup_desktop_artifacts_quiet :
      (os : TargetOs) (a : Cleanup) (config_path : String)
      → Keeps (At n k c o) (cleanup_desktop_artifacts os a config_path)
  unfolding cleanup_desktop_artifacts
  cleanup_desktop_artifacts_quiet windows a config_path =
      Triple-bind (does-At (runs_cleanup config_path) refl refl)
        (λ _. Triple-bind (lift_keeps _) (λ result. lift_keeps _))
  cleanup_desktop_artifacts_quiet macos a config_path =
      Triple-if a.listener
        (Triple-bind (run_macos_admin_script_quiet a.admin _) (λ _. pure_keeps _)) (pure_keeps _)
  cleanup_desktop_artifacts_quiet linux a config_path = kill_listeners_quiet a.listeners
  cleanup_desktop_artifacts_quiet android a config_path = pure_keeps _
  cleanup_desktop_artifacts_quiet ios a config_path = pure_keeps _
  cleanup_desktop_artifacts_quiet other_os a config_path = pure_keeps _

  write_runtime_config_quiet :
      (path : Result String) (created written : Tried (Unit {0})) (text : String)
      → Keeps (At n k c o) (write_runtime_config path created written text)
  unfolding write_runtime_config
  write_runtime_config_quiet path created written text =
      Triple-bind (lift_keeps path) (λ config_path. Triple-bind (lift_keeps _) (λ _.
        Triple-bind (lift_keeps _)
          (λ _. Triple-bind (does-At (writes_config text) refl refl) (λ _. pure_keeps _))))

  check_config_quiet :
      (binary : String) (answer : Option (Tried Output))
      → Keeps (At n k c o) (check_config binary answer)
  unfolding check_config
  check_config_quiet binary answer = Triple-bind (does-At checks_config refl refl) (λ _.
      Triple-bind (lift_keeps _) (λ output. Triple-bind (lift_keeps _) (λ result. lift_keeps _)))

  pub prepare_quiet :
      (os : TargetOs) (a : StartAnswers) (options : ConnectOptions)
      → Keeps (At n k c o) (prepare os a options)
  unfolding prepare
  prepare_quiet os a options = Triple-bind (lift_keeps _) (λ warnings.
      Triple-bind (lift_keeps _) (λ config. Triple-bind (lift_keeps _) (λ text.
        Triple-bind (write_runtime_config_quiet _ a.created a.written text) (λ config_path.
          Triple-bind
            (Triple-if (is_macos os)
              (Triple-bind (does-At installs_profile refl refl) (λ _. lift_keeps a.installed))
              (Triple-bind (lift_keeps _)
                (λ binary. Triple-bind (lift_keeps _) (λ _. check_config_quiet binary a.checked))))
            (λ _.
              Triple-bind (cleanup_desktop_artifacts_quiet os a.cleanup config_path)
                (λ _. pure_keeps _))))))

  pub take_job_quiet :
      {E : VpnError → Machine → Type 0} (os : TargetOs)
      → Triple (At n k c o) (take_job os) (λ _. At n k c o) E
  unfolding take_job
  take_job_quiet os =
      Triple-if (is_windows os)
        (Triple-bind (gets-At _) (λ old.
          Triple-bind (modify-At _ (λ e h g. (h, g)) refl refl)
            (λ _. Triple-if old (does-At closes_job refl refl) (pure_keeps _))))
        (pure_keeps _)

  pub attach_job_quiet :
      {E : VpnError → Machine → Type 0} (os : TargetOs) (job : Result (Unit {0}))
      → Triple (At n k c o) (attach_job os job) (λ _. At n k c o) E
  unfolding attach_job
  attach_job_quiet os (err e) = Triple-if (is_windows os) (does-At _ refl refl) (pure_keeps _)
  attach_job_quiet os (ok u) =
      Triple-if (is_windows os)
        (Triple-bind (gets-At _) (λ old. Triple-bind (modify-At _ (λ e h g. (h, g)) refl refl) (λ _.
          Triple-bind (Triple-if old (does-At closes_job refl refl) (pure_keeps _))
            (λ _. Triple-bind (does-At assigns_job refl refl) (λ _. does-At _ refl refl)))))
        (pure_keeps _)

  pub stop_stats_polling_quiet :
      {E : VpnError → Machine → Type 0} → Triple (At n k c o) stop_stats_polling (λ _. At n k c o) E
  unfolding stop_stats_polling
  stop_stats_polling_quiet = Triple-bind (gets-At _) (λ old.
      Triple-bind (modify-At _ (λ e h g. (h, g)) refl refl)
        (λ _. Triple-if old (does-At stops_stats refl refl) (pure_keeps _)))

  pub start_stats_polling_quiet :
      {E : VpnError → Machine → Type 0}
      → Triple (At n k c o) start_stats_polling (λ _. At n k c o) E
  unfolding start_stats_polling
  start_stats_polling_quiet = Triple-bind stop_stats_polling_quiet (λ _.
      Triple-bind (does-At starts_stats refl refl) (λ _. modify-At _ (λ e h g. (h, g)) refl refl))

  pub log_quiet :
      {E : VpnError → Machine → Type 0} (text : String)
      → Triple (At n k c o) (log text) (λ _. At n k c o) E
  log_quiet text = does-At _ refl refl

  pub stop_privileged_quiet :
      (answer : Option (Tried Output)) (pid : Option String) (config_path : String)
      → Keeps (At n k c o) (stop_macos_privileged_sing_box answer pid config_path)
  unfolding stop_macos_privileged_sing_box
  stop_privileged_quiet answer pid config_path =
      Triple-bind (run_macos_admin_script_quiet answer _) (λ _. pure_keeps _)
