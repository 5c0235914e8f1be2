-- ===== src/Engine/Stop.antt =====
-- src/engine.rs: `stop_desktop`. What the system answers is an argument.
use tauri_vpn_plugin.Common.{not, ℕ, String, false, Option, none, some, if◌then◌else◌}
use tauri_vpn_plugin.Errors.{not_running, engine, Result, ◌+s◌}
use tauri_vpn_plugin.Platform.{TargetOs, is_macos}
use tauri_vpn_plugin.Engine.Calls.{
  SingBoxEngine, Action, kills, drops_child, stops_profile, lift, does, gets, modify, ignore, log,
  or_drop, raise, ◌>>=◌, ◌>>◌, Tried, value, error, in_time,
}
use tauri_vpn_plugin.Engine.Core.{Host}
use tauri_vpn_plugin.Engine.System.{
  Output, Cleanup, runtime_config_path, stop_macos_privileged_sing_box, cleanup_desktop_artifacts,
}
use tauri_vpn_plugin.Engine.Fields.{take_olcrtc, stop_stats_polling, take_job}

-- What the system answers to a call of `stop_desktop`; `pid_text` writes a process id.
pub record StopAnswers : Type 0 where
  pub host : Host
  pub profile_stop : Result (Unit {0})
  pub admin : Option (Tried Output)
  pub pid_text : ℕ → String
  pub killed : Option (Tried (Unit {0}))
  pub cleanup : Cleanup

-- `cleanup_desktop_artifacts(&runtime_config_path(app)?).await`
unfoldable pub clean : TargetOs → StopAnswers → Action (Unit {0})
clean os a =
    lift (runtime_config_path a.host.join a.host.data_dir)
    >>= cleanup_desktop_artifacts os a.cleanup

-- `let _ = cleanup_desktop_artifacts(&runtime_config_path(app)?).await`
abbrev pub clean_ignored : TargetOs → StopAnswers → Action (Unit {0})
clean_ignored os a = lift (runtime_config_path a.host.join a.host.data_dir) >>= λ config_path.
    ignore (cleanup_desktop_artifacts os a.cleanup config_path)

abbrev pub killed : TargetOs → StopAnswers → ℕ → Tried (Unit {0}) → Action (Unit {0})
killed os a pid (error text) =
    take_olcrtc
    >> or_drop (does (drops_child pid)) (
        take_job os >> (clean_ignored os a >> raise (engine ("failed to stop sing-box: " +s text))))
killed os a pid (value u) =
    does (kills pid)
    >> (take_olcrtc >> (take_job os >> (clean os a >> log "sing-box process stopped")))

abbrev pub stop_child : TargetOs → StopAnswers → Option ℕ → Action (Unit {0})
stop_child os a none = take_job os >> (clean os a >> raise not_running)
stop_child os a (some pid) =
    modify (λ e. record e { child = none })
    >> (or_drop (does (drops_child pid))
          (lift (in_time (engine "timed out while stopping sing-box") a.killed))
        >>= killed os a pid)

-- The end of `stop_desktop`, over `child`.
unfoldable pub stop_core : TargetOs → StopAnswers → Action (Unit {0})
stop_core os a = gets SingBoxEngine.child >>= stop_child os a

-- The part for macOS where the VPN profile is connected.
unfoldable pub stop_profile : TargetOs → StopAnswers → Action (Unit {0})
stop_profile os a =
    take_olcrtc
    >> (does stops_profile
        >> (lift a.profile_stop
            >> (modify (λ e. record e { macos_system_connected = false })
                >> (clean os a >> log "macOS system VPN tunnel stop requested"))))

abbrev pub stop_privileged : TargetOs → StopAnswers → Option ℕ → Action (Unit {0})
stop_privileged os a none = stop_core os a
stop_privileged os a (some pid) =
    modify (λ e. record e { privileged_pid = none })
    >> (take_olcrtc
        >> (lift (runtime_config_path a.host.join a.host.data_dir) >>= λ config_path.
            stop_macos_privileged_sing_box a.admin (some (a.pid_text pid)) config_path
            >> log "sing-box administrator process stopped"))

unfoldable pub stop_desktop : TargetOs → StopAnswers → Action (Unit {0})
stop_desktop os a =
    stop_stats_polling
    >> (gets (λ e. e) >>= λ e.
        if not (is_macos os)
        then stop_core os a
        else if e.macos_system_connected
        then stop_profile os a
        else stop_privileged os a e.privileged_pid)
