-- ===== src/Engine/Desktop.antt =====
-- src/engine.rs: `start_desktop`. What the system answers to the calls is an argument.
use tauri_vpn_plugin.Common.{
  ℕ, String, Bool, true, false, ◌&&◌, ◌||◌, List, Option, none, some, is_some, if◌then◌else◌,
}
use tauri_vpn_plugin.Errors.{already_running, engine, Result, ok, err, ◌+s◌}
use tauri_vpn_plugin.Models.{ConnectOptions, is_olc_rtc}
use tauri_vpn_plugin.Models.Json.{Value}
use tauri_vpn_plugin.Platform.{TargetOs, is_macos, check_platform_requirements}
use tauri_vpn_plugin.Config.Generate.{generate_sing_box_config}
use tauri_vpn_plugin.Olcrtc.Settings.{from_profile}
use tauri_vpn_plugin.Engine.Calls.{
  SingBoxEngine, Action, installs_profile, olcrtc_starts, spawns, drops_child, starts_profile,
  stops_profile, lift, does, gets, modify, ignore, log, or_drop, pure, raise, ◌>>=◌, ◌>>◌, Tried,
  value, error, map_err,
}
use tauri_vpn_plugin.Engine.Fields.{
  stop_runtime, drop_runtime, set_olcrtc, start_stats_polling, take_job, attach_job,
}
use tauri_vpn_plugin.Engine.Core.{Host, resolve_core_binary}
use tauri_vpn_plugin.Engine.Readiness.{Round, wait_for_desktop_readiness, wait_for_system_tunnel}
use tauri_vpn_plugin.Engine.System.{
  Output, Cleanup, runtime_config_path, write_runtime_config, check_config,
  ensure_linux_tun_permissions, cleanup_desktop_artifacts,
}

-- What the system answers to a call of `start_desktop`, and what the crates do.
pub record StartAnswers : Type 0 where
  pub host : Host
  pub token : Bool
  pub to_string_pretty : Value → Tried String
  pub created : Tried (Unit {0})
  pub written : Tried (Unit {0})
  pub uid : Option String
  pub capabilities : Option String
  pub checked : Option (Tried Output)
  pub installed : Result (Unit {0})
  pub cleanup : Cleanup
  pub olcrtc_start : Result (Unit {0})
  pub profile_start : Result (Unit {0})
  pub established : List (Tried Bool)
  pub spawned : Tried ℕ
  pub job : Result (Unit {0})
  pub rounds : ℕ → Round
  pub last_try : Tried (Option String)
  pub cleanup_after : Cleanup

-- The tests that refuse a start.
unfoldable pub is_running : TargetOs → SingBoxEngine → Bool
is_running os e =
    is_some e.child || (is_macos os && (is_some e.privileged_pid || e.macos_system_connected))

-- From the requirements to the cleanup: the warnings and the path of the configuration.
unfoldable pub prepare : TargetOs → StartAnswers → ConnectOptions → Action (List String × String)
prepare os a options = lift (check_platform_requirements os a.token) >>= λ warnings.
    lift (generate_sing_box_config os options) >>= λ config.
    lift (
      map_err (λ text. engine ("failed to serialize config: " +s text)) (a.to_string_pretty config))
    >>= λ config_text.
        write_runtime_config (runtime_config_path a.host.join a.host.data_dir) a.created a.written
          config_text
        >>= λ config_path.
            (if is_macos os
              then does installs_profile >> lift a.installed
              else lift (resolve_core_binary os a.host) >>= λ binary.
                  lift (ensure_linux_tun_permissions os a.uid a.capabilities binary)
                  >> check_config binary a.checked)
            >> (cleanup_desktop_artifacts os a.cleanup config_path >> pure (warnings, config_path))

-- The OLC RTC runtime, where the profile asks for one.
unfoldable pub start_olcrtc : StartAnswers → ConnectOptions → Action Bool
start_olcrtc a options =
    if is_olc_rtc options.profile.protocol
    then lift (from_profile options.profile) >>= (λ config.
      lift a.olcrtc_start
      >> (does olcrtc_starts >> (log "OLC RTC client connected to WB Stream" >> pure true)))
    else pure false

abbrev pub readied :
    TargetOs
    → StartAnswers
    → Bool
    → List String
    → String
    → ℕ
    → Result (Option String)
    → Action (List String)
readied os a runtime warnings config_path pid (err e) =
    does (drops_child pid) >> (drop_runtime runtime >> raise e)
readied os a runtime warnings config_path pid (ok (some status)) =
    stop_runtime runtime
    >> (take_job os
        >> (ignore (cleanup_desktop_artifacts os a.cleanup_after config_path)
            >> (does (drops_child pid)
                >> raise (
                    engine (
                      "sing-box exited during startup with status "
                      +s (status +s ". Check vpn logs for details."))))))
readied os a runtime warnings config_path pid (ok none) =
    modify (λ e. record e { child = some pid })
    >> (set_olcrtc runtime
        >> (start_stats_polling
            >> (log ("sing-box started with config " +s config_path) >> pure warnings)))

abbrev pub spawned :
    TargetOs → StartAnswers → Bool → List String → String → String → Tried ℕ → Action (List String)
spawned os a runtime warnings config_path binary (error text) =
    stop_runtime runtime
    >> raise (engine ("failed to start bundled sing-box core at " +s (binary +s (": " +s text))))
spawned os a runtime warnings config_path binary (value pid) =
    does (spawns pid)
    >> (attach_job os a.job
        >> readied os a runtime warnings config_path pid
            (wait_for_desktop_readiness a.rounds a.last_try))

-- The end of `start_desktop` where it runs sing-box.
unfoldable pub run_core :
    TargetOs → StartAnswers → Bool → List String → String → Action (List String)
run_core os a runtime warnings config_path =
    or_drop (drop_runtime runtime) (lift (resolve_core_binary os a.host)) >>= λ binary.
    spawned os a runtime warnings config_path binary a.spawned

abbrev pub connected : StartAnswers → Bool → List String → Result (Unit {0}) → Action (List String)
connected a runtime warnings (err e) = stop_runtime runtime >> (does stops_profile >> raise e)
connected a runtime warnings (ok u) =
    modify (λ e. record e { macos_system_connected = true })
    >> (set_olcrtc runtime
        >> (start_stats_polling
            >> (log "macOS system VPN tunnel start requested" >> pure warnings)))

abbrev pub profile_started :
    StartAnswers → Bool → List String → Result (Unit {0}) → Action (List String)
profile_started a runtime warnings (err e) = stop_runtime runtime >> raise e
profile_started a runtime warnings (ok u) = connected a runtime warnings (
    wait_for_system_tunnel "macOS system VPN tunnel did not become connected within 20 seconds."
      none a.established)

-- The end of `start_desktop` on macOS.
unfoldable pub start_profile : StartAnswers → Bool → List String → Action (List String)
start_profile a runtime warnings =
    does starts_profile >> profile_started a runtime warnings a.profile_start

unfoldable pub start_desktop : TargetOs → StartAnswers → ConnectOptions → Action (List String)
start_desktop os a options = gets (is_running os) >>= λ running.
    if running
    then raise already_running
    else prepare os a options >>= λ prepared. start_olcrtc a options >>= λ runtime.
        if is_macos os
        then start_profile a runtime (prepared.0)
        else run_core os a runtime (prepared.0) (prepared.1)
