-- ===== src/Engine/Exit.antt =====
-- src/engine.rs, `cleanup_desktop_artifacts_blocking` and the end of the engine, and src/lib.rs, the event
-- handler that cleans up when the application exits.
use tauri_vpn_plugin.Common.{String, Bool, true, false, if◌then◌else◌}
use tauri_vpn_plugin.Common.Text.{◌<>◌}
use tauri_vpn_plugin.Errors.{engine, Result, ok, err, ◌+s◌}
use tauri_vpn_plugin.Platform.{TargetOs, windows, macos, linux, android, ios, other_os}
use tauri_vpn_plugin.Engine.Calls.{
  Action, runs_admin, does, lift, pure, ignore, when, ◌>>=◌, ◌>>◌, Tried, map_err,
}
use tauri_vpn_plugin.Engine.Fields.{stop_stats_polling}
use tauri_vpn_plugin.Engine.Scripts.{shell_quote, admin_command}
use tauri_vpn_plugin.Engine.System.{Output, Cleanup, cleanup_desktop_artifacts}

abbrev pub exit_script : String → String
exit_script config_path =
    "pkill -f "
    <> (shell_quote ("sing-box.*" <> config_path)
        <> " 2>/dev/null || true; lsof -tiTCP:2080 -sTCP:LISTEN -a -c sing-box | xargs kill 2>/dev/null || true")

abbrev script_ended : Output → Result (Unit {0})
script_ended o =
    if o.success
    then ok tt
    else err (engine ("macOS administrator cleanup exited with status " +s o.exit_status))

-- Of the administrator, without the timeout of the other scripts.
abbrev pub clean_as_administrator : Tried Output → String → Action (Unit {0})
clean_as_administrator ended config_path =
    does (runs_admin (admin_command (exit_script config_path)))
    >> (lift (
          map_err (λ text. engine ("failed to request administrator cleanup on macOS: " +s text))
            ended)
        >>= λ o. lift (script_ended o))

-- Elsewhere than on macOS this is what `cleanup_desktop_artifacts` runs before it sleeps.
unfoldable pub cleanup_desktop_artifacts_blocking : TargetOs → Cleanup → String → Action (Unit {0})
unfolding cleanup_desktop_artifacts
cleanup_desktop_artifacts_blocking macos c config_path =
    when c.listener (clean_as_administrator c.ended config_path)
cleanup_desktop_artifacts_blocking windows c config_path =
    cleanup_desktop_artifacts windows c config_path
cleanup_desktop_artifacts_blocking linux c config_path =
    cleanup_desktop_artifacts linux c config_path
cleanup_desktop_artifacts_blocking android c config_path = pure tt
cleanup_desktop_artifacts_blocking ios c config_path = pure tt
cleanup_desktop_artifacts_blocking other_os c config_path = pure tt

-- `impl Drop for SingBoxEngine`: the task that polls is aborted.
unfoldable pub drop_engine : Action (Unit {0})
drop_engine = stop_stats_polling

pub data RunEvent : Type 0 where
  exit_requested exit other_event : RunEvent

abbrev pub is_exit : RunEvent → Bool
is_exit exit_requested = true
is_exit exit = true
is_exit other_event = false

abbrev clean_up_at : TargetOs → Cleanup → Result String → Action (Unit {0})
clean_up_at os c (err e) = pure tt
clean_up_at os c (ok config_path) = ignore (cleanup_desktop_artifacts_blocking os c config_path)

-- The handler of `on_event`, by the path that `runtime_config_path` gives.
unfoldable pub on_event : TargetOs → Cleanup → Result String → RunEvent → Action (Unit {0})
unfolding cleanup_desktop_artifacts_blocking
on_event os c path event = when (is_exit event) (clean_up_at os c path)
