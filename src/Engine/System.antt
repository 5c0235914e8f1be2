-- ===== src/Engine/System.antt =====
-- src/engine.rs: the calls into the system that `start` and `stop` make. What the system answers is an
-- argument; a path is its text, and what `std::path` does with one is a parameter.
use tauri_vpn_plugin.Common.{
  ℕ, String, Bool, false, not, List, [], ◌∷◌, Option, none, some, ◌==◌, nat_eq, map, filterb,
  if◌then◌else◌,
}
use tauri_vpn_plugin.Common.Text.{is_empty, trim, parse_u32, contains_text, lines}
use tauri_vpn_plugin.Errors.{engine, platform, from_io_error, Result, ok, err, ◌+s◌}
use tauri_vpn_plugin.Platform.{TargetOs, windows, macos, linux, android, ios, other_os, is_linux}
use tauri_vpn_plugin.Engine.Calls.{
  Action, writes_config, checks_config, runs_cleanup, runs_admin, kills_listener, lift, does, ◌>>=◌,
  ◌>>◌, pure, when, Tried, value, error, map_err, in_time,
}
use tauri_vpn_plugin.Engine.Scripts.{stop_script, admin_command}

-- What a command prints and whether it succeeds; `exit_status` is the text of its exit status.
pub record Output : Type 0 where
  pub success : Bool
  pub exit_status : String
  pub stdout : String
  pub stderr : String

-- `app_local_data_dir()`, then `dir.join(…)`.
abbrev pub runtime_config_path : (String → String → String) → Tried String → Result String
runtime_config_path join (error text) = err (platform ("app data directory unavailable: " +s text))
runtime_config_path join (value dir) = ok (join dir "sing-box.generated.json")

-- A call of `std::fs` under `?`.
abbrev pub io_call : Tried (Unit {0}) → Action (Unit {0})
io_call t = lift (map_err from_io_error t)

-- The path has a parent, the directory it was joined onto, so the directory is always made.
unfoldable pub write_runtime_config :
    Result String → Tried (Unit {0}) → Tried (Unit {0}) → String → Action String
write_runtime_config path created written config_text = lift path >>= λ config_path.
    io_call created >> (io_call written >> (does (writes_config config_text) >> pure config_path))

abbrev checked_output : Output → Result (Unit {0})
checked_output o =
    if o.success
    then ok tt
    else err (engine ("sing-box config check failed: " +s (trim o.stdout +s trim o.stderr)))

unfoldable pub check_config : String → Option (Tried Output) → Action (Unit {0})
check_config binary answer =
    does checks_config
    >> (lift (in_time (engine "sing-box config check timed out") answer) >>= λ output.
        lift (
          map_err
            (λ text.
              engine ("failed to run sing-box config check at " +s (binary +s (": " +s text))))
            output)
        >>= λ o. lift (checked_output o))

abbrev parsed_uid : Option String → Option ℕ
parsed_uid none = none
parsed_uid (some text) = parse_u32 (trim text)

abbrev is_root : Option ℕ → Bool
is_root none = false
is_root (some uid) = uid == 0

abbrev or_empty : Option String → String
or_empty none = ""
or_empty (some text) = text

-- By what `id -u` and `getcap` print, none where they do not run or print no text.
unfoldable pub ensure_linux_tun_permissions :
    TargetOs → Option String → Option String → String → Result (Unit {0})
ensure_linux_tun_permissions os uid capabilities binary =
    if not (is_linux os)
    then ok tt
    else if is_root (parsed_uid uid)
    then ok tt
    else if contains_text "cap_net_admin" (or_empty capabilities)
    then ok tt
    else err (
        platform (
          "Linux TUN mode requires CAP_NET_ADMIN on sing-box. Run: sudo setcap cap_net_admin,cap_net_raw+ep "
          +s binary))

-- What the cleanup sees: on Windows the end of the script, on macOS whether a sing-box listens and
-- what the script of the administrator answers (at the exit of the application, how it ended), on Linux
-- what `lsof` prints.
pub record Cleanup : Type 0 where
  pub ended : Tried Output
  pub listener : Bool
  pub admin : Option (Tried Output)
  pub listeners : Option String

unfoldable pub run_macos_admin_script : Option (Tried Output) → String → Action String
run_macos_admin_script answer script =
    does (runs_admin (admin_command script))
    >> (lift (in_time (engine "administrator approval timed out") answer) >>= λ output.
        lift
          (map_err (λ text. engine ("failed to request administrator approval: " +s text)) output)
        >>= λ o. lift (
            if o.success
            then ok o.stdout
            else err (engine ("administrator command failed: " +s trim o.stderr))))

unfoldable pub stop_macos_privileged_sing_box :
    Option (Tried Output) → Option String → String → Action (Unit {0})
stop_macos_privileged_sing_box answer pid config_path =
    run_macos_admin_script answer (stop_script pid config_path) >>= λ output. pure tt

-- The process ids that `lsof` prints.
abbrev pub listener_pids : String → List String
listener_pids stdout = filterb (λ pid. not (is_empty pid)) (map trim (lines stdout))

abbrev pub kill_each : List String → Action (Unit {0})
kill_each [] = pure tt
kill_each (pid ∷ pids) = does (kills_listener pid) >> kill_each pids

abbrev pub kill_listeners : Option String → Action (Unit {0})
kill_listeners none = pure tt
kill_listeners (some stdout) = kill_each (listener_pids stdout)

abbrev cleaned : Output → Result (Unit {0})
cleaned o =
    if o.success
    then ok tt
    else err (engine ("Windows TUN cleanup exited with status " +s o.exit_status))

-- The path that the script of Windows gets is made canonical first.
unfoldable pub cleanup_desktop_artifacts : TargetOs → Cleanup → String → Action (Unit {0})
unfolding stop_macos_privileged_sing_box
cleanup_desktop_artifacts windows c config_path =
    does (runs_cleanup config_path)
    >> (lift (
          map_err (λ text. engine ("failed to clean up stale Windows TUN state: " +s text)) c.ended)
        >>= λ o. lift (cleaned o))
cleanup_desktop_artifacts macos c config_path =
    when c.listener (stop_macos_privileged_sing_box c.admin none config_path)
cleanup_desktop_artifacts linux c config_path = kill_listeners c.listeners
cleanup_desktop_artifacts android c config_path = pure tt
cleanup_desktop_artifacts ios c config_path = pure tt
cleanup_desktop_artifacts other_os c config_path = pure tt
