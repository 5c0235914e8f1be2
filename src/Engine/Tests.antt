-- ===== src/Engine/Tests.antt =====
-- Answers of a system at which the hypotheses of the theorems on src/engine.rs hold.
use tauri_vpn_plugin.Common.{
  ◌++◌, ℕ, nat_eq, ◌==◌, if◌then◌else◌, ◌+◌, true, false, [], ◌∷◌, none, some, is_some, ◌≡◌, ◌≢◌,
  ◌↔◌, refl,
}
use tauri_vpn_plugin.Common.Text.{
  chars, trim, len, all_chars, is_ascii_hexdigit, contains, contains_text, is_whitespace, lines,
  parse_digits, parse_u16, parse_u32, replace, starts_with, trim_end, trim_start, ◌<>◌,
}
use tauri_vpn_plugin.Errors.{
  engine, platform, not_running, Result, ok, err, to_option, ◌+s◌, display,
}
use tauri_vpn_plugin.Models.{ConnectionStatus, connecting, disconnecting}
use tauri_vpn_plugin.Platform.{linux, android, check_platform_requirements}
use tauri_vpn_plugin.Config.Generate.{generate_sing_box_config}
use tauri_vpn_plugin.Common.Handles.{run_calls}
use tauri_vpn_plugin.Engine.Job.{
  JobAnswers, WindowsJob, drop_job, kept, assign_child_to_windows_job,
  assign_child_to_windows_job-run_calls,
}
use tauri_vpn_plugin.Engine.Calls.{
  Machine, default_engine, value, error, ◌>>=◌, lift, does, gets, modify, pure, raise, or_drop,
  ignore,
}
use tauri_vpn_plugin.Engine.Core.{Host, candidates, first_existing, resolve_core_binary}
use tauri_vpn_plugin.Engine.Scripts.{
  shell_quote, applescript_string, read_word, outside, read_applescript_string,
  shell_quote-applescript_string,
}
use tauri_vpn_plugin.Engine.Readiness.{
  wait_for_system_tunnel, Round, readiness_loop, round_result, wait_for_desktop_readiness,
  wait_for_system_tunnel,
}
use tauri_vpn_plugin.Engine.Readiness.Ready.{ReadyWithin, wait_for_desktop_readiness_iff}
use tauri_vpn_plugin.Engine.System.{
  Output, Cleanup, write_runtime_config, check_config, ensure_linux_tun_permissions,
  cleanup_desktop_artifacts, run_macos_admin_script, stop_macos_privileged_sing_box,
}
use tauri_vpn_plugin.Engine.Fields.{
  set_olcrtc, start_stats_polling, attach_job, stop_stats_polling, take_job,
}
use tauri_vpn_plugin.Engine.Desktop.{
  StartAnswers, is_running, prepare, start_olcrtc, run_core, start_desktop, start_profile,
}
use tauri_vpn_plugin.Engine.Stop.{StopAnswers, stop_desktop}
use tauri_vpn_plugin.Engine.Balance.{
  total, child_starts, child_ends, runtime_starts, runtime_ends, one_if,
}
use tauri_vpn_plugin.Engine.Session.{
  Reach, fresh, started, stopped, session, Starts, Stops, Reach-IsBalanced, Reach-Refines,
}
use tauri_vpn_plugin.Engine.Leaks.{stop_timeout_leaks}
use tauri_vpn_plugin.Engine.Mobile.{
  wait_for_mobile_system_tunnel, MobileAnswers, start_mobile, stop_mobile,
}
use tauri_vpn_plugin.Engine.Mobile.Native.{start_mobile_fails}
use tauri_vpn_plugin.Commands.{VpnState, new_state, connect, disconnect}
use tauri_vpn_plugin.Commands.Sessions.{
  begins, connects, is_connected, Runs-connected_iff, Runs-disconnect_idle,
}
use tauri_vpn_plugin.Examples.{room, site, options_for}
use tauri_vpn_plugin.Protocols.{validate, protocol_errors, validation_errors}
use tauri_vpn_plugin.Olcrtc.Settings.{
  is_bad_key, local_socks_endpoint, from_profile, string_extra, u16_extra,
}
use tauri_vpn_plugin.Common.Dict.{get, insert, retain}
use tauri_vpn_plugin.Config.Outbound.{
  outbound_for_profile, base_outbound, add_tls, add_transport, hysteria2_obfs, required,
  strip_nulls, transport_object,
}
use tauri_vpn_plugin.Config.Dns.{
  decimal, dns_server_for_upstream, dns_servers_for_upstreams, dns_strategy,
  dns_upstreams_for_options, public_doh_server_name, servers_from,
}
use tauri_vpn_plugin.Config.Routes.{ipv4_only_cidrs, ipv4_only_host_cidrs, route_rules_for_profile}

abbrev host : Host
host = record {
  join = λ dir part. dir +s ("/" +s part);
  parent = λ path. none;
  exists = λ path. true;
  resource = λ path. none;
  env_core = some "/opt/sing-box";
  current_exe = none;
  current_dir = some "/home";
  data_dir = value "/data";
}

abbrev done : Output
done = record { success = true; exit_status = "0"; stdout = ""; stderr = "" }

abbrev clear : Cleanup
clear = record { ended = value done; listener = false; admin = none; listeners = none }

-- A round that finds sing-box ready.
abbrev ready : Round
ready = record {
  exited = value none;
  proxy_connects = true;
  clash_connects = false;
  exited_after = value none;
}

abbrev answers : StartAnswers
answers = record {
  host = host;
  token = true;
  to_string_pretty = λ v. value "{}";
  created = value tt;
  written = value tt;
  uid = some "0";
  capabilities = none;
  checked = some (value done);
  installed = ok tt;
  cleanup = clear;
  olcrtc_start = ok tt;
  profile_start = ok tt;
  established = [];
  spawned = value 7;
  job = ok tt;
  rounds = λ i. ready;
  last_try = value none;
  cleanup_after = clear;
}

abbrev late : StopAnswers
late = record {
  host = host;
  profile_stop = ok tt;
  admin = none;
  pid_text = λ pid. "7";
  killed = none;
  cleanup = clear;
}

abbrev idle : Machine
idle = record { engine = default_engine; effects = [] }

abbrev running : Machine
running = (start_desktop linux answers (options_for room) idle).1

running_child : running.engine.child ≡ some 7
unfolding start_desktop ◌>>=◌ lift does gets modify pure raise or_drop is_running prepare
    check_platform_requirements generate_sing_box_config validate trim is_bad_key len all_chars
    is_ascii_hexdigit get outbound_for_profile base_outbound local_socks_endpoint from_profile
    string_extra write_runtime_config insert retain contains contains_text is_whitespace lines
    parse_digits parse_u16 parse_u32 replace starts_with trim_end trim_start ◌<>◌ decimal
    dns_server_for_upstream dns_servers_for_upstreams dns_strategy dns_upstreams_for_options
    public_doh_server_name servers_from add_tls add_transport hysteria2_obfs required strip_nulls
    transport_object ipv4_only_cidrs ipv4_only_host_cidrs route_rules_for_profile ignore candidates
    first_existing resolve_core_binary run_core start_olcrtc start_profile attach_job set_olcrtc
    start_stats_polling stop_stats_polling take_job readiness_loop round_result
    wait_for_desktop_readiness wait_for_system_tunnel applescript_string shell_quote check_config
    cleanup_desktop_artifacts ensure_linux_tun_permissions run_macos_admin_script
    stop_macos_privileged_sing_box display u16_extra protocol_errors validation_errors
running_child = refl

after_start : Reach linux running
after_start = started answers (options_for room) fresh

Reach-Refines_example :
    Starts false
      (session running)
      (start_desktop linux answers (options_for site) running).0
      (session (start_desktop linux answers (options_for site) running).1)
    × Stops
        (session running)
        (stop_desktop linux late running).0
        (session (stop_desktop linux late running).1)
Reach-Refines_example =
    Reach-Refines linux refl (started answers (options_for room) fresh) answers (options_for site)
      late

Reach-IsBalanced_example :
    let w = (stop_desktop linux late running).1 in
    (total child_starts w.effects ≡ total child_ends w.effects + one_if (is_some w.engine.child))
    × (total runtime_starts w.effects ≡ total runtime_ends w.effects + one_if w.engine.olcrtc)
Reach-IsBalanced_example =
    Reach-IsBalanced (stopped late (started answers (options_for room) fresh))

stop_timeout_leaks_example :
    let w = (stop_desktop linux late running).1 in
    ((stop_desktop linux late running).0 ≡ err (engine "timed out while stopping sing-box"))
    × (w.engine.child ≡ none)
    × (w.engine.olcrtc ≡ running.engine.olcrtc)
    × ((stop_desktop linux late w).1.engine.olcrtc ≡ running.engine.olcrtc)
stop_timeout_leaks_example =
    stop_timeout_leaks linux refl running late late 7 after_start running_child refl

shell_quote-applescript_string_example :
    (read_word outside (chars (shell_quote "it's")) ≡ some (chars "it's"))
    × (read_applescript_string (chars (applescript_string "a \"b\" \\"))
        ≡ some (chars "a \"b\" \\"))
shell_quote-applescript_string_example = shell_quote-applescript_string "it's" "a \"b\" \\"

-- Ready at the third round.
abbrev rounds : ℕ → Round
rounds i = if i == 2 then ready else record ready { proxy_connects = false }

wait_for_desktop_readiness_iff_example :
    (wait_for_desktop_readiness rounds (value none) ≡ ok none) ↔ ReadyWithin 20 0 rounds
wait_for_desktop_readiness_iff_example = wait_for_desktop_readiness_iff rounds (value none)

test_ready : wait_for_desktop_readiness rounds (value none) ≡ ok none
unfolding wait_for_desktop_readiness readiness_loop round_result
test_ready = refl

-- The native service starts, but no tunnel comes up.
abbrev no_tunnel : MobileAnswers
no_tunnel = record {
  registered = true;
  token = true;
  to_string = λ v. value "{}";
  native_start = value tt;
  established = value false ∷ [];
}

start_mobile_fails_example :
    stop_mobile true (value tt) (start_mobile android no_tunnel (options_for site) idle).1
    ≡ (err not_running, (start_mobile android no_tunnel (options_for site) idle).1)
unfolding start_mobile wait_for_mobile_system_tunnel wait_for_system_tunnel ◌>>=◌ lift does gets
    modify pure raise or_drop is_running prepare check_platform_requirements
    generate_sing_box_config validate trim is_bad_key len all_chars is_ascii_hexdigit get
    outbound_for_profile base_outbound local_socks_endpoint from_profile string_extra
    write_runtime_config insert retain contains contains_text is_whitespace lines parse_digits
    parse_u16 parse_u32 replace starts_with trim_end trim_start ◌<>◌ decimal dns_server_for_upstream
    dns_servers_for_upstreams dns_strategy dns_upstreams_for_options public_doh_server_name
    servers_from add_tls add_transport hysteria2_obfs required strip_nulls transport_object
    ipv4_only_cidrs ipv4_only_host_cidrs route_rules_for_profile ignore candidates first_existing
    resolve_core_binary run_core start_olcrtc start_profile attach_job set_olcrtc
    start_stats_polling stop_stats_polling take_job readiness_loop round_result
    wait_for_desktop_readiness applescript_string shell_quote check_config cleanup_desktop_artifacts
    ensure_linux_tun_permissions run_macos_admin_script stop_macos_privileged_sing_box display
    u16_extra protocol_errors validation_errors
start_mobile_fails_example =
    start_mobile_fails android no_tunnel (options_for site) idle _
      (platform "mobile system VPN tunnel did not become connected within 20 seconds.") true
      (value tt) refl refl

abbrev after_connect : (Result ConnectionStatus) × VpnState × Machine
after_connect = connect (start_desktop linux answers) (options_for room) (new_state, idle)

Runs-connected_iff_example :
    (is_connected after_connect.1.status.phase ≡ is_some after_connect.2.engine.child)
    × (after_connect.1.status.phase ≢ connecting)
    × Reach linux after_connect.2
Runs-connected_iff_example =
    Runs-connected_iff linux refl (connects answers (options_for room) begins)

Runs-disconnect_idle_example :
    (to_option (disconnect (stop_desktop linux late) (new_state, idle)).0 ≡ none)
    × ((disconnect (stop_desktop linux late) (new_state, idle)).1.status.phase ≡ disconnecting)
Runs-disconnect_idle_example = Runs-disconnect_idle linux refl late begins refl

-- Windows makes the job, but does not let the child into it.
abbrev refused_job : JobAnswers
refused_job = record {
  child_id = some 7;
  created = value 40;
  limited = λ job. value tt;
  opened = λ pid. value 44;
  assigned = λ job process. error "access denied";
  is_invalid = λ handle. false;
}

assign_child_to_windows_job-run_calls_example :
    let r = assign_child_to_windows_job refused_job in
    (run_calls r.1 (3 ∷ []) ≡ some (kept r.0 (3 ∷ [])))
    × ((job : WindowsJob)
        → r.0 ≡ ok job
        → run_calls (r.1 ++ drop_job refused_job job) (3 ∷ []) ≡ some (3 ∷ []))
assign_child_to_windows_job-run_calls_example =
    assign_child_to_windows_job-run_calls refused_job (3 ∷ []) (λ job e. refl)
