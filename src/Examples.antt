-- ===== src/Examples.antt =====
-- Profiles and sessions at which the hypotheses of the theorems on src/protocols.rs, src/config.rs,
-- src/olcrtc/mod.rs and src/commands.rs hold.
use tauri_vpn_plugin.Common.{
  ℕ, ◌+◌, ◌≤◌, ◌≡◌, ◌↔◌, refl, String, Bool, List, [], ◌∷◌, true, false, Option, none, some, nat_eq,
  string_eq, All,
}
use tauri_vpn_plugin.Common.Dict.{get, insert}
use tauri_vpn_plugin.Common.Text.{len, all_chars, is_ascii_hexdigit, trim}
use tauri_vpn_plugin.Errors.{engine, Result, ok, err}
use tauri_vpn_plugin.Models.{
  VpnProfile, ConnectOptions, vless, olc_rtc, web_socket, rule, default_dns_options,
  default_transport, Uuid, ConnectionStatus, connecting, connected, disconnected,
  default_connection_status,
}
use tauri_vpn_plugin.Models.Json.{Value, string, bool, num, obj, arr}
use tauri_vpn_plugin.Platform.{linux, android, ios, macos}
use tauri_vpn_plugin.Protocols.{validate}
use tauri_vpn_plugin.Protocols.Usable.{IsUsable, validate_iff}
use tauri_vpn_plugin.Olcrtc.Settings.{
  OlcRtcConfig, from_profile, default_provider, string_extra, u16_extra, is_bad_key,
}
use tauri_vpn_plugin.Olcrtc.Client.Runtime.{
  RuntimeAnswers, start_platform, start_platform-from_profile,
}
use tauri_vpn_plugin.Engine.Calls.{value}
use tauri_vpn_plugin.Config.Dns.{
  is_ipv4_text, dns_upstreams_for_options, dns_servers_for_upstreams, bootstrap_server,
}
use tauri_vpn_plugin.Config.Dns.Upstreams.{member, AreTunnelled, dns_servers-AreTunnelled}
use tauri_vpn_plugin.Config.Routes.{catch_all_rule, route_rules_for_profile}
use tauri_vpn_plugin.Config.Routes.Order.{
  first_match, or_next, rules_before, route_rules-first_match,
}
use tauri_vpn_plugin.Config.Outbound.{
  Outbound, outbound_for_profile, base_outbound, required, add_tls, add_transport, transport_object,
}
use tauri_vpn_plugin.Config.Outbound.Fields.{IsOutbound, outbound_for_profile-IsOutbound}
use tauri_vpn_plugin.Config.Generate.{generate_sing_box_config}
use tauri_vpn_plugin.Config.Generate.Succeeds.{is_ok, CanConnect, generate_iff}
use tauri_vpn_plugin.Commands.{VpnState, new_state, begin_connect, status}
use tauri_vpn_plugin.Commands.Lifecycle.{
  Reach, starts, steps, connect_admitted, last_status, connecting_count, Reach-single_flight,
}
use tauri_vpn_plugin.Commands.Outcomes.{status_readmits}

abbrev key_hex : String
key_hex = "00000000000000000000000000000000000000000000000000000000000000ff"

abbrev pub room : VpnProfile
room = record {
  id = 1;
  name = "room";
  protocol = olc_rtc;
  server = "room-1";
  port = 443;
  auth = record { uuid = none; username = none; password = some key_hex; method = none };
  transport = default_transport;
  tls = none;
  reality = none;
  wireguard = none;
  extra = [];
}

abbrev pub site : VpnProfile
site = record {
  id = 2;
  name = "site";
  protocol = vless;
  server = "vpn.example";
  port = 443;
  auth = record { uuid = some "4f7b"; username = none; password = none; method = none };
  transport = record default_transport { kind = web_socket; path = some "/ws" };
  tls = some (record {
    enabled = true;
    server_name = some "vpn.example";
    alpn = [];
    insecure = false;
    fingerprint = some "chrome";
  });
  reality = none;
  wireguard = none;
  extra = [];
}

abbrev pub options_for : VpnProfile → ConnectOptions
options_for profile = record {
  profile = profile;
  route_mode = rule;
  route_bypass_cidrs = [];
  dns = default_dns_options;
  kill_switch = false;
}

abbrev room_config : OlcRtcConfig
room_config = record {
  provider = default_provider;
  room_id = "room-1";
  key_hex = key_hex;
  local_host = "127.0.0.1";
  local_port = 10808;
  display_name = "room";
}

-- A system that takes the address, and a room that is not joined.
abbrev unjoined : RuntimeAnswers
unjoined = record {
  address = value tt;
  bound = value tt;
  joined = err (engine "WB Stream LiveKit connect failed: timeout");
  reset = ok tt;
}

start_platform-from_profile_example :
    start_platform linux unjoined room_config
    ≡ some (err (engine "WB Stream LiveKit connect failed: timeout"))
unfolding from_profile string_extra u16_extra get is_bad_key trim len all_chars is_ascii_hexdigit
start_platform-from_profile_example =
    start_platform-from_profile linux unjoined room room_config refl refl refl refl

validate_iff_example : ((validate site).valid ≡ true) ↔ IsUsable site
validate_iff_example = validate_iff site

generate_iff_example :
    (is_ok (generate_sing_box_config linux (options_for site)) ≡ true)
    ↔ (IsUsable site × CanConnect vless site)
generate_iff_example = generate_iff linux (options_for site)

abbrev site_outbound : Outbound
site_outbound =
    ("type", string "vless")
    ∷ ("tag", string "proxy")
    ∷ ("server", string "vpn.example")
    ∷ ("server_port", num 443)
    ∷ ("uuid", string "4f7b")
    ∷ ("flow", string "")
    ∷ (
      "tls",
      obj (
          ("enabled", bool true)
          ∷ ("server_name", string "vpn.example")
          ∷ ("alpn", arr [])
          ∷ ("insecure", bool false)
          ∷ ("utls", obj (("enabled", bool true) ∷ ("fingerprint", string "chrome") ∷ []))
          ∷ []),
    )
    ∷ ("transport", obj (("type", string "ws") ∷ ("path", string "/ws") ∷ ("headers", obj []) ∷ []))
    ∷ []

outbound_for_profile-IsOutbound_example : IsOutbound site site_outbound
unfolding outbound_for_profile base_outbound required get insert add_tls add_transport
    transport_object
outbound_for_profile-IsOutbound_example = outbound_for_profile-IsOutbound site site_outbound refl

dns_servers-AreTunnelled_example :
    let upstreams = dns_upstreams_for_options (options_for site) in
    All (λ s. is_ipv4_text s ≡ true) upstreams
    × ((s : String) × (ss : List String) × (vs : List Value) × (upstreams ≡ s ∷ ss)
        × (dns_servers_for_upstreams upstreams ≡ bootstrap_server s ∷ vs)
        × (member "detour" (bootstrap_server s) ≡ none)
        × AreTunnelled 0 (s ∷ ss) vs)
dns_servers-AreTunnelled_example = dns_servers-AreTunnelled (options_for site)

-- A connection that every rule matches.
abbrev to_any : Value → Bool
to_any v = true

route_rules-first_match_example :
    first_match to_any (route_rules_for_profile linux room [] [])
    ≡ or_next (first_match to_any (rules_before linux [] [])) (some catch_all_rule)
route_rules-first_match_example = route_rules-first_match linux room [] [] to_any refl

-- An engine that counts its starts, and one that does not stop.
abbrev start : ConnectOptions → ℕ → Result (List String) × ℕ
start options w = (ok [], w + 1)

abbrev stuck : ℕ → Result (Unit {0}) × ℕ
stuck w = (err (engine "failed to stop"), w)

abbrev session : VpnState
session = record { status = record default_connection_status { phase = connected }; emitted = [] }

abbrev starting_status : ConnectionStatus
starting_status = record default_connection_status {
  phase = connecting;
  active_profile_id = some 2;
  message = some "Connecting";
}

abbrev starting : VpnState
starting = record { status = starting_status; emitted = ("vpn:status", starting_status) ∷ [] }

abbrev no_uuid : String → Option Uuid
no_uuid text = none

status_readmits_example :
    let reads = λ (t : VpnState).
      (t.status.phase ≡ disconnected) × ((begin_connect (options_for room) t).0 ≡ ok tt) in
    reads (status android no_uuid (ok (false, none)) (ok true) starting).1
    × reads (status ios no_uuid (ok (false, none)) (ok true) starting).1
    × reads (status macos no_uuid (ok (true, none)) (ok false) starting).1
unfolding begin_connect
status_readmits_example =
    status_readmits no_uuid none (ok (true, none)) (ok true) (options_for site) (options_for room)
      new_state starting refl

starting-Reach : Reach linux (record { state = starting; starting = 1; resets = 0 })
unfolding begin_connect
starting-Reach = steps starts (connect_admitted (options_for site) refl)

Reach-single_flight_example :
    (last_status default_connection_status starting.emitted ≡ starting_status)
    × (1 ≤ 0 + connecting_count connecting)
    × (1 ≤ 0 + 1)
Reach-single_flight_example = Reach-single_flight linux refl refl starting-Reach
