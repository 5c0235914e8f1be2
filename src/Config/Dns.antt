-- ===== src/Config/Dns.antt =====
-- src/config.rs: the DNS servers of the configuration.
pub mod Upstreams
use tauri_vpn_plugin.Common.{
  ℕ, zero, suc, ◌+◌, ◌/◌, ◌%◌, String, Bool, true, false, not, ◌&&◌, ◌||◌, List, [], ◌∷◌, ◌++◌, map,
  Option, none, some, ltb, ◌==◌, nat_eq, string_eq, if◌then◌else◌, first, filterb,
}
use tauri_vpn_plugin.Common.Text.{is_empty, trim, contains}
use tauri_vpn_plugin.Errors.{◌+s◌}
use tauri_vpn_plugin.Models.{ConnectOptions}
use tauri_vpn_plugin.Models.Json.{Value, bool, string, num, obj}
use tauri_vpn_plugin.Platform.{TargetOs, is_ios}
use tauri_vpn_plugin.Olcrtc.Settings.{unwrap_or}

-- Decimal digits, as `format!` writes a number.
abbrev digit_text : ℕ → String
digit_text d =
    if d == 0
    then "0"
    else if d == 1
    then "1"
    else if d == 2
    then "2"
    else if d == 3
    then "3"
    else if d == 4
    then "4"
    else if d == 5
    then "5"
    else if d == 6
    then "6"
    else if d == 7
    then "7"
    else if d == 8
    then "8"
    else "9"

decimal_fuel : ℕ → ℕ → String
decimal_fuel zero n = digit_text (n % 10)
decimal_fuel (suc fuel) n =
    let upper = decimal_fuel fuel (n / 10) in
    if ltb n 10 then digit_text n else upper +s digit_text (n % 10)

unfoldable pub decimal : ℕ → String
unfolding decimal_fuel
decimal n = decimal_fuel n n

unfoldable pub dns_strategy : TargetOs → String
dns_strategy os = if is_ios os then "prefer_ipv4" else "ipv4_only"

-- `!value.is_empty() && !value.contains(':')`
abbrev pub is_ipv4_text : String → Bool
is_ipv4_text s = not (is_empty s) && not (contains b':' s)

abbrev pub or_default : List String → List String
or_default [] = "1.1.1.1" ∷ "8.8.8.8" ∷ []
or_default (s ∷ ss) = s ∷ ss

unfoldable pub dns_upstreams_for_options : ConnectOptions → List String
dns_upstreams_for_options options = or_default (filterb is_ipv4_text (map trim options.dns.servers))

unfoldable pub public_doh_server_name : String → Option String
public_doh_server_name server =
    if server == "1.1.1.1" || server == "1.0.0.1"
    then some "cloudflare-dns.com"
    else if server == "8.8.8.8" || server == "8.8.4.4"
    then some "dns.google"
    else if server == "9.9.9.9" || server == "149.112.112.112"
    then some "dns.quad9.net"
    else none

abbrev pub dns_tag : ℕ → String
dns_tag index = "dns-" +s decimal index

unfoldable pub dns_server_for_upstream : ℕ → String → Value
dns_server_for_upstream index server = elim (public_doh_server_name server) [
  | some server_name ↦ obj (
      ("type", string "https")
      ∷ ("tag", string (dns_tag index))
      ∷ ("server", string server)
      ∷ ("server_port", num 443)
      ∷ ("path", string "/dns-query")
      ∷ ("detour", string "proxy")
      ∷ ("connect_timeout", string "5s")
      ∷ ("tls", obj (("enabled", bool true) ∷ ("server_name", string server_name) ∷ []))
      ∷ [])
  | none ↦ obj (
      ("type", string "tcp")
      ∷ ("tag", string (dns_tag index))
      ∷ ("server", string server)
      ∷ ("server_port", num 53)
      ∷ ("detour", string "proxy")
      ∷ ("connect_timeout", string "5s")
      ∷ [])
]

-- `enumerate().map(…)`, from an index on.
unfoldable pub servers_from : ℕ → List String → List Value
servers_from index [] = []
servers_from index (s ∷ ss) = dns_server_for_upstream index s ∷ servers_from (suc index) ss

abbrev pub bootstrap_server : String → Value
bootstrap_server server = obj (
    ("type", string "udp")
    ∷ ("tag", string "dns-bootstrap")
    ∷ ("server", string server)
    ∷ ("server_port", num 53)
    ∷ [])

unfoldable pub dns_servers_for_upstreams : List String → List Value
dns_servers_for_upstreams upstreams =
    bootstrap_server (unwrap_or (first upstreams) "1.1.1.1") ∷ servers_from 0 upstreams
