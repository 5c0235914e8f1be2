-- ===== src/Config/Generate.antt =====
-- src/config.rs, `generate_sing_box_config`.
pub mod Succeeds
use Prim.Native.String
use tauri_vpn_plugin.Common.{
  ℕ, String, Bool, true, false, not, ◌&&◌, ◌||◌, List, [], ◌∷◌, if◌then◌else◌,
}
use tauri_vpn_plugin.Errors.{VpnError, invalid_profile, Result, ok, err, ◌>>=◌, ◌>>◌, ensure, ◌+s◌}
use tauri_vpn_plugin.Models.{
  VpnProtocol, VpnProfile, ConnectOptions, RouteMode, global, rule, is_quic_based,
}
use tauri_vpn_plugin.Models.Json.{Value, bool, string, num, arr, obj, strings}
use tauri_vpn_plugin.Platform.{TargetOs, is_windows, is_macos, is_ios, is_android}
use tauri_vpn_plugin.Protocols.{validate}
use tauri_vpn_plugin.Config.Dns.{dns_strategy, dns_upstreams_for_options, dns_servers_for_upstreams}
use tauri_vpn_plugin.Config.Routes.{local_network_cidrs, route_rules_for_profile}
use tauri_vpn_plugin.Config.Outbound.{outbound_for_profile}

abbrev pub clash_api_addr : String
clash_api_addr = "127.0.0.1:19090"

-- `errors.join("; ")`
abbrev pub join : List String → String
join [] = ""
join (s ∷ []) = s
join (s ∷ t ∷ ts) = s +s ("; " +s join (t ∷ ts))

abbrev pub tun_address : TargetOs → List String
tun_address os =
    if is_ios os then "198.18.0.1/30" ∷ "fdfe:dcba:9876::1/126" ∷ [] else "198.18.0.1/30" ∷ []

abbrev pub tun_stack_for_profile : TargetOs → VpnProfile → String
tun_stack_for_profile os p =
    if is_android os || is_ios os || is_macos os
    then "gvisor"
    else if is_windows os && is_quic_based p.protocol
    then "gvisor"
    else "mixed"

abbrev pub tun_mtu_for_profile : VpnProfile → ℕ
tun_mtu_for_profile p = if is_quic_based p.protocol then 1500 else 1400

abbrev route_final : RouteMode → String
route_final global = "proxy"
route_final rule = "proxy"

abbrev pub tun_inbound : TargetOs → ConnectOptions → Value
tun_inbound os options = obj (
    ("type", string "tun")
    ∷ ("tag", string "tun-in")
    ∷ ("address", strings (tun_address os))
    ∷ ("mtu", num (tun_mtu_for_profile options.profile))
    ∷ ("route_exclude_address", strings local_network_cidrs)
    ∷ ("auto_route", bool true)
    ∷ ("strict_route", bool options.kill_switch)
    ∷ ("endpoint_independent_nat", bool true)
    ∷ ("udp_timeout", string "5m")
    ∷ ("stack", string (tun_stack_for_profile os options.profile))
    ∷ [])

abbrev pub mixed_inbound : Value
mixed_inbound = obj (
    ("type", string "mixed")
    ∷ ("tag", string "mixed-in")
    ∷ ("listen", string "127.0.0.1")
    ∷ ("listen_port", num 2080)
    ∷ [])

abbrev pub inbounds : TargetOs → ConnectOptions → List Value
inbounds os options =
    tun_inbound os options ∷ (if not (is_macos os) then mixed_inbound ∷ [] else [])

-- The document, from its computed parts.
abbrev pub document : String → List Value → List Value → Value → List Value → String → Value
document strategy servers ins outbound rules final = obj (
    ("log", obj (("level", string "info") ∷ ("timestamp", bool true) ∷ []))
    ∷ (
      "dns",
      obj (
          ("servers", arr servers)
          ∷ ("strategy", string strategy)
          ∷ ("final", string "dns-0")
          ∷ []),
    )
    ∷ ("inbounds", arr ins)
    ∷ (
      "outbounds",
      arr (
          outbound
          ∷ obj (("type", string "direct") ∷ ("tag", string "direct") ∷ [])
          ∷ obj (("type", string "block") ∷ ("tag", string "block") ∷ [])
          ∷ []),
    )
    ∷ (
      "route",
      obj (
          ("rules", arr rules)
          ∷ ("default_domain_resolver", string "dns-bootstrap")
          ∷ ("final", string final)
          ∷ ("auto_detect_interface", bool true)
          ∷ []),
    )
    ∷ (
      "experimental",
      obj (("clash_api", obj (("external_controller", string clash_api_addr) ∷ [])) ∷ []),
    )
    ∷ [])

unfoldable pub generate_sing_box_config : TargetOs → ConnectOptions → Result Value
generate_sing_box_config os options = do
  let validation = validate options.profile
  ensure (not validation.valid) (invalid_profile (join validation.errors))
  outbound ← outbound_for_profile options.profile
  let upstreams = dns_upstreams_for_options options
  ok (
      document (dns_strategy os) (dns_servers_for_upstreams upstreams) (inbounds os options)
        (obj outbound)
        (route_rules_for_profile os options.profile options.route_bypass_cidrs upstreams)
        (route_final options.route_mode))
