-- ===== src/Config/Routes.antt =====
-- src/config.rs: the routing rules.
pub mod Order
use tauri_vpn_plugin.Common.{
  ℕ, String, Bool, true, false, not, ◌&&◌, List, [], ◌∷◌, ◌++◌, map, if◌then◌else◌, filterb,
  is_empty as is_nil,
}
use tauri_vpn_plugin.Common.Text.{is_empty, trim, contains}
use tauri_vpn_plugin.Errors.{◌+s◌}
use tauri_vpn_plugin.Models.{VpnProfile, is_olc_rtc}
use tauri_vpn_plugin.Models.Json.{Value, string, num, arr, obj, strings}
use tauri_vpn_plugin.Platform.{TargetOs, is_mobile}
use tauri_vpn_plugin.Config.Dns.{is_ipv4_text}

abbrev pub local_network_cidrs : List String
local_network_cidrs =
    "0.0.0.0/8" ∷ "10.0.0.0/8" ∷ "100.64.0.0/10" ∷ "127.0.0.0/8" ∷ "169.254.0.0/16"
    ∷ "172.16.0.0/12" ∷ "192.168.0.0/16" ∷ "224.0.0.0/4" ∷ "255.255.255.255/32" ∷ []

abbrev pub as_host_cidr : String → String
as_host_cidr s = if contains b'/' s then s else s +s "/32"

unfoldable pub ipv4_only_host_cidrs : List String → List String
ipv4_only_host_cidrs values = map as_host_cidr (filterb is_ipv4_text (map trim values))

unfoldable pub ipv4_only_cidrs : List String → List String
ipv4_only_cidrs values = filterb is_ipv4_text (map trim values)

-- The action of routing to an outbound.
abbrev tcp_and_udp : Value
tcp_and_udp = strings ("tcp" ∷ "udp" ∷ [])

-- The rule for the DNS upstreams that mobile targets put first.
abbrev pub mobile_dns_rules : TargetOs → List String → List Value
mobile_dns_rules os upstreams =
    if is_mobile os && not (is_nil (ipv4_only_host_cidrs upstreams))
    then obj (
        ("ip_cidr", strings (ipv4_only_host_cidrs upstreams))
        ∷ ("network", tcp_and_udp)
        ∷ ("port", num 53)
        ∷ ("action", string "route")
        ∷ ("outbound", string "direct")
        ∷ [])
      ∷ []
    else []

abbrev pub dns_hijack_rules : List Value
dns_hijack_rules =
    obj (("protocol", string "dns") ∷ ("action", string "hijack-dns") ∷ [])
    ∷ obj (("network", string "udp") ∷ ("port", num 53) ∷ ("action", string "hijack-dns") ∷ [])
    ∷ []

abbrev pub direct_cidrs_rule : List String → Value
direct_cidrs_rule cidrs =
    obj
      (("ip_cidr", strings cidrs) ∷ ("action", string "route") ∷ ("outbound", string "direct") ∷ [])

abbrev pub bypass_cidrs : List String → List String
bypass_cidrs cidrs = filterb (λ c. not (is_empty c)) (map trim cidrs)

abbrev pub bypass_rules : List String → List Value
bypass_rules cidrs = if not (is_nil cidrs) then direct_cidrs_rule cidrs ∷ [] else []

abbrev pub reject_icmp_rule : Value
reject_icmp_rule =
    obj
      (("network", string "icmp") ∷ ("action", string "reject") ∷ ("method", string "default") ∷ [])

-- All TCP and UDP traffic goes to the proxy.
abbrev pub catch_all_rule : Value
catch_all_rule =
    obj (("network", tcp_and_udp) ∷ ("action", string "route") ∷ ("outbound", string "proxy") ∷ [])

abbrev pub olc_rtc_rules : List Value
olc_rtc_rules =
    obj (
      ("domain", strings ("stream.wb.ru" ∷ "wbstream01-el.wb.ru" ∷ []))
      ∷ ("action", string "route")
      ∷ ("outbound", string "direct")
      ∷ [])
    ∷ obj (
        ("network", tcp_and_udp)
        ∷ ("port", arr (num 3478 ∷ num 5349 ∷ []))
        ∷ ("action", string "route")
        ∷ ("outbound", string "direct")
        ∷ [])
    ∷ obj (
        ("network", string "tcp")
        ∷ ("port", num 7880)
        ∷ ("action", string "route")
        ∷ ("outbound", string "direct")
        ∷ [])
    ∷ obj (
        ("network", string "udp") ∷ ("action", string "reject") ∷ ("method", string "default") ∷ [])
    ∷ []

unfoldable pub route_rules_for_profile :
    TargetOs → VpnProfile → List String → List String → List Value
route_rules_for_profile os p route_bypass_cidrs dns_upstreams =
    mobile_dns_rules os dns_upstreams
    ++ (dns_hijack_rules
        ++ (direct_cidrs_rule local_network_cidrs
            ∷ (bypass_rules (bypass_cidrs route_bypass_cidrs)
                ++ (reject_icmp_rule
                    ∷ catch_all_rule
                    ∷ (if is_olc_rtc p.protocol then olc_rtc_rules else [])))))
