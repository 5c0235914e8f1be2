-- ===== src/Protocols.antt =====
-- src/protocols.rs: the list of protocols, and the validation of a profile.
pub mod Usable
use tauri_vpn_plugin.Common.{
  ℕ, String, Bool, true, false, not, ◌&&◌, ◌||◌, List, [], ◌∷◌, ◌++◌, map, Option, none, some, ◌==◌,
  nat_eq, string_eq, if◌then◌else◌, is_some, is_empty as is_nil,
}
use tauri_vpn_plugin.Common.Text.{is_empty, is_blank, len, all_chars, is_ascii_hexdigit}
use tauri_vpn_plugin.Common.Dict.{get}
use tauri_vpn_plugin.Models.{
  VpnProtocol, vless, vmess, trojan, shadowsocks, wire_guard, hysteria, hysteria2, tuic, tun, mixed,
  socks, http, olc_rtc, VpnProfile, ValidationResult, ProtocolInfo, is_olc_rtc, is_vless, is_xhttp,
}
use tauri_vpn_plugin.Platform.{push_if, supported_platforms}
use tauri_vpn_plugin.Olcrtc.Settings.{string_of, unwrap_or, is_bad_key}

abbrev info : VpnProtocol → String → List String → ProtocolInfo
info protocol name schemes = record {
  protocol = protocol;
  display_name = name;
  supported_on = supported_platforms;
  uri_schemes = schemes;
}

unfoldable pub list_protocols : List ProtocolInfo
list_protocols =
    info vless "VLESS" ("vless" ∷ [])
    ∷ info vmess "VMess" ("vmess" ∷ [])
    ∷ info trojan "Trojan" ("trojan" ∷ [])
    ∷ info shadowsocks "Shadowsocks" ("ss" ∷ [])
    ∷ info wire_guard "WireGuard" ("wireguard" ∷ "wg" ∷ [])
    ∷ info hysteria "Hysteria" ("hysteria" ∷ [])
    ∷ info hysteria2 "Hysteria2" ("hysteria2" ∷ "hy2" ∷ [])
    ∷ info tuic "TUIC" ("tuic" ∷ [])
    ∷ info tun "TUN" []
    ∷ info mixed "Mixed" []
    ∷ info socks "SOCKS" ("socks" ∷ "socks5" ∷ [])
    ∷ info http "HTTP" ("http" ∷ "https" ∷ [])
    ∷ info olc_rtc "OLC RTC" ("olcrtc" ∷ "olcrtc+wbstream" ∷ "wbstream" ∷ [])
    ∷ []

-- `value.as_deref().unwrap_or_default().is_empty()`
abbrev pub is_missing : Option String → Bool
is_missing value = is_empty (unwrap_or value "")

abbrev bad_password : Option String → Bool
bad_password none = false
bad_password (some key) = is_bad_key key

-- The errors of the `match` on the protocol.
unfoldable pub protocol_errors : VpnProtocol → VpnProfile → List String
protocol_errors vless p = push_if (is_missing p.auth.uuid) "uuid is required"
protocol_errors vmess p = push_if (is_missing p.auth.uuid) "uuid is required"
protocol_errors trojan p = push_if (is_missing p.auth.password) "password is required"
protocol_errors hysteria p = push_if (is_missing p.auth.password) "password is required"
protocol_errors hysteria2 p = push_if (is_missing p.auth.password) "password is required"
protocol_errors tuic p = push_if (is_missing p.auth.password) "password is required"
protocol_errors shadowsocks p =
    push_if (is_missing p.auth.password) "password is required"
    ++ push_if (is_missing p.auth.method) "cipher method is required"
protocol_errors wire_guard p = push_if (not (is_some p.wireguard)) "wireGuard options are required"
protocol_errors tun p = "local inbound modes cannot be used as remote server protocols" ∷ []
protocol_errors mixed p = "local inbound modes cannot be used as remote server protocols" ∷ []
protocol_errors socks p = []
protocol_errors http p = []
protocol_errors olc_rtc p =
    push_if (is_missing p.auth.password) "OLC RTC shared key is required"
    ++ (push_if (bad_password p.auth.password) "OLC RTC shared key must be a 32-byte hex string"
        ++ push_if (not (unwrap_or (string_of (get "provider" p.extra)) "wb_stream" == "wb_stream"))
            "only OLC RTC wb_stream provider is supported")

-- `matches!(protocol, VpnProtocol::Socks | VpnProtocol::Http)`
abbrev pub is_proxy : VpnProtocol → Bool
is_proxy socks = true
is_proxy http = true
is_proxy _ = false

unfoldable pub validation_errors : VpnProfile → List String
unfolding protocol_errors
validation_errors p =
    push_if (is_blank p.name) "name is required"
    ++ (push_if (is_blank p.server) "server is required"
        ++ (push_if (p.port == 0) "port must be greater than zero"
            ++ (protocol_errors p.protocol p
                ++ push_if (is_some p.reality && not (is_vless p.protocol))
                    "REALITY options are only supported for VLESS")))

abbrev pub validation_warnings : VpnProfile → List String
validation_warnings p =
    push_if (is_proxy p.protocol)
      "SOCKS/HTTP are proxy protocols and may not provide full VPN semantics"
    ++ (push_if (is_xhttp p.transport.kind)
          "XHTTP compatibility depends on the bundled sing-box version"
        ++ push_if (is_olc_rtc p.protocol)
            "OLC RTC starts a local SOCKS5 client and routes sing-box through stream.wb.ru")

unfoldable pub validate : VpnProfile → ValidationResult
unfolding validation_errors
validate p = record {
  valid = is_nil (validation_errors p);
  errors = validation_errors p;
  warnings = validation_warnings p;
}
