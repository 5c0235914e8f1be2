-- ===== src/Config/Outbound.antt =====
-- src/config.rs: the outbound of a profile. An outbound is always an object, so it is its map.
pub mod Fields
use tauri_vpn_plugin.Common.{
  ℕ, String, Bool, true, false, not, List, [], ◌∷◌, map, Option, none, some, ◌==◌, string_eq,
  if◌then◌else◌, is_empty as is_nil,
}
use tauri_vpn_plugin.Common.Text.{is_empty}
use tauri_vpn_plugin.Common.Dict.{Dict, get, insert, retain}
use tauri_vpn_plugin.Errors.{
  VpnError, unsupported, invalid_profile, Result, ok, err, ◌>>=◌, ◌>>◌, ok_or, ensure, ◌+s◌,
}
use tauri_vpn_plugin.Models.{
  VpnProtocol, vless, vmess, trojan, shadowsocks, wire_guard, hysteria, hysteria2, tuic, tun, mixed,
  socks, http, olc_rtc, TransportKind, tcp, web_socket, grpc, http_upgrade, xhttp, quic, Transport,
  TlsOptions, RealityOptions, WireGuardOptions, VpnProfile, is_quic_based,
}
use tauri_vpn_plugin.Models.Json.{
  Value, null, bool, string, num, arr, obj, strings, nullable, opt_string, is_null,
}
use tauri_vpn_plugin.Olcrtc.Settings.{string_of, or_else, unwrap_or, local_socks_endpoint}
use tauri_vpn_plugin.Config.Routes.{ipv4_only_cidrs}

abbrev pub Outbound : Type 0
Outbound = Dict String Value

-- `value.filter(|value| !value.is_empty()).ok_or_else(…)`
unfoldable pub required : Option String → String → Result String
required none field = err (invalid_profile (field +s " is required"))
required (some s) field =
    if is_empty s then err (invalid_profile (field +s " is required")) else ok s

-- `extra.get(key).and_then(Value::as_str)`
abbrev pub extra_str : VpnProfile → String → Option String
extra_str p key = string_of (get key p.extra)

-- The fields that most outbounds begin with.
abbrev pub base : String → VpnProfile → Outbound → Outbound
base kind p rest =
    ("type", string kind)
    ∷ ("tag", string "proxy")
    ∷ ("server", string p.server)
    ∷ ("server_port", num p.port)
    ∷ rest

abbrev obfs_object : Option String → Option String → Option Value
obfs_object (some kind) (some password) =
    some (obj (("type", string kind) ∷ ("password", string password) ∷ []))
obfs_object _ _ = none

unfoldable pub hysteria2_obfs : VpnProfile → Option Value
hysteria2_obfs p =
    obfs_object (extra_str p "obfs")
      (string_of (or_else (get "obfs-password" p.extra) (get "obfsPassword" p.extra)))

unfoldable pub strip_nulls : Outbound → Outbound
strip_nulls m = retain (λ v. not (is_null v)) m

abbrev wire_guard_outbound : VpnProfile → WireGuardOptions → List String → Outbound
wire_guard_outbound p wg local_address = base "wireguard" p (
    ("private_key", string wg.private_key)
    ∷ ("peer_public_key", opt_string wg.peer_public_key)
    ∷ ("pre_shared_key", opt_string wg.pre_shared_key)
    ∷ ("local_address", strings local_address)
    ∷ ("reserved", nullable (λ bytes. arr (map num bytes)) wg.reserved)
    ∷ [])

-- The `match` on the protocol.
unfoldable pub base_outbound : VpnProtocol → VpnProfile → Result Outbound
base_outbound vless p = do
  uuid ← required p.auth.uuid "uuid"
  ok (
      base "vless" p
        (("uuid", string uuid) ∷ ("flow", string (unwrap_or (extra_str p "flow") "")) ∷ []))
base_outbound vmess p = do
  uuid ← required p.auth.uuid "uuid"
  ok (
      base "vmess" p (
        ("uuid", string uuid)
        ∷ ("security", string (unwrap_or (extra_str p "security") "auto"))
        ∷ []))
base_outbound trojan p = do
  password ← required p.auth.password "password"
  ok (base "trojan" p (("password", string password) ∷ []))
base_outbound shadowsocks p = do
  method ← required p.auth.method "method"
  password ← required p.auth.password "password"
  ok (base "shadowsocks" p (("method", string method) ∷ ("password", string password) ∷ []))
base_outbound wire_guard p = do
  wg ← ok_or p.wireguard (invalid_profile "wireGuard options are required")
  let local_address = ipv4_only_cidrs wg.local_address
  ensure (is_nil local_address)
      (invalid_profile "wireGuard local_address must contain an IPv4 address")
  ok (wire_guard_outbound p wg local_address)
base_outbound hysteria p = do
  password ← required p.auth.password "password"
  ok (
      strip_nulls (
        base "hysteria" p (
          ("auth_str", string password)
          ∷ ("up_mbps", num 10000)
          ∷ ("down_mbps", num 10000)
          ∷ ("obfs", opt_string (extra_str p "obfs"))
          ∷ [])))
base_outbound hysteria2 p = do
  password ← required p.auth.password "password"
  ok (
      strip_nulls (
        base "hysteria2" p
          (("password", string password) ∷ ("obfs", nullable (λ v. v) (hysteria2_obfs p)) ∷ [])))
base_outbound tuic p = do
  password ← required p.auth.password "password"
  ok (base "tuic" p (("uuid", opt_string p.auth.uuid) ∷ ("password", string password) ∷ []))
base_outbound socks p = ok (
    base "socks" p
      (("username", opt_string p.auth.username) ∷ ("password", opt_string p.auth.password) ∷ []))
base_outbound http p = ok (
    base "http" p
      (("username", opt_string p.auth.username) ∷ ("password", opt_string p.auth.password) ∷ []))
base_outbound olc_rtc p = do
  endpoint ← local_socks_endpoint p
  ok (
      ("type", string "socks")
      ∷ ("tag", string "proxy")
      ∷ ("server", string endpoint.0)
      ∷ ("server_port", num endpoint.1)
      ∷ [])
base_outbound tun p = err (unsupported "local inbound mode cannot be used as outbound")
base_outbound mixed p = err (unsupported "local inbound mode cannot be used as outbound")

abbrev pub supports_utls : VpnProtocol → Bool
supports_utls protocol = not (is_quic_based protocol)

abbrev fingerprint_object : String → Value
fingerprint_object fingerprint =
    obj (("enabled", bool true) ∷ ("fingerprint", string fingerprint) ∷ [])

abbrev tls_fingerprint : Option TlsOptions → Option String
tls_fingerprint none = none
tls_fingerprint (some tls) = tls.fingerprint

abbrev tls_server_name : Option TlsOptions → Option String
tls_server_name none = none
tls_server_name (some tls) = tls.server_name

abbrev pub utls_value : VpnProtocol → Option String → Value
utls_value protocol fingerprint =
    if supports_utls protocol then nullable fingerprint_object fingerprint else null

abbrev pub tls_object : VpnProtocol → TlsOptions → Value
tls_object protocol tls = obj (
    ("enabled", bool true)
    ∷ ("server_name", opt_string tls.server_name)
    ∷ ("alpn", strings tls.alpn)
    ∷ ("insecure", bool tls.insecure)
    ∷ ("utls", utls_value protocol tls.fingerprint)
    ∷ [])

abbrev pub reality_object : VpnProtocol → Option TlsOptions → RealityOptions → Value
reality_object protocol tls reality = obj (
    ("enabled", bool true)
    ∷ ("server_name", opt_string (tls_server_name tls))
    ∷ (
      "reality",
      obj (
          ("enabled", bool true)
          ∷ ("public_key", string reality.public_key)
          ∷ ("short_id", opt_string reality.short_id)
          ∷ []),
    )
    ∷ ("utls", utls_value protocol (tls_fingerprint tls))
    ∷ [])

abbrev add_plain_tls : VpnProtocol → Option TlsOptions → Outbound → Outbound
add_plain_tls protocol none m = m
add_plain_tls protocol (some tls) m =
    if tls.enabled then insert "tls" (tls_object protocol tls) m else m

abbrev add_reality : VpnProtocol → Option TlsOptions → Option RealityOptions → Outbound → Outbound
add_reality protocol tls none m = m
add_reality protocol tls (some reality) m = insert "tls" (reality_object protocol tls reality) m

unfoldable pub add_tls : VpnProfile → Outbound → Outbound
add_tls p m = add_reality p.protocol p.tls p.reality (add_plain_tls p.protocol p.tls m)

abbrev headers_object : Dict String String → Value
headers_object headers = obj (map (λ h. (h.0, string h.1)) headers)

unfoldable pub transport_object : TransportKind → Transport → Option Value
transport_object tcp t = none
transport_object web_socket t = some (
    obj (
      ("type", string "ws")
      ∷ ("path", opt_string t.path)
      ∷ ("headers", headers_object t.headers)
      ∷ []))
transport_object grpc t =
    some (obj (("type", string "grpc") ∷ ("service_name", opt_string t.service_name) ∷ []))
transport_object http_upgrade t = some (
    obj (
      ("type", string "httpupgrade")
      ∷ ("path", opt_string t.path)
      ∷ ("host", opt_string t.host)
      ∷ []))
transport_object xhttp t = some (
    obj (("type", string "xhttp") ∷ ("path", opt_string t.path) ∷ ("host", opt_string t.host) ∷ []))
transport_object quic t = some (obj (("type", string "quic") ∷ []))

abbrev put_transport : Option Value → Outbound → Outbound
put_transport none m = m
put_transport (some v) m = insert "transport" v m

unfoldable pub add_transport : VpnProfile → Outbound → Outbound
add_transport p m = put_transport (transport_object p.transport.kind p.transport) m

unfoldable pub outbound_for_profile : VpnProfile → Result Outbound
outbound_for_profile p = do m ← base_outbound p.protocol p; ok (add_transport p (add_tls p m))
