-- ===== src/Import/Links.antt =====
-- src/import.rs: the links. The number that `Uuid::new_v4` gives is an argument.
use tauri_vpn_plugin.Common.{
  ℕ, ◌%◌, ◌^◌, String, false, ◌||◌, ◌&&◌, not, [], ◌∷◌, Option, none, some, ◌==◌, string_eq,
  if◌then◌else◌,
}
use tauri_vpn_plugin.Common.Dict.{Dict, get}
use tauri_vpn_plugin.Common.Text.{
  is_empty, is_blank, trim, contains, parse_u16, starts_with, split_once, trim_start_matches,
}
use tauri_vpn_plugin.Errors.{
  import_failed, from_parse_error, Result, ok, err, ok_or, ensure, ◌+s◌, ◌>>=◌, ◌>>◌,
}
use tauri_vpn_plugin.Models.{
  Uuid, AuthOptions, VpnProtocol, vless, vmess, trojan, shadowsocks, wire_guard, hysteria,
  hysteria2, tuic, tun, mixed, socks, http, olc_rtc, is_olc_rtc, default_transport, VpnProfile,
  ImportedServer, TransportKind, tcp, web_socket, grpc, http_upgrade, xhttp, quic,
}
use tauri_vpn_plugin.Models.Json.{Value, string, object, null, as_str, as_u64, fields}
use tauri_vpn_plugin.Olcrtc.Settings.{or_else, unwrap_or, non_blank}
use tauri_vpn_plugin.Engine.Calls.{map_err}
use tauri_vpn_plugin.Import.Query.{
  Url, Crates, query_map, percent_decode, fragment_name, decode_base64, parse_transport, parse_tls,
  parse_reality, is_one,
}

-- The protocol of a URL's scheme.
unfoldable pub protocol_of : String → Result VpnProtocol
protocol_of scheme =
    if scheme == "vless"
    then ok vless
    else if scheme == "trojan"
    then ok trojan
    else if scheme == "wireguard" || scheme == "wg"
    then ok wire_guard
    else if scheme == "hysteria"
    then ok hysteria
    else if scheme == "hysteria2" || scheme == "hy2"
    then ok hysteria2
    else if scheme == "tuic"
    then ok tuic
    else if scheme == "socks" || scheme == "socks5"
    then ok socks
    else if scheme == "http" || scheme == "https"
    then ok http
    else if scheme == "olcrtc" || scheme == "olcrtc+wbstream" || scheme == "wbstream"
    then ok olc_rtc
    else err (import_failed ("unsupported URI scheme " +s scheme))

abbrev pub protocol_name : VpnProtocol → String
protocol_name vless = "VLESS"
protocol_name vmess = "VMess"
protocol_name trojan = "Trojan"
protocol_name shadowsocks = "Shadowsocks"
protocol_name wire_guard = "WireGuard"
protocol_name hysteria = "Hysteria"
protocol_name hysteria2 = "Hysteria2"
protocol_name tuic = "TUIC"
protocol_name tun = "TUN"
protocol_name mixed = "Mixed"
protocol_name socks = "SOCKS"
protocol_name http = "HTTP"
protocol_name olc_rtc = "OLC RTC"

abbrev pub default_port : VpnProtocol → ℕ
default_port shadowsocks = 8388
default_port socks = 1080
default_port http = 8080
default_port olc_rtc = 443
default_port _ = 443

-- `url.path().trim_start_matches('/')`, where the host names the provider.
abbrev pub room_of : String → String → String
room_of host path =
    if (host == "wb_stream" || host == "wbstream") && not (is_empty path) then path else host

abbrev pub room_or_host : Option String → String → Result String
room_or_host (some room_id) room = ok room_id
room_or_host none room = do
  ensure (is_blank room) (import_failed "OLC RTC room id is required")
  ok room

unfoldable pub parse_olcrtc_room_id : Url → Dict String String → Result String
unfolding trim_start_matches
parse_olcrtc_room_id url query =
    room_or_host (non_blank (get "roomId" query))
      (room_of (unwrap_or url.host_str "") (trim_start_matches "/" url.path))

abbrev pub server_of : VpnProtocol → Url → Dict String String → Result String
server_of protocol url query =
    if is_olc_rtc protocol
    then parse_olcrtc_room_id url query
    else ok_or url.host_str (import_failed "server host is required")

-- `(!credential.is_empty()).then(|| percent_decode(&credential))`
abbrev given : Crates → String → Option String
given c credential = if is_empty credential then none else some (percent_decode c credential)

abbrev by_password : Option String → Option String → AuthOptions
by_password uuid password = record {
  uuid = uuid;
  username = none;
  password = password;
  method = none;
}

unfoldable pub auth_of : Crates → VpnProtocol → Url → Dict String String → AuthOptions
auth_of c vless url query = by_password (some url.username) none
auth_of c trojan url query = by_password (get "uuid" query) (some (percent_decode c url.username))
auth_of c hysteria url query = by_password (get "uuid" query) (some (percent_decode c url.username))
auth_of c hysteria2 url query =
    by_password (get "uuid" query) (some (percent_decode c url.username))
auth_of c tuic url query = by_password (get "uuid" query) (some (percent_decode c url.username))
auth_of c socks url query = record (by_password none url.password) {
  username = given c url.username;
}
auth_of c http url query = record (by_password none url.password) {
  username = given c url.username;
}
auth_of c olc_rtc url query =
    by_password none (or_else (or_else (get "key" query) url.password) (given c url.username))
auth_of c _ url query =
    by_password none (or_else url.password (some (percent_decode c url.username)))

-- The map's values as JSON texts.
abbrev pub extra_of : Dict String String → Dict String Value
extra_of [] = []
extra_of ((k, v) ∷ m) = (k, string v) ∷ extra_of m

unfoldable pub parse_url_profile : Crates → Uuid → String → Result VpnProfile
parse_url_profile c id input = do
  url ← map_err from_parse_error (c.parse_url input)
  protocol ← protocol_of url.scheme
  let query = query_map url
  server ← server_of protocol url query
  ok (record {
    id = id;
    name = unwrap_or (fragment_name c url) (unwrap_or url.host_str (protocol_name protocol));
    protocol = protocol;
    server = server;
    port = unwrap_or url.port (default_port protocol);
    auth = auth_of c protocol url query;
    transport = parse_transport query;
    tls = parse_tls query;
    reality = parse_reality query;
    wireguard = none;
    extra = extra_of query;
  })

-- `json[key]`: null where there is no such member.
abbrev member_of : Option Value → Value
member_of none = null
member_of (some v) = v

unfoldable pub index : Value → String → Value
index (object fs) key = member_of (get key (fields fs))
index _ key = null

abbrev parsed_port : Option String → Option ℕ
parsed_port none = none
parsed_port (some s) = parse_u16 s

-- `port as u16`
abbrev wrapped_port : Option ℕ → Option ℕ
wrapped_port none = none
wrapped_port (some n) = some (n % 2 ^ 16)

unfoldable pub vmess_port : Value → ℕ
vmess_port port = unwrap_or (or_else (parsed_port (as_str port)) (wrapped_port (as_u64 port))) 443

abbrev pub vmess_kind : String → TransportKind
vmess_kind net =
    if net == "ws"
    then web_socket
    else if net == "grpc"
    then grpc
    else if net == "httpupgrade"
    then http_upgrade
    else if net == "xhttp"
    then xhttp
    else if net == "quic"
    then quic
    else tcp

abbrev pub vmess_profile : Uuid → Value → VpnProfile
vmess_profile id json = record {
  id = id;
  name = unwrap_or (as_str (index json "ps")) "VMess";
  protocol = vmess;
  server = unwrap_or (as_str (index json "add")) "";
  port = vmess_port (index json "port");
  auth = by_password (as_str (index json "id")) none;
  transport = record {
    kind = vmess_kind (unwrap_or (as_str (index json "net")) "tcp");
    path = as_str (index json "path");
    host = as_str (index json "host");
    service_name = as_str (index json "path");
    headers = [];
  };
  tls = some (record {
    enabled =
        is_one (as_str (index json "tls")) "tls" || is_one (as_str (index json "tls")) "reality";
    server_name = or_else (as_str (index json "sni")) (as_str (index json "host"));
    alpn = [];
    insecure = false;
    fingerprint = as_str (index json "fp");
  });
  reality = none;
  wireguard = none;
  extra = [];
}

unfoldable pub parse_vmess : Crates → Uuid → String → Result VpnProfile
unfolding trim_start_matches
parse_vmess c id input = do
  decoded ← decode_base64 c (trim_start_matches "vmess://" input)
  json ← map_err (λ text. import_failed ("invalid vmess json: " +s text)) (c.from_slice decoded)
  ok (vmess_profile id json)

-- `splitn(2, '#')`
abbrev pub main_of : Option (String × String) → String → String
main_of none s = s
main_of (some (main, name)) s = main

abbrev name_of : Crates → Option (String × String) → String
name_of c none = "Shadowsocks"
name_of c (some (main, name)) = percent_decode c name

abbrev pub decoded_text : Crates → String → String → Result String
decoded_text c message s = decode_base64 c s >>= λ bytes.
    map_err (λ text. import_failed (message +s text)) (c.from_utf8 bytes)

abbrev pub userinfo_of : Url → String
userinfo_of url = url.username +s password_part url.password
  where
    password_part : Option String → String
    password_part none = ""
    password_part (some password) = ":" +s password

unfoldable pub parse_shadowsocks : Crates → Uuid → String → Result VpnProfile
unfolding trim_start_matches split_once contains
parse_shadowsocks c id input = do
  let without_scheme = trim_start_matches "ss://" input
  let parts = split_once b'#' without_scheme
  let main = main_of parts without_scheme
  decoded_main ←
      (if contains b'@' main then ok main else decoded_text c "invalid shadowsocks base64: " main)
  url ← map_err from_parse_error (c.parse_url ("ss://" +s decoded_main))
  decoded_userinfo ←
      (if contains b':' (userinfo_of url)
        then ok (userinfo_of url)
        else decoded_text c "invalid shadowsocks credentials: " (userinfo_of url))
  (method, password) ←
      ok_or (split_once b':' decoded_userinfo)
        (import_failed "shadowsocks method:password is required")
  ok (record {
    id = id;
    name = name_of c parts;
    protocol = shadowsocks;
    server = unwrap_or url.host_str "";
    port = unwrap_or url.port 8388;
    auth = record { uuid = none; username = none; password = some password; method = some method };
    transport = default_transport;
    tls = none;
    reality = none;
    wireguard = none;
    extra = [];
  })

abbrev pub parse_link : Crates → Uuid → String → Result VpnProfile
parse_link c id trimmed =
    if starts_with "vmess://" trimmed
    then parse_vmess c id trimmed
    else if starts_with "ss://" trimmed
    then parse_shadowsocks c id trimmed
    else parse_url_profile c id trimmed

unfoldable pub import_server : Crates → Uuid → String → Result ImportedServer
unfolding trim starts_with parse_vmess parse_shadowsocks parse_url_profile
import_server c id input = do
  let trimmed = trim input
  ensure (is_empty trimmed) (import_failed "empty import input")
  profile ← parse_link c id trimmed
  ok (record { profile = profile; warnings = [] })
