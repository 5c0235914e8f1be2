-- ===== src/Models.antt =====
-- src/models.rs: the data that the frontend and the plugin exchange. A `Uuid` is its 128-bit
-- number. The `serde` attributes (renaming, defaults of missing fields) are not modelled.
pub mod Json
use tauri_vpn_plugin.Common.{ℕ, String, Bool, true, false, List, [], ◌∷◌, Option, none, some}
use tauri_vpn_plugin.Common.Bytes.{Bytes}
use tauri_vpn_plugin.Common.Dict.{Dict}
use Json.{Value}

abbrev pub Uuid : Type 0
Uuid = ℕ

pub record AuthOptions : Type 0 where
  pub uuid : Option String
  pub password : Option String
  pub method : Option String
  pub username : Option String

pub data VpnProtocol : Type 0 where
  vless vmess trojan shadowsocks wire_guard hysteria hysteria2 tuic tun mixed socks http olc_rtc :
      VpnProtocol

pub data TransportKind : Type 0 where
  tcp web_socket grpc http_upgrade xhttp quic : TransportKind

pub record Transport : Type 0 where
  pub kind : TransportKind
  pub path : Option String
  pub host : Option String
  pub service_name : Option String
  pub headers : Dict String String

abbrev pub default_transport : Transport
default_transport = record {
  kind = tcp;
  path = none;
  host = none;
  service_name = none;
  headers = [];
}

pub record TlsOptions : Type 0 where
  pub enabled : Bool
  pub server_name : Option String
  pub alpn : List String
  pub insecure : Bool
  pub fingerprint : Option String

pub record RealityOptions : Type 0 where
  pub public_key : String
  pub short_id : Option String
  pub spider_x : Option String

pub record WireGuardOptions : Type 0 where
  pub private_key : String
  pub peer_public_key : Option String
  pub pre_shared_key : Option String
  pub local_address : List String
  pub reserved : Option Bytes

pub record VpnProfile : Type 0 where
  pub id : Uuid
  pub name : String
  pub protocol : VpnProtocol
  pub server : String
  pub port : ℕ
  pub auth : AuthOptions
  pub transport : Transport
  pub tls : Option TlsOptions
  pub reality : Option RealityOptions
  pub wireguard : Option WireGuardOptions
  pub extra : Dict String Value

pub data DnsStrategy : Type 0 where
  ipv4_only ipv6_only prefer_ipv4 prefer_ipv6 : DnsStrategy

pub record DnsOptions : Type 0 where
  pub strategy : DnsStrategy
  pub servers : List String

abbrev pub default_dns_options : DnsOptions
default_dns_options = record { strategy = ipv4_only; servers = "1.1.1.1" ∷ "8.8.8.8" ∷ [] }

pub data RouteMode : Type 0 where
  global rule : RouteMode

pub record ConnectOptions : Type 0 where
  pub profile : VpnProfile
  pub route_mode : RouteMode
  pub route_bypass_cidrs : List String
  pub dns : DnsOptions
  pub kill_switch : Bool

pub record ImportedServer : Type 0 where
  pub profile : VpnProfile
  pub warnings : List String

pub record ValidationResult : Type 0 where
  pub valid : Bool
  pub errors : List String
  pub warnings : List String

pub record ProtocolInfo : Type 0 where
  pub protocol : VpnProtocol
  pub display_name : String
  pub supported_on : List String
  pub uri_schemes : List String

pub data ConnectionPhase : Type 0 where
  disconnected connecting connected disconnecting failed : ConnectionPhase

pub record TrafficStats : Type 0 where
  pub uploaded_bytes : ℕ
  pub downloaded_bytes : ℕ

pub record ConnectionStatus : Type 0 where
  pub phase : ConnectionPhase
  pub active_profile_id : Option Uuid
  pub message : Option String
  pub stats : TrafficStats

abbrev pub default_connection_status : ConnectionStatus
default_connection_status = record {
  phase = disconnected;
  active_profile_id = none;
  message = none;
  stats = record { uploaded_bytes = 0; downloaded_bytes = 0 };
}

-- `matches!(protocol, VpnProtocol::OlcRtc)`
abbrev pub is_olc_rtc : VpnProtocol → Bool
is_olc_rtc olc_rtc = true
is_olc_rtc _ = false

-- `matches!(protocol, VpnProtocol::Vless)`
abbrev pub is_vless : VpnProtocol → Bool
is_vless vless = true
is_vless _ = false

-- `matches!(protocol, VpnProtocol::Hysteria | VpnProtocol::Hysteria2 | VpnProtocol::Tuic)`
abbrev pub is_quic_based : VpnProtocol → Bool
is_quic_based hysteria = true
is_quic_based hysteria2 = true
is_quic_based tuic = true
is_quic_based _ = false

-- `matches!(kind, TransportKind::Xhttp)`
abbrev pub is_xhttp : TransportKind → Bool
is_xhttp xhttp = true
is_xhttp _ = false
