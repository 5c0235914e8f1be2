-- ===== src/Import/Good.antt =====
-- src/import.rs: links whose import succeeds with a profile that src/protocols.rs accepts, and the ports
-- that an import gives.
use tauri_vpn_plugin.Common.{
  ℕ, String, true, false, Option, none, some, ◌≡◌, ◌≢◌, ◌⊎◌, refl, ap, inl, inr, arith,
  Option-cases, Bool-cases, string_eq,
}
use tauri_vpn_plugin.Common.Dict.{Dict, get}
use tauri_vpn_plugin.Common.Text.{is_empty, is_blank}
use tauri_vpn_plugin.Errors.{ok}
use tauri_vpn_plugin.Models.{
  Uuid, VpnProtocol, vless, trojan, shadowsocks, hysteria, hysteria2, tuic, socks, http, is_olc_rtc,
  VpnProfile,
}
use tauri_vpn_plugin.Protocols.{validate}
use tauri_vpn_plugin.Protocols.Usable.{HasCredentials, validate_iff}
use tauri_vpn_plugin.Olcrtc.Settings.{unwrap_or}
use tauri_vpn_plugin.Engine.Calls.{value}
use tauri_vpn_plugin.Import.Query.{
  Url, Crates, query_map, percent_decode, fragment_name, parse_transport, parse_tls, parse_reality,
  is_one,
}
use tauri_vpn_plugin.Import.Links.{protocol_of, default_port, auth_of, extra_of, parse_url_profile}

-- What a link's user part must say, by the protocol. WireGuard and OLC RTC links are told apart
-- elsewhere.
abbrev pub HasUser : Crates → VpnProtocol → Url → Type 0
HasUser c vless url = is_empty url.username ≡ false
HasUser c trojan url = is_empty (percent_decode c url.username) ≡ false
HasUser c hysteria url = is_empty (percent_decode c url.username) ≡ false
HasUser c hysteria2 url = is_empty (percent_decode c url.username) ≡ false
HasUser c tuic url = is_empty (percent_decode c url.username) ≡ false
HasUser c socks url = Unit
HasUser c http url = Unit
HasUser c _ url = ⊥

-- A link that names a host, has a port other than 0 or none, has the user part of its protocol, and asks
-- for REALITY only with VLESS.
pub record IsGoodLink (c : Crates) (protocol : VpnProtocol) (host : String) (url : Url)
    : Type 0 where
  pub scheme : protocol_of url.scheme ≡ ok protocol
  pub host_str : url.host_str ≡ some host
  pub hosted : is_blank host ≡ false
  pub port : url.port ≢ some 0
  pub user : HasUser c protocol url
  pub reality : (is_one (get "security" (query_map url)) "reality" ≡ false) ⊎ (protocol ≡ vless)

abbrev profile_of : Crates → Uuid → VpnProtocol → String → Url → VpnProfile
profile_of c id protocol host url = record {
  id = id;
  name = unwrap_or (fragment_name c url) host;
  protocol = protocol;
  server = host;
  port = unwrap_or url.port (default_port protocol);
  auth = auth_of c protocol url (query_map url);
  transport = parse_transport (query_map url);
  tls = parse_tls (query_map url);
  reality = parse_reality (query_map url);
  wireguard = none;
  extra = extra_of (query_map url);
}

HasUser-HasCredentials :
    (c : Crates) (id : Uuid) (protocol : VpnProtocol) (host : String) (url : Url)
    → HasUser c protocol url
    → HasCredentials protocol (profile_of c id protocol host url)
unfolding auth_of
HasUser-HasCredentials c id vless host url h = h
HasUser-HasCredentials c id trojan host url h = h
HasUser-HasCredentials c id hysteria host url h = h
HasUser-HasCredentials c id hysteria2 host url h = h
HasUser-HasCredentials c id tuic host url h = h
HasUser-HasCredentials c id socks host url h = tt
HasUser-HasCredentials c id http host url h = tt
HasUser-HasCredentials c id _ host url h = elim h [ ]

HasUser-is_olc_rtc :
    (c : Crates) (protocol : VpnProtocol) (url : Url)
    → HasUser c protocol url
    → is_olc_rtc protocol ≡ false
HasUser-is_olc_rtc c vless url h = refl
HasUser-is_olc_rtc c trojan url h = refl
HasUser-is_olc_rtc c hysteria url h = refl
HasUser-is_olc_rtc c hysteria2 url h = refl
HasUser-is_olc_rtc c tuic url h = refl
HasUser-is_olc_rtc c socks url h = refl
HasUser-is_olc_rtc c http url h = refl
HasUser-is_olc_rtc c _ url h = elim h [ ]

named :
    (c : Crates) (url : Url) (host : String)
    → is_blank host ≡ false
    → is_blank (unwrap_or (fragment_name c url) host) ≡ false
unfolding fragment_name
named c url host h = elim (Option-cases url.fragment) [
  | inl e ↦ rw e h
  | inr (text, e) ↦ elim (Bool-cases (is_blank (percent_decode c text))) [
    | inl f ↦ rw (e, f) h
    | inr f ↦ rw (e, f) f
  ]
]

default_port-ne : (protocol : VpnProtocol) → default_port protocol ≢ 0
default_port-ne shadowsocks = omega arith
default_port-ne socks = omega arith
default_port-ne http = omega arith
default_port-ne _ = omega arith

ported :
    (port : Option ℕ) (protocol : VpnProtocol)
    → port ≢ some 0
    → unwrap_or port (default_port protocol) ≢ 0
ported none protocol h = default_port-ne protocol
ported (some n) protocol h = λ e. h (ap some e)

realities :
    (query : Dict String String) (protocol : VpnProtocol)
    → (is_one (get "security" query) "reality" ≡ false) ⊎ (protocol ≡ vless)
    → (parse_reality query ≡ none) ⊎ (protocol ≡ vless)
unfolding parse_reality
realities query protocol (inl e) = inl (rw e refl)
realities query protocol (inr e) = inr e

-- A link of VLESS, Trojan, Hysteria, Hysteria2, TUIC, SOCKS or HTTP imports, and its profile is valid,
-- if it names a host that is not blank and no port 0, has the user part that its protocol needs (a user
-- name for VLESS, one that decodes to some text for the protocols with a password), and asks for REALITY
-- only with VLESS.
pub parse_url_profile-validate :
    (c : Crates) (id : Uuid) (input : String) (protocol : VpnProtocol) (host : String) (url : Url)
    → c.parse_url input ≡ value url
    → IsGoodLink c protocol host url
    → (p : VpnProfile) × (parse_url_profile c id input ≡ ok p)
      × (p.protocol ≡ protocol)
      × (p.server ≡ host)
      × ((validate p).valid ≡ true)
unfolding parse_url_profile
parse_url_profile-validate c id input protocol host url parsed good =
    let p = profile_of c id protocol host url in
    (
      p,
      rw (parsed, good.scheme, HasUser-is_olc_rtc c protocol url good.user, good.host_str) refl,
      refl,
      refl,
      (validate_iff p).1 (record {
        named = named c url host good.hosted;
        hosted = good.hosted;
        port = ported url.port protocol good.port;
        credentials = HasUser-HasCredentials c id protocol host url good.user;
        reality = realities (query_map url) protocol good.reality;
      }),
    )
