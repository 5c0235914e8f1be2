-- ===== src/Config/Outbound/Fields.antt =====
-- src/config.rs: the fields of every outbound that `outbound_for_profile` builds.
use tauri_vpn_plugin.Common.{
  ℕ, String, false, ◌≡◌, refl, ◌∙◌, ap, Option, none, some, arith, string_eq, ◌==◌, if◌then◌else◌,
  Option-cases, inl, inr,
}
use tauri_vpn_plugin.Common.Dict.{get, retain, get-insert, get-insert_self}
use tauri_vpn_plugin.Errors.{Result, ok, >>=-eq-ok}
use tauri_vpn_plugin.Models.{
  VpnProtocol, vless, vmess, trojan, shadowsocks, wire_guard, hysteria, hysteria2, tuic, tun, mixed,
  socks, http, olc_rtc, VpnProfile, TlsOptions, RealityOptions,
}
use tauri_vpn_plugin.Models.Json.{Value, string, num}
use tauri_vpn_plugin.Olcrtc.Settings.{local_socks_endpoint}
use tauri_vpn_plugin.Config.Outbound.{
  Outbound, strip_nulls, base_outbound, tls_object, reality_object, add_plain_tls, add_tls,
  transport_object, put_transport, add_transport, outbound_for_profile,
}

-- The sing-box type of a protocol's outbound. (A local inbound has none.)
abbrev pub type_name : VpnProtocol → String
type_name vless = "vless"
type_name vmess = "vmess"
type_name trojan = "trojan"
type_name shadowsocks = "shadowsocks"
type_name wire_guard = "wireguard"
type_name hysteria = "hysteria"
type_name hysteria2 = "hysteria2"
type_name tuic = "tuic"
type_name socks = "socks"
type_name http = "http"
type_name olc_rtc = "socks"
type_name tun = ""
type_name mixed = ""

-- The address that the outbound connects to.
abbrev pub endpoint : VpnProtocol → VpnProfile → Result (String × ℕ)
endpoint olc_rtc p = local_socks_endpoint p
endpoint _ p = ok (p.server, p.port)

-- The TLS object that a profile asks for: REALITY before plain TLS.
abbrev pub wanted_tls : VpnProtocol → Option TlsOptions → Option RealityOptions → Option Value
wanted_tls q tls (some reality) = some (reality_object q tls reality)
wanted_tls q (some tls) none = if tls.enabled then some (tls_object q tls) else none
wanted_tls q none none = none

record IsBase (q : VpnProtocol) (p : VpnProfile) (m : Outbound) : Type 0 where
  pub kind : get "type" m ≡ some (string (type_name q))
  pub tag : get "tag" m ≡ some (string "proxy")
  pub address :
      (e : String × ℕ) × (endpoint q p ≡ ok e)
      × (get "server" m ≡ some (string e.0))
      × (get "server_port" m ≡ some (num e.1))
  pub no_tls : get "tls" m ≡ none
  pub no_transport : get "transport" m ≡ none

base_outbound-IsBase :
    (q : VpnProtocol) (p : VpnProfile) (m : Outbound) → base_outbound q p ≡ ok m → IsBase q p m
unfolding base_outbound get retain strip_nulls
base_outbound-IsBase vless p m e = record {
  kind = ground arith;
  tag = ground arith;
  address = ((p.server, p.port), refl, ground arith, ground arith);
  no_tls = ground arith;
  no_transport = ground arith;
}
base_outbound-IsBase vmess p m e = record {
  kind = ground arith;
  tag = ground arith;
  address = ((p.server, p.port), refl, ground arith, ground arith);
  no_tls = ground arith;
  no_transport = ground arith;
}
base_outbound-IsBase trojan p m e = record {
  kind = ground arith;
  tag = ground arith;
  address = ((p.server, p.port), refl, ground arith, ground arith);
  no_tls = ground arith;
  no_transport = ground arith;
}
base_outbound-IsBase shadowsocks p m e = record {
  kind = ground arith;
  tag = ground arith;
  address = ((p.server, p.port), refl, ground arith, ground arith);
  no_tls = ground arith;
  no_transport = ground arith;
}
base_outbound-IsBase wire_guard p m e = record {
  kind = ground arith;
  tag = ground arith;
  address = ((p.server, p.port), refl, ground arith, ground arith);
  no_tls = ground arith;
  no_transport = ground arith;
}
base_outbound-IsBase hysteria p m e = record {
  kind = ground arith;
  tag = ground arith;
  address = ((p.server, p.port), refl, ground arith, ground arith);
  no_tls = ground arith;
  no_transport = ground arith;
}
base_outbound-IsBase hysteria2 p m e = record {
  kind = ground arith;
  tag = ground arith;
  address = ((p.server, p.port), refl, ground arith, ground arith);
  no_tls = ground arith;
  no_transport = ground arith;
}
base_outbound-IsBase tuic p m e = record {
  kind = ground arith;
  tag = ground arith;
  address = ((p.server, p.port), refl, ground arith, ground arith);
  no_tls = ground arith;
  no_transport = ground arith;
}
base_outbound-IsBase socks p m e = record {
  kind = ground arith;
  tag = ground arith;
  address = ((p.server, p.port), refl, ground arith, ground arith);
  no_tls = ground arith;
  no_transport = ground arith;
}
base_outbound-IsBase http p m e = record {
  kind = ground arith;
  tag = ground arith;
  address = ((p.server, p.port), refl, ground arith, ground arith);
  no_tls = ground arith;
  no_transport = ground arith;
}
base_outbound-IsBase olc_rtc p m e =
    let (x, f, g) = >>=-eq-ok (local_socks_endpoint p) _ e in
    record {
      kind = ground arith;
      tag = ground arith;
      address = (x, f, ground arith, ground arith);
      no_tls = ground arith;
      no_transport = ground arith;
    }
base_outbound-IsBase tun p m e = cc
base_outbound-IsBase mixed p m e = cc

-- What an outbound has in common with every other.
pub record IsOutbound (p : VpnProfile) (m : Outbound) : Type 0 where
  pub kind : get "type" m ≡ some (string (type_name p.protocol))
  pub tag : get "tag" m ≡ some (string "proxy")
  pub address :
      (e : String × ℕ) × (endpoint p.protocol p ≡ ok e)
      × (get "server" m ≡ some (string e.0))
      × (get "server_port" m ≡ some (num e.1))
  pub tls : get "tls" m ≡ wanted_tls p.protocol p.tls p.reality
  pub transport : get "transport" m ≡ transport_object p.transport.kind p.transport

add_plain_tls-get :
    (q : VpnProtocol) (tls : Option TlsOptions) (m : Outbound)
    → get "tls" m ≡ none
    → get "tls" (add_plain_tls q tls m) ≡ wanted_tls q tls none
add_plain_tls-get q none m h = h
add_plain_tls-get q (some tls) m h = ground (arith, get-insert_self "tls" (tls_object q tls) m)

add_tls-get :
    (p : VpnProfile) (m : Outbound)
    → get "tls" m ≡ none
    → get "tls" (add_tls p m) ≡ wanted_tls p.protocol p.tls p.reality
unfolding add_tls
add_tls-get p m h = elim (Option-cases p.reality) [
  | inl e ↦ rw e (add_plain_tls-get p.protocol p.tls m h)
  | inr (r, e) ↦ rw e (get-insert_self "tls" _ _)
]

add_plain_tls-get_other :
    (q : VpnProtocol) (tls : Option TlsOptions) (k : String) (m : Outbound)
    → ("tls" == k) ≡ false
    → get k (add_plain_tls q tls m) ≡ get k m
add_plain_tls-get_other q none k m h = refl
add_plain_tls-get_other q (some tls) k m h = ground (arith, get-insert "tls" k (tls_object q tls) m)

add_tls-get_other :
    (p : VpnProfile) (k : String) (m : Outbound)
    → ("tls" == k) ≡ false
    → get k (add_tls p m) ≡ get k m
unfolding add_tls
add_tls-get_other p k m h = elim (Option-cases p.reality) [
  | inl e ↦ rw e (add_plain_tls-get_other p.protocol p.tls k m h)
  | inr (r, e) ↦
      rw e (get-insert "tls" k _ _ ∙ rw h (add_plain_tls-get_other p.protocol p.tls k m h))
]

put_transport-get :
    (t : Option Value) (m : Outbound)
    → get "transport" m ≡ none
    → get "transport" (put_transport t m) ≡ t
put_transport-get none m h = h
put_transport-get (some v) m h = get-insert_self "transport" v m

put_transport-get_other :
    (t : Option Value) (k : String) (m : Outbound)
    → ("transport" == k) ≡ false
    → get k (put_transport t m) ≡ get k m
put_transport-get_other none k m h = refl
put_transport-get_other (some v) k m h = get-insert "transport" k v m ∙ rw h

finished :
    (p : VpnProfile) (b m : Outbound)
    → ◌≡◌ {A = Result Outbound} (ok (add_transport p (add_tls p b))) (ok m)
    → m ≡ add_transport p (add_tls p b)
finished p b m g = cc

kept_field :
    (p : VpnProfile) (b m : Outbound)
    → m ≡ add_transport p (add_tls p b)
    → (k : String) → ("tls" == k) ≡ false
    → ("transport" == k) ≡ false
    → get k m ≡ get k b
unfolding add_transport
kept_field p b m g k n o =
    ap (get k) g ∙ put_transport-get_other _ k _ o ∙ add_tls-get_other p k b n

-- The outbound of a profile, when there is one, has the type of its protocol and the tag "proxy"
-- that the rules and the DNS servers name; it connects to the profile's server and port, or for OLC
-- RTC to the local SOCKS endpoint; its TLS object is the REALITY one if the profile has REALITY
-- options, else the plain one if TLS is enabled, else there is none; and its transport is the one
-- of the profile's transport kind.
pub outbound_for_profile-IsOutbound :
    (p : VpnProfile) (m : Outbound) → outbound_for_profile p ≡ ok m → IsOutbound p m
unfolding outbound_for_profile add_transport
outbound_for_profile-IsOutbound p m e =
    let (b, f, g) = >>=-eq-ok (base_outbound p.protocol p) _ e in
    let h = base_outbound-IsBase p.protocol p b f in
    record {
      kind = kept_field p b m (finished p b m g) "type" refl refl ∙ h.kind;
      tag = kept_field p b m (finished p b m g) "tag" refl refl ∙ h.tag;
      address = (
        h.address.0,
        h.address.1,
        kept_field p b m (finished p b m g) "server" refl refl ∙ h.address.2,
        kept_field p b m (finished p b m g) "server_port" refl refl ∙ h.address.3,
      );
      tls =
          ap (get "tls") (finished p b m g)
          ∙ put_transport-get_other _ "tls" _ refl
          ∙ add_tls-get p b h.no_tls;
      transport =
          ap (get "transport") (finished p b m g)
          ∙ put_transport-get _ _ (add_tls-get_other p "transport" b refl ∙ h.no_transport);
    }
