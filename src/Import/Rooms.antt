-- ===== src/Import/Rooms.antt =====
-- src/import.rs: what is imported against what is read of it later, in src/protocols.rs and
-- src/olcrtc/mod.rs.
use tauri_vpn_plugin.Common.{
  String, false, [], ◌∷◌, Option, none, some, ◌≡◌, refl, ◌∙◌, inl, inr, arith, Option-cases,
  Bool-cases, string_eq,
}
use tauri_vpn_plugin.Common.Dict.{Dict, get}
use tauri_vpn_plugin.Common.Text.{is_blank}
use tauri_vpn_plugin.Errors.{ok, from_parse_error, >>=-eq-ok}
use tauri_vpn_plugin.Models.{Uuid, wire_guard, olc_rtc, VpnProfile}
use tauri_vpn_plugin.Protocols.{validate}
use tauri_vpn_plugin.Protocols.Usable.{validate_iff}
use tauri_vpn_plugin.Olcrtc.Settings.{
  OlcRtcConfig, from_profile, string_extra, string_of, non_blank, or_else, unwrap_or,
}
use tauri_vpn_plugin.Olcrtc.Settings.Checked.{from_profile-IsChecked}
use tauri_vpn_plugin.Engine.Calls.{value, map_err, map_err-eq-ok}
use tauri_vpn_plugin.Import.Query.{Url, Crates, query_map}
use tauri_vpn_plugin.Import.Links.{
  protocol_of, default_port, server_of, parse_olcrtc_room_id, extra_of, parse_url_profile,
  room_or_host,
}

-- What a profile has of the URL that it was imported from.
pub record IsImported (c : Crates) (input : String) (p : VpnProfile) (url : Url) : Type 0 where
  pub parsed : c.parse_url input ≡ value url
  pub protocol : protocol_of url.scheme ≡ ok p.protocol
  pub server : server_of p.protocol url (query_map url) ≡ ok p.server
  pub port : p.port ≡ unwrap_or url.port (default_port p.protocol)
  pub wireguard : p.wireguard ≡ none
  pub extra : p.extra ≡ extra_of (query_map url)

pub parse_url_profile-IsImported :
    (c : Crates) (id : Uuid) (input : String) (p : VpnProfile)
    → parse_url_profile c id input ≡ ok p
    → (url : Url) × IsImported c input p url
unfolding parse_url_profile
parse_url_profile-IsImported c id input p e =
    let (url, parsed, rest) = >>=-eq-ok (map_err from_parse_error (c.parse_url input)) _ e in
    let (protocol, scheme, rest') = >>=-eq-ok (protocol_of url.scheme) _ rest in
    let (server, served, last) = >>=-eq-ok (server_of protocol url (query_map url)) _ rest' in
    (
      url,
      record {
        parsed = map_err-eq-ok from_parse_error (c.parse_url input) url parsed;
        protocol = cc (scheme, last);
        server = cc (served, last);
        port = cc last;
        wireguard = cc last;
        extra = cc last;
      },
    )

string_of-extra_of :
    (k : String) (m : Dict String String) → string_of (get k (extra_of m)) ≡ get k m
unfolding get
string_of-extra_of k [] = refl
string_of-extra_of k ((j, v) ∷ m) = ground (arith, string_of-extra_of k m)

from_profile-room :
    (p : VpnProfile) (s : OlcRtcConfig)
    → from_profile p ≡ ok s
    → s.room_id ≡ unwrap_or (string_extra p "roomId") p.server
unfolding from_profile
from_profile-room p s e = elim (Option-cases (or_else (string_extra p "key") p.auth.password)) [
  | inl f ↦ ground arith
  | inr (k, f) ↦ ground arith
]

room_or_host-room :
    (o : Option String) (room server : String)
    → room_or_host o room ≡ ok server
    → unwrap_or o server ≡ server
room_or_host-room none room server e = refl
room_or_host-room (some room_id) room server e = cc e

parse_olcrtc_room_id-room :
    (url : Url) (query : Dict String String) (server : String)
    → parse_olcrtc_room_id url query ≡ ok server
    → unwrap_or (non_blank (get "roomId" query)) server ≡ server
unfolding parse_olcrtc_room_id
parse_olcrtc_room_id-room url query server e =
    room_or_host-room (non_blank (get "roomId" query)) _ server e

string_extra-query :
    (p : VpnProfile) (query : Dict String String) (key : String)
    → p.extra ≡ extra_of query
    → string_extra p key ≡ non_blank (get key query)
unfolding string_extra
string_extra-query p query key e = rw (e, string_of-extra_of key query) refl

-- The settings that are read of a profile which was imported from a link of OLC RTC name the room that
-- the link named: the profile's server, which is not blank.
pub parse_url_profile-room :
    (c : Crates) (id : Uuid) (input : String) (p : VpnProfile) (s : OlcRtcConfig)
    → parse_url_profile c id input ≡ ok p
    → p.protocol ≡ olc_rtc
    → from_profile p ≡ ok s
    → (s.room_id ≡ p.server) × (is_blank p.server ≡ false)
parse_url_profile-room c id input p s imported room read =
    let (url, h) = parse_url_profile-IsImported c id input p imported in
    let served = rw room at h.server in
    let same =
      from_profile-room p s read
      ∙ (rw (string_extra-query p (query_map url) "roomId" h.extra)
          (parse_olcrtc_room_id-room url (query_map url) p.server served)) in
    (same, rw⁻¹ same (from_profile-IsChecked p s read).room)

-- No profile that was imported from a WireGuard link is valid: the import leaves out the WireGuard
-- options.
pub parse_url_profile_wireguard :
    (c : Crates) (id : Uuid) (input : String) (p : VpnProfile)
    → parse_url_profile c id input ≡ ok p
    → p.protocol ≡ wire_guard
    → (validate p).valid ≡ false
parse_url_profile_wireguard c id input p imported wire =
    let (url, h) = parse_url_profile-IsImported c id input p imported in
    elim (Bool-cases (validate p).valid) [
      | inr e ↦ e
      | inl e ↦ absurd ((rw wire at ((validate_iff p).0 e).credentials) h.wireguard)
    ]
