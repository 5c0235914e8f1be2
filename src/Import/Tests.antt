-- ===== src/Import/Tests.antt =====
-- Links at which the hypotheses of the theorems on src/import.rs hold.
use tauri_vpn_plugin.Common.{String, true, false, [], ◌∷◌, none, some, ◌≡◌, refl, inl, string_eq}
use tauri_vpn_plugin.Common.Dict.{get, insert}
use tauri_vpn_plugin.Common.Text.{is_blank, trim, len, all_chars, is_ascii_hexdigit}
use tauri_vpn_plugin.Errors.{ok}
use tauri_vpn_plugin.Models.{VpnProfile, vless, olc_rtc, wire_guard, default_transport}
use tauri_vpn_plugin.Models.Json.{string}
use tauri_vpn_plugin.Protocols.{validate}
use tauri_vpn_plugin.Olcrtc.Settings.{
  OlcRtcConfig, default_provider, from_profile, string_extra, u16_extra, is_bad_key,
}
use tauri_vpn_plugin.Engine.Calls.{value, error}
use tauri_vpn_plugin.Import.Query.{
  Url, Crates, query_map, percent_decode, fragment_name, parse_transport, parse_tls, parse_reality,
}
use tauri_vpn_plugin.Import.Links.{protocol_of, parse_olcrtc_room_id, auth_of, parse_url_profile}
use tauri_vpn_plugin.Import.Rooms.{parse_url_profile-room, parse_url_profile_wireguard}
use tauri_vpn_plugin.Import.Good.{parse_url_profile-validate}

-- Crates that read one URL.
abbrev crates_for : Url → Crates
crates_for url = record {
  parse_url = λ input. value url;
  form_parse = λ text. (text, "") ∷ [];
  decode = λ text. error "invalid";
  from_utf8 = λ bytes. error "invalid";
  from_slice = λ bytes. error "invalid";
}

abbrev key : String
key = "00000000000000000000000000000000000000000000000000000000000000ff"

abbrev room_url : Url
room_url = record {
  scheme = "olcrtc";
  username = "";
  password = none;
  host_str = some "wb_stream";
  port = none;
  path = "/room-1";
  query_pairs = ("key", key) ∷ [];
  fragment = some "Room";
}

abbrev room_profile : VpnProfile
room_profile = record {
  id = 5;
  name = "Room";
  protocol = olc_rtc;
  server = "room-1";
  port = 443;
  auth = record { uuid = none; username = none; password = some key; method = none };
  transport = default_transport;
  tls = none;
  reality = none;
  wireguard = none;
  extra = ("key", string key) ∷ [];
}

abbrev room_settings : OlcRtcConfig
room_settings = record {
  provider = default_provider;
  room_id = "room-1";
  key_hex = key;
  local_host = "127.0.0.1";
  local_port = 10808;
  display_name = "Room";
}

parse_url_profile-room_example : (room_settings.room_id ≡ "room-1") × (is_blank "room-1" ≡ false)
unfolding parse_url_profile protocol_of query_map parse_olcrtc_room_id auth_of parse_transport
    parse_tls parse_reality fragment_name percent_decode get insert trim from_profile string_extra
    u16_extra is_bad_key len all_chars is_ascii_hexdigit
parse_url_profile-room_example =
    parse_url_profile-room (crates_for room_url) 5 "olcrtc://wb_stream/room-1" room_profile
      room_settings refl refl refl

abbrev wireguard_profile : VpnProfile
wireguard_profile = record {
  id = 6;
  name = "vpn.example";
  protocol = wire_guard;
  server = "vpn.example";
  port = 51820;
  auth = record { uuid = none; username = none; password = some "secret"; method = none };
  transport = default_transport;
  tls = none;
  reality = none;
  wireguard = none;
  extra = [];
}

abbrev site_url : String → Url
site_url scheme = record {
  scheme = scheme;
  username = "secret";
  password = none;
  host_str = some "vpn.example";
  port = some 51820;
  path = "";
  query_pairs = [];
  fragment = none;
}

parse_url_profile_wireguard_example : (validate wireguard_profile).valid ≡ false
unfolding parse_url_profile protocol_of query_map auth_of parse_transport parse_tls parse_reality
    fragment_name percent_decode get
parse_url_profile_wireguard_example =
    parse_url_profile_wireguard (crates_for (site_url "wg")) 6 "wg://secret@vpn.example:51820"
      wireguard_profile refl refl

parse_url_profile-validate_example :
    (p : VpnProfile) × (parse_url_profile
        (crates_for (site_url "vless"))
        7
        "vless://secret@vpn.example:51820"
      ≡ ok p)
    × (p.protocol ≡ vless)
    × (p.server ≡ "vpn.example")
    × ((validate p).valid ≡ true)
unfolding protocol_of query_map get trim
parse_url_profile-validate_example =
    parse_url_profile-validate (crates_for (site_url "vless")) 7 "vless://secret@vpn.example:51820"
      vless "vpn.example" (site_url "vless") refl
      (record {
        scheme = refl;
        host_str = refl;
        hosted = refl;
        port = λ e. cc e;
        user = refl;
        reality = inl refl;
      })
