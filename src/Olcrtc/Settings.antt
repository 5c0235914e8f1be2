-- ===== src/Olcrtc/Settings.antt =====
-- src/olcrtc/mod.rs: the settings that the tunnel takes from a profile.
pub mod Checked
use tauri_vpn_plugin.Common.{
  ℕ, ◌<◌, ◌^◌, String, Bool, true, false, ◌||◌, not, Option, none, some, ltb, ◌==◌, nat_eq,
  string_eq, if◌then◌else◌,
}
use tauri_vpn_plugin.Common.Text.{is_blank, len, all_chars, is_ascii_hexdigit, parse_u16}
use tauri_vpn_plugin.Common.Dict.{get}
use tauri_vpn_plugin.Errors.{
  VpnError, unsupported, invalid_profile, Result, ok, err, ◌>>=◌, ◌>>◌, ok_or, ensure, ◌+s◌,
}
use tauri_vpn_plugin.Models.{VpnProfile}
use tauri_vpn_plugin.Models.Json.{Value, string, number, as_str}

abbrev pub default_provider : String
default_provider = "wb_stream"

abbrev pub default_local_host : String
default_local_host = "127.0.0.1"

abbrev pub default_local_port : ℕ
default_local_port = 10808

pub record OlcRtcConfig : Type 0 where
  pub provider : String
  pub room_id : String
  pub key_hex : String
  pub local_host : String
  pub local_port : ℕ
  pub display_name : String

abbrev pub string_of : Option Value → Option String
string_of none = none
string_of (some v) = as_str v

-- `filter(|value| !value.trim().is_empty())`
abbrev pub non_blank : Option String → Option String
non_blank none = none
non_blank (some s) = if is_blank s then none else some s

unfoldable pub string_extra : VpnProfile → String → Option String
string_extra p key = non_blank (string_of (get key p.extra))

-- `u16::try_from(value).ok()`
abbrev pub to_u16 : Option ℕ → Option ℕ
to_u16 none = none
to_u16 (some n) = if ltb n (2 ^ 16) then some n else none

abbrev pub u16_of : Option Value → Option ℕ
u16_of (some (number n)) = to_u16 n
u16_of (some (string s)) = parse_u16 s
u16_of _ = none

unfoldable pub u16_extra : VpnProfile → String → Option ℕ
u16_extra p key = u16_of (get key p.extra)

abbrev pub or_else {ℓ} : {A : Type ℓ} → Option A → Option A → Option A
or_else none b = b
or_else (some a) b = some a

abbrev pub unwrap_or {ℓ} : {A : Type ℓ} → Option A → A → A
unwrap_or none b = b
unwrap_or (some a) b = a

-- `key.len() != 64 || !key.chars().all(|ch| ch.is_ascii_hexdigit())`
unfoldable pub is_bad_key : String → Bool
is_bad_key key = not (len key == 64) || not (all_chars is_ascii_hexdigit key)

unfoldable pub from_profile : VpnProfile → Result OlcRtcConfig
from_profile p = do
  let provider = unwrap_or (string_extra p "provider") default_provider
  ensure (not (provider == default_provider))
      (unsupported ("unsupported OLC RTC provider " +s provider))
  let room_id = unwrap_or (string_extra p "roomId") p.server
  ensure (is_blank room_id) (invalid_profile "OLC RTC room id is required")
  key_hex ←
      ok_or (or_else (string_extra p "key") p.auth.password)
        (invalid_profile "OLC RTC shared key is required")
  ensure (is_bad_key key_hex) (invalid_profile "OLC RTC shared key must be a 32-byte hex string")
  ok (record {
    provider = provider;
    room_id = room_id;
    key_hex = key_hex;
    local_host = unwrap_or (string_extra p "localHost") default_local_host;
    local_port = unwrap_or (u16_extra p "localPort") default_local_port;
    display_name = p.name;
  })

unfoldable pub local_socks_endpoint : VpnProfile → Result (String × ℕ)
local_socks_endpoint p = do config ← from_profile p; ok (config.local_host, config.local_port)
