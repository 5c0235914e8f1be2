-- ===== src/Olcrtc/Settings/Checked.antt =====
-- src/olcrtc/mod.rs: what `from_profile` has checked when it succeeds.
use tauri_vpn_plugin.Common.{
  ◌<◌, ◌^◌, ◌≡◌, String, true, false, Option-cases, inl, inr, Option, some, arith, nat_eq,
  string_eq,
}
use text.Mathlib.TextEquality.{eq_iff}
use tauri_vpn_plugin.Common.Text.{
  is_blank, len, all_chars, is_ascii_hexdigit, parse_u16, parse_u16-lt,
}
use tauri_vpn_plugin.Common.Dict.{get}
use tauri_vpn_plugin.Errors.{ok}
use tauri_vpn_plugin.Models.{VpnProfile}
use tauri_vpn_plugin.Models.Json.{Value, string, number}
use tauri_vpn_plugin.Olcrtc.Crypto.{from_hex}
use tauri_vpn_plugin.Olcrtc.Crypto.Hex.{hex_bytes, decode_hex_32-hex}
use tauri_vpn_plugin.Olcrtc.Settings.{
  OlcRtcConfig, default_provider, default_local_port, string_extra, u16_of, u16_extra, unwrap_or,
  or_else, is_bad_key, from_profile,
}

u16_of-lt : (v : Option Value) → unwrap_or (u16_of v) default_local_port < 2 ^ 16
u16_of-lt (some (number n)) = ground arith
u16_of-lt (some (string s)) = elim (Option-cases (parse_u16 s)) [
  | inl e ↦ rw e (omega arith)
  | inr (m, e) ↦ rw e (parse_u16-lt s m e)
]
u16_of-lt _ = omega arith

pub record IsChecked (c : OlcRtcConfig) : Type 0 where
  pub provider : c.provider ≡ default_provider
  pub room : is_blank c.room_id ≡ false
  pub key_length : len c.key_hex ≡ 64
  pub key_digits : all_chars is_ascii_hexdigit c.key_hex ≡ true
  pub port : c.local_port < 2 ^ 16

bad_key-false :
    (key : String)
    → is_bad_key key ≡ false
    → (len key ≡ 64) × (all_chars is_ascii_hexdigit key ≡ true)
unfolding is_bad_key
bad_key-false key h = (ground arith, ground arith)

pub from_profile-IsChecked :
    (p : VpnProfile) (c : OlcRtcConfig) → from_profile p ≡ ok c → IsChecked c
unfolding from_profile u16_extra
from_profile-IsChecked p c e =
    let provider = unwrap_or (string_extra p "provider") default_provider in
    let key = or_else (string_extra p "key") p.auth.password in
    elim (Option-cases key) [
      | inl f ↦ absurd (ground arith)
      | inr (k, f) ↦ record {
        provider = ground (arith, eq_iff provider default_provider);
        room = ground arith;
        key_length = ground (arith, bad_key-false k);
        key_digits = ground (arith, bad_key-false k);
        port = ground (arith, u16_of-lt (get "localPort" p.extra));
      }
    ]

-- When the settings of a profile are accepted, the provider is the only supported one, the room is
-- not blank, the port fits 16 bits, and the cipher takes the key, without an error or a panic, as
-- the 32 bytes that its 64 hexadecimal digits stand for.
pub from_profile-from_hex :
    (p : VpnProfile) (c : OlcRtcConfig)
    → from_profile p ≡ ok c
    → (c.provider ≡ default_provider)
      × (is_blank c.room_id ≡ false)
      × (c.local_port < 2 ^ 16)
      × (from_hex c.key_hex ≡ some (ok (record { key = hex_bytes c.key_hex })))
unfolding from_hex
from_profile-from_hex p c e =
    let h = from_profile-IsChecked p c e in
    (h.provider, h.room, h.port, rw (decode_hex_32-hex c.key_hex h.key_length h.key_digits))
