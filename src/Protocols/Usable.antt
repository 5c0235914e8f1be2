-- ===== src/Protocols/Usable.antt =====
-- src/protocols.rs, `validate` against a description of the profiles that can be used.
use tauri_vpn_plugin.Common.{
  ℕ, String, Bool, true, false, not, ◌&&◌, ◌≡◌, ◌≢◌, ◌↔◌, ◌⊎◌, List, [], ◌∷◌, ◌++◌, Option, none,
  some, arith, ◌==◌, nat_eq, nat_beq_iff, string_eq, is_some,
}
use text.Mathlib.TextEquality.{eq_iff}
use tauri_vpn_plugin.Common.Text.{is_empty, is_blank, len, all_chars, is_ascii_hexdigit}
use tauri_vpn_plugin.Common.Dict.{get}
use tauri_vpn_plugin.Models.{
  VpnProtocol, vless, vmess, trojan, shadowsocks, wire_guard, hysteria, hysteria2, tuic, tun, mixed,
  socks, http, olc_rtc, VpnProfile, RealityOptions, is_vless,
}
use tauri_vpn_plugin.Platform.{push_if}
use tauri_vpn_plugin.Olcrtc.Settings.{string_of, unwrap_or, is_bad_key}
use tauri_vpn_plugin.Protocols.{
  bad_password, is_missing, protocol_errors, validation_errors, validate,
}

-- A credential is there and is not empty.
abbrev pub IsGiven : Option String → Type 0
IsGiven none = ⊥
IsGiven (some s) = is_empty s ≡ false

abbrev pub IsKey : String → Type 0
IsKey s = (len s ≡ 64) × (all_chars is_ascii_hexdigit s ≡ true)

abbrev pub HasKey : Option String → Type 0
HasKey none = ⊥
HasKey (some s) = (is_empty s ≡ false) × IsKey s

-- The provider is a text only if it is the supported one.
abbrev pub IsSupportedProvider : Option String → Type 0
IsSupportedProvider none = Unit
IsSupportedProvider (some s) = s ≡ "wb_stream"

-- The credentials that each protocol needs.
abbrev pub HasCredentials : VpnProtocol → VpnProfile → Type 0
HasCredentials vless p = IsGiven p.auth.uuid
HasCredentials vmess p = IsGiven p.auth.uuid
HasCredentials trojan p = IsGiven p.auth.password
HasCredentials hysteria p = IsGiven p.auth.password
HasCredentials hysteria2 p = IsGiven p.auth.password
HasCredentials tuic p = IsGiven p.auth.password
HasCredentials shadowsocks p = IsGiven p.auth.password × IsGiven p.auth.method
HasCredentials wire_guard p = p.wireguard ≢ none
HasCredentials tun p = ⊥
HasCredentials mixed p = ⊥
HasCredentials socks p = Unit
HasCredentials http p = Unit
HasCredentials olc_rtc p =
    HasKey p.auth.password × IsSupportedProvider (string_of (get "provider" p.extra))

pub record IsUsable (p : VpnProfile) : Type 0 where
  pub named : is_blank p.name ≡ false
  pub hosted : is_blank p.server ≡ false
  pub port : p.port ≢ 0
  pub credentials : HasCredentials p.protocol p
  pub reality : (p.reality ≡ none) ⊎ (p.protocol ≡ vless)

push_if-nil : (b : Bool) (s : String) → (push_if b s ≡ []) ↔ (b ≡ false)
push_if-nil b s = ground arith

append-nil_iff : {A : Type 0} (xs ys : List A) → (xs ++ ys ≡ []) ↔ ((xs ≡ []) × (ys ≡ []))
append-nil_iff [] ys = ground arith
append-nil_iff (x ∷ xs) ys = ground arith

is_missing_iff : (o : Option String) → (is_missing o ≡ false) ↔ IsGiven o
is_missing_iff none = ground arith
is_missing_iff (some s) = ground arith

key_iff : (o : Option String) → ((is_missing o ≡ false) × (bad_password o ≡ false)) ↔ HasKey o
unfolding is_bad_key
key_iff none = ground arith
key_iff (some s) = ground (arith, nat_beq_iff (len s) 64)

provider_iff :
    (o : Option String)
    → (not (unwrap_or o "wb_stream" == "wb_stream") ≡ false) ↔ IsSupportedProvider o
provider_iff none = ground (arith, eq_iff "wb_stream" "wb_stream")
provider_iff (some s) = ground (arith, eq_iff s "wb_stream")

credentials_iff :
    (protocol : VpnProtocol) (p : VpnProfile)
    → (protocol_errors protocol p ≡ []) ↔ HasCredentials protocol p
unfolding protocol_errors
credentials_iff vless p = ground (arith, is_missing_iff p.auth.uuid)
credentials_iff vmess p = ground (arith, is_missing_iff p.auth.uuid)
credentials_iff trojan p = ground (arith, is_missing_iff p.auth.password)
credentials_iff hysteria p = ground (arith, is_missing_iff p.auth.password)
credentials_iff hysteria2 p = ground (arith, is_missing_iff p.auth.password)
credentials_iff tuic p = ground (arith, is_missing_iff p.auth.password)
credentials_iff shadowsocks p =
    ground (arith, is_missing_iff p.auth.password, is_missing_iff p.auth.method)
credentials_iff wire_guard p = ground arith
credentials_iff tun p = ground arith
credentials_iff mixed p = ground arith
credentials_iff socks p = ground arith
credentials_iff http p = ground arith
credentials_iff olc_rtc p =
    ground (arith, key_iff p.auth.password, provider_iff (string_of (get "provider" p.extra)))

all_nil_iff :
    (a b c d e : List String)
    → (a ++ (b ++ (c ++ (d ++ e))) ≡ []) ↔ ((a ≡ []) × (b ≡ []) × (c ≡ []) × (d ≡ []) × (e ≡ []))
all_nil_iff [] [] [] [] e = ground arith
all_nil_iff (x ∷ a) b c d e = ground arith
all_nil_iff [] (x ∷ b) c d e = ground arith
all_nil_iff [] [] (x ∷ c) d e = ground arith
all_nil_iff [] [] [] (x ∷ d) e = ground arith

is_vless_iff : (q : VpnProtocol) → (is_vless q ≡ true) ↔ (q ≡ vless)
is_vless_iff vless = ground arith
is_vless_iff _ = ground arith

reality_iff :
    (r : Option RealityOptions) (q : VpnProtocol)
    → (is_some r && not (is_vless q) ≡ false) ↔ ((r ≡ none) ⊎ (q ≡ vless))
reality_iff none q = ground arith
reality_iff (some r) q = ground (arith, is_vless_iff q)

port_iff : (n : ℕ) (s : String) → (push_if (n == 0) s ≡ []) ↔ (n ≢ 0)
port_iff n s = ground arith

errors-IsUsable : (p : VpnProfile) → validation_errors p ≡ [] → IsUsable p
unfolding validation_errors
errors-IsUsable p e =
    let (n, h, q, c, r) = (all_nil_iff _ _ _ _ _).0 e in
    record {
      named = (push_if-nil _ _).0 n;
      hosted = (push_if-nil _ _).0 h;
      port = (port_iff _ _).0 q;
      credentials = (credentials_iff p.protocol p).0 c;
      reality = (reality_iff p.reality p.protocol).0 ((push_if-nil _ _).0 r);
    }

IsUsable-errors : (p : VpnProfile) → IsUsable p → validation_errors p ≡ []
unfolding validation_errors
IsUsable-errors p u = (all_nil_iff _ _ _ _ _).1 (
  (push_if-nil _ _).1 u.named,
  (push_if-nil _ _).1 u.hosted,
  (port_iff _ _).1 u.port,
  (credentials_iff p.protocol p).1 u.credentials,
  (push_if-nil _ _).1 ((reality_iff p.reality p.protocol).1 u.reality),
)

-- A profile is valid exactly when it can be used: it has a name, a server, a port that is not 0 and
-- the credentials of its protocol, it is no local inbound, and REALITY options stand only with
-- VLESS. An OLC RTC profile needs a key of 64 hexadecimal digits as its password, and names no other
-- provider.
pub validate_iff : (p : VpnProfile) → ((validate p).valid ≡ true) ↔ IsUsable p
unfolding validate
validate_iff p = (λ v. errors-IsUsable p (ground arith), λ u. ground (arith, IsUsable-errors p u))
