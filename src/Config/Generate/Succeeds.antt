-- ===== src/Config/Generate/Succeeds.antt =====
-- src/config.rs, `generate_sing_box_config`: when a configuration is generated, and what it holds.
use tauri_vpn_plugin.Common.Text.{is_empty, is_blank, contains, trim}
use tauri_vpn_plugin.Common.{
  List, [], ◌∷◌, ◌⊎◌, if◌then◌else◌, subst, String, Bool, true, false, not, ◌≡◌, ◌↔◌, refl, Option,
  none, some, arith, Bool-cases, inl, inr, is_empty as is_nil,
}
use tauri_vpn_plugin.Errors.{Result, ok, err, ◌>>=◌}
use tauri_vpn_plugin.Models.{
  VpnProtocol, vless, vmess, trojan, shadowsocks, wire_guard, hysteria, hysteria2, tuic, tun, mixed,
  socks, http, olc_rtc, VpnProfile, WireGuardOptions, ConnectOptions,
}
use tauri_vpn_plugin.Platform.{TargetOs}
use tauri_vpn_plugin.Protocols.{validate}
use tauri_vpn_plugin.Protocols.Usable.{IsGiven, HasCredentials, IsUsable, validate_iff}
use tauri_vpn_plugin.Olcrtc.Settings.{OlcRtcConfig, from_profile, local_socks_endpoint}
use tauri_vpn_plugin.Config.Dns.{is_ipv4_text}
use tauri_vpn_plugin.Config.Routes.{ipv4_only_cidrs}
use tauri_vpn_plugin.Config.Outbound.{required, base_outbound, outbound_for_profile}
use tauri_vpn_plugin.Config.Generate.{generate_sing_box_config}

abbrev pub is_ok {ℓ} : {A : Type ℓ} → Result A → Bool
is_ok (ok a) = true
is_ok (err e) = false

-- Some text that is not blank holds no colon.
abbrev pub HasColonless : List String → Type 0
HasColonless [] = ⊥
HasColonless (s ∷ ss) = ((is_blank s ≡ false) × (contains b':' (trim s) ≡ false)) ⊎ HasColonless ss

-- What the outbound needs beyond the credentials.
abbrev pub CanConnect : VpnProtocol → VpnProfile → Type 0
CanConnect wire_guard p =
    (wg : WireGuardOptions) × (p.wireguard ≡ some wg) × HasColonless wg.local_address
CanConnect olc_rtc p = (config : OlcRtcConfig) × (from_profile p ≡ ok config)
CanConnect _ p = Unit

abbrev has_ipv4 : Option WireGuardOptions → Bool
has_ipv4 none = false
has_ipv4 (some wg) = not (is_nil (ipv4_only_cidrs wg.local_address))

-- The code's test of the same.
abbrev can_connect : VpnProtocol → VpnProfile → Bool
can_connect wire_guard p = has_ipv4 p.wireguard
can_connect olc_rtc p = is_ok (from_profile p)
can_connect _ p = true

kept_iff :
    (b : Bool) (s : String) (ss : List String)
    → (not (is_nil (if b then s ∷ ss else ss)) ≡ true) ↔ ((b ≡ true) ⊎ (not (is_nil ss) ≡ true))
kept_iff true s ss = (λ e. inl refl, λ h. refl)
kept_iff false s ss = (λ e. inr e, λ h. ground arith)

is_ipv4_text_iff :
    (s : String)
    → (is_ipv4_text (trim s) ≡ true) ↔ ((is_blank s ≡ false) × (contains b':' (trim s) ≡ false))
is_ipv4_text_iff s = elim (Bool-cases (is_empty (trim s))) [
  | inl e ↦ ground (arith, e)
  | inr e ↦ ground (arith, e)
]

ipv4_only_cidrs_iff :
    (ss : List String) → (not (is_nil (ipv4_only_cidrs ss)) ≡ true) ↔ HasColonless ss
unfolding ipv4_only_cidrs
ipv4_only_cidrs_iff [] = (λ e. cc e, λ h. absurd h)
ipv4_only_cidrs_iff (s ∷ ss) =
    let kept = kept_iff (is_ipv4_text (trim s)) (trim s) (ipv4_only_cidrs ss) in
    let text = is_ipv4_text_iff s in
    let rest = ipv4_only_cidrs_iff ss in
    (
      λ e. elim (kept.0 e) [ inl f ↦ inl (text.0 f) | inr f ↦ inr (rest.0 f) ],
      λ h. elim h [ inl f ↦ kept.1 (inl (text.1 f)) | inr f ↦ kept.1 (inr (rest.1 f)) ],
    )

some_eq : {a b : WireGuardOptions} → some a ≡ some b → b.local_address ≡ a.local_address
some_eq e = cc e

has_ipv4_iff :
    (o : Option WireGuardOptions)
    → (has_ipv4 o ≡ true)
      ↔ ((wg : WireGuardOptions) × (o ≡ some wg) × HasColonless wg.local_address)
has_ipv4_iff none = (λ e. cc e, λ (wg, e, h). cc e)
has_ipv4_iff (some wg) =
    let cidrs = ipv4_only_cidrs_iff wg.local_address in
    (λ e. (wg, refl, cidrs.0 e), λ (x, e, h). cidrs.1 (subst HasColonless (some_eq e) h))

is_ok_iff : {A : Type 0} (r : Result A) → (is_ok r ≡ true) ↔ ((a : A) × (r ≡ ok a))
is_ok_iff (ok a) = (λ e. (a, refl), λ h. refl)
is_ok_iff (err x) = (λ e. cc e, λ (a, e). cc e)

can_connect_iff : (q : VpnProtocol) (p : VpnProfile) → (can_connect q p ≡ true) ↔ CanConnect q p
can_connect_iff wire_guard p = has_ipv4_iff p.wireguard
can_connect_iff olc_rtc p = is_ok_iff (from_profile p)
can_connect_iff vless p = (λ e. tt, λ h. refl)
can_connect_iff vmess p = (λ e. tt, λ h. refl)
can_connect_iff trojan p = (λ e. tt, λ h. refl)
can_connect_iff shadowsocks p = (λ e. tt, λ h. refl)
can_connect_iff hysteria p = (λ e. tt, λ h. refl)
can_connect_iff hysteria2 p = (λ e. tt, λ h. refl)
can_connect_iff tuic p = (λ e. tt, λ h. refl)
can_connect_iff tun p = (λ e. tt, λ h. refl)
can_connect_iff mixed p = (λ e. tt, λ h. refl)
can_connect_iff socks p = (λ e. tt, λ h. refl)
can_connect_iff http p = (λ e. tt, λ h. refl)

required-IsGiven : (o : Option String) (f : String) → IsGiven o → is_ok (required o f) ≡ true
unfolding required
required-IsGiven none f h = absurd h
required-IsGiven (some s) f h = rw h refl

bind_ok :
    {A B : Type 0} (r : Result A) (f : A → Result B)
    → ((a : A) → is_ok (f a) ≡ true)
    → is_ok r ≡ true
    → is_ok (r >>= f) ≡ true
bind_ok (ok a) f g h = g a
bind_ok (err e) f g h = cc

base_outbound-is_ok :
    (q : VpnProtocol) (p : VpnProfile)
    → HasCredentials q p
    → is_ok (base_outbound q p) ≡ can_connect q p
unfolding base_outbound local_socks_endpoint
base_outbound-is_ok vless p h =
    bind_ok (required p.auth.uuid "uuid") _ (λ a. refl) (required-IsGiven _ _ h)
base_outbound-is_ok vmess p h =
    bind_ok (required p.auth.uuid "uuid") _ (λ a. refl) (required-IsGiven _ _ h)
base_outbound-is_ok trojan p h =
    bind_ok (required p.auth.password "password") _ (λ a. refl) (required-IsGiven _ _ h)
base_outbound-is_ok shadowsocks p h =
    bind_ok (required p.auth.method "method") _
      (λ a. bind_ok (required p.auth.password "password") _ (λ b. refl) (required-IsGiven _ _ h.0))
      (required-IsGiven _ _ h.1)
base_outbound-is_ok wire_guard p h = ground arith
base_outbound-is_ok hysteria p h =
    bind_ok (required p.auth.password "password") _ (λ a. refl) (required-IsGiven _ _ h)
base_outbound-is_ok hysteria2 p h =
    bind_ok (required p.auth.password "password") _ (λ a. refl) (required-IsGiven _ _ h)
base_outbound-is_ok tuic p h =
    bind_ok (required p.auth.password "password") _ (λ a. refl) (required-IsGiven _ _ h)
base_outbound-is_ok socks p h = refl
base_outbound-is_ok http p h = refl
base_outbound-is_ok olc_rtc p h = ground arith
base_outbound-is_ok tun p h = absurd h
base_outbound-is_ok mixed p h = absurd h

outbound-is_ok :
    (p : VpnProfile)
    → HasCredentials p.protocol p
    → is_ok (outbound_for_profile p) ≡ can_connect p.protocol p
unfolding outbound_for_profile
outbound-is_ok p h = ground (arith, base_outbound-is_ok p.protocol p h)

-- A configuration is generated exactly when the profile can be used, a local address of a WireGuard
-- profile is not blank and holds no colon (which is all that the code asks of an IPv4 address), and the
-- settings of an OLC RTC profile are accepted; otherwise the caller gets an error.
pub generate_iff :
    (os : TargetOs) (options : ConnectOptions)
    → (is_ok (generate_sing_box_config os options) ≡ true)
      ↔ (IsUsable options.profile × CanConnect options.profile.protocol options.profile)
unfolding generate_sing_box_config
generate_iff os options =
    let p = options.profile in
    let connects = can_connect_iff p.protocol p in
    elim (Bool-cases (validate p).valid) [
      | inl v ↦ ground (arith, validate_iff p, outbound-is_ok p, connects)
      | inr v ↦ ground (arith, validate_iff p, outbound-is_ok p, connects)
    ]
