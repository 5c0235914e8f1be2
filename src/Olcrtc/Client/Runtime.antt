-- ===== src/Olcrtc/Client/Runtime.antt =====
-- src/olcrtc/client.rs: the start of the runtime, up to its tasks. What the system and the room answer is
-- an argument.
use tauri_vpn_plugin.Common.{
  Bool, true, not, ◌||◌, Option, none, some, ◌≡◌, refl, ◌==◌, string_eq, if◌then◌else◌,
}
use tauri_vpn_plugin.Errors.{
  unsupported, invalid_profile, engine, Result, ok, err, ensure, ◌+s◌, ◌>>◌,
}
use tauri_vpn_plugin.Models.{VpnProfile}
use tauri_vpn_plugin.Platform.{TargetOs, is_windows, is_macos, is_linux}
use tauri_vpn_plugin.Olcrtc.Crypto.{OlcCipher, from_hex}
use tauri_vpn_plugin.Olcrtc.Settings.{OlcRtcConfig, from_profile}
use tauri_vpn_plugin.Olcrtc.Settings.Checked.{from_profile-from_hex}
use tauri_vpn_plugin.Engine.Calls.{Tried, value, map_err}

-- The parse of the local address, the bind of the listener, the connection to the room and the sending
-- of the first reset.
pub record RuntimeAnswers : Type 0 where
  pub address : Tried (Unit {0})
  pub bound : Tried (Unit {0})
  pub joined : Result (Unit {0})
  pub reset : Result (Unit {0})

abbrev is_desktop : TargetOs → Bool
is_desktop os = is_windows os || is_macos os || is_linux os

abbrev listening : RuntimeAnswers → OlcRtcConfig → Result (Unit {0})
listening a config = do
  ensure (not (config.provider == "wb_stream"))
      (unsupported ("unsupported OLC RTC provider " +s config.provider))
  map_err (λ text. invalid_profile ("invalid OLC RTC local address: " +s text)) a.address
  map_err (λ text. engine ("OLC RTC SOCKS5 bind failed: " +s text)) a.bound

abbrev keyed : RuntimeAnswers → Result OlcCipher → Result (Unit {0})
keyed a (err e) = err e
keyed a (ok cipher) = a.joined >> a.reset

abbrev with_key : RuntimeAnswers → Option (Result OlcCipher) → Option (Result (Unit {0}))
with_key a none = none
with_key a (some cipher) = some (keyed a cipher)

abbrev listened : RuntimeAnswers → OlcRtcConfig → Result (Unit {0}) → Option (Result (Unit {0}))
listened a config (err e) = some (err e)
listened a config (ok u) = with_key a (from_hex config.key_hex)

-- None where the decoder of the key panics.
unfoldable pub start_platform :
    TargetOs → RuntimeAnswers → OlcRtcConfig → Option (Result (Unit {0}))
start_platform os a config =
    if is_desktop os
    then listened a config (listening a config)
    else some (
        err (
          unsupported
            "OLC RTC Rust client is currently enabled for Windows/macOS/Linux desktop only"))

-- The settings of a profile start a runtime without a panic: if the address parses and is bound, the result
-- is that of joining the room and sending the reset.
pub start_platform-from_profile :
    (os : TargetOs) (a : RuntimeAnswers) (p : VpnProfile) (c : OlcRtcConfig)
    → is_desktop os ≡ true
    → a.address ≡ value tt
    → a.bound ≡ value tt
    → from_profile p ≡ ok c
    → start_platform os a c ≡ some (a.joined >> a.reset)
unfolding start_platform
start_platform-from_profile os a p c desktop parsed bound read =
    let (provider, room, port, key) = from_profile-from_hex p c read in
    rw (desktop, provider, parsed, bound, key) refl
