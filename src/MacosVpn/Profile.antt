-- ===== src/MacosVpn/Profile.antt =====
-- src/macos_vpn.rs: each function over the framework.
use tauri_vpn_plugin.Common.{
  String, Bool, true, false, not, List, [], ◌∷◌, Option, none, some, ◌==◌, string_eq, if◌then◌else◌,
}
use tauri_vpn_plugin.Common.Dict.{Dict}
use tauri_vpn_plugin.Errors.{VpnError, platform, Result, ok, err, ◌+s◌}
use tauri_vpn_plugin.Engine.Calls.{map_err}
use tauri_vpn_plugin.MacosVpn.Framework.{
  TunnelProtocol, Manager, NeVpnStatus, Completion, done, fails, waits, Framework,
}
use tauri_vpn_plugin.MacosVpn.Framework

abbrev pub tunnel_description : String
tunnel_description = "KOSTRA VPN"

abbrev pub provider_bundle_identifier : String
provider_bundle_identifier = "com.kostravpn.macos.PacketTunnel"

abbrev pub ns_error_description : Option String → String
ns_error_description none = "unknown NSError"
ns_error_description (some text) = text

-- `current == Some(description)`
abbrev pub is_described : String → Manager → Bool
is_described description manager = elim manager.localized_description [
  | none ↦ false
  | some current ↦ current == description
]

abbrev find_described : String → List Manager → Option Manager
find_described description [] = none
find_described description (manager ∷ managers) =
    let rest = find_described description managers in
    if is_described description manager then some manager else rest

unfoldable pub find_manager : Option (List Manager) → String → Option Manager
find_manager none description = none
find_manager (some managers) description = find_described description managers

-- `profile_id.unwrap_or_default()`, and the dictionary for one that is not empty.
abbrev pub provider_configuration : Option String → Option (Dict String String)
provider_configuration none = none
provider_configuration (some profile_id) =
    if profile_id == "" then none else some (("activeProfileId", profile_id) ∷ [])

-- What the block sets on the manager, with a new protocol object.
unfoldable pub configured : Option String → Manager → Manager
configured profile_id manager = record manager {
  protocol_configuration = some (record {
    provider_bundle_identifier = some provider_bundle_identifier;
    server_address = some tunnel_description;
    provider_configuration = provider_configuration profile_id;
  });
  localized_description = some tunnel_description;
  enabled = true;
}

-- A computation over the framework's state.
abbrev pub Over : Type 0 → Type 0 → Type 0
Over S A = S → Result A × S

infixl 5 ◌>>=◌
abbrev pub ◌>>=◌ : {S A B : Type 0} → Over S A → (A → Over S B) → Over S B
(first >>= next) s = let (r, s') = first s in elim r [ ok a ↦ next a s' | err e ↦ (err e, s') ]

abbrev check_signature : String → VpnError
check_signature error = platform (
    error
    +s ". Check the app signature, NetworkExtension entitlement, provisioning profile, and embedded PacketTunnel extension.")

abbrev pub adding_timed_out : VpnError
adding_timed_out = platform "timed out while adding KOSTRA VPN to macOS VPN settings"

abbrev pub loading_timed_out : VpnError
loading_timed_out = platform "timed out while loading KOSTRA VPN from macOS VPN settings"

abbrev pub not_found : VpnError
not_found = platform "KOSTRA VPN profile was not found in macOS VPN settings"

module _ {S : Type 0} (fw : Framework S) where
  abbrev pub found_or_new : Option Manager → S → Manager × S
  found_or_new none s = fw.new_manager s
  found_or_new (some manager) s = (manager, s)

  abbrev pub saved : Completion (Unit {0}) → Result (Unit {0})
  saved (done u) = ok tt
  saved (fails error) =
      err (check_signature ("failed to save macOS VPN preferences: " +s ns_error_description error))
  saved waits = err adding_timed_out

  abbrev pub configure_and_save : Option String → Manager × S → Result (Unit {0}) × S
  configure_and_save profile_id (manager, s) =
      let (completion, s') = fw.save (configured profile_id manager) s in (saved completion, s')

  abbrev pub save_loaded :
      Option String → Completion (Option (List Manager)) × S → Result (Unit {0}) × S
  save_loaded profile_id (fails error, s) = (
    err (check_signature ("failed to load macOS VPN preferences: " +s ns_error_description error)),
    s,
  )
  save_loaded profile_id (waits, s) = (err adding_timed_out, s)
  save_loaded profile_id (done managers, s) =
      configure_and_save profile_id (found_or_new (find_manager managers tunnel_description) s)

  -- The first argument is not read, as in the source.
  unfoldable pub save_vpn_profile : Option String → Option String → Over S (Unit {0})
  save_vpn_profile config_json profile_id s = save_loaded profile_id (fw.load_all s)

  abbrev pub loaded : Completion (Option (List Manager)) → Result Manager
  loaded (fails error) =
      err (platform ("failed to reload macOS VPN preferences: " +s ns_error_description error))
  loaded waits = err loading_timed_out
  loaded (done managers) = elim (find_manager managers tunnel_description) [
    | none ↦ err not_found
    | some manager ↦ ok manager
  ]

  unfoldable pub load_manager : Over S Manager
  load_manager s = let (completion, s') = fw.load_all s in (loaded completion, s')

  unfoldable pub install_vpn_profile : Over S (Unit {0})
  install_vpn_profile = save_vpn_profile none none

  abbrev pub start_session : String → Manager → Over S (Unit {0})
  start_session config_json manager s =
      if not (fw.is_tunnel_session manager s)
      then (err (platform "macOS VPN connection is not a NETunnelProviderSession"), s)
      else let (started, s') = fw.start_tunnel manager (("configContent", config_json) ∷ []) s in
        (
          map_err (λ text. platform ("failed to start macOS system VPN tunnel: " +s text)) started,
          s',
        )

  unfoldable pub start_vpn_profile : String → Option String → Over S (Unit {0})
  start_vpn_profile config_json profile_id = save_vpn_profile (some config_json) profile_id >>= λ u.
      load_manager >>= start_session config_json

  unfoldable pub stop_vpn_profile : Over S (Unit {0})
  stop_vpn_profile = load_manager >>= λ manager s. (ok tt, fw.stop_tunnel manager s)

  unfoldable pub vpn_profile_status : Over S NeVpnStatus
  vpn_profile_status = load_manager >>= λ manager s. (ok (fw.connection_status manager s), s)

  abbrev pub is_up : NeVpnStatus → Bool
  is_up Framework.connected = true
  is_up Framework.reasserting = true
  is_up status = false

  unfoldable pub is_vpn_profile_connected : Over S Bool
  is_vpn_profile_connected = vpn_profile_status >>= λ status s. (ok (is_up status), s)
