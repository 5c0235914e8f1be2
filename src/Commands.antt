-- ===== src/Commands.antt =====
-- src/commands.rs and src/state.rs: the commands, over the status that the plugin's state holds. A
-- command holds the lock on the status in two separate sections, which are functions of their own;
-- between them it waits for the engine, whose `start` and `stop` are parameters over a state `W`.
pub mod Lifecycle
pub mod Outcomes
pub mod Sessions
use tauri_vpn_plugin.Common.{
  ℕ, String, Bool, true, false, List, [], ◌∷◌, ◌++◌, Option, none, some, if◌then◌else◌, first,
}
use tauri_vpn_plugin.Errors.{VpnError, already_running, display, Result, ok, err}
use tauri_vpn_plugin.Models.{
  Uuid, ConnectOptions, ConnectionPhase, disconnected, connecting, connected, disconnecting, failed,
  ConnectionStatus, default_connection_status,
}
use tauri_vpn_plugin.Platform.{TargetOs, is_mobile, is_macos}

-- `VpnState`, less the engine and the mobile handle, with the events that were emitted, in order.
pub record VpnState : Type 0 where
  pub status : ConnectionStatus
  pub emitted : List (String × ConnectionStatus)

-- `VpnState::new`
abbrev pub new_state : VpnState
new_state = record { status = default_connection_status; emitted = [] }

-- Stores a status and emits it.
abbrev pub announce : String → ConnectionStatus → VpnState → VpnState
announce event status s = record { status = status; emitted = s.emitted ++ (event, status) ∷ [] }

-- `matches!(phase, ConnectionPhase::Connected | ConnectionPhase::Connecting)`
abbrev pub is_active : ConnectionPhase → Bool
is_active connected = true
is_active connecting = true
is_active _ = false

abbrev is_disconnected : ConnectionPhase → Bool
is_disconnected disconnected = true
is_disconnected _ = false

-- The first locked section of `connect`.
unfoldable pub begin_connect : ConnectOptions → VpnState → Result (Unit {0}) × VpnState
begin_connect options s = if is_active s.status.phase then (err already_running, s) else (
  ok tt,
  announce "vpn:status"
      (record s.status {
        phase = connecting;
        active_profile_id = some options.profile.id;
        message = some "Connecting";
      })
      s,
)

abbrev or_connected : Option String → Option String
or_connected none = some "Connected"
or_connected (some warning) = some warning

-- The second locked section of `connect`, by the result of the engine.
unfoldable pub finish_connect : Result (List String) → VpnState → Result ConnectionStatus × VpnState
finish_connect (ok warnings) s =
    let status = record s.status { phase = connected; message = or_connected (first warnings) } in
    (ok status, announce "vpn:status" status s)
finish_connect (err error) s = (
  err error,
  announce "vpn:error" (record s.status { phase = failed; message = some (display error) }) s,
)

-- The first locked section of `disconnect`.
unfoldable pub begin_disconnect : VpnState → VpnState
begin_disconnect s =
    announce "vpn:status"
      (record s.status { phase = disconnecting; message = some "Disconnecting" }) s

-- What follows the engine in `disconnect`: the `?`, then the second locked section.
unfoldable pub finish_disconnect : Result (Unit {0}) → VpnState → Result ConnectionStatus × VpnState
finish_disconnect (err error) s = (err error, s)
finish_disconnect (ok u) s =
    (ok default_connection_status, announce "vpn:status" default_connection_status s)

module _ {W : Type 0} where
  -- `connect`, when no other command runs in between.
  unfoldable pub connect :
      (ConnectOptions → W → Result (List String) × W)
      → ConnectOptions
      → VpnState × W
      → Result ConnectionStatus × VpnState × W
  connect start options (s, w) =
      let (admitted, s') = begin_connect options s in
      elim admitted [
        | err e ↦ (err e, s', w)
        | ok u ↦
            let (started, w') = start options w in
            let (r, s'') = finish_connect started s' in (r, s'', w')
      ]

  -- `disconnect`, when no other command runs in between.
  unfoldable pub disconnect :
      (W → Result (Unit {0}) × W) → VpnState × W → Result ConnectionStatus × VpnState × W
  disconnect stop (s, w) =
      let (stopped, w') = stop w in
      let (r, s') = finish_disconnect stopped (begin_disconnect s) in (r, s', w')

-- The phase and message of a session that was found to be running already.
abbrev recovered : ConnectionStatus → ConnectionStatus
recovered status =
    if is_disconnected status.phase
    then record status { phase = connected; message = some "Connected (Recovered)" }
    else status

abbrev lost : ConnectionStatus → ConnectionStatus
lost status =
    if is_active status.phase
    then record status { phase = disconnected; message = none }
    else status

abbrev with_profile : Option Uuid → ConnectionStatus → ConnectionStatus
with_profile none status = status
with_profile (some uuid) status = record status { active_profile_id = some uuid }

-- `profile_id`, parsed: `Uuid::parse_str` is a parameter.
abbrev parsed : (String → Option Uuid) → Option String → Option Uuid
parsed parse_uuid none = none
parsed parse_uuid (some s) = parse_uuid s

-- The mobile part of `status`, by the answer of the mobile plugin.
unfoldable pub mobile_status :
    (String → Option Uuid) → Result (Bool × Option String) → ConnectionStatus → ConnectionStatus
mobile_status parse_uuid (err e) status = status
mobile_status parse_uuid (ok (established, profile_id)) status =
    if established
    then with_profile (parsed parse_uuid profile_id) (recovered status)
    else lost status

-- The macOS part of `status`, by whether the VPN profile is connected.
unfoldable pub macos_status : Result Bool → ConnectionStatus → ConnectionStatus
macos_status (err e) status = status
macos_status (ok true) status = recovered status
macos_status (ok false) status = lost status

unfoldable pub status :
    TargetOs
    → (String → Option Uuid)
    → Result (Bool × Option String)
    → Result Bool
    → VpnState
    → Result ConnectionStatus × VpnState
status os parse_uuid mobile macos_connected s =
    let a = if is_mobile os then mobile_status parse_uuid mobile s.status else s.status in
    let b = if is_macos os then macos_status macos_connected a else a in
    (ok b, record s { status = b })
