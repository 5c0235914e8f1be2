-- ===== src/Commands/Outcomes.antt =====
-- src/commands.rs: what each command does on every result of the engine.
use tauri_vpn_plugin.Common.{String, Bool, true, false, ◌≡◌, refl, List, Option, some, arith}
use tauri_vpn_plugin.Errors.{VpnError, already_running, display, Result, ok, err}
use tauri_vpn_plugin.Models.{
  Uuid, ConnectOptions, connecting, connected, disconnecting, failed, disconnected,
  ConnectionStatus,
}
use tauri_vpn_plugin.Platform.{TargetOs, android, ios, macos}
use tauri_vpn_plugin.Commands.{
  VpnState, is_active, begin_connect, finish_connect, begin_disconnect, finish_disconnect, connect,
  disconnect, mobile_status, macos_status, status,
}

-- What the caller gets and what the status says, by the result of the engine's `start`.
abbrev pub IsOutcome : Result (List String) → Result ConnectionStatus → ConnectionStatus → Type 0
IsOutcome (ok warnings) r st = (r ≡ ok st) × (st.phase ≡ connected)
IsOutcome (err e) r st = (r ≡ err e) × (st.phase ≡ failed) × (st.message ≡ some (display e))

finish_connect-IsOutcome :
    (started : Result (List String)) (s : VpnState)
    → IsOutcome started (finish_connect started s).0 (finish_connect started s).1.status
      × ((finish_connect started s).1.status.active_profile_id ≡ s.status.active_profile_id)
unfolding finish_connect
finish_connect-IsOutcome (ok ws) s = ((refl, refl), refl)
finish_connect-IsOutcome (err e) s = ((refl, refl, refl), refl)

-- `status` does not change the phase of a connection that is being shut down.
mobile_status-stays :
    (parse_uuid : String → Option Uuid) (m : Result (Bool × Option String)) (st : ConnectionStatus)
    → st.phase ≡ disconnecting
    → (mobile_status parse_uuid m st).phase ≡ disconnecting
unfolding mobile_status
mobile_status-stays parse_uuid (err e) st h = h
mobile_status-stays parse_uuid (ok (true, id)) st h = ground arith
mobile_status-stays parse_uuid (ok (false, id)) st h = ground arith

macos_status-stays :
    (c : Result Bool) (st : ConnectionStatus)
    → st.phase ≡ disconnecting
    → (macos_status c st).phase ≡ disconnecting
unfolding macos_status
macos_status-stays (err e) st h = h
macos_status-stays (ok true) st h = ground arith
macos_status-stays (ok false) st h = ground arith

status-stays :
    (os : TargetOs) (parse_uuid : String → Option Uuid) (m : Result (Bool × Option String))
    (c : Result Bool) (s : VpnState)
    → s.status.phase ≡ disconnecting
    → (status os parse_uuid m c s).1.status.phase ≡ disconnecting
unfolding status
status-stays os parse_uuid m c s h = ground (
  arith,
  mobile_status-stays parse_uuid m s.status,
  macos_status-stays c s.status,
  macos_status-stays c (mobile_status parse_uuid m s.status),
)

begin_connect-phase :
    (options : ConnectOptions) (s s' : VpnState)
    → begin_connect options s ≡ (ok tt, s')
    → s'.status.phase ≡ connecting
unfolding begin_connect
begin_connect-phase options s s' e = ground arith

begin_connect-admits :
    (options : ConnectOptions) (s : VpnState)
    → is_active s.status.phase ≡ false
    → (begin_connect options s).0 ≡ ok tt
unfolding begin_connect
begin_connect-admits options s h = rw h refl

module _ {W : Type 0} where
  -- While a connection is up or being made, `connect` is refused as already running: neither the
  -- state nor the engine is touched.
  pub connect_refused :
      (start : ConnectOptions → W → Result (List String) × W) (options : ConnectOptions)
      (s : VpnState) (w : W)
      → is_active s.status.phase ≡ true
      → connect start options (s, w) ≡ (err already_running, s, w)
  unfolding connect begin_connect
  connect_refused start options s w h = ground arith

  -- When no connection is up or being made, `connect` starts the engine once, with the options
  -- given, and makes the profile the active one; the engine's result decides. On success the
  -- caller gets the status that is stored, which says connected; on an error the caller gets that
  -- error, and the stored status says failed, with the error's text.
  pub connect-IsOutcome :
      (start : ConnectOptions → W → Result (List String) × W) (options : ConnectOptions)
      (s : VpnState) (w : W)
      → is_active s.status.phase ≡ false
      → let (r, s', w') = connect start options (s, w) in
        (w' ≡ (start options w).1)
        × (s'.status.active_profile_id ≡ some options.profile.id)
        × IsOutcome (start options w).0 r s'.status
  unfolding connect begin_connect
  connect-IsOutcome start options s w h =
      ground (arith, finish_connect-IsOutcome (start options w).0 (begin_connect options s).1)

  -- When the engine fails to stop, `disconnect` returns its error and leaves the status at
  -- disconnecting. On every target and whatever the platform answers, a `status` after that leaves
  -- it there, while a `connect` is admitted.
  pub disconnect_failed :
      (stop : W → Result (Unit {0}) × W) (s : VpnState) (w : W) (e : VpnError)
      → (stop w).0 ≡ err e
      → let (r, s', w') = disconnect stop (s, w) in
        (r ≡ err e)
        × (s'.status.phase ≡ disconnecting)
        × ((os : TargetOs) (parse_uuid : String → Option Uuid)
              (mobile : Result (Bool × Option String)) (macos_connected : Result Bool)
            → (status os parse_uuid mobile macos_connected s').1.status.phase ≡ disconnecting)
        × ((options : ConnectOptions) → (begin_connect options s').0 ≡ ok tt)
  unfolding disconnect finish_disconnect begin_disconnect
  disconnect_failed stop s w e h = rw h (
    refl,
    refl,
    λ os parse_uuid m c. status-stays os parse_uuid m c _ refl,
    λ options. begin_connect-admits options _ refl,
  )

-- While a connection is being made, a `status` that hears from the platform (the mobile plugin, or
-- macOS) that no tunnel is up yet sets the status back to disconnected, and a second `connect` is
-- then admitted while the first still waits for the engine.
pub status_readmits :
    (parse_uuid : String → Option Uuid) (profile_id : Option String)
    (mobile : Result (Bool × Option String)) (macos_connected : Result Bool)
    (options again : ConnectOptions) (s s' : VpnState)
    → begin_connect options s ≡ (ok tt, s')
    → let reads =
        λ (t : VpnState). (t.status.phase ≡ disconnected) × ((begin_connect again t).0 ≡ ok tt) in
      reads (status android parse_uuid (ok (false, profile_id)) macos_connected s').1
      × reads (status ios parse_uuid (ok (false, profile_id)) macos_connected s').1
      × reads (status macos parse_uuid mobile (ok false) s').1
unfolding status mobile_status macos_status
status_readmits parse_uuid profile_id mobile macos_connected options again s s' e =
    let h = begin_connect-phase options s s' e in
    rw h (
      (refl, begin_connect-admits again _ refl),
      (refl, begin_connect-admits again _ refl),
      (refl, begin_connect-admits again _ refl),
    )
