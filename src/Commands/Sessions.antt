-- ===== src/Commands/Sessions.antt =====
-- src/commands.rs with src/engine.rs: the commands over the engine of a desktop that runs sing-box
-- itself, one after the other.
use tauri_vpn_plugin.Common.{
  String, Bool, true, false, ◌≡◌, ◌≢◌, refl, List, [], Bool-cases, inl, inr, Option-cases, sym, ◌∙◌,
  some, none, is_some, arith,
}
use tauri_vpn_plugin.Errors.{Result, ok, err, to_option}
use tauri_vpn_plugin.Models.{ConnectOptions, ConnectionPhase, connecting, connected, disconnecting}
use tauri_vpn_plugin.Platform.{TargetOs, is_macos}
use tauri_vpn_plugin.Engine.Calls.{Machine, default_engine}
use tauri_vpn_plugin.Engine.Desktop.{StartAnswers, start_desktop}
use tauri_vpn_plugin.Engine.Stop.{StopAnswers, stop_desktop}
use tauri_vpn_plugin.Engine.Session.{
  Reach, fresh, started, stopped, Session, session, Starts, refuses, gives_up, runs, Stops, ends,
  leaves, Reach-Starts, Reach-Stops,
}
use tauri_vpn_plugin.Commands.Outcomes.{connect_refused}
use tauri_vpn_plugin.Commands.{
  VpnState, new_state, is_active, begin_connect, finish_connect, begin_disconnect,
  finish_disconnect, connect, disconnect,
}

-- What commands lead to, whatever the system answers.
pub data Runs (os : TargetOs) : VpnState → Machine → Type 0 where
  begins : Runs os new_state (record { engine = default_engine; effects = [] })
  connects :
      {s : VpnState} {w : Machine} (a : StartAnswers) (options : ConnectOptions)
      → Runs os s w
      → Runs os
          (connect (start_desktop os a) options (s, w)).1
          (connect (start_desktop os a) options (s, w)).2
  disconnects :
      {s : VpnState} {w : Machine} (a : StopAnswers)
      → Runs os s w
      → Runs os (disconnect (stop_desktop os a) (s, w)).1 (disconnect (stop_desktop os a) (s, w)).2

abbrev pub is_connected : ConnectionPhase → Bool
is_connected connected = true
is_connected _ = false

-- The phase is settled, and it is Connected exactly while there is a session.
abbrev IsSettled : VpnState → Session → Type 0
IsSettled s b = (is_connected s.status.phase ≡ b.running) × (is_active s.status.phase ≡ b.running)

finish_connect-IsSettled :
    {wanted : Bool} {before after : Session} {r : Result (List String)} (s : VpnState)
    → before.running ≡ false
    → Starts wanted before r after
    → IsSettled (finish_connect r s).1 after
unfolding finish_connect
finish_connect-IsSettled s off refuses = cc off
finish_connect-IsSettled s off gives_up = (refl, refl)
finish_connect-IsSettled s off runs = (refl, refl)

finish_disconnect-IsSettled :
    {before after : Session} {r : Result (Unit {0})} (s : VpnState)
    → Stops before r after
    → IsSettled (finish_disconnect r (begin_disconnect s)).1 after
unfolding finish_disconnect begin_disconnect
finish_disconnect-IsSettled s ends = (refl, refl)
finish_disconnect-IsSettled s leaves = (refl, refl)

Stops-running :
    {before after : Session} {r : Result (Unit {0})} {u : Unit {0}}
    → to_option r ≡ some u
    → Stops before r after
    → before.running ≡ true
Stops-running e ends = refl
Stops-running e leaves = cc e

finish_disconnect_idle :
    (r : Result (Unit {0})) (s : VpnState)
    → to_option r ≡ none
    → (to_option (finish_disconnect r s).0 ≡ none) × ((finish_disconnect r s).1 ≡ s)
unfolding finish_disconnect
finish_disconnect_idle (ok u) s e = cc e
finish_disconnect_idle (err x) s e = (refl, refl)

module _ (os : TargetOs) (macos : is_macos os ≡ false) where
  connect_admitted :
      (start : ConnectOptions → Machine → Result (List String) × Machine) (options : ConnectOptions)
      (s : VpnState) (w : Machine)
      → is_active s.status.phase ≡ false
      → connect start options (s, w) ≡ (
        (finish_connect (start options w).0 (begin_connect options s).1).0,
        (finish_connect (start options w).0 (begin_connect options s).1).1,
        (start options w).1,
      )
  unfolding connect begin_connect
  connect_admitted start options s w e = ground arith

  Runs-IsSettled : {s : VpnState} {w : Machine} → Runs os s w → IsSettled s (session w) × Reach os w
  unfolding connect disconnect
  Runs-IsSettled begins = ((refl, refl), fresh)
  Runs-IsSettled (connects {s} {w} a options r) =
      let (settled, reach) = Runs-IsSettled r in
      elim (Bool-cases (is_active s.status.phase)) [
        | inl e ↦ rw (connect_refused (start_desktop os a) options s w e) (settled, reach)
        | inr e ↦ rw (connect_admitted (start_desktop os a) options s w e) (
          finish_connect-IsSettled _ (sym settled.1 ∙ e) (Reach-Starts os macos reach a options),
          started a options reach,
        )
      ]
  Runs-IsSettled (disconnects {s} {w} a r) =
      let (settled, reach) = Runs-IsSettled r in
      (finish_disconnect-IsSettled s (Reach-Stops os macos reach a), stopped a reach)

  -- After any commands, one after the other and whatever the system answers, on a desktop that runs
  -- sing-box itself: the status says Connected exactly while the engine holds a process, it never stays
  -- at Connecting, and the calls of the engine are those of a run of the engine alone.
  pub Runs-connected_iff :
      {s : VpnState} {w : Machine}
      → Runs os s w
      → (is_connected s.status.phase ≡ is_some w.engine.child)
        × (s.status.phase ≢ connecting)
        × Reach os w
  Runs-connected_iff {s} {w} r =
      let ((is, active), reach) = Runs-IsSettled r in
      (is, λ e. ground (arith, e, is, active), reach)

  -- On a desktop that runs sing-box itself (not macOS), after any commands one after the other, whatever
  -- the system answered to them, a disconnect while the engine holds no process fails, and leaves the
  -- status at Disconnecting.
  pub Runs-disconnect_idle :
      {s : VpnState} {w : Machine} (a : StopAnswers)
      → Runs os s w
      → w.engine.child ≡ none
      → (to_option (disconnect (stop_desktop os a) (s, w)).0 ≡ none)
        × ((disconnect (stop_desktop os a) (s, w)).1.status.phase ≡ disconnecting)
  unfolding disconnect begin_disconnect
  Runs-disconnect_idle {s} {w} a r idle =
      let (settled, reach) = Runs-IsSettled r in
      elim (Option-cases (to_option (stop_desktop os a w).0)) [
        | inl e ↦
            let (no_value, same) =
              finish_disconnect_idle (stop_desktop os a w).0 (begin_disconnect s) e in
            (no_value, rw same refl)
        | inr (u, e) ↦ cc (idle, Stops-running e (Reach-Stops os macos reach a))
      ]
