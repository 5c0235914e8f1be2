-- ===== src/Commands/Lifecycle.antt =====
-- src/commands.rs: commands that overlap. A command's locked sections are steps of their own, so that
-- the sections of several commands interleave.
use tauri_vpn_plugin.Common.{
  ℕ, suc, ◌+◌, ◌≤◌, String, Bool, false, ◌≡◌, refl, List, [], ◌∷◌, ◌++◌, Option, arith,
}
use tauri_vpn_plugin.Errors.{VpnError, Result, ok, err}
use tauri_vpn_plugin.Models.{
  Uuid, ConnectOptions, ConnectionPhase, disconnected, connecting, connected, disconnecting, failed,
  ConnectionStatus, default_connection_status,
}
use tauri_vpn_plugin.Platform.{TargetOs, is_mobile, is_macos}
use tauri_vpn_plugin.Commands.{
  VpnState, new_state, is_active, begin_connect, finish_connect, begin_disconnect,
  finish_disconnect, status,
}

-- The plugin, with the number of calls of the engine's `start` that have not returned, and the
-- number of sections of `disconnect` that have changed the status.
pub record System : Type 0 where
  pub state : VpnState
  pub starting : ℕ
  pub resets : ℕ

abbrev pub initial : System
initial = record { state = new_state; starting = 0; resets = 0 }

-- A step of a command, on a target that has no status of its own to ask for.
pub data Step (os : TargetOs) : System → System → Type 0 where
  connect_admitted :
      (options : ConnectOptions) {y : System} {s' : VpnState}
      → begin_connect options y.state ≡ (ok tt, s')
      → Step os y (record y { state = s'; starting = suc y.starting })
  connect_refused :
      (options : ConnectOptions) {y : System} {e : VpnError} {s' : VpnState}
      → begin_connect options y.state ≡ (err e, s')
      → Step os y (record y { state = s' })
  connect_ends :
      (started : Result (List String)) {s : VpnState} {n k : ℕ}
      → Step os
          (record { state = s; starting = suc n; resets = k })
          (record { state = (finish_connect started s).1; starting = n; resets = k })
  disconnect_begins :
      {y : System}
      → Step os y (record y { state = begin_disconnect y.state; resets = suc y.resets })
  disconnect_ends :
      (stopped : Result (Unit {0})) {y : System}
      → Step os y
          (record y { state = (finish_disconnect stopped y.state).1; resets = suc y.resets })
  status_read :
      (parse_uuid : String → Option Uuid) (mobile : Result (Bool × Option String))
      (macos_connected : Result Bool) {y : System}
      → Step os y (record y { state = (status os parse_uuid mobile macos_connected y.state).1 })

pub data Reach (os : TargetOs) : System → Type 0 where
  starts : Reach os initial
  steps : {y z : System} → Reach os y → Step os y z → Reach os z

-- The status of the last event, and the initial one if there was no event.
abbrev pub last_status : ConnectionStatus → List (String × ConnectionStatus) → ConnectionStatus
last_status status [] = status
last_status status ((event, next) ∷ events) = last_status next events

last_status-snoc :
    (st : ConnectionStatus) (events : List (String × ConnectionStatus)) (event : String)
    (next : ConnectionStatus)
    → last_status st (events ++ ((event, next) ∷ [])) ≡ next
last_status-snoc st [] event next = refl
last_status-snoc st ((e, n) ∷ events) event next = last_status-snoc n events event next

abbrev pub connecting_count : ConnectionPhase → ℕ
connecting_count connecting = 1
connecting_count _ = 0

pub record IsConsistent (y : System) : Type 0 where
  pub flights : y.starting ≤ y.resets + connecting_count y.state.status.phase
  pub announced : last_status default_connection_status y.state.emitted ≡ y.state.status

count-le : (phase : ConnectionPhase) → connecting_count phase ≤ 1
count-le connecting = omega arith
count-le _ = omega arith

count-inactive : (phase : ConnectionPhase) → is_active phase ≡ false → connecting_count phase ≡ 0
count-inactive disconnected h = refl
count-inactive connecting h = cc
count-inactive connected h = refl
count-inactive disconnecting h = refl
count-inactive failed h = refl

begin_connect-ok :
    (options : ConnectOptions) (s s' : VpnState)
    → begin_connect options s ≡ (ok tt, s')
    → (is_active s.status.phase ≡ false)
      × (s'.status.phase ≡ connecting)
      × (last_status default_connection_status s'.emitted ≡ s'.status)
unfolding begin_connect
begin_connect-ok options s s' e = (
  ground arith,
  ground arith,
  ground (arith, last_status-snoc default_connection_status s.emitted "vpn:status" s'.status),
)

begin_connect-err :
    (options : ConnectOptions) (s s' : VpnState) (x : VpnError)
    → begin_connect options s ≡ (err x, s')
    → s' ≡ s
unfolding begin_connect
begin_connect-err options s s' x e = ground arith

finish_connect-last :
    (r : Result (List String)) (s : VpnState)
    → (last_status default_connection_status (finish_connect r s).1.emitted
        ≡ (finish_connect r s).1.status)
unfolding finish_connect
finish_connect-last (ok ws) s = last_status-snoc default_connection_status s.emitted "vpn:status" _
finish_connect-last (err x) s = last_status-snoc default_connection_status s.emitted "vpn:error" _

module _ (os : TargetOs) (mobile : is_mobile os ≡ false) (macos : is_macos os ≡ false) where
  Step-IsConsistent : {y z : System} → Step os y z → IsConsistent y → IsConsistent z
  unfolding begin_connect finish_connect begin_disconnect finish_disconnect status
  Step-IsConsistent (connect_admitted options {y} {s'} e) h =
      let (inactive, phase, last) = begin_connect-ok options y.state s' e in
      record {
        flights = rw phase (omega (arith, h.flights, count-inactive y.state.status.phase inactive));
        announced = last;
      }
  Step-IsConsistent (connect_refused options {y} {e = x} {s' = s'} e) h =
      let same = begin_connect-err options y.state s' x e in
      record { flights = rw same h.flights; announced = rw same h.announced }
  Step-IsConsistent (connect_ends r {s} {n} {k}) h = record {
    flights = omega (arith, h.flights, count-le s.status.phase);
    announced = finish_connect-last r s;
  }
  Step-IsConsistent (disconnect_begins {y}) h = record {
    flights = omega (arith, h.flights, count-le y.state.status.phase);
    announced = last_status-snoc default_connection_status y.state.emitted "vpn:status" _;
  }
  Step-IsConsistent (disconnect_ends (ok u) {y}) h = record {
    flights = omega (arith, h.flights, count-le y.state.status.phase);
    announced = last_status-snoc default_connection_status y.state.emitted "vpn:status" _;
  }
  Step-IsConsistent (disconnect_ends (err x)) h = record {
    flights = omega (arith, h.flights);
    announced = h.announced;
  }
  Step-IsConsistent (status_read parse_uuid m c) h = rw (mobile, macos) h

  Reach-IsConsistent : {y : System} → Reach os y → IsConsistent y
  Reach-IsConsistent starts = record { flights = omega arith; announced = refl }
  Reach-IsConsistent (steps r t) = Step-IsConsistent t (Reach-IsConsistent r)

  -- However the sections of commands interleave, on a target that has no status of its own to ask
  -- for (neither mobile nor macOS): the last event that was emitted carries the status that is
  -- stored, and at most one more call of the engine's `start` is running than `disconnect` has had
  -- sections, and one more only while the status says connecting. Without a `disconnect`, at most
  -- one call runs at a time.
  pub Reach-single_flight :
      {y : System}
      → Reach os y
      → (last_status default_connection_status y.state.emitted ≡ y.state.status)
        × (y.starting ≤ y.resets + connecting_count y.state.status.phase)
        × (y.starting ≤ y.resets + 1)
  Reach-single_flight {y} r =
      let h = Reach-IsConsistent r in
      (h.announced, h.flights, omega (arith, h.flights, count-le y.state.status.phase))
