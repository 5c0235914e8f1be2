-- ===== src/Olcrtc/RelayTests.antt =====
-- Runs of src/olcrtc/client.rs, `pump_from_mux`.
use tauri_vpn_plugin.Common.{ℕ, ◌≤◌, ◌≡◌, refl, List, [], ◌∷◌, ◌++◌, nat_eq, arith, map}
use tauri_vpn_plugin.Olcrtc.Frame.{parse_control_frame, parse_header}
use tauri_vpn_plugin.Olcrtc.Stream.Reassembly.{prefix}
use tauri_vpn_plugin.Olcrtc.Mux.{read_stream}
use tauri_vpn_plugin.Olcrtc.Client.{pump_from_mux}
use tauri_vpn_plugin.Olcrtc.Client.Pump.{taking}
use tauri_vpn_plugin.Olcrtc.Client.Relay.{
  ArrivalRound, chunk_frame, other_frame, frames_of, pump_from_mux-IsPrefix,
}
use tauri_vpn_plugin.Olcrtc.Examples.{chunk, Fits_example, holding, holding-stream}
use tauri_vpn_plugin.Olcrtc.Examples as E

-- Three chunks: the last first, the others around the read, and one of them twice.
abbrev rounds : List ArrivalRound
rounds =
    record { waiting = chunk_frame 2 ∷ []; reading = []; testing = other_frame E.other_frame ∷ [] }
    ∷ record {
      waiting = chunk_frame 0 ∷ [];
      reading = chunk_frame 0 ∷ [];
      testing = chunk_frame 1 ∷ [];
    }
    ∷ []

pump_from_mux-IsPrefix_example :
    let r = pump_from_mux taking 1 (map (frames_of 5 1 3 chunk) rounds) holding [] in
    (n : ℕ) × (n ≤ 3) × (r.2 ++ (read_stream 1 r.1).0 ≡ prefix chunk n)
unfolding parse_control_frame parse_header
pump_from_mux-IsPrefix_example =
    pump_from_mux-IsPrefix 5 1 3 chunk holding Fits_example 0 holding-stream rounds (
      ((omega arith, tt), tt, ((refl, λ e. omega (arith, e)), tt)),
      (((omega arith, tt), (omega arith, tt), (omega arith, tt)), tt),
    )
