-- ===== src/Olcrtc/TunnelTests.antt =====
-- Runs of src/olcrtc/client.rs and src/olcrtc/wbstream.rs from one client to another.
use tauri_vpn_plugin.Common.{
  ℕ, Bool, true, ◌≡◌, refl, inl, List, [], ◌∷◌, ◌+◌, ◌++◌, some, arith, nat_eq, string_eq,
}
use tauri_vpn_plugin.Common.Bytes.{Bytes}
use tauri_vpn_plugin.Common.Dict.{get, insert}
use tauri_vpn_plugin.Errors.{VpnError, ok, err, engine}
use tauri_vpn_plugin.Olcrtc.Client.Accept.{new_runtime, stop, Turn, shutdown_changed, accept_loop}
use tauri_vpn_plugin.Olcrtc.Client.Shutdown.{stop-silences}
use tauri_vpn_plugin.Olcrtc.Frame.{data_frame, chunks}
use tauri_vpn_plugin.Olcrtc.Stream.{new_stream}
use tauri_vpn_plugin.Olcrtc.Crypto.{OlcCipher, encrypt, decrypt}
use tauri_vpn_plugin.Olcrtc.Mux.{
  new_multiplexer, read_stream, close_stream, send_client_reset, send_data, send_chunks,
  reserve_seq,
}
use tauri_vpn_plugin.Olcrtc.WbStream.{new_peer, check_open, send, close}
use tauri_vpn_plugin.Olcrtc.WbStream.Waiting.{
  Sends, SendEvent, begins, enqueues, gives_up, send_step, run_sends, OnlyWaiting,
}
use tauri_vpn_plugin.Olcrtc.WbStream.Connect.{
  RoomEvent, data_received, disconnected, other_event, received, publish_queued,
}
use tauri_vpn_plugin.Olcrtc.Client.Tunnel.{send_frame, handle_incoming}
use tauri_vpn_plugin.Olcrtc.Client.Tunnel.Sending.{queueing}
use tauri_vpn_plugin.Olcrtc.Client.Tunnel.Delivery.{
  leaves, relays, passes, elsewhere, garbles, send_data-received,
}
use tauri_vpn_plugin.Olcrtc.Examples.{holding, holding-stream, text}
use tauri_vpn_plugin.Olcrtc.KeyTests.{tagging, tagging-IsCipher, zeros}

abbrev cipher : OlcCipher
cipher = record { key = zeros 32 }

-- A generator of nonces that counts its calls.
abbrev counting : ℕ → Bytes × ℕ
counting n = (n ∷ zeros 23, n + 1)

-- What comes after the nonce of the one payload that is sent: a data frame behind its tag.
abbrev payload : Bytes
payload = 4 ∷ zeros 23 ++ 0 ∷ 0 ∷ 0 ∷ 0 ∷ 5 ∷ 0 ∷ 1 ∷ 0 ∷ 2 ∷ 0 ∷ 0 ∷ 0 ∷ 0 ∷ 97 ∷ 98 ∷ []

abbrev events : List RoomEvent
events =
    other_event
    ∷ data_received payload (some "chat")
    ∷ data_received (1 ∷ 2 ∷ []) (some "olcrtc")
    ∷ data_received payload (some "olcrtc")
    ∷ disconnected
    ∷ data_received payload (some "olcrtc")
    ∷ []

send_data-received_example :
    let sent =
      send_data (send_frame tagging counting queueing cipher new_peer) 1 text holding (4, []) in
    (sent.0 ≡ ok tt)
    × ((read_stream 1 (handle_incoming tagging cipher (received events) (new_multiplexer 7)).0).0
        ≡ text)
unfolding get insert publish_queued send_data send_chunks reserve_seq send_frame encrypt send
    data_frame chunks decrypt
send_data-received_example =
    send_data-received tagging tagging-IsCipher (λ key nonce plaintext. (0 ∷ plaintext, refl))
      counting (λ r. refl) cipher new_peer refl 1 text (new_stream 5 0) holding (new_multiplexer 7)
      4 events (omega arith) (omega arith) holding-stream refl refl (λ e. cc) (omega arith)
      (inl refl)
      (passes _ _ (
        elsewhere payload (some "chat") _ _ (λ e. cc)
          (garbles (1 ∷ 2 ∷ []) (some "olcrtc") (engine "OLC RTC ciphertext shorter than nonce") _ _
            refl (relays _ [] _ (leaves _)))))

-- A queue that is never full.
abbrev endless : Bytes → ℕ → Bool × ℕ
endless bytes queued = (true, queued + 1)

-- Two calls that wait for a place at the stop.
abbrev at_stop : Sends
at_stop = record {
  peer = (stop (new_runtime new_peer)).peer;
  waiting = (1 ∷ []) ∷ (2 ∷ []) ∷ [];
  queued = [];
}

-- One of them gets its place after the stop, a call that begins then does not, and the other gives up.
test_waiting :
    (run_sends (begins (3 ∷ []) ∷ enqueues 1 ∷ enqueues 1 ∷ gives_up 0 ∷ []) at_stop).queued
    ≡ (2 ∷ []) ∷ []
unfolding run_sends send_step stop close check_open
test_waiting = refl

stop-silences_example :
    let runtime = stop (new_runtime new_peer) in
    let sends = send_frame tagging counting endless cipher runtime.peer in
    ((sid : ℕ) (bytes : Bytes) → (send_data sends sid bytes holding (4, 9)).2.1 ≡ 9)
    × ((sid : ℕ) → (close_stream sends sid holding (4, 9)).3.1 ≡ 9)
    × ((send_client_reset sends holding (4, 9)).1.1 ≡ 9)
    × ((frame : Bytes) → (e : VpnError) × ((sends frame (4, 9)).0 ≡ err e))
    × ((events : List SendEvent) → OnlyWaiting at_stop (run_sends events at_stop))
    × (runtime.peer.room_closes ≡ 0 + 1)
    × ((turns : List (Turn ℕ))
        → accept_loop (shutdown_changed (some runtime.shutdown) ∷ turns) ≡ [])
stop-silences_example =
    stop-silences tagging counting endless cipher (new_runtime new_peer) holding 4 9 at_stop
