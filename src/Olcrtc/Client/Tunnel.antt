-- ===== src/Olcrtc/Client/Tunnel.antt =====
-- src/olcrtc/client.rs: what `start_platform` puts between the multiplexer and the room. The closure that
-- sends a frame encrypts it under a nonce of `OsRng`, which is a parameter over a state `R`, as the send
-- queue is over `Q`; the task that receives decrypts what comes and hands it to the multiplexer.
pub mod Sending
pub mod Delivery
use tauri_vpn_plugin.Common.{Bool, List, [], ◌∷◌, ◌++◌}
use tauri_vpn_plugin.Common.Bytes.{Bytes}
use tauri_vpn_plugin.Errors.{Result, ok, err}
use tauri_vpn_plugin.Olcrtc.Crypto.{Aead, OlcCipher, encrypt, decrypt}
use tauri_vpn_plugin.Olcrtc.Stream.{Notify}
use tauri_vpn_plugin.Olcrtc.Mux.{Multiplexer, handle_frame}
use tauri_vpn_plugin.Olcrtc.WbStream.{WbStreamPeer, send}

module _ (aead : Aead) {R Q : Type 0} (fill_bytes : R → Bytes × R)
    (queue : Bytes → Q → Bool × Q) where
  abbrev pub send_encrypted : WbStreamPeer → Result Bytes → R → Q → Result (Unit {0}) × (R × Q)
  send_encrypted peer (err e) r q = (err e, (r, q))
  send_encrypted peer (ok encrypted) r q =
      let (sent, q') = send queue encrypted peer q in (sent, (r, q'))

  unfoldable pub send_frame : OlcCipher → WbStreamPeer → Bytes → R × Q → Result (Unit {0}) × (R × Q)
  send_frame cipher peer frame (r, q) =
      let (nonce, r') = fill_bytes r in send_encrypted peer (encrypt aead cipher nonce frame) r' q

module _ (aead : Aead) where
  abbrev pub handle_decrypted : Result Bytes → Multiplexer → Multiplexer × List Notify
  handle_decrypted (ok frame) m = handle_frame frame m
  handle_decrypted (err e) m = (m, [])

  -- The task over the payloads that come: the multiplexer, and the notifies that it wakes.
  unfoldable pub handle_incoming : OlcCipher → List Bytes → Multiplexer → Multiplexer × List Notify
  handle_incoming cipher [] m = (m, [])
  handle_incoming cipher (payload ∷ payloads) m =
      let (m', woken) = handle_decrypted (decrypt aead cipher payload) m in
      let (m'', later) = handle_incoming cipher payloads m' in (m'', woken ++ later)
