-- ===== src/Olcrtc/Client/Shutdown.antt =====
-- src/olcrtc/client.rs: what the multiplexer and the accept loop can still do after the runtime was stopped.
-- The peer that the closure holds is a clone that shares the flag `closed`. The calls of `send` that wait
-- for a place in the queue while the stop comes are those of WbStream/Waiting.
use tauri_vpn_plugin.Common.{
  ℕ, ◌+◌, ◌==◌, nat_eq, ◌≡◌, refl, ◌∙◌, Bool, true, List, [], ◌∷◌, some, if◌then◌else◌,
  Option-cases, inl, inr, arith, Bool-cases, arith,
}
use tauri_vpn_plugin.Common.Bytes.{Bytes}
use tauri_vpn_plugin.Errors.{VpnError, Result, err, Result-cases}
use tauri_vpn_plugin.Olcrtc.Frame.{chunks, chunk_size, data_frame, close_frame}
use tauri_vpn_plugin.Olcrtc.Crypto.{Aead, OlcCipher, encrypt}
use tauri_vpn_plugin.Olcrtc.Mux.{
  Multiplexer, reserve_seq, send_chunks, send_data, close_stream, send_client_reset,
}
use tauri_vpn_plugin.Olcrtc.WbStream.{WbStreamPeer, send, close}
use tauri_vpn_plugin.Olcrtc.WbStream.Waiting.{
  Sends, SendEvent, run_sends, OnlyWaiting, run_sends-OnlyWaiting,
}
use tauri_vpn_plugin.Olcrtc.Client.Tunnel.{send_frame}
use tauri_vpn_plugin.Olcrtc.Client.Accept.{OlcRtcRuntime, stop, Turn, shutdown_changed, accept_loop}

-- What every call of the link keeps, `send_data` keeps.
module _ {W : Type 0} (sends : Bytes → W → Result (Unit {0}) × W) (P : W → Type 0)
    (keep : (frame : Bytes) (w : W) → P w → P (sends frame w).1) where
  send_chunks-keeps :
      (sid : ℕ) (cs : List Bytes) (m : Multiplexer) (w : W)
      → P w
      → P (send_chunks sends sid cs m w).2
  unfolding send_chunks
  send_chunks-keeps sid [] m w h = h
  send_chunks-keeps sid (c ∷ cs) m w h = elim (Option-cases (reserve_seq sid m)) [
    | inl e ↦ rw (e, send_chunks) h
    | inr ((seq, m'), e) ↦
        let frame = data_frame m.client_id sid seq c in
        let h' = keep frame w h in
        rw (e, send_chunks)
          (elim (Result-cases (sends frame w).0) [
            | inl (u, sent) ↦ rw sent (send_chunks-keeps sid cs m' (sends frame w).1 h')
            | inr (x, failed) ↦ rw failed h'
          ])
  ]

module _ (aead : Aead) {R Q : Type 0} (fill_bytes : R → Bytes × R) (queue : Bytes → Q → Bool × Q)
    (cipher : OlcCipher) (peer : WbStreamPeer) (shut : peer.closed ≡ true) where
  send_frame-closed :
      (frame : Bytes) (w : R × Q)
      → ((x : VpnError) × ((send_frame aead fill_bytes queue cipher peer frame w).0 ≡ err x))
        × ((send_frame aead fill_bytes queue cipher peer frame w).1.1 ≡ w.1)
  unfolding send_frame send
  send_frame-closed frame (r, q) =
      elim (Result-cases (encrypt aead cipher (fill_bytes r).0 frame)) [
        | inl (sealed, e) ↦ rw (e, send_frame) (rw shut ((_, refl), refl))
        | inr (x, e) ↦ rw (e, send_frame) ((x, refl), refl)
      ]

  abbrev sends : Bytes → R × Q → Result (Unit {0}) × (R × Q)
  sends = send_frame aead fill_bytes queue cipher peer

  send_data-closed :
      (sid : ℕ) (bytes : Bytes) (m : Multiplexer) (r : R) (q : Q)
      → (send_data sends sid bytes m (r, q)).2.1 ≡ q
  unfolding send_data
  send_data-closed sid bytes m r q =
      send_chunks-keeps sends (λ w. w.1 ≡ q) (λ frame w h. (send_frame-closed frame w).1 ∙ h) sid
        (chunks chunk_size bytes) m (r, q) refl

  close_stream-closed :
      (sid : ℕ) (m : Multiplexer) (r : R) (q : Q) → (close_stream sends sid m (r, q)).3.1 ≡ q
  unfolding close_stream
  close_stream-closed sid m r q = (send_frame-closed (close_frame m.client_id sid) (r, q)).1

  send_client_reset-closed :
      (m : Multiplexer) (r : R) (q : Q) → (send_client_reset sends m (r, q)).1.1 ≡ q
  unfolding send_client_reset
  send_client_reset-closed m r q = elim (Bool-cases (m.client_id == 0)) [
    | inl zero_id ↦ rw zero_id refl
    | inr other ↦ rw other (send_frame-closed _ (r, q)).1
  ]

stop-closed : (runtime : OlcRtcRuntime) → (stop runtime).peer.closed ≡ true
unfolding stop close
stop-closed runtime = ground arith

stop-room_closes :
    (runtime : OlcRtcRuntime)
    → (stop runtime).peer.room_closes
      ≡ (if runtime.peer.closed then runtime.peer.room_closes else runtime.peer.room_closes + 1)
unfolding stop close
stop-room_closes runtime = ground arith

accept_loop-stop :
    {C : Type 0} (runtime : OlcRtcRuntime) (turns : List (Turn C))
    → accept_loop (shutdown_changed (some (stop runtime).shutdown) ∷ turns) ≡ []
unfolding stop accept_loop
accept_loop-stop runtime turns = refl

-- After a stop, every call of the link that begins then fails, and puts nothing into the queue of the room:
-- neither data nor a close frame nor a reset. A call of the peer's `send` that was already waiting for a
-- place in the queue at the stop may still get it: whatever steps the sends take after the stop, what is
-- added to the queue, with what still waits then, weighs no more than what waited at the stop, however
-- payloads are weighed. The room was closed once, if it was not before, and the accept loop serves no
-- further connection from the turn on at which it sees the shutdown.
pub stop-silences :
    (aead : Aead) {R Q C : Type 0} (fill_bytes : R → Bytes × R) (queue : Bytes → Q → Bool × Q)
    (cipher : OlcCipher) (runtime : OlcRtcRuntime) (m : Multiplexer) (r : R) (q : Q) (s : Sends)
    → let sends = send_frame aead fill_bytes queue cipher (stop runtime).peer in
      let at_stop = record s { peer = (stop runtime).peer } in
      ((sid : ℕ) (bytes : Bytes) → (send_data sends sid bytes m (r, q)).2.1 ≡ q)
      × ((sid : ℕ) → (close_stream sends sid m (r, q)).3.1 ≡ q)
      × ((send_client_reset sends m (r, q)).1.1 ≡ q)
      × ((frame : Bytes) → (e : VpnError) × ((sends frame (r, q)).0 ≡ err e))
      × ((events : List SendEvent) → OnlyWaiting at_stop (run_sends events at_stop))
      × ((stop runtime).peer.room_closes ≡ (
          if runtime.peer.closed then runtime.peer.room_closes else runtime.peer.room_closes + 1))
      × ((turns : List (Turn C))
          → accept_loop (shutdown_changed (some (stop runtime).shutdown) ∷ turns) ≡ [])
stop-silences aead fill_bytes queue cipher runtime m r q s =
    let peer = (stop runtime).peer in
    let shut = stop-closed runtime in
    (
      λ sid bytes. send_data-closed aead fill_bytes queue cipher peer shut sid bytes m r q,
      λ sid. close_stream-closed aead fill_bytes queue cipher peer shut sid m r q,
      send_client_reset-closed aead fill_bytes queue cipher peer shut m r q,
      λ frame. (send_frame-closed aead fill_bytes queue cipher peer shut frame (r, q)).0,
      λ events. run_sends-OnlyWaiting events (record s { peer = peer }) shut,
      stop-room_closes runtime,
      λ turns. accept_loop-stop runtime turns,
    )
