-- ===== src/Olcrtc/Client/Tunnel/Sending.antt =====
-- src/olcrtc/client.rs: the closure that sends, under the operations of src/olcrtc/mux.rs.
use tauri_vpn_plugin.Common.{
  ℕ, ◌≡◌, refl, sym, ap, ◌∙◌, List, [], ◌∷◌, ◌++◌, map, Bool, true, false, some, length, inl, inr,
  Option-cases,
}
use mathlib.Core.List.{map-append}
use tauri_vpn_plugin.Common.Bytes.{Bytes}
use tauri_vpn_plugin.Errors.{Result, ok, Result-cases}
use tauri_vpn_plugin.Olcrtc.Frame.{chunks, chunk_size, data_frame}
use tauri_vpn_plugin.Olcrtc.Crypto.{Aead, OlcCipher, encrypt, decrypt}
use tauri_vpn_plugin.Olcrtc.Crypto.Sealing.{IsCipher, encrypt-sealed, decrypt-encrypt}
use tauri_vpn_plugin.Olcrtc.Mux.{Multiplexer, reserve_seq, send_chunks, send_data}
use tauri_vpn_plugin.Olcrtc.Mux.Sending.{recording}
use tauri_vpn_plugin.Olcrtc.WbStream.{WbStreamPeer, send}
use tauri_vpn_plugin.Olcrtc.Client.Tunnel.{send_frame}

-- Two links whose calls give the same results and keep a relation between their states.
module _ {W V : Type 0} (send_w : Bytes → W → Result (Unit {0}) × W)
    (send_v : Bytes → V → Result (Unit {0}) × V) (Related : W → V → Type 0)
    (step : (frame : Bytes) (w : W) (v : V)
      → Related w v
      → ((send_w frame w).0 ≡ (send_v frame v).0)
        × Related (send_w frame w).1 (send_v frame v).1) where
  send_chunks-Related :
      (sid : ℕ) (cs : List Bytes) (m : Multiplexer) (w : W) (v : V)
      → Related w v
      → let r = send_chunks send_w sid cs m w in
        let t = send_chunks send_v sid cs m v in (r.0 ≡ t.0) × (r.1 ≡ t.1) × Related r.2 t.2
  unfolding send_chunks
  send_chunks-Related sid [] m w v h = (refl, refl, h)
  send_chunks-Related sid (c ∷ cs) m w v h = elim (Option-cases (reserve_seq sid m)) [
    | inl e ↦ rw (e, send_chunks) (refl, refl, h)
    | inr ((seq, m'), e) ↦
        let frame = data_frame m.client_id sid seq c in
        let (same, h') = step frame w v h in
        rw (e, send_chunks)
          (elim (Result-cases (send_v frame v).0) [
            | inl (u, done) ↦ rw (same ∙ done) (rw done (send_chunks-Related sid cs m' _ _ h'))
            | inr (x, failed) ↦ rw (same ∙ failed) (rw failed (refl, refl, h'))
          ])
  ]

  pub send_data-Related :
      (sid : ℕ) (bytes : Bytes) (m : Multiplexer) (w : W) (v : V)
      → Related w v
      → let r = send_data send_w sid bytes m w in
        let t = send_data send_v sid bytes m v in (r.0 ≡ t.0) × (r.1 ≡ t.1) × Related r.2 t.2
  unfolding send_data
  send_data-Related sid bytes m w v h = send_chunks-Related sid (chunks chunk_size bytes) m w v h

-- A queue that takes every payload, and keeps them in order.
abbrev pub queueing : Bytes → List Bytes → Bool × List Bytes
queueing payload payloads = (true, payloads ++ payload ∷ [])

-- A payload that decrypts to each frame, in order.
abbrev pub AreSealed : Aead → OlcCipher → List Bytes → List Bytes → Type 0
AreSealed aead cipher payloads frames = map (decrypt aead cipher) payloads ≡ map ok frames

-- A cipher that can seal whatever it is given.
abbrev pub AlwaysSeals : Aead → Type 0
AlwaysSeals aead =
    (key nonce plaintext : Bytes) → (sealed : Bytes) × (aead.seal key nonce plaintext ≡ some sealed)

module _ (aead : Aead) (law : IsCipher aead) (seals : AlwaysSeals aead) {R : Type 0}
    (fill_bytes : R → Bytes × R) (fills : (r : R) → length (fill_bytes r).0 ≡ 24)
    (cipher : OlcCipher) (peer : WbStreamPeer) (usable : peer.closed ≡ false) where
  send_frame-AreSealed :
      (frame : Bytes) (w : R × List Bytes) (frames : List Bytes)
      → AreSealed aead cipher w.1 frames
      → let r = send_frame aead fill_bytes queueing cipher peer frame w in
        (r.0 ≡ ok tt) × AreSealed aead cipher r.1.1 (frames ++ frame ∷ [])
  unfolding send_frame send
  send_frame-AreSealed frame (r, payloads) frames h =
      let (sealed, made) = seals cipher.key (fill_bytes r).0 frame in
      let encrypted : encrypt aead cipher (fill_bytes r).0 frame ≡ ok ((fill_bytes r).0 ++ sealed) =
        encrypt-sealed aead cipher (fill_bytes r).0 frame sealed made in
      rw (encrypted, send_frame)
        (rw usable (
          refl,
          map-append (decrypt aead cipher) payloads _
              ∙ ap (λ rs. rs ++ decrypt aead cipher ((fill_bytes r).0 ++ sealed) ∷ []) h
              ∙ ap (λ x. map ok frames ++ x ∷ [])
                  (decrypt-encrypt aead law cipher _ frame _ (fills r) encrypted)
              ∙ sym (map-append ok frames (frame ∷ [])),
        ))

  -- `send_data` over the closure: as over a link that takes every frame, and what lies in the queue
  -- decrypts to the frames that such a link would have recorded.
  pub send_data-AreSealed :
      (sid : ℕ) (bytes : Bytes) (m : Multiplexer) (r : R)
      → let sent =
          send_data (send_frame aead fill_bytes queueing cipher peer) sid bytes m (r, []) in
        let plain = send_data recording sid bytes m [] in
        (sent.0 ≡ plain.0) × (sent.1 ≡ plain.1) × AreSealed aead cipher sent.2.1 plain.2
  send_data-AreSealed sid bytes m r =
      send_data-Related (send_frame aead fill_bytes queueing cipher peer) recording
        (λ w frames. AreSealed aead cipher w.1 frames) send_frame-AreSealed sid bytes m (r, []) []
        refl
