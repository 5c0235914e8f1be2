-- ===== src/Olcrtc/Client/Tunnel/Delivery.antt =====
-- src/olcrtc/client.rs and src/olcrtc/wbstream.rs: a stream's bytes from `send_data` of one client through the
-- cipher, the queue and the room to `read_stream` of another.
use tauri_vpn_plugin.Common.{
  ℕ, ◌^◌, ◌<◌, ◌≡◌, refl, sym, ap, ◌∙◌, ◌≢◌, List, [], ◌∷◌, ◌++◌, map, append_assoc, append-nil,
  subst, Bool, true, false, Option, none, some, length, inl, inr, string_eq, nat_eq, String,
  Bool-cases, All,
}
use tauri_vpn_plugin.Common.Bytes.{Bytes}
use tauri_vpn_plugin.Common.Dict.{get}
use tauri_vpn_plugin.Errors.{ok, err, VpnError}
use tauri_vpn_plugin.Olcrtc.Crypto.{Aead, OlcCipher, decrypt}
use tauri_vpn_plugin.Olcrtc.Crypto.Sealing.{IsCipher}
use tauri_vpn_plugin.Olcrtc.Stream.{Stream}
use tauri_vpn_plugin.Olcrtc.Mux.{Multiplexer, handle_frame, read_stream, send_data}
use tauri_vpn_plugin.Olcrtc.Mux.RoundTrip.{handle_all, IsForeign, send_data-read_stream}
use tauri_vpn_plugin.Olcrtc.Mux.Sending.{recording, send_data-open}
use tauri_vpn_plugin.Olcrtc.WbStream.{WbStreamPeer}
use tauri_vpn_plugin.Olcrtc.WbStream.Connect.{
  RoomEvent, data_received, disconnected, other_event, has_topic, data_topic, received, DataPacket,
  data_packet, publish_queued,
}
use tauri_vpn_plugin.Olcrtc.Client.Tunnel.{send_frame, handle_incoming}
use tauri_vpn_plugin.Olcrtc.Client.Tunnel.Sending.{
  AreSealed, AlwaysSeals, queueing, send_data-AreSealed,
}

-- A room that takes every packet, and keeps them in order.
abbrev pub publishing : DataPacket → List DataPacket → Bool × List DataPacket
publishing packet packets = (true, packets ++ packet ∷ [])

module _ (aead : Aead) (cipher : OlcCipher) where
  -- The events at a participant that gets the packets once each and in order, with anything else
  -- between them: other events, data under other topics, and data that does not decrypt.
  pub data Relays : List DataPacket → List RoomEvent → Type 0 where
    ends : Relays [] []
    leaves : (events : List RoomEvent) → Relays [] (disconnected ∷ events)
    relays :
        (p : DataPacket) (ps : List DataPacket) (events : List RoomEvent)
        → Relays ps events
        → Relays (p ∷ ps) (data_received p.payload p.topic ∷ events)
    passes :
        (ps : List DataPacket) (events : List RoomEvent)
        → Relays ps events
        → Relays ps (other_event ∷ events)
    elsewhere :
        (payload : Bytes) (topic : Option String) (ps : List DataPacket) (events : List RoomEvent)
        → topic ≢ some data_topic
        → Relays ps events
        → Relays ps (data_received payload topic ∷ events)
    garbles :
        (payload : Bytes) (topic : Option String) (e : VpnError) (ps : List DataPacket)
        (events : List RoomEvent)
        → decrypt aead cipher payload ≡ err e
        → Relays ps events
        → Relays ps (data_received payload topic ∷ events)

  has_topic-other : (topic : Option String) → topic ≢ some data_topic → has_topic topic ≡ false
  has_topic-other none h = refl
  has_topic-other (some topic) h = elim (Bool-cases (has_topic (some topic))) [
    | inl same ↦ absurd (h (ap some ((string_eq.beq_iff topic data_topic).0 same)))
    | inr other ↦ other
  ]

  handle_incoming_skips :
      (payload : Bytes) (e : VpnError) (payloads : List Bytes) (n : Multiplexer)
      → decrypt aead cipher payload ≡ err e
      → (handle_incoming aead cipher (payload ∷ payloads) n).0
        ≡ (handle_incoming aead cipher payloads n).0
  unfolding handle_incoming
  handle_incoming_skips payload e payloads n bad = rw (bad, handle_incoming) refl

  -- Only the packets' payloads reach the multiplexer.
  handle_incoming-received :
      (ps : List DataPacket) (events : List RoomEvent) (n : Multiplexer)
      → All (λ p. has_topic p.topic ≡ true) ps
      → Relays ps events
      → (handle_incoming aead cipher (received events) n).0
        ≡ (handle_incoming aead cipher (map (λ p. p.payload) ps) n).0
  unfolding handle_incoming received
  handle_incoming-received ps events n t ends = refl
  handle_incoming-received ps events n t (leaves _) = refl
  handle_incoming-received ps events n t (relays p qs es h) =
      rw (t.0) (handle_incoming-received qs es _ t.1 h)
  handle_incoming-received ps events n t (passes qs es h) = handle_incoming-received qs es n t h
  handle_incoming-received ps events n t (elsewhere payload topic qs es other h) =
      rw (has_topic-other topic other) (handle_incoming-received qs es n t h)
  handle_incoming-received ps events n t (garbles payload topic e qs es bad h) =
      elim (Bool-cases (has_topic topic)) [
        | inl same ↦ rw same (
            handle_incoming_skips payload e (received es) n bad
            ∙ handle_incoming-received qs es n t h)
        | inr other ↦ rw other (handle_incoming-received qs es n t h)
      ]

  handle_incoming-AreSealed :
      (payloads frames : List Bytes) (n : Multiplexer)
      → AreSealed aead cipher payloads frames
      → (handle_incoming aead cipher payloads n).0 ≡ handle_all frames n
  unfolding handle_incoming handle_all
  handle_incoming-AreSealed [] [] n h = refl
  handle_incoming-AreSealed [] (f ∷ frames) n h = cc
  handle_incoming-AreSealed (p ∷ payloads) [] n h = cc
  handle_incoming-AreSealed (p ∷ payloads) (f ∷ frames) n h =
      let first : decrypt aead cipher p ≡ ok f = cc in
      rw first (handle_incoming-AreSealed payloads frames (handle_frame f n).0 (cc))

publish_queued-publishing :
    (payloads : List Bytes) (packets : List DataPacket)
    → publish_queued publishing payloads packets ≡ packets ++ map data_packet payloads
unfolding publish_queued
publish_queued-publishing [] packets = sym (append-nil packets)
publish_queued-publishing (p ∷ payloads) packets =
    publish_queued-publishing payloads (packets ++ data_packet p ∷ [])
    ∙ append_assoc packets (data_packet p ∷ []) (map data_packet payloads)

payloads-packets :
    (payloads : List Bytes) → map (λ p. p.payload) (map data_packet payloads) ≡ payloads
payloads-packets [] = refl
payloads-packets (p ∷ payloads) = ap (λ rest. p ∷ rest) (payloads-packets payloads)

topics-packets :
    (payloads : List Bytes) → All (λ p. has_topic p.topic ≡ true) (map data_packet payloads)
topics-packets [] = tt
topics-packets (p ∷ payloads) = (refl, topics-packets payloads)

module _ (aead : Aead) (law : IsCipher aead) (seals : AlwaysSeals aead) {R : Type 0}
    (fill_bytes : R → Bytes × R) (fills : (r : R) → length (fill_bytes r).0 ≡ 24)
    (cipher : OlcCipher) (peer : WbStreamPeer) (usable : peer.closed ≡ false) where
  -- From one client to another through the room: on an open stream that has not sent yet, `send_data`
  -- succeeds: it encrypts the frames and queues them, the queue's task publishes them, and a client with the same
  -- key, which gets those packets once each and in order among whatever else the room sends it (other
  -- events, other topics, data that does not decrypt), reads the bytes back unchanged. The cipher
  -- seals and opens, a nonce has 24 bytes, the peer is open, the queue and the room take everything,
  -- there is at least one and fewer than 2 ^ 32 bytes, ids fit their fields, and the receiving side has
  -- no stream under that id, or one of another client.
  pub send_data-received :
      (sid : ℕ) (bytes : Bytes) (s : Stream) (m n : Multiplexer) (r : R) (events : List RoomEvent)
      → m.client_id < 2 ^ 32
      → sid < 2 ^ 16
      → get sid m.streams ≡ some s
      → s.closed ≡ false
      → s.next_send_seq ≡ 0
      → bytes ≢ []
      → length bytes < 2 ^ 32
      → IsForeign m.client_id sid n
      → let sent =
          send_data (send_frame aead fill_bytes queueing cipher peer) sid bytes m (r, []) in
        Relays aead cipher (publish_queued publishing sent.2.1 []) events
        → (sent.0 ≡ ok tt)
          × ((read_stream sid (handle_incoming aead cipher (received events) n).0).0 ≡ bytes)
  send_data-received sid bytes s m n r events hc hs e o zero_seq ne fits fresh relayed =
      let sent = send_data (send_frame aead fill_bytes queueing cipher peer) sid bytes m (r, []) in
      let queued = sent.2.1 in
      let (done, _, sealed) =
        send_data-AreSealed aead law seals fill_bytes fills cipher peer usable sid bytes m r in
      let packets = publish_queued-publishing queued [] in
      let events_relayed : Relays aead cipher (map data_packet queued) events =
        subst (λ ps. Relays aead cipher ps events) packets relayed in
      let all : (handle_incoming aead cipher (received events) n).0
          ≡ handle_all (send_data recording sid bytes m []).2 n =
        handle_incoming-received aead cipher (map data_packet queued) events n
          (topics-packets queued) events_relayed
        ∙ ap (λ ps. (handle_incoming aead cipher ps n).0) (payloads-packets queued)
        ∙ handle_incoming-AreSealed aead cipher queued _ n sealed in
      (
        done ∙ (send_data-open sid bytes s m [] e o).0,
        ap (λ k. (read_stream sid k).0) all
            ∙ send_data-read_stream sid bytes s m n hc hs e o zero_seq ne fits fresh,
      )
