-- ===== src/Olcrtc/Client/Connection.antt =====
-- src/olcrtc/client.rs: a connection from its handshake to its end. The two pumps that run until one of
-- them ends are an argument, whatever they do.
use tauri_vpn_plugin.Common.{
  ℕ, String, Bool, true, List, [], ◌∷◌, Option, none, some, ◌≡◌, if◌then◌else◌, is_empty,
}
use tauri_vpn_plugin.Common.Bytes.{Bytes}
use tauri_vpn_plugin.Errors.{Result, ok, err}
use tauri_vpn_plugin.Olcrtc.Mux.{Multiplexer, open_stream, send_data, stream_closed, close_stream}
use tauri_vpn_plugin.Olcrtc.Mux.Sending.{close_stream-shuts}
use tauri_vpn_plugin.Olcrtc.Client.{AddressTexts, socks5_handshake, socks5_request, setup_tunnel}

module _ {L : Type 0} (send : Bytes → L → Result (Unit {0}) × L) where
  -- What the socket's reads give, up to one of no bytes or to the end of the list, where a read fails.
  unfoldable pub pump_to_mux : ℕ → List Bytes → Multiplexer → L → Multiplexer × L
  pump_to_mux sid [] m l = (m, l)
  pump_to_mux sid (bytes ∷ reads) m l =
      let (sent, m', l') = send_data send sid bytes m l in
      let rest = pump_to_mux sid reads m' l' in
      if is_empty bytes then (m, l) else elim sent [ ok u ↦ rest | err e ↦ (m', l') ]

  module _ {C : Type 0} (write_all : Bytes → C → Result (Unit {0}) × C)
      (pumps : ℕ → Multiplexer → L → C → Multiplexer × L × C) where
    abbrev closed_after :
        ℕ → Result (Unit {0}) → Multiplexer → L → C → Result (Unit {0}) × Multiplexer × L × C
    closed_after sid r m l c =
        let (ignored, m', woken, l') = close_stream send sid m l in (r, m', l', c)

    abbrev pumped :
        ℕ → Result (Unit {0}) × Multiplexer × L × C → Result (Unit {0}) × Multiplexer × L × C
    pumped sid (err e, m, l, c) = closed_after sid (err e) m l c
    pumped sid (ok u, m, l, c) =
        let (m', l', c') = pumps sid m l c in closed_after sid (ok tt) m' l' c'

    -- From the opened stream on.
    unfoldable pub serve :
        ℕ
        → Bytes
        → Bool
        → List Bytes
        → Multiplexer
        → L
        → C
        → Result (Unit {0}) × Multiplexer × L × C
    serve sid request in_time arrivals m l c =
        pumped sid (setup_tunnel send write_all sid request in_time arrivals m l c)

    -- `request_text` is the text that serde_json gives to the connect request; none where `open_stream`
    -- does not end.
    unfoldable pub handle_socks5 :
        AddressTexts
        → (String → ℕ → Bytes)
        → Bool
        → List Bytes
        → ℕ
        → Bytes
        → Multiplexer
        → L
        → C
        → Option (Result (Unit {0}) × Multiplexer × L × C)
    handle_socks5 texts request_text in_time arrivals fuel input m l c =
        elim (socks5_handshake input) [
          | err e ↦ some (err e, m, l, c)
          | ok (reply, rest) ↦
              let (written, c') = write_all reply c in
              elim written [
                | err e ↦ some (err e, m, l, c')
                | ok u ↦ elim (socks5_request texts rest) [
                  | err e ↦ some (err e, m, l, c')
                  | ok (addr, port, left) ↦ elim (open_stream fuel m) [
                    | none ↦ none
                    | some (sid, m') ↦
                        some (serve sid (request_text addr port) in_time arrivals m' l c')
                  ]
                ]
              ]
        ]

    -- However a connection ends, the stream that was opened for it is closed.
    pub serve_closes :
        (sid : ℕ) (request : Bytes) (in_time : Bool) (arrivals : List Bytes) (m : Multiplexer)
        (l : L) (c : C)
        → stream_closed sid (serve sid request in_time arrivals m l c).1 ≡ true
    unfolding serve
    serve_closes sid request in_time arrivals m l c =
        closes (setup_tunnel send write_all sid request in_time arrivals m l c)
      where
        closes :
            (x : Result (Unit {0}) × Multiplexer × L × C)
            → stream_closed sid (pumped sid x).1 ≡ true
        closes (err e, m, l, c) = (close_stream-shuts send sid m l).0
        closes (ok u, m, l, c) =
            (close_stream-shuts send sid (pumps sid m l c).0 (pumps sid m l c).1).0
