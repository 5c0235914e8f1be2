-- ===== src/Olcrtc/ClientTests.antt =====
-- Runs of src/olcrtc/client.rs.
use tauri_vpn_plugin.Common.{
  ℕ, zero, suc, List, ◌≡◌, refl, [], ◌∷◌, ◌++◌, true, some, arith, nat_eq,
}
use tauri_vpn_plugin.Common.Bytes.{u16_to_be_bytes}
use tauri_vpn_plugin.Common.Bytes.{Bytes}
use tauri_vpn_plugin.Common.Dict.{get}
use tauri_vpn_plugin.Errors.{engine, Result, ok, err}
use tauri_vpn_plugin.Olcrtc.Frame.{data_frame, close_frame, chunks}
use tauri_vpn_plugin.Olcrtc.Stream.{Stream, new_stream}
use tauri_vpn_plugin.Olcrtc.Mux.{
  Multiplexer, new_multiplexer, read_stream, poll_data, send_chunks, reserve_seq, send_data,
}
use tauri_vpn_plugin.Olcrtc.Mux.Sending.{recording}
use tauri_vpn_plugin.Olcrtc.Mux.RoundTrip.{handle_all}
use tauri_vpn_plugin.Olcrtc.Client.Setup.{IsAnswer, setup_tunnel-IsAnswer}
use tauri_vpn_plugin.Olcrtc.Client.{
  AddressTexts, socks5_request, pump_round, setup_tunnel, is_accepted,
}
use tauri_vpn_plugin.Olcrtc.Client.Requests.{domain, encode, socks5_request-encode}
use tauri_vpn_plugin.Olcrtc.Client.Pump.{taking, pump_round_loses}

-- Texts that do not tell addresses apart.
abbrev plain_texts : AddressTexts
plain_texts = record {
  ipv4_text = λ ip. "127.0.0.1";
  ipv6_text = λ ip. "::1";
  from_utf8 = λ name. some "a.b";
  utf8_error = λ name. "invalid utf-8";
}

socks5_request-encode_example :
    socks5_request plain_texts
      (5 ∷ 1 ∷ 0 ∷ encode (domain (97 ∷ 46 ∷ 98 ∷ [])) (u16_to_be_bytes 443 ++ 9 ∷ []))
    ≡ ok ("a.b", 443, 9 ∷ [])
socks5_request-encode_example =
    socks5_request-encode plain_texts (domain (97 ∷ 46 ∷ 98 ∷ [])) "a.b" 443 (9 ∷ []) (omega arith)
      refl (omega arith)

-- Stream 1 of client 5, with two bytes to read.
abbrev buffered : Stream
buffered = record (new_stream 5 0) { recv_buf = 1 ∷ 2 ∷ []; next_recv_seq = 1 }

abbrev receiving : Multiplexer
receiving = record (new_multiplexer 5) { streams = (1, buffered) ∷ []; next_id = 2; notifies = 1 }

pump_round_loses_example :
    let (stops, m', written') =
      pump_round taking 1 (data_frame 5 1 1 (3 ∷ []) ∷ close_frame 5 1 ∷ []) receiving [] in
    (stops ≡ true) × (written' ≡ 1 ∷ 2 ∷ []) × ((read_stream 1 m').0 ≡ 3 ∷ [])
unfolding get
pump_round_loses_example =
    pump_round_loses 5 1 (3 ∷ []) [] buffered receiving (omega arith) (omega arith) (omega arith)
      (omega arith) (omega arith) refl refl refl

-- The response, with two bytes of the destination behind it.
abbrev response : List Bytes
response = data_frame 5 1 0 (0 ∷ 7 ∷ 8 ∷ []) ∷ []

abbrev fresh : Multiplexer
fresh = record (new_multiplexer 5) { streams = (1, new_stream 0 0) ∷ []; next_id = 2; notifies = 1 }

-- A socket that takes the first reply only.
abbrev closing : Bytes → ℕ → Result (Unit {0}) × ℕ
closing bytes zero = (ok tt, 1)
closing bytes (suc n) = (err (engine "broken pipe"), suc n)

setup_tunnel-IsAnswer_example :
    let waited =
      handle_all response (poll_data 1 (send_data recording 1 (123 ∷ 125 ∷ []) fresh []).1).1 in
    let (r, m', _, c') =
      setup_tunnel recording closing 1 (123 ∷ 125 ∷ []) true response fresh [] 0 in
    IsAnswer closing (is_accepted (read_stream 1 waited).0) 0 r c' × ((read_stream 1 m').0 ≡ [])
unfolding send_data send_chunks chunks reserve_seq get
setup_tunnel-IsAnswer_example =
    setup_tunnel-IsAnswer recording closing 1 (123 ∷ 125 ∷ []) response fresh [] 0 refl
