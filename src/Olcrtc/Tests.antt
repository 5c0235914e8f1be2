-- ===== src/Olcrtc/Tests.antt =====
-- The unit tests of src/olcrtc/mux.rs, and other runs.
use tauri_vpn_plugin.Common.{nat_eq, arith, [], ◌∷◌, false, ◌≡◌, refl}
use tauri_vpn_plugin.Common.Dict.{get, insert, remove, retain}
use tauri_vpn_plugin.Olcrtc.Frame.{
  data_frame, close_frame, reset_frame, parse_control_frame, parse_header, chunks, chunk_size,
}
use tauri_vpn_plugin.Olcrtc.Stream.{new_stream, drain, accept}
use tauri_vpn_plugin.Olcrtc.Mux.Sending.{recording, frames_from}
use tauri_vpn_plugin.Olcrtc.Mux.Replies.{handle_frame_restarts}
use tauri_vpn_plugin.Olcrtc.Mux.{
  Multiplexer, new_multiplexer, open_stream, receive, handle_frame, read_stream, poll_data,
  reset_client, notifies_of, stream_or_new, reserve_seq, close_local, mark_closed, stream_closed,
  send_chunks, send_data, close_stream,
}

mux : Unit {0}
unfolding data_frame close_frame reset_frame parse_control_frame parse_header chunks drain accept
    open_stream receive handle_frame read_stream poll_data reset_client notifies_of stream_or_new
    reserve_seq close_local mark_closed stream_closed send_chunks send_data close_stream get insert
    remove retain
mux = tt

received_frames_are_buffered :
    (let (m, woken) =
        handle_frame
          (0 ∷ 0 ∷ 0 ∷ 2 ∷ 0 ∷ 1 ∷ 0 ∷ 3 ∷ 0 ∷ 0 ∷ 0 ∷ 0 ∷ 104 ∷ 101 ∷ 121 ∷ [])
          (new_multiplexer 1) in
      (read_stream 1 m).0)
    ≡ 104 ∷ 101 ∷ 121 ∷ []
unfolding mux
received_frames_are_buffered = refl

frames_are_sent :
    (send_data recording 1
      (97 ∷ 98 ∷ 99 ∷ [])
      (record (new_multiplexer 0x01020304) {
        streams =
            (
              1,
              record {
                client_id = 0;
                recv_buf = [];
                closed = false;
                next_recv_seq = 0;
                next_send_seq = 0;
                out_of_order = [];
                notify = 0;
              },
            )
            ∷ [];
      })
      []).2
    ≡ (1 ∷ 2 ∷ 3 ∷ 4 ∷ 0 ∷ 1 ∷ 0 ∷ 3 ∷ 0 ∷ 0 ∷ 0 ∷ 0 ∷ 97 ∷ 98 ∷ 99 ∷ []) ∷ []
unfolding mux
frames_are_sent = refl

-- A stream that was opened and has sent one chunk, and one that has received one of client 5.
abbrev requested : Multiplexer
requested = record (new_multiplexer 5) {
  streams = (1, record (new_stream 0 0) { next_send_seq = 1 }) ∷ [];
  next_id = 2;
  notifies = 1;
}

abbrev answered : Multiplexer
answered = record (new_multiplexer 0) {
  streams = (1, record (new_stream 5 0) { next_recv_seq = 1 }) ∷ [];
  notifies = 1;
}

handle_frame_restarts_example :
    (send_data recording 1
      (97 ∷ 98 ∷ [])
      (handle_frame (data_frame 5 1 0 (0 ∷ [])) requested).0
      []).2
    ≡ frames_from 5 1 0 (chunks chunk_size (97 ∷ 98 ∷ []))
unfolding get
handle_frame_restarts_example =
    handle_frame_restarts 5 1 0 (0 ∷ []) (97 ∷ 98 ∷ [])
      (record (new_stream 0 0) { next_send_seq = 1 }) requested (omega arith) (omega arith)
      (omega arith) (omega arith) (omega arith) refl (λ e. omega (arith, e))
