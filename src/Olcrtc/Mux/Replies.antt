-- ===== src/Olcrtc/Mux/Replies.antt =====
-- src/olcrtc/mux.rs, `handle_frame` on a stream that `open_stream` made: the first reply.
use tauri_vpn_plugin.Common.{
  ℕ, ◌^◌, ◌<◌, ◌≡◌, sym, ap, ◌∙◌, ◌≢◌, [], some, arith, nat_eq, false, length,
}
use tauri_vpn_plugin.Common.Bytes.{Bytes}
use tauri_vpn_plugin.Common.Dict.{get}
use tauri_vpn_plugin.Olcrtc.Frame.{data_frame, chunks, chunk_size}
use tauri_vpn_plugin.Olcrtc.Stream.{Stream, new_stream, deliver, accept}
use tauri_vpn_plugin.Olcrtc.Stream.Drain.{drain-SameOwner}
use tauri_vpn_plugin.Olcrtc.Mux.{Multiplexer, stream_or_new, receive, handle_frame, send_data}
use tauri_vpn_plugin.Olcrtc.Mux.Sending.{frames_from, recording, send_data-open}
use tauri_vpn_plugin.Olcrtc.Mux.Receiving.{handle_frame-data_frame, receive_known}
use tauri_vpn_plugin.Olcrtc.Mux.RoundTrip.{for_client_other}
use tauri_vpn_plugin.Olcrtc.Mux.Transfer.{for_client_same}

accept-sender :
    (seq : ℕ) (payload : Bytes) (s : Stream)
    → ((accept seq payload s).0.next_send_seq ≡ s.next_send_seq)
      × ((accept seq payload s).0.closed ≡ s.closed)
unfolding accept
accept-sender seq payload s =
    let owner = drain-SameOwner (length s.out_of_order) (deliver payload s) in
    (ground (arith, owner.next_send_seq), ground (arith, owner.closed))

receive-client_id :
    (client_id sid seq : ℕ) (payload : Bytes) (m : Multiplexer)
    → (receive client_id sid seq payload m).0.client_id ≡ m.client_id
unfolding receive stream_or_new
receive-client_id client_id sid seq payload m = ground arith

-- When a data frame whose fields fit comes from another client than the one the stream belongs to
-- (`open_stream` makes streams for client 0), the stream loses its place in the sending direction:
-- what is sent on it afterwards is numbered from 0, whatever had been sent before.
pub handle_frame_restarts :
    (client_id sid seq : ℕ) (chunk bytes : Bytes) (s : Stream) (m : Multiplexer)
    → client_id < 2 ^ 32
    → sid < 2 ^ 16
    → seq < 2 ^ 32
    → 0 < length chunk
    → length chunk < 0xffff
    → get sid m.streams ≡ some s
    → s.client_id ≢ client_id
    → (send_data recording sid bytes (handle_frame (data_frame client_id sid seq chunk) m).0 []).2
      ≡ frames_from m.client_id sid 0 (chunks chunk_size bytes)
handle_frame_restarts client_id sid seq chunk bytes s m hc hs hq pos short e other =
    let handled = handle_frame-data_frame client_id sid seq chunk m hc hs hq pos short in
    let m' = (receive client_id sid seq chunk m).0 in
    let fresh = new_stream client_id s.notify in
    let t = (accept seq chunk fresh).0 in
    let there : get sid m'.streams ≡ some t =
      receive_known client_id sid seq chunk s m e
      ∙ ap (λ u. some (accept seq chunk u).0) (for_client_other client_id s other) in
    let (numbers, opened) = accept-sender seq chunk fresh in
    let (_, _, log, _, _) = send_data-open sid bytes t m' [] there opened in
    ap (λ r. (send_data recording sid bytes r.0 []).2) handled
    ∙ log
    ∙ ap (λ q. frames_from m'.client_id sid q (chunks chunk_size bytes)) numbers
    ∙ ap (λ c. frames_from c sid 0 (chunks chunk_size bytes))
        (receive-client_id client_id sid seq chunk m)

accept_stale :
    (seq : ℕ) (payload : Bytes) (s : Stream)
    → seq < s.next_recv_seq
    → accept seq payload s ≡ (s, false)
unfolding accept
accept_stale seq payload s lt = ground arith

-- A data frame whose fields fit and whose number the stream of that client has passed, a repeated
-- one for instance, leaves the stream as it is.
pub handle_frame_stale :
    (client_id sid seq : ℕ) (chunk : Bytes) (s : Stream) (m : Multiplexer)
    → client_id < 2 ^ 32
    → sid < 2 ^ 16
    → seq < 2 ^ 32
    → 0 < length chunk
    → length chunk < 0xffff
    → get sid m.streams ≡ some s
    → s.client_id ≡ client_id
    → seq < s.next_recv_seq
    → get sid (handle_frame (data_frame client_id sid seq chunk) m).0.streams ≡ get sid m.streams
handle_frame_stale client_id sid seq chunk s m hc hs hq pos short e own passed =
    ap (λ r. get sid r.0.streams)
      (handle_frame-data_frame client_id sid seq chunk m hc hs hq pos short)
    ∙ receive_known client_id sid seq chunk s m e
    ∙ ap (λ t. some (accept seq chunk t).0) (for_client_same client_id s own)
    ∙ ap (λ r. some r.0) (accept_stale seq chunk s passed)
    ∙ sym e
