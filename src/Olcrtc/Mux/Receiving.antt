-- ===== src/Olcrtc/Mux/Receiving.antt =====
-- src/olcrtc/mux.rs, `handle_frame` and `read_stream`: what the receiving side makes of frames.
use tauri_vpn_plugin.Common.{
  ℕ, ◌+◌, ◌^◌, ◌<◌, ◌≡◌, refl, ◌∙◌, ◌≢◌, some, none, arith, nat_eq, nat_beq_iff, Option-cases, inl,
  inr, true, length, slice,
}
use tauri_vpn_plugin.Common.Bytes.{Bytes}
use tauri_vpn_plugin.Common.Dict.{get, get-insert, get-insert_self, get-insert_ne}
use tauri_vpn_plugin.Olcrtc.Frame.{
  data_frame, close_frame, reset_frame, header_size, parse_header, parse_control_frame,
}
use tauri_vpn_plugin.Olcrtc.Frame.Codec.{
  length-data_frame, payload-data_frame, parse_header-data_frame, parse_control_frame-data_frame,
  parse_control_frame-close_frame, parse_header-close_frame, parse_control_frame-reset_frame,
  length-close_frame, length-reset_frame,
}
use tauri_vpn_plugin.Olcrtc.Stream.{Stream, new_stream, accept}
use tauri_vpn_plugin.Olcrtc.Mux.{
  Multiplexer, stream_or_new, for_client, mark_closed, reset_client, receive, handle_frame,
}

-- A data frame with a payload of 1 to 65534 bytes and fields that fit is received for the stream
-- that it names, with the client id, the number and the bytes that the sender put in; it is never
-- taken for a control or a close frame.
pub handle_frame-data_frame :
    (client_id sid seq : ℕ) (chunk : Bytes) (m : Multiplexer)
    → client_id < 2 ^ 32
    → sid < 2 ^ 16
    → seq < 2 ^ 32
    → 0 < length chunk
    → length chunk < 0xffff
    → handle_frame (data_frame client_id sid seq chunk) m ≡ receive client_id sid seq chunk m
unfolding handle_frame
handle_frame-data_frame client_id sid seq chunk m hc hs hq pos lt =
    rw
      (
        length-data_frame client_id sid seq chunk,
        parse_control_frame-data_frame client_id sid seq chunk lt,
        parse_header-data_frame client_id sid seq chunk hc hs hq (omega arith),
        handle_frame,
      )
      (rw length-data_frame (ground (arith, payload-data_frame client_id sid seq chunk)))

-- A close frame whose fields fit marks the stream that it names closed for the client that sent
-- it.
pub handle_frame-close_frame :
    (client_id sid : ℕ) (m : Multiplexer)
    → client_id < 2 ^ 32
    → sid < 2 ^ 16
    → handle_frame (close_frame client_id sid) m ≡ mark_closed sid client_id m
unfolding handle_frame
handle_frame-close_frame client_id sid m hc hs =
    rw
      (
        parse_control_frame-close_frame client_id sid,
        parse_header-close_frame client_id sid hc hs,
        handle_frame,
      )
      (rw length-close_frame refl)

-- A reset frame whose client id fits resets that client.
pub handle_frame-reset_frame :
    (client_id : ℕ) (m : Multiplexer)
    → client_id < 2 ^ 32
    → handle_frame (reset_frame client_id) m ≡ reset_client client_id m
unfolding handle_frame
handle_frame-reset_frame client_id m hc =
    rw (parse_control_frame-reset_frame client_id hc, handle_frame) (rw length-reset_frame refl)

-- What stays of other streams: `receive` and `mark_closed` touch only the stream that they name.
stream_or_new-elsewhere :
    (sid client_id j : ℕ) (m : Multiplexer)
    → sid ≢ j
    → get j (stream_or_new sid client_id m).1.streams ≡ get j m.streams
unfolding stream_or_new
stream_or_new-elsewhere sid client_id j m ne =
    ground (arith, get-insert sid j (new_stream client_id m.notifies) m.streams, nat_beq_iff sid j)

pub receive-elsewhere :
    (client_id sid seq j : ℕ) (payload : Bytes) (m : Multiplexer)
    → sid ≢ j
    → get j (receive client_id sid seq payload m).0.streams ≡ get j m.streams
unfolding receive
receive-elsewhere client_id sid seq j payload m ne =
    get-insert_ne sid j _ _ ne ∙ stream_or_new-elsewhere sid client_id j m ne

pub mark_closed-elsewhere :
    (client_id sid j : ℕ) (m : Multiplexer)
    → sid ≢ j
    → get j (mark_closed sid client_id m).0.streams ≡ get j m.streams
unfolding mark_closed
mark_closed-elsewhere client_id sid j m ne = elim (Option-cases (get sid m.streams)) [
  | inl e ↦ rw (e, mark_closed)
  | inr (s, e) ↦ ground (arith, get-insert_ne sid j (record s { closed = true }) m.streams ne)
]

-- A frame that is no control frame and names another stream leaves a stream as it is.
pub handle_frame-elsewhere :
    (frame : Bytes) (j : ℕ) (m : Multiplexer)
    → parse_control_frame frame ≡ none
    → (parse_header frame).sid ≢ j
    → get j (handle_frame frame m).0.streams ≡ get j m.streams
unfolding handle_frame
handle_frame-elsewhere frame j m data_ ne =
    let h = parse_header frame in
    rw (data_, handle_frame)
      (ground (
        arith,
        mark_closed-elsewhere h.client_id h.sid j m ne,
        receive-elsewhere h.client_id h.sid h.seq j (slice header_size (header_size + h.len) frame)
            m ne,
      ))

-- A chunk for a stream that the map holds: the stream takes it in, as the sending client's.
pub receive_known :
    (client_id sid seq : ℕ) (payload : Bytes) (s : Stream) (m : Multiplexer)
    → get sid m.streams ≡ some s
    → get sid (receive client_id sid seq payload m).0.streams
      ≡ some (accept seq payload (for_client client_id s)).0
unfolding receive stream_or_new
receive_known client_id sid seq payload s m e =
    rw (e, receive, stream_or_new) (get-insert_self sid _ m.streams)
