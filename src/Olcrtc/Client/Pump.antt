-- ===== src/Olcrtc/Client/Pump.antt =====
-- src/olcrtc/client.rs, `pump_from_mux`: when its rounds carry over everything, and when not.
use tauri_vpn_plugin.Common.{
  ℕ, ◌^◌, ◌<◌, ◌≡◌, refl, ap, ◌∙◌, Bool, true, [], ◌∷◌, ◌++◌, append-nil, some, arith, length,
  nat_eq, nat_beq_iff, Option-cases, inl, inr,
}
use tauri_vpn_plugin.Common.Bytes.{Bytes}
use tauri_vpn_plugin.Common.Dict.{get, get-insert_self}
use tauri_vpn_plugin.Olcrtc.Frame.{data_frame, close_frame}
use tauri_vpn_plugin.Olcrtc.Stream.{Stream, deliver, accept}
use tauri_vpn_plugin.Olcrtc.Mux.{
  Multiplexer, handle_frame, read_stream, stream_closed, mark_closed, put,
}
use tauri_vpn_plugin.Olcrtc.Mux.Receiving.{
  handle_frame-data_frame, handle_frame-close_frame, receive_known,
}
use tauri_vpn_plugin.Olcrtc.Mux.RoundTrip.{handle_all, accept_in_order}
use tauri_vpn_plugin.Olcrtc.Mux.Transfer.{for_client_same}
use tauri_vpn_plugin.Olcrtc.Client.{pump_round}

-- A writer that takes everything, and records it.
abbrev pub taking : Bytes → Bytes → Bool × Bytes
taking bytes written = (true, written ++ bytes)

-- When nothing arrives between the read and the test and the writer takes everything, a round
-- writes what the stream held, leaves nothing unread, and stops exactly if the stream counted as
-- closed.
pub pump_round-drains :
    (sid : ℕ) (m : Multiplexer) (written : Bytes)
    → let (stops, m', written') = pump_round taking sid [] m written in
      (written' ≡ written ++ (read_stream sid m).0)
      × ((read_stream sid m').0 ≡ [])
      × (stops ≡ stream_closed sid m)
unfolding pump_round handle_all read_stream stream_closed
pump_round-drains sid m written = elim (Option-cases (get sid m.streams)) [
  | inl e ↦ ground (arith, append-nil written)
  | inr (s, e) ↦
      ground (arith, append-nil written, get-insert_self sid (record s { recv_buf = [] }) m.streams)
]

read_stream_known :
    (sid : ℕ) (s : Stream) (m : Multiplexer)
    → get sid m.streams ≡ some s
    → read_stream sid m ≡ (s.recv_buf, put sid (record s { recv_buf = [] }) m)
unfolding read_stream
read_stream_known sid s m e = rw (e, read_stream) refl

mark_closed_known :
    (sid client_id : ℕ) (s : Stream) (m : Multiplexer)
    → get sid m.streams ≡ some s
    → s.client_id ≡ client_id
    → get sid (mark_closed sid client_id m).0.streams ≡ some (record s { closed = true })
unfolding mark_closed
mark_closed_known sid client_id s m e own = ground (
  arith,
  get-insert_self sid (record s { closed = true }) m.streams,
  nat_beq_iff s.client_id client_id,
)

stream_closed_known :
    (sid : ℕ) (s : Stream) (m : Multiplexer)
    → get sid m.streams ≡ some s
    → stream_closed sid m ≡ s.closed
unfolding stream_closed
stream_closed_known sid s m e = rw (e, stream_closed) refl

-- The next chunk and the close of a stream that holds no chunk.
last_frames :
    (client_id sid : ℕ) (chunk : Bytes) (s : Stream) (m : Multiplexer)
    → client_id < 2 ^ 32
    → sid < 2 ^ 16
    → s.next_recv_seq < 2 ^ 32
    → 0 < length chunk
    → length chunk < 0xffff
    → get sid m.streams ≡ some s
    → s.client_id ≡ client_id
    → s.out_of_order ≡ []
    → get sid
        (handle_all
          (data_frame client_id sid s.next_recv_seq chunk ∷ close_frame client_id sid ∷ [])
          m).streams
      ≡ some (record (deliver chunk s) { closed = true })
unfolding handle_all
last_frames client_id sid chunk s m hc hs hq pos short e own empty =
    let m' = (handle_frame (data_frame client_id sid s.next_recv_seq chunk) m).0 in
    let there : get sid m'.streams ≡ some (deliver chunk s) =
      ap (λ r. get sid r.0.streams)
        (handle_frame-data_frame client_id sid s.next_recv_seq chunk m hc hs hq pos short)
      ∙ receive_known client_id sid s.next_recv_seq chunk s m e
      ∙ ap (λ t. some (accept s.next_recv_seq chunk t).0) (for_client_same client_id s own)
      ∙ ap some (accept_in_order chunk s empty) in
    ap (λ r. get sid r.0.streams) (handle_frame-close_frame client_id sid m' hc hs)
    ∙ mark_closed_known sid client_id (deliver chunk s) m' there own

-- When the next chunk of a stream that holds no early chunk and the stream's close frame are
-- handled between the read and the test, the round stops the pump with that chunk unread: it
-- writes what was there before, and the chunk stays in the stream. The fields of the frames fit.
pub pump_round_loses :
    (client_id sid : ℕ) (chunk written : Bytes) (s : Stream) (m : Multiplexer)
    → client_id < 2 ^ 32
    → sid < 2 ^ 16
    → s.next_recv_seq < 2 ^ 32
    → 0 < length chunk
    → length chunk < 0xffff
    → get sid m.streams ≡ some s
    → s.client_id ≡ client_id
    → s.out_of_order ≡ []
    → let (stops, m', written') =
        pump_round taking sid
          (data_frame client_id sid s.next_recv_seq chunk ∷ close_frame client_id sid ∷ [])
          m
          written in
      (stops ≡ true) × (written' ≡ written ++ s.recv_buf) × ((read_stream sid m').0 ≡ chunk)
unfolding pump_round
pump_round_loses client_id sid chunk written s m hc hs hq pos short e own empty =
    let t = record s { recv_buf = [] } in
    let after =
      last_frames client_id sid chunk t (put sid t m) hc hs hq pos short
        (get-insert_self sid t m.streams) own empty in
    let left =
      handle_all (data_frame client_id sid s.next_recv_seq chunk ∷ close_frame client_id sid ∷ [])
        (put sid t m) in
    rw (read_stream_known sid s m e) (
      ground (
        arith,
        append-nil written,
        stream_closed_known sid (record (deliver chunk t) { closed = true }) left after,
        ap (λ r. r.0)
            (read_stream_known sid (record (deliver chunk t) { closed = true }) left after),
      ))
