-- ===== src/Olcrtc/Mux/RoundTrip.antt =====
-- src/olcrtc/mux.rs: what `send_data` puts on the link, handled by another multiplexer and read.
use tauri_vpn_plugin.Common.{
  ℕ, ◌+◌, ◌^◌, ◌≤◌, ◌<◌, ◌≡◌, refl, sym, ap, ◌∙◌, ◌≢◌, ◌⊎◌, inl, inr, List, [], ◌∷◌, ◌++◌,
  append_assoc, append-nil, some, none, arith, nat_eq, nat_beq_iff, false, length, length-append,
  concat, All,
}
use tauri_vpn_plugin.Common.Bytes.{Bytes}
use tauri_vpn_plugin.Common.Dict.{get, get-insert_self}
use tauri_vpn_plugin.Olcrtc.Frame.{chunks, chunk_size, data_frame}
use tauri_vpn_plugin.Olcrtc.Frame.Chunks.{IsChunk, chunks-cons}
use tauri_vpn_plugin.Olcrtc.Stream.{Stream, Notify, new_stream, deliver, drain, accept}
use tauri_vpn_plugin.Olcrtc.Mux.{
  Multiplexer, for_client, stream_or_new, receive, handle_frame, read_stream, send_data,
}
use tauri_vpn_plugin.Olcrtc.Mux.Sending.{frames_from, recording, send_data-open}
use tauri_vpn_plugin.Olcrtc.Mux.Receiving.{handle_frame-data_frame, receive_known}

unfoldable pub handle_all : List Bytes → Multiplexer → Multiplexer
handle_all [] m = m
handle_all (frame ∷ frames) m = handle_all frames (handle_frame frame m).0

pub accept_in_order :
    (chunk : Bytes) (s : Stream)
    → s.out_of_order ≡ []
    → (accept s.next_recv_seq chunk s).0 ≡ deliver chunk s
unfolding accept drain
accept_in_order chunk s e = rw (e, (nat_beq_iff s.next_recv_seq s.next_recv_seq).1 refl)

for_client_new :
    (client_id : ℕ) (notify : Notify)
    → for_client client_id (new_stream client_id notify) ≡ new_stream client_id notify
for_client_new client_id notify = ground arith

pub for_client_other :
    (client_id : ℕ) (s : Stream)
    → s.client_id ≢ client_id
    → for_client client_id s ≡ new_stream client_id s.notify
for_client_other client_id s h = ground arith

length-le-concat :
    (size : ℕ) (cs : List Bytes) → All (IsChunk size) cs → length cs ≤ length (concat cs)
length-le-concat size [] h = omega arith
length-le-concat size (c ∷ cs) ((pos, _), h) =
    omega (arith, length-append c (concat cs), length-le-concat size cs h)

-- The map has no stream under the id, or one of another client.
abbrev pub IsForeign : ℕ → ℕ → Multiplexer → Type 0
IsForeign client_id sid m =
    (get sid m.streams ≡ none)
    ⊎ ((s : Stream) × (get sid m.streams ≡ some s) × (s.client_id ≢ client_id))

module _ (client_id sid : ℕ) (hc : client_id < 2 ^ 32) (hs : sid < 2 ^ 16) where
  -- A stream that holds nothing takes chunks in order as they come.
  handle_all_in_order :
      (cs : List Bytes) (s : Stream) (m : Multiplexer)
      → get sid m.streams ≡ some s
      → s.client_id ≡ client_id
      → s.out_of_order ≡ []
      → s.next_recv_seq + length cs < 2 ^ 32
      → All (IsChunk chunk_size) cs
      → (t : Stream) × (get sid
            (handle_all (frames_from client_id sid s.next_recv_seq cs) m).streams
          ≡ some t)
        × (t.recv_buf ≡ s.recv_buf ++ concat cs)
  unfolding handle_all
  handle_all_in_order [] s m e own none_held fits h = (s, e, sym (append-nil _))
  handle_all_in_order (c ∷ cs) s m e own none_held fits ((pos, short), h) =
      let handled : get sid (handle_frame (data_frame client_id sid s.next_recv_seq c) m).0.streams
          ≡ some (deliver c s) =
        ap (λ r. get sid r.0.streams)
          (handle_frame-data_frame client_id sid s.next_recv_seq c m hc hs (omega arith) pos
            (omega arith))
        ∙ receive_known client_id sid s.next_recv_seq c s m e
        ∙ ground (arith, accept_in_order c s none_held) in
      let (t, there, buf) =
        handle_all_in_order cs (deliver c s)
          (handle_frame (data_frame client_id sid s.next_recv_seq c) m).0 handled own none_held
          (omega arith) h in
      (t, there, buf ∙ append_assoc s.recv_buf c (concat cs))

  receive_foreign :
      (chunk : Bytes) (m : Multiplexer)
      → IsForeign client_id sid m
      → (notify : Notify) × (get sid (receive client_id sid 0 chunk m).0.streams
          ≡ some (deliver chunk (new_stream client_id notify)))
  unfolding receive stream_or_new
  receive_foreign chunk m (inl e) = (
    m.notifies,
    rw (e, stream_or_new)
        (get-insert_self sid _ _
          ∙ ap some (
              ap (λ t. (accept 0 chunk t).0) (for_client_new client_id m.notifies)
              ∙ accept_in_order chunk (new_stream client_id m.notifies) refl)),
  )
  receive_foreign chunk m (inr (s, e, other)) = (
    s.notify,
    receive_known client_id sid 0 chunk s m e
        ∙ ap some (
            ap (λ t. (accept 0 chunk t).0) (for_client_other client_id s other)
            ∙ accept_in_order chunk (new_stream client_id s.notify) refl),
  )

  received_in_order :
      (bytes : Bytes) (cs : List Bytes) (m : Multiplexer)
      → cs ≢ []
      → concat cs ≡ bytes
      → All (IsChunk chunk_size) cs
      → length bytes < 2 ^ 32
      → IsForeign client_id sid m
      → (read_stream sid (handle_all (frames_from client_id sid 0 cs) m)).0 ≡ bytes
  unfolding handle_all read_stream
  received_in_order bytes [] m ne all h fits fresh = absurd (ne refl)
  received_in_order bytes (c ∷ cs) m ne all h fits fresh =
      let few = length-le-concat chunk_size (c ∷ cs) h in
      let size = ap length all in
      let (notify, first) = receive_foreign c m fresh in
      let handled =
        ap (λ r. get sid r.0.streams)
          (handle_frame-data_frame client_id sid 0 c m hc hs (omega arith) h.0.0
            (omega (arith, h.0.1)))
        ∙ first in
      let (t, there, buf) =
        handle_all_in_order cs (deliver c (new_stream client_id notify))
          (handle_frame (data_frame client_id sid 0 c) m).0 handled refl refl
          (omega (arith, few, size)) h.1 in
      rw (there, read_stream) (buf ∙ all)

-- What one multiplexer sends on an open stream that has not sent yet, over a link that takes every
-- frame, another one that handles those frames in order reads back unchanged: at least one and
-- fewer than 2 ^ 32 bytes, with ids that fit their fields. The receiving side has no stream under
-- that id, or one of another client.
pub send_data-read_stream :
    (sid : ℕ) (bytes : Bytes) (s : Stream) (m n : Multiplexer)
    → m.client_id < 2 ^ 32
    → sid < 2 ^ 16
    → get sid m.streams ≡ some s
    → s.closed ≡ false
    → s.next_send_seq ≡ 0
    → bytes ≢ []
    → length bytes < 2 ^ 32
    → IsForeign m.client_id sid n
    → (read_stream sid (handle_all (send_data recording sid bytes m []).2 n)).0 ≡ bytes
send_data-read_stream sid bytes s m n hc hs e o zero_seq ne fits fresh =
    let (_, _, log, all, h) = send_data-open sid bytes s m [] e o in
    let (c, cs, same) = chunks-cons chunk_size bytes ne in
    let frames : (send_data recording sid bytes m []).2
        ≡ frames_from m.client_id sid 0 (chunks chunk_size bytes) =
      log ∙ ap (λ q. frames_from m.client_id sid q (chunks chunk_size bytes)) zero_seq in
    rw frames (
      received_in_order m.client_id sid hc hs bytes (chunks chunk_size bytes) n (λ z. cc) all h fits
        fresh)
