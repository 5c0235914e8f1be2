-- ===== src/Olcrtc/Mux/Sending.antt =====
-- src/olcrtc/mux.rs, `send_data` and `close_stream`: the frames that go to the link.
use tauri_vpn_plugin.Common.{
  ℕ, zero, suc, ◌≡◌, refl, sym, ◌∙◌, ◌≢◌, List, [], ◌∷◌, ◌++◌, append_assoc, append-nil, some, none,
  arith, nat_eq, Option-cases, inl, inr, true, false, length, concat, All,
}
use tauri_vpn_plugin.Common.Bytes.{Bytes}
use tauri_vpn_plugin.Common.Dict.{get, get-insert_self}
use tauri_vpn_plugin.Errors.{Result, ok, err, VpnError}
use tauri_vpn_plugin.Olcrtc.Frame.{chunks, chunk_size, data_frame, close_frame}
use tauri_vpn_plugin.Olcrtc.Frame.Chunks.{IsChunk, chunks-cons, concat-chunks, All-chunks}
use tauri_vpn_plugin.Olcrtc.Stream.{Stream, next_u32}
use tauri_vpn_plugin.Olcrtc.Mux.{
  Multiplexer, put, reserve_seq, close_local, send_chunks, send_data, close_stream, stream_closed,
}

-- The chunks under consecutive numbers, wrapped to 32 bits.
abbrev pub frames_from : ℕ → ℕ → ℕ → List Bytes → List Bytes
frames_from client_id sid seq [] = []
frames_from client_id sid seq (chunk ∷ rest) =
    data_frame client_id sid seq chunk ∷ frames_from client_id sid (next_u32 seq) rest

-- The number after that many chunks.
abbrev pub advance : ℕ → ℕ → ℕ
advance seq zero = seq
advance seq (suc n) = advance (next_u32 seq) n

-- A link that takes every frame, and records them.
abbrev pub recording : Bytes → List Bytes → Result (Unit {0}) × List Bytes
recording frame sent = (ok tt, sent ++ frame ∷ [])

reserve_seq-open :
    (sid : ℕ) (s : Stream) (m : Multiplexer)
    → get sid m.streams ≡ some s
    → s.closed ≡ false
    → reserve_seq sid m
      ≡ some (s.next_send_seq, put sid (record s { next_send_seq = next_u32 s.next_send_seq }) m)
unfolding reserve_seq
reserve_seq-open sid s m e o = rw (e, reserve_seq) (rw o)

send_chunks-open :
    (sid : ℕ) (cs : List Bytes) (s : Stream) (m : Multiplexer) (sent : List Bytes)
    → get sid m.streams ≡ some s
    → s.closed ≡ false
    → let r = send_chunks recording sid cs m sent in
      (r.0 ≡ ok tt)
      × (get sid r.1.streams
          ≡ some (record s { next_send_seq = advance s.next_send_seq (length cs) }))
      × (r.2 ≡ sent ++ frames_from m.client_id sid s.next_send_seq cs)
unfolding send_chunks
send_chunks-open sid [] s m sent e o = (refl, e, sym (append-nil sent))
send_chunks-open sid (c ∷ cs) s m sent e o =
    let s' = record s { next_send_seq = next_u32 s.next_send_seq } in
    rw (reserve_seq-open sid s m e o, send_chunks)
      (let (done, there, log) =
          send_chunks-open sid cs s' (put sid s' m)
            (sent ++ data_frame m.client_id sid s.next_send_seq c ∷ [])
            (get-insert_self sid s' m.streams) o in
        (done, there, log ∙ append_assoc sent _ _))

-- On an open stream whose link takes every frame, `send_data` succeeds and sends the chunks of the
-- data, none empty or longer than 7000 bytes and together the data, in order under consecutive
-- numbers from the stream's next one, which moves on by as many; nothing else of the stream changes.
pub send_data-open :
    (sid : ℕ) (bytes : Bytes) (s : Stream) (m : Multiplexer) (sent : List Bytes)
    → get sid m.streams ≡ some s
    → s.closed ≡ false
    → let r = send_data recording sid bytes m sent in
      let cs = chunks chunk_size bytes in
      (r.0 ≡ ok tt)
      × (get sid r.1.streams
          ≡ some (record s { next_send_seq = advance s.next_send_seq (length cs) }))
      × (r.2 ≡ sent ++ frames_from m.client_id sid s.next_send_seq cs)
      × (concat cs ≡ bytes)
      × All (IsChunk chunk_size) cs
unfolding send_data
send_data-open sid bytes s m sent e o =
    let (done, there, log) = send_chunks-open sid (chunks chunk_size bytes) s m sent e o in
    (
      done,
      there,
      log,
      concat-chunks chunk_size bytes (omega arith),
      All-chunks chunk_size bytes (omega arith),
    )

module _ {W : Type 0} (send : Bytes → W → Result (Unit {0}) × W) where
  send_chunks-shut :
      (sid : ℕ) (cs : List Bytes) (m : Multiplexer) (w : W)
      → reserve_seq sid m ≡ none
      → send_chunks send sid cs m w ≡ (ok tt, m, w)
  unfolding send_chunks
  send_chunks-shut sid [] m w e = refl
  send_chunks-shut sid (c ∷ cs) m w e = rw (e, send_chunks)

  closed-no_seq :
      (sid : ℕ) (m : Multiplexer) → stream_closed sid m ≡ true → reserve_seq sid m ≡ none
  unfolding stream_closed reserve_seq
  closed-no_seq sid m h = ground arith

  close_local-closed : (sid : ℕ) (m : Multiplexer) → stream_closed sid (close_local sid m).0 ≡ true
  unfolding stream_closed close_local
  close_local-closed sid m = elim (Option-cases (get sid m.streams)) [
    | inl e ↦ rw (e, close_local, stream_closed) (rw (e, stream_closed))
    | inr (s, e) ↦
        rw (e, close_local)
          (rw (get-insert_self sid (record s { closed = true }) m.streams, stream_closed))
  ]

  -- After `close_stream`, on whatever link and whether the stream existed or not, the stream counts
  -- as closed, and `send_data` on it succeeds without touching the link or the streams; the result
  -- of `close_stream` is that of sending the close frame.
  pub close_stream-shuts :
      (sid : ℕ) (m : Multiplexer) (w : W)
      → let r = close_stream send sid m w in
        (stream_closed sid r.1 ≡ true)
        × ((bytes : Bytes) (w' : W) → send_data send sid bytes r.1 w' ≡ (ok tt, r.1, w'))
        × (r.0 ≡ (send (close_frame m.client_id sid) w).0)
        × (r.3 ≡ (send (close_frame m.client_id sid) w).1)
  unfolding close_stream send_data
  close_stream-shuts sid m w =
      let shut = close_local-closed sid m in
      (shut, λ bytes w'. send_chunks-shut sid _ _ w' (closed-no_seq sid _ shut), refl, refl)

  send_chunks_refused :
      (sid : ℕ) (c : Bytes) (cs : List Bytes) (s : Stream) (m : Multiplexer) (w : W) (e : VpnError)
      → get sid m.streams ≡ some s
      → s.closed ≡ false
      → ((frame : Bytes) → (send frame w).0 ≡ err e)
      → let r = send_chunks send sid (c ∷ cs) m w in
        (r.0 ≡ err e)
        × (get sid r.1.streams ≡ some (record s { next_send_seq = next_u32 s.next_send_seq }))
  unfolding send_chunks
  send_chunks_refused sid c cs s m w e there o refuses =
      rw (reserve_seq-open sid s m there o, send_chunks)
        (rw (refuses (data_frame m.client_id sid s.next_send_seq c)) (
          refl,
          get-insert_self sid (record s { next_send_seq = next_u32 s.next_send_seq }) m.streams,
        ))

  -- When the link refuses every frame, `send_data` of at least one byte on an open stream returns
  -- the link's error, and the one number that it had reserved stays used.
  pub send_data_refused :
      (sid : ℕ) (bytes : Bytes) (s : Stream) (m : Multiplexer) (w : W) (e : VpnError)
      → get sid m.streams ≡ some s
      → s.closed ≡ false
      → bytes ≢ []
      → ((frame : Bytes) → (send frame w).0 ≡ err e)
      → let r = send_data send sid bytes m w in
        (r.0 ≡ err e)
        × (get sid r.1.streams ≡ some (record s { next_send_seq = next_u32 s.next_send_seq }))
  unfolding send_data
  send_data_refused sid bytes s m w e there o ne refuses =
      let (c, cs, same) = chunks-cons chunk_size bytes ne in
      rw same (send_chunks_refused sid c cs s m w e there o refuses)
