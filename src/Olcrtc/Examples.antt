-- ===== src/Olcrtc/Examples.antt =====
-- Runs of src/olcrtc/mux.rs at which the theorems' hypotheses hold.
use tauri_vpn_plugin.Common.{
  ℕ, zero, suc, ◌+◌, ◌^◌, ◌≤◌, ◌<◌, ◌≡◌, ◌≢◌, refl, inl, List, [], ◌∷◌, ◌++◌, false, true, none,
  some, arith, nat_eq, All, concat, length,
}
use tauri_vpn_plugin.Common.Bytes.{Bytes}
use tauri_vpn_plugin.Common.Dict.{Dict, get, insert}
use tauri_vpn_plugin.Errors.{Result, ok, err, engine}
use tauri_vpn_plugin.Olcrtc.Frame.{
  data_frame, parse_control_frame, parse_header, chunks, chunk_size,
}
use tauri_vpn_plugin.Olcrtc.Frame.Chunks.{IsChunk}
use tauri_vpn_plugin.Olcrtc.Stream.{Stream, new_stream, drain, accept}
use tauri_vpn_plugin.Olcrtc.Stream.Reassembly.{prefix}
use tauri_vpn_plugin.Olcrtc.Mux.{
  Multiplexer, new_multiplexer, open_stream, stream_or_new, receive, handle_frame, reset_client,
  read_stream, poll_data, send_data, stream_closed,
}
use tauri_vpn_plugin.Olcrtc.Mux.Opening.{
  Opens, open_stream_total, IsFull, open_stream_full, close_all,
}
use tauri_vpn_plugin.Olcrtc.Mux.Reachable.{Reach, here, next, opens, handles, Reach-IsValid}
use tauri_vpn_plugin.Olcrtc.Mux.Validity.{IsValid}
use tauri_vpn_plugin.Olcrtc.Mux.Sending.{frames_from, advance, recording, send_data-open}
use tauri_vpn_plugin.Olcrtc.Mux.Waiting.{Wakes, handle_frame-Wakes, reset_client_waits_on}
use tauri_vpn_plugin.Olcrtc.Mux.RoundTrip.{handle_all, send_data-read_stream}
use tauri_vpn_plugin.Olcrtc.Mux.Transfer.{
  Traffic, chunk_comes, other_comes, read_out, Comes, transfer, IsAllowed, Fits, received,
  transfer_complete,
}

-- A sender of three chunks.
abbrev pub chunk : ℕ → Bytes
chunk k = (k + 1) ∷ []

-- A data frame of stream 2.
abbrev pub other_frame : Bytes
other_frame = 0 ∷ 0 ∷ 0 ∷ 5 ∷ 0 ∷ 2 ∷ 0 ∷ 1 ∷ 0 ∷ 0 ∷ 0 ∷ 0 ∷ 9 ∷ []

abbrev traffic : List Traffic
traffic =
    chunk_comes 2
    ∷ read_out
    ∷ chunk_comes 0
    ∷ other_comes other_frame
    ∷ chunk_comes 1
    ∷ chunk_comes 1
    ∷ []

-- A multiplexer that holds stream 1 of client 5.
abbrev pub holding : Multiplexer
holding = record { client_id = 5; streams = (1, new_stream 5 0) ∷ []; next_id = 2; notifies = 1 }

pub Fits_example : Fits 5 1 3 chunk
Fits_example = record {
  client_bound = omega arith;
  sid_bound = omega arith;
  count_bound = omega arith;
  chunk_bounds = λ k lt. (omega arith, omega arith);
}

traffic-IsAllowed : All (IsAllowed 5 1 3 chunk) traffic
unfolding parse_control_frame parse_header
traffic-IsAllowed = (
  omega arith,
  (tt, (omega arith, ((refl, λ e. omega (arith, e)), (omega arith, (omega arith, tt))))),
)

traffic-Comes : (k : ℕ) → k < 3 → Comes k traffic
traffic-Comes k lt = omega arith

pub holding-stream : get 1 holding.streams ≡ some (new_stream 5 0)
unfolding get
holding-stream = refl

transfer_complete_example :
    received 5 1 3 chunk (transfer 5 1 3 chunk traffic ([], holding)) ≡ prefix chunk 3
transfer_complete_example =
    transfer_complete 5 1 3 chunk Fits_example traffic holding 0 traffic-IsAllowed holding-stream
      traffic-Comes (omega arith)

abbrev pub text : Bytes
text = 97 ∷ 98 ∷ []

send_data-open_example :
    let r = send_data recording 1 text holding [] in
    let cs = chunks chunk_size text in
    (r.0 ≡ ok tt)
    × (get 1 r.1.streams ≡ some (record (new_stream 5 0) { next_send_seq = advance 0 (length cs) }))
    × (r.2 ≡ [] ++ frames_from 5 1 0 cs)
    × (concat cs ≡ text)
    × All (IsChunk chunk_size) cs
send_data-open_example = send_data-open 1 text (new_stream 5 0) holding [] holding-stream refl

-- A link that refuses every frame.
abbrev refusing : Bytes → List Bytes → Result (Unit {0}) × List Bytes
refusing frame sent = (err (engine "data channel is closed"), sent)

send_data-read_stream_example :
    (read_stream 1 (handle_all (send_data recording 1 text holding []).2 (new_multiplexer 7))).0
    ≡ text
unfolding get
send_data-read_stream_example =
    send_data-read_stream 1 text (new_stream 5 0) holding (new_multiplexer 7) (omega arith)
      (omega arith) holding-stream refl refl (λ e. cc) (omega arith) (inl refl)

open_stream_total_example : Opens (open_stream (2 ^ 16) holding)
unfolding get
open_stream_total_example =
    open_stream_total 2 holding (omega arith) (omega arith) (omega arith) refl

-- A client that opens stream 1, and is answered on it.
abbrev opened : Multiplexer
opened = record (new_multiplexer 5) {
  streams = (1, new_stream 0 0) ∷ [];
  next_id = 2;
  notifies = 1;
}

opened-Reach : Reach (new_multiplexer 5) opened
unfolding open_stream get insert
opened-Reach = next here (opens 1 1 refl)

Reach-IsValid_example : IsValid (handle_frame other_frame opened).0
Reach-IsValid_example =
    Reach-IsValid 5 _ (next opened-Reach (handles other_frame (omega arith) refl))

opened-IsValid : IsValid opened
opened-IsValid = Reach-IsValid 5 opened opened-Reach

handle_frame-Wakes_example : Wakes 0 (handle_frame (data_frame 5 1 0 text) opened).1
unfolding handle_frame data_frame parse_control_frame parse_header receive stream_or_new accept
    drain get insert poll_data
handle_frame-Wakes_example =
    handle_frame-Wakes 1 (new_stream 0 0) opened opened-IsValid refl (refl, refl)
      (data_frame 5 1 0 text) refl

reset_client_waits_on_example :
    let (m', woken) = reset_client 0 opened in
    Wakes 0 woken
    × (stream_closed 1 m' ≡ true)
    × ((poll_data 1 m').0 ≡ some 1)
    × (◌≢◌ {A = ℕ} 1 0)
    × (stream_closed 1 (poll_data 1 m').1 ≡ false)
unfolding get
reset_client_waits_on_example = reset_client_waits_on 1 (new_stream 0 0) opened opened-IsValid refl

-- Streams under the ids from `n` down to 1.
unfoldable streams_to : ℕ → Dict ℕ Stream
streams_to zero = []
streams_to (suc n) = (suc n, new_stream 0 n) ∷ streams_to n

streams_to-get : (n id : ℕ) → id ≢ 0 → id ≤ n → get id (streams_to n) ≢ none
unfolding streams_to get
streams_to-get zero id nz le = absurd (omega arith)
streams_to-get (suc n) id nz le = ground (arith, streams_to-get n id nz)

abbrev full : Multiplexer
full = record { client_id = 5; streams = streams_to 65535; next_id = 0; notifies = 65535 }

full-IsFull : IsFull full
full-IsFull id nz lt = streams_to-get 65535 id nz (omega arith)

open_stream_full_example : open_stream 200000 (close_all (1 ∷ 2 ∷ []) full) ≡ none
open_stream_full_example = open_stream_full 200000 (1 ∷ 2 ∷ []) full (omega arith) full-IsFull
