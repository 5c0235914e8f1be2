-- ===== src/Olcrtc/Mux.antt =====
-- src/olcrtc/mux.rs, `Multiplexer`. Each function is what one task does under the lock, or such
-- steps with the calls of `send` between them; `send` is a parameter over a state `W` of the link.
-- An operation also returns the list of the notifies that it wakes, in order.
pub mod Validity
pub mod Dispatch
pub mod Reachable
pub mod Opening
pub mod Sending
pub mod Receiving
pub mod Transfer
pub mod RoundTrip
pub mod Waiting
pub mod Replies
use tauri_vpn_plugin.Common.{
  ℕ, zero, suc, ◌+◌, ◌%◌, ◌^◌, List, [], ◌∷◌, Bool, true, not, ◌||◌, Option, none, some, ltb, ◌==◌,
  nat_eq, if◌then◌else◌, length, is_empty, slice,
}
use tauri_vpn_plugin.Common.Bytes.{Bytes}
use tauri_vpn_plugin.Common.Dict.{Dict, get, insert, retain}
use tauri_vpn_plugin.Errors.{Result, ok, err, engine}
use tauri_vpn_plugin.Olcrtc.Frame.{
  header_size, chunk_size, control_reset_client, data_frame, close_frame, reset_frame,
  parse_control_frame, Header, parse_header, chunks,
}
use tauri_vpn_plugin.Olcrtc.Stream.{Notify, Stream, new_stream, next_u32, accept}

pub record Multiplexer : Type 0 where
  pub client_id : ℕ
  pub streams : Dict ℕ Stream
  pub next_id : ℕ
  pub notifies : ℕ

-- `Multiplexer::new`; no `Notify` has been allocated.
abbrev pub new_multiplexer : ℕ → Multiplexer
new_multiplexer client_id = record {
  client_id = client_id;
  streams = [];
  next_id = 1;
  notifies = 0;
}

abbrev pub put : ℕ → Stream → Multiplexer → Multiplexer
put sid s m = record m { streams = insert sid s m.streams }

-- `entry(sid).or_insert_with(…)`: the stream, and the map that holds it.
unfoldable pub stream_or_new : ℕ → ℕ → Multiplexer → Stream × Multiplexer
stream_or_new sid client_id m = elim (get sid m.streams) [
  | some s ↦ (s, m)
  | none ↦ (
    new_stream client_id m.notifies,
    record m {
      streams = insert sid (new_stream client_id m.notifies) m.streams;
      notifies = suc m.notifies;
    },
  )
]

-- `if sid == 0 { 1 } else { sid }`
abbrev pub nonzero_id : ℕ → ℕ
nonzero_id sid = if sid == 0 then 1 else sid

-- The loop of `open_stream`, which has no bound in the source: `none` when the fuel runs out.
unfoldable pub open_stream : ℕ → Multiplexer → Option (ℕ × Multiplexer)
open_stream zero m = none
open_stream (suc fuel) m = elim (get (nonzero_id m.next_id) m.streams) [
  | none ↦ some (
    nonzero_id m.next_id,
    record m {
      streams = insert (nonzero_id m.next_id) (new_stream 0 m.notifies) m.streams;
      next_id = (m.next_id + 1) % 2 ^ 16;
      notifies = suc m.notifies;
    },
  )
  | some s ↦ open_stream fuel (record m { next_id = (m.next_id + 1) % 2 ^ 16 })
]

-- The locked part of a round of `send_data`: the number for the chunk, `none` for an early return.
unfoldable pub reserve_seq : ℕ → Multiplexer → Option (ℕ × Multiplexer)
reserve_seq sid m = elim (get sid m.streams) [
  | none ↦ none
  | some s ↦
      if s.closed
      then none
      else some (s.next_send_seq, put sid (record s { next_send_seq = next_u32 s.next_send_seq }) m)
]

-- The locked part of `close_stream`.
unfoldable pub close_local : ℕ → Multiplexer → Multiplexer × List Notify
close_local sid m = elim (get sid m.streams) [
  | none ↦ (m, [])
  | some s ↦ (put sid (record s { closed = true }) m, s.notify ∷ [])
]

unfoldable pub mark_closed : ℕ → ℕ → Multiplexer → Multiplexer × List Notify
mark_closed sid client_id m = elim (get sid m.streams) [
  | none ↦ (m, [])
  | some s ↦
      if s.client_id == client_id
      then (put sid (record s { closed = true }) m, s.notify ∷ [])
      else (m, [])
]

-- The notifies of the streams of a client, in the order of the map.
unfoldable pub notifies_of : ℕ → Dict ℕ Stream → List Notify
notifies_of client_id [] = []
notifies_of client_id ((sid, s) ∷ streams) =
    let rest = notifies_of client_id streams in
    if s.client_id == client_id then s.notify ∷ rest else rest

-- `streams.retain(…)`. The `closed` flag that it sets goes away with the stream.
unfoldable pub reset_client : ℕ → Multiplexer → Multiplexer × List Notify
reset_client client_id m = (
  record m { streams = retain (λ s. not (s.client_id == client_id)) m.streams },
  notifies_of client_id m.streams,
)

-- A stream that another client uses starts afresh under the same notify.
abbrev pub for_client : ℕ → Stream → Stream
for_client client_id s = if s.client_id == client_id then s else new_stream client_id s.notify

-- The locked part of `handle_frame`, from the decoded fields.
unfoldable pub receive : ℕ → ℕ → ℕ → Bytes → Multiplexer → Multiplexer × List Notify
receive client_id sid seq payload m =
    let (s, m') = stream_or_new sid client_id m in
    let (s', woken) = accept seq payload (for_client client_id s) in
    (put sid s' m', if woken then s.notify ∷ [] else [])

abbrev pub handle_data : Header → Bytes → Multiplexer → Multiplexer × List Notify
handle_data h frame m =
    if h.len == 0
    then mark_closed h.sid h.client_id m
    else if ltb (length frame) (header_size + h.len)
    then (m, [])
    else receive h.client_id h.sid h.seq (slice header_size (header_size + h.len) frame) m

unfoldable pub handle_frame : Bytes → Multiplexer → Multiplexer × List Notify
handle_frame frame m =
    if ltb (length frame) header_size then (m, []) else elim (parse_control_frame frame) [
      | some control ↦
          if control.kind == control_reset_client then reset_client control.client_id m else (m, [])
      | none ↦ handle_data (parse_header frame) frame m
    ]

unfoldable pub read_stream : ℕ → Multiplexer → Bytes × Multiplexer
read_stream sid m = elim (get sid m.streams) [
  | none ↦ ([], m)
  | some s ↦ (s.recv_buf, put sid (record s { recv_buf = [] }) m)
]

-- One round of `wait_for_data`: `none` to return, or the notify to wait for before the next round.
unfoldable pub poll_data : ℕ → Multiplexer → Option Notify × Multiplexer
unfolding stream_or_new
poll_data sid m =
    let (s, m') = stream_or_new sid m.client_id m in
    (if not (is_empty s.recv_buf) || s.closed then none else some s.notify, m')

unfoldable pub stream_closed : ℕ → Multiplexer → Bool
stream_closed sid m = elim (get sid m.streams) [ none ↦ true | some s ↦ s.closed ]

module _ {W : Type 0} (send : Bytes → W → Result (Unit {0}) × W) where
  -- The loop of `send_data` over the chunks.
  unfoldable pub send_chunks :
      ℕ → List Bytes → Multiplexer → W → Result (Unit {0}) × Multiplexer × W
  send_chunks sid [] m w = (ok tt, m, w)
  send_chunks sid (chunk ∷ rest) m w = elim (reserve_seq sid m) [
    | none ↦ (ok tt, m, w)
    | some (seq, m') ↦
        let (r, w') = send (data_frame m.client_id sid seq chunk) w in
        elim r [ ok u ↦ send_chunks sid rest m' w' | err e ↦ (err e, m', w') ]
  ]

  unfoldable pub send_data : ℕ → Bytes → Multiplexer → W → Result (Unit {0}) × Multiplexer × W
  send_data sid bytes m w = send_chunks sid (chunks chunk_size bytes) m w

  unfoldable pub close_stream :
      ℕ → Multiplexer → W → Result (Unit {0}) × Multiplexer × List Notify × W
  close_stream sid m w =
      let (m', woken) = close_local sid m in
      let (r, w') = send (close_frame m.client_id sid) w in (r, m', woken, w')

  unfoldable pub send_client_reset : Multiplexer → W → Result (Unit {0}) × W
  send_client_reset m w =
      if m.client_id == 0
      then (err (engine "OLC RTC client reset requires a non-zero client id"), w)
      else send (reset_frame m.client_id) w
