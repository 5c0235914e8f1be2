-- ===== src/Olcrtc/Mux/Reachable.antt =====
-- src/olcrtc/mux.rs: the tasks that share a multiplexer interleave its locked sections; every state
-- that such an interleaving reaches is valid.
use tauri_vpn_plugin.Common.{
  ℕ, zero, suc, ◌+◌, ◌%◌, ◌^◌, ◌<◌, ◌≡◌, refl, [], ◌∷◌, some, arith, nat_eq, Option-cases, inl, inr,
  ◌==◌, All, not, drop, take, true, ◌∙◌, subst,
}
use tauri_vpn_plugin.Common.Bytes.{Bytes, from_be_bytes}
use tauri_vpn_plugin.Common.Dict.{get, get-insert_self}
use tauri_vpn_plugin.Olcrtc.Frame.{parse_header}
use tauri_vpn_plugin.Olcrtc.Stream.{Stream, next_u32, accept}
use tauri_vpn_plugin.Olcrtc.Mux.{
  Multiplexer, new_multiplexer, nonzero_id, stream_or_new, open_stream, reserve_seq, close_local,
  mark_closed, reset_client, for_client, receive, handle_frame, read_stream, poll_data,
}
use tauri_vpn_plugin.Olcrtc.Mux.Dispatch.{handle_frame_cases}
use tauri_vpn_plugin.Olcrtc.Mux.Validity.{
  IsSound, IsValid, new_stream-IsSound, accept-IsSound, accept-notify, new_multiplexer-IsValid,
  put-IsValid, extended-IsValid, retain-IsValid,
}

advance-IsValid :
    {m : Multiplexer} → IsValid m → IsValid (record m { next_id = (m.next_id + 1) % 2 ^ 16 })
advance-IsValid v = record {
  distinct = v.distinct;
  id_bound = omega arith;
  entries = λ k s e. record {
    id_bound = (v.entries k s e).id_bound;
    sound = (v.entries k s e).sound;
    allocated = (v.entries k s e).allocated;
  };
  own = v.own;
}

pub open_stream-IsValid :
    (fuel : ℕ) (m m' : Multiplexer) (sid : ℕ)
    → IsValid m
    → open_stream fuel m ≡ some (sid, m')
    → IsValid m'
unfolding open_stream
open_stream-IsValid zero m m' sid v e = cc
open_stream-IsValid (suc fuel) m m' sid v e =
    elim (Option-cases (get (nonzero_id m.next_id) m.streams)) [
      | inl f ↦
          let w =
            extended-IsValid v (nonzero_id m.next_id) 0 ((m.next_id + 1) % 2 ^ 16) f
              (ground (arith, v.id_bound)) (omega arith) in
          ground (arith, w)
      | inr (s, f) ↦
          open_stream-IsValid fuel _ m' sid (advance-IsValid v) (rw (f, open_stream) at e)
    ]

pub stream_or_new-IsValid :
    (sid client_id : ℕ) (m : Multiplexer)
    → sid < 2 ^ 16
    → IsValid m
    → IsValid (stream_or_new sid client_id m).1
      × (get sid (stream_or_new sid client_id m).1.streams ≡ some (stream_or_new sid client_id m).0)
unfolding stream_or_new
stream_or_new-IsValid sid client_id m small v = elim (Option-cases (get sid m.streams)) [
  | inl e ↦
      rw (e, stream_or_new)
        (
          extended-IsValid v sid client_id m.next_id e small v.id_bound,
          get-insert_self sid _ m.streams,
        )
  | inr (s, e) ↦ rw (e, stream_or_new) (v, e)
]

close-IsSound : {s : Stream} → IsSound s → IsSound (record s { closed = true })
close-IsSound h = record {
  recv_seq = h.recv_seq;
  send_seq = h.send_seq;
  few = h.few;
  distinct = h.distinct;
}

empty-IsSound : {s : Stream} → IsSound s → IsSound (record s { recv_buf = [] })
empty-IsSound h = record {
  recv_seq = h.recv_seq;
  send_seq = h.send_seq;
  few = h.few;
  distinct = h.distinct;
}

count-IsSound :
    {s : Stream} → IsSound s → IsSound (record s { next_send_seq = next_u32 s.next_send_seq })
count-IsSound h = record {
  recv_seq = h.recv_seq;
  send_seq = omega arith;
  few = h.few;
  distinct = h.distinct;
}

for_client-IsSound : (client_id : ℕ) (s : Stream) → IsSound s → IsSound (for_client client_id s)
for_client-IsSound client_id s h = ground (arith, new_stream-IsSound client_id s.notify)

for_client-notify : (client_id : ℕ) (s : Stream) → (for_client client_id s).notify ≡ s.notify
for_client-notify client_id s = ground arith

module _ {m : Multiplexer} (v : IsValid m) (sid : ℕ) where
  pub reserve_seq-IsValid :
      (seq : ℕ) (m' : Multiplexer) → reserve_seq sid m ≡ some (seq, m') → IsValid m'
  unfolding reserve_seq
  reserve_seq-IsValid seq m' e = elim (Option-cases (get sid m.streams)) [
    | inl f ↦ ground arith
    | inr (s, f) ↦
        let w =
          put-IsValid v sid s (record s { next_send_seq = next_u32 s.next_send_seq }) f refl
            (count-IsSound (v.entries sid s f).sound) in
        ground (arith, w)
  ]

  pub close_local-IsValid : IsValid (close_local sid m).0
  unfolding close_local
  close_local-IsValid = elim (Option-cases (get sid m.streams)) [
    | inl e ↦ rw (e, close_local) v
    | inr (s, e) ↦
        rw (e, close_local)
          (put-IsValid v sid s (record s { closed = true }) e refl
            (close-IsSound (v.entries sid s e).sound))
  ]

  pub mark_closed-IsValid : (client_id : ℕ) → IsValid (mark_closed sid client_id m).0
  unfolding mark_closed
  mark_closed-IsValid client_id = elim (Option-cases (get sid m.streams)) [
    | inl e ↦ rw (e, mark_closed) v
    | inr (s, e) ↦
        let w =
          put-IsValid v sid s (record s { closed = true }) e refl
            (close-IsSound (v.entries sid s e).sound) in
        ground (arith, w)
  ]

  pub read_stream-IsValid : IsValid (read_stream sid m).1
  unfolding read_stream
  read_stream-IsValid = elim (Option-cases (get sid m.streams)) [
    | inl e ↦ rw (e, read_stream) v
    | inr (s, e) ↦
        rw (e, read_stream)
          (put-IsValid v sid s (record s { recv_buf = [] }) e refl
            (empty-IsSound (v.entries sid s e).sound))
  ]

  pub receive-IsValid :
      (client_id seq : ℕ) (payload : Bytes)
      → sid < 2 ^ 16
      → IsValid (receive client_id sid seq payload m).0
  unfolding receive
  receive-IsValid client_id seq payload small =
      let (w, e) = stream_or_new-IsValid sid client_id m small v in
      let s = (stream_or_new sid client_id m).0 in
      put-IsValid w sid s (accept seq payload (for_client client_id s)).0 e
        (accept-notify seq payload (for_client client_id s) ∙ for_client-notify client_id s)
        (accept-IsSound seq payload _ (for_client-IsSound client_id s (w.entries sid s e).sound))

  pub poll_data-IsValid : sid < 2 ^ 16 → IsValid (poll_data sid m).1
  unfolding poll_data
  poll_data-IsValid small = (stream_or_new-IsValid sid m.client_id m small v).0

abbrev pub IsByte : ℕ → Type 0
IsByte b = b < 256

parse_header-sid : (frame : Bytes) → All IsByte frame → (parse_header frame).sid < 2 ^ 16
unfolding parse_header
parse_header-sid frame h = two_bytes (drop 4 frame) (All-drop 4 frame h)
  where
    All-drop : (n : ℕ) (xs : Bytes) → All IsByte xs → All IsByte (drop n xs)
    All-drop zero xs h = h
    All-drop (suc n) [] h = tt
    All-drop (suc n) (x ∷ xs) h = All-drop n xs h.1

    two_bytes : (xs : Bytes) → All IsByte xs → from_be_bytes (take 2 xs) < 2 ^ 16
    two_bytes [] h = omega arith
    two_bytes (a ∷ []) h = omega arith
    two_bytes (a ∷ b ∷ xs) h = omega arith

pub handle_frame-IsValid :
    (frame : Bytes) (m : Multiplexer)
    → All IsByte frame
    → IsValid m
    → IsValid (handle_frame frame m).0
unfolding reset_client
handle_frame-IsValid frame m bytes v =
    let h = parse_header frame in
    handle_frame_cases (λ r. IsValid r.0) frame m v
      (λ client_id. retain-IsValid v (λ s. not (s.client_id == client_id)))
      (mark_closed-IsValid v h.sid h.client_id)
      (λ payload. receive-IsValid v h.sid h.client_id h.seq payload (parse_header-sid frame bytes))

-- The locked sections that the tasks of a multiplexer interleave: `open_stream`, a round of
-- `send_data`, `close_stream`, `handle_frame`, `read_stream` and a round of `wait_for_data`.
pub data Step (m : Multiplexer) : Multiplexer → Type 0 where
  opens : {m' : Multiplexer} (fuel sid : ℕ) → open_stream fuel m ≡ some (sid, m') → Step m m'
  reserves : {m' : Multiplexer} (sid seq : ℕ) → reserve_seq sid m ≡ some (seq, m') → Step m m'
  closes : {m' : Multiplexer} (sid : ℕ) → (close_local sid m).0 ≡ m' → Step m m'
  handles :
      {m' : Multiplexer} (frame : Bytes)
      → All IsByte frame
      → (handle_frame frame m).0 ≡ m'
      → Step m m'
  takes : {m' : Multiplexer} (sid : ℕ) → (read_stream sid m).1 ≡ m' → Step m m'
  polls : {m' : Multiplexer} (sid : ℕ) → sid < 2 ^ 16 → (poll_data sid m).1 ≡ m' → Step m m'

pub data Reach (m : Multiplexer) : Multiplexer → Type 0 where
  here : Reach m m
  next : {n o : Multiplexer} → Reach m n → Step n o → Reach m o

pub Step-IsValid : {m m' : Multiplexer} → Step m m' → IsValid m → IsValid m'
Step-IsValid {m} (opens {m'} fuel sid e) v = open_stream-IsValid fuel m m' sid v e
Step-IsValid (reserves {m'} sid seq e) v = reserve_seq-IsValid v sid seq m' e
Step-IsValid (closes sid e) v = subst IsValid e (close_local-IsValid v sid)
Step-IsValid {m} (handles frame bytes e) v = subst IsValid e (handle_frame-IsValid frame m bytes v)
Step-IsValid (takes sid e) v = subst IsValid e (read_stream-IsValid v sid)
Step-IsValid (polls sid small e) v = subst IsValid e (poll_data-IsValid v sid small)

Reach-keeps : {m m' : Multiplexer} → Reach m m' → IsValid m → IsValid m'
Reach-keeps here v = v
Reach-keeps (next r s) v = Step-IsValid s (Reach-keeps r v)

-- From a new multiplexer every interleaving of the locked sections keeps the invariant: no id
-- stands twice, ids and counters fit their widths, sequence numbers fit 32 bits, at most 100
-- distinct chunks are held for a stream, and no two streams share a notify.
pub Reach-IsValid :
    (client_id : ℕ) (m : Multiplexer) → Reach (new_multiplexer client_id) m → IsValid m
Reach-IsValid client_id m r = Reach-keeps r (new_multiplexer-IsValid client_id)
