-- ===== src/Olcrtc/Mux/Transfer.antt =====
-- src/olcrtc/mux.rs: a stream from the sender's chunks to the reader, through frames.
use tauri_vpn_plugin.Common.{
  ℕ, ◌^◌, ◌≤◌, ◌<◌, ◌≡◌, refl, sym, ap, ◌∙◌, ◌≢◌, ◌⊎◌, inl, inr, List, [], ◌∷◌, ◌++◌, some, none,
  arith, nat_eq, length, All, subst,
}
use tauri_vpn_plugin.Common.Bytes.{Bytes}
use tauri_vpn_plugin.Common.Dict.{get, get-insert_self}
use tauri_vpn_plugin.Olcrtc.Frame.{data_frame, parse_header, parse_control_frame}
use tauri_vpn_plugin.Olcrtc.Stream.{Stream, Notify, new_stream, deliver, accept, max_out_of_order}
use tauri_vpn_plugin.Olcrtc.Stream.Drain.{drain-SameOwner}
use tauri_vpn_plugin.Olcrtc.Stream.Reassembly.{Event, arrives, reads, Receiver, run, prefix}
use tauri_vpn_plugin.Olcrtc.Stream.Delivery.{IsSent, run-IsPrefix}
use tauri_vpn_plugin.Olcrtc.Stream.Completeness.{Arrives, run_complete}
use tauri_vpn_plugin.Olcrtc.Mux.{Multiplexer, for_client, handle_frame, read_stream}
use tauri_vpn_plugin.Olcrtc.Mux.Receiving.{
  handle_frame-data_frame, handle_frame-elsewhere, receive_known,
}

-- What happens at the receiving side: the frame of a chunk comes, or a frame for other streams, or
-- the stream is read.
pub data Traffic : Type 0 where
  chunk_comes : ℕ → Traffic
  other_comes : Bytes → Traffic
  read_out : Traffic

-- The same, as the stream sees it.
abbrev pub seen : List Traffic → List Event
seen [] = []
seen (chunk_comes seq ∷ ts) = arrives seq ∷ seen ts
seen (other_comes frame ∷ ts) = seen ts
seen (read_out ∷ ts) = reads ∷ seen ts

abbrev pub Comes : ℕ → List Traffic → Type 0
Comes k [] = ⊥
Comes k (chunk_comes seq ∷ ts) = (seq ≡ k) ⊎ Comes k ts
Comes k (other_comes frame ∷ ts) = Comes k ts
Comes k (read_out ∷ ts) = Comes k ts

accept-client_id :
    (seq : ℕ) (payload : Bytes) (s : Stream) → (accept seq payload s).0.client_id ≡ s.client_id
unfolding accept
accept-client_id seq payload s =
    ground (arith, (drain-SameOwner (length s.out_of_order) (deliver payload s)).client_id)

pub for_client_same :
    (client_id : ℕ) (s : Stream) → s.client_id ≡ client_id → for_client client_id s ≡ s
for_client_same client_id s e = ground arith

module _ (client_id sid count : ℕ) (chunk : ℕ → Bytes) where
  -- The bytes read so far, and the multiplexer.
  unfoldable pub transfer : List Traffic → Bytes × Multiplexer → Bytes × Multiplexer
  transfer [] r = r
  transfer (chunk_comes seq ∷ ts) (got, m) =
      transfer ts (got, (handle_frame (data_frame client_id sid seq (chunk seq)) m).0)
  transfer (other_comes frame ∷ ts) (got, m) = transfer ts (got, (handle_frame frame m).0)
  transfer (read_out ∷ ts) (got, m) =
      let (bytes, m') = read_stream sid m in transfer ts (got ++ bytes, m')

  -- Only chunks that the sender has come; other frames are data or close frames of other streams.
  abbrev pub IsAllowed : Traffic → Type 0
  IsAllowed (chunk_comes seq) = seq < count
  IsAllowed (other_comes frame) =
      (parse_control_frame frame ≡ none) × ((parse_header frame).sid ≢ sid)
  IsAllowed read_out = Unit

  -- The fields fit the frame, and chunks are neither empty nor as long as the control mark.
  pub record Fits : Type 0 where
    pub client_bound : client_id < 2 ^ 32
    pub sid_bound : sid < 2 ^ 16
    pub count_bound : count < 2 ^ 32
    pub chunk_bounds : (k : ℕ) → k < count → (0 < length (chunk k)) × (length (chunk k) < 0xffff)

  -- The multiplexer's stream is the receiver of the chunks.
  abbrev pub Follows : Bytes × Multiplexer → Receiver → Type 0
  Follows (got, m) (got', s) =
      (got ≡ got') × (get sid m.streams ≡ some s) × (s.client_id ≡ client_id)

  chunk-Follows :
      (seq : ℕ) (got : Bytes) (m : Multiplexer) (s : Stream)
      → Fits
      → seq < count
      → get sid m.streams ≡ some s
      → s.client_id ≡ client_id
      → Follows
          (got, (handle_frame (data_frame client_id sid seq (chunk seq)) m).0)
          (got, (accept seq (chunk seq) s).0)
  chunk-Follows seq got m s f lt e own =
      let (pos, short) = f.chunk_bounds seq lt in
      (
        refl,
        ap (λ r. get sid r.0.streams)
              (handle_frame-data_frame client_id sid seq (chunk seq) m f.client_bound f.sid_bound
                (omega (arith, f.count_bound)) pos short)
            ∙ receive_known client_id sid seq (chunk seq) s m e
            ∙ ap (λ t. some (accept seq (chunk seq) t).0) (for_client_same client_id s own),
        accept-client_id seq (chunk seq) s ∙ own,
      )

  read-Follows :
      (got : Bytes) (m : Multiplexer) (s : Stream)
      → get sid m.streams ≡ some s
      → s.client_id ≡ client_id
      → Follows
          (got ++ (read_stream sid m).0, (read_stream sid m).1)
          (got ++ s.recv_buf, record s { recv_buf = [] })
  unfolding read_stream
  read-Follows got m s e own = rw (e, read_stream) (refl, get-insert_self sid _ m.streams, own)

  pub transfer-Follows :
      (ts : List Traffic) (got : Bytes) (m : Multiplexer) (s : Stream)
      → Fits
      → All IsAllowed ts
      → get sid m.streams ≡ some s
      → s.client_id ≡ client_id
      → Follows (transfer ts (got, m)) (run chunk (seen ts) (got, s))
  unfolding transfer run
  transfer-Follows [] got m s f _ e own = (refl, e, own)
  transfer-Follows (chunk_comes seq ∷ ts) got m s f (lt, rest) e own =
      let (_, e', own') = chunk-Follows seq got m s f lt e own in
      transfer-Follows ts got _ _ f rest e' own'
  transfer-Follows (other_comes frame ∷ ts) got m s f ((data_, ne), rest) e own =
      transfer-Follows ts got _ s f rest (handle_frame-elsewhere frame sid m data_ ne ∙ e) own
  transfer-Follows (read_out ∷ ts) got m s f (_, rest) e own =
      let (same, e', own') = read-Follows got m s e own in
      let rest_follows =
        transfer-Follows ts (got ++ s.recv_buf) (read_stream sid m).1 _ f rest e' own' in
      subst
        (λ g.
          Follows (transfer ts (g, (read_stream sid m).1))
            (run chunk (seen ts) (got ++ s.recv_buf, record s { recv_buf = [] })))
        (sym same) rest_follows

  seen-IsSent : (ts : List Traffic) → All IsAllowed ts → All (IsSent count) (seen ts)
  seen-IsSent [] h = tt
  seen-IsSent (chunk_comes seq ∷ ts) (lt, h) = (lt, seen-IsSent ts h)
  seen-IsSent (other_comes frame ∷ ts) (_, h) = seen-IsSent ts h
  seen-IsSent (read_out ∷ ts) (_, h) = (tt, seen-IsSent ts h)

  seen-Arrives : (k : ℕ) (ts : List Traffic) → Comes k ts → Arrives k (seen ts)
  seen-Arrives k [] h = h
  seen-Arrives k (chunk_comes seq ∷ ts) (inl e) = inl e
  seen-Arrives k (chunk_comes seq ∷ ts) (inr h) = inr (seen-Arrives k ts h)
  seen-Arrives k (other_comes frame ∷ ts) h = seen-Arrives k ts h
  seen-Arrives k (read_out ∷ ts) h = seen-Arrives k ts h

  -- All that the reader has of the stream: what it read, and what it would read now.
  abbrev pub received : Bytes × Multiplexer → Bytes
  received (got, m) = got ++ (read_stream sid m).0

  received-run :
      (got got' : Bytes) (m : Multiplexer) (s : Stream)
      → Follows (got, m) (got', s)
      → received (got, m) ≡ got' ++ s.recv_buf
  unfolding read_stream
  received-run got got' m s (same, e, own) = rw (e, read_stream, same)

  module _ (f : Fits) (ts : List Traffic) (m : Multiplexer) (notify : Notify)
      (allowed : All IsAllowed ts)
      (fresh : get sid m.streams ≡ some (new_stream client_id notify)) where
    -- Whatever data frames of the sender's chunks come for a fresh stream of the sending client,
    -- in any order, repeated or lost, among reads and data or close frames of other streams: what
    -- the reader has is the first chunks of the sender, some number of them, in the sender's
    -- order. The ids fit their fields, there are fewer than 2 ^ 32 chunks, and each has 1 to 65534
    -- bytes.
    pub transfer-IsPrefix :
        (n : ℕ) × (n ≤ count) × (received (transfer ts ([], m)) ≡ prefix chunk n)
    transfer-IsPrefix =
        let r = run chunk (seen ts) ([], new_stream client_id notify) in
        let (order, bound) =
          run-IsPrefix chunk count f.count_bound client_id notify (seen ts)
            (seen-IsSent ts allowed) in
        (
          r.1.next_recv_seq,
          bound,
          received-run _ r.0 _ r.1 (transfer-Follows ts [] m _ f allowed fresh refl) ∙ order,
        )

    -- If the data frame of every chunk comes for a fresh stream of the sending client at least
    -- once, in any order and possibly repeated, among reads and data or close frames of other
    -- streams, and there are at most 100 chunks, of 1 to 65534 bytes each, then what the reader
    -- has is all the chunks, in the sender's order. The ids fit their fields.
    pub transfer_complete :
        ((k : ℕ) → k < count → Comes k ts)
        → count ≤ max_out_of_order
        → received (transfer ts ([], m)) ≡ prefix chunk count
    transfer_complete come few =
        let r = run chunk (seen ts) ([], new_stream client_id notify) in
        let (order, _) =
          run_complete chunk count f.count_bound few client_id notify (seen ts)
            (seen-IsSent ts allowed) (λ k lt. seen-Arrives k ts (come k lt)) in
        received-run _ r.0 _ r.1 (transfer-Follows ts [] m _ f allowed fresh refl) ∙ order
