-- ===== src/Olcrtc/Client/Relay.antt =====
-- src/olcrtc/client.rs, `pump_from_mux`: its rounds as the traffic of src/olcrtc/mux.rs, and what it writes to
-- the socket.
use tauri_vpn_plugin.Common.{
  ℕ, ◌≤◌, ◌≡◌, refl, sym, ap, ◌∙◌, subst, List, [], ◌∷◌, ◌++◌, map, append-nil, true, some, nat_eq,
  All, All-append, Option-cases, Bool-cases, inl, inr, is_empty, if◌then◌else◌,
}
use tauri_vpn_plugin.Common.Bytes.{Bytes}
use tauri_vpn_plugin.Common.Dict.{get}
use tauri_vpn_plugin.Olcrtc.Frame.{data_frame}
use tauri_vpn_plugin.Olcrtc.Stream.{Stream, Notify, new_stream}
use tauri_vpn_plugin.Olcrtc.Stream.Reassembly.{prefix}
use tauri_vpn_plugin.Olcrtc.Mux.{Multiplexer, stream_or_new, read_stream, poll_data}
use tauri_vpn_plugin.Olcrtc.Mux.RoundTrip.{handle_all}
use tauri_vpn_plugin.Olcrtc.Mux.Transfer.{
  Traffic, chunk_comes, other_comes, read_out, transfer, IsAllowed, Fits, received,
  transfer-Follows, transfer-IsPrefix,
}
use tauri_vpn_plugin.Olcrtc.Client.{PumpRound, pump_round, pump_from_mux}
use tauri_vpn_plugin.Olcrtc.Client.Pump.{taking}

-- A frame that comes: of a chunk of the sender, or another.
pub data Arrival : Type 0 where
  chunk_frame : ℕ → Arrival
  other_frame : Bytes → Arrival

pub record ArrivalRound : Type 0 where
  pub waiting : List Arrival
  pub reading : List Arrival
  pub testing : List Arrival

abbrev pub traffic_of : Arrival → Traffic
traffic_of (chunk_frame seq) = chunk_comes seq
traffic_of (other_frame frame) = other_comes frame

write_taking :
    (bytes written : Bytes)
    → (if is_empty bytes then (true, written) else taking bytes written) ≡ (true, written ++ bytes)
write_taking [] written = ap (λ w. (true, w)) (sym (append-nil written))
write_taking (b ∷ bytes) written = refl

module _ (client_id sid count : ℕ) (chunk : ℕ → Bytes) where
  abbrev pub frame_of : Arrival → Bytes
  frame_of (chunk_frame seq) = data_frame client_id sid seq (chunk seq)
  frame_of (other_frame frame) = frame

  abbrev pub frames_of : ArrivalRound → PumpRound
  frames_of r = record {
    waiting = map frame_of r.waiting;
    reading = map frame_of r.reading;
    testing = map frame_of r.testing;
  }

  abbrev pub MayCome : Arrival → Type 0
  MayCome arrival = IsAllowed client_id sid count chunk (traffic_of arrival)

  abbrev pub RoundMayCome : ArrivalRound → Type 0
  RoundMayCome r = All MayCome r.waiting × All MayCome r.reading × All MayCome r.testing

  transfer-append :
      (ts us : List Traffic) (r : Bytes × Multiplexer)
      → transfer client_id sid count chunk (ts ++ us) r
        ≡ transfer client_id sid count chunk us (transfer client_id sid count chunk ts r)
  unfolding transfer
  transfer-append [] us r = refl
  transfer-append (chunk_comes seq ∷ ts) us (got, m) = transfer-append ts us _
  transfer-append (other_comes frame ∷ ts) us (got, m) = transfer-append ts us _
  transfer-append (read_out ∷ ts) us (got, m) = transfer-append ts us _

  transfer-arrivals :
      (arrivals : List Arrival) (got : Bytes) (m : Multiplexer)
      → transfer client_id sid count chunk (map traffic_of arrivals) (got, m)
        ≡ (got, handle_all (map frame_of arrivals) m)
  unfolding transfer handle_all
  transfer-arrivals [] got m = refl
  transfer-arrivals (chunk_frame seq ∷ arrivals) got m = transfer-arrivals arrivals got _
  transfer-arrivals (other_frame frame ∷ arrivals) got m = transfer-arrivals arrivals got _

  arrivals-IsAllowed :
      (arrivals : List Arrival)
      → All MayCome arrivals
      → All (IsAllowed client_id sid count chunk) (map traffic_of arrivals)
  arrivals-IsAllowed [] h = tt
  arrivals-IsAllowed (a ∷ arrivals) (allowed, h) = (allowed, arrivals-IsAllowed arrivals h)

  module _ (start : Multiplexer) where
    -- What was written and the multiplexer, as traffic from the start brings them about.
    abbrev Carried : Bytes → Multiplexer → Type 0
    Carried got m =
        (ts : List Traffic) × All (IsAllowed client_id sid count chunk) ts
        × (transfer client_id sid count chunk ts ([], start) ≡ (got, m))

    Carried-append :
        (us : List Traffic) (got got' : Bytes) (m m' : Multiplexer)
        → All (IsAllowed client_id sid count chunk) us
        → transfer client_id sid count chunk us (got, m) ≡ (got', m')
        → Carried got m
        → Carried got' m'
    Carried-append us got got' m m' allowed e (ts, h, same) = (
      ts ++ us,
      All-append _ ts us h allowed,
      transfer-append ts us ([], start) ∙ ap (transfer client_id sid count chunk us) same ∙ e,
    )

    Carried-arrivals :
        (arrivals : List Arrival) (got : Bytes) (m : Multiplexer)
        → All MayCome arrivals
        → Carried got m
        → Carried got (handle_all (map frame_of arrivals) m)
    Carried-arrivals arrivals got m allowed =
        Carried-append (map traffic_of arrivals) got got m _ (arrivals-IsAllowed arrivals allowed)
          (transfer-arrivals arrivals got m)

    Carried-read :
        (got : Bytes) (m : Multiplexer)
        → Carried got m
        → Carried (got ++ (read_stream sid m).0) (read_stream sid m).1
    Carried-read got m = Carried-append (read_out ∷ []) got _ m _ (tt, tt) (unfold transfer in refl)

    pump_round-Carried :
        (arrivals : List Arrival) (got : Bytes) (m : Multiplexer)
        → All MayCome arrivals
        → Carried got m
        → let r = pump_round taking sid (map frame_of arrivals) m got in Carried r.2 r.1
    unfolding pump_round
    pump_round-Carried arrivals got m allowed c =
        rw (write_taking (read_stream sid m).0 got)
          (Carried-arrivals arrivals _ _ allowed (Carried-read got m c))

    module _ (f : Fits client_id sid count chunk) (notify : Notify)
        (fresh : get sid start.streams ≡ some (new_stream client_id notify)) where
      Carried-stream :
          (got : Bytes) (m : Multiplexer)
          → Carried got m
          → (s : Stream) × (get sid m.streams ≡ some s)
      Carried-stream got m (ts, h, same) =
          let start_stream = new_stream client_id notify in
          let (_, there, _) =
            transfer-Follows client_id sid count chunk ts [] start start_stream f h fresh refl in
          (_, ap (λ r. get sid r.1.streams) (sym same) ∙ there)

      poll_data-keeps : (got : Bytes) (m : Multiplexer) → Carried got m → (poll_data sid m).1 ≡ m
      unfolding poll_data stream_or_new
      poll_data-keeps got m c = let (s, e) = Carried-stream got m c in rw (e, stream_or_new) refl

      pump_from_mux-Carried :
          (rounds : List ArrivalRound) (got : Bytes) (m : Multiplexer)
          → All RoundMayCome rounds
          → Carried got m
          → let r = pump_from_mux taking sid (map frames_of rounds) m got in Carried r.2 r.1
      unfolding pump_from_mux
      pump_from_mux-Carried [] got m h c = c
      pump_from_mux-Carried (r ∷ rounds) got m ((waiting, reading, testing), h) c =
          let m1 = handle_all (map frame_of r.waiting) m in
          let c1 = Carried-arrivals r.waiting got m waiting c in
          let polled = poll_data-keeps got m1 c1 in
          let m2 = (poll_data sid m1).1 in
          let c2 : Carried got m2 = subst (Carried got) (sym polled) c1 in
          let m3 = handle_all (map frame_of r.reading) m2 in
          let c3 = Carried-arrivals r.reading got m2 reading c2 in
          let round = pump_round taking sid (map frame_of r.testing) m3 got in
          let c4 = pump_round-Carried r.testing got m3 testing c3 in
          elim (Option-cases (poll_data sid m1).0) [
            | inl ready ↦
                rw (ready, pump_from_mux)
                  (elim (Bool-cases round.0) [
                    | inl stops ↦ rw stops c4
                    | inr goes ↦ rw goes (pump_from_mux-Carried rounds round.2 round.1 h c4)
                  ])
            | inr (woken, waits) ↦
                rw (waits, pump_from_mux)
                  (pump_from_mux-Carried rounds got _ h
                    (Carried-arrivals r.testing got m3 testing c3))
          ]

      -- Whatever frames of the sender's chunks come for a fresh stream of the sending client, in
      -- any order, repeated or lost, among data and close frames of other streams, and whenever
      -- they come between the pump's wait, its read and its test: with a socket that takes
      -- everything, what the pump has written to it, followed by what is left to read in the
      -- stream, is the first chunks of the sender, some number of them, in the sender's order.
      -- The ids fit their fields, there are fewer than 2 ^ 32 chunks, and each has 1 to 65534
      -- bytes.
      pub pump_from_mux-IsPrefix :
          (rounds : List ArrivalRound)
          → All RoundMayCome rounds
          → let r = pump_from_mux taking sid (map frames_of rounds) start [] in
            (n : ℕ) × (n ≤ count) × (r.2 ++ (read_stream sid r.1).0 ≡ prefix chunk n)
      pump_from_mux-IsPrefix rounds h =
          let r = pump_from_mux taking sid (map frames_of rounds) start [] in
          let (ts, allowed, same) =
            pump_from_mux-Carried rounds [] start h ([], tt, unfold transfer in refl) in
          let (n, bound, order) =
            transfer-IsPrefix client_id sid count chunk f ts start notify allowed fresh in
          (n, bound, ap (received client_id sid count chunk) (sym same) ∙ order)
