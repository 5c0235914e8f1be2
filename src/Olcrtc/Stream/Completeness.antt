-- ===== src/Olcrtc/Stream/Completeness.antt =====
-- src/olcrtc/mux.rs: that nothing is lost between `handle_frame` and the reader. The code drops a
-- chunk that comes early while 100 are held; a sender of at most 100 chunks never meets that limit.
use tauri_vpn_plugin.Common.{
  ℕ, zero, suc, ◌+◌, ◌-◌, ◌^◌, ◌≤◌, ◌<◌, ◌≡◌, ap, ◌∙◌, ◌⊎◌, inl, inr, ◌≢◌, List, [], ◌∷◌, ◌++◌,
  some, Bool-cases, is_some, arith, length, nat_eq, nat_beq_iff, ◌==◌, All, true,
}
use tauri_vpn_plugin.Common.Bytes.{Bytes}
use tauri_vpn_plugin.Common.Dict.{
  get, remove, Dict, IsDict, get-insert, get-remove, remove-IsDict, length-le-remove,
}
use tauri_vpn_plugin.Olcrtc.Stream.{
  Stream, Notify, new_stream, drain, deliver, deliver_held, accept, max_out_of_order,
}
use tauri_vpn_plugin.Olcrtc.Stream.Drain.{drain_inv}
use tauri_vpn_plugin.Olcrtc.Stream.Reassembly.{
  Event, arrives, reads, Receiver, run, prefix, IsFaithful, IsSettled, deliver-IsFaithful,
  deliver_held-IsFaithful,
}
use tauri_vpn_plugin.Olcrtc.Stream.Delivery.{
  IsSent, step-IsSettled, run-IsSettled, new_stream-IsSettled,
}

-- Pigeonholes: distinct keys from `lo` up and below `lo + room`.
length-le_of_range :
    (room lo : ℕ) (m : Dict ℕ Bytes)
    → IsDict m
    → ((k : ℕ) (v : Bytes) → get k m ≡ some v → (lo ≤ k) × (k < lo + room))
    → length m ≤ room
unfolding get
length-le_of_range zero lo [] d h = omega arith
length-le_of_range zero lo ((k, v) ∷ m) d h =
    let (le, lt) = h k v (ground (arith, nat_beq_iff k k)) in absurd (omega arith)
length-le_of_range (suc room) lo m d h = omega (
  arith,
  length-le-remove lo m d,
  length-le_of_range room (suc lo) (remove lo m) (remove-IsDict lo m d) (λ k v e.
      later k v (ground (arith, get-remove lo k m)) (h k v (ground (arith, get-remove lo k m)))),
)
  where
    later :
        (k : ℕ) (v : Bytes)
        → lo ≢ k
        → (lo ≤ k) × (k < lo + suc room)
        → (suc lo ≤ k) × (k < suc lo + room)
    later k v ne (le, lt) = (omega arith, omega arith)

-- Chunk `k` has been delivered or is held.
abbrev pub IsTaken : ℕ → Stream → Type 0
IsTaken k s = (k < s.next_recv_seq) ⊎ (is_some (get k s.out_of_order) ≡ true)

abbrev pub Arrives : ℕ → List Event → Type 0
Arrives k [] = ⊥
Arrives k (arrives seq ∷ es) = (seq ≡ k) ⊎ Arrives k es
Arrives k (reads ∷ es) = Arrives k es

module _ (chunk : ℕ → Bytes) (count : ℕ) (fits : count < 2 ^ 32) where
  deliver_held-IsTaken :
      (k : ℕ) (s : Stream) (payload : Bytes)
      → s.next_recv_seq < count
      → IsTaken k s
      → IsTaken k (deliver_held payload s)
  deliver_held-IsTaken k s payload lt h =
      ground (arith, get-remove s.next_recv_seq k s.out_of_order)

  drain-IsTaken :
      (k fuel : ℕ) (got : Bytes) (s : Stream)
      → IsFaithful chunk count got s
      → IsTaken k s
      → IsTaken k (drain fuel s)
  drain-IsTaken k fuel got s f h =
      (drain_inv (λ t. IsFaithful chunk count got t × IsTaken k t)
        (λ t payload e (g, taken). (
          deliver_held-IsFaithful chunk count fits got t payload e g,
          deliver_held-IsTaken k t payload (g.held t.next_recv_seq payload e).2 taken,
        ))
        fuel s (f, h)).1

  room_left :
      (s : Stream) (got : Bytes)
      → s.next_recv_seq < count
      → count ≤ max_out_of_order
      → IsSettled chunk count fits (got, s)
      → length s.out_of_order < max_out_of_order
  room_left s got lt small h = omega (
    arith,
    length-le_of_range (count - suc s.next_recv_seq) (suc s.next_recv_seq) s.out_of_order
        h.faithful.distinct (λ k v e. ahead k v e (h.faithful.held k v e)),
  )
    where
      ahead :
          (k : ℕ) (v : Bytes)
          → get k s.out_of_order ≡ some v
          → (v ≡ chunk k) × (s.next_recv_seq ≤ k) × (k < count)
          → (suc s.next_recv_seq ≤ k) × (k < suc s.next_recv_seq + (count - suc s.next_recv_seq))
      ahead k v e (_, le, below) =
          let ne : s.next_recv_seq ≢ k = (λ eq. ground (arith, h.settled)) in
          (omega arith, omega arith)

  module _ (small : count ≤ max_out_of_order) where
    -- A chunk that arrives is taken, and what was taken stays so.
    accept-IsTaken :
        (got : Bytes) (s : Stream) (seq k : ℕ)
        → seq < count
        → IsSettled chunk count fits (got, s)
        → (seq ≡ k) ⊎ IsTaken k s
        → IsTaken k (accept seq (chunk seq) s).0
    unfolding accept
    accept-IsTaken got s seq k lt h t = elim (Bool-cases (seq == s.next_recv_seq)) [
      | inl e ↦
          let same : seq ≡ s.next_recv_seq = (nat_beq_iff _ _).0 e in
          rw (e, same)
            (drain-IsTaken k (length s.out_of_order) got (deliver (chunk s.next_recv_seq) s)
              (deliver-IsFaithful chunk count fits got s (omega arith) h) (ground arith))
      | inr e ↦ rw e (
          ground (
            arith,
            room_left s got,
            get-insert seq k (chunk seq) s.out_of_order,
            nat_beq_iff seq k,
          ))
    ]

    IsTaken-next :
        (got : Bytes) (s : Stream) (seq k : ℕ) (es : List Event)
        → seq < count
        → IsSettled chunk count fits (got, s)
        → Arrives k (arrives seq ∷ es) ⊎ IsTaken k s
        → Arrives k es ⊎ IsTaken k (accept seq (chunk seq) s).0
    IsTaken-next got s seq k es lt h (inl (inl e)) = inr (accept-IsTaken got s seq k lt h (inl e))
    IsTaken-next got s seq k es lt h (inl (inr later)) = inl later
    IsTaken-next got s seq k es lt h (inr t) = inr (accept-IsTaken got s seq k lt h (inr t))

    run-IsTaken :
        (es : List Event) (r : Receiver) (k : ℕ)
        → All (IsSent count) es
        → IsSettled chunk count fits r
        → Arrives k es ⊎ IsTaken k r.1
        → IsTaken k (run chunk es r).1
    unfolding run
    run-IsTaken [] r k _ h (inl x) = elim x [ ]
    run-IsTaken [] r k _ h (inr t) = t
    run-IsTaken (arrives seq ∷ es) (got, s) k (sent, rest) h t =
        run-IsTaken es _ k rest (step-IsSettled chunk count fits (arrives seq) (got, s) sent h)
          (IsTaken-next got s seq k es sent h t)
    run-IsTaken (reads ∷ es) (got, s) k (sent, rest) h t =
        run-IsTaken es _ k rest (step-IsSettled chunk count fits reads (got, s) sent h) t

    all_delivered :
        (s : Stream) (got : Bytes)
        → ((k : ℕ) → k < count → IsTaken k s)
        → IsSettled chunk count fits (got, s)
        → s.next_recv_seq ≡ count
    all_delivered s got taken h = ground (arith, h.faithful.bound, h.settled, taken s.next_recv_seq)

    -- If every chunk of a sender of at most 100 chunks arrives at least once, in any order, mixed
    -- with repetitions and reads, then the bytes read and the bytes in the buffer together are all
    -- that was sent, in order, and the next number expected is the sender's count.
    pub run_complete :
        (client_id : ℕ) (notify : Notify) (es : List Event)
        → All (IsSent count) es
        → ((k : ℕ) → k < count → Arrives k es)
        → let r = run chunk es ([], new_stream client_id notify) in
          (r.0 ++ r.1.recv_buf ≡ prefix chunk count) × (r.1.next_recv_seq ≡ count)
    run_complete client_id notify es sent arrive =
        let start = new_stream-IsSettled chunk count fits client_id notify in
        let h = run-IsSettled chunk count fits es _ sent start in
        let r = run chunk es ([], new_stream client_id notify) in
        let done =
          all_delivered r.1 r.0 (λ k lt. run-IsTaken es _ k sent start (inl (arrive k lt))) h in
        (h.faithful.order ∙ ap (prefix chunk) done, done)
