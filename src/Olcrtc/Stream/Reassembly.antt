-- ===== src/Olcrtc/Stream/Reassembly.antt =====
-- src/olcrtc/mux.rs, what `handle_frame` and `read_stream` make of the chunks of one sender, in
-- whatever order, however often and with whatever losses these arrive. Chunk `k` of the sender is
-- `chunk k`, and it sends `count` of them, fewer than 2 ^ 32, so that no number comes twice.
use tauri_vpn_plugin.Common.{
  ℕ, zero, suc, ◌^◌, ◌≤◌, ◌<◌, ◌≡◌, refl, sym, ap, ◌∙◌, inl, inr, ◌≢◌, List, [], ◌∷◌, ◌++◌,
  append_assoc, none, some, Bool-cases, arith, length, nat_eq, nat_beq_iff, ltb, ◌==◌, ◌&&◌,
}
use tauri_vpn_plugin.Common.Bytes.{Bytes}
use tauri_vpn_plugin.Common.Dict.{
  get, insert, IsDict, get-insert, get-remove, insert-IsDict, remove-IsDict,
}
use tauri_vpn_plugin.Olcrtc.Stream.{
  Stream, next_u32, deliver, deliver_held, drain, accept, max_out_of_order,
}
use tauri_vpn_plugin.Olcrtc.Stream.Drain.{drain_inv, drain_settled}

-- What happens to a stream: a chunk arrives, or the buffer is read.
pub data Event : Type 0 where
  arrives : ℕ → Event
  reads : Event

-- The bytes read so far, and the stream.
abbrev pub Receiver : Type 0
Receiver = Bytes × Stream

module _ (chunk : ℕ → Bytes) where
  abbrev pub step : Event → Receiver → Receiver
  step (arrives seq) (got, s) = (got, (accept seq (chunk seq) s).0)
  step reads (got, s) = (got ++ s.recv_buf, record s { recv_buf = [] })

  unfoldable pub run : List Event → Receiver → Receiver
  run [] r = r
  run (e ∷ es) r = run es (step e r)

  -- The bytes of the first chunks.
  unfoldable pub prefix : ℕ → Bytes
  prefix zero = []
  prefix (suc n) = prefix n ++ chunk n

module _ (chunk : ℕ → Bytes) (count : ℕ) where
  -- A held chunk is the sender's, and is not behind the expected one.
  abbrev pub IsHeld : ℕ → ℕ → Bytes → Type 0
  IsHeld next k payload = (payload ≡ chunk k) × (next ≤ k) × (k < count)

  pub record IsFaithful (got : Bytes) (s : Stream) : Type 0 where
    pub order : got ++ s.recv_buf ≡ prefix chunk s.next_recv_seq
    pub bound : s.next_recv_seq ≤ count
    pub held :
        (k : ℕ) (payload : Bytes)
        → get k s.out_of_order ≡ some payload
        → IsHeld s.next_recv_seq k payload
    pub distinct : IsDict s.out_of_order

  module _ (fits : count < 2 ^ 32) where
    prefix-next :
        (got buf payload : Bytes) (next : ℕ)
        → got ++ buf ≡ prefix chunk next
        → payload ≡ chunk next
        → next < count
        → got ++ (buf ++ payload) ≡ prefix chunk (next_u32 next)
    unfolding prefix
    prefix-next got buf payload next order same lt =
        let e : next_u32 next ≡ suc next = omega arith in
        sym (append_assoc got buf payload)
        ∙ ap (λ b. b ++ payload) order
        ∙ ap (λ b. prefix chunk next ++ b) same
        ∙ ap (prefix chunk) (sym e)

    IsHeld-later :
        (s : Stream) (k : ℕ) (payload : Bytes)
        → IsHeld s.next_recv_seq k payload
        → s.next_recv_seq ≢ k
        → s.next_recv_seq < count
        → IsHeld (next_u32 s.next_recv_seq) k payload
    IsHeld-later s k payload (same, le, lt) ne b = (same, omega arith, lt)

    pub deliver_held-IsFaithful :
        (got : Bytes) (s : Stream) (payload : Bytes)
        → get s.next_recv_seq s.out_of_order ≡ some payload
        → IsFaithful got s
        → IsFaithful got (deliver_held payload s)
    deliver_held-IsFaithful got s payload e h =
        let (same, _, lt) = h.held s.next_recv_seq payload e in
        record {
          order = prefix-next got s.recv_buf payload s.next_recv_seq h.order same lt;
          bound = omega arith;
          held = λ k v found.
              IsHeld-later s k v
                (h.held k v (ground (arith, get-remove s.next_recv_seq k s.out_of_order)))
                (λ eq. ground (arith, get-remove s.next_recv_seq k s.out_of_order)) lt;
          distinct = remove-IsDict s.next_recv_seq s.out_of_order h.distinct;
        }

    -- Between two arrivals the expected chunk is not among the held ones.
    pub record IsSettled (r : Receiver) : Type 0 where
      pub faithful : IsFaithful r.0 r.1
      pub settled : get r.1.next_recv_seq r.1.out_of_order ≡ none

    pub deliver-IsFaithful :
        (got : Bytes) (s : Stream)
        → s.next_recv_seq < count
        → IsSettled (got, s)
        → IsFaithful got (deliver (chunk s.next_recv_seq) s)
    deliver-IsFaithful got s lt h = record {
      order = prefix-next got s.recv_buf _ s.next_recv_seq h.faithful.order refl lt;
      bound = omega arith;
      held = λ k v found.
          IsHeld-later s k v (h.faithful.held k v found) (λ eq. ground (arith, h.settled, found))
            lt;
      distinct = h.faithful.distinct;
    }

    insert-IsSettled :
        (got : Bytes) (s : Stream) (seq : ℕ)
        → s.next_recv_seq < seq
        → seq < count
        → IsSettled (got, s)
        → IsSettled (got, record s { out_of_order = insert seq (chunk seq) s.out_of_order })
    insert-IsSettled got s seq gt lt h = record {
      faithful = record {
        order = h.faithful.order;
        bound = h.faithful.bound;
        held = λ k v found.
            ground (arith, get-insert seq k (chunk seq) s.out_of_order, h.faithful.held k v);
        distinct = insert-IsDict seq (chunk seq) s.out_of_order h.faithful.distinct;
      };
      settled =
          ground (arith, get-insert seq s.next_recv_seq (chunk seq) s.out_of_order, h.settled);
    }

    drained :
        (got : Bytes) (s : Stream) (fuel : ℕ)
        → length s.out_of_order ≤ fuel
        → IsFaithful got s
        → IsSettled (got, drain fuel s)
    drained got s fuel le h = record {
      faithful = drain_inv (IsFaithful got) (deliver_held-IsFaithful got) fuel s h;
      settled = drain_settled fuel s le;
    }

    pub accept-IsSettled :
        (got : Bytes) (s : Stream) (seq : ℕ)
        → seq < count
        → IsSettled (got, s)
        → IsSettled (got, (accept seq (chunk seq) s).0)
    unfolding accept
    accept-IsSettled got s seq lt h = elim (Bool-cases (seq == s.next_recv_seq)) [
      | inl e ↦
          let same : seq ≡ s.next_recv_seq = (nat_beq_iff _ _).0 e in
          rw (e, same)
            (drained got (deliver (chunk s.next_recv_seq) s) (length s.out_of_order) (omega arith)
              (deliver-IsFaithful got s (omega arith) h))
      | inr e ↦
          rw e
            (elim (Bool-cases
              (ltb s.next_recv_seq seq && ltb (length s.out_of_order) max_out_of_order)) [
                | inl f ↦ rw f (insert-IsSettled got s seq (ground arith) lt h)
                | inr f ↦ rw f h
              ])
    ]
