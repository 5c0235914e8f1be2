-- ===== src/Olcrtc/Mux/Validity.antt =====
-- src/olcrtc/mux.rs: the invariant of the multiplexer, and the two ways in which its map changes.
use tauri_vpn_plugin.Common.{
  ℕ, suc, ◌^◌, ◌≤◌, ◌<◌, ◌≡◌, inl, inr, some, none, arith, length, nat_eq, nat_beq_iff, Bool,
  Bool-cases, ◌==◌,
}
use tauri_vpn_plugin.Common.Bytes.{Bytes}
use tauri_vpn_plugin.Common.Dict.{
  get, insert, retain, IsDict, get-insert, get-retain, insert-IsDict, retain-IsDict,
  length-insert-le,
}
use tauri_vpn_plugin.Olcrtc.Stream.{
  Stream, Notify, new_stream, drain, deliver, accept, max_out_of_order,
}
use tauri_vpn_plugin.Olcrtc.Stream.Drain.{drain_inv, drain-length-le, drain-IsDict, drain-SameOwner}
use tauri_vpn_plugin.Olcrtc.Mux.{Multiplexer, new_multiplexer, put}

-- Sequence numbers fit 32 bits, and at most 100 chunks are held, each under its own number.
pub record IsSound (s : Stream) : Type 0 where
  pub recv_seq : s.next_recv_seq < 2 ^ 32
  pub send_seq : s.next_send_seq < 2 ^ 32
  pub few : length s.out_of_order ≤ max_out_of_order
  pub distinct : IsDict s.out_of_order

pub new_stream-IsSound : (client_id : ℕ) (notify : Notify) → IsSound (new_stream client_id notify)
new_stream-IsSound client_id notify = omega arith

drain-recv_seq :
    (fuel : ℕ) (s : Stream) → s.next_recv_seq < 2 ^ 32 → (drain fuel s).next_recv_seq < 2 ^ 32
drain-recv_seq fuel s h =
    drain_inv (λ t. t.next_recv_seq < 2 ^ 32) (λ t payload e lt. omega arith) fuel s h

pub accept-IsSound :
    (seq : ℕ) (payload : Bytes) (s : Stream) → IsSound s → IsSound (accept seq payload s).0
unfolding accept
accept-IsSound seq payload s h = elim (Bool-cases (seq == s.next_recv_seq)) [
  | inl e ↦
      let fuel = length s.out_of_order in
      let t = deliver payload s in
      let owner = drain-SameOwner fuel t in
      rw e (record {
        recv_seq = drain-recv_seq fuel t (omega arith);
        send_seq = omega (arith, owner.next_send_seq, h.send_seq);
        few = drain-length-le max_out_of_order fuel t h.few;
        distinct = drain-IsDict fuel t h.distinct;
      })
  | inr e ↦ rw e (
      ground (
        arith,
        length-insert-le seq payload s.out_of_order,
        insert-IsDict seq payload s.out_of_order h.distinct,
      ))
]

-- The notify of a stream never changes on the receiving side.
pub accept-notify :
    (seq : ℕ) (payload : Bytes) (s : Stream) → (accept seq payload s).0.notify ≡ s.notify
unfolding accept
accept-notify seq payload s =
    ground (arith, (drain-SameOwner (length s.out_of_order) (deliver payload s)).notify)

-- An entry of the map: its id fits 16 bits, and its notify has been allocated.
pub record IsEntry (m : Multiplexer) (sid : ℕ) (s : Stream) : Type 0 where
  pub id_bound : sid < 2 ^ 16
  pub sound : IsSound s
  pub allocated : s.notify < m.notifies

pub record IsValid (m : Multiplexer) : Type 0 where
  pub distinct : IsDict m.streams
  pub id_bound : m.next_id < 2 ^ 16
  pub entries : (sid : ℕ) (s : Stream) → get sid m.streams ≡ some s → IsEntry m sid s
  -- Two streams never share a notify.
  pub own :
      (i j : ℕ) (s t : Stream)
      → get i m.streams ≡ some s
      → get j m.streams ≡ some t
      → s.notify ≡ t.notify
      → i ≡ j

pub new_multiplexer-IsValid : (client_id : ℕ) → IsValid (new_multiplexer client_id)
unfolding get
new_multiplexer-IsValid client_id = record {
  distinct = tt;
  id_bound = omega arith;
  entries = λ sid s e. cc;
  own = λ i j s t e. cc;
}

module _ {m : Multiplexer} (v : IsValid m) where
  -- A stream is replaced by a sound one with the same notify.
  pub put-IsValid :
      (sid : ℕ) (s s' : Stream)
      → get sid m.streams ≡ some s
      → s'.notify ≡ s.notify
      → IsSound s'
      → IsValid (put sid s' m)
  put-IsValid sid s s' e same sound = record {
    distinct = insert-IsDict sid s' m.streams v.distinct;
    id_bound = v.id_bound;
    entries = λ k t found.
        ground (
          arith,
          get-insert sid k s' m.streams,
          nat_beq_iff sid k,
          v.entries sid s e,
          v.entries k t,
        );
    own = λ i j a b p q eq. ground (
      arith,
      get-insert sid i s' m.streams,
      get-insert sid j s' m.streams,
      nat_beq_iff sid i,
      nat_beq_iff sid j,
      v.own i j a b,
      v.own i sid a s,
      v.own sid j s b,
    );
  }

  abbrev pub extended : ℕ → ℕ → ℕ → Multiplexer
  extended sid client_id next_id = record m {
    streams = insert sid (new_stream client_id m.notifies) m.streams;
    next_id = next_id;
    notifies = suc m.notifies;
  }

  -- A stream with a new notify is added under an unused id.
  pub extended-IsValid :
      (sid client_id next_id : ℕ)
      → get sid m.streams ≡ none
      → sid < 2 ^ 16
      → next_id < 2 ^ 16
      → IsValid (extended sid client_id next_id)
  extended-IsValid sid client_id next_id unused small next = record {
    distinct = insert-IsDict sid _ m.streams v.distinct;
    id_bound = next;
    entries = λ k t found. ground (
      arith,
      get-insert sid k (new_stream client_id m.notifies) m.streams,
      nat_beq_iff sid k,
      v.entries k t,
    );
    own = λ i j a b p q eq. ground (
      arith,
      get-insert sid i (new_stream client_id m.notifies) m.streams,
      get-insert sid j (new_stream client_id m.notifies) m.streams,
      nat_beq_iff sid i,
      nat_beq_iff sid j,
      v.own i j a b,
      v.entries i a,
      v.entries j b,
    );
  }

  pub retain-IsValid :
      (keep : Stream → Bool) → IsValid (record m { streams = retain keep m.streams })
  retain-IsValid keep = record {
    distinct = retain-IsDict keep m.streams v.distinct;
    id_bound = v.id_bound;
    entries = λ k t found. ground (arith, get-retain keep k m.streams v.distinct, v.entries k t);
    own = λ i j a b p q eq. ground (
      arith,
      get-retain keep i m.streams v.distinct,
      get-retain keep j m.streams v.distinct,
      v.own i j a b,
    );
  }
