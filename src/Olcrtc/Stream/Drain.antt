-- ===== src/Olcrtc/Stream/Drain.antt =====
-- src/olcrtc/mux.rs, the loop over `out_of_order` in `handle_frame`: it ends by its own test, and
-- what it leaves alone.
use tauri_vpn_plugin.Common.{
  ℕ, zero, suc, ◌≤◌, ◌≡◌, refl, inl, inr, List, [], ◌∷◌, none, some, arith, length, Option-cases,
  nat_eq,
}
use tauri_vpn_plugin.Common.Bytes.{Bytes}
use tauri_vpn_plugin.Common.Dict.{get, IsDict, remove-IsDict, length-remove-le, length-remove-lt}
use tauri_vpn_plugin.Olcrtc.Stream.{Stream, deliver_held, drain}

-- A property that every round keeps holds at the end.
pub drain_inv {ℓ} :
    (P : Stream → Type ℓ)
    → ((s : Stream) (payload : Bytes)
        → get s.next_recv_seq s.out_of_order ≡ some payload
        → P s
        → P (deliver_held payload s))
    → (fuel : ℕ) (s : Stream) → P s
    → P (drain fuel s)
unfolding drain
drain_inv P keep zero s h = h
drain_inv P keep (suc fuel) s h = elim (Option-cases (get s.next_recv_seq s.out_of_order)) [
  | inl e ↦ rw (e, drain) h
  | inr (payload, e) ↦ rw (e, drain) (drain_inv P keep fuel _ (keep s payload e h))
]

no_entry : (k : ℕ) (s : Stream) → length s.out_of_order ≤ 0 → get k s.out_of_order ≡ none
unfolding get
no_entry k s h = go s.out_of_order h
  where
    go : (m : List (ℕ × Bytes)) → length m ≤ 0 → get k m ≡ none
    go [] h = refl
    go (x ∷ m) h = absurd (omega arith)

-- With as many rounds as entries, the loop ends because the next chunk is not held.
pub drain_settled :
    (fuel : ℕ) (s : Stream)
    → length s.out_of_order ≤ fuel
    → get (drain fuel s).next_recv_seq (drain fuel s).out_of_order ≡ none
unfolding drain
drain_settled zero s h = no_entry s.next_recv_seq s h
drain_settled (suc fuel) s h = elim (Option-cases (get s.next_recv_seq s.out_of_order)) [
  | inl e ↦ rw (e, drain) e
  | inr (payload, e) ↦
      rw (e, drain)
        (drain_settled fuel (deliver_held payload s)
          (omega (arith, length-remove-lt s.next_recv_seq payload s.out_of_order e)))
]

-- What the loop does not touch.
pub record SameOwner (s t : Stream) : Type 0 where
  pub client_id : t.client_id ≡ s.client_id
  pub closed : t.closed ≡ s.closed
  pub next_send_seq : t.next_send_seq ≡ s.next_send_seq
  pub notify : t.notify ≡ s.notify

pub drain-SameOwner : (fuel : ℕ) (s : Stream) → SameOwner s (drain fuel s)
drain-SameOwner fuel s =
    drain_inv (SameOwner s)
      (λ t payload e h. record {
        client_id = h.client_id;
        closed = h.closed;
        next_send_seq = h.next_send_seq;
        notify = h.notify;
      })
      fuel s (record { client_id = refl; closed = refl; next_send_seq = refl; notify = refl })

pub drain-length-le :
    (n fuel : ℕ) (s : Stream) → length s.out_of_order ≤ n → length (drain fuel s).out_of_order ≤ n
drain-length-le n fuel s h =
    drain_inv (λ t. length t.out_of_order ≤ n)
      (λ t payload e h. omega (arith, length-remove-le t.next_recv_seq t.out_of_order)) fuel s h

pub drain-IsDict :
    (fuel : ℕ) (s : Stream) → IsDict s.out_of_order → IsDict (drain fuel s).out_of_order
drain-IsDict fuel s h =
    drain_inv (λ t. IsDict t.out_of_order)
      (λ t payload e h. remove-IsDict t.next_recv_seq t.out_of_order h) fuel s h
