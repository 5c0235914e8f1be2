-- ===== src/Olcrtc/Stream/Delivery.antt =====
-- src/olcrtc/mux.rs: what a reader gets of the chunks of one sender, whatever arrives.
use tauri_vpn_plugin.Common.{
  ℕ, ◌^◌, ◌≤◌, ◌<◌, ◌≡◌, refl, ◌∙◌, List, [], ◌∷◌, ◌++◌, append-nil, arith, nat_eq, All,
}
use tauri_vpn_plugin.Common.Bytes.{Bytes}
use tauri_vpn_plugin.Common.Dict.{get}
use tauri_vpn_plugin.Olcrtc.Stream.{Notify, new_stream}
use tauri_vpn_plugin.Olcrtc.Stream.Reassembly.{
  Event, arrives, reads, Receiver, step, run, prefix, IsSettled, accept-IsSettled,
}

-- Only chunks that the sender has do arrive.
abbrev pub IsSent : ℕ → Event → Type 0
IsSent count (arrives seq) = seq < count
IsSent count reads = Unit

module _ (chunk : ℕ → Bytes) (count : ℕ) (fits : count < 2 ^ 32) where
  pub new_stream-IsSettled :
      (client_id : ℕ) (notify : Notify)
      → IsSettled chunk count fits ([], new_stream client_id notify)
  unfolding get prefix
  new_stream-IsSettled client_id notify = record {
    faithful = record { order = refl; bound = omega arith; held = λ k v e. cc; distinct = tt };
    settled = refl;
  }

  pub step-IsSettled :
      (e : Event) (r : Receiver)
      → IsSent count e
      → IsSettled chunk count fits r
      → IsSettled chunk count fits (step chunk e r)
  step-IsSettled (arrives seq) (got, s) lt h = accept-IsSettled chunk count fits got s seq lt h
  step-IsSettled reads (got, s) _ h = record {
    faithful = record {
      order = append-nil _ ∙ h.faithful.order;
      bound = h.faithful.bound;
      held = h.faithful.held;
      distinct = h.faithful.distinct;
    };
    settled = h.settled;
  }

  pub run-IsSettled :
      (es : List Event) (r : Receiver)
      → All (IsSent count) es
      → IsSettled chunk count fits r
      → IsSettled chunk count fits (run chunk es r)
  unfolding run
  run-IsSettled [] r _ h = h
  run-IsSettled (e ∷ es) r (sent, rest) h =
      run-IsSettled es (step chunk e r) rest (step-IsSettled e r sent h)

  -- Whatever chunks of a sender of fewer than 2 ^ 32 chunks arrive on a new stream, in any order,
  -- repeated or lost, and whenever the buffer is read: the bytes read and the bytes in the buffer
  -- together are the first chunks of the sender, in the sender's order, up to the expected number,
  -- which never passes their count.
  pub run-IsPrefix :
      (client_id : ℕ) (notify : Notify) (es : List Event)
      → All (IsSent count) es
      → let r = run chunk es ([], new_stream client_id notify) in
        (r.0 ++ r.1.recv_buf ≡ prefix chunk r.1.next_recv_seq) × (r.1.next_recv_seq ≤ count)
  run-IsPrefix client_id notify es sent =
      let h = run-IsSettled es _ sent (new_stream-IsSettled client_id notify) in
      (h.faithful.order, h.faithful.bound)
