-- ===== src/Olcrtc/Stream.antt =====
-- src/olcrtc/mux.rs, `Stream`: the receiving side of one stream. An `Arc<Notify>` is the number
-- of its allocation.
pub mod Drain
pub mod Reassembly
pub mod Delivery
pub mod Completeness
use tauri_vpn_plugin.Common.{
  ℕ, zero, suc, ◌+◌, ◌%◌, ◌^◌, List, [], ◌++◌, Bool, true, false, ◌&&◌, none, some, ltb, ◌==◌,
  nat_eq, if◌then◌else◌, length,
}
use tauri_vpn_plugin.Common.Bytes.{Bytes}
use tauri_vpn_plugin.Common.Dict.{Dict, get, insert, remove}

abbrev pub Notify : Type 0
Notify = ℕ

pub record Stream : Type 0 where
  pub client_id : ℕ
  pub recv_buf : Bytes
  pub closed : Bool
  pub next_recv_seq : ℕ
  pub next_send_seq : ℕ
  pub out_of_order : Dict ℕ Bytes
  pub notify : Notify

-- `Stream { client_id, notify, ..Stream::default() }`
abbrev pub new_stream : ℕ → Notify → Stream
new_stream client_id notify = record {
  client_id = client_id;
  recv_buf = [];
  closed = false;
  next_recv_seq = 0;
  next_send_seq = 0;
  out_of_order = [];
  notify = notify;
}

-- `u32::wrapping_add(1)`
abbrev pub next_u32 : ℕ → ℕ
next_u32 n = (n + 1) % 2 ^ 32

-- One chunk taken in at the expected sequence number.
abbrev pub deliver : Bytes → Stream → Stream
deliver payload s = record s {
  recv_buf = s.recv_buf ++ payload;
  next_recv_seq = next_u32 s.next_recv_seq;
}

-- One round of `while let Some(data) = out_of_order.remove(&next_recv_seq)`.
abbrev pub deliver_held : Bytes → Stream → Stream
deliver_held payload s = record (deliver payload s) {
  out_of_order = remove s.next_recv_seq s.out_of_order;
}

-- The loop. Each round removes an entry, so the number of entries is enough fuel.
unfoldable pub drain : ℕ → Stream → Stream
drain zero s = s
drain (suc fuel) s = elim (get s.next_recv_seq s.out_of_order) [
  | none ↦ s
  | some payload ↦ drain fuel (deliver_held payload s)
]

abbrev pub max_out_of_order : ℕ
max_out_of_order = 100

-- A chunk with its sequence number; the flag says that the stream's `notify` is called.
unfoldable pub accept : ℕ → Bytes → Stream → Stream × Bool
accept seq payload s =
    if seq == s.next_recv_seq
    then (drain (length s.out_of_order) (deliver payload s), true)
    else if ltb s.next_recv_seq seq && ltb (length s.out_of_order) max_out_of_order
    then (record s { out_of_order = insert seq payload s.out_of_order }, false)
    else (s, false)
