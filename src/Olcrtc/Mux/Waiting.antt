-- ===== src/Olcrtc/Mux/Waiting.antt =====
-- src/olcrtc/mux.rs, `wait_for_data` against the operations that end a wait, and `reset_client`.
use tauri_vpn_plugin.Common.{
  ℕ, ◌≡◌, refl, ap, ◌∙◌, ◌≢◌, ◌⊎◌, inl, inr, List, [], ◌∷◌, some, none, arith, nat_eq, nat_beq_iff,
  true, false, not, Bool-cases, ◌==◌, if◌then◌else◌,
}
use tauri_vpn_plugin.Common.Bytes.{Bytes}
use tauri_vpn_plugin.Common.Dict.{Dict, get, kept, get-insert_self, get-retain}
use tauri_vpn_plugin.Olcrtc.Frame.{parse_header}
use tauri_vpn_plugin.Olcrtc.Stream.{Stream, Notify, new_stream, accept}
use tauri_vpn_plugin.Olcrtc.Mux.{
  Multiplexer, stream_or_new, for_client, mark_closed, notifies_of, reset_client, receive,
  handle_frame, poll_data, stream_closed,
}
use tauri_vpn_plugin.Olcrtc.Mux.Dispatch.{handle_frame_cases}
use tauri_vpn_plugin.Olcrtc.Mux.Receiving.{receive-elsewhere, mark_closed-elsewhere}
use tauri_vpn_plugin.Olcrtc.Mux.Validity.{IsValid}

abbrev pub Wakes : Notify → List Notify → Type 0
Wakes n [] = ⊥
Wakes n (x ∷ xs) = (x ≡ n) ⊎ Wakes n xs

-- A task waits on a stream that has no data and is open.
abbrev pub IsIdle : Stream → Type 0
IsIdle s = (s.recv_buf ≡ []) × (s.closed ≡ false)

poll_idle :
    (sid : ℕ) (s : Stream) (m : Multiplexer)
    → get sid m.streams ≡ some s
    → IsIdle s
    → (poll_data sid m).0 ≡ some s.notify
unfolding poll_data stream_or_new
poll_idle sid s m e (empty, opened) = rw (e, poll_data, stream_or_new) (rw (empty, opened))

-- What holds if the wait goes on, or the waiter is woken.
abbrev IsNotLost : ℕ → Notify → Multiplexer × List Notify → Type 0
IsNotLost sid n r = (poll_data sid r.0).0 ≡ none → Wakes n r.1

idle-IsNotLost :
    (sid : ℕ) (n : Notify) (s : Stream) (m : Multiplexer) (woken : List Notify)
    → get sid m.streams ≡ some s
    → IsIdle s
    → IsNotLost sid n (m, woken)
idle-IsNotLost sid n s m woken e idle returns = cc (poll_idle sid s m e idle)

accept_quiet :
    (seq : ℕ) (payload : Bytes) (s : Stream)
    → (accept seq payload s).1 ≡ false
    → IsIdle s
    → IsIdle (accept seq payload s).0
unfolding accept
accept_quiet seq payload s quiet idle = ground arith

for_client-IsIdle : (client_id : ℕ) (s : Stream) → IsIdle s → IsIdle (for_client client_id s)
for_client-IsIdle client_id s idle = ground arith

Wakes-notifies_of :
    (client_id sid : ℕ) (s : Stream) (streams : Dict ℕ Stream)
    → get sid streams ≡ some s
    → s.client_id ≡ client_id
    → Wakes s.notify (notifies_of client_id streams)
unfolding notifies_of get
Wakes-notifies_of client_id sid s [] e own = cc
Wakes-notifies_of client_id sid s ((j, t) ∷ streams) e own =
    ground (arith, Wakes-notifies_of client_id sid s streams)

module _ (sid : ℕ) (s : Stream) (m : Multiplexer) (v : IsValid m) (e : get sid m.streams ≡ some s)
    (idle : IsIdle s) where
  reset_client-IsNotLost : (client_id : ℕ) → IsNotLost sid s.notify (reset_client client_id m)
  unfolding reset_client
  reset_client-IsNotLost client_id = elim (Bool-cases (s.client_id == client_id)) [
    | inl own ↦ λ _. Wakes-notifies_of client_id sid s m.streams e ((nat_beq_iff _ _).0 own)
    | inr other ↦
        idle-IsNotLost sid s.notify s _ _
          (get-retain (λ t. not (t.client_id == client_id)) sid m.streams v.distinct
            ∙ ap (kept _) e
            ∙ rw other)
          idle
  ]

  mark_closed-IsNotLost :
      (target client_id : ℕ) → IsNotLost sid s.notify (mark_closed target client_id m)
  unfolding mark_closed
  mark_closed-IsNotLost target client_id = elim (Bool-cases (target == sid)) [
    | inl same ↦
        rw ((nat_beq_iff target sid).0 same, e, mark_closed)
          (elim (Bool-cases (s.client_id == client_id)) [
            | inl own ↦ rw own (λ _. inl refl)
            | inr other ↦ rw other (idle-IsNotLost sid s.notify s m [] e idle)
          ])
    | inr other ↦
        idle-IsNotLost sid s.notify s _ _
          (mark_closed-elsewhere client_id target sid m
              (λ eq. ground (arith, nat_beq_iff target sid))
            ∙ e)
          idle
  ]

  receive-IsNotLost :
      (client_id target seq : ℕ) (payload : Bytes)
      → IsNotLost sid s.notify (receive client_id target seq payload m)
  unfolding receive stream_or_new
  receive-IsNotLost client_id target seq payload = elim (Bool-cases (target == sid)) [
    | inl same ↦
        let t = for_client client_id s in
        rw ((nat_beq_iff target sid).0 same, e, stream_or_new)
          (elim (Bool-cases (accept seq payload t).1) [
            | inl woken ↦ rw woken (λ _. inl refl)
            | inr quiet ↦ rw quiet (
                idle-IsNotLost sid s.notify (accept seq payload t).0 _ []
                  (get-insert_self sid _ m.streams)
                  (accept_quiet seq payload t quiet (for_client-IsIdle client_id s idle)))
          ])
    | inr other ↦
        idle-IsNotLost sid s.notify s _ _
          (receive-elsewhere client_id target seq sid payload m
              (λ eq. ground (arith, nat_beq_iff target sid))
            ∙ e)
          idle
  ]

  -- No wake-up is lost: in a multiplexer that keeps the invariant, if a task waits on a stream
  -- that is open and has nothing to read, and a frame comes after which `wait_for_data` would
  -- return, then handling that frame wakes the notify that the task waits for.
  pub handle_frame-Wakes :
      (frame : Bytes)
      → (poll_data sid (handle_frame frame m).0).0 ≡ none
      → Wakes s.notify (handle_frame frame m).1
  handle_frame-Wakes frame =
      let h = parse_header frame in
      handle_frame_cases (IsNotLost sid s.notify) frame m
        (idle-IsNotLost sid s.notify s m [] e idle) reset_client-IsNotLost
        (mark_closed-IsNotLost h.sid h.client_id) (receive-IsNotLost h.client_id h.sid h.seq)

-- A client's reset removes exactly its own streams, leaves the others as they are, and wakes the
-- notify of each removed stream.
pub reset_client-removes :
    (client_id : ℕ) (m : Multiplexer)
    → IsValid m
    → (sid : ℕ) (s : Stream) → get sid m.streams ≡ some s
    → let (m', woken) = reset_client client_id m in
      (get sid m'.streams ≡ (if s.client_id == client_id then none else some s))
      × (s.client_id ≡ client_id → Wakes s.notify woken)
unfolding reset_client
reset_client-removes client_id m v sid s e = (
  get-retain (λ t. not (t.client_id == client_id)) sid m.streams v.distinct
      ∙ ap (kept _) e
      ∙ ground arith,
  Wakes-notifies_of client_id sid s m.streams e,
)

poll_absent :
    (sid : ℕ) (m : Multiplexer)
    → get sid m.streams ≡ none
    → (stream_closed sid m ≡ true)
      × ((poll_data sid m).0 ≡ some m.notifies)
      × (stream_closed sid (poll_data sid m).1 ≡ false)
unfolding stream_closed poll_data
poll_absent sid m e = (
  rw (e, stream_closed),
  rw (e, stream_or_new),
  rw (e, stream_or_new)
      (rw (get-insert_self sid (new_stream m.client_id m.notifies) m.streams, stream_closed)),
)

-- In a multiplexer that keeps the invariant, resetting the client of a stream wakes the stream's
-- notify and leaves the stream counting as closed; but the next round of `wait_for_data` makes a
-- new open stream under another notify and waits for that, and the stream does not count as closed
-- any more.
pub reset_client_waits_on :
    (sid : ℕ) (s : Stream) (m : Multiplexer)
    → IsValid m
    → get sid m.streams ≡ some s
    → let (m', woken) = reset_client s.client_id m in
      Wakes s.notify woken
      × (stream_closed sid m' ≡ true)
      × ((poll_data sid m').0 ≡ some m.notifies)
      × (m.notifies ≢ s.notify)
      × (stream_closed sid (poll_data sid m').1 ≡ false)
unfolding reset_client
reset_client_waits_on sid s m v e =
    let (left, wakes) = reset_client-removes s.client_id m v sid s e in
    let gone : get sid (reset_client s.client_id m).0.streams ≡ none =
      left ∙ ground (arith, nat_beq_iff s.client_id s.client_id) in
    let (closed, waits, reopened) = poll_absent sid (reset_client s.client_id m).0 gone in
    (wakes refl, closed, waits, omega (arith, (v.entries sid s e).allocated), reopened)
