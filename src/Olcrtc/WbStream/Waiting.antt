-- ===== src/Olcrtc/WbStream/Waiting.antt =====
-- src/olcrtc/wbstream.rs, `send` as its tasks interleave: a call that has read the flag `closed` waits for a
-- place in the queue, and gets one, or fails, at some later time.
use tauri_vpn_plugin.Common.{
  ℕ, zero, suc, ◌+◌, ◌≤◌, ◌≡◌, refl, sym, ap, subst, ◌∙◌, List, [], ◌∷◌, ◌++◌, append_assoc,
  append-nil, Option, none, some, true, false, Bool, arith, Option-cases, inl, inr,
}
use tauri_vpn_plugin.Common.Bytes.{Bytes}
use tauri_vpn_plugin.Errors.{ok, err}
use tauri_vpn_plugin.Olcrtc.WbStream.{WbStreamPeer, check_open, enqueue, send, close}

-- The payloads of the calls that wait for a place, and all that was ever put into the queue, in order.
pub record Sends : Type 0 where
  pub peer : WbStreamPeer
  pub waiting : List Bytes
  pub queued : List Bytes

-- A call begins; the waiting call at that place gets its place in the queue, or ends without one (the queue
-- is closed, or the task is aborted); the peer is closed.
pub data SendEvent : Type 0 where
  begins : Bytes → SendEvent
  enqueues gives_up : ℕ → SendEvent
  closes : SendEvent

abbrev pub get_elem? : List Bytes → ℕ → Option Bytes
get_elem? [] i = none
get_elem? (x ∷ xs) zero = some x
get_elem? (x ∷ xs) (suc i) = get_elem? xs i

abbrev pub remove_at : ℕ → List Bytes → List Bytes
remove_at i [] = []
remove_at zero (x ∷ xs) = xs
remove_at (suc i) (x ∷ xs) = x ∷ remove_at i xs

unfoldable pub send_step : SendEvent → Sends → Sends
unfolding check_open close
send_step (begins payload) s = elim (check_open s.peer) [
  | ok u ↦ record s { waiting = s.waiting ++ payload ∷ [] }
  | err e ↦ s
]
send_step (enqueues i) s = elim (get_elem? s.waiting i) [
  | none ↦ s
  | some payload ↦ record s { waiting = remove_at i s.waiting; queued = s.queued ++ payload ∷ [] }
]
send_step (gives_up i) s = record s { waiting = remove_at i s.waiting }
send_step closes s = record s { peer = close s.peer }

unfoldable pub run_sends : List SendEvent → Sends → Sends
run_sends [] s = s
run_sends (event ∷ events) s = run_sends events (send_step event s)

-- A queue that takes every payload at its end.
abbrev appending : Bytes → List Bytes → Bool × List Bytes
appending payload payloads = (true, payloads ++ payload ∷ [])

-- A call that nothing comes between, where no other waits, is `send`.
send-run_sends :
    (payload : Bytes) (closed : Bool) (room_closes : ℕ) (payloads : List Bytes)
    → let peer : WbStreamPeer = record { closed = closed; room_closes = room_closes } in
      let s : Sends = record { peer = peer; waiting = []; queued = payloads } in
      run_sends (begins payload ∷ enqueues 0 ∷ []) s
      ≡ record s { queued = (send appending payload peer payloads).1 }
unfolding run_sends send_step send check_open enqueue
send-run_sends payload true room_closes payloads = refl
send-run_sends payload false room_closes payloads = refl

abbrev pub total : (Bytes → ℕ) → List Bytes → ℕ
total weight [] = 0
total weight (x ∷ xs) = weight x + total weight xs

pub total-append :
    (weight : Bytes → ℕ) (xs ys : List Bytes)
    → total weight (xs ++ ys) ≡ total weight xs + total weight ys
total-append weight [] ys = omega arith
total-append weight (x ∷ xs) ys = omega (arith, total-append weight xs ys)

remove_at-le :
    (weight : Bytes → ℕ) (i : ℕ) (xs : List Bytes) → total weight (remove_at i xs) ≤ total weight xs
remove_at-le weight i [] = omega arith
remove_at-le weight zero (x ∷ xs) = omega arith
remove_at-le weight (suc i) (x ∷ xs) = omega (arith, remove_at-le weight i xs)

total-remove_at :
    (weight : Bytes → ℕ) (i : ℕ) (xs : List Bytes) (x : Bytes)
    → get_elem? xs i ≡ some x
    → weight x + total weight (remove_at i xs) ≡ total weight xs
total-remove_at weight i [] x e = cc
total-remove_at weight zero (y ∷ xs) x e = ground arith
total-remove_at weight (suc i) (y ∷ xs) x e = omega (arith, total-remove_at weight i xs x e)

-- What is added to the queue, with what still waits, is among what waited: its total is no greater, however
-- payloads are weighed.
abbrev pub OnlyWaiting : Sends → Sends → Type 0
OnlyWaiting s t =
    (added : List Bytes) × (t.queued ≡ s.queued ++ added)
    × ((weight : Bytes → ℕ) → total weight added + total weight t.waiting ≤ total weight s.waiting)

unchanged : (s : Sends) → OnlyWaiting s s
unchanged s = ([], sym (append-nil s.queued), λ weight. omega arith)

then_only : (s t u : Sends) → OnlyWaiting s t → OnlyWaiting t u → OnlyWaiting s u
then_only s t u (xs, e, h) (ys, f, k) = (
  xs ++ ys,
  f ∙ ap (λ queued. queued ++ ys) e ∙ append_assoc s.queued xs ys,
  λ weight. omega (arith, total-append weight xs ys, h weight, k weight),
)

begins_refused :
    (payload : Bytes) (s : Sends) → s.peer.closed ≡ true → send_step (begins payload) s ≡ s
unfolding send_step
begins_refused payload s shut = ground (arith, shut)

close_closed : (peer : WbStreamPeer) → (close peer).closed ≡ true
unfolding close
close_closed peer = ground arith

send_step-OnlyWaiting :
    (event : SendEvent) (s : Sends)
    → s.peer.closed ≡ true
    → OnlyWaiting s (send_step event s) × ((send_step event s).peer.closed ≡ true)
unfolding send_step
send_step-OnlyWaiting (begins payload) s shut =
    subst (λ t. OnlyWaiting s t × (t.peer.closed ≡ true)) (sym (begins_refused payload s shut))
      (unchanged s, shut)
send_step-OnlyWaiting (enqueues i) s shut = elim (Option-cases (get_elem? s.waiting i)) [
  | inl e ↦ rw (e, send_step) (unchanged s, shut)
  | inr (payload, e) ↦
      rw (e, send_step)
        (
          (
            payload ∷ [],
            refl,
            λ weight. omega (arith, total-remove_at weight i s.waiting payload e),
          ),
          shut,
        )
]
send_step-OnlyWaiting (gives_up i) s shut = (
  ([], sym (append-nil s.queued), λ weight. omega (arith, remove_at-le weight i s.waiting)),
  shut,
)
send_step-OnlyWaiting closes s shut = (unchanged s, close_closed s.peer)

pub run_sends-OnlyWaiting :
    (events : List SendEvent) (s : Sends)
    → s.peer.closed ≡ true
    → OnlyWaiting s (run_sends events s)
unfolding run_sends
run_sends-OnlyWaiting [] s shut = unchanged s
run_sends-OnlyWaiting (event ∷ events) s shut =
    let (first, still) = send_step-OnlyWaiting event s shut in
    then_only s (send_step event s) (run_sends events (send_step event s)) first
      (run_sends-OnlyWaiting events (send_step event s) still)
