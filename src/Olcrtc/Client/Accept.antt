-- ===== src/Olcrtc/Client/Accept.antt =====
-- src/olcrtc/client.rs: the loop that accepts connections, and the end of the runtime. A turn of `select!` is
-- an event.
use tauri_vpn_plugin.Common.{
  ℕ, Bool, true, false, List, [], ◌∷◌, ◌++◌, Option, none, some, ◌≡◌, refl, ap, if◌then◌else◌, All,
}
use tauri_vpn_plugin.Common.Bytes.{Bytes, from_be_bytes}
use tauri_vpn_plugin.Olcrtc.WbStream.{WbStreamPeer, close}

-- What a turn sees: a connection, a failed accept, or a change of `shutdown`, to which value, none where the
-- sender is gone.
pub data Turn (C : Type 0) : Type 0 where
  accepted : C → Turn C
  accept_failed : Turn C
  shutdown_changed : Option Bool → Turn C

-- What a turn does: it spawns `handle_socks5` on a connection, or sleeps.
pub data Reaction (C : Type 0) : Type 0 where
  serves : C → Reaction C
  sleeps_ms : ℕ → Reaction C

abbrev pub ends_loop : Option Bool → Bool
ends_loop none = true
ends_loop (some shutdown) = shutdown

module _ {C : Type 0} where
  unfoldable pub accept_loop : List (Turn C) → List (Reaction C)
  accept_loop [] = []
  accept_loop (accepted stream ∷ turns) = serves stream ∷ accept_loop turns
  accept_loop (accept_failed ∷ turns) = sleeps_ms 100 ∷ accept_loop turns
  accept_loop (shutdown_changed change ∷ turns) =
      let rest = accept_loop turns in if ends_loop change then [] else rest

  abbrev GoesOn : Turn C → Type 0
  GoesOn (accepted stream) = Unit
  GoesOn accept_failed = Unit
  GoesOn (shutdown_changed change) = ends_loop change ≡ false

  abbrev pub reaction : Turn C → List (Reaction C)
  reaction (accepted stream) = serves stream ∷ []
  reaction accept_failed = sleeps_ms 100 ∷ []
  reaction (shutdown_changed change) = []

  abbrev pub reactions : List (Turn C) → List (Reaction C)
  reactions [] = []
  reactions (turn ∷ turns) = reaction turn ++ reactions turns

  -- Every connection before the shutdown is served, also after accepts that failed, and none after it.
  pub accept_loop-shutdown :
      (before after : List (Turn C)) (change : Option Bool)
      → All GoesOn before
      → ends_loop change ≡ true
      → accept_loop (before ++ shutdown_changed change ∷ after) ≡ reactions before
  unfolding accept_loop
  accept_loop-shutdown [] after change h ends = rw ends refl
  accept_loop-shutdown (accepted stream ∷ turns) after change (u, h) ends =
      ap (λ rest. serves stream ∷ rest) (accept_loop-shutdown turns after change h ends)
  accept_loop-shutdown (accept_failed ∷ turns) after change (u, h) ends =
      ap (λ rest. sleeps_ms 100 ∷ rest) (accept_loop-shutdown turns after change h ends)
  accept_loop-shutdown (shutdown_changed c ∷ turns) after change (goes, h) ends =
      rw goes (accept_loop-shutdown turns after change h ends)

-- The runtime: the value of its `shutdown`, whether its task was aborted, and its peer.
pub record OlcRtcRuntime : Type 0 where
  pub shutdown : Bool
  pub aborted : Bool
  pub peer : WbStreamPeer

abbrev pub new_runtime : WbStreamPeer → OlcRtcRuntime
new_runtime peer = record { shutdown = false; aborted = false; peer = peer }

unfoldable pub stop : OlcRtcRuntime → OlcRtcRuntime
unfolding close
stop runtime = record { shutdown = true; aborted = true; peer = close runtime.peer }

-- The four bytes of `OsRng`.
abbrev pub random_client_id : Bytes → ℕ
random_client_id bytes = from_be_bytes bytes
