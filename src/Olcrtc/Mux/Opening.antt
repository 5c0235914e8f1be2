-- ===== src/Olcrtc/Mux/Opening.antt =====
-- src/olcrtc/mux.rs, `open_stream`: the id that it gives, when its loop ends, and when it does not.
use tauri_vpn_plugin.Common.{
  ℕ, zero, suc, ◌+◌, ◌-◌, ◌%◌, ◌^◌, ◌<◌, ◌≡◌, refl, ◌≢◌, some, none, arith, nat_eq, Option-cases,
  inl, inr, ◌==◌, if◌then◌else◌, Option, List, [], ◌∷◌, true,
}
use tauri_vpn_plugin.Common.Dict.{get, insert, get-insert}
use tauri_vpn_plugin.Olcrtc.Stream.{Stream, new_stream}
use tauri_vpn_plugin.Olcrtc.Mux.{Multiplexer, nonzero_id, open_stream, close_local}

-- What a successful `open_stream` did.
pub record Opened (m : Multiplexer) (sid : ℕ) (m' : Multiplexer) : Type 0 where
  pub unused : get sid m.streams ≡ none
  pub nonzero : sid ≢ 0
  pub small : sid < 2 ^ 16
  pub added :
      (j : ℕ)
      → get j m'.streams ≡ (if sid == j then some (new_stream 0 m.notifies) else get j m.streams)
  pub same_client : m'.client_id ≡ m.client_id

-- When `open_stream` returns, from a counter of 16 bits, the id was unused, is not 0 and fits 16
-- bits; the stream under it is new and belongs to client 0, every other stream is as before, and
-- so is the multiplexer's own client id.
pub open_stream-Opened :
    (fuel : ℕ) (m m' : Multiplexer) (sid : ℕ)
    → m.next_id < 2 ^ 16
    → open_stream fuel m ≡ some (sid, m')
    → Opened m sid m'
unfolding open_stream
open_stream-Opened zero m m' sid h e = cc
open_stream-Opened (suc fuel) m m' sid h e =
    elim (Option-cases (get (nonzero_id m.next_id) m.streams)) [
      | inl f ↦ record {
        unused = ground arith;
        nonzero = ground arith;
        small = ground arith;
        added = λ j.
            ground (arith, get-insert (nonzero_id m.next_id) j (new_stream 0 m.notifies) m.streams);
        same_client = ground arith;
      }
      | inr (s, f) ↦
          let o =
            open_stream-Opened fuel (record m { next_id = (m.next_id + 1) % 2 ^ 16 }) m' sid
              (omega arith) (rw (f, open_stream) at e) in
          record {
            unused = o.unused;
            nonzero = o.nonzero;
            small = o.small;
            added = o.added;
            same_client = o.same_client;
          }
    ]

abbrev pub Opens : Option (ℕ × Multiplexer) → Type 0
Opens r = (sid : ℕ) × (m' : Multiplexer) × (r ≡ some (sid, m'))

not_there :
    (away id : ℕ) (m : Multiplexer) (s : Stream)
    → m.next_id < 2 ^ 16
    → id ≢ 0
    → (m.next_id + away) % 2 ^ 16 ≡ id
    → get (nonzero_id m.next_id) m.streams ≡ some s
    → get id m.streams ≡ none
    → away ≢ 0
not_there away id m s h nz e f unused z =
    let same : m.next_id ≡ id = omega arith in
    let there : nonzero_id m.next_id ≡ id = ground arith in cc

-- `away` rounds lead from the counter to the unused id.
open_stream_reaches :
    (away fuel id : ℕ) (m : Multiplexer)
    → m.next_id < 2 ^ 16
    → id ≢ 0
    → (m.next_id + away) % 2 ^ 16 ≡ id
    → away < fuel
    → get id m.streams ≡ none
    → Opens (open_stream fuel m)
unfolding open_stream
open_stream_reaches away zero id m h nz e lt unused = absurd (omega arith)
open_stream_reaches away (suc fuel) id m h nz e lt unused =
    elim (Option-cases (get (nonzero_id m.next_id) m.streams)) [
      | inl f ↦ (
        nonzero_id m.next_id,
        record m {
          streams = insert (nonzero_id m.next_id) (new_stream 0 m.notifies) m.streams;
          next_id = (m.next_id + 1) % 2 ^ 16;
          notifies = suc m.notifies;
        },
        rw (f, open_stream),
      )
      | inr (s, f) ↦
          let moves : away ≢ 0 = not_there away id m s h nz e f unused in
          rw (f, open_stream)
            (open_stream_reaches (away - 1) fuel id
              (record m { next_id = (m.next_id + 1) % 2 ^ 16 }) (omega arith) nz (omega arith)
              (omega arith) unused)
    ]

-- While some id from 1 to 65535 is unused, the loop of `open_stream` ends within 65536 rounds,
-- from any counter of 16 bits.
pub open_stream_total :
    (id : ℕ) (m : Multiplexer)
    → m.next_id < 2 ^ 16
    → id ≢ 0
    → id < 2 ^ 16
    → get id m.streams ≡ none
    → Opens (open_stream (2 ^ 16) m)
open_stream_total id m h nz small unused =
    open_stream_reaches ((id + 2 ^ 16 - m.next_id) % 2 ^ 16) (2 ^ 16) id m h nz (omega arith)
      (omega arith) unused

-- Every id that a stream can have is in use.
abbrev pub IsFull : Multiplexer → Type 0
IsFull m = (id : ℕ) → id ≢ 0 → id < 2 ^ 16 → get id m.streams ≢ none

open_stream_endless :
    (fuel : ℕ) (m : Multiplexer) → m.next_id < 2 ^ 16 → IsFull m → open_stream fuel m ≡ none
unfolding open_stream
open_stream_endless zero m h used = refl
open_stream_endless (suc fuel) m h used =
    elim (Option-cases (get (nonzero_id m.next_id) m.streams)) [
      | inl f ↦ absurd (used (nonzero_id m.next_id) (ground arith) (ground arith) f)
      | inr (s, f) ↦
          rw (f, open_stream)
            (open_stream_endless fuel (record m { next_id = (m.next_id + 1) % 2 ^ 16 })
              (omega arith) used)
    ]

close_local-keys :
    (sid id : ℕ) (m : Multiplexer)
    → get id m.streams ≢ none
    → get id (close_local sid m).0.streams ≢ none
unfolding close_local
close_local-keys sid id m there = elim (Option-cases (get sid m.streams)) [
  | inl f ↦ rw (f, close_local) there
  | inr (s, f) ↦
      rw (f, close_local) (ground (arith, get-insert sid id (record s { closed = true }) m.streams))
]

close_local-next_id : (sid : ℕ) (m : Multiplexer) → (close_local sid m).0.next_id ≡ m.next_id
unfolding close_local
close_local-next_id sid m = ground arith

-- The locked parts of any number of calls of `close_stream`.
abbrev pub close_all : List ℕ → Multiplexer → Multiplexer
close_all [] m = m
close_all (sid ∷ sids) m = close_all sids (close_local sid m).0

-- Once every id from 1 to 65535 is in use, the loop of `open_stream` does not end within any
-- number of rounds, whatever streams `close_stream` has closed before: closing frees no id.
pub open_stream_full :
    (fuel : ℕ) (sids : List ℕ) (m : Multiplexer)
    → m.next_id < 2 ^ 16
    → IsFull m
    → open_stream fuel (close_all sids m) ≡ none
open_stream_full fuel [] m h used = open_stream_endless fuel m h used
open_stream_full fuel (sid ∷ sids) m h used =
    open_stream_full fuel sids (close_local sid m).0 (rw (close_local-next_id sid m) h)
      (λ id nz small. close_local-keys sid id m (used id nz small))
