-- ===== src/Olcrtc/Client/Setup.antt =====
-- src/olcrtc/client.rs, `setup_tunnel`: the answer to the connect request.
use tauri_vpn_plugin.Common.{
  ℕ, ◌≡◌, refl, Bool, true, false, List, [], ◌++◌, nat_eq, Option-cases, Bool-cases, inl, inr, ◌⊎◌,
}
use tauri_vpn_plugin.Common.Bytes.{Bytes}
use tauri_vpn_plugin.Common.Dict.{get, get-insert_self}
use tauri_vpn_plugin.Errors.{engine, Result, ok, err, VpnError, ◌>>◌}
use tauri_vpn_plugin.Olcrtc.Mux.{Multiplexer, poll_data, read_stream, send_data}
use tauri_vpn_plugin.Olcrtc.Mux.RoundTrip.{handle_all}
use tauri_vpn_plugin.Olcrtc.Client.{
  reply_success, reply_host_unreachable, is_accepted, setup_tunnel,
}

-- A socket that takes everything, and records it.
abbrev pub accepting : Bytes → Bytes → Result (Unit {0}) × Bytes
accepting bytes written = (ok tt, written ++ bytes)

read_stream-empties : (sid : ℕ) (m : Multiplexer) → (read_stream sid (read_stream sid m).1).0 ≡ []
unfolding read_stream
read_stream-empties sid m = elim (Option-cases (get sid m.streams)) [
  | inl e ↦ rw (e, read_stream) (rw (e, read_stream) refl)
  | inr (s, e) ↦
      rw (e, read_stream)
        (rw (get-insert_self sid (record s { recv_buf = [] }) m.streams, read_stream) refl)
]

-- An error of the write, else the given one.
abbrev pub write_error_or : VpnError → Result (Unit {0}) → VpnError
write_error_or x (ok u) = x
write_error_or x (err e) = e

fails_anyway :
    (x : VpnError) (written : Result (Unit {0}))
    → ◌>>◌ {T = Unit {0}} written (err x) ≡ err (write_error_or x written)
fails_anyway x (ok u) = refl
fails_anyway x (err e) = refl

-- The result and the socket, by whether the destination was reached: the reply of success is written and
-- the result is that of the write, or the other reply is written and the result is an error.
abbrev pub IsAnswer :
    {C : Type 0} → (Bytes → C → Result (Unit {0}) × C) → Bool → C → Result (Unit {0}) → C → Type 0
IsAnswer write_all true c r c' =
    (r ≡ (write_all reply_success c).0) × (c' ≡ (write_all reply_success c).1)
IsAnswer write_all false c r c' =
    (r
      ≡ err (
          write_error_or (engine "OLC RTC tunnel setup failed")
            (write_all reply_host_unreachable c).0))
    × (c' ≡ (write_all reply_host_unreachable c).1)

sent_cases : (r : Result (Unit {0})) → ((e : VpnError) × (r ≡ err e)) ⊎ (r ≡ ok tt)
sent_cases (err e) = inl (e, refl)
sent_cases (ok u) = inr refl

module _ {L : Type 0} (send : Bytes → L → Result (Unit {0}) × L) where
  -- When the request was sent and the wait ends in time, whatever the socket does: if the response begins
  -- with 0, the reply of success is written, and the result is that of the write; else the reply that the
  -- host is unreachable is written, and the result is an error, that of the write if it failed. Of
  -- everything that the stream held by then nothing is left to read: bytes behind the first one are
  -- dropped.
  pub setup_tunnel-IsAnswer :
      {C : Type 0} (write_all : Bytes → C → Result (Unit {0}) × C) (sid : ℕ) (request : Bytes)
      (arrivals : List Bytes) (m : Multiplexer) (l : L) (c : C)
      → (send_data send sid request m l).0 ≡ ok tt
      → let waited = handle_all arrivals (poll_data sid (send_data send sid request m l).1).1 in
        let (r, m', _, c') = setup_tunnel send write_all sid request true arrivals m l c in
        IsAnswer write_all (is_accepted (read_stream sid waited).0) c r c'
        × ((read_stream sid m').0 ≡ [])
  unfolding setup_tunnel
  setup_tunnel-IsAnswer write_all sid request arrivals m l c e =
      let waited = handle_all arrivals (poll_data sid (send_data send sid request m l).1).1 in
      rw (e, setup_tunnel)
        (elim (Bool-cases (is_accepted (read_stream sid waited).0)) [
          | inl f ↦ rw f ((refl, refl), read_stream-empties sid waited)
          | inr f ↦ rw f ((fails_anyway _ _, refl), read_stream-empties sid waited)
        ])

  -- When no response comes in time, `setup_tunnel` fails: with the link's error, and without a reply to
  -- the socket, if the request could not be sent; else with a timeout, after the reply that the host is
  -- unreachable.
  pub setup_tunnel_fails :
      (sid : ℕ) (request : Bytes) (arrivals : List Bytes) (m : Multiplexer) (l : L)
      (written : Bytes)
      → let (r, _, _, written') =
          setup_tunnel send accepting sid request false arrivals m l written in
        ((e : VpnError) × ((send_data send sid request m l).0 ≡ err e)
          × (r ≡ err e)
          × (written' ≡ written))
        ⊎ (((send_data send sid request m l).0 ≡ ok tt)
            × (r ≡ err (engine "OLC RTC tunnel setup timed out"))
            × (written' ≡ written ++ reply_host_unreachable))
  unfolding setup_tunnel
  setup_tunnel_fails sid request arrivals m l written =
      elim (sent_cases (send_data send sid request m l).0) [
        | inl (x, e) ↦ rw (e, setup_tunnel) (inl (x, refl, refl, refl))
        | inr e ↦ rw (e, setup_tunnel) (inr (refl, refl, refl))
      ]
