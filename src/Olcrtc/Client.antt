-- ===== src/Olcrtc/Client.antt =====
-- src/olcrtc/client.rs: the local SOCKS5 server. A connection's input is the list of its bytes, to
-- the end of the connection. The texts of IP addresses and the UTF-8 decoder are the standard
-- library's, and parameters, and so is what a socket does; what the tasks do is in the child modules.
pub mod Requests
pub mod Pump
pub mod Setup
pub mod Runtime
pub mod Connection
pub mod Tunnel
pub mod Accept
pub mod Shutdown
pub mod Relay
use tauri_vpn_plugin.Common.{
  ℕ, zero, suc, String, Bool, true, false, not, ◌||◌, List, [], ◌∷◌, Option, none, some, ◌==◌,
  nat_eq, if◌then◌else◌, is_empty,
}
use tauri_vpn_plugin.Common.Bytes.{Bytes, from_be_bytes}
use tauri_vpn_plugin.Errors.{
  VpnError, engine, from_io_error, Result, ok, err, ◌>>=◌, ◌>>◌, ensure, ◌+s◌,
}
use tauri_vpn_plugin.Olcrtc.Mux.{Multiplexer, poll_data, read_stream, send_data, stream_closed}
use tauri_vpn_plugin.Olcrtc.Mux.RoundTrip.{handle_all}
use tauri_vpn_plugin.Config.Dns.{decimal}

-- `read_exact`: the bytes and the input that is left.
unfoldable pub read_exact : ℕ → Bytes → Result (Bytes × Bytes)
read_exact zero input = ok ([], input)
read_exact (suc n) [] = err (from_io_error "early eof")
read_exact (suc n) (b ∷ input) = do r ← read_exact n input; ok (b ∷ r.0, r.1)

abbrev pub byte_at : ℕ → Bytes → ℕ
byte_at n [] = 0
byte_at zero (b ∷ bs) = b
byte_at (suc n) (b ∷ bs) = byte_at n bs

-- The reply that is written on success, and the input that is left.
unfoldable pub socks5_handshake : Bytes → Result (Bytes × Bytes)
socks5_handshake input = do
  header ← read_exact 2 input
  ensure (not (byte_at 0 header.0 == 5)) (engine "invalid SOCKS5 version")
  methods ← read_exact (byte_at 1 header.0) header.1
  ok (5 ∷ 0 ∷ [], methods.1)

-- The standard library's texts of addresses, and its decoder with the text of its error.
pub record AddressTexts : Type 0 where
  pub ipv4_text : Bytes → String
  pub ipv6_text : Bytes → String
  pub from_utf8 : Bytes → Option String
  pub utf8_error : Bytes → String

module _ (texts : AddressTexts) where
  abbrev domain_text : Bytes → Option String → Result String
  domain_text domain none = err (engine ("invalid SOCKS5 domain: " +s texts.utf8_error domain))
  domain_text domain (some s) = ok s

  -- The `match` on the address type: the address and the input that is left.
  unfoldable pub read_address : ℕ → Bytes → Result (String × Bytes)
  read_address kind input =
      let ipv4 = (do ip ← read_exact 4 input; ok (texts.ipv4_text ip.0, ip.1)) in
      let domain = (do
        len ← read_exact 1 input
        name ← read_exact (byte_at 0 len.0) len.1
        text ← domain_text name.0 (texts.from_utf8 name.0)
        ok (text, name.1)) in
      let ipv6 = (do ip ← read_exact 16 input; ok (texts.ipv6_text ip.0, ip.1)) in
      if kind == 1
      then ipv4
      else if kind == 3
      then domain
      else if kind == 4
      then ipv6
      else err (engine ("unsupported SOCKS5 address type " +s decimal kind))

  -- The address, the port and the input that is left.
  unfoldable pub socks5_request : Bytes → Result (String × ℕ × Bytes)
  socks5_request input = do
    header ← read_exact 4 input
    ensure (not (byte_at 0 header.0 == 5) || not (byte_at 1 header.0 == 1))
        (engine ("unsupported SOCKS5 command " +s decimal (byte_at 1 header.0)))
    addr ← read_address (byte_at 3 header.0) header.1
    port ← read_exact 2 addr.1
    ok (addr.0, from_be_bytes port.0, port.1)

abbrev pub reply_success : Bytes
reply_success = 5 ∷ 0 ∷ 0 ∷ 1 ∷ 0 ∷ 0 ∷ 0 ∷ 0 ∷ 0 ∷ 0 ∷ []

abbrev pub reply_host_unreachable : Bytes
reply_host_unreachable = 5 ∷ 4 ∷ 0 ∷ 1 ∷ 0 ∷ 0 ∷ 0 ∷ 0 ∷ 0 ∷ 0 ∷ []

-- The frames that come in a round of `pump_from_mux`: up to the end of the wait, up to the read, and
-- up to the test. Where the wait goes on, all of them come during it.
pub record PumpRound : Type 0 where
  pub waiting : List Bytes
  pub reading : List Bytes
  pub testing : List Bytes

module _ {W : Type 0} (write_all : Bytes → W → Bool × W) where
  -- A round of `pump_from_mux` after its wait; `arrivals` are the frames that come between the read
  -- and the test of `stream_closed`. The flag says that the pump stops.
  unfoldable pub pump_round : ℕ → List Bytes → Multiplexer → W → Bool × Multiplexer × W
  pump_round sid arrivals m w =
      let (bytes, m') = read_stream sid m in
      let (written, w') = if is_empty bytes then (true, w) else write_all bytes w in
      let m'' = handle_all arrivals m' in (if written then stream_closed sid m'' else true, m'', w')

  -- Whether the pump has ended, after these rounds.
  unfoldable pub pump_from_mux : ℕ → List PumpRound → Multiplexer → W → Bool × Multiplexer × W
  pump_from_mux sid [] m w = (false, m, w)
  pump_from_mux sid (r ∷ rounds) m w =
      let next = pump_from_mux sid rounds in
      let (waits, m') = poll_data sid (handle_all r.waiting m) in
      let arrived = handle_all r.reading m' in
      let (stops, m'', w') = pump_round sid r.testing arrived w in
      elim waits [
        | some notify ↦ next (handle_all r.testing arrived) w
        | none ↦ if stops then (true, m'', w') else next m'' w'
      ]

-- `response.first() == Some(&0x00)`
abbrev pub is_accepted : Bytes → Bool
is_accepted [] = false
is_accepted (b ∷ bs) = b == 0

module _ {L C : Type 0} (send : Bytes → L → Result (Unit {0}) × L)
    (write_all : Bytes → C → Result (Unit {0}) × C) where
  -- A reply to the socket, and the error that follows it.
  abbrev refuse : String → Multiplexer → L → C → Result (Unit {0}) × Multiplexer × L × C
  refuse message m l c =
      let (written, c') = write_all reply_host_unreachable c in
      (written >> err (engine message), m, l, c')

  abbrev answer : Bytes → Multiplexer → L → C → Result (Unit {0}) × Multiplexer × L × C
  answer response m l c =
      if is_accepted response
      then (let (written, c') = write_all reply_success c in (written, m, l, c'))
      else refuse "OLC RTC tunnel setup failed" m l c

  -- `request` is the text that serde_json gives to the connect request, `arrivals` the frames that
  -- are handled during the wait, and `in_time` says that the wait ended before the timeout.
  unfoldable pub setup_tunnel :
      ℕ → Bytes → Bool → List Bytes → Multiplexer → L → C → Result (Unit {0}) × Multiplexer × L × C
  setup_tunnel sid request in_time arrivals m l c =
      let (sent, m', l') = send_data send sid request m l in
      let waited = handle_all arrivals (poll_data sid m').1 in
      elim sent [
        | err e ↦ (err e, m', l', c)
        | ok u ↦
            if in_time
            then answer (read_stream sid waited).0 (read_stream sid waited).1 l' c
            else refuse "OLC RTC tunnel setup timed out" waited l' c
      ]
