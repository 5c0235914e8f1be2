-- ===== src/Olcrtc/Frame/Codec.antt =====
-- src/olcrtc/mux.rs: what the receiving side reads from the frames that the sending side builds.
use tauri_vpn_plugin.Common.{
  ℕ, ◌+◌, ◌-◌, ◌^◌, ◌<◌, ◌≡◌, refl, ◌∙◌, ap, none, some, arith, length, slice, take, take-length,
}
use tauri_vpn_plugin.Common.Bytes.{Bytes}
use tauri_vpn_plugin.Olcrtc.Frame.{
  data_frame, close_frame, reset_frame, parse_header, parse_control_frame, header_size,
}

pub length-data_frame :
    (client_id sid seq : ℕ) (chunk : Bytes)
    → length (data_frame client_id sid seq chunk) ≡ header_size + length chunk
unfolding data_frame
length-data_frame client_id sid seq chunk = omega arith

pub payload-data_frame :
    (client_id sid seq : ℕ) (chunk : Bytes)
    → slice header_size (header_size + length chunk) (data_frame client_id sid seq chunk) ≡ chunk
unfolding data_frame
payload-data_frame client_id sid seq chunk =
    let e : 12 + length chunk - 12 ≡ length chunk = omega arith in
    ap (λ n. take n chunk) e ∙ take-length chunk

pub parse_header-data_frame :
    (client_id sid seq : ℕ) (chunk : Bytes)
    → client_id < 2 ^ 32
    → sid < 2 ^ 16
    → seq < 2 ^ 32
    → length chunk < 2 ^ 16
    → parse_header (data_frame client_id sid seq chunk)
      ≡ record { client_id = client_id; sid = sid; len = length chunk; seq = seq }
unfolding parse_header data_frame
parse_header-data_frame client_id sid seq chunk hc hs hq hl = ground arith

-- A chunk shorter than 0xFFFF bytes is never taken for a control frame.
pub parse_control_frame-data_frame :
    (client_id sid seq : ℕ) (chunk : Bytes)
    → length chunk < 0xffff
    → parse_control_frame (data_frame client_id sid seq chunk) ≡ none
unfolding parse_control_frame data_frame
parse_control_frame-data_frame client_id sid seq chunk h = ground arith

pub parse_control_frame-close_frame :
    (client_id sid : ℕ) → parse_control_frame (close_frame client_id sid) ≡ none
unfolding parse_control_frame close_frame
parse_control_frame-close_frame client_id sid = ground arith

pub parse_header-close_frame :
    (client_id sid : ℕ)
    → client_id < 2 ^ 32
    → sid < 2 ^ 16
    → parse_header (close_frame client_id sid)
      ≡ record { client_id = client_id; sid = sid; len = 0; seq = 0 }
unfolding parse_header close_frame
parse_header-close_frame client_id sid hc hs = ground arith

pub parse_control_frame-reset_frame :
    (client_id : ℕ)
    → client_id < 2 ^ 32
    → parse_control_frame (reset_frame client_id)
      ≡ some (record { client_id = client_id; kind = 1 })
unfolding parse_control_frame reset_frame
parse_control_frame-reset_frame client_id h = ground arith

pub length-close_frame : (client_id sid : ℕ) → length (close_frame client_id sid) ≡ header_size
unfolding close_frame
length-close_frame client_id sid = refl

pub length-reset_frame : (client_id : ℕ) → length (reset_frame client_id) ≡ header_size
unfolding reset_frame
length-reset_frame client_id = refl
