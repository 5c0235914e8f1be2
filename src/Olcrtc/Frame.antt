-- ===== src/Olcrtc/Frame.antt =====
-- src/olcrtc/mux.rs, the wire format: a header of 12 bytes (client id, stream id, payload length,
-- sequence number, all big-endian) and the payload. Length 0 closes a stream; stream id and length
-- 0xFFFF mark a control frame. The fields stand side by side, so a frame is their concatenation.
pub mod Codec
pub mod Chunks
use tauri_vpn_plugin.Common.{
  ℕ, zero, suc, ◌%◌, ◌^◌, List, [], ◌∷◌, ◌++◌, Option, none, some, not, ◌||◌, ◌==◌, nat_eq,
  if◌then◌else◌, length, take, drop, slice,
}
use tauri_vpn_plugin.Common.Bytes.{Bytes, u16_to_be_bytes, u32_to_be_bytes, from_be_bytes}

abbrev pub header_size : ℕ
header_size = 12

abbrev pub chunk_size : ℕ
chunk_size = 7000

abbrev pub control_stream_id : ℕ
control_stream_id = 0xffff

abbrev pub control_reset_client : ℕ
control_reset_client = 1

abbrev pub u16_max : ℕ
u16_max = 0xffff

-- The frame that `send_data` builds for one chunk.
unfoldable pub data_frame : ℕ → ℕ → ℕ → Bytes → Bytes
data_frame client_id sid seq chunk =
    u32_to_be_bytes client_id
    ++ (u16_to_be_bytes sid
        ++ (u16_to_be_bytes (length chunk % 2 ^ 16) ++ (u32_to_be_bytes seq ++ chunk)))

-- The frame of `close_stream`: its length and sequence fields stay 0.
unfoldable pub close_frame : ℕ → ℕ → Bytes
close_frame client_id sid =
    u32_to_be_bytes client_id ++ (u16_to_be_bytes sid ++ (0 ∷ 0 ∷ 0 ∷ 0 ∷ 0 ∷ 0 ∷ []))

-- The frame of `send_client_reset`.
unfoldable pub reset_frame : ℕ → Bytes
reset_frame client_id =
    u32_to_be_bytes client_id
    ++ (u16_to_be_bytes control_stream_id
        ++ (u16_to_be_bytes u16_max ++ u32_to_be_bytes control_reset_client))

pub record ControlFrame : Type 0 where
  pub client_id : ℕ
  pub kind : ℕ

-- Called on frames of at least 12 bytes, where no slice fails.
unfoldable pub parse_control_frame : Bytes → Option ControlFrame
parse_control_frame frame =
    let sid = from_be_bytes (slice 4 6 frame) in
    let len = from_be_bytes (slice 6 8 frame) in
    if not (sid == control_stream_id) || not (len == u16_max)
    then none
    else some (record {
      client_id = from_be_bytes (slice 0 4 frame);
      kind = from_be_bytes (slice 8 12 frame);
    })

-- The header fields that `handle_frame` reads from a data frame.
pub record Header : Type 0 where
  pub client_id : ℕ
  pub sid : ℕ
  pub len : ℕ
  pub seq : ℕ

unfoldable pub parse_header : Bytes → Header
parse_header frame = record {
  client_id = from_be_bytes (slice 0 4 frame);
  sid = from_be_bytes (slice 4 6 frame);
  len = from_be_bytes (slice 6 8 frame);
  seq = from_be_bytes (slice 8 12 frame);
}

-- `data.chunks(size)`; each round takes at least one byte, so the length is enough fuel.
chunks_fuel : ℕ → ℕ → Bytes → List Bytes
chunks_fuel fuel size [] = []
chunks_fuel zero size (b ∷ bs) = []
chunks_fuel (suc fuel) size (b ∷ bs) =
    take size (b ∷ bs) ∷ chunks_fuel fuel size (drop size (b ∷ bs))

unfoldable pub chunks : ℕ → Bytes → List Bytes
unfolding chunks_fuel
chunks size bs = chunks_fuel (length bs) size bs
