-- ===== src/Olcrtc/Mux/Dispatch.antt =====
-- src/olcrtc/mux.rs, `handle_frame`: a frame does nothing, or is one of three operations.
use tauri_vpn_plugin.Common.{
  ℕ, ◌+◌, List, [], length, nat_eq, Bool-cases, Option-cases, inl, inr, ltb, ◌==◌,
}
use tauri_vpn_plugin.Common.Bytes.{Bytes}
use tauri_vpn_plugin.Olcrtc.Frame.{
  parse_control_frame, parse_header, header_size, control_reset_client,
}
use tauri_vpn_plugin.Olcrtc.Stream.{Notify}
use tauri_vpn_plugin.Olcrtc.Mux.{
  Multiplexer, mark_closed, reset_client, receive, handle_data, handle_frame,
}

module _ {ℓ} (P : Multiplexer × List Notify → Type ℓ) (frame : Bytes) (m : Multiplexer)
    (ignored : P (m, [])) where
  handle_data_cases :
      P (mark_closed (parse_header frame).sid (parse_header frame).client_id m)
      → ((payload : Bytes)
          → P (
              receive
                (parse_header frame).client_id
                (parse_header frame).sid
                (parse_header frame).seq
                payload
                m))
      → P (handle_data (parse_header frame) frame m)
  handle_data_cases closes receives = elim (Bool-cases ((parse_header frame).len == 0)) [
    | inl e ↦ rw e closes
    | inr e ↦
        rw e (elim (Bool-cases (ltb (length frame) (header_size + (parse_header frame).len))) [
          | inl short ↦ rw short ignored
          | inr long ↦ rw long (receives _)
        ])
  ]

  pub handle_frame_cases :
      ((client_id : ℕ) → P (reset_client client_id m))
      → P (mark_closed (parse_header frame).sid (parse_header frame).client_id m)
      → ((payload : Bytes)
          → P (
              receive
                (parse_header frame).client_id
                (parse_header frame).sid
                (parse_header frame).seq
                payload
                m))
      → P (handle_frame frame m)
  unfolding handle_frame
  handle_frame_cases resets closes receives = elim (Bool-cases (ltb (length frame) header_size)) [
    | inl short ↦ rw (short, handle_frame) ignored
    | inr long ↦
        rw (long, handle_frame)
          (elim (Option-cases (parse_control_frame frame)) [
            | inl data_ ↦ rw (data_, handle_frame) (handle_data_cases closes receives)
            | inr (c, e) ↦
                rw (e, handle_frame)
                  (elim (Bool-cases (c.kind == control_reset_client)) [
                    | inl reset ↦ rw reset (resets c.client_id)
                    | inr other ↦ rw other ignored
                  ])
          ])
  ]
