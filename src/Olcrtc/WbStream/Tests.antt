-- ===== src/Olcrtc/WbStream/Tests.antt =====
-- A service that takes every request, for the theorem on src/olcrtc/wbstream.rs.
use tauri_vpn_plugin.Common.{
  String, [], ◌∷◌, some, ◌≡◌, ◌≢◌, ◌⊎◌, refl, string_eq, ◌==◌, if◌then◌else◌,
}
use tauri_vpn_plugin.Olcrtc.Settings.{OlcRtcConfig, default_provider}
use tauri_vpn_plugin.Engine.Calls.{Tried, value}
use tauri_vpn_plugin.Olcrtc.WbStream.{
  Request, Response, register_request, create_request, join_request, token_request, expect_status,
  register_guest, create_room, join_room, get_token, room_token,
}
use tauri_vpn_plugin.Olcrtc.WbStream.Token.{Answers, Gives, room_token-requests}

-- It creates rooms with status 201.
abbrev service : Request → Tried Response
service request = value (record {
  status_code = if request.url == "https://stream.wb.ru/api-room/api/v2/room" then 201 else 200;
  status_text = "OK";
  text = some "";
  field = λ name. value name;
})

abbrev any_room : OlcRtcConfig
any_room = record {
  provider = default_provider;
  room_id = "any";
  key_hex = "";
  local_host = "127.0.0.1";
  local_port = 10808;
  display_name = "guest";
}

room_token-requests_example :
    (access room : String) × let register = register_request "guest" in
      let join = join_request access room in
      let ask = token_request access room "guest" in
      Gives service register (200 ∷ []) "accessToken" access
      × ((r : Response) × Answers service join (200 ∷ []) r)
      × Gives service ask (200 ∷ []) "roomToken" "roomToken"
      × (((any_room.room_id ≢ "any")
            × (room ≡ "any")
            × ((room_token service any_room).1 ≡ register ∷ join ∷ ask ∷ []))
          ⊎ ((any_room.room_id ≡ "any")
              × Gives service (create_request access) (200 ∷ 201 ∷ []) "roomId" room
              × ((room_token service any_room).1
                  ≡ register ∷ create_request access ∷ join ∷ ask ∷ [])))
unfolding room_token register_guest create_room join_room get_token expect_status
room_token-requests_example = room_token-requests service any_room "roomToken" refl
