-- ===== src/Olcrtc/WbStream/Connect.antt =====
-- src/olcrtc/wbstream.rs, `connect` and the two tasks that it spawns. LiveKit is a parameter: what joining
-- the room gives, the events that come, and what publishing a packet does to the room.
use tauri_vpn_plugin.Common.{
  String, Bool, true, false, List, [], ◌∷◌, Option, none, some, string_eq, if◌then◌else◌, ◌==◌,
}
use tauri_vpn_plugin.Common.Bytes.{Bytes}
use tauri_vpn_plugin.Errors.{engine, ok, ◌+s◌}
use tauri_vpn_plugin.Olcrtc.Settings.{OlcRtcConfig}
use tauri_vpn_plugin.Olcrtc.WbStream.{
  Calls, and_then, Request, Response, room_token, WbStreamPeer, new_peer,
}
use tauri_vpn_plugin.Engine.Calls.{Tried, map_err}

abbrev pub data_topic : String
data_topic = "olcrtc"

-- The events of a room; `other_event` is any that the loop passes over.
pub data RoomEvent : Type 0 where
  data_received : Bytes → Option String → RoomEvent
  disconnected : RoomEvent
  other_event : RoomEvent

abbrev pub has_topic : Option String → Bool
has_topic none = false
has_topic (some topic) = topic == data_topic

-- The task over `events`: the payloads that it puts into the channel, in order.
unfoldable pub received : List RoomEvent → List Bytes
received [] = []
received (data_received payload topic ∷ events) =
    let rest = received events in if has_topic topic then payload ∷ rest else rest
received (disconnected ∷ events) = []
received (other_event ∷ events) = received events

pub record DataPacket : Type 0 where
  pub payload : Bytes
  pub topic : Option String
  pub reliable : Bool
  pub destination_identities : List String

abbrev pub data_packet : Bytes → DataPacket
data_packet payload = record {
  payload = payload;
  topic = some data_topic;
  reliable = true;
  destination_identities = [];
}

-- The task over the queue of payloads: it publishes each, and ends when one is refused.
unfoldable pub publish_queued : {R : Type 0} → (DataPacket → R → Bool × R) → List Bytes → R → R
publish_queued publish_data [] room = room
publish_queued publish_data (payload ∷ payloads) room =
    let (published, room') = publish_data (data_packet payload) room in
    let rest = publish_queued publish_data payloads room' in if published then rest else room'

unfoldable pub connect :
    (Request → Tried Response) → (String → Tried (Unit {0})) → OlcRtcConfig → Calls WbStreamPeer
connect service room_connect config = and_then (room_token service config) (λ token.
    and_then
      (
        map_err (λ text. engine ("WB Stream LiveKit connect failed: " +s text))
            (room_connect token),
        [],
      )
      (λ joined. (ok new_peer, [])))
