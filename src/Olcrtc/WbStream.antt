-- ===== src/Olcrtc/WbStream.antt =====
-- src/olcrtc/wbstream.rs: the requests that get the token of a room, and the peer. What the HTTP service
-- answers to a request and what LiveKit does are parameters. `connect` and its tasks are in
-- WbStream/Connect.
pub mod Token
pub mod Connect
pub mod Waiting
mod Tests
use tauri_vpn_plugin.Common.{
  ℕ, ◌+◌, String, Bool, true, false, List, [], ◌∷◌, ◌++◌, any, Option, none, some, ◌==◌, nat_eq,
  string_eq, if◌then◌else◌,
}
use tauri_vpn_plugin.Common.Bytes.{Bytes}
use tauri_vpn_plugin.Common.Dict.{Dict}
use tauri_vpn_plugin.Errors.{VpnError, engine, Result, ok, err, ◌+s◌}
use tauri_vpn_plugin.Models.Json.{Value, string, obj}
use tauri_vpn_plugin.Olcrtc.Settings.{OlcRtcConfig}
use tauri_vpn_plugin.Engine.Calls.{Tried, value, error, map_err}

abbrev pub api_base : String
api_base = "https://stream.wb.ru"

pub data Method : Type 0 where
  method_get method_post : Method

-- A request, less the header User-Agent, which is the same in each.
pub record Request : Type 0 where
  pub method : Method
  pub url : String
  pub bearer_auth : Option String
  pub json : Option Value
  pub query : Dict String String

-- A response: its status with the status's text, what `text()` gives, and what decoding it gives for the
-- one field that is read.
pub record Response : Type 0 where
  pub status_code : ℕ
  pub status_text : String
  pub text : Option String
  pub field : String → Tried String

-- A computation that sends requests: its result and the requests that it sent, in order.
abbrev pub Calls : Type 0 → Type 0
Calls A = Result A × List Request

abbrev pub after : {A : Type 0} → List Request → Calls A → Calls A
after sent (r, requests) = (r, sent ++ requests)

-- `.await?`, then what follows.
abbrev pub and_then : {A B : Type 0} → Calls A → (A → Calls B) → Calls B
and_then (err e, sent) next = (err e, sent)
and_then (ok a, sent) next = after sent (next a)

abbrev or_empty : Option String → String
or_empty none = ""
or_empty (some text) = text

unfoldable pub expect_status : Response → List ℕ → String → Result Response
expect_status response expected operation =
    if any (λ status. status == response.status_code) expected
    then ok response
    else err (
        engine (
          operation
          +s (" failed with " +s (response.status_text +s (": " +s or_empty response.text)))))

abbrev pub register_request : String → Request
register_request display_name = record {
  method = method_post;
  url = api_base +s "/auth/api/v1/auth/user/guest-register";
  bearer_auth = none;
  json = some (
      obj (
        ("displayName", string display_name)
        ∷ (
          "device",
          obj (
              ("deviceName", string "Windows")
              ∷ ("deviceType", string "PARTICIPANT_DEVICE_TYPE_WEB_DESKTOP")
              ∷ []),
        )
        ∷ []));
  query = [];
}

abbrev pub create_request : String → Request
create_request access_token = record {
  method = method_post;
  url = api_base +s "/api-room/api/v2/room";
  bearer_auth = some access_token;
  json = some (
      obj (
        ("roomType", string "ROOM_TYPE_ALL_ON_SCREEN")
        ∷ ("roomPrivacy", string "ROOM_PRIVACY_FREE")
        ∷ []));
  query = [];
}

abbrev pub join_request : String → String → Request
join_request access_token room_id = record {
  method = method_post;
  url = api_base +s ("/api-room/api/v1/room/" +s (room_id +s "/join"));
  bearer_auth = some access_token;
  json = some (obj []);
  query = [];
}

abbrev pub token_request : String → String → String → Request
token_request access_token room_id display_name = record {
  method = method_get;
  url = api_base +s ("/api-room-manager/api/v1/room/" +s (room_id +s "/token"));
  bearer_auth = some access_token;
  json = none;
  query =
      ("deviceType", "PARTICIPANT_DEVICE_TYPE_WEB_DESKTOP") ∷ ("displayName", display_name) ∷ [];
}

module _ (service : Request → Tried Response) where
  -- The part that the calls share: send, then expect a status.
  abbrev pub sent : String → List ℕ → Request → Result Response
  sent operation expected request = checked (service request)
    where
      checked : Tried Response → Result Response
      checked (error text) = err (engine (operation +s (" failed: " +s text)))
      checked (value response) = expect_status response expected operation

  abbrev pub decoded : String → String → Result Response → Result String
  decoded operation name (err e) = err e
  decoded operation name (ok response) =
      map_err (λ text. engine (operation +s (" decode failed: " +s text))) (response.field name)

  unfoldable pub register_guest : String → Calls String
  unfolding expect_status
  register_guest display_name =
      let request = register_request display_name in
      (
        decoded "WB Stream guest register" "accessToken"
            (sent "WB Stream guest register" (200 ∷ []) request),
        request ∷ [],
      )

  unfoldable pub create_room : String → Calls String
  unfolding expect_status
  create_room access_token =
      let request = create_request access_token in
      (
        decoded "WB Stream create room" "roomId"
            (sent "WB Stream create room" (200 ∷ 201 ∷ []) request),
        request ∷ [],
      )

  abbrev joined : Result Response → Result (Unit {0})
  joined (err e) = err e
  joined (ok response) = ok tt

  unfoldable pub join_room : String → String → Calls (Unit {0})
  unfolding expect_status
  join_room access_token room_id =
      let request = join_request access_token room_id in
      (joined (sent "WB Stream join room" (200 ∷ []) request), request ∷ [])

  unfoldable pub get_token : String → String → String → Calls String
  unfolding expect_status
  get_token access_token room_id display_name =
      let request = token_request access_token room_id display_name in
      (
        decoded "WB Stream room token" "roomToken" (sent "WB Stream room token" (200 ∷ []) request),
        request ∷ [],
      )

  unfoldable pub room_token : OlcRtcConfig → Calls String
  room_token config = and_then (register_guest config.display_name) (λ access_token.
      and_then
        (if config.room_id == "any" then create_room access_token else (ok config.room_id, []))
        (λ room_id.
          and_then (join_room access_token room_id)
            (λ joined. get_token access_token room_id config.display_name)))

-- `WbStreamPeer`: whether it was closed, and how often the room was. The queue is a parameter.
pub record WbStreamPeer : Type 0 where
  pub closed : Bool
  pub room_closes : ℕ

abbrev pub new_peer : WbStreamPeer
new_peer = record { closed = false; room_closes = 0 }

-- What a call of `send` does before it waits: it reads the flag once.
unfoldable pub check_open : WbStreamPeer → Result (Unit {0})
check_open peer = if peer.closed then err (engine "WB Stream peer is closed") else ok tt

module _ {Q : Type 0} (queue : Bytes → Q → Bool × Q) where
  abbrev queued : Bool × Q → Result (Unit {0}) × Q
  queued (true, q) = (ok tt, q)
  queued (false, q) = (err (engine "WB Stream send queue is closed"), q)

  -- `send_tx.send(…).await`, at its end: the flag is not read again, whatever happened during the wait.
  unfoldable pub enqueue : Bytes → Q → Result (Unit {0}) × Q
  enqueue payload q = queued (queue payload q)

  -- A call from its start to its end: `peer` is the peer at its start, and `q` the queue at its end. What
  -- other tasks do between the two is in WbStream/Waiting.
  unfoldable pub send : Bytes → WbStreamPeer → Q → Result (Unit {0}) × Q
  unfolding check_open enqueue
  send payload peer q = elim (check_open peer) [ ok u ↦ enqueue payload q | err e ↦ (err e, q) ]

-- `closed.swap(true, …)`, then the room is closed if it was not.
unfoldable pub close : WbStreamPeer → WbStreamPeer
close peer =
    if peer.closed then peer else record { closed = true; room_closes = peer.room_closes + 1 }
