-- ===== src/Olcrtc/WbStream/Token.antt =====
-- src/olcrtc/wbstream.rs: the requests behind a token, and a peer that was closed.
use tauri_vpn_plugin.Common.{
  ℕ, List, any, String, Bool, true, false, [], ◌∷◌, ◌++◌, ◌≡◌, ◌≢◌, ◌⊎◌, refl, inl, inr, arith,
  ◌==◌, string_eq, nat_eq, Bool-cases, sym, ap, subst, ◌∙◌, nat_beq_iff, if◌then◌else◌,
}
use text.Mathlib.TextEquality.{eq_iff}
use tauri_vpn_plugin.Common.Bytes.{Bytes}
use tauri_vpn_plugin.Errors.{VpnError, Result-cases, engine, Result, ok, err}
use tauri_vpn_plugin.Olcrtc.Settings.{OlcRtcConfig}
use tauri_vpn_plugin.Engine.Calls.{Tried, value, Tried-cases, map_err-eq-ok}
use tauri_vpn_plugin.Olcrtc.WbStream.{
  Request, Response, Calls, expect_status, sent, decoded, and_then, register_request,
  create_request, join_request, token_request, register_guest, create_room, join_room, get_token,
  room_token, WbStreamPeer, send, close,
}

abbrev pub IsOneOf : ℕ → List ℕ → Type 0
IsOneOf n [] = ⊥
IsOneOf n (m ∷ ms) = (n ≡ m) ⊎ IsOneOf n ms

-- What a service answers to a request, with one of the given statuses.
abbrev pub Answers : (Request → Tried Response) → Request → List ℕ → Response → Type 0
Answers service request expected response =
    (service request ≡ value response) × IsOneOf response.status_code expected

-- A field of that answer decodes to a text.
abbrev pub Gives : (Request → Tried Response) → Request → List ℕ → String → String → Type 0
Gives service request expected name text =
    (response : Response) × Answers service request expected response
    × (response.field name ≡ value text)

any-IsOneOf : (n : ℕ) (ms : List ℕ) → any (λ status. status == n) ms ≡ true → IsOneOf n ms
any-IsOneOf n [] h = cc h
any-IsOneOf n (m ∷ ms) h = elim (Bool-cases (m == n)) [
  | inl e ↦ inl (sym ((nat_beq_iff m n).0 e))
  | inr e ↦ inr (any-IsOneOf n ms (rw e at h))
]

ok_eq : {A : Type 0} {a b : A} → ok a ≡ ok b → a ≡ b
ok_eq e = cc e

err_ne : {A : Type 0} {x : VpnError} {a : A} → ◌≢◌ {A = Result A} (err x) (ok a)
err_ne e = cc e

expect_status-eq-ok :
    (r r' : Response) (expected : List ℕ) (operation : String)
    → expect_status r expected operation ≡ ok r'
    → (r ≡ r') × IsOneOf r.status_code expected
unfolding expect_status
expect_status-eq-ok r r' expected operation h =
    elim (Bool-cases (any (λ status. status == r.status_code) expected)) [
      | inl e ↦ (ok_eq (rw e at h), any-IsOneOf r.status_code expected e)
      | inr e ↦ absurd (err_ne (rw e at h))
    ]

module _ (service : Request → Tried Response) where
  sent-Answers :
      (operation : String) (expected : List ℕ) (request : Request) (r : Response)
      → sent service operation expected request ≡ ok r
      → Answers service request expected r
  sent-Answers operation expected request r h = elim (Tried-cases (service request)) [
    | inl (response, e) ↦
        let (same, accepted) = expect_status-eq-ok response r expected operation (rw e at h) in
        (e ∙ ap value same, subst (λ response. IsOneOf response.status_code expected) same accepted)
    | inr (text, e) ↦ absurd (err_ne (rw e at h))
  ]

  decoded-Gives :
      (operation name : String) (expected : List ℕ) (request : Request) (text : String)
      → decoded service operation name (sent service operation expected request) ≡ ok text
      → Gives service request expected name text
  decoded-Gives operation name expected request text h =
      elim (Result-cases (sent service operation expected request)) [
        | inl (r, e) ↦ (
          r,
          sent-Answers operation expected request r e,
          map_err-eq-ok _ (r.field name) text (rw e at h),
        )
        | inr (x, e) ↦ absurd (err_ne (rw e at h))
      ]

and_then-eq-ok :
    {A B : Type 0} (m : Calls A) (next : A → Calls B) (b : B)
    → (and_then m next).0 ≡ ok b
    → (a : A) × (m.0 ≡ ok a) × ((next a).0 ≡ ok b) × ((and_then m next).1 ≡ m.1 ++ (next a).1)
and_then-eq-ok (err e, sent) next b h = cc h
and_then-eq-ok (ok a, sent) next b h = (a, refl, h, refl)

true_ne : ◌≢◌ {A = Bool} true false
true_ne e = cc e

module _ (service : Request → Tried Response) where
  -- The room to join, with the requests that give it.
  abbrev room_of : Bool → String → String → Calls String
  room_of b access name = if b then create_room service access else (ok name, [])

  created :
      (b : Bool) (access name room : String)
      → b ≡ true
      → (room_of b access name).0 ≡ ok room
      → Gives service (create_request access) (200 ∷ 201 ∷ []) "roomId" room
        × ((room_of b access name).1 ≡ create_request access ∷ [])
  unfolding create_room
  created true access name room e h = (
    decoded-Gives service "WB Stream create room" "roomId" (200 ∷ 201 ∷ []) (create_request access)
        room h,
    refl,
  )
  created false access name room e h = cc e

  kept :
      (b : Bool) (access name room : String)
      → b ≡ false
      → (room_of b access name).0 ≡ ok room
      → (room ≡ name) × ((room_of b access name).1 ≡ [])
  kept true access name room e h = elim (true_ne e) [ ]
  kept false access name room e h = (cc h, refl)

  join_room-Answers :
      (access room : String) (u : Unit {0})
      → (join_room service access room).0 ≡ ok u
      → (r : Response) × Answers service (join_request access room) (200 ∷ []) r
  unfolding join_room
  join_room-Answers access room u h =
      elim (Result-cases
        (sent service "WB Stream join room" (200 ∷ []) (join_request access room))) [
          | inl (r, e) ↦ (
            r,
            sent-Answers service "WB Stream join room" (200 ∷ []) (join_request access room) r e,
          )
          | inr (x, e) ↦ absurd (err_ne (rw e at h))
        ]

  -- Where a token is got, exactly these requests were sent, in this order: the guest is registered, and the
  -- answer, of status 200, gives the access token that each further request carries; only if the settings
  -- name the room "any" is a room created, and the answer, of status 200 or 201, gives its id, else the room
  -- is the one of the settings; that room is joined, with an answer of status 200; and its token is asked
  -- for, which is the one that the answer, of status 200, gives.
  pub room_token-requests :
      (config : OlcRtcConfig) (token : String)
      → (room_token service config).0 ≡ ok token
      → (access room : String) × let register = register_request config.display_name in
          let join = join_request access room in
          let ask = token_request access room config.display_name in
          Gives service register (200 ∷ []) "accessToken" access
          × ((r : Response) × Answers service join (200 ∷ []) r)
          × Gives service ask (200 ∷ []) "roomToken" token
          × (((config.room_id ≢ "any")
                × (room ≡ config.room_id)
                × ((room_token service config).1 ≡ register ∷ join ∷ ask ∷ []))
              ⊎ ((config.room_id ≡ "any")
                  × Gives service (create_request access) (200 ∷ 201 ∷ []) "roomId" room
                  × ((room_token service config).1
                      ≡ register ∷ create_request access ∷ join ∷ ask ∷ [])))
  unfolding room_token register_guest join_room get_token
  room_token-requests config token h =
      let any_room = config.room_id == "any" in
      let (access, a, h₁, r₁) =
        and_then-eq-ok (register_guest service config.display_name) _ token h in
      let (room, b, h₂, r₂) = and_then-eq-ok (room_of any_room access config.room_id) _ token h₁ in
      let (u, d, h₃, r₃) = and_then-eq-ok (join_room service access room) _ token h₂ in
      (
        access,
        room,
        (
          decoded-Gives service "WB Stream guest register" "accessToken" (200 ∷ [])
              (register_request config.display_name) access a,
          join_room-Answers access room u d,
          decoded-Gives service "WB Stream room token" "roomToken" (200 ∷ [])
              (token_request access room config.display_name) token h₃,
          elim (Bool-cases any_room) [
            | inl e ↦
                let (gives, asked) = created any_room access config.room_id room e b in
                inr ((eq_iff config.room_id "any").0 e, gives, cc (r₁, r₂, r₃, asked))
            | inr e ↦
                let (named, none_sent) = kept any_room access config.room_id room e b in
                inl (
                  ground (arith, eq_iff config.room_id "any", e),
                  named,
                  cc (r₁, r₂, r₃, none_sent),
                )
          ],
        ),
      )

-- A peer that was closed takes no data, and closing it again closes no room.
pub close-send :
    {Q : Type 0} (queue : Bytes → Q → Bool × Q) (payload : Bytes) (peer : WbStreamPeer) (q : Q)
    → (send queue payload (close peer) q ≡ (err (engine "WB Stream peer is closed"), q))
      × (close (close peer) ≡ close peer)
unfolding send close
close-send queue payload peer q = elim (Bool-cases peer.closed) [
  | inl e ↦ rw (e, close) (refl, refl)
  | inr e ↦ rw (e, close) (refl, refl)
]
