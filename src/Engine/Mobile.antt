-- ===== src/Engine/Mobile.antt =====
-- src/engine.rs: `start_mobile`, `stop_mobile` and `get_mobile_status`. What the mobile plugin answers
-- is an argument; a handle is there or not.
pub mod Native
use tauri_vpn_plugin.Common.{
  ℕ, zero, suc, String, Bool, true, false, not, List, [], ◌∷◌, ◌++◌, Option, none, some, ◌≡◌, refl,
  arith, if◌then◌else◌,
}
use tauri_vpn_plugin.Errors.{
  VpnError, unsupported, already_running, not_running, engine, platform, Result, ok, err, ◌+s◌,
}
use tauri_vpn_plugin.Models.{ConnectOptions, TrafficStats, is_olc_rtc}
use tauri_vpn_plugin.Models.Json.{Value}
use tauri_vpn_plugin.Platform.{TargetOs, check_platform_requirements}
use tauri_vpn_plugin.Config.Generate.{generate_sing_box_config}
use tauri_vpn_plugin.Engine.Calls.{
  Effect, starts_native, stops_native, emits, emits_stats, SingBoxEngine, Machine, Action, lift,
  does, gets, modify, when, log, pure, raise, or_drop, ◌>>=◌, ◌>>◌, Tried, value, error, map_err,
}
use tauri_vpn_plugin.Engine.Readiness.{wait_for_system_tunnel}

-- `NativeStatusResponse`, less `last_error`, which is not read.
pub record NativeStatusResponse : Type 0 where
  pub established : Bool
  pub active_profile_id : Option String
  pub uploaded_bytes : Option ℕ
  pub downloaded_bytes : Option ℕ

-- What the mobile plugin answers to a start.
pub record MobileAnswers : Type 0 where
  pub registered : Bool
  pub token : Bool
  pub to_string : Value → Tried String
  pub native_start : Tried (Unit {0})
  pub established : List (Tried Bool)

-- `ok_or`, for a handle.
abbrev pub registered : Bool → Result (Unit {0})
registered true = ok tt
registered false = err (platform "native VPN plugin is not registered for this mobile platform")

-- The wait logs before it fails.
unfoldable pub wait_for_mobile_system_tunnel : List (Tried Bool) → Action (Unit {0})
wait_for_mobile_system_tunnel answers =
    or_drop (log "native mobile VPN tunnel did not become connected within 20 seconds") (
      lift (
        wait_for_system_tunnel
          "mobile system VPN tunnel did not become connected within 20 seconds." none answers))

unfoldable pub start_mobile : TargetOs → MobileAnswers → ConnectOptions → Action (List String)
start_mobile os a options =
    if is_olc_rtc options.profile.protocol
    then raise (
        unsupported
          "OLC RTC mobile support needs a native/Rust WebRTC adapter; Windows desktop is implemented first")
    else gets SingBoxEngine.mobile_connected >>= (λ connected.
      if connected
      then raise already_running
      else lift (check_platform_requirements os a.token) >>= (λ warnings.
        lift (generate_sing_box_config os options) >>= λ config.
        lift
          (map_err (λ text. engine ("failed to serialize config: " +s text)) (a.to_string config))
        >>= λ config_json.
            lift (registered a.registered)
            >> (does starts_native
                >> (lift (
                      map_err (λ text. platform ("native VPN start failed: " +s text))
                        a.native_start)
                    >> (wait_for_mobile_system_tunnel a.established
                        >> (modify (λ e. record e { mobile_connected = true })
                            >> (log "native mobile VPN tunnel connected" >> pure warnings)))))))

-- `stop_stats_polling` does nothing on a mobile target.
unfoldable pub stop_mobile : Bool → Tried (Unit {0}) → Action (Unit {0})
stop_mobile handle native_stop = gets SingBoxEngine.mobile_connected >>= λ connected.
    if not connected
    then raise not_running
    else lift (registered handle)
      >> (does stops_native
          >> (lift (map_err (λ text. platform ("native VPN stop failed: " +s text)) native_stop)
              >> (modify (λ e. record e { mobile_connected = false })
                  >> log "native mobile VPN stop requested")))

abbrev pub traffic : Option ℕ → Option ℕ → Action (Unit {0})
traffic (some up) (some down) = does (emits_stats up down)
traffic _ _ = pure tt

abbrev pub responded : NativeStatusResponse → Action (Bool × Option String)
responded r =
    modify (λ e. record e { mobile_connected = r.established })
    >> (when r.established (traffic r.uploaded_bytes r.downloaded_bytes)
        >> pure (r.established, r.active_profile_id))

-- The loop, with `left` attempts left from attempt `i` on, after the error of the last one.
unfoldable pub query_status :
    ℕ → ℕ → (ℕ → Tried NativeStatusResponse) → String → Action (Bool × Option String)
query_status zero i answers last =
    raise (platform ("failed to query native VPN status after retries: " +s last))
query_status (suc left) i answers last = elim (answers i) [
  | value r ↦ responded r
  | error text ↦ query_status left (suc i) answers text
]

unfoldable pub get_mobile_status :
    Bool → (ℕ → Tried NativeStatusResponse) → Action (Bool × Option String)
unfolding query_status
get_mobile_status handle answers =
    if handle then query_status 3 0 answers "" else pure (false, none)
