-- ===== src/Engine/Mobile/Native.antt =====
-- src/engine.rs: what the mobile calls make of the answers of the mobile plugin.
use tauri_vpn_plugin.Common.{
  ℕ, zero, suc, ◌+◌, ◌<◌, String, Bool, true, false, List, Option, none, some, ◌≡◌, refl, ap, arith,
}
use tauri_vpn_plugin.Errors.{VpnError, not_running, Result, ok, err}
use tauri_vpn_plugin.Models.{ConnectOptions, is_olc_rtc}
use tauri_vpn_plugin.Platform.{TargetOs}
use tauri_vpn_plugin.Engine.Calls.{
  Effect, starts_native, SingBoxEngine, Machine, Tried, value, error, does, gets, raise, log,
  modify, pure, ◌>>=◌,
}
use tauri_vpn_plugin.Engine.Balance.{After, succeeds, fails, Triple, Triple-bind}
use tauri_vpn_plugin.Engine.Rules.{
  lift_keeps, pure_keeps, pure_gives, raise_keeps, Triple-if, Triple-or_drop,
}
use tauri_vpn_plugin.Engine.Mobile.{
  NativeStatusResponse, MobileAnswers, wait_for_mobile_system_tunnel, start_mobile, stop_mobile,
  traffic, responded, query_status, get_mobile_status,
}

abbrev IsIdle : Machine → Type 0
IsIdle w = w.engine.mobile_connected ≡ false

does-IsIdle : (x : Effect) → Triple IsIdle (does x) (λ _. IsIdle) (λ _. IsIdle)
unfolding does
does-IsIdle x = record { runs = λ w h. succeeds h }

gets-IsIdle :
    {A : Type 0} (f : SingBoxEngine → A) → Triple IsIdle (gets f) (λ _. IsIdle) (λ _. IsIdle)
unfolding gets
gets-IsIdle f = record { runs = λ w h. succeeds h }

wait-IsIdle :
    (answers : List (Tried Bool))
    → Triple IsIdle (wait_for_mobile_system_tunnel answers) (λ _. IsIdle) (λ _. IsIdle)
unfolding wait_for_mobile_system_tunnel
wait-IsIdle answers = Triple-or_drop (lift_keeps _) (λ e. does-IsIdle _)

-- From the store of the flag on, nothing fails.
connected_total :
    {P : Machine → Type 0} (f : SingBoxEngine → SingBoxEngine) (text : String)
    (warnings : List String)
    → Triple P
        (modify f >>= λ _. log text >>= λ _. pure warnings)
        (λ _ w. true ≡ true)
        (λ _. IsIdle)
unfolding modify does pure ◌>>=◌
connected_total f text warnings = record { runs = λ w h. succeeds refl }

start_mobile-IsIdle :
    (os : TargetOs) (a : MobileAnswers) (options : ConnectOptions)
    → Triple IsIdle (start_mobile os a options) (λ _ w. true ≡ true) (λ _. IsIdle)
unfolding start_mobile
start_mobile-IsIdle os a options = Triple-if (is_olc_rtc options.profile.protocol) (raise_keeps _) (
    Triple-bind (gets-IsIdle _) (λ connected. Triple-if connected (raise_keeps _) (
      Triple-bind (lift_keeps _) (λ warnings. Triple-bind (lift_keeps _) (λ config.
        Triple-bind (lift_keeps _) (λ text. Triple-bind (lift_keeps _) (λ _.
          Triple-bind (does-IsIdle starts_native) (λ _. Triple-bind (lift_keeps _) (λ _.
            Triple-bind (wait-IsIdle a.established) (λ _. connected_total _ _ warnings))))))))))

After-IsIdle :
    {x : Result (List String) × Machine} {e : VpnError} {w : Machine}
    → After (λ _ w. true ≡ true) (λ _. IsIdle) x
    → x ≡ (err e, w)
    → IsIdle w
After-IsIdle (succeeds q) same = cc same
After-IsIdle (fails h) same = cc (h, same)

-- Where the engine did not count as connected before it, after a mobile start that failed, at whatever
-- point, a stop is refused and asks nothing of the native service.
pub start_mobile_fails :
    (os : TargetOs) (a : MobileAnswers) (options : ConnectOptions) (w w' : Machine) (e : VpnError)
    (handle : Bool) (answer : Tried (Unit {0}))
    → w.engine.mobile_connected ≡ false
    → start_mobile os a options w ≡ (err e, w')
    → stop_mobile handle answer w' ≡ (err not_running, w')
unfolding stop_mobile gets raise ◌>>=◌
start_mobile_fails os a options w w' e handle answer idle failed =
    rw (After-IsIdle ((start_mobile-IsIdle os a options).runs w idle) failed) refl

-- An answer, at an equal index.
answer_at : {T : Type 0} (answers : ℕ → T) (t : T) (i j : ℕ) → i ≡ j → answers i ≡ t → answers j ≡ t
answer_at answers t i j same h = cc (same, h)

-- What a query returns, and what it stores.
abbrev IsReported : NativeStatusResponse → Bool × Option String → Machine → Type 0
IsReported r x w =
    (x ≡ (r.established, r.active_profile_id)) × (w.engine.mobile_connected ≡ r.established)

module _ {E : VpnError → Machine → Type 0} where
  traffic_keeps :
      (P : SingBoxEngine → Type 0) (up down : Option ℕ)
      → Triple (λ w. P w.engine) (traffic up down) (λ _ w. P w.engine) E
  unfolding does pure
  traffic_keeps P none down = record { runs = λ w h. succeeds h }
  traffic_keeps P (some up) none = record { runs = λ w h. succeeds h }
  traffic_keeps P (some up) (some down) = record { runs = λ w h. succeeds h }

  responded-IsReported :
      {P : Machine → Type 0} (r : NativeStatusResponse) → Triple P (responded r) (IsReported r) E
  unfolding modify
  responded-IsReported r =
      Triple-bind {Q = λ _ w. w.engine.mobile_connected ≡ r.established}
        (record { runs = λ w h. succeeds refl })
        (λ _.
          Triple-bind
            (Triple-if r.established
              (traffic_keeps (λ e. e.mobile_connected ≡ r.established) r.uploaded_bytes
                r.downloaded_bytes)
              (pure_keeps tt))
            (λ _. pure_gives _ (λ w h. (refl, h))))

  query_status-IsReported :
      {P : Machine → Type 0} (left i : ℕ) (answers : ℕ → Tried NativeStatusResponse) (last : String)
      (r : NativeStatusResponse) (j : ℕ)
      → j < left
      → answers (i + j) ≡ value r
      → ((m : ℕ) → m < j → (text : String) × (answers (i + m) ≡ error text))
      → Triple P (query_status left i answers last) (IsReported r) E
  unfolding query_status
  query_status-IsReported zero i answers last r j small h before = ground (arith, small)
  query_status-IsReported (suc left) i answers last r zero small h before =
      rw (answer_at answers (value r) (i + zero) i (omega arith) h, query_status)
        (responded-IsReported r)
  query_status-IsReported (suc left) i answers last r (suc j) small h before =
      let (text, first) = before zero (omega arith) in
      rw (answer_at answers (error text) (i + zero) i (omega arith) first, query_status)
        (query_status-IsReported left (suc i) answers text r j (omega (arith, small))
          (answer_at answers (value r) (i + suc j) (suc i + j) (omega arith) h)
          (λ m near.
            let (t, e) = before (suc m) (omega (arith, near)) in
            (t, answer_at answers (error t) (i + suc m) (suc i + m) (omega arith) e)))

reported :
    (r : NativeStatusResponse) {x : Result (Bool × Option String) × Machine}
    → After (IsReported r) (λ _ _. true ≡ false) x
    → (x.0 ≡ ok (r.established, r.active_profile_id))
      × (x.1.engine.mobile_connected ≡ r.established)
reported r (succeeds (same, h)) = (ap ok same, h)
reported r (fails h) = cc h

-- The status that the native service gives, of which up to three answers are asked: the first answer
-- that is no error is returned and says from then on whether the engine is connected.
pub get_mobile_status-first :
    (answers : ℕ → Tried NativeStatusResponse) (w : Machine) (r : NativeStatusResponse) (j : ℕ)
    → j < 3
    → answers j ≡ value r
    → ((i : ℕ) → i < j → (text : String) × (answers i ≡ error text))
    → ((get_mobile_status true answers w).0 ≡ ok (r.established, r.active_profile_id))
      × ((get_mobile_status true answers w).1.engine.mobile_connected ≡ r.established)
unfolding get_mobile_status
get_mobile_status-first answers w r j small answered earlier = reported r (
    (query_status-IsReported {P = λ _. true ≡ true} 3 0 answers "" r j small
        (answer_at answers (value r) j (0 + j) (omega arith) answered)
        (λ m h.
          let (t, e) = earlier m h in
          (t, answer_at answers (error t) m (0 + m) (omega arith) e))).runs
      w refl)
