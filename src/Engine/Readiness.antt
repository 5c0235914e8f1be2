-- ===== src/Engine/Readiness.antt =====
-- src/engine.rs, `wait_for_desktop_readiness` and the loops that wait for a system tunnel.
pub mod Ready
use tauri_vpn_plugin.Common.{
  ℕ, zero, suc, String, Bool, false, ◌||◌, List, [], ◌∷◌, Option, none, some, if◌then◌else◌,
}
use tauri_vpn_plugin.Errors.{engine, platform, Result, ok, err, ◌+s◌}
use tauri_vpn_plugin.Engine.Calls.{Tried, value, error, map_err}

-- What a round of the loop sees: whether the child has exited, and with what status; whether each
-- port takes a connection; and whether the child has exited 700 ms later.
pub record Round : Type 0 where
  pub exited : Tried (Option String)
  pub proxy_connects : Bool
  pub clash_connects : Bool
  pub exited_after : Tried (Option String)

-- `child.try_wait()` with its `map_err`
abbrev pub try_wait : Tried (Option String) → Result (Option String)
try_wait = map_err (λ text. engine ("failed to inspect sing-box process: " +s text))

abbrev pub connects : Round → Bool
connects r = r.proxy_connects || r.clash_connects

-- What a round returns, or none to go on.
abbrev pub after_connect : Round → Option (Result (Option String))
after_connect r = if connects r then some (try_wait r.exited_after) else none

abbrev inspected : Round → Result (Option String) → Option (Result (Option String))
inspected r (err e) = some (err e)
inspected r (ok (some status)) = some (ok (some status))
inspected r (ok none) = after_connect r

unfoldable pub round_result : Round → Option (Result (Option String))
round_result r = inspected r (try_wait r.exited)

-- The test after the last round.
abbrev last_result : Result (Option String) → Result (Option String)
last_result (err e) = err e
last_result (ok (some status)) = ok (some status)
last_result (ok none) = err (engine "sing-box did not open local proxy ports during startup")

-- The loop, with `left` rounds left; `rounds` gives what each round sees.
unfoldable pub readiness_loop : ℕ → ℕ → (ℕ → Round) → Tried (Option String) → Result (Option String)
readiness_loop zero i rounds last = last_result (try_wait last)
readiness_loop (suc left) i rounds last = elim (round_result (rounds i)) [
  | some r ↦ r
  | none ↦ readiness_loop left (suc i) rounds last
]

unfoldable pub wait_for_desktop_readiness :
    (ℕ → Round) → Tried (Option String) → Result (Option String)
wait_for_desktop_readiness rounds last = readiness_loop 20 0 rounds last

-- The text after the message of a timeout.
abbrev pub status_detail : Option String → String
status_detail none = ""
status_detail (some text) = " Last status error: " +s text

abbrev keep_last : Option String → Tried Bool → Option String
keep_last last (value b) = last
keep_last last (error text) = some text

abbrev is_established : Tried Bool → Bool
is_established (value b) = b
is_established (error text) = false

-- The loop of `wait_for_mobile_system_tunnel` and `wait_for_macos_system_tunnel`, over the answers
-- of the queries that begin before the timeout.
unfoldable pub wait_for_system_tunnel :
    String → Option String → List (Tried Bool) → Result (Unit {0})
wait_for_system_tunnel message last [] = err (platform (message +s status_detail last))
wait_for_system_tunnel message last (answer ∷ answers) =
    let rest = wait_for_system_tunnel message (keep_last last answer) answers in
    if is_established answer then ok tt else rest
