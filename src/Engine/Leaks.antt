-- ===== src/Engine/Leaks.antt =====
-- src/engine.rs: failures that leave an OLC RTC runtime behind.
use tauri_vpn_plugin.Common.{ℕ, Bool, false, none, some, ◌≡◌, ◌∙◌, arith}
use tauri_vpn_plugin.Errors.{engine, Result, err}
use tauri_vpn_plugin.Platform.{TargetOs, is_macos}
use tauri_vpn_plugin.Engine.Calls.{Machine, ◌>>=◌, lift, does, gets, modify, pure, raise, or_drop}
use tauri_vpn_plugin.Engine.Balance.{At, After, succeeds, fails, Triple, Triple-bind}
use tauri_vpn_plugin.Engine.Rules.{raise_keeps, Triple_given, gets-At, gets_child-At}
use tauri_vpn_plugin.Engine.Fields.{stop_stats_polling}
use tauri_vpn_plugin.Engine.Stop.{StopAnswers, stop_core, stop_desktop}
use tauri_vpn_plugin.Engine.Quiet.{take_job_quiet, stop_stats_polling_quiet}
use tauri_vpn_plugin.Engine.Outcomes.{clean_quiet}
use tauri_vpn_plugin.Engine.Session.{Reach, stopped, Reach-At}

module _ (os : TargetOs) (macos : is_macos os ≡ false) where
  -- A stop where there is no process: it fails and leaves the runtime.
  stop_idle-At :
      {o : Bool} (a : StopAnswers)
      → Triple (At 0 0 none o) (stop_desktop os a) (λ _. At 0 0 none o) (λ _. At 0 0 none o)
  unfolding stop_desktop stop_core
  stop_idle-At a = Triple-bind stop_stats_polling_quiet (λ _. Triple-bind (gets-At _) (λ e.
      rw macos (
        Triple-bind gets_child-At (λ child. Triple_given (λ same. rw same (
          Triple-bind (take_job_quiet os)
            (λ _. Triple-bind (clean_quiet os a) (λ _. raise_keeps _))))))))

  timed_out :
      (w : Machine) (a : StopAnswers) (pid : ℕ)
      → w.engine.child ≡ some pid
      → a.killed ≡ none
      → ((stop_desktop os a w).0 ≡ err (engine "timed out while stopping sing-box"))
        × ((stop_desktop os a w).1.engine.child ≡ none)
        × ((stop_desktop os a w).1.engine.olcrtc ≡ w.engine.olcrtc)
  unfolding stop_desktop stop_core stop_stats_polling or_drop ◌>>=◌ lift does gets modify pure raise
  timed_out w a pid held late = ground (arith, macos, held, late)

  kept :
      {o : Bool} {x : Result (Unit {0}) × Machine}
      → After (λ _. At 0 0 none o) (λ _. At 0 0 none o) x
      → x.1.engine.olcrtc ≡ o
  kept (succeeds h) = h.holds_olcrtc
  kept (fails h) = h.holds_olcrtc

  -- Where the kill of the process times out, off macOS, the stop fails and gives up the process, but
  -- the OLC RTC runtime stays with the engine, and a further stop does not end it either.
  pub stop_timeout_leaks :
      (w : Machine) (a again : StopAnswers) (pid : ℕ)
      → Reach os w
      → w.engine.child ≡ some pid
      → a.killed ≡ none
      → ((stop_desktop os a w).0 ≡ err (engine "timed out while stopping sing-box"))
        × ((stop_desktop os a w).1.engine.child ≡ none)
        × ((stop_desktop os a w).1.engine.olcrtc ≡ w.engine.olcrtc)
        × ((stop_desktop os again (stop_desktop os a w).1).1.engine.olcrtc ≡ w.engine.olcrtc)
  stop_timeout_leaks w a again pid r held late =
      let (failed, gone, same) = timed_out w a pid held late in
      let h = rw gone at (Reach-At (stopped a r)) in
      (failed, gone, same, kept ((stop_idle-At again).runs _ h) ∙ same)
