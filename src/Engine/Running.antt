-- ===== src/Engine/Running.antt =====
-- src/engine.rs: the calls that start and end the child and the runtime of OLC RTC.
use tauri_vpn_plugin.Common.{
  ℕ, String, Bool, true, false, List, Option, none, some, ◌≡◌, refl, sym, arith,
}
use tauri_vpn_plugin.Errors.{VpnError, Result, ok, err}
use tauri_vpn_plugin.Models.{ConnectOptions, is_olc_rtc}
use tauri_vpn_plugin.Platform.{TargetOs}
use tauri_vpn_plugin.Engine.Calls.{
  olcrtc_starts, olcrtc_stops, olcrtc_drops, spawns, drops_child, starts_profile, stops_profile,
  Machine, Tried, value, error,
}
use tauri_vpn_plugin.Engine.Balance.{At, Triple, Triple-bind, one_if}
use tauri_vpn_plugin.Engine.Rules.{
  lift_keeps, pure_keeps, pure_gives, raise_keeps, Triple-ignore, Triple-if_given, Triple_given,
  Triple-or_drop, Triple-weaken, does-At, modify-At, gets_olcrtc-At,
}
use tauri_vpn_plugin.Engine.Fields.{stop_runtime, drop_runtime, set_olcrtc, take_olcrtc}
use tauri_vpn_plugin.Engine.Desktop.{
  StartAnswers, start_olcrtc, readied, spawned, run_core, connected, profile_started, start_profile,
}
use tauri_vpn_plugin.Engine.Quiet.{
  cleanup_desktop_artifacts_quiet, take_job_quiet, attach_job_quiet, start_stats_polling_quiet,
  log_quiet,
}

module _ {k : ℕ} {c : Option ℕ} {o : Bool} {E : VpnError → Machine → Type 0} where
  pub stop_runtime-At :
      (r : Bool) → Triple (At (one_if r) k c o) (stop_runtime r) (λ _. At 0 k c o) E
  stop_runtime-At true = does-At olcrtc_stops refl refl
  stop_runtime-At false = pure_keeps tt

  pub drop_runtime-At :
      (r : Bool) → Triple (At (one_if r) k c o) (drop_runtime r) (λ _. At 0 k c o) E
  drop_runtime-At true = does-At olcrtc_drops refl refl
  drop_runtime-At false = pure_keeps tt

module _ {k : ℕ} {c : Option ℕ} {o : Bool} {E : VpnError → Machine → Type 0} where
  pub set_olcrtc-At : (r : Bool) → Triple (At (one_if r) k c o) (set_olcrtc r) (λ _. At 0 k c r) E
  unfolding set_olcrtc
  set_olcrtc-At r = Triple-bind gets_olcrtc-At (λ old. Triple_given (λ same.
      Triple-bind (modify-At {n' = one_if o} _ (λ e h g. (h, refl)) (omega arith) refl)
        (λ _. rw same (drop_runtime-At o))))

  pub take_olcrtc-At : Triple (At 0 k c o) take_olcrtc (λ _. At 0 k c false) E
  unfolding take_olcrtc
  take_olcrtc-At = Triple-bind gets_olcrtc-At (λ old. Triple_given (λ same.
      Triple-bind (modify-At {n' = one_if o} _ (λ e h g. (h, refl)) (omega arith) refl)
        (λ _. rw same (stop_runtime-At o))))

module _ {o : Bool} (a : StartAnswers) where
  pub start_olcrtc-At :
      (options : ConnectOptions)
      → Triple
          (At 0 0 none o)
          (start_olcrtc a options)
          (λ r w. (r ≡ is_olc_rtc options.profile.protocol) × At (one_if r) 0 none o w)
          (λ _. At 0 0 none o)
  unfolding start_olcrtc
  start_olcrtc-At options =
      Triple-if_given (is_olc_rtc options.profile.protocol)
        (λ e. Triple-bind (lift_keeps _) (λ config. Triple-bind (lift_keeps a.olcrtc_start) (λ _.
          Triple-bind (does-At {n' = 1} {k' = 0} olcrtc_starts refl refl)
            (λ _. Triple-bind (log_quiet _) (λ _. pure_gives true (λ w h. (sym e, h)))))))
        (λ e. pure_gives false (λ w h. (sym e, h)))

  module _ (os : TargetOs) (r : Bool) (warnings : List String) (config_path : String) where
    readied-At :
        (pid : ℕ) (result : Result (Option String))
        → Triple
            (At (one_if r) 1 none o)
            (readied os a r warnings config_path pid result)
            (λ _. At 0 0 (some pid) r)
            (λ _. At 0 0 none o)
    readied-At pid (err e) =
        Triple-bind (does-At (drops_child pid) refl refl)
          (λ _. Triple-bind (drop_runtime-At r) (λ _. raise_keeps e))
    readied-At pid (ok (some status)) = Triple-bind (stop_runtime-At r) (λ _.
        Triple-bind (take_job_quiet os) (λ _.
          Triple-bind
            (Triple-ignore (cleanup_desktop_artifacts_quiet os a.cleanup_after config_path))
            (λ _. Triple-bind (does-At (drops_child pid) refl refl) (λ _. raise_keeps _))))
    readied-At pid (ok none) = Triple-bind (modify-At _ (λ e h g. (refl, g)) refl refl) (λ _.
        Triple-bind (set_olcrtc-At r) (λ _.
          Triple-bind start_stats_polling_quiet
            (λ _. Triple-bind (log_quiet _) (λ _. pure_keeps warnings))))

    spawned-At :
        (binary : String) (child : Tried ℕ)
        → Triple
            (At (one_if r) 0 none o)
            (spawned os a r warnings config_path binary child)
            (λ _ w. (pid : ℕ) × At 0 0 (some pid) r w)
            (λ _. At 0 0 none o)
    spawned-At binary (error text) = Triple-bind (stop_runtime-At r) (λ _. raise_keeps _)
    spawned-At binary (value pid) =
        Triple-bind (does-At {n' = one_if r} {k' = 1} (spawns pid) refl refl) (λ _.
          Triple-bind (attach_job_quiet os a.job)
            (λ _. Triple-weaken (λ _ w h. (pid, h)) (readied-At pid _)))

    pub run_core-At :
        Triple
          (At (one_if r) 0 none o)
          (run_core os a r warnings config_path)
          (λ _ w. (pid : ℕ) × At 0 0 (some pid) r w)
          (λ _. At 0 0 none o)
    unfolding run_core
    run_core-At =
        Triple-bind (Triple-or_drop (lift_keeps _) (λ e. drop_runtime-At r))
          (λ binary. spawned-At binary a.spawned)

    connected-At :
        (result : Result (Unit {0}))
        → Triple
            (At (one_if r) 0 none o)
            (connected a r warnings result)
            (λ _. At 0 0 none r)
            (λ _. At 0 0 none o)
    connected-At (err e) =
        Triple-bind (stop_runtime-At r) (λ _.
          Triple-bind (does-At {n' = 0} {k' = 0} stops_profile refl refl) (λ _. raise_keeps e))
    connected-At (ok u) =
        Triple-bind (modify-At {n' = one_if r} {k' = 0} _ (λ e h g. (h, g)) refl refl) (λ _.
          Triple-bind (set_olcrtc-At r) (λ _.
            Triple-bind start_stats_polling_quiet
              (λ _. Triple-bind (log_quiet _) (λ _. pure_keeps warnings))))

    profile_started-At :
        (result : Result (Unit {0}))
        → Triple
            (At (one_if r) 0 none o)
            (profile_started a r warnings result)
            (λ _. At 0 0 none r)
            (λ _. At 0 0 none o)
    profile_started-At (err e) = Triple-bind (stop_runtime-At r) (λ _. raise_keeps e)
    profile_started-At (ok u) = connected-At _

    pub start_profile-At :
        Triple
          (At (one_if r) 0 none o)
          (start_profile a r warnings)
          (λ _. At 0 0 none r)
          (λ _. At 0 0 none o)
    unfolding start_profile
    start_profile-At =
        Triple-bind (does-At {n' = one_if r} {k' = 0} starts_profile refl refl)
          (λ _. profile_started-At a.profile_start)
