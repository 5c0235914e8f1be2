-- ===== src/Engine/Outcomes.antt =====
-- src/engine.rs: what `start_desktop` and `stop_desktop` leave of the child and the runtime.
use tauri_vpn_plugin.Common.{
  ℕ, Bool, true, false, not, Option, none, some, is_some, ◌≡◌, refl, sym, arith,
}
use tauri_vpn_plugin.Errors.{VpnError, already_running, err}
use tauri_vpn_plugin.Models.{ConnectOptions, is_olc_rtc}
use tauri_vpn_plugin.Platform.{TargetOs, is_macos}
use tauri_vpn_plugin.Engine.Calls.{
  kills, drops_child, stops_profile, Machine, Tried, value, error, gets, raise, ◌>>=◌,
}
use tauri_vpn_plugin.Engine.Balance.{At, Triple, Triple-bind}
use tauri_vpn_plugin.Engine.Rules.{
  lift_keeps, raise_keeps, Triple-ignore, Triple-if, Triple-if_given, Triple_given, Triple-or_drop,
  Triple-weaken, Triple-weaken_err, does-At, modify-At, gets-At, gets_child-At,
}
use tauri_vpn_plugin.Engine.Desktop.{StartAnswers, is_running, start_desktop}
use tauri_vpn_plugin.Engine.Stop.{
  StopAnswers, clean, clean_ignored, killed, stop_child, stop_core, stop_profile, stop_privileged,
  stop_desktop,
}
use tauri_vpn_plugin.Engine.Quiet.{
  Keeps, prepare_quiet, cleanup_desktop_artifacts_quiet, stop_privileged_quiet, take_job_quiet,
  stop_stats_polling_quiet, log_quiet,
}
use tauri_vpn_plugin.Engine.Running.{take_olcrtc-At, start_olcrtc-At, run_core-At, start_profile-At}

pub start_desktop-At :
    {o : Bool} (os : TargetOs) (a : StartAnswers) (options : ConnectOptions)
    → Triple
        (At 0 0 none o)
        (start_desktop os a options)
        (λ _ w.
          (c : Option ℕ) × (is_some c ≡ not (is_macos os))
          × At 0 0 c (is_olc_rtc options.profile.protocol) w)
        (λ _. At 0 0 none o)
unfolding start_desktop
start_desktop-At os a options = Triple-bind (gets-At _) (λ running.
    Triple-if running (raise_keeps _) (
      Triple-bind (prepare_quiet os a options) (λ prepared.
        Triple-bind (start_olcrtc-At a options) (λ runtime. Triple_given (λ same.
          Triple-if_given (is_macos os)
            (λ e.
              Triple-weaken (λ _ w h. (none, rw e refl, rw (sym same) h))
                (start_profile-At a os runtime (prepared.0) (prepared.1)))
            (λ e.
              Triple-weaken (λ _ w h. (some h.0, rw e refl, rw (sym same) h.1))
                (run_core-At a os runtime (prepared.0) (prepared.1))))))))

pub start_desktop_refused :
    (os : TargetOs) (a : StartAnswers) (options : ConnectOptions) (w : Machine)
    → is_some w.engine.child ≡ true
    → start_desktop os a options w ≡ (err already_running, w)
unfolding start_desktop is_running gets raise ◌>>=◌
start_desktop_refused os a options w h = rw h refl

module _ {c : Option ℕ} {o : Bool} (os : TargetOs) (a : StopAnswers) where
  pub clean_quiet : Keeps (At 0 0 c o) (clean os a)
  unfolding clean
  clean_quiet = Triple-bind (lift_keeps _) (cleanup_desktop_artifacts_quiet os a.cleanup)

  clean_ignored_quiet : Keeps (At 0 1 c o) (clean_ignored os a)
  clean_ignored_quiet =
      Triple-bind (lift_keeps _)
        (λ path. Triple-ignore (cleanup_desktop_artifacts_quiet os a.cleanup path))

-- What a stop leaves: no child, and no runtime if it succeeds.
abbrev pub Left : VpnError → Machine → Type 0
Left e w = (o : Bool) × At 0 0 none o w

module _ {o : Bool} (os : TargetOs) (a : StopAnswers) where
  killed-At :
      (pid : ℕ) (result : Tried (Unit {0}))
      → Triple (At 0 1 none o) (killed os a pid result) (λ _. At 0 0 none false) Left
  killed-At pid (error text) = Triple-bind take_olcrtc-At (λ _.
      Triple-or_drop
        (Triple-bind (take_job_quiet os)
          (λ _. Triple-bind (clean_ignored_quiet os a) (λ _. raise_keeps _)))
        (λ e.
          Triple-weaken (λ _ w h. (false, h))
            (does-At {n' = 0} {k' = 0} (drops_child pid) refl refl)))
  killed-At pid (value u) = Triple-bind (does-At {n' = 0} {k' = 0} (kills pid) refl refl) (λ _.
      Triple-bind take_olcrtc-At (λ _. Triple-bind (take_job_quiet os) (λ _.
        Triple-bind (Triple-weaken_err (λ e w h. (false, h)) (clean_quiet os a))
          (λ _. log_quiet _))))

  stop_child-At :
      (c : Option ℕ)
      → Triple
          (At 0 0 c o)
          (stop_child os a c)
          (λ _ w. (is_some c ≡ true) × At 0 0 none false w)
          Left
  stop_child-At none = Triple-bind (take_job_quiet os) (λ _.
      Triple-weaken_err (λ e w h. (o, h)) (Triple-bind (clean_quiet os a) (λ _. raise_keeps _)))
  stop_child-At (some pid) =
      Triple-bind (modify-At {n' = 0} {k' = 1} _ (λ e h g. (refl, g)) refl refl) (λ _.
        Triple-bind
          (Triple-or_drop (lift_keeps _) (λ e.
            Triple-weaken (λ _ w h. (o, h))
              (does-At {n' = 0} {k' = 0} (drops_child pid) refl refl)))
          (λ result. Triple-weaken (λ _ w h. (refl, h)) (killed-At pid result)))

  stop_core-At :
      (c : Option ℕ)
      → Triple (At 0 0 c o) (stop_core os a) (λ _ w. (is_some c ≡ true) × At 0 0 none false w) Left
  unfolding stop_core
  stop_core-At c =
      Triple-bind gets_child-At (λ child. Triple_given (λ same. rw same (stop_child-At c)))

  stop_profile-At : Triple (At 0 0 none o) (stop_profile os a) (λ _. At 0 0 none false) Left
  unfolding stop_profile
  stop_profile-At =
      Triple-weaken_err (λ e w h. (false, h))
        (Triple-bind take_olcrtc-At (λ _.
          Triple-bind (does-At {n' = 0} {k' = 0} stops_profile refl refl) (λ _.
            Triple-bind (lift_keeps _) (λ _.
              Triple-bind (modify-At {n' = 0} {k' = 0} _ (λ e h g. (h, g)) refl refl)
                (λ _. Triple-bind (clean_quiet os a) (λ _. log_quiet _))))))

  stop_privileged-At :
      (p : Option ℕ) → Triple (At 0 0 none o) (stop_privileged os a p) (λ _. At 0 0 none false) Left
  stop_privileged-At none = Triple-weaken (λ _ w h. h.1) (stop_core-At none)
  stop_privileged-At (some pid) =
      Triple-weaken_err (λ e w h. (false, h))
        (Triple-bind (modify-At {n' = 0} {k' = 0} _ (λ e h g. (h, g)) refl refl) (λ _.
          Triple-bind take_olcrtc-At (λ _.
            Triple-bind (lift_keeps _)
              (λ path. Triple-bind (stop_privileged_quiet a.admin _ path) (λ _. log_quiet _)))))

  pub stop_desktop-At :
      (c : Option ℕ)
      → (is_macos os ≡ true → c ≡ none)
      → Triple
          (At 0 0 c o)
          (stop_desktop os a)
          (λ _ w. (is_macos os ≡ false → is_some c ≡ true) × At 0 0 none false w)
          Left
  unfolding stop_desktop
  stop_desktop-At c macos = Triple-bind stop_stats_polling_quiet (λ _. Triple-bind (gets-At _) (λ e.
      Triple-if_given (not (is_macos os))
        (λ _. Triple-weaken (λ _ w h. (λ _. h.0, h.1)) (stop_core-At c))
        (λ f. rw (macos (ground (arith, f))) (
          Triple-weaken {Q = λ _. At 0 0 none false} (λ _ w h. (λ g. ground (arith, f, g), h))
            (Triple-if e.macos_system_connected stop_profile-At
              (stop_privileged-At e.privileged_pid))))))
