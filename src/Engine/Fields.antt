-- ===== src/Engine/Fields.antt =====
-- src/engine.rs: what `start_desktop` and `stop_desktop` do with the fields of the engine.
use tauri_vpn_plugin.Common.{Bool, true, false}
use tauri_vpn_plugin.Errors.{display, Result, ok, err, ◌+s◌}
use tauri_vpn_plugin.Platform.{TargetOs, is_windows}
use tauri_vpn_plugin.Engine.Calls.{
  SingBoxEngine, Action, olcrtc_stops, olcrtc_drops, assigns_job, closes_job, starts_stats,
  stops_stats, does, gets, modify, when, log, ◌>>=◌, ◌>>◌,
}

-- `if let Some(runtime) = olcrtc_runtime.take() { runtime.stop().await; }`
abbrev pub stop_runtime : Bool → Action (Unit {0})
stop_runtime runtime = when runtime (does olcrtc_stops)

abbrev pub drop_runtime : Bool → Action (Unit {0})
drop_runtime runtime = when runtime (does olcrtc_drops)

-- `*self.olcrtc.lock().await = olcrtc_runtime`: the runtime that was there is dropped.
unfoldable pub set_olcrtc : Bool → Action (Unit {0})
set_olcrtc runtime = gets SingBoxEngine.olcrtc >>= λ old.
    modify (λ e. record e { olcrtc = runtime }) >> drop_runtime old

-- The same on `self.olcrtc`.
unfoldable pub take_olcrtc : Action (Unit {0})
take_olcrtc = gets SingBoxEngine.olcrtc >>= λ old.
    modify (λ e. record e { olcrtc = false }) >> stop_runtime old

unfoldable pub stop_stats_polling : Action (Unit {0})
stop_stats_polling = gets SingBoxEngine.stats_task >>= λ old.
    modify (λ e. record e { stats_task = false }) >> when old (does stops_stats)

unfoldable pub start_stats_polling : Action (Unit {0})
unfolding stop_stats_polling
start_stats_polling =
    stop_stats_polling >> (does starts_stats >> modify (λ e. record e { stats_task = true }))

-- `let _ = self.windows_job.lock().await.take();`
unfoldable pub take_job : TargetOs → Action (Unit {0})
take_job os = when (is_windows os) (
    gets SingBoxEngine.windows_job >>= λ old.
    modify (λ e. record e { windows_job = false }) >> when old (does closes_job))

abbrev job_assigned : Result (Unit {0}) → Action (Unit {0})
job_assigned (ok u) = gets SingBoxEngine.windows_job >>= λ old.
    modify (λ e. record e { windows_job = true })
    >> (when old (does closes_job)
        >> (does assigns_job >> log "sing-box attached to Windows job object"))
job_assigned (err e) = log ("failed to attach sing-box to Windows job object: " +s display e)

unfoldable pub attach_job : TargetOs → Result (Unit {0}) → Action (Unit {0})
attach_job os job = when (is_windows os) (job_assigned job)
