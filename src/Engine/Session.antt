-- ===== src/Engine/Session.antt =====
-- src/engine.rs: `start_desktop` and `stop_desktop` against the sessions that they promise.
use tauri_vpn_plugin.Common.{
  ℕ, ◌+◌, String, Bool, true, false, not, List, [], Option, none, some, is_some, ◌≡◌, refl, arith,
}
use tauri_vpn_plugin.Errors.{VpnError, already_running, Result, ok, err}
use tauri_vpn_plugin.Models.{ConnectOptions, is_olc_rtc}
use tauri_vpn_plugin.Platform.{TargetOs, is_macos}
use tauri_vpn_plugin.Engine.Calls.{default_engine, Machine}
use tauri_vpn_plugin.Engine.Balance.{
  At, After, succeeds, fails, one_if, total, runtime_starts, runtime_ends, child_starts, child_ends,
}
use tauri_vpn_plugin.Engine.Desktop.{StartAnswers, start_desktop}
use tauri_vpn_plugin.Engine.Stop.{StopAnswers, stop_desktop}
use tauri_vpn_plugin.Engine.Outcomes.{
  start_desktop-At, start_desktop_refused, stop_desktop-At, Left,
}

-- The engine after some calls of `start` and `stop`, whatever the system answers to them.
pub data Reach (os : TargetOs) : Machine → Type 0 where
  fresh : Reach os (record { engine = default_engine; effects = [] })
  started :
      {w : Machine} (a : StartAnswers) (options : ConnectOptions)
      → Reach os w
      → Reach os (start_desktop os a options w).1
  stopped : {w : Machine} (a : StopAnswers) → Reach os w → Reach os (stop_desktop os a w).1

-- The invariant: nothing is held but what the engine holds, and on macOS that is no child.
record IsKept (os : TargetOs) (w : Machine) : Type 0 where
  child : Option ℕ
  olcrtc : Bool
  macos : is_macos os ≡ true → child ≡ none
  holds : At 0 0 child olcrtc w

IsKept-start :
    {os : TargetOs} {o b : Bool} {x : Result (List String) × Machine}
    → After
        (λ _ w. (c : Option ℕ) × (is_some c ≡ not (is_macos os)) × At 0 0 c b w)
        (λ _. At 0 0 none o)
        x
    → IsKept os x.1
IsKept-start (succeeds (none, same, h)) = record {
  child = none;
  olcrtc = _;
  macos = λ e. refl;
  holds = h;
}
IsKept-start (succeeds (some pid, same, h)) = record {
  child = some pid;
  olcrtc = _;
  macos = λ e. ground (arith, e, same);
  holds = h;
}
IsKept-start (fails h) = record { child = none; olcrtc = _; macos = λ e. refl; holds = h }

IsKept-stop :
    {os : TargetOs} (c : Option ℕ) {x : Result (Unit {0}) × Machine}
    → After (λ _ w. (is_macos os ≡ false → is_some c ≡ true) × At 0 0 none false w) Left x
    → IsKept os x.1
IsKept-stop c (succeeds (was, h)) = record {
  child = none;
  olcrtc = _;
  macos = λ e. refl;
  holds = h;
}
IsKept-stop c (fails (o, h)) = record { child = none; olcrtc = _; macos = λ e. refl; holds = h }

start-IsKept :
    {os : TargetOs} {o : Bool} {w : Machine} (a : StartAnswers) (options : ConnectOptions)
    (c : Option ℕ)
    → (is_macos os ≡ true → c ≡ none)
    → At 0 0 c o w
    → IsKept os (start_desktop os a options w).1
start-IsKept {os} {w} a options none macos h =
    IsKept-start ((start_desktop-At os a options).runs w h)
start-IsKept {os} {w} a options (some pid) macos h =
    rw (start_desktop_refused os a options w (rw h.holds_child refl))
      (record { child = some pid; olcrtc = _; macos = macos; holds = h })

Reach-IsKept : {os : TargetOs} {w : Machine} → Reach os w → IsKept os w
unfolding total
Reach-IsKept fresh = record {
  child = none;
  olcrtc = false;
  macos = λ e. refl;
  holds = record { holds_child = refl; holds_olcrtc = refl; runtimes = refl; children = refl };
}
Reach-IsKept (started a options r) =
    let kept = Reach-IsKept r in start-IsKept a options kept.child kept.macos kept.holds
Reach-IsKept {os} (stopped {w} a r) =
    let kept = Reach-IsKept r in
    IsKept-stop kept.child ((stop_desktop-At os a kept.child kept.macos).runs w kept.holds)

-- The invariant at the fields of the engine.
pub Reach-At : {os : TargetOs} {w : Machine} → Reach os w → At 0 0 w.engine.child w.engine.olcrtc w
Reach-At {os} {w} r =
    let h = (Reach-IsKept r).holds in
    record {
      holds_child = refl;
      holds_olcrtc = refl;
      runtimes = rw h.holds_olcrtc h.runtimes;
      children = rw h.holds_child h.children;
    }

-- Whatever the system answers, after any calls of `start_desktop` and `stop_desktop` on one desktop:
-- of the processes that were spawned, those that were not killed or dropped (which kills them) are one
-- if the engine holds a child and none otherwise; and of the OLC RTC runtimes that were started, those
-- that were not stopped or dropped are one if the engine holds one and none otherwise.
pub Reach-IsBalanced :
    {os : TargetOs} {w : Machine}
    → Reach os w
    → (total child_starts w.effects ≡ total child_ends w.effects + one_if (is_some w.engine.child))
      × (total runtime_starts w.effects ≡ total runtime_ends w.effects + one_if w.engine.olcrtc)
Reach-IsBalanced {os} {w} r =
    let kept = Reach-IsKept r in
    (
      rw kept.holds.holds_child (omega (arith, kept.holds.children)),
      rw kept.holds.holds_olcrtc (omega (arith, kept.holds.runtimes)),
    )

-- What a user of the engine sees: whether sing-box runs, and whether a runtime of OLC RTC does.
pub record Session : Type 0 where
  pub running : Bool
  pub runtime : Bool

abbrev pub session : Machine → Session
session w = record { running = is_some w.engine.child; runtime = w.engine.olcrtc }

-- What a start may do to the session, by its result.
pub data Starts (wanted : Bool) : Session → Result (List String) → Session → Type 0 where
  refuses :
      {runtime : Bool}
      → Starts wanted
          (record { running = true; runtime = runtime })
          (err already_running)
          (record { running = true; runtime = runtime })
  gives_up :
      {runtime : Bool} {e : VpnError}
      → Starts wanted
          (record { running = false; runtime = runtime })
          (err e)
          (record { running = false; runtime = runtime })
  runs :
      {runtime : Bool} {warnings : List String}
      → Starts wanted
          (record { running = false; runtime = runtime })
          (ok warnings)
          (record { running = true; runtime = wanted })

-- What a stop may do: a failure ends the process too, if not always the runtime.
pub data Stops : Session → Result (Unit {0}) → Session → Type 0 where
  ends :
      {runtime : Bool}
      → Stops
          (record { running = true; runtime = runtime })
          (ok tt)
          (record { running = false; runtime = false })
  leaves :
      {before : Session} {runtime : Bool} {e : VpnError}
      → Stops before (err e) (record { running = false; runtime = runtime })

After-Starts :
    (os : TargetOs) {o b : Bool} (w : Machine) (x : Result (List String) × Machine)
    → is_macos os ≡ false
    → session w ≡ record { running = false; runtime = o }
    → After
        (λ _ w. (c : Option ℕ) × (is_some c ≡ not (is_macos os)) × At 0 0 c b w)
        (λ _. At 0 0 none o)
        x
    → Starts b (session w) x.0 (session x.1)
After-Starts os w _ macos before (succeeds (c, same, h)) =
    rw (before, h.holds_child, h.holds_olcrtc, same, macos) runs
After-Starts os w _ macos before (fails h) = rw (before, h.holds_child, h.holds_olcrtc) gives_up

After-Stops :
    (os : TargetOs) {c : Option ℕ} (w : Machine) (x : Result (Unit {0}) × Machine)
    → is_macos os ≡ false
    → w.engine.child ≡ c
    → After (λ _ w. (is_macos os ≡ false → is_some c ≡ true) × At 0 0 none false w) Left x
    → Stops (session w) x.0 (session x.1)
After-Stops os w _ macos before (succeeds (was, h)) =
    rw (before, was macos, h.holds_child, h.holds_olcrtc) ends
After-Stops os w _ macos before (fails (o, h)) = rw (h.holds_child, h.holds_olcrtc) leaves

module _ (os : TargetOs) (macos : is_macos os ≡ false) {w : Machine} where
  start-Starts :
      {o : Bool} (a : StartAnswers) (options : ConnectOptions) (c : Option ℕ)
      → At 0 0 c o w
      → Starts
          (is_olc_rtc options.profile.protocol)
          (session w)
          (start_desktop os a options w).0
          (session (start_desktop os a options w).1)
  start-Starts a options none h =
      After-Starts os w (start_desktop os a options w) macos
        (rw (h.holds_child, h.holds_olcrtc) refl) ((start_desktop-At os a options).runs w h)
  start-Starts a options (some pid) h =
      rw (start_desktop_refused os a options w (rw h.holds_child refl), h.holds_child) refuses

  pub Reach-Starts :
      Reach os w
      → (a : StartAnswers) (options : ConnectOptions)
      → Starts
          (is_olc_rtc options.profile.protocol)
          (session w)
          (start_desktop os a options w).0
          (session (start_desktop os a options w).1)
  Reach-Starts r a options = start-Starts a options w.engine.child (Reach-At r)

  pub Reach-Stops :
      Reach os w
      → (a : StopAnswers)
      → Stops (session w) (stop_desktop os a w).0 (session (stop_desktop os a w).1)
  Reach-Stops r a =
      let kept = Reach-IsKept r in
      After-Stops os w (stop_desktop os a w) macos kept.holds.holds_child
        ((stop_desktop-At os a kept.child kept.macos).runs w kept.holds)

  -- The engine of a desktop that runs sing-box itself (not macOS) implements the abstract session,
  -- after any calls. A start while sing-box runs is refused as already running and leaves the session
  -- as it is; a start that fails leaves the session stopped, with the runtime that was there; a start
  -- that succeeds leaves it running, with a runtime exactly if the profile is one of OLC RTC. A stop
  -- succeeds only on a running session and leaves neither process nor runtime; a stop that fails
  -- leaves no process.
  pub Reach-Refines :
      Reach os w
      → (start : StartAnswers) (options : ConnectOptions) (stop : StopAnswers)
      → Starts
          (is_olc_rtc options.profile.protocol)
          (session w)
          (start_desktop os start options w).0
          (session (start_desktop os start options w).1)
        × Stops (session w) (stop_desktop os stop w).0 (session (stop_desktop os stop w).1)
  Reach-Refines r start options stop = (Reach-Starts r start options, Reach-Stops r stop)
