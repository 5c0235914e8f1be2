-- ===== src/Engine/Calls.antt =====
-- src/engine.rs, `SingBoxEngine`: its state, what it does to the system, and the calls as actions on
-- both. An action keeps what it has done when it fails. On a desktop, start and stop hold the lock on
-- `child` to their end, so these calls do not interleave; the mobile calls hold no lock, and they are
-- modelled one after the other.
use tauri_vpn_plugin.Common.{
  ℕ, String, Bool, false, List, [], ◌∷◌, ◌++◌, Option, none, some, if◌then◌else◌, ◌≡◌, ◌⊎◌, refl,
  inl, inr,
}
use tauri_vpn_plugin.Errors.{VpnError, Result, ok, err}

-- What the engine does to the system, in order. A child or runtime that is dropped is one that goes
-- out of scope without being stopped.
pub data Effect : Type 0 where
  writes_config : String → Effect
  checks_config : Effect
  installs_profile : Effect
  runs_cleanup runs_admin kills_listener : String → Effect
  olcrtc_starts olcrtc_stops olcrtc_drops : Effect
  spawns kills drops_child : ℕ → Effect
  assigns_job closes_job : Effect
  starts_profile stops_profile : Effect
  kills_privileged : ℕ → Effect
  starts_native stops_native : Effect
  starts_stats stops_stats : Effect
  emits : String → String → Effect
  emits_stats : ℕ → ℕ → Effect
  removes_file : String → Effect

-- The fields that some target has. A child is its process id, a runtime is there or not.
pub record SingBoxEngine : Type 0 where
  pub child : Option ℕ
  pub windows_job : Bool
  pub privileged_pid : Option ℕ
  pub macos_system_connected : Bool
  pub olcrtc : Bool
  pub mobile_connected : Bool
  pub stats_task : Bool

-- `SingBoxEngine::default`
abbrev pub default_engine : SingBoxEngine
default_engine = record {
  child = none;
  windows_job = false;
  privileged_pid = none;
  macos_system_connected = false;
  olcrtc = false;
  mobile_connected = false;
  stats_task = false;
}

pub record Machine : Type 0 where
  pub engine : SingBoxEngine
  pub effects : List Effect

abbrev pub Action : Type 0 → Type 0
Action A = Machine → Result A × Machine

infixl 5 ◌>>=◌ ◌>>◌
unfoldable pub ◌>>=◌ : {S T : Type 0} → Action S → (S → Action T) → Action T
◌>>=◌ first next w = let (r, w') = first w in elim r [ ok s ↦ next s w' | err e ↦ (err e, w') ]

abbrev pub ◌>>◌ : {S T : Type 0} → Action S → Action T → Action T
first >> next = first >>= λ _. next

unfoldable pub pure : {A : Type 0} → A → Action A
pure a w = (ok a, w)

unfoldable pub raise : {A : Type 0} → VpnError → Action A
raise e w = (err e, w)

-- A computation that touches nothing, under `?`.
unfoldable pub lift : {A : Type 0} → Result A → Action A
lift r w = (r, w)

unfoldable pub gets : {A : Type 0} → (SingBoxEngine → A) → Action A
gets f w = (ok (f w.engine), w)

unfoldable pub modify : (SingBoxEngine → SingBoxEngine) → Action (Unit {0})
modify f w = (ok tt, record w { engine = f w.engine })

unfoldable pub does : Effect → Action (Unit {0})
does x w = (ok tt, record w { effects = w.effects ++ x ∷ [] })

-- An action whose result is ignored, `let _ = …`.
unfoldable pub ignore : {A : Type 0} → Action A → Action (Unit {0})
ignore m w = (ok tt, (m w).1)

abbrev pub when : Bool → Action (Unit {0}) → Action (Unit {0})
when b m = if b then m else pure tt

abbrev pub log : String → Action (Unit {0})
log text = does (emits "vpn:log" text)

-- `m?` where a failure drops what `drop` says.
unfoldable pub or_drop : {A : Type 0} → Action (Unit {0}) → Action A → Action A
or_drop drop m w = let (r, w') = m w in elim r [ ok a ↦ (ok a, w') | err e ↦ (err e, (drop w').1) ]

-- A call into the system: a value, or the text of an error.
pub data Tried (A : Type 0) : Type 0 where
  value : A → Tried A
  error : String → Tried A

-- `map_err`
abbrev pub map_err : {A : Type 0} → (String → VpnError) → Tried A → Result A
map_err f (value a) = ok a
map_err f (error text) = err (f text)

pub Tried-cases :
    {A : Type 0} (t : Tried A) → ((a : A) × (t ≡ value a)) ⊎ ((text : String) × (t ≡ error text))
Tried-cases (value a) = inl (a, refl)
Tried-cases (error text) = inr (text, refl)

pub map_err-eq-ok :
    {A : Type 0} (f : String → VpnError) (t : Tried A) (a : A) → map_err f t ≡ ok a → t ≡ value a
map_err-eq-ok f (value b) a e = cc e
map_err-eq-ok f (error text) a e = cc e

-- `timeout(…)` of a call: none for an elapsed time.
abbrev pub in_time : {A : Type 0} → VpnError → Option A → Result A
in_time e none = err e
in_time e (some a) = ok a
