-- ===== src/Engine/Core.antt =====
-- src/engine.rs, `resolve_core_binary`: where the engine looks for sing-box. The paths that the
-- environment and the app give, and what `std::path` does with a path, are parameters.
use tauri_vpn_plugin.Common.{
  ℕ, zero, suc, String, Bool, true, false, List, [], ◌∷◌, ◌++◌, Option, none, some, ◌≡◌, refl,
  if◌then◌else◌, All, Bool-cases, Option-cases, subst, inl, inr,
}
use tauri_vpn_plugin.Errors.{engine, Result, ok_or, to_option, ◌+s◌}
use tauri_vpn_plugin.Platform.{TargetOs, is_linux, default_core_name}
use tauri_vpn_plugin.Engine.Calls.{Tried}

-- What the environment, the app's path resolver and the file system answer. A file is there or not for
-- the whole of a call.
pub record Host : Type 0 where
  pub join : String → String → String
  pub parent : String → Option String
  pub exists : String → Bool
  pub resource : String → Option String
  pub env_core : Option String
  pub current_exe : Option String
  pub current_dir : Option String
  pub data_dir : Tried String

abbrev pub under : Host → List String → String → String
under h [] path = path
under h (part ∷ parts) path = under h parts (h.join path part)

-- `.map(|dir| …)` and `.and_then(|path| path.parent().map(…))`
abbrev pub under_dir : Host → List String → Option String → Option String
under_dir h parts none = none
under_dir h parts (some dir) = some (under h parts dir)

abbrev parent_of : Host → Option String → Option String
parent_of h none = none
parent_of h (some path) = h.parent path

abbrev pub platform_development_core_candidate : TargetOs → Host → String → Option String
platform_development_core_candidate os h core =
    if is_linux os then under_dir h ("binaries" ∷ "linux" ∷ core ∷ []) h.current_dir else none

-- `start.ancestors().take(left)`, each joined onto.
abbrev pub ancestor_candidates : ℕ → Host → Option String → String → List (Option String)
ancestor_candidates zero h start core = []
ancestor_candidates (suc left) h none core = []
ancestor_candidates (suc left) h (some dir) core =
    some (under h ("resources" ∷ core ∷ []) dir) ∷ ancestor_candidates left h (h.parent dir) core

abbrev pub add_ancestor_resource_candidates : Host → Option String → String → List (Option String)
add_ancestor_resource_candidates = ancestor_candidates 8

unfoldable pub candidates : TargetOs → Host → List (Option String)
candidates os h =
    let core = default_core_name os in
    (h.env_core
      ∷ platform_development_core_candidate os h core
      ∷ h.resource core
      ∷ h.resource (h.join "resources" core)
      ∷ h.resource (under h ("resources" ∷ core ∷ []) "_up_")
      ∷ under_dir h ("resources" ∷ core ∷ []) (parent_of h h.current_exe)
      ∷ under_dir h ("_up_" ∷ "resources" ∷ core ∷ []) (parent_of h h.current_exe)
      ∷ under_dir h ("resources" ∷ core ∷ []) h.current_dir
      ∷ some core
      ∷ [])
    ++ (add_ancestor_resource_candidates h h.current_dir core
        ++ add_ancestor_resource_candidates h h.current_exe core)

-- `.flatten().find(|path| path.exists())`
unfoldable pub first_existing : (String → Bool) → List (Option String) → Option String
first_existing exists [] = none
first_existing exists (none ∷ cs) = first_existing exists cs
first_existing exists (some path ∷ cs) =
    let rest = first_existing exists cs in if exists path then some path else rest

unfoldable pub resolve_core_binary : TargetOs → Host → Result String
resolve_core_binary os h = ok_or (first_existing h.exists (candidates os h)) (
    engine (
      "sing-box core not found. Put "
      +s (default_core_name os +s " in KOSTRA-VPN/resources or add it to the app resources.")))

abbrev pub is_there : (String → Bool) → Option String → Bool
is_there exists none = false
is_there exists (some path) = exists path

-- A path is the first of the candidates that exists, or none does.
abbrev pub IsFirst : (String → Bool) → List (Option String) → Option String → Type 0
IsFirst exists cs none = All (λ c. is_there exists c ≡ false) cs
IsFirst exists cs (some path) =
    (before : List (Option String)) × (after : List (Option String)) × (cs
      ≡ before ++ some path ∷ after)
    × (exists path ≡ true)
    × All (λ c. is_there exists c ≡ false) before

IsFirst-cons :
    (exists : String → Bool) (c : Option String) (cs : List (Option String))
    → is_there exists c ≡ false
    → (found : Option String) → IsFirst exists cs found
    → IsFirst exists (c ∷ cs) found
IsFirst-cons exists c cs absent none h = (absent, h)
IsFirst-cons exists c cs absent (some path) (before, after, split, there, all) =
    (c ∷ before, after, cc split, there, (absent, all))

first_existing-IsFirst :
    (exists : String → Bool) (cs : List (Option String))
    → IsFirst exists cs (first_existing exists cs)
unfolding first_existing
first_existing-IsFirst exists [] = tt
first_existing-IsFirst exists (none ∷ cs) =
    IsFirst-cons exists none cs refl _ (first_existing-IsFirst exists cs)
first_existing-IsFirst exists (some path ∷ cs) = elim (Bool-cases (exists path)) [
  | inl e ↦ rw e ([], cs, refl, e, tt)
  | inr e ↦ rw e (IsFirst-cons exists (some path) cs e _ (first_existing-IsFirst exists cs))
]

-- The engine runs the first candidate that exists, in the order of the environment variable, the
-- development binary, the app's resources, the directories of the executable and the working directory
-- and the ancestors of both, and it fails to find one only where no candidate exists.
pub resolve_core_binary-IsFirst :
    (os : TargetOs) (h : Host)
    → IsFirst h.exists (candidates os h) (to_option (resolve_core_binary os h))
unfolding resolve_core_binary
resolve_core_binary-IsFirst os h =
    let found = first_existing-IsFirst h.exists (candidates os h) in
    elim (Option-cases (first_existing h.exists (candidates os h))) [
      | inl e ↦ rw e (subst (IsFirst h.exists (candidates os h)) e found)
      | inr (path, e) ↦ rw e (subst (IsFirst h.exists (candidates os h)) e found)
    ]
