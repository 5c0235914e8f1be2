-- ===== src/Common/Handles.antt =====
-- The handles of Windows objects: what a piece of code does with them, and which it leaves open.
use Prim.Native.Nat.{ℕ}
use mathlib.Core.Path.{◌≡◌, refl}
use mathlib.Core.Bool.{Bool, true, false, ◌||◌}
use mathlib.Core.List.{List, [], ◌∷◌}
use mathlib.Core.Option.{Option, none, some}
use native.Mathlib.Omega.{arith}
use tauri_vpn_plugin.Common.Tests.{if◌then◌else◌, nat_beq, nat_beq_iff}

pub data HandleCall : Type 0 where
  opens uses closes : ℕ → HandleCall

unfoldable pub holds : ℕ → List ℕ → Bool
holds h [] = false
holds h (x ∷ xs) = nat_beq x h || holds h xs

unfoldable pub remove_once : ℕ → List ℕ → List ℕ
remove_once h [] = []
remove_once h (x ∷ xs) = let rest = remove_once h xs in if nat_beq x h then xs else x ∷ rest

abbrev call_step : HandleCall → List ℕ → Option (List ℕ)
call_step (opens h) held = some (h ∷ held)
call_step (uses h) held = if holds h held then some held else none
call_step (closes h) held = if holds h held then some (remove_once h held) else none

-- The handles that are open after the calls; none if one uses or closes a handle that is not open.
unfoldable pub run_calls : List HandleCall → List ℕ → Option (List ℕ)
unfolding holds remove_once
run_calls [] held = some held
run_calls (call ∷ calls) held = elim (call_step call held) [
  | none ↦ none
  | some held' ↦ run_calls calls held'
]

pub holds-head : (h : ℕ) (held : List ℕ) → holds h (h ∷ held) ≡ true
unfolding holds
holds-head h held = ground (arith, nat_beq_iff h h)

pub holds-later : (h x : ℕ) (held : List ℕ) → holds h held ≡ true → holds h (x ∷ held) ≡ true
unfolding holds
holds-later h x held e = ground arith

pub remove_once-head : (h : ℕ) (held : List ℕ) → remove_once h (h ∷ held) ≡ held
unfolding remove_once
remove_once-head h held = ground (arith, nat_beq_iff h h)

pub run_calls-uses :
    (h : ℕ) (calls : List HandleCall) (held : List ℕ)
    → holds h held ≡ true
    → run_calls (uses h ∷ calls) held ≡ run_calls calls held
unfolding run_calls
run_calls-uses h calls held open_yet = rw (open_yet, run_calls) refl

pub run_calls-closes_last :
    (h : ℕ) (calls : List HandleCall) (held : List ℕ)
    → run_calls (closes h ∷ calls) (h ∷ held) ≡ run_calls calls held
unfolding run_calls
run_calls-closes_last h calls held =
    rw (holds-head h held, run_calls) (rw (remove_once-head h held) refl)
