-- ===== src/Engine/Balance.antt =====
-- What the proofs on src/engine.rs follow through a call: the child and the runtime that the engine
-- holds, and how many of those that were started have ended.
use tauri_vpn_plugin.Common.{
  ℕ, ◌+◌, Bool, true, false, List, [], ◌∷◌, ◌++◌, Option, is_some, ◌≡◌, arith,
}
use tauri_vpn_plugin.Errors.{VpnError, Result, ok, err}
use tauri_vpn_plugin.Engine.Calls.{
  Effect, olcrtc_starts, olcrtc_stops, olcrtc_drops, spawns, kills, drops_child, Machine, Action,
  ◌>>=◌,
}

abbrev pub one_if : Bool → ℕ
one_if true = 1
one_if false = 0

-- The starts and ends of OLC RTC runtimes and of children.
abbrev pub runtime_starts : Effect → ℕ
runtime_starts olcrtc_starts = 1
runtime_starts _ = 0

abbrev pub runtime_ends : Effect → ℕ
runtime_ends olcrtc_stops = 1
runtime_ends olcrtc_drops = 1
runtime_ends _ = 0

abbrev pub child_starts : Effect → ℕ
child_starts (spawns pid) = 1
child_starts _ = 0

abbrev pub child_ends : Effect → ℕ
child_ends (kills pid) = 1
child_ends (drops_child pid) = 1
child_ends _ = 0

unfoldable pub total : (Effect → ℕ) → List Effect → ℕ
total weight [] = 0
total weight (x ∷ xs) = weight x + total weight xs

pub total-snoc :
    (weight : Effect → ℕ) (xs : List Effect) (x : Effect)
    → total weight (xs ++ x ∷ []) ≡ total weight xs + weight x
unfolding total
total-snoc weight [] x = omega arith
total-snoc weight (y ∷ xs) x = omega (arith, total-snoc weight xs x)

-- The engine holds this child and runtime, and besides, `n` runtimes and `k` children have been started
-- and not ended.
pub record At (n k : ℕ) (child : Option ℕ) (olcrtc : Bool) (w : Machine) : Type 0 where
  pub holds_child : w.engine.child ≡ child
  pub holds_olcrtc : w.engine.olcrtc ≡ olcrtc
  pub runtimes : total runtime_starts w.effects ≡ total runtime_ends w.effects + n + one_if olcrtc
  pub children :
      total child_starts w.effects ≡ total child_ends w.effects + k + one_if (is_some child)

-- What holds after an action: one thing for a value, another for an error.
pub data After {A : Type 0} (Q : A → Machine → Type 0) (E : VpnError → Machine → Type 0)
    : Result A × Machine → Type 0 where
  succeeds : {a : A} {w : Machine} → Q a w → After Q E (ok a, w)
  fails : {e : VpnError} {w : Machine} → E e w → After Q E (err e, w)

pub record Triple {A : Type 0} (P : Machine → Type 0) (m : Action A) (Q : A → Machine → Type 0)
    (E : VpnError → Machine → Type 0) : Type 0 where
  pub runs : (w : Machine) → P w → After Q E (m w)

After-bind :
    {S T : Type 0} {Q : S → Machine → Type 0} {R : T → Machine → Type 0}
    {E : VpnError → Machine → Type 0} (next : S → Action T)
    → ((s : S) → Triple (Q s) (next s) R E)
    → (r : Result S) (w : Machine) → After Q E (r, w)
    → After R E (elim r [ ok s ↦ next s w | err e ↦ (err e, w) ])
After-bind next h (ok s) w (succeeds q) = (h s).runs w q
After-bind next h (err e) w (fails q) = fails q

pub Triple-bind :
    {S T : Type 0} {P : Machine → Type 0} {Q : S → Machine → Type 0} {R : T → Machine → Type 0}
    {E : VpnError → Machine → Type 0} {m : Action S} {next : S → Action T}
    → Triple P m Q E
    → ((s : S) → Triple (Q s) (next s) R E)
    → Triple P (m >>= next) R E
unfolding ◌>>=◌
Triple-bind {m} {next} first rest = record {
  runs = λ w p. After-bind next rest (m w).0 (m w).1 (first.runs w p);
}
