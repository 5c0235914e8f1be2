-- ===== src/Engine/Rules.antt =====
-- src/engine.rs: what each basic action does to the child, the runtime and the counts.
use tauri_vpn_plugin.Common.{
  ℕ, ◌+◌, Bool, true, false, Option, is_some, ◌≡◌, refl, arith, if◌then◌else◌,
}
use tauri_vpn_plugin.Errors.{VpnError, Result, ok, err}
use tauri_vpn_plugin.Engine.Calls.{
  Effect, SingBoxEngine, Machine, Action, pure, raise, lift, does, gets, modify, ignore, or_drop,
}
use tauri_vpn_plugin.Engine.Balance.{
  At, After, succeeds, fails, Triple, one_if, total-snoc, runtime_starts, runtime_ends,
  child_starts, child_ends,
}

module _ {P : Machine → Type 0} where
  pub lift_keeps : {A : Type 0} (r : Result A) → Triple P (lift r) (λ _. P) (λ _. P)
  unfolding lift
  lift_keeps (ok a) = record { runs = λ w p. succeeds p }
  lift_keeps (err e) = record { runs = λ w p. fails p }

  pub pure_keeps :
      {A : Type 0} {E : VpnError → Machine → Type 0} (a : A) → Triple P (pure a) (λ _. P) E
  unfolding pure
  pure_keeps a = record { runs = λ w p. succeeds p }

  pub raise_keeps :
      {A : Type 0} {Q : A → Machine → Type 0} (e : VpnError) → Triple P (raise e) Q (λ _. P)
  unfolding raise
  raise_keeps e = record { runs = λ w p. fails p }

  -- A hypothesis about a value, out of the condition.
  pub Triple_given :
      {H A : Type 0} {m : Action A} {Q : A → Machine → Type 0} {E : VpnError → Machine → Type 0}
      → (H → Triple P m Q E)
      → Triple (λ w. H × P w) m Q E
  Triple_given rule = record { runs = λ w p. (rule p.0).runs w p.1 }

  pub Triple-ignore :
      {A : Type 0} {m : Action A} {R : Machine → Type 0} {E : VpnError → Machine → Type 0}
      → Triple P m (λ _. R) (λ _. R)
      → Triple P (ignore m) (λ _. R) E
  unfolding ignore
  Triple-ignore {m} {R} rule = record { runs = λ w p. succeeds (either (rule.runs w p)) }
    where
      either : {A : Type 0} {r : Result A × Machine} → After (λ _. R) (λ _. R) r → R r.1
      either (succeeds q) = q
      either (fails q) = q

  pub Triple-if :
      {A : Type 0} {m₁ m₂ : Action A} {Q : A → Machine → Type 0} {E : VpnError → Machine → Type 0}
      (b : Bool)
      → Triple P m₁ Q E
      → Triple P m₂ Q E
      → Triple P (if b then m₁ else m₂) Q E
  Triple-if true r₁ r₂ = r₁
  Triple-if false r₁ r₂ = r₂

  pub pure_gives :
      {A : Type 0} {Q : A → Machine → Type 0} {E : VpnError → Machine → Type 0} (a : A)
      → ((w : Machine) → P w → Q a w)
      → Triple P (pure a) Q E
  unfolding pure
  pure_gives a gives = record { runs = λ w p. succeeds (gives w p) }

  pub Triple-if_given :
      {A : Type 0} {m₁ m₂ : Action A} {Q : A → Machine → Type 0} {E : VpnError → Machine → Type 0}
      (b : Bool)
      → (b ≡ true → Triple P m₁ Q E)
      → (b ≡ false → Triple P m₂ Q E)
      → Triple P (if b then m₁ else m₂) Q E
  Triple-if_given true r₁ r₂ = r₁ refl
  Triple-if_given false r₁ r₂ = r₂ refl

  pub Triple-weaken :
      {A : Type 0} {m : Action A} {Q R : A → Machine → Type 0} {E : VpnError → Machine → Type 0}
      → ((a : A) (w : Machine) → Q a w → R a w)
      → Triple P m Q E
      → Triple P m R E
  Triple-weaken {A} {m} {Q} {R} {E} weaker rule = record { runs = λ w p. go (m w) (rule.runs w p) }
    where
      go : (x : Result A × Machine) → After Q E x → After R E x
      go _ (succeeds q) = succeeds (weaker _ _ q)
      go _ (fails e) = fails e

  pub Triple-weaken_err :
      {A : Type 0} {m : Action A} {Q : A → Machine → Type 0} {D E : VpnError → Machine → Type 0}
      → ((e : VpnError) (w : Machine) → D e w → E e w)
      → Triple P m Q D
      → Triple P m Q E
  Triple-weaken_err {A} {m} {Q} {D} {E} weaker rule = record {
    runs = λ w p. go (m w) (rule.runs w p);
  }
    where
      go : (x : Result A × Machine) → After Q D x → After Q E x
      go _ (succeeds q) = succeeds q
      go _ (fails d) = fails (weaker _ _ d)

  -- A failure goes on to `drop`.
  pub Triple-or_drop :
      {A : Type 0} {drop : Action (Unit {0})} {m : Action A} {Q : A → Machine → Type 0}
      {D E : VpnError → Machine → Type 0}
      → Triple P m Q D
      → ((e : VpnError) → Triple (D e) drop (λ _. E e) (λ _. E e))
      → Triple P (or_drop drop m) Q E
  unfolding or_drop
  Triple-or_drop {A} {drop} {m} {Q} {D} {E} rule dropped = record {
    runs = λ w p. go (m w).0 (m w).1 (rule.runs w p);
  }
    where
      either :
          (e : VpnError) (r : Result (Unit {0}) × Machine) → After (λ _. E e) (λ _. E e) r → E e r.1
      either e _ (succeeds q) = q
      either e _ (fails q) = q

      go :
          (r : Result A) (w : Machine)
          → After Q D (r, w)
          → After Q E (elim r [ ok a ↦ (ok a, w) | err e ↦ (err e, (drop w).1) ])
      go (ok a) w (succeeds q) = succeeds q
      go (err e) w (fails d) = fails (either e (drop w) ((dropped e).runs w d))

module _ {n k : ℕ} {c : Option ℕ} {o : Bool} {E : VpnError → Machine → Type 0} where
  -- An effect moves the counts by its weights.
  pub does-At :
      {n' k' : ℕ} (x : Effect)
      → n + runtime_starts x ≡ n' + runtime_ends x
      → k + child_starts x ≡ k' + child_ends x
      → Triple (At n k c o) (does x) (λ _. At n' k' c o) E
  unfolding does
  does-At x runtimes children = record {
    runs = λ w h. succeeds (record {
      holds_child = h.holds_child;
      holds_olcrtc = h.holds_olcrtc;
      runtimes = omega (
        arith,
        h.runtimes,
        runtimes,
        total-snoc runtime_starts w.effects x,
        total-snoc runtime_ends w.effects x,
      );
      children = omega (
        arith,
        h.children,
        children,
        total-snoc child_starts w.effects x,
        total-snoc child_ends w.effects x,
      );
    });
  }

  pub modify-At :
      {n' k' : ℕ} {c' : Option ℕ} {o' : Bool} (f : SingBoxEngine → SingBoxEngine)
      → ((e : SingBoxEngine)
          → e.child ≡ c
          → e.olcrtc ≡ o
          → ((f e).child ≡ c') × ((f e).olcrtc ≡ o'))
      → n + one_if o ≡ n' + one_if o'
      → k + one_if (is_some c) ≡ k' + one_if (is_some c')
      → Triple (At n k c o) (modify f) (λ _. At n' k' c' o') E
  unfolding modify
  modify-At f fields runtimes children = record {
    runs = λ w h. succeeds (record {
      holds_child = (fields w.engine h.holds_child h.holds_olcrtc).0;
      holds_olcrtc = (fields w.engine h.holds_child h.holds_olcrtc).1;
      runtimes = omega (arith, h.runtimes, runtimes);
      children = omega (arith, h.children, children);
    });
  }

  pub gets-At :
      {A : Type 0} (f : SingBoxEngine → A) → Triple (At n k c o) (gets f) (λ _. At n k c o) E
  unfolding gets
  gets-At f = record { runs = λ w h. succeeds h }

  pub gets_olcrtc-At :
      Triple (At n k c o) (gets SingBoxEngine.olcrtc) (λ old w. (old ≡ o) × At n k c o w) E
  unfolding gets
  gets_olcrtc-At = record { runs = λ w h. succeeds (h.holds_olcrtc, h) }

  pub gets_child-At :
      Triple (At n k c o) (gets SingBoxEngine.child) (λ old w. (old ≡ c) × At n k c o w) E
  unfolding gets
  gets_child-At = record { runs = λ w h. succeeds (h.holds_child, h) }
