-- ===== src/Platform/Elevation.antt =====
-- src/platform.rs, `is_elevated` on Windows: what the calls of Windows answer is an argument.
use tauri_vpn_plugin.Common.{
  ℕ, Bool, true, false, not, List, [], ◌∷◌, Option, none, some, ◌≡◌, refl, ◌==◌, nat_eq,
  nat_beq_iff, arith, ◌↔◌, ◌≢◌, Option-cases, inl, inr, ◌∙◌,
}
use tauri_vpn_plugin.Common.Handles.{
  HandleCall, opens, uses, closes, run_calls, holds-head, run_calls-uses, run_calls-closes_last,
}

-- The token that `OpenProcessToken` gives, and the `TokenIsElevated` that `GetTokenInformation` gives.
pub record TokenAnswers : Type 0 where
  pub token : Option ℕ
  pub information : Option ℕ

abbrev elevation : Option ℕ → Bool
elevation none = false
elevation (some token_is_elevated) = not (token_is_elevated == 0)

unfoldable pub windows_is_elevated : TokenAnswers → Bool × List HandleCall
windows_is_elevated a = elim a.token [
  | none ↦ (false, [])
  | some token ↦ (elevation a.information, opens token ∷ uses token ∷ closes token ∷ [])
]

abbrev IsElevated : Option ℕ → Option ℕ → Type 0
IsElevated token information = (h n : ℕ) × (token ≡ some h) × (information ≡ some n) × (n ≢ 0)

windows_is_elevated_iff :
    (token information : Option ℕ)
    → ((windows_is_elevated (record { token = token; information = information })).0 ≡ true)
      ↔ IsElevated token information
unfolding windows_is_elevated
windows_is_elevated_iff none information = (λ e. cc, λ (h, n, bad, some_n, nz). cc)
windows_is_elevated_iff (some h) none = (λ e. cc, λ (h', n, same, bad, nz). cc)
windows_is_elevated_iff (some h) (some n) = (
  λ e. (h, n, refl, refl, λ z. ground (arith, nat_beq_iff n 0)),
  λ (h', n', same, same_n, nz). ground (arith, nat_beq_iff n 0),
)

-- The token is used while it is open, and is closed whatever the query answers; the process counts as
-- elevated exactly when its token could be opened and read, and says so.
pub windows_is_elevated-run_calls :
    (a : TokenAnswers) (held : List ℕ)
    → (run_calls (windows_is_elevated a).1 held ≡ some held)
      × (((windows_is_elevated a).0 ≡ true)
          ↔ ((h n : ℕ) × (a.token ≡ some h) × (a.information ≡ some n) × (n ≢ 0)))
unfolding windows_is_elevated run_calls
windows_is_elevated-run_calls a held = (
  elim (Option-cases a.token) [
    | inl e ↦ rw e refl
    | inr (token, e) ↦ rw e (
        run_calls-uses token (closes token ∷ []) (token ∷ held) (holds-head token held)
        ∙ run_calls-closes_last token [] held)
  ],
  windows_is_elevated_iff a.token a.information,
)
