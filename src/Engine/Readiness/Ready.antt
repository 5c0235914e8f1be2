-- ===== src/Engine/Readiness/Ready.antt =====
-- src/engine.rs, `wait_for_desktop_readiness`: when the loop finds sing-box ready.
use tauri_vpn_plugin.Common.{
  ℕ, zero, suc, ◌+◌, ◌<◌, String, true, false, Option, none, some, ◌≡◌, ◌≢◌, ◌↔◌, ◌⊎◌, inl, inr,
  refl, arith, Option-cases, subst,
}
use tauri_vpn_plugin.Errors.{ok}
use tauri_vpn_plugin.Engine.Calls.{Tried, value, error}
use tauri_vpn_plugin.Engine.Readiness.{
  Round, connects, try_wait, last_result, round_result, readiness_loop, wait_for_desktop_readiness,
}

-- A round that finds sing-box ready, and one after which the loop goes on.
abbrev pub IsReady : Round → Type 0
IsReady r = (r.exited ≡ value none) × (connects r ≡ true) × (r.exited_after ≡ value none)

abbrev pub IsSilent : Round → Type 0
IsSilent r = (r.exited ≡ value none) × (connects r ≡ false)

-- Of the `left` rounds from `i` on, one is ready and those before it are silent.
abbrev pub ReadyWithin : ℕ → ℕ → (ℕ → Round) → Type 0
ReadyWithin left i rounds =
    (j : ℕ) × (j < left) × IsReady (rounds (i + j)) × ((m : ℕ) → m < j → IsSilent (rounds (i + m)))

Tried-cases :
    (t : Tried (Option String))
    → ((text : String) × (t ≡ error text))
      ⊎ (t ≡ value none)
      ⊎ ((s : String) × (t ≡ value (some s)))
Tried-cases (error text) = inl (text, refl)
Tried-cases (value none) = inr (inl refl)
Tried-cases (value (some s)) = inr (inr (s, refl))

last_result-ne : (last : Tried (Option String)) → last_result (try_wait last) ≢ ok none
last_result-ne (error text) e = cc e
last_result-ne (value none) e = cc e
last_result-ne (value (some s)) e = cc e

round_result-IsReady : (r : Round) → round_result r ≡ some (ok none) → IsReady r
unfolding round_result
round_result-IsReady r e = elim (Tried-cases r.exited) [
  | inl (text, x) ↦ ground (arith, x)
  | inr (inr (s, x)) ↦ ground (arith, x)
  | inr (inl x) ↦ elim (Tried-cases r.exited_after) [
    | inl (text, y) ↦ ground (arith, x, y)
    | inr (inr (s, y)) ↦ ground (arith, x, y)
    | inr (inl y) ↦ ground (arith, x, y)
  ]
]

round_result-IsSilent : (r : Round) → round_result r ≡ none → IsSilent r
unfolding round_result
round_result-IsSilent r e = elim (Tried-cases r.exited) [
  | inl (text, x) ↦ ground (arith, x)
  | inr (inr (s, x)) ↦ ground (arith, x)
  | inr (inl x) ↦ ground (arith, x)
]

IsReady-round_result : (r : Round) → IsReady r → round_result r ≡ some (ok none)
unfolding round_result
IsReady-round_result r (x, c, y) = rw (x, c, y) refl

IsSilent-round_result : (r : Round) → IsSilent r → round_result r ≡ none
unfolding round_result
IsSilent-round_result r (x, c) = rw (x, c) refl

-- A property of the rounds, at an equal index.
moved : {a b : ℕ} (P : Round → Type 0) (rounds : ℕ → Round) → a ≡ b → P (rounds a) → P (rounds b)
moved P rounds e p = subst (λ n. P (rounds n)) e p

IsSilent-before :
    (i : ℕ) (rounds : ℕ → Round) (j : ℕ)
    → IsSilent (rounds i)
    → ((m : ℕ) → m < j → IsSilent (rounds (suc i + m)))
    → (m : ℕ) → m < suc j
    → IsSilent (rounds (i + m))
IsSilent-before i rounds j here rest zero h = moved IsSilent rounds (omega arith) here
IsSilent-before i rounds j here rest (suc m) h =
    moved IsSilent rounds (omega arith) (rest m (omega (arith, h)))

readiness_loop-ready :
    (left i : ℕ) (rounds : ℕ → Round) (last : Tried (Option String))
    → readiness_loop left i rounds last ≡ ok none
    → ReadyWithin left i rounds
unfolding readiness_loop
readiness_loop-ready zero i rounds last e = elim (last_result-ne last e) [ ]
readiness_loop-ready (suc left) i rounds last e = elim (Option-cases (round_result (rounds i))) [
  | inl x ↦
      let (j, small, ready, silent) =
        readiness_loop-ready left (suc i) rounds last (rw (x, readiness_loop) at e) in
      (
        suc j,
        omega (arith, small),
        moved IsReady rounds (omega arith) ready,
        IsSilent-before i rounds j (round_result-IsSilent (rounds i) x) silent,
      )
  | inr (r, x) ↦ (
    zero,
    omega arith,
    moved IsReady rounds (omega arith)
        (round_result-IsReady (rounds i) (cc (x, rw (x, readiness_loop) at e))),
    λ m h. ground (arith, h),
  )
]

ReadyWithin-readiness_loop :
    (left i : ℕ) (rounds : ℕ → Round) (last : Tried (Option String))
    → ReadyWithin left i rounds
    → readiness_loop left i rounds last ≡ ok none
unfolding readiness_loop
ReadyWithin-readiness_loop zero i rounds last (j, small, h, g) = ground (arith, small)
ReadyWithin-readiness_loop (suc left) i rounds last (zero, small, ready, silent) =
    rw (IsReady-round_result (rounds i) (moved IsReady rounds (omega arith) ready), readiness_loop)
      refl
ReadyWithin-readiness_loop (suc left) i rounds last (suc j, small, ready, silent) =
    rw
      (
        IsSilent-round_result (rounds i)
            (moved IsSilent rounds (omega arith) (silent zero (omega arith))),
        readiness_loop,
      )
      (ReadyWithin-readiness_loop left (suc i) rounds last (
        j,
        omega (arith, small),
        moved IsReady rounds (omega arith) ready,
        λ m h. moved IsSilent rounds (omega arith) (silent (suc m) (omega (arith, h))),
      ))

-- The wait finds sing-box ready exactly if, within the 20 rounds, there is a round at which the process
-- runs, one of its ports takes a connection and the process still runs 700 ms later, and at each round
-- before it the process runs and no port takes a connection.
pub wait_for_desktop_readiness_iff :
    (rounds : ℕ → Round) (last : Tried (Option String))
    → (wait_for_desktop_readiness rounds last ≡ ok none) ↔ ReadyWithin 20 0 rounds
unfolding wait_for_desktop_readiness
wait_for_desktop_readiness_iff rounds last =
    (readiness_loop-ready 20 0 rounds last, ReadyWithin-readiness_loop 20 0 rounds last)
