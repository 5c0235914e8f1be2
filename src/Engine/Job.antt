-- ===== src/Engine/Job.antt =====
-- src/engine.rs, `WindowsJob` and `assign_child_to_windows_job`. What the calls of Windows answer, and which
-- handles count as invalid, are arguments.
use tauri_vpn_plugin.Common.{
  ℕ, String, Bool, false, List, [], ◌∷◌, ◌++◌, Option, none, some, ◌≡◌, refl, sym, subst, ap,
  append-nil, ◌∙◌, if◌then◌else◌,
}
use tauri_vpn_plugin.Common.Handles.{
  HandleCall, opens, uses, closes, run_calls, holds-head, holds-later, run_calls-uses,
  run_calls-closes_last,
}
use tauri_vpn_plugin.Errors.{VpnError, engine, Result, ok, err, ◌+s◌}
use tauri_vpn_plugin.Engine.Calls.{Tried, value, error, map_err}

pub record WindowsJob : Type 0 where
  pub handle : ℕ

-- Windows's answers: the child's id, and what each call gives for its arguments.
pub record JobAnswers : Type 0 where
  pub child_id : Option ℕ
  pub created : Tried ℕ
  pub limited : ℕ → Tried (Unit {0})
  pub opened : ℕ → Tried ℕ
  pub assigned : ℕ → ℕ → Tried (Unit {0})
  pub is_invalid : ℕ → Bool

-- `impl Drop for WindowsJob`
abbrev pub drop_job : JobAnswers → WindowsJob → List HandleCall
drop_job a job = if a.is_invalid job.handle then [] else closes job.handle ∷ []

abbrev assign_process : JobAnswers → ℕ → Result ℕ → Result (Unit {0}) × List HandleCall
assign_process a job (err e) = (err e, [])
assign_process a job (ok process) = (
  map_err (λ text. engine ("AssignProcessToJobObject failed: " +s text)) (a.assigned job process),
  opens process ∷ uses job ∷ uses process ∷ closes process ∷ [],
)

abbrev open_and_assign :
    JobAnswers → ℕ → ℕ → Result (Unit {0}) → Result (Unit {0}) × List HandleCall
open_and_assign a pid job (err e) = (err e, [])
open_and_assign a pid job (ok u) =
    assign_process a job (map_err (λ text. engine ("OpenProcess failed: " +s text)) (a.opened pid))

-- After the job is made: where a call fails, the job goes out of scope.
abbrev keep_or_drop :
    JobAnswers → ℕ → Result (Unit {0}) × List HandleCall → Result WindowsJob × List HandleCall
keep_or_drop a job (ok u, calls) = (ok (record { handle = job }), calls)
keep_or_drop a job (err e, calls) = (err e, calls ++ drop_job a (record { handle = job }))

abbrev set_up_job : JobAnswers → ℕ → Result ℕ → Result WindowsJob × List HandleCall
set_up_job a pid (err e) = (err e, [])
set_up_job a pid (ok job) =
    let (r, calls) = keep_or_drop a job (
      open_and_assign a pid job
        (map_err (λ text. engine ("SetInformationJobObject failed: " +s text)) (a.limited job))) in
    (r, opens job ∷ uses job ∷ calls)

abbrev with_child : JobAnswers → Option ℕ → Result WindowsJob × List HandleCall
with_child a none = (err (engine "sing-box process id unavailable"), [])
with_child a (some pid) =
    set_up_job a pid (map_err (λ text. engine ("CreateJobObjectW failed: " +s text)) a.created)

unfoldable pub assign_child_to_windows_job : JobAnswers → Result WindowsJob × List HandleCall
assign_child_to_windows_job a = with_child a a.child_id

-- The handles that a result holds on to.
abbrev pub kept : Result WindowsJob → List ℕ → List ℕ
kept (ok job) held = job.handle ∷ held
kept (err e) held = held

err_ne_ok : {A : Type 0} {e : VpnError} {x : A} → ¬ (◌≡◌ {A = Result A} (err e) (ok x))
err_ne_ok e = cc

job_of : (job j : WindowsJob) → ◌≡◌ {A = Result WindowsJob} (ok job) (ok j) → job ≡ j
job_of job j e = cc

map_err-ok :
    {A : Type 0} (f : String → VpnError) (t : Tried A) (x : A) → map_err f t ≡ ok x → t ≡ value x
map_err-ok f (value y) x e = cc
map_err-ok f (error text) x e = cc

-- After the calls, the handles that were open and the one that the result holds on to are; once the job is
-- dropped, the handles that were open.
abbrev IsTidy : JobAnswers → List ℕ → Result WindowsJob × List HandleCall → Type 0
IsTidy a held r =
    (run_calls r.1 held ≡ some (kept r.0 held))
    × ((job : WindowsJob) → r.0 ≡ ok job → run_calls (r.1 ++ drop_job a job) held ≡ some held)

module _ (a : JobAnswers) (held : List ℕ) where
  module _ (job : ℕ) where
    process_calls :
        (r : Result ℕ) (after : List HandleCall)
        → run_calls ((assign_process a job r).1 ++ after) (job ∷ held)
          ≡ run_calls after (job ∷ held)
    unfolding run_calls
    process_calls (err e) after = refl
    process_calls (ok process) after =
        let open_now = process ∷ job ∷ held in
        run_calls-uses job (uses process ∷ closes process ∷ after) open_now
          (holds-later job process (job ∷ held) (holds-head job held))
        ∙ run_calls-uses process (closes process ∷ after) open_now (holds-head process (job ∷ held))
        ∙ run_calls-closes_last process after (job ∷ held)

    job_calls :
        (pid : ℕ) (r : Result (Unit {0})) (after : List HandleCall)
        → run_calls ((open_and_assign a pid job r).1 ++ after) (job ∷ held)
          ≡ run_calls after (job ∷ held)
    job_calls pid (err e) after = refl
    job_calls pid (ok u) after = process_calls _ after

    made_calls :
        (calls : List HandleCall)
        → run_calls (opens job ∷ uses job ∷ calls) held ≡ run_calls calls (job ∷ held)
    unfolding run_calls
    made_calls calls = run_calls-uses job calls (job ∷ held) (holds-head job held)

    dropped_calls :
        (calls : List HandleCall)
        → a.is_invalid job ≡ false
        → ((after : List HandleCall)
            → run_calls (calls ++ after) (job ∷ held) ≡ run_calls after (job ∷ held))
        → run_calls (opens job ∷ uses job ∷ (calls ++ drop_job a (record { handle = job }))) held
          ≡ some held
    unfolding run_calls
    dropped_calls calls valid h =
        made_calls (calls ++ drop_job a (record { handle = job }))
        ∙ h (drop_job a (record { handle = job }))
        ∙ rw valid (run_calls-closes_last job [] held)

    keep_or_drop-IsTidy :
        (x : Result (Unit {0}) × List HandleCall)
        → a.is_invalid job ≡ false
        → ((after : List HandleCall)
            → run_calls (x.1 ++ after) (job ∷ held) ≡ run_calls after (job ∷ held))
        → let r = keep_or_drop a job x in IsTidy a held (r.0, opens job ∷ uses job ∷ r.1)
    unfolding run_calls
    keep_or_drop-IsTidy (ok u, calls) valid h = (
      made_calls calls ∙ ap (λ cs. run_calls cs (job ∷ held)) (sym (append-nil calls)) ∙ h [],
      λ j same.
          subst (λ k. run_calls (opens job ∷ uses job ∷ (calls ++ drop_job a k)) held ≡ some held)
            (job_of _ j same) (dropped_calls calls valid h),
    )
    keep_or_drop-IsTidy (err e, calls) valid h =
        (dropped_calls calls valid h, λ j bad. absurd (err_ne_ok bad))

  set_up_job-IsTidy :
      (pid : ℕ) (r : Result ℕ)
      → ((job : ℕ) → r ≡ ok job → a.is_invalid job ≡ false)
      → IsTidy a held (set_up_job a pid r)
  unfolding run_calls
  set_up_job-IsTidy pid (err e) valid = (refl, λ j bad. absurd (err_ne_ok bad))
  set_up_job-IsTidy pid (ok job) valid =
      keep_or_drop-IsTidy job _ (valid job refl) (job_calls job pid _)

  with_child-IsTidy :
      (child : Option ℕ)
      → ((job : ℕ) → a.created ≡ value job → a.is_invalid job ≡ false)
      → IsTidy a held (with_child a child)
  unfolding run_calls
  with_child-IsTidy none valid = (refl, λ j bad. absurd (err_ne_ok bad))
  with_child-IsTidy (some pid) valid =
      set_up_job-IsTidy pid _ (λ job e. valid job (map_err-ok _ a.created job e))

-- Whatever Windows answers, each handle is used and closed only while it is open: the process's handle is
-- closed again, the job's is closed where the set-up fails, and where it succeeds it is the one handle that
-- stays open, until the job is dropped. The handle of a job that was made is valid.
pub assign_child_to_windows_job-run_calls :
    (a : JobAnswers) (held : List ℕ)
    → ((job : ℕ) → a.created ≡ value job → a.is_invalid job ≡ false)
    → let r = assign_child_to_windows_job a in
      (run_calls r.1 held ≡ some (kept r.0 held))
      × ((job : WindowsJob) → r.0 ≡ ok job → run_calls (r.1 ++ drop_job a job) held ≡ some held)
unfolding assign_child_to_windows_job
assign_child_to_windows_job-run_calls a held valid = with_child-IsTidy a held a.child_id valid
