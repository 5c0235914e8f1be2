-- ===== src/Engine/Privileged.antt =====
-- src/engine.rs: sing-box as a process of the administrator on macOS. `with_file_name` of `std::path` is a
-- parameter, and what the system answers an argument.
use tauri_vpn_plugin.Common.{
  ℕ, zero, suc, ◌≡◌, ◌⊎◌, ◌↔◌, refl, String, Bool, true, false, not, ◌||◌, List, [], ◌∷◌, Option,
  none, some, take, if◌then◌else◌, Bool-cases, inl, inr,
}
use mathlib.Core.List.{reverse}
use tauri_vpn_plugin.Common.Text.{trim, lines, parse_u32, ◌<>◌}
use tauri_vpn_plugin.Errors.{engine, Result, ok, err, ok_or, ◌+s◌}
use tauri_vpn_plugin.Engine.Calls.{Action, removes_file, does, log, lift, ◌>>=◌, ◌>>◌, Tried}
use tauri_vpn_plugin.Engine.Scripts.{shell_quote}
use tauri_vpn_plugin.Engine.System.{Output, run_macos_admin_script}

-- Whether a command ran and succeeded: `status.success()`, or false where it did not run.
abbrev pub succeeded : Option Bool → Bool
succeeded none = false
succeeded (some success) = success

abbrev pub process_exists : Option Bool → Bool
process_exists = succeeded

abbrev pub macos_has_sing_box_listener : Option Bool → Bool
macos_has_sing_box_listener = succeeded

abbrev pub macos_has_sing_box_listener_blocking : Option Bool → Bool
macos_has_sing_box_listener_blocking = succeeded

abbrev pub join_lines : List String → String
join_lines [] = ""
join_lines (l ∷ []) = l
join_lines (l ∷ m ∷ ls) = l <> ("\n" <> join_lines (m ∷ ls))

-- What a round of the wait sees: whether each port takes a connection, and whether the process is
-- there; and the log file's contents.
pub record PrivilegedRound : Type 0 where
  pub proxy_connects : Bool
  pub clash_connects : Bool
  pub exists : Bool
  pub log_contents : Option String

module _ (with_file_name : String → String → String) where
  abbrev pub macos_privileged_log_path : String → String
  macos_privileged_log_path config_path = with_file_name config_path "sing-box.macos.log"

  -- By the contents of the log file, none where it cannot be read.
  abbrev pub macos_privileged_log_tail : Option String → String → String
  macos_privileged_log_tail none config_path = "Log file: " <> macos_privileged_log_path config_path
  macos_privileged_log_tail (some contents) config_path =
      "Log file: "
      <> (macos_privileged_log_path config_path
          <> ("\n" <> join_lines (reverse (take 12 (reverse (lines contents))))))

  abbrev pub start_script : String → String → String
  start_script binary config_path =
      "cd /; "
      <> (shell_quote binary
          <> (" run -c "
              <> (shell_quote config_path
                  <> (" >> "
                      <> (shell_quote (macos_privileged_log_path config_path)
                          <> " 2>&1 < /dev/null & echo $!")))))

  -- `find_map(|line| line.trim().parse::<u32>().ok())`
  abbrev pub first_number : List String → Option ℕ
  first_number [] = none
  first_number (l ∷ ls) = elim (parse_u32 (trim l)) [ some n ↦ some n | none ↦ first_number ls ]

  unfoldable pub start_macos_privileged_sing_box :
      Option (Tried Output) → String → String → Action ℕ
  start_macos_privileged_sing_box answer binary config_path =
      does (removes_file (macos_privileged_log_path config_path))
      >> (log "macOS administrator approval is required to start the system tunnel"
          >> (run_macos_admin_script answer (start_script binary config_path) >>= λ output. lift (
              ok_or (first_number (reverse (lines output))) (
                engine (
                  "failed to read privileged sing-box pid from osascript output: "
                  +s trim output)))))

  abbrev pub exited_early : Option String → String → Result (Unit {0})
  exited_early log_contents config_path = err (
      engine (
        "sing-box administrator process exited during startup. "
        +s macos_privileged_log_tail log_contents config_path))

  abbrev pub ports_shut : Option String → String → Result (Unit {0})
  ports_shut log_contents config_path = err (
      engine (
        "sing-box did not open local proxy ports during startup. "
        +s macos_privileged_log_tail log_contents config_path))

  -- What a round returns, or none to go on.
  abbrev pub privileged_result : PrivilegedRound → String → Option (Result (Unit {0}))
  privileged_result r config_path =
      if r.proxy_connects || r.clash_connects
      then some (ok tt)
      else if not r.exists
      then some (exited_early r.log_contents config_path)
      else none

  -- The loop, with `left` rounds left; `rounds` gives what each round sees.
  unfoldable pub privileged_loop :
      ℕ → ℕ → (ℕ → PrivilegedRound) → Option String → String → Result (Unit {0})
  privileged_loop zero i rounds last_log config_path = ports_shut last_log config_path
  privileged_loop (suc left) i rounds last_log config_path =
      elim (privileged_result (rounds i) config_path) [
        | some r ↦ r
        | none ↦ privileged_loop left (suc i) rounds last_log config_path
      ]

  unfoldable pub wait_for_macos_privileged_readiness :
      (ℕ → PrivilegedRound) → Option String → String → Result (Unit {0})
  unfolding privileged_loop
  wait_for_macos_privileged_readiness rounds last_log config_path =
      privileged_loop 20 0 rounds last_log config_path

  -- A round at which a port takes a connection, while at each of the rounds before it none does and the
  -- process is there.
  abbrev pub OpensWithin : ℕ → ℕ → (ℕ → PrivilegedRound) → Type 0
  OpensWithin zero i rounds = ⊥
  OpensWithin (suc left) i rounds =
      ((rounds i).proxy_connects || (rounds i).clash_connects ≡ true)
      ⊎ (((rounds i).proxy_connects || (rounds i).clash_connects ≡ false)
          × ((rounds i).exists ≡ true)
          × OpensWithin left (suc i) rounds)

  privileged_loop_iff :
      (left i : ℕ) (rounds : ℕ → PrivilegedRound) (last_log : Option String) (config_path : String)
      → (privileged_loop left i rounds last_log config_path ≡ ok tt) ↔ OpensWithin left i rounds
  unfolding privileged_loop
  privileged_loop_iff zero i rounds last_log config_path = (λ e. cc, λ h. elim h [ ])
  privileged_loop_iff (suc left) i rounds last_log config_path =
      elim (Bool-cases ((rounds i).proxy_connects || (rounds i).clash_connects)) [
        | inl opens ↦ rw (opens, privileged_loop) (λ e. inl refl, λ h. refl)
        | inr shut ↦
            rw (shut, privileged_loop)
              (elim (Bool-cases (rounds i).exists) [
                | inl there ↦
                    let (to, from) = privileged_loop_iff left (suc i) rounds last_log config_path in
                    rw there (
                      λ e. inr (refl, refl, to e),
                      λ h. elim h [ inl bad ↦ cc | inr (quiet, alive, more) ↦ from more ],
                    )
                | inr gone ↦
                    rw gone (λ e. cc, λ h. elim h [ inl bad ↦ cc | inr (quiet, bad, more) ↦ cc ])
              ])
      ]

  -- The wait succeeds exactly when at one of the 20 rounds a port takes a connection, while at each round
  -- before it none did and the process was there.
  pub wait_for_macos_privileged_readiness_iff :
      (rounds : ℕ → PrivilegedRound) (last_log : Option String) (config_path : String)
      → (wait_for_macos_privileged_readiness rounds last_log config_path ≡ ok tt)
        ↔ OpensWithin 20 0 rounds
  unfolding wait_for_macos_privileged_readiness
  wait_for_macos_privileged_readiness_iff rounds last_log config_path =
      privileged_loop_iff 20 0 rounds last_log config_path
