-- ===== src/Engine/Scripts.antt =====
-- src/engine.rs: the shell commands that the engine writes on macOS, and how they are quoted. Checked
-- against a reader of quoted shell words and a reader of AppleScript strings, which stand here too.
use Prim.Native.Char.{code}
use tauri_vpn_plugin.Common.{
  ℕ, String, List, [], ◌∷◌, Option, none, some, ◌≡◌, refl, arith, if◌then◌else◌, nat_beq,
  nat_beq_iff, Bool-cases, inl, inr,
}
use tauri_vpn_plugin.Common.Text.{replace, chars, ◌<>◌}

unfoldable pub shell_quote : String → String
unfolding replace ◌<>◌
shell_quote value = "'" <> (replace b'\'' "'\\''" value <> "'")

unfoldable pub applescript_string : String → String
unfolding replace ◌<>◌
applescript_string value = "\"" <> (replace b'"' "\\\"" (replace b'\\' "\\\\" value) <> "\"")

-- `commands.join("; ")`
abbrev pub join_commands : List String → String
join_commands [] = ""
join_commands (c ∷ []) = c
join_commands (c ∷ d ∷ cs) = c <> ("; " <> join_commands (d ∷ cs))

abbrev pkill_command : String → String
pkill_command config_path = "pkill -f " <> shell_quote ("sing-box.*" <> config_path)

-- The script of `stop_macos_privileged_sing_box`; the process id as its decimal text.
abbrev pub stop_script : Option String → String → String
stop_script none config_path =
    join_commands
      (pkill_command config_path ∷ "lsof -tiTCP:2080 -sTCP:LISTEN -a -c sing-box | xargs kill" ∷ [])
    <> " 2>/dev/null || true"
stop_script (some pid) config_path =
    join_commands (
      ("kill " <> pid)
      ∷ pkill_command config_path
      ∷ "lsof -tiTCP:2080 -sTCP:LISTEN -a -c sing-box | xargs kill"
      ∷ [])
    <> " 2>/dev/null || true"

-- What `run_macos_admin_script` hands to `osascript`.
abbrev pub admin_command : String → String
admin_command script =
    "do shell script " <> (applescript_string script <> " with administrator privileges")

abbrev pub more : ℕ → Option (List ℕ) → Option (List ℕ)
more c none = none
more c (some cs) = some (c ∷ cs)

-- What the rest of a shell word says, inside single quotes or outside. Outside quotes, only quotes and
-- escaped characters are read: any other character may mean something to the shell.
pub data Quoting : Type 0 where
  outside inside escaped : Quoting

pub read_word : Quoting → List ℕ → Option (List ℕ)
read_word outside [] = some []
read_word inside [] = none
read_word escaped [] = none
read_word escaped (c ∷ cs) = more c (read_word outside cs)
read_word inside (c ∷ cs) =
    let closed = read_word outside cs in
    let rest = read_word inside cs in if nat_beq c b'\'' then closed else more c rest
read_word outside (c ∷ cs) =
    let opened = read_word inside cs in
    let next = read_word escaped cs in
    if nat_beq c b'\'' then opened else if nat_beq c b'\\' then next else none

-- What the rest of an AppleScript string says, up to its closing quote, which must end the text.
pub data Literal : Type 0 where
  unclosed after_escape closed : Literal

pub read_literal : Literal → List ℕ → Option (List ℕ)
read_literal unclosed [] = none
read_literal after_escape [] = none
read_literal closed [] = some []
read_literal closed (c ∷ cs) = none
read_literal after_escape (c ∷ cs) = more c (read_literal unclosed cs)
read_literal unclosed (c ∷ cs) =
    let next = read_literal after_escape cs in
    let end = read_literal closed cs in
    let rest = read_literal unclosed cs in
    if nat_beq c b'\\' then next else if nat_beq c b'"' then end else more c rest

pub read_applescript_string : List ℕ → Option (List ℕ)
read_applescript_string [] = none
read_applescript_string (c ∷ cs) = if nat_beq c b'"' then read_literal unclosed cs else none

read_word-replace :
    (value : String)
    → read_word inside (chars (replace b'\'' "'\\''" value <> "'")) ≡ some (chars value)
unfolding replace chars read_word ◌<>◌
read_word-replace String.[] = refl
read_word-replace (String.◌∷◌ c s) = ground (arith, read_word-replace s)

read_literal-replace :
    (value : String)
    → read_literal unclosed (chars (replace b'"' "\\\"" (replace b'\\' "\\\\" value) <> "\""))
      ≡ some (chars value)
unfolding replace chars read_literal ◌<>◌
read_literal-replace String.[] = refl
read_literal-replace (String.◌∷◌ c s) = elim (Bool-cases (nat_beq (code c) b'\\')) [
  | inl e ↦ rw e (cc (read_literal-replace s, (nat_beq_iff (code c) b'\\').0 e))
  | inr e ↦ elim (Bool-cases (nat_beq (code c) b'"')) [
    | inl f ↦ rw (e, f) (cc (read_literal-replace s, (nat_beq_iff (code c) b'"').0 f))
    | inr f ↦ rw (e, f) (cc (read_literal-replace s))
  ]
]

-- What the engine quotes reads back: a value in a shell command is one word that says the value, with
-- no character left for the shell to interpret, and a script in an AppleScript command is one string
-- that says the script, whatever characters they have.
pub shell_quote-applescript_string :
    (value script : String)
    → (read_word outside (chars (shell_quote value)) ≡ some (chars value))
      × (read_applescript_string (chars (applescript_string script)) ≡ some (chars script))
unfolding shell_quote applescript_string read_word read_applescript_string chars ◌<>◌
shell_quote-applescript_string value script = (read_word-replace value, read_literal-replace script)
