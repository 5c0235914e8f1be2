-- ===== src/Engine/Tasks.antt =====
-- src/engine.rs: the task that polls the traffic statistics, the tasks that pass on what sing-box prints, and
-- the end of the engine.
use tauri_vpn_plugin.Common.{
  ℕ, String, Bool, true, false, List, [], ◌∷◌, ◌++◌, map, Option, none, some, ◌≡◌, refl, ap,
}
use tauri_vpn_plugin.Errors.{◌+s◌}
use tauri_vpn_plugin.Engine.Calls.{Tried, value, error, Effect, emits, emits_stats}

pub record ConnectionsStats : Type 0 where
  pub upload_total : ℕ
  pub download_total : ℕ

-- What a round of the loop emits, by the answer to the request and by what its decoding gives.
abbrev pub stats_event : Tried (Tried ConnectionsStats) → Effect
stats_event (value (value stats)) = emits_stats stats.upload_total stats.download_total
stats_event (value (error text)) = emits "vpn:log" ("failed to decode traffic stats: " +s text)
stats_event (error text) = emits "vpn:log" ("failed to query traffic stats: " +s text)

-- The loop up to its abort, over the answers of its rounds.
unfoldable pub poll_stats : List (Tried (Tried ConnectionsStats)) → List Effect
poll_stats answers = map stats_event answers

-- What `next_line()` gives.
pub data NextLine : Type 0 where
  line : String → NextLine
  ended : NextLine
  failed : String → NextLine

-- The loop of the task, as far as lines have come.
unfoldable pub read_lines : String → List NextLine → List Effect
read_lines label [] = []
read_lines label (line text ∷ rest) =
    emits "vpn:log" ("sing-box " +s (label +s (": " +s text))) ∷ read_lines label rest
read_lines label (ended ∷ rest) = []
read_lines label (failed text ∷ rest) =
    emits "vpn:log" ("sing-box " +s (label +s (" read error: " +s text))) ∷ []

-- None where the child has no such stream.
unfoldable pub pipe_logs : Option (List NextLine) → String → List Effect
unfolding read_lines
pipe_logs none label = []
pipe_logs (some next_lines) label = read_lines label next_lines

-- Every line before the end of the stream is passed on, in order, and nothing after it.
pub pipe_logs-lines :
    (label : String) (texts : List String) (rest : List NextLine)
    → pipe_logs (some (map line texts ++ ended ∷ rest)) label
      ≡ map (λ text. emits "vpn:log" ("sing-box " +s (label +s (": " +s text)))) texts
unfolding pipe_logs
pipe_logs-lines label [] rest = refl
pipe_logs-lines label (text ∷ texts) rest =
    ap (λ effects. emits "vpn:log" ("sing-box " +s (label +s (": " +s text))) ∷ effects)
      (pipe_logs-lines label texts rest)

-- `timeout(PORT_PROBE_TIMEOUT, TcpStream::connect(addr))`: none for an elapsed time.
abbrev pub tcp_connects : Option (Tried (Unit {0})) → Bool
tcp_connects (some (value u)) = true
tcp_connects (some (error text)) = false
tcp_connects none = false
