-- ===== src/Bench/Peers/Laws.antt =====
-- The shared helpers start no process.
use project_veil.Prelude.{ℕ, List, Text, Result}
use project_veil.Exec.{Locals}
use project_veil.Exec.Keeps.{Keeps, keeps_rules}
use project_veil.Bench.Json.{Json}
use project_veil.Bench.Configurations.{Fixture}
use project_veil.Bench.Perf.{Numbers}
use project_veil.Bench.Perf.Laws.{
  Keeps-line, Keeps-command, Keeps-close_perf, Keeps-values, Keeps-add_perf, Keeps-close_first,
}
use project_veil.Bench.Processes.Laws.{
  Keeps-stop, Keeps-wait_port, Keeps-launch, Keeps-open_log, Keeps-start_listed,
}
use project_veil.Bench.Peers.{configure, edit_json, rss, cpu, read_stats}

module _ {own : Locals → List ℕ} {before : List ℕ} where
  pub Keeps-configure :
      (root : Text) (f : Fixture) (variant : Text) (sp cp cover : ℕ)
      → Keeps own before (configure root f variant sp cp cover)
  unfolding configure
  Keeps-configure root f variant sp cp cover = search (keeps_rules) depth 30

  pub Keeps-edit_json :
      (path : Text) (change : Json → Result Json) → Keeps own before (edit_json path change)
  unfolding edit_json
  Keeps-edit_json path change = search (keeps_rules) depth 30

  pub Keeps-rss : (pid : ℕ) → Keeps own before (rss pid)
  unfolding rss
  Keeps-rss pid = search (keeps_rules) depth 30

  pub Keeps-cpu : (nums : Numbers) (pid : ℕ) → Keeps own before (cpu nums pid)
  unfolding cpu
  Keeps-cpu nums pid = search (keeps_rules) depth 40

  pub Keeps-read_stats : (path message : Text) → Keeps own before (read_stats path message)
  unfolding read_stats
  Keeps-read_stats path message = search (keeps_rules) depth 30

pub ruleset trial_rules = (
  keeps_rules, Keeps-line, Keeps-command, Keeps-close_perf, Keeps-values, Keeps-add_perf,
  Keeps-stop, Keeps-wait_port, Keeps-launch, Keeps-open_log, Keeps-start_listed, Keeps-configure,
  Keeps-edit_json, Keeps-rss, Keeps-cpu, Keeps-read_stats, Keeps-close_first,
)
