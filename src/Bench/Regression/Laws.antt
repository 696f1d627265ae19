-- ===== src/Bench/Regression/Laws.antt =====
-- A trial leaves no process behind, whatever fails.
use project_veil.Prelude.{ℕ, ◌≡◌, true, List, [], ◌∷◌, ◌++◌, Text, arith}
use project_veil.Exec.{Locals, State, ask}
use project_veil.Exec.Calls.{mkdir}
use project_veil.Exec.Held.{mem, mem-append}
use project_veil.Exec.Keeps.{Docile, Keeps}
use project_veil.Exec.Finally.{
  Contained, Contained-try_finally, Contained-bind, Contained-ask, Releases, Releases-then, all_of,
}
use project_veil.Bench.Json.{Json}
use project_veil.Bench.Completion.{Stats}
use project_veil.Bench.Perf.{Numbers}
use project_veil.Bench.Perf.Laws.{Releases-close_counters}
use project_veil.Bench.Processes.Laws.{listed}
use project_veil.Bench.Processes.Stops.{Releases-stop_all, Releases-close_all, Releases-same}
use project_veil.Bench.Peers.Laws.{trial_rules}
use project_veil.Bench.Regression.{
  Job, Peers, start_peers, count_peer, add_values, measure, check_stats, add_rates, finish, body,
  cleanup, trial,
}

module _ {before : List ℕ} where
  Keeps-start_peers : (j : Job) → Keeps listed before (start_peers j)
  unfolding start_peers
  Keeps-start_peers j = search (trial_rules) depth 80

  Keeps-count_peer :
      (folder : Text) (peer : Text × ℕ) → Keeps listed before (count_peer folder peer)
  unfolding count_peer
  Keeps-count_peer folder (name, p) = search (trial_rules) depth 30

  Keeps-add_values :
      (nums : Numbers) (names : List Text) (row : Json)
      → Keeps listed before (add_values nums names row)
  unfolding add_values
  Keeps-add_values nums [] row = search (trial_rules)
  Keeps-add_values nums (name ∷ names) row =
      search (trial_rules, λ (r : Json). Keeps-add_values nums names r) depth 30

  Keeps-measure : (nums : Numbers) (j : Job) (p : Peers) → Keeps listed before (measure nums j p)
  unfolding measure
  Keeps-measure nums j p = search (trial_rules, Keeps-count_peer, Keeps-add_values) depth 60

  Keeps-check_stats : (j : Job) (m : Stats) → Keeps listed before (check_stats j m)
  unfolding check_stats
  Keeps-check_stats j m = search (trial_rules)

  Keeps-add_rates : (nums : Numbers) (row : Json) → Keeps listed before (add_rates nums row)
  unfolding add_rates
  Keeps-add_rates nums row = search (trial_rules) depth 60

  Keeps-finish :
      (nums : Numbers) (j : Job) (p : Peers) (row : Json)
      → Keeps listed before (finish nums j p row)
  unfolding finish
  Keeps-finish nums j p row = search (trial_rules, Keeps-check_stats, Keeps-add_rates) depth 60

  Keeps-body : (nums : Numbers) (j : Job) → Keeps listed before (body nums j)
  unfolding body
  Keeps-body nums j = search (trial_rules, Keeps-start_peers, Keeps-measure, Keeps-finish) depth 20

-- The cleanup closes the counters, stops the processes and closes the logs.
pub Releases-cleanup : (l : Locals) → Releases (listed l) (cleanup l)
unfolding cleanup mem
Releases-cleanup l =
    let counted = all_of (λ c. c.process ∷ []) l.counters in
    Releases-same (counted ++ (l.procs ++ [])) (listed l) _
      (λ h. ground (
        arith,
        mem-append h counted (l.procs ++ []),
        mem-append h l.procs [],
        mem-append h l.procs counted,
      ))
      (Releases-then counted (l.procs ++ []) _ _ (Releases-close_counters l.counters)
        (Releases-then l.procs [] _ _ (Releases-stop_all l.procs) (Releases-close_all l.logs)))

pub Contained-trial : (nums : Numbers) (j : Job) → Contained (trial nums j)
unfolding trial
Contained-trial nums j =
    Contained-bind (ask (mkdir j.folder)) _ (Contained-ask (mkdir j.folder)) (λ _.
      Contained-try_finally listed (body nums j) cleanup (λ before. Keeps-body nums j)
        Releases-cleanup)

-- On a system where children can be stopped and descriptors closed: when the trial is over, by a
-- result or by any exception of any call, every process that runs was running before.
pub trial_stops :
    (nums : Numbers) (j : Job) (s : State) (h : ℕ)
    → Docile s.system
    → mem h (trial nums j s).1.held ≡ true
    → mem h s.held ≡ true
trial_stops nums j s h d k = (Contained-trial nums j).contained s d h k
