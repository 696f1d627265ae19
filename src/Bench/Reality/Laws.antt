-- ===== src/Bench/Reality/Laws.antt =====
-- A trial leaves no process behind, whatever fails.
use project_veil.Prelude.{
  ℕ, ◌≡◌, refl, List, [], ◌∷◌, ◌++◌, Text, Option, none, some, arith, codes, ok, ◌+◌, Bool, true,
  false, if◌then◌else◌,
}
use project_veil.Exec.{Locals, State, ask}
use project_veil.Exec.Calls.{mkdir, close_tap}
use project_veil.Exec.Held.{mem, mem-append}
use project_veil.Exec.Keeps.{Docile, Keeps}
use project_veil.Exec.Finally.{
  Contained, Contained-try_finally, Contained-bind, Contained-ask, Releases, Releases-then, all_of,
}
use project_veil.Bench.Json.{Json, get_key}
use project_veil.Bench.Completion.{Stats, stats_json}
use project_veil.Exec.Returns.{Returns}
use project_veil.Bench.Perf.{Numbers}
use project_veil.Bench.Perf.Laws.{Releases-close_counters}
use project_veil.Bench.Processes.Laws.{listed, Keeps-modify}
use project_veil.Bench.Processes.Stops.{
  Releases-stop_all, Releases-close_all, Releases-each, Releases-same,
}
use project_veil.Bench.Peers.Laws.{trial_rules}
use project_veil.Bench.Reality.{
  Job, Peers, override, add_tap, tap_server, start_load, start_peers, count_peer, enable_counters,
  add_values, add_capture, measure, is_expected, finish, body, cleanup, trial,
}

module _ {before : List ℕ} where
  Keeps-override :
      (path : Text) (overrides : List (Text × Json)) → Keeps listed before (override path overrides)
  unfolding override
  Keeps-override path [] = search (trial_rules)
  Keeps-override path (o ∷ overrides) = search (trial_rules)

  Keeps-tap_server : (j : Job) (sp : ℕ) → Keeps listed before (tap_server j sp)
  unfolding tap_server
  Keeps-tap_server j sp =
      search (trial_rules, λ (tap : ℕ). Keeps-modify listed before (add_tap tap) (λ l. refl)) depth
        30

  Keeps-start_load :
      (j : Job) (cp bp server : ℕ) (tap : Option ℕ) (cc : List Text)
      → Keeps listed before (start_load j cp bp server tap cc)
  unfolding start_load
  Keeps-start_load j cp bp server tap cc = search (trial_rules) depth 30

  Keeps-start_peers : (j : Job) → Keeps listed before (start_peers j)
  unfolding start_peers
  Keeps-start_peers j =
      search (trial_rules, Keeps-override, Keeps-tap_server, Keeps-start_load) depth 80

  Keeps-count_peer :
      (folder : Text) (peer : Text × ℕ) → Keeps listed before (count_peer folder peer)
  unfolding count_peer
  Keeps-count_peer folder (name, p) = search (trial_rules) depth 30

  Keeps-enable_counters : (j : Job) (p : Peers) → Keeps listed before (enable_counters j p)
  unfolding enable_counters
  Keeps-enable_counters j p = search (trial_rules, Keeps-count_peer) depth 40

  Keeps-add_values :
      (nums : Numbers) (names : List Text) (row : Json)
      → Keeps listed before (add_values nums names row)
  unfolding add_values
  Keeps-add_values nums [] row = search (trial_rules)
  Keeps-add_values nums (name ∷ names) row =
      search (trial_rules, λ (r : Json). Keeps-add_values nums names r) depth 40

  Keeps-add_capture : (tap : Option ℕ) (row : Json) → Keeps listed before (add_capture tap row)
  unfolding add_capture
  Keeps-add_capture none row = search (trial_rules)
  Keeps-add_capture (some tap) row = search (trial_rules) depth 30

  Keeps-measure : (nums : Numbers) (j : Job) (p : Peers) → Keeps listed before (measure nums j p)
  unfolding measure
  Keeps-measure nums j p =
      search (trial_rules, Keeps-enable_counters, Keeps-add_values, Keeps-add_capture) depth 60

  Keeps-finish :
      (nums : Numbers) (j : Job) (p : Peers) (row : Json)
      → Keeps listed before (finish nums j p row)
  unfolding finish
  Keeps-finish nums j p row = search (trial_rules) depth 60

  Keeps-body : (nums : Numbers) (j : Job) → Keeps listed before (body nums j)
  unfolding body
  Keeps-body nums j = search (trial_rules, Keeps-start_peers, Keeps-measure, Keeps-finish) depth 20

Releases-cleanup : (l : Locals) → Releases (listed l) (cleanup l)
unfolding cleanup mem
Releases-cleanup l =
    let counted = all_of (λ c. c.process ∷ []) l.counters in
    Releases-same (counted ++ (l.procs ++ [])) (listed l) _
      (λ h. ground (
        arith,
        mem-append h counted (l.procs ++ []),
        mem-append h l.procs [],
        mem-append h l.procs counted,
      ))
      (Releases-then counted (l.procs ++ []) _ _ (Releases-close_counters l.counters) (
        Releases-then l.procs [] _ _ (Releases-stop_all l.procs) (
          Releases-then [] [] _ _
            (Releases-each close_tap l.taps (λ tap s d. d.tap_closed s.history tap))
            (Releases-close_all l.logs))))

pub Contained-trial : (nums : Numbers) (j : Job) → Contained (trial nums j)
unfolding trial
Contained-trial nums j =
    Contained-bind (ask (mkdir j.folder)) _ (Contained-ask (mkdir j.folder)) (λ _.
      Contained-try_finally listed (body nums j) cleanup (λ before. Keeps-body nums j)
        Releases-cleanup)

-- On a system where children can be stopped and descriptors and captures closed: when the trial is
-- over, by a result or by any exception of any call, every process that runs was running before.
pub reality_trial_stops :
    (nums : Numbers) (j : Job) (s : State) (h : ℕ)
    → Docile s.system
    → mem h (trial nums j s).1.held ≡ true
    → mem h s.held ≡ true
reality_trial_stops nums j s h d k = (Contained-trial nums j).contained s d h k

-- The row has counters that are the expected ones.
abbrev pub HasStats : ℕ → Option ℕ → Json → Type 0
HasStats rounds tap row =
    (m : Stats) × (is_expected rounds tap m ≡ true)
    × (get_key (codes "server_stats") row ≡ ok (stats_json m))

abbrev pub has_tap : Option ℕ → Bool
has_tap none = false
has_tap (some _) = true

-- What a row rests on, with a capture or without.
abbrev Counted : Job → Json → Type 0
Counted j row =
    (m : Stats) × (get_key (codes "server_stats") row ≡ ok (stats_json m))
    × (m.completed ≡ j.rounds + (if j.capture then 0 else 16))
    × (m.rejected ≡ 0)
    × (m.failed ≡ 1)
