-- ===== src/Bench/Browser/Laws.antt =====
-- A browser trial leaves no process behind, whatever fails, and what a row of it rests on.
use project_veil.Prelude.{ℕ, ◌≡◌, true, List, [], ◌∷◌, none, ok, Text, refl, inl, inr, Result-cases}
use project_veil.Exec.Calls.{mkdir, popen, kill_group}
use project_veil.Exec.{Locals, State, ask, pure, try_except, handle}
use project_veil.Exec.Held.{mem}
use project_veil.Exec.Keeps.{Docile, Keeps, keeps_rules, is_lookup}
use project_veil.Exec.Finally.{
  Releases, Contained, Contained-bind, Contained-ask, Keeps-start_finally,
}
use project_veil.Bench.Processes.Laws.{Keeps-wait_port, Keeps-stop_all}
use project_veil.Bench.Processes.Stops.{after, Releases-wait_after}
use project_veil.Bench.Peers.Laws.{Keeps-configure, Keeps-edit_json, Keeps-read_stats}
use project_veil.Exec.{to_rmtree}
use project_veil.Bench.Stack.Laws.{
  stacked, Contained-exit_stack, Keeps-launch_stacked, Keeps-open_stacked_group, Keeps-callback,
}
use project_veil.Bench.Browser.{
  Job, through_client, at_tap, through_server, open_route, talk, end_group, drive, role_stats, body,
  trial,
}

Keeps-talk : {own : Locals → List ℕ} {before : List ℕ} (p : ℕ) → Keeps own before (talk p)
unfolding talk
Keeps-talk p = search (keeps_rules) depth 20

kill_group-after :
    (p : ℕ) (s : State)
    → Docile s.system
    → try_except (ask (kill_group p)) is_lookup (λ _. pure tt) s ≡ (ok tt, after (kill_group p) s)
unfolding try_except ask pure
kill_group-after p s d = elim (Result-cases (s.system.answer s.history (kill_group p))) [
  | inl (tt, e) ↦ rw (e, handle) refl
  | inr (x, e) ↦ rw (e, handle, d.group_killed s.history p x e) refl
]

Releases-end_group : (p : ℕ) → Releases (p ∷ []) (end_group p)
unfolding end_group
Releases-end_group p =
    Releases-wait_after (kill_group p) _ p none (kill_group-after p)
      (λ s d. d.group_ended s.history p)

module _ {before : List ℕ} where
  Keeps-drive : (cmd : List Text) → Keeps stacked before (drive cmd)
  unfolding drive
  Keeps-drive cmd =
      Keeps-start_finally stacked before (popen cmd none) talk end_group (λ p. Keeps-talk p)
        Releases-end_group

  Keeps-at_tap : (tap : ℕ) → Keeps stacked before (at_tap tap)
  unfolding at_tap
  Keeps-at_tap tap = search (keeps_rules)

  Keeps-through_client :
      (j : Job) (tap cp : ℕ) (cc : List Text) → Keeps stacked before (through_client j tap cp cc)
  unfolding through_client
  Keeps-through_client j tap cp cc =
      search (keeps_rules, Keeps-edit_json, Keeps-launch_stacked, Keeps-wait_port) depth 20

  Keeps-through_server : (j : Job) → Keeps stacked before (through_server j)
  unfolding through_server
  Keeps-through_server j =
      search
        (
          keeps_rules, Keeps-configure, Keeps-edit_json, Keeps-launch_stacked, Keeps-wait_port,
          Keeps-open_stacked_group, Keeps-at_tap, Keeps-through_client,
        )
        depth 40

  Keeps-open_route : (j : Job) → Keeps stacked before (open_route j)
  unfolding open_route
  Keeps-open_route j =
      search (keeps_rules, Keeps-open_stacked_group, Keeps-at_tap, Keeps-through_server) depth 10

  Keeps-role_stats : (folder : Text) (r : Text × Text) → Keeps stacked before (role_stats folder r)
  unfolding role_stats
  Keeps-role_stats folder (log, role) = search (keeps_rules, Keeps-read_stats) depth 10

  Keeps-body : (elapsed_ms : ℕ → ℕ → ℕ) (j : Job) → Keeps stacked before (body elapsed_ms j)
  unfolding body
  Keeps-body elapsed_ms j =
      search
        (
          keeps_rules,
          λ (path : Text). Keeps-callback {before = before} (to_rmtree path) refl,
          Keeps-open_route,
          Keeps-drive,
          Keeps-stop_all,
          Keeps-role_stats,
        )
        depth 40

Contained-trial : (elapsed_ms : ℕ → ℕ → ℕ) (j : Job) → Contained (trial elapsed_ms j)
unfolding trial
Contained-trial elapsed_ms j =
    Contained-bind (ask (mkdir j.folder)) _ (Contained-ask (mkdir j.folder))
      (λ _. Contained-exit_stack (body elapsed_ms j) (λ before. Keeps-body elapsed_ms j))

-- On a system where children can be stopped and descriptors and captures closed: when the trial is
-- over, by a result or by any exception of any call, every process that runs was running before, the
-- browser's driver included.
pub browser_trial_stops :
    (elapsed_ms : ℕ → ℕ → ℕ) (j : Job) (s : State) (h : ℕ)
    → Docile s.system
    → mem h (trial elapsed_ms j s).1.held ≡ true
    → mem h s.held ≡ true
browser_trial_stops elapsed_ms j s h d k = (Contained-trial elapsed_ms j).contained s d h k
