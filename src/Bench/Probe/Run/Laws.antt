-- ===== src/Bench/Probe/Run/Laws.antt =====
-- A profile run leaves no process behind, whatever fails.
use project_veil.Prelude.{
  ℕ, zero, suc, ◌≡◌, refl, true, List, [], ◌∷◌, ◌++◌, Option, Text, Bytes, arith, Bool,
  if◌then◌else◌,
}
use project_veil.Exec.Calls.{close_tap}
use project_veil.Exec.{Locals, State, pure}
use project_veil.Exec.Held.{mem, mem-append}
use project_veil.Exec.Keeps.{Docile, Keeps, keeps_rules, Keeps-bind}
use project_veil.Exec.Finally.{Releases, Releases-then, Contained, Contained-try_finally}
use project_veil.Bench.Processes.{spawn, add_log, add_proc, open_log, start_listed}
use project_veil.Bench.Processes.Laws.{
  Keeps-modify, Keeps-start-modify, Keeps-stop, Keeps-wait_port,
}
use project_veil.Bench.Processes.Stops.{
  Releases-stop_all, Releases-close_all, Releases-each, Releases-same,
}
use project_veil.Bench.Peers.Laws.{Keeps-configure, Keeps-edit_json}
use project_veil.Bench.Probe.{Kit, sample}
use project_veil.Bench.Probe.Laws.{Keeps-tls_fetch, Keeps-sample}
use project_veil.Bench.Probe.Profile.{
  Job, Ports, Refs, launch, start_cover, start_upstream, start_references, reset_reference,
  fetch_at, fetch_late, set_tap, valid_session, endpoints,
}
use project_veil.Bench.Probe.Observe.{observe, observe_each, observe_all}
use project_veil.Bench.Probe.Run.{sample_at, free_ports, body, cleanup, run_profile}

abbrev named : Locals → List ℕ
named l = l.procs

module _ {before : List ℕ} where
  Keeps-open_log : (folder : Text) → Keeps named before (open_log folder)
  unfolding open_log
  Keeps-open_log folder =
      search (keeps_rules, λ (log : ℕ). Keeps-modify named before (add_log log) (λ l. refl)) depth
        20

  Keeps-start_listed :
      (cmd : List Text) (cores : Option Text) (n : ℕ)
      → Keeps named before (start_listed cmd cores n)
  unfolding start_listed mem
  Keeps-start_listed cmd cores n =
      Keeps-start-modify named before (spawn cmd cores n) add_proc (λ p. p)
        (λ p h l. ground (arith, mem-append h l.procs (p ∷ [])))

  Keeps-launch : (folder : Text) (cmd : List Text) → Keeps named before (launch folder cmd)
  unfolding launch
  Keeps-launch folder cmd = search (keeps_rules, Keeps-open_log, Keeps-start_listed) depth 10

  Keeps-start_cover : (j : Job) (p : Ports) → Keeps named before (start_cover j p)
  unfolding start_cover
  Keeps-start_cover j p = search (keeps_rules, Keeps-launch, Keeps-wait_port) depth 10

  Keeps-start_upstream : (j : Job) (p : Ports) → Keeps named before (start_upstream j p)
  unfolding start_upstream
  Keeps-start_upstream j p = search (keeps_rules, Keeps-launch, Keeps-wait_port) depth 10

  Keeps-start_references : (j : Job) (p : Ports) → Keeps named before (start_references j p)
  unfolding start_references
  Keeps-start_references j p =
      search
        (
          keeps_rules, Keeps-start_cover, Keeps-configure, Keeps-edit_json, Keeps-launch,
          Keeps-wait_port, Keeps-start_upstream,
        )
        depth 40

  Keeps-reset_reference :
      (j : Job) (p : Ports) (r : Refs) → Keeps named before (reset_reference j p r)
  unfolding reset_reference
  Keeps-reset_reference j p r =
      search (keeps_rules, Keeps-stop, Keeps-start_cover, Keeps-start_upstream) depth 20

  Keeps-fetch_at :
      (kit : Kit) (cert : Text) (e : Text × ℕ) → Keeps named before (fetch_at kit cert e)
  unfolding fetch_at
  Keeps-fetch_at kit cert (name, port) = search (keeps_rules, Keeps-tls_fetch) depth 10

  Keeps-fetch_late :
      (kit : Kit) (cert : Text) (e : Text × ℕ) → Keeps named before (fetch_late kit cert e)
  unfolding fetch_late
  Keeps-fetch_late kit cert (name, port) = search (keeps_rules, Keeps-tls_fetch) depth 10

  Keeps-valid_session :
      (j : Job) (p : Ports) (cc : List Text) → Keeps named before (valid_session j p cc)
  unfolding valid_session
  Keeps-valid_session j p cc =
      search
        (
          keeps_rules,
          λ (tap : ℕ). Keeps-modify named before (set_tap tap) (λ l. refl),
          Keeps-edit_json,
          Keeps-launch,
          Keeps-wait_port,
          Keeps-stop,
        )
        depth 40

  Keeps-reset_where :
      (j : Job) (p : Ports) (r : Refs) (b : Bool)
      → Keeps named before (if b then reset_reference j p r else pure r)
  Keeps-reset_where j p r b = search (keeps_rules, Keeps-reset_reference)

  Keeps-observe :
      (kit : Kit) (j : Job) (p : Ports) (n : ℕ) (e : Text × ℕ) (payload : Bytes) (r : Refs)
      → Keeps named before (observe kit j p n e payload r)
  unfolding observe
  Keeps-observe kit j p zero e payload r = search (keeps_rules)
  Keeps-observe kit j p (suc n) (name, port) payload r =
      Keeps-bind (sample kit port payload) _ (Keeps-sample kit port payload) (λ seen.
        Keeps-bind _ _ (Keeps-reset_where j p r _) (λ r'.
          Keeps-bind _ _ (Keeps-observe kit j p n (name, port) payload r')
            (λ o. search (keeps_rules))))

  Keeps-observe_each :
      (kit : Kit) (j : Job) (p : Ports) (es : List (Text × ℕ)) (payload : Bytes) (r : Refs)
      → Keeps named before (observe_each kit j p es payload r)
  unfolding observe_each
  Keeps-observe_each kit j p [] payload r = search (keeps_rules)
  Keeps-observe_each kit j p ((name, port) ∷ es) payload r =
      Keeps-bind _ _ (Keeps-observe kit j p j.repeats (name, port) payload r) (λ o.
        Keeps-bind _ _ (Keeps-observe_each kit j p es payload o.1) (λ o'. search (keeps_rules)))

  Keeps-observe_all :
      (kit : Kit) (j : Job) (p : Ports) (ins : List (Text × Bytes)) (r : Refs)
      → Keeps named before (observe_all kit j p ins r)
  unfolding observe_all
  Keeps-observe_all kit j p [] r = search (keeps_rules)
  Keeps-observe_all kit j p ((name, payload) ∷ rest) r =
      Keeps-bind _ _ (Keeps-observe_each kit j p (endpoints p) payload r)
        (λ o. Keeps-bind _ _ (Keeps-observe_all kit j p rest o.1) (λ o'. search (keeps_rules)))

  Keeps-sample_at :
      (kit : Kit) (payload : Bytes) (e : Text × ℕ) → Keeps named before (sample_at kit payload e)
  unfolding sample_at
  Keeps-sample_at kit payload (name, port) = search (keeps_rules, Keeps-sample) depth 10

  Keeps-free_ports : Keeps named before free_ports
  unfolding free_ports
  Keeps-free_ports = search (keeps_rules) depth 20

  Keeps-body : (kit : Kit) (j : Job) → Keeps named before (body kit j)
  unfolding body
  Keeps-body kit j =
      search
        (
          keeps_rules, Keeps-free_ports, Keeps-start_references, Keeps-fetch_at, Keeps-fetch_late,
          Keeps-valid_session, Keeps-observe_all, Keeps-stop, Keeps-sample_at,
        )
        depth 40

Releases-cleanup : (l : Locals) → Releases (named l) (cleanup l)
unfolding cleanup mem
Releases-cleanup l =
    Releases-same ([] ++ (l.procs ++ [])) (named l) _ (λ h. ground (arith, mem-append h l.procs []))
      (Releases-then [] (l.procs ++ []) _ _
        (Releases-each close_tap l.taps (λ tap s d. d.tap_closed s.history tap))
        (Releases-then l.procs [] _ _ (Releases-stop_all l.procs) (Releases-close_all l.logs)))

Contained-run_profile : (kit : Kit) (j : Job) → Contained (run_profile kit j)
unfolding run_profile
Contained-run_profile kit j =
    Contained-try_finally named (body kit j) cleanup (λ before. Keeps-body kit j) Releases-cleanup

-- On a system where children can be stopped and descriptors and captures closed: when the run is
-- over, by a result or by any exception of any call, every process that runs was running before,
-- although the references are stopped and started anew in between.
pub run_profile_stops :
    (kit : Kit) (j : Job) (s : State) (h : ℕ)
    → Docile s.system
    → mem h (run_profile kit j s).1.held ≡ true
    → mem h s.held ≡ true
run_profile_stops kit j s h d k = (Contained-run_profile kit j).contained s d h k
