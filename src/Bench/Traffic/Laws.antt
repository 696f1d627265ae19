-- ===== src/Bench/Traffic/Laws.antt =====
-- A trial with an `ExitStack` leaves no process behind, whatever fails.
use project_veil.Prelude.{
  ℕ, zero, suc, ◌≡◌, true, false, List, [], ◌∷◌, Bytes, Option, none, some, Bool,
}
use project_veil.Exec.{Locals, State, Exec, ask}
use project_veil.Exec.Calls.{mkdir, sleep_ms}
use project_veil.Exec.Held.{mem}
use project_veil.Exec.Keeps.{Docile, Keeps, Keeps-bind, Keeps-ask, keeps_rules}
use project_veil.Exec.Finally.{Contained, Contained-bind, Contained-ask}
use project_veil.Bench.Processes.Laws.{Keeps-stop, Keeps-wait_port}
use project_veil.Bench.Peers.Laws.{Keeps-configure, Keeps-edit_json}
use project_veil.Bench.Stack.Laws.{
  stacked, Contained-exit_stack, Keeps-launch_stacked, Keeps-open_stacked_tap,
}
use project_veil.Bench.Traffic.{
  Job, receive_loop, receive, open_socks, connect_tls, fetch, fetch_all, with_tls, direct,
  fetch_streams, proxied, body, trial,
}

module _ {own : Locals → List ℕ} {before : List ℕ} where
  Keeps-receive_loop :
      (fuel c size : ℕ) (got : Bytes) → Keeps own before (receive_loop fuel c size got)
  unfolding receive_loop
  Keeps-receive_loop zero c size got = search (keeps_rules)
  Keeps-receive_loop (suc fuel) c size got =
      search (keeps_rules, λ (b : Bytes). Keeps-receive_loop fuel c size b) depth 20

  Keeps-receive : (c size : ℕ) → Keeps own before (receive c size)
  unfolding receive
  Keeps-receive c size = Keeps-receive_loop size c size []

  Keeps-open_socks : (c target : ℕ) → Keeps own before (open_socks c target)
  unfolding open_socks
  Keeps-open_socks c target = search (keeps_rules, Keeps-receive) depth 30

  Keeps-connect_tls : (port : ℕ) (target : Option ℕ) → Keeps own before (connect_tls port target)
  unfolding connect_tls
  Keeps-connect_tls port none = search (keeps_rules) depth 30
  Keeps-connect_tls port (some t) = search (keeps_rules, Keeps-open_socks) depth 30

  Keeps-fetch : (c size : ℕ) (last : Bool) → Keeps own before (fetch c size last)
  unfolding fetch
  Keeps-fetch c size last = search (keeps_rules) depth 30

  Keeps-fetch_all : (c : ℕ) (sizes : List ℕ) → Keeps own before (fetch_all c sizes)
  unfolding fetch_all
  Keeps-fetch_all c [] = search (keeps_rules)
  Keeps-fetch_all c (size ∷ []) = Keeps-fetch c size true
  Keeps-fetch_all c (size ∷ next ∷ sizes) =
      Keeps-bind (fetch c size false) _ (Keeps-fetch c size false)
        (λ _. Keeps-fetch_all c (next ∷ sizes))

  Keeps-with_tls :
      (port : ℕ) (target : Option ℕ) (m : ℕ → Exec (Unit {0}))
      → ((c : ℕ) → Keeps own before (m c))
      → Keeps own before (with_tls port target m)
  unfolding with_tls
  Keeps-with_tls port target m km = search (keeps_rules, Keeps-connect_tls, km) depth 20

  Keeps-fetch_streams :
      (cp cover : ℕ) (sizes : List ℕ) → Keeps own before (fetch_streams cp cover sizes)
  unfolding fetch_streams
  Keeps-fetch_streams cp cover [] = search (keeps_rules)
  Keeps-fetch_streams cp cover (size ∷ sizes) =
      Keeps-bind (with_tls cp (some cover) (λ c. fetch c size true)) _
        (Keeps-with_tls cp (some cover) _ (λ c. Keeps-fetch c size true))
        (λ _.
          Keeps-bind (ask (sleep_ms 20)) _ (Keeps-ask (sleep_ms 20))
            (λ _. Keeps-fetch_streams cp cover sizes))

module _ {before : List ℕ} where
  Keeps-direct : (j : Job) → Keeps stacked before (direct j)
  unfolding direct
  Keeps-direct j =
      search (keeps_rules, Keeps-open_stacked_tap, Keeps-with_tls, Keeps-fetch_all) depth 20

  Keeps-proxied : (j : Job) → Keeps stacked before (proxied j)
  unfolding proxied
  Keeps-proxied j =
      search
        (
          keeps_rules, Keeps-open_stacked_tap, Keeps-launch_stacked, Keeps-fetch_streams,
          Keeps-stop, Keeps-wait_port, Keeps-configure, Keeps-edit_json,
        )
        depth 60

  Keeps-body : (elapsed_ms : ℕ → ℕ → ℕ) (j : Job) → Keeps stacked before (body elapsed_ms j)
  unfolding body
  Keeps-body elapsed_ms j = search (keeps_rules, Keeps-direct, Keeps-proxied) depth 20

Contained-trial : (elapsed_ms : ℕ → ℕ → ℕ) (j : Job) → Contained (trial elapsed_ms j)
unfolding trial
Contained-trial elapsed_ms j =
    Contained-bind (ask (mkdir j.folder)) _ (Contained-ask (mkdir j.folder))
      (λ _. Contained-exit_stack (body elapsed_ms j) (λ before. Keeps-body elapsed_ms j))

-- On a system where children can be stopped and descriptors and captures closed: when the trial is
-- over, by a result or by any exception of any call, every process that runs was running before.
pub traffic_trial_stops :
    (elapsed_ms : ℕ → ℕ → ℕ) (j : Job) (s : State) (h : ℕ)
    → Docile s.system
    → mem h (trial elapsed_ms j s).1.held ≡ true
    → mem h s.held ≡ true
traffic_trial_stops elapsed_ms j s h d k = (Contained-trial elapsed_ms j).contained s d h k
