-- ===== src/Bench/Browser.antt =====
-- `trial` of veil-core/scripts/browser_shapes.py: a browser's requests, alone, through the proxies or
-- at their fallback, with a group of captures in between.
pub mod Laws
use project_veil.Prelude.{
  ℕ, Bool, true, false, List, [], ◌∷◌, ◌++◌, Option, none, some, Text, codes, decimal, Result, ok,
  err, runtime_error, length, ltb, ◌==◌, text_eq, if◌then◌else◌,
}
use project_veil.Exec.Calls.{
  mkdir, popen, communicate, kill_group, loads, free_port, tap_port, close_tap, group_errors,
  group_items,
}
use project_veil.Exec.{
  Exec, pure, lift, ◌>>=◌, ◌>>◌, check, ask, start, wait_for, gets, map_each, try_finally,
  try_except, scoped,
}
use project_veil.Exec.Keeps.{is_lookup}
use project_veil.Exec.{to_rmtree}
use project_veil.Bench.Json.{Json, text, boolean, get_key, set_key, set_inner, update}
use project_veil.Bench.Completion.{Stats}
use project_veil.Bench.Configurations.{Fixture}
use project_veil.Bench.Processes.{wait_port, stop_all}
use project_veil.Bench.Peers.{configure, with_binary, edit_json, read_stats}
use project_veil.Bench.Stack.{exit_stack, callback, launch_stacked, open_stacked_group}
use project_veil.Tls.Group.{Connection, result}

pub record Job : Type 0 where
  pub root : Text
  pub fixture : Fixture
  pub browser : Text
  pub spki : Text
  pub group : Text
  pub binaries : Text
  pub website : ℕ
  pub parallel : Bool
  pub folder : Text
  pub delay_ms : ℕ

pub record Row : Type 0 where
  pub browser : Json
  pub connections : List Connection
  pub proxy_stats : List (Text × Stats)

-- Where the browser connects, through which proxy, and the captures in between.
pub record Route : Type 0 where
  pub tap : ℕ
  pub endpoint : ℕ
  pub proxy : List Text

-- The change of a role's document.
unfoldable pub set_names : Bool → Json → Result Json
set_names is_client cfg = elim (get_key (codes "tls") cfg) [
  | err e ↦ err e
  | ok tls ↦
      elim (update
        ((codes "server_name", text (codes "localhost"))
          ∷ (codes "record_padding", boolean true)
          ∷ [])
        tls) [
          | err e ↦ err e
          | ok tls' ↦ elim (set_key (codes "tls") tls' cfg) [
            | err e ↦ err e
            | ok cfg' ↦
                if is_client
                then set_inner (codes "tls") (codes "fingerprint") (text (codes "chrome149")) cfg'
                else ok cfg'
          ]
        ]
]

unfoldable pub through_client : Job → ℕ → ℕ → List Text → Exec Route
through_client j tap cp cc = do
  port ← ask (tap_port tap)
  edit_json (j.fixture.folder ++ codes "/client.json")
      (set_key (codes "server") (text (codes "127.0.0.1:" ++ decimal port)))
  client ← launch_stacked j.folder cc
  wait_port cp client
  pure (record {
    tap = tap;
    endpoint = j.website;
    proxy = codes "--proxy" ∷ (codes "127.0.0.1:" ++ decimal cp) ∷ [];
  })

unfoldable pub at_tap : ℕ → Exec Route
at_tap tap = do port ← ask (tap_port tap); pure (record { tap = tap; endpoint = port; proxy = [] })

unfoldable pub through_server : Job → Exec Route
unfolding set_names through_client at_tap
through_server j = do
  sp ← ask free_port
  cp ← ask free_port
  (sc, cc) ← configure j.root j.fixture (codes "veil-opt-reality") sp cp j.website
  edit_json (j.fixture.folder ++ codes "/client.json") (set_names true)
  edit_json (j.fixture.folder ++ codes "/server.json") (set_names false)
  server ← launch_stacked j.folder (with_binary (j.binaries ++ codes "/veil-openssl") sc)
  wait_port sp server
  tap ← open_stacked_group sp j.delay_ms
  if text_eq j.group (codes "fallback")
      then at_tap tap
      else through_client j tap cp (with_binary (j.binaries ++ codes "/veil-batch") cc)

unfoldable pub open_route : Job → Exec Route
unfolding through_server
open_route j =
    if text_eq j.group (codes "https")
    then open_stacked_group j.website j.delay_ms >>= at_tap
    else through_server j

unfoldable pub browser_command : Job → Route → List Text
browser_command j r =
    codes "node"
    ∷ (j.root ++ codes "/scripts/browser_peer.mjs")
    ∷ codes "--role"
    ∷ codes "browser"
    ∷ codes "--browser"
    ∷ j.browser
    ∷ codes "--profile"
    ∷ (j.folder ++ codes "/profile")
    ∷ codes "--log"
    ∷ (j.folder ++ codes "/browser.log")
    ∷ codes "--spki"
    ∷ j.spki
    ∷ codes "--url"
    ∷ (codes "https://localhost:"
        ++ (decimal r.endpoint
            ++ (codes "/run?parallel=" ++ (if j.parallel then codes "1" else codes "0"))))
    ∷ r.proxy

unfoldable pub talk : ℕ → Exec Json
talk driver = do
  (code, output) ← ask (communicate driver 35)
  check (code == 0) (runtime_error (codes "browser driver exited " ++ decimal code))
  ask (loads output)

-- The driver's `finally` block.
unfoldable pub end_group : ℕ → Exec (Unit {0})
end_group driver =
    try_except (ask (kill_group driver)) is_lookup (λ _. pure tt)
    >> (wait_for driver none >>= λ _. pure tt)

unfoldable pub drive : List Text → Exec Json
unfolding talk end_group
drive cmd = start (popen cmd none) >>= λ driver. try_finally (talk driver) (end_group driver)

-- Which log tells of which role.
unfoldable pub roles : Text → List (Text × Text)
roles group =
    if text_eq group (codes "https")
    then []
    else if text_eq group (codes "fallback")
    then (codes "/process-0.log", codes "server") ∷ []
    else (codes "/process-0.log", codes "server") ∷ (codes "/process-1.log", codes "client") ∷ []

unfoldable pub role_stats : Text → Text × Text → Exec (Text × Stats)
role_stats folder (log, role) = do
  m ← read_stats (folder ++ log) (codes "missing proxy completion counters")
  pure (role, m)

unfoldable pub body : (ℕ → ℕ → ℕ) → Job → Exec Row
unfolding open_route browser_command drive roles role_stats
body elapsed_ms j = do
  callback (to_rmtree (j.folder ++ codes "/profile"))
  route ← open_route j
  browser ← drive (browser_command j route)
  procs ← gets (λ l. l.procs)
  stop_all procs
  ask (close_tap route.tap)
  errors ← ask (group_errors route.tap)
  items ← ask (group_items route.tap)
  captured ← lift (result elapsed_ms errors items)
  check (ltb 0 (length captured)) (runtime_error (codes "browser traffic bypassed capture"))
  stats ← map_each (roles j.group) (role_stats j.folder)
  pure (record { browser = browser; connections = captured; proxy_stats = stats })

unfoldable pub trial : (ℕ → ℕ → ℕ) → Job → Exec Row
unfolding body
trial elapsed_ms j = ask (mkdir j.folder) >> scoped (exit_stack (body elapsed_ms j))
