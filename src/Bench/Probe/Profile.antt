-- ===== src/Bench/Probe/Profile.antt =====
-- `run_profile` of veil-core/scripts/probe.py, behind its call of `fixture`: one reference behind the
-- proxy, and the same inputs sent to the reference, to the proxy and to an independent server.

use project_veil.Prelude.{
  ℕ, Bool, true, false, ◌&&◌, List, [], ◌∷◌, ◌++◌, none, Text, codes, decimal, length, ltb, text_eq,
  Result, ok, err, if◌then◌else◌,
}
use project_veil.Exec.Calls.{open_tap, tap_port, tap_done, tap_capture, close_tap, run_captured}
use project_veil.Exec.{Locals, Exec, pure, ◌>>=◌, ◌>>◌, ask, modify, try_except}
use project_veil.Bench.Json.{Json, text, num, boolean, set_key, set_inner}
use project_veil.Bench.Configurations.{Fixture}
use project_veil.Bench.Processes.{stop, wait_port, open_log, start_listed, is_os_error}
use project_veil.Bench.Peers.{cover_command, aes128, backend_command, configure, edit_json}
use project_veil.Bench.Probe.{Kit, tls_fetch}
use project_veil.Tls.Capture.{Capture}

-- The parameters, and what `fixture` returned.
pub record Job : Type 0 where
  pub root : Text
  pub fixture : Fixture
  pub profile : Text
  pub repeats : ℕ
  pub fingerprint : Text
  pub padding : Bool

pub record Ports : Type 0 where
  pub cover : ℕ
  pub server : ℕ
  pub client : ℕ
  pub backend : ℕ
  pub upstream : ℕ

-- The variables `cover` and `upstream`, which `reset_reference` changes.
pub record Refs : Type 0 where
  pub cover : ℕ
  pub upstream : ℕ

unfoldable pub launch : Text → List Text → Exec ℕ
launch folder cmd = do log ← open_log folder; start_listed cmd none 1

unfoldable pub reference_command : Job → Ports → List Text
reference_command j p =
    if text_eq j.profile (codes "go-tls")
    then (j.root ++ codes "/.build/probepeer")
      ∷ codes "-role"
      ∷ codes "cover"
      ∷ codes "-listen"
      ∷ (codes "127.0.0.1:" ++ decimal p.cover)
      ∷ codes "-cert"
      ∷ j.fixture.cert
      ∷ codes "-key"
      ∷ j.fixture.key
      ∷ codes "-timeout"
      ∷ codes "2s"
      ∷ []
    else cover_command j.fixture p.cover
        (if text_eq j.profile (codes "openssl-rsa") then codes "TLS_AES_256_GCM_SHA384" else aes128)

unfoldable pub upstream_command : Job → Ports → List Text
upstream_command j p =
    (j.root ++ codes "/.build/probepeer")
    ∷ codes "-role"
    ∷ codes "upstream-reality"
    ∷ codes "-listen"
    ∷ (codes "127.0.0.1:" ++ decimal p.upstream)
    ∷ codes "-config"
    ∷ (j.fixture.folder ++ codes "/server.json")
    ∷ []

-- The change of a role's document.
unfoldable pub set_options : Job → Bool → Json → Result Json
set_options j is_client cfg =
    elim (if is_client && ltb 0 (length j.fingerprint)
      then set_inner (codes "tls") (codes "fingerprint") (text j.fingerprint) cfg
      else ok cfg) [
        | err e ↦ err e
        | ok cfg' ↦
            if j.padding
            then set_inner (codes "tls") (codes "record_padding") (boolean true) cfg'
            else ok cfg'
      ]

-- `cover = launch(cover_command)` and its wait; the same for `upstream`.
unfoldable pub start_cover : Job → Ports → Exec ℕ
unfolding launch reference_command
start_cover j p = do
  cover ← launch j.fixture.folder (reference_command j p)
  wait_port p.cover cover
  pure cover

unfoldable pub start_upstream : Job → Ports → Exec ℕ
unfolding launch upstream_command
start_upstream j p = do
  upstream ← launch j.fixture.folder (upstream_command j p)
  wait_port p.upstream upstream
  pure upstream

-- All up to the first fetch; the last component is the client's command.
unfoldable pub start_references : Job → Ports → Exec (Refs × List Text)
unfolding start_cover start_upstream set_options launch
start_references j p = do
  cover ← start_cover j p
  (sc, cc) ← configure j.root j.fixture (codes "veil-opt-reality") p.server p.client p.cover
  edit_json (j.fixture.folder ++ codes "/client.json") (set_options j true)
  edit_json (j.fixture.folder ++ codes "/server.json") (set_options j false)
  edit_json (j.fixture.folder ++ codes "/server.json") (set_key (codes "handshake_seconds") (num 1))
  server ← launch j.fixture.folder sc
  wait_port p.server server
  upstream ← start_upstream j p
  pure (record { cover = cover; upstream = upstream }, cc)

unfoldable pub reset_reference : Job → Ports → Refs → Exec Refs
unfolding start_cover start_upstream
reset_reference j p r = do
  stop r.upstream
  stop r.cover
  cover ← start_cover j p
  upstream ← start_upstream j p
  pure (record { cover = cover; upstream = upstream })

unfoldable pub endpoints : Ports → List (Text × ℕ)
endpoints p =
    (codes "direct", p.cover)
    ∷ (codes "upstream_reality", p.upstream)
    ∷ (codes "via_veil", p.server)
    ∷ []

unfoldable pub fetch_at : Kit → Text → Text × ℕ → Exec (Text × Json)
fetch_at kit cert (name, port) = do answer ← tls_fetch kit port cert 0; pure (name, answer)

-- A late request, or the exception that it raised.
unfoldable pub fetch_late : Kit → Text → Text × ℕ → Exec (Text × Json)
fetch_late kit cert (name, port) = do
  answer ← try_except (tls_fetch kit port cert 1300) is_os_error (λ e. pure (kit.describe e))
  pure (name, answer)

-- `len({json.dumps(v, sort_keys=True) for v in …}) == 1`
unfoldable pub all_same : Kit → List (Text × Json) → Bool
all_same kit [] = false
all_same kit ((name, v) ∷ []) = true
all_same kit ((name, v) ∷ (name', w) ∷ rest) =
    let others = all_same kit ((name', w) ∷ rest) in text_eq (kit.dumps v) (kit.dumps w) && others

unfoldable pub load_command : Job → Ports → List Text
load_command j p =
    (j.root ++ codes "/.build/benchpeer")
    ∷ codes "-socks"
    ∷ (codes "127.0.0.1:" ++ decimal p.client)
    ∷ codes "-target"
    ∷ (codes "127.0.0.1:" ++ decimal p.backend)
    ∷ codes "-mode"
    ∷ codes "E"
    ∷ codes "-rounds"
    ∷ codes "32"
    ∷ codes "-connections"
    ∷ codes "1"
    ∷ []

abbrev pub set_tap : ℕ → Locals → Locals
set_tap tap l = record l { taps = tap ∷ [] }

-- The session through the proxy: what the load said, and what was captured.
unfoldable pub valid_session : Job → Ports → List Text → Exec ((ℕ × (Text × Text)) × Capture)
unfolding launch load_command
valid_session j p cc = do
  tap ← ask (open_tap p.server)
  modify (set_tap tap)
  port ← ask (tap_port tap)
  edit_json (j.fixture.folder ++ codes "/client.json")
      (set_key (codes "server") (text (codes "127.0.0.1:" ++ decimal port)))
  client ← launch j.fixture.folder cc
  wait_port p.client client
  backend ←
      launch j.fixture.folder (backend_command (j.root ++ codes "/.build/benchpeer") p.backend)
  wait_port p.backend backend
  load ← ask (run_captured (load_command j p) (codes "go\n") 10)
  stop client
  ended ← ask (tap_done tap 4)
  ask (close_tap tap)
  captured ← ask (tap_capture tap)
  pure (load, captured)
