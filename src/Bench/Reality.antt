-- ===== src/Bench/Reality.antt =====
-- `trial` of veil-core/scripts/reality_benchmark.py: handshakes or short streams, measured by perf or
-- captured.
pub mod Laws
use project_veil.Prelude.{
  ℕ, ◌+◌, ◌*◌, ◌≡◌, Bool, true, false, not, ◌||◌, ◌&&◌, List, [], ◌∷◌, ◌++◌, Option, none, some,
  Text, Bytes, codes, hex, decimal, Result, ok, err, runtime_error, ◌==◌, text_eq, if◌then◌else◌,
}
use project_veil.Exec.Calls.{
  mkdir, flush, free_port, write_stdin, close_stdin, open_tap, tap_port, tap_done, tap_wire,
  close_tap,
}
use project_veil.Exec.{
  Perf, Locals, Exec, pure, raise, lift, ◌>>=◌, ◌>>◌, check, ask, wait_for, gets, modify, for_each,
  when_none, try_finally, scoped,
}
use project_veil.Bench.Json.{
  Json, text, num, boolean, dict, fields, object, set_key, get_key, get_or, is_true, update,
}
use project_veil.Bench.Completion.{Stats, stats_json}
use project_veil.Bench.Configurations.{Fixture}
use project_veil.Bench.Processes.{stop, wait_port, launch, stop_all, close_all}
use project_veil.Bench.Perf.{Numbers, line, add_perf, command, close_perf, close_first, values}
use project_veil.Bench.Peers.{
  cover_command, aes128, backend_command, configure, with_binary, edit_json, read_stats,
}

pub record Job : Type 0 where
  pub root : Text
  pub fixture : Fixture
  pub binaries : Text
  pub mode : Text
  pub rounds : ℕ
  pub folder : Text
  pub optimized : Bool
  pub capture : Bool
  pub client_tls : List (Text × Json)
  pub server_tls : List (Text × Json)

pub record Peers : Type 0 where
  pub server : ℕ
  pub client : ℕ
  pub load : ℕ
  pub tap : Option ℕ

-- `if overrides: … cfg["tls"].update(overrides)`
unfoldable pub override : Text → List (Text × Json) → Exec (Unit {0})
override path [] = pure tt
override path (o ∷ overrides) = edit_json path (λ cfg. elim (get_key (codes "tls") cfg) [
  | err e ↦ err e
  | ok tls ↦ elim (update (o ∷ overrides) tls) [
    | err e ↦ err e
    | ok tls' ↦ set_key (codes "tls") tls' cfg
  ]
])

abbrev pub add_tap : ℕ → Locals → Locals
add_tap tap l = record l { taps = tap ∷ [] }

-- The capture between the client and the server, if there is one.
unfoldable pub tap_server : Job → ℕ → Exec (Option ℕ)
tap_server j sp =
    if j.capture
    then (do
      tap ← ask (open_tap sp)
      modify (add_tap tap)
      port ← ask (tap_port tap)
      edit_json (j.fixture.folder ++ codes "/client.json")
          (set_key (codes "server") (text (codes "127.0.0.1:" ++ decimal port)))
      pure (some tap))
    else pure none

unfoldable pub handshake_command : Job → Option ℕ → ℕ → List Text
handshake_command j tap bp =
    (j.binaries
      ++ (if j.optimized then codes "/handshakebench-batch" else codes "/handshakebench-native"))
    ∷ codes "-config"
    ∷ (j.fixture.folder ++ codes "/client.json")
    ∷ codes "-target"
    ∷ (codes "127.0.0.1:" ++ decimal bp)
    ∷ codes "-rounds"
    ∷ decimal j.rounds
    ∷ codes "-warmup"
    ∷ elim tap [ some _ ↦ codes "0" | none ↦ codes "16" ]
    ∷ []

unfoldable pub stream_command : Job → ℕ → ℕ → List Text
stream_command j cp bp =
    (j.root ++ codes "/.build/benchpeer")
    ∷ codes "-socks"
    ∷ (codes "127.0.0.1:" ++ decimal cp)
    ∷ codes "-target"
    ∷ (codes "127.0.0.1:" ++ decimal bp)
    ∷ codes "-mode"
    ∷ j.mode
    ∷ codes "-connections"
    ∷ codes "1"
    ∷ codes "-rounds"
    ∷ decimal j.rounds
    ∷ []

-- The client and the load: in mode H the load is the client.
unfoldable pub start_load : Job → ℕ → ℕ → ℕ → Option ℕ → List Text → Exec Peers
unfolding handshake_command stream_command
start_load j cp bp server tap cc =
    if text_eq j.mode (codes "H")
    then (do
      load ← launch j.folder (handshake_command j tap bp) (some (codes "22")) 1
      pure (record { server = server; client = load; load = load; tap = tap }))
    else (do
      client ← launch j.folder cc (some (codes "22")) 1
      wait_port cp client
      load ← launch j.folder (stream_command j cp bp) (some (codes "18")) 1
      pure (record { server = server; client = client; load = load; tap = tap }))

-- `sc[0] = binaries / sc[0].name`
unfoldable pub binary_of : Job → Text → Text → Text
binary_of j fast slow = j.binaries ++ (codes "/" ++ (if j.optimized then fast else slow))

unfoldable pub start_peers : Job → Exec Peers
unfolding override tap_server start_load binary_of
start_peers j = do
  coverp ← ask free_port
  bp ← ask free_port
  sp ← ask free_port
  cp ← ask free_port
  cover ← launch j.folder (cover_command j.fixture coverp aes128) (some (codes "16")) 1
  wait_port coverp cover
  backend ←
      launch j.folder (backend_command (j.root ++ codes "/.build/benchpeer") bp) (some (codes "17"))
        1
  wait_port bp backend
  let variant = if j.optimized then codes "veil-opt-reality" else codes "veil-native-reality"
  (sc, cc) ← configure j.root j.fixture variant sp cp coverp
  override (j.fixture.folder ++ codes "/client.json") j.client_tls
  override (j.fixture.folder ++ codes "/server.json") j.server_tls
  let sc' = with_binary (binary_of j (codes "veil-openssl") (codes "veil-native")) sc
  let cc' = with_binary (binary_of j (codes "veil-batch") (codes "veil-native")) cc
  server ← launch j.folder sc' (some (codes "14")) 1
  wait_port sp server
  tap ← tap_server j sp
  start_load j cp bp server tap cc'

unfoldable pub count_peer : Text → Text × ℕ → Exec (Unit {0})
count_peer folder (name, p) = do
  let d = folder ++ (codes "/" ++ name)
  ask (mkdir d)
  counter ← add_perf p d
  pure tt

-- The counters of the two peers, where nothing is captured.
unfoldable pub enable_counters : Job → Peers → Exec (Unit {0})
unfolding count_peer
enable_counters j p =
    when_none p.tap
      (do
        for_each ((codes "server", p.server) ∷ (codes "client", p.client) ∷ [])
            (count_peer j.folder)
        counters ← gets (λ l. l.counters)
        for_each counters (λ c. command c (codes "enable")))
      (pure tt)

-- `row[name + "_perf"]` and `row[name + "_cpu_us_per_request"]` of the counters, one by one
unfoldable pub add_values : Numbers → List Text → Json → Exec Json
add_values nums [] row = pure row
add_values nums (name ∷ names) row = do
  counter ← close_first
  counts ← values nums counter
  row1 ← lift (set_key (name ++ codes "_perf") (dict counts) row)
  task_clock ← lift (get_key (codes "task-clock") (dict counts))
  requests ← lift (get_key (codes "requests") row1)
  cost ← lift (nums.divide (nums.times task_clock 1000) requests)
  row2 ← lift (set_key (name ++ codes "_cpu_us_per_request") cost row1)
  add_values nums names row2

-- The names of the loop: none where nothing is counted.
unfoldable pub counted_names : List Perf → List Text
counted_names [] = []
counted_names (c ∷ cs) = codes "server" ∷ codes "client" ∷ []

unfoldable pub add_capture : Option ℕ → Json → Exec Json
add_capture none row = pure row
add_capture (some tap) row = do
  done ← ask (tap_done tap 5)
  ask (close_tap tap)
  (sent, answered) ← ask (tap_wire tap)
  lift (
      set_key (codes "capture")
        (dict ((codes "up", text (hex sent)) ∷ (codes "down", text (hex answered)) ∷ [])) row)

unfoldable pub measure : Numbers → Job → Peers → Exec Json
unfolding enable_counters add_values counted_names add_capture
measure nums j p = do
  ready ← line p.load 90
  flag ← lift (get_or (codes "ready") (boolean false) ready)
  check (is_true flag) (runtime_error (codes "load not ready"))
  enable_counters j p
  ask (write_stdin p.load (codes "go\n"))
  row ← line p.load 90
  counters ← gets (λ l. l.counters)
  for_each counters (λ c. command c (codes "disable"))
  row1 ← add_values nums (counted_names counters) row
  ask (close_stdin p.load)
  code ← wait_for p.load (some 5)
  check (code == 0) (runtime_error (codes "load failed"))
  add_capture p.tap row1

-- The expected counters: every round completed, warmup included where nothing is captured; the one
-- failure is the probe of the listener.
unfoldable pub is_expected : ℕ → Option ℕ → Stats → Bool
is_expected rounds tap m =
    m.completed == (rounds + elim tap [ some _ ↦ 0 | none ↦ 16 ])
    && (m.rejected == 0 && m.failed == 1)

unfoldable pub finish : Numbers → Job → Peers → Json → Exec Json
unfolding is_expected
finish nums j p row = do
  stop p.client
  stop p.server
  logs ← gets (λ l. l.logs)
  for_each logs (λ log. ask (flush log))
  m ← read_stats (j.folder ++ codes "/process-2.log") (codes "missing server completion counters")
  row1 ← lift (set_key (codes "server_stats") (stats_json m) row)
  check (is_expected j.rounds p.tap m) (runtime_error (codes "unexpected server counters"))
  requests ← lift (get_key (codes "requests") row1)
  seconds ← lift (get_key (codes "seconds") row1)
  rate ← lift (nums.divide requests seconds)
  lift (set_key (codes "requests_per_second") rate row1)

unfoldable pub body : Numbers → Job → Exec Json
unfolding start_peers measure finish
body nums j = do peers ← start_peers j; row ← measure nums j peers; finish nums j peers row

unfoldable pub cleanup : Locals → Exec (Unit {0})
cleanup l = do
  for_each l.counters close_perf
  stop_all l.procs
  for_each l.taps (λ tap. ask (close_tap tap))
  close_all l.logs

unfoldable pub trial : Numbers → Job → Exec Json
unfolding body cleanup
trial nums j =
    ask (mkdir j.folder) >> scoped (try_finally (body nums j) (gets (λ l. l) >>= cleanup))
