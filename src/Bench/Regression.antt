-- ===== src/Bench/Regression.antt =====
-- `trial` of veil-core/scripts/core_regression.py: a proxy pair under load, measured by perf.
pub mod Laws
use project_veil.Prelude.{
  ℕ, ◌+◌, ◌≡◌, Bool, true, false, not, ◌||◌, ◌&&◌, List, [], ◌∷◌, ◌++◌, Option, none, some, Text,
  codes, decimal, Result, ok, err, runtime_error, ◌==◌, text_eq, if◌then◌else◌,
}
use project_veil.Exec.Calls.{mkdir, open_file, flush, free_port, write_stdin, close_stdin, close}
use project_veil.Exec.{
  Perf, Locals, Exec, pure, raise, lift, ◌>>=◌, ◌>>◌, check, ask, wait_for, gets, modify, for_each,
  try_finally, scoped,
}
use project_veil.Bench.Json.{
  Json, text, num, boolean, dict, set_key, set_inner, get_key, get_or, is_true,
}
use project_veil.Bench.Completion.{Stats, stats_json}
use project_veil.Bench.Configurations.{Fixture}
use project_veil.Bench.Processes.{stop, wait_port, launch, stop_all, close_all}
use project_veil.Bench.Perf.{Numbers, line, add_perf, command, close_perf, close_first, values}
use project_veil.Bench.Peers.{
  cover_command, aes128, backend_command, configure, with_binary, edit_json, rss, read_stats,
}

-- The parameters of `trial`; `cores` are the texts of the CPU numbers.
pub record Cores : Type 0 where
  pub server : Text
  pub client : Text
  pub backend : Text
  pub load : Text

pub record Job : Type 0 where
  pub root : Text
  pub fixture : Fixture
  pub server_binary : Text
  pub client_binary : Text
  pub peer : Text
  pub mode : Text
  pub size : ℕ
  pub rounds : ℕ
  pub folder : Text
  pub cores : Cores
  pub padding : Bool

-- The processes that are measured, and the one that drives them.
pub record Peers : Type 0 where
  pub server : ℕ
  pub client : ℕ
  pub load : ℕ

-- The change of a document for one of the two roles.
unfoldable pub set_padding : Bool → Bool → Json → Result Json
set_padding padding is_client cfg =
    if is_client
    then (elim (set_inner (codes "tls") (codes "record_padding") (boolean padding) cfg) [
      | err e ↦ err e
      | ok cfg' ↦ set_inner (codes "tls") (codes "fingerprint") (text (codes "chrome149")) cfg'
    ])
    else set_inner (codes "tls") (codes "record_padding") (boolean padding) cfg

unfoldable pub load_command : Job → ℕ → ℕ → List Text
load_command j cp bp =
    j.peer
    ∷ codes "-socks"
    ∷ (codes "127.0.0.1:" ++ decimal cp)
    ∷ codes "-target"
    ∷ (codes "127.0.0.1:" ++ decimal bp)
    ∷ codes "-mode"
    ∷ j.mode
    ∷ codes "-connections"
    ∷ codes "1"
    ∷ codes "-bytes"
    ∷ decimal j.size
    ∷ codes "-rounds"
    ∷ decimal j.rounds
    ∷ []

unfoldable pub start_peers : Job → Exec Peers
unfolding set_padding load_command
start_peers j = do
  coverp ← ask free_port
  bp ← ask free_port
  sp ← ask free_port
  cp ← ask free_port
  cover ← launch j.folder (cover_command j.fixture coverp aes128) (some j.cores.backend) 1
  wait_port coverp cover
  backend ← launch j.folder (backend_command j.peer bp) (some j.cores.backend) 1
  wait_port bp backend
  (sc, cc) ← configure j.root j.fixture (codes "veil-opt-reality") sp cp coverp
  edit_json (j.fixture.folder ++ codes "/client.json") (set_padding j.padding true)
  edit_json (j.fixture.folder ++ codes "/server.json") (set_padding j.padding false)
  server ← launch j.folder (with_binary j.server_binary sc) (some j.cores.server) 1
  wait_port sp server
  client ← launch j.folder (with_binary j.client_binary cc) (some j.cores.client) 1
  wait_port cp client
  load ← launch j.folder (load_command j cp bp) (some j.cores.load) 1
  pure (record { server = server; client = client; load = load })

unfoldable pub count_peer : Text → Text × ℕ → Exec (Unit {0})
count_peer folder (name, p) = do
  let dest = folder ++ (codes "/" ++ name)
  ask (mkdir dest)
  counter ← add_perf p dest
  command counter (codes "enable")

-- `row[name + "_perf"] = counter.values()`, for one counter after the other
unfoldable pub add_values : Numbers → List Text → Json → Exec Json
add_values nums [] row = pure row
add_values nums (name ∷ names) row = do
  counter ← close_first
  counts ← values nums counter
  row' ← lift (set_key (name ++ codes "_perf") (dict counts) row)
  add_values nums names row'

unfoldable pub measure : Numbers → Job → Peers → Exec Json
unfolding count_peer add_values
measure nums j p = do
  ready ← line p.load 90
  flag ← lift (get_or (codes "ready") (boolean false) ready)
  check (is_true flag) (runtime_error (codes "load not ready"))
  for_each ((codes "server", p.server) ∷ (codes "client", p.client) ∷ []) (count_peer j.folder)
  ask (write_stdin p.load (codes "go\n"))
  row ← line p.load 90
  counters ← gets (λ l. l.counters)
  for_each counters (λ c. command c (codes "disable"))
  server_rss ← rss p.server
  client_rss ← rss p.client
  row1 ← lift (set_key (codes "server_rss_bytes") (num server_rss) row)
  row2 ← lift (set_key (codes "client_rss_bytes") (num client_rss) row1)
  row3 ← add_values nums (codes "server" ∷ codes "client" ∷ []) row2
  ask (close_stdin p.load)
  code ← wait_for p.load (some 5)
  check (code == 0) (runtime_error (codes "load failed"))
  pure row3

-- The counters of a short-stream run: all streams completed, none rejected, and the one failure is
-- the probe of the listener.
unfoldable pub is_short_run : ℕ → Stats → Bool
is_short_run rounds m = m.completed == (rounds + 16) && (m.rejected == 0 && m.failed == 1)

unfoldable pub check_stats : Job → Stats → Exec (Unit {0})
unfolding is_short_run
check_stats j m =
    check (not (text_eq j.mode (codes "S")) || is_short_run j.rounds m)
      (runtime_error (codes "short-stream behavior changed"))

-- `row["throughput"]`, `row["cpu_ms"]` and `row["work_per_cpu_ms"]`
unfoldable pub add_rates : Numbers → Json → Exec Json
add_rates nums row = do
  bytes ← lift (get_key (codes "bytes") row)
  work ← lift (get_or (codes "requests") bytes row)
  seconds ← lift (get_key (codes "seconds") row)
  throughput ← lift (nums.divide work seconds)
  row1 ← lift (set_key (codes "throughput") throughput row)
  client_perf ← lift (get_key (codes "client_perf") row1)
  client_ms ← lift (get_key (codes "task-clock") client_perf)
  server_perf ← lift (get_key (codes "server_perf") row1)
  server_ms ← lift (get_key (codes "task-clock") server_perf)
  let cpu_ms = nums.plus (nums.plus (num 0) client_ms) server_ms
  row2 ← lift (set_key (codes "cpu_ms") cpu_ms row1)
  per_cpu ← lift (nums.divide work cpu_ms)
  lift (set_key (codes "work_per_cpu_ms") per_cpu row2)

unfoldable pub finish : Numbers → Job → Peers → Json → Exec Json
unfolding check_stats add_rates
finish nums j p row = do
  stop p.client
  stop p.server
  logs ← gets (λ l. l.logs)
  for_each logs (λ log. ask (flush log))
  served ← read_stats (j.folder ++ codes "/process-2.log") (codes "missing completion counters")
  row1 ← lift (set_key (codes "server_stats") (stats_json served) row)
  opened ← read_stats (j.folder ++ codes "/process-3.log") (codes "missing completion counters")
  row2 ← lift (set_key (codes "client_stats") (stats_json opened) row1)
  check_stats j served
  check_stats j opened
  add_rates nums row2

unfoldable pub body : Numbers → Job → Exec Json
unfolding start_peers measure finish
body nums j = do peers ← start_peers j; row ← measure nums j peers; finish nums j peers row

-- The `finally` block.
unfoldable pub cleanup : Locals → Exec (Unit {0})
cleanup l = do for_each l.counters close_perf; stop_all l.procs; close_all l.logs

unfoldable pub trial : Numbers → Job → Exec Json
unfolding body cleanup
trial nums j =
    ask (mkdir j.folder) >> scoped (try_finally (body nums j) (gets (λ l. l) >>= cleanup))
