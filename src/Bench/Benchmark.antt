-- ===== src/Bench/Benchmark.antt =====
-- `trial` of veil-core/scripts/benchmark.py: the throughput of one variant, with the server's CPU time
-- measured by perf.
use project_veil.Prelude.{
  ℕ, List, [], ◌∷◌, ◌++◌, none, some, Text, codes, decimal, runtime_error, false, length, lookup,
  Dict, replicate, ◌-◌,
}
use project_veil.Exec.Calls.{mkdir, open_file, free_port, write_stdin}
use project_veil.Exec.{
  Locals, Exec, pure, lift, ◌>>=◌, ◌>>◌, check, ask, wait_for, gets, modify, for_each, try_finally,
  scoped,
}
use project_veil.Bench.Json.{Json, null, text, num, boolean, dict, get_key, get_or, is_true, update}
use project_veil.Bench.Configurations.{Fixture}
use project_veil.Bench.Processes.{wait_port, launch, start_listed, add_log, stop_all, close_all}
use project_veil.Bench.Perf.{Numbers, line, add_perf, set_counters, command, close_perf, values}
use project_veil.Bench.Peers.{cover_command, aes128, backend_command, configure, cpu, rss}

pub record Job : Type 0 where
  pub root : Text
  pub fixture : Fixture
  pub variant : Text
  pub mode : Text
  pub connections : ℕ
  pub size : ℕ
  pub rounds : ℕ
  pub index : ℕ

pub record Peers : Type 0 where
  pub server : ℕ
  pub client : ℕ
  pub load : ℕ

-- `f"{n:03d}"`
unfoldable pub three_digits : ℕ → Text
three_digits n = let d = decimal n in replicate (3 - length d) 0x30 ++ d

unfoldable pub folder_of : Job → Text
unfolding three_digits
folder_of j =
    j.fixture.folder
    ++ (codes "/"
        ++ (three_digits j.index
            ++ (codes "-" ++ (j.variant ++ (codes "-" ++ (j.mode ++ decimal j.connections))))))

unfoldable pub load_command : Job → ℕ → ℕ → List Text
load_command j cp bp =
    (j.root ++ codes "/.build/benchpeer")
    ∷ codes "-socks"
    ∷ (codes "127.0.0.1:" ++ decimal cp)
    ∷ codes "-target"
    ∷ (codes "127.0.0.1:" ++ decimal bp)
    ∷ codes "-mode"
    ∷ j.mode
    ∷ codes "-connections"
    ∷ decimal j.connections
    ∷ codes "-bytes"
    ∷ decimal j.size
    ∷ codes "-rounds"
    ∷ decimal j.rounds
    ∷ []

unfoldable pub start_peers : Job → Text → ℕ → ℕ → ℕ → ℕ → Exec Peers
unfolding load_command
start_peers j folder coverp backendp sp cp = do
  cover ← launch folder (cover_command j.fixture coverp aes128) (some (codes "16,17")) 2
  wait_port coverp cover
  backend ←
      launch folder (backend_command (j.root ++ codes "/.build/benchpeer") backendp)
        (some (codes "16,17")) 2
  wait_port backendp backend
  (sc, cc) ← configure j.root j.fixture j.variant sp cp coverp
  server ← launch folder sc (some (codes "14")) 1
  wait_port sp server
  client ← launch folder cc (some (codes "22,23,24,25")) 4
  wait_port cp client
  errlog ← ask (open_file (folder ++ codes "/load.log"))
  modify (add_log errlog)
  load ← start_listed (load_command j cp backendp) (some (codes "18,19,20,21")) 4
  pure (record { server = server; client = client; load = load })

-- What the peers used: the row with their memory, the counts of perf, and the CPU seconds of server
-- and client.
pub record Measured : Type 0 where
  pub row : Json
  pub counts : Dict Json
  pub server_cpu : Json
  pub client_cpu : Json

-- `perf = None` drops the counter only after its values are read.
unfoldable pub measure : Numbers → Text → Peers → Exec Measured
measure nums folder p = do
  ready ← line p.load 90
  flag ← lift (get_or (codes "ready") (boolean false) ready)
  check (is_true flag) (runtime_error (codes "load not ready"))
  perf ← add_perf p.server folder
  command perf (codes "enable")
  server_before ← cpu nums p.server
  client_before ← cpu nums p.client
  ask (write_stdin p.load (codes "go\n"))
  row ← line p.load 90
  command perf (codes "disable")
  server_after ← cpu nums p.server
  client_after ← cpu nums p.client
  server_rss ← rss p.server
  client_rss ← rss p.client
  row1 ← lift (
      update
        ((codes "server_rss_bytes", num server_rss)
          ∷ (codes "client_rss_bytes", num client_rss)
          ∷ [])
        row)
  close_perf perf
  counts ← values nums perf
  modify (set_counters [])
  code ← wait_for p.load (some 5)
  pure (record {
    row = row1;
    counts = counts;
    server_cpu = nums.minus server_after server_before;
    client_cpu = nums.minus client_after client_before;
  })

-- `counts.get(name)`
abbrev pub count_or_null : Text → Dict Json → Json
count_or_null name counts = elim (lookup name counts) [ some n ↦ n | none ↦ null ]

-- The rates that the row gets; `2**30` bytes are one GiB.
unfoldable pub add_rates : Numbers → Job → Measured → Exec Json
add_rates nums j m = do
  clock ← lift (get_key (codes "task-clock") (dict m.counts))
  seconds ← lift (nums.divide clock (num 1000))
  bytes ← lift (get_key (codes "bytes") m.row)
  gib ← lift (nums.divide bytes (num 1073741824))
  per_cpu ← lift (nums.divide gib seconds)
  elapsed ← lift (get_key (codes "seconds") m.row)
  per_second ← lift (nums.divide gib elapsed)
  utilization ← lift (nums.divide seconds elapsed)
  lift (
      update
        ((codes "variant", text j.variant)
          ∷ (codes "index", num j.index)
          ∷ (codes "server_cpu_seconds", seconds)
          ∷ (codes "server_process_cpu_seconds", m.server_cpu)
          ∷ (codes "client_process_cpu_seconds", m.client_cpu)
          ∷ (codes "cycles", count_or_null (codes "cycles") m.counts)
          ∷ (codes "instructions", count_or_null (codes "instructions") m.counts)
          ∷ (codes "gib_per_cpu_second", per_cpu)
          ∷ (codes "gib_per_second", per_second)
          ∷ (codes "server_cpu_utilization", utilization)
          ∷ [])
        m.row)

unfoldable pub body : Numbers → Job → Text → ℕ → ℕ → ℕ → ℕ → Exec Json
unfolding start_peers measure add_rates
body nums j folder coverp backendp sp cp = do
  peers ← start_peers j folder coverp backendp sp cp
  measured ← measure nums folder peers
  add_rates nums j measured

-- The `finally` block; `perf` is the one counter there may be.
unfoldable pub cleanup : Locals → Exec (Unit {0})
cleanup l = do for_each l.counters close_perf; stop_all l.procs; close_all l.logs

unfoldable pub trial : Numbers → Job → Exec Json
unfolding folder_of body cleanup
trial nums j = do
  let folder = folder_of j
  ask (mkdir folder)
  coverp ← ask free_port
  backendp ← ask free_port
  sp ← ask free_port
  cp ← ask free_port
  scoped (try_finally (body nums j folder coverp backendp sp cp) (gets (λ l. l) >>= cleanup))
