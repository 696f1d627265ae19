-- ===== src/Bench/Processes.antt =====
-- `spawn`, `wait_port` and `stop` of veil-core/scripts/fixtures.py, and the `launch` of the scripts.
pub mod Laws
pub mod Stops
use project_veil.Prelude.{
  ℕ, zero, suc, List, [], ◌∷◌, ◌++◌, Option, none, some, Text, codes, decimal, Error, runtime_error,
  timeout_error, os_error, process_lookup_error, connection_reset_error, Bool, true, false, Bytes,
  length, if◌then◌else◌,
}
use mathlib.Core.List.{reverse}
use project_veil.Exec.Calls.{
  Call, popen, poll, terminate, kill, wait, connect, close, sleep_ms, open_file, flush, free_port,
}
use project_veil.Exec.{
  Locals, Exec, pure, raise, ◌>>=◌, ◌>>◌, ask, start, wait_for, poll_of, modify, gets, try_except,
  for_each, when_none,
}
use project_veil.Exec.Keeps.{is_timeout}

abbrev pub is_os_error : Error → Bool
is_os_error os_error = true
is_os_error process_lookup_error = true
is_os_error connection_reset_error = true
is_os_error (timeout_error _) = true
is_os_error _ = false

-- `proc.terminate()`, five seconds, `proc.kill()`
unfoldable pub stop : ℕ → Exec (Unit {0})
stop p = do
  code ← poll_of p
  when_none code
      (ask (terminate p)
        >> try_except (wait_for p (some 5) >>= λ _. pure tt) is_timeout
            (λ _. ask (kill p) >> (wait_for p none >>= λ _. pure tt)))
      (pure tt)

-- The body of the loop of `wait_port`: `true` if the port answers.
unfoldable pub try_port : Text → ℕ → ℕ → Exec Bool
try_port host port timeout_ms =
    try_except (ask (connect host port timeout_ms) >>= λ c. ask (close c) >> pure true) is_os_error
      (λ _. ask (sleep_ms 10) >> pure false)

-- One round of the loop; `rest` are the others.
unfoldable pub wait_round : Text → ℕ → ℕ → ℕ → Exec (Unit {0}) → Exec (Unit {0})
unfolding try_port
wait_round host port timeout_ms p rest = do
  code ← poll_of p
  when_none code (try_port host port timeout_ms >>= λ up. if up then pure tt else rest)
      (raise (runtime_error (codes "process exited")))

unfoldable pub wait_port_loop : ℕ → Text → ℕ → ℕ → ℕ → Exec (Unit {0})
unfolding wait_round
wait_port_loop zero host port timeout_ms p = raise (timeout_error (codes "listener did not start"))
wait_port_loop (suc rounds) host port timeout_ms p =
    wait_round host port timeout_ms p (wait_port_loop rounds host port timeout_ms p)

unfoldable pub wait_port : ℕ → ℕ → Exec (Unit {0})
unfolding wait_port_loop
wait_port port p = wait_port_loop 300 (codes "127.0.0.1") port 50 p

abbrev pub add_log : ℕ → Locals → Locals
add_log log l = record l { logs = l.logs ++ log ∷ [] }

abbrev pub add_proc : ℕ → Locals → Locals
add_proc p l = record l { procs = l.procs ++ p ∷ [] }

-- A log file beside the others, named by the count of the processes.
unfoldable pub open_log : Text → Exec ℕ
open_log folder = do
  l ← gets (λ l. l)
  log ←
      ask (open_file (folder ++ (codes "/process-" ++ (decimal (length l.procs) ++ codes ".log"))))
  modify (add_log log)
  pure log

-- `spawn`: a process with GOMAXPROCS, pinned to CPUs where some are given
unfoldable pub spawn : List Text → Option Text → ℕ → Call (Unit {0})
spawn cmd none procs = popen cmd (some procs)
spawn cmd (some []) procs = popen cmd (some procs)
spawn cmd (some (c ∷ cores)) procs =
    popen (codes "taskset" ∷ codes "-c" ∷ (c ∷ cores) ∷ cmd) (some procs)

unfoldable pub start_listed : List Text → Option Text → ℕ → Exec ℕ
unfolding spawn
start_listed cmd cores procs = do p ← start (spawn cmd cores procs); modify (add_proc p); pure p

-- The function `launch` that the scripts define.
unfoldable pub launch : Text → List Text → Option Text → ℕ → Exec ℕ
unfolding open_log start_listed
launch folder cmd cores procs = do log ← open_log folder; start_listed cmd cores procs

-- `for p in reversed(procs): stop(p)` and `for log in logs: log.close()`
unfoldable pub stop_all : List ℕ → Exec (Unit {0})
unfolding stop
stop_all procs = for_each (reverse procs) stop

unfoldable pub close_all : List ℕ → Exec (Unit {0})
close_all logs = for_each logs (λ log. ask (close log))
