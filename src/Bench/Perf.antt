-- ===== src/Bench/Perf.antt =====
-- `Perf` and the readers of veil-core/scripts/benchmark.py.
pub mod Laws
use project_veil.Prelude.{
  ℕ, ◌+◌, ◌≡◌, Bool, true, false, not, List, [], ◌∷◌, ◌++◌, Option, none, some, Text, Bytes, Dict,
  lookup, insert, codes, decimal, contains, split_at, length, ltb, Error, Result, ok, err,
  runtime_error, timeout_error, index_error, or_raise, if◌then◌else◌,
}
use project_veil.Exec.Calls.{
  popen, mkfifo, open_fifo, open_file, write_fifo, select, read_fifo, run_checked, close, unlink,
  read_text, read_line,
}
use project_veil.Exec.{
  Perf, Locals, Exec, pure, raise, lift, ◌>>=◌, ◌>>◌, check, ask, start, wait_for, poll_of, modify,
  gets, when_none,
}
use project_veil.Bench.Json.{Json, dict}

-- Python's floating-point numbers, as JSON holds them.
pub record Numbers : Type 0 where
  pub of_text : Text → Option Json
  pub is_positive : Json → Bool
  pub divide : Json → Json → Result Json
  pub times : Json → ℕ → Json
  pub plus : Json → Json → Json
  pub minus : Json → Json → Json

-- `line`: the next line of a process's output, within the timeout, as JSON
unfoldable pub line : ℕ → ℕ → Exec Json
line p seconds = do
  ready ← ask (select p seconds)
  check ready (timeout_error (codes "benchmark output timeout"))
  raw ← ask (read_line p)
  lift (or_raise raw (runtime_error (codes "benchmark exited early")))

abbrev pub perf_of : Text → ℕ → ℕ → ℕ → ℕ → Perf
perf_of folder cf af log p = record {
  ctl = folder ++ codes "/perf.ctl";
  ack = folder ++ codes "/perf.ack";
  csv = folder ++ codes "/perf.csv";
  cf = cf;
  af = af;
  log = log;
  process = p;
}

abbrev pub add_counter : Perf → Locals → Locals
add_counter c l = record l { counters = l.counters ++ c ∷ [] }

abbrev pub set_counters : List Perf → Locals → Locals
set_counters cs l = record l { counters = cs }

abbrev pub perf_command : Text → ℕ → List Text
perf_command folder pid =
    codes "sudo"
    ∷ codes "-n"
    ∷ codes "perf"
    ∷ codes "stat"
    ∷ codes "-p"
    ∷ decimal pid
    ∷ codes "--delay=-1"
    ∷ (codes "--control=fifo:"
        ++ (folder ++ (codes "/perf.ctl" ++ (codes "," ++ (folder ++ codes "/perf.ack")))))
    ∷ codes "-x,"
    ∷ codes "-e"
    ∷ codes "task-clock,cycles,instructions"
    ∷ codes "-o"
    ∷ (folder ++ codes "/perf.csv")
    ∷ []

-- `counters.append(Perf(pid, folder))`
unfoldable pub add_perf : ℕ → Text → Exec Perf
add_perf pid folder = do
  ask (mkfifo (folder ++ codes "/perf.ctl"))
  ask (mkfifo (folder ++ codes "/perf.ack"))
  cf ← ask (open_fifo (folder ++ codes "/perf.ctl"))
  af ← ask (open_fifo (folder ++ codes "/perf.ack"))
  log ← ask (open_file (folder ++ codes "/perf.log"))
  start (popen (perf_command folder pid) none) >>= λ p.
      modify (add_counter (perf_of folder cf af log p)) >> pure (perf_of folder cf af log p)

-- `Perf.command`
unfoldable pub command : Perf → Text → Exec (Unit {0})
command c s = do
  ask (write_fifo c.cf (s ++ codes "\n"))
  ready ← ask (select c.af 10)
  check ready (runtime_error (codes "perf control timeout"))
  reply ← ask (read_fifo c.af)
  check (contains reply (codes "ack")) (runtime_error (codes "perf did not acknowledge"))

unfoldable pub interrupt : ℕ → Exec (Unit {0})
interrupt p = do
  ask (run_checked (codes "sudo" ∷ codes "-n" ∷ codes "kill" ∷ codes "-INT" ∷ decimal p ∷ []))
  code ← wait_for p (some 10)
  pure tt

-- `Perf.close`
unfoldable pub close_perf : Perf → Exec (Unit {0})
unfolding interrupt
close_perf c = do
  poll_of c.process >>= λ code. when_none code (interrupt c.process) (pure tt)
  ask (close c.cf)
  ask (close c.af)
  ask (unlink c.ctl)
  ask (unlink c.ack)
  ask (close c.log)

unfoldable pub close_head : List Perf → Exec Perf
unfolding close_perf
close_head [] = raise index_error
close_head (c ∷ cs) = do modify (set_counters cs); close_perf c; pure c

-- `counter = counters.pop(0); counter.close()`
unfoldable pub close_first : Exec Perf
unfolding close_head
close_first = gets (λ l. l.counters) >>= close_head

-- One row of the table that perf wrote: the third column names the count in the first.
unfoldable pub add_row : Numbers → List Text → Dict Json → Dict Json
add_row nums (count ∷ unit ∷ name ∷ more) result = elim (nums.of_text count) [
  | some n ↦ insert name n result
  | none ↦ result
]
add_row nums (count ∷ unit ∷ []) result = result
add_row nums (count ∷ []) result = result
add_row nums [] result = result

unfoldable pub rows_loop : Numbers → List Text → Dict Json → Dict Json
unfolding add_row
rows_loop nums [] result = result
rows_loop nums (row ∷ rows) result = rows_loop nums rows (add_row nums (split_at row 0x2C) result)

unfoldable pub has_clock : Numbers → Dict Json → Bool
has_clock nums result = elim (lookup (codes "task-clock") result) [
  | none ↦ false
  | some n ↦ nums.is_positive n
]

-- `Perf.values`; lines end at a line feed.
unfoldable pub values : Numbers → Perf → Exec (Dict Json)
unfolding rows_loop has_clock
values nums c = do
  csv ← ask (read_text c.csv)
  let result = rows_loop nums (split_at csv 0x0A) []
  check (has_clock nums result) (runtime_error (codes "no task-clock measurement: " ++ csv))
  pure result
