-- ===== src/Lib.antt =====
-- Project Veil: a verification of the logic in the repository's Python tooling.
--
-- The repository builds a proxy (Go and Rust) with Python scripts around it. The scripts decide
-- which checks a change needs, verify a release before it is published, install the desktop client
-- and read captured TLS traffic to compare the proxy with a browser. A wrong answer of such a script
-- is silent: a check is skipped, a wrong package is published, two captures are called equal. This
-- library models the logic and states what makes it right.
--
-- Parts, and the files that model them:
--
-- - Tls/Record, Tls/Histogram: TLS record framing as veil-core/scripts/reality_fingerprint.py
--   (`records`) and veil-core/scripts/probe.py (the loop of `sample`, `histogram`) read it.
--   Tls/Record/Frames states the framing itself, as a relation free of any reader.
-- - Tls/Capture: the relay `Capture` of probe.py. Its two threads append to one list of events and
--   to a wire each; a run is a list of ticks, one statement of one thread each, and so any
--   interleaving. Tls/Shapes: `shapes` of veil-core/scripts/traffic_shapes.py, the report on it.
-- - Tls/Hello: `grease`, `words` and `hello` of reality_fingerprint.py. Tls/Hello/Wire states the
--   layout of a ClientHello.
-- - Ci/Routing, Ci/Gate: `scopes`, `changes` and `check_gate` of .github/scripts/ci.py. The gate reads
--   what the routing wrote.
-- - Release: `payload`, `verify_manifest` and `verify` of .github/scripts/release.py.
-- - Desktop: `safe_path`, `desktop_entry`, `atomic_write` and `manage` of
--   veil-desktop/scripts/install.py, over a tree of files (Desktop/Files) and a `Host` that supplies
--   the codecs, the names of temporary files and the faults of the system. Desktop/Install/Launcher
--   reads an Exec value as the Desktop Entry Specification says.
-- - Bench: `configurations` of veil-core/scripts/fixtures.py, with JSON documents as a data type.
-- - Exec: what a script does to the system. An action is a function of the state that returns or
--   raises, and the state comes back beside the exception. Exec/Calls lists the calls of the system
--   and of Python's libraries; a `System` answers each, by what was called before, so a statement
--   about all systems is one about all behaviours and all failures. Exec/Keeps, Exec/Finally and
--   Exec/Returns have one proof rule for each way to build an action.
-- - Bench/Processes, Bench/Stack: `spawn`, `wait_port`, `stop` of fixtures.py, the `launch` functions,
--   and `contextlib.ExitStack`. Bench/Perf, Bench/Peers, Bench/Completion: `Perf`, `line`, `cpu` and
--   `rss` of veil-core/scripts/benchmark.py, and what several trials share.
-- - Bench/Benchmark, Bench/Regression, Bench/Reality, Bench/Traffic, Bench/Browser: the functions
--   `trial` of benchmark.py, core_regression.py, reality_benchmark.py, traffic_shapes.py and
--   browser_shapes.py (all in veil-core/scripts), from the first call to the cleanup.
-- - Bench/Comparison: `comparison` of core_regression.py; the median is a parameter.
-- - Bench/Summary: `summarize` of benchmark.py, with the median as a parameter too.
-- - Bench/Probe: `tls_fetch`, `sample` and `run_profile` of probe.py, the last behind its call of
--   `fixture`.
-- - Tls/Group: a connection of `CaptureGroup` of browser_shapes.py as Tls/Capture has it, and `result`.
-- - Prelude: texts and bytes as lists of code points, Python's str and dict operations, exceptions.
-- - Tests: runs, and instances of the theorems.
--
-- Conventions. A function that may raise returns a `Result`; the message of an exception is kept. A
-- `while` loop recurs on fuel. The fuel is the length of the input, and every round takes at least one
-- byte (records, key shares: four, five), so it suffices. Where it would run out the model returns
-- the error `out_of_fuel`, which no Python code raises. A byte is any natural number, so statements
-- about bytes hold for more than the bytes. Dicts are association lists in insertion order.
--
-- In an action a process is the number it got at its start, and a file, a socket, a capture or a
-- clock reading is a number too; a return code that is not zero stands for all of them. `held` are the
-- processes that were started and not yet waited for or seen to have ended. What a `finally` block
-- reads of the variables is in `Locals`. `read_line` and `read_json` hand out a parsed document. The
-- floating-point arithmetic of the trials is the parameter `Numbers`, where `is_positive` is the
-- negation of `<= 0`. Three messages are shorter than in the scripts: those of `wait_port`, of
-- `check_stats` in Bench/Regression and of a driver that was killed. Lines end at a line feed only.
-- A digit of a log is any decimal digit of Unicode 15.0, by a table of their zeros.
-- The loop of `wait_port` has its 300 rounds, and loops that read until a size get a byte in each
-- round, so the size is enough fuel.
--
-- The statements that no process is left assume `Docile` (Exec/Keeps): children can be polled and
-- signalled; a wait without a limit returns right after the process, or the group that it leads, was
-- killed, and a wait of ten seconds right after `perf` was interrupted; a wait with a limit raises
-- nothing but its timeout, and a group that cannot be killed is not found; closing descriptors and
-- captures and removing fifos raises nothing. Nothing is assumed of all other calls, each of which may
-- raise. `exit_stack` in Bench/Stack stands for Python's `contextlib.ExitStack`, by its documented
-- order of callbacks.
--
-- What a socket call answers and what a clock reads are inputs of a tick. The conversion of clock
-- readings to milliseconds is a parameter.
--
-- The file tree is one dict of absolute paths. A symbolic link carries what it leads to, so a link is
-- told from a file, but a write through a link is not modelled: the installer refuses links first. The
-- system may refuse any write, directory or removal of the installer, by an `OSError` that leaves what
-- was done until then; a failing `print` at its end is not modelled.
--
-- Not modelled: SHA-256, text codecs, zip, tar and JSON readers, Git (parameters); the inside of the
-- operating system's calls; command lines, `main` functions and the other summaries; how a group of
-- captures accepts and closes; `fixture`, which runs openssl; the Go and Rust sources, the web
-- interfaces and the platform packages, which the Python scripts only build or run.
pub mod Bench
pub mod Ci
pub mod Desktop
pub mod Exec
pub mod Prelude
pub mod Release
pub mod Tests
pub mod Tls
