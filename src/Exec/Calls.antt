-- ===== src/Exec/Calls.antt =====
-- The calls of the system and of Python's libraries, indexed by the type of what each returns.
use project_veil.Prelude.{ℕ, Bool, List, Option, Text, Bytes}
use project_veil.Bench.Json.{Json}
use project_veil.Tls.Capture.{Capture}
use project_veil.Tls.Group.{Item}

pub data Call : Type 0 → Type 1 where
  -- files; a file, a fifo and a socket are numbers
  mkdir unlink rmtree mkfifo : Text → Call (Unit {0})
  open_file open_fifo : Text → Call ℕ
  close flush : ℕ → Call (Unit {0})
  write_fifo : ℕ → Bytes → Call (Unit {0})
  select : ℕ → ℕ → Call Bool
  read_fifo : ℕ → Call Bytes
  read_text : Text → Call Text
  read_json : Text → Call Json
  write_text : Text → Text → Call (Unit {0})
  write_json : Text → Json → Call (Unit {0})
  chmod : Text → ℕ → Call (Unit {0})
  sysconf : Text → Call ℕ
  -- processes: the arguments, GOMAXPROCS where it is set
  popen : List Text → Option ℕ → Call (Unit {0})
  run_checked : List Text → Call (Unit {0})
  -- a process with its input, waited for within seconds: its return code and its two outputs
  run_captured : List Text → Text → ℕ → Call (ℕ × (Text × Text))
  poll : ℕ → Call (Option ℕ)
  terminate kill : ℕ → Call (Unit {0})
  wait : ℕ → Option ℕ → Call ℕ
  read_line : ℕ → Call (Option Json)
  -- a write is flushed
  write_stdin : ℕ → Text → Call (Unit {0})
  close_stdin : ℕ → Call (Unit {0})
  -- all output and the return code, within seconds; a signal to the group of a process
  communicate : ℕ → ℕ → Call (ℕ × Text)
  kill_group : ℕ → Call (Unit {0})
  loads : Text → Call Json
  -- sockets: `connect` has host, port and milliseconds
  free_port : Call ℕ
  connect : Text → ℕ → ℕ → Call ℕ
  send : ℕ → Bytes → Call (Unit {0})
  recv : ℕ → ℕ → Call Bytes
  shutdown : ℕ → Call (Unit {0})
  -- TLS over a socket, with the server's name, and the response of Python's HTTP client: its status
  -- and its body
  wrap_tls : ℕ → Text → Call ℕ
  -- a client context for TLS 1.3 with a CA file, a socket wrapped by it, and what it negotiated
  tls_context : Text → Call ℕ
  wrap_with : ℕ → ℕ → Text → Call ℕ
  peer_certificate : ℕ → Call Bytes
  tls_cipher tls_version : ℕ → Call Text
  tls_alpn : ℕ → Call Json
  unwrap : ℕ → Call ℕ
  http_response : ℕ → Call (ℕ × Bytes)
  -- an object of class `Capture` or `CaptureGroup`, which runs in threads of its own: its
  -- destination's port, and its handle
  open_tap : ℕ → Call ℕ
  tap_port : ℕ → Call ℕ
  tap_done : ℕ → ℕ → Call Bool
  tap_wire : ℕ → Call (Bytes × Bytes)
  tap_capture : ℕ → Call Capture
  open_group : ℕ → ℕ → Call ℕ
  group_errors : ℕ → Call (List Text)
  group_items : ℕ → Call (List Item)
  close_tap : ℕ → Call (Unit {0})
  -- the clock
  sleep_ms : ℕ → Call (Unit {0})
  clock : Call ℕ

-- A call that was made.
pub data Made : Type 1 where
  made : {A : Type 0} → Call A → Made
