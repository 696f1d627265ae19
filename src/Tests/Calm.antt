-- ===== src/Tests/Calm.antt =====
-- A system where every call succeeds, for runs of the trials.
use project_veil.Prelude.{
  refl, true, List, [], ◌∷◌, none, some, Text, codes, replicate, Bytes, Result, ok,
}
use project_veil.Exec.Calls.{
  Call, Made, mkdir, unlink, rmtree, mkfifo, open_file, open_fifo, close, flush, write_fifo, select,
  read_fifo, read_text, read_json, write_text, write_json, chmod, sysconf, popen, run_checked, poll,
  terminate, kill, wait, read_line, write_stdin, close_stdin, free_port, connect, send, recv,
  shutdown, wrap_tls, tls_context, wrap_with, peer_certificate, tls_cipher, tls_version, tls_alpn,
  unwrap, run_captured, http_response, open_tap, tap_port, tap_done, tap_wire, tap_capture,
  open_group, group_errors, group_items, communicate, kill_group, loads, close_tap, sleep_ms, clock,
}
use project_veil.Exec.{System, State, no_locals}
use project_veil.Exec.Keeps.{Docile}
use project_veil.Bench.Json.{Json, null, num, boolean, dict}
use project_veil.Bench.Configurations.{Fixture}
use project_veil.Bench.Perf.{Numbers}
use project_veil.Tls.Capture.{stopped}
use project_veil.Tls.Group.{Item, fresh_side}

-- One text that serves as a log, as what perf wrote, and as the files of /proc.
abbrev pub completion : Text
completion =
    codes
      "a 1 stopped accepted=2 rejected=0 completed=1 failed=1 ) 0 1 2 3 4 5 6 7 8 9 10 11 12\n1,,task-clock"

abbrev pub load_row : Json
load_row = dict (
    (codes "ready", boolean true)
    ∷ (codes "requests", num 1)
    ∷ (codes "seconds", num 1)
    ∷ (codes "bytes", num 1)
    ∷ [])

-- A handshake record with a payload of sixty-six bytes.
abbrev pub hello_record : Bytes
hello_record = 22 ∷ 3 ∷ 1 ∷ 0 ∷ 66 ∷ replicate 66 1

-- One connection on which one record came back.
abbrev pub served : Item
served = record {
  sides = record {
    at_up = fresh_side;
    at_down = record fresh_side {
      wire = 23 ∷ 3 ∷ 3 ∷ 0 ∷ 1 ∷ 7 ∷ [];
      sent = 23 ∷ 3 ∷ 3 ∷ 0 ∷ 1 ∷ 7 ∷ [];
    };
  };
  events = [];
  errors = [];
}

abbrev pub calm_answer : {A : Type 0} → List Made → Call A → Result A
calm_answer t (mkdir _) = ok tt
calm_answer t (unlink _) = ok tt
calm_answer t (rmtree _) = ok tt
calm_answer t (mkfifo _) = ok tt
calm_answer t (open_file _) = ok 3
calm_answer t (open_fifo _) = ok 4
calm_answer t (close _) = ok tt
calm_answer t (flush _) = ok tt
calm_answer t (write_fifo _ _) = ok tt
calm_answer t (select _ _) = ok true
calm_answer t (read_fifo _) = ok (codes "ack")
calm_answer t (read_text _) = ok completion
calm_answer t (read_json _) = ok (dict ((codes "tls", dict []) ∷ []))
calm_answer t (write_text _ _) = ok tt
calm_answer t (write_json _ _) = ok tt
calm_answer t (chmod _ _) = ok tt
calm_answer t (sysconf _) = ok 100
calm_answer t (popen _ _) = ok tt
calm_answer t (run_checked _) = ok tt
calm_answer t (poll _) = ok none
calm_answer t (terminate _) = ok tt
calm_answer t (kill _) = ok tt
calm_answer t (wait _ _) = ok 0
calm_answer t (read_line _) = ok (some load_row)
calm_answer t (write_stdin _ _) = ok tt
calm_answer t (close_stdin _) = ok tt
calm_answer t (communicate _ _) = ok (0, [])
calm_answer t (kill_group _) = ok tt
calm_answer t (loads _) = ok (dict [])
calm_answer t free_port = ok 9
calm_answer t (connect _ _ _) = ok 5
calm_answer t (send _ _) = ok tt
calm_answer t (recv _ _) = ok []
calm_answer t (shutdown _) = ok tt
calm_answer t (wrap_tls _ _) = ok 6
calm_answer t (tls_context _) = ok 7
calm_answer t (wrap_with _ _ _) = ok 6
calm_answer t (peer_certificate _) = ok []
calm_answer t (tls_cipher _) = ok []
calm_answer t (tls_version _) = ok []
calm_answer t (tls_alpn _) = ok null
calm_answer t (unwrap _) = ok 5
calm_answer t (run_captured _ _ _) = ok (0, ([], []))
calm_answer t (http_response _) = ok (200, [])
calm_answer t (open_tap _) = ok 1
calm_answer t (tap_port _) = ok 8
calm_answer t (tap_done _ _) = ok true
calm_answer t (tap_wire _) = ok ([], [])
calm_answer t (tap_capture _) = ok (record {
  wire = record { at_up = hello_record; at_down = [] };
  events = [];
  pumps = record { at_up = stopped; at_down = stopped };
})
calm_answer t (open_group _ _) = ok 1
calm_answer t (group_errors _) = ok []
calm_answer t (group_items _) = ok (served ∷ [])
calm_answer t (close_tap _) = ok tt
calm_answer t (sleep_ms _) = ok tt
calm_answer t clock = ok 0

abbrev pub calm : System
calm = record { answer = calm_answer }

pub calm-Docile : Docile calm
calm-Docile = record {
  polled = λ t p. refl;
  terminated = λ t p. refl;
  killed = λ t p. refl;
  ended = λ t p. refl;
  group_ended = λ t p. refl;
  waited = λ t p n e h. cc;
  interrupted = λ t p. refl;
  ran = λ t cmd. refl;
  group_killed = λ t p e h. cc;
  closed = λ t h. refl;
  tap_closed = λ t tap. refl;
  unlinked = λ t path. refl;
}

-- One process, number 0, runs already.
abbrev pub begin : State
begin = record { held = 0 ∷ []; next = 1; history = []; system = calm; locals = no_locals }

abbrev pub plain : Numbers
plain = record {
  of_text = λ s. some (num 1);
  is_positive = λ j. true;
  divide = λ a b. ok a;
  times = λ a n. a;
  plus = λ a b. a;
  minus = λ a b. a;
}

abbrev pub fixed : Fixture
fixed = record {
  keys = record {
    secret = codes "s";
    reality_private_key = codes "k";
    reality_public_key = codes "p";
    short_id = codes "i";
  };
  cert = codes "c";
  key = codes "k";
  folder = codes "f";
}
