-- ===== src/Bench/Probe/Run.antt =====
-- `run_profile` of veil-core/scripts/probe.py: the documents of the result, the body and the cleanup.
pub mod Laws
use project_veil.Prelude.{
  ℕ, List, [], ◌∷◌, ◌++◌, Text, Bytes, Dict, codes, map, not, text_eq, runtime_error, Bool,
}
use project_veil.Exec.Calls.{free_port, write_json, close_tap}
use project_veil.Exec.{
  Locals, Exec, pure, ◌>>=◌, ◌>>◌, check, ask, gets, for_each, map_each, try_finally, scoped,
}
use project_veil.Bench.Json.{Json, text, num, boolean, dict, list}
use project_veil.Bench.Processes.{stop, stop_all, close_all}
use project_veil.Bench.Probe.{Kit, sample}
use project_veil.Bench.Probe.Profile.{
  Job, Ports, Refs, start_references, endpoints, fetch_at, fetch_late, all_same, valid_session,
}
use project_veil.Bench.Probe.Observe.{first_record, is_hello, inputs, observe_all}
use project_veil.Tls.Record.{Shape}
use project_veil.Tls.Histogram.{Histogram, histogram}
use project_veil.Tls.Capture.{Direction, up, down, Event, Capture}

unfoldable pub pair_json : Shape → Json
pair_json (typ, n) = list (num typ ∷ num n ∷ [])

unfoldable pub histogram_json : Histogram → Json
unfolding pair_json
histogram_json h = dict (
    (codes "record_histogram", dict (map (λ (k, n). (k, num n)) h.record_histogram))
    ∷ (codes "first_records", list (map pair_json h.first_records))
    ∷ (codes "parsed_bytes", num h.parsed_bytes)
    ∷ (codes "captured_bytes", num h.captured_bytes)
    ∷ [])

abbrev pub direction_text : Direction → Text
direction_text up = codes "up"
direction_text down = codes "down"

unfoldable pub event_json : Event → Json
event_json e = dict (
    (codes "direction", text (direction_text e.direction))
    ∷ (codes "bytes", num e.bytes)
    ∷ (codes "time", num e.time)
    ∷ [])

-- `result`, entry by entry.
unfoldable pub result_json :
    Kit
    → Text
    → List (Text × Json)
    → List (Text × Json)
    → ℕ × (Text × Text)
    → Capture
    → Dict Json
    → List (Text × Json)
    → Json
unfolding histogram_json event_json
result_json kit profile normal delayed (code, (output, errors)) captured differential unavailable =
    dict (
      (
        codes "scope",
        text (
            codes
              "owned loopback only; differential observations, not anti-detection certification"),
      )
      ∷ (codes "profile", text profile)
      ∷ (codes "normal_tls", dict (normal ++ (codes "equal", boolean (all_same kit normal)) ∷ []))
      ∷ (codes "delayed_http", dict delayed)
      ∷ (
        codes "valid_session",
        dict (
            (codes "returncode", num code)
            ∷ (codes "output", text output)
            ∷ (codes "error", text errors)
            ∷ []),
      )
      ∷ (
        codes "record_shapes",
        dict (
            (codes "up", histogram_json (histogram captured.wire.at_up))
            ∷ (codes "down", histogram_json (histogram captured.wire.at_down))
            ∷ []),
      )
      ∷ (codes "read_chunks", list (map event_json captured.events))
      ∷ (codes "differential", dict differential)
      ∷ (codes "cover_unavailable", dict unavailable)
      ∷ [])

unfoldable pub sample_at : Kit → Bytes → Text × ℕ → Exec (Text × Json)
sample_at kit payload (name, port) = do seen ← sample kit port payload; pure (name, seen)

-- The endpoints but "direct".
unfoldable pub others : Ports → List (Text × ℕ)
others p = (codes "upstream_reality", p.upstream) ∷ (codes "via_veil", p.server) ∷ []

unfoldable pub free_ports : Exec Ports
free_ports = do
  cover ← ask free_port
  server ← ask free_port
  client ← ask free_port
  backend ← ask free_port
  upstream ← ask free_port
  pure (record {
    cover = cover;
    server = server;
    client = client;
    backend = backend;
    upstream = upstream;
  })

unfoldable pub body : Kit → Job → Exec Json
unfolding free_ports result_json sample_at others
body kit j = do
  p ← free_ports
  (r, cc) ← start_references j p
  normal ← map_each (endpoints p) (fetch_at kit j.fixture.cert)
  delayed ← map_each (endpoints p) (fetch_late kit j.fixture.cert)
  (load, captured) ← valid_session j p cc
  let hello = first_record captured.wire.at_up
  check (is_hello hello) (runtime_error (codes "no captured ClientHello"))
  (differential, r') ← observe_all kit j p (inputs hello) r
  stop r'.cover
  unavailable ← map_each (others p) (sample_at kit hello)
  let result = result_json kit j.profile normal delayed load captured differential unavailable
  ask (write_json (j.fixture.folder ++ codes "/result.json") result)
  pure result

-- The `finally` block: the capture, where there is one, then the processes and the logs.
unfoldable pub cleanup : Locals → Exec (Unit {0})
cleanup l = do for_each l.taps (λ tap. ask (close_tap tap)); stop_all l.procs; close_all l.logs

unfoldable pub run_profile : Kit → Job → Exec Json
unfolding body cleanup
run_profile kit j = scoped (try_finally (body kit j) (gets (λ l. l) >>= cleanup))
