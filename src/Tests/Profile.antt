-- ===== src/Tests/Profile.antt =====
-- A run of a profile on the system where every call succeeds.
use project_veil.Prelude.{◌≡◌, refl, true, [], ◌∷◌, codes, text_eq, from_bytes}
use project_veil.Exec
use project_veil.Exec.Held
use project_veil.Bench.Processes
use project_veil.Bench.Json
use project_veil.Bench.Peers
use project_veil.Bench.Probe
use project_veil.Bench.Probe.Profile
use project_veil.Bench.Probe.Observe
use project_veil.Bench.Probe.Run
use project_veil.Tls.Record
use project_veil.Exec.Held.{mem}
use project_veil.Bench.Json.{null}
use project_veil.Bench.Probe.{Kit}
use project_veil.Bench.Probe.Profile.{Job}
use project_veil.Bench.Probe.Run.{run_profile}
use project_veil.Bench.Probe.Run.Laws.{run_profile_stops}
use project_veil.Tests.Calm.{calm-Docile, begin, fixed}

abbrev blank : Kit
blank = record {
  sha256 = λ b. [];
  decode = λ b. b;
  dumps = λ j. [];
  seconds = λ a b. null;
  describe = λ e. null;
}

abbrev profile_job : Job
profile_job = record {
  root = codes "/r";
  fixture = fixed;
  profile = codes "go-tls";
  repeats = 1;
  fingerprint = codes "chrome149";
  padding = true;
}

profile_keeps : mem 0 (run_profile blank profile_job begin).1.held ≡ true
unfolding Run.pair_json Run.histogram_json Run.event_json Run.result_json Run.sample_at Run.others
    Run.free_ports Run.body Run.cleanup Run.run_profile Profile.launch Profile.reference_command
    Profile.upstream_command Profile.set_options Profile.start_cover Profile.start_upstream
    Profile.start_references Profile.reset_reference Profile.endpoints Profile.fetch_at
    Profile.fetch_late Profile.all_same Profile.load_command Profile.valid_session
    Observe.first_record Observe.is_hello Observe.flipped Observe.inputs Observe.observe
    Observe.observe_each Observe.observe_all Probe.first_line Probe.read_loop Probe.shut Probe.talk
    Probe.with_socket Probe.tls_fetch Probe.receive_some Probe.go_on Probe.sample_read
    Probe.shape_json Probe.send_some Probe.sample Exec.pure Exec.raise Exec.lift Exec.◌>>=◌
    Exec.check Exec.ask Exec.without Exec.start Exec.wait_for Exec.poll_of Exec.gets Exec.modify
    Exec.when_none Exec.for_each Exec.map_each Exec.try_finally Exec.try_except Exec.scoped Held.mem
    Processes.stop Processes.try_port Processes.wait_round Processes.wait_port_loop
    Processes.wait_port Processes.open_log Processes.spawn Processes.start_listed Processes.launch
    Processes.stop_all Processes.close_all Json.get_field Json.get_item Json.get_step Json.get
    Json.get_key Json.get_or Json.put_field Json.set_key Json.set_inner Json.update Peers.configure
    Peers.edit_json Peers.is_space Peers.fields_loop Peers.split_fields Peers.int_of Peers.rss
    Peers.behind_paren Peers.cpu Peers.read_stats text_eq Record.length_at Record.byte_at from_bytes
profile_keeps = refl

run_profile_stops_example : mem 0 (0 ∷ []) ≡ true
run_profile_stops_example = run_profile_stops blank profile_job begin 0 calm-Docile profile_keeps
