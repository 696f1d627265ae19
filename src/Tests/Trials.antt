-- ===== src/Tests/Trials.antt =====
-- Instances for the trials, on a system where every call succeeds.
use project_veil.Prelude.{
  ◌≡◌, refl, true, [], ◌∷◌, codes, text_eq, contains, hex, lookup, insert, split_at, from_bytes,
}
use project_veil.Exec.{System, State, Exec, no_locals}
use project_veil.Exec.Held.{mem}
use project_veil.Exec
use project_veil.Exec.Held
use project_veil.Bench.Processes
use project_veil.Bench.Perf
use project_veil.Bench.Json
use project_veil.Bench.Completion
use project_veil.Bench.Peers
use project_veil.Bench.Stack
use project_veil.Bench.Json.{Json, null, text, num, boolean, dict, get_key}
use project_veil.Bench.Completion.{stats_json}
use project_veil.Bench.Perf.{Numbers}
use project_veil.Bench.Regression
use project_veil.Bench.Reality
use project_veil.Bench.Traffic
use project_veil.Bench.Regression.Laws.{trial_stops}
use project_veil.Bench.Reality.Laws.{reality_trial_stops}
use project_veil.Bench.Traffic.Laws.{traffic_trial_stops}
use project_veil.Tests.Calm.{calm-Docile, begin, plain, fixed}
use project_veil.Bench.Browser
use project_veil.Tls.Group
use project_veil.Tls.Shapes
use project_veil.Tls.Record
use project_veil.Bench.Browser.Laws.{browser_trial_stops}

abbrev regression_job : Regression.Job
regression_job = record {
  root = codes "/r";
  fixture = fixed;
  server_binary = codes "a";
  client_binary = codes "b";
  peer = codes "c";
  mode = codes "H";
  size = 1;
  rounds = 1;
  folder = codes "/t";
  cores = record { server = []; client = []; backend = []; load = [] };
  padding = true;
}

abbrev reality_job : Reality.Job
reality_job = record {
  root = codes "/r";
  fixture = fixed;
  binaries = codes "/b";
  mode = codes "H";
  rounds = 1;
  folder = codes "/t";
  optimized = true;
  capture = true;
  client_tls = [];
  server_tls = [];
}

abbrev traffic_job : Traffic.Job
traffic_job = record {
  root = codes "/r";
  fixture = fixed;
  group = codes "https";
  binaries = codes "/b";
  cover = 9;
  sizes = 0 ∷ [];
  folder = codes "/t";
}

abbrev reality_row : Json
reality_row = dict (
    (codes "ready", boolean true)
    ∷ (codes "requests", num 1)
    ∷ (codes "seconds", num 1)
    ∷ (codes "bytes", num 1)
    ∷ (codes "capture", dict ((codes "up", text []) ∷ (codes "down", text []) ∷ []))
    ∷ (
      codes "server_stats",
      stats_json (record { accepted = 2; rejected = 0; completed = 1; failed = 1 }),
    )
    ∷ (codes "requests_per_second", num 1)
    ∷ [])

regression_keeps : mem 0 (Regression.trial plain regression_job begin).1.held ≡ true
unfolding Regression.set_padding Regression.load_command Regression.start_peers lookup split_at
    insert Regression.count_peer Regression.add_values Regression.measure Regression.is_short_run
    Regression.check_stats Regression.add_rates Regression.finish Regression.body Regression.cleanup
    Regression.trial Exec.pure Exec.raise Exec.lift Exec.◌>>=◌ Exec.check Exec.ask Exec.without
    Exec.start Exec.wait_for Exec.poll_of Exec.gets Exec.modify Exec.when_none Exec.for_each
    Exec.map_each Exec.try_finally Exec.try_except Exec.scoped Held.mem Processes.stop
    Processes.try_port Processes.wait_round Processes.wait_port_loop Processes.wait_port
    Processes.open_log Processes.spawn Processes.start_listed Processes.launch Processes.stop_all
    Processes.close_all Perf.line Perf.add_perf Perf.command Perf.interrupt Perf.close_perf
    Perf.close_head Perf.close_first Perf.add_row Perf.rows_loop Perf.has_clock Perf.values
    Json.get_field Json.get_item Json.get_step Json.get Json.get_key Json.get_or Json.put_field
    Json.set_key Json.set_inner Json.update Completion.behind Completion.is_digit Completion.digits
    Completion.number Completion.match_here Completion.search_stats Completion.stats_json
    Peers.configure Peers.edit_json Peers.is_space Peers.fields_loop Peers.split_fields Peers.int_of
    Peers.rss Peers.behind_paren Peers.cpu Peers.read_stats text_eq contains hex
regression_keeps = refl

trial_stops_example : mem 0 (0 ∷ []) ≡ true
trial_stops_example = trial_stops plain regression_job begin 0 calm-Docile regression_keeps

reality_keeps : mem 0 (Reality.trial plain reality_job begin).1.held ≡ true
unfolding Reality.override Reality.tap_server Reality.handshake_command Reality.stream_command
    Reality.start_load Reality.binary_of Reality.start_peers Reality.count_peer
    Reality.enable_counters Reality.add_values Reality.counted_names Reality.add_capture
    Reality.measure Reality.is_expected Reality.finish Reality.body Reality.cleanup Reality.trial
    Exec.pure Exec.raise Exec.lift Exec.◌>>=◌ Exec.check Exec.ask Exec.without Exec.start
    Exec.wait_for Exec.poll_of Exec.gets Exec.modify Exec.when_none Exec.for_each Exec.map_each
    Exec.try_finally Exec.try_except Exec.scoped Held.mem Processes.stop Processes.try_port
    Processes.wait_round Processes.wait_port_loop Processes.wait_port Processes.open_log
    Processes.spawn Processes.start_listed Processes.launch Processes.stop_all Processes.close_all
    Perf.line Perf.add_perf Perf.command Perf.interrupt Perf.close_perf Perf.close_head
    Perf.close_first Perf.add_row Perf.rows_loop Perf.has_clock Perf.values Json.get_field
    Json.get_item Json.get_step Json.get Json.get_key Json.get_or Json.put_field Json.set_key
    Json.set_inner Json.update Completion.behind Completion.is_digit Completion.digits
    Completion.number Completion.match_here Completion.search_stats Completion.stats_json
    Peers.configure Peers.edit_json Peers.is_space Peers.fields_loop Peers.split_fields Peers.int_of
    Peers.rss Peers.behind_paren Peers.cpu Peers.read_stats text_eq contains hex
reality_keeps = refl

reality_trial_stops_example : mem 0 (0 ∷ []) ≡ true
reality_trial_stops_example =
    reality_trial_stops plain reality_job begin 0 calm-Docile reality_keeps

traffic_keeps : mem 0 (Traffic.trial (λ a b. 0) traffic_job begin).1.held ≡ true
unfolding Traffic.receive_loop Traffic.receive Traffic.open_socks Traffic.connect_tls
    Traffic.request Traffic.fetch Traffic.fetch_all Traffic.with_tls Traffic.set_idle Traffic.direct
    Traffic.fetch_streams Traffic.is_reused Traffic.proxied Traffic.body Traffic.trial Exec.pure
    Exec.raise Exec.lift Exec.◌>>=◌ Exec.check Exec.ask Exec.without Exec.start Exec.wait_for
    Exec.poll_of Exec.gets Exec.modify Exec.when_none Exec.for_each Exec.map_each Exec.try_finally
    Exec.try_except Exec.scoped Held.mem Processes.stop Processes.try_port Processes.wait_round
    Processes.wait_port_loop Processes.wait_port Processes.open_log Processes.spawn
    Processes.start_listed Processes.launch Processes.stop_all Processes.close_all Peers.configure
    Peers.edit_json Peers.is_space Peers.fields_loop Peers.split_fields Peers.int_of Peers.rss
    Peers.behind_paren Peers.cpu Peers.read_stats Stack.call_back Stack.unwind Stack.exit_stack
    Stack.callback Stack.start_stopped Stack.launch_stacked Stack.open_stacked_tap text_eq contains
    hex
traffic_keeps = refl

traffic_trial_stops_example : mem 0 (0 ∷ []) ≡ true
traffic_trial_stops_example =
    traffic_trial_stops (λ a b. 0) traffic_job begin 0 calm-Docile traffic_keeps

abbrev browser_job : Browser.Job
browser_job = record {
  root = codes "/r";
  fixture = fixed;
  browser = codes "b";
  spki = codes "s";
  group = codes "after";
  binaries = codes "/b";
  website = 9;
  parallel = true;
  folder = codes "/t";
  delay_ms = 0;
}

browser_keeps : mem 0 (Browser.trial (λ a b. 0) browser_job begin).1.held ≡ true
unfolding Browser.set_names Browser.through_client Browser.at_tap Browser.through_server
    Browser.open_route Browser.browser_command Browser.talk Browser.end_group Browser.drive
    Browser.roles Browser.role_stats Browser.body Browser.trial Exec.pure Exec.raise Exec.lift
    Exec.◌>>=◌ Exec.check Exec.ask Exec.without Exec.start Exec.wait_for Exec.poll_of Exec.gets
    Exec.modify Exec.when_none Exec.for_each Exec.map_each Exec.try_finally Exec.try_except
    Exec.scoped Held.mem Processes.stop Processes.try_port Processes.wait_round
    Processes.wait_port_loop Processes.wait_port Processes.open_log Processes.spawn
    Processes.start_listed Processes.launch Processes.stop_all Processes.close_all Completion.behind
    Completion.is_digit Completion.digits Completion.number Completion.match_here
    Completion.search_stats Completion.stats_json Peers.configure Peers.edit_json Peers.is_space
    Peers.fields_loop Peers.split_fields Peers.int_of Peers.rss Peers.behind_paren Peers.cpu
    Peers.read_stats Stack.call_back Stack.unwind Stack.exit_stack Stack.callback
    Stack.start_stopped Stack.launch_stacked Stack.open_stacked_tap Stack.open_stacked_group text_eq
    contains get_key Json.update Json.set_inner Json.get_field Json.put_field Json.set_key
    Group.result Group.connections Group.has_bytes Shapes.shapes Record.records from_bytes
browser_keeps = refl

browser_trial_stops_example : mem 0 (0 ∷ []) ≡ true
browser_trial_stops_example =
    browser_trial_stops (λ a b. 0) browser_job begin 0 calm-Docile browser_keeps
