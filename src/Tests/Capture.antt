-- ===== src/Tests/Capture.antt =====
-- Runs and instances for the capture relay and its report.
use project_veil.Prelude.{ℕ, ◌-◌, ◌≡◌, refl, List, [], ◌∷◌, ok, arith, from_bytes}
use project_veil.Tls.Record.{records}
use project_veil.Tls.Capture.{Direction, up, down, at, Tick, returned, raised, stopped, run, idle}
use project_veil.Tls.Capture.Bounds.{Accounts, run-Accounts}
use project_veil.Tls.Capture.Events.{event_bytes}
use project_veil.Tls.Shapes.{Shapes, shapes, bursts_loop}
use project_veil.Tls.Shapes.Bursts.{Runs, bursts_loop-Runs}
use project_veil.Tls.Shapes.Sums.{burst_bytes, shapes_size, shapes-run}

-- The client sends a record in two parts, the second while the answer is on its way.
abbrev tick : Direction → List ℕ → ℕ → Tick
tick d part time = record { direction = d; answer = returned part; time = time }

abbrev ticks : List Tick
ticks =
    tick up (22 ∷ 3 ∷ 1 ∷ []) 0
    ∷ tick up [] 1
    ∷ tick up [] 2
    ∷ tick up [] 3
    ∷ tick up (0 ∷ 1 ∷ 9 ∷ []) 4
    ∷ tick down (23 ∷ 3 ∷ 3 ∷ 0 ∷ 0 ∷ []) 5
    ∷ tick up [] 6
    ∷ tick down [] 7
    ∷ tick up [] 8
    ∷ tick down [] 9
    ∷ (record { direction = up; answer = raised; time = 10 })
    ∷ []

ticks-run :
    (run ticks idle).events
    ≡ (record { direction = up; bytes = 3; time = 2 })
      ∷ (record { direction = up; bytes = 3; time = 8 })
      ∷ (record { direction = down; bytes = 5; time = 9 })
      ∷ []
unfolding run
ticks-run = refl

abbrev reported : Shapes
reported = record {
  records = record { at_up = (22, 1) ∷ []; at_down = (23, 0) ∷ [] };
  wire_bytes = record { at_up = 6; at_down = 5 };
  bursts =
      (record { direction = up; bytes = 6; time_ms = 0 })
      ∷ (record { direction = down; bytes = 5; time_ms = 7 })
      ∷ [];
}

ticks-shapes : shapes (λ t s. t - s) (run ticks idle) ≡ ok reported
unfolding run shapes records from_bytes
ticks-shapes = refl

ticks_stop : (run ticks idle).pumps.at_up ≡ stopped
unfolding run
ticks_stop = refl

ticks_size : event_bytes up (run ticks idle).events ≡ 6
unfolding run event_bytes
ticks_size = refl

run-Accounts_example : Accounts down (run ticks idle)
run-Accounts_example = run-Accounts down ticks

bursts_loop-Runs_example : Runs (run ticks idle).events (bursts_loop (run ticks idle).events [])
bursts_loop-Runs_example = bursts_loop-Runs (run ticks idle).events

shapes-run_example :
    (burst_bytes up reported.bursts ≡ at up reported.wire_bytes)
    × (shapes_size (at up reported.records) ≡ at up reported.wire_bytes)
shapes-run_example =
    shapes-run (λ t s. t - s) ticks up reported ticks-shapes ticks_stop (omega (arith, ticks_size))
