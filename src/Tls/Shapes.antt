-- ===== src/Tls/Shapes.antt =====
-- `shapes` of veil-core/scripts/traffic_shapes.py: the report on a capture. `elapsed_ms` stands for
-- the arithmetic on the clock's floating-point numbers.
pub mod Bursts
pub mod Sums
use project_veil.Prelude.{
  ℕ, ◌+◌, Bool, List, [], ◌∷◌, Result, ok, ◌>>=◌, length, map, if◌then◌else◌,
}
use project_veil.Tls.Record.{Shape, Record, records}
use project_veil.Tls.Record.Prefix.{shape}
use project_veil.Tls.Capture.{Direction, Both, Event, Capture}
use project_veil.Tls.Capture.Events.{same_direction}

pub record Burst : Type 0 where
  pub direction : Direction
  pub bytes : ℕ
  pub time : ℕ

-- One round of `for e in events`: the last burst grows, or a new one starts behind it.
unfoldable pub absorb_event : Event → List Burst → List Burst
absorb_event e [] = (record { direction = e.direction; bytes = e.bytes; time = e.time }) ∷ []
absorb_event e (b ∷ []) =
    if same_direction b.direction e.direction
    then (record { direction = b.direction; bytes = b.bytes + e.bytes; time = b.time }) ∷ []
    else b ∷ (record { direction = e.direction; bytes = e.bytes; time = e.time }) ∷ []
absorb_event e (b ∷ b' ∷ bs) = b ∷ absorb_event e (b' ∷ bs)

unfoldable pub bursts_loop : List Event → List Burst → List Burst
unfolding absorb_event
bursts_loop [] bursts = bursts
bursts_loop (e ∷ es) bursts = bursts_loop es (absorb_event e bursts)

-- `events[0]["time"] if events else 0`
unfoldable pub start_time : List Event → ℕ
start_time [] = 0
start_time (e ∷ es) = e.time

pub record TimedBurst : Type 0 where
  pub direction : Direction
  pub bytes : ℕ
  pub time_ms : ℕ

unfoldable pub timed : (ℕ → ℕ → ℕ) → ℕ → Burst → TimedBurst
timed elapsed_ms start b = record {
  direction = b.direction;
  bytes = b.bytes;
  time_ms = elapsed_ms b.time start;
}

pub record Shapes : Type 0 where
  pub records : Both (List Shape)
  pub wire_bytes : Both ℕ
  pub bursts : List TimedBurst

-- The dict that is returned, from the records of both directions.
unfoldable pub report : (ℕ → ℕ → ℕ) → Capture → Both (List Record) → Shapes
unfolding bursts_loop start_time timed
report elapsed_ms tap parsed = record {
  records = record { at_up = map shape parsed.at_up; at_down = map shape parsed.at_down };
  wire_bytes = record { at_up = length tap.wire.at_up; at_down = length tap.wire.at_down };
  bursts = map (timed elapsed_ms (start_time tap.events)) (bursts_loop tap.events []);
}

unfoldable pub shapes : (ℕ → ℕ → ℕ) → Capture → Result Shapes
unfolding report
shapes elapsed_ms tap = do
  sent ← records tap.wire.at_up
  answered ← records tap.wire.at_down
  ok (report elapsed_ms tap (record { at_up = sent; at_down = answered }))
