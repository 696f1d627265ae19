-- ===== src/Tls/Shapes/Sums.antt =====
-- A report adds up: the bursts, the records and the wire of a finished capture agree.
use project_veil.Prelude.{
  ℕ, ◌+◌, ◌≤◌, ◌≡◌, refl, ap, ◌∙◌, List, [], ◌∷◌, arith, Bytes, ok, length, map, if◌then◌else◌,
  >>=-eq-ok, ok_injective, subst,
}
use project_veil.Tls.Record.{Shape, Record, records}
use project_veil.Tls.Record.Prefix.{shape}
use project_veil.Tls.Record.Frames.{wire_size, length-Frames}
use project_veil.Tls.Record.Strict.{records_iff_Frames}
use project_veil.Tls.Capture.{
  Direction, up, down, at, Event, Capture, Tick, wire_limit, stopped, run, idle,
}
use project_veil.Tls.Capture.Bounds.{run-Accounts, pending}
use project_veil.Tls.Capture.Events.{same_direction, event_bytes, event_bytes-append}
use project_veil.Tls.Shapes.{
  Burst, TimedBurst, Shapes, shapes, report, start_time, timed, bursts_loop,
}
use project_veil.Tls.Shapes.Bursts.{total, IsUniform, Runs, nothing, one_run, bursts_loop-Runs}

-- The bytes of the bursts of a direction.
abbrev pub burst_bytes : Direction → List TimedBurst → ℕ
burst_bytes d [] = 0
burst_bytes d (b ∷ bs) = (if same_direction b.direction d then b.bytes else 0) + burst_bytes d bs

-- The bytes that records of these shapes take up, headers included.
abbrev pub shapes_size : List Shape → ℕ
shapes_size [] = 0
shapes_size ((_, n) ∷ s) = 5 + n + shapes_size s

shapes_size-map : (rs : List Record) → shapes_size (map shape rs) ≡ wire_size rs
shapes_size-map [] = refl
shapes_size-map ((typ, payload) ∷ rs) = omega (arith, shapes_size-map rs)

event_bytes-IsUniform :
    (d e : Direction) (es : List Event)
    → IsUniform e es
    → event_bytes d es ≡ (if same_direction e d then total es else 0)
unfolding event_bytes
event_bytes-IsUniform d e [] u = ground arith
event_bytes-IsUniform d e (f ∷ es) (h, u) =
    let turned = ap (λ x. if same_direction x d then f.bytes else 0) h in
    ground (arith, turned, event_bytes-IsUniform d e es u)

event_bytes-Runs :
    {events : List Event} {bursts : List Burst} (d : Direction) (f : ℕ → ℕ → ℕ) (start : ℕ)
    → Runs events bursts
    → event_bytes d events ≡ burst_bytes d (map (timed f start) bursts)
unfolding event_bytes timed
event_bytes-Runs d f start nothing = refl
event_bytes-Runs d f start (one_run e es rest n cut sum u turn runs) =
    ap (event_bytes d) cut
    ∙ ground (
      arith,
      event_bytes-append d es rest,
      event_bytes-IsUniform d e.direction es u,
      event_bytes-Runs d f start runs,
      sum,
    )

shapes_size-records :
    (wire : Bytes) (rs : List Record)
    → records wire ≡ ok rs
    → shapes_size (map shape rs) ≡ length wire
shapes_size-records wire rs h =
    omega (arith, shapes_size-map rs, length-Frames ((records_iff_Frames wire rs).0 h))

-- The parts of a report that was made.
record Reported (f : ℕ → ℕ → ℕ) (c : Capture) (s : Shapes) (d : Direction) : Type 0 where
  bursts : s.bursts ≡ map (timed f (start_time c.events)) (bursts_loop c.events [])
  wire_bytes : at d s.wire_bytes ≡ length (at d c.wire)
  records : shapes_size (at d s.records) ≡ length (at d c.wire)

Reported-report :
    (f : ℕ → ℕ → ℕ) (c : Capture) (d : Direction) (sent answered : List Record)
    → records c.wire.at_up ≡ ok sent
    → records c.wire.at_down ≡ ok answered
    → Reported f c (report f c (record { at_up = sent; at_down = answered })) d
unfolding report
Reported-report f c up sent answered h1 h2 = record {
  bursts = refl;
  wire_bytes = refl;
  records = shapes_size-records c.wire.at_up sent h1;
}
Reported-report f c down sent answered h1 h2 = record {
  bursts = refl;
  wire_bytes = refl;
  records = shapes_size-records c.wire.at_down answered h2;
}

shapes-Reported :
    (f : ℕ → ℕ → ℕ) (c : Capture) (s : Shapes) (d : Direction)
    → shapes f c ≡ ok s
    → Reported f c s d
unfolding shapes
shapes-Reported f c s d h =
    let (sent, h1, k) = >>=-eq-ok (records c.wire.at_up) _ h in
    let (answered, h2, k2) = >>=-eq-ok (records c.wire.at_down) _ k in
    subst (λ r. Reported f c r d) (ok_injective k2) (Reported-report f c d sent answered h1 h2)

-- A report on a capture whose thread for a direction has stopped after at most 16 MiB: in that
-- direction the bursts and the records, headers included, both add up to the bytes on the wire.
pub shapes-run :
    (f : ℕ → ℕ → ℕ) (ts : List Tick) (d : Direction) (s : Shapes)
    → shapes f (run ts idle) ≡ ok s
    → at d (run ts idle).pumps ≡ stopped
    → event_bytes d (run ts idle).events ≤ wire_limit
    → (burst_bytes d s.bursts ≡ at d s.wire_bytes)
      × (shapes_size (at d s.records) ≡ at d s.wire_bytes)
shapes-run f ts d s h over small =
    let c = run ts idle in
    let r = shapes-Reported f c s d h in
    let none_left = ap pending over in
    let full = (run-Accounts d ts).complete (omega (arith, none_left, small)) in
    let sums = event_bytes-Runs d f (start_time c.events) (bursts_loop-Runs c.events) in
    let seen = ap (burst_bytes d) r.bursts in
    (
      omega (arith, seen, sums, full, none_left, r.wire_bytes),
      omega (arith, r.records, r.wire_bytes),
    )
