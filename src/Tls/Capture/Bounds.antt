-- ===== src/Tls/Capture/Bounds.antt =====
-- What a capture holds at every moment of every interleaving.
use project_veil.Prelude.{
  ℕ, ◌+◌, ◌≤◌, ◌≡◌, refl, List, [], ◌∷◌, arith, Bytes, length, length-append, false, ap, leb, ◌<◌,
  ◌⊎◌, inl, inr, Bool-cases, subst, sym,
}
use project_veil.Tls.Capture.{
  Direction, up, down, Both, at, put, Pump, receiving, stopped, received, kept, noted, Capture,
  Answer, returned, raised, Tick, wire_limit, on_recv, on_send, extended, pump_step, run, idle,
}
use project_veil.Tls.Capture.Events.{
  same_direction, same_direction_sound, event_bytes, event_bytes_own, event_bytes_other, at-put,
  at-put_other,
}

-- What a thread has put on the wire and not yet among the events.
abbrev pub pending : Pump → ℕ
pending (kept part) = length part
pending receiving = 0
pending stopped = 0
pending (received part) = 0
pending (noted part) = 0

-- The wire of a direction against the bytes its thread relayed.
pub record Accounts (d : Direction) (c : Capture) : Type 0 where
  pub bounded : length (at d c.wire) ≤ wire_limit
  pub counted : length (at d c.wire) ≤ event_bytes d c.events + pending (at d c.pumps)
  pub complete :
      event_bytes d c.events + pending (at d c.pumps) ≤ wire_limit
      → length (at d c.wire) ≡ event_bytes d c.events + pending (at d c.pumps)

-- A step of a thread leaves the wire, the event bytes and the place of the other direction.
pub record Untouched (d : Direction) (c c' : Capture) : Type 0 where
  pub wire : at d c'.wire ≡ at d c.wire
  pub events : event_bytes d c'.events ≡ event_bytes d c.events
  pub pump : at d c'.pumps ≡ at d c.pumps

Untouched-pump_step :
    (d : Direction) (t : Tick) (pump : Pump) (c : Capture)
    → same_direction t.direction d ≡ false
    → Untouched d c (pump_step t pump c)
unfolding pump_step
Untouched-pump_step d t receiving c h = record {
  wire = refl;
  events = refl;
  pump = at-put_other d t.direction (on_recv t.answer) c.pumps h;
}
Untouched-pump_step d t (received part) c h = record {
  wire = at-put_other d t.direction (extended (at t.direction c.wire) part) c.wire h;
  events = refl;
  pump = at-put_other d t.direction (kept part) c.pumps h;
}
Untouched-pump_step d t (kept part) c h = record {
  wire = refl;
  events = event_bytes_other d t.direction (length part) t.time c.events h;
  pump = at-put_other d t.direction (noted part) c.pumps h;
}
Untouched-pump_step d t (noted part) c h = record {
  wire = refl;
  events = refl;
  pump = at-put_other d t.direction (on_send t.answer) c.pumps h;
}
Untouched-pump_step d t stopped c h = record { wire = refl; events = refl; pump = refl }

-- The accounts speak of the wire's length and of one sum only.
Accounts-same :
    (d : Direction) (c c' : Capture)
    → length (at d c'.wire) ≡ length (at d c.wire)
    → event_bytes d c'.events + pending (at d c'.pumps)
      ≡ event_bytes d c.events + pending (at d c.pumps)
    → Accounts d c
    → Accounts d c'
Accounts-same d c c' f e a = record {
  bounded = omega (arith, f, a.bounded);
  counted = omega (arith, e, f, a.counted);
  complete = λ small. omega (arith, e, f, a.complete (omega (arith, e, small)));
}

pending-on_recv : (a : Answer) → pending (on_recv a) ≡ 0
unfolding on_recv
pending-on_recv raised = refl
pending-on_recv (returned []) = refl
pending-on_recv (returned (b ∷ bs)) = refl

pending-on_send : (a : Answer) → pending (on_send a) ≡ 0
unfolding on_send
pending-on_send raised = refl
pending-on_send (returned _) = refl

pending-put :
    (d : Direction) (pump : Pump) (b : Both Pump) → pending (at d (put d pump b)) ≡ pending pump
pending-put d pump b = ap pending (at-put d pump b)

length-extended :
    (wire part : Bytes)
    → (length wire + length part ≤ wire_limit
        × length (extended wire part) ≡ length wire + length part)
      ⊎ (wire_limit < length wire + length part × length (extended wire part) ≡ length wire)
unfolding extended
length-extended wire part = elim (Bool-cases (leb (length wire + length part) wire_limit)) [
  | inl e ↦ rw e (inl (ground (arith, e), length-append wire part))
  | inr e ↦ rw e (inr (ground (arith, e), refl))
]

-- A step of the direction's own thread, standing where the capture says.
Accounts-pump_step :
    (t : Tick) (pump : Pump) (c : Capture)
    → at t.direction c.pumps ≡ pump
    → Accounts t.direction c
    → Accounts t.direction (pump_step t pump c)
unfolding pump_step
Accounts-pump_step t receiving c here a =
    Accounts-same t.direction c (pump_step t receiving c) refl
      (omega (
        arith,
        pending-put t.direction (on_recv t.answer) c.pumps,
        pending-on_recv t.answer,
        ap pending here,
      ))
      a
Accounts-pump_step t (received part) c here a =
    let w = ap length (at-put t.direction (extended (at t.direction c.wire) part) c.wire) in
    let p = pending-put t.direction (kept part) c.pumps in
    let h = ap pending here in
    elim (length-extended (at t.direction c.wire) part) [
      | inl (fits, e) ↦ record {
        bounded = omega (arith, w, e, fits);
        counted = omega (arith, w, e, p, h, a.counted);
        complete = λ small. omega (arith, w, e, p, h, a.complete (omega (arith, h, p, small)));
      }
      | inr (over, e) ↦ record {
        bounded = omega (arith, w, e, a.bounded);
        counted = omega (arith, w, e, p, h, a.counted);
        complete = λ small.
            omega (arith, w, e, p, h, over, small, a.complete (omega (arith, h, p, small)));
      }
    ]
Accounts-pump_step t (kept part) c here a =
    Accounts-same t.direction c (pump_step t (kept part) c) refl
      (omega (
        arith,
        pending-put t.direction (noted part) c.pumps,
        event_bytes_own t.direction (length part) t.time c.events,
        ap pending here,
      ))
      a
Accounts-pump_step t (noted part) c here a =
    Accounts-same t.direction c (pump_step t (noted part) c) refl
      (omega (
        arith,
        pending-put t.direction (on_send t.answer) c.pumps,
        pending-on_send t.answer,
        ap pending here,
      ))
      a
Accounts-pump_step t stopped c here a = a

Accounts-run : (d : Direction) (ts : List Tick) (c : Capture) → Accounts d c → Accounts d (run ts c)
unfolding run
Accounts-run d [] c a = a
Accounts-run d (t ∷ ts) c a =
    let pump = at t.direction c.pumps in
    elim (Bool-cases (same_direction t.direction d)) [
      | inl e ↦
          let same = same_direction_sound d t.direction e in
          Accounts-run d ts (pump_step t pump c) (
            subst (λ x. Accounts x (pump_step t pump c)) same
              (Accounts-pump_step t pump c refl (subst (λ x. Accounts x c) (sym same) a)))
      | inr e ↦
          let u = Untouched-pump_step d t pump c e in
          Accounts-run d ts (pump_step t pump c) (
            Accounts-same d c (pump_step t pump c) (ap length u.wire)
              (omega (arith, ap pending u.pump, u.events)) a)
    ]

Accounts-idle : (d : Direction) → Accounts d idle
unfolding event_bytes
Accounts-idle up = record { bounded = omega arith; counted = omega arith; complete = λ _. refl }
Accounts-idle down = record { bounded = omega arith; counted = omega arith; complete = λ _. refl }

-- However the two threads of a capture interleave, the wire of a direction never exceeds 16 MiB and
-- never holds more than the events of the direction and a part still to be noted; it holds exactly
-- that many bytes while these are at most 16 MiB.
pub run-Accounts : (d : Direction) (ts : List Tick) → Accounts d (run ts idle)
run-Accounts d ts = Accounts-run d ts idle (Accounts-idle d)
