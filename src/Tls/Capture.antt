-- ===== src/Tls/Capture.antt =====
-- `Capture` of veil-core/scripts/probe.py: a relay with one thread for each direction. A run is a
-- list of ticks; each lets one thread execute one statement, so that the lists are the
-- interleavings of the two threads.
pub mod Events
pub mod Bounds
use project_veil.Prelude.{ℕ, ◌+◌, ◌*◌, Bool, List, [], ◌∷◌, ◌++◌, Bytes, length, leb, if◌then◌else◌}

-- The keys `"up"` and `"down"` of `self.wire`.
pub data Direction : Type 0 where
  up down : Direction

pub record Both {ℓ} (A : Type ℓ) : Type ℓ where
  pub at_up : A
  pub at_down : A

abbrev pub at {ℓ} : {A : Type ℓ} → Direction → Both A → A
at up b = b.at_up
at down b = b.at_down

abbrev pub put {ℓ} : {A : Type ℓ} → Direction → A → Both A → Both A
put up a b = record { at_up = a; at_down = b.at_down }
put down a b = record { at_up = b.at_up; at_down = a }

pub record Event : Type 0 where
  pub direction : Direction
  pub bytes : ℕ
  pub time : ℕ

-- Where a thread of `pump` stands: at `recv`, behind it, behind the `extend`, behind the `append`,
-- behind the loop.
pub data Pump : Type 0 where
  receiving stopped : Pump
  received kept noted : Bytes → Pump

pub record Capture : Type 0 where
  pub wire : Both Bytes
  pub events : List Event
  pub pumps : Both Pump

-- What a call of the socket does.
pub data Answer : Type 0 where
  returned : Bytes → Answer
  raised : Answer

-- Which thread runs, what its call answers, what the clock reads.
pub record Tick : Type 0 where
  pub direction : Direction
  pub answer : Answer
  pub time : ℕ

-- `16 << 20`
abbrev pub wire_limit : ℕ
wire_limit = 16 * (1024 * 1024)

-- `recv` returns no byte at the end of the stream.
unfoldable pub on_recv : Answer → Pump
on_recv raised = stopped
on_recv (returned []) = stopped
on_recv (returned (b ∷ bs)) = received (b ∷ bs)

unfoldable pub on_send : Answer → Pump
on_send raised = stopped
on_send (returned _) = receiving

unfoldable pub extended : Bytes → Bytes → Bytes
extended wire part = if leb (length wire + length part) wire_limit then wire ++ part else wire

-- One statement of the thread of `direction`, which stands at `pump`.
unfoldable pub pump_step : Tick → Pump → Capture → Capture
unfolding on_recv on_send extended
pump_step t receiving c = record {
  wire = c.wire;
  events = c.events;
  pumps = put t.direction (on_recv t.answer) c.pumps;
}
pump_step t (received part) c = record {
  wire = put t.direction (extended (at t.direction c.wire) part) c.wire;
  events = c.events;
  pumps = put t.direction (kept part) c.pumps;
}
pump_step t (kept part) c = record {
  wire = c.wire;
  events =
      c.events ++ (record { direction = t.direction; bytes = length part; time = t.time }) ∷ [];
  pumps = put t.direction (noted part) c.pumps;
}
pump_step t (noted part) c = record {
  wire = c.wire;
  events = c.events;
  pumps = put t.direction (on_send t.answer) c.pumps;
}
pump_step t stopped c = c

unfoldable pub run : List Tick → Capture → Capture
unfolding pump_step
run [] c = c
run (t ∷ ts) c = run ts (pump_step t (at t.direction c.pumps) c)

-- `self.wire = {"up": bytearray(), "down": bytearray()}` and `self.events = []`
abbrev pub idle : Capture
idle = record {
  wire = record { at_up = []; at_down = [] };
  events = [];
  pumps = record { at_up = receiving; at_down = receiving };
}
