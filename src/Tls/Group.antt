-- ===== src/Tls/Group.antt =====
-- `CaptureGroup` of veil-core/scripts/browser_shapes.py: the relay of one connection, with one thread
-- for each direction. A run is a list of ticks; each lets one thread execute one statement. The pause
-- before a send changes no state.
pub mod Sides
pub mod Relays
use project_veil.Prelude.{
  ℕ, ◌+◌, ◌*◌, Bool, List, [], ◌∷◌, ◌++◌, Option, none, some, Bytes, Text, codes, length, ltb,
  if◌then◌else◌, Result, ok, err, runtime_error, ◌>>=◌, or_raise,
}
use project_veil.Tls.Capture.{Direction, Both, at, put, Event, Capture, stopped}
use project_veil.Tls.Shapes.{Shapes, shapes}

pub data Outcome : Type 0 where
  eof reset socket_error capture_error : Outcome

-- Where a thread of `pump` stands: at `recv`, behind it, behind the `extend`, behind the `append`, at
-- the start of the `finally` block, at its `shutdown`, behind it.
pub data Stand : Type 0 where
  receiving : Stand
  received kept noted : Bytes → Stand
  leaving closing finished : Outcome → Stand

-- One direction of a connection; `sent` is what the destination's socket has accepted.
pub record Side : Type 0 where
  pub wire : Bytes
  pub sent : Bytes
  pub ending : Option Outcome
  pub stand : Stand

pub record Item : Type 0 where
  pub sides : Both Side
  pub events : List Event
  pub errors : List Text

-- What a call of the socket does: it returns, the peer has reset the connection, or another error.
pub data Reply : Type 0 where
  returned : Bytes → Reply
  was_reset failed : Reply

pub record Tick : Type 0 where
  pub direction : Direction
  pub reply : Reply
  pub time : ℕ

-- `4 << 20`
abbrev pub group_limit : ℕ
group_limit = 4 * (1024 * 1024)

unfoldable pub is_over : Bytes → Bytes → Bool
is_over wire part = ltb group_limit (length wire + length part)

unfoldable pub after_recv : Reply → Stand
after_recv (returned []) = leaving eof
after_recv (returned (b ∷ bs)) = received (b ∷ bs)
after_recv was_reset = leaving reset
after_recv failed = leaving socket_error

unfoldable pub after_send : Reply → Stand
after_send (returned _) = receiving
after_send was_reset = leaving reset
after_send failed = leaving socket_error

unfoldable pub accepted : Reply → Bytes → Bytes → Bytes
accepted (returned _) sent part = sent ++ part
accepted was_reset sent part = sent
accepted failed sent part = sent

-- One statement of a thread, as far as its own direction goes.
unfoldable pub side_step : Reply → Stand → Side → Side
unfolding is_over after_recv after_send accepted
side_step r receiving s = record s { stand = after_recv r }
side_step r (received part) s =
    if is_over s.wire part
    then record s { stand = leaving capture_error }
    else record s { wire = s.wire ++ part; stand = kept part }
side_step r (kept part) s = record s { stand = noted part }
side_step r (noted part) s = record s { sent = accepted r s.sent part; stand = after_send r }
side_step r (leaving o) s = record s { ending = some o; stand = closing o }
side_step r (closing o) s = record s { stand = finished o }
side_step r (finished o) s = s

unfoldable pub new_events : Tick → Stand → List Event
new_events t (kept part) =
    (record { direction = t.direction; bytes = length part; time = t.time }) ∷ []
new_events t receiving = []
new_events t (received _) = []
new_events t (noted _) = []
new_events t (leaving _) = []
new_events t (closing _) = []
new_events t (finished _) = []

unfoldable pub new_errors : Stand → Side → List Text
unfolding is_over
new_errors (received part) s =
    if is_over s.wire part then codes "fixture capture limit" ∷ [] else []
new_errors receiving s = []
new_errors (kept _) s = []
new_errors (noted _) s = []
new_errors (leaving _) s = []
new_errors (closing _) s = []
new_errors (finished _) s = []

unfoldable pub item_step : Tick → Item → Item
unfolding side_step new_events new_errors
item_step t item = record {
  sides =
      put t.direction
        (side_step t.reply (at t.direction item.sides).stand (at t.direction item.sides))
        item.sides;
  events = item.events ++ new_events t (at t.direction item.sides).stand;
  errors = item.errors ++ new_errors (at t.direction item.sides).stand (at t.direction item.sides);
}

unfoldable pub item_run : List Tick → Item → Item
unfolding item_step
item_run [] item = item
item_run (t ∷ ts) item = item_run ts (item_step t item)

abbrev pub fresh_side : Side
fresh_side = record { wire = []; sent = []; ending = none; stand = receiving }

abbrev pub fresh : Item
fresh = record {
  sides = record { at_up = fresh_side; at_down = fresh_side };
  events = [];
  errors = [];
}

-- What `shapes` reads of an item.
abbrev pub captured : Item → Capture
captured item = record {
  wire = record { at_up = item.sides.at_up.wire; at_down = item.sides.at_down.wire };
  events = item.events;
  pumps = record { at_up = stopped; at_down = stopped };
}

-- `any(item.wire.values())`
unfoldable pub has_bytes : Item → Bool
has_bytes item = ltb 0 (length item.sides.at_up.wire + length item.sides.at_down.wire)

pub record Connection : Type 0 where
  pub shape : Shapes
  pub ends : Both (Option Outcome)

unfoldable pub connections : (ℕ → ℕ → ℕ) → List Item → Result (List Connection)
unfolding has_bytes
connections elapsed_ms [] = ok []
connections elapsed_ms (item ∷ items) =
    let rest = connections elapsed_ms items in
    if has_bytes item
    then (do
      shape ← shapes elapsed_ms (captured item)
      more ← rest
      ok (
          (record {
            shape = shape;
            ends = record { at_up = item.sides.at_up.ending; at_down = item.sides.at_down.ending };
          })
          ∷ more))
    else rest

unfoldable pub join_errors : List Text → Text
join_errors [] = []
join_errors (e ∷ []) = e
join_errors (e ∷ e' ∷ es) = e ++ (codes "; " ++ join_errors (e' ∷ es))

-- `result` of a group with these errors and items
unfoldable pub result : (ℕ → ℕ → ℕ) → List Text → List Item → Result (List Connection)
unfolding connections join_errors
result elapsed_ms [] items = connections elapsed_ms items
result elapsed_ms (e ∷ es) items =
    err (runtime_error (codes "capture failed: " ++ join_errors (e ∷ es)))
