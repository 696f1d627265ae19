-- ===== src/Tests/Group.antt =====
-- A run of one connection of a group of captures.
use project_veil.Prelude.{◌≡◌, refl, ◌≤◌, ◌⊎◌, List, [], ◌∷◌, ◌++◌, some, Bytes, length}
use project_veil.Tls.Capture.{Direction, up, down, at}
use project_veil.Tls.Capture.Events.{event_bytes}
use project_veil.Tls.Group.{
  Tick, returned, was_reset, Reply, eof, capture_error, group_limit, item_run, fresh, side_step,
  item_step, is_over, after_recv, after_send, accepted,
}
use project_veil.Tls.Group.Relays.{item_run_relays}

abbrev tick : Direction → Reply → Tick
tick d r = record { direction = d; reply = r; time = 0 }

-- Two bytes go up, the other side resets its connection, and the stream ends.
abbrev ticks : List Tick
ticks =
    tick up (returned (1 ∷ 2 ∷ []))
    ∷ tick up (returned [])
    ∷ tick down was_reset
    ∷ tick up (returned [])
    ∷ tick up (returned [])
    ∷ tick down (returned [])
    ∷ tick up (returned [])
    ∷ tick up (returned [])
    ∷ []

ticks-ending : (at up (item_run ticks fresh).sides).ending ≡ some eof
unfolding item_run item_step side_step is_over after_recv after_send accepted
ticks-ending = refl

item_run_relays_example :
    (length (at up (item_run ticks fresh).sides).wire ≤ group_limit)
    × ((rest : Bytes) × ((at up (item_run ticks fresh).sides).wire
          ≡ (at up (item_run ticks fresh).sides).sent ++ rest))
    × (((at up (item_run ticks fresh).sides).ending ≡ some eof)
          ⊎ ((at up (item_run ticks fresh).sides).ending ≡ some capture_error)
        → (at up (item_run ticks fresh).sides).wire ≡ (at up (item_run ticks fresh).sides).sent)
    × (event_bytes up (item_run ticks fresh).events
        ≤ length (at up (item_run ticks fresh).sides).wire)
item_run_relays_example = item_run_relays up ticks
