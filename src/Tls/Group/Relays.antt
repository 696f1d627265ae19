-- ===== src/Tls/Group/Relays.antt =====
-- What a connection of a group holds under every interleaving of its two threads.
use project_veil.Prelude.{
  ◌+◌, ◌≤◌, ◌≡◌, refl, sym, ap, ◌∙◌, List, [], ◌∷◌, ◌++◌, arith, Bytes, length, true, false, Bool,
  Bool-cases, inl, inr, ◌⊎◌, Option, some, subst, append-nil,
}
use project_veil.Tls.Capture.{Direction, up, down, at}
use project_veil.Tls.Capture.Events.{
  same_direction, same_direction_sound, event_bytes, event_bytes_own, event_bytes_other, at-put,
  at-put_other,
}
use project_veil.Tls.Group.{
  Outcome, eof, reset, socket_error, capture_error, Stand, receiving, received, kept, noted,
  leaving, closing, finished, Item, Tick, group_limit, side_step, new_events, item_step, item_run,
  fresh,
}
use project_veil.Tls.Group.Sides.{unsent, outcome, Relays, gained, Relays-sum, Relays-side_step}

event_bytes-new_events :
    (t : Tick) (stand : Stand) (item : Item)
    → event_bytes t.direction (item.events ++ new_events t stand)
      ≡ event_bytes t.direction item.events + gained stand
unfolding new_events
event_bytes-new_events t (kept part) item =
    event_bytes_own t.direction (length part) t.time item.events
event_bytes-new_events t receiving item =
    ap (event_bytes t.direction) (append-nil item.events) ∙ omega arith
event_bytes-new_events t (received _) item =
    ap (event_bytes t.direction) (append-nil item.events) ∙ omega arith
event_bytes-new_events t (noted _) item =
    ap (event_bytes t.direction) (append-nil item.events) ∙ omega arith
event_bytes-new_events t (leaving _) item =
    ap (event_bytes t.direction) (append-nil item.events) ∙ omega arith
event_bytes-new_events t (closing _) item =
    ap (event_bytes t.direction) (append-nil item.events) ∙ omega arith
event_bytes-new_events t (finished _) item =
    ap (event_bytes t.direction) (append-nil item.events) ∙ omega arith

event_bytes-new_events_other :
    (d : Direction) (t : Tick) (stand : Stand) (item : Item)
    → same_direction t.direction d ≡ false
    → event_bytes d (item.events ++ new_events t stand) ≡ event_bytes d item.events
unfolding new_events
event_bytes-new_events_other d t (kept part) item h =
    event_bytes_other d t.direction (length part) t.time item.events h
event_bytes-new_events_other d t receiving item h = ap (event_bytes d) (append-nil item.events)
event_bytes-new_events_other d t (received _) item h = ap (event_bytes d) (append-nil item.events)
event_bytes-new_events_other d t (noted _) item h = ap (event_bytes d) (append-nil item.events)
event_bytes-new_events_other d t (leaving _) item h = ap (event_bytes d) (append-nil item.events)
event_bytes-new_events_other d t (closing _) item h = ap (event_bytes d) (append-nil item.events)
event_bytes-new_events_other d t (finished _) item h = ap (event_bytes d) (append-nil item.events)

abbrev pub SideRelays : Direction → Item → Type 0
SideRelays d item = Relays (event_bytes d item.events) (at d item.sides)

SideRelays-own :
    (t : Tick) (item : Item)
    → SideRelays t.direction item
    → SideRelays t.direction (item_step t item)
unfolding item_step
SideRelays-own t item a =
    let s = at t.direction item.sides in
    subst (λ x. Relays (event_bytes t.direction (item_step t item).events) x)
      (sym (at-put t.direction (side_step t.reply s.stand s) item.sides))
      (Relays-sum (event_bytes t.direction item.events + gained s.stand) _ _
        (sym (event_bytes-new_events t s.stand item))
        (Relays-side_step (event_bytes t.direction item.events) t.reply s.stand s refl a))

SideRelays-other :
    (d : Direction) (t : Tick) (item : Item)
    → same_direction t.direction d ≡ false
    → SideRelays d item
    → SideRelays d (item_step t item)
unfolding item_step
SideRelays-other d t item h a =
    let s = at t.direction item.sides in
    subst (λ x. Relays (event_bytes d (item_step t item).events) x)
      (sym (at-put_other d t.direction (side_step t.reply s.stand s) item.sides h))
      (Relays-sum (event_bytes d item.events) _ _
        (sym (event_bytes-new_events_other d t s.stand item h)) a)

SideRelays-item_run :
    (d : Direction) (ts : List Tick) (item : Item)
    → SideRelays d item
    → SideRelays d (item_run ts item)
unfolding item_run
SideRelays-item_run d [] item a = a
SideRelays-item_run d (t ∷ ts) item a = elim (Bool-cases (same_direction t.direction d)) [
  | inl e ↦
      let same = same_direction_sound d t.direction e in
      SideRelays-item_run d ts (item_step t item) (
        subst (λ x. SideRelays x (item_step t item)) same
          (SideRelays-own t item (subst (λ x. SideRelays x item) (sym same) a)))
  | inr e ↦ SideRelays-item_run d ts (item_step t item) (SideRelays-other d t item e a)
]

SideRelays-fresh : (d : Direction) → SideRelays d fresh
unfolding event_bytes
SideRelays-fresh up = record {
  bounded = omega arith;
  counted = refl;
  prefix = ([], refl);
  exact = λ rest h. cc;
  ended = refl;
}
SideRelays-fresh down = record {
  bounded = omega arith;
  counted = refl;
  prefix = ([], refl);
  exact = λ rest h. cc;
  ended = refl;
}

abbrev unsent_of : Option Outcome → Bool
unsent_of (some eof) = true
unsent_of (some capture_error) = true
unsent_of _ = false

unsent_ended :
    (stand : Stand) (o : Option Outcome)
    → o ≡ outcome stand
    → unsent_of o ≡ true
    → unsent stand ≡ some []
unsent_ended receiving o h k = refl
unsent_ended (received _) o h k = refl
unsent_ended (kept _) o h k = let x = ap unsent_of h in cc
unsent_ended (noted _) o h k = let x = ap unsent_of h in cc
unsent_ended (leaving _) o h k = let x = ap unsent_of h in cc
unsent_ended (closing eof) o h k = refl
unsent_ended (closing capture_error) o h k = refl
unsent_ended (closing reset) o h k = let x = ap unsent_of h in cc
unsent_ended (closing socket_error) o h k = let x = ap unsent_of h in cc
unsent_ended (finished eof) o h k = refl
unsent_ended (finished capture_error) o h k = refl
unsent_ended (finished reset) o h k = let x = ap unsent_of h in cc
unsent_ended (finished socket_error) o h k = let x = ap unsent_of h in cc

-- However the two threads of a connection interleave, the captured wire of a direction is at most
-- 4 MiB, begins with the bytes that were sent on, and is exactly these bytes once the direction is
-- recorded to have ended at the end of the stream or at the capture limit; the events of the direction
-- never claim more bytes than the wire has.
pub item_run_relays :
    (d : Direction) (ts : List Tick)
    → (length (at d (item_run ts fresh).sides).wire ≤ group_limit)
      × ((rest : Bytes) × ((at d (item_run ts fresh).sides).wire
            ≡ (at d (item_run ts fresh).sides).sent ++ rest))
      × (((at d (item_run ts fresh).sides).ending ≡ some eof)
            ⊎ ((at d (item_run ts fresh).sides).ending ≡ some capture_error)
          → (at d (item_run ts fresh).sides).wire ≡ (at d (item_run ts fresh).sides).sent)
      × (event_bytes d (item_run ts fresh).events ≤ length (at d (item_run ts fresh).sides).wire)
item_run_relays d ts =
    let item = item_run ts fresh in
    let s = at d item.sides in
    let a = SideRelays-item_run d ts fresh (SideRelays-fresh d) in
    let whole = λ (u : unsent s.stand ≡ some []). a.exact [] u ∙ append-nil s.sent in
    (
      a.bounded,
      a.prefix,
      λ h. elim h as (λ _. s.wire ≡ s.sent) [
        | inl e ↦ whole (unsent_ended s.stand s.ending a.ended (ap unsent_of e))
        | inr e ↦ whole (unsent_ended s.stand s.ending a.ended (ap unsent_of e))
      ],
      omega (arith, a.counted),
    )
