-- ===== src/Tls/Shapes/Bursts.antt =====
-- What the bursts are: the longest runs of events of one direction.
use project_veil.Prelude.{
  ℕ, ◌+◌, ◌≡◌, refl, sym, ap, ◌∙◌, List, [], ◌∷◌, ◌++◌, arith, false, inl, inr, Bool-cases,
  if◌then◌else◌, append_assoc, subst,
}
use project_veil.Tls.Capture.{Direction, Event}
use project_veil.Tls.Capture.Events.{same_direction, same_direction_sound}
use project_veil.Tls.Shapes.{Burst, absorb_event, bursts_loop}

abbrev pub total : List Event → ℕ
total [] = 0
total (e ∷ es) = e.bytes + total es

-- All events have the direction.
abbrev pub IsUniform : Direction → List Event → Type 0
IsUniform d [] = Unit
IsUniform d (e ∷ es) = (d ≡ e.direction) × IsUniform d es

-- The first event has another direction.
abbrev pub Turns : Direction → List Event → Type 0
Turns d [] = Unit
Turns d (e ∷ es) = same_direction d e.direction ≡ false

-- `events` cut into its longest runs of one direction; each gives a burst with the run's direction,
-- its bytes and the time of its first event.
pub data Runs : List Event → List Burst → Type 0 where
  nothing : Runs [] []
  one_run :
      {events : List Event} {bursts : List Burst} (e : Event) (es rest : List Event) (n : ℕ)
      → events ≡ e ∷ (es ++ rest)
      → n ≡ total (e ∷ es)
      → IsUniform e.direction es
      → Turns e.direction rest
      → Runs rest bursts
      → Runs events ((record { direction = e.direction; bytes = n; time = e.time }) ∷ bursts)

-- The loop with the last burst in hand.
walk : Burst → List Event → List Burst
walk b [] = b ∷ []
walk b (e ∷ es) =
    let grown =
      walk (record { direction = b.direction; bytes = b.bytes + e.bytes; time = b.time }) es in
    let next = walk (record { direction = e.direction; bytes = e.bytes; time = e.time }) es in
    if same_direction b.direction e.direction then grown else b ∷ next

absorb_event-append :
    (e : Event) (done : List Burst) (b : Burst)
    → absorb_event e (done ++ b ∷ []) ≡ done ++ absorb_event e (b ∷ [])
unfolding absorb_event
absorb_event-append e [] b = refl
absorb_event-append e (d ∷ []) b = refl
absorb_event-append e (d ∷ d' ∷ done) b = ap (λ t. d ∷ t) (absorb_event-append e (d' ∷ done) b)

bursts_loop-walk :
    (es : List Event) (done : List Burst) (b : Burst)
    → bursts_loop es (done ++ b ∷ []) ≡ done ++ walk b es
unfolding bursts_loop walk absorb_event
bursts_loop-walk [] done b = refl
bursts_loop-walk (e ∷ es) done b = elim (Bool-cases (same_direction b.direction e.direction)) [
  | inl h ↦
      rw (absorb_event-append e done b, h)
        (bursts_loop-walk es done
          (record { direction = b.direction; bytes = b.bytes + e.bytes; time = b.time }))
  | inr h ↦
      let n : Burst = record { direction = e.direction; bytes = e.bytes; time = e.time } in
      rw (absorb_event-append e done b, h)
        (ap (bursts_loop es) (sym (append_assoc done (b ∷ []) (n ∷ [])))
          ∙ bursts_loop-walk es (done ++ b ∷ []) n
          ∙ append_assoc done (b ∷ []) (walk n es))
]

total-append : (es fs : List Event) → total (es ++ fs) ≡ total es + total fs
total-append [] fs = omega arith
total-append (e ∷ es) fs = omega (arith, total-append es fs)

IsUniform-append :
    (d : Direction) (es : List Event) (e : Event)
    → IsUniform d es
    → d ≡ e.direction
    → IsUniform d (es ++ e ∷ [])
IsUniform-append d [] e u h = (h, tt)
IsUniform-append d (f ∷ es) e (g, u) h = (g, IsUniform-append d es e u h)

-- The burst in hand is the run of `e` and `seen`.
walk-Runs :
    (e : Event) (seen es events : List Event) (n : ℕ)
    → events ≡ e ∷ (seen ++ es)
    → n ≡ total (e ∷ seen)
    → IsUniform e.direction seen
    → Runs events (walk (record { direction = e.direction; bytes = n; time = e.time }) es)
unfolding walk
walk-Runs e seen [] events n cut sum u = one_run e seen [] n cut sum u tt nothing
walk-Runs e seen (f ∷ es) events n cut sum u =
    elim (Bool-cases (same_direction e.direction f.direction)) [
      | inl h ↦ rw h (
          walk-Runs e (seen ++ f ∷ []) es events (n + f.bytes)
            (cut ∙ ap (λ t. e ∷ t) (sym (append_assoc seen (f ∷ []) es)))
            (omega (arith, sum, total-append seen (f ∷ [])))
            (IsUniform-append e.direction seen f u
              (same_direction_sound f.direction e.direction h)))
      | inr h ↦ rw h (
          one_run e seen (f ∷ es) n cut sum u h
            (walk-Runs f [] es (f ∷ es) f.bytes refl (omega arith) tt))
    ]

-- The bursts are the longest runs of events of one direction, in order: each has its run's
-- direction, the sum of its bytes and the time of its first event, and neighbours differ in
-- direction.
pub bursts_loop-Runs : (events : List Event) → Runs events (bursts_loop events [])
unfolding bursts_loop absorb_event
bursts_loop-Runs [] = nothing
bursts_loop-Runs (e ∷ es) =
    let b : Burst = record { direction = e.direction; bytes = e.bytes; time = e.time } in
    subst (Runs (e ∷ es)) (sym (bursts_loop-walk es [] b))
      (walk-Runs e [] es (e ∷ es) e.bytes refl (omega arith) tt)
