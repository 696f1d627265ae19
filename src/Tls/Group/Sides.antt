-- ===== src/Tls/Group/Sides.antt =====
-- What one direction of a connection holds, whatever its thread does.
use project_veil.Prelude.{
  ℕ, ◌+◌, ◌≤◌, ◌≡◌, refl, sym, ap, ◌∙◌, [], ◌∷◌, ◌++◌, arith, Bytes, length, length-append,
  Bool-cases, inl, inr, Option, none, some, append-nil,
}
use project_veil.Tls.Group.{
  Outcome, eof, reset, socket_error, capture_error, Stand, receiving, received, kept, noted,
  leaving, closing, finished, Side, Reply, returned, was_reset, failed, group_limit, is_over,
  after_recv, after_send, accepted, side_step,
}

-- What the wire has beyond the bytes that were sent on: nothing after an orderly end, and nothing
-- known after a send that failed.
abbrev pub unsent : Stand → Option Bytes
unsent receiving = some []
unsent (received _) = some []
unsent (kept part) = some part
unsent (noted part) = some part
unsent (leaving eof) = some []
unsent (leaving capture_error) = some []
unsent (leaving reset) = none
unsent (leaving socket_error) = none
unsent (closing eof) = some []
unsent (closing capture_error) = some []
unsent (closing reset) = none
unsent (closing socket_error) = none
unsent (finished eof) = some []
unsent (finished capture_error) = some []
unsent (finished reset) = none
unsent (finished socket_error) = none

-- The bytes on the wire that are not yet among the events.
abbrev pub unnoted : Stand → ℕ
unnoted (kept part) = length part
unnoted _ = 0

-- The outcome that the thread has at its end.
abbrev pub outcome : Stand → Option Outcome
outcome (closing o) = some o
outcome (finished o) = some o
outcome _ = none

-- The wire of a direction, its bytes that were sent, and the bytes of its events.
pub record Relays (noted_bytes : ℕ) (s : Side) : Type 0 where
  pub bounded : length s.wire ≤ group_limit
  pub counted : noted_bytes + unnoted s.stand ≡ length s.wire
  pub prefix : (rest : Bytes) × (s.wire ≡ s.sent ++ rest)
  pub exact : (rest : Bytes) → unsent s.stand ≡ some rest → s.wire ≡ s.sent ++ rest
  pub ended : s.ending ≡ outcome s.stand

-- The bytes that a statement adds to the events.
abbrev pub gained : Stand → ℕ
gained (kept part) = length part
gained _ = 0

-- Where a thread moves and leaves its bytes alone.
Relays-move :
    (n : ℕ) (s : Side) (stand : Stand)
    → unnoted s.stand ≡ unnoted stand
    → ((rest : Bytes) → unsent stand ≡ some rest → unsent s.stand ≡ some rest)
    → outcome s.stand ≡ outcome stand
    → Relays n s
    → Relays n (record s { stand = stand })
Relays-move n s stand u k o a = record {
  bounded = a.bounded;
  counted = omega (arith, a.counted, u);
  prefix = a.prefix;
  exact = λ rest h. a.exact rest (k rest h);
  ended = a.ended ∙ o;
}

unnoted-after_recv : (r : Reply) → unnoted (after_recv r) ≡ 0
unfolding after_recv
unnoted-after_recv (returned []) = refl
unnoted-after_recv (returned (b ∷ bs)) = refl
unnoted-after_recv was_reset = refl
unnoted-after_recv failed = refl

outcome-after_recv : (r : Reply) → outcome (after_recv r) ≡ none
unfolding after_recv
outcome-after_recv (returned []) = refl
outcome-after_recv (returned (b ∷ bs)) = refl
outcome-after_recv was_reset = refl
outcome-after_recv failed = refl

unsent-after_recv :
    (r : Reply) (rest : Bytes) → unsent (after_recv r) ≡ some rest → some [] ≡ some rest
unfolding after_recv
unsent-after_recv (returned []) rest h = h
unsent-after_recv (returned (b ∷ bs)) rest h = h
unsent-after_recv was_reset rest h = cc
unsent-after_recv failed rest h = cc

Relays-received :
    (n : ℕ) (r : Reply) (part : Bytes) (s : Side)
    → s.stand ≡ received part
    → Relays n s
    → Relays n (side_step r (received part) s)
unfolding side_step is_over
Relays-received n r part s here a =
    let h = ap unnoted here in
    let all = a.exact [] (ap unsent here) ∙ append-nil s.sent in
    elim (Bool-cases (is_over s.wire part)) [
      | inl e ↦ rw e (
          Relays-move n s (leaving capture_error) h (λ rest k. ap unsent here ∙ k) (ap outcome here)
            a)
      | inr e ↦ rw e (record {
        bounded = ground (arith, e, length-append s.wire part);
        counted = omega (arith, a.counted, h, length-append s.wire part);
        prefix = (part, ap (λ w. w ++ part) all);
        exact = λ rest k. let whole = ap (λ w. w ++ part) all in cc;
        ended = a.ended ∙ ap outcome here;
      })
    ]

Relays-noted :
    (n : ℕ) (r : Reply) (part : Bytes) (s : Side)
    → s.stand ≡ noted part
    → Relays n s
    → Relays n (side_step r (noted part) s)
unfolding side_step after_send accepted
Relays-noted n (returned _) part s here a =
    let all = a.exact part (ap unsent here) in
    let whole = all ∙ sym (append-nil (s.sent ++ part)) in
    record {
      bounded = a.bounded;
      counted = omega (arith, a.counted, ap unnoted here);
      prefix = ([], whole);
      exact = λ rest k. cc;
      ended = a.ended ∙ ap outcome here;
    }
Relays-noted n was_reset part s here a =
    Relays-move n s (leaving reset) (ap unnoted here) (λ rest k. cc) (ap outcome here) a
Relays-noted n failed part s here a =
    Relays-move n s (leaving socket_error) (ap unnoted here) (λ rest k. cc) (ap outcome here) a

unsent-end : (o : Outcome) → unsent (closing o) ≡ unsent (leaving o)
unsent-end eof = refl
unsent-end reset = refl
unsent-end socket_error = refl
unsent-end capture_error = refl

unsent_done : (o : Outcome) → unsent (finished o) ≡ unsent (closing o)
unsent_done eof = refl
unsent_done reset = refl
unsent_done socket_error = refl
unsent_done capture_error = refl

pub Relays-sum : (m n : ℕ) (s : Side) → m ≡ n → Relays m s → Relays n s
Relays-sum m n s e a = record {
  bounded = a.bounded;
  counted = omega (arith, a.counted, e);
  prefix = a.prefix;
  exact = a.exact;
  ended = a.ended;
}

pub Relays-side_step :
    (n : ℕ) (r : Reply) (stand : Stand) (s : Side)
    → s.stand ≡ stand
    → Relays n s
    → Relays (n + gained stand) (side_step r stand s)
unfolding side_step
Relays-side_step n r receiving s here a =
    Relays-sum n (n + 0) (record s { stand = after_recv r }) (omega arith)
      (Relays-move n s (after_recv r) (ap unnoted here ∙ sym (unnoted-after_recv r))
        (λ rest k. ap unsent here ∙ unsent-after_recv r rest k)
        (ap outcome here ∙ sym (outcome-after_recv r)) a)
Relays-side_step n r (received part) s here a =
    Relays-sum n (n + 0) _ (omega arith) (Relays-received n r part s here a)
Relays-side_step n r (kept part) s here a = record {
  bounded = a.bounded;
  counted = omega (arith, a.counted, ap unnoted here);
  prefix = a.prefix;
  exact = λ rest k. a.exact rest (ap unsent here ∙ k);
  ended = a.ended ∙ ap outcome here;
}
Relays-side_step n r (noted part) s here a =
    Relays-sum n (n + 0) _ (omega arith) (Relays-noted n r part s here a)
Relays-side_step n r (leaving o) s here a = record {
  bounded = a.bounded;
  counted = omega (arith, a.counted, ap unnoted here);
  prefix = a.prefix;
  exact = λ rest k. a.exact rest (ap unsent here ∙ sym (unsent-end o) ∙ k);
  ended = refl;
}
Relays-side_step n r (closing o) s here a = record {
  bounded = a.bounded;
  counted = omega (arith, a.counted, ap unnoted here);
  prefix = a.prefix;
  exact = λ rest k. a.exact rest (ap unsent here ∙ sym (unsent_done o) ∙ k);
  ended = a.ended ∙ ap outcome here;
}
Relays-side_step n r (finished o) s here a = Relays-sum n (n + 0) s (omega arith) a
