-- ===== src/Bench/Processes/Stops.antt =====
-- Stopping ends the process.
use project_veil.Prelude.{
  ℕ, ◌≡◌, ◌≢◌, refl, sym, ap, ◌∙◌, true, false, List, [], ◌∷◌, ◌++◌, Option, none, some, inl, inr,
  Error, Result, ok, err, arith, Result-cases, subst,
}
use mathlib.Core.List.{reverse, reverse-cons}
use project_veil.Exec.Calls.{Call, Made, made, poll, terminate, kill, wait, close}
use project_veil.Exec.{
  State, Exec, pure, ◌>>=◌, ◌>>◌, continue, ask, without, wait_for, poll_of, try_except,
  try_except_ok, try_except_caught, for_each, when_none,
}
use project_veil.Exec.Held.{mem, mem-append, mem-without}
use project_veil.Exec.Keeps.{is_ok, is_timeout, Docile}
use project_veil.Exec.Finally.{Ended, Releases, Releases-for_each, Releases-ask, all_of}
use project_veil.Bench.Processes.{stop, stop_all, close_all}

-- One process has ended, by what the system answered.
Ended-without :
    (s : State) (p : ℕ) (t : List Made)
    → Docile s.system
    → Ended (p ∷ []) s (record s { held = without p s.held; history = t })
unfolding mem
Ended-without s p t d = record {
  docile = d;
  locals = refl;
  fewer = λ h m. ground (arith, mem-without h p s.held, m);
  gone = λ h m. ground (arith, mem-without h p s.held, m);
}

not-err : {A : Type 0} {r : Result A} {e : Error} → is_ok r ≡ true → r ≢ err e
not-err h k = let h' = rw k at h in cc

Ended-from :
    (ps : List ℕ) (s s' : State) (t : List Made)
    → Ended ps (record s { history = t }) s'
    → Ended ps s s'
Ended-from ps s s' t b = record {
  docile = b.docile;
  locals = b.locals;
  fewer = b.fewer;
  gone = b.gone;
}

wait_returns :
    (p : ℕ) (timeout : Option ℕ) (s : State)
    → is_ok (s.system.answer s.history (wait p timeout)) ≡ true
    → ((wait_for p timeout >>= λ _. pure tt) s).0 ≡ ok tt
unfolding wait_for ◌>>=◌ pure
wait_returns p timeout s fine = elim (Result-cases (s.system.answer s.history (wait p timeout))) [
  | inl (code, e) ↦ rw (e, continue, wait_for) refl
  | inr (x, e) ↦ absurd (not-err fine e)
]

wait_ends :
    (p : ℕ) (timeout : Option ℕ) (s : State)
    → Docile s.system
    → is_ok (s.system.answer s.history (wait p timeout)) ≡ true
    → Ended (p ∷ []) s ((wait_for p timeout >>= λ _. pure tt) s).1
unfolding wait_for ◌>>=◌ pure
wait_ends p timeout s d fine = elim (Result-cases (s.system.answer s.history (wait p timeout))) [
  | inl (code, e) ↦ rw (e, continue, wait_for) (Ended-without s p _ d)
  | inr (x, e) ↦ absurd (not-err fine e)
]

-- The state behind a call that starts and ends no process.
abbrev pub after : {A : Type 0} → Call A → State → State
after c s = record s { history = s.history ++ made c ∷ [] }

-- Waiting for a process right after a call, where that wait is known to return.
pub Releases-wait_after :
    {A : Type 0} (c : Call A) (m : Exec (Unit {0})) (p : ℕ) (timeout : Option ℕ)
    → ((s : State) → Docile s.system → m s ≡ (ok tt, after c s))
    → ((s : State)
        → Docile s.system
        → is_ok (s.system.answer (s.history ++ made c ∷ []) (wait p timeout)) ≡ true)
    → Releases (p ∷ []) (m >> (wait_for p timeout >>= λ _. pure tt))
unfolding ◌>>=◌
Releases-wait_after c m p timeout asks fine = record {
  returns = λ s d. rw (asks s d, continue) (wait_returns p timeout (after c s) (fine s d));
  ends = λ s d.
      rw (asks s d, continue)
        (Ended-from (p ∷ []) s _ _ (wait_ends p timeout (after c s) d (fine s d)));
}

pub ask-after :
    (c : Call (Unit {0})) (s : State)
    → is_ok (s.system.answer s.history c) ≡ true
    → ask c s ≡ (ok tt, after c s)
unfolding ask
ask-after c s fine = elim (Result-cases (s.system.answer s.history c)) [
  | inl (tt, e) ↦ ap (λ r. (r, after c s)) e
  | inr (x, e) ↦ absurd (not-err fine e)
]

Releases-kill : (p : ℕ) → Releases (p ∷ []) (ask (kill p) >> (wait_for p none >>= λ _. pure tt))
Releases-kill p =
    Releases-wait_after (kill p) (ask (kill p)) p none
      (λ s d. ask-after (kill p) s (d.killed s.history p)) (λ s d. d.ended s.history p)

in_time : ℕ → Exec (Unit {0})
in_time p = wait_for p (some 5) >>= λ _. pure tt

in_time_ok :
    (p : ℕ) (s : State) {code : ℕ}
    → s.system.answer s.history (wait p (some 5)) ≡ ok code
    → in_time p s ≡ (
      ok tt,
      record s { held = without p s.held; history = s.history ++ made (wait p (some 5)) ∷ [] },
    )
unfolding in_time ◌>>=◌ wait_for pure
in_time_ok p s e = rw (e, continue, wait_for) refl

in_time_err :
    (p : ℕ) (s : State) {x : Error}
    → s.system.answer s.history (wait p (some 5)) ≡ err x
    → in_time p s ≡ (err x, record s { history = s.history ++ made (wait p (some 5)) ∷ [] })
unfolding in_time ◌>>=◌ wait_for pure
in_time_err p s e = rw (e, continue, wait_for) refl

killing : ℕ → Exec (Unit {0})
killing p = ask (kill p) >> (wait_for p none >>= λ _. pure tt)

patience : ℕ → Exec (Unit {0})
unfolding in_time killing
patience p = try_except (in_time p) is_timeout (λ _. killing p)

patience_ok :
    (p : ℕ) (s : State) {code : ℕ}
    → s.system.answer s.history (wait p (some 5)) ≡ ok code
    → patience p s ≡ (
      ok tt,
      record s { held = without p s.held; history = s.history ++ made (wait p (some 5)) ∷ [] },
    )
unfolding patience
patience_ok p s e = try_except_ok (in_time p) is_timeout (λ _. killing p) s _ (in_time_ok p s e)

patience_late :
    (p : ℕ) (s : State) {x : Error}
    → s.system.answer s.history (wait p (some 5)) ≡ err x
    → is_timeout x ≡ true
    → patience p s ≡ killing p (record s { history = s.history ++ made (wait p (some 5)) ∷ [] })
unfolding patience
patience_late p s e late =
    try_except_caught (in_time p) is_timeout (λ _. killing p) s _ (in_time_err p s e) late

Releases-patience : (p : ℕ) → Releases (p ∷ []) (patience p)
unfolding killing
Releases-patience p = record {
  returns = λ s d. elim (Result-cases (s.system.answer s.history (wait p (some 5)))) [
    | inl (code, e) ↦ ap (λ o. o.0) (patience_ok p s e)
    | inr (x, e) ↦
        ap (λ o. o.0) (patience_late p s e (d.waited s.history p 5 x e))
        ∙ (Releases-kill p).returns _ d
  ];
  ends = λ s d. elim (Result-cases (s.system.answer s.history (wait p (some 5)))) [
    | inl (code, e) ↦
        subst (λ o. Ended (p ∷ []) s o.1) (sym (patience_ok p s e)) (Ended-without s p _ d)
    | inr (x, e) ↦
        subst (λ o. Ended (p ∷ []) s o.1) (sym (patience_late p s e (d.waited s.history p 5 x e)))
          (Ended-from (p ∷ []) s _ _ ((Releases-kill p).ends _ d))
  ];
}

Releases-running :
    (p : ℕ)
    → Releases (p ∷ []) (
        ask (terminate p)
        >> try_except
            (wait_for p (some 5) >>= λ _. pure tt)
            is_timeout
            (λ _. ask (kill p) >> (wait_for p none >>= λ _. pure tt)))
unfolding in_time killing patience
Releases-running p =
    Releases-ask (terminate p) _ (λ s d. d.terminated s.history p) (p ∷ [])
      (λ _. Releases-patience p)

-- `if p.poll() is None: m`, where `m` ends the process
pub Releases-poll :
    (p : ℕ) (m : Exec (Unit {0}))
    → Releases (p ∷ []) m
    → Releases (p ∷ []) (poll_of p >>= λ code. when_none code m (pure tt))
unfolding poll_of when_none ◌>>=◌ pure
Releases-poll p m r = record {
  returns = λ s d. elim (Result-cases (s.system.answer s.history (poll p))) [
    | inl (some code, e) ↦ rw (e, continue, poll_of, when_none) refl
    | inl (none, e) ↦ rw (e, continue, poll_of, when_none) (r.returns _ d)
    | inr (x, e) ↦ absurd (not-err (d.polled s.history p) e)
  ];
  ends = λ s d. elim (Result-cases (s.system.answer s.history (poll p))) [
    | inl (some code, e) ↦ rw (e, continue, poll_of, when_none) (Ended-without s p _ d)
    | inl (none, e) ↦ rw (e, continue, poll_of, when_none) (Ended-from (p ∷ []) s _ _ (r.ends _ d))
    | inr (x, e) ↦ absurd (not-err (d.polled s.history p) e)
  ];
}

-- Stopping ends the process: by itself, within five seconds, or killed.
pub Releases-stop : (p : ℕ) → Releases (p ∷ []) (stop p)
unfolding stop
Releases-stop p = Releases-poll p _ (Releases-running p)

mem-reverse : (h : ℕ) (ps : List ℕ) → mem h (reverse ps) ≡ mem h ps
unfolding mem
mem-reverse h [] = refl
mem-reverse h (p ∷ ps) =
    ap (mem h) (reverse-cons p ps)
    ∙ ground (arith, mem-append h (reverse ps) (p ∷ []), mem-reverse h ps)

all_of-each : (ps : List ℕ) → all_of (λ p. p ∷ []) ps ≡ ps
all_of-each [] = refl
all_of-each (p ∷ ps) = ap (λ t. p ∷ t) (all_of-each ps)

-- The same processes, in another order.
pub Releases-same :
    (ps qs : List ℕ) (m : Exec (Unit {0}))
    → ((h : ℕ) → mem h ps ≡ mem h qs)
    → Releases ps m
    → Releases qs m
Releases-same ps qs m same r = record {
  returns = r.returns;
  ends = λ s d.
      let e = r.ends s d in
      record {
        docile = e.docile;
        locals = e.locals;
        fewer = e.fewer;
        gone = λ h k. sym (same h) ∙ e.gone h k;
      };
}

-- Every listed process ends.
pub Releases-stop_all : (procs : List ℕ) → Releases procs (stop_all procs)
unfolding stop_all
Releases-stop_all procs =
    Releases-same (all_of (λ p. p ∷ []) (reverse procs)) procs (for_each (reverse procs) stop)
      (λ h. ap (mem h) (all_of-each (reverse procs)) ∙ mem-reverse h procs)
      (Releases-for_each (λ p. p ∷ []) stop (reverse procs) Releases-stop)

-- A call that ends no process and is known to return.
pub Releases-call :
    (c : Call (Unit {0}))
    → ((s : State) → Docile s.system → is_ok (s.system.answer s.history c) ≡ true)
    → Releases [] (ask c)
unfolding ask mem
Releases-call c fine = record {
  returns = λ s d. elim (Result-cases (s.system.answer s.history c)) [
    | inl (tt, e) ↦ e
    | inr (x, e) ↦ absurd (not-err (fine s d) e)
  ];
  ends = λ s d. record { docile = d; locals = refl; fewer = λ h m. m; gone = λ h m. refl };
}

none_of : (logs : List ℕ) → all_of (λ (log : ℕ). []) logs ≡ []
none_of [] = refl
none_of (log ∷ logs) = none_of logs

-- The same call for each handle.
pub Releases-each :
    (c : ℕ → Call (Unit {0})) (hs : List ℕ)
    → ((h : ℕ) (s : State) → Docile s.system → is_ok (s.system.answer s.history (c h)) ≡ true)
    → Releases [] (for_each hs (λ h. ask (c h)))
Releases-each c hs fine =
    subst (λ ps. Releases ps (for_each hs (λ h. ask (c h)))) (none_of hs)
      (Releases-for_each (λ h. []) (λ h. ask (c h)) hs (λ h. Releases-call (c h) (fine h)))

pub Releases-close_all : (logs : List ℕ) → Releases [] (close_all logs)
unfolding close_all
Releases-close_all logs = Releases-each close logs (λ log s d. d.closed s.history log)

mem_one : (p : ℕ) → mem p (p ∷ []) ≡ true
unfolding mem
mem_one p = ground arith

-- On a system where children can be polled and signalled, where a wait with a limit raises nothing but
-- its timeout, and where a wait right after a kill returns: stopping a process returns, and then the
-- process has ended, and no other process has been started.
pub stop_ends :
    (p : ℕ) (s : State)
    → Docile s.system
    → ((stop p s).0 ≡ ok tt)
      × (mem p (stop p s).1.held ≡ false)
      × ((h : ℕ) → mem h (stop p s).1.held ≡ true → mem h s.held ≡ true)
stop_ends p s d =
    let r = Releases-stop p in
    let e = r.ends s d in (r.returns s d, ground (arith, e.gone p, mem_one p), e.fewer)
