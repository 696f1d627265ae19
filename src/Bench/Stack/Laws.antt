-- ===== src/Bench/Stack/Laws.antt =====
-- Unwinding ends every process that a callback names.
use project_veil.Prelude.{
  ℕ, ◌≡◌, refl, sym, ap, ◌∙◌, true, ◌||◌, List, [], ◌∷◌, ◌++◌, none, inl, inr, Text, Result, arith,
  Result-cases, append_assoc, append-nil,
}
use mathlib.Core.List.{reverse, reverse-cons}
use project_veil.Exec.Calls.{close, close_tap, rmtree}
use project_veil.Exec.{
  Callback, to_stop, to_close, to_close_tap, to_rmtree, Locals, State, Exec, pure, ask, try_except,
  handle, scoped, no_locals,
}
use project_veil.Exec.Held.{mem, mem-append}
use project_veil.Exec.Keeps.{Docile, Keeps, keeps_rules}
use project_veil.Exec.Finally.{Ended, Ended-trans, Releases, Contained, Covers-begin, all_of}
use project_veil.Bench.Processes.{spawn}
use project_veil.Bench.Processes.Laws.{Keeps-modify, Keeps-start-modify}
use project_veil.Bench.Processes.Stops.{Releases-stop, Releases-call}
use project_veil.Bench.Stack.{
  call_back, unwind, exit_stack, add_callback, callback, add_stopped, start_stopped, launch_stacked,
  open_stacked_tap, open_stacked_group,
}

abbrev pub ended_by : Callback → List ℕ
ended_by (to_stop p) = p ∷ []
ended_by (to_close _) = []
ended_by (to_close_tap _) = []
ended_by (to_rmtree _) = []

-- The processes that the cleanup of a function with an `ExitStack` ends.
abbrev pub stacked : Locals → List ℕ
stacked l = all_of ended_by l.callbacks

Releases-rmtree :
    (path : Text) → Releases [] (try_except (ask (rmtree path)) (λ _. true) (λ _. pure tt))
unfolding try_except ask pure mem
Releases-rmtree path = record {
  returns = λ s d. elim (Result-cases (s.system.answer s.history (rmtree path))) [
    | inl (tt, e) ↦ rw (e, handle) refl
    | inr (x, e) ↦ rw (e, handle) refl
  ];
  ends = λ s d. elim (Result-cases (s.system.answer s.history (rmtree path))) [
    | inl (tt, e) ↦
        rw (e, handle) (record { docile = d; locals = refl; fewer = λ h m. m; gone = λ h m. refl })
    | inr (x, e) ↦
        rw (e, handle) (record { docile = d; locals = refl; fewer = λ h m. m; gone = λ h m. refl })
  ];
}

Releases-call_back : (c : Callback) → Releases (ended_by c) (call_back c)
unfolding call_back
Releases-call_back (to_stop p) = Releases-stop p
Releases-call_back (to_close h) = Releases-call (close h) (λ s d. d.closed s.history h)
Releases-call_back (to_close_tap tap) =
    Releases-call (close_tap tap) (λ s d. d.tap_closed s.history tap)
Releases-call_back (to_rmtree path) = Releases-rmtree path

unwind-Ended :
    {A : Type 0} (cs : List Callback) (r : Result A) (s : State)
    → Docile s.system
    → Ended (all_of ended_by cs) s (unwind cs r s).1
unfolding unwind mem
unwind-Ended [] r s d = record { docile = d; locals = refl; fewer = λ h m. m; gone = λ h m. refl }
unwind-Ended (c ∷ cs) r s d =
    let e = (Releases-call_back c).ends s d in
    let s' = (call_back c s).1 in
    Ended-trans (ended_by c) (all_of ended_by cs) s s' _ e (unwind-Ended cs _ s' e.docile)

all_of-append :
    (cs ds : List Callback) → all_of ended_by (cs ++ ds) ≡ all_of ended_by cs ++ all_of ended_by ds
all_of-append [] ds = refl
all_of-append (c ∷ cs) ds =
    ap (λ t. ended_by c ++ t) (all_of-append cs ds)
    ∙ sym (append_assoc (ended_by c) (all_of ended_by cs) (all_of ended_by ds))

mem-all_of-reverse :
    (h : ℕ) (cs : List Callback) → mem h (all_of ended_by (reverse cs)) ≡ mem h (all_of ended_by cs)
unfolding mem
mem-all_of-reverse h [] = refl
mem-all_of-reverse h (c ∷ cs) =
    ap (λ t. mem h (all_of ended_by t)) (reverse-cons c cs)
    ∙ ap (mem h) (all_of-append (reverse cs) (c ∷ []))
    ∙ ground (
      arith,
      mem-append h (all_of ended_by (reverse cs)) (ended_by c ++ []),
      mem-append h (ended_by c) [],
      mem-append h (ended_by c) (all_of ended_by cs),
      mem-all_of-reverse h cs,
    )

-- A body under an `ExitStack`, whose callbacks end all that the body may leave.
pub Contained-exit_stack :
    {A : Type 0} (m : Exec A)
    → ((before : List ℕ) → Keeps stacked before m)
    → Contained (scoped (exit_stack m))
unfolding scoped exit_stack
Contained-exit_stack m km = record {
  docile = λ s d.
      let c = (km s.held).at _ (Covers-begin stacked s d) in
      let o = m (record s { locals = no_locals }) in
      (unwind-Ended (reverse o.1.locals.callbacks) o.0 o.1 c.docile).docile;
  contained = λ s d h k.
      let c = (km s.held).at _ (Covers-begin stacked s d) in
      let o = m (record s { locals = no_locals }) in
      let e = unwind-Ended (reverse o.1.locals.callbacks) o.0 o.1 c.docile in
      ground
        (arith, c.covered h (e.fewer h k), e.gone h k, mem-all_of-reverse h o.1.locals.callbacks);
}

grown :
    (c : Callback) (h : ℕ) (l : Locals)
    → mem h (stacked (add_callback c l)) ≡ (mem h (stacked l) || mem h (ended_by c))
unfolding mem
grown c h l =
    ap (mem h) (all_of-append l.callbacks (c ∷ []))
    ∙ ground (
      arith,
      mem-append h (all_of ended_by l.callbacks) (ended_by c ++ []),
      mem-append h (ended_by c) [],
    )

-- A callback that ends no process.
pub Keeps-callback :
    {before : List ℕ} (c : Callback) → ended_by c ≡ [] → Keeps stacked before (callback c)
unfolding callback
Keeps-callback c e =
    Keeps-modify stacked _ (add_callback c)
      (λ l. all_of-append l.callbacks (c ∷ []) ∙ rw e (append-nil (all_of ended_by l.callbacks)))

module _ {before : List ℕ} where
  Keeps-start_stopped : (cmd : List Text) → Keeps stacked before (start_stopped cmd)
  unfolding start_stopped mem
  Keeps-start_stopped cmd =
      Keeps-start-modify stacked before (spawn cmd none 1) add_stopped (λ p. p)
        (λ p h l. let g = grown (to_stop p) h l in ground (arith, g))

  pub Keeps-launch_stacked :
      (folder : Text) (cmd : List Text) → Keeps stacked before (launch_stacked folder cmd)
  unfolding launch_stacked
  Keeps-launch_stacked folder cmd =
      search
        (
          keeps_rules,
          Keeps-start_stopped,
          λ (log : ℕ). Keeps-callback {before = before} (to_close log) refl,
        )
        depth 20

  pub Keeps-open_stacked_tap : (port : ℕ) → Keeps stacked before (open_stacked_tap port)
  unfolding open_stacked_tap
  Keeps-open_stacked_tap port =
      search (keeps_rules, λ (tap : ℕ). Keeps-callback {before = before} (to_close_tap tap) refl)
        depth 20

  pub Keeps-open_stacked_group :
      (port delay_ms : ℕ) → Keeps stacked before (open_stacked_group port delay_ms)
  unfolding open_stacked_group
  Keeps-open_stacked_group port delay_ms =
      search (keeps_rules, λ (tap : ℕ). Keeps-callback {before = before} (to_close_tap tap) refl)
        depth 20
