-- ===== src/Bench/Perf/Laws.antt =====
-- The process of `perf` is named as soon as it runs, and closing ends it.
use project_veil.Prelude.{
  ℕ, ◌≡◌, refl, sym, ap, ◌∙◌, ◌||◌, List, [], ◌∷◌, ◌++◌, none, some, Text, arith, ◌==◌,
  append_assoc,
}
use project_veil.Exec.Calls.{popen, run_checked, close, unlink}
use project_veil.Exec.{
  Perf, Locals, State, pure, raise, gets, ◌>>=◌, continue, ask, modify, for_each,
}
use project_veil.Exec.Held.{mem, mem-append}
use project_veil.Exec.Keeps.{Covers, Keeps, keeps_rules, interrupt_command}
use project_veil.Exec.Finally.{Releases, Releases-ask, Releases-then, Releases-for_each, all_of}
use project_veil.Bench.Processes.Laws.{listed, Keeps-start-modify}
use project_veil.Bench.Processes.Stops.{
  Releases-wait_after, ask-after, Releases-poll, Releases-call,
}
use project_veil.Bench.Perf.{
  Numbers, line, perf_of, add_counter, set_counters, close_head, close_first, perf_command,
  add_perf, interrupt, command, close_perf, values,
}

module _ {own : Locals → List ℕ} {before : List ℕ} where
  pub Keeps-line : (p seconds : ℕ) → Keeps own before (line p seconds)
  unfolding line
  Keeps-line p seconds = search (keeps_rules) depth 20

  pub Keeps-command : (c : Perf) (s : Text) → Keeps own before (command c s)
  unfolding command
  Keeps-command c s = search (keeps_rules) depth 20

  pub Keeps-interrupt : (p : ℕ) → Keeps own before (interrupt p)
  unfolding interrupt
  Keeps-interrupt p = search (keeps_rules) depth 20

  pub Keeps-close_perf : (c : Perf) → Keeps own before (close_perf c)
  unfolding close_perf
  Keeps-close_perf c = search (keeps_rules, Keeps-interrupt) depth 30

  pub Keeps-values : (nums : Numbers) (c : Perf) → Keeps own before (values nums c)
  unfolding values
  Keeps-values nums c = search (keeps_rules) depth 20

all_of-append :
    (f : Perf → List ℕ) (cs ds : List Perf) → all_of f (cs ++ ds) ≡ all_of f cs ++ all_of f ds
all_of-append f [] ds = refl
all_of-append f (c ∷ cs) ds =
    ap (λ t. f c ++ t) (all_of-append f cs ds)
    ∙ sym (append_assoc (f c) (all_of f cs) (all_of f ds))

listed-add_counter :
    (c : Perf) (h : ℕ) (l : Locals)
    → mem h (listed (add_counter c l)) ≡ (mem h (listed l) || h == c.process)
unfolding mem
listed-add_counter c h l =
    let counted = all_of (λ c. c.process ∷ []) l.counters in
    ap (λ t. mem h (l.procs ++ t)) (all_of-append (λ c. c.process ∷ []) l.counters (c ∷ []))
    ∙ ground (
      arith,
      mem-append h l.procs (counted ++ c.process ∷ []),
      mem-append h counted (c.process ∷ []),
      mem-append h l.procs counted,
    )

module _ {before : List ℕ} where
  pub Keeps-add_perf : (pid : ℕ) (folder : Text) → Keeps listed before (add_perf pid folder)
  unfolding add_perf
  Keeps-add_perf pid folder =
      search
        (
          keeps_rules,
          λ (cf af log : ℕ).
              Keeps-start-modify listed before (popen (perf_command folder pid) none)
                (λ p. add_counter (perf_of folder cf af log p)) (λ p. perf_of folder cf af log p)
                (λ p h l. listed-add_counter (perf_of folder cf af log p) h l),
        )
        depth 30

Releases-interrupt : (p : ℕ) → Releases (p ∷ []) (interrupt p)
unfolding interrupt
Releases-interrupt p =
    Releases-wait_after (run_checked (interrupt_command p))
      (ask (run_checked (interrupt_command p))) p (some 10)
      (λ s d. ask-after (run_checked _) s (d.ran s.history _)) (λ s d. d.interrupted s.history p)

-- Closing a counter ends its process.
pub Releases-close_perf : (c : Perf) → Releases (c.process ∷ []) (close_perf c)
unfolding close_perf
Releases-close_perf c =
    Releases-then (c.process ∷ []) [] _ _ (Releases-poll c.process _ (Releases-interrupt c.process))
      (Releases-ask (close c.cf) _ (λ s d. d.closed s.history c.cf) []
        (λ _.
          Releases-ask (close c.af) _ (λ s d. d.closed s.history c.af) []
            (λ _.
              Releases-ask (unlink c.ctl) _ (λ s d. d.unlinked s.history c.ctl) []
                (λ _.
                  Releases-ask (unlink c.ack) _ (λ s d. d.unlinked s.history c.ack) []
                    (λ _. Releases-call (close c.log) (λ s d. d.closed s.history c.log))))))

pub Releases-close_counters :
    (cs : List Perf) → Releases (all_of (λ c. c.process ∷ []) cs) (for_each cs close_perf)
Releases-close_counters cs =
    Releases-for_each (λ c. c.process ∷ []) close_perf cs Releases-close_perf

module _ {before : List ℕ} where
  -- A counter is dropped from the list and closed: its process has ended.
  Keeps-close_head :
      (c : Perf) (cs : List Perf) (s : State)
      → s.locals.counters ≡ c ∷ cs
      → Covers listed before s
      → Covers listed before (close_head (c ∷ cs) s).1
  unfolding close_head ◌>>=◌ modify pure mem
  Keeps-close_head c cs s e k =
      let t : State = record s { locals = set_counters cs s.locals } in
      let r = Releases-close_perf c in
      let fin = r.ends t k.docile in
      rw (r.returns t k.docile, continue)
        (record {
          docile = fin.docile;
          covered = λ h m.
              let was = k.covered h (fin.fewer h m) in
              let here = ap (λ x. mem h (s.locals.procs ++ all_of (λ c. c.process ∷ []) x)) e in
              let now = ap (λ l. mem h (listed l)) fin.locals in
              ground (
                arith,
                was,
                here,
                now,
                fin.gone h m,
                mem-append h s.locals.procs (c.process ∷ all_of (λ c. c.process ∷ []) cs),
                mem-append h s.locals.procs (all_of (λ c. c.process ∷ []) cs),
              );
        })

  Keeps-close_first_at :
      (cs : List Perf) (s : State)
      → s.locals.counters ≡ cs
      → Covers listed before s
      → Covers listed before (close_head cs s).1
  unfolding close_head raise
  Keeps-close_first_at [] s e k = k
  Keeps-close_first_at (c ∷ cs) s e k = Keeps-close_head c cs s e k

  pub Keeps-close_first : Keeps listed before close_first
  unfolding close_first gets ◌>>=◌
  Keeps-close_first = record { at = λ s k. Keeps-close_first_at s.locals.counters s refl k }
