-- ===== src/Bench/Processes/Laws.antt =====
-- Launching names the process.
use project_veil.Prelude.{
  ℕ, zero, suc, ◌≡◌, refl, sym, true, ◌||◌, List, [], ◌∷◌, ◌++◌, Option, inl, inr, Text, arith,
  ◌==◌, Result-cases, subst,
}
use project_veil.Exec.Calls.{Call}
use project_veil.Exec.{Locals, Exec, pure, ◌>>=◌, ◌>>◌, continue, start, modify}
use project_veil.Exec.Held.{mem, mem-append}
use project_veil.Exec.Keeps.{Keeps, keeps_rules, Keeps-raise, Keeps-bind}
use project_veil.Exec.Finally.{all_of}
use project_veil.Bench.Processes.{
  spawn, stop, try_port, wait_round, wait_port_loop, wait_port, open_log, start_listed, launch,
  stop_all, add_log, add_proc,
}

-- The processes that the cleanup of a function with `procs` and `counters` ends.
abbrev pub listed : Locals → List ℕ
listed l = l.procs ++ all_of (λ c. c.process ∷ []) l.counters

module _ {own : Locals → List ℕ} {before : List ℕ} where
  pub Keeps-stop : (p : ℕ) → Keeps own before (stop p)
  unfolding stop
  Keeps-stop p = search (keeps_rules) depth 30

  pub Keeps-try_port : (host : Text) (port ms : ℕ) → Keeps own before (try_port host port ms)
  unfolding try_port
  Keeps-try_port host port ms = search (keeps_rules) depth 30

  Keeps-wait_round :
      (host : Text) (port ms p : ℕ) (rest : Exec (Unit {0}))
      → Keeps own before rest
      → Keeps own before (wait_round host port ms p rest)
  unfolding wait_round
  Keeps-wait_round host port ms p rest k = search (keeps_rules, Keeps-try_port) depth 30

  pub Keeps-wait_port_loop :
      (rounds : ℕ) (host : Text) (port ms p : ℕ)
      → Keeps own before (wait_port_loop rounds host port ms p)
  unfolding wait_port_loop
  Keeps-wait_port_loop zero host port ms p = Keeps-raise _
  Keeps-wait_port_loop (suc rounds) host port ms p =
      Keeps-wait_round host port ms p _ (Keeps-wait_port_loop rounds host port ms p)

  pub Keeps-wait_port : (port p : ℕ) → Keeps own before (wait_port port p)
  unfolding wait_port
  Keeps-wait_port port p = Keeps-wait_port_loop 300 _ port 50 p

  pub Keeps-stop_all : (procs : List ℕ) → Keeps own before (stop_all procs)
  unfolding stop_all
  Keeps-stop_all procs = search (keeps_rules, Keeps-stop) depth 10

-- Changes of the variables that keep the names of the processes.
pub Keeps-modify :
    (own : Locals → List ℕ) (before : List ℕ) (f : Locals → Locals)
    → ((l : Locals) → own (f l) ≡ own l)
    → Keeps own before (modify f)
unfolding modify
Keeps-modify own before f same = record {
  at = λ s c. record {
    docile = c.docile;
    covered = λ h m.
        subst (λ ks. (mem h before || mem h ks) ≡ true) (sym (same s.locals)) (c.covered h m);
  };
}

-- A process that is started and then named is covered; `own` grows by it.
pub Keeps-start-modify :
    {A : Type 0} (own : Locals → List ℕ) (before : List ℕ) (c : Call (Unit {0}))
    (f : ℕ → Locals → Locals) (a : ℕ → A)
    → ((p h : ℕ) (l : Locals) → mem h (own (f p l)) ≡ (mem h (own l) || h == p))
    → Keeps own before (start c >>= λ p. modify (f p) >> pure (a p))
unfolding start modify ◌>>=◌ pure mem
Keeps-start-modify own before c f a grows = record {
  at = λ s k. elim (Result-cases (s.system.answer s.history c)) [
    | inl (u, e) ↦
        rw (e, continue, start)
          (record {
            docile = k.docile;
            covered = λ h m. ground (arith, grows s.next h s.locals, k.covered h, m);
          })
    | inr (x, e) ↦ rw (e, continue, start) (record { docile = k.docile; covered = k.covered })
  ];
}

pub listed-add_proc :
    (p h : ℕ) (l : Locals) → mem h (listed (add_proc p l)) ≡ (mem h (listed l) || h == p)
unfolding mem
listed-add_proc p h l =
    let counted = all_of (λ c. c.process ∷ []) l.counters in
    ground (
      arith,
      mem-append h (l.procs ++ p ∷ []) counted,
      mem-append h l.procs (p ∷ []),
      mem-append h l.procs counted,
    )

module _ {before : List ℕ} where
  pub Keeps-open_log : (folder : Text) → Keeps listed before (open_log folder)
  unfolding open_log
  Keeps-open_log folder =
      search (keeps_rules, λ (log : ℕ). Keeps-modify listed before (add_log log) (λ l. refl)) depth
        20

  pub Keeps-start_listed :
      (cmd : List Text) (cores : Option Text) (procs : ℕ)
      → Keeps listed before (start_listed cmd cores procs)
  unfolding start_listed
  Keeps-start_listed cmd cores procs =
      Keeps-start-modify listed before (spawn cmd cores procs) add_proc (λ p. p) listed-add_proc

  pub Keeps-launch :
      (folder : Text) (cmd : List Text) (cores : Option Text) (procs : ℕ)
      → Keeps listed before (launch folder cmd cores procs)
  unfolding launch
  Keeps-launch folder cmd cores procs =
      Keeps-bind (open_log folder) _ (Keeps-open_log folder)
        (λ _. Keeps-start_listed cmd cores procs)
