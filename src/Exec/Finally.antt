-- ===== src/Exec/Finally.antt =====
-- Cleanup: an action that ends the processes it is given, and a function that loses none.
use project_veil.Prelude.{
  ℕ, suc, ◌≡◌, refl, ◌∙◌, ap, true, false, List, [], ◌∷◌, ◌++◌, inl, inr, Result, ok, err, arith,
  Result-cases,
}
use project_veil.Exec.Calls.{Call, made}
use project_veil.Exec.{
  Locals, no_locals, State, Exec, pure, ◌>>=◌, ◌>>◌, continue, ask, gets, for_each, try_finally,
  scoped, start,
}
use project_veil.Exec.Held.{mem, mem-append}
use project_veil.Exec.Keeps.{is_ok, Docile, Covers, Keeps}

-- From one state to a later one: the processes `ps` have ended, none was started, and the local
-- variables are as they were.
pub record Ended (ps : List ℕ) (s s' : State) : Type 1 where
  pub docile : Docile s'.system
  pub locals : s'.locals ≡ s.locals
  pub fewer : (h : ℕ) → mem h s'.held ≡ true → mem h s.held ≡ true
  pub gone : (h : ℕ) → mem h s'.held ≡ true → mem h ps ≡ false

-- The action ends `ps`, and raises nothing.
pub record Releases (ps : List ℕ) (m : Exec (Unit {0})) : Type 1 where
  pub returns : (s : State) → Docile s.system → (m s).0 ≡ ok tt
  pub ends : (s : State) → Docile s.system → Ended ps s (m s).1

Ended-refl : (s : State) → Docile s.system → Ended [] s s
unfolding mem
Ended-refl s d = record { docile = d; locals = refl; fewer = λ h m. m; gone = λ h m. refl }

pub Ended-trans :
    (ps qs : List ℕ) (s t u : State) → Ended ps s t → Ended qs t u → Ended (ps ++ qs) s u
Ended-trans ps qs s t u a b = record {
  docile = b.docile;
  locals = b.locals ∙ a.locals;
  fewer = λ h m. a.fewer h (b.fewer h m);
  gone = λ h m. ground (arith, mem-append h ps qs, a.gone h (b.fewer h m), b.gone h m);
}

pub Releases-pure : Releases [] (pure tt)
unfolding pure
Releases-pure = record { returns = λ s d. refl; ends = λ s d. Ended-refl s d }

-- A call of the system that is known to return.
pub Releases-ask :
    {A : Type 0} (c : Call A) (m : A → Exec (Unit {0}))
    → ((s : State) → Docile s.system → is_ok (s.system.answer s.history c) ≡ true)
    → (ps : List ℕ) → ((r : A) → Releases ps (m r))
    → Releases ps (ask c >>= m)
unfolding ask ◌>>=◌
Releases-ask c m fine ps rm = record {
  returns = λ s d. elim (Result-cases (s.system.answer s.history c)) [
    | inl (r, e) ↦ rw (e, continue) ((rm r).returns _ d)
    | inr (x, e) ↦ let h = fine s d in let h' = rw e at h in cc
  ];
  ends = λ s d. elim (Result-cases (s.system.answer s.history c)) [
    | inl (r, e) ↦
        let b = (rm r).ends (record s { history = s.history ++ made c ∷ [] }) d in
        rw (e, continue)
          (record { docile = b.docile; locals = b.locals; fewer = b.fewer; gone = b.gone })
    | inr (x, e) ↦ let h = fine s d in let h' = rw e at h in cc
  ];
}

pub Releases-then :
    (ps qs : List ℕ) (m n : Exec (Unit {0}))
    → Releases ps m
    → Releases qs n
    → Releases (ps ++ qs) (m >> n)
unfolding ◌>>=◌
Releases-then ps qs m n rm rn = record {
  returns = λ s d. rw (rm.returns s d, continue) (rn.returns (m s).1 (rm.ends s d).docile);
  ends = λ s d.
      rw (rm.returns s d, continue)
        (Ended-trans ps qs s (m s).1 (n (m s).1).1 (rm.ends s d)
          (rn.ends (m s).1 (rm.ends s d).docile));
}

abbrev pub all_of : {A : Type 0} → (A → List ℕ) → List A → List ℕ
all_of f [] = []
all_of f (x ∷ xs) = f x ++ all_of f xs

pub Releases-for_each :
    {A : Type 0} (f : A → List ℕ) (m : A → Exec (Unit {0})) (xs : List A)
    → ((x : A) → Releases (f x) (m x))
    → Releases (all_of f xs) (for_each xs m)
unfolding for_each
Releases-for_each f m [] r = Releases-pure
Releases-for_each f m (x ∷ xs) r =
    Releases-then (f x) (all_of f xs) (m x) (for_each xs m) (r x) (Releases-for_each f m xs r)

-- Whatever runs after the action was running before.
pub record Contained {A : Type 0} (m : Exec A) : Type 1 where
  pub docile : (s : State) → Docile s.system → Docile (m s).1.system
  pub contained :
      (s : State) → Docile s.system → (h : ℕ) → mem h (m s).1.held ≡ true → mem h s.held ≡ true

-- The body of a function starts with no process of its own.
pub Covers-begin :
    (own : Locals → List ℕ) (s : State)
    → Docile s.system
    → Covers own s.held (record s { locals = no_locals })
Covers-begin own s d = record { docile = d; covered = λ h m. ground (arith, m) }

-- `try: m  finally: f`, where the cleanup `f` of the variables ends all that the body may leave.
pub Contained-try_finally :
    {A : Type 0} (own : Locals → List ℕ) (m : Exec A) (f : Locals → Exec (Unit {0}))
    → ((before : List ℕ) → Keeps own before m)
    → ((l : Locals) → Releases (own l) (f l))
    → Contained (scoped (try_finally m (gets (λ l. l) >>= f)))
unfolding scoped try_finally gets ◌>>=◌
Contained-try_finally own m f km rf = record {
  docile = λ s d.
      let s' = (m (record s { locals = no_locals })).1 in
      ((rf s'.locals).ends s' ((km s.held).at _ (Covers-begin own s d)).docile).docile;
  contained = λ s d h k.
      let s' = (m (record s { locals = no_locals })).1 in
      let c = (km s.held).at _ (Covers-begin own s d) in
      let e = (rf s'.locals).ends s' c.docile in
      ground (arith, c.covered h (e.fewer h k), e.gone h k);
}

pub Contained-ask : {A : Type 0} (c : Call A) → Contained (ask c)
unfolding ask
Contained-ask c = record { docile = λ s d. d; contained = λ s d h k. k }

continue_docile :
    {A B : Type 0} (r : Result A) (f : A → Exec B) (s : State)
    → ((a : A) → Contained (f a))
    → Docile s.system
    → Docile (continue r f s).1.system
continue_docile (ok a) f s cf d = (cf a).docile s d
continue_docile (err e) f s cf d = d

continue-Contained :
    {A B : Type 0} (r : Result A) (f : A → Exec B) (s : State)
    → ((a : A) → Contained (f a))
    → Docile s.system
    → (h : ℕ) → mem h (continue r f s).1.held ≡ true
    → mem h s.held ≡ true
continue-Contained (ok a) f s cf d h k = (cf a).contained s d h k
continue-Contained (err e) f s cf d h k = k

pub Contained-bind :
    {A B : Type 0} (m : Exec A) (f : A → Exec B)
    → Contained m
    → ((a : A) → Contained (f a))
    → Contained (m >>= f)
unfolding ◌>>=◌
Contained-bind m f cm cf = record {
  docile = λ s d. let (r, s') = m s in continue_docile r f s' cf (cm.docile s d);
  contained = λ s d h k.
      let (r, s') = m s in cm.contained s d h (continue-Contained r f s' cf (cm.docile s d) h k);
}

-- A process that is started under a `try` of its own, whose `finally` ends it.
pub Keeps-start_finally :
    {A : Type 0} (own : Locals → List ℕ) (before : List ℕ) (c : Call (Unit {0})) (m : ℕ → Exec A)
    (f : ℕ → Exec (Unit {0}))
    → ((p : ℕ) → Keeps (λ l. p ∷ own l) before (m p))
    → ((p : ℕ) → Releases (p ∷ []) (f p))
    → Keeps own before (start c >>= λ p. try_finally (m p) (f p))
unfolding start ◌>>=◌ try_finally mem
Keeps-start_finally own before c m f km rf = record {
  at = λ s k. elim (Result-cases (s.system.answer s.history c)) [
    | inl (u, e) ↦
        let p = s.next in
        let t : State = record s {
          held = p ∷ s.held;
          next = suc p;
          history = s.history ++ made c ∷ [];
        } in
        let k' : Covers (λ l. p ∷ own l) before t = record {
          docile = k.docile;
          covered = λ h i. ground (arith, i, k.covered h);
        } in
        let j = (km p).at t k' in
        let fin = (rf p).ends (m p t).1 j.docile in
        rw (e, continue, start)
          (record {
            docile = fin.docile;
            covered = λ h i.
                let was = j.covered h (fin.fewer h i) in
                let here = ap (λ l. mem h (own l)) fin.locals in
                ground (arith, was, here, fin.gone h i);
          })
    | inr (x, e) ↦ rw (e, continue, start) (record { docile = k.docile; covered = k.covered })
  ];
}
