-- ===== src/Exec/Keeps.antt =====
-- Actions that lose no process: whatever runs after them is either running before or named by the
-- local variables that the cleanup reads. One rule for each way to build an action.
use project_veil.Prelude.{
  ℕ, ◌≡◌, Bool, true, false, ◌||◌, List, [], ◌∷◌, ◌++◌, Option, none, some, inl, inr, Text, Error,
  timeout_error, process_lookup_error, Result, ok, err, arith, guard, if◌then◌else◌, Result-cases,
  Bool-cases, codes, decimal,
}
use project_veil.Exec.Calls.{
  kill_group, Call, Made, made, poll, terminate, kill, wait, close, close_tap, unlink, run_checked,
}
use project_veil.Exec.{
  Locals, System, State, Exec, pure, raise, lift, ◌>>=◌, continue, check, ask, without, wait_for,
  poll_of, gets, for_each, map_each, handle, try_except, try_finally, when_none,
}
use project_veil.Exec.Held.{mem, mem-without}

abbrev pub is_ok : {A : Type 0} → Result A → Bool
is_ok (ok _) = true
is_ok (err _) = false

abbrev pub is_timeout : Error → Bool
is_timeout (timeout_error _) = true
is_timeout _ = false

abbrev pub is_lookup : Error → Bool
is_lookup process_lookup_error = true
is_lookup _ = false

-- The command that interrupts a process of another user.
abbrev pub interrupt_command : ℕ → List Text
interrupt_command p = codes "sudo" ∷ codes "-n" ∷ codes "kill" ∷ codes "-INT" ∷ decimal p ∷ []

-- What the cleanup of the scripts relies on: a child process can be polled, signalled and killed; a
-- wait without a limit returns right after the process, or the group it leads, was killed, and a
-- wait of ten seconds right after it was interrupted, as `perf` is; a wait with a limit raises
-- nothing but its timeout; a group of processes that cannot be killed is not found; descriptors can
-- be closed.
pub record Docile (sys : System) : Type 1 where
  pub polled : (t : List Made) (p : ℕ) → is_ok (sys.answer t (poll p)) ≡ true
  pub terminated : (t : List Made) (p : ℕ) → is_ok (sys.answer t (terminate p)) ≡ true
  pub killed : (t : List Made) (p : ℕ) → is_ok (sys.answer t (kill p)) ≡ true
  pub ended :
      (t : List Made) (p : ℕ) → is_ok (sys.answer (t ++ made (kill p) ∷ []) (wait p none)) ≡ true
  pub group_ended :
      (t : List Made) (p : ℕ)
      → is_ok (sys.answer (t ++ made (kill_group p) ∷ []) (wait p none)) ≡ true
  pub waited :
      (t : List Made) (p n : ℕ) (e : Error)
      → sys.answer t (wait p (some n)) ≡ err e
      → is_timeout e ≡ true
  pub interrupted :
      (t : List Made) (p : ℕ)
      → is_ok (sys.answer (t ++ made (run_checked (interrupt_command p)) ∷ []) (wait p (some 10)))
        ≡ true
  pub ran : (t : List Made) (cmd : List Text) → is_ok (sys.answer t (run_checked cmd)) ≡ true
  pub closed : (t : List Made) (h : ℕ) → is_ok (sys.answer t (close h)) ≡ true
  pub tap_closed : (t : List Made) (tap : ℕ) → is_ok (sys.answer t (close_tap tap)) ≡ true
  pub group_killed :
      (t : List Made) (p : ℕ) (e : Error) → sys.answer t (kill_group p) ≡ err e → is_lookup e ≡ true
  pub unlinked : (t : List Made) (path : Text) → is_ok (sys.answer t (unlink path)) ≡ true

pub record Covers (own : Locals → List ℕ) (before : List ℕ) (s : State) : Type 1 where
  pub docile : Docile s.system
  pub covered : (h : ℕ) → mem h s.held ≡ true → (mem h before || mem h (own s.locals)) ≡ true

pub record Keeps {A : Type 0} (own : Locals → List ℕ) (before : List ℕ) (m : Exec A) : Type 1 where
  pub at : (s : State) → Covers own before s → Covers own before (m s).1

-- `held` shrinks, and the rest stays.
Covers-shrink :
    (own : Locals → List ℕ) (before : List ℕ) (s : State) (p : ℕ) (t : List Made)
    → Covers own before s
    → Covers own before (record s { held = without p s.held; history = t })
Covers-shrink own before s p t c = record {
  docile = c.docile;
  covered = λ h m. ground (arith, m, mem-without h p s.held, c.covered h);
}

module _ {A : Type 0} {own : Locals → List ℕ} {before : List ℕ} where
  pub Keeps-pure : (a : A) → Keeps own before (pure a)
  unfolding pure
  Keeps-pure a = record { at = λ s c. c }

  pub Keeps-raise : (e : Error) → Keeps own before (raise {A = A} e)
  unfolding raise
  Keeps-raise e = record { at = λ s c. c }

  pub Keeps-lift : (r : Result A) → Keeps own before (lift r)
  unfolding lift
  Keeps-lift r = record { at = λ s c. c }

  pub Keeps-gets : (f : Locals → A) → Keeps own before (gets f)
  unfolding gets
  Keeps-gets f = record { at = λ s c. c }

  pub Keeps-if :
      (b : Bool) (m n : Exec A)
      → Keeps own before m
      → Keeps own before n
      → Keeps own before (if b then m else n)
  Keeps-if true m n km kn = km
  Keeps-if false m n km kn = kn

  except_at :
      (r : Result A) (caught : Error → Bool) (f : Error → Exec A) (s : State)
      → ((e : Error) → Keeps own before (f e))
      → Covers own before s
      → Covers own before (handle caught f r s).1
  except_at (ok a) caught f s kf c = c
  except_at (err e) caught f s kf c = elim (Bool-cases (caught e)) [
    | inl h ↦ rw (h, handle) ((kf e).at s c)
    | inr h ↦ rw (h, handle) c
  ]

  pub Keeps-try_finally :
      (m : Exec A) (f : Exec (Unit {0}))
      → Keeps own before m
      → Keeps own before f
      → Keeps own before (try_finally m f)
  unfolding try_finally
  Keeps-try_finally m f km kf = record { at = λ s c. let (r, s') = m s in kf.at s' (km.at s c) }

  pub Keeps-try_except :
      (m : Exec A) (caught : Error → Bool) (f : Error → Exec A)
      → Keeps own before m
      → ((e : Error) → Keeps own before (f e))
      → Keeps own before (try_except m caught f)
  unfolding try_except
  Keeps-try_except m caught f km kf = record {
    at = λ s c. let (r, s') = m s in except_at r caught f s' kf (km.at s c);
  }

module _ {own : Locals → List ℕ} {before : List ℕ} where
  pub Keeps-check : (b : Bool) (e : Error) → Keeps own before (check b e)
  unfolding check
  Keeps-check b e = Keeps-lift (guard b e)

  pub Keeps-ask : {A : Type 0} (q : Call A) → Keeps own before (ask q)
  unfolding ask
  Keeps-ask q = record { at = λ s c. record { docile = c.docile; covered = c.covered } }

  pub Keeps-wait_for : (p : ℕ) (timeout : Option ℕ) → Keeps own before (wait_for p timeout)
  unfolding wait_for
  Keeps-wait_for p timeout = record {
    at = λ s c. elim (Result-cases (s.system.answer s.history (wait p timeout))) [
      | inl (code, e) ↦ rw (e, wait_for) (Covers-shrink own before s p _ c)
      | inr (_, e) ↦ rw (e, wait_for) (record { docile = c.docile; covered = c.covered })
    ];
  }

  pub Keeps-poll_of : (p : ℕ) → Keeps own before (poll_of p)
  unfolding poll_of
  Keeps-poll_of p = record {
    at = λ s c. elim (Result-cases (s.system.answer s.history (poll p))) [
      | inl (some code, e) ↦ rw (e, poll_of) (Covers-shrink own before s p _ c)
      | inl (none, e) ↦ rw (e, poll_of) (record { docile = c.docile; covered = c.covered })
      | inr (_, e) ↦ rw (e, poll_of) (record { docile = c.docile; covered = c.covered })
    ];
  }

module _ {A B : Type 0} {own : Locals → List ℕ} {before : List ℕ} where
  continue_at :
      (r : Result A) (f : A → Exec B) (s : State)
      → ((a : A) → Keeps own before (f a))
      → Covers own before s
      → Covers own before (continue r f s).1
  continue_at (ok a) f s kf c = (kf a).at s c
  continue_at (err e) f s kf c = c

  pub Keeps-bind :
      (m : Exec A) (f : A → Exec B)
      → Keeps own before m
      → ((a : A) → Keeps own before (f a))
      → Keeps own before (m >>= f)
  unfolding ◌>>=◌
  Keeps-bind m f km kf = record {
    at = λ s c. let (r, s') = m s in continue_at r f s' kf (km.at s c);
  }

  pub Keeps-when_none :
      (o : Option A) (m n : Exec B)
      → Keeps own before m
      → Keeps own before n
      → Keeps own before (when_none o m n)
  unfolding when_none
  Keeps-when_none none m n km kn = km
  Keeps-when_none (some _) m n km kn = kn

module _ {A B : Type 0} {own : Locals → List ℕ} {before : List ℕ} where
  pub Keeps-map_each :
      (xs : List A) (f : A → Exec B)
      → ((a : A) → Keeps own before (f a))
      → Keeps own before (map_each xs f)
  unfolding map_each
  Keeps-map_each [] f kf = Keeps-pure []
  Keeps-map_each (x ∷ xs) f kf =
      Keeps-bind (f x) _ (kf x)
        (λ y. Keeps-bind (map_each xs f) _ (Keeps-map_each xs f kf) (λ ys. Keeps-pure (y ∷ ys)))

module _ {A : Type 0} {own : Locals → List ℕ} {before : List ℕ} where
  pub Keeps-for_each :
      (xs : List A) (f : A → Exec (Unit {0}))
      → ((a : A) → Keeps own before (f a))
      → Keeps own before (for_each xs f)
  unfolding for_each
  Keeps-for_each [] f kf = Keeps-pure tt
  Keeps-for_each (x ∷ xs) f kf =
      Keeps-bind (f x) (λ _. for_each xs f) (kf x) (λ _. Keeps-for_each xs f kf)

pub ruleset keeps_rules = (
  Keeps-pure, Keeps-raise, Keeps-lift, Keeps-gets, Keeps-if, Keeps-try_except, Keeps-check,
  Keeps-ask, Keeps-wait_for, Keeps-poll_of, Keeps-bind, Keeps-map_each, Keeps-for_each,
  Keeps-when_none, Keeps-try_finally,
)
