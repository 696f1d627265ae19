-- ===== src/Exec.antt =====
-- What the scripts ask of the system: an action is a function of the state that returns or raises,
-- and the state comes back beside the exception too.
pub mod Calls
pub mod Held
pub mod Keeps
pub mod Finally
pub mod Returns
use project_veil.Prelude.{
  ◌≡◌, refl, ap, ◌∙◌, ℕ, suc, ◌+◌, Bool, true, false, not, List, [], ◌∷◌, ◌++◌, Option, none, some,
  Text, Error, Result, ok, err, guard, ◌==◌, if◌then◌else◌,
}
use project_veil.Exec.Calls.{Call, Made, made, wait, poll}

-- An object of class `Perf` of veil-core/scripts/benchmark.py.
pub record Perf : Type 0 where
  pub ctl : Text
  pub ack : Text
  pub csv : Text
  pub cf : ℕ
  pub af : ℕ
  pub log : ℕ
  pub process : ℕ

-- What an `ExitStack` calls at its end.
pub data Callback : Type 0 where
  to_stop to_close to_close_tap : ℕ → Callback
  to_rmtree : Text → Callback

-- The local variables of a running function that its cleanup reads.
pub record Locals : Type 0 where
  pub procs : List ℕ
  pub logs : List ℕ
  pub counters : List Perf
  pub taps : List ℕ
  pub callbacks : List Callback

abbrev pub no_locals : Locals
no_locals = record { procs = []; logs = []; counters = []; taps = []; callbacks = [] }

-- What the next call returns or raises, which may depend on all earlier calls.
pub record System : Type 1 where
  pub answer : {A : Type 0} → List Made → Call A → Result A

-- `held` are the processes that have been started and are not known to have ended, by the number
-- each got at its start.
pub record State : Type 1 where
  pub held : List ℕ
  pub next : ℕ
  pub history : List Made
  pub system : System
  pub locals : Locals

abbrev pub Exec : Type 0 → Type 1
Exec A = State → Result A × State

module _ {A : Type 0} where
  unfoldable pub pure : A → Exec A
  pure a s = (ok a, s)

  unfoldable pub raise : Error → Exec A
  raise e s = (err e, s)

  unfoldable pub lift : Result A → Exec A
  lift r s = (r, s)

module _ {A B : Type 0} where
  abbrev pub continue : Result A → (A → Exec B) → Exec B
  continue (ok a) f s = f a s
  continue (err e) f s = (err e, s)

  infixl 5 ◌>>=◌
  unfoldable pub ◌>>=◌ : Exec A → (A → Exec B) → Exec B
  ◌>>=◌ m f s = let (r, s') = m s in continue r f s'

infixl 5 ◌>>◌
abbrev pub ◌>>◌ : {B : Type 0} → Exec (Unit {0}) → Exec B → Exec B
m >> n = m >>= λ _. n

unfoldable pub check : Bool → Error → Exec (Unit {0})
unfolding lift
check b e = lift (guard b e)

-- A call that starts and ends no process.
unfoldable pub ask : {A : Type 0} → Call A → Exec A
ask c s = (s.system.answer s.history c, record s { history = s.history ++ made c ∷ [] })

unfoldable pub without : ℕ → List ℕ → List ℕ
without h [] = []
without h (k ∷ ks) = if h == k then without h ks else k ∷ without h ks

-- A call that starts a process, which gets the next number.
unfoldable pub start : Call (Unit {0}) → Exec ℕ
start c s = elim (s.system.answer s.history c) [
  | ok _ ↦ (
    ok s.next,
    record s { held = s.next ∷ s.held; next = suc s.next; history = s.history ++ made c ∷ [] },
  )
  | err e ↦ (err e, record s { history = s.history ++ made c ∷ [] })
]

-- `p.wait(timeout)`: the process has ended if the call returns.
unfoldable pub wait_for : ℕ → Option ℕ → Exec ℕ
unfolding without
wait_for p timeout s = elim (s.system.answer s.history (wait p timeout)) [
  | ok code ↦ (
    ok code,
    record s { held = without p s.held; history = s.history ++ made (wait p timeout) ∷ [] },
  )
  | err e ↦ (err e, record s { history = s.history ++ made (wait p timeout) ∷ [] })
]

-- `p.poll()`: the process has ended if the call returns a code.
unfoldable pub poll_of : ℕ → Exec (Option ℕ)
unfolding without
poll_of p s = elim (s.system.answer s.history (poll p)) [
  | ok (some code) ↦ (
    ok (some code),
    record s { held = without p s.held; history = s.history ++ made (poll p) ∷ [] },
  )
  | ok none ↦ (ok none, record s { history = s.history ++ made (poll p) ∷ [] })
  | err e ↦ (err e, record s { history = s.history ++ made (poll p) ∷ [] })
]

unfoldable pub gets : {A : Type 0} → (Locals → A) → Exec A
gets f s = (ok (f s.locals), s)

unfoldable pub modify : (Locals → Locals) → Exec (Unit {0})
modify f s = (ok tt, record s { locals = f s.locals })

-- `m if o is None else n`
unfoldable pub when_none : {A B : Type 0} → Option A → Exec B → Exec B → Exec B
when_none none m n = m
when_none (some _) m n = n

-- `for x in xs: f(x)`
unfoldable pub for_each : {A : Type 0} → List A → (A → Exec (Unit {0})) → Exec (Unit {0})
unfolding pure ◌>>=◌
for_each [] f = pure tt
for_each (x ∷ xs) f = f x >> for_each xs f

-- `[f(x) for x in xs]`
unfoldable pub map_each : {A B : Type 0} → List A → (A → Exec B) → Exec (List B)
unfolding pure ◌>>=◌
map_each [] f = pure []
map_each (x ∷ xs) f = f x >>= λ y. map_each xs f >>= λ ys. pure (y ∷ ys)

-- `try: m  finally: f`; an exception of `f` takes the place of the result.
unfoldable pub try_finally : {A : Type 0} → Exec A → Exec (Unit {0}) → Exec A
try_finally m f s =
    let (r, s') = m s in let (r', s'') = f s' in (elim r' [ ok _ ↦ r | err e ↦ err e ], s'')

-- `try: m  except E: f(e)`; `caught` tells the exceptions that are caught.
abbrev pub handle : {A : Type 0} → (Error → Bool) → (Error → Exec A) → Result A → Exec A
handle caught f (ok a) s = (ok a, s)
handle caught f (err e) s = if caught e then f e s else (err e, s)

unfoldable pub try_except : {A : Type 0} → Exec A → (Error → Bool) → (Error → Exec A) → Exec A
try_except m caught f s = let (r, s') = m s in handle caught f r s'

pub try_except_ok :
    {A : Type 0} (m : Exec A) (caught : Error → Bool) (f : Error → Exec A) (s s' : State) {a : A}
    → m s ≡ (ok a, s')
    → try_except m caught f s ≡ (ok a, s')
unfolding try_except
try_except_ok m caught f s s' h = ap (λ o. handle caught f o.0 o.1) h

pub try_except_caught :
    {A : Type 0} (m : Exec A) (caught : Error → Bool) (f : Error → Exec A) (s s' : State)
    {e : Error}
    → m s ≡ (err e, s')
    → caught e ≡ true
    → try_except m caught f s ≡ f e s'
unfolding try_except
try_except_caught m caught f s s' h c = ap (λ o. handle caught f o.0 o.1) h ∙ rw c refl

-- A function call: its local variables are its own.
unfoldable pub scoped : {A : Type 0} → Exec A → Exec A
scoped m s =
    let (r, s') = m (record s { locals = no_locals }) in (r, record s' { locals = s.locals })
