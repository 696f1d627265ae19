-- ===== src/Exec/Returns.antt =====
-- What holds of a result, where an action returns one. One rule for each way to build an action.
use project_veil.Prelude.{
  ◌≡◌, refl, Bool, true, false, Error, Result, ok, err, ok_injective, subst, guard,
}
use project_veil.Exec.{State, Exec, pure, lift, ◌>>=◌, continue, check, try_finally, scoped}

pub record Returns {A : Type 0} (P : A → Type 0) (m : Exec A) : Type 1 where
  pub at : (s : State) (a : A) → (m s).0 ≡ ok a → P a

pub Returns-pure : {A : Type 0} (P : A → Type 0) (a : A) → P a → Returns P (pure a)
unfolding pure
Returns-pure P a p = record { at = λ s b h. subst P (ok_injective h) p }

continue_returns :
    {A B : Type 0} (P : B → Type 0) (r : Result A) (f : A → Exec B) (s : State) (b : B)
    → ((a : A) → r ≡ ok a → Returns P (f a))
    → (continue r f s).0 ≡ ok b
    → P b
continue_returns P (ok a) f s b rf h = (rf a refl).at s b h
continue_returns P (err e) f s b rf h = cc

pub Returns-bind :
    {A B : Type 0} (P : B → Type 0) (m : Exec A) (f : A → Exec B)
    → ((a : A) → Returns P (f a))
    → Returns P (m >>= f)
unfolding ◌>>=◌
Returns-bind P m f rf = record {
  at = λ s b h. continue_returns P (m s).0 f (m s).1 b (λ a _. rf a) h;
}

-- What the first action returned may be used.
pub Returns-then :
    {A B : Type 0} (Q : A → Type 0) (P : B → Type 0) (m : Exec A) (f : A → Exec B)
    → Returns Q m
    → ((a : A) → Q a → Returns P (f a))
    → Returns P (m >>= f)
unfolding ◌>>=◌
Returns-then Q P m f rm rf = record {
  at = λ s b h. continue_returns P (m s).0 f (m s).1 b (λ a e. rf a (rm.at s a e)) h;
}

pub Returns-lift :
    {A B : Type 0} (P : B → Type 0) (r : Result A) (f : A → Exec B)
    → ((a : A) → r ≡ ok a → Returns P (f a))
    → Returns P (lift r >>= f)
unfolding ◌>>=◌ lift
Returns-lift P r f rf = record { at = λ s b h. continue_returns P r f s b rf h }

pub Returns-lift_last :
    {A : Type 0} (P : A → Type 0) (r : Result A) → ((a : A) → r ≡ ok a → P a) → Returns P (lift r)
unfolding lift
Returns-lift_last P r p = record { at = λ s a h. p a h }

guard-true : (b : Bool) (e : Error) {u : Unit {0}} → guard b e ≡ ok u → b ≡ true
guard-true true e h = refl
guard-true false e h = cc

-- Behind a check, its test holds.
pub Returns-check :
    {B : Type 0} (P : B → Type 0) (b : Bool) (e : Error) (f : Unit {0} → Exec B)
    → (b ≡ true → (u : Unit {0}) → Returns P (f u))
    → Returns P (check b e >>= f)
unfolding check
Returns-check P b e f rf = Returns-lift P (guard b e) f (λ u h. rf (guard-true b e h) u)

finally_returns :
    {A : Type 0} (r : Result A) (r' : Result (Unit {0})) (a : A)
    → (elim r' as (λ _. Result A) [ ok _ ↦ r | err e ↦ err e ]) ≡ ok a
    → r ≡ ok a
finally_returns r (ok _) a h = h
finally_returns r (err e) a h = cc

pub Returns-try_finally :
    {A : Type 0} (P : A → Type 0) (m : Exec A) (f : Exec (Unit {0}))
    → Returns P m
    → Returns P (scoped (try_finally m f))
unfolding scoped try_finally
Returns-try_finally P m f rm = record { at = λ s a h. rm.at _ a (finally_returns _ _ a h) }
