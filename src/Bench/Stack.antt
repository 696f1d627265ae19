-- ===== src/Bench/Stack.antt =====
-- Python's `contextlib.ExitStack`, and the `launch` of the trials that use it.
pub mod Laws
use project_veil.Prelude.{
  ℕ, ◌≡◌, Bool, true, false, List, [], ◌∷◌, ◌++◌, Option, none, some, Text, codes, decimal, Error,
  Result, ok, err, length,
}
use mathlib.Core.List.{reverse}
use project_veil.Exec.Calls.{open_file, close, close_tap, rmtree, open_tap, open_group}
use project_veil.Exec.{
  Callback, to_stop, to_close, to_close_tap, to_rmtree, Locals, State, Exec, pure, ◌>>=◌, ◌>>◌, ask,
  start, gets, modify, try_except,
}
use project_veil.Bench.Processes.{stop, spawn, open_log}

unfoldable pub call_back : Callback → Exec (Unit {0})
call_back (to_stop p) = stop p
call_back (to_close h) = ask (close h)
call_back (to_close_tap tap) = ask (close_tap tap)
call_back (to_rmtree path) = try_except (ask (rmtree path)) (λ _. true) (λ _. pure tt)

-- All callbacks run; an exception of one takes the place of the result so far.
unfoldable pub unwind : {A : Type 0} → List Callback → Result A → Exec A
unfolding call_back
unwind [] r s = (r, s)
unwind (c ∷ cs) r s =
    let (r', s') = call_back c s in unwind cs (elim r' [ ok _ ↦ r | err e ↦ err e ]) s'

-- `with ExitStack() as cleanup: m`; the callbacks run from the last to the first.
unfoldable pub exit_stack : {A : Type 0} → Exec A → Exec A
unfolding unwind
exit_stack m s = let (r, s') = m s in unwind (reverse s'.locals.callbacks) r s'

abbrev pub add_callback : Callback → Locals → Locals
add_callback c l = record l { callbacks = l.callbacks ++ c ∷ [] }

unfoldable pub callback : Callback → Exec (Unit {0})
callback c = modify (add_callback c)

abbrev pub add_stopped : ℕ → Locals → Locals
add_stopped p l = record l { procs = l.procs ++ p ∷ []; callbacks = l.callbacks ++ to_stop p ∷ [] }

unfoldable pub start_stopped : List Text → Exec ℕ
start_stopped cmd = do p ← start (spawn cmd none 1); modify (add_stopped p); pure p

-- The function `launch` of the trials with an `ExitStack`.
unfoldable pub launch_stacked : Text → List Text → Exec ℕ
unfolding callback start_stopped
launch_stacked folder cmd = do
  l ← gets (λ l. l)
  log ←
      ask (open_file (folder ++ (codes "/process-" ++ (decimal (length l.procs) ++ codes ".log"))))
  callback (to_close log)
  start_stopped cmd

-- A capture that is closed at the end.
unfoldable pub open_stacked_tap : ℕ → Exec ℕ
unfolding callback
open_stacked_tap port = do tap ← ask (open_tap port); callback (to_close_tap tap); pure tap

unfoldable pub open_stacked_group : ℕ → ℕ → Exec ℕ
unfolding callback
open_stacked_group port delay_ms = do
  tap ← ask (open_group port delay_ms)
  callback (to_close_tap tap)
  pure tap
