-- ===== src/Executor/Threads.antt =====
-- The routines that end a task (executor/executor.go), cut into their calls, so that several
-- goroutines can be in them at once: `handleKill` of the main loop, of `healthCheck` and of
-- `handleStopSignals`, and what `waitContainer` does behind the container's end. No lock keeps them
-- apart. A run of hooks is one call.
pub mod Body
pub mod Alone
pub mod Unlocked
use mathlib.Core.List.{Memᴰ}
use mathlib.Core.Logic.{ite}
use native.Mathlib.Decide.{ℕ_discrete}
use go_mesos_executor.Common.{ℕ, suc, zero, ◌≡◌, ◌≢◌, ◌+◌, true, Option, none, some, List, [], ◌∷◌}
use go_mesos_executor.Common.Exec.{
  GoError, Result, ok, Exec, pure, raise, modify, attempt, ◌>>=◌, ◌>>◌,
}
use go_mesos_executor.Container.{Containerizer}
use go_mesos_executor.Hook.{Manager, run_pre_stop_hooks, run_post_stop_hooks}
use go_mesos_executor.Mesos.{task_finished}
use go_mesos_executor.Executor.{
  Agent, Executor, Checker, wait_container, quit_checker, on_shared, outside, new_status,
  update_status, report_failed,
}
use go_mesos_executor.Executor.Handlers.{report_killed}
use go_mesos_executor.Executor.Loop.{without_goroutine, with_returned}

-- `handleKill`, or the end of `waitContainer`, with an error if the container did not exit with 0.
pub data Routine : Type 0 where
  killing : Routine
  ending : Option GoError → Routine

-- The call that a goroutine in a routine makes next.
pub data Stage : Type 0 where
  flagging quitting pre_stopping stopping post_stopping reporting : Stage

abbrev pub stages : List Stage
stages = flagging ∷ quitting ∷ pre_stopping ∷ stopping ∷ post_stopping ∷ reporting ∷ []

abbrev pub following : Stage → Option Stage
following flagging = some quitting
following quitting = some pre_stopping
following pre_stopping = some stopping
following stopping = some post_stopping
following post_stopping = some reporting
following reporting = none

pub data Place : Type 0 where
  elsewhere : Place
  within_routine : Routine → Stage → Place

-- One goroutine in no routine, or in one.
abbrev pub update_at : (ℕ → Place) → ℕ → Place → ℕ → Place
update_at f i x j = ite (ℕ_discrete i j) x (f j)

module _ {O : Type 0} (c : Containerizer O) (m : Manager O) (agent : Agent O) where
  abbrev pub report : Routine → Exec (Executor O) (Unit {0})
  report killing = report_killed c m agent
  report (ending none) = do
    status ← new_status agent
    update_status agent (record status { state = some task_finished })
  report (ending (some x)) = do attempt (report_failed agent x); raise x

  abbrev pub flag : Routine → Exec (Executor O) (Unit {0})
  flag killing = modify (λ e. record e { is_shutdown = true })
  flag (ending x) = pure tt

  -- One call of a routine. The id of the container is read at each call.
  unfoldable pub perform : Routine → Stage → Exec (Executor O) (Unit {0})
  perform r flagging = flag r
  perform r quitting = quit_checker
  perform r pre_stopping = λ e. attempt (on_shared (run_pre_stop_hooks m e.container_id c)) e
  perform r stopping = λ e. attempt (outside (c.container_stop e.container_id)) e
  perform r post_stopping = λ e. attempt (on_shared (run_post_stop_hooks m e.container_id c)) e
  perform r reporting = report r

  unfoldable pub perform_all : Routine → List Stage → Exec (Executor O) (Unit {0})
  unfolding perform
  perform_all r [] = pure tt
  perform_all r (s ∷ ss) = do perform r s; perform_all r ss

-- The goroutines over one executor. `passed` counts the routines that have got past the health
-- checker so far.
pub record Threads (O : Type 0) : Type 0 where
  pub executor : Executor O
  pub place : ℕ → Place
  pub passed : ℕ

abbrev pub count_pass : Stage → ℕ → ℕ
count_pass quitting n = suc n
count_pass _ n = n

-- A step of one goroutine. A kill may come at any time; the end of `waitContainer` is met only by a
-- goroutine that a launch has started to wait, once. What the code does outside of these routines may change anything but the
-- checker: a launch, which makes a new checker, is left out. The checker's goroutine may return.
pub data Goes {O : Type 0} (c : Containerizer O) (m : Manager O) (agent : Agent O) (t : Threads O)
    : Threads O → Type 0 where
  kills :
      (i : ℕ)
      → t.place i ≡ elsewhere
      → Goes c m agent t
          (record t { place = update_at t.place i (within_routine killing flagging) })
  container_ends :
      (i : ℕ) (x : Option GoError)
      → t.place i ≡ elsewhere
      → Memᴰ wait_container t.executor.goroutines
      → Goes c m agent t (record t {
        executor = without_goroutine wait_container t.executor;
        place = update_at t.place i (within_routine (ending x) flagging);
      })
  calls :
      (i : ℕ) {r : Routine} {s s' : Stage} {e : Executor O}
      → t.place i ≡ within_routine r s
      → following s ≡ some s'
      → perform c m agent r s t.executor ≡ (ok tt, e)
      → Goes c m agent t (record {
        executor = e;
        place = update_at t.place i (within_routine r s');
        passed = count_pass s t.passed;
      })
  ends :
      (i : ℕ) {r : Routine} {x : Result (Unit {0})} {e : Executor O}
      → t.place i ≡ within_routine r reporting
      → perform c m agent r reporting t.executor ≡ (x, e)
      → Goes c m agent t (record t { executor = e; place = update_at t.place i elsewhere })
  others :
      {e : Executor O}
      → e.health_checker ≡ t.executor.health_checker
      → Goes c m agent t (record t { executor = e })
  checker_ends :
      {k : Checker}
      → t.executor.health_checker ≡ some k
      → Goes c m agent t (record t { executor = with_returned k t.executor })

pub data Run {O : Type 0} (c : Containerizer O) (m : Manager O) (agent : Agent O) (t : Threads O)
    : Threads O → Type 0 where
  stands : Run c m agent t t
  goes : {u v : Threads O} → Run c m agent t u → Goes c m agent u v → Run c m agent t v

-- No goroutine is in a routine.
abbrev pub quiet : {O : Type 0} → Executor O → Threads O
quiet e = record { executor = e; place = λ i. elsewhere; passed = 0 }
