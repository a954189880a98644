-- ===== src/Executor/Loop.antt =====
-- The loop of `Execute` (executor/executor.go), and the goroutines that run beside it. A step of
-- the main goroutine is one call of the agent with what follows it. Delays are left out.
pub mod Outcome
pub mod Stable
pub mod Shutdown
pub mod Ended
pub mod Killed
pub mod FailedLaunch
use mathlib.Core.List.{Memᴰ}
use go_mesos_executor.Common.{
  ◌≡◌, Bool, true, false, Option, none, some, List, [], ◌∷◌, ◌++◌, ℕ, zero, suc, if◌then◌else◌,
}
use go_mesos_executor.Common.Exec.{
  GoError, unexpected_eof, errorf, Result, ok, err, fault, Exec, pure, attempt, settle, gets, ◌>>=◌,
  ◌>>◌,
}
use go_mesos_executor.Container.{Containerizer}
use go_mesos_executor.Hook.{Manager}
use go_mesos_executor.Mesos.{subscribe, task_running}
use go_mesos_executor.Executor.{
  Agent, Executor, Checker, active, exiting, returned, Goroutine, health_check, wait_container,
  outside, new_status, update_status,
}
use go_mesos_executor.Executor.Handlers.{
  handle_kill, handle_event, wait_for_container, get_unacked_updates,
}

-- Where the main goroutine is: before a subscription, reading events, or at the end of `Execute`
-- with the error that it returned.
pub data Phase : Type 0 where
  subscribing handling : Phase
  finished : Option GoError → Phase

-- A goroutine has returned.
unfoldable pub without : Goroutine → List Goroutine → List Goroutine
without g [] = []
without health_check (health_check ∷ gs) = gs
without health_check (wait_container ∷ gs) = wait_container ∷ without health_check gs
without wait_container (wait_container ∷ gs) = gs
without wait_container (health_check ∷ gs) = health_check ∷ without wait_container gs

module _ {O : Type 0} where
  abbrev pub without_goroutine : Goroutine → Executor O → Executor O
  without_goroutine g e = record e { goroutines = without g e.goroutines }

  -- The checker's goroutine has returned.
  abbrev pub with_returned : Checker → Executor O → Executor O
  with_returned k e = record e { health_checker = some (record k { phase = returned }) }

module _ {O : Type 0} (c : Containerizer O) (m : Manager O) (agent : Agent O) where
  -- An error while an event is decoded or handled.
  unfoldable pub on_error : GoError → Exec (Executor O) Phase
  on_error unexpected_eof = pure subscribing
  on_error (errorf text) = do attempt (handle_kill c m agent); pure (finished (some (errorf text)))

  unfoldable pub subscribe_step : Exec (Executor O) Phase
  subscribe_step = do
    updates ← get_unacked_updates c m agent
    call ← gets (λ e. subscribe updates e.executor_id e.framework_id)
    λ e. settle (outside (agent.do_call call) e) (λ _. pure subscribing) (λ _. pure handling)

  unfoldable pub event_step : Exec (Executor O) Phase
  unfolding on_error
  event_step e =
      settle (outside agent.decode e) on_error
        (λ event e'. settle (handle_event c m agent event e') on_error (λ _. pure handling))

  unfoldable pub main_step : Phase → Exec (Executor O) Phase
  unfolding subscribe_step event_step
  main_step subscribing e = if e.is_shutdown then (ok (finished none), e) else subscribe_step e
  main_step handling e = if e.is_shutdown then (ok subscribing, e) else event_step e
  main_step (finished r) e = (ok (finished r), e)

  -- Steps of the main loop with no other goroutine in between.
  unfoldable pub main_steps : ℕ → Phase → Exec (Executor O) Phase
  main_steps zero p = pure p
  main_steps (suc n) p = main_step p >>= main_steps n

  -- The goroutine `healthCheck` on a message of the checker that the health has changed.
  unfoldable pub update_health : Bool → Exec (Executor O) (Unit {0})
  update_health healthy = do
    status ← new_status agent
    update_status agent (record status { healthy = some healthy; state = some task_running })

  unfoldable pub report_health : Bool → Exec (Executor O) (Unit {0})
  report_health healthy = attempt (update_health healthy)

  -- The goroutine `healthCheck` on the checker's `Done`.
  unfoldable pub health_done : Exec (Executor O) (Unit {0})
  health_done = attempt (handle_kill c m agent)

  -- The goroutine `handleStopSignals` on SIGHUP, SIGINT or SIGTERM.
  unfoldable pub handle_stop_signal : Exec (Executor O) (Unit {0})
  handle_stop_signal = attempt (handle_kill c m agent)

  -- One step of any goroutine, which came back: the main loop, a call of another goroutine, or the
  -- checker's goroutine, which returns by itself or behind a message on `Exited`.
  pub data Step : Phase × Executor O → Phase × Executor O → Type 0 where
    main : {p q : Phase} {e e' : Executor O} → main_step p e ≡ (ok q, e') → Step (p, e) (q, e')
    health_changed :
        {p : Phase} {e e' : Executor O} (healthy : Bool)
        → Memᴰ health_check e.goroutines
        → report_health healthy e ≡ (ok tt, e')
        → Step (p, e) (p, e')
    health_ended :
        {p : Phase} {e e' : Executor O}
        → Memᴰ health_check e.goroutines
        → health_done e ≡ (ok tt, e')
        → Step (p, e) (p, without_goroutine health_check e')
    health_exited :
        {p : Phase} {e : Executor O} {k : Checker}
        → Memᴰ health_check e.goroutines
        → e.health_checker ≡ some k
        → k.phase ≡ exiting
        → Step (p, e) (p, without_goroutine health_check (with_returned k e))
    checker_returned :
        {p : Phase} {e : Executor O} {k : Checker}
        → e.health_checker ≡ some k
        → k.phase ≡ active
        → Step (p, e) (p, with_returned k e)
    container_stopped :
        {p : Phase} {e e' : Executor O} {r : Result (Unit {0})}
        → Memᴰ wait_container e.goroutines
        → wait_for_container c m agent e ≡ (r, e')
        → Step (p, e) (p, without_goroutine wait_container e')
    signalled :
        {p : Phase} {e e' : Executor O} → handle_stop_signal e ≡ (ok tt, e') → Step (p, e) (p, e')

  pub data Reach (s : Phase × Executor O) : Phase × Executor O → Type 0 where
    here : Reach s s
    next : {t u : Phase × Executor O} → Reach s t → Step t u → Reach s u
