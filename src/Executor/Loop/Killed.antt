-- ===== src/Executor/Loop/Killed.antt =====
-- A kill that nothing holds up (executor/executor.go): it is done, and `Execute` comes to its end.
use mathlib.Core.Path.{subst}
use go_mesos_executor.Common.{◌≡◌, sym, ◌∙◌, ap, true, false, none, inl, inr, ◌⊎◌}
use go_mesos_executor.Common.Exec.{Result, ok, continue}
use go_mesos_executor.Container.{Containerizer}
use go_mesos_executor.Hook.{Manager}
use go_mesos_executor.Mesos.{Event, kill, shutdown, task_killed}
use go_mesos_executor.Executor.{Agent, Executor, with_outside, new_status}
use go_mesos_executor.Executor.Handlers.{report_killed, handle_kill, handle_shutdown, handle_event}
use go_mesos_executor.Executor.Loop.{handling, finished, main_steps}
use go_mesos_executor.Executor.Loop.Outcome.{main_steps-kill}
use go_mesos_executor.Executor.Obliging.{IsObliging, Reported, Closed, send, close-ok}
use go_mesos_executor.Executor.Teardown.{Listens}

module _ {O : Type 0} (c : Containerizer O) (m : Manager O) (agent : Agent O)
    (B : IsObliging c m agent) where
  -- A kill that is done: the task was torn down and reported.
  pub handle_kill-Closed :
      (e : Executor O)
      → Listens e.health_checker
      → (e' : Executor O) × (handle_kill c m agent e ≡ (ok tt, e'))
        × Closed c m task_killed none (record e { is_shutdown = true }) e'
  unfolding handle_kill report_killed new_status
  handle_kill-Closed e l =
      let (e1, torn, e2, sent, closed) =
        close-ok c m agent B task_killed none (record e { is_shutdown = true }) l in
      (
        e2,
        ap
              (λ (r : Result (Unit {0}) × Executor O).
                continue r (λ _. send c m agent B task_killed none))
              torn
            ∙ sent,
        closed,
      )

  handle_kill-ok :
      (e : Executor O)
      → Listens e.health_checker
      → (e' : Executor O) × (handle_kill c m agent e ≡ (ok tt, e')) × Reported task_killed none e'
  handle_kill-ok e l = let (e', did, closed) = handle_kill-Closed e l in (e', did, closed.reported)

  handle_event-ok :
      (event : Event) (e : Executor O)
      → (event ≡ kill) ⊎ (event ≡ shutdown)
      → Listens e.health_checker
      → (e' : Executor O) × (handle_event c m agent event e ≡ (ok tt, e'))
        × Reported task_killed none e'
  unfolding handle_event handle_shutdown
  handle_event-ok event e (inl q) l =
      subst
        (λ ev.
          (e' : Executor O) × (handle_event c m agent ev e ≡ (ok tt, e'))
          × Reported task_killed none e')
        (sym q) (handle_kill-ok e l)
  handle_event-ok event e (inr q) l =
      subst
        (λ ev.
          (e' : Executor O) × (handle_event c m agent ev e ≡ (ok tt, e'))
          × Reported task_killed none e')
        (sym q) (handle_kill-ok e l)

  -- A kill or shutdown event is done to its end, and ends `Execute` without an error: where the
  -- checker listens, the stop hooks and the engine's stop come back, with or without an error, and
  -- the agent takes the calls, the loop is over after the step of the event and two more, and the
  -- status killed waits for its acknowledgment.
  pub main_steps-killed :
      (event : Event) (e : Executor O) (o : O)
      → (event ≡ kill) ⊎ (event ≡ shutdown)
      → e.is_shutdown ≡ false
      → agent.decode e.outside ≡ (ok event, o)
      → Listens e.health_checker
      → (e' : Executor O) × (main_steps c m agent 3 handling e ≡ (ok (finished none), e'))
        × Reported task_killed none e'
  main_steps-killed event e o ends up read l =
      let (e', did, reported) = handle_event-ok event (with_outside e o) ends l in
      (e', main_steps-kill c m agent event e e' o ends up read did, reported)
