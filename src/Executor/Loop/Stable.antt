-- ===== src/Executor/Loop/Stable.antt =====
-- What the executor (executor/executor.go) may change of its state, change by change, and the
-- handlers as nothing but such changes.
pub mod Steps
use mathlib.Core.Path.{subst}
use go_mesos_executor.Common.{
  ◌≡◌, refl, String, Bool, true, false, Option, none, some, List, if◌then◌else◌,
}
use go_mesos_executor.Common.Exec.{
  GoError, unexpected_eof, errorf, Result, ok, err, fault, Exec, attempt, continue, drop_error,
  continue-preserves, settle-preserves, drop_error-preserves,
}
use go_mesos_executor.Common.Table.{insert, erase}
use go_mesos_executor.Container.{Containerizer, Info}
use go_mesos_executor.Hook.{
  Shared, Manager, run_pre_create_hooks, run_pre_run_hooks, run_post_run_hooks, run_pre_stop_hooks,
  run_post_stop_hooks,
}
use go_mesos_executor.Mesos.{
  TaskInfo, HealthCheck, FrameworkInfo, ExecutorInfo, AgentInfo, TaskStatus, update, Event,
  subscribed, launch, kill, acknowledged, message, shutdown, agent_error, other_event,
}
use go_mesos_executor.Executor.{
  Agent, Executor, Checker, CheckerPhase, active, exiting, returned, Goroutine, quit_at, quit,
  quit_checker, get_memory_limit, get_cpu_shares_limit, on_shared, outside, with_outside, wrap,
  new_status, update_status, stop_task, tear_down, report_failed, throw_error,
}
use go_mesos_executor.Executor.Handlers.{
  or_throw, start_health_check, report_running, create_and_run, handle_launch, report_killed,
  handle_kill, handle_event, exit_of, finish, wait_for_container, get_unacked_updates,
}
use go_mesos_executor.Executor.Loop.{
  Phase, subscribing, handling, finished, on_error, subscribe_step, event_step, main_step,
  update_health, report_health, health_done, handle_stop_signal, Step, main, health_changed,
  health_ended, health_exited, checker_returned, container_stopped, signalled, Reach, here, next,
}

module _ {O : Type 0} (agent : Agent O) where
  -- Each change of the state that the program makes keeps `P`.
  pub record Stable (P : Executor O → Type 0) : Type 0 where
    pub sharing : (e : Executor O) (s : Shared O) → P e → P (record e { shared = s })
    pub checking : (e : Executor O) (h : Option Checker) → P e → P (record e { health_checker = h })
    pub naming : (e : Executor O) (id : String) → P e → P (record e { container_id = id })
    pub starting : (e : Executor O) (l : List Goroutine) → P e → P (record e { goroutines = l })
    pub stopping : (e : Executor O) → P e → P (record e { is_shutdown = true })
    pub subscribing_as :
        (e : Executor O) (a : AgentInfo) (x : ExecutorInfo)
        → P e
        → P (record e { agent_info = a; executor_info = x })
    pub reporting :
        (e : Executor O) (status : TaskStatus) (o o' : O)
        → agent.do_call (update status e.executor_id e.framework_id) o ≡ (ok tt, o')
        → P e
        → P (record e { unacked_updates = insert status.uuid status e.unacked_updates })
    pub forgetting :
        (e : Executor O) (uuid : String) (o o' : O)
        → agent.decode o ≡ (ok (acknowledged uuid), o')
        → P e
        → P (record e { unacked_updates = erase uuid e.unacked_updates })

module _ {O : Type 0} (c : Containerizer O) (m : Manager O) (agent : Agent O)
    {P : Executor O → Type 0} (st : Stable agent P) where
  open st use {sharing, checking, naming, starting, stopping, subscribing_as, reporting, forgetting}

  abbrev pub Keeps : {A : Type 0} → Exec (Executor O) A → Type 0
  Keeps n = (e : Executor O) → P e → P (n e).1

  quit_at-Keeps : (p : CheckerPhase) (k : Checker) → Keeps (quit_at p k)
  quit_at-Keeps active k e h = checking e _ h
  quit_at-Keeps exiting k e h = h
  quit_at-Keeps returned k e h = h

  quit-Keeps : (o : Option Checker) → Keeps (quit o)
  quit-Keeps none e h = h
  quit-Keeps (some k) e h = quit_at-Keeps k.phase k e h

  pub tear_down-Keeps : Keeps (tear_down c m)
  unfolding tear_down quit_checker stop_task
  tear_down-Keeps e h =
      continue-preserves P (quit_checker e) _ (quit-Keeps e.health_checker e h) (λ _ e1 h1.
        let pre = on_shared (run_pre_stop_hooks m e1.container_id c) in
        let stop = outside (c.container_stop e1.container_id) in
        let post = on_shared (run_post_stop_hooks m e1.container_id c) in
        continue-preserves P (attempt pre e1) _ (drop_error-preserves P (pre e1) (sharing e1 _ h1))
          (λ _ e2 h2.
            continue-preserves P (attempt stop e2) _
              (drop_error-preserves P (stop e2) (sharing e2 _ h2))
              (λ _ e3 h3. drop_error-preserves P (post e3) (sharing e3 _ h3))))

  called-Keeps :
      (status : TaskStatus) (e : Executor O) (r : Result (Unit {0}) × O)
      → agent.do_call (update status e.executor_id e.framework_id) e.outside ≡ r
      → P e
      → P
          (continue {B = Unit {0}}
            (r.0, with_outside e r.1)
            (λ _ e1. (
              ok tt,
              record e1 { unacked_updates = insert status.uuid status e1.unacked_updates },
            ))).1
  called-Keeps status e (ok u, o) eq h = reporting (with_outside e o) status _ o eq (sharing e _ h)
  called-Keeps status e (err x, o) eq h = sharing e _ h
  called-Keeps status e (fault x, o) eq h = sharing e _ h

  pub update_status-Keeps : (status : TaskStatus) → Keeps (update_status agent status)
  unfolding update_status
  update_status-Keeps status e h = called-Keeps status e _ refl h

  -- A fresh status, then something with it.
  pub with_status-Keeps :
      {A : Type 0} (f : TaskStatus → Exec (Executor O) A)
      → ((status : TaskStatus) → Keeps (f status))
      → (e : Executor O) → P e
      → P (continue (new_status agent e) f).1
  unfolding new_status
  with_status-Keeps f k e h = k _ _ (sharing e _ h)

  pub throw_error-Keeps : (A : Type 0) (x : GoError) → Keeps (throw_error c m agent {A = A} x)
  unfolding throw_error report_failed
  throw_error-Keeps A x e h =
      continue-preserves P (tear_down c m e) _ (tear_down-Keeps e h) (λ _ e1 h1.
        continue-preserves P (attempt (report_failed agent x) e1) _
          (drop_error-preserves P (report_failed agent x e1)
            (with_status-Keeps (λ s. update_status agent _) (λ s. update_status-Keeps _) e1 h1))
          (λ _ e2 h2. h2))

  pub or_throw-Keeps :
      {A B : Type 0} (n : Exec (Executor O) A) (text : String) (f : A → Exec (Executor O) B)
      → Keeps n
      → ((a : A) → Keeps (f a))
      → Keeps (or_throw c m agent n text f)
  or_throw-Keeps {B} n text f k g e h =
      settle-preserves P (n e) _ f (k e h) (λ x s. throw_error-Keeps B (wrap text x) s) g

  start_health_check-Keeps :
      (id : String) (o : Option HealthCheck) → Keeps (start_health_check c m agent id o)
  unfolding start_health_check
  start_health_check-Keeps id none e h = h
  start_health_check-Keeps id (some k) e h =
      or_throw-Keeps (outside (c.container_get_pid id)) _ _ (λ s q. sharing s _ q)
        (λ a s q. starting _ _ (checking s _ q)) e h

  report_running-Keeps : Keeps (report_running c m agent)
  unfolding report_running
  report_running-Keeps =
      with_status-Keeps _
        (λ s. or_throw-Keeps (update_status agent _) _ _ (update_status-Keeps _) (λ a s q. q))

  create_and_run-Keeps : (info : Info) → Keeps (create_and_run c m agent info)
  unfolding create_and_run
  create_and_run-Keeps info =
      or_throw-Keeps (outside (c.container_create info)) _ _ (λ s q. sharing s _ q)
        (λ id e1 h1.
          or_throw-Keeps (on_shared (run_pre_run_hooks m id c)) _ _ (λ s q. sharing s _ q)
            (λ _.
              or_throw-Keeps (outside (c.container_run id)) _ _ (λ s q. sharing s _ q)
                (λ _.
                  or_throw-Keeps (on_shared (run_post_run_hooks m id c)) _ _ (λ s q. sharing s _ q)
                    (λ _ e4 h4.
                      let check = e4.task_info.health_check in
                      continue-preserves P (start_health_check c m agent id check e4) _
                        (start_health_check-Keeps id check e4 h4)
                        (λ _ e5 h5.
                          continue-preserves P (report_running c m agent e5) _
                            (report_running-Keeps e5 h5) (λ _ e6 h6. starting e6 _ h6)))))
            _ (naming e1 id h1))

  handle_launch-Keeps : (task : TaskInfo) → Keeps (handle_launch c m agent task)
  unfolding handle_launch
  handle_launch-Keeps task e h =
      or_throw-Keeps (λ e. (get_memory_limit task, e)) _ _ (λ e h. h)
        (λ mem.
          or_throw-Keeps (λ e. (get_cpu_shares_limit task, e)) _ _ (λ e h. h)
            (λ cpu e2 h2.
              or_throw-Keeps (on_shared (run_pre_create_hooks m c)) _ _ (λ s q. sharing s _ q)
                (λ _ e3 h3. create_and_run-Keeps _ e3 h3) e2 h2))
        _ (sharing e _ h)

  -- A kill keeps what holds once the flag is set.
  pub killed-Keeps :
      (e : Executor O) → P (record e { is_shutdown = true }) → P (handle_kill c m agent e).1
  unfolding handle_kill report_killed
  killed-Keeps e h =
      continue-preserves P (tear_down c m (record e { is_shutdown = true })) _ (tear_down-Keeps _ h)
        (λ _ e1 h1. with_status-Keeps _ (λ s. update_status-Keeps _) e1 h1)

  pub handle_kill-Keeps : Keeps (handle_kill c m agent)
  handle_kill-Keeps e h = killed-Keeps e (stopping e h)

  pub handle_event-Keeps :
      (event : Event) (o o' : O)
      → agent.decode o ≡ (ok event, o')
      → Keeps (handle_event c m agent event)
  unfolding handle_event
  handle_event-Keeps (subscribed a x f) o o' eq e h = subscribing_as _ a x (sharing e _ h)
  handle_event-Keeps (launch task) o o' eq e h = handle_launch-Keeps task e h
  handle_event-Keeps kill o o' eq e h = handle_kill-Keeps e h
  handle_event-Keeps (acknowledged uuid) o o' eq e h = forgetting e uuid o o' eq h
  handle_event-Keeps (message text) o o' eq e h = h
  handle_event-Keeps shutdown o o' eq e h = handle_kill-Keeps e h
  handle_event-Keeps (agent_error text) o o' eq e h = h
  handle_event-Keeps other_event o o' eq e h = h
